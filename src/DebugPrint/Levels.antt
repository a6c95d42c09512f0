-- ===== src/DebugPrint/Levels.antt =====
-- What a sequence of calls of debug_print.cpp writes.
use mathlib.Core.List.{append-nil, append_assoc}
use gittest.Prelude.{
  ◌≡◌, ◌∙◌, sym, inl, inr, Bool, true, ◌&&◌, not, List, [], ◌∷◌, ◌++◌, take, if◌then◌else◌,
  Bool-cases,
}
use gittest.Prelude.Int.{ℤ, ltb_ℤ}
use gittest.Utils.Chars.{Text}
use gittest.DebugPrint.{
  Output, to_syslog, to_stdout, Debug, debug_level_fatal, debug_level_debug, dbg_level_set,
  dbg_print,
}

pub data Call : Type 0 where
  level_set : ℤ → Call
  print : ℤ → Text → Call

pub run : List Call → Debug → Debug
run [] s = s
run (level_set level ∷ calls) s = run calls (dbg_level_set level s).1
run (print level msg ∷ calls) s = run calls (dbg_print level msg s)

-- From FATAL to DEBUG.
abbrev pub valid : ℤ → Bool
valid level = not (ltb_ℤ debug_level_debug level) && not (ltb_ℤ level debug_level_fatal)

-- The output described, from the last valid level that was set.
abbrev pub written : ℤ → List Call → List Output
written n [] = []
written n (level_set level ∷ calls) = written (if valid level then level else n) calls
written n (print level msg ∷ calls) =
    let rest = written n calls in
    if ltb_ℤ n level then rest else to_syslog (take 2047 msg) ∷ to_stdout (take 2047 msg) ∷ rest

-- Whatever calls are made, the level stays one from FATAL to DEBUG, and each message whose level is not above
-- the last valid one that was set is written once to the system log and once to the terminal, in order,
-- and no other.
pub dbg_run_lem :
    (calls : List Call) (s : Debug)
    → valid s.debug_level ≡ true
    → (valid (run calls s).debug_level ≡ true)
      × ((run calls s).output ≡ s.output ++ written s.debug_level calls)
unfolding run dbg_level_set dbg_print
dbg_run_lem [] s v = (v, sym (append-nil s.output))
dbg_run_lem (level_set level ∷ calls) s v = elim (Bool-cases (valid level)) [
  | inl ok ↦ rw (ok, run, dbg_level_set) (dbg_run_lem calls (record s { debug_level = level }) ok)
  | inr bad ↦ rw (bad, run, dbg_level_set) (dbg_run_lem calls s v)
]
dbg_run_lem (print level msg ∷ calls) s v = elim (Bool-cases (ltb_ℤ s.debug_level level)) [
  | inl above ↦ rw (above, run, dbg_print) (dbg_run_lem calls s v)
  | inr low ↦
      let two = to_syslog (take 2047 msg) ∷ to_stdout (take 2047 msg) ∷ [] in
      let (w, e) = dbg_run_lem calls (record s { output = s.output ++ two }) v in
      rw (low, run, dbg_print) (w, e ∙ append_assoc s.output two (written s.debug_level calls))
]
