-- ===== src/Mylog/Filter.antt =====
-- What a sequence of calls of mylog.c writes.
use mathlib.Core.List.{append-nil, append_assoc}
use gittest.Prelude.{
  zero, suc, ap, get_or, ◌≡◌, refl, Option, none, some, List, [], ◌∷◌, ◌++◌, ◌∙◌, take,
  if◌then◌else◌, Bool-cases, inl, inr,
}
use gittest.Prelude.Int.{ℤ, pos, negsuc, ltb_ℤ}
use gittest.Utils.Chars.{Text}
use gittest.Mylog.{
  Output, to_callback, to_stderr, Mylog, severity_str, destination, mylog_set_log_callback,
  mylog_set_log_level, mylog_log, mylog_logv_, mylog_loging,
}

-- The calls of the three functions.
pub data Call (C : Type 0) : Type 0 where
  set_callback : Option C → Call C
  set_level : ℤ → Call C
  loging : ℤ → Option Text → Call C

-- The text that the buffer of 1024 bytes holds.
abbrev pub shown : Option Text → Text
shown none = []
shown (some msg) = take 1023 msg

-- The names that stderr shows for the severities 0 to 3; any other has three question marks.
abbrev pub names : List Text
names =
    (b'd' ∷ b'e' ∷ b'b' ∷ b'u' ∷ b'g' ∷ [])
    ∷ (b'm' ∷ b's' ∷ b'g' ∷ [])
    ∷ (b'w' ∷ b'a' ∷ b'r' ∷ b'n' ∷ [])
    ∷ (b'e' ∷ b'r' ∷ b'r' ∷ [])
    ∷ []

abbrev pub name : ℤ → Text
name (pos n) = get_or names n (b'?' ∷ b'?' ∷ b'?' ∷ [])
name (negsuc n) = b'?' ∷ b'?' ∷ b'?' ∷ []

name_lem : (severity : ℤ) → severity_str severity ≡ name severity
name_lem (pos zero) = refl
name_lem (pos (suc zero)) = refl
name_lem (pos (suc (suc zero))) = refl
name_lem (pos (suc (suc (suc zero)))) = refl
name_lem (pos (suc (suc (suc (suc n))))) = refl
name_lem (negsuc n) = refl

module _ {C : Type 0} where
  -- Where a message is wanted.
  abbrev pub handed : Option C → ℤ → Text → Output C
  handed none severity msg = to_stderr (name severity) msg
  handed (some cb) severity msg = to_callback cb severity msg

  destination_lem :
      (cb : Option C) (severity : ℤ) (msg : Text)
      → destination cb severity msg ≡ handed cb severity msg
  destination_lem none severity msg = ap (λ n. to_stderr n msg) (name_lem severity)
  destination_lem (some cb) severity msg = refl

  pub run : List (Call C) → Mylog C → Mylog C
  run [] s = s
  run (set_callback cb ∷ calls) s = run calls (mylog_set_log_callback cb s)
  run (set_level n ∷ calls) s = run calls (mylog_set_log_level n s)
  run (loging severity msg ∷ calls) s = run calls (mylog_loging severity msg s)

  -- The output described: from the callback and the level that are set when a call is made.
  pub written : Option C → ℤ → List (Call C) → List (Output C)
  written cb n [] = []
  written cb n (set_callback cb' ∷ calls) = written cb' n calls
  written cb n (set_level n' ∷ calls) = written cb n' calls
  written cb n (loging severity msg ∷ calls) =
      let rest = written cb n calls in
      if ltb_ℤ severity n then rest else handed cb severity (shown msg) ∷ rest

  log_lem :
      (severity : ℤ) (msg : Text) (calls : List (Call C)) (s : Mylog C)
      → ((t : Mylog C) → (run calls t).output ≡ t.output ++ written t.log_fn t.level calls)
      → (run calls (mylog_log severity msg s)).output
        ≡ s.output
          ++ (let rest = written s.log_fn s.level calls in
              if ltb_ℤ severity s.level then rest else handed s.log_fn severity msg ∷ rest)
  unfolding mylog_log
  log_lem severity msg calls s later = elim (Bool-cases (ltb_ℤ severity s.level)) [
    | inl low ↦ rw low (later s)
    | inr high ↦
        let d = destination s.log_fn severity msg in
        rw high (
          later (record s { output = s.output ++ d ∷ [] })
          ∙ append_assoc s.output (d ∷ []) (written s.log_fn s.level calls)
          ∙ ap (λ x. s.output ++ x ∷ written s.log_fn s.level calls)
              (destination_lem s.log_fn severity msg))
  ]

  -- Whatever calls are made in whatever order, the output is extended by exactly the messages whose
  -- severity is not below the level set last, in order, each to the callback set last, or where that
  -- is null to stderr, under the name of its severity.
  pub mylog_run_lem :
      (calls : List (Call C)) (s : Mylog C)
      → (run calls s).output ≡ s.output ++ written s.log_fn s.level calls
  unfolding run written mylog_set_log_callback mylog_set_log_level mylog_logv_ mylog_loging
  mylog_run_lem [] s = rw append-nil refl
  mylog_run_lem (set_callback cb ∷ calls) s = mylog_run_lem calls (mylog_set_log_callback cb s)
  mylog_run_lem (set_level n ∷ calls) s = mylog_run_lem calls (mylog_set_log_level n s)
  mylog_run_lem (loging severity none ∷ calls) s = log_lem severity [] calls s (mylog_run_lem calls)
  mylog_run_lem (loging severity (some msg) ∷ calls) s =
      log_lem severity (take 1023 msg) calls s (mylog_run_lem calls)
