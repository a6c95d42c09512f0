-- ===== src/DebugPrint.antt =====
-- debug_print.cpp and debug_print.h: messages below a level, to the system log and to the terminal.
pub mod Levels
use gittest.Prelude.{
  ℕ, Bool, true, false, ◌&&◌, not, Option, none, some, List, [], ◌∷◌, ◌++◌, take, if◌then◌else◌,
}
use gittest.Prelude.Int.{ℤ, pos, negsuc, ltb_ℤ}
use gittest.Utils.Chars.{Text}

pub data Output : Type 0 where
  to_syslog : Text → Output
  to_stdout : Text → Output

-- The static variable, and what has been written.
pub record Debug : Type 0 where
  pub debug_level : ℤ
  pub output : List Output

abbrev pub debug_level_fatal : ℤ
debug_level_fatal = pos 1

abbrev pub debug_level_debug : ℤ
debug_level_debug = pos 5

abbrev pub initial : Debug
initial = record { debug_level = debug_level_debug; output = [] }

pub dbg_level_set : ℤ → Debug → ℤ × Debug
dbg_level_set level s =
    if not (ltb_ℤ debug_level_debug level) && not (ltb_ℤ level debug_level_fatal)
    then (pos 0, record s { debug_level = level })
    else (negsuc 0, s)

-- `msg` is what the format and its arguments stand for; the buffer has 2048 bytes, the last one for the
-- terminator.
pub dbg_print : ℤ → Text → Debug → Debug
dbg_print level msg s = if ltb_ℤ s.debug_level level then s else record s {
  output = s.output ++ to_syslog (take 2047 msg) ∷ to_stdout (take 2047 msg) ∷ [];
}

-- `decimal` is what "%d" stands for. The buffer has 128 bytes.
abbrev pub xstrerror : (ℤ → Text) → (ℤ → Option Text) → ℤ → Text
xstrerror decimal strerror errno =
    let shown = λ (errmsg : Text). take 127 ((b'(' ∷ decimal errno) ++ b')' ∷ b' ' ∷ errmsg) in
    let unknown : Text =
      b'U' ∷ b'n' ∷ b'k' ∷ b'n' ∷ b'o' ∷ b'w' ∷ b'n' ∷ b' ' ∷ b'e' ∷ b'r' ∷ b'r' ∷ b'o' ∷ b'r'
      ∷ [] in
    elim (strerror errno) [
      | none ↦ shown unknown
      | some errmsg ↦ elim errmsg [ [] ↦ shown unknown | c ∷ cs ↦ shown (c ∷ cs) ]
    ]
