-- ===== src/Mylog.antt =====
-- mylog.c: the level filter, and where a message goes. The two static variables and what has been
-- written are the state; a callback is any value that the program registers.
pub mod Filter
use gittest.Prelude.{ℕ, zero, suc, Option, none, some, List, [], ◌∷◌, ◌++◌, take, if◌then◌else◌}
use gittest.Prelude.Int.{ℤ, pos, negsuc, ltb_ℤ}
use gittest.Utils.Chars.{Text}

-- A message as it is handed out: to the callback, or to stderr as a severity and a text.
pub data Output (C : Type 0) : Type 0 where
  to_callback : C → ℤ → Text → Output C
  to_stderr : Text → Text → Output C

pub record Mylog (C : Type 0) : Type 0 where
  pub log_fn : Option C
  pub level : ℤ
  pub output : List (Output C)

abbrev pub severity_str : ℤ → Text
severity_str (pos zero) = b'd' ∷ b'e' ∷ b'b' ∷ b'u' ∷ b'g' ∷ []
severity_str (pos (suc zero)) = b'm' ∷ b's' ∷ b'g' ∷ []
severity_str (pos (suc (suc zero))) = b'w' ∷ b'a' ∷ b'r' ∷ b'n' ∷ []
severity_str (pos (suc (suc (suc zero)))) = b'e' ∷ b'r' ∷ b'r' ∷ []
severity_str _ = b'?' ∷ b'?' ∷ b'?' ∷ []

module _ {C : Type 0} where
  -- The static variables as they are initialised.
  abbrev pub initial : Mylog C
  initial = record { log_fn = none; level = pos 0; output = [] }

  unfoldable pub mylog_set_log_callback : Option C → Mylog C → Mylog C
  mylog_set_log_callback cb s = record s { log_fn = cb }

  unfoldable pub mylog_set_log_level : ℤ → Mylog C → Mylog C
  mylog_set_log_level log_level s = record s { level = log_level }

  abbrev pub destination : Option C → ℤ → Text → Output C
  destination none severity msg = to_stderr (severity_str severity) msg
  destination (some cb) severity msg = to_callback cb severity msg

  unfoldable pub mylog_log : ℤ → Text → Mylog C → Mylog C
  mylog_log severity msg s =
      if ltb_ℤ severity s.level
      then s
      else record s { output = s.output ++ destination s.log_fn severity msg ∷ [] }

  -- `formatted` is what the format and its arguments stand for, `none` a null format. The buffer has
  -- 1024 bytes, the last one for the terminator.
  unfoldable pub mylog_logv_ : ℤ → Option Text → Mylog C → Mylog C
  unfolding mylog_log
  mylog_logv_ severity none s = mylog_log severity [] s
  mylog_logv_ severity (some formatted) s = mylog_log severity (take 1023 formatted) s

  unfoldable pub mylog_loging : ℤ → Option Text → Mylog C → Mylog C
  unfolding mylog_logv_
  mylog_loging severity formatted s = mylog_logv_ severity formatted s
