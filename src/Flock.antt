-- ===== src/Flock.antt =====
-- utils.c, `flock_exlock`, `flock_shlock` and `flock_unlock`. The kernel is a parameter.
pub mod Balance
use gittest.Prelude.{ℕ, Bool, true, false, Option, none, some, if◌then◌else◌}
use gittest.Prelude.Int.{ℤ, pos, negsuc}
use gittest.Utils.Chars.{Text}

pub data Operation : Type 0 where
  lock_ex : Operation
  lock_sh : Operation
  lock_un : Operation

-- `open` gives `none` where it fails, else the new descriptor; `flock` says whether it succeeds. Calls
-- change the state of the kernel.
pub record Kernel (S : Type 0) : Type 0 where
  pub open_file : S → Text → Option ℕ × S
  pub flock : S → ℕ → Operation → Bool × S
  pub close : S → ℕ → S

module _ {S : Type 0} (kernel : Kernel S) where
  -- What follows the `open`, with the lock that is asked for.
  abbrev pub lock_opened : Operation → Option ℕ × S → ℤ × S
  lock_opened op (none, s) = (negsuc 0, s)
  lock_opened op (some lockfd, s) =
      let (ok, s') = kernel.flock s lockfd op in
      if ok then (pos lockfd, s') else (negsuc 1, kernel.close s' lockfd)

  unfoldable pub flock_exlock : Text → S → ℤ × S
  flock_exlock lock_file s = lock_opened lock_ex (kernel.open_file s lock_file)

  unfoldable pub flock_shlock : Text → S → ℤ × S
  flock_shlock lock_file s = lock_opened lock_sh (kernel.open_file s lock_file)

  unfoldable pub flock_unlock : ℕ → S → S
  flock_unlock fd s = kernel.close (kernel.flock s fd lock_un).1 fd
