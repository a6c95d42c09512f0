-- ===== src/Tests/System.antt =====
-- Logging, directories and file locks, with a small system.
use gittest.Prelude.{
  ℕ, ◌≡◌, refl, ◌==◌, ◌&&◌, ◌||◌, Bool, true, false, Option, none, some, List, [], ◌∷◌, arith,
  if◌then◌else◌,
}
use gittest.Prelude.Int.{pos}
use gittest.Utils.Chars.{Text}
use gittest.Mylog.{initial}
use gittest.Mylog.Filter.{Call, set_level, loging, run, written, mylog_run_lem}
use gittest.LinuxUtils.{FileSystem}
use gittest.Flock.{Kernel, flock_exlock, flock_shlock, flock_unlock}
use gittest.Flock.Balance.{Descriptors, Balanced, flock_lem}

abbrev three_calls : List (Call ℕ)
three_calls = loging (pos 0) (some (b'a' ∷ [])) ∷ set_level (pos 2) ∷ loging (pos 1) none ∷ []

mylog_run_lem_example : (run three_calls initial).output ≡ written none (pos 0) three_calls
mylog_run_lem_example = mylog_run_lem three_calls initial

-- A file system is the list of its directories.
abbrev eq_text : Text → Text → Bool
eq_text [] [] = true
eq_text [] (d ∷ t) = false
eq_text (c ∷ s) [] = false
eq_text (c ∷ s) (d ∷ t) = (c == d) && eq_text s t

eq_text_refl : (s : Text) → eq_text s s ≡ true
eq_text_refl [] = refl
eq_text_refl (c ∷ s) = ground (arith, eq_text_refl s)

abbrev has_dir : Text → List Text → Bool
has_dir p [] = false
has_dir p (q ∷ ds) = eq_text p q || has_dir p ds

abbrev lstat_of : List Text → Text → Option Bool
lstat_of ds p = if has_dir p ds then some true else none

makes : (s s' : List Text) (p : Text) → some (p ∷ s) ≡ some s' → lstat_of s' p ≡ some true
makes s s' p e = let same : s' ≡ p ∷ s = cc e in rw (same, eq_text_refl p) refl

keeps :
    (s s' : List Text) (p q : Text)
    → some (p ∷ s) ≡ some s'
    → lstat_of s q ≡ some true
    → lstat_of s' q ≡ some true
keeps s s' p q e h = let same : s' ≡ p ∷ s = cc e in rw same (ground arith)

abbrev directories : FileSystem (List Text)
directories = record {
  lstat = lstat_of;
  mkdir = λ ds p. some (p ∷ ds);
  mkdir_makes = makes;
  mkdir_keeps = keeps;
}

-- "/a/b"
abbrev path : Text
path = b'/' ∷ b'a' ∷ b'/' ∷ b'b' ∷ []

-- A kernel with the one descriptor 3: its state says whether it is open.
abbrev open_three : Bool → Option ℕ × Bool
open_three false = (some 3, true)
open_three true = (none, true)

abbrev one_file : Kernel Bool
one_file = record {
  open_file = λ s p. open_three s;
  flock = λ s fd op. (true, s);
  close = λ s fd. if fd == 3 then false else s;
}

abbrev three_open : Bool → ℕ → Bool
three_open s q = if q == 3 then s else false

opens_new : (s : Bool) (fd : ℕ) (s' : Bool) → open_three s ≡ (some fd, s') → three_open s fd ≡ false
opens_new false fd s' e = ground arith
opens_new true fd s' e = ground arith

opens_adds :
    (s : Bool) (fd : ℕ) (s' : Bool) (q : ℕ)
    → open_three s ≡ (some fd, s')
    → three_open s' q ≡ (if q == fd then true else three_open s q)
opens_adds false fd s' q e = ground arith
opens_adds true fd s' q e = ground arith

opens_not : (s s' : Bool) (q : ℕ) → open_three s ≡ (none, s') → three_open s' q ≡ three_open s q
opens_not false s' q e = ground arith
opens_not true s' q e = ground arith

closes :
    (s : Bool) (fd q : ℕ)
    → three_open (if fd == 3 then false else s) q ≡ (if q == fd then false else three_open s q)
closes s fd q = ground arith

abbrev one_file_ds : Descriptors one_file
one_file_ds = record {
  is_open = three_open;
  open_new = λ s p fd s' e. opens_new s fd s' e;
  open_adds = λ s p fd s' q e. opens_adds s fd s' q e;
  open_fails = λ s p s' q e. opens_not s s' q e;
  flock_keeps = λ s fd q op. refl;
  close_removes = λ s fd q. closes s fd q;
}

flock_lem_example :
    Balanced one_file one_file_ds false (flock_exlock one_file path false)
    × Balanced one_file one_file_ds false (flock_shlock one_file path false)
    × ((q : ℕ)
        → three_open (flock_unlock one_file 3 false) q
          ≡ (if q == 3 then false else three_open false q))
flock_lem_example = flock_lem one_file one_file_ds false path 3
