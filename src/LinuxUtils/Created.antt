-- ===== src/LinuxUtils/Created.antt =====
-- What `create_path` leaves in the file system.
use gittest.Prelude.{
  ℕ, ◌≤◌, ◌<◌, ◌≡◌, ◌≢◌, ◌⊎◌, if◌then◌else◌, Bool, true, false, Option, none, some, List, [], ◌∷◌,
  ◌++◌, length,
}
use gittest.Prelude.Int.{ℤ, pos, negsuc}
use gittest.Utils.Chars.{Text}
use gittest.LinuxUtils.{FileSystem, slash, is_negative, path_loop, starts_with_slash}
use gittest.LinuxUtils.Prefixes.{prefixes}

-- The two kinds of path that are turned away before anything is looked at, and the others.
abbrev pub TurnedAway : Text → Type 0
TurnedAway path = (4096 ≤ length path) ⊎ (starts_with_slash (path ++ slash ∷ []) ≡ false)

abbrev pub IsTaken : Text → Type 0
IsTaken path = (length path < 4096) × (starts_with_slash (path ++ slash ∷ []) ≡ true)

module _ {S : Type 0} (fs : FileSystem S) where
  abbrev pub AllDirs : S → List Text → Type 0
  AllDirs s [] = Unit
  AllDirs s (d ∷ ds) = (fs.lstat s d ≡ some true) × AllDirs s ds

  -- In the state `s`, the paths of the list are directories up to one that is not and that cannot be made.
  pub data Refused (s : S) : List Text → Type 0 where
    here :
        {d : Text} {ds : List Text}
        → fs.lstat s d ≢ some true
        → fs.mkdir s d ≡ none
        → Refused s (d ∷ ds)
    later :
        {d : Text} {ds : List Text} → fs.lstat s d ≡ some true → Refused s ds → Refused s (d ∷ ds)

  -- From `s` to `s'` in which the directories `ds` are made, up to the one that `mkdir` refuses; each is made
  -- only where it is not there.
  pub data Made : S → List Text → S → Type 0 where
    all_made : {s : S} → Made s [] s
    is_there :
        {s s' : S} {d : Text} {ds : List Text}
        → fs.lstat s d ≡ some true
        → Made s ds s'
        → Made s (d ∷ ds) s'
    is_made :
        {s s1 s' : S} {d : Text} {ds : List Text}
        → fs.lstat s d ≢ some true
        → fs.mkdir s d ≡ some s1
        → Made s1 ds s'
        → Made s (d ∷ ds) s'
    is_refused :
        {s : S} {d : Text} {ds : List Text}
        → fs.lstat s d ≢ some true
        → fs.mkdir s d ≡ none
        → Made s (d ∷ ds) s

  -- The outcome where the directories `ds` are wanted; what was a directory is one.
  abbrev pub Outcome : S → List Text → ℤ → S → Type 0
  Outcome s ds res s' =
      (((res ≡ pos 0) × AllDirs s' ds) ⊎ ((res ≡ negsuc 0) × Refused s' ds))
      × Made s ds s'
      × ((q : Text) → fs.lstat s q ≡ some true → fs.lstat s' q ≡ some true)

  -- One directory: it was there, or it has been made, or it could not.
  abbrev pub Ensured : S → Text → Option S → Type 0
  Ensured s d none = (fs.lstat s d ≢ some true) × (fs.mkdir s d ≡ none)
  Ensured s d (some s') =
      (((fs.lstat s d ≡ some true) × (s' ≡ s))
        ⊎ ((fs.lstat s d ≢ some true) × (fs.mkdir s d ≡ some s')))
      × (fs.lstat s' d ≡ some true)
      × ((q : Text) → fs.lstat s q ≡ some true → fs.lstat s' q ≡ some true)

  abbrev ensured_as : S → Text → Option Bool → Option S
  ensured_as s d o =
      let code : ℤ = elim o [ none ↦ negsuc 0 | some t ↦ if t then pos 0 else negsuc 0 ] in
      if is_negative code then fs.mkdir s d else some s

  Looped : ℕ → S → Text → Text → Type 0
  Looped f s before rest =
      (res : ℤ) × (s' : S) × (path_loop fs f s before rest ≡ some (res, s'))
      × Outcome s (prefixes true before rest) res s'
