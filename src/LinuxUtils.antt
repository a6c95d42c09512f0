-- ===== src/LinuxUtils.antt =====
-- linux_utils.c: the file system is a parameter, with what `lstat` and `mkdir` tell the code.
pub mod Prefixes
pub mod Created
use gittest.Prelude.{
  ℕ, zero, suc, ◌≡◌, Bool, true, false, Option, none, some, List, [], ◌∷◌, ◌++◌, ◌==◌, leb,
  if◌then◌else◌, length,
}
use gittest.Prelude.Int.{ℤ, pos, negsuc}
use gittest.Utils.Chars.{Text}

-- `lstat` gives `none` where it fails, else whether it is a directory; `mkdir` gives `none` where it
-- fails. A directory that is made is one, and stays one, as do those that are there.
pub record FileSystem (S : Type 0) : Type 0 where
  pub lstat : S → Text → Option Bool
  pub mkdir : S → Text → Option S
  pub mkdir_makes : (s s' : S) (p : Text) → mkdir s p ≡ some s' → lstat s' p ≡ some true
  pub mkdir_keeps :
      (s s' : S) (p q : Text) → mkdir s p ≡ some s' → lstat s q ≡ some true → lstat s' q ≡ some true

abbrev pub slash : ℕ
slash = b'/'

-- Past the slashes at the start: what is passed goes to the end of the first text.
pub skip_slashes : Text → Text → Text × Text
skip_slashes before [] = (before, [])
skip_slashes before (c ∷ s) =
    let rest = skip_slashes (before ++ c ∷ []) s in if c == slash then rest else (before, c ∷ s)

abbrev pub put_before : ℕ → Option (Text × Text) → Option (Text × Text)
put_before c none = none
put_before c (some (s, t)) = some (c ∷ s, t)

-- `strchr (p, '/')`: the texts before and behind the slash.
pub find_slash : Text → Option (Text × Text)
find_slash [] = none
find_slash (c ∷ s) =
    let rest = put_before c (find_slash s) in if c == slash then some ([], s) else rest

abbrev pub is_negative : ℤ → Bool
is_negative (pos n) = false
is_negative (negsuc n) = true

abbrev pub starts_with_slash : Text → Bool
starts_with_slash [] = false
starts_with_slash (c ∷ s) = c == slash

module _ {S : Type 0} (fs : FileSystem S) where
  unfoldable pub path_exist : S → Text → ℤ
  path_exist s name = elim (fs.lstat s name) [ none ↦ pos 0 | some d ↦ pos 1 ]

  unfoldable pub is_dir : S → Text → ℤ
  is_dir s name = elim (fs.lstat s name) [
    | none ↦ negsuc 0
    | some d ↦ if d then pos 0 else negsuc 0
  ]

  -- `if (is_dir (buf) < 0) if (mkdir (buf, 0755) < 0) return -1;`
  pub ensure_dir : S → Text → Option S
  unfolding is_dir
  ensure_dir s dir = if is_negative (is_dir s dir) then fs.mkdir s dir else some s

  -- The loop, on fuel: `before` is the buffer up to `p`, `rest` the buffer from `p` on.
  pub path_loop : ℕ → S → Text → Text → Option (ℤ × S)
  unfolding ensure_dir skip_slashes find_slash
  path_loop zero s before rest = none
  path_loop (suc f) s before rest = elim (find_slash rest) [
    | none ↦ some (pos 0, s)
    | some parts ↦
        let dir = before ++ parts.0 in
        elim (ensure_dir s dir) [
          | none ↦ some (negsuc 0, s)
          | some s' ↦
              let next = skip_slashes (dir ++ slash ∷ []) parts.1 in path_loop f s' next.0 next.1
        ]
  ]

  -- PATH_MAX is 4096. `none` is a loop that has not ended with the fuel, which is the length of the
  -- buffer and one more.
  pub create_path : S → Text → Option (ℤ × S)
  unfolding path_loop
  create_path s path =
      let buf = path ++ slash ∷ [] in
      let start = skip_slashes [] buf in
      let made = path_loop (suc (length buf)) s start.0 start.1 in
      if leb 4096 (length path)
      then some (negsuc 0, s)
      else (if starts_with_slash buf
          then (elim start.1 [ [] ↦ some (pos 0, s) | c ∷ t ↦ made ])
          else some (negsuc 0, s))
