-- ===== src/LinuxUtils/Prefixes.antt =====
-- The directories that a path names, from its text alone, and what the scans of `create_path` do to them.
use mathlib.Core.List.{append-nil, append_assoc}
use gittest.Prelude.{
  ℕ, ◌≤◌, ◌<◌, ◌≡◌, refl, Bool, true, false, Option, none, some, List, [], ◌∷◌, ◌++◌, ◌==◌, ==_iff,
  if◌then◌else◌, length, arith, Bool-cases, inl, inr,
}
use gittest.Utils.Chars.{Text}
use gittest.LinuxUtils.{slash, skip_slashes, put_before, find_slash}

-- The prefixes that end before a slash and not with one: `before` is the text already read, and `after`
-- says whether a component has begun.
unfoldable pub prefixes : Bool → Text → Text → List Text
prefixes after before [] = []
prefixes after before (c ∷ s) =
    let on = prefixes (if c == slash then false else true) (before ++ c ∷ []) s in
    if c == slash then (if after then before ∷ on else on) else on

-- The next character is no slash.
abbrev pub AtName : Text → Type 0
AtName [] = Unit
AtName (c ∷ s) = (c == slash) ≡ false

pub skip_lem :
    (before s : Text)
    → (prefixes false before s ≡ prefixes false (skip_slashes before s).0 (skip_slashes before s).1)
      × AtName (skip_slashes before s).1
      × (length (skip_slashes before s).1 ≤ length s)
unfolding skip_slashes prefixes
skip_lem before [] = (refl, tt, omega arith)
skip_lem before (c ∷ s) = elim (Bool-cases (c == slash)) [
  | inl is ↦ let (e, at, le) = skip_lem (before ++ c ∷ []) s in rw is (e, at, omega (arith, le))
  | inr other ↦ rw other (rw other refl, other, omega arith)
]

-- At a name it makes no difference whether a component has begun.
pub prefixes-AtName :
    (before s : Text) → AtName s → prefixes false before s ≡ prefixes true before s
unfolding prefixes
prefixes-AtName before [] at = refl
prefixes-AtName before (c ∷ s) at = rw at refl

-- What `strchr` finds.
abbrev pub Found : Text → Text → Option (Text × Text) → Type 0
Found before s none = prefixes true before s ≡ []
Found before s (some (name, t)) =
    (prefixes true before s ≡ (before ++ name) ∷ prefixes false ((before ++ name) ++ slash ∷ []) t)
    × (length t < length s)

Found-later :
    (before s : Text) (c : ℕ) (o : Option (Text × Text))
    → (c == slash) ≡ false
    → Found (before ++ c ∷ []) s o
    → Found before (c ∷ s) (put_before c o)
unfolding prefixes
Found-later before s c none other h = rw other h
Found-later before s c (some (name, t)) other (e, lt) =
    let move = append_assoc before (c ∷ []) name in (rw (other, e, move) refl, omega (arith, lt))

pub find_slash_lem : (before s : Text) → Found before s (find_slash s)
unfolding find_slash prefixes
find_slash_lem before [] = refl
find_slash_lem before (c ∷ s) = elim (Bool-cases (c == slash)) [
  | inl is ↦
      let same : c ≡ slash = (==_iff c slash).0 is in
      rw is (rw (append-nil, is, same) refl, omega arith)
  | inr other ↦
      rw other (Found-later before s c (find_slash s) other (find_slash_lem (before ++ c ∷ []) s))
]
