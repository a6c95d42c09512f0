-- ===== src/Utils/Ip/Groups.antt =====
-- The groups of an address with points, and which are octets.
use gittest.Prelude.{
  ℕ, ◌≤◌, ◌≡◌, refl, Bool, true, false, List, [], ◌∷◌, ◌++◌, ◌==◌, ◌&&◌, leb, if◌then◌else◌, arith,
  length, length-append, Bool-cases, inl, inr, ◌⊎◌,
}
use gittest.Utils.Chars.{Text, isdigit}
use gittest.Utils.Ip.{atoi}

-- The groups between the points; `cur` is what is read of the first one.
unfoldable pub groups : Text → Text → List Text
groups cur [] = cur ∷ []
groups cur (c ∷ s) =
    let after_point = groups [] s in
    let after_other = groups (cur ++ c ∷ []) s in
    if c == b'.' then cur ∷ after_point else after_other

abbrev pub all_digits : Text → Bool
all_digits [] = true
all_digits (c ∷ s) = isdigit c && all_digits s

-- One to three digits, of a number up to 255.
abbrev pub is_octet : Text → Bool
is_octet g = (leb 1 (length g) && leb (length g) 3) && (all_digits g && leb (atoi g) 255)

abbrev pub all_octets : List Text → Bool
all_octets [] = true
all_octets (g ∷ gs) = is_octet g && all_octets gs

pub all_octets-append :
    (xs ys : List Text) → all_octets (xs ++ ys) ≡ (all_octets xs && all_octets ys)
all_octets-append [] ys = refl
all_octets-append (x ∷ xs) ys = ground (arith, all_octets-append xs ys)

pub all_digits-append : (s t : Text) → all_digits (s ++ t) ≡ (all_digits s && all_digits t)
all_digits-append [] t = refl
all_digits-append (c ∷ s) t = ground (arith, all_digits-append s t)

-- A group that has gone wrong stays wrong.
abbrev pub Bad : Text → Type 0
Bad g = (4 ≤ length g) ⊎ (all_digits g ≡ false)

pub Bad-snoc : (g : Text) (c : ℕ) → Bad g → Bad (g ++ c ∷ [])
Bad-snoc g c (inl h) = inl (omega (arith, h, length-append g (c ∷ [])))
Bad-snoc g c (inr h) = inr (rw (all_digits-append g (c ∷ []), h) refl)

pub Bad-octet : (g : Text) → Bad g → is_octet g ≡ false
Bad-octet g (inl h) = ground arith
Bad-octet g (inr h) = ground arith

pub groups-Bad : (s cur : Text) → Bad cur → all_octets (groups cur s) ≡ false
unfolding groups
groups-Bad [] cur b = ground (arith, Bad-octet cur b)
groups-Bad (c ∷ s) cur b = elim (Bool-cases (c == b'.')) [
  | inl is ↦ rw is (ground (arith, Bad-octet cur b))
  | inr other ↦ rw other (groups-Bad s (cur ++ c ∷ []) (Bad-snoc cur c b))
]

pub groups_some : (s cur : Text) → 1 ≤ length (groups cur s)
unfolding groups
groups_some [] cur = omega arith
groups_some (c ∷ s) cur = elim (Bool-cases (c == b'.')) [
  | inl is ↦ rw is (omega arith)
  | inr other ↦ rw other (groups_some s (cur ++ c ∷ []))
]
