-- ===== src/Ipv6/Value.antt =====
-- The address of ipv6_add.c as one number in network order.
use native.Mathlib.Omega.{arith}
use native.Mathlib.Nat.{pow-suc, mul-le-mul_right}
use gittest.Prelude.{
  ℕ, suc, ◌+◌, ◌*◌, ◌^◌, ◌≤◌, ◌<◌, ◌≡◌, refl, List, [], ◌∷◌, ◌++◌, length, get_or, set, ap,
}
use gittest.Ipv6.{Word, htonl, ntohl}

unfoldable pub IsWord : Word → Type 0
IsWord w = (w.b0 < 256) × (w.b1 < 256) × (w.b2 < 256) × (w.b3 < 256)

unfoldable pub AllWords : List Word → Type 0
unfolding IsWord
AllWords [] = Unit
AllWords (w ∷ ws) = IsWord w × AllWords ws

-- The words after a number that is already read.
pub value_from : ℕ → List Word → ℕ
unfolding htonl
value_from acc [] = acc
value_from acc (w ∷ ws) = value_from (acc * 4294967296 + htonl w) ws

abbrev pub value : List Word → ℕ
value ws = value_from 0 ws

pub htonl-ntohl : (v : ℕ) → v < 4294967296 → (htonl (ntohl v) ≡ v) × IsWord (ntohl v)
unfolding htonl ntohl IsWord
htonl-ntohl v h = (omega arith, (omega arith, omega arith, omega arith, omega arith))

pub htonl_below : (w : Word) → IsWord w → htonl w < 4294967296
unfolding htonl IsWord
htonl_below w (h, i, j, k) = omega arith

pub value-snoc :
    (ws : List Word) (acc : ℕ) (w : Word)
    → value_from acc (ws ++ w ∷ []) ≡ value_from acc ws * 4294967296 + htonl w
unfolding value_from
value-snoc [] acc w = refl
value-snoc (v ∷ ws) acc w = value-snoc ws (acc * 4294967296 + htonl v) w

pub get_or-middle : (ws vs : List Word) (w d : Word) → get_or (ws ++ w ∷ vs) (length ws) d ≡ w
get_or-middle [] vs w d = refl
get_or-middle (x ∷ ws) vs w d = get_or-middle ws vs w d

pub set-middle : (ws vs : List Word) (w v : Word) → set (ws ++ w ∷ vs) (length ws) v ≡ ws ++ v ∷ vs
set-middle [] vs w v = refl
set-middle (x ∷ ws) vs w v = ap (◌∷◌ x) (set-middle ws vs w v)

-- The words of a list but the last, and the last.
unfoldable pub Unsnoc : List Word → Type 0
Unsnoc ws = (us : List Word) × (w : Word) × (ws ≡ us ++ w ∷ [])

pub unsnoc : (w : Word) (ws : List Word) → Unsnoc (w ∷ ws)
unfolding Unsnoc
unsnoc w [] = ([], w, refl)
unsnoc w (v ∷ ws) = let (us, u, e) = unsnoc v ws in (w ∷ us, u, ap (◌∷◌ w) e)

pub AllWords-snoc : (us : List Word) (w : Word) → AllWords (us ++ w ∷ []) → AllWords us × IsWord w
unfolding AllWords
AllWords-snoc [] w (h, _) = (tt, h)
AllWords-snoc (u ∷ us) w (h, hs) = let (a, b) = AllWords-snoc us w hs in ((h, a), b)

pub snoc-AllWords : (us : List Word) (w : Word) → AllWords us → IsWord w → AllWords (us ++ w ∷ [])
unfolding AllWords
snoc-AllWords [] w hs h = (h, tt)
snoc-AllWords (u ∷ us) w (a, hs) h = (a, snoc-AllWords us w hs h)

pub value_below :
    (ws : List Word) (acc : ℕ)
    → AllWords ws
    → value_from acc ws < (acc + 1) * 4294967296 ^ length ws
unfolding value_from AllWords
value_below [] acc all = omega arith
value_below (w ∷ ws) acc (hw, all) =
    let below = value_below ws (acc * 4294967296 + htonl w) all in
    let hb = htonl_below w hw in
    let mono : (acc * 4294967296 + htonl w + 1) * 4294967296 ^ length ws
        ≤ (acc + 1) * 4294967296 * 4294967296 ^ length ws =
      mul-le-mul_right (4294967296 ^ length ws) (omega arith) in
    let power : (acc + 1) * 4294967296 ^ suc (length ws)
        ≡ (acc + 1) * 4294967296 * 4294967296 ^ length ws =
      rw (pow-suc 4294967296 (length ws)) (omega arith) in
    omega (arith, below, mono, power)

pub value_bound : (ws : List Word) → length ws ≡ 4 → AllWords ws → value ws < 2 ^ 128
value_bound ws len all = omega (arith, value_below ws 0 all, ap (λ (x : ℕ). 4294967296 ^ x) len)
