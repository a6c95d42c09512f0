-- ===== src/Utils/Ip/Table.antt =====
-- The table of `is_str_ip` after some groups.
use gittest.Prelude.{ℕ, zero, suc, ◌≤◌, ◌≡◌, refl, true, List, [], ◌∷◌, ◌++◌, arith, ap, length}
use gittest.Utils.Chars.{Text}
use gittest.Utils.Ip.{zero_row, store, atoi_from, row_ok}
use gittest.Utils.Ip.Groups.{all_digits, is_octet}

-- A row that a group of at most three digits fills.
abbrev pub pad : Text → Text
pad [] = zero_row
pad (a ∷ []) = a ∷ 0 ∷ 0 ∷ 0 ∷ 0 ∷ []
pad (a ∷ b ∷ []) = a ∷ b ∷ 0 ∷ 0 ∷ 0 ∷ []
pad (a ∷ b ∷ c ∷ []) = a ∷ b ∷ c ∷ 0 ∷ 0 ∷ []
pad (a ∷ b ∷ c ∷ d ∷ g) = []

pub pad_ok : (g : Text) → length g ≤ 3 → all_digits g ≡ true → row_ok (pad g) ≡ is_octet g
unfolding atoi_from
pad_ok [] h d = ground arith
pad_ok (a ∷ []) h d = ground arith
pad_ok (a ∷ b ∷ []) h d = ground arith
pad_ok (a ∷ b ∷ c ∷ []) h d = ground arith
pad_ok (a ∷ b ∷ c ∷ e ∷ g) h d = absurd (omega arith)

abbrev pub zeros : ℕ → List Text
zeros zero = []
zeros (suc n) = zero_row ∷ zeros n

-- The table after the groups `done`, within the group `cur`, with `n` rows left.
abbrev pub table : List Text → Text → ℕ → List Text
table [] cur n = pad cur ∷ zeros n
table (g ∷ gs) cur n = pad g ∷ table gs cur n

abbrev pub Small : List Text → Type 0
Small [] = Unit
Small (g ∷ gs) = ((length g ≤ 3) × (all_digits g ≡ true)) × Small gs

pub store_end :
    (done : List Text) (cur : Text) (n : ℕ)
    → length cur ≤ 3
    → store (table done cur (suc n)) (length done) (length cur) 0 ≡ table (done ++ cur ∷ []) [] n
store_end [] [] n h = refl
store_end [] (a ∷ []) n h = refl
store_end [] (a ∷ b ∷ []) n h = refl
store_end [] (a ∷ b ∷ c ∷ []) n h = refl
store_end [] (a ∷ b ∷ c ∷ e ∷ g) n h = absurd (omega arith)
store_end (g ∷ gs) cur n h = ap (λ t. pad g ∷ t) (store_end gs cur n h)

pub store_digit :
    (done : List Text) (cur : Text) (n c : ℕ)
    → length cur ≤ 2
    → store (table done cur n) (length done) (length cur) c ≡ table done (cur ++ c ∷ []) n
store_digit [] [] n c h = refl
store_digit [] (a ∷ []) n c h = refl
store_digit [] (a ∷ b ∷ []) n c h = refl
store_digit [] (a ∷ b ∷ e ∷ g) n c h = absurd (omega arith)
store_digit (g ∷ gs) cur n c h = ap (λ t. pad g ∷ t) (store_digit gs cur n c h)

pub Small-snoc :
    (gs : List Text) (g : Text)
    → Small gs
    → length g ≤ 3
    → all_digits g ≡ true
    → Small (gs ++ g ∷ [])
Small-snoc [] g sm h d = ((h, d), tt)
Small-snoc (x ∷ gs) g (y, sm) h d = (y, Small-snoc gs g sm h d)
