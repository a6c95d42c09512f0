-- ===== src/Utils/Case.antt =====
-- `strcmp_nocase`, `str2lower` and `str2upper` of utils.c.
use native.Mathlib.Omega.{arith}
use gittest.Prelude.{
  ℕ, zero, suc, ◌+◌, ◌≤◌, ◌<◌, ◌≡◌, refl, Bool, true, false, [], ◌∷◌, ◌++◌, length, inl, inr, ap,
  ◌∙◌, if◌then◌else◌, ◌⊎◌, Option, none, some, sym, ◌==◌, ◌||◌,
}
use gittest.Prelude.Int.{ℤ, pos, negsuc, pos_part, neg_part, ◌-ℤ◌}
use gittest.Utils.{str2lower, str2upper, char_at, skips, strcmp_step, strcmp_loop, strcmp_nocase}
use gittest.Utils.Chars.{Text, char_value, tolower, toupper}

-- No character is NUL, and each has a code below 256.
unfoldable pub IsText : Text → Type 0
IsText [] = Unit
IsText (c ∷ s) = (1 ≤ c) × (c < 256) × IsText s

-- What the comparison of two characters gives.
abbrev pub char_diff : ℕ → ℕ → ℤ
char_diff a b = char_value a -ℤ char_value b

-- A difference of 0, 32 or -32.
abbrev pub is_passed : ℤ → Bool
is_passed n = let distance = pos_part n + neg_part n in (distance == 0) || (distance == 32)

skips-is_passed : (n : ℤ) → skips n ≡ is_passed n
skips-is_passed (pos n) = ground arith
skips-is_passed (negsuc n) = ground arith

-- The comparison, described on the texts themselves: `none` is a read behind a terminator.
pub compare_texts : Text → Text → Option ℤ
compare_texts [] [] = some (pos 0)
compare_texts [] (b ∷ t) = if is_passed (char_diff 0 b) then none else some (char_diff 0 b)
compare_texts (a ∷ s) [] = if is_passed (char_diff a 0) then none else some (char_diff a 0)
compare_texts (a ∷ s) (b ∷ t) =
    let rest = compare_texts s t in if is_passed (char_diff a b) then rest else some (char_diff a b)

strcmp_loop-suc :
    (f : ℕ) (c d : ℕ) (s t : Text) (i : ℕ)
    → strcmp_loop f (c ∷ s) (d ∷ t) (suc i) ≡ strcmp_loop f s t i
unfolding strcmp_loop
strcmp_loop-suc zero c d s t i = refl
strcmp_loop-suc (suc f) c d s t i =
    ap (strcmp_step (char_at s i) (char_at t i)) (strcmp_loop-suc f c d s t (suc i))

-- A round in which at least one text goes on.
step_goes :
    (a b : ℕ) (rest : Option (Option ℤ))
    → (1 ≤ a) ⊎ (1 ≤ b)
    → strcmp_step (some a) (some b) rest
      ≡ (if is_passed (char_diff a b) then rest else some (some (char_diff a b)))
unfolding strcmp_step
step_goes a b rest (inl h) = rw (sym (skips-is_passed (char_diff a b))) (ground arith)
step_goes a b rest (inr h) = rw (sym (skips-is_passed (char_diff a b))) (ground arith)

-- Past the end of either text the next read is behind its terminator.
step_over : (x : Option ℕ) (rest : Option (Option ℤ)) → strcmp_step x none rest ≡ some none
unfolding strcmp_step
step_over none rest = refl
step_over (some a) rest = refl

if_some :
    (c : Bool) (x : Option ℤ) (n : ℤ)
    → (if c then some x else some (some n)) ≡ some (if c then x else some n)
if_some true x n = refl
if_some false x n = refl

strcmp_loop_lem :
    (f : ℕ) (s t : Text)
    → IsText s
    → IsText t
    → length s + length t + 2 ≤ f
    → strcmp_loop f s t 0 ≡ some (compare_texts s t)
unfolding strcmp_loop strcmp_step compare_texts IsText
strcmp_loop_lem zero s t hs ht h = absurd (omega arith)
strcmp_loop_lem (suc zero) s t hs ht h = absurd (omega arith)
strcmp_loop_lem (suc (suc f)) [] [] hs ht h = refl
strcmp_loop_lem (suc (suc f)) [] (b ∷ t) hs (hb, _, ht) h =
    step_goes 0 b _ (inr hb) ∙ if_some (is_passed (char_diff 0 b)) none (char_diff 0 b)
strcmp_loop_lem (suc (suc f)) (a ∷ s) [] (ha, _, hs) ht h =
    step_goes a 0 _ (inl ha)
    ∙ rw (step_over (char_at (a ∷ s) 1) (strcmp_loop f (a ∷ s) [] 2))
        (if_some (is_passed (char_diff a 0)) none (char_diff a 0))
strcmp_loop_lem (suc (suc f)) (a ∷ s) (b ∷ t) (ha, _, hs) (hb, _, ht) h =
    let e = strcmp_loop-suc (suc f) a b s t 0 in
    let e' = strcmp_loop_lem (suc f) s t hs ht (omega arith) in
    step_goes a b _ (inl ha)
    ∙ rw (e, e') (if_some (is_passed (char_diff a b)) (compare_texts s t) (char_diff a b))

-- On texts of non-NUL characters `strcmp_nocase` ends, and gives what `compare_texts` describes: the
-- first difference other than 0, 32 and -32, or 0 where both texts end together before one, or a read
-- behind the terminator of the text that ends first, where the other goes on with such a difference.
pub strcmp_nocase_lem :
    (s t : Text) → IsText s → IsText t → strcmp_nocase s t ≡ some (compare_texts s t)
unfolding strcmp_nocase
strcmp_nocase_lem s t hs ht = strcmp_loop_lem (length s + length t + 2) s t hs ht (omega arith)

same_lower :
    (a b : ℕ) → a < 256 → b < 256 → tolower a ≡ tolower b → is_passed (char_diff a b) ≡ true
unfolding ◌-ℤ◌
same_lower a b ha hb e = ground arith

compare_same_lower :
    (s t : Text)
    → IsText s
    → IsText t
    → str2lower s ≡ str2lower t
    → compare_texts s t ≡ some (pos 0)
unfolding compare_texts str2lower IsText
compare_same_lower [] [] hs ht e = refl
compare_same_lower [] (b ∷ t) hs ht e = ground arith
compare_same_lower (a ∷ s) [] hs ht e = ground arith
compare_same_lower (a ∷ s) (b ∷ t) (_, ha, hs) (_, hb, ht) e =
    let heads : tolower a ≡ tolower b = ground arith in
    let tails : str2lower s ≡ str2lower t = ground arith in
    rw (same_lower a b ha hb heads) (compare_same_lower s t hs ht tails)

-- Two texts that `str2lower` makes the same are equal for `strcmp_nocase`.
pub strcmp_nocase-str2lower :
    (s t : Text)
    → IsText s
    → IsText t
    → str2lower s ≡ str2lower t
    → strcmp_nocase s t ≡ some (some (pos 0))
strcmp_nocase-str2lower s t hs ht e =
    strcmp_nocase_lem s t hs ht ∙ ap some (compare_same_lower s t hs ht e)

compare_itself : (a : ℕ) → is_passed (char_diff a a) ≡ true
unfolding ◌-ℤ◌
compare_itself a = ground arith

compare_over : (s u : Text) → compare_texts s (s ++ 32 ∷ u) ≡ none
unfolding compare_texts ◌-ℤ◌
compare_over [] u = refl
compare_over (a ∷ s) u = rw (compare_itself a) (compare_over s u)

-- Against a text that goes on with a space where the first one ends, `strcmp_nocase` reads behind the
-- terminator of the first text.
pub strcmp_nocase_over_read :
    (s u : Text) → IsText s → IsText (s ++ 32 ∷ u) → strcmp_nocase s (s ++ 32 ∷ u) ≡ some none
strcmp_nocase_over_read s u hs hu =
    strcmp_nocase_lem s (s ++ 32 ∷ u) hs hu ∙ ap some (compare_over s u)

lower_upper : (c : ℕ) → (tolower (toupper c) ≡ tolower c) × (toupper (tolower c) ≡ toupper c)
lower_upper c = (ground arith, ground arith)

-- Each of `str2lower` and `str2upper` undoes the other: applied to the other's result, it gives
-- what it gives on the text itself. Neither changes the length.
pub str2lower-str2upper :
    (s : Text)
    → (str2lower (str2upper s) ≡ str2lower s)
      × (str2upper (str2lower s) ≡ str2upper s)
      × (length (str2lower s) ≡ length s)
      × (length (str2upper s) ≡ length s)
unfolding str2lower str2upper
str2lower-str2upper [] = (refl, refl, refl, refl)
str2lower-str2upper (c ∷ s) =
    let (e, e') = lower_upper c in
    let (l, u, n, m) = str2lower-str2upper s in
    (rw (e, l) refl, rw (e', u) refl, ap suc n, ap suc m)
