-- ===== src/Utils/Ip/Octets.antt =====
-- Which texts `is_str_ip` accepts.
use gittest.Prelude.{
  ℕ, zero, suc, ◌+◌, ◌≤◌, ◌≡◌, refl, Bool, true, false, none, some, List, [], ◌∷◌, ◌++◌, ◌==◌, ◌&&◌,
  leb, if◌then◌else◌, arith, ap, ◌∙◌, sym, length, length-append, Bool-cases, inl, inr, ◌⊎◌,
}
use gittest.Prelude.Int.{ℤ, pos, negsuc}
use gittest.Utils.Chars.{Text, isdigit}
use gittest.Utils.Ip.{store, read_loop, rows_ok, judge, is_str_ip}
use gittest.Utils.Ip.Groups.{
  groups, all_digits, is_octet, all_octets, all_octets-append, all_digits-append, groups-Bad,
  groups_some,
}
use gittest.Utils.Ip.Table.{pad_ok, zeros, table, Small, store_end, store_digit, Small-snoc}

-- What is found of a text from which the groups `done` are read, and `cur` of the next one.
abbrev verdict : Bool → ℤ
verdict b = if b then pos 0 else negsuc 0

table_ok :
    (done : List Text) (cur : Text) (n : ℕ)
    → Small done
    → length cur ≤ 3
    → all_digits cur ≡ true
    → rows_ok (table done cur n) ≡ (all_octets done && (is_octet cur && rows_ok (zeros n)))
table_ok [] cur n sm h d = rw (pad_ok cur h d) refl
table_ok (g ∷ gs) cur n ((hg, dg), sm) h d =
    rw (pad_ok g hg dg) (ground (arith, table_ok gs cur n sm h d))

read_end :
    (done : List Text) (cur : Text) (n : ℕ)
    → length done + suc n ≡ 4
    → Small done
    → length cur ≤ 3
    → all_digits cur ≡ true
    → judge (some (table done cur n))
      ≡ verdict ((length done + 1 == 4) && (all_octets done && (is_octet cur && true)))
read_end done cur zero e sm h d = rw (table_ok done cur zero sm h d) (ground arith)
read_end done cur (suc n) e sm h d = rw (table_ok done cur (suc n) sm h d) (ground arith)

-- The loop finds what `groups` says of the text that is left.
Reads : Text → Type 0
Reads s =
    (cur : Text) (done : List Text) (n : ℕ)
    → length done + suc n ≡ 4
    → Small done
    → length cur ≤ 3
    → all_digits cur ≡ true
    → judge (read_loop s (length done) (length cur) (table done cur n))
      ≡ verdict (
          (length done + length (groups cur s) == 4)
          && (all_octets done && all_octets (groups cur s)))

read_point :
    (c : ℕ) (s cur : Text) (done : List Text) (n : ℕ)
    → Reads s
    → length done + suc n ≡ 4
    → Small done
    → length cur ≤ 3
    → all_digits cur ≡ true
    → judge (
        if leb 4 (length done + 1)
        then none
        else read_loop s
            (length done + 1)
            0
            (store (table done cur n) (length done) (length cur) 0))
      ≡ verdict (
          (length done + suc (length (groups [] s)) == 4)
          && (all_octets done && (is_octet cur && all_octets (groups [] s))))
unfolding Reads
read_point c s cur done zero later e sm h d = ground (arith, groups_some s [])
read_point c s cur done (suc n) later e sm h d =
    let one_more : length done + 1 ≡ length (done ++ cur ∷ []) =
      omega (arith, length-append done (cur ∷ [])) in
    let early : leb 4 (length done + 1) ≡ false = ground arith in
    let rest =
      later [] (done ++ cur ∷ []) n (omega (arith, one_more)) (Small-snoc done cur sm h d)
        (omega arith) refl in
    let same : ((length (done ++ cur ∷ []) + length (groups [] s) == 4)
          && (all_octets (done ++ cur ∷ []) && all_octets (groups [] s)))
        ≡ ((length done + suc (length (groups [] s)) == 4)
            && (all_octets done && (is_octet cur && all_octets (groups [] s)))) =
      rw (sym one_more, all_octets-append done (cur ∷ [])) (ground arith) in
    rw (early, store_end done cur n h, one_more) (rest ∙ ap verdict same)

read_other :
    (c : ℕ) (s cur : Text) (done : List Text) (n : ℕ)
    → Reads s
    → length done + suc n ≡ 4
    → Small done
    → length cur ≤ 3
    → all_digits cur ≡ true
    → (isdigit c ≡ true) ⊎ (isdigit c ≡ false)
    → judge (
        if isdigit c
        then (if leb 4 (length cur + 1)
            then none
            else read_loop s
                (length done)
                (length cur + 1)
                (store (table done cur n) (length done) (length cur) c))
        else none)
      ≡ verdict (
          (length done + length (groups (cur ++ c ∷ []) s) == 4)
          && (all_octets done && all_octets (groups (cur ++ c ∷ []) s)))
unfolding Reads
read_other c s cur done n later e sm h d (inl digit) = elim (Bool-cases (leb 4 (length cur + 1))) [
  | inl full ↦
      let wrong = groups-Bad s (cur ++ c ∷ []) (inl (ground (arith, length-append cur (c ∷ [])))) in
      rw (digit, full) (ground (arith, wrong))
  | inr free ↦
      let small : length cur ≤ 2 = ground arith in
      let one_more : length cur + 1 ≡ length (cur ++ c ∷ []) =
        omega (arith, length-append cur (c ∷ [])) in
      let digits : all_digits (cur ++ c ∷ []) ≡ true =
        rw (all_digits-append cur (c ∷ []), d, digit) refl in
      rw (digit, free, store_digit done cur n c small, one_more)
        (later (cur ++ c ∷ []) done n e sm (omega (arith, small, one_more)) digits)
]
read_other c s cur done n later e sm h d (inr bad) =
    let wrong =
      groups-Bad s (cur ++ c ∷ []) (inr (rw (all_digits-append cur (c ∷ []), d, bad) refl)) in
    rw bad (ground (arith, wrong))

read_loop_lem : (s : Text) → Reads s
unfolding Reads read_loop groups
read_loop_lem [] cur done n e sm h d = read_end done cur n e sm h d
read_loop_lem (c ∷ s) cur done n e sm h d = elim (Bool-cases (c == b'.')) [
  | inl is ↦ rw is (read_point c s cur done n (read_loop_lem s) e sm h d)
  | inr other ↦
      rw other (read_other c s cur done n (read_loop_lem s) e sm h d (Bool-cases (isdigit c)))
]

-- `is_str_ip` gives 0 exactly for the texts of four groups with points between them, each of one to three
-- digits and of a number up to 255, and -1 for any other text.
pub is_str_ip_lem :
    (s : Text)
    → is_str_ip s
      ≡ (if (length (groups [] s) == 4) && all_octets (groups [] s) then pos 0 else negsuc 0)
unfolding is_str_ip Reads
is_str_ip_lem s = read_loop_lem s [] [] 3 (omega arith) tt (omega arith) refl ∙ ground arith
