-- ===== src/Utils/Ip.antt =====
-- utils.c, `is_str_ip`: a table of four rows of five characters is filled and then read.
pub mod Groups
pub mod Table
pub mod Octets
use gittest.Prelude.{
  ℕ, zero, suc, ◌+◌, ◌-◌, ◌*◌, Bool, true, false, Option, none, some, List, [], ◌∷◌, ◌==◌, ◌&&◌,
  leb, if◌then◌else◌, get_elem?, set,
}
use gittest.Prelude.Int.{ℤ, pos, negsuc}
use gittest.Utils.Chars.{Text, isdigit}

abbrev pub zero_row : Text
zero_row = 0 ∷ 0 ∷ 0 ∷ 0 ∷ 0 ∷ []

-- `ip_tmp`
abbrev pub empty_table : List Text
empty_table = zero_row ∷ zero_row ∷ zero_row ∷ zero_row ∷ []

-- `ip_tmp[d_num][ip_i] = v`, for a row and a place of the table.
abbrev pub store : List Text → ℕ → ℕ → ℕ → List Text
store [] d i v = []
store (row ∷ rows) zero i v = set row i v ∷ rows
store (row ∷ rows) (suc d) i v = row ∷ store rows d i v

-- The first loop; `none` is its `return -1`.
pub read_loop : Text → ℕ → ℕ → List Text → Option (List Text)
read_loop [] d_num ip_i ip_tmp = some ip_tmp
read_loop (c ∷ s) d_num ip_i ip_tmp =
    let next_group = read_loop s (d_num + 1) 0 (store ip_tmp d_num ip_i 0) in
    let next_digit = read_loop s d_num (ip_i + 1) (store ip_tmp d_num ip_i c) in
    if c == b'.'
    then (if leb 4 (d_num + 1) then none else next_group)
    else (if isdigit c then (if leb 4 (ip_i + 1) then none else next_digit) else none)

-- `atoi` on digits that something else follows.
pub atoi_from : ℕ → Text → ℕ
atoi_from n [] = n
atoi_from n (c ∷ s) = let rest = atoi_from (n * 10 + (c - b'0')) s in if isdigit c then rest else n

abbrev pub atoi : Text → ℕ
atoi s = atoi_from 0 s

-- A row is refused where it does not start with a digit, or has more than 255. A `short` holds each of
-- these numbers; the sum in `ip_value` is not used.
abbrev pub row_ok : Text → Bool
row_ok [] = false
row_ok (c ∷ s) = isdigit c && leb (atoi (c ∷ s)) 255

abbrev pub rows_ok : List Text → Bool
rows_ok [] = true
rows_ok (row ∷ rows) = row_ok row && rows_ok rows

abbrev pub judge : Option (List Text) → ℤ
judge none = negsuc 0
judge (some table) = if rows_ok table then pos 0 else negsuc 0

pub is_str_ip : Text → ℤ
unfolding read_loop atoi_from
is_str_ip s = judge (read_loop s 0 0 empty_table)
