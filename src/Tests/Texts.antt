-- ===== src/Tests/Texts.antt =====
-- The texts of utils.c, and the addresses of ipv6_add.c.
use gittest.Prelude.{
  ◌==◌, ◌&&◌, if◌then◌else◌, ℕ, ◌+◌, ◌%◌, ◌^◌, ◌≡◌, ◌<◌, refl, some, List, [], ◌∷◌, ◌++◌, arith,
  length,
}
use gittest.Prelude.Int.{pos, negsuc}
use gittest.Utils.{isxdigitstr, all_chars, str2bytes, bytes2str_h, str2upper, strcmp_nocase}
use gittest.Utils.Chars.{Text}
use gittest.Utils.Hex.{AllBytes, str2bytes-bytes2str_h, bytes2str_h-str2bytes}
use gittest.Utils.Case.{IsText, compare_texts, strcmp_nocase_lem}
use gittest.Utils.Ip.{is_str_ip}
use gittest.Utils.Ip.Groups.{groups, all_octets}
use gittest.Utils.Ip.Octets.{is_str_ip_lem}
use gittest.Ipv6.{Word, ipv6_addition}
use gittest.Ipv6.Value.{IsWord, AllWords, value}
use gittest.Ipv6.Addition.{ipv6_addition_lem}

str2bytes-bytes2str_h_example : str2bytes (bytes2str_h (171 ∷ 9 ∷ [])).1 2 ≡ (2, 171 ∷ 9 ∷ [])
unfolding AllBytes
str2bytes-bytes2str_h_example =
    str2bytes-bytes2str_h (171 ∷ 9 ∷ []) 2 (omega arith, (omega arith, tt)) (omega arith)

-- "aB09"
abbrev digits : Text
digits = b'a' ∷ b'B' ∷ b'0' ∷ b'9' ∷ []

bytes2str_h-str2bytes_example : bytes2str_h (str2bytes digits 2).1 ≡ (2, str2upper digits)
unfolding isxdigitstr all_chars
bytes2str_h-str2bytes_example = bytes2str_h-str2bytes digits 2 refl (omega arith)

abbrev ab : Text
ab = b'a' ∷ b'b' ∷ []

ab-IsText : IsText ab
unfolding IsText
ab-IsText = (omega arith, omega arith, (omega arith, omega arith, tt))

strcmp_nocase_lem_example : strcmp_nocase ab ab ≡ some (compare_texts ab ab)
strcmp_nocase_lem_example = strcmp_nocase_lem ab ab ab-IsText ab-IsText

-- "Ab"
abbrev capital : Text
capital = b'A' ∷ b'b' ∷ []

capital-IsText : IsText capital
unfolding IsText
capital-IsText = (omega arith, omega arith, (omega arith, omega arith, tt))

-- "ab c"
spaced-IsText : IsText (ab ++ 32 ∷ b'c' ∷ [])
unfolding IsText
spaced-IsText = (
  omega arith,
  omega arith,
  (omega arith, omega arith, (omega arith, omega arith, (omega arith, omega arith, tt))),
)

-- "1.22.255.0"
abbrev dotted : Text
dotted = b'1' ∷ b'.' ∷ b'2' ∷ b'2' ∷ b'.' ∷ b'2' ∷ b'5' ∷ b'5' ∷ b'.' ∷ b'0' ∷ []

is_str_ip_lem_example : is_str_ip dotted ≡ (
    if (length (groups [] dotted) == 4) && all_octets (groups [] dotted) then pos 0 else negsuc 0)
is_str_ip_lem_example = is_str_ip_lem dotted

abbrev word : ℕ → Word
word b = record { b0 = b; b1 = b; b2 = b; b3 = b }

-- The number 2 ^ 64 - 1.
abbrev address : List Word
address = word 0 ∷ word 0 ∷ word 255 ∷ word 255 ∷ []

address-AllWords : AllWords address
unfolding AllWords IsWord
address-AllWords =
    let zeros : IsWord (word 0) = (omega arith, omega arith, omega arith, omega arith) in
    let ones : IsWord (word 255) = (omega arith, omega arith, omega arith, omega arith) in
    (zeros, (zeros, (ones, (ones, tt))))

ipv6_addition_lem_example :
    (length (ipv6_addition address (pos 3)) ≡ 4)
    × AllWords (ipv6_addition address (pos 3))
    × (value (ipv6_addition address (pos 3)) < 2 ^ 128)
    × ((value (ipv6_addition address (pos 3)) + 0) % 2 ^ 128 ≡ (value address + 3) % 2 ^ 128)
ipv6_addition_lem_example =
    ipv6_addition_lem address (pos 3) refl address-AllWords (omega arith) (omega arith)
