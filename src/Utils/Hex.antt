-- ===== src/Utils/Hex.antt =====
-- The hexadecimal functions of utils.c, `str2bytes` and `bytes2strH` (here `bytes2str_h`), against each other.
use native.Mathlib.Omega.{arith}
use gittest.Prelude.{
  ℕ, ◌+◌, ◌*◌, ◌/◌, ◌%◌, ◌≤◌, ◌<◌, ◌≡◌, refl, Bool, true, List, [], ◌∷◌, length, ◌∙◌,
}
use gittest.Utils.{
  nibble, decode_pairs, str2bytes, hex_digit, print_bytes, bytes2str_h, all_chars, isxdigitstr,
  str2upper,
}
use gittest.Utils.Chars.{Text, isxdigit, toupper}

unfoldable pub AllBytes : List ℕ → Type 0
AllBytes [] = Unit
AllBytes (b ∷ bs) = (b < 256) × AllBytes bs

nibble-hex_digit : (n : ℕ) → n < 16 → nibble (hex_digit n) ≡ n
nibble-hex_digit n h = ground arith

byte_of_halves : (b : ℕ) → b < 256 → (b / 16 * 16 % 256 + b % 16) % 256 ≡ b
byte_of_halves b h = omega arith

decode-print : (bs : List ℕ) → AllBytes bs → decode_pairs (print_bytes bs) ≡ bs
unfolding AllBytes decode_pairs print_bytes
decode-print [] all = refl
decode-print (b ∷ bs) (h, all) =
    rw
      (
        nibble-hex_digit (b / 16) (omega arith),
        nibble-hex_digit (b % 16) (omega arith),
        byte_of_halves b h,
        decode-print bs all,
      )
      refl

length-print : (bs : List ℕ) → length (print_bytes bs) ≡ 2 * length bs
unfolding print_bytes
length-print [] = refl
length-print (b ∷ bs) = omega (arith, length-print bs)

hex_digit-nibble :
    (c : ℕ) → isxdigit c ≡ true → (nibble c < 16) × (hex_digit (nibble c) ≡ toupper c)
hex_digit-nibble c h = (ground arith, ground arith)

halves_of_byte :
    (m n : ℕ)
    → m < 16
    → n < 16
    → (((m * 16 % 256 + n) % 256 / 16 ≡ m) × ((m * 16 % 256 + n) % 256 % 16 ≡ n))
halves_of_byte m n hm hn = (omega arith, omega arith)

all_chars-parts :
    (p : ℕ → Bool) (c : ℕ) (s : Text)
    → all_chars p (c ∷ s) ≡ true
    → (p c ≡ true) × (all_chars p s ≡ true)
unfolding all_chars
all_chars-parts p c s h = ground arith

print-decode :
    (s : Text)
    → length s % 2 ≡ 0
    → all_chars isxdigit s ≡ true
    → (print_bytes (decode_pairs s) ≡ str2upper s) × (length (decode_pairs s) ≡ length s / 2)
unfolding decode_pairs print_bytes str2upper
print-decode [] even h = (refl, omega arith)
print-decode (c ∷ []) even h = absurd (omega arith)
print-decode (c ∷ d ∷ s) even h =
    let (hc, h') = all_chars-parts isxdigit c (d ∷ s) h in
    let (hd, h'') = all_chars-parts isxdigit d s h' in
    let (bc, ec) = hex_digit-nibble c hc in
    let (bd, ed) = hex_digit-nibble d hd in
    let (e, n) = print-decode s (omega arith) h'' in
    let (hi, lo) = halves_of_byte (nibble c) (nibble d) bc bd in
    (rw (hi, lo, ec, ed, e) refl, omega (arith, n))

str2bytes_reads :
    (s : Text) (data_len : ℕ)
    → length s % 2 ≡ 0
    → length s / 2 ≤ data_len
    → str2bytes s data_len ≡ (length (decode_pairs s), decode_pairs s)
unfolding str2bytes
str2bytes_reads s data_len even room = ground arith

isxdigitstr-parts :
    (s : Text) → isxdigitstr s ≡ true → (length s % 2 ≡ 0) × (all_chars isxdigit s ≡ true)
unfolding isxdigitstr
isxdigitstr-parts s h = ground arith

-- Printing bytes and reading them back, with room for all of them, gives the same bytes, and both
-- functions return their number.
pub str2bytes-bytes2str_h :
    (bs : List ℕ) (data_len : ℕ)
    → AllBytes bs
    → length bs ≤ data_len
    → str2bytes (bytes2str_h bs).1 data_len ≡ (length bs, bs)
unfolding bytes2str_h
str2bytes-bytes2str_h bs data_len all room =
    let n = length-print bs in
    str2bytes_reads (print_bytes bs) data_len (omega (arith, n)) (omega (arith, n))
    ∙ rw (decode-print bs all) refl

-- Reading a text that `isxdigitstr` accepts, with room for half as many bytes as it has characters,
-- and printing the bytes gives the text in upper case, as `str2upper` makes it.
pub bytes2str_h-str2bytes :
    (s : Text) (data_len : ℕ)
    → isxdigitstr s ≡ true
    → length s ≤ 2 * data_len
    → bytes2str_h (str2bytes s data_len).1 ≡ (length s / 2, str2upper s)
unfolding bytes2str_h
bytes2str_h-str2bytes s data_len h room =
    let (even, all) = isxdigitstr-parts s h in
    let (e, n) = print-decode s even all in
    rw (str2bytes_reads s data_len even (omega arith), e, n) refl
