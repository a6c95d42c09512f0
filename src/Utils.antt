-- ===== src/Utils.antt =====
-- utils.c, the part that is compiled: texts as lists of character codes from 1 to 255, with the
-- terminating NUL behind the last one. The <ctype.h> functions are those of the C locale.
pub mod Chars
pub mod Hex
pub mod Case
pub mod Ip
use gittest.Prelude.{
  ℕ, zero, suc, ◌+◌, ◌-◌, ◌*◌, ◌/◌, ◌%◌, Bool, true, false, Option, none, some, List, [], ◌∷◌, ◌++◌,
  ◌==◌, ◌&&◌, ◌||◌, not, ltb, leb, if◌then◌else◌, length, get_elem?, map,
}
use gittest.Prelude.Int.{ℤ, pos, negsuc, ◌-ℤ◌}
use Chars.{Text, isdigit, isxdigit, tolower, toupper, char_value}

-- The value that `str2bytes` gives to a character, as an `unsigned char`.
abbrev pub nibble : ℕ → ℕ
nibble c = if leb b'0' c && leb c b'9' then c - b'0' else (tolower c + 256 + 10 - b'a') % 256

-- The loop of `str2bytes` over the pairs of characters.
pub decode_pairs : Text → List ℕ
decode_pairs [] = []
decode_pairs (c ∷ []) = []
decode_pairs (c ∷ d ∷ s) = (nibble c * 16 % 256 + nibble d) % 256 ∷ decode_pairs s

-- The returned count, and the bytes that are stored from `data` on.
pub str2bytes : Text → ℕ → ℕ × List ℕ
unfolding decode_pairs
str2bytes str data_len =
    if length str % 2 == 0
    then (if ltb data_len (length str / 2)
        then (0, [])
        else (length (decode_pairs str), decode_pairs str))
    else (0, [])

-- What `%02X` prints for a byte.
abbrev pub hex_digit : ℕ → ℕ
hex_digit n = if ltb n 10 then n + b'0' else n - 10 + b'A'

pub print_bytes : List ℕ → Text
print_bytes [] = []
print_bytes (b ∷ bs) = hex_digit (b / 16) ∷ hex_digit (b % 16) ∷ print_bytes bs

-- The returned count, and the text that is written; `data` are the `data_len` bytes.
pub bytes2str_h : List ℕ → ℕ × Text
unfolding print_bytes
bytes2str_h bytes = (length bytes, print_bytes bytes)

unfoldable pub all_chars : (ℕ → Bool) → Text → Bool
all_chars p [] = true
all_chars p (c ∷ s) = let rest = all_chars p s in if p c then rest else false

unfoldable pub isxdigitstr : Text → Bool
unfolding all_chars
isxdigitstr str = if length str % 2 == 0 then all_chars isxdigit str else false

-- `str[0]` of the empty text is NUL, which is none of the three.
pub isdigitstr : Text → Bool
unfolding all_chars
isdigitstr [] = false
isdigitstr (c ∷ s) = if isdigit c || (c == b'-') || (c == b'+') then all_chars isdigit s else false

unfoldable pub str2lower : Text → Text
str2lower [] = []
str2lower (c ∷ s) = tolower c ∷ str2lower s

pub str2upper : Text → Text
str2upper [] = []
str2upper (c ∷ s) = toupper c ∷ str2upper s

-- `s[i]`: the terminator stands behind the last character, and nothing behind the terminator.
abbrev pub char_at : Text → ℕ → Option ℕ
char_at [] zero = some 0
char_at [] (suc i) = none
char_at (c ∷ s) zero = some c
char_at (c ∷ s) (suc i) = char_at s i

-- What the loop of `strcmp_nocase` goes on over.
abbrev pub skips : ℤ → Bool
skips (pos n) = (n == 0) || (n == 32)
skips (negsuc n) = n == 31

-- One round of the loop on the two characters, with what the later rounds give. The inner `none` is
-- a read behind the terminator of a text; the outer one, that the fuel has run out.
pub strcmp_step : Option ℕ → Option ℕ → Option (Option ℤ) → Option (Option ℤ)
strcmp_step none b rest = some none
strcmp_step (some a) none rest = some none
strcmp_step (some a) (some b) rest =
    if (a == 0) && (b == 0)
    then some (some (pos 0))
    else (let n = char_value a -ℤ char_value b in if skips n then rest else some (some n))

-- The loop, on fuel.
pub strcmp_loop : ℕ → Text → Text → ℕ → Option (Option ℤ)
unfolding strcmp_step
strcmp_loop zero s₁ s₂ i = none
strcmp_loop (suc f) s₁ s₂ i =
    strcmp_step (char_at s₁ i) (char_at s₂ i) (strcmp_loop f s₁ s₂ (suc i))

pub strcmp_nocase : Text → Text → Option (Option ℤ)
unfolding strcmp_loop
strcmp_nocase s₁ s₂ = strcmp_loop (length s₁ + length s₂ + 2) s₁ s₂ 0
