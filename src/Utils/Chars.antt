-- ===== src/Utils/Chars.antt =====
-- Characters as codes, and <ctype.h> in the C locale.
use gittest.Prelude.{ℕ, ◌+◌, ◌-◌, Bool, List, ◌&&◌, ◌||◌, leb, ltb, if◌then◌else◌}
use gittest.Prelude.Int.{ℤ, pos, negsuc}

abbrev pub Text : Type 0
Text = List ℕ

abbrev pub isdigit : ℕ → Bool
isdigit c = leb b'0' c && leb c b'9'

abbrev pub islower : ℕ → Bool
islower c = leb b'a' c && leb c b'z'

abbrev pub isupper : ℕ → Bool
isupper c = leb b'A' c && leb c b'Z'

abbrev pub isxdigit : ℕ → Bool
isxdigit c = isdigit c || (leb b'a' c && leb c b'f') || (leb b'A' c && leb c b'F')

abbrev pub tolower : ℕ → ℕ
tolower c = if isupper c then c + 32 else c

abbrev pub toupper : ℕ → ℕ
toupper c = if islower c then c - 32 else c

-- The value of a `char`, which is signed on the platforms that the code is built for.
abbrev pub char_value : ℕ → ℤ
char_value c = if ltb c 128 then pos c else negsuc (255 - c)
