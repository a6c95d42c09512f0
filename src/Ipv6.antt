-- ===== src/Ipv6.antt =====
-- ipv6_add.c: a signed 32-bit number added to an address of sixteen bytes. The debug output is left out.
pub mod Value
pub mod Round
pub mod Addition
use gittest.Prelude.{
  ℕ, zero, suc, ◌+◌, ◌-◌, ◌*◌, ◌/◌, ◌%◌, ◌^◌, ◌<◌, ◌≡◌, List, [], ◌∷◌, if◌then◌else◌, get_or, set,
}
use gittest.Prelude.Int.{ℤ, pos, negsuc, ◌+ℤ◌, ◌-ℤ◌, ltb_ℤ}

-- The four bytes that the address, read as `uint32_t *`, has in one place, in the order of memory.
pub record Word : Type 0 where
  pub b0 : ℕ
  pub b1 : ℕ
  pub b2 : ℕ
  pub b3 : ℕ

abbrev pub zero_word : Word
zero_word = record { b0 = 0; b1 = 0; b2 = 0; b3 = 0 }

-- The number that `htonl` makes of the bytes, and the bytes of the number that `ntohl` stores.
pub htonl : Word → ℕ
htonl w = w.b0 * 16777216 + w.b1 * 65536 + w.b2 * 256 + w.b3

pub ntohl : ℕ → Word
ntohl v = record { b0 = v / 16777216 % 256; b1 = v / 65536 % 256; b2 = v / 256 % 256; b3 = v % 256 }

-- `tmp & 0xffffffff`, for an `int64_t` in two's complement.
pub low_half : ℤ → ℕ
low_half (pos n) = n % 4294967296
low_half (negsuc n) = 4294967295 - n % 4294967296

-- `(tmp >> 32) & 0xffffffff`, where `tmp` is not negative.
pub high_half : ℤ → ℤ
high_half (pos n) = pos (n / 4294967296 % 4294967296)
high_half (negsuc n) = pos 4294967295

-- The loop. With `r` rounds left, `4 - 1 - i` is `r - 1`.
pub addition_loop : ℕ → List Word → ℤ → List Word
unfolding htonl ntohl low_half high_half
addition_loop zero p n = p
addition_loop (suc r) p n =
    let tmp = pos (htonl (get_or p r zero_word)) +ℤ n in
    let p' = set p r (ntohl (low_half tmp)) in
    let borrowed = addition_loop r p' (negsuc 0) in
    let carried = addition_loop r p' (high_half tmp) in
    if ltb_ℤ tmp (pos 0)
    then borrowed
    else (if ltb_ℤ (pos 0) (tmp -ℤ pos 4294967295) then carried else p')

pub ipv6_addition : List Word → ℤ → List Word
unfolding addition_loop
ipv6_addition ipaddr (pos zero) = ipaddr
ipv6_addition ipaddr (pos (suc n)) = addition_loop 4 ipaddr (pos (suc n))
ipv6_addition ipaddr (negsuc n) = addition_loop 4 ipaddr (negsuc n)
