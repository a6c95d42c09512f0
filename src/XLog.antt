-- ===== src/XLog.antt =====
-- x_ring/x_log.c: a message is put into a ring, from which a thread writes it to the file.
pub mod Lifetime
pub mod Logged
use gittest.Prelude.{
  ℕ, zero, suc, ◌+◌, ◌-◌, ◌%◌, ◌^◌, Bool, true, false, Option, none, some, List, [], ◌∷◌, ◌++◌,
  ◌==◌, ltb, if◌then◌else◌, length, take, replicate, get_elem?,
}
use gittest.Prelude.Int.{ℤ, pos, negsuc}
use gittest.Prelude.Partial.{◌>>=◌}
use gittest.Utils.Chars.{Text}
use gittest.Ring.{Bytes, Entry, Ring, Malloc, x_ring_sc_dequeue}
use gittest.Ring.Multi.{Others, x_ring_mp_enqueue}
use gittest.Ring.Threads.{content}

-- `x_log_t`: the ring, the level, what has been written to `fp`, and `log_count`, an `unsigned long
-- long`, from its value at the start.
pub record XLog : Type 0 where
  pub log_ring : Ring
  pub level : ℤ
  pub file : Bytes
  pub log_count : ℕ

abbrev pub log_buff_len : ℕ
log_buff_len = 1024

abbrev pub log_level_str : List Text
log_level_str =
    (b'F' ∷ b'a' ∷ b't' ∷ b'a' ∷ b'l' ∷ [])
    ∷ (b'E' ∷ b'r' ∷ b'r' ∷ b'o' ∷ b'r' ∷ [])
    ∷ (b'W' ∷ b'a' ∷ b'r' ∷ b'n' ∷ b'i' ∷ b'n' ∷ b'g' ∷ [])
    ∷ (b'I' ∷ b'n' ∷ b'f' ∷ b'o' ∷ [])
    ∷ (b'D' ∷ b'e' ∷ b'b' ∷ b'u' ∷ b'g' ∷ [])
    ∷ (b'T' ∷ b'e' ∷ b's' ∷ b't' ∷ [])
    ∷ []

-- `(unsigned int) level`
abbrev pub unsigned : ℤ → ℕ
unsigned (pos n) = n % 2 ^ 32
unsigned (negsuc n) = 2 ^ 32 - 1 - n % 2 ^ 32

-- `log_level_str[level]`; `none` is a read out of the table.
abbrev pub level_name : ℤ → Option Text
level_name (pos n) = get_elem? log_level_str n
level_name (negsuc n) = none

-- The line before it is cut: `stamp` is the time and the colon and space behind it.
abbrev pub line : Text → Text → Text → Text
line stamp name msg = stamp ++ (name ++ b' ' ∷ msg)

-- `sbuf`, zero at first: as much of the line as fits before the terminator, and zeros.
abbrev pub buffer_of : Text → Bytes
buffer_of l =
    take (log_buff_len - 1) l ++ replicate (log_buff_len - length (take (log_buff_len - 1) l)) 0

-- `while (x_ring_mp_enqueue (...) != 0) usleep (1);`, on fuel; `f` is that of the loops within.
pub enqueue_loop : Others → ℕ → ℕ → Malloc → Ring → Bytes → ℕ → Option (Option Ring)
enqueue_loop others f zero malloc r sbuf ret = none
enqueue_loop others f (suc g) malloc r sbuf ret =
    x_ring_mp_enqueue others f malloc r sbuf ret >>= λ o. elim o [
      | none ↦ some none
      | some res ↦ elim res.0 [
        | pos n ↦
            let again = enqueue_loop others f g malloc (others g res.1) sbuf ret in
            if n == 0 then some (some res.1) else again
        | negsuc n ↦ enqueue_loop others f g malloc (others g res.1) sbuf ret
      ]
    ]

abbrev pub with_ring : XLog → Option (Option Ring) → Option (Option (ℤ × XLog))
with_ring x none = none
with_ring x (some none) = some none
with_ring x (some (some r)) = some (some (pos 0, record x { log_ring = r }))

-- Outside, `none` is a loop that has not ended with this fuel; inside, undefined behaviour. `msg` is what
-- the format and its arguments stand for. `ret` is the length before it is cut.
pub x_log_write : Others → ℕ → ℕ → Malloc → XLog → Text → ℤ → Text → Option (Option (ℤ × XLog))
unfolding enqueue_loop
x_log_write others f g malloc x stamp level msg =
    if ltb (unsigned x.level) (unsigned level)
    then some (some (negsuc 0, x))
    else (elim (level_name level) [
      | none ↦ some none
      | some name ↦
          let l = line stamp name msg in
          with_ring x (enqueue_loop others f g malloc x.log_ring (buffer_of l) (length l))
    ])

-- A round of `x_log_thread`, with its entry: the oldest message is written, or there is none.
abbrev pub after_round : XLog → ℤ × Ring × Entry → XLog × Entry
after_round x (pos n, r, e) =
    if n == 0
    then (
      record x { log_ring = r; file = x.file ++ content e; log_count = (x.log_count + 1) % 2 ^ 64 },
      e,
    )
    else (record x { log_ring = r }, e)
after_round x (negsuc n, r, e) = (record x { log_ring = r }, e)

pub thread_round : Malloc → XLog × Entry → Option (XLog × Entry)
thread_round malloc (x, e) = do
  res ← x_ring_sc_dequeue malloc x.log_ring e
  some (after_round x res)

-- `while (1)`: its first `n` rounds.
pub thread_rounds : Malloc → ℕ → XLog × Entry → Option (XLog × Entry)
unfolding thread_round
thread_rounds malloc zero s = some s
thread_rounds malloc (suc n) s = thread_round malloc s >>= thread_rounds malloc n

abbrev pub x_log_get_output_count : XLog → ℕ
x_log_get_output_count x = x.log_count
