-- ===== src/XLog/Lifetime.antt =====
-- x_ring/x_log.c: the creation and the destruction of a logger, and what they hold.
pub mod Created
use gittest.Prelude.{ℕ, Bool, true, false, Option, none, some, List, [], ◌∷◌, ◌==◌, if◌then◌else◌}
use gittest.Prelude.Int.{ℤ, pos, negsuc}
use gittest.Utils.Chars.{Text}
use gittest.Ring.{Bytes, Ring, Malloc, x_ring_create}
use gittest.XLog.{XLog}

-- What is allocated, open or running.
pub record Held : Type 0 where
  pub logserver : Bool
  pub fp : Bool
  pub log_ring : Bool
  pub tid : Bool

abbrev pub nothing : Held
nothing = record { logserver = false; fp = false; log_ring = false; tid = false }

-- What the calls of `x_log_create` meet. `fopen` gives what the file holds already; `log_count` is what the
-- memory of the new logger holds, which is not cleared; `ringbuf_size` stands for the second argument of
-- `x_ring_create`, which the call leaves out.
pub record World : Type 0 where
  pub memory : Bool
  pub fopen : Text → Option Bytes
  pub ring_memory : Bool
  pub malloc : ℕ → Malloc
  pub ringbuf_size : ℕ
  pub pthread_create : ℤ
  pub log_count : ℕ

-- `log_name[strlen(log_name)-1]`; `none` is a read in front of the text.
abbrev pub last_char : Text → Option ℕ
last_char [] = none
last_char (c ∷ []) = some c
last_char (c ∷ d ∷ cs) = last_char (d ∷ cs)

-- From `pthread_create` on, which is taken to have failed where its result is negative.
abbrev pub started : World → ℤ → Bytes → Ring → Option XLog × Held
started w cfg_level file ring = elim w.pthread_create [
  | pos n ↦ (
    some (record { log_ring = ring; level = cfg_level; file = file; log_count = w.log_count }),
    record { logserver = true; fp = true; log_ring = true; tid = true },
  )
  | negsuc n ↦ (none, nothing)
]

-- From `x_ring_create` on.
with_file : World → ℕ → ℤ → Bytes → Option (Option Ring) → Option (Option XLog × Held)
with_file w ring_size cfg_level file none = none
with_file w ring_size cfg_level file (some none) = some (none, nothing)
with_file w ring_size cfg_level file (some (some ring)) = some (started w cfg_level file ring)

-- From `fopen` on. Its result is stored through `logserver`, which may be null.
opened : World → ℕ → ℤ → Bool → Option Bytes → Option (Option XLog × Held)
unfolding with_file
opened w ring_size cfg_level false f = none
opened w ring_size cfg_level true none = some (none, record nothing { logserver = true })
opened w ring_size cfg_level true (some file) =
    with_file w ring_size cfg_level file
      (x_ring_create w.ring_memory w.malloc ring_size w.ringbuf_size)

-- From the test of the last character on.
named : World → Text → ℕ → ℤ → Option ℕ → Option (Option XLog × Held)
unfolding opened
named w log_name ring_size cfg_level none = none
named w log_name ring_size cfg_level (some c) =
    let rest = opened w ring_size cfg_level w.memory (w.fopen log_name) in
    if c == b'/' then some (none, record nothing { logserver = w.memory }) else rest

-- `none` is undefined behaviour, or a loop of `x_ring_create` that does not end.
pub x_log_create : World → Text → ℕ → ℤ → Option (Option XLog × Held)
unfolding named
x_log_create w log_name ring_size cfg_level =
    named w log_name ring_size cfg_level (last_char log_name)

-- `x_log_destroy`, from a logger that was created. `ends` says whether the thread ends, for which `pthread_join` waits; `none` is that
-- it waits for ever. The logger itself is not freed.
abbrev pub x_log_destroy : Bool → Held → Option Held
x_log_destroy ends h =
    if ends then some (record h { fp = false; log_ring = false; tid = false }) else none
