-- ===== src/XLog/Lifetime/Created.antt =====
-- x_ring/x_log.c: what a logger is after its creation, and what is left of one that could not be made.
use gittest.Prelude.{
  ℕ, ◌^◌, ◌≤◌, ◌<◌, ◌≡◌, ◌≢◌, ◌⊎◌, inl, inr, refl, true, Option, none, some, [], ◌==◌, Bool-cases,
}
use gittest.Prelude.Int.{ℤ, pos, negsuc}
use gittest.Utils.Chars.{Text}
use gittest.Ring.{Bytes, Ring, x_ring_create}
use gittest.Ring.Invariant.{IsRing}
use gittest.Ring.Refine.{Allocates}
use gittest.Ring.Create.{create-IsRing, create_without_memory}
use gittest.XLog.{XLog}
use gittest.XLog.Lifetime.{
  World, Held, nothing, last_char, started, with_file, opened, named, x_log_create,
}

-- A new logger: everything is held, the ring is empty and well-formed, and the file as it was.
abbrev pub New : World → Text → ℤ → Option XLog × Held → Type 0
New w log_name cfg_level (none, h) = (h ≡ nothing) ⊎ (h ≡ record nothing { logserver = true })
New w log_name cfg_level (some x, h) =
    (h ≡ record { logserver = true; fp = true; log_ring = true; tid = true })
    × ((k : ℕ) × IsRing k x.log_ring [])
    × (x.level ≡ cfg_level)
    × (w.fopen log_name ≡ some x.file)

module _ (w : World) (log_name : Text) (ring_size : ℕ) (cfg_level : ℤ) (pos_size : 0 < ring_size)
    (fits : ring_size ≤ 2 ^ 31) (all : (j : ℕ) → Allocates (w.malloc j)) (m : w.memory ≡ true) where
  abbrev Outcome : Option (Option XLog × Held) → Type 0
  Outcome o = (r : Option XLog × Held) × (o ≡ some r) × New w log_name cfg_level r

  started-New :
      (file : Bytes) (ring : Ring) (k : ℕ) (t : ℤ)
      → IsRing k ring []
      → w.fopen log_name ≡ some file
      → w.pthread_create ≡ t
      → New w log_name cfg_level (started w cfg_level file ring)
  started-New file ring k (pos n) is e f = rw f (refl, (k, is), refl, e)
  started-New file ring k (negsuc n) is e f = rw f (inl refl)

  with_file_lem :
      (file : Bytes)
      → w.fopen log_name ≡ some file
      → Outcome (
          with_file w ring_size cfg_level file
            (x_ring_create w.ring_memory w.malloc ring_size w.ringbuf_size))
  unfolding with_file
  with_file_lem file e =
      let (k, ring, f, is, _, _) =
        create-IsRing w.malloc ring_size w.ringbuf_size pos_size fits all in
      elim (Bool-cases w.ring_memory) [
        | inl has ↦ rw has (
            rw f (
              started w cfg_level file ring,
              refl,
              started-New file ring k w.pthread_create is e refl,
            ))
        | inr none_left ↦ rw none_left (
            rw (create_without_memory w.malloc ring_size w.ringbuf_size pos_size fits)
              ((none, nothing), refl, inl refl))
      ]

  opened_lem :
      (o : Option Bytes) → w.fopen log_name ≡ o → Outcome (opened w ring_size cfg_level true o)
  unfolding opened
  opened_lem none e = ((none, record nothing { logserver = true }), refl, inr refl)
  opened_lem (some file) e = with_file_lem file e

  named_lem : (o : Option ℕ) → o ≢ none → Outcome (named w log_name ring_size cfg_level o)
  unfolding named
  named_lem none ne = absurd (ne refl)
  named_lem (some c) ne = elim (Bool-cases (c == b'/')) [
    | inl is ↦ rw is (rw m ((none, record nothing { logserver = true }), refl, inr refl))
    | inr isnt ↦ rw isnt (rw m (opened_lem (w.fopen log_name) refl))
  ]

  -- With memory for the logger, a name that is not empty and a size from 1 to 2^31, `x_log_create` ends and is
  -- defined. It returns a new logger, or NULL; then either nothing is held, or the memory of the logger is
  -- lost.
  pub x_log_create_lem :
      last_char log_name ≢ none → Outcome (x_log_create w log_name ring_size cfg_level)
  unfolding x_log_create
  x_log_create_lem ne = named_lem (last_char log_name) ne
