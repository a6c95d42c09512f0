-- ===== src/Ring/Threads/Enqueue.antt =====
-- A step of the producer keeps the invariant, whatever the consumer is doing.
use mathlib.Core.List.{append-nil}
use gittest.Prelude.{
  ℕ, suc, ◌+◌, ◌%◌, ◌^◌, ◌<◌, ◌≡◌, refl, some, List, [], ◌∷◌, ◌++◌, arith, ap, length, take, set,
  ◌∙◌, sym, ◌==◌, Bool-cases, inl, inr, length-append, length-set,
}
use gittest.Ring.{Bytes, Entry, Ring, Malloc, next_index}
use gittest.Ring.Invariant.{AllRoomy, AllRoomy-set, Holds, Holds-set}
use gittest.Ring.Refine.{Allocates, write_slot_lem}
use gittest.Ring.Threads.{Producer, p_idle, p_head, p_claimed, p_copied, produce}
use gittest.Ring.Threads.Invariant.{Shape, pending, Producing, prod_lt, next_tail, room_left}

-- The producer leaves the consumer's indices alone.
abbrev pub SameConsumer : Ring → Ring → Type 0
SameConsumer r r' = (r'.cons_head ≡ r.cons_head) × (r'.cons_tail ≡ r.cons_tail) × (r'.mask ≡ r.mask)

-- The state after a step of the producer.
abbrev pub Produced : Malloc → ℕ → Producer → Ring → List Bytes → Type 0
Produced malloc k p r qs =
    (p' : Producer) × (r' : Ring) × (msgs : List Bytes) × (produce malloc p r ≡ some (p', r', msgs))
    × Shape k r' (pending p') (qs ++ msgs)
    × Producing k r' (length (qs ++ msgs)) p'
    × SameConsumer r r'

-- A step that publishes nothing.
silent :
    {k : ℕ} {qs : List Bytes} (malloc : Malloc) (p : Producer) (r : Ring) (p' : Producer)
    (r' : Ring)
    → produce malloc p r ≡ some (p', r', [])
    → Shape k r' (pending p') qs
    → Producing k r' (length qs) p'
    → SameConsumer r r'
    → Produced malloc k p r qs
silent malloc p r p' r' e sh pr same = (p', r', [], e, rw append-nil sh, rw append-nil pr, same)

module _ {k : ℕ} {r : Ring} {qs : List Bytes} where
  claimed-Shape : (v : ℕ) → Shape k r [] qs → Shape k (record r { prod_head = v }) [] qs
  claimed-Shape v sh = record {
    fits = sh.fits;
    mask_eq = sh.mask_eq;
    slots = sh.slots;
    roomy = sh.roomy;
    cons_lt = sh.cons_lt;
    prod_eq = sh.prod_eq;
    below = sh.below;
    held = sh.held;
  }

  copied-Shape :
      (src : Bytes) (size : ℕ) (e : Entry)
      → Shape k r [] qs
      → AllRoomy (set r.ring r.prod_tail e)
      → Holds (set r.ring r.prod_tail e) (2 ^ k) r.cons_tail (qs ++ take size src ∷ [])
      → Shape k (record r { ring = set r.ring r.prod_tail e }) (take size src ∷ []) qs
  copied-Shape src size e sh roomy held = record {
    fits = sh.fits;
    mask_eq = sh.mask_eq;
    slots = length-set r.ring r.prod_tail e ∙ sh.slots;
    roomy = roomy;
    cons_lt = sh.cons_lt;
    prod_eq = sh.prod_eq;
    below = sh.below;
    held = held;
  }

  published-Shape :
      (q : Bytes)
      → Shape k r (q ∷ []) qs
      → suc (length qs) < 2 ^ k
      → Shape k (record r { prod_tail = next_index r r.prod_tail }) [] (qs ++ q ∷ [])
  published-Shape q sh room =
      let len : length (qs ++ q ∷ []) ≡ suc (length qs) =
        omega (arith, length-append qs (q ∷ [])) in
      record {
        fits = sh.fits;
        mask_eq = sh.mask_eq;
        slots = sh.slots;
        roomy = sh.roomy;
        cons_lt = sh.cons_lt;
        prod_eq = next_tail sh ∙ ap (λ n. (r.cons_tail + n) % 2 ^ k) (sym len);
        below = omega (arith, len, room);
        held = rw append-nil sh.held;
      }

  copy_step :
      (malloc : Malloc) (src : Bytes) (size : ℕ)
      → Allocates malloc
      → Shape k r [] qs
      → Producing k r (length qs) (p_claimed src size r.prod_tail)
      → Produced malloc k (p_claimed src size r.prod_tail) r qs
  unfolding produce
  copy_step malloc src size mem sh (at, head, len, room) =
      let lt : r.prod_tail < length r.ring = omega (arith, prod_lt sh, sh.slots) in
      let (e, wrote, filled, roomy) =
        write_slot_lem malloc r.ring r.prod_tail src size mem sh.roomy lt len in
      silent malloc (p_claimed src size r.prod_tail) r (p_copied src size r.prod_tail)
        (record r { ring = set r.ring r.prod_tail e }) (rw wrote refl)
        (copied-Shape src size e sh (AllRoomy-set r.ring r.prod_tail e sh.roomy roomy) (
          Holds-set r.ring (2 ^ k) r.cons_tail r.prod_tail e (take size src) qs sh.slots sh.cons_lt
            sh.below sh.prod_eq filled (rw (sym (append-nil qs)) sh.held)))
        (refl, head, room) (refl, refl, refl)

  publish_step :
      (malloc : Malloc) (src : Bytes) (size : ℕ)
      → Shape k r (take size src ∷ []) qs
      → Producing k r (length qs) (p_copied src size r.prod_tail)
      → Produced malloc k (p_copied src size r.prod_tail) r qs
  unfolding produce
  publish_step malloc src size sh (at, head, room) = (
    p_idle,
    record r { prod_tail = next_index r r.prod_tail },
    take size src ∷ [],
    refl,
    published-Shape (take size src) sh room,
    head,
    (refl, refl, refl),
  )

  -- Whatever the producer is doing, its next step is defined and keeps the invariant.
  pub produce_lem :
      (malloc : Malloc) (p : Producer)
      → Allocates malloc
      → Shape k r (pending p) qs
      → Producing k r (length qs) p
      → Produced malloc k p r qs
  unfolding produce
  produce_lem malloc p_idle mem sh pr =
      silent malloc p_idle r p_idle r refl sh pr (refl, refl, refl)
  produce_lem malloc (p_head src size h) mem sh (at, rest, len) =
      elim (Bool-cases (next_index r h == r.cons_tail)) [
        | inl full ↦
            silent malloc (p_head src size h) r p_idle r (rw full refl) sh (rest ∙ at)
              (refl, refl, refl)
        | inr free ↦
            silent malloc (p_head src size h) r (p_claimed src size h)
              (record r { prod_head = next_index r h }) (rw free refl)
              (claimed-Shape (next_index r h) sh) (at, refl, len, room_left sh (rw (sym at) free))
              (refl, refl, refl)
      ]
  produce_lem malloc (p_claimed src size h) mem sh (at, a, b, c) =
      rw at (copy_step malloc src size mem sh (refl, rw (sym at) a, b, c))
  produce_lem malloc (p_copied src size h) mem sh (at, a, b) =
      rw at (publish_step malloc src size sh (refl, rw (sym at) a, b))
