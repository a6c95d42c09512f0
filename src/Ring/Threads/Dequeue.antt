-- ===== src/Ring/Threads/Dequeue.antt =====
-- A step of the consumer keeps the invariant, whatever the producer is doing.
use gittest.Prelude.{
  ℕ, ◌+◌, ◌%◌, ◌^◌, ◌≤◌, ◌≡◌, refl, some, List, [], ◌∷◌, ◌++◌, arith, ap, length, take, ◌∙◌, sym,
  ◌==◌, Bool-cases, inl, inr,
}
use gittest.Prelude.Wrap.{mod-below, step_first}
use gittest.Ring.{Bytes, Entry, Ring, Malloc, next_index}
use gittest.Ring.Invariant.{IsRoomy, roomy_at, next_index_lem}
use gittest.Ring.Refine.{Allocates}
use gittest.Ring.Dequeue.{read_slot_lem}
use gittest.Ring.Threads.{Consumer, c_idle, c_head, c_claimed, c_copied, content, consume}
use gittest.Ring.Threads.Invariant.{Shape, Consuming, some_left}

-- The consumer leaves the producer's indices alone.
abbrev pub SameProducer : Ring → Ring → Type 0
SameProducer r r' = (r'.prod_head ≡ r.prod_head) × (r'.prod_tail ≡ r.prod_tail) × (r'.mask ≡ r.mask)

-- The state after a step of the consumer.
abbrev pub Consumed : Malloc → ℕ → Consumer → Ring → Entry → List Bytes → List Bytes → Type 0
Consumed malloc k c r out pend qs =
    (c' : Consumer) × (r' : Ring) × (out' : Entry) × (msgs : List Bytes) × (left : List Bytes)
    × (consume malloc c r out ≡ some (c', r', out', msgs))
    × (qs ≡ msgs ++ left)
    × Shape k r' pend left
    × Consuming r' left c' out'
    × IsRoomy out'
    × SameProducer r r'

nonempty : (qs : List Bytes) → 1 ≤ length qs → (q : Bytes) × (rest : List Bytes) × (qs ≡ q ∷ rest)
nonempty [] h = absurd (omega arith)
nonempty (q ∷ rest) h = (q, rest, refl)

pub content_lem :
    (e : Entry) (b : Bytes) (n : ℕ)
    → e.data_buf ≡ some b
    → e.content_length ≡ some n
    → content e ≡ take n b
content_lem e b n is len = rw (len, is) refl

module _ {k : ℕ} {r : Ring} {pend : List Bytes} where
  claimed-Shape :
      {qs : List Bytes} (v : ℕ) → Shape k r pend qs → Shape k (record r { cons_head = v }) pend qs
  claimed-Shape v sh = record {
    fits = sh.fits;
    mask_eq = sh.mask_eq;
    slots = sh.slots;
    roomy = sh.roomy;
    cons_lt = sh.cons_lt;
    prod_eq = sh.prod_eq;
    below = sh.below;
    held = sh.held;
  }

  taken-Shape :
      (q : Bytes) (left : List Bytes)
      → Shape k r pend (q ∷ left)
      → Shape k (record r { cons_tail = next_index r r.cons_tail }) pend left
  taken-Shape q left sh =
      let next = next_index_lem k r r.cons_tail sh.fits sh.mask_eq sh.cons_lt in
      let small : 1 ≤ 2 ^ k = omega (arith, sh.below) in
      record {
        fits = sh.fits;
        mask_eq = sh.mask_eq;
        slots = sh.slots;
        roomy = sh.roomy;
        cons_lt = omega (arith, next, mod-below (2 ^ k) r.cons_tail 1 sh.cons_lt small);
        prod_eq =
            sh.prod_eq
            ∙ sym
                (step_first (2 ^ k) r.cons_tail (length left) sh.cons_lt (omega (arith, sh.below)))
            ∙ ap (λ t. (t + length left) % 2 ^ k) (sym next);
        below = omega (arith, sh.below);
        held = rw next sh.held.1;
      }

  copy_step :
      (malloc : Malloc) (out : Entry) (q : Bytes) (left : List Bytes)
      → Allocates malloc
      → IsRoomy out
      → Shape k r pend (q ∷ left)
      → r.cons_head ≡ next_index r r.cons_tail
      → Consumed malloc k (c_claimed r.cons_tail) r out pend (q ∷ left)
  unfolding consume
  copy_step malloc out q left mem room sh head =
      let ((slot, at, filled), rest) = sh.held in
      let (out', read, (roomy, (b, is, len, same))) =
        read_slot_lem malloc slot out q mem (roomy_at r.ring r.cons_tail slot sh.roomy at) room
          filled in
      (
        c_copied r.cons_tail,
        r,
        out',
        [],
        q ∷ left,
        rw (at, read) refl,
        refl,
        sh,
        (
          refl,
          head,
          (left, ap (λ m. m ∷ left) (sym (content_lem out' b (length q) is len ∙ same))),
        ),
        roomy,
        (refl, refl, refl),
      )

  -- Whatever the consumer is doing, its next step is defined and keeps the invariant.
  pub consume_lem :
      (malloc : Malloc) (c : Consumer) (out : Entry) (qs : List Bytes)
      → Allocates malloc
      → IsRoomy out
      → Shape k r pend qs
      → Consuming r qs c out
      → Consumed malloc k c r out pend qs
  unfolding consume
  consume_lem malloc c_idle out qs mem room sh co =
      (c_idle, r, out, [], qs, refl, refl, sh, co, room, (refl, refl, refl))
  consume_lem malloc (c_head h) out qs mem room sh (at, rest) =
      elim (Bool-cases (h == r.prod_tail)) [
        | inl empty ↦
            (c_idle, r, out, [], qs, rw empty refl, refl, sh, rest ∙ at, room, (refl, refl, refl))
        | inr ready ↦ (
          c_claimed h,
          record r { cons_head = next_index r h },
          out,
          [],
          qs,
          rw ready refl,
          refl,
          claimed-Shape (next_index r h) sh,
          (at, refl, nonempty qs (some_left sh (rw (sym at) ready))),
          room,
          (refl, refl, refl),
        )
      ]
  consume_lem malloc (c_claimed h) out qs mem room sh (at, head, (q, left, e)) =
      rw (at, e)
        (copy_step malloc out q left mem room (rw (sym e) sh) (head ∙ ap (next_index r) at))
  consume_lem malloc (c_copied h) out qs mem room sh (at, head, (left, e)) = (
    c_idle,
    record r { cons_tail = next_index r h },
    out,
    content out ∷ [],
    left,
    refl,
    e,
    rw at (taken-Shape (content out) left (rw (sym e) sh)),
    head,
    room,
    (refl, refl, refl),
  )
