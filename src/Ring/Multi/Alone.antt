-- ===== src/Ring/Multi/Alone.antt =====
-- With no other thread at work the operations for several threads are those for one.
use gittest.Prelude.{
  ℕ, suc, ◌≡◌, refl, some, List, arith, Bool-cases, Option-cases, inl, inr, ◌==◌, true, get_elem?,
  if◌then◌else◌,
}
use gittest.Ring.{
  Bytes, Entry, Ring, Malloc, next_index, write_slot, read_slot, x_ring_sp_enqueue,
  x_ring_sc_dequeue,
}
use gittest.Ring.Invariant.{IsRing}
use gittest.Ring.Multi.{
  refused, claimed, Others, atomic32_cmpset, claim_prod, wait_prod, publish, fill, enqueue_claimed,
  x_ring_mp_enqueue, claim_cons, wait_cons, release, hand_over, dequeue_claimed, x_ring_mc_dequeue,
}

abbrev pub alone : Others
alone fuel r = r

pub cas_self : (a b : ℕ) → atomic32_cmpset a a b ≡ (true, b)
unfolding atomic32_cmpset
cas_self a b = ground arith

pub self_eq : (a : ℕ) → (a == a) ≡ true
self_eq a = ground arith

claim_prod-alone :
    (fuel : ℕ) (r : Ring)
    → claim_prod alone (suc fuel) r ≡ (
        if next_index r r.prod_head == r.cons_tail
        then some (refused r)
        else some (
            claimed r.prod_head
              (next_index r r.prod_head)
              (record r { prod_head = next_index r r.prod_head })))
unfolding claim_prod
claim_prod-alone fuel r = rw (cas_self r.prod_head (next_index r r.prod_head)) refl

claim_cons-alone :
    (fuel : ℕ) (r : Ring)
    → claim_cons alone (suc fuel) r ≡ (
        if r.cons_head == r.prod_tail
        then some (refused r)
        else some (
            claimed r.cons_head
              (next_index r r.cons_head)
              (record r { cons_head = next_index r r.cons_head })))
unfolding claim_cons
claim_cons-alone fuel r = rw (cas_self r.cons_head (next_index r r.cons_head)) refl

wait_prod-alone :
    (fuel h : ℕ) (r : Ring) → r.prod_tail ≡ h → wait_prod alone (suc fuel) h r ≡ some r
unfolding wait_prod
wait_prod-alone fuel h r e = rw (e, self_eq h) refl

wait_cons-alone :
    (fuel h : ℕ) (r : Ring) → r.cons_tail ≡ h → wait_cons alone (suc fuel) h r ≡ some r
unfolding wait_cons
wait_cons-alone fuel h r e = rw (e, self_eq h) refl

module _ {k : ℕ} {r : Ring} {qs : List Bytes} (fuel : ℕ) (malloc : Malloc)
    (is : IsRing k r qs) where
  -- On a ring at rest, with fuel for one round and no other thread, `x_ring_mp_enqueue` ends at once and
  -- does what `x_ring_sp_enqueue` does, on a full ring too.
  pub mp_enqueue_alone :
      (src : Bytes) (size : ℕ)
      → x_ring_mp_enqueue alone (suc fuel) malloc r src size
        ≡ some (x_ring_sp_enqueue malloc r src size)
  unfolding x_ring_mp_enqueue x_ring_sp_enqueue publish fill enqueue_claimed
  mp_enqueue_alone src size =
      let claim = claim_prod-alone fuel r in
      elim (Bool-cases (next_index r r.prod_head == r.cons_tail)) [
        | inl full ↦ rw (claim, full) refl
        | inr free ↦ elim (Option-cases (write_slot malloc r.ring r.prod_head src size)) [
          | inl bad ↦ rw (claim, free, bad) refl
          | inr (es, wrote) ↦
              let waited =
                wait_prod-alone fuel r.prod_head
                  (record r { prod_head = next_index r r.prod_head; ring = es }) is.prod_rest in
              rw (claim, free, wrote, waited) refl
        ]
      ]

  -- Likewise `x_ring_mc_dequeue` does what `x_ring_sc_dequeue` does, on an empty ring too.
  pub mc_dequeue_alone :
      (out : Entry)
      → x_ring_mc_dequeue alone (suc fuel) malloc r out ≡ some (x_ring_sc_dequeue malloc r out)
  unfolding x_ring_mc_dequeue x_ring_sc_dequeue release hand_over dequeue_claimed
  mc_dequeue_alone out =
      let claim = claim_cons-alone fuel r in
      elim (Bool-cases (r.cons_head == r.prod_tail)) [
        | inl empty ↦ rw (claim, empty) refl
        | inr ready ↦ elim (Option-cases (get_elem? r.ring r.cons_head)) [
          | inl bad ↦ rw (claim, ready, bad) refl
          | inr (slot, at) ↦ elim (Option-cases (read_slot malloc slot out)) [
            | inl bad ↦ rw (claim, ready, at, bad) refl
            | inr (out', read) ↦
                let waited =
                  wait_cons-alone fuel r.cons_head
                    (record r { cons_head = next_index r r.cons_head }) is.cons_rest in
                rw (claim, ready, at, read, waited) refl
          ]
        ]
      ]
