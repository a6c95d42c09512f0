-- ===== src/Ring/Multi/Overtaken.antt =====
-- Other threads go round the ring between the test for a free slot and the exchange of the head.
use gittest.Prelude.{
  ℕ, suc, ◌+◌, ◌^◌, ◌≤◌, ◌<◌, ◌≡◌, refl, some, List, arith, ◌∙◌, length, set, ◌==◌, ==_iff, true,
  false,
}
use gittest.Ring.{Bytes, Ring, Malloc, success, next_index, x_ring_empty}
use gittest.Ring.Invariant.{IsRing}
use gittest.Ring.Refine.{Allocates, full_test, write_slot_lem}
use gittest.Ring.Multi.{
  Others, claim_prod, wait_prod, publish, fill, enqueue_claimed, x_ring_mp_enqueue,
}
use gittest.Ring.Multi.Alone.{cas_self, self_eq}
use gittest.Prelude.Wrap.{mod-below}

-- Whatever the ring was, the other threads leave `r'`.
abbrev pub leave : Ring → Others
leave r' fuel r = r'

module _ {k : ℕ} {r r' : Ring} {qs qs' : List Bytes} (is : IsRing k r qs) (is' : IsRing k r' qs')
    (room : suc (length qs) < 2 ^ k) (full : length qs' + 1 ≡ 2 ^ k)
    (back : r'.prod_head ≡ r.prod_head) where
  next_is_tail : next_index r r.prod_head ≡ r'.cons_tail
  next_is_tail =
      let same : next_index r r.prod_head ≡ next_index r' r'.prod_head =
        rw (back, is.mask_eq, is'.mask_eq) refl in
      same ∙ (==_iff _ _).0 (full_test is' ∙ ground (arith, full))

  -- The head index is kept below the size, so it comes back to an old value when other producers have
  -- gone once round the ring. If `x_ring_mp_enqueue` sees room in a ring at rest, and before its exchange
  -- other threads bring the ring to another state at rest in which it is full and the head is where it
  -- was, the exchange succeeds, the call returns 0, and the ring then counts as empty: the messages that
  -- it was full of are lost, and the new one with them.
  pub mp_enqueue_overtaken :
      (fuel : ℕ) (malloc : Malloc) (src : Bytes) (size : ℕ)
      → Allocates malloc
      → size ≤ length src
      → (lost : Ring) × (x_ring_mp_enqueue (leave r') (suc fuel) malloc r src size
          ≡ some (some (success, lost)))
        × (x_ring_empty lost ≡ true)
  unfolding x_ring_mp_enqueue claim_prod wait_prod publish fill enqueue_claimed x_ring_empty
  mp_enqueue_overtaken fuel malloc src size mem len =
      let free : (next_index r r.prod_head == r.cons_tail) ≡ false =
        full_test is ∙ ground (arith, room) in
      let next = next_index r r.prod_head in
      let lt : r.prod_head < length r'.ring = omega (
        arith,
        back,
        is'.prod_eq,
        is'.slots,
        mod-below (2 ^ k) r'.cons_head (length qs') is'.cons_lt (omega (arith, is'.below)),
      ) in
      let (e, wrote, filled, roomy) =
        write_slot_lem malloc r'.ring r.prod_head src size mem is'.roomy lt len in
      let rest : r'.prod_tail ≡ r.prod_head = is'.prod_rest ∙ back in
      (
        record r' { prod_head = next; ring = set r'.ring r.prod_head e; prod_tail = next },
        rw (free, back, cas_self r.prod_head next, wrote, rest, self_eq r.prod_head) refl,
        rw next_is_tail (self_eq r'.cons_tail),
      )
