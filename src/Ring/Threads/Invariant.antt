-- ===== src/Ring/Threads/Invariant.antt =====
-- What holds of the ring while the two threads are at work.
use gittest.Prelude.{
  ℕ, suc, ◌+◌, ◌-◌, ◌%◌, ◌^◌, ◌≤◌, ◌<◌, ◌≡◌, List, [], ◌∷◌, ◌++◌, arith, ap, length, take, ◌∙◌,
  ◌==◌, false,
}
use gittest.Prelude.Wrap.{mod-below, step_on, next-eq_iff, place-eq_iff}
use gittest.Ring.{Bytes, Entry, Ring, next_index}
use gittest.Ring.Invariant.{AllRoomy, IsRoomy, Holds, next_index_lem}
use gittest.Ring.Threads.{
  Producer, p_idle, p_head, p_claimed, p_copied, Consumer, c_idle, c_head, c_claimed, c_copied,
  content, System,
}

-- Between the two tails stand the messages `qs`, and behind them `pend`.
pub record Shape (k : ℕ) (r : Ring) (pend qs : List Bytes) : Type 0 where
  pub fits : 2 ^ k ≤ 2 ^ 31
  pub mask_eq : r.mask ≡ 2 ^ k - 1
  pub slots : length r.ring ≡ 2 ^ k
  pub roomy : AllRoomy r.ring
  pub cons_lt : r.cons_tail < 2 ^ k
  pub prod_eq : r.prod_tail ≡ (r.cons_tail + length qs) % 2 ^ k
  pub below : length qs < 2 ^ k
  pub held : Holds r.ring (2 ^ k) r.cons_tail (qs ++ pend)

-- What the producer has copied and not yet published.
abbrev pub pending : Producer → List Bytes
pending p_idle = []
pending (p_head src size h) = []
pending (p_claimed src size h) = []
pending (p_copied src size h) = take size src ∷ []

-- With `n` messages in the ring: from the claim on there is room for one more.
abbrev pub Producing : ℕ → Ring → ℕ → Producer → Type 0
Producing k r n p_idle = r.prod_head ≡ r.prod_tail
Producing k r n (p_head src size h) = (h ≡ r.prod_tail) × (r.prod_head ≡ h) × (size ≤ length src)
Producing k r n (p_claimed src size h) =
    (h ≡ r.prod_tail) × (r.prod_head ≡ next_index r h) × (size ≤ length src) × (suc n < 2 ^ k)
Producing k r n (p_copied src size h) =
    (h ≡ r.prod_tail) × (r.prod_head ≡ next_index r h) × (suc n < 2 ^ k)

-- From the claim on there is a message, and then it has been copied out.
abbrev pub Consuming : Ring → List Bytes → Consumer → Entry → Type 0
Consuming r qs c_idle out = r.cons_head ≡ r.cons_tail
Consuming r qs (c_head h) out = (h ≡ r.cons_tail) × (r.cons_head ≡ h)
Consuming r qs (c_claimed h) out =
    (h ≡ r.cons_tail)
    × (r.cons_head ≡ next_index r h)
    × ((q : Bytes) × (rest : List Bytes) × (qs ≡ q ∷ rest))
Consuming r qs (c_copied h) out =
    (h ≡ r.cons_tail)
    × (r.cons_head ≡ next_index r h)
    × ((rest : List Bytes) × (qs ≡ content out ∷ rest))

-- The whole system, with the messages `qs` on their way.
pub record IsSystem (k : ℕ) (s : System) (qs : List Bytes) : Type 0 where
  pub shape : Shape k s.shared (pending s.producer) qs
  pub producing : Producing k s.shared (length qs) s.producer
  pub consuming : Consuming s.shared qs s.consumer s.out
  pub roomy_out : IsRoomy s.out
  pub history : s.sent ≡ s.received ++ qs

module _ {k : ℕ} {r : Ring} {pend qs : List Bytes} (sh : Shape k r pend qs) where
  pub prod_lt : r.prod_tail < 2 ^ k
  prod_lt = omega (
    arith,
    sh.prod_eq,
    mod-below (2 ^ k) r.cons_tail (length qs) sh.cons_lt (omega (arith, sh.below)),
  )

  pub next_tail : next_index r r.prod_tail ≡ (r.cons_tail + suc (length qs)) % 2 ^ k
  next_tail =
      next_index_lem k r r.prod_tail sh.fits sh.mask_eq prod_lt
      ∙ ap (λ t. (t + 1) % 2 ^ k) sh.prod_eq
      ∙ step_on (2 ^ k) r.cons_tail (length qs) sh.cons_lt sh.below

  -- The producer sees no free slot, or there is one.
  pub room_left : (next_index r r.prod_tail == r.cons_tail) ≡ false → suc (length qs) < 2 ^ k
  room_left e = ground (
    arith,
    next_tail,
    sh.below,
    step_on (2 ^ k) r.cons_tail (length qs) sh.cons_lt sh.below,
    next-eq_iff (2 ^ k) r.cons_tail (length qs) sh.cons_lt sh.below,
  )

  -- The consumer sees no message, or there is one.
  pub some_left : (r.cons_tail == r.prod_tail) ≡ false → 1 ≤ length qs
  some_left e =
      ground (arith, sh.prod_eq, place-eq_iff (2 ^ k) r.cons_tail (length qs) sh.cons_lt sh.below)
