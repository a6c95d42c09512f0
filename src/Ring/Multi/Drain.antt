-- ===== src/Ring/Multi/Drain.antt =====
-- `x_ring_print`, which takes every message out, and `x_ring_destroy`, which frees every buffer.
pub mod Emptied
use gittest.Prelude.{
  ℕ, zero, suc, ◌+◌, Option, none, some, Bool, true, false, List, [], ◌∷◌, if◌then◌else◌, get_elem?,
}
use gittest.Prelude.Int.{ℤ, pos, negsuc}
use gittest.Prelude.Partial.{◌>>=◌}
use gittest.Ring.{Bytes, Entry, Ring, Malloc}
use gittest.Ring.Multi.{Others, x_ring_mc_dequeue}

-- The returned count, the ring that is left, and the entries that are printed.
abbrev pub Printed : Type 0
Printed = Option (Option (ℕ × Ring × List Entry))

abbrev pub is_negative : ℤ → Bool
is_negative (pos n) = false
is_negative (negsuc n) = true

abbrev pub prints : Entry → Printed → Printed
prints e none = none
prints e (some none) = some none
prints e (some (some (n, r, es))) = some (some (n, r, e ∷ es))

-- The rest of round `i` after the dequeue; `later` are the rounds to come.
pub after_dequeue : ℕ → (Ring → Entry → Printed) → Option (Option (ℤ × Ring × Entry)) → Printed
after_dequeue i later none = none
after_dequeue i later (some none) = some none
after_dequeue i later (some (some (ret, r, e))) =
    if is_negative ret then some (some (i, r, [])) else prints e (later r e)

-- The loop, with `n` rounds left. Each dequeue has the fuel `f`.
pub print_loop : Others → ℕ → Malloc → ℕ → ℕ → Ring → Entry → Printed
unfolding after_dequeue
print_loop others f malloc zero i r e = some (some (i, r, []))
print_loop others f malloc (suc n) i r e =
    after_dequeue i (λ r' e'. print_loop others f malloc n (i + 1) r' e')
      (x_ring_mc_dequeue others f malloc r e)

pub x_ring_print : Others → ℕ → Malloc → Ring → Printed
unfolding print_loop
x_ring_print others f malloc r =
    print_loop others f malloc r.size 0 r
      (record { size = 1024; content_length = some 0; data_buf = malloc 1024 })

-- The buffers that `op` is called on, if it is set, and those that are freed, from slot `i` on.
pub destroy_loop : Bool → ℕ → ℕ → List Entry → Option (List Bytes × List Bytes)
destroy_loop op zero i es = some ([], [])
destroy_loop op (suc n) i es = do
  e ← get_elem? es i
  (ops, frees) ← destroy_loop op n (suc i) es
  some (elim e.data_buf [
    | none ↦ (ops, frees)
    | some b ↦ ((if op then b ∷ ops else ops), b ∷ frees)
  ])

-- Without a slot that it visits it is undefined. Behind the loop the ring itself is freed.
pub x_ring_destroy : Bool → Ring → Option (List Bytes × List Bytes)
unfolding destroy_loop
x_ring_destroy op r = destroy_loop op r.size 0 r.ring
