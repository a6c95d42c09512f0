-- ===== src/Queue.antt =====
-- queue.c and queue.h: a queue of the elements of a list, first in, first out.
pub mod Refine
use gittest.Prelude.{ℕ, Bool, false, Option}
use gittest.Prelude.Int.{ℤ, pos}
use gittest.LinkList.{Llist, backward, llist_creat, llist_destroy, llist_insert, llist_fetch}
use gittest.LinkList.Memory.{Cmd, Allocator}

-- `QUEUE`
abbrev pub Queue : Type 0
Queue = Llist

-- The key is NULL, which the comparison does not read.
abbrev pub always_match : {D : Type 0} → Unit {0} → D → ℤ
always_match p₁ p₂ = pos 0

module _ {D : Type 0} (m : Allocator D) where
  unfoldable pub queue_creat : ℕ → Cmd D (Option Queue)
  queue_creat size = llist_creat m size

  pub queue_enq : Queue → D → Cmd D ℤ
  queue_enq q d = llist_insert m q d backward

module _ {D : Type 0} where
  unfoldable pub queue_destroy : ℕ → Option Queue → Cmd D (Unit {0})
  queue_destroy fuel q = llist_destroy fuel q false

  pub queue_deq : ℕ → Queue → Cmd D (ℤ × Option D)
  queue_deq fuel q = llist_fetch fuel q tt always_match
