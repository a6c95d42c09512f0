-- ===== src/Stack.antt =====
-- stack.c and stack.h: a stack of the elements of a list, last in, first out.
pub mod Refine
use gittest.Prelude.{ℕ, Bool, false, Option}
use gittest.Prelude.Int.{ℤ, pos}
use gittest.LinkList.{Llist, forward, llist_creat, llist_destroy, llist_insert, llist_fetch}
use gittest.LinkList.Memory.{Cmd, Allocator}

-- `STACK`
abbrev pub Stack : Type 0
Stack = Llist

-- The key is NULL, which the comparison does not read.
abbrev pub always_match : {D : Type 0} → Unit {0} → D → ℤ
always_match p₁ p₂ = pos 0

module _ {D : Type 0} (m : Allocator D) where
  unfoldable pub stack_creat : ℕ → Cmd D (Option Stack)
  stack_creat size = llist_creat m size

  pub stack_push : Stack → D → Cmd D ℤ
  stack_push s d = llist_insert m s d forward

module _ {D : Type 0} where
  unfoldable pub stack_destroy : ℕ → Option Stack → Cmd D (Unit {0})
  stack_destroy fuel s = llist_destroy fuel s false

  pub stack_pop : ℕ → Stack → Cmd D (ℤ × Option D)
  stack_pop fuel s = llist_fetch fuel s tt always_match
