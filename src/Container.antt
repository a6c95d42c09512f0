-- ===== src/Container.antt =====
-- The contract that queue.c and stack.c promise, over the list of link_list.c: a sequence of
-- elements to which `put` adds and from whose front the other operation takes.
pub mod Client
use gittest.Prelude.{ℕ, ◌≡◌, ◌<◌, ◌⊎◌, Option, none, some, List, [], ◌∷◌, length}
use gittest.Prelude.Int.{ℤ, pos}
use gittest.LinkList.{Llist, minus_one}
use gittest.LinkList.Memory.{null, Heap, Cmd, Allocator}
use gittest.LinkList.Chain.{Cells}
use gittest.LinkList.Invariant.{IsList, Returns}
use gittest.LinkList.Clear.{elements}

pub data Op (D : Type 0) : Type 0 where
  put : D → Op D
  take : Op D

-- What the caller of an operation sees: the returned `int`, and what is copied out.
abbrev pub Reply : Type 0 → Type 0
Reply D = ℤ × Option D

-- The answers to a sequence of calls that a container may give, from one content to another.
-- A `put` may fail, for want of memory; a `take` fails exactly where the container is empty.
pub data Trace {D : Type 0} (add : D → List D → List D)
    : List D → List (Op D) → List (Reply D) → List D → Type 0 where
  done : {q : List D} → Trace add q [] [] q
  put_done :
      {q q' : List D} {d : D} {ops : List (Op D)} {rs : List (Reply D)}
      → Trace add (add d q) ops rs q'
      → Trace add q (put d ∷ ops) ((pos 0, none) ∷ rs) q'
  put_failed :
      {q q' : List D} {d : D} {ops : List (Op D)} {rs : List (Reply D)}
      → Trace add q ops rs q'
      → Trace add q (put d ∷ ops) ((minus_one, none) ∷ rs) q'
  took :
      {q q' : List D} {d : D} {ops : List (Op D)} {rs : List (Reply D)}
      → Trace add q ops rs q'
      → Trace add (d ∷ q) (take ∷ ops) ((pos 0, some d) ∷ rs) q'
  took_none :
      {q' : List D} {ops : List (Op D)} {rs : List (Reply D)}
      → Trace add [] ops rs q'
      → Trace add [] (take ∷ ops) ((minus_one, none) ∷ rs) q'

-- The outcome of a `put`, and of a `take`, on a list that holds `xs`.
abbrev pub Added :
    {D : Type 0} (m : Allocator D) (add : D → List D → List D)
    → Heap D
    → Llist
    → Cells D
    → D
    → ℤ
    → Heap D
    → Type 0
Added {D} m add h l xs d r g =
    ((r ≡ minus_one) × (m.malloc h ≡ null) × (g ≡ h))
    ⊎ ((r ≡ pos 0) × ((ys : Cells D) × IsList g l ys × (elements ys ≡ add d (elements xs))))

abbrev pub Taken : {D : Type 0} → Heap D → Llist → Cells D → Reply D → Heap D → Type 0
Taken h l [] r g = (r ≡ (minus_one, none)) × (g ≡ h)
Taken h l ((p, d) ∷ xs) r g = (r ≡ (pos 0, some d)) × IsList g l xs

-- What an implementation provides: the two operations and their laws. The first argument of
-- `remove` is the fuel of its loop.
pub record Container {D : Type 0} (m : Allocator D) (add : D → List D → List D) : Type 0 where
  pub insert : Llist → D → Cmd D ℤ
  pub remove : ℕ → Llist → Cmd D (Reply D)
  pub insert_law :
      {h : Heap D} {l : Llist} {xs : Cells D} (d : D)
      → IsList h l xs
      → Returns (Added m add h l xs d) (insert l d h)
  pub remove_law :
      {h : Heap D} {l : Llist} {xs : Cells D} (fuel : ℕ)
      → IsList h l xs
      → length xs < fuel
      → Returns (Taken h l xs) (remove fuel l h)
