-- ===== src/LinkList/Invariant.antt =====
-- The well-formedness invariant of an LLIST, and what a walk of link_list.c meets at each node.
use gittest.Prelude.{◌≡◌, true, false, some, [], ◌∷◌, ◌++◌, arith}
use gittest.LinkList.{Llist}
use gittest.LinkList.Memory.{Ptr, Heap, Run, ok, Cmd, and_then}
use gittest.LinkList.Chain.{Cells, has, Distinct, Links, has-append}

-- The command has ended without a fault and before its fuel, with `Post` of what it leaves.
pub data Returns {D Out : Type 0} (Post : Out → Heap D → Type 0) : Run D Out → Type 0 where
  returns : {out : Out} {after : Heap D} → Post out after → Returns Post (ok out after)

-- A weaker postcondition, and the command that comes next.
pub mono :
    {D Out : Type 0} {Post Weaker : Out → Heap D → Type 0} {run : Run D Out}
    → Returns Post run
    → ((out : Out) (after : Heap D) → Post out after → Weaker out after)
    → Returns Weaker run
mono (returns post) weaken = returns (weaken _ _ post)

pub bind :
    {D Out Last : Type 0} {Post : Out → Heap D → Type 0} {Goal : Last → Heap D → Type 0}
    {run : Run D Out} {rest : Out → Cmd D Last}
    → Returns Post run
    → ((out : Out) (between : Heap D) → Post out between → Returns Goal (rest out between))
    → Returns Goal (and_then run rest)
bind (returns post) goal = goal _ _ post

-- `l` is a list of the nodes `xs`: they are allocated, distinct, and chained both ways.
pub record IsList {D : Type 0} (h : Heap D) (l : Llist) (xs : Cells D) : Type 0 where
  pub head_live : h.live l.head ≡ true
  pub chain : Links h l.head xs l.head
  pub distinct : Distinct xs
  pub off_head : has l.head xs ≡ false

module _ {D : Type 0} where
  pub Links-split :
      (h : Heap D) (a p b : Ptr) (v : D) (xs ys : Cells D)
      → Links h a (xs ++ (p, v) ∷ ys) b
      → Links h a xs p × (h.live p ≡ true) × (h.content p ≡ some v) × Links h p ys b
  Links-split h a p b v [] ys c = ((c.0, c.1), c.2, c.3, c.4)
  Links-split h a p b v ((x, w) ∷ xs) ys c =
      let r = Links-split h x p b v xs ys c.4 in ((c.0, c.1, c.2, c.3, r.0), r.1, r.2, r.3)

  pub Links-join :
      (h : Heap D) (a p b : Ptr) (v : D) (xs ys : Cells D)
      → Links h a xs p
      → h.live p ≡ true
      → h.content p ≡ some v
      → Links h p ys b
      → Links h a (xs ++ (p, v) ∷ ys) b
  Links-join h a p b v [] ys l live c r = (l.0, l.1, live, c, r)
  Links-join h a p b v ((x, w) ∷ xs) ys l live c r =
      (l.0, l.1, l.2, l.3, Links-join h x p b v xs ys l.4 live c r)

  -- The parts of `Distinct` at a node in the middle.
  pub Distinct-split :
      (p : Ptr) (v : D) (xs ys : Cells D)
      → Distinct (xs ++ (p, v) ∷ ys)
      → Distinct (xs ++ ys) × (has p (xs ++ ys) ≡ false)
  Distinct-split p v [] ys d = (d.1, d.0)
  Distinct-split p v ((x, w) ∷ xs) ys d =
      let r = Distinct-split p v xs ys d.1 in
      (
        (ground (arith, has-append x xs ys, has-append x xs ((p, v) ∷ ys)), r.0),
        ground (arith, has-append x xs ys, has-append x xs ((p, v) ∷ ys)),
      )

  pub Distinct-join :
      (p : Ptr) (v : D) (xs ys : Cells D)
      → Distinct (xs ++ ys)
      → has p (xs ++ ys) ≡ false
      → Distinct (xs ++ (p, v) ∷ ys)
  Distinct-join p v [] ys d out = (out, d)
  Distinct-join p v ((x, w) ∷ xs) ys d out = (
    ground (arith, has-append x xs ys, has-append x xs ((p, v) ∷ ys)),
    Distinct-join p v xs ys d.1 (ground arith),
  )
