-- ===== src/LinkList/Remove.antt =====
-- `llist_delet` and `llist_fetch`: the first match is unlinked and freed, or nothing changes.
use gittest.Prelude.{
  ℕ, ◌≡◌, ◌<◌, refl, Bool, true, false, Option, none, some, [], ◌∷◌, ◌++◌, arith, ◌==◌,
  if◌then◌else◌, length,
}
use gittest.Prelude.Int.{ℤ, pos}
use mathlib.Core.List.{append-nil}
use gittest.LinkList.{Llist, minus_one, notify, llist_delet, llist_fetch}
use gittest.LinkList.Memory.{Ptr, Heap, ok, update, get_content, free, call}
use gittest.LinkList.Chain.{Cells}
use gittest.LinkList.Invariant.{IsList, Returns, returns}
use gittest.LinkList.Cursor.{
  freed, called, IsList-freed, IsList-called, not_head, off_rest, parts, without, unlink_at,
  unlink_next_first_at, IsList-without, get_content_at,
}
use gittest.LinkList.Find.{
  first_match, remove_first, first_match-split, matching, find_node_lem, match_ne_head,
}

module _ {D : Type 0} (h : Heap D) (l : Llist) (matches : D → Bool) (xs : Cells D) where
  -- What `llist_delet` leaves, by the result of the search.
  abbrev pub Deleted : Bool → Option (Ptr × D) → ℤ → Heap D → Type 0
  Deleted node_op none r g = (r ≡ minus_one) × (g ≡ h)
  Deleted node_op (some (p, v)) r g =
      (r ≡ pos 0)
      × IsList g l (remove_first matches xs)
      × ((q : Ptr) → g.live q ≡ update h.live p false q)
      × (g.calls ≡ h.calls ++ (if node_op then v ∷ [] else []))

  -- What `llist_fetch` leaves, and what it copies out.
  abbrev pub Fetched : Option (Ptr × D) → ℤ × Option D → Heap D → Type 0
  Fetched none r g = (r ≡ (minus_one, none)) × (g ≡ h)
  Fetched (some (p, v)) r g =
      (r ≡ (pos 0, some v))
      × IsList g l (remove_first matches xs)
      × ((q : Ptr) → g.live q ≡ update h.live p false q)
      × (g.calls ≡ h.calls)

module _ {D : Type 0} {h : Heap D} {l : Llist} (us : Cells D) (p : Ptr) (v : D) (ws : Cells D)
    (is : IsList h l (us ++ (p, v) ∷ ws)) where
  -- The heap after the node is unlinked and freed, and `node_op` called on its element if it is set.
  abbrev pub removed : Bool → Heap D
  removed node_op =
      called (freed (without us p v ws is) p) (h.calls ++ (if node_op then v ∷ [] else []))

  pub IsList-removed : (node_op : Bool) → IsList (removed node_op) l (us ++ ws)
  IsList-removed node_op =
      IsList-called _ (
        IsList-freed p (IsList-without us p v ws is) (off_rest us p v ws is)
          (not_head us p v ws is))

  pub notify_at :
      (node_op : Bool)
      → notify node_op p (without us p v ws is)
        ≡ ok tt (called (without us p v ws is) (h.calls ++ (if node_op then v ∷ [] else [])))
  unfolding get_content call
  notify_at true = ground (arith, parts us p v ws is)
  notify_at false = rw append-nil

  pub free_at :
      (node_op : Bool)
      → free p (called (without us p v ws is) (h.calls ++ (if node_op then v ∷ [] else [])))
        ≡ ok tt (removed node_op)
  unfolding free
  free_at node_op = rw (parts us p v ws is).1

  pub free_silent_at : free p (without us p v ws is) ≡ ok tt (removed false)
  unfolding free
  free_silent_at = rw ((parts us p v ws is).1, append-nil)

pub self_eq : (p : Ptr) → (p == p) ≡ true
self_eq p = ground arith

module _ {D K : Type 0} {h : Heap D} {l : Llist} {xs : Cells D} (fuel : ℕ) (key : K)
    (cmp : K → D → ℤ) (is : IsList h l xs) (enough : length xs < fuel) where
  delet_by :
      (node_op : Bool) (o : Option (Ptr × D))
      → first_match (matching key cmp) xs ≡ o
      → Returns (Deleted h l (matching key cmp) xs node_op o) (llist_delet fuel l key cmp node_op h)
  unfolding llist_delet
  delet_by node_op none e =
      rw (find_node_lem key cmp fuel is enough, e) (rw (self_eq l.head) (returns (refl, refl)))
  delet_by node_op (some (p, v)) e =
      let (us, ws, e₁, e₂) = first_match-split (matching key cmp) xs p v e in
      let is' : IsList h l (us ++ (p, v) ∷ ws) = rw e₁ at is in
      rw
        (
          find_node_lem key cmp fuel is enough,
          e,
          match_ne_head key cmp fuel is enough p v e,
          unlink_at us p v ws is',
          notify_at us p v ws is' node_op,
          free_at us p v ws is' node_op,
        )
        (returns (refl, rw e₂ (IsList-removed us p v ws is' node_op), (λ q. refl), refl))

  fetch_by :
      (o : Option (Ptr × D))
      → first_match (matching key cmp) xs ≡ o
      → Returns (Fetched h l (matching key cmp) xs o) (llist_fetch fuel l key cmp h)
  unfolding llist_fetch
  fetch_by none e =
      rw (find_node_lem key cmp fuel is enough, e) (rw (self_eq l.head) (returns (refl, refl)))
  fetch_by (some (p, v)) e =
      let (us, ws, e₁, e₂) = first_match-split (matching key cmp) xs p v e in
      let is' : IsList h l (us ++ (p, v) ∷ ws) = rw e₁ at is in
      rw
        (
          find_node_lem key cmp fuel is enough,
          e,
          match_ne_head key cmp fuel is enough p v e,
          get_content_at us p v ws is',
          unlink_next_first_at us p v ws is',
          free_silent_at us p v ws is',
        )
        (returns (refl, rw e₂ (IsList-removed us p v ws is' false), (λ q. refl), append-nil _))

  -- On a well-formed list, with more fuel than it has nodes, `llist_delet` returns -1 and changes
  -- nothing where no element matches the key; else it returns 0, the first match is gone from the
  -- list, which stays well-formed, exactly its node is freed, and `node_op`, if set, has been called
  -- on its element.
  pub delet_lem :
      (node_op : Bool)
      → Returns
          (Deleted h l (matching key cmp) xs node_op (first_match (matching key cmp) xs))
          (llist_delet fuel l key cmp node_op h)
  delet_lem node_op = delet_by node_op _ refl

  -- On a well-formed list, with more fuel than it has nodes, `llist_fetch` returns -1 and changes
  -- nothing where no element matches the key; else it copies the first match out, returns 0, and
  -- exactly that node is unlinked and freed.
  pub fetch_lem :
      Returns
        (Fetched h l (matching key cmp) xs (first_match (matching key cmp) xs))
        (llist_fetch fuel l key cmp h)
  fetch_lem = fetch_by _ refl
