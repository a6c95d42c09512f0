-- ===== src/LinkList/Sweep.antt =====
-- `llist_check` and `llist_travel_delete`: the walks that remove nodes on the way.
use gittest.Prelude.{
  ℕ, zero, suc, ◌+◌, ◌≡◌, ◌<◌, refl, Bool, true, false, Option, none, some, [], ◌∷◌, ◌++◌, arith,
  if◌then◌else◌, length, Bool-cases, inl, inr, ◌∙◌,
}
use gittest.Prelude.Int.{ℤ, pos}
use mathlib.Core.List.{append-nil, append_assoc}
use gittest.LinkList.{
  Llist, is_zero, is_break, check_loop, llist_check, travel_delete_loop, llist_travel_delete,
}
use gittest.LinkList.Memory.{Ptr, Heap, update}
use gittest.LinkList.Chain.{Cells, has, first}
use gittest.LinkList.Invariant.{IsList, Returns, returns, mono, bind}
use gittest.LinkList.Cursor.{
  get_next_of_head, not_head, get_next_at, get_content_at, rewritten, IsList-rewritten, unlink_at,
}
use gittest.LinkList.Remove.{self_eq, removed, IsList-removed, notify_at, free_at, free_silent_at}
use gittest.LinkList.Walk.{IsList-shift, IsList-unshift, apply_op_at}
use gittest.LinkList.Clear.{elements, calls_on}

module _ {D : Type 0} where
  -- The elements that `node_check` keeps, as it leaves them, and the nodes that it drops.
  abbrev pub kept : Option (D → ℤ × D) → Cells D → Cells D
  kept none xs = xs
  kept (some f) [] = []
  kept (some f) ((p, v) ∷ xs) =
      let rest = kept (some f) xs in if is_zero (f v).0 then rest else (p, (f v).1) ∷ rest

  abbrev pub dropped : Option (D → ℤ × D) → Cells D → Cells D
  dropped none xs = []
  dropped (some f) [] = []
  dropped (some f) ((p, v) ∷ xs) =
      let rest = dropped (some f) xs in if is_zero (f v).0 then (p, (f v).1) ∷ rest else rest

  -- The outcome of a walk: the list that is left, the nodes that are freed, the calls that are made.
  pub record Swept (h : Heap D) (l : Llist) (left gone : Cells D) (node_op : Bool) (g : Heap D)
      : Type 0 where
    pub list : IsList g l left
    pub dead : (q : Ptr) → g.live q ≡ (if has q gone then false else h.live q)
    pub calls : g.calls ≡ h.calls ++ calls_on node_op gone

  Swept-nil :
      {h : Heap D} {l : Llist} {left : Cells D} (g : Heap D) (node_op : Bool)
      → ((q : Ptr) → g.live q ≡ h.live q)
      → g.calls ≡ h.calls
      → IsList g l left
      → Swept h l left [] node_op g
  Swept-nil g true live calls is = record { list = is; dead = live; calls = rw (calls, append-nil) }
  Swept-nil g false live calls is = record {
    list = is;
    dead = live;
    calls = rw (calls, append-nil);
  }

  Swept-cons :
      (h g' g : Heap D) (l : Llist) (left gone : Cells D) (node_op : Bool) (p : Ptr) (w : D)
      → ((q : Ptr) → g'.live q ≡ update h.live p false q)
      → g'.calls ≡ h.calls ++ (if node_op then w ∷ [] else [])
      → Swept g' l left gone node_op g
      → Swept h l left ((p, w) ∷ gone) node_op g
  Swept-cons h g' g l left gone true p w dead calls s = record {
    list = s.list;
    dead = λ q. ground (arith, s.dead q, dead q);
    calls = s.calls ∙ rw calls (append_assoc h.calls (w ∷ []) (elements gone));
  }
  Swept-cons h g' g l left gone false p w dead calls s = record {
    list = s.list;
    dead = λ q. ground (arith, s.dead q, dead q);
    calls = s.calls ∙ rw calls (append_assoc h.calls [] []);
  }

  check_loop_lem :
      (h : Heap D) {l : Llist} (k n : ℕ) (check : Option (D → ℤ × D)) (us ws : Cells D)
      → IsList h l (us ++ ws)
      → length ws < k
      → Returns
          (λ r g. (r ≡ n + length ws) × Swept h l (us ++ kept check ws) (dropped check ws) false g)
          (check_loop k check l.head (first ws l.head) n h)
  unfolding check_loop
  check_loop_lem h zero n check us ws is fuel = absurd (omega arith)
  check_loop_lem h {l} (suc k) n none us [] is fuel =
      rw (self_eq l.head) (returns (omega arith, Swept-nil h false (λ q. refl) refl is))
  check_loop_lem h {l} (suc k) n none us ((p, v) ∷ ws) is fuel =
      rw (not_head us p v ws is, get_next_at us p v ws is)
        (mono
          (check_loop_lem h k (n + 1) none (us ++ (p, v) ∷ []) ws (IsList-shift us p v ws is)
            (omega arith))
          λ r g (e, s). (
            omega arith,
            record { list = IsList-unshift us p v ws s.list; dead = s.dead; calls = s.calls },
          ))
  check_loop_lem h {l} (suc k) n (some f) us [] is fuel =
      rw (self_eq l.head) (returns (omega arith, Swept-nil h false (λ q. refl) refl is))
  check_loop_lem h {l} (suc k) n (some f) us ((p, v) ∷ ws) is fuel =
      let w = (f v).1 in
      let g = rewritten us p v ws is w in
      let is' : IsList g l (us ++ (p, w) ∷ ws) = IsList-rewritten us p v ws is w in
      rw (not_head us p v ws is, get_next_at us p v ws is, apply_op_at f us p v ws is)
        (elim (Bool-cases (is_zero (f v).0)) [
          | inl drop ↦
              rw (drop, unlink_at us p w ws is', free_silent_at us p w ws is')
                (mono
                  (check_loop_lem (removed us p w ws is' false) k (n + 1) (some f) us ws
                    (IsList-removed us p w ws is' false) (omega arith))
                  λ r g' (e, s). (
                    omega arith,
                    Swept-cons h (removed us p w ws is' false) g' l _ _ false p w (λ q. refl) refl
                        s,
                  ))
          | inr keep ↦ rw keep (
              mono
                (check_loop_lem g k (n + 1) (some f) (us ++ (p, w) ∷ []) ws
                  (IsList-shift us p w ws is') (omega arith))
                λ r g' (e, s). (
                  omega arith,
                  record {
                    list = IsList-unshift us p w (kept (some f) ws) s.list;
                    dead = s.dead;
                    calls = s.calls;
                  },
                ))
        ])

  -- On a well-formed list, with more fuel than it has nodes, `llist_check` removes and frees exactly the nodes on which `node_check` returns 0, keeps the
  -- others in order, and returns how many nodes it has visited, the removed ones included.
  pub llist_check_lem :
      {h : Heap D} {l : Llist} {xs : Cells D} (fuel : ℕ) (check : Option (D → ℤ × D))
      → IsList h l xs
      → length xs < fuel
      → Returns
          (λ r g. (r ≡ pos (length xs)) × Swept h l (kept check xs) (dropped check xs) false g)
          (llist_check fuel (some l) check h)
  unfolding llist_check
  llist_check_lem {h} {xs} fuel check is enough =
      rw (get_next_of_head is) (
        bind (check_loop_lem h fuel 0 check [] xs is enough)
          λ r g (e, s). returns (ground arith, s))

module _ {D K : Type 0} (op : D → ℤ × D) (key : K) (cmp : K → D → ℤ) where
  -- The elements that `llist_travel_delete` leaves, and the nodes that it removes.
  abbrev pub left_of : Cells D → Cells D
  left_of [] = []
  left_of ((p, v) ∷ xs) =
      let rest = left_of xs in
      let tail = if is_break (op v).0 then xs else rest in
      if is_zero (cmp key (op v).1) then tail else (p, (op v).1) ∷ tail

  abbrev pub gone_of : Cells D → Cells D
  gone_of [] = []
  gone_of ((p, v) ∷ xs) =
      let rest = gone_of xs in
      let tail = if is_break (op v).0 then [] else rest in
      if is_zero (cmp key (op v).1) then (p, (op v).1) ∷ tail else tail

  travel_delete_loop_lem :
      (h : Heap D) {l : Llist} (k : ℕ) (node_op : Bool) (us ws : Cells D)
      → IsList h l (us ++ ws)
      → length ws < k
      → Returns
          (λ _ g. Swept h l (us ++ left_of ws) (gone_of ws) node_op g)
          (travel_delete_loop k op key cmp node_op l.head (first ws l.head) h)
  unfolding travel_delete_loop
  travel_delete_loop_lem h zero node_op us ws is fuel = absurd (omega arith)
  travel_delete_loop_lem h {l} (suc k) node_op us [] is fuel =
      rw (self_eq l.head) (returns (Swept-nil h node_op (λ q. refl) refl is))
  travel_delete_loop_lem h {l} (suc k) node_op us ((p, v) ∷ ws) is fuel =
      let w = (op v).1 in
      let g = rewritten us p v ws is w in
      let is' : IsList g l (us ++ (p, w) ∷ ws) = IsList-rewritten us p v ws is w in
      let r = removed us p w ws is' node_op in
      let kept' = IsList-removed us p w ws is' node_op in
      rw
        (
          not_head us p v ws is,
          apply_op_at op us p v ws is,
          get_next_at us p w ws is',
          get_content_at us p w ws is',
        )
        (elim (Bool-cases (is_zero (cmp key w))) [
          | inl hit ↦
              rw
                (
                  hit,
                  unlink_at us p w ws is',
                  notify_at us p w ws is' node_op,
                  free_at us p w ws is' node_op,
                )
                (elim (Bool-cases (is_break (op v).0)) [
                  | inl stop ↦ rw stop (
                      returns (
                        Swept-cons h r r l _ [] node_op p w (λ q. refl) refl
                          (Swept-nil r node_op (λ q. refl) refl kept')))
                  | inr more ↦ rw more (
                      mono (travel_delete_loop_lem r k node_op us ws kept' (omega arith))
                        λ _ g' s. Swept-cons h r g' l _ _ node_op p w (λ q. refl) refl s)
                ])
          | inr miss ↦ rw miss (elim (Bool-cases (is_break (op v).0)) [
            | inl stop ↦ rw stop (returns (Swept-nil g node_op (λ q. refl) refl is'))
            | inr more ↦ rw more (
                mono
                  (travel_delete_loop_lem g k node_op (us ++ (p, w) ∷ []) ws
                    (IsList-shift us p w ws is') (omega arith))
                  λ _ g' s. record {
                    list = IsList-unshift us p w (left_of ws) s.list;
                    dead = s.dead;
                    calls = s.calls;
                  })
          ])
        ])

  -- On a well-formed list, with more fuel than it has nodes, `llist_travel_delete` calls `op` on the elements
  -- in order, up to the first on which it returns LLIST_TRAVEL_BREAK. After each call it removes and frees
  -- the node if its element matches the key, having called `node_op` on it if that is set. The list is
  -- well-formed in the end and has the other elements in their order; exactly the removed nodes have been
  -- freed, and exactly these calls of `node_op` made.
  pub llist_travel_delete_lem :
      {h : Heap D} {l : Llist} {xs : Cells D} (fuel : ℕ) (node_op : Bool)
      → IsList h l xs
      → length xs < fuel
      → Returns
          (λ _ g. Swept h l (left_of xs) (gone_of xs) node_op g)
          (llist_travel_delete fuel (some l) op key cmp node_op h)
  unfolding llist_travel_delete
  llist_travel_delete_lem {h} {xs} fuel node_op is enough =
      rw (get_next_of_head is) (travel_delete_loop_lem h fuel node_op [] xs is enough)
