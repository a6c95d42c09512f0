-- ===== src/Bond/Setup/Bonding.antt =====
-- The calls by which `bond_port_init` of dpdk-examples/bond-kni/main-bond-kni.c sets up the bonded port.
use mathlib.Core.List.{append-nil, append_assoc}
use gittest.Prelude.{
  ℕ, ◌%◌, ◌^◌, ◌<◌, ◌≡◌, refl, sym, Bool, true, List, [], ◌∷◌, ◌++◌, inl, inr, arith, length,
}
use gittest.Prelude.Int.{ℤ, pos, negsuc}
use gittest.Bond.Setup.{
  Call, dev_info_get, dev_configure, adjust_desc, dev_start, macaddr_get, bond_create, slave_add,
  active_slaves_get, promiscuous_enable, Driver, Outcome, done, exited, M, ◌>>◌, is_zero, is_nonneg,
  is_not_minus_one, failure, minus_one, itself, require, bond_conf, setup_queues, add_slaves,
  wait_active, bond_configure, bond_port_init,
}
use gittest.Bond.Setup.Ports.{
  accepts, queue_calls, AllAccepted, AllAccepted-append, Follows, Calls, next, require-Calls,
  queues-Calls,
}
use gittest.Bond.Setup.Waiting.{polls, counted, wait_active_lem}

unfoldable pub adding_calls : ℕ → List ℕ → List Call
adding_calls bond [] = []
adding_calls bond (s ∷ ss) = slave_add bond s ∷ adding_calls bond ss

-- What comes before the wait: all slaves are added, and all queues set up, before the start.
unfoldable pub bond_calls : Driver → ℕ → List ℕ → List Call
bond_calls d bond slaves =
    dev_info_get bond
    ∷ dev_configure bond d.lcore_count (bond_conf d bond)
    ∷ adjust_desc bond
    ∷ (adding_calls bond slaves ++ (queue_calls d bond d.lcore_count 0 ++ dev_start bond ∷ []))

-- Inversion of a sequence that has come to its end.
module _ (d : Driver) where
  chain_done :
      (o : Outcome) (b : M) (u : List Call)
      → (elim o as (λ _. Outcome) [ done t' ↦ b t' | exited code t' ↦ exited code t' ]) ≡ done u
      → (t' : List Call) × (o ≡ done t') × (b t' ≡ done u)
  chain_done (done t') b u h = (t', refl, h)
  chain_done (exited code t') b u h = cc

  follows_done :
      (cs t u : List Call) (o : Outcome)
      → o ≡ done u
      → Follows d cs t o
      → (u ≡ t ++ cs) × AllAccepted d t cs
  follows_done cs t u o e f = rw e at f

  -- The first part of a sequence has made its calls.
  part_done :
      (cs : List Call) (a b : M) (t u : List Call)
      → Calls d cs a
      → (a >> b) t ≡ done u
      → AllAccepted d t cs × (b (t ++ cs) ≡ done u)
  part_done cs a b t u f h =
      let (t', ended, rest) = chain_done (a t) b u h in
      let (e, all) = follows_done cs t t' (a t) ended (f t) in (all, rw e at rest)

  -- A sequence that ends has made the calls `cs`, and then gone on as `k`.
  abbrev Then : List Call → M → M → Type 0
  Then cs m k = (t u : List Call) → m t ≡ done u → AllAccepted d t cs × (k (t ++ cs) ≡ done u)

  Then-last : (cs : List Call) (a k : M) → Calls d cs a → Then cs (a >> k) k
  Then-last cs a k f t u h = part_done cs a k t u f h

  Then-more :
      (cs ds : List Call) (a b k : M) → Calls d cs a → Then ds b k → Then (cs ++ ds) (a >> b) k
  Then-more cs ds a b k f g t u h =
      let (all, rest) = part_done cs a b t u f h in
      let (more, end) = g (t ++ cs) u rest in
      (AllAccepted-append d t cs ds all more, rw (append_assoc t cs ds) at end)

  Then-call :
      (ok : ℤ → Bool) (code : ℤ → ℤ) (c : Call) (ds : List Call) (b k : M)
      → ((r : ℤ) → ok r ≡ accepts c r)
      → Then ds b k
      → Then (c ∷ ds) (require d ok code c >> b) k
  Then-call ok code c ds b k same g =
      Then-more (c ∷ []) ds (require d ok code c) b k (require-Calls d ok code c same) g

  adding-Calls :
      (bond : ℕ) (slaves : List ℕ) → Calls d (adding_calls bond slaves) (add_slaves d bond slaves)
  unfolding adding_calls add_slaves
  adding-Calls bond [] = λ t. (sym (append-nil t), tt)
  adding-Calls bond (s ∷ ss) =
      next d is_not_minus_one minus_one (slave_add bond s) _ _ (λ r. refl) (adding-Calls bond ss)

  abbrev pub enabled_calls : ℕ → List Call
  enabled_calls bond = promiscuous_enable bond ∷ macaddr_get bond ∷ []

  abbrev rest_of : ℕ → List ℕ → M
  rest_of bond slaves =
      wait_active d bond (length slaves) 20
      >> (require d is_zero failure (promiscuous_enable bond)
          >> require d is_zero itself (macaddr_get bond))

  configured :
      (bond : ℕ) (slaves : List ℕ)
      → Then (bond_calls d bond slaves) (bond_configure d bond slaves) (rest_of bond slaves)
  unfolding bond_calls bond_configure
  configured bond slaves =
      let k = rest_of bond slaves in
      let start = dev_start bond ∷ [] in
      let queues = queue_calls d bond d.lcore_count 0 ++ start in
      let added = adding_calls bond slaves ++ queues in
      let adjusted = adjust_desc bond ∷ added in
      let conf = dev_configure bond d.lcore_count (bond_conf d bond) in
      Then-call is_zero failure (dev_info_get bond) (conf ∷ adjusted) _ k (λ r. refl)
        (Then-call is_zero failure conf adjusted _ k (λ r. refl)
          (Then-call is_zero failure (adjust_desc bond) added _ k (λ r. refl)
            (Then-more (adding_calls bond slaves) queues (add_slaves d bond slaves) _ k
              (adding-Calls bond slaves)
              (Then-more (queue_calls d bond d.lcore_count 0) start
                (setup_queues d bond d.lcore_count 0)
                (require d is_nonneg itself (dev_start bond) >> k) k
                (queues-Calls d bond d.lcore_count 0)
                (Then-last start (require d is_nonneg itself (dev_start bond)) k
                  (require-Calls d is_nonneg itself (dev_start bond) (λ r. refl)))))))

  -- The calls before the wait, from those before the initialisation.
  abbrev pub before_wait : List Call → ℕ → List ℕ → List Call
  before_wait t bond slaves = (t ++ bond_create ∷ []) ++ bond_calls d bond slaves

  -- The end of the initialisation behind the wait, which takes `k` seconds.
  abbrev pub Enabled : List Call → ℕ → ℕ → List ℕ → List Call → Type 0
  Enabled t k bond slaves u =
      (u
        ≡ (before_wait t bond slaves ++ (polls bond k ++ active_slaves_get bond ∷ []))
          ++ enabled_calls bond)
      × (counted d bond (length slaves) (before_wait t bond slaves) k ≡ true)

  enabled :
      (t : List Call) (bond : ℕ) (slaves : List ℕ) (u : List Call)
      → rest_of bond slaves (before_wait t bond slaves) ≡ done u
      → (k : ℕ) × (k < 20) × Enabled t k bond slaves u
  enabled t bond slaves u h =
      let n = length slaves in
      let t2 = before_wait t bond slaves in
      let after =
        require d is_zero failure (promiscuous_enable bond)
        >> require d is_zero itself (macaddr_get bond) in
      let (t', waited, rest) = chain_done (wait_active d bond n 20 t2) after u h in
      let calls : Calls d (enabled_calls bond) after =
        next d is_zero failure (promiscuous_enable bond) (macaddr_get bond ∷ [])
          (require d is_zero itself (macaddr_get bond)) (λ r. refl)
          (require-Calls d is_zero itself (macaddr_get bond) (λ r. refl)) in
      let (e, all) = follows_done (enabled_calls bond) t' u (after t') rest (calls t') in
      elim (wait_active_lem d bond n 20 t2 (omega arith)) [
        | inl (k, lt, is, seen, before) ↦
            let same : t' ≡ t2 ++ (polls bond k ++ active_slaves_get bond ∷ []) = cc in
            (k, lt, (rw same at e, seen))
        | inr (is, never) ↦ absurd (cc)
      ]

  by_answer :
      (r : ℤ) (t u : List Call) (slaves : List ℕ)
      → (elim r as (λ _. Outcome) [
        | negsuc n ↦ exited (pos 1) (t ++ bond_create ∷ [])
        | pos n ↦ bond_configure d (n % 2 ^ 16) slaves (t ++ bond_create ∷ [])
      ])
        ≡ done u
      → (n : ℕ) × (r ≡ pos n)
        × (bond_configure d (n % 2 ^ 16) slaves (t ++ bond_create ∷ []) ≡ done u)
  by_answer (pos n) t u slaves h = (n, refl, h)
  by_answer (negsuc n) t u slaves h = cc

  -- If `bond_port_init` returns, the bonded port was created as `bond`, the 16 low bits of what was returned;
  -- then its capabilities were read, it was configured with one queue of each kind for each core, the
  -- descriptors adjusted, every slave added, every queue set up, and the port started, all of which
  -- succeeded, in this order; all slaves were seen active after `k` seconds, fewer than 20; and the last
  -- calls were those for promiscuous mode and for the address.
  pub bond_port_init_lem :
      (slaves : List ℕ) (t u : List Call)
      → bond_port_init d slaves t ≡ done u
      → (n : ℕ) × (d.answer t bond_create ≡ pos n)
        × AllAccepted d (t ++ bond_create ∷ []) (bond_calls d (n % 2 ^ 16) slaves)
        × ((k : ℕ) × (k < 20) × Enabled t k (n % 2 ^ 16) slaves u)
  unfolding bond_port_init
  bond_port_init_lem slaves t u h =
      let (n, e, h1) = by_answer (d.answer t bond_create) t u slaves h in
      let (all, h2) = configured (n % 2 ^ 16) slaves (t ++ bond_create ∷ []) u h1 in
      (n, e, all, enabled t (n % 2 ^ 16) slaves u h2)
