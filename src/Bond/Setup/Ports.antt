-- ===== src/Bond/Setup/Ports.antt =====
-- The calls by which `slave_port_init` of dpdk-examples/bond-kni/main-bond-kni.c sets up a port.
use mathlib.Core.List.{append-nil, append_assoc}
use gittest.Prelude.{
  ℕ, zero, suc, ◌≡◌, ◌∙◌, refl, sym, ap, Bool, true, false, List, [], ◌∷◌, ◌++◌, Bool-cases, inl,
  inr,
}
use gittest.Prelude.Int.{ℤ}
use gittest.Bond.Setup.{
  Call, is_valid_port, dev_info_get, dev_configure, adjust_desc, rx_queue_setup, tx_queue_setup,
  dev_start, macaddr_get, bond_create, slave_add, active_slaves_get, sleep_one, promiscuous_enable,
  Driver, Outcome, done, exited, M, ◌>>◌, is_zero, is_nonzero, is_nonneg, is_not_minus_one, failure,
  itself, require, slave_conf, setup_queues, slave_port_init,
}

-- Which answers let the initialisation go on.
abbrev pub accepts : Call → ℤ → Bool
accepts (is_valid_port p) r = is_nonzero r
accepts (dev_info_get p) r = is_zero r
accepts (dev_configure p n conf) r = is_zero r
accepts (adjust_desc p) r = is_zero r
accepts (rx_queue_setup p q nb) r = is_nonneg r
accepts (tx_queue_setup p q nb) r = is_nonneg r
accepts (dev_start p) r = is_nonneg r
accepts (macaddr_get p) r = is_zero r
accepts bond_create r = is_nonneg r
accepts (slave_add p s) r = is_not_minus_one r
accepts (active_slaves_get p) r = true
accepts sleep_one r = true
accepts (promiscuous_enable p) r = is_zero r

-- The queues from `q` on, `n` of each kind.
unfoldable pub queue_calls : Driver → ℕ → ℕ → ℕ → List Call
queue_calls d port zero q = []
queue_calls d port (suc n) q =
    rx_queue_setup port q (d.nb_rxd port)
    ∷ tx_queue_setup port q (d.nb_txd port)
    ∷ queue_calls d port n (suc q)

-- The whole sequence: the port is started when all its queues have been set up.
unfoldable pub slave_calls : Driver → ℕ → List Call
slave_calls d port =
    is_valid_port port
    ∷ dev_info_get port
    ∷ dev_configure port d.lcore_count (slave_conf d port)
    ∷ adjust_desc port
    ∷ (queue_calls d port d.lcore_count 0 ++ dev_start port ∷ macaddr_get port ∷ [])

module _ (d : Driver) where
  -- All calls were answered as wanted, `t` being those before.
  abbrev pub AllAccepted : List Call → List Call → Type 0
  AllAccepted t [] = Unit
  AllAccepted t (c ∷ cs) = (accepts c (d.answer t c) ≡ true) × AllAccepted (t ++ c ∷ []) cs

  -- All of `cs` have been made and accepted; or the program has ended at the first one that was not.
  abbrev pub Follows : List Call → List Call → Outcome → Type 0
  Follows cs t (done t') = (t' ≡ t ++ cs) × AllAccepted t cs
  Follows cs t (exited code t') =
      (before : List Call) × (c : Call) × (behind : List Call) × (cs ≡ before ++ c ∷ behind)
      × (t' ≡ t ++ (before ++ c ∷ []))
      × AllAccepted t before
      × (accepts c (d.answer (t ++ before) c) ≡ false)

  abbrev pub Calls : List Call → M → Type 0
  Calls cs m = (t : List Call) → Follows cs t (m t)

  pub require-Calls :
      (ok : ℤ → Bool) (code : ℤ → ℤ) (c : Call)
      → ((r : ℤ) → ok r ≡ accepts c r)
      → Calls (c ∷ []) (require d ok code c)
  unfolding require
  require-Calls ok code c same t = elim (Bool-cases (ok (d.answer t c))) [
    | inl good ↦ rw good (refl, (sym (same (d.answer t c)) ∙ good, tt))
    | inr bad ↦ rw bad ([], c, [], refl, refl, tt, rw append-nil (sym (same (d.answer t c)) ∙ bad))
  ]

  pub AllAccepted-append :
      (t cs ds : List Call) → AllAccepted t cs → AllAccepted (t ++ cs) ds → AllAccepted t (cs ++ ds)
  AllAccepted-append t [] ds h k = rw (append-nil t) at k
  AllAccepted-append t (c ∷ cs) ds (h, hs) k =
      (h, AllAccepted-append (t ++ c ∷ []) cs ds hs (rw (sym (append_assoc t (c ∷ []) cs)) at k))

  after :
      (cs ds t t' : List Call) (o : Outcome)
      → t' ≡ t ++ cs
      → AllAccepted t cs
      → Follows ds t' o
      → Follows (cs ++ ds) t o
  after cs ds t t' (done u) e all (f, more) = (
    f ∙ ap (λ l. l ++ ds) e ∙ append_assoc t cs ds,
    AllAccepted-append t cs ds all (rw e at more),
  )
  after cs ds t t' (exited code u) e all (before, c, behind, split, made, fine, bad) = (
    cs ++ before,
    c,
    behind,
    ap (λ l. cs ++ l) split ∙ sym (append_assoc cs before (c ∷ behind)),
    made
        ∙ ap (λ l. l ++ (before ++ c ∷ [])) e
        ∙ append_assoc t cs (before ++ c ∷ [])
        ∙ ap (λ l. t ++ l) (sym (append_assoc cs before (c ∷ []))),
    AllAccepted-append t cs before all (rw e at fine),
    rw (append_assoc t cs before) at (rw e at bad),
  )

  -- The calls of a sequence that ends early end it also with more calls behind.
  early :
      (cs ds t : List Call) (code : ℤ) (u : List Call)
      → Follows cs t (exited code u)
      → Follows (cs ++ ds) t (exited code u)
  early cs ds t code u (before, c, behind, split, made, fine, bad) = (
    before,
    c,
    behind ++ ds,
    ap (λ l. l ++ ds) split ∙ append_assoc before (c ∷ behind) ds,
    made,
    fine,
    bad,
  )

  joined :
      (cs ds t : List Call) (o : Outcome) (b : M)
      → Follows cs t o
      → Calls ds b
      → Follows
          (cs ++ ds)
          t
          (elim o as (λ _. Outcome) [ done t' ↦ b t' | exited code t' ↦ exited code t' ])
  joined cs ds t (done u) b (e, all) h = after cs ds t u (b u) e all (h u)
  joined cs ds t (exited code u) b f h = early cs ds t code u f

  pub >>-Calls : (cs ds : List Call) (a b : M) → Calls cs a → Calls ds b → Calls (cs ++ ds) (a >> b)
  >>-Calls cs ds a b f g t = joined cs ds t (a t) b (f t) g

  -- One call, and what follows it.
  pub next :
      (ok : ℤ → Bool) (code : ℤ → ℤ) (c : Call) (cs : List Call) (b : M)
      → ((r : ℤ) → ok r ≡ accepts c r)
      → Calls cs b
      → Calls (c ∷ cs) (require d ok code c >> b)
  next ok code c cs b same g =
      >>-Calls (c ∷ []) cs (require d ok code c) b (require-Calls ok code c same) g

  pub queues-Calls : (port n q : ℕ) → Calls (queue_calls d port n q) (setup_queues d port n q)
  unfolding queue_calls setup_queues
  queues-Calls port zero q = λ t. (sym (append-nil t), tt)
  queues-Calls port (suc n) q =
      next is_nonneg itself (rx_queue_setup port q (d.nb_rxd port)) _ _ (λ r. refl)
        (next is_nonneg itself (tx_queue_setup port q (d.nb_txd port)) _ _ (λ r. refl)
          (queues-Calls port n (suc q)))

  -- Whatever the calls answer, `slave_port_init` makes the calls of the sequence in order (the port is valid,
  -- its capabilities, the configuration with one queue of each kind for each core, the descriptors, every
  -- receive and transmit queue, the start, the address), and returns when all of them have succeeded; or it
  -- ends the program at the first call that has not, with none behind it.
  pub slave_port_init-Calls : (port : ℕ) → Calls (slave_calls d port) (slave_port_init d port)
  unfolding slave_calls slave_port_init
  slave_port_init-Calls port =
      next is_nonzero failure (is_valid_port port) _ _ (λ r. refl)
        (next is_zero failure (dev_info_get port) _ _ (λ r. refl)
          (next is_zero failure (dev_configure port d.lcore_count (slave_conf d port)) _ _
            (λ r. refl)
            (next is_zero failure (adjust_desc port) _ _ (λ r. refl)
              (>>-Calls (queue_calls d port d.lcore_count 0) _ (setup_queues d port d.lcore_count 0)
                _ (queues-Calls port d.lcore_count 0)
                (next is_nonneg itself (dev_start port) _ _ (λ r. refl)
                  (require-Calls is_zero itself (macaddr_get port) (λ r. refl)))))))
