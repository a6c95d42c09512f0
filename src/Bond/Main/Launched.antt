-- ===== src/Bond/Main/Launched.antt =====
-- What `main` of dpdk-examples/bond-kni/main-bond-kni.c has done when it ends or launches the packet loops.
use gittest.Prelude.{
  ℕ, zero, suc, ◌+◌, ◌==◌, ◌≡◌, ◌≤◌, ◌<◌, ◌⊎◌, ◌∙◌, ap, refl, true, false, Option, none, some, List,
  [], ltb, arith, Bool-cases, inl, inr, ltb→lt,
}
use gittest.Prelude.Int.{pos}
use gittest.Bond.Lcore.{rte_max_lcore}
use gittest.Bond.Lcore.Queues.{core_after, lcore_arg_init_lem}
use gittest.Bond.Setup.{Call, Driver, Outcome, done, exited, is_nonneg, bond_port_init, ◌>>◌}
use gittest.Bond.Main.{
  Machine, Ended, stopped, busy, launched, check_lcores, launch_all, after_setup, main, max_ports,
  init_ports, fill, first, flags_of,
}
use gittest.Bond.Main.Ready.{
  slaves, first-fill, init_ports-Calls, IsReady, Unready, SetUp, Failed, IsSetup, ports_then_bond,
  Reached, first_core, next_core,
}

module _ (d : Driver) (m : Machine) (rises : (c : ℕ) → c < m.next_lcore c) where
  -- The loop over the other cores ends at one that does not wait, or behind the last one.
  abbrev Checked : Option (Option ℕ) → Type 0
  Checked o =
      ((o ≡ some none) × ((c : ℕ) × Reached d m c × (c < 128) × (m.is_waiting c ≡ false)))
      ⊎ ((c : ℕ) × (o ≡ some (some c)) × Reached d m c × (128 ≤ c))

  check_lcores_lem :
      (f core : ℕ) → 0 < f → 128 < f + core → Reached d m core → Checked (check_lcores f m core)
  unfolding check_lcores
  check_lcores_lem zero core fuel h at = absurd (omega arith)
  check_lcores_lem (suc f) core fuel h at = elim (Bool-cases (ltb core rte_max_lcore)) [
    | inr behind ↦ rw behind (inr (core, refl, at, ground arith))
    | inl below ↦
        let lt = ltb→lt _ _ below in
        elim (Bool-cases (m.is_waiting core)) [
          | inr bad ↦ rw (below, bad) (inl (refl, (core, at, lt, bad)))
          | inl ok ↦
              rw (below, ok)
                (check_lcores_lem f (m.next_lcore core) (omega arith) (omega (arith, rises core))
                  (next_core at lt ok))
        ]
  ]

  -- What is known of the end of `main`.
  abbrev pub Launches : Ended → Type 0
  Launches (stopped code t) =
      (Unready d m × (code ≡ pos 1) × (t ≡ [])) ⊎ (IsReady d m × Failed d m code t)
  Launches (busy t) =
      IsReady d m × SetUp d m t × ((c : ℕ) × Reached d m c × (c < 128) × (m.is_waiting c ≡ false))
  Launches (launched g arg t) =
      IsReady d m
      × SetUp d m t
      × (g.lcore_main_is_running ≡ 1)
      × (g.locked ≡ false)
      × Reached d m g.lcore_main_core
      × (128 ≤ g.lcore_main_core)
      × ((k : ℕ)
          → core_after m.next_lcore k m.lcore_id < 128
          → arg.ring_id (core_after m.next_lcore k m.lcore_id) ≡ k)

  abbrev Ends : Option Ended → Type 0
  Ends o = (e : Ended) × (o ≡ some e) × Launches e

  module _ (own : m.lcore_id < 128) where
    launch_all-Ends : (t : List Call) → IsReady d m → SetUp d m t → Ends (launch_all d m t)
    unfolding launch_all
    launch_all-Ends t ready set =
        elim (check_lcores_lem 129 m.first_slave (omega arith) (omega arith) first_core) [
          | inl (e, slow) ↦ (busy t, rw e refl, (ready, set, slow))
          | inr (c, e, at, le) ↦
              let (arg, init, numbered, kept) =
                lcore_arg_init_lem m.next_lcore rises m.lcore_id own in
              (
                launched (flags_of c) arg t,
                rw (e, init) refl,
                (ready, set, refl, refl, at, le, numbered),
              )
        ]

    after_setup-Ends : (o : Outcome) → IsReady d m → IsSetup d m o → Ends (after_setup d m o)
    unfolding after_setup
    after_setup-Ends (exited code t) ready bad = (stopped code t, refl, inr (ready, bad))
    after_setup-Ends (done t) ready set = launch_all-Ends t ready set

  main_ready :
      is_nonneg m.eal_init ≡ true
      → (m.dev_count_avail == 0) ≡ false
      → ltb max_ports m.dev_count_avail ≡ false
      → m.has_pool ≡ true
      → let ss = first m.dev_count_avail 0 (fill m.devices (λ j. 0)) in
        main d m ≡ after_setup d m ((init_ports d m.devices >> bond_port_init d ss) [])
  unfolding main
  main_ready ok something few pool = simp (ok, something, few, pool) refl

  set_up : IsSetup d m ((init_ports d m.devices >> bond_port_init d (slaves d m)) [])
  set_up = ports_then_bond d m (init_ports d m.devices []) (init_ports-Calls d m m.devices [])

  -- Where the next core always has a higher number, `main` ends its initialisation, in one of three ways.
  -- It stops: with 1 and before any call, just where `rte_eal_init` failed, there is no port, or more than
  -- 4, or no pool; or at the first call for a port that is not accepted; or in `bond_port_init`. Or it is
  -- busy: one of the cores that it visits by `rte_get_next_lcore` does not wait. Or it launches the loops:
  -- each core visited waits, the flag is set, the lock is free and the cores' queues are numbered from the
  -- own core on; but LcoreMainCore is the number behind the last core, 128 or more. In the last two, all
  -- calls for each port, in the order of the ports, and then those for the bonded port have been made and
  -- accepted; its slaves are the numbers below the number of ports, with 0 in place of one that no port has.
  pub main_lem : m.lcore_id < 128 → (e : Ended) × (main d m ≡ some e) × Launches e
  unfolding main
  main_lem own = elim (Bool-cases (is_nonneg m.eal_init)) [
    | inr bad ↦ (stopped (pos 1) [], simp bad refl, inl (inl bad, refl, refl))
    | inl ok ↦ elim (Bool-cases (m.dev_count_avail == 0)) [
      | inl nothing ↦
          (stopped (pos 1) [], simp (ok, nothing) refl, inl (inr (inl (ground arith)), refl, refl))
      | inr something ↦ elim (Bool-cases (ltb max_ports m.dev_count_avail)) [
        | inl many ↦ (
          stopped (pos 1) [],
          simp (ok, something, many) refl,
          inl (inr (inr (inl (ground arith))), refl, refl),
        )
        | inr few ↦ elim (Bool-cases m.has_pool) [
          | inr dry ↦ (
            stopped (pos 1) [],
            simp (ok, something, few, dry) refl,
            inl (inr (inr (inr dry)), refl, refl),
          )
          | inl pool ↦
              let run = after_setup-Ends own _ (ok, ground arith, ground arith, pool) set_up in
              (
                run.0,
                main_ready ok something few pool
                    ∙ ap
                        (λ ss. after_setup d m ((init_ports d m.devices >> bond_port_init d ss) []))
                        (first-fill m.devices m.dev_count_avail 0)
                    ∙ run.1,
                run.2,
              )
        ]
      ]
    ]
  ]
