-- ===== src/Bond/Main/Ready.antt =====
-- What `main` of dpdk-examples/bond-kni/main-bond-kni.c needs before it launches the packet loops.
use mathlib.Core.List.{append-nil}
use gittest.Prelude.{
  ℕ, zero, suc, ◌%◌, ◌^◌, ◌≡◌, ◌⊎◌, ◌≤◌, ◌<◌, refl, sym, inl, inr, List, [], ◌∷◌, ◌++◌, Bool, true,
  false, ◌==◌, ◌||◌, if◌then◌else◌, arith,
}
use gittest.Prelude.Int.{ℤ, pos}
use gittest.Bond.Setup.{Call, bond_create, Driver, Outcome, done, exited, is_nonneg, bond_port_init}
use gittest.Bond.Setup.Ports.{
  AllAccepted, Follows, Calls, slave_calls, >>-Calls, slave_port_init-Calls,
}
use gittest.Bond.Setup.Bonding.{bond_calls, Enabled, bond_port_init_lem}
use gittest.Bond.Main.{Machine, init_ports, first, fill}

-- The ports' numbers at their own places, and 0 at the places without a port.
abbrev pub listed : List ℕ → ℕ → Bool
listed [] j = false
listed (i ∷ is) j = (j == i) || listed is j

abbrev pub slaves_from : List ℕ → ℕ → ℕ → List ℕ
slaves_from is zero j = []
slaves_from is (suc n) j = (if listed is j then j else 0) ∷ slaves_from is n (suc j)

fill_lem :
    (is : List ℕ) (slaves : ℕ → ℕ) (j : ℕ)
    → fill is slaves j ≡ (if listed is j then j else slaves j)
unfolding fill
fill_lem [] slaves j = refl
fill_lem (i ∷ is) slaves j = ground (arith, fill_lem is (λ j. if j == i then i else slaves j) j)

pub first-fill : (is : List ℕ) (n j : ℕ) → first n j (fill is (λ j. 0)) ≡ slaves_from is n j
first-fill is zero j = refl
first-fill is (suc n) j = rw (fill_lem is (λ j. 0) j, first-fill is n (suc j)) refl

module _ (d : Driver) (m : Machine) where
  abbrev pub slaves : List ℕ
  slaves = slaves_from m.devices m.dev_count_avail 0

  -- The calls for the ports, one port after the other.
  abbrev pub ports_calls : List ℕ → List Call
  ports_calls [] = []
  ports_calls (i ∷ is) = slave_calls d i ++ ports_calls is

  pub init_ports-Calls : (is : List ℕ) → Calls d (ports_calls is) (init_ports d is)
  unfolding init_ports
  init_ports-Calls [] = λ t. (sym (append-nil t), tt)
  init_ports-Calls (i ∷ is) =
      >>-Calls d (slave_calls d i) (ports_calls is) _ _ (slave_port_init-Calls d i)
        (init_ports-Calls is)

  -- DPDK and the machine are as wanted, or not.
  abbrev pub IsReady : Type 0
  IsReady =
      (is_nonneg m.eal_init ≡ true)
      × (1 ≤ m.dev_count_avail)
      × (m.dev_count_avail ≤ 4)
      × (m.has_pool ≡ true)

  abbrev pub Unready : Type 0
  Unready =
      (is_nonneg m.eal_init ≡ false)
      ⊎ (m.dev_count_avail ≡ 0)
      ⊎ (4 < m.dev_count_avail)
      ⊎ (m.has_pool ≡ false)

  -- All ports, and then the bonded port with the slaves, have been set up by the calls `t`.
  abbrev pub SetUp : List Call → Type 0
  SetUp t =
      let ports = ports_calls m.devices in
      AllAccepted d [] ports
      × ((n k : ℕ) × (d.answer ports bond_create ≡ pos n)
          × AllAccepted d (ports ++ bond_create ∷ []) (bond_calls d (n % 2 ^ 16) slaves)
          × (k < 20)
          × Enabled d ports k (n % 2 ^ 16) slaves t)

  -- The program was ended at the first call for a port that failed, or with all ports set up by
  -- `bond_port_init`.
  abbrev pub Failed : ℤ → List Call → Type 0
  Failed code t =
      let ports = ports_calls m.devices in
      Follows d ports [] (exited code t)
      ⊎ (AllAccepted d [] ports × (bond_port_init d slaves ports ≡ exited code t))

  abbrev pub IsSetup : Outcome → Type 0
  IsSetup (done t) = SetUp t
  IsSetup (exited code t) = Failed code t

  bond-IsSetup :
      (o : Outcome)
      → AllAccepted d [] (ports_calls m.devices)
      → bond_port_init d slaves (ports_calls m.devices) ≡ o
      → IsSetup o
  bond-IsSetup (exited code t) all e = inr (all, e)
  bond-IsSetup (done t) all e =
      let (n, created, bonded, (k, lt, enabled)) =
        bond_port_init_lem d slaves (ports_calls m.devices) t e in
      (all, (n, k, created, bonded, lt, enabled))

  pub ports_then_bond :
      (o : Outcome)
      → Follows d (ports_calls m.devices) [] o
      → IsSetup (elim o as (λ _. Outcome) [
        | done t ↦ bond_port_init d slaves t
        | exited code t ↦ exited code t
      ])
  ports_then_bond (exited code t) f = inl f
  ports_then_bond (done t) (e, all) =
      rw e (bond-IsSetup (bond_port_init d slaves (ports_calls m.devices)) all refl)

  -- The cores from the first slave core on, by `rte_get_next_lcore`, each of which waits but perhaps the last.
  pub data Reached : ℕ → Type 0 where
    first_core : Reached m.first_slave
    next_core : {c : ℕ} → Reached c → c < 128 → m.is_waiting c ≡ true → Reached (m.next_lcore c)
