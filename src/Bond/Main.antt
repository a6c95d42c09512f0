-- ===== src/Bond/Main.antt =====
-- dpdk-examples/bond-kni/main-bond-kni.c, `main`.
pub mod Ready
pub mod Launched
use gittest.Prelude.{
  ℕ, zero, suc, Bool, true, false, Option, none, some, List, [], ◌∷◌, map, ◌==◌, ltb, if◌then◌else◌,
}
use gittest.Prelude.Int.{ℤ, pos, negsuc}
use gittest.Bond.Flags.{Flags}
use gittest.Bond.Lcore.{LcoreArg, lcore_arg_init, rte_max_lcore}
use gittest.Bond.Setup.{
  Call, Driver, Outcome, done, exited, M, ◌>>◌, pass, is_nonneg, slave_port_init, bond_port_init,
}

-- What DPDK says of the machine: the result of `rte_eal_init`, the number of ports and their numbers in the
-- order of RTE_ETH_FOREACH_DEV, whether a pool could be made, the own core, `rte_get_next_lcore (-1, 1, 0)`
-- and `rte_get_next_lcore (c, 1, 0)`, and whether a core waits.
pub record Machine : Type 0 where
  pub eal_init : ℤ
  pub dev_count_avail : ℕ
  pub devices : List ℕ
  pub has_pool : Bool
  pub lcore_id : ℕ
  pub first_slave : ℕ
  pub next_lcore : ℕ → ℕ
  pub is_waiting : ℕ → Bool

-- How `main` goes: the program ends with a code, -EBUSY is returned, or the loops are launched on all cores
-- with the flags and the argument; with the calls of the initialisation.
pub data Ended : Type 0 where
  stopped : ℤ → List Call → Ended
  busy : List Call → Ended
  launched : Flags → LcoreArg → List Call → Ended

abbrev pub max_ports : ℕ
max_ports = 4

-- The array `slaves`, zero at first, behind `slaves[i] = i`.
pub fill : List ℕ → (ℕ → ℕ) → ℕ → ℕ
fill [] slaves = slaves
fill (i ∷ is) slaves = fill is (λ j. if j == i then i else slaves j)

abbrev pub first : ℕ → ℕ → (ℕ → ℕ) → List ℕ
first zero j slaves = []
first (suc n) j slaves = slaves j ∷ first n (suc j) slaves

-- `RTE_LCORE_FOREACH_SLAVE`, on fuel: the value of `slave_core_id` behind the loop. The inner `none` is a
-- core that does not wait.
pub check_lcores : ℕ → Machine → ℕ → Option (Option ℕ)
check_lcores zero m core = none
check_lcores (suc f) m core =
    let rest = check_lcores f m (m.next_lcore core) in
    if ltb core rte_max_lcore
    then (if m.is_waiting core then rest else some none)
    else some (some core)

-- The lock is free since `rte_spinlock_init`, and the counters are zero.
abbrev pub flags_of : ℕ → Flags
flags_of slave_core_id = record {
  lcore_main_is_running = 1;
  lcore_main_core = slave_core_id;
  port_packets = λ k. 0;
  locked = false;
}

abbrev pub with_arg : ℕ → List Call → Option LcoreArg → Option Ended
with_arg slave_core_id t none = none
with_arg slave_core_id t (some arg) = some (launched (flags_of slave_core_id) arg t)

abbrev pub with_core : Machine → List Call → Option (Option ℕ) → Option Ended
with_core m t none = none
with_core m t (some none) = some (busy t)
with_core m t (some (some slave_core_id)) =
    with_arg slave_core_id t (lcore_arg_init m.next_lcore m.lcore_id)

-- The loop over the ports.
pub init_ports : Driver → List ℕ → M
init_ports d [] = pass
init_ports d (i ∷ is) = slave_port_init d i >> init_ports d is

module _ (d : Driver) (m : Machine) where
  -- The part behind `bond_port_init`.
  pub launch_all : List Call → Option Ended
  unfolding check_lcores
  launch_all t = with_core m t (check_lcores (suc rte_max_lcore) m m.first_slave)

  pub after_setup : Outcome → Option Ended
  unfolding launch_all
  after_setup (exited code t) = some (stopped code t)
  after_setup (done t) = launch_all t

  -- `none` is a loop that does not end.
  pub main : Option Ended
  unfolding init_ports after_setup fill
  main =
      let slaves = first m.dev_count_avail 0 (fill m.devices (λ j. 0)) in
      let setup = (init_ports d m.devices >> bond_port_init d slaves) [] in
      if is_nonneg m.eal_init
      then (if m.dev_count_avail == 0
          then some (stopped (pos 1) [])
          else (if ltb max_ports m.dev_count_avail
              then some (stopped (pos 1) [])
              else (if m.has_pool then after_setup setup else some (stopped (pos 1) []))))
      else some (stopped (pos 1) [])
