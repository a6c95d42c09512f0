-- ===== src/Bond/Flags.antt =====
-- dpdk-examples/bond-kni/main.h: the flags that the command thread and the packet loops share, and
-- their spin lock.
use gittest.Prelude.{ℕ, ◌+◌, ◌%◌, ◌^◌, Bool, true, false, not, ◌==◌, if◌then◌else◌}

-- `struct global_flag_stru_t`
pub record Flags : Type 0 where
  pub lcore_main_is_running : ℕ
  pub lcore_main_core : ℕ
  pub port_packets : ℕ → ℕ
  pub locked : Bool

-- `rte_spinlock_trylock`: whether the lock was free; it is held afterwards either way. `rte_spinlock_unlock` does not
-- ask who holds it.
abbrev pub trylock : Flags → Bool × Flags
trylock g = (not g.locked, record g { locked = true })

abbrev pub unlock : Flags → Flags
unlock g = record g { locked = false }

-- `port_packets[k]++`, of type `uint32_t`.
abbrev pub bump : ℕ → Flags → Flags
bump k g = record g {
  port_packets = λ j. if j == k then (g.port_packets j + 1) % 2 ^ 32 else g.port_packets j;
}
