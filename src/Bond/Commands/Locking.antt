-- ===== src/Bond/Commands/Locking.antt =====
-- The commands of dpdk-examples/bond-kni/cmd.c do not look at the result of `rte_spinlock_trylock`, and
-- start the packet loop without its argument.
use gittest.Prelude.{
  ℕ, ◌≡◌, refl, Bool, true, false, ◌||◌, none, List, [], ◌∷◌, ◌++◌, ◌==◌, leb, arith,
}
use gittest.Bond.Flags.{Flags}
use gittest.Bond.Lcore.{Others, Round, undefined, lcore_main}
use gittest.Bond.Lcore.Counts.{alone}
use gittest.Bond.Commands.{
  Eal, Session, start_next, cmd_start_parsed, stop_running, cmd_stop_parsed, cmd_quit_parsed, print,
  launch, starting,
}

abbrev pub with_lock : Bool → Session → Session
with_lock l s = record s { flags = record s.flags { locked = l } }

-- The lock keeps no command out: `start`, `stop` and `quit` do the same whether or not another thread holds
-- the lock when they begin, and each leaves it free.
pub commands_ignore_lock :
    (eal : Eal) (l : Bool) (s : Session)
    → (cmd_start_parsed alone eal (with_lock l s) ≡ cmd_start_parsed alone eal (with_lock false s))
      × (cmd_stop_parsed alone eal (with_lock l s) ≡ cmd_stop_parsed alone eal (with_lock false s))
      × (cmd_quit_parsed alone eal (with_lock l s) ≡ cmd_quit_parsed alone eal (with_lock false s))
      × ((cmd_start_parsed alone eal (with_lock l s)).flags.locked ≡ false)
      × ((cmd_stop_parsed alone eal (with_lock l s)).flags.locked ≡ false)
      × ((cmd_quit_parsed alone eal (with_lock l s)).flags.locked ≡ false)
unfolding cmd_start_parsed start_next cmd_stop_parsed cmd_quit_parsed stop_running
commands_ignore_lock eal l s = (refl, refl, refl, ground arith, ground arith, ground arith)

-- `start` with the loops stopped, the core of LcoreMainCore waiting, and a core `k` behind the own one: the
-- flag is set and `lcore_main` started on `k` with a null argument, with which it is undefined, whatever
-- it would receive. LcoreMainCore, on which `stop` waits, stays what it was.
pub start_undefined :
    (eal : Eal) (s : Session) (others : Others) (rounds : ℕ → List Round) (g : Flags)
    → s.flags.lcore_main_is_running ≡ 0
    → eal.is_waiting s.flags.lcore_main_core ≡ true
    → (leb 128 (eal.next_lcore eal.lcore_id) || eal.next_lcore eal.lcore_id == 0) ≡ false
    → let k = eal.next_lcore eal.lcore_id in
      let s' = cmd_start_parsed alone eal s in
      (s'.flags.lcore_main_is_running ≡ 1)
      × (s'.flags.lcore_main_core ≡ s.flags.lcore_main_core)
      × (s'.effects
          ≡ (s.effects ++ launch k none ∷ []) ++ print (starting k (eal.remote_launch k)) ∷ [])
      × (lcore_main others none k rounds g ≡ undefined)
unfolding cmd_start_parsed start_next lcore_main
start_undefined eal s others rounds g off waiting ok =
    rw (off, waiting, ok) (refl, refl, refl, refl)
