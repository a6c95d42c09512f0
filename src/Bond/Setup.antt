-- ===== src/Bond/Setup.antt =====
-- dpdk-examples/bond-kni/main-bond-kni.c, `slave_port_init` and `bond_port_init`: the calls of DPDK that
-- they make, with the answers as a parameter.
pub mod Ports
pub mod Waiting
pub mod Bonding
use Prim.Native.Nat.{bit_and, bit_or}
use gittest.Prelude.{
  ℕ, zero, suc, ◌%◌, ◌^◌, Bool, true, false, not, List, [], ◌∷◌, ◌++◌, ◌==◌, if◌then◌else◌, length,
}
use gittest.Prelude.Int.{ℤ, pos, negsuc}

-- The part of `struct rte_eth_conf` that is changed: `rx_adv_conf.rss_conf.rss_hf` and `txmode.offloads`.
pub record Conf : Type 0 where
  pub rss_hf : ℕ
  pub offloads : ℕ

-- The calls that matter, with the arguments that vary. The descriptors of a queue are those that
-- `rte_eth_dev_adjust_nb_rx_tx_desc` leaves.
pub data Call : Type 0 where
  is_valid_port : ℕ → Call
  dev_info_get : ℕ → Call
  dev_configure : ℕ → ℕ → Conf → Call
  adjust_desc : ℕ → Call
  rx_queue_setup : ℕ → ℕ → ℕ → Call
  tx_queue_setup : ℕ → ℕ → ℕ → Call
  dev_start : ℕ → Call
  macaddr_get : ℕ → Call
  bond_create : Call
  slave_add : ℕ → ℕ → Call
  active_slaves_get : ℕ → Call
  sleep_one : Call
  promiscuous_enable : ℕ → Call

-- What a port can do: `tx_offload_capa` and `flow_type_rss_offloads`.
pub record DevInfo : Type 0 where
  pub tx_offload_capa : ℕ
  pub flow_type_rss_offloads : ℕ

-- DPDK: what a call returns after the calls before it, what is known of a port, its descriptors, the number
-- of cores, and two constants, ETH_RSS_IP and DEV_TX_OFFLOAD_MBUF_FAST_FREE.
pub record Driver : Type 0 where
  pub answer : List Call → Call → ℤ
  pub info : ℕ → DevInfo
  pub nb_rxd : ℕ → ℕ
  pub nb_txd : ℕ → ℕ
  pub lcore_count : ℕ
  pub eth_rss_ip : ℕ
  pub fast_free : ℕ

-- The end of an initialisation, or `rte_exit` with its code, and all calls so far.
pub data Outcome : Type 0 where
  done : List Call → Outcome
  exited : ℤ → List Call → Outcome

abbrev pub M : Type 0
M = List Call → Outcome

infixl 5 ◌>>◌
abbrev pub ◌>>◌ : M → M → M
◌>>◌ a b t = elim (a t) as (λ _. Outcome) [ done t' ↦ b t' | exited code t' ↦ exited code t' ]

abbrev pub pass : M
pass t = done t

-- The tests of a returned value.
abbrev pub is_zero : ℤ → Bool
is_zero (pos n) = n == 0
is_zero (negsuc n) = false

abbrev pub is_nonzero : ℤ → Bool
is_nonzero r = not (is_zero r)

abbrev pub is_nonneg : ℤ → Bool
is_nonneg (pos n) = true
is_nonneg (negsuc n) = false

abbrev pub is_not_minus_one : ℤ → Bool
is_not_minus_one (pos n) = true
is_not_minus_one (negsuc n) = not (n == 0)

-- EXIT_FAILURE, -1, and the value itself as the code of an exit.
abbrev pub failure : ℤ → ℤ
failure r = pos 1

abbrev pub minus_one : ℤ → ℤ
minus_one r = negsuc 0

abbrev pub itself : ℤ → ℤ
itself r = r

-- `rte_eth_bond_active_slaves_get (...) == slaves_count`
abbrev pub counts : ℤ → ℕ → Bool
counts (pos n) m = n == m
counts (negsuc n) m = false

module _ (d : Driver) where
  -- `retval = call (...); if (...) rte_exit (...);`
  pub require : (ℤ → Bool) → (ℤ → ℤ) → Call → M
  require ok code c t =
      let r = d.answer t c in if ok r then done (t ++ c ∷ []) else exited (code r) (t ++ c ∷ [])

  -- The configuration: `port_conf`, with what the port offers.
  pub with_fast_free : ℕ → ℕ
  with_fast_free port =
      if bit_and (d.info port).tx_offload_capa d.fast_free == 0 then 0 else bit_or 0 d.fast_free

  abbrev pub slave_conf : ℕ → Conf
  slave_conf port = record {
    rss_hf = bit_and d.eth_rss_ip (d.info port).flow_type_rss_offloads;
    offloads = with_fast_free port;
  }

  abbrev pub bond_conf : ℕ → Conf
  bond_conf port = record { rss_hf = d.eth_rss_ip; offloads = with_fast_free port }

  -- `for (q = 0; q < core_num; ++q)`: `n` queues from `q` on.
  pub setup_queues : ℕ → ℕ → ℕ → M
  unfolding require
  setup_queues port zero q = pass
  setup_queues port (suc n) q = do
    require is_nonneg itself (rx_queue_setup port q (d.nb_rxd port))
    require is_nonneg itself (tx_queue_setup port q (d.nb_txd port))
    setup_queues port n (suc q)

  pub slave_port_init : ℕ → M
  unfolding require setup_queues with_fast_free
  slave_port_init portid = do
    require is_nonzero failure (is_valid_port portid)
    require is_zero failure (dev_info_get portid)
    require is_zero failure (dev_configure portid d.lcore_count (slave_conf portid))
    require is_zero failure (adjust_desc portid)
    setup_queues portid d.lcore_count 0
    require is_nonneg itself (dev_start portid)
    require is_zero itself (macaddr_get portid)

  -- `for (i = 0; i < slaves_count; i++)`
  pub add_slaves : ℕ → List ℕ → M
  unfolding require
  add_slaves bond [] = pass
  add_slaves bond (s ∷ ss) = do
    require is_not_minus_one minus_one (slave_add bond s)
    add_slaves bond ss

  -- `while (wait_counter)`
  pub wait_active : ℕ → ℕ → ℕ → M
  wait_active bond slaves_count zero t = done t
  wait_active bond slaves_count (suc wait_counter) t =
      let asked = t ++ active_slaves_get bond ∷ [] in
      let slept = asked ++ sleep_one ∷ [] in
      let again = wait_active bond slaves_count wait_counter slept in
      if counts (d.answer t (active_slaves_get bond)) slaves_count
      then done asked
      else (if wait_counter == 0 then exited (negsuc 0) slept else again)

  -- What follows the creation of the port `bond`; `slaves` is the filled part of the array.
  unfoldable pub bond_configure : ℕ → List ℕ → M
  unfolding require setup_queues with_fast_free add_slaves wait_active
  bond_configure bond slaves = do
    require is_zero failure (dev_info_get bond)
    require is_zero failure (dev_configure bond d.lcore_count (bond_conf bond))
    require is_zero failure (adjust_desc bond)
    add_slaves bond slaves
    setup_queues bond d.lcore_count 0
    require is_nonneg itself (dev_start bond)
    wait_active bond (length slaves) 20
    require is_zero failure (promiscuous_enable bond)
    require is_zero itself (macaddr_get bond)

  -- `BOND_PORT` is the value of the first call, as a `uint16_t`.
  unfoldable pub bond_port_init : List ℕ → M
  unfolding bond_configure
  bond_port_init slaves t = elim (d.answer t bond_create) [
    | negsuc n ↦ exited (pos 1) (t ++ bond_create ∷ [])
    | pos n ↦ bond_configure (n % 2 ^ 16) slaves (t ++ bond_create ∷ [])
  ]
