-- ===== src/Bond/Lcore.antt =====
-- dpdk-examples/bond-kni/main-bond-kni.c, `lcore_main` and `lcore_arg_init`.
pub mod OnePacket
pub mod Burst
pub mod Stops
pub mod Queues
pub mod Counts
use gittest.Prelude.{
  ℕ, zero, suc, ◌+◌, ◌%◌, ◌^◌, Option, none, some, List, [], ◌∷◌, ◌++◌, map, ◌==◌, ltb,
  if◌then◌else◌, length, drop, get_elem?,
}
use gittest.Bond.Frame.{
  Packet, Mac, load16, load32, rte_cpu_to_be_16, ether_type_at, ether_type_arp, ether_type_ipv4,
  arp_op_request, arp_opcode, arp_tip, dst_addr, bond_ip, payload_at, get_vlan_offset, answer_arp,
  answer_ipv4,
}
use gittest.Bond.Flags.{Flags, trylock, unlock, bump}

-- `struct rte_mbuf`: where it is, and the frame in it.
pub record Mbuf : Type 0 where
  pub address : ℕ
  pub frame : Packet

-- What a loop does to buffers: `rte_eth_tx_burst` with one buffer, with none, `rte_pktmbuf_free`.
pub data Event : Type 0 where
  transmit : ℕ → Packet → Event
  transmit_none : Event
  free : ℕ → Event

-- The variables of a loop, the flags as it finds them, and what it has done. `pkts` is as long as the
-- part of the array that has been written.
pub record Core : Type 0 where
  pub flags : Flags
  pub accesses : ℕ
  pub pkts : List ℕ
  pub i : ℕ
  pub is_free : ℕ
  pub events : List Event

-- What the other threads do to the flags before the access with this number.
abbrev pub Others : Type 0
Others = ℕ → Flags → Flags

abbrev pub interfere : Others → Core → Core
interfere others c = record c { flags = others c.accesses c.flags; accesses = suc c.accesses }

abbrev pub emit : Event → Core → Core
emit e c = record c { events = c.events ++ e ∷ [] }

-- `if (rte_spinlock_trylock (...) == 1) { port_packets[k]++; rte_spinlock_unlock (...); }`, as one access.
pub count : Others → ℕ → Core → Core
count others k c0 =
    let c = interfere others c0 in
    let (got, g) = trylock c.flags in if got then record c { flags = unlock (bump k g) } else c

-- The branch of an ARP packet, and that of an IPv4 packet.
pub on_arp : Others → Mac → Mbuf → ℕ → Core → Core
unfolding count
on_arp others mac m offset c0 =
    let c = count others 1 c0 in
    if load32 m.frame (payload_at offset + arp_tip) == bond_ip
    then (if load16 m.frame (payload_at offset + arp_opcode) == rte_cpu_to_be_16 arp_op_request
        then record (emit (transmit m.address (answer_arp mac m.frame offset)) c) { is_free = 1 }
        else emit transmit_none c)
    else c

pub on_ipv4 : Others → Mac → Mbuf → ℕ → Core → Core
unfolding count
on_ipv4 others mac m offset c0 =
    let c = count others 2 c0 in
    if load32 m.frame (payload_at offset + dst_addr) == bond_ip
    then emit (transmit m.address (answer_ipv4 mac m.frame offset)) c
    else c

abbrev pub free_processed : Mbuf → Core → Core
free_processed m c = if c.is_free == 0 then emit (free m.address) c else c

-- The body of `for (i = 0; i < rx_cnt; i++)`.
pub process : Others → Mac → Mbuf → Core → Core
unfolding count on_arp on_ipv4
process others mac m c0 =
    let c = count others 0 c0 in
    let (offset, ether_type) = get_vlan_offset m.frame (load16 m.frame ether_type_at) in
    free_processed m (
      if ether_type == rte_cpu_to_be_16 ether_type_arp
      then on_arp others mac m offset c
      else (if ether_type == rte_cpu_to_be_16 ether_type_ipv4
          then on_ipv4 others mac m offset c
          else c))

pub process_all : Others → Mac → List Mbuf → Core → Core
unfolding process
process_all others mac [] c = c
process_all others mac (m ∷ ms) c = process_all others mac ms (process others mac m c)

-- What a round of the loop gets: the buffers of `rte_eth_rx_burst`, at most MAX_PKT_BURST, and the address
-- of `rte_eth_macaddr_get`, or its failure.
pub record Round : Type 0 where
  pub received : List Mbuf
  pub bond_mac_addr : Option Mac

-- The start of a round, and the rest of it where the address is known.
abbrev pub receive : Round → Core → Core
receive r c = record c {
  is_free = 0;
  pkts = map (λ (m : Mbuf). m.address) r.received ++ drop (length r.received) c.pkts;
}

pub serve : Others → Mac → Round → Core → Core
unfolding process_all
serve others mac r c =
    let done = process_all others mac r.received c in
    let c1 = interfere others (record done { i = length r.received }) in
    record c1 { flags = (trylock c1.flags).1 }

-- `none` is a read of `pkts[i]` where nothing has been stored.
pub round : Others → Round → Core → Option Core
unfolding serve
round others r c0 =
    let c = receive r c0 in
    if length r.received == 0 then some c else (elim r.bond_mac_addr [
      | none ↦ elim (get_elem? c.pkts c.i) [ none ↦ none | some a ↦ some (emit (free a) c) ]
      | some mac ↦ some (serve others mac r c)
    ])

-- How far `lcore_main` comes with the rounds that it is given.
pub data Outcome : Type 0 where
  returned : Core → Outcome
  running : Core → Outcome
  undefined : Outcome

-- `while (global_flag_stru_p->LcoreMainIsRunning)`, and the unlock that follows the test either way.
pub lcore_loop : Others → List Round → Core → Outcome
unfolding round
lcore_loop others [] c0 =
    let c1 = interfere others c0 in
    let c = record c1 { flags = unlock c1.flags } in
    if c1.flags.lcore_main_is_running == 0 then returned c else running c
lcore_loop others (r ∷ rs) c0 =
    let c1 = interfere others c0 in
    let c = record c1 { flags = unlock c1.flags } in
    let more = elim (round others r c) as (λ _. Outcome) [
      | none ↦ undefined
      | some c' ↦ lcore_loop others rs c'
    ] in
    if c1.flags.lcore_main_is_running == 0 then returned c else more

-- `lcore_arg_stru_t`, without the counters, which are never used.
pub record LcoreArg : Type 0 where
  pub lcore_main_is_running : ℕ
  pub bond_port : ℕ
  pub ring_id : ℕ → ℕ

-- The variables before the loop.
abbrev pub entered : Flags → Core
entered g = record { flags = g; accesses = 0; pkts = []; i = 0; is_free = 0; events = [] }

-- `none` is a null pointer. `rounds` are those of a queue.
unfoldable pub lcore_main : Others → Option LcoreArg → ℕ → (ℕ → List Round) → Flags → Outcome
unfolding lcore_loop
lcore_main others none core_id rounds g = undefined
lcore_main others (some arg) core_id rounds g =
    let c =
      interfere others
        (record { flags = g; accesses = 0; pkts = []; i = 0; is_free = 0; events = [] }) in
    lcore_loop others (rounds (arg.ring_id core_id % 2 ^ 16))
      (record c { flags = (trylock c.flags).1 })

abbrev pub rte_max_lcore : ℕ
rte_max_lcore = 128

-- `do { ... } while (core_id < RTE_MAX_LCORE)`, on fuel; `next` is `rte_get_next_lcore (core_id, 1, 0)`.
pub init_loop : ℕ → (ℕ → ℕ) → ℕ → ℕ → LcoreArg → Option LcoreArg
init_loop zero next core_id ring_id arg = none
init_loop (suc f) next core_id ring_id arg =
    let set = record arg { ring_id = λ c. if c == core_id then ring_id else arg.ring_id c } in
    let more = init_loop f next (next core_id) (suc ring_id) set in
    if ltb (next core_id) rte_max_lcore then more else some set

-- What was in the structure is zeroed. Each round has a higher number of a core, so RTE_MAX_LCORE rounds
-- are enough.
pub lcore_arg_init : (ℕ → ℕ) → ℕ → Option LcoreArg
unfolding init_loop
lcore_arg_init next core_id =
    init_loop rte_max_lcore next core_id 0
      (record { lcore_main_is_running = 0; bond_port = 0; ring_id = λ c. 0 })
