-- ===== src/Bond/Commands.antt =====
-- dpdk-examples/bond-kni/cmd.c: the commands that are typed at the prompt.
pub mod Request
pub mod Protocol
pub mod Locking
use Prim.Native.Nat.{bit_or}
use gittest.Prelude.{
  ℕ, zero, suc, ◌+◌, ◌*◌, ◌^◌, Bool, true, false, ◌||◌, Option, none, some, List, [], ◌∷◌, ◌++◌,
  ◌==◌, leb, if◌then◌else◌, replicate,
}
use gittest.Prelude.Int.{ℤ, pos, negsuc}
use gittest.Bond.Frame.{
  Packet, Source, bytes, assign, Mac, addr_bytes, bytes16, bytes32, rte_cpu_to_be_16, d_addr,
  s_addr, ether_type_at, ether_type_arp, ether_type_ipv4, payload_at, arp_opcode, arp_op_request,
  arp_sha, arp_sip, arp_tha, arp_tip, bond_ip,
}
use gittest.Bond.Flags.{Flags, trylock, unlock}
use gittest.Bond.Lcore.{Mbuf, Others, LcoreArg, rte_max_lcore}

-- An IPv4 address as four bytes, in the order of the wire.
pub record Ipv4 : Type 0 where
  pub byte0 : ℕ
  pub byte1 : ℕ
  pub byte2 : ℕ
  pub byte3 : ℕ

-- What DPDK answers to a command. `next_lcore` is `rte_get_next_lcore (c, 1, 0)`, `is_waiting` whether
-- `rte_eal_get_lcore_state` gives WAIT; `none` is a failure.
pub record Eal : Type 0 where
  pub lcore_id : ℕ
  pub next_lcore : ℕ → ℕ
  pub is_waiting : ℕ → Bool
  pub remote_launch : ℕ → ℤ
  pub wait_lcore : ℕ → ℤ
  pub bond_port : ℕ
  pub slaves_count : ℕ
  pub macaddr : ℕ → Option Mac
  pub pktmbuf_alloc : Option Mbuf
  pub active_slaves : ℤ
  pub ipackets : ℕ → ℕ
  pub opackets : ℕ → ℕ

pub data Message : Type 0 where
  wrong_format : Message
  no_address : ℕ → Message
  no_mbuf : Message
  newline : Message
  already_running : ℕ → Message
  starting : ℕ → ℤ → Message
  not_running : ℕ → Message
  cannot_stop : ℕ → Message
  stopped : ℕ → Message
  address_of : Mac → Message
  counters : ℤ → ℕ → ℕ → ℕ → Message
  port_stats : ℕ → ℕ → ℕ → Message
  help_text : Message

-- What a command does: prints, starts `lcore_main` on a core with an argument, waits for a core, sends a
-- frame of a length, ends the prompt.
pub data Effect : Type 0 where
  print : Message → Effect
  launch : ℕ → Option LcoreArg → Effect
  wait : ℕ → Effect
  send_frame : ℕ → Packet → Effect
  end_prompt : Effect

-- The commands, by their first word, with what the parser found behind it.
pub data Command : Type 0 where
  start : Command
  send : Bool → Ipv4 → Command
  stop : Command
  show : Command
  quit : Command
  help : Command

pub record Session : Type 0 where
  pub flags : Flags
  pub accesses : ℕ
  pub effects : List Effect

abbrev pub tell : Effect → Session → Session
tell e s = record s { effects = s.effects ++ e ∷ [] }

-- An access to the flags, before which the other threads may have changed them.
abbrev pub access : Others → Session → Session
access others s = record s { flags = others s.accesses s.flags; accesses = suc s.accesses }

-- The result of `rte_spinlock_trylock` is not looked at.
abbrev pub lock : Others → Session → Session
lock others s = let s1 = access others s in record s1 { flags = (trylock s1.flags).1 }

abbrev pub release : Others → Session → Session
release others s = let s1 = access others s in record s1 { flags = unlock s1.flags }

abbrev pub set_running : Others → ℕ → Session → Session
set_running others v s =
    let s1 = access others s in record s1 { flags = record s1.flags { lcore_main_is_running = v } }

abbrev pub is_negative : ℤ → Bool
is_negative (pos n) = false
is_negative (negsuc n) = true

-- The bytes of an address, put together as `arp_tip` is.
pub arp_tip_of : Ipv4 → ℕ
arp_tip_of ip =
    bit_or (bit_or (bit_or ip.byte0 (ip.byte1 * 2 ^ 8)) (ip.byte2 * 2 ^ 16)) (ip.byte3 * 2 ^ 24)

-- The request that `cmd_obj_send_parsed` writes into a new buffer.
pub request_assignments : Mac → Ipv4 → List (ℕ × Source)
unfolding arp_tip_of
request_assignments bond_mac_addr ip =
    let arp = payload_at 0 in
    (s_addr, bytes (addr_bytes bond_mac_addr))
    ∷ (d_addr, bytes (replicate 6 0xff))
    ∷ (ether_type_at, bytes (bytes16 (rte_cpu_to_be_16 ether_type_arp)))
    ∷ (arp, bytes (bytes16 (rte_cpu_to_be_16 1)))
    ∷ (arp + 2, bytes (bytes16 (rte_cpu_to_be_16 ether_type_ipv4)))
    ∷ (arp + 4, bytes (6 ∷ []))
    ∷ (arp + 5, bytes (4 ∷ []))
    ∷ (arp + arp_opcode, bytes (bytes16 (rte_cpu_to_be_16 arp_op_request)))
    ∷ (arp + arp_sha, bytes (addr_bytes bond_mac_addr))
    ∷ (arp + arp_sip, bytes (bytes32 bond_ip))
    ∷ (arp + arp_tha, bytes (replicate 6 0))
    ∷ (arp + arp_tip, bytes (bytes32 (arp_tip_of ip)))
    ∷ []

abbrev pub tell_unless : Bool → Message → Session → Session
tell_unless b m s = if b then s else tell (print m) s

abbrev pub address_or : Mac → Option Mac → Mac
address_or stack none = stack
address_or stack (some mac) = mac

abbrev pub tell_failure : ℕ → Option Mac → Session → Session
tell_failure port none s = tell (print (no_address port)) s
tell_failure port (some mac) s = s

pub send_request : Mac → Ipv4 → Option Mbuf → Session → Session
unfolding request_assignments
send_request mac ip none s = tell (print no_mbuf) s
send_request mac ip (some m) s =
    tell (print newline) (tell (send_frame 42 (assign m.frame (request_assignments mac ip))) s)

module _ (others : Others) (eal : Eal) where
  -- The second half of `cmd_start_parsed`: the start.
  pub start_next : Session → Session
  start_next s =
      let core = eal.next_lcore eal.lcore_id in
      let s1 = release others (set_running others 1 (lock others s)) in
      if leb rte_max_lcore core || core == 0
      then s
      else tell (print (starting core (eal.remote_launch core))) (tell (launch core none) s1)

  pub cmd_start_parsed : Session → Session
  unfolding start_next
  cmd_start_parsed s0 =
      let s1 = access others (lock others s0) in
      let s2 = access others s1 in
      if s1.flags.lcore_main_is_running == 0
      then (if eal.is_waiting s2.flags.lcore_main_core
          then start_next (release others s2)
          else release others s2)
      else release others (tell (print (already_running s2.flags.lcore_main_core)) s2)

  pub cmd_help_parsed : Session → Session
  cmd_help_parsed s = tell (print help_text) s

  -- The part that `cmd_stop_parsed` and `cmd_quit_parsed` share, written out in both.
  pub stop_running : Session → Session
  stop_running s0 =
      let s1 = access others (lock others s0) in
      let s2 = access others s1 in
      let s3 = access others (set_running others 0 s1) in
      let core = s3.flags.lcore_main_core in
      let s4 = access others (tell (wait core) s3) in
      if s1.flags.lcore_main_is_running == 0
      then release others (tell (print (not_running s2.flags.lcore_main_core)) s2)
      else release others (
          if is_negative (eal.wait_lcore core)
          then tell (print (cannot_stop s4.flags.lcore_main_core)) s4
          else tell (print (stopped s4.flags.lcore_main_core)) s4)

  pub cmd_stop_parsed : Session → Session
  unfolding stop_running
  cmd_stop_parsed s = stop_running s

  pub cmd_quit_parsed : Session → Session
  unfolding stop_running
  cmd_quit_parsed s = tell end_prompt (stop_running s)

  -- The two loops of `cmd_show_parsed`: `n` slaves from `i` on.
  pub show_addresses : ℕ → ℕ → Session → Session
  show_addresses zero i s = s
  show_addresses (suc n) i s = show_addresses n (suc i) (elim (eal.macaddr i) as (λ _. Session) [
    | none ↦ tell (print (no_address i)) s
    | some addr ↦ tell (print newline) (tell (print (address_of addr)) s)
  ])

  pub show_stats : ℕ → ℕ → Session → Session
  show_stats zero i s = s
  show_stats (suc n) i s =
      show_stats n (suc i) (tell (print (port_stats i (eal.ipackets i) (eal.opackets i))) s)

  pub cmd_show_parsed : Session → Session
  unfolding show_addresses show_stats
  cmd_show_parsed s0 =
      let s1 = access others (lock others (show_addresses eal.slaves_count 0 s0)) in
      let n = s1.flags.port_packets in
      release others (
        show_stats eal.slaves_count 0
          (tell (print (counters eal.active_slaves (n 0) (n 1) (n 2))) s1))

  -- `stack` is what the variable `bond_mac_addr` holds before it is set; `is_ipv4` whether the family is
  -- AF_INET. Neither failure ends the command.
  pub cmd_obj_send_parsed : Mac → Bool → Ipv4 → Session → Session
  unfolding send_request
  cmd_obj_send_parsed stack is_ipv4 ip s0 =
      let addr = eal.macaddr eal.bond_port in
      let s1 = tell_failure eal.bond_port addr (tell_unless is_ipv4 wrong_format s0) in
      send_request (address_or stack addr) ip eal.pktmbuf_alloc s1

  -- `main_ctx`: the command for each of the words start, send, stop, show, quit and help.
  pub run_command : Mac → Command → Session → Session
  unfolding cmd_start_parsed cmd_obj_send_parsed cmd_stop_parsed cmd_show_parsed cmd_quit_parsed
      cmd_help_parsed
  run_command stack Command.start s = cmd_start_parsed s
  run_command stack (Command.send is_ipv4 ip) s = cmd_obj_send_parsed stack is_ipv4 ip s
  run_command stack Command.stop s = cmd_stop_parsed s
  run_command stack Command.show s = cmd_show_parsed s
  run_command stack Command.quit s = cmd_quit_parsed s
  run_command stack Command.help s = cmd_help_parsed s

  -- Commands one after the other.
  pub run_commands : Mac → List Command → Session → Session
  unfolding run_command
  run_commands stack [] s = s
  run_commands stack (c ∷ cs) s = run_commands stack cs (run_command stack c s)
