-- ===== src/Tests/Bond.antt =====
-- Examples for dpdk-examples/bond-kni.
use gittest.Prelude.{
  length, ◌%◌, ◌^◌, ℕ, suc, ◌+◌, ◌≡◌, ◌<◌, refl, Bool, true, false, some, List, [], ◌∷◌, ◌++◌, ◌==◌,
  ltb, zero, ◌&&◌, arith, get_or, if◌then◌else◌,
}
use gittest.Prelude.Int.{ℤ, pos}
use gittest.Bond.Frame.{Packet, Mac, answer_arp, answer_ipv4, get_vlan_offset}
use gittest.Bond.Frame.Reply.{IsArpAnswer, answer_arp_lem}
use gittest.Bond.Flags.{Flags}
use gittest.Bond.Lcore.{
  Mbuf, Core, Others, process_all, Round, returned, lcore_main, LcoreArg, lcore_arg_init, entered,
}
use gittest.Bond.Lcore.Burst.{process_all_sends, process_all_frees}
use gittest.Bond.Lcore.OnePacket.{asks, answers, Answered, sent, freed}
use gittest.Bond.Lcore.Stops.{lcore_main_ends}
use gittest.Bond.Lcore.Queues.{core_after, lcore_arg_init_lem}
use gittest.Bond.Lcore.Counts.{alone}
use gittest.Bond.Commands.{
  Eal, Ipv4, Session, Command, run_commands, cmd_start_parsed, cmd_stop_parsed, cmd_quit_parsed,
}
use gittest.Bond.Commands.Request.{arp_request}
use gittest.Bond.Commands.Protocol.{Agrees, alternate, runs_at_end, run_commands-Agrees}
use gittest.Bond.Commands.Locking.{with_lock, commands_ignore_lock}
use gittest.Bond.Setup.{
  Call, is_valid_port, active_slaves_get, bond_create, Driver, slave_port_init, bond_port_init,
}
use gittest.Bond.Setup.Ports.{AllAccepted, Follows, slave_calls, queue_calls, slave_port_init-Calls}
use gittest.Bond.Setup.Bonding.{
  bond_calls, adding_calls, enabled_calls, Enabled, bond_port_init_lem,
}
use gittest.Bond.Setup.Waiting.{polls}
use gittest.Bond.Main.{Machine, Ended, main}
use gittest.Bond.Main.Launched.{Launches, main_lem}

abbrev mac_a : Mac
mac_a = record { byte0 = 2; byte1 = 0; byte2 = 0; byte3 = 0; byte4 = 0; byte5 = 1 }

abbrev mac_b : Mac
mac_b = record { byte0 = 2; byte1 = 0; byte2 = 0; byte3 = 0; byte4 = 0; byte5 = 2 }

abbrev own : Ipv4
own = record { byte0 = 10; byte1 = 0; byte2 = 120; byte3 = 17 }

abbrev frame_of : List ℕ → Packet
frame_of bs i = get_or bs i 0

-- A request of `mac_b` for the own address, and an IPv4 packet to it behind a VLAN header.
abbrev request : Packet
request = frame_of (arp_request mac_b own)

abbrev call_bytes : List ℕ
call_bytes =
    2 ∷ 0 ∷ 0 ∷ 0 ∷ 0 ∷ 1 ∷ 2 ∷ 0 ∷ 0 ∷ 0 ∷ 0 ∷ 2 ∷ 0x81 ∷ 0 ∷ 0 ∷ 5 ∷ 8 ∷ 0 ∷ 0x45 ∷ 0 ∷ 0 ∷ 20 ∷ 0
    ∷ 0 ∷ 0 ∷ 0 ∷ 64 ∷ 1 ∷ 0 ∷ 0 ∷ 10 ∷ 0 ∷ 0 ∷ 1 ∷ 10 ∷ 0 ∷ 120 ∷ 17 ∷ []

abbrev call : Packet
call = frame_of call_bytes

abbrev at_rest : Flags
at_rest = record {
  lcore_main_is_running = 1;
  lcore_main_core = 1;
  port_packets = λ k. 0;
  locked = false;
}

abbrev mbuf : ℕ → Packet → Mbuf
mbuf a p = record { address = a; frame = p }

answer_arp_lem_example : IsArpAnswer mac_a request 0 (answer_arp mac_a request 0)
unfolding get_vlan_offset
answer_arp_lem_example = answer_arp_lem mac_a request

abbrev are_bytes : List ℕ → Bool
are_bytes [] = true
are_bytes (b ∷ bs) = ltb b 256 && are_bytes bs

byte_of : (bs : List ℕ) (i : ℕ) → are_bytes bs ≡ true → get_or bs i 0 < 256
byte_of [] i h = omega arith
byte_of (b ∷ bs) zero h = ground arith
byte_of (b ∷ bs) (suc i) h = byte_of bs i (ground arith)

-- Two frames that need no answer, a call, a request, and another frame.
abbrev burst : List Mbuf
burst = mbuf 1 (frame_of []) ∷ mbuf 2 call ∷ mbuf 3 request ∷ mbuf 4 (frame_of []) ∷ []

process_all_sends_example :
    (qs : List Packet) × (sent (process_all alone mac_a burst (entered at_rest)).events ≡ qs)
    × Answered mac_a burst qs
process_all_sends_example = process_all_sends alone mac_a burst (entered at_rest)

-- The answers sent are two.
answers_two : answers mac_a burst ≡ answer_ipv4 mac_a call 4 ∷ answer_arp mac_a request 0 ∷ []
unfolding answers get_vlan_offset
answers_two = refl

abbrev before_request : List Mbuf
before_request = mbuf 1 (frame_of []) ∷ mbuf 2 call ∷ []

process_all_frees_example :
    (freed (process_all alone mac_a before_request (entered at_rest)).events ≡ 1 ∷ 2 ∷ [])
    × ((m : Mbuf) (behind : List Mbuf)
        → asks m.frame ≡ true
        → freed (process_all alone mac_a (before_request ++ m ∷ behind) (entered at_rest)).events
          ≡ 1 ∷ 2 ∷ [])
unfolding get_vlan_offset
process_all_frees_example =
    process_all_frees alone mac_a before_request (entered at_rest) (refl, (refl, tt)) refl

-- Four cores, of which the first is number 1; the flag is cleared before the access 3.
abbrev next_of_four : ℕ → ℕ
next_of_four c = if ltb c 4 then suc c else suc c + 127

rises : (c : ℕ) → c < next_of_four c
rises c = ground arith

lcore_arg_init_lem_example :
    (arg : LcoreArg) × (lcore_arg_init next_of_four 1 ≡ some arg)
    × ((k : ℕ) → core_after next_of_four k 1 < 128 → arg.ring_id (core_after next_of_four k 1) ≡ k)
    × ((c : ℕ) → c < 1 → arg.ring_id c ≡ 0)
lcore_arg_init_lem_example = lcore_arg_init_lem next_of_four rises 1 (omega arith)

abbrev told : Others
told n g = if n == 3 then record g { lcore_main_is_running = 0 } else g

abbrev served : Round
served = record { received = burst; bond_mac_addr = some mac_a }

abbrev rounds : ℕ → List Round
rounds q = served ∷ served ∷ served ∷ []

abbrev some_arg : LcoreArg
some_arg = record { lcore_main_is_running = 0; bond_port = 0; ring_id = λ c. c }

lcore_main_ends_example :
    (c : Core) × (lcore_main told (some some_arg) 1 rounds at_rest ≡ returned c)
    × (c.flags.locked ≡ false)
lcore_main_ends_example =
    lcore_main_ends told 3 ((λ g. refl), (λ n g lt off. ground arith)) some_arg 1 rounds at_rest
      (λ q. ((mac_a, refl), ((mac_a, refl), ((mac_a, refl), tt)))) (λ q. omega arith)

abbrev eal : Eal
eal = record {
  lcore_id = 0;
  next_lcore = next_of_four;
  is_waiting = λ c. true;
  remote_launch = λ c. pos 0;
  wait_lcore = λ c. pos 0;
  bond_port = 4;
  slaves_count = 2;
  macaddr = λ p. some mac_a;
  pktmbuf_alloc = some (mbuf 9 (frame_of []));
  active_slaves = pos 2;
  ipackets = λ p. 5;
  opackets = λ p. 7;
}

abbrev session : ℕ → Session
session r = record {
  flags = record at_rest { lcore_main_is_running = r };
  accesses = 0;
  effects = [];
}

abbrev typed : List Command
typed =
    Command.start ∷ Command.start ∷ Command.show ∷ Command.stop ∷ Command.stop ∷ Command.start
    ∷ Command.quit ∷ []

run_commands-Agrees_example : Agrees false (run_commands alone eal mac_b typed (session 0))
unfolding alternate runs_at_end
run_commands-Agrees_example =
    run_commands-Agrees false eal mac_b typed (session 0)
      (record { alternates = refl; flag = refl })

commands_ignore_lock_example :
    (cmd_start_parsed alone eal (with_lock true (session 0))
      ≡ cmd_start_parsed alone eal (with_lock false (session 0)))
    × (cmd_stop_parsed alone eal (with_lock true (session 0))
        ≡ cmd_stop_parsed alone eal (with_lock false (session 0)))
    × (cmd_quit_parsed alone eal (with_lock true (session 0))
        ≡ cmd_quit_parsed alone eal (with_lock false (session 0)))
    × ((cmd_start_parsed alone eal (with_lock true (session 0))).flags.locked ≡ false)
    × ((cmd_stop_parsed alone eal (with_lock true (session 0))).flags.locked ≡ false)
    × ((cmd_quit_parsed alone eal (with_lock true (session 0))).flags.locked ≡ false)
commands_ignore_lock_example = commands_ignore_lock eal true (session 0)

-- A driver where all goes well, with two cores and two slaves, the second of which becomes active late.
abbrev replies : List Call → Call → ℤ
replies t (is_valid_port p) = pos 1
replies t (active_slaves_get p) = if ltb (length t) 12 then pos 1 else pos 2
replies t bond_create = pos 4
replies t c = pos 0

abbrev driver : Driver
driver = record {
  answer = replies;
  info = λ p. record { tx_offload_capa = 3; flow_type_rss_offloads = 5 };
  nb_rxd = λ p. 1024;
  nb_txd = λ p. 512;
  lcore_count = 2;
  eth_rss_ip = 7;
  fast_free = 2;
}

slave_port_init-Calls_example :
    Follows driver (slave_calls driver 1) [] (slave_port_init driver 1 [])
slave_port_init-Calls_example = slave_port_init-Calls driver 1 []

-- The calls of an initialisation of the bonded port, as they are made.
abbrev bonding : List Call
bonding =
    (bond_create ∷ [])
    ++ (bond_calls driver 4 (0 ∷ 1 ∷ [])
        ++ (polls 4 1 ++ active_slaves_get 4 ∷ [])
        ++ enabled_calls driver 4)

bond_port_init_lem_example :
    (n : ℕ) × (pos 4 ≡ pos n)
    × AllAccepted driver (bond_create ∷ []) (bond_calls driver (n % 2 ^ 16) (0 ∷ 1 ∷ []))
    × ((k : ℕ) × (k < 20) × Enabled driver [] k (n % 2 ^ 16) (0 ∷ 1 ∷ []) bonding)
unfolding bond_port_init bond_calls adding_calls queue_calls polls
bond_port_init_lem_example = bond_port_init_lem driver (0 ∷ 1 ∷ []) [] bonding refl

abbrev machine : Machine
machine = record {
  eal_init = pos 3;
  dev_count_avail = 2;
  devices = 0 ∷ 1 ∷ [];
  has_pool = true;
  lcore_id = 0;
  first_slave = 1;
  next_lcore = next_of_four;
  is_waiting = λ c. true;
}

main_lem_example : (e : Ended) × (main driver machine ≡ some e) × Launches driver machine rises e
main_lem_example = main_lem driver machine rises (omega arith)
