-- ===== src/Bond/Lcore/Counts.antt =====
-- The packet counters of dpdk-examples/bond-kni/main.h.
use gittest.Prelude.{
  ℕ, ◌+◌, ◌%◌, ◌^◌, ◌≡◌, false, List, [], ◌∷◌, ◌==◌, if◌then◌else◌, length, arith,
}
use gittest.Bond.Frame.{Mac}
use gittest.Bond.Lcore.{Mbuf, Core, Others, count, on_arp, on_ipv4, process, process_all}
use gittest.Bond.Frame.Tags.{inner_type, get_vlan_offset_lem}

-- No other thread touches the flags.
abbrev pub alone : Others
alone n g = g

-- How many frames of a burst are of a type.
pub of_type : ℕ → List Mbuf → ℕ
of_type t [] = 0
of_type t (m ∷ ms) = (if inner_type m.frame == t then 1 else 0) + of_type t ms

abbrev counter : ℕ → Core → ℕ
counter k c = c.flags.port_packets k

-- A counter of 32 bits, `n` further.
abbrev Grows : ℕ → ℕ → Core → Core → Type 0
Grows k n c c' = counter k c' % 2 ^ 32 ≡ (counter k c + n) % 2 ^ 32

abbrev is_type : ℕ → Mbuf → ℕ
is_type t m = if inner_type m.frame == t then 1 else 0

abbrev Counted : ℕ → ℕ → ℕ → Core → Core → Type 0
Counted all arp ipv4 c c' =
    (c'.flags.locked ≡ false) × Grows 0 all c c' × Grows 1 arp c c' × Grows 2 ipv4 c c'

process-Counted :
    (mac : Mac) (m : Mbuf) (c : Core)
    → c.flags.locked ≡ false
    → Counted 1 (is_type 0x0608 m) (is_type 0x0008 m) c (process alone mac m c)
unfolding process on_arp on_ipv4 count
process-Counted mac m c free = rw (get_vlan_offset_lem m.frame) (ground arith)

-- Where no other thread touches the flags and the lock is free: a burst adds the number of its frames, that
-- of its ARP frames and that of its IPv4 frames, behind VLAN headers too, to the three counters, modulo
-- 2 ^ 32, and leaves the lock free.
pub process_all_counts :
    (mac : Mac) (ms : List Mbuf) (c : Core)
    → c.flags.locked ≡ false
    → Counted (length ms) (of_type 0x0608 ms) (of_type 0x0008 ms) c (process_all alone mac ms c)
unfolding process_all of_type
process_all_counts mac [] c free = (free, omega arith, omega arith, omega arith)
process_all_counts mac (m ∷ ms) c free =
    let (free', all, arp, ipv4) = process-Counted mac m c free in
    let (free'', alls, arps, ipv4s) = process_all_counts mac ms (process alone mac m c) free' in
    (free'', omega arith, omega arith, omega arith)
