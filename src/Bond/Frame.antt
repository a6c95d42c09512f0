-- ===== src/Bond/Frame.antt =====
-- dpdk-examples/bond-kni/main-bond-kni.c: frames as the bytes of a buffer, and the changes that
-- `lcore_main` makes to them.
pub mod Tags
pub mod Reply
use Prim.Native.Nat.{bit_or}
use gittest.Prelude.{ℕ, zero, suc, ◌+◌, ◌*◌, ◌/◌, ◌%◌, ◌^◌, List, [], ◌∷◌, ◌==◌, if◌then◌else◌}

-- The bytes by their offset. A buffer of the pool is longer than all headers together, so each offset that
-- is used here is in it, whether or not the frame is that long.
abbrev pub Packet : Type 0
Packet = ℕ → ℕ

abbrev pub read : Packet → ℕ → ℕ → List ℕ
read p off zero = []
read p off (suc n) = p off ∷ read p (suc off) n

abbrev pub write : Packet → ℕ → List ℕ → Packet
write p off [] i = p i
write p off (b ∷ bs) i = if i == off then b else write p (suc off) bs i

-- Fields of 16 and 32 bits, as a little-endian processor loads and stores them.
abbrev pub load16 : Packet → ℕ → ℕ
load16 p off = p off + 256 * p (suc off)

abbrev pub load32 : Packet → ℕ → ℕ
load32 p off = load16 p off + 65536 * load16 p (suc (suc off))

abbrev pub bytes16 : ℕ → List ℕ
bytes16 v = v % 256 ∷ v / 256 % 256 ∷ []

abbrev pub bytes32 : ℕ → List ℕ
bytes32 v = v % 256 ∷ v / 256 % 256 ∷ v / 65536 % 256 ∷ v / 16777216 % 256 ∷ []

abbrev pub rte_cpu_to_be_16 : ℕ → ℕ
rte_cpu_to_be_16 v = v % 256 * 256 + v / 256 % 256

-- `struct rte_ether_addr`
pub record Mac : Type 0 where
  pub byte0 : ℕ
  pub byte1 : ℕ
  pub byte2 : ℕ
  pub byte3 : ℕ
  pub byte4 : ℕ
  pub byte5 : ℕ

abbrev pub addr_bytes : Mac → List ℕ
addr_bytes m = m.byte0 ∷ m.byte1 ∷ m.byte2 ∷ m.byte3 ∷ m.byte4 ∷ m.byte5 ∷ []

abbrev pub ether_type_ipv4 : ℕ
ether_type_ipv4 = 0x0800

abbrev pub ether_type_arp : ℕ
ether_type_arp = 0x0806

abbrev pub ether_type_vlan : ℕ
ether_type_vlan = 0x8100

abbrev pub arp_op_request : ℕ
arp_op_request = 1

abbrev pub arp_op_reply : ℕ
arp_op_reply = 2

-- Offsets in the Ethernet header, of 14 bytes, behind which a VLAN header of 4 bytes may stand.
abbrev pub d_addr : ℕ
d_addr = 0

abbrev pub s_addr : ℕ
s_addr = 6

abbrev pub ether_type_at : ℕ
ether_type_at = 12

abbrev pub eth_proto_at : ℕ
eth_proto_at = 16

-- Offsets in an ARP header.
abbrev pub arp_opcode : ℕ
arp_opcode = 6

abbrev pub arp_sha : ℕ
arp_sha = 8

abbrev pub arp_sip : ℕ
arp_sip = 14

abbrev pub arp_tha : ℕ
arp_tha = 18

abbrev pub arp_tip : ℕ
arp_tip = 24

-- Offsets in an IPv4 header.
abbrev pub src_addr : ℕ
src_addr = 12

abbrev pub dst_addr : ℕ
dst_addr = 16

-- `BOND_IP_1 | (BOND_IP_2 << 8) | (BOND_IP_3 << 16) | (BOND_IP_4 << 24)`
abbrev pub bond_ip : ℕ
bond_ip = bit_or (bit_or (bit_or 10 (0 * 2 ^ 8)) (120 * 2 ^ 16)) (17 * 2 ^ 24)

-- The offset and the new `*proto`.
unfoldable pub get_vlan_offset : Packet → ℕ → ℕ × ℕ
get_vlan_offset p proto =
    if rte_cpu_to_be_16 ether_type_vlan == proto
    then (let proto1 = load16 p eth_proto_at in
        if rte_cpu_to_be_16 ether_type_vlan == proto1
        then (8, load16 p (eth_proto_at + 4))
        else (4, proto1))
    else (0, proto)

-- Where the ARP or IPv4 header begins.
abbrev pub payload_at : ℕ → ℕ
payload_at offset = 14 + offset

-- An assignment to the bytes from an offset on: of given bytes, or of as many as are copied from an
-- offset of the same buffer.
pub data Source : Type 0 where
  bytes : List ℕ → Source
  copied : ℕ → ℕ → Source

abbrev pub value : Packet → Source → List ℕ
value p (bytes bs) = bs
value p (copied off n) = read p off n

abbrev pub assign : Packet → List (ℕ × Source) → Packet
assign p [] = p
assign p ((off, s) ∷ rest) = assign (write p off (value p s)) rest

-- The reply to an ARP request, written over the request.
pub arp_assignments : Mac → ℕ → List (ℕ × Source)
arp_assignments bond_mac_addr offset =
    let arp = payload_at offset in
    (arp + arp_opcode, bytes (bytes16 (rte_cpu_to_be_16 arp_op_reply)))
    ∷ (d_addr, copied s_addr 6)
    ∷ (s_addr, bytes (addr_bytes bond_mac_addr))
    ∷ (arp + arp_tha, copied (arp + arp_sha) 6)
    ∷ (arp + arp_tip, copied (arp + arp_sip) 4)
    ∷ (arp + arp_sha, bytes (addr_bytes bond_mac_addr))
    ∷ (arp + arp_sip, bytes (bytes32 bond_ip))
    ∷ []

pub answer_arp : Mac → Packet → ℕ → Packet
answer_arp bond_mac_addr p offset = assign p (arp_assignments bond_mac_addr offset)

-- An IPv4 packet, sent back.
pub ipv4_assignments : Mac → ℕ → List (ℕ × Source)
ipv4_assignments bond_mac_addr offset =
    let ip = payload_at offset in
    (d_addr, copied s_addr 6)
    ∷ (s_addr, bytes (addr_bytes bond_mac_addr))
    ∷ (ip + dst_addr, copied (ip + src_addr) 4)
    ∷ (ip + src_addr, bytes (bytes32 bond_ip))
    ∷ []

pub answer_ipv4 : Mac → Packet → ℕ → Packet
answer_ipv4 bond_mac_addr p offset = assign p (ipv4_assignments bond_mac_addr offset)
