-- ===== src/Bond/Frame/Reply.antt =====
-- What `lcore_main` of dpdk-examples/bond-kni/main-bond-kni.c makes of a frame that it sends back.
use gittest.Prelude.{
  ℕ, zero, suc, ◌+◌, ◌≡◌, ◌≤◌, ◌<◌, ◌∙◌, inl, inr, refl, List, [], ◌∷◌, arith, length, ap, Bool,
  true, ◌||◌, ◌&&◌, ltb, leb,
}
use gittest.Bond.Frame.Tags.{IsOffset, vlan_end, vlan_end-IsOffset, get_vlan_offset_lem}
use gittest.Bond.Frame.{
  Packet, arp_assignments, ipv4_assignments, read, write, load16, load32, bond_ip, Mac, addr_bytes,
  answer_arp, answer_ipv4, get_vlan_offset, Source, bytes, copied, value, assign,
}

length-read : (p : Packet) (off n : ℕ) → length (read p off n) ≡ n
length-read p off zero = refl
length-read p off (suc n) = ap suc (length-read p (suc off) n)

write_outside :
    (p : Packet) (off : ℕ) (bs : List ℕ) (i : ℕ)
    → (ltb i off || leb (off + length bs) i) ≡ true
    → write p off bs i ≡ p i
write_outside p off [] i h = refl
write_outside p off (b ∷ bs) i h = ground (arith, write_outside p (suc off) bs i)

abbrev size : Source → ℕ
size (bytes bs) = length bs
size (copied off n) = n

abbrev spares : ℕ → List (ℕ × Source) → Bool
spares i [] = true
spares i ((off, s) ∷ rest) = (ltb i off || leb (off + size s) i) && spares i rest

length-value : (p : Packet) (s : Source) → length (value p s) ≡ size s
length-value p (bytes bs) = refl
length-value p (copied off n) = length-read p off n

-- A byte outside all assignments keeps its value.
assign_spared :
    (p : Packet) (es : List (ℕ × Source)) (i : ℕ) → spares i es ≡ true → assign p es i ≡ p i
assign_spared p [] i h = refl
assign_spared p ((off, s) ∷ rest) i h =
    assign_spared (write p off (value p s)) rest i (ground arith)
    ∙ write_outside p off (value p s) i (rw (length-value p s) (ground arith))

-- The fields of an ARP reply to `p` from the address `mac`: it goes to the sender of the request, with
-- the operation 2, the own addresses as those of the sender, and the sender's as those of the target.
abbrev pub IsArpReply : Mac → Packet → ℕ → Packet → Type 0
IsArpReply mac p o q =
    (read q 0 6 ≡ read p 6 6)
    × (read q 6 6 ≡ addr_bytes mac)
    × (read q (20 + o) 2 ≡ 0 ∷ 2 ∷ [])
    × (read q (22 + o) 6 ≡ addr_bytes mac)
    × (read q (28 + o) 4 ≡ 10 ∷ 0 ∷ 120 ∷ 17 ∷ [])
    × (read q (32 + o) 6 ≡ read p (22 + o) 6)
    × (read q (38 + o) 4 ≡ read p (28 + o) 4)

arp_fields : (mac : Mac) (p : Packet) (o : ℕ) → IsOffset o → IsArpReply mac p o (answer_arp mac p o)
unfolding answer_arp arp_assignments
arp_fields mac p o (inl e) = rw e (refl, refl, refl, refl, refl, refl, refl)
arp_fields mac p o (inr (inl e)) = rw e (refl, refl, refl, refl, refl, refl, refl)
arp_fields mac p o (inr (inr e)) = rw e (refl, refl, refl, refl, refl, refl, refl)

arp_between : (mac : Mac) (p : Packet) (o i : ℕ) → 12 ≤ i → i < 20 + o → answer_arp mac p o i ≡ p i
unfolding answer_arp arp_assignments
arp_between mac p o i h k = assign_spared p (arp_assignments mac o) i (ground arith)

arp_behind : (mac : Mac) (p : Packet) (o i : ℕ) → 42 + o ≤ i → answer_arp mac p o i ≡ p i
unfolding answer_arp arp_assignments
arp_behind mac p o i h = assign_spared p (arp_assignments mac o) i (ground arith)

-- A whole answer to the request `p` behind VLAN headers of `o` bytes: the fields above, and the type, the VLAN
-- headers, the rest of the ARP header and what follows it are those of the request.
abbrev pub IsArpAnswer : Mac → Packet → ℕ → Packet → Type 0
IsArpAnswer mac p o q =
    IsArpReply mac p o q
    × ((i : ℕ) → 12 ≤ i → i < 20 + o → q i ≡ p i)
    × ((i : ℕ) → 42 + o ≤ i → q i ≡ p i)

-- The reply that `answer_arp` writes over a request at the offset that `get_vlan_offset` gives, behind no,
-- one or two VLAN headers, as the bytes 0x81 0x00 at the offsets 12 and 16 say: it is addressed to the
-- sender of the request and comes from the own address, its operation is 2, its sender is the own
-- hardware address with 10.0.120.17, its target is the sender of the request; and the type, the VLAN
-- headers, the rest of the ARP header and what follows it are those of the request.
pub answer_arp_lem :
    (mac : Mac) (p : Packet)
    → IsArpAnswer mac p (vlan_end p) (answer_arp mac p (get_vlan_offset p (load16 p 12)).0)
answer_arp_lem mac p =
    let o = vlan_end p in
    rw (get_vlan_offset_lem p)
      (arp_fields mac p o (vlan_end-IsOffset p), arp_between mac p o, arp_behind mac p o)

-- The sum of `n` words of 16 bits, by which the checksum of an IPv4 header is made.
abbrev pub word_sum : Packet → ℕ → ℕ → ℕ
word_sum p off zero = 0
word_sum p off (suc n) = load16 p off + word_sum p (2 + off) n

abbrev pub IsIpv4Reply : Mac → Packet → ℕ → Packet → Type 0
IsIpv4Reply mac p o q =
    (read q 0 6 ≡ read p 6 6)
    × (read q 6 6 ≡ addr_bytes mac)
    × (read q (26 + o) 4 ≡ 10 ∷ 0 ∷ 120 ∷ 17 ∷ [])
    × (read q (30 + o) 4 ≡ read p (26 + o) 4)

ipv4_fields :
    (mac : Mac) (p : Packet) (o : ℕ) → IsOffset o → IsIpv4Reply mac p o (answer_ipv4 mac p o)
unfolding answer_ipv4 ipv4_assignments
ipv4_fields mac p o (inl e) = rw e (refl, refl, refl, refl)
ipv4_fields mac p o (inr (inl e)) = rw e (refl, refl, refl, refl)
ipv4_fields mac p o (inr (inr e)) = rw e (refl, refl, refl, refl)

-- The sum of the header's words is that of the ten before, once the target was the own address.
ipv4_sum :
    (mac : Mac) (p : Packet) (o : ℕ)
    → IsOffset o
    → ((i : ℕ) → p i < 256)
    → load32 p (30 + o) ≡ bond_ip
    → word_sum (answer_ipv4 mac p o) (14 + o) 10 ≡ word_sum p (14 + o) 10
unfolding answer_ipv4 ipv4_assignments
ipv4_sum mac p o (inl e) b h =
    let h1 : load32 p 30 ≡ bond_ip = rw e at h in rw e (omega (arith, b 30, b 31, b 32, b 33))
ipv4_sum mac p o (inr (inl e)) b h =
    let h1 : load32 p 34 ≡ bond_ip = rw e at h in rw e (omega (arith, b 34, b 35, b 36, b 37))
ipv4_sum mac p o (inr (inr e)) b h =
    let h1 : load32 p 38 ≡ bond_ip = rw e at h in rw e (omega (arith, b 38, b 39, b 40, b 41))

ipv4_between :
    (mac : Mac) (p : Packet) (o i : ℕ) → 12 ≤ i → i < 26 + o → answer_ipv4 mac p o i ≡ p i
unfolding answer_ipv4 ipv4_assignments
ipv4_between mac p o i h k = assign_spared p (ipv4_assignments mac o) i (ground arith)

ipv4_behind : (mac : Mac) (p : Packet) (o i : ℕ) → 34 + o ≤ i → answer_ipv4 mac p o i ≡ p i
unfolding answer_ipv4 ipv4_assignments
ipv4_behind mac p o i h = assign_spared p (ipv4_assignments mac o) i (ground arith)

abbrev pub IsIpv4Answer : Mac → Packet → ℕ → Packet → Type 0
IsIpv4Answer mac p o q =
    IsIpv4Reply mac p o q
    × ((i : ℕ) → 12 ≤ i → i < 26 + o → q i ≡ p i)
    × ((i : ℕ) → 34 + o ≤ i → q i ≡ p i)

pub arp_answered :
    (mac : Mac) (p : Packet) (o : ℕ) → IsOffset o → IsArpAnswer mac p o (answer_arp mac p o)
arp_answered mac p o is = (arp_fields mac p o is, arp_between mac p o, arp_behind mac p o)

pub ipv4_answered :
    (mac : Mac) (p : Packet) (o : ℕ) → IsOffset o → IsIpv4Answer mac p o (answer_ipv4 mac p o)
ipv4_answered mac p o is = (ipv4_fields mac p o is, ipv4_between mac p o, ipv4_behind mac p o)

-- An IPv4 packet to the own address that is sent back, behind no, one or two VLAN headers: it is addressed
-- to the sender's hardware address and comes from the own one, its source is 10.0.120.17 and its
-- destination the source before; nothing else is changed, and the sum of the ten words of the header
-- is the same, so the checksum stays right.
pub answer_ipv4_lem :
    (mac : Mac) (p : Packet)
    → ((i : ℕ) → p i < 256)
    → load32 p (30 + vlan_end p) ≡ bond_ip
    → let o = vlan_end p in
      let q = answer_ipv4 mac p (get_vlan_offset p (load16 p 12)).0 in
      IsIpv4Answer mac p o q × (word_sum q (14 + o) 10 ≡ word_sum p (14 + o) 10)
answer_ipv4_lem mac p b h =
    let o = vlan_end p in
    rw (get_vlan_offset_lem p)
      (ipv4_answered mac p o (vlan_end-IsOffset p), ipv4_sum mac p o (vlan_end-IsOffset p) b h)
