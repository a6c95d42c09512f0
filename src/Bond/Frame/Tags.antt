-- ===== src/Bond/Frame/Tags.antt =====
-- The VLAN headers of a frame by its bytes, against `get_vlan_offset` of
-- dpdk-examples/bond-kni/main-bond-kni.c.
use gittest.Prelude.{
  ℕ, suc, ◌+◌, ◌≡◌, ◌⊎◌, refl, inl, inr, Bool, ◌&&◌, ◌==◌, if◌then◌else◌, arith, Bool-cases,
}
use gittest.Bond.Frame.{Packet, load16, rte_cpu_to_be_16, ether_type_vlan, get_vlan_offset}

-- The type 0x8100 stands at an offset, in the order of the wire.
abbrev pub has_tag : Packet → ℕ → Bool
has_tag p i = (p i == 0x81) && (p (suc i) == 0)

-- How many bytes no, one or two VLAN headers of 4 bytes take, and the type behind them.
abbrev pub vlan_end : Packet → ℕ
vlan_end p = if has_tag p 12 then (if has_tag p 16 then 8 else 4) else 0

abbrev pub inner_type : Packet → ℕ
inner_type p = load16 p (12 + vlan_end p)

has_tag_lem : (p : Packet) (i : ℕ) → (rte_cpu_to_be_16 ether_type_vlan == load16 p i) ≡ has_tag p i
has_tag_lem p i = ground arith

pub get_vlan_offset_lem :
    (p : Packet) → get_vlan_offset p (load16 p 12) ≡ (vlan_end p, inner_type p)
unfolding get_vlan_offset
get_vlan_offset_lem p = rw (has_tag_lem p 12) (elim (Bool-cases (has_tag p 12)) [
  | inr plain ↦ rw plain refl
  | inl one ↦ rw one (
      rw (has_tag_lem p 16)
        (elim (Bool-cases (has_tag p 16)) [ inr single ↦ rw single refl | inl two ↦ rw two refl ]))
])

-- Where the headers can end.
abbrev pub IsOffset : ℕ → Type 0
IsOffset o = (o ≡ 0) ⊎ (o ≡ 4) ⊎ (o ≡ 8)

pub vlan_end-IsOffset : (p : Packet) → IsOffset (vlan_end p)
vlan_end-IsOffset p = ground arith
