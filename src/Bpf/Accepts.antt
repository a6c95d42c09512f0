-- ===== src/Bpf/Accepts.antt =====
-- Which packets the filter of bpf/bpf_demo.cpp lets through.
use Prim.Native.Nat.{bit_and}
use gittest.Prelude.{
  ℕ, ◌+◌, ◌*◌, ◌%◌, ◌^◌, ◌≡◌, refl, inl, inr, Bool, true, false, ◌&&◌, Option, none, some, List,
  ◌==◌, ltb, leb, if◌then◌else◌, get_elem?, drop, arith, Bool-cases, Option-cases,
}
use gittest.Prelude.Bits.{bit_and_mask}
use gittest.Bpf.{code_tcp, load_half, run, exec, filter}

abbrev pub holds : Option ℕ → (ℕ → Bool) → Bool
holds none f = false
holds (some v) f = f v

-- The destination port of TCP is the second half word behind the IP header, whose length counts words.
abbrev pub port_within : List ℕ → Bool
port_within packet =
    holds (get_elem? packet 0)
      λ b. holds (load_half packet (4 * (b % 16) + 2)) λ port. leb 100 port && leb port 200

-- A TCP packet, not a later fragment, to a port from 100 to 200.
abbrev pub passes : List ℕ → Bool
passes packet =
    holds (get_elem? packet 9) (λ protocol. protocol == 6)
    && holds (load_half packet 6) (λ fragment. fragment % 2 ^ 13 == 0)
    && port_within packet

abbrev verdict : Bool → ℕ
verdict b = if b then 0x40000 else 0

port_lem :
    (packet : List ℕ) (port x : ℕ)
    → run 4 (drop 6 code_tcp) packet port x ≡ some (verdict (leb 100 port && leb port 200))
unfolding run exec
port_lem packet port x = elim (Bool-cases (leb 100 port)) [
  | inl low ↦ elim (Bool-cases (leb port 200)) [
    | inl high ↦ let e : ltb 200 port ≡ false = ground arith in rw (low, high, e, run) refl
    | inr above ↦ let e : ltb 200 port ≡ true = ground arith in rw (low, above, e, run) refl
  ]
  | inr below ↦ rw (below, run) refl
]

-- From the load of the header's length on.
header_lem :
    (packet : List ℕ) (a : ℕ)
    → run 6 (drop 4 code_tcp) packet a 0 ≡ some (verdict (port_within packet))
unfolding run exec
header_lem packet a = elim (Option-cases (get_elem? packet 0)) [
  | inl e ↦ rw (e, run) refl
  | inr (b, e) ↦ rw (e, run) (after b)
]
  where
    after :
        (b : ℕ)
        → run 5 (drop 5 code_tcp) packet a (4 * bit_and b 0xf)
          ≡ some (
              verdict
                (holds (load_half packet (4 * (b % 16) + 2)) λ port. leb 100 port && leb port 200))
    after b =
        let m : bit_and b 0xf ≡ b % 16 = bit_and_mask 4 b in
        rw (m, run)
          (elim (Option-cases (load_half packet (4 * (b % 16) + 2))) [
            | inl e ↦ rw (e, run) refl
            | inr (port, e) ↦ rw (e, run) (port_lem packet port (4 * (b % 16)))
          ])

-- From the load of the fragment offset on.
fragment_lem :
    (packet : List ℕ) (a : ℕ)
    → run 8 (drop 2 code_tcp) packet a 0
      ≡ some (verdict (holds (load_half packet 6) (λ f. f % 2 ^ 13 == 0) && port_within packet))
unfolding run exec
fragment_lem packet a = elim (Option-cases (load_half packet 6)) [
  | inl e ↦ rw (e, run) refl
  | inr (f, e) ↦ rw (e, run) (after f)
]
  where
    after :
        (f : ℕ)
        → run 7 (drop 3 code_tcp) packet f 0
          ≡ some (verdict ((f % 2 ^ 13 == 0) && port_within packet))
    after f =
        let m : bit_and f 0x1fff ≡ f % 2 ^ 13 = bit_and_mask 13 f in
        rw (m, run)
          (elim (Bool-cases (f % 2 ^ 13 == 0)) [
            | inl z ↦ rw (z, run) (header_lem packet f)
            | inr nz ↦ rw (nz, run) refl
          ])

-- For any packet the filter ends: it lets a packet through, up to 262144 bytes of it, if it is a TCP packet,
-- not a later fragment of one, to a port from 100 to 200 and has the bytes that say so, and drops any other.
pub filter_lem : (packet : List ℕ) → filter packet ≡ some (if passes packet then 262144 else 0)
unfolding filter run exec
filter_lem packet = elim (Option-cases (get_elem? packet 9)) [
  | inl e ↦ rw (e, run) refl
  | inr (protocol, e) ↦
      rw (e, run)
        (elim (Bool-cases (protocol == 6)) [
          | inl tcp ↦ rw (tcp, run) (fragment_lem packet protocol)
          | inr other ↦ rw (other, run) refl
        ])
]
