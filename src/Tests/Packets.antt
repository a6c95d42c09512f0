-- ===== src/Tests/Packets.antt =====
-- The filter of bpf/bpf_demo.cpp on a packet with a header of 20 bytes, to the port 150.
use gittest.Prelude.{
  ℕ, ◌≤◌, ◌≡◌, some, List, [], ◌∷◌, ◌++◌, arith, take, drop, map, length, replicate,
}
use gittest.Bpf.{filter, byte, newline, tcp_port, dest, round}
use gittest.Bpf.Accepts.{filter_lem}
use gittest.Bpf.Shown.{round_lem}

abbrev packet : List ℕ
packet =
    0x45 ∷ 0 ∷ 0 ∷ 24 ∷ 0 ∷ 0 ∷ 0x40 ∷ 0 ∷ 64 ∷ 6 ∷ 0 ∷ 0 ∷ 10 ∷ 0 ∷ 0 ∷ 1 ∷ 10 ∷ 0 ∷ 0 ∷ 2 ∷ 4 ∷ 0
    ∷ 0 ∷ 150 ∷ []

filter_lem_example : filter packet ≡ some 262144
filter_lem_example = filter_lem packet

round_lem_example :
    let received = take 2000 packet in
    (port : ℕ) × (round packet (replicate 30 0)
      ≡ some (
        map byte received ++ newline ∷ tcp_port port ∷ [],
        received ++ drop (length received) (replicate 30 0),
      ))
    × (dest packet ≡ some port)
    × (100 ≤ port)
    × (port ≤ 200)
round_lem_example =
    round_lem packet (replicate 30 0) 262144 (filter_lem packet) (λ e. omega (arith, e))
