-- ===== src/Bond/Commands/Request.antt =====
-- The ARP request that `cmd_obj_send_parsed` of dpdk-examples/bond-kni/cmd.c sends, and how the packet
-- loop of dpdk-examples/bond-kni/main-bond-kni.c takes such a request.
use gittest.Prelude.{ℕ, ◌≡◌, ◌<◌, List, [], ◌∷◌, ◌++◌, replicate}
use gittest.Bond.Frame.{Mac, addr_bytes}
use gittest.Bond.Commands.{Ipv4}

abbrev pub IsIpv4 : Ipv4 → Type 0
IsIpv4 ip = (ip.byte0 < 256) × (ip.byte1 < 256) × (ip.byte2 < 256) × (ip.byte3 < 256)

abbrev pub ipv4_bytes : Ipv4 → List ℕ
ipv4_bytes ip = ip.byte0 ∷ ip.byte1 ∷ ip.byte2 ∷ ip.byte3 ∷ []

-- A request as the standard has it: to everyone, from the hardware address `mac` and 10.0.120.17, for `ip`.
abbrev pub arp_request : Mac → Ipv4 → List ℕ
arp_request mac ip =
    replicate 6 0xff
    ++ (addr_bytes mac
        ++ (0x08 ∷ 0x06 ∷ 0 ∷ 1 ∷ 0x08 ∷ 0 ∷ 6 ∷ 4 ∷ 0 ∷ 1 ∷ [])
        ++ addr_bytes mac
        ++ (10 ∷ 0 ∷ 120 ∷ 17 ∷ [])
        ++ replicate 6 0
        ++ ipv4_bytes ip)

abbrev pub IsOwn : Ipv4 → Type 0
IsOwn ip = (ip.byte0 ≡ 10) × (ip.byte1 ≡ 0) × (ip.byte2 ≡ 120) × (ip.byte3 ≡ 17)
