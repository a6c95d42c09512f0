-- ===== src/Bond/Lcore/OnePacket.antt =====
-- What the packet loop of dpdk-examples/bond-kni/main-bond-kni.c does with one packet.
use mathlib.Core.List.{append-nil}
use gittest.Prelude.{
  ℕ, ◌+◌, ◌≡◌, refl, Bool, true, false, Bool-cases, inl, inr, ◌&&◌, List, [], ◌∷◌, ◌++◌, ◌==◌,
  if◌then◌else◌, arith, ap,
}
use gittest.Bond.Frame.{Packet, Mac, load16, load32, answer_arp, answer_ipv4}
use gittest.Bond.Frame.Tags.{vlan_end, inner_type, vlan_end-IsOffset, get_vlan_offset_lem}
use gittest.Bond.Frame.Reply.{IsArpAnswer, IsIpv4Answer, arp_answered, ipv4_answered}
use gittest.Bond.Lcore.{
  Mbuf, Event, transmit, transmit_none, free, Core, Others, count, on_arp, on_ipv4, process,
}

-- An ARP request for 10.0.120.17, in the byte order of the wire.
abbrev pub asks : Packet → Bool
asks p =
    inner_type p == 0x0608
    && load32 p (38 + vlan_end p) == 0x1178000a
    && load16 p (20 + vlan_end p) == 0x0100

-- An IPv4 packet to 10.0.120.17.
abbrev pub calls : Packet → Bool
calls p = inner_type p == 0x0008 && load32 p (30 + vlan_end p) == 0x1178000a

-- The frames that the code sends for a burst.
unfoldable pub answers : Mac → List Mbuf → List Packet
answers mac [] = []
answers mac (m ∷ ms) =
    let rest = answers mac ms in
    if asks m.frame
    then answer_arp mac m.frame (vlan_end m.frame) ∷ rest
    else (if calls m.frame then answer_ipv4 mac m.frame (vlan_end m.frame) ∷ rest else rest)

-- The frames that a burst is to be answered with: one for each request and each IPv4 packet to the own
-- address, as its bytes are to be, and none for any other frame.
pub data Answered (mac : Mac) : List Mbuf → List Packet → Type 0 where
  all_answered : Answered mac [] []
  to_arp :
      {m : Mbuf} {ms : List Mbuf} {q : Packet} {qs : List Packet}
      → asks m.frame ≡ true
      → IsArpAnswer mac m.frame (vlan_end m.frame) q
      → Answered mac ms qs
      → Answered mac (m ∷ ms) (q ∷ qs)
  to_ipv4 :
      {m : Mbuf} {ms : List Mbuf} {q : Packet} {qs : List Packet}
      → calls m.frame ≡ true
      → IsIpv4Answer mac m.frame (vlan_end m.frame) q
      → Answered mac ms qs
      → Answered mac (m ∷ ms) (q ∷ qs)
  unanswered :
      {m : Mbuf} {ms : List Mbuf} {qs : List Packet}
      → asks m.frame ≡ false
      → calls m.frame ≡ false
      → Answered mac ms qs
      → Answered mac (m ∷ ms) qs

pub answers-Answered : (mac : Mac) (ms : List Mbuf) → Answered mac ms (answers mac ms)
unfolding answers
answers-Answered mac [] = all_answered
answers-Answered mac (m ∷ ms) =
    let rest = answers-Answered mac ms in
    let p = m.frame in
    let o = vlan_end p in
    elim (Bool-cases (asks p)) [
      | inl is ↦ rw is (to_arp is (arp_answered mac p o (vlan_end-IsOffset p)) rest)
      | inr not_asked ↦ elim (Bool-cases (calls p)) [
        | inl called ↦
            rw (not_asked, called)
              (to_ipv4 called (ipv4_answered mac p o (vlan_end-IsOffset p)) rest)
        | inr silent ↦ rw (not_asked, silent) (unanswered not_asked silent rest)
      ]
    ]

-- The frames sent, and the buffers freed, of a list of events.
abbrev pub sent : List Event → List Packet
sent [] = []
sent (transmit a p ∷ es) = p ∷ sent es
sent (transmit_none ∷ es) = sent es
sent (free a ∷ es) = sent es

abbrev pub freed : List Event → List ℕ
freed [] = []
freed (transmit a p ∷ es) = freed es
freed (transmit_none ∷ es) = freed es
freed (free a ∷ es) = a ∷ freed es

pub sent-append : (es fs : List Event) → sent (es ++ fs) ≡ sent es ++ sent fs
sent-append [] fs = refl
sent-append (transmit a p ∷ es) fs = ap (λ l. p ∷ l) (sent-append es fs)
sent-append (transmit_none ∷ es) fs = sent-append es fs
sent-append (free a ∷ es) fs = sent-append es fs

pub freed-append : (es fs : List Event) → freed (es ++ fs) ≡ freed es ++ freed fs
freed-append [] fs = refl
freed-append (transmit a p ∷ es) fs = freed-append es fs
freed-append (transmit_none ∷ es) fs = freed-append es fs
freed-append (free a ∷ es) fs = ap (λ l. a ∷ l) (freed-append es fs)

pub count-events : (others : Others) (k : ℕ) (c : Core) → (count others k c).events ≡ c.events
unfolding count
count-events others k c = ground arith

pub count-is_free : (others : Others) (k : ℕ) (c : Core) → (count others k c).is_free ≡ c.is_free
unfolding count
count-is_free others k c = ground arith

-- What is sent for one frame, and what is freed after it.
abbrev pub reply_events : Mac → Mbuf → List Event
reply_events mac m =
    let p = m.frame in
    if inner_type p == 0x0608
    then (if load32 p (38 + vlan_end p) == 0x1178000a
        then (if load16 p (20 + vlan_end p) == 0x0100
            then transmit m.address (answer_arp mac p (vlan_end p)) ∷ []
            else transmit_none ∷ [])
        else [])
    else (if calls p then transmit m.address (answer_ipv4 mac p (vlan_end p)) ∷ [] else [])

abbrev pub flag_after : Packet → ℕ → ℕ
flag_after p z = if asks p then 1 else z

pub arp_at : (o : ℕ) → 14 + o + 24 ≡ 38 + o
arp_at o = omega arith

pub process-is_free :
    (others : Others) (mac : Mac) (m : Mbuf) (c : Core)
    → (process others mac m c).is_free ≡ flag_after m.frame c.is_free
unfolding process on_arp on_ipv4
process-is_free others mac m c = rw (get_vlan_offset_lem m.frame) (
    ground (
      arith,
      count-is_free others 0 c,
      count-is_free others 1 (count others 0 c),
      count-is_free others 2 (count others 0 c),
      arp_at (vlan_end m.frame),
    ))

unfoldable pub release : Mbuf → ℕ → List Event
release m z = if z == 0 then free m.address ∷ [] else []

pub process-events :
    (others : Others) (mac : Mac) (m : Mbuf) (c : Core)
    → (process others mac m c).events
      ≡ (c.events ++ reply_events mac m) ++ release m (flag_after m.frame c.is_free)
unfolding process on_arp on_ipv4 release
process-events others mac m c = rw (get_vlan_offset_lem m.frame) (
    ground (
      arith,
      count-is_free others 0 c,
      count-is_free others 1 (count others 0 c),
      count-is_free others 2 (count others 0 c),
      count-events others 0 c,
      count-events others 1 (count others 0 c),
      count-events others 2 (count others 0 c),
      append-nil c.events,
      append-nil (c.events ++ reply_events mac m),
    ))

pub sent_one :
    (mac : Mac) (m : Mbuf) (ms : List Mbuf)
    → sent (reply_events mac m) ++ answers mac ms ≡ answers mac (m ∷ ms)
unfolding answers
sent_one mac m ms = ground arith

pub freed_one : (mac : Mac) (m : Mbuf) → freed (reply_events mac m) ≡ []
freed_one mac m = ground arith

pub process-sent :
    (others : Others) (mac : Mac) (m : Mbuf) (c : Core)
    → sent (process others mac m c).events ≡ sent c.events ++ sent (reply_events mac m)
unfolding release
process-sent others mac m c =
    rw
      (
        process-events others mac m c,
        sent-append (c.events ++ reply_events mac m) (release m (flag_after m.frame c.is_free)),
        sent-append c.events (reply_events mac m),
      )
      (ground (arith, append-nil (sent c.events ++ sent (reply_events mac m))))

pub process-freed :
    (others : Others) (mac : Mac) (m : Mbuf) (c : Core)
    → freed (process others mac m c).events
      ≡ freed c.events ++ (if flag_after m.frame c.is_free == 0 then m.address ∷ [] else [])
unfolding release
process-freed others mac m c =
    rw
      (
        process-events others mac m c,
        freed-append (c.events ++ reply_events mac m) (release m (flag_after m.frame c.is_free)),
        freed-append c.events (reply_events mac m),
        freed_one mac m,
        append-nil (freed c.events),
      )
      (ground arith)
