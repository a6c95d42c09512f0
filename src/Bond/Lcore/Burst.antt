-- ===== src/Bond/Lcore/Burst.antt =====
-- What the packet loop of dpdk-examples/bond-kni/main-bond-kni.c sends and frees of a burst.
use mathlib.Core.List.{append-nil, append_assoc}
use gittest.Prelude.{ℕ, ◌≡◌, ◌∙◌, refl, true, false, List, [], ◌∷◌, ◌++◌, map, arith, ap, sym}
use gittest.Bond.Frame.{Packet, Mac, answer_ipv4}
use gittest.Bond.Lcore.{Mbuf, transmit, free, Core, Others, process, process_all}
use gittest.Bond.Frame.Tags.{vlan_end}
use gittest.Bond.Lcore.OnePacket.{
  asks, calls, answers, Answered, answers-Answered, sent, freed, reply_events, flag_after,
  process-is_free, release, process-events, sent_one, process-sent, process-freed,
}

process_all-answers :
    (others : Others) (mac : Mac) (ms : List Mbuf) (c : Core)
    → sent (process_all others mac ms c).events ≡ sent c.events ++ answers mac ms
unfolding process_all answers
process_all-answers others mac [] c = sym (append-nil (sent c.events))
process_all-answers others mac (m ∷ ms) c =
    process_all-answers others mac ms (process others mac m c)
    ∙ ap (λ l. l ++ answers mac ms) (process-sent others mac m c)
    ∙ append_assoc (sent c.events) (sent (reply_events mac m)) (answers mac ms)
    ∙ ap (λ l. sent c.events ++ l) (sent_one mac m ms)

-- Whatever the other threads do to the flags: for a burst, the loop sends one frame for each ARP request for
-- its address and for each IPv4 packet to it, in the order in which they came, and none for any other frame.
-- Requests and packets are told by their bytes behind no, one or two VLAN headers. Each answer goes to the
-- sender's addresses and comes from the own MAC address and 10.0.120.17; to a request it has the operation
-- of a reply; its other bytes are those received.
pub process_all_sends :
    (others : Others) (mac : Mac) (ms : List Mbuf) (c : Core)
    → (qs : List Packet) × (sent (process_all others mac ms c).events ≡ sent c.events ++ qs)
      × Answered mac ms qs
process_all_sends others mac ms c =
    (answers mac ms, process_all-answers others mac ms c, answers-Answered mac ms)

abbrev pub addresses : List Mbuf → List ℕ
addresses ms = map (λ (m : Mbuf). m.address) ms

-- No frame is an ARP request for the own address.
abbrev pub NoneAsks : List Mbuf → Type 0
NoneAsks [] = Unit
NoneAsks (m ∷ ms) = (asks m.frame ≡ false) × NoneAsks ms

-- Before the first request, each buffer is freed.
module _ (others : Others) (mac : Mac) where
  frees_all :
      (ms : List Mbuf) (c : Core)
      → NoneAsks ms
      → c.is_free ≡ 0
      → (freed (process_all others mac ms c).events ≡ freed c.events ++ addresses ms)
        × ((process_all others mac ms c).is_free ≡ 0)
  unfolding process_all
  frees_all [] c q z = (sym (append-nil (freed c.events)), z)
  frees_all (m ∷ ms) c (q, qs) z =
      let keeps : flag_after m.frame c.is_free ≡ 0 = rw q z in
      let now : freed (process others mac m c).events ≡ freed c.events ++ m.address ∷ [] =
        rw keeps at (process-freed others mac m c) in
      let (all, zero_after) =
        frees_all ms (process others mac m c) qs (process-is_free others mac m c ∙ keeps) in
      (
        all
            ∙ ap (λ l. l ++ addresses ms) now
            ∙ append_assoc (freed c.events) (m.address ∷ []) (addresses ms),
        zero_after,
      )

  frees_none :
      (ms : List Mbuf) (c : Core)
      → c.is_free ≡ 1
      → freed (process_all others mac ms c).events ≡ freed c.events
  unfolding process_all
  frees_none [] c z = refl
  frees_none (m ∷ ms) c z =
      let keeps : flag_after m.frame c.is_free ≡ 1 = rw z (ground arith) in
      let now : freed (process others mac m c).events ≡ freed c.events ++ [] =
        rw keeps at (process-freed others mac m c) in
      frees_none ms (process others mac m c) (process-is_free others mac m c ∙ keeps)
      ∙ now
      ∙ append-nil (freed c.events)

  process_all-append :
      (ms ns : List Mbuf) (c : Core)
      → process_all others mac (ms ++ ns) c
        ≡ process_all others mac ns (process_all others mac ms c)
  unfolding process_all
  process_all-append [] ns c = refl
  process_all-append (m ∷ ms) ns c = process_all-append ms ns (process others mac m c)

  leaks :
      (before : List Mbuf) (m : Mbuf) (behind : List Mbuf) (c : Core)
      → NoneAsks before
      → c.is_free ≡ 0
      → asks m.frame ≡ true
      → freed (process_all others mac (before ++ m ∷ behind) c).events
        ≡ freed c.events ++ addresses before
  unfolding process_all
  leaks before m behind c q z is =
      let (all, z') = frees_all before c q z in
      let c' = process_all others mac before c in
      let raised : flag_after m.frame c'.is_free ≡ 1 = rw is refl in
      let now : freed (process others mac m c').events ≡ freed c'.events ++ [] =
        rw raised at (process-freed others mac m c') in
      ap (λ (t : Core). freed t.events) (process_all-append before (m ∷ behind) c)
      ∙ frees_none behind (process others mac m c') (process-is_free others mac m c' ∙ raised)
      ∙ now
      ∙ append-nil (freed c'.events)
      ∙ all

  -- In a burst without an ARP request for the own address, each buffer is freed exactly once, in order. With
  -- such a request, the buffers before the first one are freed, and none of those behind it, whatever
  -- they hold.
  pub process_all_frees :
      (before : List Mbuf) (c : Core)
      → NoneAsks before
      → c.is_free ≡ 0
      → (freed (process_all others mac before c).events ≡ freed c.events ++ addresses before)
        × ((m : Mbuf) (behind : List Mbuf)
            → asks m.frame ≡ true
            → freed (process_all others mac (before ++ m ∷ behind) c).events
              ≡ freed c.events ++ addresses before)
  process_all_frees before c q z =
      ((frees_all before c q z).0, λ m behind is. leaks before m behind c q z is)

  -- An IPv4 packet to the own address, before the first such ARP request of its burst: the buffer is handed
  -- to the port with the answer, and then freed as well.
  pub process_frees_sent :
      (m : Mbuf) (c : Core)
      → calls m.frame ≡ true
      → c.is_free ≡ 0
      → (process others mac m c).events
        ≡ c.events
          ++ transmit m.address (answer_ipv4 mac m.frame (vlan_end m.frame)) ∷ free m.address ∷ []
  unfolding release
  process_frees_sent m c h z =
      process-events others mac m c
      ∙ ground (arith, append_assoc c.events (reply_events mac m) (release m 0))
