-- ===== src/Bond/Lcore/Stops.antt =====
-- The packet loop of dpdk-examples/bond-kni/main-bond-kni.c ends once it is told to.
use gittest.Prelude.{
  ℕ, suc, ◌+◌, ◌%◌, ◌^◌, ◌≡◌, ◌≤◌, ◌<◌, ◌⊎◌, refl, false, some, List, [], ◌∷◌, ◌==◌, length, arith,
  Bool-cases, inl, inr,
}
use native.Mathlib.Decide.{dec_lt}
use gittest.Bond.Frame.{Mac}
use gittest.Bond.Flags.{Flags, trylock, unlock}
use gittest.Bond.Lcore.{
  Mbuf, Core, Others, interfere, count, on_arp, on_ipv4, process, process_all, Round, receive,
  serve, round, Outcome, returned, lcore_loop, LcoreArg, entered, lcore_main,
}

count-accesses : (others : Others) (k : ℕ) (c : Core) → (count others k c).accesses ≡ suc c.accesses
unfolding count
count-accesses others k c = ground arith

process-accesses :
    (others : Others) (mac : Mac) (m : Mbuf) (c : Core)
    → c.accesses ≤ (process others mac m c).accesses
unfolding process on_arp on_ipv4
process-accesses others mac m c = ground (
  arith,
  count-accesses others 0 c,
  count-accesses others 1 (count others 0 c),
  count-accesses others 2 (count others 0 c),
)

process_all-accesses :
    (others : Others) (mac : Mac) (ms : List Mbuf) (c : Core)
    → c.accesses ≤ (process_all others mac ms c).accesses
unfolding process_all
process_all-accesses others mac [] c = omega arith
process_all-accesses others mac (m ∷ ms) c = omega (
  arith,
  process-accesses others mac m c,
  process_all-accesses others mac ms (process others mac m c),
)

-- The address of the port was known in every round.
abbrev pub HasAddress : List Round → Type 0
HasAddress [] = Unit
HasAddress (r ∷ rs) = ((mac : Mac) × (r.bond_mac_addr ≡ some mac)) × HasAddress rs

-- The access `t` clears the flag, and no later one sets it again.
abbrev pub ClearedAt : ℕ → Others → Type 0
ClearedAt t others =
    ((g : Flags) → (others t g).lcore_main_is_running ≡ 0)
    × ((n : ℕ) (g : Flags)
        → t < n
        → g.lcore_main_is_running ≡ 0
        → (others n g).lcore_main_is_running ≡ 0)

module _ (others : Others) (t : ℕ) (off : ClearedAt t others) where
  -- Behind the access `t` the flag is clear.
  abbrev Stays : Core → Type 0
  Stays c = t < c.accesses → c.flags.lcore_main_is_running ≡ 0

  interfere-Stays : (c : Core) → Stays c → Stays (interfere others c)
  interfere-Stays c h lt = elim (dec_lt t c.accesses) [
    | yes p ↦ off.1 c.accesses c.flags p (h p)
    | no p ↦ let e : c.accesses ≡ t = omega arith in rw e (off.0 c.flags)
  ]

  abbrev Same : Core → Core → Type 0
  Same c c' =
      (c'.accesses ≡ c.accesses) × (c'.flags.lcore_main_is_running ≡ c.flags.lcore_main_is_running)

  Same-Stays : (c c' : Core) → Same c c' → Stays c → Stays c'
  Same-Stays c c' (e, f) h = rw (e, f) h

  count-Same : (k : ℕ) (c : Core) → Same (interfere others c) (count others k c)
  unfolding count
  count-Same k c = ground arith

  count-Stays : (k : ℕ) (c : Core) → Stays c → Stays (count others k c)
  count-Stays k c h =
      Same-Stays (interfere others c) (count others k c) (count-Same k c) (interfere-Stays c h)

  process-Same :
      (mac : Mac) (m : Mbuf) (c : Core)
      → let c0 = count others 0 c in
        Same c0 (process others mac m c)
        ⊎ Same (count others 1 c0) (process others mac m c)
        ⊎ Same (count others 2 c0) (process others mac m c)
  unfolding process on_arp on_ipv4
  process-Same mac m c = ground arith

  process-Stays : (mac : Mac) (m : Mbuf) (c : Core) → Stays c → Stays (process others mac m c)
  process-Stays mac m c h =
      let c0 = count others 0 c in
      let h0 = count-Stays 0 c h in
      let c' = process others mac m c in
      elim (process-Same mac m c) [
        | inl e ↦ Same-Stays c0 c' e h0
        | inr (inl e) ↦ Same-Stays (count others 1 c0) c' e (count-Stays 1 c0 h0)
        | inr (inr e) ↦ Same-Stays (count others 2 c0) c' e (count-Stays 2 c0 h0)
      ]

  process_all-Stays :
      (mac : Mac) (ms : List Mbuf) (c : Core) → Stays c → Stays (process_all others mac ms c)
  unfolding process_all
  process_all-Stays mac [] c h = h
  process_all-Stays mac (m ∷ ms) c h =
      process_all-Stays mac ms (process others mac m c) (process-Stays mac m c h)

  round_ends :
      (r : Round) (c : Core) (mac : Mac)
      → r.bond_mac_addr ≡ some mac
      → Stays c
      → (c' : Core) × (round others r c ≡ some c') × (c.accesses ≤ c'.accesses) × Stays c'
  unfolding round serve
  round_ends r c mac e h = elim (Bool-cases (length r.received == 0)) [
    | inl idle ↦ (receive r c, rw idle refl, omega arith, h)
    | inr busy ↦
        let done = process_all others mac r.received (receive r c) in
        let after = record done { i = length r.received } in
        (
          serve others mac r (receive r c),
          rw (busy, e) refl,
          omega (arith, process_all-accesses others mac r.received (receive r c)),
          Same-Stays (interfere others after) (serve others mac r (receive r c))
              (refl, ground arith)
              (interfere-Stays after (process_all-Stays mac r.received (receive r c) h)),
        )
  ]

  abbrev Returns : Outcome → Type 0
  Returns o = (c : Core) × (o ≡ returned c) × (c.flags.locked ≡ false)

  loop_ends :
      (rs : List Round) (c : Core)
      → HasAddress rs
      → t ≤ c.accesses + length rs
      → Stays c
      → Returns (lcore_loop others rs c)
  unfolding lcore_loop
  loop_ends [] c known le h =
      let c1 = interfere others c in
      (record c1 { flags = unlock c1.flags }, rw (interfere-Stays c h (omega arith)) refl, refl)
  loop_ends (r ∷ rs) c ((mac, e), known) le h =
      let c1 = interfere others c in
      let free_again = record c1 { flags = unlock c1.flags } in
      elim (Bool-cases (c1.flags.lcore_main_is_running == 0)) [
        | inl stop ↦ (free_again, rw stop refl, refl)
        | inr go ↦
            let (c', next, later, h') = round_ends r free_again mac e (interfere-Stays c h) in
            let (end, ends, unlocked) = loop_ends rs c' known (omega arith) h' in
            (end, rw (go, next) ends, unlocked)
      ]

  -- If one of the other threads clears LcoreMainIsRunning before the access number `t` of a packet loop to
  -- the flags, and none sets it again, and the address of the port can be read: then `lcore_main` returns
  -- within `t` rounds, whatever it receives and whatever else happens to the flags, and leaves the lock
  -- free.
  pub lcore_main_ends :
      (arg : LcoreArg) (core_id : ℕ) (rounds : ℕ → List Round) (g : Flags)
      → ((q : ℕ) → HasAddress (rounds q))
      → ((q : ℕ) → t ≤ length (rounds q))
      → (c : Core) × (lcore_main others (some arg) core_id rounds g ≡ returned c)
        × (c.flags.locked ≡ false)
  unfolding lcore_main
  lcore_main_ends arg core_id rounds g known enough =
      let q = arg.ring_id core_id % 2 ^ 16 in
      let c0 = entered g in
      let c = interfere others c0 in
      let c1 = record c { flags = (trylock c.flags).1 } in
      loop_ends (rounds q) c1 (known q) (omega (arith, enough q))
        (Same-Stays c c1 (refl, ground arith) (interfere-Stays c0 (λ lt. absurd (omega arith))))
