-- ===== src/Bond/Commands/Protocol.antt =====
-- The commands of dpdk-examples/bond-kni/cmd.c one after the other: when they start the packet loops and
-- when they wait for their end.
use gittest.Prelude.{
  ℕ, zero, suc, ◌≡◌, ◌∙◌, refl, sym, Bool, true, false, ◌&&◌, not, Option, none, some, List, [],
  ◌∷◌, ◌++◌, ◌==◌, leb, if◌then◌else◌, arith, Bool-cases, Option-cases, ◌||◌, inl, inr,
}
use gittest.Bond.Frame.{Mac, Packet, assign}
use gittest.Bond.Lcore.{Mbuf, LcoreArg}
use gittest.Bond.Lcore.Counts.{alone}
use gittest.Bond.Commands.{
  Ipv4, Eal, Message, already_running, starting, not_running, cannot_stop, stopped, no_address,
  newline, address_of, counters, port_stats, no_mbuf, wrong_format, help_text, address_or,
  tell_failure, send_request, request_assignments, Effect, print, launch, wait, send_frame,
  end_prompt, Command, Session, tell, release, lock, access, set_running, start_next,
  cmd_start_parsed, cmd_help_parsed, stop_running, cmd_stop_parsed, cmd_quit_parsed, show_addresses,
  show_stats, cmd_show_parsed, tell_unless, cmd_obj_send_parsed, run_command, run_commands,
  is_negative,
}

-- Whether the loops run, from what was done before and an effect.
abbrev pub runs_after : Bool → Effect → Bool
runs_after b (print m) = b
runs_after b (launch core arg) = true
runs_after b (wait core) = false
runs_after b (send_frame n p) = b
runs_after b end_prompt = b

-- The loops are started only where they do not run, and waited for only where they do.
abbrev pub allowed : Bool → Effect → Bool
allowed b (print m) = true
allowed b (launch core arg) = not b
allowed b (wait core) = b
allowed b (send_frame n p) = true
allowed b end_prompt = true

unfoldable pub runs_at_end : Bool → List Effect → Bool
runs_at_end b [] = b
runs_at_end b (e ∷ es) = runs_at_end (runs_after b e) es

unfoldable pub alternate : Bool → List Effect → Bool
unfolding runs_at_end
alternate b [] = true
alternate b (e ∷ es) = allowed b e && alternate (runs_after b e) es

runs_at_end-snoc :
    (b : Bool) (es : List Effect) (e : Effect)
    → runs_at_end b (es ++ e ∷ []) ≡ runs_after (runs_at_end b es) e
unfolding runs_at_end
runs_at_end-snoc b [] e = refl
runs_at_end-snoc b (d ∷ es) e = runs_at_end-snoc (runs_after b d) es e

alternate-snoc :
    (b : Bool) (es : List Effect) (e : Effect)
    → alternate b es ≡ true
    → allowed (runs_at_end b es) e ≡ true
    → alternate b (es ++ e ∷ []) ≡ true
unfolding alternate runs_at_end
alternate-snoc b [] e h k = rw k refl
alternate-snoc b (d ∷ es) e h k = elim (Bool-cases (allowed b d)) [
  | inl ok ↦ rw ok (alternate-snoc (runs_after b d) es e (rw ok at h) k)
  | inr bad ↦ ground arith
]

-- What the effects say agrees with the flag.
pub record Agrees (b : Bool) (s : Session) : Type 0 where
  pub alternates : alternate b s.effects ≡ true
  pub flag : s.flags.lcore_main_is_running ≡ (if runs_at_end b s.effects then 1 else 0)

module _ (b : Bool) where
  print-Agrees : (s : Session) (m : Message) → Agrees b s → Agrees b (tell (print m) s)
  print-Agrees s m a = record {
    alternates = alternate-snoc b s.effects (print m) a.alternates refl;
    flag = rw (runs_at_end-snoc b s.effects (print m)) a.flag;
  }

  send-Agrees : (s : Session) (n : ℕ) (p : Packet) → Agrees b s → Agrees b (tell (send_frame n p) s)
  send-Agrees s n p a = record {
    alternates = alternate-snoc b s.effects (send_frame n p) a.alternates refl;
    flag = rw (runs_at_end-snoc b s.effects (send_frame n p)) a.flag;
  }

  end-Agrees : (s : Session) → Agrees b s → Agrees b (tell end_prompt s)
  end-Agrees s a = record {
    alternates = alternate-snoc b s.effects end_prompt a.alternates refl;
    flag = rw (runs_at_end-snoc b s.effects end_prompt) a.flag;
  }

  same-Agrees :
      (s t : Session)
      → t.effects ≡ s.effects
      → t.flags.lcore_main_is_running ≡ s.flags.lcore_main_is_running
      → Agrees b s
      → Agrees b t
  same-Agrees s t e f a = record { alternates = rw e a.alternates; flag = rw (e, f) a.flag }

  -- What the flag says about the effects.
  stopped_before :
      (s : Session)
      → Agrees b s
      → (s.flags.lcore_main_is_running == 0) ≡ not (runs_at_end b s.effects)
  stopped_before s a = rw a.flag (ground arith)

  launch-Agrees :
      (s t : Session) (core : ℕ) (arg : Option LcoreArg)
      → Agrees b s
      → (s.flags.lcore_main_is_running == 0) ≡ true
      → t.effects ≡ s.effects
      → t.flags.lcore_main_is_running ≡ 1
      → Agrees b (tell (launch core arg) t)
  launch-Agrees s t core arg a idle e f =
      let off : not (runs_at_end b s.effects) ≡ true = sym (stopped_before s a) ∙ idle in
      record {
        alternates = rw e (alternate-snoc b s.effects (launch core arg) a.alternates off);
        flag = rw (e, runs_at_end-snoc b s.effects (launch core arg)) f;
      }

  wait-Agrees :
      (s t : Session) (core : ℕ)
      → Agrees b s
      → (s.flags.lcore_main_is_running == 0) ≡ false
      → t.effects ≡ s.effects
      → t.flags.lcore_main_is_running ≡ 0
      → Agrees b (tell (wait core) t)
  wait-Agrees s t core a busy e f =
      let on : runs_at_end b s.effects ≡ true = ground (arith, stopped_before s a) in
      record {
        alternates = rw e (alternate-snoc b s.effects (wait core) a.alternates on);
        flag = rw (e, runs_at_end-snoc b s.effects (wait core)) f;
      }

  module _ (eal : Eal) where
    started :
        (s : Session)
        → Agrees b s
        → (s.flags.lcore_main_is_running == 0) ≡ true
        → Agrees b (start_next alone eal s)
    unfolding start_next
    started s a idle =
        let core = eal.next_lcore eal.lcore_id in
        let s1 = release alone (set_running alone 1 (lock alone s)) in
        elim (Bool-cases (leb 128 core || core == 0)) [
          | inl bad ↦ rw bad a
          | inr ok ↦ rw ok (
              print-Agrees (tell (launch core none) s1) (starting core (eal.remote_launch core))
                (launch-Agrees s s1 core none a idle refl refl))
        ]

    start-Agrees : (s : Session) → Agrees b s → Agrees b (cmd_start_parsed alone eal s)
    unfolding cmd_start_parsed
    start-Agrees s a =
        let s2 = access alone (access alone (lock alone s)) in
        let s3 = release alone s2 in
        elim (Bool-cases (s.flags.lcore_main_is_running == 0)) [
          | inr busy ↦ rw busy (
              same-Agrees _ _ refl refl (
                print-Agrees s2 (already_running s.flags.lcore_main_core)
                  (same-Agrees s s2 refl refl a)))
          | inl idle ↦ elim (Bool-cases (eal.is_waiting s.flags.lcore_main_core)) [
            | inl w ↦ rw (idle, w) (started s3 (same-Agrees s s3 refl refl a) idle)
            | inr w ↦ rw (idle, w) (same-Agrees s s3 refl refl a)
          ]
        ]

    stop-Agrees : (s : Session) → Agrees b s → Agrees b (stop_running alone eal s)
    unfolding stop_running
    stop-Agrees s a =
        let s1 = access alone (lock alone s) in
        let s2 = access alone s1 in
        let s3 = access alone (set_running alone 0 s1) in
        let core = s.flags.lcore_main_core in
        let s4 = access alone (tell (wait core) s3) in
        elim (Bool-cases (s.flags.lcore_main_is_running == 0)) [
          | inl idle ↦ rw idle (
              same-Agrees _ _ refl refl
                (print-Agrees s2 (not_running core) (same-Agrees s s2 refl refl a)))
          | inr busy ↦
              let waited =
                same-Agrees (tell (wait core) s3) s4 refl refl
                  (wait-Agrees s s3 core a busy refl refl) in
              elim (Bool-cases (is_negative (eal.wait_lcore core))) [
                | inl bad ↦
                    rw (busy, bad)
                      (same-Agrees _ _ refl refl (print-Agrees s4 (cannot_stop core) waited))
                | inr ok ↦
                    rw (busy, ok)
                      (same-Agrees _ _ refl refl (print-Agrees s4 (stopped core) waited))
              ]
        ]

    addresses-Agrees :
        (n i : ℕ) (s : Session) → Agrees b s → Agrees b (show_addresses alone eal n i s)
    unfolding show_addresses
    addresses-Agrees zero i s a = a
    addresses-Agrees (suc n) i s a = elim (Option-cases (eal.macaddr i)) [
      | inl fails ↦ rw fails (addresses-Agrees n (suc i) _ (print-Agrees s (no_address i) a))
      | inr (mac, e) ↦ rw e (
          addresses-Agrees n (suc i) _ (
            print-Agrees (tell (print (address_of mac)) s) newline
              (print-Agrees s (address_of mac) a)))
    ]

    stats-Agrees : (n i : ℕ) (s : Session) → Agrees b s → Agrees b (show_stats alone eal n i s)
    unfolding show_stats
    stats-Agrees zero i s a = a
    stats-Agrees (suc n) i s a =
        stats-Agrees n (suc i) _ (print-Agrees s (port_stats i (eal.ipackets i) (eal.opackets i)) a)

    show-Agrees : (s : Session) → Agrees b s → Agrees b (cmd_show_parsed alone eal s)
    unfolding cmd_show_parsed
    show-Agrees s a =
        let s0 = show_addresses alone eal eal.slaves_count 0 s in
        let s1 = access alone (lock alone s0) in
        let m =
          counters eal.active_slaves (s1.flags.port_packets 0) (s1.flags.port_packets 1)
            (s1.flags.port_packets 2) in
        let s2 = show_stats alone eal eal.slaves_count 0 (tell (print m) s1) in
        same-Agrees s2 (release alone s2) refl refl (
          stats-Agrees eal.slaves_count 0 (tell (print m) s1) (
            print-Agrees s1 m
              (same-Agrees s0 s1 refl refl (addresses-Agrees eal.slaves_count 0 s a))))

    unless-Agrees :
        (v : Bool) (m : Message) (s : Session) → Agrees b s → Agrees b (tell_unless v m s)
    unless-Agrees true m s a = a
    unless-Agrees false m s a = print-Agrees s m a

    failure-Agrees :
        (port : ℕ) (o : Option Mac) (s : Session) → Agrees b s → Agrees b (tell_failure port o s)
    failure-Agrees port none s a = print-Agrees s (no_address port) a
    failure-Agrees port (some mac) s a = a

    request-Agrees :
        (mac : Mac) (ip : Ipv4) (o : Option Mbuf) (s : Session)
        → Agrees b s
        → Agrees b (send_request mac ip o s)
    unfolding send_request
    request-Agrees mac ip none s a = print-Agrees s no_mbuf a
    request-Agrees mac ip (some m) s a =
        print-Agrees _ newline (send-Agrees s 42 (assign m.frame (request_assignments mac ip)) a)

    run-Agrees :
        (stack : Mac) (c : Command) (s : Session)
        → Agrees b s
        → Agrees b (run_command alone eal stack c s)
    unfolding run_command cmd_help_parsed cmd_stop_parsed cmd_quit_parsed cmd_obj_send_parsed
    run-Agrees stack Command.start s a = start-Agrees s a
    run-Agrees stack (Command.send v ip) s a =
        let o = eal.macaddr eal.bond_port in
        request-Agrees (address_or stack o) ip eal.pktmbuf_alloc _
          (failure-Agrees eal.bond_port o _ (unless-Agrees v wrong_format s a))
    run-Agrees stack Command.stop s a = stop-Agrees s a
    run-Agrees stack Command.show s a = show-Agrees s a
    run-Agrees stack Command.quit s a = end-Agrees (stop_running alone eal s) (stop-Agrees s a)
    run-Agrees stack Command.help s a = print-Agrees s help_text a

    -- Whatever commands are typed, one after the other and with no other thread at the flags, from a state
    -- where the flag says whether the loops run: `lcore_main` is started only where the loops do not
    -- run, the end of a core is waited for only where they do, and after the last command the flag is 1
    -- exactly if the last start or wait was a start, else 0.
    pub run_commands-Agrees :
        (stack : Mac) (cs : List Command) (s : Session)
        → Agrees b s
        → Agrees b (run_commands alone eal stack cs s)
    unfolding run_commands
    run_commands-Agrees stack [] s a = a
    run_commands-Agrees stack (c ∷ cs) s a =
        run_commands-Agrees stack cs (run_command alone eal stack c s) (run-Agrees stack c s a)
