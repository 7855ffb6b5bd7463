-- ===== src/SendMgr/Round.antt =====
-- sendPendingAndWait against the agenda (lib/src/ToolsMsgSendMgrImpl.cpp).
use cc_tools_qt.Base.{
  ◌&&◌, ◌++◌, append-nil, append_assoc, suc, ℕ, ◌+◌, ◌≤◌, ◌<◌, ◌≡◌, ◌≢◌, refl, sym, ap, ◌∙◌, subst,
  List, [], ◌∷◌, map, Option, none, some, if◌then◌else◌, length, All, arith, inl, inr, ◌⊎◌,
}
use cc_tools_qt.Message.{Message}
use cc_tools_qt.Plugins.{Plugins}
use cc_tools_qt.SendMgr.{
  Event, sent, complete, is_nil, State, delay_of, split_due, arm_timer, report_sent,
  report_complete, send_pending_and_wait,
}
use cc_tools_qt.SendMgr.Clones.{CanClone, SentAll, resend_all-some}
use cc_tools_qt.SendMgr.Delays.{
  int_max, IsShort, IsWaiting, split_due-IsWaiting, resend_queue-IsWaiting, resend_queue-IsShort,
  split_due-IsShort,
}
use cc_tools_qt.SendMgr.Agenda.{
  Agenda, bare, schedule, due_at, requeue, agenda_round, due_at-schedule, resend_queue,
  schedule-resend_queue,
}

-- What is still to be sent, with the armed timer, at time `t`.
abbrev pub agenda : {W : Type 0} → ℕ → State W → Agenda
agenda t s = elim s.timer [
  | none ↦ schedule t s.msgs_to_send
  | some i ↦ schedule (t + i) s.msgs_to_send
]

module _ {W : Type 0} where
  -- The timer is off for an empty queue, and else runs for a positive time in range.
  abbrev pub IsTimed : State W → Type 0
  IsTimed s =
      ((s.timer ≡ none) × (s.msgs_to_send ≡ []))
      ⊎ ((i : ℕ) × (s.timer ≡ some i) × (0 < i) × (i ≤ int_max) × (s.msgs_to_send ≢ []))

  -- What a round that sends `cs` and leaves the agenda `a` reports.
  abbrev pub round_events : State W → List (Option Message) → Agenda → List Event
  round_events s cs a =
      (if is_nil cs then [] else if s.send_callback then sent cs ∷ [] else [])
      ++ (if is_nil a && s.complete_callback then complete ∷ [] else [])

module _ {W : Type 0} (p : Plugins W) (c : CanClone p) where
  -- The state after the loop, before the timer is armed.
  abbrev pub looped : State W → W → State W
  looped s w = record s {
    msgs_to_send = resend_queue (split_due s.msgs_to_send).0 (split_due s.msgs_to_send).1;
    timer = none;
    world = w;
  }

  pub send_pending_and_wait-some :
      (r : ℕ) (s : State W)
      → s.protocol ≡ some r
      → (cs : List (Option Message)) × (w : W) × (send_pending_and_wait p s
          ≡ some (report_complete (report_sent cs (arm_timer (looped s w)))))
        × (length cs ≡ length (split_due s.msgs_to_send).0)
        × SentAll p c (split_due s.msgs_to_send).0 cs
  unfolding send_pending_and_wait
  send_pending_and_wait-some r s e =
      let due = (split_due s.msgs_to_send).0 in
      let rest = (split_due s.msgs_to_send).1 in
      let (cs, w, e', n, a) = resend_all-some p c r due rest s.world in (cs, w, ground arith, n, a)

  agenda-report :
      (t : ℕ) (cs : List (Option Message)) (s : State W)
      → agenda t (report_complete (report_sent cs s)) ≡ agenda t s
  unfolding report_complete report_sent
  agenda-report t cs s = ground arith

  agenda-arm_timer :
      (t : ℕ) (s : State W) (q : List Message)
      → s.msgs_to_send ≡ q
      → s.timer ≡ none
      → All IsShort q
      → agenda t (arm_timer s) ≡ schedule t q
  unfolding arm_timer
  agenda-arm_timer t s [] e n a = ground arith
  agenda-arm_timer t s (m ∷ ms) e n a = ground arith

  armed-IsTimed :
      (cs : List (Option Message)) (s : State W) (q : List Message)
      → s.msgs_to_send ≡ q
      → s.timer ≡ none
      → IsWaiting q
      → All IsShort q
      → IsTimed (report_complete (report_sent cs (arm_timer s)))
  unfolding report_complete report_sent arm_timer
  armed-IsTimed cs s [] e n w a = inl (ground arith, ground arith)
  armed-IsTimed cs s (m ∷ ms) e n w a =
      inr (delay_of m, ground arith, w, ground (arith, a.0), ground arith)

  arm_timer-events : (s : State W) → (arm_timer s).events ≡ s.events
  unfolding arm_timer
  arm_timer-events s = ground arith

  events-report :
      (cs : List (Option Message)) (s : State W) (a : Agenda)
      → is_nil s.msgs_to_send ≡ is_nil a
      → (report_complete (report_sent cs s)).events ≡ s.events ++ round_events s cs a
  unfolding report_complete report_sent
  events-report cs s a e =
      ground (arith, append-nil s.events, append_assoc s.events (sent cs ∷ []) (complete ∷ []))

  is_nil-schedule : (t : ℕ) (q : List Message) → is_nil q ≡ is_nil (schedule t q)
  is_nil-schedule t [] = refl
  is_nil-schedule t (m ∷ ms) = refl

  arm_timer-setup :
      (s : State W)
      → (is_nil (arm_timer s).msgs_to_send ≡ is_nil s.msgs_to_send)
        × ((arm_timer s).send_callback ≡ s.send_callback)
        × ((arm_timer s).complete_callback ≡ s.complete_callback)
  unfolding arm_timer
  arm_timer-setup s = ground arith

  length-bare : (ms : List Message) → length (map bare ms) ≡ length ms
  length-bare [] = refl
  length-bare (m ∷ ms) = ap suc (length-bare ms)

  -- A round at time `t` sends as many messages as are due on the agenda, in one call of the callback,
  -- and leaves the agenda with those messages taken off and each repeating one entered again at `t`
  -- plus its duration, behind what is due no later, all other times unchanged; it reports the end
  -- when the agenda is empty then. It never uses a null pointer. This holds with a protocol that can
  -- clone every message, and for delays and durations that fit the timer's `int`.
  pub send_pending_and_wait-agenda :
      (t r : ℕ) (s : State W)
      → s.protocol ≡ some r
      → All IsShort s.msgs_to_send
      → (cs : List (Option Message)) × (s' : State W) × (send_pending_and_wait p s ≡ some s')
        × (length cs ≡ length (due_at t (schedule t s.msgs_to_send)).0)
        × (agenda t s' ≡ agenda_round t (schedule t s.msgs_to_send))
        × (s'.events ≡ s.events ++ round_events s cs (agenda t s'))
  send_pending_and_wait-agenda t r s e a =
      let due = (split_due s.msgs_to_send).0 in
      let rest = (split_due s.msgs_to_send).1 in
      let (cs, w, e', n, clones) = send_pending_and_wait-some r s e in
      let armed = arm_timer (looped s w) in
      let short = split_due-IsShort s.msgs_to_send a in
      let meaning : agenda t (report_complete (report_sent cs armed))
          ≡ schedule t (resend_queue due rest) =
        agenda-report t cs armed
        ∙ agenda-arm_timer t (looped s w) (resend_queue due rest) refl refl
            (resend_queue-IsShort due rest short.0 short.1) in
      (
        cs,
        report_complete (report_sent cs armed),
        e',
        n
            ∙ sym (length-bare due)
            ∙ ap (λ (x : List Message × Agenda). length x.0)
                (sym (due_at-schedule t s.msgs_to_send)),
        meaning
            ∙ schedule-resend_queue t due rest
            ∙ ap (λ (x : List Message × Agenda). requeue t x.0 x.1)
                (sym (due_at-schedule t s.msgs_to_send)),
        ground (
          arith,
          events-report cs armed (agenda t (report_complete (report_sent cs armed))) (
              (arm_timer-setup (looped s w)).0
              ∙ is_nil-schedule t (resend_queue due rest)
              ∙ ap is_nil (sym meaning)),
          arm_timer-events (looped s w),
          arm_timer-setup (looped s w),
        ),
      )

  -- After a round the timer is off exactly when nothing is left to send, and else it runs for a time
  -- that is positive and fits an `int`, so the `assert(0 < delay)` of the code holds. The conditions
  -- are those of the round: a protocol that can clone every message, and delays that fit.
  pub send_pending_and_wait-timer :
      (r : ℕ) (s : State W) {s' : State W}
      → s.protocol ≡ some r
      → All IsShort s.msgs_to_send
      → send_pending_and_wait p s ≡ some s'
      → IsTimed s'
  send_pending_and_wait-timer r s {s'} e a run =
      let due = (split_due s.msgs_to_send).0 in
      let rest = (split_due s.msgs_to_send).1 in
      let (cs, w, e', n, clones) = send_pending_and_wait-some r s e in
      let short = split_due-IsShort s.msgs_to_send a in
      let same : report_complete (report_sent cs (arm_timer (looped s w))) ≡ s' = cc e' in
      subst IsTimed same (
        armed-IsTimed cs (looped s w) (resend_queue due rest) refl refl
          (resend_queue-IsWaiting due rest (split_due-IsWaiting s.msgs_to_send))
          (resend_queue-IsShort due rest short.0 short.1))
