-- ===== src/SendMgr/Counting/Completion.antt =====
-- The rounds of ToolsMsgSendMgrImpl, one for each expiry of its timer, up to the end of the sending
-- (lib/src/ToolsMsgSendMgrImpl.cpp).
use cc_tools_qt.Base.{
  List-cases, inl, inr, ℕ, zero, suc, ◌+◌, ◌≤◌, ◌<◌, ◌≡◌, refl, ap, ◌∙◌, subst, Bool, true, false,
  List, [], ◌∷◌, ◌++◌, Option, none, some, length, All, arith,
}
use cc_tools_qt.Message.{Message}
use cc_tools_qt.Plugins.{Plugins}
use cc_tools_qt.SendMgr.{
  State, sent, complete, is_nil, split_due, reinserts, arm_timer, report_sent, report_complete,
  send_pending_and_wait,
}
use cc_tools_qt.SendMgr.Agenda.{resend_queue}
use cc_tools_qt.SendMgr.Clones.{CanClone}
use cc_tools_qt.SendMgr.Round.{looped, send_pending_and_wait-some}
use cc_tools_qt.SendMgr.Counting.Matching.{
  Tracks, total_of, matching, sent_of, split_due-total_of, total_of-resend_queue, SentAll-matching,
  report-sent_of,
}
use cc_tools_qt.SendMgr.Counting.{
  left, total, IsFinite, total-resend_queue, IsFinite-resend_queue, unarmed, split_due_lem,
  sent_count, sent_count-append,
}

-- The rounds that follow, as long as there is something to send; `fuel` bounds their number.
pub rounds : {W : Type 0} → Plugins W → ℕ → State W → Option (State W)
rounds p zero s = some s
rounds p (suc fuel) s = elim (is_nil s.msgs_to_send) [
  | true ↦ some s
  | false ↦ elim (send_pending_and_wait p s) [ none ↦ none | some s' ↦ rounds p fuel s' ]
]

-- What a round leaves to be done.
record Progress {W : Type 0} (r : ℕ) (due : ℕ) (q : List Message) (s t : State W) : Type 0 where
  protocol : t.protocol ≡ some r
  finite : All IsFinite t.msgs_to_send
  armed : unarmed t.msgs_to_send ≡ 0
  totals : total t.msgs_to_send ≡ total q
  callback : t.send_callback ≡ s.send_callback
  counted : s.send_callback ≡ true → sent_count t.events ≡ sent_count s.events + due

report-Progress :
    {W : Type 0} (r : ℕ) (cs : List (Option Message)) (q : List Message) (s : State W)
    → s.msgs_to_send ≡ q
    → s.protocol ≡ some r
    → All IsFinite q
    → Progress r (length cs) q s (report_complete (report_sent cs (arm_timer s)))
unfolding report_complete report_sent arm_timer reinserts
report-Progress r [] [] s e p a = ground (arith, sent_count-append s.events (complete ∷ []))
report-Progress r (x ∷ cs) [] s e p a = ground (
  arith,
  sent_count-append s.events (sent (x ∷ cs) ∷ []),
  sent_count-append s.events (complete ∷ []),
  sent_count-append (s.events ++ sent (x ∷ cs) ∷ []) (complete ∷ []),
)
report-Progress r [] (m ∷ ms) s e p a = ground arith
report-Progress r (x ∷ cs) (m ∷ ms) s e p a =
    ground (arith, sent_count-append s.events (sent (x ∷ cs) ∷ []))

left-pos : (m : Message) → IsFinite m → 0 < left m
unfolding reinserts
left-pos m f = ground arith

module _ {W : Type 0} (p : Plugins W) (c : CanClone p) (is : Message → Bool)
    (tracks : Tracks p c is) where
  round-Progress :
      (r : ℕ) (s : State W)
      → s.protocol ≡ some r
      → s.send_callback ≡ true
      → All IsFinite s.msgs_to_send
      → (t : State W) × (w : W) × (send_pending_and_wait p s ≡ some t)
        × Progress r
            (length (split_due s.msgs_to_send).0)
            (resend_queue (split_due s.msgs_to_send).0 (split_due s.msgs_to_send).1)
            (looped p c s w)
            t
        × (sent_of is t.events ≡ sent_of is s.events + matching is (split_due s.msgs_to_send).0)
        × (total_of is t.msgs_to_send
            ≡ total_of is (resend_queue (split_due s.msgs_to_send).0 (split_due s.msgs_to_send).1))
  round-Progress r s e cb a =
      let due = (split_due s.msgs_to_send).0 in
      let rest = (split_due s.msgs_to_send).1 in
      let (cs, w, e', n, each) = send_pending_and_wait-some p c r s e in
      let split = split_due_lem s.msgs_to_send a in
      let t = report_complete (report_sent cs (arm_timer (looped p c s w))) in
      let (more, left_of) = report-sent_of tracks cs (looped p c s w) cb in
      (
        t,
        w,
        e',
        subst (λ k. Progress r k (resend_queue due rest) (looped p c s w) t) n
            (report-Progress r cs (resend_queue due rest) (looped p c s w) refl e
              (IsFinite-resend_queue due rest split.due_finite split.rest_finite)),
        more ∙ ap (λ k. sent_of is s.events + k) (SentAll-matching tracks each),
        left_of,
      )

  -- The sending ends: `fuel` timer rounds suffice if it is the number of messages still to be sent,
  -- and one more for a queue whose first message waits. Then the queue is empty, and the callback has
  -- been given as many further entries as messages were to be sent, each message counted as often as
  -- its repeat count says, or once if it does not repeat. For any test of messages that gives the
  -- same for a message with another delay or repeat count and for its clone, updated by the protocol
  -- or not, just so many of the entries pass the test as messages that pass it were to be sent,
  -- counted in the same way, where a null pointer passes no test. This holds with the callback set,
  -- finite repeat counts, and a protocol that can clone every message.
  pub rounds_complete :
      (fuel r : ℕ) (s : State W)
      → s.protocol ≡ some r
      → s.send_callback ≡ true
      → All IsFinite s.msgs_to_send
      → total s.msgs_to_send + unarmed s.msgs_to_send ≤ fuel
      → (t : State W) × (rounds p fuel s ≡ some t)
        × (t.msgs_to_send ≡ [])
        × (sent_count t.events ≡ sent_count s.events + total s.msgs_to_send)
        × (sent_of is t.events ≡ sent_of is s.events + total_of is s.msgs_to_send)
  unfolding rounds
  rounds_complete zero r s e cb a le = elim (List-cases s.msgs_to_send) [
    | inl q ↦ (s, refl, q, ground arith, ground arith)
    | inr (m, ms, q) ↦
        absurd (omega (arith, le, ap total q, left-pos m (subst (All IsFinite) q a).0))
  ]
  rounds_complete (suc fuel) r s e cb a le = elim (List-cases s.msgs_to_send) [
    | inl q ↦ (s, ground arith, q, ground arith, ground arith)
    | inr (m, ms, q) ↦
        let due = (split_due s.msgs_to_send).0 in
        let rest = (split_due s.msgs_to_send).1 in
        let split = split_due_lem s.msgs_to_send a in
        let (t, w, e', g, more, left_of) = round-Progress r s e cb a in
        let sum = total-resend_queue due rest split.due_finite in
        let (u, run, done, n, k) =
          rounds_complete fuel r t g.protocol (g.callback ∙ cb) g.finite (
            omega
              (arith, le, sum, split.totals, g.totals, g.armed, split.moves (λ z. cc (q, z)))) in
        (
          u,
          ground arith,
          done,
          omega (arith, n, sum, split.totals, g.totals, g.counted cb),
          omega (
            arith,
            k,
            more,
            left_of,
            total_of-resend_queue tracks due rest split.due_finite,
            split_due-total_of is s.msgs_to_send,
          ),
        )
  ]
