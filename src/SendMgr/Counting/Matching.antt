-- ===== src/SendMgr/Counting/Matching.antt =====
-- How often the messages of one kind are sent (lib/src/ToolsMsgSendMgrImpl.cpp).
use cc_tools_qt.Base.{
  List-cases, ℕ, ◌+◌, ◌-◌, ◌≡◌, refl, ap, ◌∙◌, Bool, true, List, [], ◌∷◌, ◌++◌, Option, none, some,
  ◌==◌, if◌then◌else◌, All, arith, Bool-cases, inl, inr,
}
use cc_tools_qt.Message.{Message}
use cc_tools_qt.Plugins.{Plugins}
use cc_tools_qt.SendMgr.{
  State, Event, sent, complete, delay_of, repeat_of, count_of, set_delay, split_due, reinserts,
  insert_repeat, count_down, arm_timer, report_sent, report_complete,
}
use cc_tools_qt.SendMgr.Agenda.{resend_queue}
use cc_tools_qt.SendMgr.Clones.{CanClone, SentFor, SentAll}
use cc_tools_qt.SendMgr.Counting.{left, IsFinite, left-count_down}

-- A test of messages that sees neither the delay nor the repeat count, and that does not tell a clone
-- from the message, even when the protocol has updated the clone.
pub record Tracks {W : Type 0} (p : Plugins W) (c : CanClone p) (is : Message → Bool) : Type 0 where
  pub delays : (n : ℕ) (m : Message) → is (set_delay n m) ≡ is m
  pub counts : (n : ℕ) (m : Message) → is (record m { repeat_count = some n }) ≡ is m
  pub clones : (r : ℕ) (m : Message) (w : W) → is (c.copy r m w) ≡ is m
  pub updates :
      (r : ℕ) (m : Message) (v w : W)
      → is (p.protocol_update r (record (c.copy r m v) { extra_info = m.extra_info }) w).0 ≡ is m

-- How often the messages that pass the test are still to be sent.
abbrev pub total_of : (Message → Bool) → List Message → ℕ
total_of is [] = 0
total_of is (m ∷ ms) = (if is m then left m else 0) + total_of is ms

-- How many messages of a list pass the test.
abbrev pub matching : (Message → Bool) → List Message → ℕ
matching is [] = 0
matching is (m ∷ ms) = (if is m then 1 else 0) + matching is ms

-- How many entries of a sent list are messages that pass it, null pointers left out.
abbrev pub matching_sent : (Message → Bool) → List (Option Message) → ℕ
matching_sent is [] = 0
matching_sent is (none ∷ cs) = matching_sent is cs
matching_sent is (some m ∷ cs) = (if is m then 1 else 0) + matching_sent is cs

-- The same for all reported rounds.
abbrev pub sent_of : (Message → Bool) → List Event → ℕ
sent_of is [] = 0
sent_of is (sent cs ∷ es) = matching_sent is cs + sent_of is es
sent_of is (complete ∷ es) = sent_of is es

sent_of-append :
    (is : Message → Bool) (es fs : List Event)
    → sent_of is (es ++ fs) ≡ sent_of is es + sent_of is fs
sent_of-append is [] fs = omega arith
sent_of-append is (sent cs ∷ es) fs = omega (arith, sent_of-append is es fs)
sent_of-append is (complete ∷ es) fs = omega (arith, sent_of-append is es fs)

pub split_due-total_of :
    (is : Message → Bool) (q : List Message)
    → total_of is (split_due q).0 + total_of is (split_due q).1 ≡ total_of is q
unfolding split_due
split_due-total_of is [] = refl
split_due-total_of is (m ∷ ms) = elim (Bool-cases (delay_of m == 0)) [
  | inl e ↦ rw e (omega (arith, split_due-total_of is ms))
  | inr e ↦ rw e (omega arith)
]

module _ {W : Type 0} {p : Plugins W} {c : CanClone p} {is : Message → Bool}
    (tracks : Tracks p c is) where
  is-count_down : (m : Message) → is (count_down m) ≡ is m
  unfolding count_down
  is-count_down m = ground (arith, tracks.counts (count_of m - 1) m)

  total_of-insert_repeat :
      (n : ℕ) (m : Message) (q : List Message)
      → total_of is (insert_repeat n m q) ≡ total_of is (m ∷ q)
  unfolding insert_repeat reinserts
  total_of-insert_repeat n m [] = ground (arith, tracks.delays n m)
  total_of-insert_repeat n m (x ∷ xs) = ground (
    arith,
    tracks.delays n m,
    tracks.delays (delay_of x - n) x,
    total_of-insert_repeat (n - delay_of x) m xs,
  )

  -- The loop queues what is left of the due messages.
  pub total_of-resend_queue :
      (ms q : List Message)
      → All IsFinite ms
      → total_of is (resend_queue ms q) + matching is ms ≡ total_of is ms + total_of is q
  unfolding resend_queue
  total_of-resend_queue [] q a = omega arith
  total_of-resend_queue (m ∷ ms) q a = elim (Bool-cases (reinserts m)) [
    | inl e ↦
        let rest = total_of-resend_queue ms (insert_repeat (repeat_of m) (count_down m) q) a.1 in
        let queued = total_of-insert_repeat (repeat_of m) (count_down m) q in
        let once = left-count_down m a.0 e in
        let same = is-count_down m in
        let counted = ap (λ (b : Bool). if b then count_of m else 1) e in
        elim (Bool-cases (is m)) [
          | inl i ↦
              let here = ap (λ (b : Bool). if b then left (count_down m) else 0) (same ∙ i) in
              rw (e, i) (omega (arith, rest, queued, once, counted, here))
          | inr i ↦
              let here = ap (λ (b : Bool). if b then left (count_down m) else 0) (same ∙ i) in
              rw (e, i) (omega (arith, rest, queued, here))
        ]
    | inr e ↦ elim (Bool-cases (is m)) [
      | inl i ↦ rw (e, i) (omega (arith, total_of-resend_queue ms q a.1))
      | inr i ↦ rw (e, i) (omega (arith, total_of-resend_queue ms q a.1))
    ]
  ]

  SentFor-is :
      (m : Message) (x : Option Message)
      → SentFor p c m x
      → matching_sent is (x ∷ []) ≡ (if is m then 1 else 0)
  SentFor-is m _ SentFor.itself = omega arith
  SentFor-is m _ (SentFor.cloned r w) = ground (arith, tracks.clones r m w)
  SentFor-is m _ (SentFor.updated r v w) = ground (arith, tracks.updates r m v w)

  matching_sent-cons :
      (x : Option Message) (cs : List (Option Message))
      → matching_sent is (x ∷ cs) ≡ matching_sent is (x ∷ []) + matching_sent is cs
  matching_sent-cons none cs = omega arith
  matching_sent-cons (some x) cs = omega arith

  pub SentAll-matching :
      {ms : List Message} {cs : List (Option Message)}
      → SentAll p c ms cs
      → matching_sent is cs ≡ matching is ms
  SentAll-matching SentAll.nothing = refl
  SentAll-matching (SentAll.one {m = m} {x = x} {xs = xs} f fs) =
      omega (arith, matching_sent-cons x xs, SentFor-is m x f, SentAll-matching fs)

  arm_timer-events :
      (s : State W)
      → ((arm_timer s).events ≡ s.events) × ((arm_timer s).send_callback ≡ s.send_callback)
  unfolding arm_timer
  arm_timer-events s = ground arith

  total_of-arm_timer :
      (s : State W) → total_of is (arm_timer s).msgs_to_send ≡ total_of is s.msgs_to_send
  unfolding arm_timer reinserts
  total_of-arm_timer s = elim (List-cases s.msgs_to_send) [
    | inl q ↦ ground (arith, q)
    | inr (m, ms, q) ↦ ground (arith, q, tracks.delays 0 m)
  ]

  -- What the reports of a round add.
  pub report-sent_of :
      (cs : List (Option Message)) (s : State W)
      → s.send_callback ≡ true
      → (let t = report_complete (report_sent cs (arm_timer s)) in
          (sent_of is t.events ≡ sent_of is s.events + matching_sent is cs)
          × (total_of is t.msgs_to_send ≡ total_of is s.msgs_to_send))
  unfolding report_complete report_sent
  report-sent_of cs s cb = (
    ground (
      arith,
      arm_timer-events s,
      sent_of-append is s.events (sent cs ∷ []),
      sent_of-append is s.events (complete ∷ []),
      sent_of-append is (s.events ++ sent cs ∷ []) (complete ∷ []),
    ),
    ground (arith, total_of-arm_timer s),
  )
