-- ===== src/Tests/Sending.antt =====
-- The send manager's theorems at concrete queues.
use cc_tools_qt.Base.{
  Bool, ltb, ℕ, ◌≡◌, refl, true, List, [], ◌∷◌, ◌++◌, Option, none, some, length, arith,
}
use cc_tools_qt.Message.{Message}
use cc_tools_qt.SendMgr.{
  State, sent, repeat_of, send_pending_and_wait, split_due, reinserts, insert_repeat, count_down,
  resend, resend_all, with_extra_info, arm_timer, report_sent, report_complete,
}
use cc_tools_qt.SendMgr.Agenda.{bare}
use cc_tools_qt.SendMgr.Round.{
  agenda, round_events, IsTimed, send_pending_and_wait-agenda, send_pending_and_wait-timer,
}
use cc_tools_qt.SendMgr.Counting.{sent_count}
use cc_tools_qt.SendMgr.Counting.Completion.{rounds, rounds_complete}
use cc_tools_qt.SendMgr.Counting.Matching.{Tracks, sent_of}
use cc_tools_qt.Tests.Samples.{plain, plain-CanClone, simple}

-- Twice, ten milliseconds apart.
abbrev twice : Message
twice = record simple { repeat_duration = some 10; repeat_count = some 2 }

-- Once, four milliseconds after the message before it.
abbrev later : Message
later = record simple { delay = some 4 }

abbrev queue : State ℕ
queue = record {
  send_callback = true;
  complete_callback = true;
  protocol = some 20;
  msgs_to_send = twice ∷ later ∷ [];
  timer = none;
  world = 0;
  events = [];
}

send_pending_and_wait-agenda_example :
    (cs : List (Option Message)) × (s' : State ℕ) × (send_pending_and_wait plain queue ≡ some s')
    × (length cs ≡ 1)
    × (agenda 100 s'
        ≡ (104, bare later) ∷ (110, record (bare twice) { repeat_count = some 1 }) ∷ [])
    × (s'.events ≡ [] ++ round_events queue cs (agenda 100 s'))
unfolding reinserts count_down
send_pending_and_wait-agenda_example =
    send_pending_and_wait-agenda plain plain-CanClone 100 20 queue refl (omega arith)

abbrev repeats : Message → Bool
repeats m = ltb 0 (repeat_of m)

repeats-Tracks : Tracks plain plain-CanClone repeats
unfolding plain-CanClone
repeats-Tracks = record {
  delays = λ n m. refl;
  counts = λ n m. refl;
  clones = λ r m w. refl;
  updates = λ r m v w. refl;
}

rounds_complete_example :
    (t : State ℕ) × (rounds plain 3 queue ≡ some t)
    × (t.msgs_to_send ≡ [])
    × (sent_count t.events ≡ 3)
    × (sent_of repeats t.events ≡ 2)
unfolding reinserts
rounds_complete_example =
    rounds_complete plain plain-CanClone repeats repeats-Tracks 3 20 queue refl refl (omega arith)
      (omega arith)

-- The queue after the first round: the timer runs for the second message.
abbrev waiting : State ℕ
waiting = record queue {
  msgs_to_send =
      record later { delay = some 0 } ∷ record twice { delay = some 6; repeat_count = some 1 } ∷ [];
  timer = some 4;
  events =
      sent (some (record simple { repeat_duration = some 10; repeat_count = some 2 }) ∷ []) ∷ [];
}

first_round : send_pending_and_wait plain queue ≡ some waiting
unfolding send_pending_and_wait split_due resend_all resend reinserts with_extra_info insert_repeat
    count_down arm_timer report_sent report_complete
first_round = refl

send_pending_and_wait-timer_example : IsTimed waiting
send_pending_and_wait-timer_example =
    send_pending_and_wait-timer plain plain-CanClone 20 queue refl (omega arith) first_round
