-- ===== src/SendMgr/Counting.antt =====
-- How often messages are sent, and that the sending ends (lib/src/ToolsMsgSendMgrImpl.cpp).
pub mod Matching
pub mod Completion
use cc_tools_qt.Base.{
  ℕ, zero, suc, ◌+◌, ◌-◌, ◌≤◌, ◌<◌, ◌≡◌, ◌≢◌, refl, sym, ap, ◌∙◌, subst, Bool, true, false, List,
  [], ◌∷◌, ◌++◌, Option, none, some, ◌==◌, if◌then◌else◌, ltb, length, length-append, All, arith,
  Bool-cases, inl, inr,
}
use cc_tools_qt.Message.{Message}
use cc_tools_qt.Plugins.{Plugins}
use cc_tools_qt.SendMgr.{
  State, Event, sent, complete, is_nil, delay_of, repeat_of, count_of, set_delay, split_due,
  reinserts, insert_repeat, count_down, arm_timer, report_sent, report_complete,
  send_pending_and_wait,
}
use cc_tools_qt.SendMgr.Agenda.{resend_queue}
use cc_tools_qt.SendMgr.Clones.{CanClone, SentAll}
use cc_tools_qt.SendMgr.Round.{looped, send_pending_and_wait-some}

-- How often a message is still to be sent: its count if it repeats, else once.
abbrev pub left : Message → ℕ
left m = if reinserts m then count_of m else 1

abbrev pub total : List Message → ℕ
total [] = 0
total (m ∷ ms) = left m + total ms

-- A message that repeats has a count; a count of 0 would repeat for ever.
abbrev pub IsFinite : Message → Type 0
IsFinite m = 0 < repeat_of m → 0 < count_of m

pub left-count_down :
    (m : Message) → IsFinite m → reinserts m ≡ true → left (count_down m) + 1 ≡ left m
unfolding reinserts count_down
left-count_down m f e = ground arith

IsFinite-count_down : (m : Message) → IsFinite m → reinserts m ≡ true → IsFinite (count_down m)
unfolding reinserts count_down
IsFinite-count_down m f e = ground arith

total-insert_repeat :
    (n : ℕ) (m : Message) (q : List Message) → total (insert_repeat n m q) ≡ left m + total q
unfolding insert_repeat reinserts
total-insert_repeat n m [] = omega arith
total-insert_repeat n m (x ∷ xs) = ground (arith, total-insert_repeat (n - delay_of x) m xs)

IsFinite-insert_repeat :
    (n : ℕ) (m : Message) (q : List Message)
    → IsFinite m
    → All IsFinite q
    → All IsFinite (insert_repeat n m q)
unfolding insert_repeat
IsFinite-insert_repeat n m [] f a = (f, tt)
IsFinite-insert_repeat n m (x ∷ xs) f a =
    ground (arith, IsFinite-insert_repeat (n - delay_of x) m xs f a.1)

-- The loop sends each due message once, and queues what is left of it.
total-resend_queue :
    (ms q : List Message)
    → All IsFinite ms
    → total (resend_queue ms q) + length ms ≡ total ms + total q
unfolding resend_queue
total-resend_queue [] q a = omega arith
total-resend_queue (m ∷ ms) q a = elim (Bool-cases (reinserts m)) [
  | inl e ↦ rw e (
      omega (
        arith,
        total-resend_queue ms (insert_repeat (repeat_of m) (count_down m) q) a.1,
        total-insert_repeat (repeat_of m) (count_down m) q,
        left-count_down m a.0 e,
        ap (λ (b : Bool). if b then count_of m else 1) e,
      ))
  | inr e ↦ rw e (omega (arith, total-resend_queue ms q a.1))
]

IsFinite-resend_queue :
    (ms q : List Message) → All IsFinite ms → All IsFinite q → All IsFinite (resend_queue ms q)
unfolding resend_queue
IsFinite-resend_queue [] q a b = b
IsFinite-resend_queue (m ∷ ms) q a b = elim (Bool-cases (reinserts m)) [
  | inl e ↦ rw e (
      IsFinite-resend_queue ms (insert_repeat (repeat_of m) (count_down m) q) a.1
        (IsFinite-insert_repeat (repeat_of m) (count_down m) q (IsFinite-count_down m a.0 e) b))
  | inr e ↦ rw e (IsFinite-resend_queue ms q a.1 b)
]

-- 1 if the next round sends nothing and only arms the timer.
abbrev pub unarmed : List Message → ℕ
unarmed [] = 0
unarmed (m ∷ ms) = if delay_of m == 0 then 0 else 1

-- The due messages and the rest make up the queue.
record Split (q : List Message) : Type 0 where
  totals : total (split_due q).0 + total (split_due q).1 ≡ total q
  due_finite : All IsFinite (split_due q).0
  rest_finite : All IsFinite (split_due q).1
  moves : q ≢ [] → 0 < length (split_due q).0 + unarmed q

split_due_lem : (q : List Message) → All IsFinite q → Split q
unfolding split_due
split_due_lem [] a = record {
  totals = refl;
  due_finite = tt;
  rest_finite = tt;
  moves = λ n. absurd (n refl);
}
split_due_lem (m ∷ ms) a =
    let rest = split_due_lem ms a.1 in
    elim (Bool-cases (delay_of m == 0)) [
      | inl e ↦ record {
        totals = rw e (omega (arith, rest.totals));
        due_finite = rw e ((a.0, rest.due_finite));
        rest_finite = rw e rest.rest_finite;
        moves = λ n. rw e (omega arith);
      }
      | inr e ↦ record {
        totals = rw e (omega arith);
        due_finite = rw e tt;
        rest_finite = rw e a;
        moves = λ n. rw e (omega arith);
      }
    ]

-- How many messages the reported rounds sent.
abbrev pub sent_count : List Event → ℕ
sent_count [] = 0
sent_count (sent cs ∷ es) = length cs + sent_count es
sent_count (complete ∷ es) = sent_count es

sent_count-append : (es fs : List Event) → sent_count (es ++ fs) ≡ sent_count es + sent_count fs
sent_count-append [] fs = omega arith
sent_count-append (sent cs ∷ es) fs = omega (arith, sent_count-append es fs)
sent_count-append (complete ∷ es) fs = omega (arith, sent_count-append es fs)
