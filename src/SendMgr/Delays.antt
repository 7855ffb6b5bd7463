-- ===== src/SendMgr/Delays.antt =====
-- Bounds on the delays in the queue of ToolsMsgSendMgrImpl (lib/src/ToolsMsgSendMgrImpl.cpp).
use cc_tools_qt.Base.{ℕ, ◌-◌, ◌≤◌, ◌<◌, ◌≡◌, true, List, [], ◌∷◌, All, arith, Bool-cases, inl, inr}
use cc_tools_qt.Message.{Message}
use cc_tools_qt.SendMgr.{delay_of, repeat_of, split_due, reinserts, insert_repeat, count_down}
use cc_tools_qt.SendMgr.Agenda.{resend_queue}

-- Delays that `QTimer::start(int)` takes as they are.
abbrev pub int_max : ℕ
int_max = 2147483647

abbrev pub IsShort : Message → Type 0
IsShort m = (delay_of m ≤ int_max) × (repeat_of m ≤ int_max)

-- The first message of the queue has a delay, if there is one.
abbrev pub IsWaiting : List Message → Type 0
IsWaiting [] = Unit {0}
IsWaiting (m ∷ ms) = 0 < delay_of m

pub split_due-IsWaiting : (q : List Message) → IsWaiting (split_due q).1
unfolding split_due
split_due-IsWaiting [] = tt
split_due-IsWaiting (m ∷ ms) = ground (arith, split_due-IsWaiting ms)

insert_repeat-IsWaiting :
    (n : ℕ) (m : Message) (q : List Message) → 0 < n → IsWaiting q → IsWaiting (insert_repeat n m q)
unfolding insert_repeat
insert_repeat-IsWaiting n m [] lt w = lt
insert_repeat-IsWaiting n m (x ∷ xs) lt w = ground arith

reinserts-pos : (m : Message) → reinserts m ≡ true → 0 < repeat_of m
unfolding reinserts
reinserts-pos m e = ground arith

pub resend_queue-IsWaiting : (ms q : List Message) → IsWaiting q → IsWaiting (resend_queue ms q)
unfolding resend_queue
resend_queue-IsWaiting [] q w = w
resend_queue-IsWaiting (m ∷ ms) q w = elim (Bool-cases (reinserts m)) [
  | inl e ↦ rw e (
      resend_queue-IsWaiting ms (insert_repeat (repeat_of m) (count_down m) q)
        (insert_repeat-IsWaiting (repeat_of m) (count_down m) q (reinserts-pos m e) w))
  | inr e ↦ rw e (resend_queue-IsWaiting ms q w)
]

insert_repeat-IsShort :
    (n : ℕ) (m : Message) (q : List Message)
    → n ≤ int_max
    → repeat_of m ≤ int_max
    → All IsShort q
    → All IsShort (insert_repeat n m q)
unfolding insert_repeat
insert_repeat-IsShort n m [] le le' a = ((le, le'), tt)
insert_repeat-IsShort n m (x ∷ xs) le le' a =
    ground (arith, insert_repeat-IsShort (n - delay_of x) m xs (omega arith) le' a.1)

repeat-count_down : (m : Message) → repeat_of (count_down m) ≡ repeat_of m
unfolding count_down
repeat-count_down m = ground arith

pub resend_queue-IsShort :
    (ms q : List Message) → All IsShort ms → All IsShort q → All IsShort (resend_queue ms q)
unfolding resend_queue
resend_queue-IsShort [] q a b = b
resend_queue-IsShort (m ∷ ms) q a b = elim (Bool-cases (reinserts m)) [
  | inl e ↦ rw e (
      resend_queue-IsShort ms (insert_repeat (repeat_of m) (count_down m) q) a.1 (
        insert_repeat-IsShort (repeat_of m) (count_down m) q (omega (arith, a.0))
          (omega (arith, a.0, repeat-count_down m)) b))
  | inr e ↦ rw e (resend_queue-IsShort ms q a.1 b)
]

pub split_due-IsShort :
    (q : List Message) → All IsShort q → All IsShort (split_due q).0 × All IsShort (split_due q).1
unfolding split_due
split_due-IsShort [] a = (tt, tt)
split_due-IsShort (m ∷ ms) a = ground (arith, split_due-IsShort ms a.1)
