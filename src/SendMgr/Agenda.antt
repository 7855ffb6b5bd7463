-- ===== src/SendMgr/Agenda.antt =====
-- What the queue of ToolsMsgSendMgrImpl stands for: messages with the times at which they are due
-- (lib/src/ToolsMsgSendMgrImpl.cpp). A time is in milliseconds.
use cc_tools_qt.Base.{
  ℕ, ◌+◌, ◌-◌, ◌≡◌, refl, List, [], ◌∷◌, map, none, if◌then◌else◌, ltb, leb, arith,
}
use cc_tools_qt.Message.{Message}
use cc_tools_qt.SendMgr.{delay_of, repeat_of, split_due, reinserts, insert_repeat, count_down}

abbrev pub Agenda : Type 0
Agenda = List (ℕ × Message)

-- A message without its delay, which the time replaces.
abbrev pub bare : Message → Message
bare m = record m { delay = none }

-- The times of a queue whose delays start at time `t`.
abbrev pub schedule : ℕ → List Message → Agenda
schedule t [] = []
schedule t (m ∷ ms) = (t + delay_of m, bare m) ∷ schedule (t + delay_of m) ms

-- A new entry goes behind those that are due no later.
abbrev pub insert_by : ℕ → Message → Agenda → Agenda
insert_by u m [] = (u, m) ∷ []
insert_by u m ((v, x) ∷ a) = if ltb u v then (u, m) ∷ (v, x) ∷ a else (v, x) ∷ insert_by u m a

-- The messages that are due at time `t`, and the later entries.
abbrev pub due_at : ℕ → Agenda → List Message × Agenda
due_at t [] = ([], [])
due_at t ((u, m) ∷ a) =
    let (due, rest) = due_at t a in if leb u t then (m ∷ due, rest) else ([], (u, m) ∷ a)

-- Each message that repeats is entered again, its duration later and counted down.
abbrev pub requeue : ℕ → List Message → Agenda → Agenda
requeue t [] a = a
requeue t (m ∷ ms) a =
    requeue t ms (if reinserts m then insert_by (t + repeat_of m) (count_down m) a else a)

-- One round at time `t`: what is due leaves the agenda, and what repeats comes back.
abbrev pub agenda_round : ℕ → Agenda → Agenda
agenda_round t a = let (due, rest) = due_at t a in requeue t due rest

schedule-insert_repeat :
    (t n : ℕ) (m : Message) (q : List Message)
    → schedule t (insert_repeat n m q) ≡ insert_by (t + n) (bare m) (schedule t q)
unfolding insert_repeat
schedule-insert_repeat t n m [] = refl
schedule-insert_repeat t n m (x ∷ xs) =
    ground (arith, schedule-insert_repeat (t + delay_of x) (n - delay_of x) m xs)

pub due_at-schedule :
    (t : ℕ) (q : List Message)
    → due_at t (schedule t q) ≡ (map bare (split_due q).0, schedule t (split_due q).1)
unfolding split_due
due_at-schedule t [] = refl
due_at-schedule t (x ∷ xs) = ground (arith, due_at-schedule (t + delay_of x) xs)

-- The queue after the loop over the due messages.
unfoldable pub resend_queue : List Message → List Message → List Message
resend_queue [] queue = queue
resend_queue (m ∷ ms) queue =
    resend_queue ms
      (if reinserts m then insert_repeat (repeat_of m) (count_down m) queue else queue)

bare-count_down : (m : Message) → bare (count_down m) ≡ count_down (bare m)
unfolding count_down
bare-count_down m = ground arith

reinserts-bare : (m : Message) → reinserts (bare m) ≡ reinserts m
unfolding reinserts
reinserts-bare m = refl

pub schedule-resend_queue :
    (t : ℕ) (ms queue : List Message)
    → schedule t (resend_queue ms queue) ≡ requeue t (map bare ms) (schedule t queue)
unfolding resend_queue
schedule-resend_queue t [] queue = refl
schedule-resend_queue t (m ∷ ms) queue = ground (
  arith,
  reinserts-bare m,
  bare-count_down m,
  schedule-insert_repeat t (repeat_of m) (count_down m) queue,
  schedule-resend_queue t ms queue,
  schedule-resend_queue t ms (insert_repeat (repeat_of m) (count_down m) queue),
)
