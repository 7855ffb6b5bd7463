-- ===== src/SendMgr.antt =====
-- The timed sending of a list of messages: lib/src/ToolsMsgSendMgrImpl.h and ToolsMsgSendMgrImpl.cpp.
-- `start` makes clones of its own, so the queue holds messages by value. A delay is counted from the
-- message before it. `none` as the result of a step is the use of a null pointer: the protocol could
-- not clone a message. Asserts are those of a release build. `ToolsMsgSendMgr` only forwards.
pub mod Agenda
pub mod Clones
pub mod Delays
pub mod Round
pub mod Counting
use cc_tools_qt.Base.{
  ℕ, ◌+◌, ◌-◌, ◌%◌, Bool, true, false, ◌&&◌, ◌||◌, List, [], ◌∷◌, ◌++◌, Option, none, some, ◌==◌,
  if◌then◌else◌, ltb, is_empty,
}
use cc_tools_qt.Message.{Message, get_from, copy_from_to}
use cc_tools_qt.Plugins.{Plugins}

-- The calls of the two callbacks; an entry of a sent list is `none` for a null pointer.
pub data Event : Type 0 where
  sent : List (Option Message) → Event
  complete : Event

pub record State (W : Type 0) : Type 0 where
  pub send_callback : Bool
  pub complete_callback : Bool
  pub protocol : Option ℕ
  pub msgs_to_send : List Message
  -- The interval of the running timer, as the bit pattern of an `int`.
  pub timer : Option ℕ
  pub world : W
  pub events : List Event

abbrev pub delay_of : Message → ℕ
delay_of m = get_from m.delay 0

abbrev pub repeat_of : Message → ℕ
repeat_of m = get_from m.repeat_duration 0

abbrev pub count_of : Message → ℕ
count_of m = get_from m.repeat_count 1

abbrev pub set_delay : ℕ → Message → Message
set_delay n m = record m { delay = some n }

-- `static_cast<int>` keeps the low 32 bits.
abbrev pub int_bits : ℕ → ℕ
int_bits n = n % 4294967296

abbrev pub is_nil {ℓ} : {A : Type ℓ} → List A → Bool
is_nil [] = true
is_nil (x ∷ xs) = false

copy_properties : Message → Message → Message
copy_properties from to = record to {
  delay = copy_from_to from.delay to.delay;
  delay_units = copy_from_to from.delay_units to.delay_units;
  repeat_duration = copy_from_to from.repeat_duration to.repeat_duration;
  repeat_duration_units = copy_from_to from.repeat_duration_units to.repeat_duration_units;
  repeat_count = copy_from_to from.repeat_count to.repeat_count;
  comment = copy_from_to from.comment to.comment;
}

-- The messages before the first one with a delay, and the rest.
unfoldable pub split_due : List Message → List Message × List Message
split_due [] = ([], [])
split_due (m ∷ ms) =
    let (due, rest) = split_due ms in if delay_of m == 0 then (m ∷ due, rest) else ([], m ∷ ms)

-- The condition `reinsert`.
unfoldable pub reinserts : Message → Bool
reinserts m = ltb 0 (repeat_of m) && (count_of m == 0 || ltb 1 (count_of m))

-- The search for `reinsertIter`, the new delay of the message found there, and the insertion of the
-- message before it. The predicate of the search subtracts each delay that it passes.
unfoldable pub insert_repeat : ℕ → Message → List Message → List Message
insert_repeat new_delay m [] = set_delay new_delay m ∷ []
insert_repeat new_delay m (x ∷ xs) =
    if ltb new_delay (delay_of x)
    then set_delay new_delay m ∷ set_delay (delay_of x - new_delay) x ∷ xs
    else x ∷ insert_repeat (new_delay - delay_of x) m xs

-- The message that goes back to the queue: a count of 0 stands for no end.
unfoldable pub count_down : Message → Message
count_down m = if count_of m == 0 then m else record m { repeat_count = some (count_of m - 1) }

module _ {W : Type 0} where
  -- The timer waits for the delay of the first message, which has none from then on.
  unfoldable pub arm_timer : State W → State W
  arm_timer s = elim s.msgs_to_send [
    | [] ↦ s
    | m ∷ ms ↦ record s { msgs_to_send = set_delay 0 m ∷ ms; timer = some (int_bits (delay_of m)) }
  ]

  unfoldable pub report_sent : List (Option Message) → State W → State W
  report_sent msgs s =
      if is_nil msgs
      then s
      else if s.send_callback
      then record s { events = s.events ++ sent msgs ∷ [] }
      else s

  unfoldable pub report_complete : State W → State W
  report_complete s =
      if is_nil s.msgs_to_send && s.complete_callback
      then record s { events = s.events ++ complete ∷ [] }
      else s

  pub stop : State W → State W
  stop s = record s { timer = none; protocol = none; msgs_to_send = [] }

module _ {W : Type 0} (p : Plugins W) where
  -- The extra information of `m` is put into its clone `c`.
  unfoldable pub with_extra_info : ℕ → Message → Option Message → W → Option (Option Message × W)
  with_extra_info r m c w = elim (is_empty (get_from m.extra_info [])) [
    | true ↦ some (c, w)
    | false ↦ elim c [
      | none ↦ none
      | some c ↦
          let (c', w') = p.protocol_update r (record c { extra_info = m.extra_info }) w in
          some (some c', w')
    ]
  ]

  -- One message of the list given to `start`.
  pub clone_for_queue : ℕ → Message → W → Option (Message × W)
  clone_for_queue r m w =
      let (c, w1) = p.protocol_clone r m w in
      elim c [
        | none ↦ none
        | some c ↦ elim (with_extra_info r m (some (copy_properties m c)) w1) [
          | none ↦ none
          | some (none, w2) ↦ none
          | some (some c', w2) ↦ some (c', w2)
        ]
      ]

  pub clone_all : ℕ → List Message → W → Option (List Message × W)
  clone_all r [] w = some ([], w)
  clone_all r (m ∷ ms) w = elim (clone_for_queue r m w) [
    | none ↦ none
    | some (c, w1) ↦ elim (clone_all r ms w1) [ none ↦ none | some (cs, w2) ↦ some (c ∷ cs, w2) ]
  ]

  -- The body of the loop over `nextMsgsToSend`: what is sent in place of the message, and the queue.
  -- After `std::swap` the clone is sent, and the message itself is queued again.
  unfoldable pub resend :
      Option ℕ → Message → List Message → W → Option (Option Message × List Message × W)
  resend protocol m queue w = elim (reinserts m) [
    | false ↦ some (some m, queue, w)
    | true ↦ elim protocol [
      | none ↦ some (some m, queue, w)
      | some r ↦
          let (c, w1) = p.protocol_clone r m w in
          elim (with_extra_info r m c w1) [
            | none ↦ none
            | some (c', w2) ↦ some (c', insert_repeat (repeat_of m) (count_down m) queue, w2)
          ]
    ]
  ]

  unfoldable pub resend_all :
      Option ℕ → List Message → List Message → W → Option (List (Option Message) × List Message × W)
  resend_all protocol [] queue w = some ([], queue, w)
  resend_all protocol (m ∷ ms) queue w = elim (resend protocol m queue w) [
    | none ↦ none
    | some (c, queue1, w1) ↦ elim (resend_all protocol ms queue1 w1) [
      | none ↦ none
      | some (cs, queue2, w2) ↦ some (c ∷ cs, queue2, w2)
    ]
  ]

  unfoldable pub send_pending_and_wait : State W → Option (State W)
  send_pending_and_wait s =
      let (due, rest) = split_due s.msgs_to_send in
      elim (resend_all s.protocol due rest s.world) [
        | none ↦ none
        | some (msgs, queue, w) ↦ some (
            report_complete (
              report_sent msgs
                (arm_timer (record s { msgs_to_send = queue; timer = none; world = w }))))
      ]

  pub start : ℕ → List Message → State W → Option (State W)
  start r msgs s = elim (clone_all r msgs s.world) [
    | none ↦ none
    | some (cs, w) ↦
        send_pending_and_wait
          (record s { protocol = some r; msgs_to_send = s.msgs_to_send ++ cs; world = w })
  ]
