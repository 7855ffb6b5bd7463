-- ===== src/MsgFile/Reload.antt =====
-- The two functions that make messages of the entries of a file, `convertRecvMsgList` and
-- `convertSendMsgList` (lib/src/ToolsMsgFileMgr.cpp), and what becomes of messages that were saved.
-- An entry is `none` when its QVariant is not a map. `none` as a result is a search for a message
-- object that has not ended (MsgFile/Create). A time is an `unsigned long long` of 64 bits.
use text.Mathlib.TextEquality.{eq_iff}
use cc_tools_qt.Base.{
  ℕ, suc, ◌+◌, ◌-◌, ◌%◌, ◌<◌, ◌≡◌, refl, ap, ◌∙◌, false, ◌&&◌, ◌||◌, not, inl, inr, List, [], ◌∷◌,
  map, Option, none, some, All, ◌==◌, if◌then◌else◌, Bool-cases, List-cases, Dict, arith,
}
use cc_tools_qt.Message.{Variant, Message, get_from}
use cc_tools_qt.MsgFile.Hex.{Text, Documented}
use cc_tools_qt.MsgFile.Entry.{
  Entry, empty_str, extra_info_of, comment_of, convert_send_msg, save_send_list,
}
use cc_tools_qt.MsgFile.Create.{
  Protocol, try_idx, set_extra_info, create_msg_object_from, create_msg_object_from_lem,
}

abbrev pub u64 : ℕ
u64 = 18446744073709551616

-- `timestamp - prevTimestamp`.
abbrev pub u64_sub : ℕ → ℕ → ℕ
u64_sub a b = (a + u64 - b) % u64

-- The body of the loop of `convertRecvMsgList` after the message object `m` is made.
unfoldable pub load_recv_msg : Entry → Message → Option Message
load_recv_msg e m =
    if get_from e.timestamp 0 == 0
    then none
    else some (record m {
      timestamp = some (get_from e.timestamp 0);
      msg_type = some (get_from e.type 0);
      comment = some (get_from e.comment "");
    })

-- The inner `do` block of `convertSendMsgList`: the delay, and the new `prevTimestamp`.
unfoldable pub delay_from_timestamp : ℕ → ℕ → ℕ → ℕ × ℕ
delay_from_timestamp delay timestamp prev =
    if not (delay == 0) || timestamp == 0
    then (delay, prev)
    else if prev == 0
    then (delay, timestamp)
    else if u64_sub timestamp prev == 0
    then (delay, prev)
    else (u64_sub timestamp prev, timestamp)

-- The body of the loop of `convertSendMsgList` after the message object `m` is made.
unfoldable pub load_send_msg : Entry → Message → ℕ → Message × ℕ
load_send_msg e m prev =
    let unset = get_from e.repeat 0 == 0 && get_from e.repeat_count 0 == 0 in
    let (delay, prev') =
      if unset
      then delay_from_timestamp (get_from e.delay 0) (get_from e.timestamp 0) prev
      else (get_from e.delay 0, prev) in
    (
      record m {
        delay = some delay;
        delay_units = some (get_from e.delay_units "");
        repeat_duration = some (get_from e.repeat 0);
        repeat_duration_units = some (get_from e.repeat_units "");
        repeat_count = some (if unset then 1 else get_from e.repeat_count 0);
        comment = some (get_from e.comment "");
      },
      prev',
    )

module _ (q : Text) (p : Protocol) (fuel : ℕ) where
  unfoldable pub load_recv_list : List (Option Entry) → Option (List Message)
  load_recv_list [] = some []
  load_recv_list (none ∷ es) = load_recv_list es
  load_recv_list (some e ∷ es) = elim (create_msg_object_from q p fuel (some e)) [
    | none ↦ none
    | some none ↦ load_recv_list es
    | some (some m) ↦ elim (load_recv_msg e m) [
      | none ↦ load_recv_list es
      | some m' ↦ elim (load_recv_list es) [ none ↦ none | some ms ↦ some (m' ∷ ms) ]
    ]
  ]

  -- The loop with `prevTimestamp`, which is 0 at first.
  unfoldable pub load_send_list : ℕ → List (Option Entry) → Option (List Message)
  load_send_list prev [] = some []
  load_send_list prev (none ∷ es) = load_send_list prev es
  load_send_list prev (some e ∷ es) = elim (create_msg_object_from q p fuel (some e)) [
    | none ↦ none
    | some none ↦ load_send_list prev es
    | some (some m) ↦ elim (load_send_list (load_send_msg e m prev).1 es) [
      | none ↦ none
      | some ms ↦ some ((load_send_msg e m prev).0 ∷ ms)
    ]
  ]

-- A message that has an id and whose bytes the protocol makes into the message `made` again.
pub record Restorable (p : Protocol) (m made : Message) : Type 0 where
  pub named : empty_str m.id_as_string ≡ false
  pub bytes : All (λ b. b < 256) m.payload
  pub remade : try_idx p m.id_as_string (get_from m.msg_idx 0) m.payload ≡ some made

module _ (p : Protocol) where
  -- The message of a saved entry before the loader sets its properties.
  abbrev pub remade_from : (Message → Message) → Message → Message
  remade_from make m = p.update_message (set_extra_info (get_from m.extra_info []) (make m))

  -- What a saved list of received messages is when it is loaded.
  abbrev pub restored_recv : (Message → Message) → Message → Message
  restored_recv make m = record (remade_from make m) {
    timestamp = some (get_from m.timestamp 0);
    msg_type = some (get_from m.msg_type 0);
    comment = some (get_from m.comment "");
  }

  -- What a saved list of messages to send is when it is loaded: a count of 0 without a duration is 1.
  abbrev pub restored_send : (Message → Message) → Message → Message
  restored_send make m = record (remade_from make m) {
    delay = some (get_from m.delay 0);
    delay_units = some (get_from m.delay_units "");
    repeat_duration = some (get_from m.repeat_duration 0);
    repeat_duration_units = some (get_from m.repeat_duration_units "");
    repeat_count = some (
        if get_from m.repeat_duration 0 == 0 && get_from m.repeat_count 1 == 0
        then 1
        else get_from m.repeat_count 1);
    comment = some (get_from m.comment "");
  }

pub get_from-extra_info_of :
    (m : Message) → get_from (extra_info_of m) [] ≡ get_from m.extra_info []
get_from-extra_info_of m = elim (List-cases (get_from m.extra_info [])) [
  | inl e ↦ rw e refl
  | inr (x, xs, e) ↦ rw e refl
]

pub get_from-comment_of : (m : Message) → get_from (comment_of m) "" ≡ get_from m.comment ""
get_from-comment_of m = elim (Bool-cases (empty_str (get_from m.comment ""))) [
  | inl e ↦ ground (arith, e, eq_iff (get_from m.comment "") "")
  | inr e ↦ ground (arith, e)
]

delay_from_timestamp-0 : (d prev : ℕ) → delay_from_timestamp d 0 prev ≡ (d, prev)
unfolding delay_from_timestamp
delay_from_timestamp-0 d prev = ground arith

module _ (q : Text) (p : Protocol) (fuel : ℕ) where
  pub load_send_list-cons :
      (prev prev' : ℕ) (e : Entry) (es : List (Option Entry)) (m m' : Message) (ms : List Message)
      → create_msg_object_from q p fuel (some e) ≡ some (some m)
      → load_send_msg e m prev ≡ (m', prev')
      → load_send_list q p fuel prev' es ≡ some ms
      → load_send_list q p fuel prev (some e ∷ es) ≡ some (m' ∷ ms)
  unfolding load_send_list
  load_send_list-cons prev prev' e es m m' ms made loaded rest = ground (arith, made, loaded, rest)

module _ (q : Text) (ok : Documented q) (p : Protocol) (fuel : ℕ) (make : Message → Message) where
  create-convert_send :
      (m : Message)
      → Restorable p m (make m)
      → create_msg_object_from q p (suc fuel) (some (convert_send_msg q m))
        ≡ some (some (remade_from p make m))
  unfolding convert_send_msg
  create-convert_send m r =
      create_msg_object_from_lem q ok p fuel (convert_send_msg q m) m (make m) r.named r.bytes refl
        refl refl r.remade
      ∙ ap (λ (x : Dict Variant). some (some (p.update_message (set_extra_info x (make m)))))
          (get_from-extra_info_of m)

  load_send-convert_send :
      (m : Message)
      → load_send_msg (convert_send_msg q m) (remade_from p make m) 0 ≡ (restored_send p make m, 0)
  unfolding convert_send_msg load_send_msg
  load_send-convert_send m =
      ground (arith, get_from-comment_of m, delay_from_timestamp-0 (get_from m.delay 0) 0)

  -- Messages to send that are saved and loaded come back in their order, each one the object that
  -- the protocol makes of its bytes, with its delay, repetition, comment and extra information; a
  -- count of 0 without a repeat duration becomes 1. It needs an id and bytes in range for each message,
  -- that the protocol can remake it at the saved index, and Qt's documented conversions.
  pub load-save_send_list :
      (ms : List Message)
      → All (λ m. Restorable p m (make m)) ms
      → load_send_list q p (suc fuel) 0 (map some (save_send_list q (map some ms)))
        ≡ some (map (restored_send p make) ms)
  unfolding load_send_list save_send_list
  load-save_send_list [] h = refl
  load-save_send_list (m ∷ ms) h =
      load_send_list-cons q p (suc fuel) 0 0 (convert_send_msg q m)
        (map some (save_send_list q (map some ms))) (remade_from p make m) (restored_send p make m)
        (map (restored_send p make) ms) (create-convert_send m h.0) (load_send-convert_send m)
        (load-save_send_list ms h.1)
