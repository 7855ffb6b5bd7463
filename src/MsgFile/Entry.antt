-- ===== src/MsgFile/Entry.antt =====
-- A message as a QVariantMap for the file: `encodeMsgData`, `convertRecvMsg` and the two functions
-- that convert a list for saving (lib/src/ToolsMsgFileMgr.cpp). The map has one field for each key
-- that the code uses, `none` for an absent key.
use Prim.Native.String.{String}
use cc_tools_qt.Base.{
  ℕ, Bool, ◌&&◌, List, [], ◌∷◌, Option, none, some, Dict, is_empty, str_eq, if◌then◌else◌,
}
use cc_tools_qt.Message.{Variant, Message, get_from}
use cc_tools_qt.MsgFile.Hex.{Text, append_bytes, no_text}

pub record Entry : Type 0 where
  pub id : Option String
  pub msg_idx : Option ℕ
  pub data_str : Option (List ℕ)
  pub delay : Option ℕ
  pub delay_units : Option String
  pub repeat : Option ℕ
  pub repeat_units : Option String
  pub repeat_count : Option ℕ
  pub comment : Option String
  pub timestamp : Option ℕ
  pub type : Option ℕ
  pub extra_info : Option (Dict Variant)

abbrev pub empty_str : String → Bool
empty_str s = str_eq s ""

-- The comment and the extra information are left out when they are empty.
abbrev pub comment_of : Message → Option String
comment_of m = if empty_str (get_from m.comment "") then none else some (get_from m.comment "")

abbrev pub extra_info_of : Message → Option (Dict Variant)
extra_info_of m =
    if is_empty (get_from m.extra_info []) then none else some (get_from m.extra_info [])

-- The bytes that `encodeMsgData` writes: `raw_data` is what the raw data message encodes to.
abbrev pub msg_data : Message → List ℕ
msg_data m = if empty_str m.id_as_string then get_from m.raw_data [] else m.payload

module _ (q : Text) where
  abbrev pub encode_msg_data : Message → List ℕ
  encode_msg_data m = append_bytes q [] (msg_data m)

  -- `none` is the empty map.
  unfoldable pub convert_recv_msg : Message → Option Entry
  convert_recv_msg m =
      if empty_str m.id_as_string && no_text (encode_msg_data m)
      then none
      else some (record {
        id = if empty_str m.id_as_string then none else some m.id_as_string;
        msg_idx = if empty_str m.id_as_string then none else some (get_from m.msg_idx 0);
        data_str = some (encode_msg_data m);
        delay = none;
        delay_units = none;
        repeat = none;
        repeat_units = none;
        repeat_count = none;
        comment = comment_of m;
        timestamp = some (get_from m.timestamp 0);
        type = some (get_from m.msg_type 0);
        extra_info = extra_info_of m;
      })

  -- A message of the list is `none` for a null pointer.
  unfoldable pub save_recv_list : List (Option Message) → List Entry
  save_recv_list [] = []
  save_recv_list (none ∷ ms) = save_recv_list ms
  save_recv_list (some m ∷ ms) = elim (convert_recv_msg m) [
    | none ↦ save_recv_list ms
    | some e ↦ e ∷ save_recv_list ms
  ]

  -- The body of the loop of `convertSendMsgList` for saving.
  unfoldable pub convert_send_msg : Message → Entry
  convert_send_msg m = record {
    id = some m.id_as_string;
    msg_idx = some (get_from m.msg_idx 0);
    data_str = some (encode_msg_data m);
    delay = some (get_from m.delay 0);
    delay_units = some (get_from m.delay_units "");
    repeat = some (get_from m.repeat_duration 0);
    repeat_units = some (get_from m.repeat_duration_units "");
    repeat_count = some (get_from m.repeat_count 1);
    comment = comment_of m;
    timestamp = none;
    type = none;
    extra_info = extra_info_of m;
  }

  unfoldable pub save_send_list : List (Option Message) → List Entry
  save_send_list [] = []
  save_send_list (none ∷ ms) = save_send_list ms
  save_send_list (some m ∷ ms) = convert_send_msg m ∷ save_send_list ms
