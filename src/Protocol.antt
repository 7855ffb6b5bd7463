-- ===== src/Protocol.antt =====
-- The base class of protocols: lib/src/ToolsProtocol.cpp. It wraps a frame (ToolsFrame.h), whose
-- functions are parameters, and so is the name that the plugin gives. Debug output is left out. Asserts
-- are those of a release build.
pub mod Recreation
pub mod Copies
use Prim.Native.String.{String}
use cc_tools_qt.Base.{
  ℕ, ◌+◌, ◌%◌, Bool, true, false, List, [], ◌∷◌, map, Option, none, some, Dict, is_empty, str_eq,
  if◌then◌else◌,
}
use cc_tools_qt.Message.{Message, Variant, DataInfo, make_data_info, get_from, copy_from_to}
use cc_tools_qt.Gui.{u32_mod}
use cc_tools_qt.Factory.{clone}

-- The frame and the message classes. A raw message is the bytes that it encodes, as is a message of
-- extra information; null pointers are `none`.
pub record Frame (W : Type 0) : Type 0 where
  -- `nameImpl` of the protocol.
  pub name : String
  pub now : W → ℕ × W
  pub read_data : DataInfo → W → List Message × W
  pub encode_framed : Message → List ℕ
  -- `refreshMsg` says whether it has changed the message.
  pub refresh_msg : Message → Bool × Message
  pub update_message : Message → Message
  pub create_invalid_message : Option Message
  -- `createRawDataMessage`, then `decodeData`.
  pub raw_data_message : List ℕ → Option (List ℕ)
  -- Whether `createExtraInfoMessage` gives a message, and its `decodeData` of the JSON text.
  pub has_extra_info_message : Bool
  pub extra_info_message : Dict Variant → Option (List ℕ)
  pub create_all_messages : List Message
  pub create_message : String → ℕ → Option Message

-- `copyCommonProperties`.
unfoldable pub copy_common : Message → Message → Message
copy_common src dst = record dst {
  delay = copy_from_to src.delay dst.delay;
  delay_units = copy_from_to src.delay_units dst.delay_units;
  repeat_duration = copy_from_to src.repeat_duration dst.repeat_duration;
  repeat_duration_units = copy_from_to src.repeat_duration_units dst.repeat_duration_units;
  repeat_count = copy_from_to src.repeat_count dst.repeat_count;
  comment = copy_from_to src.comment dst.comment;
}

module _ {W : Type 0} (f : Frame W) where
  unfoldable pub set_name : Message → Message
  set_name m = record m { protocol_name = some f.name }

  unfoldable pub read : DataInfo → W → List Message × W
  read d w = let (ms, w') = f.read_data d w in (map set_name ms, w')

  unfoldable pub write : Message → W → Option DataInfo × W
  write m w =
      if str_eq m.id_as_string ""
      then elim m.raw_data [
        | none ↦ (none, w)
        | some bytes ↦
            let (t, w') = f.now w in
            (some (record make_data_info { timestamp = t; bytes = bytes }), w')
      ]
      else let (t, w') = f.now w in
        (
          some (record make_data_info {
            timestamp = t;
            bytes = f.encode_framed m;
            extra_properties = get_from m.extra_info [];
          }),
          w',
        )

  -- The result is whether the message has changed.
  unfoldable pub update : Message → Bool × Message
  update m =
      let extra = get_from m.extra_info [] in
      if str_eq m.id_as_string ""
      then if is_empty extra
        then (false, record m { extra_info_msg = none })
        else if f.has_extra_info_message
        then (false, record m { extra_info_msg = f.extra_info_message extra })
        else (false, m)
      else let (refreshed, m') = f.refresh_msg m in (refreshed, f.update_message m')

  -- One round of the loop of `createAllMessages`.
  unfoldable pub prepare : ℕ → Message → Message
  prepare idx m =
      (update (record (set_name (record m { msg_idx = some idx })) { force_extra_info = some 1 })).1

  unfoldable pub idx_after : String → ℕ → String → ℕ
  idx_after prev_id prev_idx id = if str_eq prev_id id then (prev_idx + 1) % u32_mod else 0

  unfoldable pub prepare_each : String → ℕ → List Message → List Message
  prepare_each prev_id prev_idx [] = []
  prepare_each prev_id prev_idx (m ∷ ms) =
      let idx = idx_after prev_id prev_idx m.id_as_string in
      prepare idx m ∷ prepare_each m.id_as_string idx ms

  unfoldable pub create_all_messages : List Message
  create_all_messages = prepare_each "" 0 f.create_all_messages

  unfoldable pub create_message : String → ℕ → Option Message
  create_message id idx = elim (f.create_message id idx) [
    | none ↦ none
    | some m ↦ some (record m { msg_idx = some idx })
  ]

  unfoldable pub create_invalid_message : List ℕ → Option Message
  create_invalid_message bytes = elim (f.raw_data_message bytes) [
    | none ↦ none
    | some raw ↦ elim f.create_invalid_message [
      | none ↦ none
      | some m ↦ some (record (set_name m) { raw_data = some raw })
    ]
  ]

  -- The copy of a message without an identifier. A null pointer from the frame is not tested before
  -- its name is set, which is `none` here.
  unfoldable pub clone_invalid : Message → Option Message
  clone_invalid m =
      let copy : Option Message = elim m.raw_data [
        | some bytes ↦ create_invalid_message bytes
        | none ↦ elim f.create_invalid_message [ none ↦ none | some x ↦ some (set_name x) ]
      ] in
      let extra = get_from m.extra_info [] in
      elim copy [
        | none ↦ none
        | some x ↦
            let x1 = copy_common m x in
            some (if is_empty extra then x1 else (update (record x1 { extra_info = some extra })).1)
      ]

  unfoldable pub clone_message : Message → Option Message
  clone_message m =
      let x = (update (set_name (copy_common m (clone m)))).1 in
      if str_eq m.id_as_string ""
      then clone_invalid m
      else some (record x { extra_info = copy_from_to m.extra_info x.extra_info })
