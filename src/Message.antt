-- ===== src/Message.antt =====
-- Message objects with their dynamic properties (lib/include/cc_tools_qt/property/message.h,
-- ToolsMessage.h) and the data blocks that travel between plugins (ToolsDataInfo.h).
--
-- A property is a field of type `Option`: `none` is a property that was never set. What a concrete
-- message class computes itself (id, name, encoded fields) is a plain field. Each property has one
-- C++ type, so the failing conversion of `getFrom` is the case of an absent property.
use Prim.Native.String.{String}
use cc_tools_qt.Base.{ℕ, Option, none, some, List, [], Dict}

-- The kinds of QVariant that the modelled code stores.
pub data Variant : Type 0 where
  text : String → Variant
  number : ℕ → Variant
  texts : List String → Variant

-- The values of `ToolsMessage::Type`; the property holds the number.
abbrev pub type_invalid : ℕ
type_invalid = 0

abbrev pub type_received : ℕ
type_received = 1

abbrev pub type_sent : ℕ
type_sent = 2

pub record Message : Type 0 where
  -- What the virtual functions of the object return.
  pub id_as_string : String
  pub name : String
  pub payload : List ℕ
  -- The dynamic properties.
  pub msg_num : Option ℕ
  pub msg_type : Option ℕ
  pub msg_idx : Option ℕ
  pub timestamp : Option ℕ
  pub protocol_name : Option String
  pub raw_data : Option (List ℕ)
  pub extra_info_msg : Option (List ℕ)
  pub extra_info : Option (Dict Variant)
  pub force_extra_info : Option ℕ
  pub delay : Option ℕ
  pub delay_units : Option String
  pub repeat_duration : Option ℕ
  pub repeat_duration_units : Option String
  pub repeat_count : Option ℕ
  pub comment : Option String

pub record DataInfo : Type 0 where
  pub timestamp : ℕ
  pub bytes : List ℕ
  pub extra_properties : Dict Variant

-- `ToolsDataInfo::Timestamp()`, the clock's epoch.
abbrev pub default_timestamp : ℕ
default_timestamp = 0

abbrev pub make_data_info : DataInfo
make_data_info = record { timestamp = default_timestamp; bytes = []; extra_properties = [] }

-- An object of a message class with no property set, as a constructor or `clone()` leaves it.
abbrev pub plain_message : String → String → List ℕ → Message
plain_message i n p = record {
  id_as_string = i;
  name = n;
  payload = p;
  msg_num = none;
  msg_type = none;
  msg_idx = none;
  timestamp = none;
  protocol_name = none;
  raw_data = none;
  extra_info_msg = none;
  extra_info = none;
  force_extra_info = none;
  delay = none;
  delay_units = none;
  repeat_duration = none;
  repeat_duration_units = none;
  repeat_count = none;
  comment = none;
}

module _ {ℓ} {A : Type ℓ} where
  -- `ToolsMsgPropBase::getFrom`.
  abbrev pub get_from : Option A → A → A
  get_from none default = default
  get_from (some v) default = v

  -- `ToolsMsgPropBase::copyFromTo`: an absent property leaves the target as it is.
  abbrev pub copy_from_to : Option A → Option A → Option A
  copy_from_to none to = to
  copy_from_to (some v) to = some v
