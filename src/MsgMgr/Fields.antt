-- ===== src/MsgMgr/Fields.antt =====
-- The fields of ToolsMsgMgrImpl (lib/src/ToolsMsgMgrImpl.h), the message objects that its lists
-- point to, and the state of the plugins. `next_object` is the address of the next new object.
use Prim.Native.String.{String}
use cc_tools_qt.Base.{
  ℕ, ◌+◌, ◌%◌, Bool, List, [], ◌∷◌, ◌++◌, Option, none, some, ◌==◌, if◌then◌else◌,
}
use cc_tools_qt.Message.{Message, get_from}
use cc_tools_qt.Plugins.{Plugins}

-- The calls of the three callbacks, in their order.
pub data Event : Type 0 where
  msg_added : ℕ → Event
  error_reported : String → Event
  connection_reported : Bool → Event

pub record State (W : Type 0) : Type 0 where
  pub all_msgs : List ℕ
  pub recv_enabled : Bool
  pub socket : Option ℕ
  pub protocol : Option ℕ
  pub filters : List ℕ
  pub next_msg_num : ℕ
  pub running : Bool
  pub msg_added_callback : Bool
  pub error_report_callback : Bool
  pub connection_callback : Bool
  pub objects : ℕ → Message
  pub next_object : ℕ
  pub world : W
  pub events : List Event

-- The range of `unsigned long long`.
abbrev pub u64_mod : ℕ
u64_mod = 18446744073709551616

-- The object at address `h` becomes `m`.
abbrev pub put : ℕ → Message → (ℕ → Message) → ℕ → Message
put h m objects q = if h == q then m else objects q

-- `SeqNumber().getFrom(msg)`: the default value is 0.
abbrev pub num_of : Message → ℕ
num_of m = get_from m.msg_num 0

module _ {W : Type 0} where
  abbrev pub modify : ℕ → (Message → Message) → State W → State W
  modify h f s = record s { objects = put h (f (s.objects h)) s.objects }

  -- `assert(0 < m_nextMsgNum)` follows, and has no effect in a release build.
  unfoldable pub update_internal_id : ℕ → State W → State W
  update_internal_id h s = record (modify h (λ m. record m { msg_num = some s.next_msg_num }) s) {
    next_msg_num = (s.next_msg_num + 1) % u64_mod;
  }

  unfoldable pub report_msg_added : ℕ → State W → State W
  report_msg_added h s =
      if s.msg_added_callback then record s { events = s.events ++ msg_added h ∷ [] } else s

  -- The message on std::cerr is left out.
  unfoldable pub report_error : String → State W → State W
  report_error error s =
      if s.error_report_callback
      then record s { events = s.events ++ error_reported error ∷ [] }
      else s

  unfoldable pub report_socket_connection_status : Bool → State W → State W
  report_socket_connection_status connected s =
      if s.connection_callback
      then record s { events = s.events ++ connection_reported connected ∷ [] }
      else s

-- `updateMsgTimestamp(msg, TimestampClock::now())`.
unfoldable pub stamp_now : {W : Type 0} → Plugins W → ℕ → State W → State W
stamp_now p h s =
    let (t, w) = p.now s.world in
    modify h (λ m. record m { timestamp = some (p.to_ms t) }) (record s { world = w })

-- A manager as the constructor leaves it, over given objects and a given world.
unfoldable pub init : {W : Type 0} → (ℕ → Message) → ℕ → W → State W
init objects next_object world = record {
  all_msgs = [];
  recv_enabled = Bool.false;
  socket = none;
  protocol = none;
  filters = [];
  next_msg_num = 1;
  running = Bool.false;
  msg_added_callback = Bool.false;
  error_report_callback = Bool.false;
  connection_callback = Bool.false;
  objects = objects;
  next_object = next_object;
  world = world;
  events = [];
}
