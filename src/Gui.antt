-- ===== src/Gui.antt =====
-- The application's manager and the two message lists of its window: app/cc_view/src/GuiAppMgr.cpp and
-- GuiAppMgr.h, with widget/MsgListWidget.cpp, RecvMsgListWidget.cpp and SendMsgListWidget.cpp.
-- Qt runs a slot when its signal is emitted, so an `emit` to a list is a change of that list here, at
-- the same place; signals to other parts of the window are recorded. The message manager is the one
-- of MsgMgr, which calls back through its events. Asserts are those of a release build.
pub mod Clicks
pub mod Dialogs
pub mod RecvList
pub mod SendList
pub mod Selection
pub mod Consistent
pub mod Steps
pub mod Shown
pub mod ToolBars
pub mod Moving
use Prim.Native.String.{String}
use cc_tools_qt.Base.{
  ℕ, ◌+◌, ◌-◌, ◌%◌, Bool, true, false, not, ◌&&◌, List, [], ◌∷◌, ◌++◌, Option, none, some, ◌==◌,
  str_eq, str_append, str_lt, if◌then◌else◌,
}
use cc_tools_qt.Message.{Message, type_received, type_sent, get_from}
use cc_tools_qt.MsgMgr.Fields
use cc_tools_qt.ListView.{ListView}

-- `GuiAppMgr::SelectionType`: in no list, in that of received, in that of messages to send.
pub data SelectionType : Type 0 where
  unselected : SelectionType
  recv : SelectionType
  send : SelectionType

pub data SendState : Type 0 where
  idle : SendState
  sending_single : SendState
  sending_all : SendState

-- `GuiAppMgr::ActivityState`, by which the tool bars know what they may offer.
pub data ActivityState : Type 0 where
  clear : ActivityState
  inactive : ActivityState
  active : ActivityState

-- The signals that go to tool bars, dialogs and the details of a message, and the calls of the send
-- manager. A row is `none` for -1, and a message for a null pointer.
pub data Signal : Type 0 where
  set_recv_state : Bool → Signal
  set_send_state : SendState → Signal
  display_msg : Option ℕ → Signal
  clear_displayed_msg : Signal
  recv_msg_selected : Option ℕ → Signal
  send_msg_selected : Option ℕ → Signal
  recv_list_count_report : ℕ → Signal
  send_list_count_report : ℕ → Signal
  recv_list_title_needs_update : Signal
  error_reported : String → Signal
  socket_connected : Bool → Signal
  msg_comment_dialog : Option ℕ → Signal
  msg_comment_updated : ℕ → Signal
  update_send_msg_dialog : Option ℕ → Signal
  load_send_msgs_dialog : Bool → Signal
  send_mgr_start : List ℕ → Signal
  send_mgr_stop : Signal
  clear_all_main_toolbar_actions : Signal
  add_main_toolbar_action : ℕ → Signal
  activity_state_changed : ActivityState → Signal
  socket_connect_enabled : Bool → Signal

pub record Window (W : Type 0) : Type 0 where
  pub msg_mgr : Fields.State W
  pub recv_running : Bool
  pub recv_list_count : ℕ
  -- The bits of `m_recvListMode`.
  pub shows_received : Bool
  pub shows_sent : Bool
  pub shows_garbage : Bool
  pub apply_filter : Bool
  pub send_state : SendState
  pub send_list_count : ℕ
  pub sel_type : SelectionType
  pub clicked_msg : Option ℕ
  pub pending_display_msg : Option ℕ
  pub pending_display_wait : Bool
  pub filtered_messages : List String
  pub recv_list : ListView
  pub send_list : ListView
  pub signals : List Signal

-- The range of `unsigned`.
abbrev pub u32_mod : ℕ
u32_mod = 4294967296

abbrev pub message_desc : Message → String
message_desc m = str_append "(" (str_append m.id_as_string (str_append ") " m.name))

-- The documented result of `std::lower_bound` over the sorted `m_filteredMessages`: the part from the
-- first text on that is not before `d`. Texts are ordered by their code points; QString orders them by
-- UTF-16 units, which differs only for characters beyond the basic plane.
unfoldable pub lower_bound : String → List String → List String
lower_bound d [] = []
lower_bound d (f ∷ fs) = if str_lt f d then lower_bound d fs else f ∷ fs

unfoldable pub is_hidden : String → List String → Bool
is_hidden d fs = elim (lower_bound d fs) [ [] ↦ false | f ∷ rest ↦ str_eq f d ]

module _ {W : Type 0} where
  abbrev pub emit : Signal → Window W → Window W
  emit e s = record s { signals = s.signals ++ e ∷ [] }

  abbrev pub object : Window W → ℕ → Message
  object s = s.msg_mgr.objects

  unfoldable pub can_add_to_recv_list : Window W → ℕ → Bool
  can_add_to_recv_list s h =
      let m = object s h in
      let type = get_from m.msg_type 0 in
      if str_eq m.id_as_string ""
      then s.shows_garbage
      else if (type == type_sent) && not s.shows_sent
      then false
      else if (type == type_received) && not s.shows_received
      then false
      else if not s.apply_filter
      then true
      else not (is_hidden (message_desc m) s.filtered_messages)
