-- ===== src/Gui/Clicks.antt =====
-- Clicking a message of one of the two lists, and what the selection shows
-- (app/cc_view/src/GuiAppMgr.cpp).
use cc_tools_qt.Base.{ℕ, Bool, true, false, Option, none, some, ◌==◌, if◌then◌else◌}
use cc_tools_qt.ListView.{ListView, clear_selection, select_on_add, select_msg}
use cc_tools_qt.Gui.{Window, SelectionType, Signal, emit}

abbrev pub is_msg : Option ℕ → ℕ → Bool
is_msg none m = false
is_msg (some c) m = c == m

module _ {W : Type 0} where
  abbrev pub on_recv : (ListView → ListView) → Window W → Window W
  on_recv f s = record s { recv_list = f s.recv_list }

  abbrev pub on_send : (ListView → ListView) → Window W → Window W
  on_send f s = record s { send_list = f s.send_list }

  unfoldable pub display_message : Option ℕ → Window W → Window W
  display_message msg s = emit (Signal.display_msg msg) (record s { pending_display_msg = none })

  unfoldable pub clear_displayed_message : Window W → Window W
  clear_displayed_message s =
      emit Signal.clear_displayed_msg
        (record s { sel_type = SelectionType.unselected; clicked_msg = none })

  unfoldable pub emit_recv_not_selected : Window W → Window W
  emit_recv_not_selected s = emit (Signal.recv_msg_selected none) s

  -- The signal `sigSendMsgSelected` also selects the row in the list of messages to send.
  unfoldable pub emit_send_selected : Option ℕ → Window W → Window W
  emit_send_selected idx s = on_send (select_msg idx) (emit (Signal.send_msg_selected idx) s)

  -- `sigRecvMsgListSelectOnAddEnabled` changes the list of received messages.
  unfoldable pub msg_clicked : ℕ → SelectionType → Window W → Window W
  msg_clicked msg sel s =
      if is_msg s.clicked_msg msg
      then on_recv (select_on_add true) (clear_displayed_message s)
      else on_recv (select_on_add false)
          (display_message (some msg) (record s { sel_type = sel; clicked_msg = some msg }))

  unfoldable pub recv_msg_clicked : ℕ → Option ℕ → Window W → Window W
  recv_msg_clicked msg idx s =
      let s1 = emit_send_selected none (on_send clear_selection s) in
      let s2 = msg_clicked msg SelectionType.recv s1 in
      elim s2.clicked_msg [
        | none ↦ emit_recv_not_selected (on_recv clear_selection s2)
        | some m ↦ emit (Signal.recv_msg_selected idx) s2
      ]

  unfoldable pub send_msg_clicked : ℕ → Option ℕ → Window W → Window W
  send_msg_clicked msg idx s =
      let s1 = emit_recv_not_selected (on_recv clear_selection s) in
      let s2 = msg_clicked msg SelectionType.send s1 in
      elim s2.clicked_msg [
        | none ↦ emit_send_selected none (on_send clear_selection s2)
        | some m ↦ emit_send_selected idx s2
      ]
