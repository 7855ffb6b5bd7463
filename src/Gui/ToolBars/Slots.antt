-- ===== src/Gui/ToolBars/Slots.antt =====
-- The tool bars follow the manager through its callbacks and timer
-- (app/cc_view/src/GuiAppMgr.cpp).
use cc_tools_qt.Base.{ℕ, true, false, List, [], ◌∷◌, map, some, if_keeps, str_append}
use cc_tools_qt.Message.{Message}
use cc_tools_qt.Plugins.{Plugins}
use cc_tools_qt.MsgMgr.Fields.{State, Event}
use cc_tools_qt.MsgMgr.Delete.{delete_all_msgs}
use cc_tools_qt.MsgMgr.Receive.{add_msgs}
use cc_tools_qt.ListView.{get_elem?, select_msg}
use cc_tools_qt.Gui.{Window, ActivityState, Signal, can_add_to_recv_list}
use cc_tools_qt.Gui.Clicks.{on_recv, display_message, recv_msg_clicked}
use cc_tools_qt.Gui.RecvList.{
  add_msg_to_recv_list, clear_recv_list, show_pending, msg_added, pending_display_timeout, on_event,
  on_events, with_msg_mgr, recv_row_clicked, allocate, recv_load_msgs,
}
use cc_tools_qt.Gui.ToolBars.Cases.{option_cases}
use cc_tools_qt.Gui.ToolBars.Following.{Follows, emit-FollowsAs}
use cc_tools_qt.Gui.ToolBars.Reports.{display_message-Follows}
use cc_tools_qt.Gui.ToolBars.Clicking.{recv_msg_clicked-Follows}
use cc_tools_qt.Gui.ToolBars.Receiving.{add_msg_to_recv_list-Follows, clear_recv_list-Follows}

module _ {W : Type 0} (a : ActivityState) where
  show_pending-Follows : (h : ℕ) (s : Window W) → Follows a s → Follows a (show_pending h s)
  unfolding show_pending
  show_pending-Follows h s k =
      let P = λ (t : Window W). Follows a t in
      let shown = display_message-Follows a (some h) s k in
      option_cases P s.clicked_msg _ (λ m. s)
        (λ e.
          if_keeps P s.pending_display_wait (record s { pending_display_msg = some h })
            (record (display_message (some h) s) { pending_display_wait = true }) k shown)
        (λ m e. k)

  msg_added-Follows : (h : ℕ) (s : Window W) → Follows a s → Follows a (msg_added h s)
  unfolding msg_added
  msg_added-Follows h s k =
      let s1 = add_msg_to_recv_list h s in
      if_keeps (λ (t : Window W). Follows a t) (can_add_to_recv_list s h) (show_pending h s1) s
        (show_pending-Follows h s1 (add_msg_to_recv_list-Follows a h s k)) k

  pub pending_display_timeout-Follows :
      (s : Window W) → Follows a s → Follows a (pending_display_timeout s)
  unfolding pending_display_timeout
  pending_display_timeout-Follows s k =
      let s1 = record s { pending_display_wait = false } in
      option_cases (λ (t : Window W). Follows a t) s.pending_display_msg s1
        (λ h. display_message (some h) s1) (λ e. k) (λ h e. display_message-Follows a (some h) s1 k)

  on_event-Follows : (e : Event) (s : Window W) → Follows a s → Follows a (on_event e s)
  unfolding on_event
  on_event-Follows (Event.msg_added h) s k = msg_added-Follows h s k
  on_event-Follows (Event.error_reported error) s k =
      let text = str_append error "\nThe tool may not work properly!" in
      emit-FollowsAs a s.sel_type (Signal.error_reported text) s k
  on_event-Follows (Event.connection_reported connected) s k =
      emit-FollowsAs a s.sel_type (Signal.socket_connected connected) s k

  on_events-Follows : (es : List Event) (s : Window W) → Follows a s → Follows a (on_events es s)
  unfolding on_events
  on_events-Follows [] s k = k
  on_events-Follows (e ∷ es) s k = on_events-Follows es (on_event e s) (on_event-Follows e s k)

  pub with_msg_mgr-Follows :
      (f : State W → State W) (s : Window W) → Follows a s → Follows a (with_msg_mgr f s)
  unfolding with_msg_mgr
  with_msg_mgr-Follows f s k =
      let m = f (record s.msg_mgr { events = [] }) in
      on_events-Follows m.events (record s { msg_mgr = record m { events = [] } }) k

  pub recv_row_clicked-Follows :
      (i : ℕ) (s : Window W) → Follows a s → Follows a (recv_row_clicked i s)
  unfolding recv_row_clicked
  recv_row_clicked-Follows i s k =
      let s1 = on_recv (select_msg (some i)) s in
      option_cases (λ (t : Window W). Follows a t) (get_elem? s.recv_list.rows i) s
        (λ m. recv_msg_clicked m (some i) s1) (λ e. k)
        (λ m e. recv_msg_clicked-Follows a s.sel_type m (some i) s1 k)

  pub recv_load_msgs-Follows :
      (p : Plugins W) (loaded : List Message) (s : Window W)
      → Follows a s
      → Follows a (recv_load_msgs p loaded s)
  unfolding recv_load_msgs
  recv_load_msgs-Follows p loaded s k =
      let (hs, m) = allocate loaded s.msg_mgr in
      let s1 = clear_recv_list false (record s { msg_mgr = m }) in
      with_msg_mgr-Follows (add_msgs p (map some hs) true)
        (record s1 { msg_mgr = delete_all_msgs s1.msg_mgr })
        (clear_recv_list-Follows a false (record s { msg_mgr = m }) k)
