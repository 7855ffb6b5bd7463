-- ===== src/Gui/RecvList.antt =====
-- The list of received and sent messages (app/cc_view/src/GuiAppMgr.cpp, widget/RecvMsgListWidget.cpp).
-- `none` as the result of a slot is the use of a null pointer: no message is selected.
use Prim.Native.String.{String}
use cc_tools_qt.Base.{
  ℕ, ◌+◌, ◌-◌, ◌%◌, Bool, true, false, ◌&&◌, List, [], ◌∷◌, length, map, Option, none, some, ◌==◌,
  str_eq, str_append, if◌then◌else◌,
}
use cc_tools_qt.Message.{Message}
use cc_tools_qt.Plugins.{Plugins}
use cc_tools_qt.MsgMgr.Fields.{State, Event, put}
use cc_tools_qt.MsgMgr.Control
use cc_tools_qt.MsgMgr.Delete.{delete_msg, delete_msgs, delete_all_msgs}
use cc_tools_qt.MsgMgr.Receive.{add_msgs}
use cc_tools_qt.ListView.{
  get_elem?, add_message, current_msg, delete_current, select_on_add, clear_selection, clear_list,
  select_msg,
}
use cc_tools_qt.Gui.{Window, SelectionType, Signal, u32_mod, emit, can_add_to_recv_list}
use cc_tools_qt.Gui.Clicks.{
  is_msg, on_recv, display_message, clear_displayed_message, emit_recv_not_selected,
  recv_msg_clicked,
}

-- `RecvListMode`.
pub data Mode : Type 0 where
  show_received : Mode
  show_sent : Mode
  show_garbage : Mode
  filter_applied : Mode

abbrev pub is_recv : SelectionType → Bool
is_recv SelectionType.recv = true
is_recv SelectionType.send = false
is_recv SelectionType.unselected = false

abbrev pub is_send : SelectionType → Bool
is_send SelectionType.send = true
is_send SelectionType.recv = false
is_send SelectionType.unselected = false

abbrev pub same_texts : List String → List String → Bool
same_texts [] [] = true
same_texts [] (t ∷ ts) = false
same_texts (s ∷ ss) [] = false
same_texts (s ∷ ss) (t ∷ ts) = str_eq s t && same_texts ss ts

module _ {W : Type 0} where
  unfoldable pub add_msg_to_recv_list : ℕ → Window W → Window W
  add_msg_to_recv_list h s =
      let count = (s.recv_list_count + 1) % u32_mod in
      on_recv (add_message h)
        (emit (Signal.recv_list_count_report count) (record s { recv_list_count = count }))

  unfoldable pub delete_messages : List ℕ → State W → State W
  delete_messages msgs m =
      if length m.all_msgs == length msgs then delete_all_msgs m else delete_msgs msgs m

  -- The first part of `clearRecvList`, up to `sigRecvClear`.
  unfoldable pub forget_recv_list : Window W → Window W
  forget_recv_list s =
      let s1 = record s { recv_list_count = 0 } in
      let s2 = if is_send s.sel_type then s1 else clear_displayed_message s1 in
      let s3 =
        if is_recv s.sel_type
        then emit_recv_not_selected (on_recv (select_on_add true) s2)
        else s2 in
      emit (Signal.recv_list_count_report 0) s3

  -- `sigRecvClear` empties the list, which hands its messages back to be deleted.
  unfoldable pub clear_recv_list : Bool → Window W → Window W
  clear_recv_list report_deleted s =
      let s1 = on_recv clear_list (forget_recv_list s) in
      if report_deleted
      then record s1 { msg_mgr = delete_messages s.recv_list.rows s1.msg_mgr }
      else s1

  -- The body of the loop of `refreshRecvList`.
  unfoldable pub show_one : Option ℕ → ℕ → Window W → Window W
  show_one clicked h s =
      let s1 = add_msg_to_recv_list h s in
      let row = some ((s1.recv_list_count + u32_mod - 1) % u32_mod) in
      if can_add_to_recv_list s h
      then if is_msg clicked h then recv_msg_clicked h row s1 else s1
      else s

  unfoldable pub show_each : Option ℕ → List ℕ → Window W → Window W
  show_each clicked [] s = s
  show_each clicked (h ∷ hs) s = show_each clicked hs (show_one clicked h s)

  -- The first part of `refreshRecvList`: a selected message of the list is clicked once more. With the
  -- selection in this list there is such a message (Gui/Consistent).
  unfoldable pub unselect_recv : Window W → Window W
  unselect_recv s = elim s.sel_type [
    | SelectionType.recv ↦ elim s.clicked_msg [
      | none ↦ s
      | some m ↦ recv_msg_clicked m (some ((s.recv_list_count + u32_mod - 1) % u32_mod)) s
    ]
    | SelectionType.unselected ↦ emit Signal.clear_displayed_msg s
    | SelectionType.send ↦ s
  ]

  -- The last part of `refreshRecvList`.
  unfoldable pub unmark_recv : Window W → Window W
  unmark_recv s = elim s.clicked_msg [ none ↦ on_recv clear_selection s | some m ↦ s ]

  unfoldable pub refresh_recv_list : Window W → Window W
  refresh_recv_list s =
      let s1 = clear_recv_list false (unselect_recv s) in
      unmark_recv (show_each s.clicked_msg s1.msg_mgr.all_msgs s1)

  unfoldable pub set_mode : Mode → Bool → Window W → Window W
  set_mode show_received b s = record s { shows_received = b }
  set_mode show_sent b s = record s { shows_sent = b }
  set_mode show_garbage b s = record s { shows_garbage = b }
  set_mode filter_applied b s = record s { apply_filter = b }

  unfoldable pub update_recv_list_mode : Mode → Bool → Window W → Window W
  update_recv_list_mode show_garbage b s = refresh_recv_list (set_mode show_garbage b s)
  update_recv_list_mode show_received b s =
      refresh_recv_list (emit Signal.recv_list_title_needs_update (set_mode show_received b s))
  update_recv_list_mode show_sent b s =
      refresh_recv_list (emit Signal.recv_list_title_needs_update (set_mode show_sent b s))
  update_recv_list_mode filter_applied b s =
      refresh_recv_list (emit Signal.recv_list_title_needs_update (set_mode filter_applied b s))

  unfoldable pub set_filtered_messages : List String → Window W → Window W
  set_filtered_messages fs s =
      if same_texts fs s.filtered_messages
      then s
      else if s.apply_filter
      then refresh_recv_list (record s { filtered_messages = fs })
      else record s { filtered_messages = fs }

  -- The end of `msgAdded`: with nothing selected the message is displayed, at once or when the
  -- timer fires.
  unfoldable pub show_pending : ℕ → Window W → Window W
  show_pending h s = elim s.clicked_msg [
    | some m ↦ s
    | none ↦
        if s.pending_display_wait
        then record s { pending_display_msg = some h }
        else record (display_message (some h) s) { pending_display_wait = true }
  ]

  unfoldable pub msg_added : ℕ → Window W → Window W
  msg_added h s = if can_add_to_recv_list s h then show_pending h (add_msg_to_recv_list h s) else s

  unfoldable pub pending_display_timeout : Window W → Window W
  pending_display_timeout s = elim s.pending_display_msg [
    | none ↦ record s { pending_display_wait = false }
    | some h ↦ display_message (some h) (record s { pending_display_wait = false })
  ]

  -- The callbacks that the constructor sets.
  unfoldable pub on_event : Event → Window W → Window W
  on_event (Event.msg_added h) s = msg_added h s
  on_event (Event.error_reported error) s =
      emit (Signal.error_reported (str_append error "\nThe tool may not work properly!")) s
  on_event (Event.connection_reported connected) s = emit (Signal.socket_connected connected) s

  unfoldable pub on_events : List Event → Window W → Window W
  on_events [] s = s
  on_events (e ∷ es) s = on_events es (on_event e s)

  -- A call of the message manager, then its callbacks in their order: they read only the messages'
  -- texts and types, which are set before a message is reported.
  unfoldable pub with_msg_mgr : (State W → State W) → Window W → Window W
  with_msg_mgr f s =
      let m = f (record s.msg_mgr { events = [] }) in
      on_events m.events (record s { msg_mgr = record m { events = [] } })

  unfoldable pub dec_recv_list_count : Window W → Window W
  dec_recv_list_count s =
      let count = (s.recv_list_count + u32_mod - 1) % u32_mod in
      let s1 = record s { recv_list_count = count } in
      emit (Signal.recv_list_count_report count)
        (if count == 0 then emit_recv_not_selected s1 else s1)

  -- `sigRecvDeleteSelectedMsg`: the list deletes its current row and clicks the next one.
  unfoldable pub delete_current_recv : (ℕ → ℕ → Option ℕ) → Window W → Window W
  delete_current_recv next s =
      let s1 = on_recv (delete_current next) s in
      elim (current_msg s1.recv_list) [
        | none ↦ s1
        | some m ↦ recv_msg_clicked m s1.recv_list.current_row s1
      ]

  unfoldable pub recv_delete_clicked : (ℕ → ℕ → Option ℕ) → Window W → Option (Window W)
  recv_delete_clicked next s = elim s.clicked_msg [
    | none ↦ none
    | some m ↦ some (
        dec_recv_list_count (
          delete_current_recv next
            (clear_displayed_message (record s { msg_mgr = delete_msg m s.msg_mgr }))))
  ]

  abbrev pub recv_clear_clicked : Window W → Window W
  recv_clear_clicked s = clear_recv_list true s

  -- The user makes a row the current one, or clicks the current one again.
  unfoldable pub recv_row_clicked : ℕ → Window W → Window W
  recv_row_clicked i s = elim (get_elem? s.recv_list.rows i) [
    | none ↦ s
    | some m ↦ recv_msg_clicked m (some i) (on_recv (select_msg (some i)) s)
  ]

  unfoldable pub set_recv_running : Bool → Window W → Window W
  set_recv_running b s =
      emit (Signal.set_recv_state b)
        (record s { msg_mgr = Control.set_recv_enabled b s.msg_mgr; recv_running = b })

  -- New message objects.
  unfoldable pub allocate : List Message → State W → List ℕ × State W
  allocate [] m = ([], m)
  allocate (x ∷ xs) m =
      let h = m.next_object in
      let (hs, m') = allocate xs (record m { objects = put h x m.objects; next_object = h + 1 }) in
      (h ∷ hs, m')

module _ {W : Type 0} (p : Plugins W) where
  -- `recvLoadMsgsFromFile`, with what the file manager loads.
  unfoldable pub recv_load_msgs : List Message → Window W → Window W
  recv_load_msgs loaded s =
      let (hs, m) = allocate loaded s.msg_mgr in
      let s1 = clear_recv_list false (record s { msg_mgr = m }) in
      with_msg_mgr (add_msgs p (map some hs) true)
        (record s1 { msg_mgr = delete_all_msgs s1.msg_mgr })
