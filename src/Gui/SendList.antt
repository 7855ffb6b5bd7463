-- ===== src/Gui/SendList.antt =====
-- The list of messages to send (app/cc_view/src/GuiAppMgr.cpp, widget/SendMsgListWidget.cpp and
-- MsgListWidget.cpp). `none` as the result of a slot is the use of a null pointer.
use cc_tools_qt.Base.{
  ℕ, ◌+◌, ◌-◌, ◌%◌, Bool, List, [], ◌∷◌, length, map, Option, none, some, ◌==◌, leb, ltb,
  if◌then◌else◌,
}
use cc_tools_qt.Message.{Message}
use cc_tools_qt.Plugins.{Plugins}
use cc_tools_qt.MsgMgr.Fields.{put}
use cc_tools_qt.MsgMgr.Send.{send_msgs}
use cc_tools_qt.ListView.{
  get_elem?, erase_idx, insert_at, add_message, add_messages, current_msg, update_current,
  delete_current, clear_list, select_msg,
}
use cc_tools_qt.Gui.{Window, SelectionType, SendState, Signal, u32_mod, emit, object}
use cc_tools_qt.Gui.Clicks.{
  is_msg, on_send, display_message, clear_displayed_message, emit_send_selected, send_msg_clicked,
}
use cc_tools_qt.Gui.Dialogs.{send_edit_clicked}
use cc_tools_qt.Gui.RecvList.{is_send, allocate, with_msg_mgr}

-- The loop of `sendUpdateList` over the messages from index `i` on.
unfoldable pub index_of_msg : Option ℕ → List ℕ → ℕ → ℕ
index_of_msg clicked [] i = i
index_of_msg clicked (m ∷ ms) i = if is_msg clicked m then i else index_of_msg clicked ms (i + 1)

module _ {W : Type 0} where
  unfoldable pub set_send_count : ℕ → Window W → Window W
  set_send_count n s = emit (Signal.send_list_count_report n) (record s { send_list_count = n })

  unfoldable pub send_add_new_message : ℕ → Window W → Window W
  send_add_new_message msg s =
      let s1 = set_send_count ((s.send_list_count + 1) % u32_mod) s in
      let row = some ((s1.send_list_count + u32_mod - 1) % u32_mod) in
      send_msg_clicked msg row (on_send (add_message msg) s1)

  unfoldable pub send_update_message : ℕ → Window W → Window W
  send_update_message msg s =
      display_message (some msg)
        (on_send (update_current msg) (record s { clicked_msg = some msg }))

  unfoldable pub dec_send_list_count : Window W → Window W
  dec_send_list_count s =
      let count = (s.send_list_count + u32_mod - 1) % u32_mod in
      let s1 = record s { send_list_count = count } in
      emit (Signal.send_list_count_report count)
        (if count == 0 then emit_send_selected none s1 else s1)

  unfoldable pub delete_current_send : (ℕ → ℕ → Option ℕ) → Window W → Window W
  delete_current_send next s =
      let s1 = on_send (delete_current next) s in
      elim (current_msg s1.send_list) [
        | none ↦ s1
        | some m ↦ send_msg_clicked m s1.send_list.current_row s1
      ]

  unfoldable pub send_delete_clicked : (ℕ → ℕ → Option ℕ) → Window W → Window W
  send_delete_clicked next s =
      dec_send_list_count (delete_current_send next (clear_displayed_message s))

  unfoldable pub send_clear_clicked : Window W → Window W
  send_clear_clicked s =
      let s1 = record (on_send clear_list s) { send_list_count = 0 } in
      let s2 =
        if is_send s.sel_type then emit_send_selected none (clear_displayed_message s1) else s1 in
      emit (Signal.send_list_count_report 0) s2

  unfoldable pub send_row_clicked : ℕ → Window W → Window W
  send_row_clicked i s = elim (get_elem? s.send_list.rows i) [
    | none ↦ s
    | some m ↦ send_msg_clicked m (some i) (on_send (select_msg (some i)) s)
  ]

  -- A double click on a row that is not selected selects it first.
  unfoldable pub send_row_double_clicked : ℕ → Window W → Window W
  send_row_double_clicked i s = elim (get_elem? s.send_list.rows i) [
    | none ↦ s
    | some m ↦ elim s.send_state [
      | SendState.idle ↦
          let s1 = if is_msg s.clicked_msg m then s else send_msg_clicked m (some i) s in
          send_edit_clicked s1
      | SendState.sending_single ↦ s
      | SendState.sending_all ↦ s
    ]
  ]

  -- `takeItem`: the row that becomes current is clicked, if the current row was taken.
  unfoldable pub take_row : (ℕ → ℕ → Option ℕ) → ℕ → Window W → Window W
  take_row next from s =
      let rows = erase_idx s.send_list.rows from in
      let row = next from (length rows) in
      let s1 = on_send (λ v. record v { rows = rows; current_row = row }) s in
      elim (current_msg s1.send_list) [ none ↦ s1 | some m ↦ send_msg_clicked m row s1 ]

  -- `insertItem`, and `setCurrentRow`, which clicks the moved row.
  unfoldable pub put_row : ℕ → ℕ → Window W → Window W
  put_row msg to s =
      let s1 =
        on_send (λ v. record v { rows = insert_at v.rows to msg; current_row = some to }) s in
      emit_send_selected (some to) (send_msg_clicked msg (some to) s1)

  -- `moveItem` of the current row.
  unfoldable pub move_item : (ℕ → ℕ → Option ℕ) → ℕ → ℕ → Window W → Window W
  move_item next from to s = elim (get_elem? s.send_list.rows from) [
    | none ↦ s
    | some m ↦ put_row m to (take_row next from s)
  ]

  -- The four moves. Without a current row its number is -1.
  unfoldable pub move_up : (ℕ → ℕ → Option ℕ) → (ℕ → ℕ) → Window W → Window W
  move_up next target s = elim s.send_list.current_row [
    | none ↦ s
    | some row ↦ if row == 0 then s else move_item next row (target row) s
  ]

  -- `setCurrentRow` after `takeItem` has taken nothing.
  unfoldable pub go_to_row : ℕ → Window W → Window W
  go_to_row to s = elim (get_elem? s.send_list.rows to) [
    | none ↦ s
    | some m ↦
        emit_send_selected (some to)
          (send_msg_clicked m (some to) (on_send (select_msg (some to)) s))
  ]

  -- The target is a function of the row below the current one and of the number of rows.
  unfoldable pub move_down : (ℕ → ℕ → Option ℕ) → (ℕ → ℕ → ℕ) → Window W → Window W
  move_down next target s =
      let count = length s.send_list.rows in
      elim s.send_list.current_row [
        | none ↦ if count == 0 then s else go_to_row (target 0 count) s
        | some row ↦
            if leb count (row + 1) then s else move_item next row (target (row + 1) count) s
      ]

  abbrev pub move_selected_top : (ℕ → ℕ → Option ℕ) → Window W → Window W
  move_selected_top next s = move_up next (λ row. 0) s

  abbrev pub move_selected_up : (ℕ → ℕ → Option ℕ) → Window W → Window W
  move_selected_up next s = move_up next (λ row. row - 1) s

  abbrev pub move_selected_down : (ℕ → ℕ → Option ℕ) → Window W → Window W
  move_selected_down next s = move_down next (λ below count. below) s

  abbrev pub move_selected_bottom : (ℕ → ℕ → Option ℕ) → Window W → Window W
  move_selected_bottom next s = move_down next (λ below count. count - 1) s

  -- The first part of `sendUpdateList`: the selected message is clicked once more, without a row.
  unfoldable pub unselect_send : Window W → Window W
  unselect_send s = elim s.sel_type [
    | SelectionType.send ↦ elim s.clicked_msg [ none ↦ s | some m ↦ send_msg_clicked m none s ]
    | SelectionType.recv ↦ s
    | SelectionType.unselected ↦ s
  ]

  unfoldable pub send_update_list : List ℕ → Window W → Window W
  send_update_list msgs s =
      let clicked = if is_send s.sel_type then s.clicked_msg else none in
      let s1 = set_send_count (length msgs % u32_mod) (unselect_send s) in
      let i = index_of_msg clicked msgs 0 in
      elim clicked [
        | none ↦ s1
        | some m ↦ if ltb i (length msgs) then send_msg_clicked m (some i) s1 else s1
      ]

  -- `sigSendLoadMsgs`, with what the file manager loads.
  unfoldable pub send_load_msgs : Bool → List Message → Window W → Window W
  send_load_msgs clear loaded s =
      let s1 = if clear then on_send clear_list s else s in
      let (hs, m) = allocate loaded s1.msg_mgr in
      let s2 = on_send (add_messages hs) (record s1 { msg_mgr = m }) in
      send_update_list s2.send_list.rows s2

  -- `sendStartClicked` and `sendStartAllClicked`: the list starts the send manager.
  unfoldable pub send_start_clicked : Window W → Option (Window W)
  send_start_clicked s =
      let s1 =
        emit (Signal.set_send_state SendState.sending_single)
          (record s { send_state = SendState.sending_single }) in
      elim (current_msg s1.send_list) [
        | none ↦ none
        | some m ↦ some (emit (Signal.send_mgr_start (m ∷ [])) s1)
      ]

  unfoldable pub send_start_all_clicked : Window W → Window W
  send_start_all_clicked s = emit (Signal.send_mgr_start s.send_list.rows) (
      emit (Signal.set_send_state SendState.sending_all)
        (record s { send_state = SendState.sending_all }))

  -- Also the callback of the send manager when it has sent everything.
  unfoldable pub send_stop_clicked : Window W → Window W
  send_stop_clicked s =
      emit (Signal.set_send_state SendState.idle)
        (emit Signal.send_mgr_stop (record s { send_state = SendState.idle }))

module _ {W : Type 0} (p : Plugins W) where
  -- `recvDupClicked` and `sendDupClicked`.
  unfoldable pub dup_clicked : Window W → Option (Window W)
  dup_clicked s = elim s.msg_mgr.protocol [
    | none ↦ none
    | some r ↦ elim s.clicked_msg [
      | none ↦ none
      | some h ↦
          let (copy, w) = p.protocol_clone r (object s h) s.msg_mgr.world in
          elim copy [
            | none ↦ none
            | some c ↦
                let m = s.msg_mgr in
                let new = m.next_object in
                some (
                  send_add_new_message new (record s {
                    msg_mgr = record m {
                      objects = put new c m.objects;
                      next_object = new + 1;
                      world = w;
                    };
                  }))
          ]
    ]
  ]

  -- The callback of the send manager that sends messages; they are new objects.
  unfoldable pub send_now : List Message → Window W → Window W
  send_now msgs s =
      let (hs, m) = allocate msgs s.msg_mgr in
      with_msg_mgr (send_msgs p (map some hs)) (record s { msg_mgr = m })
