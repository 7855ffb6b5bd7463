-- ===== src/Gui/ToolBars/Sending.antt =====
-- The tool bars follow the manager through its slots about messages to send
-- (app/cc_view/src/GuiAppMgr.cpp, widget/SendMsgListWidget.cpp and MsgListWidget.cpp).
use cc_tools_qt.Base.{
  ℕ, ◌+◌, ◌-◌, ◌%◌, ◌≡◌, refl, true, false, Option, none, some, ◌==◌, if_cases, if_keeps, arith,
  if◌then◌else◌,
}
use cc_tools_qt.ListView.{
  get_elem?, add_message, current_msg, update_current, delete_current, clear_list, select_msg,
}
use cc_tools_qt.Gui.{Window, SelectionType, SendState, ActivityState, Signal, emit, u32_mod}
use cc_tools_qt.Gui.Clicks.{
  is_msg, on_send, clear_displayed_message, emit_send_selected, send_msg_clicked,
}
use cc_tools_qt.Gui.RecvList.{is_recv, is_send}
use cc_tools_qt.Gui.SendList.{
  set_send_count, send_add_new_message, send_update_message, dec_send_list_count,
  delete_current_send, send_delete_clicked, send_clear_clicked, send_row_clicked,
  send_row_double_clicked,
}
use cc_tools_qt.Gui.ToolBars.Cases.{option_cases, send_state_cases}
use cc_tools_qt.Gui.ToolBars.Following.{
  Follows, emit-FollowsAs, clear_displayed_message-FollowsAs, emit_send_selected-FollowsAs,
}
use cc_tools_qt.Gui.ToolBars.Reports.{
  FollowsAs-other, display_message-Follows, send_count-FollowsAs,
}
use cc_tools_qt.Gui.ToolBars.Clicking.{send_msg_clicked-Follows}

is_recv_of_send : (t : SelectionType) → is_send t ≡ true → is_recv t ≡ false
is_recv_of_send SelectionType.send h = refl
is_recv_of_send SelectionType.recv h = absurd (cc)
is_recv_of_send SelectionType.unselected h = absurd (cc)

module _ {W : Type 0} (a : ActivityState) where
  pub set_send_count-Follows : (n : ℕ) (s : Window W) → Follows a s → Follows a (set_send_count n s)
  unfolding set_send_count
  set_send_count-Follows n s k = send_count-FollowsAs a s.sel_type n s k

  pub clicked-Follows :
      (m : ℕ) (idx : Option ℕ) (s : Window W) → Follows a s → Follows a (send_msg_clicked m idx s)
  clicked-Follows m idx s k = send_msg_clicked-Follows a s.sel_type m idx s k

  pub send_add_new_message-Follows :
      (m : ℕ) (s : Window W) → Follows a s → Follows a (send_add_new_message m s)
  unfolding send_add_new_message
  send_add_new_message-Follows m s k =
      clicked-Follows m _ (on_send (add_message m) _) (set_send_count-Follows _ s k)

  pub send_update_message-Follows :
      (m : ℕ) (s : Window W) → Follows a s → Follows a (send_update_message m s)
  unfolding send_update_message
  send_update_message-Follows m s k =
      display_message-Follows a (some m)
        (on_send (update_current m) (record s { clicked_msg = some m })) k

  dec_send_list_count-Follows : (s : Window W) → Follows a s → Follows a (dec_send_list_count s)
  unfolding dec_send_list_count emit_send_selected
  dec_send_list_count-Follows s k =
      let count = (s.send_list_count + u32_mod - 1) % u32_mod in
      let none_sent = emit_send_selected-FollowsAs a s.sel_type none s k in
      let s1 = record s { send_list_count = count } in
      if_keeps (λ (t : Window W). Follows a (emit (Signal.send_list_count_report count) t))
        (count == 0) (emit_send_selected none s1) s1
        (send_count-FollowsAs a s.sel_type count (emit_send_selected none s) none_sent)
        (send_count-FollowsAs a s.sel_type count s k)

  delete_current_send-Follows :
      (next : ℕ → ℕ → Option ℕ) (s : Window W)
      → Follows a s
      → Follows a (delete_current_send next s)
  unfolding delete_current_send
  delete_current_send-Follows next s k =
      let s1 = on_send (delete_current next) s in
      option_cases (λ (t : Window W). Follows a t) (current_msg s1.send_list) s1
        (λ m. send_msg_clicked m s1.send_list.current_row s1) (λ e. k)
        (λ m e. clicked-Follows m s1.send_list.current_row s1 k)

  cleared-Follows :
      (s : Window W)
      → is_recv s.sel_type ≡ false
      → Follows a s
      → Follows a (clear_displayed_message s)
  unfolding clear_displayed_message
  cleared-Follows s other k =
      let un = SelectionType.unselected in
      clear_displayed_message-FollowsAs a un s (FollowsAs-other a s.sel_type un s other k)

  pub send_delete_clicked-Follows :
      (next : ℕ → ℕ → Option ℕ) (s : Window W)
      → s.sel_type ≡ SelectionType.send
      → Follows a s
      → Follows a (send_delete_clicked next s)
  unfolding send_delete_clicked
  send_delete_clicked-Follows next s e k =
      let k1 = cleared-Follows s (ground (arith, e)) k in
      dec_send_list_count-Follows _ (delete_current_send-Follows next _ k1)

  pub send_clear_clicked-Follows : (s : Window W) → Follows a s → Follows a (send_clear_clicked s)
  unfolding send_clear_clicked clear_displayed_message emit_send_selected
  send_clear_clicked-Follows s k =
      let s0 = on_send clear_list s in
      let s1 = record s0 { send_list_count = 0 } in
      let un = SelectionType.unselected in
      if_cases (λ (t : Window W). Follows a (emit (Signal.send_list_count_report 0) t))
        (is_send s.sel_type) (emit_send_selected none (clear_displayed_message s1)) s1
        (λ e.
          let k1 = cleared-Follows s0 (is_recv_of_send s.sel_type e) k in
          let k2 = emit_send_selected-FollowsAs a un none (clear_displayed_message s0) k1 in
          send_count-FollowsAs a un 0 (emit_send_selected none (clear_displayed_message s0)) k2)
        (λ e. send_count-FollowsAs a s.sel_type 0 s0 k)

  pub send_row_clicked-Follows :
      (i : ℕ) (s : Window W) → Follows a s → Follows a (send_row_clicked i s)
  unfolding send_row_clicked
  send_row_clicked-Follows i s k =
      let s1 = on_send (select_msg (some i)) s in
      option_cases (λ (t : Window W). Follows a t) (get_elem? s.send_list.rows i) s
        (λ m. send_msg_clicked m (some i) s1) (λ e. k) (λ m e. clicked-Follows m (some i) s1 k)

  pub send_row_double_clicked-Follows :
      (i : ℕ) (s : Window W) → Follows a s → Follows a (send_row_double_clicked i s)
  unfolding send_row_double_clicked
  send_row_double_clicked-Follows i s k =
      let P = λ (t : Window W). Follows a t in
      let s1 : ℕ → Window W =
        λ m. if is_msg s.clicked_msg m then s else send_msg_clicked m (some i) s in
      let t : ℕ → Window W = λ m. emit (Signal.update_send_msg_dialog (s1 m).clicked_msg) (s1 m) in
      option_cases P (get_elem? s.send_list.rows i) s
        (λ m. elim s.send_state [
          | SendState.idle ↦ t m
          | SendState.sending_single ↦ s
          | SendState.sending_all ↦ s
        ])
        (λ e. k)
        (λ m e.
          let k1 = if_keeps P (is_msg s.clicked_msg m) s _ k (clicked-Follows m (some i) s k) in
          send_state_cases P s.send_state (t m) s s
            (emit-FollowsAs a (s1 m).sel_type (Signal.update_send_msg_dialog (s1 m).clicked_msg)
              (s1 m) k1)
            k k)
