-- ===== src/Gui/ToolBars/Moving.antt =====
-- The tool bars follow the manager when rows are moved and loaded and when messages are sent
-- (app/cc_view/src/GuiAppMgr.cpp, widget/SendMsgListWidget.cpp and MsgListWidget.cpp).
use cc_tools_qt.Base.{
  ℕ, ◌+◌, ◌%◌, ◌≡◌, sym, subst, Bool, List, [], ◌∷◌, length, map, Option, none, some, ◌==◌, leb,
  ltb, Option-cases, inl, inr, if_keeps, arith, if◌then◌else◌,
}
use cc_tools_qt.Message.{Message}
use cc_tools_qt.Plugins.{Plugins}
use cc_tools_qt.MsgMgr.Send.{send_msgs}
use cc_tools_qt.ListView.{
  get_elem?, erase_idx, insert_at, add_messages, current_msg, clear_list, select_msg,
}
use cc_tools_qt.Gui.{Window, SendState, ActivityState, Signal, emit, u32_mod}
use cc_tools_qt.Gui.Clicks.{on_send, emit_send_selected, send_msg_clicked}
use cc_tools_qt.Gui.RecvList.{is_send, allocate}
use cc_tools_qt.Gui.SendList.{
  index_of_msg, set_send_count, take_row, put_row, move_item, move_up, go_to_row, move_down,
  unselect_send, send_update_list, send_load_msgs, send_start_clicked, send_start_all_clicked,
  send_stop_clicked, dup_clicked, send_now,
}
use cc_tools_qt.Gui.Consistent.Loading.{dup_clicked_adds}
use cc_tools_qt.Gui.ToolBars.Cases.{option_cases, selection_cases}
use cc_tools_qt.Gui.ToolBars.Following.{Follows, emit-FollowsAs}
use cc_tools_qt.Gui.ToolBars.Reports.{emit_send_selected-Follows, send_state-FollowsAs}
use cc_tools_qt.Gui.ToolBars.Slots.{with_msg_mgr-Follows}
use cc_tools_qt.Gui.ToolBars.Sending.{
  set_send_count-Follows, clicked-Follows, send_add_new_message-Follows,
}

module _ {W : Type 0} (a : ActivityState) where
  take_row-Follows :
      (next : ℕ → ℕ → Option ℕ) (from : ℕ) (s : Window W)
      → Follows a s
      → Follows a (take_row next from s)
  unfolding take_row
  take_row-Follows next from s k =
      let rows = erase_idx s.send_list.rows from in
      let row = next from (length rows) in
      let s1 = on_send (λ v. record v { rows = rows; current_row = row }) s in
      option_cases (λ (t : Window W). Follows a t) (current_msg s1.send_list) s1
        (λ m. send_msg_clicked m row s1) (λ e. k) (λ m e. clicked-Follows a m row s1 k)

  put_row-Follows : (m to : ℕ) (s : Window W) → Follows a s → Follows a (put_row m to s)
  unfolding put_row
  put_row-Follows m to s k =
      let s1 = on_send (λ v. record v { rows = insert_at v.rows to m; current_row = some to }) s in
      emit_send_selected-Follows a (some to) _ (clicked-Follows a m (some to) s1 k)

  move_item-Follows :
      (next : ℕ → ℕ → Option ℕ) (from to : ℕ) (s : Window W)
      → Follows a s
      → Follows a (move_item next from to s)
  unfolding move_item
  move_item-Follows next from to s k =
      option_cases (λ (t : Window W). Follows a t) (get_elem? s.send_list.rows from) s
        (λ m. put_row m to (take_row next from s)) (λ e. k)
        (λ m e. put_row-Follows m to _ (take_row-Follows next from s k))

  pub move_up-Follows :
      (next : ℕ → ℕ → Option ℕ) (target : ℕ → ℕ) (s : Window W)
      → Follows a s
      → Follows a (move_up next target s)
  unfolding move_up
  move_up-Follows next target s k =
      let P = λ (t : Window W). Follows a t in
      option_cases P s.send_list.current_row s
        (λ row. if row == 0 then s else move_item next row (target row) s) (λ e. k)
        (λ row e. if_keeps P (row == 0) s _ k (move_item-Follows next row (target row) s k))

  go_to_row-Follows : (to : ℕ) (s : Window W) → Follows a s → Follows a (go_to_row to s)
  unfolding go_to_row
  go_to_row-Follows to s k =
      let s1 = on_send (select_msg (some to)) s in
      option_cases (λ (t : Window W). Follows a t) (get_elem? s.send_list.rows to) s
        (λ m. emit_send_selected (some to) (send_msg_clicked m (some to) s1)) (λ e. k)
        (λ m e. emit_send_selected-Follows a (some to) _ (clicked-Follows a m (some to) s1 k))

  pub move_down-Follows :
      (next : ℕ → ℕ → Option ℕ) (target : ℕ → ℕ → ℕ) (s : Window W)
      → Follows a s
      → Follows a (move_down next target s)
  unfolding move_down
  move_down-Follows next target s k =
      let P = λ (t : Window W). Follows a t in
      let count = length s.send_list.rows in
      option_cases P s.send_list.current_row
        (if count == 0 then s else go_to_row (target 0 count) s)
        (λ row. if leb count (row + 1) then s else move_item next row (target (row + 1) count) s)
        (λ e. if_keeps P (count == 0) s _ k (go_to_row-Follows (target 0 count) s k))
        (λ row e.
          if_keeps P (leb count (row + 1)) s _ k
            (move_item-Follows next row (target (row + 1) count) s k))

  unselect_send-Follows : (s : Window W) → Follows a s → Follows a (unselect_send s)
  unfolding unselect_send
  unselect_send-Follows s k =
      let P = λ (t : Window W). Follows a t in
      selection_cases P s.sel_type s s _ k k (
        option_cases P s.clicked_msg s (λ m. send_msg_clicked m none s) (λ e. k)
          (λ m e. clicked-Follows a m none s k))

  send_update_list-Follows :
      (msgs : List ℕ) (s : Window W) → Follows a s → Follows a (send_update_list msgs s)
  unfolding send_update_list
  send_update_list-Follows msgs s k =
      let P = λ (t : Window W). Follows a t in
      let clicked = if is_send s.sel_type then s.clicked_msg else none in
      let s1 = set_send_count (length msgs % u32_mod) (unselect_send s) in
      let k1 = set_send_count-Follows a _ (unselect_send s) (unselect_send-Follows s k) in
      let i = index_of_msg clicked msgs 0 in
      option_cases P clicked s1
        (λ m. if ltb i (length msgs) then send_msg_clicked m (some i) s1 else s1) (λ e. k1)
        (λ m e.
          if_keeps P (ltb i (length msgs)) (send_msg_clicked m (some i) s1) s1
            (clicked-Follows a m (some i) s1 k1) k1)

  pub send_load_msgs-Follows :
      (clear : Bool) (loaded : List Message) (s : Window W)
      → Follows a s
      → Follows a (send_load_msgs clear loaded s)
  unfolding send_load_msgs
  send_load_msgs-Follows clear loaded s k =
      let s1 = if clear then on_send clear_list s else s in
      let k1 = if_keeps (λ (t : Window W). Follows a t) clear (on_send clear_list s) s k k in
      let (hs, m) = allocate loaded s1.msg_mgr in
      let s2 = on_send (add_messages hs) (record s1 { msg_mgr = m }) in
      send_update_list-Follows s2.send_list.rows s2 k1

  pub send_start_clicked-Follows :
      (s t : Window W) → send_start_clicked s ≡ some t → Follows a s → Follows a t
  unfolding send_start_clicked
  send_start_clicked-Follows s t e k = elim (Option-cases (current_msg s.send_list)) [
    | inl unmarked ↦ absurd (ground (arith, unmarked, e))
    | inr (m, marked) ↦
        let single = SendState.sending_single in
        let s1 : Window W =
          emit (Signal.set_send_state single) (record s { send_state = single }) in
        let eq : t ≡ emit (Signal.send_mgr_start (m ∷ [])) s1 = ground (arith, marked, e) in
        let k1 = send_state-FollowsAs a s.sel_type single s k in
        subst (λ u. Follows a u) (sym eq)
          (emit-FollowsAs a s.sel_type (Signal.send_mgr_start (m ∷ [])) s1 k1)
  ]

  pub send_start_all_clicked-Follows :
      (s : Window W) → Follows a s → Follows a (send_start_all_clicked s)
  unfolding send_start_all_clicked
  send_start_all_clicked-Follows s k =
      let all = SendState.sending_all in
      let s1 : Window W = emit (Signal.set_send_state all) (record s { send_state = all }) in
      emit-FollowsAs a s.sel_type (Signal.send_mgr_start s.send_list.rows) s1
        (send_state-FollowsAs a s.sel_type all s k)

  pub send_stop_clicked-Follows : (s : Window W) → Follows a s → Follows a (send_stop_clicked s)
  unfolding send_stop_clicked
  send_stop_clicked-Follows s k =
      send_state-FollowsAs a s.sel_type SendState.idle (emit Signal.send_mgr_stop s)
        (emit-FollowsAs a s.sel_type Signal.send_mgr_stop s k)

  pub dup_clicked-Follows :
      (p : Plugins W) (s t : Window W) → dup_clicked p s ≡ some t → Follows a s → Follows a t
  dup_clicked-Follows p s t e k =
      let (m, new, eq) = dup_clicked_adds p s t e in
      subst (λ u. Follows a u) (sym eq)
        (send_add_new_message-Follows a new (record s { msg_mgr = m }) k)

  pub send_now-Follows :
      (p : Plugins W) (msgs : List Message) (s : Window W)
      → Follows a s
      → Follows a (send_now p msgs s)
  unfolding send_now
  send_now-Follows p msgs s k =
      let (hs, m) = allocate msgs s.msg_mgr in
      with_msg_mgr-Follows a (send_msgs p (map some hs)) (record s { msg_mgr = m }) k
