-- ===== src/Gui/ToolBars/Deleting.antt =====
-- The tool bars follow the manager when the selected received message is deleted
-- (app/cc_view/src/GuiAppMgr.cpp, widget/MsgListWidget.cpp): the next row is clicked, and with the last
-- one the selection is reported gone.
use cc_tools_qt.Base.{
  ℕ, ◌+◌, ◌-◌, ◌%◌, ◌<◌, ◌≡◌, sym, subst, Option, none, some, length, ◌==◌, Option-cases, inl, inr,
  Bool-cases, ltb, if_cases, if_keeps, arith,
}
use cc_tools_qt.MsgMgr.Delete.{delete_msg}
use cc_tools_qt.ListView.{ListView, erase_idx, current_msg, delete_current}
use cc_tools_qt.ListView.Rows.{get_elem?_of_lt, current_row_of_msg, delete_current_rows}
use cc_tools_qt.Gui.{Window, SelectionType, ActivityState, Signal, emit, u32_mod}
use cc_tools_qt.Gui.Clicks.{
  on_recv, clear_displayed_message, emit_recv_not_selected, recv_msg_clicked,
}
use cc_tools_qt.Gui.RecvList.{dec_recv_list_count, delete_current_recv, recv_delete_clicked}
use cc_tools_qt.Gui.Consistent.{Consistent}
use cc_tools_qt.Gui.Consistent.Refresh.{chosen}
use cc_tools_qt.Gui.ToolBars.Following.{Follows, FollowsAs, clear_displayed_message-FollowsAs}
use cc_tools_qt.Gui.ToolBars.Reports.{emit_recv_not_selected-FollowsAs, recv_count-FollowsAs}
use cc_tools_qt.Gui.ToolBars.Clicking.{recv_msg_clicked-Follows}

-- Without a current row after the deletion, the list had one row.
delete_current_last :
    (next : ℕ → ℕ → Option ℕ)
    → ((i n : ℕ) → 0 < n → (j : ℕ) × (next i n ≡ some j) × (j < n))
    → (v : ListView) (m : ℕ) → current_msg v ≡ some m
    → current_msg (delete_current next v) ≡ none
    → length v.rows ≡ 1
unfolding delete_current
delete_current_last next takes v m e gone =
    let (i, row, at) = current_row_of_msg v m e in
    let rows = erase_idx v.rows i in
    let left : length rows + 1 ≡ length v.rows =
      ground (arith, row, delete_current_rows next v m e) in
    elim (Bool-cases (ltb 0 (length rows))) [
      | inl more ↦
          let (j, current, inside) = takes i (length rows) (ground (arith, more)) in
          let (x, at_row) = get_elem?_of_lt rows j inside in
          absurd (ground (arith, row, current, at_row, gone))
      | inr last ↦ ground (arith, last, left)
    ]

module _ {W : Type 0} (a : ActivityState) where
  -- The count that reaches 0 takes the selected row back.
  dec_recv_list_count-Follows :
      (sel : SelectionType) (s : Window W)
      → FollowsAs a sel s
      → (s.recv_list_count + u32_mod - 1) % u32_mod ≡ 0
      → Follows a (dec_recv_list_count s)
  unfolding dec_recv_list_count emit_recv_not_selected
  dec_recv_list_count-Follows sel s k zero_left =
      let count = (s.recv_list_count + u32_mod - 1) % u32_mod in
      let k1 = emit_recv_not_selected-FollowsAs a sel s.sel_type s k in
      let s1 = record s { recv_list_count = count } in
      if_cases (λ (t : Window W). Follows a (emit (Signal.recv_list_count_report count) t))
        (count == 0) (emit_recv_not_selected s1) s1
        (λ e. recv_count-FollowsAs a s.sel_type count (emit_recv_not_selected s) k1)
        (λ e. absurd (ground (arith, zero_left, e)))

  dec_recv_list_count_again-Follows :
      (s : Window W) → Follows a s → Follows a (dec_recv_list_count s)
  unfolding dec_recv_list_count emit_recv_not_selected
  dec_recv_list_count_again-Follows s k =
      let count = (s.recv_list_count + u32_mod - 1) % u32_mod in
      let k1 = emit_recv_not_selected-FollowsAs a s.sel_type s.sel_type s k in
      let s1 = record s { recv_list_count = count } in
      if_keeps (λ (t : Window W). Follows a (emit (Signal.recv_list_count_report count) t))
        (count == 0) (emit_recv_not_selected s1) s1
        (recv_count-FollowsAs a s.sel_type count (emit_recv_not_selected s) k1)
        (recv_count-FollowsAs a s.sel_type count s k)

  pub recv_delete_clicked-Follows :
      (next : ℕ → ℕ → Option ℕ)
      → ((i n : ℕ) → 0 < n → (j : ℕ) × (next i n ≡ some j) × (j < n))
      → (s t : Window W) → s.sel_type ≡ SelectionType.recv
      → recv_delete_clicked next s ≡ some t
      → Consistent s
      → Follows a s
      → Follows a t
  unfolding recv_delete_clicked delete_current_recv clear_displayed_message
  recv_delete_clicked-Follows next takes s t e deleted c k =
      let (m, clicked, at, follows) = chosen SelectionType.recv s e c.selected in
      let s0 : Window W = record s { msg_mgr = delete_msg m s.msg_mgr } in
      let s1 : Window W = clear_displayed_message s0 in
      let s2 : Window W = on_recv (delete_current next) s1 in
      let k1 = clear_displayed_message-FollowsAs a s.sel_type s0 k in
      elim (Option-cases (current_msg (delete_current next s.recv_list))) [
        | inl gone ↦
            let eq : t ≡ dec_recv_list_count s2 = ground (arith, clicked, gone, deleted) in
            let one = delete_current_last next takes s.recv_list m at gone in
            subst (λ u. Follows a u) (sym eq)
              (dec_recv_list_count-Follows s.sel_type s2 k1 (omega (arith, one, c.recv_count)))
        | inr (n, next_msg) ↦
            let s3 : Window W = recv_msg_clicked n s2.recv_list.current_row s2 in
            let eq : t ≡ dec_recv_list_count s3 = ground (arith, clicked, next_msg, deleted) in
            subst (λ u. Follows a u) (sym eq)
              (dec_recv_list_count_again-Follows s3
                (recv_msg_clicked-Follows a s.sel_type n s2.recv_list.current_row s2 k1))
      ]
