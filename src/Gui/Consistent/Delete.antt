-- ===== src/Gui/Consistent/Delete.antt =====
-- Deleting the selected message and clicking a row keep the window consistent.
use cc_tools_qt.Base.{
  ℕ, ◌+◌, ◌-◌, ◌%◌, ◌≡◌, refl, sym, ap, ◌∙◌, subst, true, List, Option, none, some, length, ◌==◌,
  if_keeps, inl, inr, Option-cases, arith,
}
use cc_tools_qt.MsgMgr.Delete.{delete_msg}
use cc_tools_qt.ListView.{get_elem?, current_msg, delete_current, select_msg}
use cc_tools_qt.ListView.Rows.{delete_current_rows}
use cc_tools_qt.Gui.{Window, SelectionType, Signal, u32_mod}
use cc_tools_qt.Gui.Clicks.{
  on_recv, clear_displayed_message, emit_recv_not_selected, recv_msg_clicked,
}
use cc_tools_qt.Gui.RecvList.{
  dec_recv_list_count, delete_current_recv, recv_delete_clicked, recv_row_clicked,
}
use cc_tools_qt.Gui.Selection.{
  Selected, SameLists, SameLists-refl, recv_msg_clicked-Selected, recv_msg_clicked-SameLists,
}
use cc_tools_qt.Gui.Consistent.{Consistent, Counted-Consistent}
use cc_tools_qt.Gui.Consistent.Refresh.{chosen, emit-Consistent}

module _ {W : Type 0} where
  -- After the deletion the next current row is clicked, or nothing is selected.
  delete_current_recv_lem :
      (next : ℕ → ℕ → Option ℕ) (s : Window W)
      → Selected (on_recv (delete_current next) s)
      → Selected (delete_current_recv next s)
        × SameLists (on_recv (delete_current next) s) (delete_current_recv next s)
  unfolding delete_current_recv
  delete_current_recv_lem next s h =
      let s1 = on_recv (delete_current next) s in
      elim (Option-cases (current_msg s1.recv_list)) [
        | inl e ↦
            let eq : delete_current_recv next s ≡ s1 = ground (arith, e) in
            subst (λ t. Selected t × SameLists s1 t) (sym eq) (h, SameLists-refl s1)
        | inr (m, e) ↦
            let t = recv_msg_clicked m s1.recv_list.current_row s1 in
            let eq : delete_current_recv next s ≡ t = ground (arith, e) in
            subst (λ t. Selected t × SameLists s1 t) (sym eq)
              (
                recv_msg_clicked-Selected m s1.recv_list.current_row s1 e,
                recv_msg_clicked-SameLists m s1.recv_list.current_row s1,
              )
      ]

  dec_recv_list_count-Consistent :
      (s : Window W)
      → Selected s
      → s.recv_list_count ≡ (length s.recv_list.rows + 1) % u32_mod
      → s.send_list_count ≡ length s.send_list.rows % u32_mod
      → s.send_list.select_on_add ≡ true
      → Consistent (dec_recv_list_count s)
  unfolding dec_recv_list_count emit_recv_not_selected
  dec_recv_list_count-Consistent s sel rc sc f =
      let count = (s.recv_list_count + u32_mod - 1) % u32_mod in
      let s1 = record s { recv_list_count = count } in
      let c1 : Consistent s1 = record {
        selected = sel;
        recv_count = omega (arith, rc);
        send_count = sc;
        send_follows = f;
      } in
      emit-Consistent (Signal.recv_list_count_report count) _ (
        if_keeps (λ (t : Window W). Consistent t) (count == 0) (emit_recv_not_selected s1) s1
          (emit-Consistent (Signal.recv_msg_selected none) s1 c1) c1)

  -- The button is active while a received message is selected, so its pointer is not null.
  pub recv_delete_clicked-Consistent :
      (next : ℕ → ℕ → Option ℕ) (s : Window W)
      → s.sel_type ≡ SelectionType.recv
      → Consistent s
      → (t : Window W) × (recv_delete_clicked next s ≡ some t) × Consistent t
  unfolding recv_delete_clicked clear_displayed_message
  recv_delete_clicked-Consistent next s e c =
      let (m, clicked, at, follows) = chosen SelectionType.recv s e c.selected in
      let s1 = clear_displayed_message (record s { msg_mgr = delete_msg m s.msg_mgr }) in
      let t = delete_current_recv next s1 in
      let (sel, same) = delete_current_recv_lem next s1 refl in
      let rows = delete_current_rows next s.recv_list m at in
      let eq : recv_delete_clicked next s ≡ some (dec_recv_list_count t) =
        ground (arith, clicked) in
      (
        dec_recv_list_count t,
        eq,
        dec_recv_list_count-Consistent t sel
            (same.recv_count
              ∙ c.recv_count
              ∙ ap (λ n. n % u32_mod) (sym rows)
              ∙ ap (λ (l : List ℕ). (length l + 1) % u32_mod) (sym same.recv_rows))
            (same.send_count
              ∙ c.send_count
              ∙ ap (λ (l : List ℕ). length l % u32_mod) (sym same.send_rows))
            (same.send_follows ∙ c.send_follows),
      )

  pub recv_row_clicked-Consistent :
      (i : ℕ) (s : Window W) → Consistent s → Consistent (recv_row_clicked i s)
  unfolding recv_row_clicked select_msg
  recv_row_clicked-Consistent i s c = elim (Option-cases (get_elem? s.recv_list.rows i)) [
    | inl e ↦
        let eq : recv_row_clicked i s ≡ s = ground (arith, e) in
        subst (λ t. Consistent t) (sym eq) c
    | inr (m, e) ↦
        let s1 = on_recv (select_msg (some i)) s in
        let t = recv_msg_clicked m (some i) s1 in
        let eq : recv_row_clicked i s ≡ t = ground (arith, e) in
        let same = recv_msg_clicked-SameLists m (some i) s1 in
        subst (λ t. Consistent t) (sym eq)
          (Counted-Consistent s1 t same (recv_msg_clicked-Selected m (some i) s1 e) (record {
            recv_count = c.recv_count;
            send_count = c.send_count;
            send_follows = c.send_follows;
          }))
  ]
