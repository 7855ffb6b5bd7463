-- ===== src/Gui/Consistent/Removal.antt =====
-- Deleting the selected message to send, and all of them, keeps the window consistent.
use cc_tools_qt.Base.{
  ℕ, ◌+◌, ◌-◌, ◌%◌, ◌<◌, ◌≤◌, ◌≡◌, refl, sym, ap, ◌∙◌, subst, true, false, List, Option, none, some,
  length, ◌==◌, ==_iff, if_cases, inl, inr, Option-cases, arith,
}
use cc_tools_qt.ListView.{ListView, current_msg, delete_current, clear_list, select_msg}
use cc_tools_qt.ListView.Rows.{
  current_row_of_msg, lt_of_get_elem?, delete_current_rows, delete_current-select_on_add,
}
use cc_tools_qt.Gui.{Window, SelectionType, Signal, u32_mod}
use cc_tools_qt.Gui.Clicks.{on_send, clear_displayed_message, emit_send_selected, send_msg_clicked}
use cc_tools_qt.Gui.RecvList.{is_send}
use cc_tools_qt.Gui.SendList.{
  dec_send_list_count, delete_current_send, send_delete_clicked, send_clear_clicked,
}
use cc_tools_qt.Gui.Selection.{
  Selects, Selected, SameLists, SameLists-refl, send_msg_clicked-Selected,
  send_msg_clicked-SameLists,
}
use cc_tools_qt.Gui.Consistent.{Consistent}
use cc_tools_qt.Gui.Consistent.Refresh.{chosen, emit-Consistent}
use cc_tools_qt.Gui.Consistent.Send.{Selects-unsent, emit_send_selected-Consistent}

-- A list without rows has no selected message.
no_rows→unsent :
    (sel : SelectionType) (c : Option ℕ) (r t : ListView)
    → length t.rows ≡ 0
    → Selects sel c r t
    → is_send sel ≡ false
no_rows→unsent SelectionType.unselected c r t e h = refl
no_rows→unsent SelectionType.recv c r t e h = refl
no_rows→unsent SelectionType.send c r t e (m, clicked, at) =
    let (i, row, at') = current_row_of_msg t m at in
    absurd (omega (arith, lt_of_get_elem? t.rows i m at'))

module _ {W : Type 0} where
  -- After the deletion the next current row is clicked, or nothing is selected.
  delete_current_send_lem :
      (next : ℕ → ℕ → Option ℕ) (s : Window W)
      → Selected (on_send (delete_current next) s)
      → Selected (delete_current_send next s)
        × SameLists (on_send (delete_current next) s) (delete_current_send next s)
  unfolding delete_current_send
  delete_current_send_lem next s h =
      let s1 = on_send (delete_current next) s in
      elim (Option-cases (current_msg s1.send_list)) [
        | inl e ↦
            let eq : delete_current_send next s ≡ s1 = ground (arith, e) in
            subst (λ t. Selected t × SameLists s1 t) (sym eq) (h, SameLists-refl s1)
        | inr (m, e) ↦
            let (i, row, at) = current_row_of_msg s1.send_list m e in
            let t = send_msg_clicked m (some i) s1 in
            let eq : delete_current_send next s ≡ t = ground (arith, e, row) in
            subst (λ t. Selected t × SameLists s1 t) (sym eq)
              (send_msg_clicked-Selected m i s1 at, send_msg_clicked-SameLists m (some i) s1)
      ]

  dec_send_list_count-Consistent :
      (s : Window W)
      → length s.send_list.rows < u32_mod
      → Selected s
      → s.recv_list_count ≡ length s.recv_list.rows % u32_mod
      → s.send_list_count ≡ (length s.send_list.rows + 1) % u32_mod
      → s.send_list.select_on_add ≡ true
      → Consistent (dec_send_list_count s)
  unfolding dec_send_list_count
  dec_send_list_count-Consistent s b sel rc sc f =
      let count = (s.send_list_count + u32_mod - 1) % u32_mod in
      let s1 = record s { send_list_count = count } in
      let c1 : Consistent s1 = record {
        selected = sel;
        recv_count = rc;
        send_count = omega (arith, sc);
        send_follows = f;
      } in
      emit-Consistent (Signal.send_list_count_report count) _ (
        if_cases (λ (t : Window W). Consistent t) (count == 0) (emit_send_selected none s1) s1
          (λ e.
            let none_left : length s.send_list.rows ≡ 0 = omega (arith, (==_iff count 0).0 e, sc) in
            emit_send_selected-Consistent none s1
              (no_rows→unsent s.sel_type s.clicked_msg s.recv_list s.send_list none_left sel) c1)
          (λ e. c1))

  -- The button is active while a message to send is selected.
  pub send_delete_clicked-Consistent :
      (next : ℕ → ℕ → Option ℕ) (s : Window W)
      → s.sel_type ≡ SelectionType.send
      → length s.send_list.rows ≤ u32_mod
      → Consistent s
      → Consistent (send_delete_clicked next s)
  unfolding send_delete_clicked clear_displayed_message
  send_delete_clicked-Consistent next s e b c =
      let (m, clicked, at) = chosen SelectionType.send s e c.selected in
      let s1 = clear_displayed_message s in
      let t = delete_current_send next s1 in
      let (sel, same) = delete_current_send_lem next s1 refl in
      let rows = delete_current_rows next s.send_list m at in
      dec_send_list_count-Consistent t
        (omega (arith, rows, ap (λ (l : List ℕ). length l) same.send_rows)) sel
        (same.recv_count
          ∙ c.recv_count
          ∙ ap (λ (l : List ℕ). length l % u32_mod) (sym same.recv_rows))
        (same.send_count
          ∙ c.send_count
          ∙ ap (λ n. n % u32_mod) (sym rows)
          ∙ ap (λ (l : List ℕ). (length l + 1) % u32_mod) (sym same.send_rows))
        (same.send_follows ∙ delete_current-select_on_add next s.send_list ∙ c.send_follows)

  pub send_clear_clicked-Consistent :
      (s : Window W) → Consistent s → Consistent (send_clear_clicked s)
  unfolding send_clear_clicked clear_displayed_message emit_send_selected clear_list select_msg
  send_clear_clicked-Consistent s c =
      let s1 = record (on_send clear_list s) { send_list_count = 0 } in
      emit-Consistent (Signal.send_list_count_report 0) _ (
        if_cases (λ (t : Window W). Consistent t) (is_send s.sel_type)
          (emit_send_selected none (clear_displayed_message s1)) s1
          (λ e. record {
            selected = refl;
            recv_count = c.recv_count;
            send_count = refl;
            send_follows = c.send_follows;
          })
          (λ e. record {
            selected =
                Selects-unsent s.sel_type s.clicked_msg s.recv_list s.send_list s1.send_list e
                  c.selected;
            recv_count = c.recv_count;
            send_count = refl;
            send_follows = c.send_follows;
          }))
