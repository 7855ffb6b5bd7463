-- ===== src/Gui/Selection.antt =====
-- The selection of the window and what the two lists show of it (app/cc_view/src/GuiAppMgr.cpp,
-- widget/MsgListWidget.cpp).
use cc_tools_qt.Base.{
  ℕ, true, false, Option, none, some, ◌≡◌, refl, sym, ap, ◌∙◌, inl, inr, Bool-cases, subst, arith,
}
use cc_tools_qt.ListView.{
  ListView, get_elem?, current_msg, clear_selection, select_on_add, select_msg,
}
use cc_tools_qt.Gui.{Window, SelectionType}
use cc_tools_qt.Gui.Clicks.{
  is_msg, display_message, clear_displayed_message, emit_recv_not_selected, emit_send_selected,
  msg_clicked, recv_msg_clicked, send_msg_clicked,
}

-- A message is selected in at most one list, and it is the one of that list's current row. While a
-- received message is selected, new ones do not become the current row.
abbrev pub Selects : SelectionType → Option ℕ → ListView → ListView → Type 0
Selects SelectionType.unselected c r t = c ≡ none
Selects SelectionType.recv c r t =
    (m : ℕ) × (c ≡ some m) × (current_msg r ≡ some m) × (r.select_on_add ≡ false)
Selects SelectionType.send c r t = (m : ℕ) × (c ≡ some m) × (current_msg t ≡ some m)

abbrev pub Selected : {W : Type 0} → Window W → Type 0
Selected s = Selects s.sel_type s.clicked_msg s.recv_list s.send_list

-- No message is selected, and new received messages become the current row.
pub record Unselected {W : Type 0} (t : Window W) : Type 0 where
  pub sel_type : t.sel_type ≡ SelectionType.unselected
  pub clicked_msg : t.clicked_msg ≡ none
  pub follows : t.recv_list.select_on_add ≡ true

-- What a change of the selection leaves as it is.
pub record SameLists {W : Type 0} (s t : Window W) : Type 0 where
  pub recv_rows : t.recv_list.rows ≡ s.recv_list.rows
  pub send_rows : t.send_list.rows ≡ s.send_list.rows
  pub recv_count : t.recv_list_count ≡ s.recv_list_count
  pub send_count : t.send_list_count ≡ s.send_list_count
  pub send_follows : t.send_list.select_on_add ≡ s.send_list.select_on_add

module _ {W : Type 0} where
  pub SameLists-refl : (s : Window W) → SameLists s s
  SameLists-refl s = record {
    recv_rows = refl;
    send_rows = refl;
    recv_count = refl;
    send_count = refl;
    send_follows = refl;
  }

  pub recv_msg_clicked-SameLists :
      (m : ℕ) (idx : Option ℕ) (s : Window W) → SameLists s (recv_msg_clicked m idx s)
  unfolding recv_msg_clicked msg_clicked display_message clear_displayed_message
      emit_recv_not_selected emit_send_selected clear_selection select_on_add select_msg
  recv_msg_clicked-SameLists m idx s = ground arith

  pub send_msg_clicked-SameLists :
      (m : ℕ) (idx : Option ℕ) (s : Window W) → SameLists s (send_msg_clicked m idx s)
  unfolding send_msg_clicked msg_clicked display_message clear_displayed_message
      emit_recv_not_selected emit_send_selected clear_selection select_on_add select_msg
  send_msg_clicked-SameLists m idx s = ground arith

  -- A click on the selected message unselects it.
  pub recv_msg_clicked_again :
      (m : ℕ) (idx : Option ℕ) (s : Window W)
      → is_msg s.clicked_msg m ≡ true
      → Unselected (recv_msg_clicked m idx s)
  unfolding recv_msg_clicked msg_clicked display_message clear_displayed_message
      emit_recv_not_selected emit_send_selected clear_selection select_on_add select_msg
  recv_msg_clicked_again m idx s e = ground arith

  pub send_msg_clicked_again :
      (m : ℕ) (idx : Option ℕ) (s : Window W)
      → is_msg s.clicked_msg m ≡ true
      → Unselected (send_msg_clicked m idx s)
  unfolding send_msg_clicked msg_clicked display_message clear_displayed_message
      emit_recv_not_selected emit_send_selected clear_selection select_on_add select_msg
  send_msg_clicked_again m idx s e = ground arith

  pub recv_msg_clicked_new :
      (m : ℕ) (idx : Option ℕ) (s : Window W)
      → is_msg s.clicked_msg m ≡ false
      → ((recv_msg_clicked m idx s).sel_type ≡ SelectionType.recv)
        × ((recv_msg_clicked m idx s).clicked_msg ≡ some m)
        × ((recv_msg_clicked m idx s).recv_list ≡ select_on_add false s.recv_list)
  unfolding recv_msg_clicked msg_clicked display_message clear_displayed_message
      emit_recv_not_selected emit_send_selected clear_selection select_on_add select_msg
  recv_msg_clicked_new m idx s e = (ground arith, ground arith, ground arith)

  pub send_msg_clicked_new :
      (m : ℕ) (idx : Option ℕ) (s : Window W)
      → is_msg s.clicked_msg m ≡ false
      → ((send_msg_clicked m idx s).sel_type ≡ SelectionType.send)
        × ((send_msg_clicked m idx s).clicked_msg ≡ some m)
        × ((send_msg_clicked m idx s).send_list ≡ select_msg idx s.send_list)
  unfolding send_msg_clicked msg_clicked display_message clear_displayed_message
      emit_recv_not_selected emit_send_selected clear_selection select_on_add select_msg
  send_msg_clicked_new m idx s e = (ground arith, ground arith, ground arith)

  pub Unselected→Selected : (s : Window W) → Unselected s → Selected s
  Unselected→Selected s u =
      subst (λ x. Selects x s.clicked_msg s.recv_list s.send_list) (sym u.sel_type) u.clicked_msg

  -- Clicking the message of the current row of a list leaves a selection that the lists show.
  pub recv_msg_clicked-Selected :
      (m : ℕ) (idx : Option ℕ) (s : Window W)
      → current_msg s.recv_list ≡ some m
      → Selected (recv_msg_clicked m idx s)
  unfolding select_on_add
  recv_msg_clicked-Selected m idx s h = elim (Bool-cases (is_msg s.clicked_msg m)) [
    | inl e ↦ Unselected→Selected (recv_msg_clicked m idx s) (recv_msg_clicked_again m idx s e)
    | inr e ↦
        let t = recv_msg_clicked m idx s in
        let (sel, clicked, list) = recv_msg_clicked_new m idx s e in
        subst (λ x. Selects x t.clicked_msg t.recv_list t.send_list) (sym sel)
          (
            m,
            clicked,
            ap (λ (v : ListView). current_msg v) list ∙ h,
            ap (λ (v : ListView). v.select_on_add) list,
          )
  ]

  pub send_msg_clicked-Selected :
      (m i : ℕ) (s : Window W)
      → get_elem? s.send_list.rows i ≡ some m
      → Selected (send_msg_clicked m (some i) s)
  unfolding select_msg
  send_msg_clicked-Selected m i s h = elim (Bool-cases (is_msg s.clicked_msg m)) [
    | inl e ↦
        Unselected→Selected (send_msg_clicked m (some i) s) (send_msg_clicked_again m (some i) s e)
    | inr e ↦
        let t = send_msg_clicked m (some i) s in
        let (sel, clicked, list) = send_msg_clicked_new m (some i) s e in
        subst (λ x. Selects x t.clicked_msg t.recv_list t.send_list) (sym sel)
          (m, clicked, ap (λ (v : ListView). current_msg v) list ∙ h)
  ]
