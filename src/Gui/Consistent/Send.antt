-- ===== src/Gui/Consistent/Send.antt =====
-- The operations on the list of messages to send keep the window consistent.
use cc_tools_qt.Base.{
  ℕ, ◌+◌, ◌-◌, ◌%◌, ◌<◌, ◌≡◌, refl, sym, ap, ◌∙◌, subst, false, [], ◌∷◌, ◌++◌, Option, some, length,
  length-append, if◌then◌else◌, if_keeps, inl, inr, Option-cases, arith,
}
use cc_tools_qt.ListView.{ListView, get_elem?, add_message, update_current, select_msg}
use cc_tools_qt.ListView.Rows.{
  current_row_of_msg, length-set, get_elem?_last, current_msg-update_current,
}
use cc_tools_qt.Gui.{Window, SelectionType, SendState, Signal, u32_mod, emit}
use cc_tools_qt.Gui.Clicks.{is_msg, on_send, display_message, emit_send_selected, send_msg_clicked}
use cc_tools_qt.Gui.RecvList.{is_send}
use cc_tools_qt.Gui.SendList.{
  set_send_count, send_add_new_message, send_update_message, send_row_clicked,
  send_row_double_clicked,
}
use cc_tools_qt.Gui.Selection.{Selects, send_msg_clicked-Selected, send_msg_clicked-SameLists}
use cc_tools_qt.Gui.Consistent.{Consistent, Counted, Consistent→Counted, Counted-Consistent}
use cc_tools_qt.Gui.Consistent.Refresh.{chosen, emit-Consistent}

-- Without a selected message to send, the list of those does not matter.
pub Selects-unsent :
    (sel : SelectionType) (c : Option ℕ) (r t t' : ListView)
    → is_send sel ≡ false
    → Selects sel c r t
    → Selects sel c r t'
Selects-unsent SelectionType.unselected c r t t' e h = h
Selects-unsent SelectionType.recv c r t t' e h = h
Selects-unsent SelectionType.send c r t t' e h = absurd (cc)

module _ {W : Type 0} where
  -- A click on a row that the list has.
  pub send_click-Consistent :
      (m i : ℕ) (s : Window W)
      → get_elem? s.send_list.rows i ≡ some m
      → Counted s
      → Consistent (send_msg_clicked m (some i) s)
  send_click-Consistent m i s at c =
      Counted-Consistent s (send_msg_clicked m (some i) s) (send_msg_clicked-SameLists m (some i) s)
        (send_msg_clicked-Selected m i s at) c

  pub emit_send_selected-Consistent :
      (row : Option ℕ) (s : Window W)
      → is_send s.sel_type ≡ false
      → Consistent s
      → Consistent (emit_send_selected row s)
  unfolding emit_send_selected select_msg
  emit_send_selected-Consistent row s e c = record {
    selected =
        Selects-unsent s.sel_type s.clicked_msg s.recv_list s.send_list (select_msg row s.send_list)
          e c.selected;
    recv_count = c.recv_count;
    send_count = c.send_count;
    send_follows = c.send_follows;
  }

  pub set_send_count-Consistent :
      (n : ℕ) (s : Window W)
      → n ≡ length s.send_list.rows % u32_mod
      → Consistent s
      → Consistent (set_send_count n s)
  unfolding set_send_count
  set_send_count-Consistent n s e c = record {
    selected = c.selected;
    recv_count = c.recv_count;
    send_count = e;
    send_follows = c.send_follows;
  }

  -- The new message is the last row, which the counter's range must be able to name.
  pub send_add_new_message-Consistent :
      (msg : ℕ) (s : Window W)
      → length s.send_list.rows < u32_mod
      → Consistent s
      → Consistent (send_add_new_message msg s)
  unfolding send_add_new_message set_send_count add_message
  send_add_new_message-Consistent msg s b c =
      let rows = s.send_list.rows in
      let s1 = on_send (add_message msg) (set_send_count ((s.send_list_count + 1) % u32_mod) s) in
      let row = (s1.send_list_count + u32_mod - 1) % u32_mod in
      let last : row ≡ length rows = omega (arith, c.send_count) in
      send_click-Consistent msg row s1
        (ap (λ i. get_elem? (rows ++ msg ∷ []) i) last ∙ get_elem?_last rows msg)
        (record {
          recv_count = c.recv_count;
          send_count = omega (arith, c.send_count, length-append rows (msg ∷ []));
          send_follows = c.send_follows;
        })

  -- The dialog that edits a message is open while the message is selected.
  pub send_update_message-Consistent :
      (msg : ℕ) (s : Window W)
      → s.sel_type ≡ SelectionType.send
      → Consistent s
      → Consistent (send_update_message msg s)
  unfolding send_update_message display_message update_current
  send_update_message-Consistent msg s e c =
      let t = send_update_message msg s in
      let (m, clicked, at) = chosen SelectionType.send s e c.selected in
      let (i, row, at') = current_row_of_msg s.send_list m at in
      record {
        selected =
            subst (λ x. Selects x t.clicked_msg t.recv_list t.send_list) (sym e)
              (msg, refl, current_msg-update_current msg m s.send_list at);
        recv_count = c.recv_count;
        send_count = ground (arith, row, c.send_count, length-set s.send_list.rows i msg);
        send_follows = ground (arith, row, c.send_follows);
      }

  pub send_row_clicked-Consistent :
      (i : ℕ) (s : Window W) → Consistent s → Consistent (send_row_clicked i s)
  unfolding send_row_clicked select_msg
  send_row_clicked-Consistent i s c = elim (Option-cases (get_elem? s.send_list.rows i)) [
    | inl e ↦
        let eq : send_row_clicked i s ≡ s = ground (arith, e) in
        subst (λ t. Consistent t) (sym eq) c
    | inr (m, e) ↦
        let s1 = on_send (select_msg (some i)) s in
        let t = send_msg_clicked m (some i) s1 in
        let eq : send_row_clicked i s ≡ t = ground (arith, e) in
        subst (λ t. Consistent t) (sym eq)
          (send_click-Consistent m i s1 e (record {
            recv_count = c.recv_count;
            send_count = c.send_count;
            send_follows = c.send_follows;
          }))
  ]

  edit_row :
      (m i : ℕ) (s : Window W)
      → get_elem? s.send_list.rows i ≡ some m
      → Consistent s
      → (st : SendState) → s.send_state ≡ st
      → Consistent (send_row_double_clicked i s)
  unfolding send_row_double_clicked
  edit_row m i s e c SendState.idle idle =
      let s1 = if is_msg s.clicked_msg m then s else send_msg_clicked m (some i) s in
      let eq : send_row_double_clicked i s
          ≡ emit (Signal.update_send_msg_dialog s1.clicked_msg) s1 =
        ground (arith, e, idle) in
      subst (λ t. Consistent t) (sym eq)
        (emit-Consistent _ s1 (
          if_keeps (λ (t : Window W). Consistent t) (is_msg s.clicked_msg m) s
            (send_msg_clicked m (some i) s) c
            (send_click-Consistent m i s e (Consistent→Counted s c))))
  edit_row m i s e c SendState.sending_single st =
      let eq : send_row_double_clicked i s ≡ s = ground (arith, e, st) in
      subst (λ t. Consistent t) (sym eq) c
  edit_row m i s e c SendState.sending_all st =
      let eq : send_row_double_clicked i s ≡ s = ground (arith, e, st) in
      subst (λ t. Consistent t) (sym eq) c

  pub send_row_double_clicked-Consistent :
      (i : ℕ) (s : Window W) → Consistent s → Consistent (send_row_double_clicked i s)
  unfolding send_row_double_clicked
  send_row_double_clicked-Consistent i s c = elim (Option-cases (get_elem? s.send_list.rows i)) [
    | inl e ↦
        let eq : send_row_double_clicked i s ≡ s = ground (arith, e) in
        subst (λ t. Consistent t) (sym eq) c
    | inr (m, e) ↦ edit_row m i s e c s.send_state refl
  ]
