-- ===== src/Gui/Consistent/Recv.antt =====
-- The operations on the list of received messages keep the window consistent.
use cc_tools_qt.Base.{
  ℕ, ◌%◌, ◌≡◌, refl, sym, ap, ◌∙◌, subst, Bool, true, false, [], ◌∷◌, Option, none, length,
  length-append, inl, inr, Bool-cases, arith,
}
use cc_tools_qt.ListView.{ListView, current_msg, add_message, clear_list, select_on_add}
use cc_tools_qt.ListView.Rows.{current_msg-add_message}
use cc_tools_qt.Gui.{Window, SelectionType, u32_mod}
use cc_tools_qt.Gui.Clicks.{clear_displayed_message, emit_recv_not_selected}
use cc_tools_qt.Gui.RecvList.{is_send, add_msg_to_recv_list, forget_recv_list, clear_recv_list}
use cc_tools_qt.Gui.Consistent.{Consistent}
use cc_tools_qt.Gui.Selection.{Selects, Selected}

Selects-add_message :
    (sel : SelectionType) (c : Option ℕ) (r t : ListView) (h : ℕ)
    → Selects sel c r t
    → Selects sel c (add_message h r) t
unfolding add_message
Selects-add_message SelectionType.unselected c r t h s = s
Selects-add_message SelectionType.recv c r t h (m, e, at, follows) =
    (m, e, current_msg-add_message h m r follows at, follows)
Selects-add_message SelectionType.send c r t h s = s

is_send→send : (sel : SelectionType) → is_send sel ≡ true → sel ≡ SelectionType.send
is_send→send SelectionType.unselected h = absurd (cc)
is_send→send SelectionType.recv h = absurd (cc)
is_send→send SelectionType.send h = refl

module _ {W : Type 0} where
  pub add_msg_to_recv_list-Consistent :
      (h : ℕ) (s : Window W) → Consistent s → Consistent (add_msg_to_recv_list h s)
  unfolding add_msg_to_recv_list add_message
  add_msg_to_recv_list-Consistent h s c = record {
    selected = Selects-add_message s.sel_type s.clicked_msg s.recv_list s.send_list h c.selected;
    recv_count = omega (arith, c.recv_count, length-append s.recv_list.rows (h ∷ []));
    send_count = c.send_count;
    send_follows = c.send_follows;
  }

  -- What `clearRecvList` leaves as it is.
  record Cleared (s t : Window W) : Type 0 where
    recv_rows : t.recv_list.rows ≡ []
    recv_count : t.recv_list_count ≡ 0
    send_list : t.send_list ≡ s.send_list
    send_count : t.send_list_count ≡ s.send_list_count

  clear_recv_list-Cleared : (b : Bool) (s : Window W) → Cleared s (clear_recv_list b s)
  unfolding clear_recv_list forget_recv_list clear_list clear_displayed_message select_on_add
      emit_recv_not_selected
  clear_recv_list-Cleared b s = ground arith

  pub clear_recv_list_sent :
      (b : Bool) (s : Window W)
      → is_send s.sel_type ≡ true
      → ((clear_recv_list b s).sel_type ≡ s.sel_type)
        × ((clear_recv_list b s).clicked_msg ≡ s.clicked_msg)
  unfolding clear_recv_list forget_recv_list clear_list clear_displayed_message select_on_add
      emit_recv_not_selected
  clear_recv_list_sent b s e = (ground (arith, e), ground (arith, e))

  clear_recv_list_unsent :
      (b : Bool) (s : Window W)
      → is_send s.sel_type ≡ false
      → ((clear_recv_list b s).sel_type ≡ SelectionType.unselected)
        × ((clear_recv_list b s).clicked_msg ≡ none)
  unfolding clear_recv_list forget_recv_list clear_list clear_displayed_message select_on_add
      emit_recv_not_selected
  clear_recv_list_unsent b s e = (ground (arith, e), ground (arith, e))

  clear_recv_list-Selected : (b : Bool) (s : Window W) → Selected s → Selected (clear_recv_list b s)
  clear_recv_list-Selected b s h = elim (Bool-cases (is_send s.sel_type)) [
    | inl e ↦
        let t = clear_recv_list b s in
        let (sel, clicked) = clear_recv_list_sent b s e in
        let sent = is_send→send s.sel_type e in
        let (m, chosen, at) = subst (λ x. Selects x s.clicked_msg s.recv_list s.send_list) sent h in
        subst (λ x. Selects x t.clicked_msg t.recv_list t.send_list) (sym (sel ∙ sent))
          (
            m,
            clicked ∙ chosen,
            ap (λ (v : ListView). current_msg v) (clear_recv_list-Cleared b s).send_list ∙ at,
          )
    | inr e ↦
        let t = clear_recv_list b s in
        let (sel, clicked) = clear_recv_list_unsent b s e in
        subst (λ x. Selects x t.clicked_msg t.recv_list t.send_list) (sym sel) clicked
  ]

  pub clear_recv_list-Consistent :
      (b : Bool) (s : Window W) → Consistent s → Consistent (clear_recv_list b s)
  clear_recv_list-Consistent b s c =
      let k = clear_recv_list-Cleared b s in
      record {
        selected = clear_recv_list-Selected b s c.selected;
        recv_count = k.recv_count ∙ ap (λ l. length l % u32_mod) (sym k.recv_rows);
        send_count =
            k.send_count
            ∙ c.send_count
            ∙ ap (λ (v : ListView). length v.rows % u32_mod) (sym k.send_list);
        send_follows = ap (λ (v : ListView). v.select_on_add) k.send_list ∙ c.send_follows;
      }
