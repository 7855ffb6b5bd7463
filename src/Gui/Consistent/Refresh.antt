-- ===== src/Gui/Consistent/Refresh.antt =====
-- Showing the received messages anew, and showing one more, keep the window consistent.
use cc_tools_qt.Base.{
  ℕ, ◌+◌, ◌-◌, ◌%◌, ◌≡◌, refl, sym, ap, subst, true, false, List, [], ◌∷◌, Option, none, some,
  ==_iff, ==_refl, if_cases, if_keeps, ◌⊎◌, inl, inr, Option-cases, arith,
}
use cc_tools_qt.ListView.{
  ListView, clear_list, current_msg, add_message, clear_selection, select_on_add,
}
use cc_tools_qt.ListView.Rows.{current_msg-add_message_self}
use cc_tools_qt.Gui.{Window, SelectionType, Signal, u32_mod, emit, can_add_to_recv_list}
use cc_tools_qt.Gui.Clicks.{
  is_msg, on_recv, clear_displayed_message, emit_recv_not_selected, recv_msg_clicked,
}
use cc_tools_qt.Gui.RecvList.{
  is_send, forget_recv_list, add_msg_to_recv_list, clear_recv_list, show_one, show_each,
  unselect_recv, unmark_recv, refresh_recv_list,
}
use cc_tools_qt.Gui.Selection.{
  Selects, Selected, Unselected, Unselected→Selected, recv_msg_clicked-Selected,
  recv_msg_clicked_again, recv_msg_clicked_new, recv_msg_clicked-SameLists,
}
use cc_tools_qt.Gui.Consistent.{Consistent, SameLists-Consistent}
use cc_tools_qt.Gui.Consistent.Recv.{
  add_msg_to_recv_list-Consistent, clear_recv_list-Consistent, clear_recv_list_sent,
}

is_msg→some : (c : Option ℕ) (m : ℕ) → is_msg c m ≡ true → c ≡ some m
is_msg→some none m h = absurd (cc)
is_msg→some (some c) m h = ap (λ x. some x) ((==_iff c m).0 h)

-- Without a selected message the rows that are current do not matter.
Selects-none :
    (sel : SelectionType) (c : Option ℕ) (r r' t : ListView)
    → c ≡ none
    → Selects sel c r t
    → Selects sel c r' t
Selects-none SelectionType.unselected c r r' t e h = h
Selects-none SelectionType.recv c r r' t e (m, e', at, follows) = absurd (cc)
Selects-none SelectionType.send c r r' t e h = h

module _ {W : Type 0} where
  -- When the message to select again comes, it is the selected one or none is.
  Ready : Option ℕ → Window W → Type 0
  Ready clicked s = (clicked ≡ none) ⊎ ((s.clicked_msg ≡ clicked) ⊎ Unselected s)

  click_again :
      (h : ℕ) (row : Option ℕ) (s : Window W)
      → s.clicked_msg ≡ some h
      → Consistent s
      → Consistent (recv_msg_clicked h row s) × Unselected (recv_msg_clicked h row s)
  click_again h row s e c =
      let u = recv_msg_clicked_again h row s (ground (arith, e, ==_refl h)) in
      (
        SameLists-Consistent s (recv_msg_clicked h row s) (recv_msg_clicked-SameLists h row s)
            (Unselected→Selected (recv_msg_clicked h row s) u) c,
        u,
      )

  Ready-add :
      (clicked : Option ℕ) (h : ℕ) (s : Window W)
      → Ready clicked s
      → Ready clicked (add_msg_to_recv_list h s)
  unfolding Ready add_msg_to_recv_list add_message
  Ready-add clicked h s (inl e) = inl e
  Ready-add clicked h s (inr (inl e)) = inr (inl e)
  Ready-add clicked h s (inr (inr u)) =
      inr (inr (record { sel_type = u.sel_type; clicked_msg = u.clicked_msg; follows = u.follows }))

  add_msg_current :
      (h : ℕ) (s : Window W)
      → (add_msg_to_recv_list h s).recv_list.select_on_add ≡ true
      → current_msg (add_msg_to_recv_list h s).recv_list ≡ some h
  unfolding add_msg_to_recv_list add_message
  add_msg_current h s follows = current_msg-add_message_self h s.recv_list follows

  -- The message to select again is clicked when its row has been added.
  click_added :
      (h : ℕ) (row : Option ℕ) (s : Window W)
      → Consistent s
      → Ready (some h) s
      → (Unselected s → current_msg s.recv_list ≡ some h)
      → Consistent (recv_msg_clicked h row s) × Ready (some h) (recv_msg_clicked h row s)
  unfolding Ready
  click_added h row s c (inl e) shown = absurd (cc)
  click_added h row s c (inr (inl e)) shown =
      let (c', u) = click_again h row s e c in (c', inr (inr u))
  click_added h row s c (inr (inr u)) shown =
      let t = recv_msg_clicked h row s in
      let new = recv_msg_clicked_new h row s (ap (λ x. is_msg x h) u.clicked_msg) in
      (
        SameLists-Consistent s t (recv_msg_clicked-SameLists h row s)
            (recv_msg_clicked-Selected h row s (shown u)) c,
        inr (inl new.1),
      )

  show_one-Consistent :
      (clicked : Option ℕ) (h : ℕ) (s : Window W)
      → Consistent s
      → Ready clicked s
      → Consistent (show_one clicked h s) × Ready clicked (show_one clicked h s)
  unfolding show_one
  show_one-Consistent clicked h s c r =
      let P = λ (t : Window W). Consistent t × Ready clicked t in
      let s1 = add_msg_to_recv_list h s in
      let c1 = add_msg_to_recv_list-Consistent h s c in
      let row = some ((s1.recv_list_count + u32_mod - 1) % u32_mod) in
      if_keeps P (can_add_to_recv_list s h) _ s
        (if_cases P (is_msg clicked h) (recv_msg_clicked h row s1) s1
          (λ e.
            let same = is_msg→some clicked h e in
            let ready = subst (λ x. Ready x s1) same (Ready-add clicked h s r) in
            let (c2, r2) = click_added h row s1 c1 ready (λ u. add_msg_current h s u.follows) in
            (c2, subst (λ x. Ready x (recv_msg_clicked h row s1)) (sym same) r2))
          (λ e. (c1, Ready-add clicked h s r)))
        (c, r)

  show_each-Consistent :
      (clicked : Option ℕ) (hs : List ℕ) (s : Window W)
      → Consistent s
      → Ready clicked s
      → Consistent (show_each clicked hs s)
  unfolding show_each
  show_each-Consistent clicked [] s c r = c
  show_each-Consistent clicked (h ∷ hs) s c r =
      let (c', r') = show_one-Consistent clicked h s c r in
      show_each-Consistent clicked hs (show_one clicked h s) c' r'

  clear_recv_list-Unselected : (s : Window W) → Unselected s → Unselected (clear_recv_list false s)
  unfolding clear_recv_list forget_recv_list clear_list clear_displayed_message select_on_add
      emit_recv_not_selected
  clear_recv_list-Unselected s u = ground (arith, u.sel_type, u.follows)

  pub emit-Consistent : (e : Signal) (s : Window W) → Consistent s → Consistent (emit e s)
  emit-Consistent e s c = record {
    selected = c.selected;
    recv_count = c.recv_count;
    send_count = c.send_count;
    send_follows = c.send_follows;
  }

  unmark_recv-Consistent : (s : Window W) → Consistent s → Consistent (unmark_recv s)
  unfolding unmark_recv clear_selection
  unmark_recv-Consistent s c = elim (Option-cases s.clicked_msg) [
    | inr (m, e) ↦
        let eq : unmark_recv s ≡ s = ground (arith, e) in subst (λ t. Consistent t) (sym eq) c
    | inl e ↦
        let eq : unmark_recv s ≡ on_recv clear_selection s = ground (arith, e) in
        subst (λ t. Consistent t) (sym eq)
          (record {
            selected =
                Selects-none s.sel_type s.clicked_msg s.recv_list (clear_selection s.recv_list)
                  s.send_list e c.selected;
            recv_count = c.recv_count;
            send_count = c.send_count;
            send_follows = c.send_follows;
          })
  ]

  pub chosen :
      (sel : SelectionType) (s : Window W)
      → s.sel_type ≡ sel
      → Selected s
      → Selects sel s.clicked_msg s.recv_list s.send_list
  chosen sel s e h = subst (λ x. Selects x s.clicked_msg s.recv_list s.send_list) e h

  unselect_recv-Consistent :
      (sel : SelectionType) (s : Window W)
      → s.sel_type ≡ sel
      → Consistent s
      → Consistent (unselect_recv s) × Ready s.clicked_msg (clear_recv_list false (unselect_recv s))
  unfolding Ready unselect_recv
  unselect_recv-Consistent SelectionType.unselected s e c =
      let eq : unselect_recv s ≡ emit Signal.clear_displayed_msg s = ground (arith, e) in
      subst (λ t. Consistent t × Ready s.clicked_msg (clear_recv_list false t)) (sym eq)
        (
          emit-Consistent Signal.clear_displayed_msg s c,
          inl (chosen SelectionType.unselected s e c.selected),
        )
  unselect_recv-Consistent SelectionType.recv s e c =
      let (m, clicked, at, follows) = chosen SelectionType.recv s e c.selected in
      let row = some ((s.recv_list_count + u32_mod - 1) % u32_mod) in
      let t = recv_msg_clicked m row s in
      let (c', u) = click_again m row s clicked c in
      let eq : unselect_recv s ≡ t = ground (arith, e, clicked) in
      subst (λ x. Consistent x × Ready s.clicked_msg (clear_recv_list false x)) (sym eq)
        (c', inr (inr (clear_recv_list-Unselected t u)))
  unselect_recv-Consistent SelectionType.send s e c =
      let eq : unselect_recv s ≡ s = ground (arith, e) in
      subst (λ x. Consistent x × Ready s.clicked_msg (clear_recv_list false x)) (sym eq)
        (c, inr (inl ((clear_recv_list_sent false s (ap is_send e)).1)))

  pub refresh_recv_list-Consistent :
      (s : Window W) → Consistent s → Consistent (refresh_recv_list s)
  unfolding refresh_recv_list
  refresh_recv_list-Consistent s c =
      let (c0, r) = unselect_recv-Consistent s.sel_type s refl c in
      let s1 = clear_recv_list false (unselect_recv s) in
      let c1 = clear_recv_list-Consistent false (unselect_recv s) c0 in
      let s2 = show_each s.clicked_msg s1.msg_mgr.all_msgs s1 in
      let c2 = show_each-Consistent s.clicked_msg s1.msg_mgr.all_msgs s1 c1 r in
      unmark_recv-Consistent s2 c2
