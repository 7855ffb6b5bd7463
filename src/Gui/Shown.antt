-- ===== src/Gui/Shown.antt =====
-- Which messages the list of received messages shows (app/cc_view/src/GuiAppMgr.cpp).
pub mod Modes
pub mod Live
pub mod Clearing
use cc_tools_qt.Base.{
  ℕ, ◌+◌, ◌-◌, ◌%◌, ◌≡◌, refl, sym, ap, ap₂, ◌∙◌, subst, Bool, true, false, not, List, [], ◌∷◌,
  ◌++◌, filter, filter-append, filter-All, All, All-each, append-nil, append_assoc, length, Option,
  none, some, ◌==◌, if_cases, if_keeps, arith, if◌then◌else◌,
}
use cc_tools_qt.MsgMgr.Fields.{State}
use cc_tools_qt.Gui.{Window, can_add_to_recv_list, u32_mod}
use cc_tools_qt.Gui.Clicks.{is_msg, recv_msg_clicked}
use cc_tools_qt.Gui.RecvList.{
  add_msg_to_recv_list, clear_recv_list, show_one, show_each, unselect_recv, unmark_recv,
  refresh_recv_list,
}
use cc_tools_qt.Gui.Selection.{SameLists, recv_msg_clicked-SameLists}
use cc_tools_qt.Gui.Shown.Modes.{
  SameModes, SameModes-refl, SameModes-trans, can_add_to_recv_list_same, recv_msg_clicked-SameModes,
  add_msg_to_recv_list-SameModes, rows-add_msg_to_recv_list, clear_recv_list-SameModes,
  rows-clear_recv_list, unselect_recv-SameModes, unmark_recv-SameModes, rows-unmark_recv,
}

module _ {W : Type 0} where
  -- The list shows the stored messages that pass the modes and the filter, in their order.
  abbrev pub Shows : Window W → Type 0
  Shows s = s.recv_list.rows ≡ filter (can_add_to_recv_list s) s.msg_mgr.all_msgs

  -- The rows that `hs` adds to `s`.
  pub record Adds (hs : List ℕ) (s t : Window W) : Type 0 where
    pub modes : SameModes s t
    pub rows : t.recv_list.rows ≡ s.recv_list.rows ++ filter (can_add_to_recv_list s) hs

  pub Adds-trans :
      (gs hs : List ℕ) (s t u : Window W) → Adds gs s t → Adds hs t u → Adds (gs ++ hs) s u
  Adds-trans gs hs s t u a b =
      let can = can_add_to_recv_list s in
      let same = filter-All (can_add_to_recv_list t) can hs (
        All-each (λ x. can_add_to_recv_list t x ≡ can x) hs
          (can_add_to_recv_list_same s t a.modes)) in
      record {
        modes = SameModes-trans s t u a.modes b.modes;
        rows =
            b.rows
            ∙ ap₂ (λ x y. x ++ y) a.rows same
            ∙ append_assoc s.recv_list.rows (filter can gs) (filter can hs)
            ∙ ap (λ x. s.recv_list.rows ++ x) (sym (filter-append can gs hs));
      }

  show_one-Adds :
      (clicked : Option ℕ) (h : ℕ) (s : Window W) → Adds (h ∷ []) s (show_one clicked h s)
  unfolding show_one
  show_one-Adds clicked h s =
      let P = λ (t : Window W). Adds (h ∷ []) s t in
      let s1 = add_msg_to_recv_list h s in
      let modes = add_msg_to_recv_list-SameModes h s in
      let row = some ((s1.recv_list_count + u32_mod - 1) % u32_mod) in
      if_cases P (can_add_to_recv_list s h) _ s
        (λ e.
          let rows = rows-add_msg_to_recv_list h s ∙ ground (arith, e) in
          if_keeps P (is_msg clicked h) (recv_msg_clicked h row s1) s1
            (record {
              modes = SameModes-trans s s1 _ modes (recv_msg_clicked-SameModes h row s1);
              rows = (recv_msg_clicked-SameLists h row s1).recv_rows ∙ rows;
            })
            (record { modes = modes; rows = rows }))
        (λ e. record {
          modes = SameModes-refl s;
          rows = ground (arith, e, append-nil s.recv_list.rows);
        })

  show_each-Adds :
      (clicked : Option ℕ) (hs : List ℕ) (s : Window W) → Adds hs s (show_each clicked hs s)
  unfolding show_each
  show_each-Adds clicked [] s = record {
    modes = SameModes-refl s;
    rows = sym (append-nil s.recv_list.rows);
  }
  show_each-Adds clicked (h ∷ hs) s =
      let s1 = show_one clicked h s in
      let a = show_one-Adds clicked h s in
      Adds-trans (h ∷ []) hs s s1 _ a (show_each-Adds clicked hs s1)

  pub Shows_after :
      (s t : Window W)
      → SameModes s t
      → filter (can_add_to_recv_list s) s.msg_mgr.all_msgs
        ≡ filter (can_add_to_recv_list t) t.msg_mgr.all_msgs
  Shows_after s t e =
      let can = can_add_to_recv_list t in
      let all = s.msg_mgr.all_msgs in
      sym (
        filter-All can (can_add_to_recv_list s) all
          (All-each (λ x. can x ≡ can_add_to_recv_list s x) all (can_add_to_recv_list_same s t e)))
      ∙ ap (λ (m : State W). filter can m.all_msgs) (sym e.msg_mgr)

  -- Showing the list anew shows exactly the stored messages that pass, in their order.
  pub refresh_recv_list-Shows : (s : Window W) → Shows (refresh_recv_list s)
  unfolding refresh_recv_list
  refresh_recv_list-Shows s =
      let s0 = unselect_recv s in
      let s1 = clear_recv_list false s0 in
      let all = s1.msg_mgr.all_msgs in
      let s2 = show_each s.clicked_msg all s1 in
      let t = unmark_recv s2 in
      let a = show_each-Adds s.clicked_msg all s1 in
      let modes = SameModes-trans s1 s2 t a.modes (unmark_recv-SameModes s2) in
      rows-unmark_recv s2
      ∙ a.rows
      ∙ ap (λ x. x ++ filter (can_add_to_recv_list s1) all) (rows-clear_recv_list false s0)
      ∙ Shows_after s1 t modes
