-- ===== src/Gui/ToolBars/Clicking.antt =====
-- The tool bars follow the manager when a message of a list is clicked
-- (app/cc_view/src/GuiAppMgr.cpp).
use cc_tools_qt.Base.{
  ℕ, ◌≡◌, sym, subst, true, false, Option, none, some, Bool-cases, inl, inr, arith,
}
use cc_tools_qt.ListView.{clear_selection, select_on_add}
use cc_tools_qt.Gui.{Window, SelectionType, ActivityState, Signal, emit}
use cc_tools_qt.Gui.Clicks.{
  is_msg, on_recv, on_send, display_message, clear_displayed_message, emit_recv_not_selected,
  emit_send_selected, msg_clicked, recv_msg_clicked, send_msg_clicked,
}
use cc_tools_qt.Gui.ToolBars.Following.{
  Follows, FollowsAs, backs_recv, display_message-FollowsAs, clear_displayed_message-FollowsAs,
  emit_send_selected-FollowsAs,
}
use cc_tools_qt.Gui.ToolBars.Reports.{recv_msg_selected-FollowsAs, emit_recv_not_selected-FollowsAs}

module _ {W : Type 0} (a : ActivityState) (sel : SelectionType) where
  pub recv_msg_clicked-Follows :
      (m : ℕ) (idx : Option ℕ) (s : Window W)
      → FollowsAs a sel s
      → Follows a (recv_msg_clicked m idx s)
  unfolding recv_msg_clicked msg_clicked display_message clear_displayed_message
      emit_recv_not_selected emit_send_selected
  recv_msg_clicked-Follows m idx s k =
      let s0 : Window W = on_send clear_selection s in
      let s1 : Window W = emit_send_selected none s0 in
      let k1 = emit_send_selected-FollowsAs a sel none s0 k in
      elim (Bool-cases (is_msg s.clicked_msg m)) [
        | inl e ↦
            let s2 : Window W = clear_displayed_message s1 in
            let t : Window W =
              emit_recv_not_selected (on_recv clear_selection (on_recv (select_on_add true) s2)) in
            let eq : recv_msg_clicked m idx s ≡ t = ground (arith, e) in
            subst (λ u. Follows a u) (sym eq)
              (emit_recv_not_selected-FollowsAs a sel SelectionType.unselected
                (on_recv clear_selection (on_recv (select_on_add true) s2))
                (clear_displayed_message-FollowsAs a sel s1 k1))
        | inr e ↦
            let s2 : Window W = record s1 { sel_type = SelectionType.recv; clicked_msg = some m } in
            let s3 : Window W = on_recv (select_on_add false) (display_message (some m) s2) in
            let t : Window W = emit (Signal.recv_msg_selected idx) s3 in
            let eq : recv_msg_clicked m idx s ≡ t = ground (arith, e) in
            subst (λ u. Follows a u) (sym eq)
              (recv_msg_selected-FollowsAs a sel SelectionType.recv idx s3 (backs_recv idx)
                (display_message-FollowsAs a sel (some m) s2 k1))
      ]

  pub send_msg_clicked-Follows :
      (m : ℕ) (idx : Option ℕ) (s : Window W)
      → FollowsAs a sel s
      → Follows a (send_msg_clicked m idx s)
  unfolding send_msg_clicked msg_clicked display_message clear_displayed_message
      emit_recv_not_selected emit_send_selected
  send_msg_clicked-Follows m idx s k =
      let s0 : Window W = on_recv clear_selection s in
      let s1 : Window W = emit_recv_not_selected s0 in
      elim (Bool-cases (is_msg s.clicked_msg m)) [
        | inl e ↦
            let un = SelectionType.unselected in
            let k1 = emit_recv_not_selected-FollowsAs a sel un s0 k in
            let s2 : Window W = on_recv (select_on_add true) (clear_displayed_message s1) in
            let t : Window W = emit_send_selected none (on_send clear_selection s2) in
            let eq : send_msg_clicked m idx s ≡ t = ground (arith, e) in
            subst (λ u. Follows a u) (sym eq)
              (emit_send_selected-FollowsAs a un none (on_send clear_selection s2)
                (clear_displayed_message-FollowsAs a un s1 k1))
        | inr e ↦
            let in_send = SelectionType.send in
            let k1 = emit_recv_not_selected-FollowsAs a sel in_send s0 k in
            let s2 : Window W = record s1 { sel_type = in_send; clicked_msg = some m } in
            let s3 : Window W = on_recv (select_on_add false) (display_message (some m) s2) in
            let eq : send_msg_clicked m idx s ≡ emit_send_selected idx s3 = ground (arith, e) in
            subst (λ u. Follows a u) (sym eq)
              (emit_send_selected-FollowsAs a in_send idx s3
                (display_message-FollowsAs a in_send (some m) s2 k1))
      ]
