-- ===== src/Gui/ToolBars/Receiving.antt =====
-- The tool bars follow the manager through its slots and callbacks about received messages
-- (app/cc_view/src/GuiAppMgr.cpp).
use Prim.Native.String.{String}
use cc_tools_qt.Base.{
  ℕ, ◌+◌, ◌-◌, ◌%◌, ◌≡◌, sym, subst, Bool, true, false, List, [], ◌∷◌, Option, some, inl, inr,
  if_keeps, arith,
}
use cc_tools_qt.ListView.{select_on_add, clear_selection}
use cc_tools_qt.Gui.{
  Window, SelectionType, ActivityState, Signal, emit, u32_mod, can_add_to_recv_list,
}
use cc_tools_qt.Gui.Clicks.{
  is_msg, on_recv, clear_displayed_message, emit_recv_not_selected, recv_msg_clicked,
}
use cc_tools_qt.Gui.RecvList.{
  Mode, add_msg_to_recv_list, forget_recv_list, clear_recv_list, show_one, show_each, unselect_recv,
  unmark_recv, refresh_recv_list, set_mode, update_recv_list_mode, set_filtered_messages,
  same_texts,
}
use cc_tools_qt.Gui.ToolBars.Cases.{SelectionType-cases, option_cases, selection_cases}
use cc_tools_qt.Gui.ToolBars.Following.{
  Follows, FollowsAs, emit-FollowsAs, clear_displayed_message-FollowsAs,
}
use cc_tools_qt.Gui.ToolBars.Reports.{emit_recv_not_selected-FollowsAs, recv_count-FollowsAs}
use cc_tools_qt.Gui.ToolBars.Clicking.{recv_msg_clicked-Follows}

module _ {W : Type 0} (a : ActivityState) where
  pub add_msg_to_recv_list-Follows :
      (h : ℕ) (s : Window W) → Follows a s → Follows a (add_msg_to_recv_list h s)
  unfolding add_msg_to_recv_list
  add_msg_to_recv_list-Follows h s k =
      recv_count-FollowsAs a s.sel_type ((s.recv_list_count + 1) % u32_mod) s k

  forget_recv_list-Follows : (s : Window W) → Follows a s → Follows a (forget_recv_list s)
  unfolding forget_recv_list clear_displayed_message emit_recv_not_selected
  forget_recv_list-Follows s k = elim (SelectionType-cases s.sel_type) [
    | inl e ↦
        let s2 : Window W = clear_displayed_message s in
        let t : Window W =
          emit (Signal.recv_list_count_report 0) (record s2 { recv_list_count = 0 }) in
        let eq : forget_recv_list s ≡ t = ground (arith, e) in
        let k2 =
          clear_displayed_message-FollowsAs a SelectionType.unselected s
            (subst (λ x. FollowsAs a x s) e k) in
        subst (λ u. Follows a u) (sym eq) (recv_count-FollowsAs a SelectionType.unselected 0 s2 k2)
    | inr (inl e) ↦
        let s2 : Window W = on_recv (select_on_add true) (clear_displayed_message s) in
        let s3 : Window W = emit_recv_not_selected s2 in
        let t : Window W =
          emit (Signal.recv_list_count_report 0) (record s3 { recv_list_count = 0 }) in
        let eq : forget_recv_list s ≡ t = ground (arith, e) in
        let k2 = clear_displayed_message-FollowsAs a s.sel_type s k in
        let k3 = emit_recv_not_selected-FollowsAs a s.sel_type SelectionType.unselected s2 k2 in
        subst (λ u. Follows a u) (sym eq) (recv_count-FollowsAs a SelectionType.unselected 0 s3 k3)
    | inr (inr e) ↦
        let t : Window W =
          emit (Signal.recv_list_count_report 0) (record s { recv_list_count = 0 }) in
        let eq : forget_recv_list s ≡ t = ground (arith, e) in
        subst (λ u. Follows a u) (sym eq) (recv_count-FollowsAs a s.sel_type 0 s k)
  ]

  pub clear_recv_list-Follows :
      (b : Bool) (s : Window W) → Follows a s → Follows a (clear_recv_list b s)
  unfolding clear_recv_list
  clear_recv_list-Follows b s k =
      let k1 = forget_recv_list-Follows s k in if_keeps (λ (t : Window W). Follows a t) b _ _ k1 k1

  show_one-Follows :
      (clicked : Option ℕ) (h : ℕ) (s : Window W) → Follows a s → Follows a (show_one clicked h s)
  unfolding show_one
  show_one-Follows clicked h s k =
      let P = λ (t : Window W). Follows a t in
      let s1 = add_msg_to_recv_list h s in
      let k1 = add_msg_to_recv_list-Follows h s k in
      let row = some ((s1.recv_list_count + u32_mod - 1) % u32_mod) in
      if_keeps P (can_add_to_recv_list s h) _ s
        (if_keeps P (is_msg clicked h) (recv_msg_clicked h row s1) s1
          (recv_msg_clicked-Follows a s1.sel_type h row s1 k1) k1)
        k

  show_each-Follows :
      (clicked : Option ℕ) (hs : List ℕ) (s : Window W)
      → Follows a s
      → Follows a (show_each clicked hs s)
  unfolding show_each
  show_each-Follows clicked [] s k = k
  show_each-Follows clicked (h ∷ hs) s k =
      show_each-Follows clicked hs (show_one clicked h s) (show_one-Follows clicked h s k)

  unmark_recv-Follows : (s : Window W) → Follows a s → Follows a (unmark_recv s)
  unfolding unmark_recv
  unmark_recv-Follows s k =
      option_cases (λ (t : Window W). Follows a t) s.clicked_msg (on_recv clear_selection s)
        (λ m. s) (λ e. k) (λ m e. k)

  unselect_recv-Follows : (s : Window W) → Follows a s → Follows a (unselect_recv s)
  unfolding unselect_recv
  unselect_recv-Follows s k =
      let P = λ (t : Window W). Follows a t in
      let row = some ((s.recv_list_count + u32_mod - 1) % u32_mod) in
      selection_cases P s.sel_type _ (emit Signal.clear_displayed_msg s) s
        (option_cases P s.clicked_msg s (λ m. recv_msg_clicked m row s) (λ e. k)
          (λ m e. recv_msg_clicked-Follows a s.sel_type m row s k))
        (emit-FollowsAs a s.sel_type Signal.clear_displayed_msg s k) k

  title-Follows :
      (s : Window W) → Follows a s → Follows a (emit Signal.recv_list_title_needs_update s)
  title-Follows s k = emit-FollowsAs a s.sel_type Signal.recv_list_title_needs_update s k

  refresh_recv_list-Follows : (s : Window W) → Follows a s → Follows a (refresh_recv_list s)
  unfolding refresh_recv_list
  refresh_recv_list-Follows s k =
      let s1 = clear_recv_list false (unselect_recv s) in
      let k1 = clear_recv_list-Follows false _ (unselect_recv-Follows s k) in
      unmark_recv-Follows _ (show_each-Follows s.clicked_msg s1.msg_mgr.all_msgs s1 k1)

  pub update_recv_list_mode-Follows :
      (m : Mode) (b : Bool) (s : Window W) → Follows a s → Follows a (update_recv_list_mode m b s)
  unfolding update_recv_list_mode set_mode
  update_recv_list_mode-Follows Mode.show_garbage b s k =
      refresh_recv_list-Follows (set_mode Mode.show_garbage b s) k
  update_recv_list_mode-Follows Mode.show_received b s k =
      refresh_recv_list-Follows _ (title-Follows (set_mode Mode.show_received b s) k)
  update_recv_list_mode-Follows Mode.show_sent b s k =
      refresh_recv_list-Follows _ (title-Follows (set_mode Mode.show_sent b s) k)
  update_recv_list_mode-Follows Mode.filter_applied b s k =
      refresh_recv_list-Follows _ (title-Follows (set_mode Mode.filter_applied b s) k)

  pub set_filtered_messages-Follows :
      (fs : List String) (s : Window W) → Follows a s → Follows a (set_filtered_messages fs s)
  unfolding set_filtered_messages
  set_filtered_messages-Follows fs s k =
      let P = λ (t : Window W). Follows a t in
      let s1 = record s { filtered_messages = fs } in
      if_keeps P (same_texts fs s.filtered_messages) s _ k
        (if_keeps P s.apply_filter (refresh_recv_list s1) s1 (refresh_recv_list-Follows s1 k) k)
