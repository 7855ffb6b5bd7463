-- ===== src/Gui/Shown/Clearing.antt =====
-- Clearing the list of received messages (app/cc_view/src/GuiAppMgr.cpp with lib/src/ToolsMsgMgrImpl.cpp).
use cc_tools_qt.Base.{
  ℕ, ◌≤◌, ◌≡◌, refl, sym, ap, ◌∙◌, Bool, true, not, List, [], ◌∷◌, length, filter, ◌==◌, ==_iff,
  Bool-cases, inl, inr, arith, if_cases,
}
use cc_tools_qt.MsgMgr.Fields.{State}
use cc_tools_qt.MsgMgr.Order.{Inv}
use cc_tools_qt.MsgMgr.Delete.{delete_all_msgs, delete_msgs}
use cc_tools_qt.MsgMgr.Delete.Exact.{Merge, done, gone, kept, delete_msgs_exact}
use cc_tools_qt.Gui.{Window, can_add_to_recv_list}
use cc_tools_qt.Gui.Clicks.{clear_displayed_message, emit_recv_not_selected}
use cc_tools_qt.Gui.RecvList.{
  delete_messages, recv_clear_clicked, clear_recv_list, forget_recv_list,
}
use cc_tools_qt.Gui.Shown.{Shows}
use cc_tools_qt.Gui.Shown.Modes.{rows-clear_recv_list}

filter-Merge : (f : ℕ → Bool) (hs : List ℕ) → Merge (filter f hs) (filter (λ h. not (f h)) hs) hs
filter-Merge f [] = done
filter-Merge f (h ∷ hs) = elim (Bool-cases (f h)) [
  | inl e ↦ rw e (gone (filter-Merge f hs))
  | inr e ↦ rw e (kept (filter-Merge f hs))
]

length-filter : (f : ℕ → Bool) (hs : List ℕ) → length (filter f hs) ≤ length hs
length-filter f [] = omega arith
length-filter f (h ∷ hs) = ground (arith, length-filter f hs)

-- A list of the same length as all messages is all of them.
filter_all :
    (f : ℕ → Bool) (hs : List ℕ)
    → length hs ≡ length (filter f hs)
    → filter (λ h. not (f h)) hs ≡ []
filter_all f [] e = refl
filter_all f (h ∷ hs) e = ground (arith, length-filter f hs, filter_all f hs)

module _ {W : Type 0} where
  delete_messages_exact :
      (f : ℕ → Bool) (m : State W)
      → Inv m
      → (delete_messages (filter f m.all_msgs) m).all_msgs ≡ filter (λ h. not (f h)) m.all_msgs
  unfolding delete_messages delete_all_msgs
  delete_messages_exact f m v =
      let hs = filter f m.all_msgs in
      if_cases (λ (t : State W). t.all_msgs ≡ filter (λ h. not (f h)) m.all_msgs)
        (length m.all_msgs == length hs) (delete_all_msgs m) (delete_msgs hs m)
        (λ e. sym (filter_all f m.all_msgs ((==_iff (length m.all_msgs) (length hs)).0 e)))
        (λ e.
          delete_msgs_exact hs (filter (λ h. not (f h)) m.all_msgs) m v (filter-Merge f m.all_msgs))

  clear_recv_list-msg_mgr :
      (s : Window W) → (clear_recv_list true s).msg_mgr ≡ delete_messages s.recv_list.rows s.msg_mgr
  unfolding clear_recv_list forget_recv_list clear_displayed_message emit_recv_not_selected
  clear_recv_list-msg_mgr s = ground arith

  -- Clearing the list empties it and deletes from the manager exactly the messages that it shows: those
  -- that the modes and the filter hide stay, in their order. This holds when the list shows the
  -- stored messages that pass and the store is in the order of the message numbers.
  pub recv_clear_clicked_exact :
      (s : Window W)
      → Shows s
      → Inv s.msg_mgr
      → let t = recv_clear_clicked s in
        (t.recv_list.rows ≡ [])
        × (t.msg_mgr.all_msgs ≡ filter (λ h. not (can_add_to_recv_list s h)) s.msg_mgr.all_msgs)
  recv_clear_clicked_exact s shown v =
      let can = can_add_to_recv_list s in
      (
        rows-clear_recv_list true s,
        ap (λ (m : State W). m.all_msgs) (clear_recv_list-msg_mgr s)
            ∙ ap (λ hs. (delete_messages hs s.msg_mgr).all_msgs) shown
            ∙ delete_messages_exact can s.msg_mgr v,
      )
