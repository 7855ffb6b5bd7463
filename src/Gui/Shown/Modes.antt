-- ===== src/Gui/Shown/Modes.antt =====
-- What decides whether a message is shown, and the operations that leave it alone
-- (app/cc_view/src/GuiAppMgr.cpp).
use cc_tools_qt.Base.{ℕ, ◌≡◌, refl, ◌∙◌, Bool, false, [], ◌∷◌, ◌++◌, Option, arith}
use cc_tools_qt.ListView.{add_message, clear_list, clear_selection, select_on_add, select_msg}
use cc_tools_qt.Gui.{Window, can_add_to_recv_list}
use cc_tools_qt.Gui.Clicks.{
  display_message, clear_displayed_message, emit_recv_not_selected, emit_send_selected, msg_clicked,
  recv_msg_clicked,
}
use cc_tools_qt.Gui.RecvList.{
  add_msg_to_recv_list, forget_recv_list, clear_recv_list, unselect_recv, unmark_recv,
}

pub record SameModes {W : Type 0} (s t : Window W) : Type 0 where
  pub msg_mgr : t.msg_mgr ≡ s.msg_mgr
  pub shows_received : t.shows_received ≡ s.shows_received
  pub shows_sent : t.shows_sent ≡ s.shows_sent
  pub shows_garbage : t.shows_garbage ≡ s.shows_garbage
  pub apply_filter : t.apply_filter ≡ s.apply_filter
  pub filtered_messages : t.filtered_messages ≡ s.filtered_messages

module _ {W : Type 0} where
  pub SameModes-refl : (s : Window W) → SameModes s s
  SameModes-refl s = record {
    msg_mgr = refl;
    shows_received = refl;
    shows_sent = refl;
    shows_garbage = refl;
    apply_filter = refl;
    filtered_messages = refl;
  }

  pub SameModes-trans : (s t u : Window W) → SameModes s t → SameModes t u → SameModes s u
  SameModes-trans s t u e f = record {
    msg_mgr = f.msg_mgr ∙ e.msg_mgr;
    shows_received = f.shows_received ∙ e.shows_received;
    shows_sent = f.shows_sent ∙ e.shows_sent;
    shows_garbage = f.shows_garbage ∙ e.shows_garbage;
    apply_filter = f.apply_filter ∙ e.apply_filter;
    filtered_messages = f.filtered_messages ∙ e.filtered_messages;
  }

  pub can_add_to_recv_list_same :
      (s t : Window W)
      → SameModes s t
      → (h : ℕ) → can_add_to_recv_list t h ≡ can_add_to_recv_list s h
  unfolding can_add_to_recv_list
  can_add_to_recv_list_same s t e h =
      rw
        (
          e.msg_mgr, e.shows_received, e.shows_sent, e.shows_garbage, e.apply_filter,
          e.filtered_messages,
        )
        refl

  pub recv_msg_clicked-SameModes :
      (m : ℕ) (idx : Option ℕ) (s : Window W) → SameModes s (recv_msg_clicked m idx s)
  unfolding recv_msg_clicked msg_clicked display_message clear_displayed_message
      emit_recv_not_selected emit_send_selected clear_selection select_on_add select_msg
  recv_msg_clicked-SameModes m idx s = ground arith

  pub add_msg_to_recv_list-SameModes :
      (h : ℕ) (s : Window W) → SameModes s (add_msg_to_recv_list h s)
  unfolding add_msg_to_recv_list add_message
  add_msg_to_recv_list-SameModes h s = ground arith

  pub rows-add_msg_to_recv_list :
      (h : ℕ) (s : Window W)
      → (add_msg_to_recv_list h s).recv_list.rows ≡ s.recv_list.rows ++ h ∷ []
  unfolding add_msg_to_recv_list add_message
  rows-add_msg_to_recv_list h s = refl

  pub clear_recv_list-SameModes : (s : Window W) → SameModes s (clear_recv_list false s)
  unfolding clear_recv_list forget_recv_list clear_list clear_displayed_message select_on_add
      emit_recv_not_selected
  clear_recv_list-SameModes s = ground arith

  pub rows-clear_recv_list : (b : Bool) (s : Window W) → (clear_recv_list b s).recv_list.rows ≡ []
  unfolding clear_recv_list forget_recv_list clear_list clear_displayed_message select_on_add
      emit_recv_not_selected
  rows-clear_recv_list b s = ground arith

  pub unselect_recv-SameModes : (s : Window W) → SameModes s (unselect_recv s)
  unfolding unselect_recv recv_msg_clicked msg_clicked display_message clear_displayed_message
      emit_recv_not_selected emit_send_selected clear_selection select_on_add select_msg
  unselect_recv-SameModes s = ground arith

  pub unmark_recv-SameModes : (s : Window W) → SameModes s (unmark_recv s)
  unfolding unmark_recv clear_selection
  unmark_recv-SameModes s = ground arith

  pub rows-unmark_recv : (s : Window W) → (unmark_recv s).recv_list.rows ≡ s.recv_list.rows
  unfolding unmark_recv clear_selection
  rows-unmark_recv s = ground arith
