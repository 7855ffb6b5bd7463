-- ===== src/Gui/ToolBars/Reports.antt =====
-- The tool bars after the reports of the manager: the selected row, the counters and the states
-- (app/cc_view/src/GuiAppMgr.cpp).
use cc_tools_qt.Base.{ℕ, ◌≡◌, refl, Bool, true, false, Option, none}
use cc_tools_qt.MsgMgr.Control
use cc_tools_qt.Gui.{Window, SelectionType, SendState, ActivityState, Signal, emit}
use cc_tools_qt.Gui.Clicks.{display_message, emit_recv_not_selected, emit_send_selected}
use cc_tools_qt.Gui.RecvList.{is_recv, set_recv_running}
use cc_tools_qt.Gui.ToolBars.Following.{
  backs, backs_other, recv_bar, Follows, FollowsAs, emit-FollowsAs, display_message-FollowsAs,
  emit_send_selected-FollowsAs,
}

module _ {W : Type 0} (a : ActivityState) where
  -- The report of a selected row of the received messages, for a new selection.
  pub recv_msg_selected-FollowsAs :
      (sel t : SelectionType) (idx : Option ℕ) (s : Window W)
      → backs t idx ≡ true
      → FollowsAs a sel s
      → FollowsAs a t (emit (Signal.recv_msg_selected idx) s)
  recv_msg_selected-FollowsAs sel t idx s b k =
      emit-FollowsAs a t (Signal.recv_msg_selected idx) s (record {
        recv_total = k.recv_total;
        send_total = k.send_total;
        recv_running = k.recv_running;
        recv_sending = k.recv_sending;
        send_sending = k.send_sending;
        same_active = k.same_active;
        recv_selected = b;
      })

  pub emit_recv_not_selected-FollowsAs :
      (sel t : SelectionType) (s : Window W)
      → FollowsAs a sel s
      → FollowsAs a t (emit_recv_not_selected s)
  unfolding emit_recv_not_selected
  emit_recv_not_selected-FollowsAs sel t s k = recv_msg_selected-FollowsAs sel t none s refl k

  pub display_message-Follows :
      (m : Option ℕ) (s : Window W) → Follows a s → Follows a (display_message m s)
  unfolding display_message
  display_message-Follows m s k = display_message-FollowsAs a s.sel_type m s k

  pub emit_send_selected-Follows :
      (idx : Option ℕ) (s : Window W) → Follows a s → Follows a (emit_send_selected idx s)
  unfolding emit_send_selected
  emit_send_selected-Follows idx s k = emit_send_selected-FollowsAs a s.sel_type idx s k

  -- The list of received messages has no selection to lose.
  pub FollowsAs-other :
      (sel t : SelectionType) (s : Window W)
      → is_recv sel ≡ false
      → FollowsAs a sel s
      → FollowsAs a t s
  FollowsAs-other sel t s other k = record {
    recv_total = k.recv_total;
    send_total = k.send_total;
    recv_running = k.recv_running;
    recv_sending = k.recv_sending;
    send_sending = k.send_sending;
    same_active = k.same_active;
    recv_selected = backs_other sel t (recv_bar a s).selected_idx other k.recv_selected;
  }

  pub recv_count-FollowsAs :
      (sel : SelectionType) (n : ℕ) (s : Window W)
      → FollowsAs a sel s
      → FollowsAs a sel (emit (Signal.recv_list_count_report n) (record s { recv_list_count = n }))
  recv_count-FollowsAs sel n s k =
      emit-FollowsAs a sel (Signal.recv_list_count_report n) (record s { recv_list_count = n })
        (record {
          recv_total = refl;
          send_total = k.send_total;
          recv_running = k.recv_running;
          recv_sending = k.recv_sending;
          send_sending = k.send_sending;
          same_active = k.same_active;
          recv_selected = k.recv_selected;
        })

  pub send_count-FollowsAs :
      (sel : SelectionType) (n : ℕ) (s : Window W)
      → FollowsAs a sel s
      → FollowsAs a sel (emit (Signal.send_list_count_report n) (record s { send_list_count = n }))
  send_count-FollowsAs sel n s k =
      emit-FollowsAs a sel (Signal.send_list_count_report n) (record s { send_list_count = n })
        (record {
          recv_total = k.recv_total;
          send_total = refl;
          recv_running = k.recv_running;
          recv_sending = k.recv_sending;
          send_sending = k.send_sending;
          same_active = k.same_active;
          recv_selected = k.recv_selected;
        })

  pub send_state-FollowsAs :
      (sel : SelectionType) (t : SendState) (s : Window W)
      → FollowsAs a sel s
      → FollowsAs a sel (emit (Signal.set_send_state t) (record s { send_state = t }))
  send_state-FollowsAs sel t s k =
      emit-FollowsAs a sel (Signal.set_send_state t) (record s { send_state = t })
        (record {
          recv_total = k.recv_total;
          send_total = k.send_total;
          recv_running = k.recv_running;
          recv_sending = refl;
          send_sending = refl;
          same_active = k.same_active;
          recv_selected = k.recv_selected;
        })

  pub set_recv_running-Follows :
      (b : Bool) (s : Window W) → Follows a s → Follows a (set_recv_running b s)
  unfolding set_recv_running
  set_recv_running-Follows b s k =
      emit-FollowsAs a s.sel_type (Signal.set_recv_state b)
        (record s { msg_mgr = Control.set_recv_enabled b s.msg_mgr; recv_running = b })
        (record {
          recv_total = k.recv_total;
          send_total = k.send_total;
          recv_running = refl;
          recv_sending = k.recv_sending;
          send_sending = k.send_sending;
          same_active = k.same_active;
          recv_selected = k.recv_selected;
        })
