-- ===== src/Gui/ToolBars/Steps.antt =====
-- The tool bars follow the application's manager (app/cc_view/src/GuiAppMgr.cpp) from the start of the
-- application on.
use cc_tools_qt.Base.{ℕ, ◌<◌, ◌≡◌, refl, sym, subst, false, ltb, true, Option, some}
use cc_tools_qt.Message.{Message}
use cc_tools_qt.Plugins.{Plugins}
use cc_tools_qt.Gui.{Window, ActivityState, Signal, emit}
use cc_tools_qt.Applying.Keeping.{Keeps, apply_new_plugins-Keeps}
use cc_tools_qt.Gui.RecvList.{set_recv_running}
use cc_tools_qt.Gui.Consistent.{Consistent}
use cc_tools_qt.Gui.Steps.{
  init, Step, Reach, here, step, runs, times_out, sets_recv_running, sets_mode, sets_filter,
  clicks_recv, deletes_recv, clears_recv, loads_recv, clicks_send, double_clicks_send, adds_send,
  updates_send, duplicates, deletes_send, clears_send, moves_top, moves_up, moves_down,
  moves_bottom, loads_send, starts, starts_all, stops, comments, edits_send, asks_for_messages,
  updates_comment, sends, applies, history-Consistent,
}
use cc_tools_qt.Gui.ToolBars.Following.{emit-FollowsAs, Follows}
use cc_tools_qt.Gui.ToolBars.Reports.{set_recv_running-Follows}
use cc_tools_qt.Gui.ToolBars.Receiving.{
  clear_recv_list-Follows, update_recv_list_mode-Follows, set_filtered_messages-Follows,
}
use cc_tools_qt.Gui.ToolBars.Slots.{
  pending_display_timeout-Follows, with_msg_mgr-Follows, recv_row_clicked-Follows,
  recv_load_msgs-Follows,
}
use cc_tools_qt.Gui.ToolBars.Deleting.{recv_delete_clicked-Follows}
use cc_tools_qt.Gui.ToolBars.Sending.{
  send_add_new_message-Follows, send_update_message-Follows, send_delete_clicked-Follows,
  send_clear_clicked-Follows, send_row_clicked-Follows, send_row_double_clicked-Follows,
}
use cc_tools_qt.Gui.ToolBars.Moving.{
  move_up-Follows, move_down-Follows, send_load_msgs-Follows, send_start_clicked-Follows,
  send_start_all_clicked-Follows, send_stop_clicked-Follows, dup_clicked-Follows, send_now-Follows,
}

module _ {W : Type 0} (p : Plugins W) (next : ℕ → ℕ → Option ℕ)
    (takes : (i n : ℕ) → 0 < n → (j : ℕ) × (next i n ≡ some j) × (j < n)) (a : ActivityState) where
  init-Follows : (objects : ℕ → Message) (n : ℕ) (w : W) → Follows a (init objects n w)
  unfolding init set_recv_running
  init-Follows objects n w = record {
    recv_total = refl;
    send_total = refl;
    recv_running = refl;
    recv_sending = refl;
    send_sending = refl;
    same_active = refl;
    recv_selected = refl;
  }

  changes_activity-Follows :
      (x : ActivityState) (s : Window W)
      → Follows a s
      → Follows a (emit (Signal.activity_state_changed x) s)
  changes_activity-Follows x s k =
      emit-FollowsAs a s.sel_type (Signal.activity_state_changed x) s (record {
        recv_total = k.recv_total;
        send_total = k.send_total;
        recv_running = k.recv_running;
        recv_sending = k.recv_sending;
        send_sending = k.send_sending;
        same_active = refl;
        recv_selected = k.recv_selected;
      })

  Follows-Keeps : Keeps (λ (s : Window W). Follows a s)
  Follows-Keeps = record {
    runs = with_msg_mgr-Follows a;
    changes = λ m s k. k;
    clears_recv = clear_recv_list-Follows a false;
    clears_send = send_clear_clicked-Follows a;
    clears_actions = λ s k. emit-FollowsAs a s.sel_type Signal.clear_all_main_toolbar_actions s k;
    changes_activity = changes_activity-Follows;
    adds_action = λ i s k. emit-FollowsAs a s.sel_type (Signal.add_main_toolbar_action i) s k;
    enables_connect = λ b s k. emit-FollowsAs a s.sel_type (Signal.socket_connect_enabled b) s k;
  }

  Step-Follows : (s t : Window W) → Step p next s t → Consistent s → Follows a s → Follows a t
  Step-Follows s _ (runs f) c k = with_msg_mgr-Follows a f s k
  Step-Follows s _ times_out c k = pending_display_timeout-Follows a s k
  Step-Follows s _ (sets_recv_running b) c k = set_recv_running-Follows a b s k
  Step-Follows s _ (sets_mode m b) c k = update_recv_list_mode-Follows a m b s k
  Step-Follows s _ (sets_filter fs) c k = set_filtered_messages-Follows a fs s k
  Step-Follows s _ (clicks_recv i) c k = recv_row_clicked-Follows a i s k
  Step-Follows s _ (deletes_recv t e h) c k = recv_delete_clicked-Follows a next takes s t e h c k
  Step-Follows s _ clears_recv c k = clear_recv_list-Follows a true s k
  Step-Follows s _ (loads_recv loaded) c k = recv_load_msgs-Follows a p loaded s k
  Step-Follows s _ (clicks_send i) c k = send_row_clicked-Follows a i s k
  Step-Follows s _ (double_clicks_send i) c k = send_row_double_clicked-Follows a i s k
  Step-Follows s _ (adds_send m b) c k = send_add_new_message-Follows a m s k
  Step-Follows s _ (updates_send m e) c k = send_update_message-Follows a m s k
  Step-Follows s _ (duplicates t b e) c k = dup_clicked-Follows a p s t e k
  Step-Follows s _ (deletes_send e b) c k = send_delete_clicked-Follows a next s e k
  Step-Follows s _ clears_send c k = send_clear_clicked-Follows a s k
  Step-Follows s _ moves_top c k = move_up-Follows a next _ s k
  Step-Follows s _ moves_up c k = move_up-Follows a next _ s k
  Step-Follows s _ moves_down c k = move_down-Follows a next _ s k
  Step-Follows s _ moves_bottom c k = move_down-Follows a next _ s k
  Step-Follows s _ (loads_send clear loaded) c k = send_load_msgs-Follows a clear loaded s k
  Step-Follows s _ (starts t e) c k = send_start_clicked-Follows a s t e k
  Step-Follows s _ starts_all c k = send_start_all_clicked-Follows a s k
  Step-Follows s _ stops c k = send_stop_clicked-Follows a s k
  Step-Follows s _ comments c k =
      emit-FollowsAs a s.sel_type (Signal.msg_comment_dialog s.clicked_msg) s k
  Step-Follows s _ edits_send c k =
      emit-FollowsAs a s.sel_type (Signal.update_send_msg_dialog s.clicked_msg) s k
  Step-Follows s _ asks_for_messages c k =
      emit-FollowsAs a s.sel_type (Signal.load_send_msgs_dialog (ltb 0 s.send_list_count)) s k
  Step-Follows s _ (updates_comment m) c k =
      emit-FollowsAs a s.sel_type (Signal.msg_comment_updated m) s k
  Step-Follows s _ (sends msgs) c k = send_now-Follows a p msgs s k
  Step-Follows s _ (applies x infos y e) c k =
      apply_new_plugins-Keeps x (λ (s : Window W). Follows a s) Follows-Keeps infos y
        (subst (λ s. Follows a s) (sym e) k)

  -- After any sequence of steps from the start of the application on, applying plugins included, of
  -- which those that delete or replace a selected message are taken only with a message of that list
  -- selected and those that add to or delete from the list of messages to send only with fewer rows
  -- than an `unsigned` counts, or at most as many for a deletion, if Qt makes a row of the list
  -- current whenever a row is taken out of it and rows are left: the two tool bars show the counters
  -- of the two lists and the states of reception and sending, they agree on the state of activity,
  -- and that of the received messages shows a selected row only while a message of its list is
  -- selected.
  pub history-Follows :
      (objects : ℕ → Message) (n : ℕ) (w : W) (t : Window W)
      → Reach p next (init objects n w) t
      → Follows a t
  history-Follows objects n w t here = init-Follows objects n w
  history-Follows objects n w t (step r s) =
      Step-Follows _ t s (history-Consistent p next objects n w _ r)
        (history-Follows objects n w _ r)
