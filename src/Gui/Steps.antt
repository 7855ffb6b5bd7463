-- ===== src/Gui/Steps.antt =====
-- The window from its start on: every slot, callback and timer of the application's manager
-- (app/cc_view/src/GuiAppMgr.cpp) as a step.
use cc_tools_qt.Base.{
  ℕ, ◌<◌, ◌≤◌, ◌≡◌, refl, sym, subst, Bool, true, false, List, [], Option, none, some, length,
  arith, Option-cases, inl, inr,
}
use Prim.Native.String.{String}
use cc_tools_qt.Message.{Message}
use cc_tools_qt.Plugins.{Plugins}
use cc_tools_qt.MsgMgr.Fields
use cc_tools_qt.MsgMgr.Fields.{State}
use cc_tools_qt.ListView.{current_msg}
use cc_tools_qt.Gui.{Window, SelectionType, SendState, u32_mod}
use cc_tools_qt.Gui.RecvList.{
  Mode, recv_delete_clicked, recv_clear_clicked, recv_row_clicked, set_recv_running, recv_load_msgs,
  update_recv_list_mode, set_filtered_messages, pending_display_timeout, with_msg_mgr,
}
use cc_tools_qt.Gui.SendList.{
  send_add_new_message, send_update_message, send_delete_clicked, send_clear_clicked,
  send_row_clicked, send_row_double_clicked, move_selected_top, move_selected_up,
  move_selected_down, move_selected_bottom, send_load_msgs, send_start_clicked,
  send_start_all_clicked, send_stop_clicked, dup_clicked, send_now,
}
use cc_tools_qt.Gui.Dialogs.{
  comment_clicked, send_edit_clicked, send_load_clicked, msg_comment_updated,
}
use cc_tools_qt.Applying.{Application, App, apply_new_plugins}
use cc_tools_qt.Applying.Keeping.{Keeps, apply_new_plugins-Keeps}
use cc_tools_qt.Gui.Consistent.{Consistent}
use cc_tools_qt.Gui.Consistent.Recv.{clear_recv_list-Consistent}
use cc_tools_qt.Gui.Consistent.Slots.{
  Consistent-frame, with_mgr-Consistent, update_recv_list_mode-Consistent,
  set_filtered_messages-Consistent, pending_display_timeout-Consistent, with_msg_mgr-Consistent,
}
use cc_tools_qt.Gui.Consistent.Delete.{recv_delete_clicked-Consistent, recv_row_clicked-Consistent}
use cc_tools_qt.Gui.Consistent.Removal.{
  send_delete_clicked-Consistent, send_clear_clicked-Consistent,
}
use cc_tools_qt.Gui.Consistent.Send.{
  send_add_new_message-Consistent, send_update_message-Consistent, send_row_clicked-Consistent,
  send_row_double_clicked-Consistent,
}
use cc_tools_qt.Gui.Consistent.Moves.{move_up-Consistent, move_down-Consistent}
use cc_tools_qt.Gui.Consistent.Loading.{
  send_load_msgs-Consistent, recv_load_msgs-Consistent, send_now-Consistent, dup_clicked-Consistent,
}

-- The manager and the lists as their constructors leave them. The manager enables the reception and
-- sets the three callbacks of the message manager.
unfoldable pub init : {W : Type 0} → (ℕ → Message) → ℕ → W → Window W
init objects next_object world = set_recv_running true (record {
  msg_mgr = record (Fields.init objects next_object world) {
    msg_added_callback = true;
    error_report_callback = true;
    connection_callback = true;
  };
  recv_running = true;
  recv_list_count = 0;
  shows_received = true;
  shows_sent = true;
  shows_garbage = true;
  apply_filter = true;
  send_state = SendState.idle;
  send_list_count = 0;
  sel_type = SelectionType.unselected;
  clicked_msg = none;
  pending_display_msg = none;
  pending_display_wait = false;
  filtered_messages = [];
  recv_list = record { rows = []; current_row = none; select_on_add = true };
  send_list = record { rows = []; current_row = none; select_on_add = true };
  signals = [];
})

-- What the user, the dialogs, the timer, the message manager and the application of plugins do to the
-- window. The slots that delete or replace a selected message run only with a message of their list
-- selected: their buttons are disabled without one, and the code asserts it. A message to send is
-- added or deleted only within the range of `unsigned`.
pub data Step {W : Type 0} (p : Plugins W) (next : ℕ → ℕ → Option ℕ) (s : Window W)
    : Window W → Type 0 where
  runs : (f : State W → State W) → Step p next s (with_msg_mgr f s)
  times_out : Step p next s (pending_display_timeout s)
  sets_recv_running : (b : Bool) → Step p next s (set_recv_running b s)
  sets_mode : (m : Mode) (b : Bool) → Step p next s (update_recv_list_mode m b s)
  sets_filter : (fs : List String) → Step p next s (set_filtered_messages fs s)
  clicks_recv : (i : ℕ) → Step p next s (recv_row_clicked i s)
  deletes_recv :
      (t : Window W)
      → s.sel_type ≡ SelectionType.recv
      → recv_delete_clicked next s ≡ some t
      → Step p next s t
  clears_recv : Step p next s (recv_clear_clicked s)
  loads_recv : (loaded : List Message) → Step p next s (recv_load_msgs p loaded s)
  clicks_send : (i : ℕ) → Step p next s (send_row_clicked i s)
  double_clicks_send : (i : ℕ) → Step p next s (send_row_double_clicked i s)
  adds_send : (m : ℕ) → length s.send_list.rows < u32_mod → Step p next s (send_add_new_message m s)
  updates_send : (m : ℕ) → s.sel_type ≡ SelectionType.send → Step p next s (send_update_message m s)
  duplicates :
      (t : Window W)
      → length s.send_list.rows < u32_mod
      → dup_clicked p s ≡ some t
      → Step p next s t
  deletes_send :
      s.sel_type ≡ SelectionType.send
      → length s.send_list.rows ≤ u32_mod
      → Step p next s (send_delete_clicked next s)
  clears_send : Step p next s (send_clear_clicked s)
  moves_top : Step p next s (move_selected_top next s)
  moves_up : Step p next s (move_selected_up next s)
  moves_down : Step p next s (move_selected_down next s)
  moves_bottom : Step p next s (move_selected_bottom next s)
  loads_send :
      (clear : Bool) (loaded : List Message) → Step p next s (send_load_msgs clear loaded s)
  starts : (t : Window W) → send_start_clicked s ≡ some t → Step p next s t
  starts_all : Step p next s (send_start_all_clicked s)
  stops : Step p next s (send_stop_clicked s)
  comments : Step p next s (comment_clicked s)
  edits_send : Step p next s (send_edit_clicked s)
  asks_for_messages : Step p next s (send_load_clicked s)
  updates_comment : (m : ℕ) → Step p next s (msg_comment_updated m s)
  sends : (msgs : List Message) → Step p next s (send_now p msgs s)
  applies :
      (a : Application W) (infos : List ℕ) (x : App W)
      → x.window ≡ s
      → Step p next s (apply_new_plugins a infos x).1.window

pub data Reach {W : Type 0} (p : Plugins W) (next : ℕ → ℕ → Option ℕ) (s : Window W)
    : Window W → Type 0 where
  here : Reach p next s s
  step : {t u : Window W} → Reach p next s t → Step p next t u → Reach p next s u

module _ {W : Type 0} (p : Plugins W) (next : ℕ → ℕ → Option ℕ) where
  init-Consistent : (objects : ℕ → Message) (n : ℕ) (w : W) → Consistent (init objects n w)
  unfolding init set_recv_running
  init-Consistent objects n w = record {
    selected = refl;
    recv_count = refl;
    send_count = refl;
    send_follows = refl;
  }

  set_recv_running-Consistent :
      (b : Bool) (s : Window W) → Consistent s → Consistent (set_recv_running b s)
  unfolding set_recv_running
  set_recv_running-Consistent b s c = Consistent-frame s _ refl refl refl refl refl refl c

  send_start_clicked-Consistent :
      (s t : Window W) → send_start_clicked s ≡ some t → Consistent s → Consistent t
  unfolding send_start_clicked
  send_start_clicked-Consistent s t e c = elim (Option-cases (current_msg s.send_list)) [
    | inl unmarked ↦ absurd (ground (arith, unmarked, e))
    | inr (m, marked) ↦
        Consistent-frame s t (ground (arith, marked, e)) (ground (arith, marked, e))
          (ground (arith, marked, e)) (ground (arith, marked, e)) (ground (arith, marked, e))
          (ground (arith, marked, e)) c
  ]

  Consistent-Keeps : Keeps (λ (s : Window W). Consistent s)
  Consistent-Keeps = record {
    runs = with_msg_mgr-Consistent;
    changes = with_mgr-Consistent;
    clears_recv = clear_recv_list-Consistent false;
    clears_send = send_clear_clicked-Consistent;
    clears_actions = λ s c. Consistent-frame s _ refl refl refl refl refl refl c;
    changes_activity = λ x s c. Consistent-frame s _ refl refl refl refl refl refl c;
    adds_action = λ k s c. Consistent-frame s _ refl refl refl refl refl refl c;
    enables_connect = λ b s c. Consistent-frame s _ refl refl refl refl refl refl c;
  }

  Step-Consistent : (s t : Window W) → Step p next s t → Consistent s → Consistent t
  unfolding send_start_all_clicked send_stop_clicked
  Step-Consistent s _ (runs f) c = with_msg_mgr-Consistent f s c
  Step-Consistent s _ times_out c = pending_display_timeout-Consistent s c
  Step-Consistent s _ (sets_recv_running b) c = set_recv_running-Consistent b s c
  Step-Consistent s _ (sets_mode m b) c = update_recv_list_mode-Consistent m b s c
  Step-Consistent s _ (sets_filter fs) c = set_filtered_messages-Consistent fs s c
  Step-Consistent s _ (clicks_recv i) c = recv_row_clicked-Consistent i s c
  Step-Consistent s _ (deletes_recv t e h) c =
      let (t', e', k) = recv_delete_clicked-Consistent next s e c in
      let same : t' ≡ t = cc in subst (λ x. Consistent x) same k
  Step-Consistent s _ clears_recv c = clear_recv_list-Consistent true s c
  Step-Consistent s _ (loads_recv loaded) c = recv_load_msgs-Consistent p loaded s c
  Step-Consistent s _ (clicks_send i) c = send_row_clicked-Consistent i s c
  Step-Consistent s _ (double_clicks_send i) c = send_row_double_clicked-Consistent i s c
  Step-Consistent s _ (adds_send m b) c = send_add_new_message-Consistent m s b c
  Step-Consistent s _ (updates_send m e) c = send_update_message-Consistent m s e c
  Step-Consistent s _ (duplicates t b e) c = dup_clicked-Consistent p s t b c e
  Step-Consistent s _ (deletes_send e b) c = send_delete_clicked-Consistent next s e b c
  Step-Consistent s _ clears_send c = send_clear_clicked-Consistent s c
  Step-Consistent s _ moves_top c = move_up-Consistent next _ s (λ row. omega arith) c
  Step-Consistent s _ moves_up c = move_up-Consistent next _ s (λ row. omega arith) c
  Step-Consistent s _ moves_down c = move_down-Consistent next _ s (λ below count b. b) c
  Step-Consistent s _ moves_bottom c =
      move_down-Consistent next _ s (λ below count b. omega (arith, b)) c
  Step-Consistent s _ (loads_send clear loaded) c = send_load_msgs-Consistent clear loaded s c
  Step-Consistent s _ (starts t e) c = send_start_clicked-Consistent s t e c
  Step-Consistent s _ starts_all c = Consistent-frame s _ refl refl refl refl refl refl c
  Step-Consistent s _ stops c = Consistent-frame s _ refl refl refl refl refl refl c
  Step-Consistent s _ comments c = Consistent-frame s _ refl refl refl refl refl refl c
  Step-Consistent s _ edits_send c = Consistent-frame s _ refl refl refl refl refl refl c
  Step-Consistent s _ asks_for_messages c = Consistent-frame s _ refl refl refl refl refl refl c
  Step-Consistent s _ (updates_comment m) c = Consistent-frame s _ refl refl refl refl refl refl c
  Step-Consistent s _ (sends msgs) c = send_now-Consistent p msgs s c
  Step-Consistent s _ (applies a infos x e) c =
      apply_new_plugins-Keeps a (λ (s : Window W). Consistent s) Consistent-Keeps infos x
        (subst (λ s. Consistent s) (sym e) c)

  -- After any sequence of steps from the start of the application on, applying plugins included, of
  -- which those that delete or replace a selected message are taken only with a message of that list
  -- selected and those that add to or delete from the list of messages to send only with fewer rows
  -- than an `unsigned` counts, or at most as many for a deletion: the counters are the lengths of the two lists (modulo the range of `unsigned`), and a selected
  -- message is that of the current row of its list.
  pub history-Consistent :
      (objects : ℕ → Message) (n : ℕ) (w : W) (t : Window W)
      → Reach p next (init objects n w) t
      → Consistent t
  history-Consistent objects n w t here = init-Consistent objects n w
  history-Consistent objects n w t (step r s) =
      Step-Consistent _ t s (history-Consistent objects n w _ r)
