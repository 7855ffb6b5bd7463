-- ===== src/Tests/Window.antt =====
-- The window's theorems at concrete states.
use cc_tools_qt.Base.{
  ◌==◌, if◌then◌else◌, ℕ, ◌-◌, ◌≡◌, refl, true, false, not, [], ◌∷◌, filter, Option, none, some,
  leb, ◌<◌, Bool-cases, inl, inr, arith,
}
use cc_tools_qt.MsgMgr.Order.{Inv}
use cc_tools_qt.MsgMgr.Send.{send_msgs}
use cc_tools_qt.MsgMgr.Receive.{socket_data_received, read_all}
use cc_tools_qt.MsgMgr.Chain.{chain, round}
use cc_tools_qt.Gui.{
  ActivityState, Window, SelectionType, SendState, can_add_to_recv_list, is_hidden, lower_bound,
}
use cc_tools_qt.Gui.RecvList.{
  Mode, refresh_recv_list, with_msg_mgr, recv_clear_clicked, update_recv_list_mode, msg_added,
  recv_row_clicked,
}
use cc_tools_qt.ListView.{select_on_add}
use cc_tools_qt.MsgMgr.Control
use cc_tools_qt.MsgMgr.Fields
use cc_tools_qt.MsgMgr.Fields.{State, Event}
use cc_tools_qt.Gui.ToolBars.Recv
use cc_tools_qt.Gui.ToolBars.Following.{Follows}
use cc_tools_qt.Gui.ToolBars.Steps.{history-Follows}
use cc_tools_qt.Gui.Moving.{Move, Moved, moved_lem}
use cc_tools_qt.Gui.SendList.{
  move_selected_up, send_load_msgs, send_row_clicked, move_selected_down,
}
use cc_tools_qt.Gui.Consistent.{Consistent}
use cc_tools_qt.Gui.Steps.{
  Reach, runs, clicks_recv, init, here, step, loads_send, clicks_send, moves_down, sets_mode,
  history-Consistent,
}
use cc_tools_qt.Gui.Shown.{Shows, refresh_recv_list-Shows}
use cc_tools_qt.Gui.Shown.Live.{send_msgs-Shows, socket_data_received-Shows}
use cc_tools_qt.Gui.Shown.Clearing.{recv_clear_clicked_exact}
use cc_tools_qt.Tests.Samples.{plain, plain-KeepsLabels, block, simple, stored_objects, manager}

-- What Qt makes current: the row that takes the place of the one taken out, or the last one.
abbrev next_row : ℕ → ℕ → Option ℕ
next_row i n = if n == 0 then none else if leb n i then some (n - 1) else some i

-- The three stored messages are listed, and the second is selected.
abbrev pub window : Window ℕ
window = record {
  msg_mgr = record manager { msg_added_callback = true };
  recv_running = true;
  recv_list_count = 3;
  shows_received = true;
  shows_sent = true;
  shows_garbage = false;
  apply_filter = true;
  send_state = SendState.idle;
  send_list_count = 0;
  sel_type = SelectionType.recv;
  clicked_msg = some 1;
  pending_display_msg = none;
  pending_display_wait = false;
  filtered_messages = "(2) Other" ∷ [];
  recv_list = record { rows = 0 ∷ 1 ∷ 2 ∷ []; current_row = some 1; select_on_add = false };
  send_list = record { rows = []; current_row = none; select_on_add = true };
  signals = [];
}

pub window-Shows : Shows window
unfolding can_add_to_recv_list is_hidden lower_bound
window-Shows = refl

pub window-Consistent : Consistent window
window-Consistent = record {
  selected = (1, refl, refl, refl);
  recv_count = refl;
  send_count = refl;
  send_follows = refl;
}

window-Inv : Inv window.msg_mgr
window-Inv = record { ordered = omega arith; allocated = omega arith }

history-Consistent_example : Consistent {W = ℕ} (
    move_selected_down next_row (
      send_row_clicked 0 (
        send_load_msgs false
          (simple ∷ simple ∷ [])
          (update_recv_list_mode Mode.show_sent false (init stored_objects 3 0)))))
history-Consistent_example =
    let r0 = step here (sets_mode Mode.show_sent false) in
    let r1 = step r0 (loads_send false (simple ∷ simple ∷ [])) in
    let r2 = step (step r1 (clicks_send 0)) moves_down in
    history-Consistent plain next_row stored_objects 3 0 _ r2

next_row_current : (i n : ℕ) → 0 < n → (j : ℕ) × (next_row i n ≡ some j) × (j < n)
next_row_current i n more = elim (Bool-cases (leb n i)) [
  | inl last ↦ (n - 1, ground (arith, more, last), ground (arith, more))
  | inr inside ↦ (i, ground (arith, more, inside), ground (arith, inside))
]

-- A message is received, and its row clicked.
abbrev clicked_window : Window ℕ
clicked_window = recv_row_clicked 0 (
    with_msg_mgr
      (λ m. record m { all_msgs = 0 ∷ []; next_msg_num = 4; events = Event.msg_added 0 ∷ [] })
      (init stored_objects 3 0))

clicked_window-Reach : Reach plain next_row (init stored_objects 3 0) clicked_window
clicked_window-Reach =
    let arrives : State ℕ → State ℕ =
      λ m. record m { all_msgs = 0 ∷ []; next_msg_num = 4; events = Event.msg_added 0 ∷ [] } in
    step (step here (runs arrives)) (clicks_recv 0)

history-Follows_example : Follows ActivityState.active clicked_window
history-Follows_example =
    history-Follows plain next_row next_row_current ActivityState.active stored_objects 3 0
      clicked_window clicked_window-Reach

refresh_recv_list-Shows_example : Shows (refresh_recv_list window)
refresh_recv_list-Shows_example = refresh_recv_list-Shows window

send_msgs-Shows_example :
    Shows (with_msg_mgr (send_msgs plain (some 3 ∷ none ∷ some 5 ∷ [])) window)
send_msgs-Shows_example =
    send_msgs-Shows plain 10 20 (some 3 ∷ none ∷ some 5 ∷ []) window refl refl refl (omega arith)
      window-Shows

socket_data_received-Shows_example :
    Shows (with_msg_mgr (socket_data_received plain 10 (some block)) window)
unfolding chain round read_all
socket_data_received-Shows_example =
    socket_data_received-Shows plain plain-KeepsLabels 10 20 block window refl refl refl refl
      (omega arith) (omega arith) window-Shows

recv_clear_clicked_exact_example :
    ((recv_clear_clicked window).recv_list.rows ≡ [])
    × ((recv_clear_clicked window).msg_mgr.all_msgs
        ≡ filter (λ h. not (can_add_to_recv_list window h)) window.msg_mgr.all_msgs)
recv_clear_clicked_exact_example = recv_clear_clicked_exact window window-Shows window-Inv

-- Three messages to send, the second selected.
abbrev sending_window : Window ℕ
sending_window = record window {
  send_list_count = 3;
  sel_type = SelectionType.send;
  clicked_msg = some 6;
  recv_list = record { rows = 0 ∷ 1 ∷ 2 ∷ []; current_row = none; select_on_add = false };
  send_list = record { rows = 5 ∷ 6 ∷ 7 ∷ []; current_row = some 1; select_on_add = true };
}

sending_window-Consistent : Consistent sending_window
sending_window-Consistent = record {
  selected = (6, refl, refl);
  recv_count = refl;
  send_count = refl;
  send_follows = refl;
}

moved_lem_example : Moved 6 1 0 sending_window (move_selected_up next_row sending_window)
moved_lem_example =
    moved_lem next_row next_row_current Move.up 6 1 sending_window sending_window-Consistent
      (ground arith) refl refl refl refl
