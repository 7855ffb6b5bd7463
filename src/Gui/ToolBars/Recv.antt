-- ===== src/Gui/ToolBars/Recv.antt =====
-- The tool bar of the received messages: app/cc_view/src/widget/RecvAreaToolBar.cpp and its header.
use cc_tools_qt.Base.{
  ℕ, Bool, true, false, not, ◌&&◌, List, [], ◌∷◌, Option, none, some, ◌==◌, if◌then◌else◌,
}
use cc_tools_qt.Gui.{Window, SendState, ActivityState, Signal}
use cc_tools_qt.Gui.RecvList.{set_recv_running}
use cc_tools_qt.Gui.ToolBars.{is_active, is_idle}

pub record RecvAreaToolBar : Type 0 where
  pub running : Bool
  pub send_state : SendState
  pub active_state : ActivityState
  -- `none` is -1.
  pub selected_idx : Option ℕ
  pub list_total : ℕ

-- The constructor, which asks a manager that is itself just built, in a given state of activity.
abbrev pub create : ActivityState → RecvAreaToolBar
create a = record {
  running = true;
  send_state = SendState.idle;
  active_state = a;
  selected_idx = none;
  list_total = 0;
}

-- The slots, each for the signal it is connected to.
abbrev pub on_signal : Signal → RecvAreaToolBar → RecvAreaToolBar
on_signal (Signal.recv_list_count_report n) b = record b { list_total = n }
on_signal (Signal.recv_msg_selected idx) b = record b { selected_idx = idx }
on_signal (Signal.set_recv_state r) b = record b { running = r }
on_signal (Signal.set_send_state t) b = record b { send_state = t }
on_signal (Signal.activity_state_changed a) b = record b { active_state = a }
on_signal other b = b

abbrev pub on_signals : List Signal → RecvAreaToolBar → RecvAreaToolBar
on_signals [] b = b
on_signals (e ∷ es) b = on_signals es (on_signal e b)

unfoldable pub msg_selected : RecvAreaToolBar → Bool
msg_selected b = elim b.selected_idx [ none ↦ false | some i ↦ true ]

unfoldable pub list_empty : RecvAreaToolBar → Bool
list_empty b = 0 == b.list_total

-- With the button that shows sent messages checked, a list that changes by sending is not loaded.
unfoldable pub load_enabled : Bool → RecvAreaToolBar → Bool
load_enabled show_sent b =
    if not (is_active b.active_state)
    then false
    else if b.running
    then false
    else if show_sent && not (is_idle b.send_state)
    then false
    else true

unfoldable pub save_enabled : Bool → RecvAreaToolBar → Bool
save_enabled show_sent b =
    if not (is_active b.active_state)
    then false
    else if b.running
    then false
    else if list_empty b
    then false
    else if show_sent && not (is_idle b.send_state)
    then false
    else true

unfoldable pub comment_enabled : RecvAreaToolBar → Bool
comment_enabled b = is_active b.active_state && msg_selected b

unfoldable pub dup_enabled : RecvAreaToolBar → Bool
dup_enabled b = is_active b.active_state && msg_selected b

unfoldable pub delete_enabled : RecvAreaToolBar → Bool
delete_enabled b = is_active b.active_state && msg_selected b

unfoldable pub clear_enabled : RecvAreaToolBar → Bool
clear_enabled b = is_active b.active_state && not (list_empty b)

unfoldable pub start_stop_clicked : {W : Type 0} → RecvAreaToolBar → Window W → Window W
start_stop_clicked b s = if b.running then set_recv_running false s else set_recv_running true s
