-- ===== src/Gui/ToolBars/Send.antt =====
-- The tool bar of the messages to send: app/cc_view/src/widget/SendAreaToolBar.cpp and its header.
use cc_tools_qt.Base.{
  ℕ, ◌+◌, ◌-◌, ◌%◌, Bool, true, false, not, ◌&&◌, List, [], ◌∷◌, Option, none, some, ltb, ◌==◌,
  if◌then◌else◌,
}
use cc_tools_qt.Gui.{Window, SendState, ActivityState, Signal, u32_mod}
use cc_tools_qt.Gui.SendList.{send_start_clicked, send_start_all_clicked, send_stop_clicked}
use cc_tools_qt.Gui.ToolBars.{is_active, is_idle}

pub record SendAreaToolBar : Type 0 where
  pub state : SendState
  pub active_state : ActivityState
  pub selected_idx : Option ℕ
  pub list_total : ℕ

abbrev pub create : ActivityState → SendAreaToolBar
create a = record { state = SendState.idle; active_state = a; selected_idx = none; list_total = 0 }

abbrev pub on_signal : Signal → SendAreaToolBar → SendAreaToolBar
on_signal (Signal.send_list_count_report n) b = record b { list_total = n }
on_signal (Signal.send_msg_selected idx) b = record b { selected_idx = idx }
on_signal (Signal.set_send_state t) b = record b { state = t }
on_signal (Signal.activity_state_changed a) b = record b { active_state = a }
on_signal other b = b

abbrev pub on_signals : List Signal → SendAreaToolBar → SendAreaToolBar
on_signals [] b = b
on_signals (e ∷ es) b = on_signals es (on_signal e b)

unfoldable pub msg_selected : SendAreaToolBar → Bool
msg_selected b = elim b.selected_idx [ none ↦ false | some i ↦ true ]

unfoldable pub list_empty : SendAreaToolBar → Bool
list_empty b = 0 == b.list_total

abbrev pub ready : SendAreaToolBar → Bool
ready b = is_active b.active_state && is_idle b.state

-- While one message is sent over and over, the button stops it.
unfoldable pub start_stop_enabled : SendAreaToolBar → Bool
start_stop_enabled b = elim b.state [
  | SendState.sending_single ↦ true
  | SendState.idle ↦ is_active b.active_state && (not (list_empty b) && msg_selected b)
  | SendState.sending_all ↦ false
]

unfoldable pub start_stop_all_enabled : SendAreaToolBar → Bool
start_stop_all_enabled b = elim b.state [
  | SendState.sending_all ↦ true
  | SendState.idle ↦ is_active b.active_state && not (list_empty b)
  | SendState.sending_single ↦ false
]

-- Loading, and adding messages.
unfoldable pub load_enabled : SendAreaToolBar → Bool
load_enabled b = ready b

unfoldable pub save_enabled : SendAreaToolBar → Bool
save_enabled b = ready b && not (list_empty b)

-- Editing, commenting, duplicating and deleting.
unfoldable pub edit_enabled : SendAreaToolBar → Bool
edit_enabled b = ready b && msg_selected b

unfoldable pub clear_enabled : SendAreaToolBar → Bool
clear_enabled b = ready b && not (list_empty b)

-- Moving to the top, and up.
unfoldable pub up_enabled : SendAreaToolBar → Bool
up_enabled b = ready b && elim b.selected_idx [ none ↦ false | some i ↦ ltb 0 i ]

-- A row before `n`, an `unsigned` that is read as an `int`.
abbrev pub before : ℕ → ℕ → Bool
before i n = ltb n 2147483648 && ltb i n

-- Moving down, and to the bottom.
unfoldable pub down_enabled : SendAreaToolBar → Bool
down_enabled b = ready b && elim b.selected_idx [
  | none ↦ false
  | some i ↦ before i ((b.list_total + u32_mod - 1) % u32_mod)
]

unfoldable pub start_stop_clicked : {W : Type 0} → SendAreaToolBar → Window W → Option (Window W)
start_stop_clicked b s =
    if is_idle b.state then send_start_clicked s else some (send_stop_clicked s)

unfoldable pub start_stop_all_clicked : {W : Type 0} → SendAreaToolBar → Window W → Window W
start_stop_all_clicked b s =
    if is_idle b.state then send_start_all_clicked s else send_stop_clicked s
