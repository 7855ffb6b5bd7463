-- ===== src/Gui/ToolBars/Buttons.antt =====
-- What the enabled buttons of the tool bars offer (app/cc_view/src/widget/RecvAreaToolBar.cpp,
-- SendAreaToolBar.cpp and GuiAppMgr.cpp).
use cc_tools_qt.Base.{
  ℕ, ◌+◌, ◌-◌, ◌%◌, ltb, ◌<◌, ◌≡◌, refl, ap, Bool, true, false, not, ◌&&◌, Option, none, some,
  arith,
}
use cc_tools_qt.Message.{Message}
use cc_tools_qt.Plugins.{Plugins}
use cc_tools_qt.Gui.{Window, SelectionType, SendState, ActivityState, Signal, emit, u32_mod}
use cc_tools_qt.ListView.{current_msg}
use cc_tools_qt.Gui.Dialogs.{comment_clicked}
use cc_tools_qt.Gui.Consistent.Refresh.{chosen}
use cc_tools_qt.Gui.RecvList.{set_recv_running}
use cc_tools_qt.Gui.SendList.{send_start_all_clicked, send_stop_clicked}
use cc_tools_qt.Gui.Steps.{init, Reach, history-Consistent}
use cc_tools_qt.Gui.Moving.{Move, top, up, down, bottom, can_move}
use cc_tools_qt.Gui.ToolBars.{is_active}
use cc_tools_qt.Gui.ToolBars.Recv
use cc_tools_qt.Gui.ToolBars.Send
use cc_tools_qt.Gui.ToolBars.Following.{recv_bar, send_bar, backs}
use cc_tools_qt.Gui.ToolBars.Steps.{history-Follows}

and_right : (x y : Bool) → x && y ≡ true → y ≡ true
and_right true y h = h
and_right false y h = absurd (cc)

-- The button of a move.
abbrev move_enabled : Move → Send.SendAreaToolBar → Bool
move_enabled top b = Send.up_enabled b
move_enabled up b = Send.up_enabled b
move_enabled down b = Send.down_enabled b
move_enabled bottom b = Send.down_enabled b

before_last :
    (row n : ℕ)
    → 0 < n
    → n < 2147483648
    → Send.before row ((n + u32_mod - 1) % u32_mod) ≡ ltb (row + 1) n
before_last row n some_msgs few =
    let last : (n + u32_mod - 1) % u32_mod ≡ n - 1 = omega (arith, some_msgs, few) in
    rw last (ground (arith, some_msgs, few))

-- With a selected row and fewer than 2 ^ 31 messages, a bar that is active and idle enables just the
-- moves that this row has room for.
pub move_enabled_lem :
    (mv : Move) (b : Send.SendAreaToolBar) (row : ℕ)
    → b.selected_idx ≡ some row
    → 0 < b.list_total
    → b.list_total < 2147483648
    → move_enabled mv b ≡ Send.ready b && can_move mv row b.list_total
unfolding Send.up_enabled Send.down_enabled
move_enabled_lem top b row sel some_msgs few = ground (arith, sel)
move_enabled_lem up b row sel some_msgs few = ground (arith, sel)
move_enabled_lem down b row sel some_msgs few =
    ground (arith, sel, before_last row b.list_total some_msgs few)
move_enabled_lem bottom b row sel some_msgs few =
    ground (arith, sel, before_last row b.list_total some_msgs few)

module _ {W : Type 0} (p : Plugins W) (next : ℕ → ℕ → Option ℕ)
    (takes : (i n : ℕ) → 0 < n → (j : ℕ) × (next i n ≡ some j) × (j < n)) (a : ActivityState) where
  selected_of_row :
      (sel : SelectionType) (idx : Option ℕ)
      → elim idx [ none ↦ false | some i ↦ true ] ≡ true
      → backs sel idx ≡ true
      → sel ≡ SelectionType.recv
  selected_of_row sel none h b = absurd (cc)
  selected_of_row SelectionType.recv (some i) h b = refl
  selected_of_row SelectionType.send (some i) h b = absurd (cc)
  selected_of_row SelectionType.unselected (some i) h b = absurd (cc)

  -- A row that the bar shows is that of the selected message.
  selected_recv :
      (objects : ℕ → Message) (n : ℕ) (w : W) (t : Window W)
      → Reach p next (init objects n w) t
      → Recv.msg_selected (recv_bar a t) ≡ true
      → (m : ℕ) × (t.sel_type ≡ SelectionType.recv)
        × (t.clicked_msg ≡ some m)
        × (current_msg t.recv_list ≡ some m)
  unfolding Recv.msg_selected
  selected_recv objects n w t r shown =
      let k = history-Follows p next takes a objects n w t r in
      let sel = selected_of_row t.sel_type (recv_bar a t).selected_idx shown k.recv_selected in
      let c = history-Consistent p next objects n w t r in
      let (m, clicked, at, follows) = chosen SelectionType.recv t sel c.selected in
      (m, sel, clicked, at)

  -- Under the same conditions the button for a comment, which is enabled at the same time, hands that
  -- message to its dialog.
  pub comment_enabled_lem :
      (objects : ℕ → Message) (n : ℕ) (w : W) (t : Window W)
      → Reach p next (init objects n w) t
      → Recv.comment_enabled (recv_bar a t) ≡ true
      → (m : ℕ) × (current_msg t.recv_list ≡ some m)
        × (comment_clicked t ≡ emit (Signal.msg_comment_dialog (some m)) t)
  unfolding Recv.comment_enabled Recv.msg_selected
  comment_enabled_lem objects n w t r enabled =
      let b = recv_bar a t in
      let row = and_right (is_active b.active_state) (Recv.msg_selected b) enabled in
      let (m, sel, clicked, at) = selected_recv objects n w t r row in
      (m, at, ap (λ x. emit (Signal.msg_comment_dialog x) t) clicked)

  -- What the button that sends all messages changes the state to.
  abbrev toggled : SendState → SendState
  toggled SendState.idle = SendState.sending_all
  toggled SendState.sending_single = SendState.sending_single
  toggled SendState.sending_all = SendState.idle

  toggled_lem :
      (bar : Send.SendAreaToolBar) (t : Window W)
      → bar.state ≡ t.send_state
      → Send.start_stop_all_enabled bar ≡ true
      → (Send.start_stop_all_clicked bar t).send_state ≡ toggled t.send_state
  unfolding Send.start_stop_all_enabled Send.start_stop_all_clicked send_start_all_clicked
      send_stop_clicked
  toggled_lem bar t same enabled = ground (arith, same, enabled)

  -- Under the same conditions: the enabled button that sends all messages starts the sending when the
  -- manager is idle, and stops it when all messages are being sent; the button of the reception
  -- toggles it.
  pub start_stop_lem :
      (objects : ℕ → Message) (n : ℕ) (w : W) (t : Window W)
      → Reach p next (init objects n w) t
      → Send.start_stop_all_enabled (send_bar a t) ≡ true
      → ((Send.start_stop_all_clicked (send_bar a t) t).send_state ≡ toggled t.send_state)
        × ((Recv.start_stop_clicked (recv_bar a t) t).recv_running ≡ not t.recv_running)
  unfolding Recv.start_stop_clicked set_recv_running
  start_stop_lem objects n w t r enabled =
      let k = history-Follows p next takes a objects n w t r in
      (toggled_lem (send_bar a t) t k.send_sending enabled, ground (arith, k.recv_running))
