-- ===== src/Gui/ToolBars/Following.antt =====
-- What the tool bars show follows the state of the application's manager
-- (app/cc_view/src/GuiAppMgr.cpp, widget/RecvAreaToolBar.cpp and SendAreaToolBar.cpp): the helpers of
-- its slots.
use cc_tools_qt.Base.{
  ℕ, ◌≡◌, refl, sym, subst, Bool, true, false, List, [], ◌∷◌, ◌++◌, Option, none, some, arith,
}
use cc_tools_qt.Gui.{Window, SelectionType, SendState, ActivityState, Signal, emit}
use cc_tools_qt.Gui.Clicks.{display_message, clear_displayed_message, emit_send_selected}
use cc_tools_qt.Gui.RecvList.{is_recv}
use cc_tools_qt.Gui.ToolBars.Recv
use cc_tools_qt.Gui.ToolBars.Recv.{RecvAreaToolBar}
use cc_tools_qt.Gui.ToolBars.Send
use cc_tools_qt.Gui.ToolBars.Send.{SendAreaToolBar}

-- The tool bars after the signals of a window.
abbrev pub recv_bar : {W : Type 0} → ActivityState → Window W → RecvAreaToolBar
recv_bar a s = Recv.on_signals s.signals (Recv.create a)

abbrev pub send_bar : {W : Type 0} → ActivityState → Window W → SendAreaToolBar
send_bar a s = Send.on_signals s.signals (Send.create a)

-- A row of the list of received messages goes with a selection in that list.
abbrev pub backs : SelectionType → Option ℕ → Bool
backs t none = true
backs t (some i) = is_recv t

pub record Shown (r : RecvAreaToolBar) (t : SendAreaToolBar) (sel : SelectionType)
    (recv_count send_count : ℕ) (running : Bool) (sending : SendState) : Type 0 where
  pub recv_total : r.list_total ≡ recv_count
  pub send_total : t.list_total ≡ send_count
  pub recv_running : r.running ≡ running
  pub recv_sending : r.send_state ≡ sending
  pub send_sending : t.state ≡ sending
  pub same_active : r.active_state ≡ t.active_state
  pub recv_selected : backs sel r.selected_idx ≡ true

-- The bars show the state of the manager, but for a selection `sel`.
abbrev pub FollowsAs : {W : Type 0} → ActivityState → SelectionType → Window W → Type 0
FollowsAs a sel s =
    Shown (recv_bar a s) (send_bar a s) sel s.recv_list_count s.send_list_count s.recv_running
      s.send_state

-- The bars show the counters and states of the manager, and a selected row of the list of received
-- messages only while a message of that list is selected.
abbrev pub Follows : {W : Type 0} → ActivityState → Window W → Type 0
Follows a s = FollowsAs a s.sel_type s

recv-append :
    (es : List Signal) (e : Signal) (b : RecvAreaToolBar)
    → Recv.on_signals (es ++ e ∷ []) b ≡ Recv.on_signal e (Recv.on_signals es b)
recv-append [] e b = refl
recv-append (x ∷ es) e b = recv-append es e (Recv.on_signal x b)

send-append :
    (es : List Signal) (e : Signal) (b : SendAreaToolBar)
    → Send.on_signals (es ++ e ∷ []) b ≡ Send.on_signal e (Send.on_signals es b)
send-append [] e b = refl
send-append (x ∷ es) e b = send-append es e (Send.on_signal x b)

pub backs_recv : (idx : Option ℕ) → backs SelectionType.recv idx ≡ true
backs_recv none = refl
backs_recv (some i) = refl

-- A bar that shows a row does so for a selection in its list.
pub backs_other :
    (sel t : SelectionType) (idx : Option ℕ)
    → is_recv sel ≡ false
    → backs sel idx ≡ true
    → backs t idx ≡ true
backs_other sel t none other h = refl
backs_other sel t (some i) other h = ground (arith, other, h)

module _ {W : Type 0} (a : ActivityState) (sel : SelectionType) where
  pub emit-FollowsAs :
      (e : Signal) (s : Window W)
      → Shown
          (Recv.on_signal e (recv_bar a s))
          (Send.on_signal e (send_bar a s))
          sel
          s.recv_list_count
          s.send_list_count
          s.recv_running
          s.send_state
      → FollowsAs a sel (emit e s)
  emit-FollowsAs e s k =
      let P = λ (r : RecvAreaToolBar) (t : SendAreaToolBar).
        Shown r t sel s.recv_list_count s.send_list_count s.recv_running s.send_state in
      let k1 =
        subst (λ r. P r (Send.on_signal e (send_bar a s)))
          (sym (recv-append s.signals e (Recv.create a))) k in
      subst (λ t. P (recv_bar a (emit e s)) t) (sym (send-append s.signals e (Send.create a))) k1

  pub display_message-FollowsAs :
      (m : Option ℕ) (s : Window W) → FollowsAs a sel s → FollowsAs a sel (display_message m s)
  unfolding display_message
  display_message-FollowsAs m s k =
      emit-FollowsAs (Signal.display_msg m) (record s { pending_display_msg = none }) k

  pub clear_displayed_message-FollowsAs :
      (s : Window W) → FollowsAs a sel s → FollowsAs a sel (clear_displayed_message s)
  unfolding clear_displayed_message
  clear_displayed_message-FollowsAs s k =
      emit-FollowsAs Signal.clear_displayed_msg
        (record s { sel_type = SelectionType.unselected; clicked_msg = none }) k

  pub emit_send_selected-FollowsAs :
      (idx : Option ℕ) (s : Window W)
      → FollowsAs a sel s
      → FollowsAs a sel (emit_send_selected idx s)
  unfolding emit_send_selected
  emit_send_selected-FollowsAs idx s k = emit-FollowsAs (Signal.send_msg_selected idx) s (record {
    recv_total = k.recv_total;
    send_total = k.send_total;
    recv_running = k.recv_running;
    recv_sending = k.recv_sending;
    send_sending = k.send_sending;
    same_active = k.same_active;
    recv_selected = k.recv_selected;
  })
