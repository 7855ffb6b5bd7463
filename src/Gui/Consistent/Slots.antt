-- ===== src/Gui/Consistent/Slots.antt =====
-- The slots and callbacks about received messages keep the window consistent.
use Prim.Native.String.{String}
use cc_tools_qt.Base.{ℕ, ◌%◌, ◌≡◌, refl, sym, ap, ◌∙◌, Bool, List, [], ◌∷◌, length, if_keeps, arith}
use cc_tools_qt.MsgMgr.Fields.{State, Event}
use cc_tools_qt.ListView.{ListView}
use cc_tools_qt.Gui.{Window, u32_mod, can_add_to_recv_list}
use cc_tools_qt.Gui.Clicks.{display_message}
use cc_tools_qt.Gui.RecvList.{
  Mode, add_msg_to_recv_list, refresh_recv_list, set_mode, update_recv_list_mode,
  set_filtered_messages, same_texts, show_pending, msg_added, pending_display_timeout, on_event,
  on_events, with_msg_mgr,
}
use cc_tools_qt.Gui.Consistent.{Consistent}
use cc_tools_qt.Gui.Consistent.Recv.{add_msg_to_recv_list-Consistent}
use cc_tools_qt.Gui.Consistent.Refresh.{emit-Consistent, refresh_recv_list-Consistent}

module _ {W : Type 0} where
  -- Fields on which the invariant does not depend.
  pub Consistent-frame :
      (s t : Window W)
      → t.sel_type ≡ s.sel_type
      → t.clicked_msg ≡ s.clicked_msg
      → t.recv_list ≡ s.recv_list
      → t.send_list ≡ s.send_list
      → t.recv_list_count ≡ s.recv_list_count
      → t.send_list_count ≡ s.send_list_count
      → Consistent s
      → Consistent t
  Consistent-frame s t sel clicked rl sl rc sc c = record {
    selected = rw (sel, clicked, rl, sl) c.selected;
    recv_count = rc ∙ c.recv_count ∙ ap (λ (v : ListView). length v.rows % u32_mod) (sym rl);
    send_count = sc ∙ c.send_count ∙ ap (λ (v : ListView). length v.rows % u32_mod) (sym sl);
    send_follows = ap (λ (v : ListView). v.select_on_add) sl ∙ c.send_follows;
  }

  pub with_mgr-Consistent :
      (m : State W) (s : Window W) → Consistent s → Consistent (record s { msg_mgr = m })
  with_mgr-Consistent m s c = Consistent-frame s _ refl refl refl refl refl refl c

  set_mode-Consistent :
      (m : Mode) (b : Bool) (s : Window W) → Consistent s → Consistent (set_mode m b s)
  unfolding set_mode
  set_mode-Consistent Mode.show_received b s c =
      Consistent-frame s _ refl refl refl refl refl refl c
  set_mode-Consistent Mode.show_sent b s c = Consistent-frame s _ refl refl refl refl refl refl c
  set_mode-Consistent Mode.show_garbage b s c = Consistent-frame s _ refl refl refl refl refl refl c
  set_mode-Consistent Mode.filter_applied b s c =
      Consistent-frame s _ refl refl refl refl refl refl c

  pub update_recv_list_mode-Consistent :
      (m : Mode) (b : Bool) (s : Window W) → Consistent s → Consistent (update_recv_list_mode m b s)
  unfolding update_recv_list_mode
  update_recv_list_mode-Consistent Mode.show_garbage b s c =
      refresh_recv_list-Consistent _ (set_mode-Consistent Mode.show_garbage b s c)
  update_recv_list_mode-Consistent Mode.show_received b s c =
      refresh_recv_list-Consistent _
        (emit-Consistent _ _ (set_mode-Consistent Mode.show_received b s c))
  update_recv_list_mode-Consistent Mode.show_sent b s c =
      refresh_recv_list-Consistent _
        (emit-Consistent _ _ (set_mode-Consistent Mode.show_sent b s c))
  update_recv_list_mode-Consistent Mode.filter_applied b s c =
      refresh_recv_list-Consistent _
        (emit-Consistent _ _ (set_mode-Consistent Mode.filter_applied b s c))

  pub set_filtered_messages-Consistent :
      (fs : List String) (s : Window W) → Consistent s → Consistent (set_filtered_messages fs s)
  unfolding set_filtered_messages
  set_filtered_messages-Consistent fs s c =
      let s1 = record s { filtered_messages = fs } in
      let c1 : Consistent s1 = Consistent-frame s s1 refl refl refl refl refl refl c in
      if_keeps (λ (t : Window W). Consistent t) (same_texts fs s.filtered_messages) s _ c
        (if_keeps (λ (t : Window W). Consistent t) s.apply_filter (refresh_recv_list s1) s1
          (refresh_recv_list-Consistent s1 c1) c1)

  show_pending-Consistent : (h : ℕ) (s : Window W) → Consistent s → Consistent (show_pending h s)
  unfolding show_pending display_message
  show_pending-Consistent h s c =
      Consistent-frame s (show_pending h s) (ground arith) (ground arith) (ground arith)
        (ground arith) (ground arith) (ground arith) c

  pub msg_added-Consistent : (h : ℕ) (s : Window W) → Consistent s → Consistent (msg_added h s)
  unfolding msg_added
  msg_added-Consistent h s c =
      if_keeps (λ (t : Window W). Consistent t) (can_add_to_recv_list s h) _ s
        (show_pending-Consistent h (add_msg_to_recv_list h s)
          (add_msg_to_recv_list-Consistent h s c))
        c

  pub pending_display_timeout-Consistent :
      (s : Window W) → Consistent s → Consistent (pending_display_timeout s)
  unfolding pending_display_timeout display_message
  pending_display_timeout-Consistent s c =
      Consistent-frame s (pending_display_timeout s) (ground arith) (ground arith) (ground arith)
        (ground arith) (ground arith) (ground arith) c

  on_events-Consistent :
      (es : List Event) (s : Window W) → Consistent s → Consistent (on_events es s)
  unfolding on_events on_event
  on_events-Consistent [] s c = c
  on_events-Consistent (Event.msg_added h ∷ es) s c =
      on_events-Consistent es (msg_added h s) (msg_added-Consistent h s c)
  on_events-Consistent (Event.error_reported e ∷ es) s c =
      on_events-Consistent es _ (emit-Consistent _ s c)
  on_events-Consistent (Event.connection_reported b ∷ es) s c =
      on_events-Consistent es _ (emit-Consistent _ s c)

  -- Whatever the message manager does, its callbacks keep the window consistent.
  pub with_msg_mgr-Consistent :
      (f : State W → State W) (s : Window W) → Consistent s → Consistent (with_msg_mgr f s)
  unfolding with_msg_mgr
  with_msg_mgr-Consistent f s c = on_events-Consistent _ _ (with_mgr-Consistent _ s c)
