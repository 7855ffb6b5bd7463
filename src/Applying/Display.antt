-- ===== src/Applying/Display.antt =====
-- What the window shows after GuiAppMgr::applyNewPlugins (app/cc_view/src/GuiAppMgr.cpp).
use cc_tools_qt.Base.{
  ℕ, ◌≡◌, refl, sym, ap, ◌∙◌, subst, Bool, true, false, ◌&&◌, List, [], ◌∷◌, filter, Option, none,
  some, ltb, All-each, filter-All, Bool-cases, if◌then◌else◌, if_keeps, Option-cases, inl, inr,
  arith,
}
use cc_tools_qt.Gui.{Window, Signal, emit, can_add_to_recv_list}
use cc_tools_qt.Gui.Clicks.{clear_displayed_message, emit_send_selected}
use cc_tools_qt.Gui.RecvList.{clear_recv_list}
use cc_tools_qt.Gui.SendList.{send_clear_clicked}
use cc_tools_qt.Gui.Consistent.{Consistent}
use cc_tools_qt.Gui.Consistent.Recv.{clear_recv_list-Consistent}
use cc_tools_qt.Gui.Consistent.Slots.{Consistent-frame}
use cc_tools_qt.Gui.Consistent.Removal.{send_clear_clicked-Consistent}
use cc_tools_qt.Gui.Shown.{Shows, Shows_after}
use cc_tools_qt.Gui.Shown.Modes.{SameModes, rows-clear_recv_list}
use cc_tools_qt.ListView.{clear_list, select_msg}
use cc_tools_qt.MsgMgr.Delete.{delete_all_msgs}
use cc_tools_qt.MsgMgr.Control.{start, set_socket, set_protocol, add_filter}
use cc_tools_qt.MsgMgr.Fields.{State}
use cc_tools_qt.PluginMgr.{has_applied_plugins, needs_reload, is_protocol_changing}
use cc_tools_qt.Applying.{
  auto_connect, Application, App, ApplyInfo, on_window, set_world, world_of, drop_messages,
  add_filters, disconnect_socket, connect_socket, stop_msg_mgr, plug, announce, conclude,
  forget_send_list, unload_others, retire, apply_each, install, apply_new_plugins,
}
use cc_tools_qt.Applying.Frames.{
  SameDisplay, disconnect_socket-same, connect_socket-same, stop_msg_mgr-SameDisplay, announce-same,
}

-- The lists and the selection agree, and the list of received messages shows what is stored and passes.
pub record Displayed {W : Type 0} (s : Window W) : Type 0 where
  pub consistent : Consistent s
  pub shows : Shows s

module _ {W : Type 0} where
  can_add_to_recv_list_display :
      (s t : Window W) (h : ℕ)
      → SameDisplay s t
      → can_add_to_recv_list t h ≡ can_add_to_recv_list s h
  unfolding can_add_to_recv_list
  can_add_to_recv_list_display s t h d =
      rw
        (
          d.objects, d.shows_received, d.shows_sent, d.shows_garbage, d.apply_filter,
          d.filtered_messages,
        )
        refl

  SameDisplay-Displayed : (s t : Window W) → SameDisplay s t → Displayed s → Displayed t
  SameDisplay-Displayed s t d x = record {
    consistent =
        Consistent-frame s t d.sel_type d.clicked_msg d.recv_list d.send_list d.recv_list_count
          d.send_list_count x.consistent;
    shows =
        ap (λ v. v.rows) d.recv_list
        ∙ x.shows
        ∙ filter-All (can_add_to_recv_list s) (can_add_to_recv_list t) s.msg_mgr.all_msgs (
            All-each (λ h. can_add_to_recv_list s h ≡ can_add_to_recv_list t h) s.msg_mgr.all_msgs
              (λ h. sym (can_add_to_recv_list_display s t h d)))
        ∙ ap (λ l. filter (can_add_to_recv_list t) l) (sym d.all_msgs);
  }

  drop_messages-Displayed : (s : Window W) → Displayed s → Displayed (drop_messages s)
  unfolding drop_messages delete_all_msgs
  drop_messages-Displayed s x = record {
    consistent =
        Consistent-frame (clear_recv_list false s) _ refl refl refl refl refl refl
          (clear_recv_list-Consistent false s x.consistent);
    shows = rows-clear_recv_list false s;
  }

  -- What the list of received messages depends on.
  record SameShown (s t : Window W) : Type 0 where
    rows : t.recv_list.rows ≡ s.recv_list.rows
    modes : SameModes s t

  send_clear_clicked-SameShown : (s : Window W) → SameShown s (send_clear_clicked s)
  unfolding send_clear_clicked clear_displayed_message emit_send_selected clear_list select_msg
  send_clear_clicked-SameShown s = record { rows = ground arith; modes = ground arith }

  send_clear_clicked-Displayed : (s : Window W) → Displayed s → Displayed (send_clear_clicked s)
  send_clear_clicked-Displayed s x =
      let same = send_clear_clicked-SameShown s in
      record {
        consistent = send_clear_clicked-Consistent s x.consistent;
        shows = same.rows ∙ x.shows ∙ Shows_after s _ same.modes;
      }

  -- The window with the given messages stored.
  record Holds (all : List ℕ) (s : Window W) : Type 0 where
    displayed : Displayed s
    stored : s.msg_mgr.all_msgs ≡ all

  SameDisplay-Holds : (all : List ℕ) (s t : Window W) → SameDisplay s t → Holds all s → Holds all t
  SameDisplay-Holds all s t d x = record {
    displayed = SameDisplay-Displayed s t d x.displayed;
    stored = d.all_msgs ∙ x.stored;
  }

  add_filters-same :
      (fs : List (Option ℕ)) (m : State W)
      → ((add_filters fs m).all_msgs ≡ m.all_msgs) × ((add_filters fs m).objects ≡ m.objects)
  unfolding add_filters add_filter
  add_filters-same [] m = (refl, refl)
  add_filters-same (none ∷ fs) m = add_filters-same fs m
  add_filters-same (some f ∷ fs) m = add_filters-same fs (add_filter (some f) m)

module _ {W : Type 0} (a : Application W) where
  plug-same :
      (k r : ℕ) (fs : List (Option ℕ)) (s : Window W)
      → SameDisplay s (record s { msg_mgr = plug a k r fs s.msg_mgr })
  unfolding plug start set_socket set_protocol
  plug-same k r fs s =
      let (all, objects) = add_filters-same fs (set_socket (some k) s.msg_mgr) in
      ground (arith, all, objects)

  forget_send_list-Holds :
      (all infos : List ℕ) (s : App W)
      → Holds all s.window
      → Holds all (forget_send_list a infos s).window
  unfolding forget_send_list
  forget_send_list-Holds all infos s x =
      if_keeps (λ (t : App W). Holds all t.window)
        (ltb 0 s.window.send_list_count && is_protocol_changing a.info infos s.plugin_mgr)
        (on_window send_clear_clicked s) s
        (record {
          displayed = send_clear_clicked-Displayed s.window x.displayed;
          stored =
              ap (λ (m : State W). m.all_msgs) (send_clear_clicked-SameShown s.window).modes.msg_mgr
              ∙ x.stored;
        })
        x

  -- The messages that are stored after applying.
  abbrev kept : List ℕ → App W → List ℕ
  kept infos s =
      if has_applied_plugins s.plugin_mgr && needs_reload infos s.plugin_mgr
      then []
      else s.window.msg_mgr.all_msgs

  retire-Holds :
      (infos : List ℕ) (s : App W)
      → Displayed s.window
      → Holds (kept infos s) (retire a infos s).window
  unfolding retire unload_others
  retire-Holds infos s x =
      let start = emit Signal.clear_all_main_toolbar_actions s.window in
      let s1 =
        on_window (λ x. disconnect_socket a (emit Signal.clear_all_main_toolbar_actions x)) s in
      let s2 = forget_send_list a infos s1 in
      let has = has_applied_plugins s.plugin_mgr in
      let reload = needs_reload infos s.plugin_mgr in
      let s3 = if has && reload then on_window drop_messages s2 else s2 in
      let s4 = if has then on_window (stop_msg_mgr a) s3 else s3 in
      let all = s.window.msg_mgr.all_msgs in
      let P = λ (l : List ℕ) (t : App W). Holds l t.window in
      let x0 : Holds all s.window = record { displayed = x; stored = refl } in
      let x1 : P all s1 =
        SameDisplay-Holds all start s1.window (disconnect_socket-same a start).0
          (SameDisplay-Holds all s.window start (ground arith) x0) in
      let x2 : P all s2 = forget_send_list-Holds all infos s1 x1 in
      let x3 : P (kept infos s) s3 = elim (Bool-cases (has && reload)) [
        | inl e ↦
            let dropped : P [] (on_window drop_messages s2) = record {
              displayed = drop_messages-Displayed s2.window x2.displayed;
              stored = unfold drop_messages delete_all_msgs in refl;
            } in
            rw e dropped
        | inr e ↦ rw e x2
      ] in
      let x4 : P (kept infos s) s4 =
        if_keeps (λ (t : App W). P (kept infos s) t) has (on_window (stop_msg_mgr a) s3) s3
          (SameDisplay-Holds (kept infos s) s3.window _ (stop_msg_mgr-SameDisplay a s3.window) x3)
          x3 in
      if_keeps (λ (t : App W). P (kept infos s) t) reload (unload_others a infos s4) s4
        (SameDisplay-Holds (kept infos s) s4.window _ (ground arith) x4) x4

  install-Holds :
      (all infos : List ℕ) (k r : ℕ) (x : ApplyInfo) (s : App W)
      → Holds all s.window
      → Holds all (install a infos k r x s).window
  unfolding install
  install-Holds all infos k r x s h =
      let props = a.connection_properties k (world_of s) in
      let m = plug a k r x.filters s.window.msg_mgr in
      let s0 = record s.window { msg_mgr = m } in
      let s1 = announce a props x.actions s0 in
      let h1 =
        SameDisplay-Holds all s0 s1 (announce-same a props x.actions s0).0
          (SameDisplay-Holds all s.window s0 (plug-same k r x.filters s.window) h) in
      if_keeps (λ (t : Window W). Holds all t) (auto_connect props) (connect_socket a k s1) s1
        (SameDisplay-Holds all s1 _ (connect_socket-same a k s1).0 h1) h1

  -- Whether applying succeeds or not, the window stays consistent and the list of received messages goes
  -- on to show exactly the stored messages that pass the modes and the filter. All stored messages are
  -- kept, except that none is when other plugins had been applied before.
  pub apply_new_plugins-Shows :
      (infos : List ℕ) (s : App W)
      → Consistent s.window
      → Shows s.window
      → (let t = (apply_new_plugins a infos s).1.window in
          Consistent t × Shows t × (t.msg_mgr.all_msgs ≡ kept infos s))
  unfolding apply_new_plugins conclude
  apply_new_plugins-Shows infos s c shown =
      let all = kept infos s in
      let s1 = retire a infos s in
      let start : ApplyInfo = record {
        socket = none;
        filters = [];
        protocol = none;
        actions = [];
      } in
      let (x, w) = apply_each a infos start (world_of s1) in
      let s2 = on_window (set_world w) s1 in
      let h : Holds all s2.window =
        SameDisplay-Holds all s1.window s2.window (ground arith)
          (retire-Holds infos s (record { consistent = c; shows = shown })) in
      let P = λ (r : Bool × App W). Holds all r.1.window in
      let done : P (conclude a infos x s2) = elim (Option-cases x.socket) [
        | inl e ↦
            let eq : conclude a infos x s2 ≡ (false, s2) = ground (arith, e) in subst P (sym eq) h
        | inr (k, e) ↦ elim (Option-cases x.protocol) [
          | inl f ↦
              let eq : conclude a infos x s2 ≡ (false, s2) = ground (arith, e, f) in
              subst P (sym eq) h
          | inr (r, f) ↦
              let eq : conclude a infos x s2 ≡ (true, install a infos k r x s2) =
                ground (arith, e, f) in
              subst P (sym eq) (install-Holds all infos k r x s2 h)
        ]
      ] in
      (done.displayed.consistent, done.displayed.shows, done.stored)
