-- ===== src/Applying/Keeping.antt =====
-- What GuiAppMgr::applyNewPlugins (app/cc_view/src/GuiAppMgr.cpp) keeps of the window when each of its
-- parts keeps it.
use cc_tools_qt.Base.{
  ℕ, ◌≡◌, sym, subst, Bool, true, false, ◌&&◌, List, [], ◌∷◌, none, ltb, Option-cases, inl, inr,
  if_keeps, if◌then◌else◌, arith,
}
use cc_tools_qt.Gui.{Window, Signal, ActivityState, emit}
use cc_tools_qt.Gui.RecvList.{clear_recv_list, with_msg_mgr}
use cc_tools_qt.Gui.SendList.{send_clear_clicked}
use cc_tools_qt.MsgMgr.Fields.{State}
use cc_tools_qt.MsgMgr.Receive.{socket_connection_report}
use cc_tools_qt.PluginMgr.{has_applied_plugins, needs_reload, is_protocol_changing}
use cc_tools_qt.Applying.{
  auto_connect, Application, App, ApplyInfo, on_window, set_world, world_of, drop_messages,
  disconnect_socket, connect_socket, stop_msg_mgr, add_actions, plug, announce, conclude,
  forget_send_list, unload_others, retire, apply_each, install, apply_new_plugins,
}

-- What the parts do to the window keeps a property of it.
pub record Keeps {W : Type 0} (P : Window W → Type 0) : Type 0 where
  pub runs : (f : State W → State W) (s : Window W) → P s → P (with_msg_mgr f s)
  pub changes : (m : State W) (s : Window W) → P s → P (record s { msg_mgr = m })
  pub clears_recv : (s : Window W) → P s → P (clear_recv_list false s)
  pub clears_send : (s : Window W) → P s → P (send_clear_clicked s)
  pub clears_actions : (s : Window W) → P s → P (emit Signal.clear_all_main_toolbar_actions s)
  pub changes_activity :
      (x : ActivityState) (s : Window W) → P s → P (emit (Signal.activity_state_changed x) s)
  pub adds_action : (k : ℕ) (s : Window W) → P s → P (emit (Signal.add_main_toolbar_action k) s)
  pub enables_connect :
      (b : Bool) (s : Window W) → P s → P (emit (Signal.socket_connect_enabled b) s)

module _ {W : Type 0} (a : Application W) (P : Window W → Type 0) (keeps : Keeps P) where
  disconnect_socket-Keeps : (s : Window W) → P s → P (disconnect_socket a s)
  unfolding disconnect_socket
  disconnect_socket-Keeps s x = elim (Option-cases s.msg_mgr.socket) [
    | inl e ↦ let eq : disconnect_socket a s ≡ s = ground (arith, e) in subst P (sym eq) x
    | inr (k, e) ↦
        let f : State W → State W = λ m.
          socket_connection_report a.plugins k false
            (record m { world = a.socket_disconnect k m.world }) in
        let eq : disconnect_socket a s ≡ with_msg_mgr f s = ground (arith, e) in
        subst P (sym eq) (keeps.runs f s x)
  ]

  connect_socket-Keeps : (k : ℕ) (s : Window W) → P s → P (connect_socket a k s)
  unfolding connect_socket
  connect_socket-Keeps k s x = keeps.runs _ s x

  forget_send_list-Keeps :
      (infos : List ℕ) (s : App W) → P s.window → P (forget_send_list a infos s).window
  unfolding forget_send_list
  forget_send_list-Keeps infos s x =
      if_keeps (λ (t : App W). P t.window)
        (ltb 0 s.window.send_list_count && is_protocol_changing a.info infos s.plugin_mgr)
        (on_window send_clear_clicked s) s (keeps.clears_send s.window x) x

  drop_messages-Keeps : (s : Window W) → P s → P (drop_messages s)
  unfolding drop_messages
  drop_messages-Keeps s x = keeps.changes _ _ (keeps.clears_recv s x)

  stop_msg_mgr-Keeps : (s : Window W) → P s → P (stop_msg_mgr a s)
  unfolding stop_msg_mgr
  stop_msg_mgr-Keeps s x = keeps.changes_activity ActivityState.inactive _ (keeps.runs _ s x)

  unload_others-Keeps :
      (infos : List ℕ) (s : App W) → P s.window → P (unload_others a infos s).window
  unfolding unload_others
  unload_others-Keeps infos s x =
      keeps.changes_activity ActivityState.clear _ (keeps.changes _ s.window x)

  retire-Keeps : (infos : List ℕ) (s : App W) → P s.window → P (retire a infos s).window
  unfolding retire
  retire-Keeps infos s x =
      let Q = λ (t : App W). P t.window in
      let s1 =
        on_window (λ x. disconnect_socket a (emit Signal.clear_all_main_toolbar_actions x)) s in
      let s2 = forget_send_list a infos s1 in
      let has = has_applied_plugins s.plugin_mgr in
      let reload = needs_reload infos s.plugin_mgr in
      let s3 = if has && reload then on_window drop_messages s2 else s2 in
      let s4 = if has then on_window (stop_msg_mgr a) s3 else s3 in
      let x1 : Q s1 = disconnect_socket-Keeps _ (keeps.clears_actions s.window x) in
      let x2 : Q s2 = forget_send_list-Keeps infos s1 x1 in
      let x3 : Q s3 =
        if_keeps Q (has && reload) (on_window drop_messages s2) s2
          (drop_messages-Keeps s2.window x2) x2 in
      let x4 : Q s4 =
        if_keeps Q has (on_window (stop_msg_mgr a) s3) s3 (stop_msg_mgr-Keeps s3.window x3) x3 in
      if_keeps Q reload (unload_others a infos s4) s4 (unload_others-Keeps infos s4 x4) x4

  add_actions-Keeps : (actions : List ℕ) (s : Window W) → P s → P (add_actions actions s)
  unfolding add_actions
  add_actions-Keeps [] s x = x
  add_actions-Keeps (k ∷ actions) s x = add_actions-Keeps actions _ (keeps.adds_action k s x)

  announce-Keeps :
      (props : ℕ) (actions : List ℕ) (s : Window W) → P s → P (announce a props actions s)
  unfolding announce
  announce-Keeps props actions s x =
      keeps.enables_connect _ _
        (add_actions-Keeps actions _ (keeps.changes_activity ActivityState.active s x))

  install-Keeps :
      (infos : List ℕ) (k r : ℕ) (i : ApplyInfo) (s : App W)
      → P s.window
      → P (install a infos k r i s).window
  unfolding install
  install-Keeps infos k r i s x =
      let props = a.connection_properties k (world_of s) in
      let m = plug a k r i.filters s.window.msg_mgr in
      let s1 = announce a props i.actions (record s.window { msg_mgr = m }) in
      let x1 = announce-Keeps props i.actions _ (keeps.changes m s.window x) in
      if_keeps P (auto_connect props) (connect_socket a k s1) s1 (connect_socket-Keeps k s1 x1) x1

  conclude-Keeps :
      (infos : List ℕ) (i : ApplyInfo) (s : App W) → P s.window → P (conclude a infos i s).1.window
  unfolding conclude
  conclude-Keeps infos i s x =
      let Q = λ (r : Bool × App W). P r.1.window in
      elim (Option-cases i.socket) [
        | inl e ↦
            let eq : conclude a infos i s ≡ (false, s) = ground (arith, e) in subst Q (sym eq) x
        | inr (k, e) ↦ elim (Option-cases i.protocol) [
          | inl f ↦
              let eq : conclude a infos i s ≡ (false, s) = ground (arith, e, f) in
              subst Q (sym eq) x
          | inr (r, f) ↦
              let eq : conclude a infos i s ≡ (true, install a infos k r i s) =
                ground (arith, e, f) in
              subst Q (sym eq) (install-Keeps infos k r i s x)
        ]
      ]

  -- Then applying plugins keeps it, whether it succeeds or not.
  pub apply_new_plugins-Keeps :
      (infos : List ℕ) (s : App W) → P s.window → P (apply_new_plugins a infos s).1.window
  unfolding apply_new_plugins
  apply_new_plugins-Keeps infos s x =
      let s1 = retire a infos s in
      let start : ApplyInfo = record {
        socket = none;
        filters = [];
        protocol = none;
        actions = [];
      } in
      let (i, w) = apply_each a infos start (world_of s1) in
      conclude-Keeps infos i (on_window (set_world w) s1)
        (keeps.changes _ s1.window (retire-Keeps infos s x))
