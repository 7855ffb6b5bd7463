-- ===== src/Applying/Retiring.antt =====
-- GuiAppMgr::applyNewPlugins (app/cc_view/src/GuiAppMgr.cpp) takes the plugins in use out first.
use cc_tools_qt.Base.{
  ℕ, ◌≡◌, ◌⊎◌, inl, inr, sym, ap, subst, true, ◌&&◌, List, if_cases, if_keeps, if◌then◌else◌, arith,
}
use cc_tools_qt.MsgMgr.Fields.{State}
use cc_tools_qt.PluginMgr.{has_applied_plugins, needs_reload}
use cc_tools_qt.Gui.{Window, Signal, emit}
use cc_tools_qt.Gui.SendList.{send_clear_clicked}
use cc_tools_qt.Gui.Shown.Modes.{clear_recv_list-SameModes}
use cc_tools_qt.MsgMgr.Delete.{delete_all_msgs}
use cc_tools_qt.ListView.{clear_list, select_msg}
use cc_tools_qt.Gui.Clicks.{clear_displayed_message, emit_send_selected}
use cc_tools_qt.Applying.{
  disconnect_socket, stop_msg_mgr, Application, App, on_window, drop_messages, forget_send_list,
  unload_others, retire,
}
use cc_tools_qt.Applying.Frames.{
  SamePlugins, Unplugged, SamePlugins-Unplugged, disconnect_socket-same, stop_msg_mgr-Unplugged,
}

-- Without applied plugins the message manager has no plugin.
abbrev pub Tidy : {W : Type 0} → App W → Type 0
Tidy s = (has_applied_plugins s.plugin_mgr ≡ true) ⊎ Unplugged s.window.msg_mgr

module _ {W : Type 0} (a : Application W) where
  drop_messages-SamePlugins : (s : Window W) → SamePlugins s.msg_mgr (drop_messages s).msg_mgr
  unfolding drop_messages delete_all_msgs
  drop_messages-SamePlugins s =
      let e = (clear_recv_list-SameModes s).msg_mgr in
      record {
        socket = ap (λ (m : State W). m.socket) e;
        protocol = ap (λ (m : State W). m.protocol) e;
        filters = ap (λ (m : State W). m.filters) e;
        running = ap (λ (m : State W). m.running) e;
      }

  forget_send_list-msg_mgr :
      (infos : List ℕ) (s : App W) → (forget_send_list a infos s).window.msg_mgr ≡ s.window.msg_mgr
  unfolding forget_send_list send_clear_clicked clear_displayed_message emit_send_selected
      clear_list select_msg
  forget_send_list-msg_mgr infos s = ground arith

  -- Before the new plugins are loaded no plugin is in use.
  pub retire-Unplugged :
      (infos : List ℕ) (s : App W) → Tidy s → Unplugged (retire a infos s).window.msg_mgr
  unfolding retire unload_others
  retire-Unplugged infos s t =
      let s1 =
        on_window (λ x. disconnect_socket a (emit Signal.clear_all_main_toolbar_actions x)) s in
      let same =
        (disconnect_socket-same a (emit Signal.clear_all_main_toolbar_actions s.window)).1 in
      let s2 = forget_send_list a infos s1 in
      let has = has_applied_plugins s.plugin_mgr in
      let reload = needs_reload infos s.plugin_mgr in
      let s3 = if has && reload then on_window drop_messages s2 else s2 in
      let s4 = if has then on_window (stop_msg_mgr a) s3 else s3 in
      let P = λ (x : App W). Unplugged x.window.msg_mgr in
      let clear1 : Unplugged s.window.msg_mgr → P s1 =
        λ u. SamePlugins-Unplugged s.window.msg_mgr _ same u in
      let clear2 : Unplugged s.window.msg_mgr → P s2 = λ u.
        subst (λ (m : State W). Unplugged m) (sym (forget_send_list-msg_mgr infos s1)) (clear1 u) in
      let clear3 : Unplugged s.window.msg_mgr → P s3 = λ u.
        if_keeps P (has && reload) (on_window drop_messages s2) s2
          (SamePlugins-Unplugged s2.window.msg_mgr _ (drop_messages-SamePlugins s2.window)
            (clear2 u))
          (clear2 u) in
      let clear4 : P s4 =
        if_cases P has (on_window (stop_msg_mgr a) s3) s3 (λ e. stop_msg_mgr-Unplugged a s3.window)
          (λ e. elim t [ inl h ↦ absurd (ground (arith, e, h)) | inr u ↦ clear3 u ]) in
      if_keeps P reload (unload_others a infos s4) s4 (ground (arith, clear4)) clear4
