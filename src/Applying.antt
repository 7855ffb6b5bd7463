-- ===== src/Applying.antt =====
-- Applying a list of plugins: GuiAppMgr::applyNewPlugins (app/cc_view/src/GuiAppMgr.cpp), over the
-- message manager, the plugin manager and the plugins. A plugin is the address of its description. The
-- world of the window's message manager is that of all plugins; the plugin manager works on it too.
-- The debug level is left out. Connecting and disconnecting a socket signals the new status, which
-- the message manager passes on (lib/src/ToolsSocket.cpp).
pub mod Frames
pub mod Choosing
pub mod Retiring
pub mod Outcome
pub mod Display
pub mod Keeping
use cc_tools_qt.Base.{
  ℕ, ◌/◌, ◌%◌, Bool, true, false, not, ◌&&◌, List, [], ◌∷◌, ◌++◌, filter, Option, none, some, ◌==◌,
  ltb, if◌then◌else◌,
}
use cc_tools_qt.Plugins.{Plugins}
use cc_tools_qt.MsgMgr.Fields
use cc_tools_qt.MsgMgr.Control.{start, stop, clear, set_socket, set_protocol, add_filter}
use cc_tools_qt.MsgMgr.Delete.{delete_all_msgs}
use cc_tools_qt.MsgMgr.Receive.{socket_connection_report}
use cc_tools_qt.Plugin.{
  PluginImpl, create_socket, create_filter, create_protocol, create_gui_actions,
}
use cc_tools_qt.PluginMgr.{
  PluginInfo, Loaded, PluginMgr, has_plugin, has_applied_plugins, needs_reload,
  is_protocol_changing, set_applied_plugins, unload_applied_plugin,
}
use cc_tools_qt.Gui.{Window, Signal, ActivityState, emit}
use cc_tools_qt.Gui.RecvList.{clear_recv_list, with_msg_mgr}
use cc_tools_qt.Gui.SendList.{send_clear_clicked}

-- What is called besides the plugins of the message manager.
pub record Application (W : Type 0) : Type 0 where
  pub plugins : Plugins W
  pub info : ℕ → PluginInfo
  pub loaded : Loaded W
  pub impl : PluginImpl W
  -- Whether the library gives a plugin.
  pub load_plugin : ℕ → W → Bool × W
  pub socket_connect : ℕ → W → Bool × W
  pub socket_disconnect : ℕ → W → W
  pub connection_properties : ℕ → W → ℕ

pub record App (W : Type 0) : Type 0 where
  pub window : Window W
  pub plugin_mgr : PluginMgr W

pub record ApplyInfo : Type 0 where
  pub socket : Option ℕ
  pub filters : List (Option ℕ)
  pub protocol : Option ℕ
  pub actions : List ℕ

-- The bits of `ConnectionProperty`.
abbrev pub auto_connect : ℕ → Bool
auto_connect v = v % 2 == 1

abbrev pub non_disconnectable : ℕ → Bool
non_disconnectable v = v / 2 % 2 == 1

module _ {W : Type 0} where
  abbrev pub on_window : (Window W → Window W) → App W → App W
  on_window f s = record s { window = f s.window }

  abbrev pub world_of : App W → W
  world_of s = s.window.msg_mgr.world

  abbrev pub set_world : W → Window W → Window W
  set_world w s = record s { msg_mgr = record s.msg_mgr { world = w } }

  -- The messages that the list shows and those that the manager stores.
  unfoldable pub drop_messages : Window W → Window W
  drop_messages s =
      let s1 = clear_recv_list false s in record s1 { msg_mgr = delete_all_msgs s1.msg_mgr }

  -- The loop over the actions of the plugins.
  unfoldable pub add_actions : List ℕ → Window W → Window W
  add_actions [] s = s
  add_actions (a ∷ actions) s = add_actions actions (emit (Signal.add_main_toolbar_action a) s)

  -- The loop over the filters.
  unfoldable pub add_filters : List (Option ℕ) → Fields.State W → Fields.State W
  add_filters [] m = m
  add_filters (f ∷ fs) m = add_filters fs (add_filter f m)

  -- A null pointer is replaced by what is created.
  unfoldable pub create_if_none : Option ℕ → (W → Option ℕ × W) → W → Option ℕ × W
  create_if_none none create w = create w
  create_if_none (some k) create w = (some k, w)

module _ {W : Type 0} (a : Application W) where
  unfoldable pub disconnect_socket : Window W → Window W
  disconnect_socket s = elim s.msg_mgr.socket [
    | none ↦ s
    | some k ↦
        with_msg_mgr
          (λ m.
            socket_connection_report a.plugins k false
              (record m { world = a.socket_disconnect k m.world }))
          s
  ]

  unfoldable pub connect_socket : ℕ → Window W → Window W
  connect_socket k s =
      with_msg_mgr
        (λ m.
          let (ok, w) = a.socket_connect k m.world in
          socket_connection_report a.plugins k ok (record m { world = w }))
        s

  unfoldable pub forget_send_list : List ℕ → App W → App W
  forget_send_list infos s =
      if ltb 0 s.window.send_list_count && is_protocol_changing a.info infos s.plugin_mgr
      then on_window send_clear_clicked s
      else s

  unfoldable pub stop_msg_mgr : Window W → Window W
  stop_msg_mgr s =
      emit (Signal.activity_state_changed ActivityState.inactive)
        (with_msg_mgr (λ m. clear a.plugins (stop a.plugins m)) s)

  -- The loop over `pluginsToUnload`.
  unfoldable pub unload_all : List ℕ → PluginMgr W → PluginMgr W
  unload_all [] m = m
  unload_all (i ∷ is) m = unload_all is (unload_applied_plugin a.loaded i m).1

  -- The available plugins that are not in the new list are unloaded.
  unfoldable pub unload_others : List ℕ → App W → App W
  unload_others infos s =
      let others = filter (λ i. not (has_plugin i infos)) s.plugin_mgr.plugins in
      let m = unload_all others (record s.plugin_mgr { world = world_of s }) in
      record s {
        window =
            emit (Signal.activity_state_changed ActivityState.clear) (set_world m.world s.window);
        plugin_mgr = m;
      }

  -- The function up to the loading of the new plugins.
  unfoldable pub retire : List ℕ → App W → App W
  retire infos s =
      let has_applied = has_applied_plugins s.plugin_mgr in
      let reload = needs_reload infos s.plugin_mgr in
      let s1 =
        on_window (λ x. disconnect_socket (emit Signal.clear_all_main_toolbar_actions x)) s in
      let s2 = forget_send_list infos s1 in
      let s3 = if has_applied && reload then on_window drop_messages s2 else s2 in
      let s4 = if has_applied then on_window stop_msg_mgr s3 else s3 in
      if reload then unload_others infos s4 else s4

  -- The body of the loop over the new plugins.
  unfoldable pub apply_one : ℕ → ApplyInfo → W → ApplyInfo × W
  apply_one i x w =
      let (found, w1) = a.load_plugin i w in
      if not found
      then (x, w1)
      else (let (socket, w2) = create_if_none x.socket (create_socket a.impl i) w1 in
          let (f, w3) = create_filter a.impl i w2 in
          let (protocol, w4) = create_if_none x.protocol (create_protocol a.impl i) w3 in
          let (actions, w5) = create_gui_actions a.impl i w4 in
          (
            record {
              socket = socket;
              filters = x.filters ++ f ∷ [];
              protocol = protocol;
              actions = x.actions ++ actions;
            },
            w5,
          ))

  unfoldable pub apply_each : List ℕ → ApplyInfo → W → ApplyInfo × W
  apply_each [] x w = (x, w)
  apply_each (i ∷ is) x w = let (x1, w1) = apply_one i x w in apply_each is x1 w1

  -- The new plugins are given to the message manager, which starts.
  unfoldable pub plug : ℕ → ℕ → List (Option ℕ) → Fields.State W → Fields.State W
  plug k r fs m = start a.plugins (set_protocol r (add_filters fs (set_socket (some k) m)))

  unfoldable pub announce : ℕ → List ℕ → Window W → Window W
  announce props actions s =
      emit (Signal.socket_connect_enabled (not (auto_connect props && non_disconnectable props)))
        (add_actions actions (emit (Signal.activity_state_changed ActivityState.active) s))

  -- The part that follows when there are a socket and a protocol.
  unfoldable pub install : List ℕ → ℕ → ℕ → ApplyInfo → App W → App W
  install infos k r x s =
      let props = a.connection_properties k (world_of s) in
      let m = plug k r x.filters s.window.msg_mgr in
      let s1 = announce props x.actions (record s.window { msg_mgr = m }) in
      record s {
        window = if auto_connect props then connect_socket k s1 else s1;
        plugin_mgr = set_applied_plugins infos s.plugin_mgr;
      }

  -- The tests after the loop, and what follows.
  unfoldable pub conclude : List ℕ → ApplyInfo → App W → Bool × App W
  conclude infos x s = elim x.socket [
    | none ↦ (false, s)
    | some k ↦ elim x.protocol [ none ↦ (false, s) | some r ↦ (true, install infos k r x s) ]
  ]

  unfoldable pub apply_new_plugins : List ℕ → App W → Bool × App W
  apply_new_plugins infos s =
      let s1 = retire infos s in
      let (x, w) =
        apply_each infos (record { socket = none; filters = []; protocol = none; actions = [] })
          (world_of s1) in
      conclude infos x (on_window (set_world w) s1)
