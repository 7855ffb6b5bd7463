-- ===== src/Tests/Applying.antt =====
-- Applying plugins at a concrete state: plugin 1 is a socket, 2 a filter and 3 a protocol. An object
-- that plugin `i` creates has a number that ends in `i`.
use cc_tools_qt.Base.{
  ℕ, ◌+◌, ◌*◌, ◌%◌, ◌≡◌, inl, refl, true, [], ◌∷◌, some, ◌==◌, if◌then◌else◌, arith,
}
use cc_tools_qt.Plugin.{PluginImpl, Kind}
use cc_tools_qt.PluginMgr.{PluginType, has_applied_plugins, needs_reload}
use cc_tools_qt.Gui.Consistent.{Consistent}
use cc_tools_qt.Gui.Shown.{Shows}
use cc_tools_qt.Applying.{Application, App, apply_new_plugins}
use cc_tools_qt.Applying.Choosing.{Overridden}
use cc_tools_qt.Applying.Outcome.{InUse, apply_new_plugins_lem}
use cc_tools_qt.Applying.Retiring.{Tidy}
use cc_tools_qt.Applying.Display.{apply_new_plugins-Shows}
use cc_tools_qt.Tests.Samples.{plain}
use cc_tools_qt.Tests.Window.{window, window-Consistent, window-Shows}

abbrev impl : PluginImpl ℕ
impl = record {
  type = λ i.
      if i == 1
      then Kind.socket
      else if i == 2
      then Kind.filter
      else if i == 3
      then Kind.protocol
      else Kind.num_of_values;
  create_socket_impl = λ i w. (some (w * 10 + 1), w + 1);
  create_filter_impl = λ i w. (some (w * 10 + 2), w + 1);
  create_protocol_impl = λ i w. (some (w * 10 + 3), w + 1);
  create_gui_actions_impl = λ i w. (w ∷ [], w + 1);
}

abbrev application : Application ℕ
application = record {
  plugins = plain;
  info = λ i. record { iid = "plugin"; type = PluginType.invalid };
  loaded = record {
    reconfigure = λ i config w. w;
    get_current_config = λ i config w. (config, w);
    unload = λ i w. w;
  };
  impl = impl;
  load_plugin = λ i w. (true, w);
  socket_connect = λ k w. (true, w);
  socket_disconnect = λ k w. w;
  connection_properties = λ k w. 1;
}

application-Overridden : Overridden application
application-Overridden = record {
  loads = λ i. true;
  origin = λ k. k % 10;
  loads_lem = λ i w. refl;
  socket = λ i w h. ground arith;
  filter = λ i w h. ground arith;
  protocol = λ i w h. ground arith;
}

-- The plugins in use are others than those to apply.
abbrev before : App ℕ
before = record {
  window = window;
  plugin_mgr = record { plugins = 1 ∷ 2 ∷ 3 ∷ 4 ∷ []; applied_plugins = 4 ∷ []; world = 0 };
}

before-Tidy : Tidy before
unfolding has_applied_plugins
before-Tidy = inl refl

apply_new_plugins_lem_example :
    let (ok, t) = apply_new_plugins application (1 ∷ 2 ∷ 3 ∷ []) before in
    (ok ≡ true) × InUse application application-Overridden (1 ∷ 2 ∷ 3 ∷ []) true before t × Tidy t
unfolding application-Overridden
apply_new_plugins_lem_example =
    apply_new_plugins_lem application application-Overridden (1 ∷ 2 ∷ 3 ∷ []) before before-Tidy

apply_new_plugins-Shows_example :
    let t = (apply_new_plugins application (1 ∷ 2 ∷ 3 ∷ []) before).1.window in
    Consistent t × Shows t × (t.msg_mgr.all_msgs ≡ [])
unfolding has_applied_plugins needs_reload
apply_new_plugins-Shows_example =
    apply_new_plugins-Shows application (1 ∷ 2 ∷ 3 ∷ []) before window-Consistent window-Shows
