-- ===== src/Tests/Configs.antt =====
-- The plugin manager's theorem at a concrete state.
use cc_tools_qt.Base.{ℕ, ◌+◌, ◌≡◌, refl, [], ◌∷◌, insert, ◌==◌, if◌then◌else◌}
use cc_tools_qt.Message.{Variant}
use cc_tools_qt.PluginMgr.{
  PluginType, PluginInfo, Loaded, PluginMgr, find_iid, load_plugins_from_config,
  get_config_for_plugins,
}
use cc_tools_qt.PluginMgr.Config.{load-get_config_for_plugins}

abbrev info : ℕ → PluginInfo
info i =
    if i == 1
    then record { iid = "echo"; type = PluginType.socket }
    else record { iid = "demo"; type = PluginType.protocol }

-- Plugins that count what they are asked and store the count.
abbrev counting : Loaded ℕ
counting = record {
  reconfigure = λ i config w. w + 1;
  get_current_config = λ i config w. (insert (info i).iid (Variant.number w) config, w + 1);
  unload = λ i w. w;
}

abbrev first_run : PluginMgr ℕ
first_run = record { plugins = 2 ∷ 1 ∷ []; applied_plugins = 1 ∷ 2 ∷ []; world = 5 }

abbrev second_run : PluginMgr ℕ
second_run = record { plugins = 2 ∷ 1 ∷ []; applied_plugins = []; world = 0 }

load-get_config_for_plugins_example :
    (load_plugins_from_config info counting
      (get_config_for_plugins info counting (1 ∷ 2 ∷ []) first_run).0
      second_run).0
    ≡ 1 ∷ 2 ∷ []
unfolding find_iid
load-get_config_for_plugins_example =
    load-get_config_for_plugins info counting (1 ∷ 2 ∷ []) first_run second_run (refl, (refl, tt))
