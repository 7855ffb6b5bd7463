-- ===== src/PluginMgr/Config.antt =====
-- The plugins of a configuration (lib/src/ToolsPluginMgrImpl.cpp).
use Prim.Native.String.{String}
use cc_tools_qt.Base.{
  ℕ, ◌≡◌, refl, ap, List, [], ◌∷◌, map, All, some, Dict, insert, value, value-insert, arith,
}
use cc_tools_qt.Message.{Variant}
use cc_tools_qt.PluginMgr.{
  PluginInfo, Loaded, PluginMgr, find_iid, load_each, load_plugins_from_config, collect,
  get_config_for_plugins,
}

module _ {W : Type 0} (info : ℕ → PluginInfo) (l : Loaded W) where
  collect-iids :
      (is : List ℕ) (config : Dict Variant) (w : W)
      → (collect info l is config w).0 ≡ map (λ i. (info i).iid) is
  unfolding collect
  collect-iids [] config w = refl
  collect-iids (i ∷ is) config w =
      let (config1, w1) = l.get_current_config i config w in
      ap (λ (x : List String). (info i).iid ∷ x) (collect-iids is config1 w1)

  load_each_lem :
      (config : Dict Variant) (is plugins : List ℕ) (w : W)
      → All (λ i. find_iid info (info i).iid plugins ≡ some i) is
      → (load_each info l config (map (λ i. (info i).iid) is) plugins w).0 ≡ is
  unfolding load_each
  load_each_lem config [] plugins w found = refl
  load_each_lem config (i ∷ is) plugins w found =
      ground (arith, found.0, load_each_lem config is plugins (l.reconfigure i config w) found.1)

  -- The configuration that is saved for some plugins loads the same plugins in the same order, whatever
  -- settings the plugins add to it and in whatever state the plugins are when it is loaded. Each of them
  -- has to be the first of the available plugins with its identifier.
  pub load-get_config_for_plugins :
      (infos : List ℕ) (s t : PluginMgr W)
      → All (λ i. find_iid info (info i).iid t.plugins ≡ some i) infos
      → (load_plugins_from_config info l (get_config_for_plugins info l infos s).0 t).0 ≡ infos
  unfolding load_plugins_from_config get_config_for_plugins
  load-get_config_for_plugins infos s t found =
      let out = collect info l infos [] s.world in
      let config = insert "cc_plugins_list" (Variant.texts out.0) out.1 in
      let stored : value "cc_plugins_list" config ≡ some (Variant.texts out.0) =
        value-insert "cc_plugins_list" "cc_plugins_list" (Variant.texts out.0) out.1 in
      let names = collect-iids infos [] s.world in
      ground (arith, stored, names, load_each_lem config infos t.plugins t.world found)
