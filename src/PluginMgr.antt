-- ===== src/PluginMgr.antt =====
-- The plugin manager: lib/src/ToolsPluginMgrImpl.cpp and ToolsPluginMgrImpl.h. A plugin's description is
-- an object at an address. Reading the directory of plugins and loading a library are left out: what
-- is available is given, and the functions of a loaded plugin are parameters.
pub mod Config
use Prim.Native.String.{String}
use cc_tools_qt.Base.{
  ℕ, Bool, true, false, not, ◌&&◌, List, [], ◌∷◌, ◌++◌, Option, none, some, Dict, insert, value,
  str_eq, ◌==◌, if◌then◌else◌,
}
use cc_tools_qt.Message.{Variant}

-- `PluginInfo::Type`.
pub data PluginType : Type 0 where
  invalid : PluginType
  socket : PluginType
  filter : PluginType
  protocol : PluginType

pub record PluginInfo : Type 0 where
  pub iid : String
  pub type : PluginType

-- The plugins' `reconfigure` and `getCurrentConfig`, and the unloading of a library.
pub record Loaded (W : Type 0) : Type 0 where
  pub reconfigure : ℕ → Dict Variant → W → W
  pub get_current_config : ℕ → Dict Variant → W → Dict Variant × W
  pub unload : ℕ → W → W

pub record PluginMgr (W : Type 0) : Type 0 where
  pub plugins : List ℕ
  pub applied_plugins : List ℕ
  pub world : W

unfoldable pub parse_type : String → PluginType
parse_type t =
    if str_eq t "socket"
    then PluginType.socket
    else if str_eq t "filter"
    then PluginType.filter
    else if str_eq t "protocol"
    then PluginType.protocol
    else PluginType.invalid

abbrev is_protocol : PluginType → Bool
is_protocol PluginType.protocol = true
is_protocol PluginType.socket = false
is_protocol PluginType.filter = false
is_protocol PluginType.invalid = false

abbrev same_plugins : List ℕ → List ℕ → Bool
same_plugins [] [] = true
same_plugins [] (y ∷ ys) = false
same_plugins (x ∷ xs) [] = false
same_plugins (x ∷ xs) (y ∷ ys) = (x == y) && same_plugins xs ys

-- `m_appliedPlugins.erase` of the first entry.
unfoldable pub erase_plugin : ℕ → List ℕ → List ℕ
erase_plugin i [] = []
erase_plugin i (x ∷ xs) = if x == i then xs else x ∷ erase_plugin i xs

unfoldable pub has_plugin : ℕ → List ℕ → Bool
has_plugin i [] = false
has_plugin i (x ∷ xs) = if x == i then true else has_plugin i xs

module _ {W : Type 0} where
  unfoldable pub has_applied_plugins : PluginMgr W → Bool
  has_applied_plugins s = elim s.applied_plugins [ [] ↦ false | i ∷ is ↦ true ]

  unfoldable pub needs_reload : List ℕ → PluginMgr W → Bool
  needs_reload infos s = has_applied_plugins s && not (same_plugins s.applied_plugins infos)

  unfoldable pub set_applied_plugins : List ℕ → PluginMgr W → PluginMgr W
  set_applied_plugins infos s = record s { applied_plugins = infos }

module _ (info : ℕ → PluginInfo) where
  -- The search for an identifier among the available plugins.
  unfoldable pub find_iid : String → List ℕ → Option ℕ
  find_iid iid [] = none
  find_iid iid (i ∷ is) = if str_eq (info i).iid iid then some i else find_iid iid is

  -- The search from the end for a protocol.
  unfoldable pub find_protocol : List ℕ → Option ℕ
  find_protocol [] = none
  find_protocol (i ∷ is) = elim (find_protocol is) [
    | some j ↦ some j
    | none ↦ if is_protocol (info i).type then some i else none
  ]

  unfoldable pub is_protocol_changing : {W : Type 0} → List ℕ → PluginMgr W → Bool
  is_protocol_changing infos s = elim (find_protocol infos) [
    | none ↦ elim (find_protocol s.applied_plugins) [ none ↦ false | some j ↦ true ]
    | some i ↦ elim (find_protocol s.applied_plugins) [ none ↦ true | some j ↦ not (i == j) ]
  ]

module _ {W : Type 0} (l : Loaded W) where
  unfoldable pub unload_applied_plugin : ℕ → PluginMgr W → Bool × PluginMgr W
  unload_applied_plugin i s =
      if has_plugin i s.applied_plugins
      then (
        true,
        record s { applied_plugins = erase_plugin i s.applied_plugins; world = l.unload i s.world },
      )
      else (false, s)

  unfoldable pub unload_each : List ℕ → W → W
  unload_each [] w = w
  unload_each (i ∷ is) w = unload_each is (l.unload i w)

  unfoldable pub unload_applied : PluginMgr W → PluginMgr W
  unload_applied s = record s {
    applied_plugins = [];
    world = unload_each s.applied_plugins s.world;
  }

module _ {W : Type 0} (info : ℕ → PluginInfo) (l : Loaded W) where
  -- The loop of `loadPluginsFromConfig` over the identifiers.
  unfoldable pub load_each : Dict Variant → List String → List ℕ → W → List ℕ × W
  load_each config [] plugins w = ([], w)
  load_each config (iid ∷ iids) plugins w = elim (find_iid info iid plugins) [
    | none ↦ load_each config iids plugins w
    | some i ↦
        let (is, w') = load_each config iids plugins (l.reconfigure i config w) in (i ∷ is, w')
  ]

  -- A value that is no list gives no plugins.
  unfoldable pub load_plugins_from_config : Dict Variant → PluginMgr W → List ℕ × PluginMgr W
  load_plugins_from_config config s = elim (value "cc_plugins_list" config) [
    | some (Variant.texts iids) ↦
        let (is, w) = load_each config iids s.plugins s.world in (is, record s { world = w })
    | some (Variant.text t) ↦ ([], s)
    | some (Variant.number n) ↦ ([], s)
    | none ↦ ([], s)
  ]

  -- The loop of `getConfigForPlugins`.
  unfoldable pub collect : List ℕ → Dict Variant → W → List String × Dict Variant × W
  collect [] config w = ([], config, w)
  collect (i ∷ is) config w =
      let (config1, w1) = l.get_current_config i config w in
      let (iids, config2, w2) = collect is config1 w1 in ((info i).iid ∷ iids, config2, w2)

  unfoldable pub get_config_for_plugins : List ℕ → PluginMgr W → Dict Variant × PluginMgr W
  get_config_for_plugins infos s =
      let (iids, config, w) = collect infos [] s.world in
      (insert "cc_plugins_list" (Variant.texts iids) config, record s { world = w })
