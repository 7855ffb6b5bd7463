-- ===== src/MsgMgr/Control.antt =====
-- start, stop, clear, and the setters of the message manager (lib/src/ToolsMsgMgrImpl.cpp).
use cc_tools_qt.Base.{ℕ, Bool, true, false, List, [], ◌∷◌, ◌++◌, Option, none, some, if◌then◌else◌}
use cc_tools_qt.Plugins.{Plugins}
use cc_tools_qt.MsgMgr.Fields.{State}

module _ {W : Type 0} where
  unfoldable pub set_recv_enabled : Bool → State W → State W
  set_recv_enabled enabled s = record s { recv_enabled = enabled }

  -- The setters also connect the signals of the new object to the slots of the manager.
  unfoldable pub set_socket : Option ℕ → State W → State W
  set_socket socket s = record s { socket = socket }

  unfoldable pub set_protocol : ℕ → State W → State W
  set_protocol protocol s = record s { protocol = some protocol }

  unfoldable pub add_filter : Option ℕ → State W → State W
  add_filter none s = s
  add_filter (some f) s = record s { filters = s.filters ++ f ∷ [] }

module _ {W : Type 0} (p : Plugins W) where
  -- A loop that makes one call for each filter.
  pub each_filter : (ℕ → W → W) → List ℕ → W → W
  each_filter call [] w = w
  each_filter call (f ∷ fs) w = each_filter call fs (call f w)

  unfoldable pub start : State W → State W
  start s = if s.running then s else record s {
    world =
        each_filter p.filter_start s.filters
          (elim s.socket [ none ↦ s.world | some k ↦ p.socket_start k s.world ]);
    running = true;
  }

  -- The socket, if there is one, stops after the filters.
  pub stop_plugins : State W → W
  stop_plugins s =
      let w = each_filter p.filter_stop s.filters s.world in
      elim s.socket [ none ↦ w | some k ↦ p.socket_stop k w ]

  unfoldable pub stop : State W → State W
  stop s = if s.running then record s { world = stop_plugins s; running = false } else s

  unfoldable pub clear : State W → State W
  clear s = record (if s.running then stop s else s) {
    socket = none;
    protocol = none;
    filters = [];
  }
