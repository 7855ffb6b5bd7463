-- ===== src/Plugin.antt =====
-- The base class of all plugins: lib/src/ToolsPlugin.cpp and ToolsPlugin.h. A plugin is known by the
-- address of its description, and what it creates by a number. The debug level and the connection of
-- the signal by which plugins configure one another are left out.
use cc_tools_qt.Base.{ℕ, Bool, true, false, List, [], Option, none, if◌then◌else◌}

-- `ToolsPlugin::Type`.
pub data Kind : Type 0 where
  socket : Kind
  filter : Kind
  protocol : Kind
  num_of_values : Kind

-- The virtual functions of the derived classes.
pub record PluginImpl (W : Type 0) : Type 0 where
  pub type : ℕ → Kind
  pub create_socket_impl : ℕ → W → Option ℕ × W
  pub create_filter_impl : ℕ → W → Option ℕ × W
  pub create_protocol_impl : ℕ → W → Option ℕ × W
  pub create_gui_actions_impl : ℕ → W → List ℕ × W

abbrev pub is_socket : Kind → Bool
is_socket Kind.socket = true
is_socket Kind.filter = false
is_socket Kind.protocol = false
is_socket Kind.num_of_values = false

abbrev pub is_filter : Kind → Bool
is_filter Kind.filter = true
is_filter Kind.socket = false
is_filter Kind.protocol = false
is_filter Kind.num_of_values = false

abbrev pub is_protocol : Kind → Bool
is_protocol Kind.protocol = true
is_protocol Kind.socket = false
is_protocol Kind.filter = false
is_protocol Kind.num_of_values = false

-- A class that overrides none of the functions for its kind.
abbrev pub default_plugin : {W : Type 0} → Kind → PluginImpl W
default_plugin kind = record {
  type = λ i. kind;
  create_socket_impl = λ i w. (none, w);
  create_filter_impl = λ i w. (none, w);
  create_protocol_impl = λ i w. (none, w);
  create_gui_actions_impl = λ i w. ([], w);
}

module _ {W : Type 0} (c : PluginImpl W) where
  unfoldable pub create_socket : ℕ → W → Option ℕ × W
  create_socket i w = if is_socket (c.type i) then c.create_socket_impl i w else (none, w)

  unfoldable pub create_filter : ℕ → W → Option ℕ × W
  create_filter i w = if is_filter (c.type i) then c.create_filter_impl i w else (none, w)

  unfoldable pub create_protocol : ℕ → W → Option ℕ × W
  create_protocol i w = if is_protocol (c.type i) then c.create_protocol_impl i w else (none, w)

  unfoldable pub create_gui_actions : ℕ → W → List ℕ × W
  create_gui_actions i w = c.create_gui_actions_impl i w
