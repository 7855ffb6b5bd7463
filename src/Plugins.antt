-- ===== src/Plugins.antt =====
-- The plugin objects as their users see them: sockets (ToolsSocket.h), filters (ToolsFilter.h) and
-- the protocol (ToolsProtocol.h). An object is a number, its identity. `W` is the state of all
-- plugins and of the outside world, which a call may change as it likes; what a call hands back is
-- all that it does to its caller, so a plugin that calls back into its caller during a call is not
-- described here. A filter makes new blocks, and leaves the block that it is given as it was.
use cc_tools_qt.Base.{ℕ, ◌≡◌, Bool, Option, List}
use cc_tools_qt.Message.{Message, DataInfo}

pub record Plugins (W : Type 0) : Type 0 where
  -- `TimestampClock::now()`, in ticks, and `duration_cast<milliseconds>` of such a time.
  pub now : W → ℕ × W
  pub to_ms : ℕ → ℕ
  pub socket_start : ℕ → W → W
  pub socket_stop : ℕ → W → W
  -- The block is shared, so the socket may add properties to it.
  pub socket_send : ℕ → DataInfo → W → DataInfo × W
  pub filter_start : ℕ → W → W
  pub filter_stop : ℕ → W → W
  pub filter_recv : ℕ → DataInfo → W → List DataInfo × W
  pub filter_send : ℕ → DataInfo → W → List DataInfo × W
  pub filter_connection_report : ℕ → Bool → W → W
  pub protocol_read : ℕ → DataInfo → W → List Message × W
  pub protocol_write : ℕ → Message → W → Option DataInfo × W
  pub protocol_update : ℕ → Message → W → Message × W
  pub protocol_clone : ℕ → Message → W → Option Message × W
  pub protocol_received_report : ℕ → Message → W → Message × W
  pub protocol_sent_report : ℕ → Message → W → Message × W
  pub protocol_connection_report : ℕ → Bool → W → W

-- A protocol plugin leaves alone the properties by which the message manager orders and labels its
-- messages: they are the manager's own.
pub record KeepsLabels {W : Type 0} (p : Plugins W) : Type 0 where
  pub received_num :
      (r : ℕ) (m : Message) (w : W) → (p.protocol_received_report r m w).0.msg_num ≡ m.msg_num
  pub received_type :
      (r : ℕ) (m : Message) (w : W) → (p.protocol_received_report r m w).0.msg_type ≡ m.msg_type
