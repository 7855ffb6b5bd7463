-- ===== src/Loopback.antt =====
-- The parts put together: the message manager (lib/src/ToolsMsgMgrImpl.cpp) with the echo socket
-- (plugin/echo_socket/EchoSocket.cpp) as its socket and a ToolsProtocol (lib/src/ToolsProtocol.cpp)
-- over a frame as its protocol. The filters, and what a protocol does on reports, are parameters. The
-- world of the manager is the socket, and that of the socket the rest.
pub mod Coding
pub mod Contents
pub mod Waiting
pub mod Arrival
use cc_tools_qt.Base.{ℕ, List, [], ◌∷◌, some}
use cc_tools_qt.Plugins.{Plugins}
use cc_tools_qt.Socket
use cc_tools_qt.Socket.{Signal, Socket}
use cc_tools_qt.Socket.Echo.{EchoState, echo, send_data_postponed}
use cc_tools_qt.Protocol
use cc_tools_qt.Protocol.{Frame}
use cc_tools_qt.MsgMgr.Fields.{State}
use cc_tools_qt.MsgMgr.Receive.{socket_data_received, socket_error_report, socket_connection_report}

abbrev pub Station : Type 0 → Type 0
Station W = Socket EchoState W

module _ {W : Type 0} where
  -- A call that does not touch the socket.
  abbrev pub beside : {A : Type 0} → (W → A × W) → Station W → A × Station W
  beside f s = let (x, w) = f s.world in (x, record s { world = w })

  abbrev pub outside : (W → W) → Station W → Station W
  outside f s = record s { world = f s.world }

-- The plugins in use. `rest` gives the filters and the reports of the protocol.
abbrev pub assembled : {W : Type 0} → Frame W → Plugins W → Plugins (Station W)
assembled f rest = record {
  now = beside f.now;
  to_ms = rest.to_ms;
  socket_start = λ k s. (Socket.start (echo f.now) s).1;
  socket_stop = λ k s. Socket.stop (echo f.now) s;
  socket_send = λ k d s. Socket.send_data (echo f.now) d s;
  filter_start = λ i s. outside (rest.filter_start i) s;
  filter_stop = λ i s. outside (rest.filter_stop i) s;
  filter_recv = λ i d s. beside (rest.filter_recv i d) s;
  filter_send = λ i d s. beside (rest.filter_send i d) s;
  filter_connection_report = λ i b s. outside (rest.filter_connection_report i b) s;
  protocol_read = λ r d s. beside (Protocol.read f d) s;
  protocol_write = λ r m s. beside (Protocol.write f m) s;
  protocol_update = λ r m s. ((Protocol.update f m).1, s);
  protocol_clone = λ r m s. (Protocol.clone_message f m, s);
  protocol_received_report = λ r m s. beside (rest.protocol_received_report r m) s;
  protocol_sent_report = λ r m s. beside (rest.protocol_sent_report r m) s;
  protocol_connection_report = λ r b s. outside (rest.protocol_connection_report r b) s;
}

module _ {W : Type 0} (p : Plugins (Station W)) where
  -- The slots that `setSocket` connects to the signals of the socket `k`. The message manager hears
  -- nothing of the configuration of plugins.
  unfoldable pub hear : ℕ → Signal → State (Station W) → State (Station W)
  hear k (Signal.data_received d) m = socket_data_received p k (some d) m
  hear k (Signal.error_report msg) m = socket_error_report p k msg m
  hear k (Signal.connection_status b) m = socket_connection_report p k b m
  hear k (Signal.inter_plugin_config props) m = m

  unfoldable pub hear_all : ℕ → List Signal → State (Station W) → State (Station W)
  hear_all k [] m = m
  hear_all k (e ∷ es) m = hear_all k es (hear k e m)

  -- The timer of the echo socket fires. Its loop sends no data, so the slots may run after it.
  unfoldable pub timer_fires : (W → ℕ × W) → ℕ → State (Station W) → State (Station W)
  timer_fires now k m =
      let s = send_data_postponed now (record m.world { signals = [] }) in
      hear_all k s.signals (record m { world = record s { signals = [] } })
