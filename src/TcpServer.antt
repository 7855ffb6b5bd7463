-- ===== src/TcpServer.antt =====
-- The TCP server socket: plugin/tcp_socket/server/TcpServerSocket.cpp and TcpServerSocket.h. A slot
-- takes its sender as an argument; Qt's server and sockets are those of TcpProxy. Asserts are those of
-- a release build.
pub mod Broadcast
use Prim.Native.String.{String}
use cc_tools_qt.Base.{
  ℕ, suc, Bool, true, false, not, List, [], ◌∷◌, ◌++◌, Option, none, some, Dict, insert, ◌==◌,
  if◌then◌else◌,
}
use cc_tools_qt.Message.{Variant, DataInfo, make_data_info}
use cc_tools_qt.Socket.{
  Socket, report_error, report_disconnected, report_data_received, default_impl, Impl,
}
use cc_tools_qt.TcpProxy.{Net, setting, to_port}

pub record Server : Type 0 where
  pub port : ℕ
  pub sockets : List ℕ
  -- How often `sigConfigChanged` was emitted.
  pub config_changes : ℕ

abbrev pub State : Type 0 → Type 0
State W = Socket Server W

-- `std::find`, and `erase` of what it has found.
unfoldable pub erase_socket : ℕ → List ℕ → List ℕ
erase_socket c [] = []
erase_socket c (x ∷ xs) = if x == c then xs else x ∷ erase_socket c xs

module _ {W : Type 0} (n : Net W) where
  unfoldable pub socket_connect_impl : State W → Bool × State W
  socket_connect_impl s =
      let (ok, w) = n.listen s.derived.port s.world in
      if n.is_listening s.world
      then (
        false,
        report_error "Previous run of TCP/IP Server socket wasn't terminated properly." s,
      )
      else if ok
      then (true, record s { world = w })
      else (
        false,
        report_error "Failed to listen on specified TCP/IP port." (record s { world = w }),
      )

  unfoldable pub socket_disconnect_impl : State W → State W
  socket_disconnect_impl s = record s { world = n.close s.world }

  -- The loop of `sendDataImpl`, with `toList`.
  unfoldable pub send_to_all : List ℕ → List ℕ → W → List String × W
  send_to_all bytes [] w = ([], w)
  send_to_all bytes (c ∷ cs) w =
      let w1 = n.write c bytes w in
      let (to, w2) = send_to_all bytes cs w1 in (n.peer_name c w1 ∷ to, w2)

  unfoldable pub send_data_impl : DataInfo → State W → DataInfo × State W
  send_data_impl d s =
      let (to, w) = send_to_all d.bytes s.derived.sockets s.world in
      (
        record d {
          extra_properties =
              insert "tcp.to" (Variant.texts to)
                (insert "tcp.from" (Variant.text (n.server_name w)) d.extra_properties);
        },
        record s { world = w },
      )

  unfoldable pub apply_config_impl : Dict Variant → State W → State W
  apply_config_impl props s =
      let keys = "network.local_port" ∷ "network.port" ∷ "tcp.local_port" ∷ "tcp.port" ∷ [] in
      elim (setting n.as_int keys props none) [
        | none ↦ s
        | some v ↦ record s {
          derived = record s.derived {
            port = to_port v;
            config_changes = suc s.derived.config_changes;
          };
        }
      ]

  abbrev pub server : Impl Server W
  server = record (default_impl n.now send_data_impl) {
    socket_connect_impl = socket_connect_impl;
    socket_disconnect_impl = socket_disconnect_impl;
    apply_config_impl = apply_config_impl;
  }

  unfoldable pub new_connection : State W → State W
  new_connection s =
      let (c, w) = n.next_pending_connection s.world in
      record s { world = w; derived = record s.derived { sockets = s.derived.sockets ++ c ∷ [] } }

  -- Qt also deletes the socket.
  unfoldable pub connection_terminated : ℕ → State W → State W
  connection_terminated c s = record s {
    derived = record s.derived { sockets = erase_socket c s.derived.sockets };
  }

  unfoldable pub read_from_socket : ℕ → State W → State W
  read_from_socket c s =
      let (t, w1) = n.now s.world in
      let (bytes, w2) = n.read c (n.bytes_available c w1) w1 in
      report_data_received server
        (record make_data_info {
          timestamp = t;
          bytes = bytes;
          extra_properties =
              insert "tcp.to" (Variant.text (n.server_name w2))
                (insert "tcp.from" (Variant.text (n.peer_name c w2)) []);
        })
        (record s { world = w2 })

  unfoldable pub socket_error_occurred : Bool → ℕ → State W → State W
  socket_error_occurred remote_closed c s =
      if remote_closed then s else report_error (n.error_string c s.world) s

  unfoldable pub accept_error_occurred : State W → State W
  accept_error_occurred s =
      let s1 = report_error (n.server_error s.world) s in
      if not (n.is_listening s1.world) then report_disconnected s1 else s1

  -- The loop of the destructor.
  unfoldable pub flush_all : List ℕ → W → W
  flush_all [] w = w
  flush_all (c ∷ cs) w = flush_all cs (n.flush c w)
