-- ===== src/TcpProxy.antt =====
-- The TCP proxy socket: plugin/tcp_socket/proxy/TcpProxySocket.cpp and TcpProxySocket.h. A slot takes
-- its sender as an argument. The Qt sockets and the server are numbers and a record of Qt's functions.
-- `none` as the result of a slot is the use of `m_sockets.end()`.
pub mod Pairs
use Prim.Native.String.{String}
use cc_tools_qt.Base.{
  ℕ, suc, ◌%◌, Bool, true, false, not, ◌&&◌, ◌||◌, List, [], ◌∷◌, ◌++◌, Option, none, some, Dict,
  insert, value, str_eq, ◌==◌, if◌then◌else◌,
}
use cc_tools_qt.Message.{Variant, DataInfo, make_data_info}
use cc_tools_qt.Socket.{
  Socket, report_error, report_disconnected, report_data_received, default_impl, Impl,
}

-- What the code uses of QTcpServer and QTcpSocket. A name is `address:port`.
pub record Net (W : Type 0) : Type 0 where
  pub now : W → ℕ × W
  pub is_listening : W → Bool
  pub listen : ℕ → W → Bool × W
  pub close : W → W
  pub server_name : W → String
  pub server_error : W → String
  pub local_host : String
  pub next_pending_connection : W → ℕ × W
  pub new_socket : W → ℕ × W
  pub connect_to_host : ℕ → String → ℕ → W → W
  pub bytes_available : ℕ → W → ℕ
  pub read : ℕ → ℕ → W → List ℕ × W
  pub write : ℕ → List ℕ → W → W
  pub flush : ℕ → W → W
  pub peer_name : ℕ → W → String
  pub error_string : ℕ → W → String
  pub is_connected : ℕ → W → Bool
  pub disconnect_from_host : ℕ → W → W
  pub block_signals : ℕ → W → W
  -- `readyRead` is connected to `readFromClientSocket`.
  pub connect_ready_read : ℕ → W → W
  -- `delete` or `deleteLater`.
  pub release : ℕ → W → W
  -- The conversions of a QVariant; an `int` is its bit pattern.
  pub as_text : Variant → Option String
  pub as_int : Variant → Option ℕ

pub record Proxy : Type 0 where
  pub port : ℕ
  pub remote_host : String
  pub remote_port : ℕ
  -- `ConnectedPair`s: the client's socket, and the socket to the remote host.
  pub sockets : List (ℕ × ℕ)
  -- How often `sigConfigChanged` was emitted.
  pub config_changes : ℕ

abbrev pub State : Type 0 → Type 0
State W = Socket Proxy W

-- findByClient and findByConnection.
unfoldable pub find_by_client : ℕ → List (ℕ × ℕ) → Option (ℕ × ℕ)
find_by_client c [] = none
find_by_client c ((a, b) ∷ ps) = if a == c then some (a, b) else find_by_client c ps

unfoldable pub find_by_connection : ℕ → List (ℕ × ℕ) → Option (ℕ × ℕ)
find_by_connection c [] = none
find_by_connection c ((a, b) ∷ ps) = if b == c then some (a, b) else find_by_connection c ps

-- `m_sockets.erase(iter)` for the iterator that a search has found.
unfoldable pub erase_client : ℕ → List (ℕ × ℕ) → List (ℕ × ℕ)
erase_client c [] = []
erase_client c ((a, b) ∷ ps) = if a == c then ps else (a, b) ∷ erase_client c ps

unfoldable pub erase_connection : ℕ → List (ℕ × ℕ) → List (ℕ × ℕ)
erase_connection c [] = []
erase_connection c ((a, b) ∷ ps) = if b == c then ps else (a, b) ∷ erase_connection c ps

abbrev pub set_sockets : {W : Type 0} → List (ℕ × ℕ) → State W → State W
set_sockets ps s = record s { derived = record s.derived { sockets = ps } }

-- The last of the given keys that has a convertible value.
unfoldable pub setting :
    {A : Type 0} → (Variant → Option A) → List String → Dict Variant → Option A → Option A
setting conv [] props found = found
setting conv (k ∷ ks) props found = elim (value k props) [
  | none ↦ setting conv ks props found
  | some v ↦ elim (conv v) [
    | none ↦ setting conv ks props found
    | some x ↦ setting conv ks props (some x)
  ]
]

abbrev pub to_port : ℕ → ℕ
to_port v = v % 65536

module _ {W : Type 0} (n : Net W) where
  unfoldable pub socket_connect_impl : State W → Bool × State W
  socket_connect_impl s =
      let host = s.derived.remote_host in
      if n.is_listening s.world
      then (
        false,
        report_error "Previous run of TCP/IP Server socket wasn't terminated properly." s,
      )
      else if s.derived.port == s.derived.remote_port
          && (str_eq host "" || str_eq host "localhost" || str_eq host "127.0.0.1")
      then (false, report_error "Cannot have the same port for local and remote endpoints." s)
      else (let (ok, w) = n.listen s.derived.port s.world in
          if ok then (true, record s { world = w }) else (
            false,
            report_error "Failed to listen on specified TCP/IP port." (record s { world = w }),
          ))

  unfoldable pub socket_disconnect_impl : State W → State W
  socket_disconnect_impl s = record s { world = n.close s.world }

  -- The loop of `sendDataImpl`, with `toList`.
  unfoldable pub send_to_pairs : List ℕ → List (ℕ × ℕ) → W → List String × W
  send_to_pairs bytes [] w = ([], w)
  send_to_pairs bytes ((a, b) ∷ ps) w =
      let w1 = n.write b bytes (n.write a bytes w) in
      let (to, w2) = send_to_pairs bytes ps w1 in (n.peer_name a w1 ∷ n.peer_name b w1 ∷ to, w2)

  unfoldable pub send_data_impl : DataInfo → State W → DataInfo × State W
  send_data_impl d s =
      let (to, w) = send_to_pairs d.bytes s.derived.sockets s.world in
      (
        record d {
          extra_properties =
              insert "tcp.to" (Variant.texts to)
                (insert "tcp.from" (Variant.text (n.server_name w)) d.extra_properties);
        },
        record s { world = w },
      )

  unfoldable pub apply_config_impl : Dict Variant → State W → State W
  apply_config_impl props s =
      let host = setting n.as_text ("network.host" ∷ "tcp.host" ∷ []) props none in
      let remote = setting n.as_int ("network.port" ∷ "tcp.port" ∷ []) props none in
      let own = setting n.as_int ("network.local_port" ∷ "tcp.local_port" ∷ []) props none in
      let x = s.derived in
      record s {
        derived = record x {
          remote_host = elim host [ none ↦ x.remote_host | some h ↦ h ];
          remote_port = elim remote [ none ↦ x.remote_port | some v ↦ to_port v ];
          port = elim own [ none ↦ x.port | some v ↦ to_port v ];
          config_changes = elim host [
            | some h ↦ suc x.config_changes
            | none ↦ elim remote [
              | some v ↦ suc x.config_changes
              | none ↦ elim own [ some v ↦ suc x.config_changes | none ↦ x.config_changes ]
            ]
          ];
        };
      }

  abbrev pub proxy : Impl Proxy W
  proxy = record (default_impl n.now send_data_impl) {
    socket_connect_impl = socket_connect_impl;
    socket_disconnect_impl = socket_disconnect_impl;
    apply_config_impl = apply_config_impl;
  }

  unfoldable pub perform_read_write : ℕ → ℕ → State W → State W
  perform_read_write from to s =
      if n.bytes_available from s.world == 0
      then s
      else (let (t, w1) = n.now s.world in
          let (bytes, w2) = n.read from (n.bytes_available from w1) w1 in
          let w3 = n.write to bytes w2 in
          report_data_received proxy
            (record make_data_info {
              timestamp = t;
              bytes = bytes;
              extra_properties =
                  insert "tcp.to" (Variant.text (n.peer_name to w3))
                    (insert "tcp.from" (Variant.text (n.peer_name from w3)) []);
            })
            (record s { world = w3 }))

  unfoldable pub new_connection : State W → State W
  new_connection s =
      let (client, w1) = n.next_pending_connection s.world in
      let (connection, w2) = n.new_socket w1 in
      let x = s.derived in
      let host = if str_eq x.remote_host "" then n.local_host else x.remote_host in
      record s {
        world = n.connect_to_host connection host x.remote_port w2;
        derived = record x { remote_host = host; sockets = x.sockets ++ (client, connection) ∷ [] };
      }

  unfoldable pub client_connection_terminated : ℕ → State W → State W
  client_connection_terminated c s = elim (find_by_client c s.derived.sockets) [
    | none ↦ s
    | some (a, b) ↦ set_sockets (erase_client c s.derived.sockets) (record s {
      world = n.release c (n.release b (n.flush b (n.block_signals b (n.block_signals c s.world))));
    })
  ]

  unfoldable pub read_from_client : ℕ → State W → Option (State W)
  read_from_client c s = elim (find_by_client c s.derived.sockets) [
    | none ↦ none
    | some (a, b) ↦ some (perform_read_write c b s)
  ]

  unfoldable pub read_from_connection : ℕ → State W → Option (State W)
  read_from_connection c s = elim (find_by_connection c s.derived.sockets) [
    | none ↦ none
    | some (a, b) ↦ some (perform_read_write c a s)
  ]

  -- An error of a QTcpSocket.
  unfoldable pub socket_error_occurred : Bool → ℕ → State W → State W
  socket_error_occurred remote_closed c s =
      if remote_closed then s else report_error (n.error_string c s.world) s

  unfoldable pub accept_error_occurred : State W → State W
  accept_error_occurred s =
      let s1 = report_error (n.server_error s.world) s in
      if not (n.is_listening s1.world) then report_disconnected s1 else s1

  unfoldable pub connection_connected : ℕ → State W → Option (State W)
  connection_connected c s = elim (find_by_connection c s.derived.sockets) [
    | none ↦ none
    | some (a, b) ↦
        let s1 = record s { world = n.connect_ready_read a s.world } in
        some (if n.bytes_available a s1.world == 0 then s1 else perform_read_write a b s1)
  ]

  unfoldable pub connection_disconnected : ℕ → State W → State W
  connection_disconnected c s = elim (find_by_connection c s.derived.sockets) [
    | none ↦ s
    | some (a, b) ↦ set_sockets (erase_connection c s.derived.sockets) (record s {
      world = n.release b (n.flush b (n.release a (n.flush a (n.block_signals a s.world))));
    })
  ]

  abbrev hang_up : ℕ → W → W
  hang_up c w = if n.is_connected c w then n.disconnect_from_host c (n.flush c w) else w

  -- removeConnection, for the sockets of a pair that is no longer in the list.
  unfoldable pub remove_connection : ℕ → ℕ → W → W
  remove_connection a b w =
      n.release b (hang_up b (n.release a (hang_up a (n.block_signals b (n.block_signals a w)))))

  -- The loop of the destructor.
  unfoldable pub remove_all : List (ℕ × ℕ) → W → W
  remove_all [] w = w
  remove_all ((a, b) ∷ ps) w = remove_all ps (remove_connection a b w)
