-- ===== src/Tests/Proxies.antt =====
-- The theorems on the TCP proxy at concrete inputs, over a network that records what is written.
use cc_tools_qt.Base.{
  ℕ, ◌+◌, ◌≡◌, refl, true, List, [], ◌∷◌, ◌++◌, none, some, value, ◌==◌, if◌then◌else◌,
}
use cc_tools_qt.TcpProxy
use cc_tools_qt.TcpProxy.{Net, State}
use cc_tools_qt.TcpProxy.Pairs.{write_each, send_data_impl-pairs}
use cc_tools_qt.Message.{DataInfo, Variant}
use cc_tools_qt.TcpServer
use cc_tools_qt.TcpServer.{send_data_impl, connection_terminated}
use cc_tools_qt.TcpServer.Broadcast.{send_after_termination}

record World : Type 0 where
  next_socket : ℕ
  written : List (ℕ × List ℕ)

abbrev quiet : Net World
quiet = record {
  now = λ w. (1, w);
  is_listening = λ w. true;
  listen = λ p w. (true, w);
  close = λ w. w;
  server_name = λ w. "0.0.0.0:20000";
  server_error = λ w. "error";
  local_host = "127.0.0.1";
  next_pending_connection = λ w. (w.next_socket, record w { next_socket = w.next_socket + 1 });
  new_socket = λ w. (w.next_socket, record w { next_socket = w.next_socket + 1 });
  connect_to_host = λ c h p w. w;
  bytes_available = λ c w. 0;
  read = λ c k w. ([], w);
  write = λ c bs w. record w { written = w.written ++ (c, bs) ∷ [] };
  flush = λ c w. w;
  peer_name = λ c w. if c == 1 then "10.0.0.1:5" else "10.0.0.2:6";
  error_string = λ c w. "error";
  is_connected = λ c w. true;
  disconnect_from_host = λ c w. w;
  block_signals = λ c w. w;
  connect_ready_read = λ c w. w;
  release = λ c w. w;
  as_text = λ v. none;
  as_int = λ v. none;
}

abbrev one_pair : State World
one_pair = record {
  running = true;
  connected = true;
  derived = record {
    port = 20000;
    remote_host = "";
    remote_port = 20001;
    sockets = (1, 2) ∷ [];
    config_changes = 0;
  };
  world = record { next_socket = 3; written = [] };
  signals = [];
}

abbrev seven : DataInfo
seven = record { timestamp = 1; bytes = 7 ∷ []; extra_properties = [] }

send_data_impl-pairs_example :
    let (e, t) = TcpProxy.send_data_impl quiet seven one_pair in
    (t ≡ record one_pair { world = write_each quiet (7 ∷ []) (1 ∷ 2 ∷ []) one_pair.world })
    × (e.bytes ≡ 7 ∷ [])
    × (e.timestamp ≡ 1)
    × (value "tcp.to" e.extra_properties ≡ some (Variant.texts ("10.0.0.1:5" ∷ "10.0.0.2:6" ∷ [])))
    × (value "tcp.from" e.extra_properties ≡ some (Variant.text (quiet.server_name t.world)))
send_data_impl-pairs_example = send_data_impl-pairs quiet seven one_pair (λ c d bs v. refl)

-- Three clients of a TCP server.
abbrev three_clients : TcpServer.State World
three_clients = record {
  running = true;
  connected = true;
  derived = record { port = 20000; sockets = 1 ∷ 2 ∷ 3 ∷ []; config_changes = 0 };
  world = record { next_socket = 4; written = [] };
  signals = [];
}

send_after_termination_example :
    let (sent, t) = send_data_impl quiet seven (connection_terminated quiet 2 three_clients) in
    (t.world ≡ write_each quiet (7 ∷ []) (1 ∷ 3 ∷ []) three_clients.world)
    × (value "tcp.to" sent.extra_properties
        ≡ some (Variant.texts ("10.0.0.1:5" ∷ "10.0.0.2:6" ∷ [])))
send_after_termination_example =
    send_after_termination quiet 2 seven three_clients ((refl, (refl, tt)), ((refl, tt), (tt, tt)))
      (λ c d bs v. refl)
