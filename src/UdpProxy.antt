-- ===== src/UdpProxy.antt =====
-- The UDP proxy socket: plugin/udp_socket/proxy/UdpProxySocket.cpp and UdpProxySocket.h. The two Qt
-- sockets are numbers. `none` as the result of a slot is the use of a null pointer. Asserts are those
-- of a release build.
pub mod Queues
pub mod Relay
use Prim.Native.String.{String}
use cc_tools_qt.Base.{
  ℕ, zero, suc, Bool, true, false, not, List, [], ◌∷◌, Option, none, some, Dict, insert, str_eq,
  str_append, ◌==◌, if◌then◌else◌,
}
use cc_tools_qt.Message.{Variant, DataInfo, make_data_info}
use cc_tools_qt.Socket.{
  Socket, report_error, report_disconnected, report_data_received, default_impl, Impl,
}
use cc_tools_qt.TcpProxy.{setting, to_port}
use cc_tools_qt.Udp.{Datagram, UdpNet, write_block}

pub record UdpProxy : Type 0 where
  pub host : String
  pub port : ℕ
  pub local_port : ℕ
  pub listen_socket : Option ℕ
  pub remote_socket : Option ℕ
  pub running : Bool
  -- How often `sigConfigChanged` was emitted.
  pub config_changes : ℕ

abbrev pub State : Type 0 → Type 0
State W = Socket UdpProxy W

module _ {W : Type 0} where
  abbrev pub with_listen : Option ℕ → State W → State W
  with_listen l s = record s { derived = record s.derived { listen_socket = l } }

  abbrev pub with_remote : Option ℕ → State W → State W
  with_remote r s = record s { derived = record s.derived { remote_socket = r } }

  abbrev pub on_world : (W → W) → State W → State W
  on_world f s = record s { world = f s.world }

  -- A call through a pointer that is tested first.
  abbrev pub if_set : (ℕ → W → W) → Option ℕ → W → W
  if_set f none w = w
  if_set f (some k) w = f k w

module _ {W : Type 0} (n : UdpNet W) where
  abbrev block : ℕ → W → W
  block k w = n.block_signals k true w

  -- A null pointer in place of the socket that could not be made is left to `socket_connect_impl`.
  unfoldable pub create_listen_socket : State W → Bool × State W
  create_listen_socket s =
      let (l, w1) = n.new_socket s.world in
      let (bound, w2) = n.bind l s.derived.local_port w1 in
      let (opened, w3) = n.open_socket l w2 in
      let port = n.text_of s.derived.local_port in
      if not bound
      then (
        false,
        report_error (str_append "Failed to bind UDP socket to port " port)
            (record (with_listen (some l) s) { world = w2 }),
      )
      else if not opened
      then (
        false,
        report_error (str_append "Failed to open local UDP listening on port " port)
            (record (with_listen (some l) s) { world = w3 }),
      )
      else (true, record (with_listen (some l) s) { world = w3 })

  -- `m_listenSocket.reset()`.
  unfoldable pub reset_listen_socket : State W → State W
  reset_listen_socket s = with_listen none (on_world (if_set n.release s.derived.listen_socket) s)

  unfoldable pub reset_remote_socket : State W → State W
  reset_remote_socket s = with_remote none (on_world (if_set n.release s.derived.remote_socket) s)

  unfoldable pub socket_connect_impl : State W → Bool × State W
  socket_connect_impl s =
      let (created, s1) = create_listen_socket s in
      if str_eq s.derived.host ""
      then (false, report_error "Remote host is not configured." s)
      else if s.derived.port == 0
      then (false, report_error "Remote port must be greater than 0." s)
      else if s.derived.local_port == 0
      then (false, report_error "Local port must be greater than 0." s)
      else if not created
      then (false, reset_listen_socket s1)
      else (true, record s1 { derived = record s1.derived { running = true } })

  unfoldable pub socket_disconnect_impl : State W → State W
  socket_disconnect_impl s =
      let s1 =
        on_world
          (λ w. if_set block s.derived.remote_socket (if_set block s.derived.listen_socket w)) s in
      let s2 = reset_remote_socket (reset_listen_socket s1) in
      record s2 { derived = record s2.derived { running = false } }

  -- While it runs and is connected there is a listening socket.
  unfoldable pub send_data_impl : DataInfo → State W → DataInfo × State W
  send_data_impl d s = elim s.derived.listen_socket [
    | none ↦ (d, s)
    | some l ↦
        let from = Variant.text (n.local_name l s.world) in
        let d1 = record d { extra_properties = insert "udp.from" from d.extra_properties } in
        if not s.derived.running
        then (d, s)
        else if not (n.is_open l s.world)
        then (d1, s)
        else (let (e, w) = write_block (n.write l) (n.peer_name l) d1 s.world in
            (e, record s { world = w }))
  ]

  unfoldable pub apply_config_impl : Dict Variant → State W → State W
  apply_config_impl props s =
      let host = setting n.as_text ("network.host" ∷ "udp.host" ∷ []) props none in
      let port = setting n.as_int ("network.port" ∷ "udp.port" ∷ []) props none in
      let own = setting n.as_int ("network.local_port" ∷ "udp.local_port" ∷ []) props none in
      let x = s.derived in
      record s {
        derived = record x {
          host = elim host [ none ↦ x.host | some h ↦ h ];
          port = elim port [ none ↦ x.port | some v ↦ to_port v ];
          local_port = elim own [ none ↦ x.local_port | some v ↦ to_port v ];
          config_changes = elim host [
            | some h ↦ suc x.config_changes
            | none ↦ elim port [
              | some v ↦ suc x.config_changes
              | none ↦ elim own [ some v ↦ suc x.config_changes | none ↦ x.config_changes ]
            ]
          ];
        };
      }

  abbrev pub proxy : Impl UdpProxy W
  proxy = record (default_impl n.now send_data_impl) {
    socket_connect_impl = socket_connect_impl;
    socket_disconnect_impl = socket_disconnect_impl;
    apply_config_impl = apply_config_impl;
  }

  unfoldable pub create_remote_socket_if_needed : State W → State W
  create_remote_socket_if_needed s = elim s.derived.remote_socket [
    | some r ↦ s
    | none ↦
        let (r, w1) = n.new_socket s.world in
        let x = s.derived in
        let (ok, w2) = n.connect_to_host r x.host x.port w1 in
        let s1 = with_remote (some r) (record s { world = w2 }) in
        if ok
        then s1
        else reset_remote_socket (
            report_error
              (str_append "Failed to connect to remote "
                (str_append x.host (str_append ":" (n.text_of x.port))))
              s1)
  ]

  -- The block that is reported for a datagram, sent on to the other side, if there is one.
  unfoldable pub relay : Datagram → ℕ → ℕ → Option ℕ → State W → State W
  relay g t from other s =
      let w = if_set (λ k w. (n.write k g.bytes w).1) other s.world in
      let to : String = elim other [
        | none ↦ n.local_name from s.world
        | some k ↦ n.peer_name k w
      ] in
      report_data_received proxy
        (record make_data_info {
          timestamp = t;
          bytes = g.bytes;
          extra_properties =
              insert "udp.to" (Variant.text to)
                (insert "udp.from" (Variant.text (n.name_of g.sender g.port)) []);
        })
        (record s { world = w })

  -- The listening socket connects to the sender of the first datagram; a warning is left out.
  unfoldable pub answer : ℕ → Datagram → State W → State W
  answer l g s =
      if n.is_connected l s.world
      then s
      else on_world (λ w. (n.connect_to_host l g.sender g.port w).1) s

  -- The body of the loop of `readFromListenSocket`.
  unfoldable pub read_listen_one : ℕ → State W → State W
  read_listen_one l s =
      let (t, w1) = n.now s.world in
      let (g, w2) = n.read_datagram l w1 in
      let s1 = record s { world = w2 } in
      if not s.derived.running then s1 else relay g t l s.derived.remote_socket (answer l g s1)

  -- The body of the loop of `readFromRemoteSocket`.
  unfoldable pub read_remote_one : ℕ → State W → State W
  read_remote_one r s =
      let (t, w1) = n.now s.world in
      let (g, w2) = n.read_datagram r w1 in
      let s1 = record s { world = w2 } in
      if not s.derived.running then s1 else relay g t r s.derived.listen_socket s1

  -- The two loops while datagrams are pending.
  unfoldable pub read_pending : (State W → State W) → ℕ → ℕ → State W → State W
  read_pending body k zero s = s
  read_pending body k (suc fuel) s = elim (n.has_pending_datagrams k s.world) [
    | true ↦ read_pending body k fuel (body s)
    | false ↦ s
  ]

  unfoldable pub read_from_listen_socket : ℕ → State W → Option (State W)
  read_from_listen_socket fuel s =
      let s1 = create_remote_socket_if_needed s in
      elim s1.derived.listen_socket [
        | none ↦ none
        | some l ↦ some (read_pending (read_listen_one l) l fuel s1)
      ]

  unfoldable pub read_from_remote_socket : ℕ → State W → Option (State W)
  read_from_remote_socket fuel s = elim s.derived.remote_socket [
    | none ↦ none
    | some r ↦ some (read_pending (read_remote_one r) r fuel s)
  ]

  unfoldable pub listen_socket_disconnected : State W → Option (State W)
  listen_socket_disconnected s =
      let s1 = report_disconnected s in
      let s2 = reset_remote_socket (on_world (if_set block s1.derived.remote_socket) s1) in
      elim s2.derived.listen_socket [
        | none ↦ none
        | some l ↦ some (with_listen none (on_world (λ w. n.release l (block l w)) s2))
      ]

  -- The signals of the listening socket are not blocked, but those of the other one twice.
  unfoldable pub remote_socket_disconnected : State W → Option (State W)
  remote_socket_disconnected s =
      let s1 = report_disconnected s in
      elim s1.derived.remote_socket [
        | none ↦ none
        | some r ↦
            let s2 = on_world (λ w. if_set (λ l w. block r w) s1.derived.listen_socket w) s1 in
            let s3 = reset_listen_socket s2 in
            some (with_remote none (on_world (λ w. n.release r (block r w)) s3))
      ]

  unfoldable pub listen_socket_error_occurred : State W → Option (State W)
  listen_socket_error_occurred s = elim s.derived.listen_socket [
    | none ↦ none
    | some l ↦ some (report_error (str_append "Listen socket error: " (n.error_string l s.world)) s)
  ]

  unfoldable pub remote_socket_error_occurred : State W → Option (State W)
  remote_socket_error_occurred s = elim s.derived.remote_socket [
    | none ↦ none
    | some r ↦
        some (
          report_error (str_append "Remote connection socket error: " (n.error_string r s.world)) s)
  ]
