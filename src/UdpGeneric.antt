-- ===== src/UdpGeneric.antt =====
-- The UDP socket: plugin/udp_socket/generic/UdpGenericSocket.cpp and UdpGenericSocket.h. Its Qt socket is
-- a number. A warning and the report of an error on the console are left out. Asserts are those of a
-- release build.
pub mod Sending
use Prim.Native.String.{String}
use cc_tools_qt.Base.{
  ℕ, zero, suc, Bool, true, false, not, ◌||◌, ◌&&◌, List, [], ◌∷◌, Option, none, some, Dict, insert,
  str_eq, str_append, ◌==◌, if◌then◌else◌,
}
use cc_tools_qt.Message.{Variant, DataInfo, make_data_info, get_from}
use cc_tools_qt.Socket.{
  Socket, report_error, report_disconnected, report_data_received, default_impl, Impl,
}
use cc_tools_qt.TcpProxy.{setting, to_port}
use cc_tools_qt.Udp.{Datagram, UdpNet, write_block}

pub record UdpGeneric : Type 0 where
  pub socket : ℕ
  pub host : String
  pub port : ℕ
  pub local_port : ℕ
  pub broadcast_mask : String
  -- 0 as long as it is not known.
  pub default_ttl : ℕ
  pub running : Bool
  -- How often `sigConfigChanged` was emitted.
  pub config_changes : ℕ

abbrev pub State : Type 0 → Type 0
State W = Socket UdpGeneric W

module _ {W : Type 0} (n : UdpNet W) where
  unfoldable pub bind_socket : State W → Bool × W
  bind_socket s =
      let k = s.derived.socket in
      let (bound, w1) = n.bind k s.derived.local_port s.world in
      let (opened, w2) = n.open_socket k w1 in if not bound then (false, w1) else (opened, w2)

  -- The three blocks of `socketConnectImpl` that follow its checks.
  unfoldable pub bind_if_set : State W → State W
  bind_if_set s =
      let (bound, w) = bind_socket s in
      if s.derived.local_port == 0
      then s
      else if bound
      then record s { world = w }
      else report_error
          (str_append "Failed to bind UDP socket to port " (n.text_of s.derived.local_port))
          (record s { world = w })

  unfoldable pub connect_if_set : State W → State W
  connect_if_set s =
      let x = s.derived in
      let (ok, w) = n.connect_to_host x.socket x.host x.port s.world in
      if str_eq x.host ""
      then s
      else if ok
      then record s { world = w }
      else report_error
          (str_append "Failed to connect UDP socket to "
            (str_append x.host (str_append ":" (n.text_of x.port))))
          (record s { world = w })

  unfoldable pub know_ttl : State W → State W
  know_ttl s =
      let x = s.derived in
      if not (x.default_ttl == 0) then s else record s {
        derived = record x { default_ttl = get_from (n.ttl_option x.socket s.world) 64 };
      }

  unfoldable pub socket_connect_impl : State W → Bool × State W
  socket_connect_impl s =
      let x = s.derived in
      if not (str_eq x.host "") && x.port == 0
      then (false, report_error "Remote port must be greater than 0." s)
      else if str_eq x.host "" && x.local_port == 0
      then (false, report_error "If no remote host specified, provide a local port information." s)
      else (
        true,
        know_ttl
            (connect_if_set (bind_if_set (record s { derived = record x { running = true } }))),
      )

  unfoldable pub socket_disconnect_impl : State W → State W
  socket_disconnect_impl s =
      let k = s.derived.socket in
      record s {
        world = n.block_signals k false (n.close k (n.block_signals k true s.world));
        derived = record s.derived { running = false };
      }

  -- Whether a block is sent to all.
  unfoldable pub broadcasts : DataInfo → State W → Bool
  broadcasts d s =
      get_from
        (setting n.as_bool ("network.broadcast" ∷ "udp.broadcast" ∷ []) d.extra_properties none)
        false
      && n.is_open s.derived.socket s.world
      && not (s.derived.port == 0)

  unfoldable pub use_ttl : ℕ → State W → W
  use_ttl ttl s = if ttl == 0 then s.world else n.set_ttl_option s.derived.socket ttl s.world

  unfoldable pub send_broadcast : DataInfo → State W → DataInfo × W
  send_broadcast d s =
      let x = s.derived in
      let mask =
        get_from
          (setting n.as_text ("network.broadcast_mask" ∷ "udp.broadcast_mask" ∷ [])
            d.extra_properties none)
          x.broadcast_mask in
      let ttl =
        get_from
          (setting n.as_int
            ("network.broadcast_radius" ∷ "network.broadcast_ttl" ∷ "udp.broadcast_radius"
              ∷ "udp.broadcast_ttl" ∷ [])
            d.extra_properties none)
          x.default_ttl in
      write_block (n.write_datagram x.socket mask x.port) (λ w. n.name_of n.broadcast_host x.port) d
        (use_ttl ttl s)

  unfoldable pub send_to_peer : DataInfo → State W → DataInfo × W
  send_to_peer d s =
      let k = s.derived.socket in
      if not (n.is_open k s.world)
      then (d, s.world)
      else write_block (n.write k) (n.peer_name k) d (use_ttl s.derived.default_ttl s)

  unfoldable pub send_data_impl : DataInfo → State W → DataInfo × State W
  send_data_impl d s =
      let from = Variant.text (n.local_name s.derived.socket s.world) in
      let d1 = record d { extra_properties = insert "udp.from" from d.extra_properties } in
      let (e, w) = if broadcasts d1 s then send_broadcast d1 s else send_to_peer d1 s in
      (e, record s { world = w })

  -- The properties of the local port set the remote port too, as in the code.
  unfoldable pub apply_config_impl : Dict Variant → State W → State W
  apply_config_impl props s =
      let host = setting n.as_text ("network.host" ∷ "udp.host" ∷ []) props none in
      let port =
        setting n.as_int
          ("network.port" ∷ "udp.port" ∷ "network.local_port" ∷ "udp.local_port" ∷ []) props none in
      let mask =
        setting n.as_text ("network.broadcast_mask" ∷ "udp.broadcast_mask" ∷ []) props none in
      let x = s.derived in
      record s {
        derived = record x {
          host = get_from host x.host;
          port = elim port [ none ↦ x.port | some v ↦ to_port v ];
          broadcast_mask = get_from mask x.broadcast_mask;
          config_changes = elim host [
            | some h ↦ suc x.config_changes
            | none ↦ elim port [
              | some v ↦ suc x.config_changes
              | none ↦ elim mask [ some m ↦ suc x.config_changes | none ↦ x.config_changes ]
            ]
          ];
        };
      }

  abbrev pub generic : Impl UdpGeneric W
  generic = record (default_impl n.now send_data_impl) {
    socket_connect_impl = socket_connect_impl;
    socket_disconnect_impl = socket_disconnect_impl;
    apply_config_impl = apply_config_impl;
  }

  unfoldable pub socket_disconnected : State W → State W
  socket_disconnected s = report_disconnected s

  -- After a first datagram the socket connects to its sender.
  unfoldable pub answer_first : Datagram → State W → State W
  answer_first g s =
      let k = s.derived.socket in
      if n.is_connected k s.world
      then s
      else record s { world = (n.connect_to_host k g.sender g.port s.world).1 }

  -- The body of the loop of `readFromSocket`.
  unfoldable pub read_one : State W → State W
  read_one s =
      let k = s.derived.socket in
      let (t, w1) = n.now s.world in
      let (g, w2) = n.read_datagram k w1 in
      answer_first g (
        report_data_received generic
          (record make_data_info {
            timestamp = t;
            bytes = g.bytes;
            extra_properties =
                insert "udp.to" (Variant.text (n.local_name k w2))
                  (insert "udp.from" (Variant.text (n.name_of g.sender g.port)) []);
          })
          (record s { world = w2 }))

  unfoldable pub read_from_socket : ℕ → State W → State W
  read_from_socket zero s = s
  read_from_socket (suc fuel) s = elim (n.has_pending_datagrams s.derived.socket s.world) [
    | true ↦ read_from_socket fuel (read_one s)
    | false ↦ s
  ]
