-- ===== src/Socket/Announcing.antt =====
-- The connection status that a socket has announced by its signals is its own
-- (lib/src/ToolsSocket.cpp).
use Prim.Native.String.{String}
use cc_tools_qt.Base.{Bool, false, List, [], ◌∷◌, ◌++◌, ◌≡◌, refl, ◌∙◌, if_keeps, ◌==◌, Dict}
use cc_tools_qt.Message.{Variant, DataInfo, default_timestamp}
use cc_tools_qt.Socket.{
  Signal, connection_status, data_received, error_report, inter_plugin_config, Socket, Impl, signal,
  report_error, report_disconnected, report_config, stamp, start, socket_connect, socket_disconnect,
  stop, send_data, apply_config, report_data_received,
}

-- The last status among the signals, `b` before any.
abbrev pub last_status : Bool → List Signal → Bool
last_status b [] = b
last_status b (connection_status c ∷ es) = last_status c es
last_status b (data_received d ∷ es) = last_status b es
last_status b (error_report m ∷ es) = last_status b es
last_status b (inter_plugin_config x ∷ es) = last_status b es

abbrev pub Announced : {D W : Type 0} → Socket D W → Type 0
Announced s = last_status false s.signals ≡ s.connected

-- A derived class changes the connection status only by the functions of the base class.
pub record KeepsStatus {D W : Type 0} (i : Impl D W) : Type 0 where
  pub starting : (s : Socket D W) → Announced s → Announced (i.start_impl s).1
  pub stopping : (s : Socket D W) → Announced s → Announced (i.stop_impl s)
  pub sending : (d : DataInfo) (s : Socket D W) → Announced s → Announced (i.send_data_impl d s).1
  pub configuring :
      (x : Dict Variant) (s : Socket D W) → Announced s → Announced (i.apply_config_impl x s)

-- The calls that users of a socket make, and the reports of the derived class between them.
pub data Call : Type 0 where
  starts : Call
  stops : Call
  connects : Call
  disconnects : Call
  sends : DataInfo → Call
  configures : Dict Variant → Call
  receives : DataInfo → Call
  fails : String → Call
  loses_connection : Call
  publishes : Dict Variant → Call

module _ {D W : Type 0} (i : Impl D W) where
  unfoldable pub call : Call → Socket D W → Socket D W
  call starts s = (start i s).1
  call stops s = stop i s
  call connects s = (socket_connect i s).1
  call disconnects s = socket_disconnect i s
  call (sends d) s = (send_data i d s).1
  call (configures x) s = apply_config i x s
  call (receives d) s = report_data_received i d s
  call (fails m) s = report_error m s
  call loses_connection s = report_disconnected s
  call (publishes x) s = report_config x s

  unfoldable pub call_all : List Call → Socket D W → Socket D W
  call_all [] s = s
  call_all (c ∷ cs) s = call_all cs (call c s)

last_status-append :
    (b : Bool) (es fs : List Signal) → last_status b (es ++ fs) ≡ last_status (last_status b es) fs
last_status-append b [] fs = refl
last_status-append b (connection_status c ∷ es) fs = last_status-append c es fs
last_status-append b (data_received d ∷ es) fs = last_status-append b es fs
last_status-append b (error_report m ∷ es) fs = last_status-append b es fs
last_status-append b (inter_plugin_config x ∷ es) fs = last_status-append b es fs

module _ {D W : Type 0} (i : Impl D W) (k : KeepsStatus i) where
  stamp-Announced : (d : DataInfo) (s : Socket D W) → Announced s → Announced (stamp i d s).1
  unfolding stamp
  stamp-Announced d s a =
      if_keeps (λ (x : DataInfo × Socket D W). Announced x.1) (d.timestamp == default_timestamp) _
        (d, s) a a

  report_disconnected-Announced : (s : Socket D W) → Announced (report_disconnected s)
  unfolding report_disconnected signal
  report_disconnected-Announced s =
      last_status-append false s.signals (connection_status false ∷ [])

  call-Announced : (c : Call) (s : Socket D W) → Announced s → Announced (call i c s)
  unfolding call start stop socket_connect socket_disconnect send_data apply_config
      report_data_received report_error report_config signal
  call-Announced starts s a = k.starting s a
  call-Announced stops s a = k.stopping _ (
      if_keeps Announced s.connected (report_disconnected (socket_disconnect i s)) s
        (report_disconnected-Announced (socket_disconnect i s)) a)
  call-Announced connects s a = last_status-append false (i.socket_connect_impl s).1.signals _
  call-Announced disconnects s a = last_status-append false (i.socket_disconnect_impl s).signals _
  call-Announced (sends d) s a =
      if_keeps (λ (x : DataInfo × Socket D W). Announced x.1) s.connected
        (i.send_data_impl (stamp i d s).0 (stamp i d s).1) (d, s)
        (k.sending (stamp i d s).0 (stamp i d s).1 (stamp-Announced d s a)) a
  call-Announced (configures x) s a = k.configuring x s a
  call-Announced (receives d) s a =
      if_keeps Announced s.running _ s
        (last_status-append false (stamp i d s).1.signals _ ∙ stamp-Announced d s a) a
  call-Announced (fails m) s a =
      if_keeps Announced s.running _ s (last_status-append false s.signals _ ∙ a) a
  call-Announced loses_connection s a = report_disconnected-Announced s
  call-Announced (publishes x) s a = last_status-append false s.signals _ ∙ a

  -- However a socket is used, the last connection status that it has signalled is the status that
  -- it has, disconnected before any signal, provided the derived class changes the status only by the
  -- functions of the base class.
  pub call_all-Announced :
      (cs : List Call) (s : Socket D W) → Announced s → Announced (call_all i cs s)
  unfolding call_all
  call_all-Announced [] s a = a
  call_all-Announced (c ∷ cs) s a = call_all-Announced cs (call i c s) (call-Announced c s a)
