-- ===== src/Socket.antt =====
-- The base class of the socket plugins: lib/src/ToolsSocket.cpp and
-- lib/include/cc_tools_qt/ToolsSocket.h. A derived class is a record of its virtual functions, which
-- act on the whole object: they may report signals by the protected functions. The signals are a list
-- of events. Debug output, and the debug level with it, is left out.
pub mod Announcing
pub mod Echo
use Prim.Native.String.{String}
use cc_tools_qt.Base.{ℕ, Bool, true, false, List, [], ◌∷◌, ◌++◌, Dict, ◌==◌, if◌then◌else◌}
use cc_tools_qt.Message.{Variant, DataInfo, default_timestamp}

-- `sigConnectionStatusReport`, `sigDataReceivedReport`, `sigErrorReport`, `sigInterPluginConfigReport`.
pub data Signal : Type 0 where
  connection_status : Bool → Signal
  data_received : DataInfo → Signal
  error_report : String → Signal
  inter_plugin_config : Dict Variant → Signal

-- `D` is the state of the derived class, `W` that of the world outside.
pub record Socket (D W : Type 0) : Type 0 where
  pub running : Bool
  pub connected : Bool
  pub derived : D
  pub world : W
  pub signals : List Signal

-- The virtual functions, with `TimestampClock::now()`.
pub record Impl (D W : Type 0) : Type 0 where
  pub now : W → ℕ × W
  pub start_impl : Socket D W → Bool × Socket D W
  pub stop_impl : Socket D W → Socket D W
  pub socket_connect_impl : Socket D W → Bool × Socket D W
  pub socket_disconnect_impl : Socket D W → Socket D W
  -- The block is shared with the caller, so what the function makes of it is handed back.
  pub send_data_impl : DataInfo → Socket D W → DataInfo × Socket D W
  pub apply_config_impl : Dict Variant → Socket D W → Socket D W

module _ {D W : Type 0} where
  unfoldable pub signal : Signal → Socket D W → Socket D W
  signal e s = record s { signals = s.signals ++ e ∷ [] }

  unfoldable pub report_error : String → Socket D W → Socket D W
  report_error msg s = if s.running then signal (error_report msg) s else s

  unfoldable pub report_disconnected : Socket D W → Socket D W
  report_disconnected s = signal (connection_status false) (record s { connected = false })

  unfoldable pub report_config : Dict Variant → Socket D W → Socket D W
  report_config props s = signal (inter_plugin_config props) s

-- `startImpl`, `stopImpl`, `socketConnectImpl`, `socketDisconnectImpl` and
-- `applyInterPluginConfigImpl` where a derived class leaves them as they are.
abbrev pub default_impl :
    {D W : Type 0} → (W → ℕ × W) → (DataInfo → Socket D W → DataInfo × Socket D W) → Impl D W
default_impl now send = record {
  now = now;
  start_impl = λ s. (true, s);
  stop_impl = λ s. s;
  socket_connect_impl = λ s. (true, s);
  socket_disconnect_impl = λ s. s;
  send_data_impl = send;
  apply_config_impl = λ props s. s;
}

module _ {D W : Type 0} (i : Impl D W) where
  -- A block without a timestamp gets the current time.
  unfoldable pub stamp : DataInfo → Socket D W → DataInfo × Socket D W
  stamp d s =
      if d.timestamp == default_timestamp
      then (record d { timestamp = (i.now s.world).0 }, record s { world = (i.now s.world).1 })
      else (d, s)

  unfoldable pub start : Socket D W → Bool × Socket D W
  start s = let (ok, s1) = i.start_impl s in (ok, record s1 { running = ok })

  unfoldable pub socket_connect : Socket D W → Bool × Socket D W
  socket_connect s =
      let (ok, s1) = i.socket_connect_impl s in
      (ok, signal (connection_status ok) (record s1 { connected = ok }))

  unfoldable pub socket_disconnect : Socket D W → Socket D W
  socket_disconnect s =
      signal (connection_status false) (record (i.socket_disconnect_impl s) { connected = false })

  unfoldable pub stop : Socket D W → Socket D W
  stop s =
      let s1 = if s.connected then report_disconnected (socket_disconnect s) else s in
      i.stop_impl (record s1 { running = false })

  unfoldable pub send_data : DataInfo → Socket D W → DataInfo × Socket D W
  send_data d s = let (d1, s1) = stamp d s in if s.connected then i.send_data_impl d1 s1 else (d, s)

  unfoldable pub apply_config : Dict Variant → Socket D W → Socket D W
  apply_config props s = i.apply_config_impl props s

  unfoldable pub report_data_received : DataInfo → Socket D W → Socket D W
  report_data_received d s =
      let (d1, s1) = stamp d s in if s.running then signal (data_received d1) s1 else s
