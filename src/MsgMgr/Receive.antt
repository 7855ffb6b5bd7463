-- ===== src/MsgMgr/Receive.antt =====
-- What reaches the message manager through signals, and addMsgs (lib/src/ToolsMsgMgrImpl.cpp).
pub mod Numbering
pub mod Listing
pub mod Contents
pub mod Adding
pub mod Injecting
use Prim.Native.String.{String}
use cc_tools_qt.Base.{
  ℕ, suc, ◌+◌, ◌-◌, Bool, true, false, not, ◌||◌, List, [], ◌∷◌, ◌++◌, reverse, Option, none, some,
  ◌==◌, if◌then◌else◌, length, drop,
}
use cc_tools_qt.Message.{
  Message, DataInfo, type_received, type_invalid, default_timestamp, get_from,
}
use cc_tools_qt.Plugins.{Plugins}
use cc_tools_qt.MsgMgr.Chain.{chain}
use cc_tools_qt.MsgMgr.Control.{each_filter}
use cc_tools_qt.MsgMgr.Send.{send_msgs}
use cc_tools_qt.MsgMgr.Fields.{
  State, put, modify, stamp_now, update_internal_id, report_msg_added, report_error,
  report_socket_connection_status,
}

-- Is the object behind a smart pointer the given one?
abbrev pub points_to : Option ℕ → ℕ → Bool
points_to none sender = false
points_to (some a) sender = a == sender

-- The position of the first filter that is the sender; `none` for `end()`.
pub index_of : ℕ → List ℕ → Option ℕ
index_of sender [] = none
index_of sender (f ∷ fs) =
    if f == sender
    then some 0
    else elim (index_of sender fs) [ none ↦ none | some i ↦ some (suc i) ]

module _ {W : Type 0} (p : Plugins W) where
  -- The loop that reads every block that came through the filters.
  unfoldable pub read_all : ℕ → List DataInfo → W → List Message × W
  read_all r [] w = ([], w)
  read_all r (d ∷ ds) w =
      let (msgs, w1) = p.protocol_read r d w in
      let (more, w2) = read_all r ds w1 in (msgs ++ more, w2)

  -- `t` is the timestamp of the data that came from the socket.
  unfoldable pub stamp_received : ℕ → ℕ → State W → State W
  stamp_received t h s =
      if t == default_timestamp
      then stamp_now p h s
      else modify h (λ m. record m { timestamp = some (p.to_ms t) }) s

  unfoldable pub report_received : ℕ → ℕ → State W → State W
  report_received r h s =
      let (m, w) = p.protocol_received_report r (s.objects h) s.world in
      record s { objects = put h m s.objects; world = w }

  -- A message that `read` returned is an object of its own: it gets the next free address.
  unfoldable pub receive_one : ℕ → ℕ → Message → State W → State W
  receive_one r t m s =
      let h = s.next_object in
      let s1 = record s { objects = put h m s.objects; next_object = suc h } in
      let s2 =
        modify h (λ m. record m { msg_type = some type_received }) (update_internal_id h s1) in
      report_msg_added h (report_received r h (stamp_received t h s2))

  -- The loop over `msgsList`, with the list as it is when the loop ends.
  unfoldable pub receive_each : ℕ → ℕ → List Message → State W → List ℕ × State W
  receive_each r t [] s = ([], s)
  receive_each r t (m ∷ ms) s =
      let (hs, s') = receive_each r t ms (receive_one r t m s) in (s.next_object ∷ hs, s')

  unfoldable pub receive_data : ℕ → DataInfo → State W → State W
  receive_data r d s =
      let (ds, w1) = chain p.filter_recv s.filters (d ∷ []) s.world in
      let (msgs, w2) = read_all r ds w1 in
      let (hs, s') = receive_each r d.timestamp msgs (record s { world = w2 }) in
      record s' { all_msgs = s'.all_msgs ++ hs }

  -- With no data left, or no message, the loops make no round and the list stays as it is.
  unfoldable pub socket_data_received : ℕ → Option DataInfo → State W → State W
  socket_data_received sender none s = s
  socket_data_received sender (some d) s =
      if not (points_to s.socket sender) || not s.recv_enabled
      then s
      else elim s.protocol [ none ↦ s | some r ↦ receive_data r d s ]

  -- The body of the loop of `addMsgs`.
  pub add_one : Bool → ℕ → State W → State W
  add_one report_added h s =
      if get_from (s.objects h).msg_type 0 == type_invalid
      then s
      else let s1 = if get_from (s.objects h).timestamp 0 == 0 then stamp_now p h s else s in
        let s2 = update_internal_id h s1 in
        let s3 = if report_added then report_msg_added h s2 else s2 in
        record s3 { all_msgs = s3.all_msgs ++ h ∷ [] }

  pub add_msgs : List (Option ℕ) → Bool → State W → State W
  add_msgs [] report_added s = s
  add_msgs (none ∷ msgs) report_added s = add_msgs msgs report_added s
  add_msgs (some h ∷ msgs) report_added s = add_msgs msgs report_added (add_one report_added h s)

  unfoldable pub socket_error_report : ℕ → String → State W → State W
  socket_error_report sender msg s = if points_to s.socket sender then report_error msg s else s

  -- The filters hear of the connection before the protocol does.
  pub report_connection : Bool → State W → W
  report_connection connected s =
      let w = each_filter p (λ f. p.filter_connection_report f connected) s.filters s.world in
      elim s.protocol [ none ↦ w | some r ↦ p.protocol_connection_report r connected w ]

  unfoldable pub socket_connection_report : ℕ → Bool → State W → State W
  socket_connection_report sender connected s =
      if points_to s.socket sender
      then report_socket_connection_status connected
          (record s { world = report_connection connected s })
      else s

  unfoldable pub filter_error_report : ℕ → String → State W → State W
  filter_error_report sender msg s = elim (index_of sender s.filters) [
    | none ↦ s
    | some i ↦ report_error msg s
  ]

  -- for (auto& d : data) { m_socket->sendData(std::move(d)); }
  pub send_blocks : ℕ → List DataInfo → W → W
  send_blocks k [] w = w
  send_blocks k (d ∷ ds) w = let (d', w') = p.socket_send k d w in send_blocks k ds w'

  -- `rbegin() + revIdx` is a drop from the reversed list.
  unfoldable pub filter_data_to_send : ℕ → Option DataInfo → State W → State W
  filter_data_to_send sender none s = s
  filter_data_to_send sender (some d) s = elim (index_of sender s.filters) [
    | none ↦ s
    | some filter_idx ↦
        let rev_idx = length s.filters - filter_idx in
        let (ds, w) = chain p.filter_send (drop rev_idx (reverse s.filters)) (d ∷ []) s.world in
        elim s.socket [
          | none ↦ record s { world = w }
          | some k ↦ record s { world = send_blocks k ds w }
        ]
  ]

  unfoldable pub protocol_error_report : ℕ → String → State W → State W
  protocol_error_report sender msg s = if points_to s.protocol sender then report_error msg s else s

  unfoldable pub protocol_send_message_report : ℕ → Option ℕ → State W → State W
  protocol_send_message_report sender msg s =
      if points_to s.protocol sender then send_msgs p (msg ∷ []) s else s
