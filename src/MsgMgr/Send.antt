-- ===== src/MsgMgr/Send.antt =====
-- ToolsMsgMgrImpl::sendMsgs (lib/src/ToolsMsgMgrImpl.cpp).
pub mod Effects
pub mod Numbering
use cc_tools_qt.Base.{
  ℕ, true, false, List, [], ◌∷◌, ◌++◌, reverse, Option, none, some, is_empty, merge,
}
use cc_tools_qt.Message.{Message, DataInfo, type_sent, get_from}
use cc_tools_qt.Plugins.{Plugins}
use cc_tools_qt.MsgMgr.Chain.{chain}
use cc_tools_qt.MsgMgr.Fields.{State, put, modify, stamp_now, update_internal_id, report_msg_added}

module _ {W : Type 0} (p : Plugins W) where
  -- The extra properties that the socket added to a block are merged into the message.
  unfoldable pub annotate : ℕ → DataInfo → Message → W → Message × W
  annotate r d m w = elim (is_empty d.extra_properties) [
    | true ↦ (m, w)
    | false ↦
        p.protocol_update r
          (record m { extra_info = some (merge d.extra_properties (get_from m.extra_info [])) }) w
  ]

  -- for (auto& d : data) { m_socket->sendData(d); ... }
  unfoldable pub deliver : ℕ → ℕ → List DataInfo → Message → W → Message × W
  deliver k r [] m w = (m, w)
  deliver k r (d ∷ ds) m w =
      let (d', w1) = p.socket_send k d w in
      let (m', w2) = annotate r d' m w1 in deliver k r ds m' w2

  unfoldable pub hand_over : ℕ → ℕ → List DataInfo → Message → W → Message × W
  hand_over k r [] m w = (m, w)
  hand_over k r (d ∷ ds) m w =
      let (m', w1) = deliver k r (d ∷ ds) m w in p.protocol_sent_report r m' w1

  -- The body of the loop of `sendMsgs`, without its scope guard.
  unfoldable pub transmit : ℕ → ℕ → List ℕ → Message → W → Message × W
  transmit k r filters m w =
      let (data_info, w1) = p.protocol_write r m w in
      elim data_info [
        | none ↦ (m, w1)
        | some d ↦
            let (ds, w2) = chain p.filter_send (reverse filters) (d ∷ []) w1 in
            hand_over k r ds m w2
      ]

  -- The scope guard of `sendMsgs`, which runs on every way out of the loop's body.
  unfoldable pub update_msg_guard : ℕ → State W → State W
  update_msg_guard h s =
      let s1 =
        stamp_now p h
          (modify h (λ m. record m { msg_type = some type_sent }) (update_internal_id h s)) in
      report_msg_added h (record s1 { all_msgs = s1.all_msgs ++ h ∷ [] })

  unfoldable pub send_one : ℕ → ℕ → ℕ → State W → State W
  send_one k r h s =
      let (m, w) = transmit k r s.filters (s.objects h) s.world in
      update_msg_guard h (record s { objects = put h m s.objects; world = w })

  unfoldable pub send_each : ℕ → ℕ → List (Option ℕ) → State W → State W
  send_each k r [] s = s
  send_each k r (none ∷ msgs) s = send_each k r msgs s
  send_each k r (some h ∷ msgs) s = send_each k r msgs (send_one k r h s)

  pub send_msgs : List (Option ℕ) → State W → State W
  send_msgs [] s = s
  send_msgs (m ∷ ms) s = elim s.socket [
    | none ↦ s
    | some k ↦ elim s.protocol [ none ↦ s | some r ↦ send_each k r (m ∷ ms) s ]
  ]
