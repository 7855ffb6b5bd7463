-- ===== src/Loopback/Arrival.antt =====
-- A message that is sent through an echo socket arrives (lib/src/ToolsMsgMgrImpl.cpp with
-- lib/src/ToolsProtocol.cpp and plugin/echo_socket/EchoSocket.cpp).
use cc_tools_qt.Base.{
  ℕ, ◌+◌, ◌<◌, ◌≡◌, refl, sym, ap, ap₂, append_assoc, ◌∙◌, subst, true, false, List, [], ◌∷◌, ◌++◌,
  reverse, map, length, some, str_eq, arith,
}
use cc_tools_qt.Message.{Message, DataInfo, type_received}
use cc_tools_qt.Plugins.{Plugins, KeepsLabels}
use cc_tools_qt.Protocol.{Frame, read, set_name}
use cc_tools_qt.MsgMgr.Fields.{State, u64_mod}
use cc_tools_qt.MsgMgr.Send.{send_one, send_each, send_msgs}
use cc_tools_qt.MsgMgr.Send.Effects.{send_one-all_msgs, send_one-next, send_msgs_running}
use cc_tools_qt.MsgMgr.Receive.{read_all, socket_data_received}
use cc_tools_qt.MsgMgr.Receive.Listing.{
  read_from, socket_data_received_adds, socket_data_received_running,
}
use cc_tools_qt.MsgMgr.Order.{Numbered}
use cc_tools_qt.MsgMgr.Receive.Numbering.{AllReceived, addresses}
use cc_tools_qt.Loopback.{Station, assembled, timer_fires}
use cc_tools_qt.Loopback.Coding.{ByteCodec, with_bytes, code_all, code_all_undo, chain-recv}
use cc_tools_qt.MsgMgr.Receive.Contents.{contents, KeepsContents}
use cc_tools_qt.Loopback.Contents.{ReadsBack, receive_data-contents}
use cc_tools_qt.Loopback.Waiting.{
  Ready, assembled-ByteCodec, send_one-Waiting, send_one-setup, timer_fires_once,
}

module _ {W : Type 0} (f : Frame W) (rest : Plugins W) where
  assembled-KeepsLabels : KeepsLabels rest → KeepsLabels (assembled f rest)
  assembled-KeepsLabels l = record {
    received_num = λ r m s. l.received_num r m s.world;
    received_type = λ r m s. l.received_type r m s.world;
  }

  read_from_lem :
      (c : ByteCodec rest) (r : ℕ) (m : Message) (b : ReadsBack f m) (d : DataInfo)
      (s : State (Station W))
      → d.bytes ≡ code_all c.encode (reverse s.filters) (f.encode_framed m)
      → (read_from (assembled f rest) r d s).0 ≡ set_name f b.decoded ∷ []
  unfolding read_all read assembled-ByteCodec
  read_from_lem c r m b d s coded =
      let p = assembled f rest in
      let plain = code_all c.decode s.filters d.bytes in
      let back : plain ≡ f.encode_framed m =
        ap (λ l. code_all c.decode s.filters l) coded
        ∙ code_all_undo p (assembled-ByteCodec f rest c) s.filters (f.encode_framed m) in
      ap (λ x. (read_all p r x.0 x.1).0)
        (chain-recv p (assembled-ByteCodec f rest c) s.filters d s.world)
      ∙ ap (λ l. map (set_name f) l ++ []) (b.reads (with_bytes plain d) s.world.world back)

  -- A message with an identifier that is sent through the filters and the echo socket is listed,
  -- and when the socket's timer fires a new message is listed behind it: of the same class, with the
  -- same fields, labelled as received and with the next number. This holds for a socket that runs, is connected and holds
  -- nothing back, for filters that code the bytes, a frame that reads the bytes of a message as that
  -- message, and a protocol that changes neither the labels nor the contents of what has been
  -- received, with receiving enabled and up to the range of the 64-bit counter.
  pub timer_fires-send_msgs :
      ByteCodec rest
      → KeepsLabels rest
      → KeepsContents rest
      → (k r h : ℕ) (s : State (Station W)) → ReadsBack f (s.objects h)
      → s.socket ≡ some k
      → s.protocol ≡ some r
      → s.recv_enabled ≡ true
      → Ready s.world
      → str_eq (s.objects h).id_as_string "" ≡ false
      → s.next_msg_num + 2 < u64_mod
      → (let p = assembled f rest in
          let t = timer_fires p f.now k (send_msgs p (some h ∷ []) s) in
          let new = s.next_object in
          (t.all_msgs ≡ s.all_msgs ++ h ∷ new ∷ [])
          × (contents (t.objects new) ≡ contents (s.objects h))
          × ((t.objects new).msg_type ≡ some type_received)
          × ((t.objects new).msg_num ≡ some (s.next_msg_num + 1)))
  unfolding set_name
  timer_fires-send_msgs c labels keeps k r h s b ek er on ready named bound =
      let p = assembled f rest in
      let m = s.objects h in
      let s1 = send_one p k r h s in
      let sent : send_msgs p (some h ∷ []) s ≡ s1 =
        send_msgs_running p k r (some h ∷ []) s ek er ∙ (unfold send_each in refl) in
      let (socket, protocol, enabled, filters, next) = send_one-setup f rest k r h s in
      let coded = code_all c.encode (reverse s.filters) (f.encode_framed m) in
      let (d, world, fired, bytes) =
        timer_fires_once f rest coded k s1 (send_one-Waiting f rest c k r h s named ready) in
      let s2 = record s1 { world = world } in
      let one =
        read_from_lem c r m b d s2
          (bytes ∙ ap (λ l. code_all c.encode (reverse l) (f.encode_framed m)) (sym filters)) in
      let num : s2.next_msg_num ≡ s.next_msg_num + 1 = omega (arith, send_one-next p k r h s) in
      let (all, events, last, numbered, received) =
        socket_data_received_adds p (assembled-KeepsLabels labels) k r d s2 (socket ∙ ek)
          (enabled ∙ on) (protocol ∙ er) (omega (arith, num, ap length one)) in
      let arrived =
        ap (λ (t : State (Station W)). contents (t.objects s2.next_object))
          (socket_data_received_running p k r d s2 (socket ∙ ek) (enabled ∙ on) (protocol ∙ er))
        ∙ receive_data-contents p (λ r m w. keeps r m w.world) r d (set_name f b.decoded) s2 one
        ∙ b.same in
      let t = socket_data_received p k (some d) s2 in
      let label = subst (λ ms. AllReceived t.objects (addresses s2.next_object ms)) one received in
      let number =
        subst (λ ms. Numbered t.objects s2.next_msg_num (addresses s2.next_object ms)) one
          numbered in
      let listed : t.all_msgs ≡ s.all_msgs ++ h ∷ s2.next_object ∷ [] =
        all
        ∙ ap₂ (λ (l : List ℕ) (ms : List Message). l ++ addresses s2.next_object ms)
            (send_one-all_msgs p k r h s) one
        ∙ append_assoc s.all_msgs (h ∷ []) (s2.next_object ∷ []) in
      let R = λ (new : ℕ) (t : State (Station W)).
        (t.all_msgs ≡ s.all_msgs ++ h ∷ new ∷ [])
        × (contents (t.objects new) ≡ contents m)
        × ((t.objects new).msg_type ≡ some type_received)
        × ((t.objects new).msg_num ≡ some (s.next_msg_num + 1)) in
      let here : R s2.next_object t = (listed, arrived, label.0, number.0 ∙ ap (λ n. some n) num) in
      subst (λ x. R s.next_object x) (sym (ap (λ x. timer_fires p f.now k x) sent ∙ fired))
        (subst (λ new. R new t) next here)
