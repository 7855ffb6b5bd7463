-- ===== src/Loopback/Waiting.antt =====
-- A block that is sent waits in the echo socket until its timer fires (lib/src/ToolsMsgMgrImpl.cpp,
-- plugin/echo_socket/EchoSocket.cpp).
use cc_tools_qt.Base.{
  ℕ, ◌≡◌, refl, sym, ap, ◌∙◌, subst, true, false, List, [], ◌∷◌, ◌++◌, reverse, some, str_eq, arith,
}
use cc_tools_qt.Message.{Message, DataInfo, get_from, make_data_info}
use cc_tools_qt.Plugins.{Plugins}
use cc_tools_qt.Protocol.{Frame, write}
use cc_tools_qt.Socket.{data_received, signal, stamp, send_data, report_data_received}
use cc_tools_qt.Socket.Echo.{echo, echo_send, give_back, give_back_all, send_data_postponed}
use cc_tools_qt.MsgMgr.Fields.{State, stamp_now, update_internal_id, report_msg_added}
use cc_tools_qt.MsgMgr.Chain.{chain}
use cc_tools_qt.MsgMgr.Send.{annotate, deliver, hand_over, transmit, update_msg_guard, send_one}
use cc_tools_qt.MsgMgr.Receive.{socket_data_received}
use cc_tools_qt.Loopback.{Station, assembled, hear, hear_all, timer_fires}
use cc_tools_qt.Loopback.Coding.{ByteCodec, with_bytes, code_all, chain-send}

-- An echo socket that runs and is connected, with one block of the given bytes or with none.
pub record Ready {W : Type 0} (s : Station W) : Type 0 where
  pub connected : s.connected ≡ true
  pub running : s.running ≡ true
  pub empty : s.derived.pending_data ≡ []

pub record Waiting {W : Type 0} (bytes : List ℕ) (s : Station W) : Type 0 where
  pub block : DataInfo
  pub running : s.running ≡ true
  pub pending : s.derived.pending_data ≡ block ∷ []
  pub same_bytes : block.bytes ≡ bytes

module _ {W : Type 0} (now : W → ℕ × W) where
  send_data-Waiting :
      (d : DataInfo) (s : Station W) → Ready s → Waiting d.bytes (send_data (echo now) d s).1
  unfolding send_data stamp echo_send
  send_data-Waiting d s h = record {
    block = (stamp (echo now) d s).0;
    running = ground (arith, h.connected, h.running);
    pending = ground (arith, h.connected, h.empty);
    same_bytes = ground arith;
  }

  give_back-signal :
      (d : DataInfo) (s : Station W)
      → s.running ≡ true
      → (e : DataInfo) × ((give_back now d s).signals ≡ s.signals ++ data_received e ∷ [])
        × (e.bytes ≡ d.bytes)
  unfolding give_back report_data_received signal stamp
  give_back-signal d s h = (
    (stamp (echo now)
        (record make_data_info {
          bytes = d.bytes;
          extra_properties = d.extra_properties;
          timestamp = (now s.world).0;
        })
        (record s { world = (now s.world).1 })).0,
    ground (arith, h),
    ground arith,
  )

module _ {W : Type 0} (p : Plugins W) where
  transmit-hand_over :
      (k r : ℕ) (filters : List ℕ) (m : Message) (d : DataInfo) (ds : List DataInfo) (w w1 w2 : W)
      → p.protocol_write r m w ≡ (some d, w1)
      → chain p.filter_send (reverse filters) (d ∷ []) w1 ≡ (ds, w2)
      → transmit p k r filters m w ≡ hand_over p k r ds m w2
  unfolding transmit
  transmit-hand_over k r filters m d ds w w1 w2 written coded = ground arith

module _ {W : Type 0} (f : Frame W) (rest : Plugins W) where
  write_named :
      (m : Message) (w : W)
      → str_eq m.id_as_string "" ≡ false
      → write f m w ≡ (
        some (record make_data_info {
          timestamp = (f.now w).0;
          bytes = f.encode_framed m;
          extra_properties = get_from m.extra_info [];
        }),
        (f.now w).1,
      )
  unfolding write
  write_named m w named = rw named refl

  unfoldable pub assembled-ByteCodec : ByteCodec rest → ByteCodec (assembled f rest)
  assembled-ByteCodec c = record {
    encode = c.encode;
    decode = c.decode;
    sends = λ i d s. ap (λ x. (x.0, record s { world = x.1 })) (c.sends i d s.world);
    receives = λ i d s. ap (λ x. (x.0, record s { world = x.1 })) (c.receives i d s.world);
    undoes = c.undoes;
  }

  annotate-world :
      (r : ℕ) (d : DataInfo) (m : Message) (s : Station W)
      → (annotate (assembled f rest) r d m s).1 ≡ s
  unfolding annotate
  annotate-world r d m s = ground arith

  -- What the protocol does with the sent message leaves the socket alone.
  hand_over-Waiting :
      (k r : ℕ) (d : DataInfo) (m : Message) (s : Station W)
      → Ready s
      → Waiting d.bytes (hand_over (assembled f rest) k r (d ∷ []) m s).1
  unfolding hand_over deliver
  hand_over-Waiting k r d m s h =
      let (d', s1) = send_data (echo f.now) d s in
      let sent = send_data-Waiting f.now d s h in
      let same = annotate-world r d' m s1 in
      record {
        block = sent.block;
        running = ap (λ (x : Station W). x.running) same ∙ sent.running;
        pending = ap (λ (x : Station W). x.derived.pending_data) same ∙ sent.pending;
        same_bytes = sent.same_bytes;
      }

  transmit-Waiting :
      (c : ByteCodec rest) (k r : ℕ) (filters : List ℕ) (m : Message) (s : Station W)
      → str_eq m.id_as_string "" ≡ false
      → Ready s
      → Waiting
          (code_all c.encode (reverse filters) (f.encode_framed m))
          (transmit (assembled f rest) k r filters m s).1
  unfolding assembled-ByteCodec
  transmit-Waiting c k r filters m s named h =
      let e = f.encode_framed m in
      let (t, w) = f.now s.world in
      let s1 = record s { world = w } in
      let d : DataInfo = record make_data_info {
        timestamp = t;
        bytes = e;
        extra_properties = get_from m.extra_info [];
      } in
      let out = code_all c.encode (reverse filters) e in
      let coded = chain-send (assembled f rest) (assembled-ByteCodec c) (reverse filters) d s1 in
      let ready : Ready s1 = record {
        connected = h.connected;
        running = h.running;
        empty = h.empty;
      } in
      let eq : transmit (assembled f rest) k r filters m s
          ≡ hand_over (assembled f rest) k r (with_bytes out d ∷ []) m s1 =
        transmit-hand_over (assembled f rest) k r filters m d (with_bytes out d ∷ []) s s1 s1
          (ap (λ x. (x.0, record s { world = x.1 })) (write_named m s.world named)) coded in
      subst (λ (x : Message × Station W). Waiting out x.1) (sym eq)
        (hand_over-Waiting k r (with_bytes out d) m s1 ready)

  pub send_one-Waiting :
      (c : ByteCodec rest) (k r h : ℕ) (s : State (Station W))
      → str_eq (s.objects h).id_as_string "" ≡ false
      → Ready s.world
      → Waiting
          (code_all c.encode (reverse s.filters) (f.encode_framed (s.objects h)))
          (send_one (assembled f rest) k r h s).world
  unfolding send_one update_msg_guard update_internal_id report_msg_added stamp_now
  send_one-Waiting c k r h s named ready =
      let waits = transmit-Waiting c k r s.filters (s.objects h) s.world named ready in
      record {
        block = waits.block;
        running = ground (arith, waits.running);
        pending = ground (arith, waits.pending);
        same_bytes = waits.same_bytes;
      }

  -- What the parts of the manager are after sending.
  pub send_one-setup :
      (k r h : ℕ) (s : State (Station W))
      → (let t = send_one (assembled f rest) k r h s in
          (t.socket ≡ s.socket)
          × (t.protocol ≡ s.protocol)
          × (t.recv_enabled ≡ s.recv_enabled)
          × (t.filters ≡ s.filters)
          × (t.next_object ≡ s.next_object))
  unfolding send_one update_msg_guard update_internal_id report_msg_added stamp_now
  send_one-setup k r h s = ground arith

  -- The timer gives the block back, and the manager hears of it.
  pub timer_fires_once :
      (bytes : List ℕ) (k : ℕ) (m : State (Station W))
      → Waiting bytes m.world
      → (d : DataInfo) × (s : Station W) × (timer_fires (assembled f rest) f.now k m
          ≡ socket_data_received (assembled f rest) k (some d) (record m { world = s }))
        × (d.bytes ≡ bytes)
  unfolding timer_fires send_data_postponed give_back_all
  timer_fires_once bytes k m w =
      let s0 = record m.world {
        signals = [];
        derived = record { pending_data = []; timer_active = false };
      } in
      let (d, heard, same) = give_back-signal f.now w.block s0 w.running in
      let s = record (give_back f.now w.block s0) { signals = [] } in
      (d, s, unfold hear hear_all in ground (arith, w.pending, heard), same ∙ w.same_bytes)
