-- ===== src/MsgMgr/Receive/Contents.antt =====
-- What the listed objects of socketDataReceived say (lib/src/ToolsMsgMgrImpl.cpp).
use Prim.Native.String.{String}
use cc_tools_qt.Base.{
  ℕ, suc, ◌≡◌, refl, sym, ap, ap₂, ◌∙◌, List, [], ◌∷◌, map, some, ==_refl, arith,
}
use cc_tools_qt.Message.{Message, type_received}
use cc_tools_qt.Plugins.{Plugins}
use cc_tools_qt.MsgMgr.Fields.{State, put, modify, stamp_now, update_internal_id, report_msg_added}
use cc_tools_qt.MsgMgr.Receive.{stamp_received, report_received, receive_one, receive_each}
use cc_tools_qt.MsgMgr.Receive.Numbering.{addresses, receive_one-next, receive_each-objects}

-- What identifies a message to its receiver: its class and its fields.
abbrev pub contents : Message → String × String × List ℕ
contents m = (m.id_as_string, m.name, m.payload)

-- A protocol that is told of a received message does not change what it says.
abbrev pub KeepsContents : {W : Type 0} → Plugins W → Type 0
KeepsContents {W} p =
    (r : ℕ) (m : Message) (w : W) → contents (p.protocol_received_report r m w).0 ≡ contents m

module _ {W : Type 0} (p : Plugins W) where
  report_received-contents :
      KeepsContents p
      → (r h : ℕ) (s : State W)
      → contents ((report_received p r h s).objects h) ≡ contents (s.objects h)
  unfolding report_received
  report_received-contents keeps r h s = ground (arith, keeps r (s.objects h) s.world, ==_refl h)

  stamp_received-contents :
      (t h : ℕ) (s : State W)
      → contents ((stamp_received p t h s).objects h) ≡ contents (s.objects h)
  unfolding stamp_received stamp_now
  stamp_received-contents t h s = ground (arith, ==_refl h)

  report_msg_added-objects : (h : ℕ) (s : State W) → (report_msg_added h s).objects ≡ s.objects
  unfolding report_msg_added
  report_msg_added-objects h s = ground arith

  pub receive_one-contents :
      KeepsContents p
      → (r t : ℕ) (m : Message) (s : State W)
      → contents ((receive_one p r t m s).objects s.next_object) ≡ contents m
  unfolding receive_one update_internal_id
  receive_one-contents keeps r t m s =
      let h = s.next_object in
      let s1 = record s { objects = put h m s.objects; next_object = suc h } in
      let s2 =
        modify h (λ m. record m { msg_type = some type_received }) (update_internal_id h s1) in
      let s3 = stamp_received p t h s2 in
      let numbered : contents (s2.objects h) ≡ contents m = ground (arith, ==_refl h) in
      ap (λ (o : ℕ → Message). contents (o h))
        (report_msg_added-objects h (report_received p r h s3))
      ∙ report_received-contents keeps r h s3
      ∙ stamp_received-contents t h s2
      ∙ numbered

  -- The new objects say what the messages say that were read, in the order of reading.
  pub receive_each-contents :
      KeepsContents p
      → (r t : ℕ) (ms : List Message) (s : State W)
      → map (λ h. contents ((receive_each p r t ms s).1.objects h)) (addresses s.next_object ms)
        ≡ map contents ms
  unfolding receive_each
  receive_each-contents keeps r t [] s = refl
  receive_each-contents keeps r t (m ∷ ms) s =
      let s1 = receive_one p r t m s in
      let out = (receive_each p r t ms s1).1 in
      let next = (receive_one-next p r t m s).1 in
      let kept = receive_each-objects p r t ms s1 s.next_object (omega (arith, next)) in
      ap₂ (λ (c : String × String × List ℕ) (l : List (String × String × List ℕ)). c ∷ l)
        (ap contents kept ∙ receive_one-contents keeps r t m s)
        (ap (λ n. map (λ h. contents (out.objects h)) (addresses n ms)) (sym next)
          ∙ receive_each-contents keeps r t ms s1)
