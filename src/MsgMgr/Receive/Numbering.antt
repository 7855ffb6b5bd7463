-- ===== src/MsgMgr/Receive/Numbering.antt =====
-- The numbers, labels and reports of what socketDataReceived and addMsgs add to the list
-- (lib/src/ToolsMsgMgrImpl.cpp).
use cc_tools_qt.Base.{
  ℕ, suc, ◌+◌, ◌%◌, ◌<◌, ◌≡◌, refl, ap, subst, ◌∙◌, List, [], ◌∷◌, ◌++◌, map, some, length, All,
  arith, append-nil, append_assoc,
}
use cc_tools_qt.Message.{Message, type_received}
use cc_tools_qt.Plugins.{Plugins, KeepsLabels}
use cc_tools_qt.MsgMgr.Fields.{
  State, msg_added, u64_mod, put, modify, stamp_now, update_internal_id, report_msg_added,
}
use cc_tools_qt.MsgMgr.Order.{Numbered}
use cc_tools_qt.MsgMgr.Send.Effects.{reports}
use cc_tools_qt.MsgMgr.Receive.{stamp_received, report_received, receive_one, receive_each}

-- The addresses of `k` new objects.
abbrev pub addresses : ℕ → List Message → List ℕ
addresses n [] = []
addresses n (m ∷ ms) = n ∷ addresses (suc n) ms

abbrev pub AllReceived : (ℕ → Message) → List ℕ → Type 0
AllReceived o hs = All (λ h. (o h).msg_type ≡ some type_received) hs

module _ {W : Type 0} (p : Plugins W) where
  receive_one-all_msgs :
      (r t : ℕ) (m : Message) (s : State W) → (receive_one p r t m s).all_msgs ≡ s.all_msgs
  unfolding receive_one stamp_received stamp_now report_received update_internal_id report_msg_added
  receive_one-all_msgs r t m s = ground arith

  pub receive_one-next :
      (r t : ℕ) (m : Message) (s : State W)
      → ((receive_one p r t m s).next_msg_num ≡ (s.next_msg_num + 1) % u64_mod)
        × ((receive_one p r t m s).next_object ≡ suc s.next_object)
        × ((receive_one p r t m s).msg_added_callback ≡ s.msg_added_callback)
  unfolding receive_one stamp_received stamp_now report_received update_internal_id report_msg_added
  receive_one-next r t m s = ground arith

  receive_one-events :
      (r t : ℕ) (m : Message) (s : State W)
      → (receive_one p r t m s).events
        ≡ s.events ++ reports s.msg_added_callback (s.next_object ∷ [])
  unfolding receive_one stamp_received stamp_now report_received update_internal_id report_msg_added
  receive_one-events r t m s = ground (arith, append-nil s.events)

  receive_one_other :
      (r t : ℕ) (m : Message) (s : State W) (q : ℕ)
      → q < s.next_object
      → (receive_one p r t m s).objects q ≡ s.objects q
  unfolding receive_one stamp_received stamp_now report_received update_internal_id report_msg_added
  receive_one_other r t m s q lt = ground arith

  report_received-labels :
      KeepsLabels p
      → (r h : ℕ) (s : State W)
      → (((report_received p r h s).objects h).msg_num ≡ (s.objects h).msg_num)
        × (((report_received p r h s).objects h).msg_type ≡ (s.objects h).msg_type)
  unfolding report_received
  report_received-labels laws r h s =
      ground (
        arith,
        laws.received_num r (s.objects h) s.world,
        laws.received_type r (s.objects h) s.world,
      )

  stamp_received-labels :
      (t h : ℕ) (s : State W)
      → (((stamp_received p t h s).objects h).msg_num ≡ (s.objects h).msg_num)
        × (((stamp_received p t h s).objects h).msg_type ≡ (s.objects h).msg_type)
  unfolding stamp_received stamp_now
  stamp_received-labels t h s = ground arith

  report_msg_added-objects : (h : ℕ) (s : State W) → (report_msg_added h s).objects ≡ s.objects
  unfolding report_msg_added
  report_msg_added-objects h s = ground arith

  receive_one-labels :
      KeepsLabels p
      → (r t : ℕ) (m : Message) (s : State W)
      → (((receive_one p r t m s).objects s.next_object).msg_num ≡ some s.next_msg_num)
        × (((receive_one p r t m s).objects s.next_object).msg_type ≡ some type_received)
  unfolding receive_one update_internal_id
  receive_one-labels laws r t m s =
      let h = s.next_object in
      let s1 = record s { objects = put h m s.objects; next_object = suc h } in
      let s2 =
        modify h (λ m. record m { msg_type = some type_received }) (update_internal_id h s1) in
      let s3 = stamp_received p t h s2 in
      ground (
        arith,
        report_msg_added-objects h (report_received p r h s3),
        report_received-labels laws r h s3,
        stamp_received-labels t h s2,
      )

  pub receive_each-objects :
      (r t : ℕ) (ms : List Message) (s : State W) (q : ℕ)
      → q < s.next_object
      → (receive_each p r t ms s).1.objects q ≡ s.objects q
  unfolding receive_each
  receive_each-objects r t [] s q lt = refl
  receive_each-objects r t (m ∷ ms) s q lt =
      receive_each-objects r t ms (receive_one p r t m s) q
        (omega (arith, (receive_one-next r t m s).1))
      ∙ receive_one_other r t m s q lt

  -- What the loop over the received messages does to the manager.
  pub record Effect (ms : List Message) (s : State W) (out : List ℕ × State W) : Type 0 where
    pub all_msgs : out.1.all_msgs ≡ s.all_msgs
    pub listed : out.0 ≡ addresses s.next_object ms
    pub events :
        out.1.events ≡ s.events ++ reports s.msg_added_callback (addresses s.next_object ms)
    pub next_num : out.1.next_msg_num ≡ s.next_msg_num + length ms
    pub next_object : out.1.next_object ≡ s.next_object + length ms
    pub numbered : Numbered out.1.objects s.next_msg_num (addresses s.next_object ms)
    pub labelled : AllReceived out.1.objects (addresses s.next_object ms)

  pub receive_each-Effect :
      KeepsLabels p
      → (r t : ℕ) (ms : List Message) (s : State W) → s.next_msg_num + length ms < u64_mod
      → Effect ms s (receive_each p r t ms s)
  unfolding receive_each
  receive_each-Effect laws r t [] s b = record {
    all_msgs = refl;
    listed = refl;
    events = ground (arith, append-nil s.events);
    next_num = omega arith;
    next_object = omega arith;
    numbered = tt;
    labelled = tt;
  }
  receive_each-Effect laws r t (m ∷ ms) s b =
      let s1 = receive_one p r t m s in
      let next = receive_one-next r t m s in
      let labels = receive_one-labels laws r t m s in
      let num : s1.next_msg_num ≡ s.next_msg_num + 1 = omega (arith, next.0) in
      let rest = receive_each-Effect laws r t ms s1 (omega (arith, num)) in
      let same = receive_each-objects r t ms s1 s.next_object (omega (arith, next.1)) in
      record {
        all_msgs = rest.all_msgs ∙ receive_one-all_msgs r t m s;
        listed = ap (◌∷◌ s.next_object) (rest.listed ∙ ap (λ n. addresses n ms) next.1);
        events = ground (
          arith,
          rest.events,
          receive_one-events r t m s,
          next,
          append-nil s.events,
          append_assoc s.events (msg_added s.next_object ∷ [])
              (map msg_added (addresses (suc s.next_object) ms)),
        );
        next_num = omega (arith, rest.next_num, num);
        next_object = omega (arith, rest.next_object, next.1);
        numbered = (
          ap (λ (m : Message). m.msg_num) same ∙ labels.0,
          subst
              (λ n.
                Numbered (receive_each p r t ms s1).1.objects n (addresses (suc s.next_object) ms))
              num
              (subst
                (λ n.
                  Numbered (receive_each p r t ms s1).1.objects s1.next_msg_num (addresses n ms))
                next.1 rest.numbered),
        );
        labelled = (
          ap (λ (m : Message). m.msg_type) same ∙ labels.1,
          subst (λ n. AllReceived (receive_each p r t ms s1).1.objects (addresses n ms)) next.1
              rest.labelled,
        );
      }
