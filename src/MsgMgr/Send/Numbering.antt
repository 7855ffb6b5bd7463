-- ===== src/MsgMgr/Send/Numbering.antt =====
-- The numbers and labels that sendMsgs gives (updateInternalId, lib/src/ToolsMsgMgrImpl.cpp).
use cc_tools_qt.Base.{
  All-append, ℕ, ◌+◌, ◌<◌, ◌≡◌, refl, sym, ap, subst, ◌∙◌, List, [], ◌∷◌, Option, none, some,
  length, present, All, arith, ne→==_false,
}
use cc_tools_qt.Message.{Message, type_sent}
use cc_tools_qt.Plugins.{Plugins}
use cc_tools_qt.MsgMgr.Fields.{State, u64_mod, num_of}
use cc_tools_qt.MsgMgr.Order.{
  Ordered, Numbered, NotIn, Distinct, Inv, CanAdd, SameNums, Ordered-frame, Ordered-snoc,
  Apart-snoc,
}
use cc_tools_qt.MsgMgr.Send.{send_one, send_each, send_msgs}
use cc_tools_qt.MsgMgr.Send.Effects.{
  send_one-SameSetup, send_one-all_msgs, send_one-next, send_one-num, send_one-type, send_one_other,
  send_msgs_running, send_msgs_cases,
}

-- The messages are labelled as sent.
abbrev pub AllSent : (ℕ → Message) → List ℕ → Type 0
AllSent o hs = All (λ h. (o h).msg_type ≡ some type_sent) hs

module _ {W : Type 0} (p : Plugins W) where
  send_each_other :
      (k r : ℕ) (msgs : List (Option ℕ)) (s : State W) (q : ℕ)
      → NotIn q (present msgs)
      → (send_each p k r msgs s).objects q ≡ s.objects q
  unfolding send_each
  send_each_other k r [] s q n = refl
  send_each_other k r (none ∷ msgs) s q n = send_each_other k r msgs s q n
  send_each_other k r (some h ∷ msgs) s q n =
      send_each_other k r msgs (send_one p k r h s) q n.1
      ∙ send_one_other p k r h s q (ne→==_false h q n.0)

  -- Sending changes no other message.
  pub send_msgs-objects :
      (msgs : List (Option ℕ)) (s : State W) (q : ℕ)
      → NotIn q (present msgs)
      → (send_msgs p msgs s).objects q ≡ s.objects q
  send_msgs-objects msgs s q n =
      send_msgs_cases p (λ t. t.objects q ≡ s.objects q) msgs s refl
        (λ k r. send_each_other k r msgs s q n)

  send_each-labels :
      (k r : ℕ) (msgs : List (Option ℕ)) (s : State W)
      → Distinct (present msgs)
      → s.next_msg_num + length (present msgs) < u64_mod
      → Numbered (send_each p k r msgs s).objects s.next_msg_num (present msgs)
        × AllSent (send_each p k r msgs s).objects (present msgs)
        × ((send_each p k r msgs s).next_msg_num ≡ s.next_msg_num + length (present msgs))
  unfolding send_each
  send_each-labels k r [] s d b = (tt, tt, omega arith)
  send_each-labels k r (none ∷ msgs) s d b = send_each-labels k r msgs s d b
  send_each-labels k r (some h ∷ msgs) s d b =
      let s1 = send_one p k r h s in
      let next : s1.next_msg_num ≡ s.next_msg_num + 1 = omega (arith, send_one-next p k r h s) in
      let rest = send_each-labels k r msgs s1 d.1 (omega arith) in
      let same = send_each_other k r msgs s1 h d.0 in
      (
        (
          ap (λ (m : Message). m.msg_num) same ∙ send_one-num p k r h s,
          subst (λ n. Numbered (send_each p k r msgs s1).objects n (present msgs)) next rest.0,
        ),
        (ap (λ (m : Message). m.msg_type) same ∙ send_one-type p k r h s, rest.1),
        omega (arith, rest.2),
      )

  -- With a socket and a protocol, distinct messages get consecutive numbers from the next free one
  -- on, in the order of the call, and all are labelled as sent; this holds up to the range of the
  -- 64-bit counter.
  pub send_msgs-Numbered :
      (k r : ℕ) (msgs : List (Option ℕ)) (s : State W)
      → s.socket ≡ some k
      → s.protocol ≡ some r
      → Distinct (present msgs)
      → s.next_msg_num + length (present msgs) < u64_mod
      → Numbered (send_msgs p msgs s).objects s.next_msg_num (present msgs)
        × AllSent (send_msgs p msgs s).objects (present msgs)
        × ((send_msgs p msgs s).next_msg_num ≡ s.next_msg_num + length (present msgs))
  send_msgs-Numbered k r msgs s es ep d b =
      subst
        (λ t.
          Numbered t.objects s.next_msg_num (present msgs)
          × AllSent t.objects (present msgs)
          × (t.next_msg_num ≡ s.next_msg_num + length (present msgs)))
        (sym (send_msgs_running p k r msgs s es ep)) (send_each-labels k r msgs s d b)

  SameNums-send_one :
      (k r h : ℕ) (s : State W) (hs : List ℕ)
      → NotIn h hs
      → SameNums s.objects (send_one p k r h s).objects hs
  SameNums-send_one k r h s [] n = tt
  SameNums-send_one k r h s (x ∷ hs) n = (
    ap num_of (send_one_other p k r h s x (ne→==_false h x (λ e. n.0 (sym e)))),
    SameNums-send_one k r h s hs n.1,
  )

  send_one-Ordered :
      (k r h : ℕ) (s : State W)
      → Ordered s.objects 1 s.all_msgs s.next_msg_num
      → NotIn h s.all_msgs
      → s.next_msg_num + 1 < u64_mod
      → let t = send_one p k r h s in Ordered t.objects 1 t.all_msgs t.next_msg_num
  send_one-Ordered k r h s v n b =
      let t = send_one p k r h s in
      let num = send_one-num p k r h s in
      rw (send_one-all_msgs p k r h s) (
        Ordered-snoc t.objects 1 s.all_msgs s.next_msg_num h
          (Ordered-frame s.objects t.objects 1 s.all_msgs s.next_msg_num
            (SameNums-send_one k r h s s.all_msgs n) v)
          (ground (arith, num)) (ground (arith, num, send_one-next p k r h s)))

  send_one-Inv :
      (k r h : ℕ) (s : State W)
      → Inv s
      → NotIn h s.all_msgs
      → h < s.next_object
      → s.next_msg_num + 1 < u64_mod
      → Inv (send_one p k r h s)
  send_one-Inv k r h s v n a b = record {
    ordered = send_one-Ordered k r h s v.ordered n b;
    allocated =
        rw (send_one-all_msgs p k r h s, (send_one-SameSetup p k r h s).next_object)
          (All-append (λ x. x < s.next_object) s.all_msgs (h ∷ []) v.allocated (a, tt));
  }

  send_each-Inv :
      (k r : ℕ) (msgs : List (Option ℕ)) (s : State W)
      → Inv s
      → CanAdd (present msgs) s
      → Inv (send_each p k r msgs s)
  unfolding send_each
  send_each-Inv k r [] s v c = v
  send_each-Inv k r (none ∷ msgs) s v c = send_each-Inv k r msgs s v c
  send_each-Inv k r (some h ∷ msgs) s v c =
      let next = send_one-next p k r h s in
      let same = (send_one-SameSetup p k r h s).next_object in
      send_each-Inv k r msgs (send_one p k r h s)
        (send_one-Inv k r h s v c.apart.0 c.allocated.0 (omega (arith, c.fits)))
        (record {
          distinct = c.distinct.1;
          apart =
              rw (send_one-all_msgs p k r h s)
                (Apart-snoc (present msgs) s.all_msgs h c.apart.1 c.distinct.0);
          allocated = rw same c.allocated.1;
          fits = omega (arith, next, c.fits);
        })

  -- Sending keeps the list in the order of the message numbers, all of them below the next one to be
  -- given, if the messages are distinct objects that are not in the list yet, and the 64-bit counter
  -- does not wrap; this holds with and without a socket and a protocol.
  pub send_msgs-Inv :
      (msgs : List (Option ℕ)) (s : State W)
      → Inv s
      → CanAdd (present msgs) s
      → Inv (send_msgs p msgs s)
  send_msgs-Inv msgs s v c = send_msgs_cases p Inv msgs s v (λ k r. send_each-Inv k r msgs s v c)
