-- ===== src/MsgMgr/Receive/Listing.antt =====
-- What socketDataReceived adds to the list of messages (lib/src/ToolsMsgMgrImpl.cpp).
use cc_tools_qt.Base.{
  map, not, ◌||◌, ◌⊎◌, ℕ, suc, ◌+◌, ◌≤◌, ◌<◌, ◌≡◌, ◌∙◌, refl, sym, ap, subst, true, List, [], ◌∷◌,
  ◌++◌, some, length, All, All-append, arith, Option-cases, Bool-cases, inl, inr, ==_refl,
}
use cc_tools_qt.Message.{Message, DataInfo}
use cc_tools_qt.Plugins.{Plugins, KeepsLabels}
use cc_tools_qt.MsgMgr.Fields.{State, u64_mod, num_of}
use cc_tools_qt.MsgMgr.Chain.{chain}
use cc_tools_qt.MsgMgr.Order.{Ordered, Numbered, Inv, SameNums, Ordered-frame, Ordered-Numbered}
use cc_tools_qt.MsgMgr.Send.Effects.{reports}
use cc_tools_qt.MsgMgr.Receive.{
  points_to, read_all, receive_each, receive_data, socket_data_received,
}
use cc_tools_qt.MsgMgr.Receive.Contents.{contents, KeepsContents, receive_each-contents}
use cc_tools_qt.MsgMgr.Receive.Numbering.{
  addresses, AllReceived, receive_each-Effect, receive_each-objects,
}

module _ {W : Type 0} (p : Plugins W) where
  -- The messages that the protocol reads from a block after the filters, with the world after that.
  abbrev pub read_from : ℕ → DataInfo → State W → List Message × W
  read_from r d s =
      let (ds, w) = chain p.filter_recv s.filters (d ∷ []) s.world in read_all p r ds w

  receive_data_lem :
      (r : ℕ) (d : DataInfo) (s : State W)
      → let (ms, w) = read_from r d s in
        let (hs, t) = receive_each p r d.timestamp ms (record s { world = w }) in
        receive_data p r d s ≡ record t { all_msgs = t.all_msgs ++ hs }
  unfolding receive_data
  receive_data_lem r d s = refl

  -- The slot hands the block on, or does nothing.
  socket_data_received_cases :
      (sender : ℕ) (d : DataInfo) (s : State W)
      → (socket_data_received p sender (some d) s ≡ s)
        ⊎ ((r : ℕ) × (s.protocol ≡ some r)
            × (socket_data_received p sender (some d) s ≡ receive_data p r d s))
  unfolding socket_data_received
  socket_data_received_cases sender d s =
      elim (Bool-cases (not (points_to s.socket sender) || not s.recv_enabled)) [
        | inl e ↦ inl (rw e refl)
        | inr e ↦ elim (Option-cases s.protocol) [
          | inl e' ↦ inl (ground arith)
          | inr (r, e') ↦ inr (r, e', ground arith)
        ]
      ]

  pub socket_data_received_running :
      (k r : ℕ) (d : DataInfo) (s : State W)
      → s.socket ≡ some k
      → s.recv_enabled ≡ true
      → s.protocol ≡ some r
      → socket_data_received p k (some d) s ≡ receive_data p r d s
  unfolding socket_data_received
  socket_data_received_running k r d s ek on er = ground (arith, ==_refl k)

  -- What the slot adds, its contents left aside.
  pub socket_data_received_adds :
      KeepsLabels p
      → (k r : ℕ) (d : DataInfo) (s : State W) → s.socket ≡ some k
      → s.recv_enabled ≡ true
      → s.protocol ≡ some r
      → s.next_msg_num + length (read_from r d s).0 < u64_mod
      → let t = socket_data_received p k (some d) s in
        let hs = addresses s.next_object (read_from r d s).0 in
        (t.all_msgs ≡ s.all_msgs ++ hs)
        × (t.events ≡ s.events ++ reports s.msg_added_callback hs)
        × (t.next_msg_num ≡ s.next_msg_num + length (read_from r d s).0)
        × Numbered t.objects s.next_msg_num hs
        × AllReceived t.objects hs
  unfolding receive_data
  socket_data_received_adds laws k r d s ek on er b =
      let (ms, w) = read_from r d s in
      let e = receive_each-Effect p laws r d.timestamp ms (record s { world = w }) b in
      subst
        (λ t.
          (t.all_msgs ≡ s.all_msgs ++ addresses s.next_object ms)
          × (t.events ≡ s.events ++ reports s.msg_added_callback (addresses s.next_object ms))
          × (t.next_msg_num ≡ s.next_msg_num + length ms)
          × Numbered t.objects s.next_msg_num (addresses s.next_object ms)
          × AllReceived t.objects (addresses s.next_object ms))
        (sym (socket_data_received_running k r d s ek on er))
        (cc (e.all_msgs, e.listed), e.events, e.next_num, e.numbered, e.labelled)

  -- The messages of a block of data are added to the end of the list, as new objects with
  -- consecutive numbers from the next free one on, labelled as received and each reported once if a
  -- callback is set. Their identifiers, names and fields are those of the messages that the protocol
  -- read, in the order of reading. This holds when the signal comes from the manager's socket, with
  -- receiving enabled and a protocol, for a protocol that leaves the labels and the contents of a
  -- received message alone, up to the range of the 64-bit counter.
  pub socket_data_received-appends :
      KeepsLabels p
      → KeepsContents p
      → (k r : ℕ) (d : DataInfo) (s : State W) → s.socket ≡ some k
      → s.recv_enabled ≡ true
      → s.protocol ≡ some r
      → s.next_msg_num + length (read_from r d s).0 < u64_mod
      → let t = socket_data_received p k (some d) s in
        let hs = addresses s.next_object (read_from r d s).0 in
        (t.all_msgs ≡ s.all_msgs ++ hs)
        × (t.events ≡ s.events ++ reports s.msg_added_callback hs)
        × (t.next_msg_num ≡ s.next_msg_num + length (read_from r d s).0)
        × Numbered t.objects s.next_msg_num hs
        × AllReceived t.objects hs
        × (map (λ h. contents (t.objects h)) hs ≡ map contents (read_from r d s).0)
  unfolding receive_data
  socket_data_received-appends laws keeps k r d s ek on er b =
      let (ms, w) = read_from r d s in
      let (all, reported, next, numbered, labelled) =
        socket_data_received_adds laws k r d s ek on er b in
      let run = socket_data_received_running k r d s ek on er in
      (
        all,
        reported,
        next,
        numbered,
        labelled,
        ap (λ (t : State W). map (λ h. contents (t.objects h)) (addresses s.next_object ms)) run
            ∙ receive_each-contents p keeps r d.timestamp ms (record s { world = w }),
      )

  -- The messages that were there before are left as they are.
  pub socket_data_received-objects :
      (k r : ℕ) (d : DataInfo) (s : State W)
      → s.socket ≡ some k
      → s.recv_enabled ≡ true
      → s.protocol ≡ some r
      → (q : ℕ) → q < s.next_object
      → (socket_data_received p k (some d) s).objects q ≡ s.objects q
  unfolding receive_data
  socket_data_received-objects k r d s ek on er q lt =
      let (ms, w) = read_from r d s in
      ap (λ (t : State W). t.objects q) (socket_data_received_running k r d s ek on er)
      ∙ receive_each-objects p r d.timestamp ms (record s { world = w }) q lt

  SameNums-below :
      (o o' : ℕ → Message) (n : ℕ) (hs : List ℕ)
      → ((q : ℕ) → q < n → o' q ≡ o q)
      → All (λ h. h < n) hs
      → SameNums o o' hs
  SameNums-below o o' n [] same below = tt
  SameNums-below o o' n (x ∷ hs) same below =
      (ap num_of (same x below.0), SameNums-below o o' n hs same below.1)

  All-below : (n n' : ℕ) (hs : List ℕ) → n ≤ n' → All (λ h. h < n) hs → All (λ h. h < n') hs
  All-below n n' [] le a = tt
  All-below n n' (h ∷ hs) le a = (omega (arith, a.0), All-below n n' hs le a.1)

  addresses-allocated :
      (n bound : ℕ) (ms : List Message)
      → n + length ms ≤ bound
      → All (λ h. h < bound) (addresses n ms)
  addresses-allocated n bound [] b = tt
  addresses-allocated n bound (m ∷ ms) b =
      (omega arith, addresses-allocated (suc n) bound ms (omega arith))

  length-addresses : (n : ℕ) (ms : List Message) → length (addresses n ms) ≡ length ms
  length-addresses n [] = refl
  length-addresses n (m ∷ ms) = ap suc (length-addresses (suc n) ms)

  receive_data-Inv :
      KeepsLabels p
      → (r : ℕ) (d : DataInfo) (s : State W) → Inv s
      → s.next_msg_num + length (read_from r d s).0 < u64_mod
      → Inv (receive_data p r d s)
  unfolding receive_data
  receive_data-Inv laws r d s v b =
      let (ms, w) = read_from r d s in
      let s0 = record s { world = w } in
      let out = receive_each p r d.timestamp ms s0 in
      let e = receive_each-Effect p laws r d.timestamp ms s0 b in
      let hs = addresses s.next_object ms in
      let all : out.1.all_msgs ++ out.0 ≡ s.all_msgs ++ hs = cc (e.all_msgs, e.listed) in
      record {
        ordered =
            subst (λ l. Ordered out.1.objects 1 l out.1.next_msg_num) (sym all)
              (Ordered-Numbered out.1.objects 1 s.all_msgs s.next_msg_num hs
                (Ordered-frame s.objects out.1.objects 1 s.all_msgs s.next_msg_num
                  (SameNums-below s.objects out.1.objects s.next_object s.all_msgs
                    (λ q lt. receive_each-objects p r d.timestamp ms s0 q lt) v.allocated)
                  v.ordered)
                e.numbered (omega (arith, e.next_num, length-addresses s.next_object ms)));
        allocated = subst (All (λ h. h < out.1.next_object)) (sym all) (
            All-append (λ h. h < out.1.next_object) s.all_msgs hs
              (All-below s.next_object out.1.next_object s.all_msgs (omega (arith, e.next_object))
                v.allocated)
              (addresses-allocated s.next_object out.1.next_object ms
                (omega (arith, e.next_object))));
      }

  -- Received data keeps the list in the order of the message numbers, on every path of the slot, for
  -- a protocol that leaves the labels alone, up to the range of the 64-bit counter.
  pub socket_data_received-Inv :
      KeepsLabels p
      → (sender : ℕ) (d : DataInfo) (s : State W) → Inv s
      → ((r : ℕ) → s.protocol ≡ some r → s.next_msg_num + length (read_from r d s).0 < u64_mod)
      → Inv (socket_data_received p sender (some d) s)
  socket_data_received-Inv laws sender d s v b = elim (socket_data_received_cases sender d s) [
    | inl e ↦ subst Inv (sym e) v
    | inr (r, er, e) ↦ subst Inv (sym e) (receive_data-Inv laws r d s v (b r er))
  ]
