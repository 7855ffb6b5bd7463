-- ===== src/Gui/Shown/Live.antt =====
-- The list of received messages while messages are sent and received (app/cc_view/src/GuiAppMgr.cpp with
-- lib/src/ToolsMsgMgrImpl.cpp).
use cc_tools_qt.Base.{
  ℕ, ◌+◌, ◌<◌, ◌≡◌, refl, sym, ap, ◌∙◌, subst, true, List, [], ◌∷◌, ◌++◌, filter, filter-append,
  All, append-nil, length, map, present, Option, some, if_cases, arith,
}
use cc_tools_qt.Message.{Message, DataInfo}
use cc_tools_qt.Plugins.{Plugins, KeepsLabels}
use cc_tools_qt.MsgMgr.Fields.{State, Event, u64_mod}
use cc_tools_qt.MsgMgr.Order.{NotIn, Apart}
use cc_tools_qt.MsgMgr.Send.{send_msgs}
use cc_tools_qt.MsgMgr.Send.Effects.{reports, send_msgs-appends}
use cc_tools_qt.MsgMgr.Send.Numbering.{send_msgs-objects}
use cc_tools_qt.MsgMgr.Receive.{socket_data_received}
use cc_tools_qt.MsgMgr.Receive.Numbering.{addresses}
use cc_tools_qt.MsgMgr.Receive.Listing.{
  read_from, socket_data_received_adds, socket_data_received-objects,
}
use cc_tools_qt.Gui.{Window, can_add_to_recv_list}
use cc_tools_qt.Gui.Clicks.{display_message}
use cc_tools_qt.Gui.RecvList.{
  add_msg_to_recv_list, show_pending, msg_added, on_event, on_events, with_msg_mgr,
}
use cc_tools_qt.Gui.Shown.{Shows, Adds, Adds-trans, Shows_after}
use cc_tools_qt.Gui.Shown.Modes.{
  SameModes, SameModes-refl, SameModes-trans, add_msg_to_recv_list-SameModes,
  rows-add_msg_to_recv_list,
}

Apart-cons : (hs ks : List ℕ) (x : ℕ) → Apart hs (x ∷ ks) → NotIn x hs × Apart hs ks
Apart-cons [] ks x a = (tt, tt)
Apart-cons (h ∷ hs) ks x a =
    let (n, rest) = Apart-cons hs ks x a.1 in (((λ e. a.0.0 (sym e)), n), (a.0.1, rest))

All-kept :
    (n : ℕ) (o o' : ℕ → Message) (hs : List ℕ)
    → ((q : ℕ) → q < n → o' q ≡ o q)
    → All (λ h. h < n) hs
    → All (λ h. o' h ≡ o h) hs
All-kept n o o' [] same below = tt
All-kept n o o' (x ∷ hs) same below = (same x below.0, All-kept n o o' hs same below.1)

module _ {W : Type 0} where
  show_pending-SameModes :
      (h : ℕ) (s : Window W)
      → SameModes s (show_pending h s) × ((show_pending h s).recv_list.rows ≡ s.recv_list.rows)
  unfolding show_pending display_message
  show_pending-SameModes h s = (ground arith, ground arith)

  msg_added-Adds : (h : ℕ) (s : Window W) → Adds (h ∷ []) s (msg_added h s)
  unfolding msg_added
  msg_added-Adds h s =
      let s1 = add_msg_to_recv_list h s in
      let (modes, rows) = show_pending-SameModes h s1 in
      if_cases (λ (t : Window W). Adds (h ∷ []) s t) (can_add_to_recv_list s h) (show_pending h s1)
        s
        (λ e. record {
          modes = SameModes-trans s s1 _ (add_msg_to_recv_list-SameModes h s) modes;
          rows = rows ∙ rows-add_msg_to_recv_list h s ∙ ground (arith, e);
        })
        (λ e. record {
          modes = SameModes-refl s;
          rows = ground (arith, e, append-nil s.recv_list.rows);
        })

  on_events-Adds : (hs : List ℕ) (s : Window W) → Adds hs s (on_events (map Event.msg_added hs) s)
  unfolding on_events on_event
  on_events-Adds [] s = record {
    modes = SameModes-refl s;
    rows = sym (append-nil s.recv_list.rows);
  }
  on_events-Adds (h ∷ hs) s =
      let s1 = msg_added h s in
      Adds-trans (h ∷ []) hs s s1 _ (msg_added-Adds h s) (on_events-Adds hs s1)

  can_add_to_recv_list_object :
      (m : State W) (s : Window W) (h : ℕ)
      → m.objects h ≡ s.msg_mgr.objects h
      → can_add_to_recv_list (record s { msg_mgr = m }) h ≡ can_add_to_recv_list s h
  unfolding can_add_to_recv_list
  can_add_to_recv_list_object m s h e = rw e refl

  can_add_to_recv_list_objects :
      (m : State W) (s : Window W) (hs : List ℕ)
      → All (λ h. m.objects h ≡ s.msg_mgr.objects h) hs
      → filter (can_add_to_recv_list (record s { msg_mgr = m })) hs
        ≡ filter (can_add_to_recv_list s) hs
  can_add_to_recv_list_objects m s [] e = refl
  can_add_to_recv_list_objects m s (h ∷ hs) e =
      ground (arith, can_add_to_recv_list_object m s h e.0, can_add_to_recv_list_objects m s hs e.1)

  -- A call of the message manager that adds messages and reports them.
  with_msg_mgr-Shows :
      (f : State W → State W) (hs : List ℕ) (s : Window W)
      → (let m = f (record s.msg_mgr { events = [] }) in
          (m.all_msgs ≡ s.msg_mgr.all_msgs ++ hs)
          × (m.events ≡ map Event.msg_added hs)
          × All (λ h. m.objects h ≡ s.msg_mgr.objects h) s.msg_mgr.all_msgs)
      → Shows s
      → Shows (with_msg_mgr f s)
  unfolding with_msg_mgr
  with_msg_mgr-Shows f hs s (all, reported, same) shown =
      let m = f (record s.msg_mgr { events = [] }) in
      let s1 = record s { msg_mgr = record m { events = [] } } in
      let a = on_events-Adds hs s1 in
      let can = can_add_to_recv_list s1 in
      let old =
        sym (can_add_to_recv_list_objects (record m { events = [] }) s s.msg_mgr.all_msgs same) in
      subst (λ es. Shows (on_events es s1)) (sym reported)
        (a.rows
          ∙ ap (λ x. x ++ filter can hs) (shown ∙ old)
          ∙ sym (filter-append can s.msg_mgr.all_msgs hs)
          ∙ ap (λ x. filter can x) (sym all)
          ∙ Shows_after s1 (on_events (map Event.msg_added hs) s1) a.modes)

module _ {W : Type 0} (p : Plugins W) where
  kept_by_sending :
      (msgs : List (Option ℕ)) (m : State W) (all : List ℕ)
      → Apart (present msgs) all
      → All (λ h. (send_msgs p msgs m).objects h ≡ m.objects h) all
  kept_by_sending msgs m [] a = tt
  kept_by_sending msgs m (x ∷ all) a =
      let (n, rest) = Apart-cons (present msgs) all x a in
      (send_msgs-objects p msgs m x n, kept_by_sending msgs m all rest)

  -- While messages are sent, the list goes on to show exactly the stored messages that pass the modes
  -- and the filter, in their order, for distinct messages that are not stored yet.
  pub send_msgs-Shows :
      (k r : ℕ) (msgs : List (Option ℕ)) (s : Window W)
      → s.msg_mgr.msg_added_callback ≡ true
      → s.msg_mgr.socket ≡ some k
      → s.msg_mgr.protocol ≡ some r
      → Apart (present msgs) s.msg_mgr.all_msgs
      → Shows s
      → Shows (with_msg_mgr (send_msgs p msgs) s)
  send_msgs-Shows k r msgs s on ek er apart shown =
      let m = record s.msg_mgr { events = [] } in
      let (all, reported) = send_msgs-appends p k r msgs m ek er in
      with_msg_mgr-Shows (send_msgs p msgs) (present msgs) s
        (
          all,
          reported ∙ ap (λ b. reports b (present msgs)) on,
          kept_by_sending msgs m m.all_msgs apart,
        )
        shown

  -- While data is received, the list goes on to show exactly the stored messages that pass the modes
  -- and the filter, in their order. This holds when the signal comes from the manager's socket, with
  -- receiving enabled and a protocol, for a protocol that leaves the labels alone, up to the range
  -- of the 64-bit counter.
  pub socket_data_received-Shows :
      KeepsLabels p
      → (k r : ℕ) (d : DataInfo) (s : Window W) → s.msg_mgr.msg_added_callback ≡ true
      → s.msg_mgr.socket ≡ some k
      → s.msg_mgr.recv_enabled ≡ true
      → s.msg_mgr.protocol ≡ some r
      → s.msg_mgr.next_msg_num + length (read_from p r d s.msg_mgr).0 < u64_mod
      → All (λ h. h < s.msg_mgr.next_object) s.msg_mgr.all_msgs
      → Shows s
      → Shows (with_msg_mgr (socket_data_received p k (some d)) s)
  socket_data_received-Shows laws k r d s on ek en er b old shown =
      let m = record s.msg_mgr { events = [] } in
      let hs = addresses m.next_object (read_from p r d m).0 in
      let (all, reported, next, numbered, labelled) =
        socket_data_received_adds p laws k r d m ek en er b in
      with_msg_mgr-Shows (socket_data_received p k (some d)) hs s
        (
          all,
          reported ∙ ap (λ b. reports b hs) on,
          All-kept m.next_object m.objects _ m.all_msgs
              (socket_data_received-objects p k r d m ek en er) old,
        )
        shown
