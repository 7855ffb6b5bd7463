-- ===== src/Applying/Frames.antt =====
-- What the parts of GuiAppMgr::applyNewPlugins (app/cc_view/src/GuiAppMgr.cpp) leave alone.
use cc_tools_qt.Base.{
  none, false, Option-cases, ℕ, ◌≡◌, ◌⊎◌, refl, sym, ap, ◌∙◌, subst, Bool, List, [], ◌∷◌,
  Bool-cases, inl, inr, arith,
}
use cc_tools_qt.Plugins.{Plugins}
use cc_tools_qt.MsgMgr.Fields.{State, Event, report_socket_connection_status}
use cc_tools_qt.MsgMgr.Receive.{points_to, socket_connection_report}
use cc_tools_qt.Gui.{Window, ActivityState, Signal, emit}
use cc_tools_qt.Gui.Clicks.{display_message}
use cc_tools_qt.Gui.RecvList.{
  add_msg_to_recv_list, show_pending, msg_added, on_event, on_events, with_msg_mgr,
}
use cc_tools_qt.MsgMgr.Control.{stop, clear}
use cc_tools_qt.Applying.{
  Application, announce, disconnect_socket, connect_socket, stop_msg_mgr, add_actions,
}

-- Nothing but signals, the world and the plugins in use differ.
pub record SameDisplay {W : Type 0} (s t : Window W) : Type 0 where
  pub recv_list : t.recv_list ≡ s.recv_list
  pub send_list : t.send_list ≡ s.send_list
  pub recv_list_count : t.recv_list_count ≡ s.recv_list_count
  pub send_list_count : t.send_list_count ≡ s.send_list_count
  pub sel_type : t.sel_type ≡ s.sel_type
  pub clicked_msg : t.clicked_msg ≡ s.clicked_msg
  pub shows_received : t.shows_received ≡ s.shows_received
  pub shows_sent : t.shows_sent ≡ s.shows_sent
  pub shows_garbage : t.shows_garbage ≡ s.shows_garbage
  pub apply_filter : t.apply_filter ≡ s.apply_filter
  pub filtered_messages : t.filtered_messages ≡ s.filtered_messages
  pub all_msgs : t.msg_mgr.all_msgs ≡ s.msg_mgr.all_msgs
  pub objects : t.msg_mgr.objects ≡ s.msg_mgr.objects

-- The plugins in use, and whether they run.
pub record SamePlugins {W : Type 0} (m n : State W) : Type 0 where
  pub socket : n.socket ≡ m.socket
  pub protocol : n.protocol ≡ m.protocol
  pub filters : n.filters ≡ m.filters
  pub running : n.running ≡ m.running

module _ {W : Type 0} where
  pub SameDisplay-trans : (s t u : Window W) → SameDisplay s t → SameDisplay t u → SameDisplay s u
  SameDisplay-trans s t u a b = record {
    recv_list = b.recv_list ∙ a.recv_list;
    send_list = b.send_list ∙ a.send_list;
    recv_list_count = b.recv_list_count ∙ a.recv_list_count;
    send_list_count = b.send_list_count ∙ a.send_list_count;
    sel_type = b.sel_type ∙ a.sel_type;
    clicked_msg = b.clicked_msg ∙ a.clicked_msg;
    shows_received = b.shows_received ∙ a.shows_received;
    shows_sent = b.shows_sent ∙ a.shows_sent;
    shows_garbage = b.shows_garbage ∙ a.shows_garbage;
    apply_filter = b.apply_filter ∙ a.apply_filter;
    filtered_messages = b.filtered_messages ∙ a.filtered_messages;
    all_msgs = b.all_msgs ∙ a.all_msgs;
    objects = b.objects ∙ a.objects;
  }

  pub SamePlugins-trans : (m n o : State W) → SamePlugins m n → SamePlugins n o → SamePlugins m o
  SamePlugins-trans m n o a b = record {
    socket = b.socket ∙ a.socket;
    protocol = b.protocol ∙ a.protocol;
    filters = b.filters ∙ a.filters;
    running = b.running ∙ a.running;
  }

  -- No plugin is in use.
  pub record Unplugged (m : State W) : Type 0 where
    pub socket : m.socket ≡ none
    pub protocol : m.protocol ≡ none
    pub filters : m.filters ≡ []
    pub running : m.running ≡ false

  pub SamePlugins-Unplugged : (m n : State W) → SamePlugins m n → Unplugged m → Unplugged n
  SamePlugins-Unplugged m n a u = record {
    socket = a.socket ∙ u.socket;
    protocol = a.protocol ∙ u.protocol;
    filters = a.filters ∙ u.filters;
    running = a.running ∙ u.running;
  }

  on_event-msg_mgr : (e : Event) (s : Window W) → (on_event e s).msg_mgr ≡ s.msg_mgr
  unfolding on_event msg_added show_pending add_msg_to_recv_list display_message
  on_event-msg_mgr (Event.msg_added h) s = ground arith
  on_event-msg_mgr (Event.error_reported error) s = refl
  on_event-msg_mgr (Event.connection_reported connected) s = refl

  -- The callbacks leave the message manager alone.
  pub on_events-msg_mgr : (es : List Event) (s : Window W) → (on_events es s).msg_mgr ≡ s.msg_mgr
  unfolding on_events
  on_events-msg_mgr [] s = refl
  on_events-msg_mgr (e ∷ es) s = on_events-msg_mgr es (on_event e s) ∙ on_event-msg_mgr e s

  -- A call that stores no message and reports at most the state of the connection.
  pub record Quiet (m n : State W) : Type 0 where
    pub events : (n.events ≡ []) ⊎ ((b : Bool) × (n.events ≡ Event.connection_reported b ∷ []))
    pub all_msgs : n.all_msgs ≡ m.all_msgs
    pub objects : n.objects ≡ m.objects

  pub with_msg_mgr-SameDisplay :
      (f : State W → State W) (s : Window W)
      → Quiet s.msg_mgr (f (record s.msg_mgr { events = [] }))
      → SameDisplay s (with_msg_mgr f s)
  unfolding with_msg_mgr on_events on_event
  with_msg_mgr-SameDisplay f s q =
      let m = f (record s.msg_mgr { events = [] }) in
      let s1 = record s { msg_mgr = record m { events = [] } } in
      let d : SameDisplay s s1 = ground (arith, q.all_msgs, q.objects) in
      let P = λ (es : List Event). SameDisplay s (on_events es s1) in
      elim q.events [
        | inl e ↦ subst P (sym e) d
        | inr (b, e) ↦ subst P (sym e) (SameDisplay-trans s s1 _ d (ground arith))
      ]

  pub with_msg_mgr-SamePlugins :
      (f : State W → State W) (s : Window W)
      → SamePlugins (f (record s.msg_mgr { events = [] })) (with_msg_mgr f s).msg_mgr
  unfolding with_msg_mgr
  with_msg_mgr-SamePlugins f s =
      let m = f (record s.msg_mgr { events = [] }) in
      let e = on_events-msg_mgr m.events (record s { msg_mgr = record m { events = [] } }) in
      record {
        socket = ap (λ (n : State W). n.socket) e;
        protocol = ap (λ (n : State W). n.protocol) e;
        filters = ap (λ (n : State W). n.filters) e;
        running = ap (λ (n : State W). n.running) e;
      }

  pub add_actions-same :
      (actions : List ℕ) (s : Window W)
      → SameDisplay s (add_actions actions s) × ((add_actions actions s).msg_mgr ≡ s.msg_mgr)
  unfolding add_actions
  add_actions-same [] s = ground arith
  add_actions-same (a ∷ actions) s =
      let s1 = emit (Signal.add_main_toolbar_action a) s in
      let (d, e) = add_actions-same actions s1 in (SameDisplay-trans s s1 _ (ground arith) d, e)

module _ {W : Type 0} (p : Plugins W) where
  pub socket_connection_report-Quiet :
      (k : ℕ) (b : Bool) (w : W) (m : State W)
      → Quiet m (socket_connection_report p k b (record m { world = w; events = [] }))
  unfolding socket_connection_report report_socket_connection_status
  socket_connection_report-Quiet k b w m = elim (Bool-cases (points_to m.socket k)) [
    | inl e ↦ elim (Bool-cases m.connection_callback) [
      | inl c ↦ record {
        events = inr (b, ground (arith, e, c));
        all_msgs = ground arith;
        objects = ground arith;
      }
      | inr c ↦ record {
        events = inl (ground (arith, e, c));
        all_msgs = ground arith;
        objects = ground arith;
      }
    ]
    | inr e ↦ record {
      events = inl (ground (arith, e));
      all_msgs = ground arith;
      objects = ground arith;
    }
  ]

  pub socket_connection_report-SamePlugins :
      (k : ℕ) (b : Bool) (w : W) (m : State W)
      → SamePlugins m (socket_connection_report p k b (record m { world = w; events = [] }))
  unfolding socket_connection_report report_socket_connection_status
  socket_connection_report-SamePlugins k b w m = ground arith

module _ {W : Type 0} (a : Application W) where
  pub disconnect_socket-same :
      (s : Window W)
      → SameDisplay s (disconnect_socket a s)
        × SamePlugins s.msg_mgr (disconnect_socket a s).msg_mgr
  unfolding disconnect_socket
  disconnect_socket-same s = elim (Option-cases s.msg_mgr.socket) [
    | inl e ↦
        let eq : disconnect_socket a s ≡ s = ground (arith, e) in
        subst (λ (t : Window W). SameDisplay s t × SamePlugins s.msg_mgr t.msg_mgr) (sym eq)
          (ground arith)
    | inr (k, e) ↦
        let f : State W → State W = λ m.
          socket_connection_report a.plugins k false
            (record m { world = a.socket_disconnect k m.world }) in
        let eq : disconnect_socket a s ≡ with_msg_mgr f s = ground (arith, e) in
        let w = a.socket_disconnect k s.msg_mgr.world in
        subst (λ (t : Window W). SameDisplay s t × SamePlugins s.msg_mgr t.msg_mgr) (sym eq)
          (
            with_msg_mgr-SameDisplay f s
                (socket_connection_report-Quiet a.plugins k false w s.msg_mgr),
            SamePlugins-trans s.msg_mgr (f (record s.msg_mgr { events = [] })) _
                (socket_connection_report-SamePlugins a.plugins k false w s.msg_mgr)
                (with_msg_mgr-SamePlugins f s),
          )
  ]

  pub connect_socket-same :
      (k : ℕ) (s : Window W)
      → SameDisplay s (connect_socket a k s) × SamePlugins s.msg_mgr (connect_socket a k s).msg_mgr
  unfolding connect_socket
  connect_socket-same k s =
      let f : State W → State W = λ m.
        socket_connection_report a.plugins k (a.socket_connect k m.world).0
          (record m { world = (a.socket_connect k m.world).1 }) in
      let (ok, w) = a.socket_connect k s.msg_mgr.world in
      (
        with_msg_mgr-SameDisplay f s (socket_connection_report-Quiet a.plugins k ok w s.msg_mgr),
        SamePlugins-trans s.msg_mgr (f (record s.msg_mgr { events = [] })) _
            (socket_connection_report-SamePlugins a.plugins k ok w s.msg_mgr)
            (with_msg_mgr-SamePlugins f s),
      )

  pub stop_msg_mgr-SameDisplay : (s : Window W) → SameDisplay s (stop_msg_mgr a s)
  unfolding stop_msg_mgr stop clear
  stop_msg_mgr-SameDisplay s =
      let f : State W → State W = λ m. clear a.plugins (stop a.plugins m) in
      let q : Quiet s.msg_mgr (f (record s.msg_mgr { events = [] })) = record {
        events = inl (ground arith);
        all_msgs = ground arith;
        objects = ground arith;
      } in
      SameDisplay-trans s (with_msg_mgr f s) _ (with_msg_mgr-SameDisplay f s q) (ground arith)

  pub stop_msg_mgr-Unplugged : (s : Window W) → Unplugged (stop_msg_mgr a s).msg_mgr
  unfolding stop_msg_mgr stop clear
  stop_msg_mgr-Unplugged s =
      let f : State W → State W = λ m. clear a.plugins (stop a.plugins m) in
      let m = f (record s.msg_mgr { events = [] }) in
      let u : Unplugged m = ground arith in
      SamePlugins-Unplugged m _ (with_msg_mgr-SamePlugins f s) u

  pub announce-same :
      (props : ℕ) (actions : List ℕ) (s : Window W)
      → SameDisplay s (announce a props actions s)
        × SamePlugins s.msg_mgr (announce a props actions s).msg_mgr
  unfolding announce
  announce-same props actions s =
      let s1 = emit (Signal.activity_state_changed ActivityState.active) s in
      let (d, e) = add_actions-same actions s1 in
      (
        SameDisplay-trans s s1 _ (ground arith) (SameDisplay-trans s1 _ _ d (ground arith)),
        subst (λ (m : State W). SamePlugins s.msg_mgr m) (sym e) (ground arith),
      )
