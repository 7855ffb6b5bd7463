-- ===== src/UdpProxy/Queues.antt =====
-- What the UDP proxy does with one datagram (plugin/udp_socket/proxy/UdpProxySocket.cpp).
use Prim.Native.String.{String}
use cc_tools_qt.Base.{
  ◌⊎◌, ℕ, ◌≡◌, ap, ◌∙◌, Bool, true, false, List, [], ◌∷◌, ◌++◌, map, some, ◌==◌, Bool-cases, inl,
  inr, arith,
}
use cc_tools_qt.Message.{DataInfo, default_timestamp}
use cc_tools_qt.Socket.{Socket, Impl, data_received, stamp, signal, report_data_received}
use cc_tools_qt.Socket.Echo.{received_bytes, received_bytes-append}
use cc_tools_qt.Udp.{Datagram, UdpNet}
use cc_tools_qt.UdpProxy.{State, proxy, relay}

abbrev pub pending : List Datagram → Bool
pending [] = false
pending (g ∷ gs) = true

-- How Qt's sockets behave: a datagram that is read leaves its queue, and what is written, or looked
-- up meanwhile, changes no queue. `written` is all that has been written, with the socket.
pub record Queues {W : Type 0} (n : UdpNet W) (queue : ℕ → W → List Datagram)
    (written : W → List (ℕ × List ℕ)) : Type 0 where
  pub has_pending : (k : ℕ) (w : W) → n.has_pending_datagrams k w ≡ pending (queue k w)
  pub reads :
      (k : ℕ) (w : W) (g : Datagram) (gs : List Datagram)
      → queue k w ≡ g ∷ gs
      → ((n.read_datagram k w).0 ≡ g) × (queue k (n.read_datagram k w).1 ≡ gs)
  pub read_datagram : (k : ℕ) (w : W) → written (n.read_datagram k w).1 ≡ written w
  pub now : (k : ℕ) (w : W) → (queue k (n.now w).1 ≡ queue k w) × (written (n.now w).1 ≡ written w)
  pub connect_to_host :
      (k j : ℕ) (h : String) (p : ℕ) (w : W)
      → (queue k (n.connect_to_host j h p w).1 ≡ queue k w)
        × (written (n.connect_to_host j h p w).1 ≡ written w)
  pub write :
      (k j : ℕ) (bs : List ℕ) (w : W)
      → (queue k (n.write j bs w).1 ≡ queue k w)
        × (written (n.write j bs w).1 ≡ written w ++ (j, bs) ∷ [])

abbrev pub bytes_of : Datagram → List ℕ
bytes_of g = g.bytes

-- A block is reported with its bytes, whatever the socket's class.
pub report_data_received-bytes :
    {D W : Type 0} (i : Impl D W) (d : DataInfo) (s : Socket D W)
    → s.running ≡ true
    → received_bytes (report_data_received i d s).signals ≡ received_bytes s.signals ++ d.bytes ∷ []
unfolding report_data_received signal stamp
report_data_received-bytes i d s h =
    let d1 = (stamp i d s).0 in
    elim (Bool-cases (d.timestamp == default_timestamp)) [
      | inl e ↦ ground (arith, e, h, received_bytes-append s.signals (data_received d1 ∷ []))
      | inr e ↦ ground (arith, e, h, received_bytes-append s.signals (data_received d1 ∷ []))
    ]

module _ {W : Type 0} (n : UdpNet W) (queue : ℕ → W → List Datagram)
    (written : W → List (ℕ × List ℕ)) (q : Queues n queue written) where
  -- The proxy runs with both sockets.
  pub record Running (l r : ℕ) (s : State W) : Type 0 where
    pub running : s.running ≡ true
    pub forwarding : s.derived.running ≡ true
    pub listen_socket : s.derived.listen_socket ≡ some l
    pub remote_socket : s.derived.remote_socket ≡ some r

  -- The datagrams `gs` have come from `from`, have been reported and are written to `to`.
  pub record Passed (l r from to : ℕ) (gs : List Datagram) (s t : State W) : Type 0 where
    pub running : Running l r t
    pub reported : received_bytes t.signals ≡ received_bytes s.signals ++ map bytes_of gs
    pub passed : written t.world ≡ written s.world ++ map (λ g. (to, bytes_of g)) gs

  -- Reporting a block asks at most for the time.
  record Reported (s t : State W) : Type 0 where
    running : t.running ≡ s.running
    derived : t.derived ≡ s.derived
    world : (t.world ≡ s.world) ⊎ (t.world ≡ (n.now s.world).1)

  report_data_received-Reported :
      (d : DataInfo) (s : State W) → Reported s (report_data_received (proxy n) d s)
  unfolding report_data_received signal stamp
  report_data_received-Reported d s = elim (Bool-cases s.running) [
    | inr h ↦ record { running = ground arith; derived = ground arith; world = inl (ground arith) }
    | inl h ↦ elim (Bool-cases (d.timestamp == default_timestamp)) [
      | inl e ↦ record {
        running = ground (arith, e, h);
        derived = ground (arith, e, h);
        world = inr (ground (arith, e, h));
      }
      | inr e ↦ record {
        running = ground (arith, e, h);
        derived = ground (arith, e, h);
        world = inl (ground (arith, e, h));
      }
    ]
  ]

  Reported-keeps :
      (k : ℕ) (s t : State W)
      → Reported s t
      → (queue k t.world ≡ queue k s.world) × (written t.world ≡ written s.world)
  Reported-keeps k s t m = elim m.world [
    | inl e ↦ (ap (λ w. queue k w) e, ap written e)
    | inr e ↦
        let (same, kept) = q.now k s.world in (ap (λ w. queue k w) e ∙ same, ap written e ∙ kept)
  ]

  pub relay_lem :
      (l r : ℕ) (g : Datagram) (t from to k : ℕ) (s : State W)
      → Running l r s
      → Passed l r from to (g ∷ []) s (relay n g t from (some to) s)
        × (queue k (relay n g t from (some to) s).world ≡ queue k s.world)
  unfolding relay
  relay_lem l r g t from to k s h =
      let w = (n.write to g.bytes s.world).1 in
      let (same, put) = q.write k to g.bytes s.world in
      let s1 = record s { world = w } in
      let m = report_data_received-Reported _ s1 in
      let (kept, stays) = Reported-keeps k s1 _ m in
      (
        record {
          running = record {
            running = m.running ∙ h.running;
            forwarding = ap (λ x. x.running) m.derived ∙ h.forwarding;
            listen_socket = ap (λ x. x.listen_socket) m.derived ∙ h.listen_socket;
            remote_socket = ap (λ x. x.remote_socket) m.derived ∙ h.remote_socket;
          };
          reported = report_data_received-bytes (proxy n) _ s1 h.running;
          passed = stays ∙ put;
        },
        kept ∙ same,
      )
