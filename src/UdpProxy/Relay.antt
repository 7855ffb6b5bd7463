-- ===== src/UdpProxy/Relay.antt =====
-- The datagrams that the UDP proxy passes on (plugin/udp_socket/proxy/UdpProxySocket.cpp).
use cc_tools_qt.Base.{
  ℕ, zero, suc, ◌≤◌, ◌≡◌, refl, sym, ap, ap₂, ◌∙◌, subst, true, false, List, [], ◌∷◌, ◌++◌, map,
  append-nil, append_assoc, length, some, arith, if_keeps,
}
use cc_tools_qt.Socket.{Signal}
use cc_tools_qt.Socket.Echo.{received_bytes}
use cc_tools_qt.Udp.{Datagram, UdpNet}
use cc_tools_qt.UdpProxy.{
  State, relay, answer, read_listen_one, read_remote_one, read_pending,
  create_remote_socket_if_needed, read_from_listen_socket, read_from_remote_socket,
}
use cc_tools_qt.UdpProxy.Queues.{Queues, pending, bytes_of, Running, Passed, relay_lem}

module _ {W : Type 0} (n : UdpNet W) (queue : ℕ → W → List Datagram)
    (written : W → List (ℕ × List ℕ)) (q : Queues n queue written) where
  -- A datagram is out of its queue, and nothing else has happened yet.
  record Taken (l r k : ℕ) (gs : List Datagram) (s t : State W) : Type 0 where
    running : Running n queue written q l r t
    signals : t.signals ≡ s.signals
    kept : written t.world ≡ written s.world
    left : queue k t.world ≡ gs

  Taken-Passed :
      (l r from to t : ℕ) (g d : Datagram) (gs : List Datagram) (s u : State W)
      → Taken l r from gs s u
      → d ≡ g
      → Passed n queue written q l r from to (g ∷ []) s (relay n d t from (some to) u)
        × (queue from (relay n d t from (some to) u).world ≡ gs)
  Taken-Passed l r from to t g d gs s u x e =
      let (passed, same) = relay_lem n queue written q l r d t from to from u x.running in
      (
        record {
          running = passed.running;
          reported =
              passed.reported
              ∙ ap₂ (λ (es : List Signal) (y : Datagram). received_bytes es ++ y.bytes ∷ [])
                  x.signals e;
          passed =
              passed.passed
              ∙ ap₂ (λ (ws : List (ℕ × List ℕ)) (y : Datagram). ws ++ (to, y.bytes) ∷ []) x.kept e;
        },
        same ∙ x.left,
      )

  take-Taken :
      (l r k : ℕ) (g : Datagram) (gs : List Datagram) (s : State W)
      → Running n queue written q l r s
      → queue k s.world ≡ g ∷ gs
      → (let w = (n.now s.world).1 in
          ((n.read_datagram k w).0 ≡ g)
          × Taken l r k gs s (record s { world = (n.read_datagram k w).1 }))
  take-Taken l r k g gs s h e =
      let w = (n.now s.world).1 in
      let (same, kept) = q.now k s.world in
      let (got, left) = q.reads k w g gs (same ∙ e) in
      (
        got,
        record {
          running = record {
            running = h.running;
            forwarding = h.forwarding;
            listen_socket = h.listen_socket;
            remote_socket = h.remote_socket;
          };
          signals = refl;
          kept = q.read_datagram k w ∙ kept;
          left = left;
        },
      )

  answer-Taken :
      (l r : ℕ) (d : Datagram) (gs : List Datagram) (s u : State W)
      → Taken l r l gs s u
      → Taken l r l gs s (answer n l d u)
  unfolding answer
  answer-Taken l r d gs s u x =
      let (same, kept) = q.connect_to_host l l d.sender d.port u.world in
      if_keeps (λ (t : State W). Taken l r l gs s t) (n.is_connected l u.world) u
        (record u { world = (n.connect_to_host l d.sender d.port u.world).1 }) x
        (record {
          running = record {
            running = x.running.running;
            forwarding = x.running.forwarding;
            listen_socket = x.running.listen_socket;
            remote_socket = x.running.remote_socket;
          };
          signals = x.signals;
          kept = kept ∙ x.kept;
          left = same ∙ x.left;
        })

  -- What one round of a loop does.
  Passes : ℕ → ℕ → ℕ → ℕ → (State W → State W) → Type 0
  Passes l r from to body =
      (g : Datagram) (gs : List Datagram) (s : State W)
      → Running n queue written q l r s
      → queue from s.world ≡ g ∷ gs
      → Passed n queue written q l r from to (g ∷ []) s (body s) × (queue from (body s).world ≡ gs)

  read_listen_one-Passes : (l r : ℕ) → Passes l r l r (read_listen_one n l)
  unfolding Passes read_listen_one
  read_listen_one-Passes l r g gs s h e =
      let (t, w) = n.now s.world in
      let (d, w2) = n.read_datagram l w in
      let u = record s { world = w2 } in
      let (got, taken) = take-Taken l r l g gs s h e in
      let eq : read_listen_one n l s ≡ relay n d t l (some r) (answer n l d u) =
        ground (arith, h.forwarding, h.remote_socket) in
      subst
        (λ (x : State W). Passed n queue written q l r l r (g ∷ []) s x × (queue l x.world ≡ gs))
        (sym eq)
        (Taken-Passed l r l r t g d gs s (answer n l d u) (answer-Taken l r d gs s u taken) got)

  read_remote_one-Passes : (l r : ℕ) → Passes l r r l (read_remote_one n r)
  unfolding Passes read_remote_one
  read_remote_one-Passes l r g gs s h e =
      let (t, w) = n.now s.world in
      let (d, w2) = n.read_datagram r w in
      let u = record s { world = w2 } in
      let (got, taken) = take-Taken l r r g gs s h e in
      let eq : read_remote_one n r s ≡ relay n d t r (some l) u =
        ground (arith, h.forwarding, h.listen_socket) in
      subst
        (λ (x : State W). Passed n queue written q l r r l (g ∷ []) s x × (queue r x.world ≡ gs))
        (sym eq) (Taken-Passed l r r l t g d gs s u taken got)

  read_pending-Passed :
      (l r from to : ℕ) (body : State W → State W)
      → Passes l r from to body
      → (fuel : ℕ) (gs : List Datagram) (s : State W) → Running n queue written q l r s
      → queue from s.world ≡ gs
      → length gs ≤ fuel
      → Passed n queue written q l r from to gs s (read_pending n body from fuel s)
        × (queue from (read_pending n body from fuel s).world ≡ [])
  unfolding read_pending Passes
  read_pending-Passed l r from to body one zero [] s h e b =
      (record { running = h; reported = sym (append-nil _); passed = sym (append-nil _) }, e)
  read_pending-Passed l r from to body one zero (g ∷ gs) s h e b = absurd (omega arith)
  read_pending-Passed l r from to body one (suc fuel) [] s h e b =
      let stop : n.has_pending_datagrams from s.world ≡ false =
        q.has_pending from s.world ∙ ap pending e in
      rw (stop, read_pending)
        (record { running = h; reported = sym (append-nil _); passed = sym (append-nil _) }, e)
  read_pending-Passed l r from to body one (suc fuel) (g ∷ gs) s h e b =
      let go : n.has_pending_datagrams from s.world ≡ true =
        q.has_pending from s.world ∙ ap pending e in
      let (first, left) = one g gs s h e in
      let (rest, done) =
        read_pending-Passed l r from to body one fuel gs (body s) first.running left
          (omega arith) in
      let all : Passed n queue written q l r from to (g ∷ gs) s
          (read_pending n body from fuel (body s)) =
        record {
          running = rest.running;
          reported =
              rest.reported
              ∙ ap (λ x. x ++ map bytes_of gs) first.reported
              ∙ append_assoc (received_bytes s.signals) (g.bytes ∷ []) (map bytes_of gs);
          passed =
              rest.passed
              ∙ ap (λ x. x ++ map (λ y. (to, bytes_of y)) gs) first.passed
              ∙ append_assoc (written s.world) ((to, g.bytes) ∷ [])
                  (map (λ y. (to, bytes_of y)) gs);
        } in
      rw (go, read_pending) (all, done)

  -- A proxy that runs with both sockets passes on everything that waits, in either direction: when
  -- data arrives at one of them, each waiting datagram is reported with its bytes and written once to
  -- the other socket, in the order of arrival, until none waits. As many rounds as datagrams are
  -- enough. This holds for sockets whose queues change by reading only.
  pub reads_pass :
      (l r fuel : ℕ) (s : State W)
      → Running n queue written q l r s
      → length (queue l s.world) ≤ fuel
      → length (queue r s.world) ≤ fuel
      → ((t : State W) × (read_from_listen_socket n fuel s ≡ some t)
          × Passed n queue written q l r l r (queue l s.world) s t
          × (queue l t.world ≡ []))
        × ((t : State W) × (read_from_remote_socket n fuel s ≡ some t)
            × Passed n queue written q l r r l (queue r s.world) s t
            × (queue r t.world ≡ []))
  unfolding read_from_listen_socket read_from_remote_socket create_remote_socket_if_needed
  reads_pass l r fuel s h bl br =
      let (there, none_there) =
        read_pending-Passed l r l r (read_listen_one n l) (read_listen_one-Passes l r) fuel
          (queue l s.world) s h refl bl in
      let (back, none_back) =
        read_pending-Passed l r r l (read_remote_one n r) (read_remote_one-Passes l r) fuel
          (queue r s.world) s h refl br in
      (
        (
          read_pending n (read_listen_one n l) l fuel s,
          ground (arith, h.remote_socket, h.listen_socket),
          there,
          none_there,
        ),
        (
          read_pending n (read_remote_one n r) r fuel s,
          ground (arith, h.remote_socket),
          back,
          none_back,
        ),
      )
