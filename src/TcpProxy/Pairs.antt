-- ===== src/TcpProxy/Pairs.antt =====
-- The connection pairs of the TCP proxy and the data that is forwarded
-- (plugin/tcp_socket/proxy/TcpProxySocket.cpp).
use Prim.Native.String.{String}
use cc_tools_qt.Base.{
  value, value-insert, some, ap, sym, if◌then◌else◌, ==_iff, Option-cases, ℕ, List, [], ◌∷◌, ◌++◌,
  map, none, ◌≡◌, refl, ap₂, ◌∙◌, ◌==◌, Bool-cases, ==_refl, inl, inr, arith,
}
use cc_tools_qt.TcpProxy.{
  Net, State, find_by_client, erase_client, send_to_pairs, new_connection,
  client_connection_terminated, send_data_impl,
}
use cc_tools_qt.Message.{Variant, DataInfo}

-- Both sockets of each pair, in order.
abbrev pub both_ends : List (ℕ × ℕ) → List ℕ
both_ends [] = []
both_ends ((a, b) ∷ ps) = a ∷ b ∷ both_ends ps

erase_client-append :
    (c b : ℕ) (ps : List (ℕ × ℕ))
    → find_by_client c ps ≡ none
    → erase_client c (ps ++ (c, b) ∷ []) ≡ ps
unfolding find_by_client erase_client
erase_client-append c b [] h = ground (arith, ==_refl c)
erase_client-append c b ((x, y) ∷ ps) h = elim (Bool-cases (x == c)) [
  | inl e ↦ ground (arith, e, h)
  | inr e ↦ ground (arith, e, h, erase_client-append c b ps)
]

find_by_client-append :
    (c b : ℕ) (ps : List (ℕ × ℕ))
    → find_by_client c ps ≡ none
    → find_by_client c (ps ++ (c, b) ∷ []) ≡ some (c, b)
unfolding find_by_client
find_by_client-append c b [] h = ground (arith, ==_refl c)
find_by_client-append c b ((x, y) ∷ ps) h = elim (Bool-cases (x == c)) [
  | inl e ↦ ground (arith, e, h)
  | inr e ↦ ground (arith, e, h, find_by_client-append c b ps)
]

pub map-same : (f g : ℕ → String) → ((c : ℕ) → f c ≡ g c) → (cs : List ℕ) → map f cs ≡ map g cs
map-same f g h [] = refl
map-same f g h (c ∷ cs) = ap₂ (λ (x : String) (l : List String). x ∷ l) (h c) (map-same f g h cs)

module _ {W : Type 0} (n : Net W) where
  abbrev pub write_each : List ℕ → List ℕ → W → W
  write_each bytes [] w = w
  write_each bytes (c ∷ cs) w = write_each bytes cs (n.write c bytes w)

  send_to_pairs_lem :
      (bytes : List ℕ) (ps : List (ℕ × ℕ)) (w : W)
      → ((c d : ℕ) (bs : List ℕ) (v : W) → n.peer_name c (n.write d bs v) ≡ n.peer_name c v)
      → ((send_to_pairs n bytes ps w).1 ≡ write_each bytes (both_ends ps) w)
        × ((send_to_pairs n bytes ps w).0 ≡ map (λ c. n.peer_name c w) (both_ends ps))
  unfolding send_to_pairs
  send_to_pairs_lem bytes [] w keeps = (refl, refl)
  send_to_pairs_lem bytes ((a, b) ∷ ps) w keeps =
      let w1 = n.write b bytes (n.write a bytes w) in
      let (world, names) = send_to_pairs_lem bytes ps w1 keeps in
      let same : (c : ℕ) → n.peer_name c w1 ≡ n.peer_name c w =
        λ c. keeps c b bytes (n.write a bytes w) ∙ keeps c a bytes w in
      (
        world,
        ap₂ (λ (x : String) (l : List String). x ∷ l) (same a)
            (ap₂ (λ (x : String) (l : List String). x ∷ l) (same b)
              (names
                ∙ map-same (λ c. n.peer_name c w1) (λ c. n.peer_name c w) same (both_ends ps))),
      )

  -- A proxy that is sent a block writes its bytes once to both sockets of each pair, the pair's
  -- client first, in the order of the pairs, and does nothing else. The block goes on with its bytes
  -- and its time, with the names of these sockets in the same order as its receivers and the server's
  -- name as its sender. This holds when a write does not change the name of a peer.
  pub send_data_impl-pairs :
      (d : DataInfo) (s : State W)
      → ((c e : ℕ) (bs : List ℕ) (v : W) → n.peer_name c (n.write e bs v) ≡ n.peer_name c v)
      → let (e, t) = send_data_impl n d s in
        let ends = both_ends s.derived.sockets in
        (t ≡ record s { world = write_each d.bytes ends s.world })
        × (e.bytes ≡ d.bytes)
        × (e.timestamp ≡ d.timestamp)
        × (value "tcp.to" e.extra_properties
            ≡ some (Variant.texts (map (λ c. n.peer_name c s.world) ends)))
        × (value "tcp.from" e.extra_properties ≡ some (Variant.text (n.server_name t.world)))
  unfolding send_data_impl
  send_data_impl-pairs d s keeps =
      let (world, names) = send_to_pairs_lem d.bytes s.derived.sockets s.world keeps in
      (
        ap (λ (w : W). record s { world = w }) world,
        refl,
        refl,
        value-insert "tcp.to" "tcp.to" _ _ ∙ ap (λ l. some (Variant.texts l)) names,
        value-insert "tcp.to" "tcp.from" _ _ ∙ value-insert "tcp.from" "tcp.from" _ _,
      )

  -- When a client that was not connected before connects and then goes, the proxy is left with the
  -- pairs that it had.
  pub connection_ends :
      (s : State W)
      → find_by_client (n.next_pending_connection s.world).0 s.derived.sockets ≡ none
      → (client_connection_terminated n
          (n.next_pending_connection s.world).0
          (new_connection n s)).derived.sockets
        ≡ s.derived.sockets
  unfolding client_connection_terminated new_connection
  connection_ends s fresh =
      let c = (n.next_pending_connection s.world).0 in
      let b = (n.new_socket (n.next_pending_connection s.world).1).0 in
      ground (
        arith,
        find_by_client-append c b s.derived.sockets fresh,
        erase_client-append c b s.derived.sockets fresh,
      )

-- The pairs of other clients than `c`.
abbrev pub others : ℕ → List (ℕ × ℕ) → List (ℕ × ℕ)
others c [] = []
others c ((a, b) ∷ ps) = if a == c then others c ps else (a, b) ∷ others c ps

-- No client has two pairs.
abbrev pub Distinct : List (ℕ × ℕ) → Type 0
Distinct [] = Unit
Distinct ((a, b) ∷ ps) = (find_by_client a ps ≡ none) × Distinct ps

others-absent : (c : ℕ) (ps : List (ℕ × ℕ)) → find_by_client c ps ≡ none → others c ps ≡ ps
unfolding find_by_client
others-absent c [] h = refl
others-absent c ((a, b) ∷ ps) h = elim (Bool-cases (a == c)) [
  | inl e ↦ ground (arith, e, h)
  | inr e ↦ ground (arith, e, h, others-absent c ps)
]

erase_client-eq-others : (c : ℕ) (ps : List (ℕ × ℕ)) → Distinct ps → erase_client c ps ≡ others c ps
unfolding erase_client
erase_client-eq-others c [] h = refl
erase_client-eq-others c ((a, b) ∷ ps) h = elim (Bool-cases (a == c)) [
  | inl e ↦
      let same : a ≡ c = (==_iff a c).0 e in
      let absent = others-absent c ps (ap (λ x. find_by_client x ps) (sym same) ∙ h.0) in
      ground (arith, e, absent)
  | inr e ↦ ground (arith, e, erase_client-eq-others c ps h.1)
]

module _ {W : Type 0} (n : Net W) where
  -- When no client has two pairs, a client that goes leaves the pairs of all other clients in their
  -- order, whether the proxy knew that client or not.
  pub client_connection_terminated_lem :
      (c : ℕ) (s : State W)
      → Distinct s.derived.sockets
      → (client_connection_terminated n c s).derived.sockets ≡ others c s.derived.sockets
  unfolding client_connection_terminated
  client_connection_terminated_lem c s h =
      elim (Option-cases (find_by_client c s.derived.sockets)) [
        | inl e ↦ ground (arith, e, others-absent c s.derived.sockets e)
        | inr (x, e) ↦ ground (arith, e, erase_client-eq-others c s.derived.sockets h)
      ]
