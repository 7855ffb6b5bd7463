-- ===== src/TcpServer/Broadcast.antt =====
-- To whom the TCP server sends (plugin/tcp_socket/server/TcpServerSocket.cpp).
use Prim.Native.String.{String}
use cc_tools_qt.Base.{
  ℕ, ◌≡◌, refl, ap, ap₂, ◌∙◌, Bool, false, not, List, [], ◌∷◌, map, filter, All, value,
  value-insert, some, ◌==◌, ==_iff, Bool-cases, inl, inr, arith,
}
use cc_tools_qt.Message.{Variant, DataInfo}
use cc_tools_qt.TcpProxy.{Net}
use cc_tools_qt.TcpProxy.Pairs.{write_each, map-same}
use cc_tools_qt.TcpServer.{State, erase_socket, send_to_all, send_data_impl, connection_terminated}

-- No socket is listed twice.
abbrev pub Distinct : List ℕ → Type 0
Distinct [] = Unit
Distinct (c ∷ cs) = All (λ d. (d == c) ≡ false) cs × Distinct cs

abbrev pub other_than : ℕ → ℕ → Bool
other_than c d = not (d == c)

all_others : (c : ℕ) (cs : List ℕ) → All (λ d. (d == c) ≡ false) cs → filter (other_than c) cs ≡ cs
all_others c [] h = refl
all_others c (d ∷ cs) h = ground (arith, h.0, all_others c cs h.1)

erase_socket-eq-filter :
    (c : ℕ) (cs : List ℕ) → Distinct cs → erase_socket c cs ≡ filter (other_than c) cs
unfolding erase_socket
erase_socket-eq-filter c [] h = refl
erase_socket-eq-filter c (d ∷ cs) h = elim (Bool-cases (d == c)) [
  | inl e ↦
      let same : d ≡ c = (==_iff d c).0 e in
      let rest = all_others d cs h.0 in
      ground (arith, e, ap (λ x. filter (other_than x) cs) same, rest)
  | inr e ↦ ground (arith, e, erase_socket-eq-filter c cs h.1)
]

module _ {W : Type 0} (n : Net W) where
  send_to_all_lem :
      (bytes cs : List ℕ) (w : W)
      → ((c d : ℕ) (bs : List ℕ) (v : W) → n.peer_name c (n.write d bs v) ≡ n.peer_name c v)
      → ((send_to_all n bytes cs w).1 ≡ write_each n bytes cs w)
        × ((send_to_all n bytes cs w).0 ≡ map (λ c. n.peer_name c w) cs)
  unfolding send_to_all
  send_to_all_lem bytes [] w keeps = (refl, refl)
  send_to_all_lem bytes (c ∷ cs) w keeps =
      let w1 = n.write c bytes w in
      let (world, names) = send_to_all_lem bytes cs w1 keeps in
      let same : (d : ℕ) → n.peer_name d w1 ≡ n.peer_name d w = λ d. keeps d c bytes w in
      (
        world,
        ap₂ (λ (x : String) (l : List String). x ∷ l) (same c)
            (names ∙ map-same (λ d. n.peer_name d w1) (λ d. n.peer_name d w) same cs),
      )

  -- After a client has gone, a block that is sent is written once to each of the other clients, in the
  -- order in which they came, and not to the one that has gone; nothing else is done to the network.
  -- The block is marked with the names of these clients. This holds when no socket is listed twice and
  -- a write changes no name of a peer.
  pub send_after_termination :
      (c : ℕ) (d : DataInfo) (s : State W)
      → Distinct s.derived.sockets
      → ((x y : ℕ) (bs : List ℕ) (v : W) → n.peer_name x (n.write y bs v) ≡ n.peer_name x v)
      → let (sent, t) = send_data_impl n d (connection_terminated n c s) in
        let others = filter (other_than c) s.derived.sockets in
        (t.world ≡ write_each n d.bytes others s.world)
        × (value "tcp.to" sent.extra_properties
            ≡ some (Variant.texts (map (λ x. n.peer_name x s.world) others)))
  unfolding send_data_impl connection_terminated
  send_after_termination c d s distinct keeps =
      let left = erase_socket-eq-filter c s.derived.sockets distinct in
      let (world, names) =
        send_to_all_lem d.bytes (erase_socket c s.derived.sockets) s.world keeps in
      (
        world ∙ ap (λ cs. write_each n d.bytes cs s.world) left,
        value-insert "tcp.to" "tcp.to" _ _
            ∙ ap (λ l. some (Variant.texts l))
                (names ∙ ap (λ cs. map (λ x. n.peer_name x s.world) cs) left),
      )
