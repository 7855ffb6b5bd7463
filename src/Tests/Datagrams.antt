-- ===== src/Tests/Datagrams.antt =====
-- The theorems on the UDP sockets at concrete states. Socket 1 listens and socket 2 is the remote one. A
-- write to the proxy's sockets takes all bytes; the other socket takes one byte at a time.
use Prim.Native.String.{String}
use cc_tools_qt.Base.{
  str_eq, ℕ, ◌≡◌, refl, true, false, List, [], ◌∷◌, ◌++◌, Option, none, some, ◌==◌, length,
  if◌then◌else◌, Bool-cases, inl, inr, arith,
}
use cc_tools_qt.Message.{Variant, DataInfo}
use cc_tools_qt.Udp.{Datagram, UdpNet}
use cc_tools_qt.UdpProxy
use cc_tools_qt.UdpProxy.{read_from_listen_socket, read_from_remote_socket}
use cc_tools_qt.UdpProxy.Queues.{Queues, pending, Running, Passed}
use cc_tools_qt.UdpProxy.Relay.{reads_pass}
use cc_tools_qt.UdpGeneric
use cc_tools_qt.UdpGeneric.{broadcasts}
use cc_tools_qt.UdpGeneric.Sending.{Destination}

record World : Type 0 where
  here : List Datagram
  there : List Datagram
  written : List (ℕ × List ℕ)
  taken : List ℕ
  cast : String → ℕ → List ℕ

abbrev datagram : ℕ → Datagram
datagram b = record { bytes = b ∷ []; sender = "10.0.0.7"; port = 5000 }

abbrev first_of : List Datagram → Datagram
first_of [] = datagram 0
first_of (g ∷ gs) = g

abbrev rest_of : List Datagram → List Datagram
rest_of [] = []
rest_of (g ∷ gs) = gs

abbrev queue : ℕ → World → List Datagram
queue k w = if k == 1 then w.here else w.there

abbrev take_one : List ℕ → World → Option ℕ × World
take_one [] w = (some 0, w)
take_one (b ∷ bs) w = (some 1, record w { taken = w.taken ++ b ∷ [] })

abbrev cast_one : String → ℕ → List ℕ → World → Option ℕ × World
cast_one h p [] w = (some 0, w)
cast_one h p (b ∷ bs) w = (
  some 1,
  record w {
    cast = λ g q.
        if str_eq h g then (if p == q then w.cast g q ++ b ∷ [] else w.cast g q) else w.cast g q;
  },
)

abbrev net : UdpNet World
net = record {
  now = λ w. (7, w);
  new_socket = λ w. (2, w);
  bind = λ k p w. (true, w);
  open_socket = λ k w. (true, w);
  is_open = λ k w. true;
  is_connected = λ k w. false;
  connect_to_host = λ k h p w. (true, w);
  close = λ k w. w;
  has_pending_datagrams = λ k w. pending (queue k w);
  read_datagram = λ k w. (
    first_of (queue k w),
    if k == 1 then record w { here = rest_of w.here } else record w { there = rest_of w.there },
  );
  write = λ k bs w. (some (length bs), record w { written = w.written ++ (k, bs) ∷ [] });
  write_datagram = λ k h p bs w. cast_one h p bs w;
  ttl_option = λ k w. none;
  set_ttl_option = λ k t w. w;
  local_name = λ k w. "0.0.0.0:20001";
  peer_name = λ k w. "10.0.0.8:20000";
  name_of = λ h p. "10.0.0.7:5000";
  broadcast_host = "255.255.255.255";
  error_string = λ k w. "error";
  block_signals = λ k b w. w;
  release = λ k w. w;
  text_of = λ k. "20001";
  as_text = λ v. none;
  as_int = λ v. none;
  as_bool = λ v. none;
}

abbrev slow_net : UdpNet World
slow_net = record net { write = λ k bs w. take_one bs w; as_bool = λ v. some true }

abbrev sent_to : ℕ → Destination → World → List ℕ
sent_to k none w = w.taken
sent_to k (some (h, p)) w = w.cast h p

reads_first :
    (k : ℕ) (w : World) (g : Datagram) (gs : List Datagram)
    → queue k w ≡ g ∷ gs
    → ((net.read_datagram k w).0 ≡ g) × (queue k (net.read_datagram k w).1 ≡ gs)
reads_first k w g gs e = elim (Bool-cases (k == 1)) [
  | inl one ↦ ground (arith, one, e)
  | inr other ↦ ground (arith, other, e)
]

net-Queues : Queues net queue (λ w. w.written)
net-Queues = record {
  has_pending = λ k w. refl;
  reads = λ k w g gs e. reads_first k w g gs e;
  read_datagram = λ k w. ground arith;
  now = λ k w. (refl, refl);
  connect_to_host = λ k j h p w. (refl, refl);
  write = λ k j bs w. (refl, refl);
}

abbrev relaying : UdpProxy.State World
relaying = record {
  running = true;
  connected = true;
  derived = record {
    host = "10.0.0.8";
    port = 20000;
    local_port = 20001;
    listen_socket = some 1;
    remote_socket = some 2;
    running = true;
    config_changes = 0;
  };
  world = record {
    here = datagram 5 ∷ datagram 6 ∷ [];
    there = datagram 9 ∷ [];
    written = [];
    taken = [];
    cast = λ h p. [];
  };
  signals = [];
}

relaying-Running : Running net queue (λ w. w.written) net-Queues 1 2 relaying
relaying-Running = record {
  running = refl;
  forwarding = refl;
  listen_socket = refl;
  remote_socket = refl;
}

reads_pass_example :
    ((t : UdpProxy.State World) × (read_from_listen_socket net 3 relaying ≡ some t)
      × Passed net queue
          (λ w. w.written)
          net-Queues
          1
          2
          1
          2
          (datagram 5 ∷ datagram 6 ∷ [])
          relaying
          t
      × (queue 1 t.world ≡ []))
    × ((t : UdpProxy.State World) × (read_from_remote_socket net 3 relaying ≡ some t)
        × Passed net queue (λ w. w.written) net-Queues 1 2 2 1 (datagram 9 ∷ []) relaying t
        × (queue 2 t.world ≡ []))
reads_pass_example =
    reads_pass net queue (λ w. w.written) net-Queues 1 2 3 relaying relaying-Running (omega arith)
      (omega arith)

abbrev sending : UdpGeneric.State World
sending = record {
  running = true;
  connected = true;
  derived = record {
    socket = 1;
    host = "10.0.0.8";
    port = 20000;
    local_port = 0;
    broadcast_mask = "255.255.255.255";
    default_ttl = 64;
    running = true;
    config_changes = 0;
  };
  world = relaying.world;
  signals = [];
}

abbrev two_bytes : DataInfo
two_bytes = record {
  timestamp = 1;
  bytes = 3 ∷ 4 ∷ [];
  extra_properties = ("network.broadcast", Variant.text "true") ∷ [];
}
