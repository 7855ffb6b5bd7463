-- ===== src/UdpGeneric/Sending.antt =====
-- What the UDP socket writes of a block (plugin/udp_socket/generic/UdpGenericSocket.cpp).
use Prim.Native.String.{String}
use cc_tools_qt.Base.{ℕ, ◌≡◌, List, [], ◌∷◌, Option, none, some, ◌++◌, insert, if◌then◌else◌}
use cc_tools_qt.Message.{Variant, DataInfo, get_from}
use cc_tools_qt.TcpProxy.{setting}
use cc_tools_qt.Udp.{UdpNet}
use cc_tools_qt.Udp.Writing.{Takes, Ended, is_nil}
use cc_tools_qt.UdpGeneric.{State, broadcasts}

-- Where a block goes to: a host and its port, or the peer that the socket is connected to.
abbrev pub Destination : Type 0
Destination = Option (String × ℕ)

-- One write of some bytes to a destination.
abbrev pub write_to : {W : Type 0} → UdpNet W → ℕ → Destination → List ℕ → W → Option ℕ × W
write_to n k none bytes w = n.write k bytes w
write_to n k (some (host, port)) bytes w = n.write_datagram k host port bytes w

-- Each write takes bytes from the front; `sent` is all that a socket has taken for a destination.
-- Setting the time to live takes none.
pub record Sockets {W : Type 0} (n : UdpNet W) (sent : ℕ → Destination → W → List ℕ) : Type 0 where
  pub write : (k : ℕ) → Takes (n.write k) (sent k none)
  pub write_datagram :
      (k : ℕ) (host : String) (port : ℕ)
      → Takes (n.write_datagram k host port) (sent k (some (host, port)))
  pub set_ttl_option :
      (k ttl : ℕ) (to : Destination) (w : W) → sent k to (n.set_ttl_option k ttl w) ≡ sent k to w

module _ {W : Type 0} (n : UdpNet W) where
  abbrev pub with_from : DataInfo → State W → DataInfo
  with_from d s = record d {
    extra_properties =
        insert "udp.from" (Variant.text (n.local_name s.derived.socket s.world)) d.extra_properties;
  }

  abbrev pub with_to : String → DataInfo → DataInfo
  with_to name d = record d {
    extra_properties = insert "udp.to" (Variant.text name) d.extra_properties;
  }

  -- The mask that a block asks for, or that of the socket.
  abbrev pub mask : DataInfo → State W → String
  mask d s =
      get_from
        (setting n.as_text ("network.broadcast_mask" ∷ "udp.broadcast_mask" ∷ [])
          (with_from d s).extra_properties none)
        s.derived.broadcast_mask

  -- All hosts of the mask, or the peer of the socket.
  abbrev pub destination : DataInfo → State W → Destination
  destination d s = if broadcasts n (with_from d s) s then some (mask d s, s.derived.port) else none

  -- The name of the receiver: all, or the peer of the socket.
  abbrev pub receiver : DataInfo → State W → W → String
  receiver d s w =
      if broadcasts n (with_from d s) s
      then n.name_of n.broadcast_host s.derived.port
      else n.peer_name s.derived.socket w

module _ {W : Type 0} (n : UdpNet W) (sent : ℕ → Destination → W → List ℕ)
    (laws : Sockets n sent) where
  -- What one of the two ways does with the block that names its sender.
  Writes : DataInfo → Destination → State W → (W → String) → DataInfo × W → Type 0
  Writes d to s name r =
      (rest : List ℕ) × (sent s.derived.socket to r.1 ++ rest
        ≡ sent s.derived.socket to s.world ++ d.bytes)
      × Ended (write_to n s.derived.socket to) rest r.1
      × (r.0 ≡ (if is_nil rest then with_to n (name r.1) (with_from n d s) else with_from n d s))
