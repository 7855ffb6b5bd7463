-- ===== src/Udp.antt =====
-- What the UDP sockets share (plugin/udp_socket/generic/UdpGenericSocket.cpp and
-- proxy/UdpProxySocket.cpp): Qt's QUdpSocket as a record of its functions, a socket being a number, and
-- the loop that writes the bytes of a block.
pub mod Writing
use Prim.Native.String.{String}
use cc_tools_qt.Base.{
  ℕ, zero, suc, Bool, true, false, List, [], ◌∷◌, drop, length, insert, Option, none, some,
}
use cc_tools_qt.Message.{Variant, DataInfo}

-- A datagram with the address and the port of its sender.
pub record Datagram : Type 0 where
  pub bytes : List ℕ
  pub sender : String
  pub port : ℕ

-- A name is `address:port`.
pub record UdpNet (W : Type 0) : Type 0 where
  pub now : W → ℕ × W
  pub new_socket : W → ℕ × W
  pub bind : ℕ → ℕ → W → Bool × W
  pub open_socket : ℕ → W → Bool × W
  pub is_open : ℕ → W → Bool
  pub is_connected : ℕ → W → Bool
  -- `connectToHost` with `waitForConnected`.
  pub connect_to_host : ℕ → String → ℕ → W → Bool × W
  pub close : ℕ → W → W
  pub has_pending_datagrams : ℕ → W → Bool
  -- `readDatagram` of the pending size.
  pub read_datagram : ℕ → W → Datagram × W
  -- How many bytes were taken; `none` is a negative number.
  pub write : ℕ → List ℕ → W → Option ℕ × W
  pub write_datagram : ℕ → String → ℕ → List ℕ → W → Option ℕ × W
  -- MulticastTtlOption; an `int` is its bit pattern.
  pub ttl_option : ℕ → W → Option ℕ
  pub set_ttl_option : ℕ → ℕ → W → W
  pub local_name : ℕ → W → String
  pub peer_name : ℕ → W → String
  pub name_of : String → ℕ → String
  pub broadcast_host : String
  pub error_string : ℕ → W → String
  pub block_signals : ℕ → Bool → W → W
  -- `delete` or `deleteLater`.
  pub release : ℕ → W → W
  -- QString::arg of a number, and the conversions of a QVariant.
  pub text_of : ℕ → String
  pub as_text : Variant → Option String
  pub as_int : Variant → Option ℕ
  pub as_bool : Variant → Option Bool

module _ {W : Type 0} (put : List ℕ → W → Option ℕ × W) where
  -- The loop over `writtenCount`, on the bytes that are still to be written: whether it has written them
  -- all, `none` while it goes on.
  unfoldable pub write_loop : ℕ → List ℕ → W → Option Bool × W
  write_loop fuel [] w = (some true, w)
  write_loop zero (b ∷ bs) w = (none, w)
  write_loop (suc fuel) (b ∷ bs) w =
      let (count, w1) = put (b ∷ bs) w in
      elim count [ none ↦ (some false, w1) | some c ↦ write_loop fuel (drop c (b ∷ bs)) w1 ]

  -- Writing the bytes of a block, and the name of the receiver when they are written. There are at most
  -- as many rounds as bytes (Udp/Writing).
  unfoldable pub write_block : (W → String) → DataInfo → W → DataInfo × W
  write_block name d w =
      let (done, w1) = write_loop (length d.bytes) d.bytes w in
      elim done [
        | none ↦ (d, w1)
        | some ok ↦ elim ok [
          | false ↦ (d, w1)
          | true ↦ (
            record d {
              extra_properties = insert "udp.to" (Variant.text (name w1)) d.extra_properties;
            },
            w1,
          )
        ]
      ]
