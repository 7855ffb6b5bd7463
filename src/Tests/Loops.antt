-- ===== src/Tests/Loops.antt =====
-- A message that goes through the echo socket, at a concrete state: two filters that put their number in
-- front of the bytes, and a frame that sends the payload alone.
use cc_tools_qt.Base.{ℕ, ◌≡◌, refl, true, false, [], ◌∷◌, drop, some, arith}
use cc_tools_qt.Message.{plain_message, type_received}
use cc_tools_qt.MsgMgr.Fields.{State}
use cc_tools_qt.MsgMgr.Send.{send_msgs}
use cc_tools_qt.Protocol.{Frame}
use cc_tools_qt.Loopback.{Station, assembled, timer_fires}
use cc_tools_qt.Loopback.Coding.{ByteCodec}
use cc_tools_qt.MsgMgr.Receive.Contents.{contents}
use cc_tools_qt.Loopback.Contents.{ReadsBack}
use cc_tools_qt.Loopback.Arrival.{timer_fires-send_msgs}
use cc_tools_qt.Tests.Samples.{plain, plain-KeepsLabels, manager, simple}
use cc_tools_qt.Tests.Protocols.{frame}

abbrev payload_frame : Frame ℕ
payload_frame = record frame { read_data = λ d w. (plain_message "1" "Simple" d.bytes ∷ [], w) }

abbrev echo_station : Station ℕ
echo_station = record {
  running = true;
  connected = true;
  derived = record { pending_data = []; timer_active = false };
  world = 100;
  signals = [];
}

abbrev echo_manager : State (Station ℕ)
echo_manager = record {
  all_msgs = manager.all_msgs;
  recv_enabled = true;
  socket = some 10;
  protocol = some 20;
  filters = 30 ∷ 31 ∷ [];
  next_msg_num = 5;
  running = true;
  msg_added_callback = true;
  error_report_callback = true;
  connection_callback = true;
  objects = manager.objects;
  next_object = 8;
  world = echo_station;
  events = [];
}

plain-ByteCodec : ByteCodec plain
plain-ByteCodec = record {
  encode = λ i bytes. i ∷ bytes;
  decode = λ i bytes. drop 1 bytes;
  sends = λ i d w. refl;
  receives = λ i d w. refl;
  undoes = λ i bytes. refl;
}

simple-ReadsBack : ReadsBack payload_frame simple
simple-ReadsBack = record {
  decoded = simple;
  reads = λ d w e i. plain_message "1" "Simple" (e i) ∷ [];
  same = refl;
}

timer_fires-send_msgs_example :
    let p = assembled payload_frame plain in
    let t = timer_fires p payload_frame.now 10 (send_msgs p (some 3 ∷ []) echo_manager) in
    (t.all_msgs ≡ 0 ∷ 1 ∷ 2 ∷ 3 ∷ 8 ∷ [])
    × (contents (t.objects 8) ≡ ("1", "Simple", 1 ∷ 2 ∷ []))
    × ((t.objects 8).msg_type ≡ some type_received)
    × ((t.objects 8).msg_num ≡ some 6)
timer_fires-send_msgs_example =
    timer_fires-send_msgs payload_frame plain plain-ByteCodec plain-KeepsLabels (λ r m w. refl) 10
      20 3 echo_manager simple-ReadsBack refl refl refl
      (record { connected = refl; running = refl; empty = refl }) refl (omega arith)
