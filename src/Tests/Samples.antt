-- ===== src/Tests/Samples.antt =====
-- Plugins for the tests: a world that counts the clock's readings, filters that
-- put their number in front of the data, a socket that drops it, and a protocol that puts one message into a block.
use cc_tools_qt.Base.{drop, ℕ, ◌+◌, refl, true, [], ◌∷◌, some, ◌==◌, if◌then◌else◌}
use cc_tools_qt.Message.{Message, DataInfo, type_sent, plain_message}
use cc_tools_qt.Plugins.{Plugins, KeepsLabels}
use cc_tools_qt.MsgMgr.Fields.{State}
use cc_tools_qt.SendMgr.Clones.{CanClone}

abbrev pub copy_of : Message → Message
copy_of m = record (plain_message m.id_as_string m.name m.payload) {
  delay = m.delay;
  repeat_duration = m.repeat_duration;
  repeat_count = m.repeat_count;
}

abbrev pub plain : Plugins ℕ
plain = record {
  now = λ w. (w, w + 1);
  to_ms = λ t. t;
  socket_start = λ k w. w;
  socket_stop = λ k w. w;
  socket_send = λ k d w. (d, w);
  filter_start = λ f w. w;
  filter_stop = λ f w. w;
  filter_recv = λ f d w. (record d { bytes = drop 1 d.bytes } ∷ [], w);
  filter_send = λ f d w. (record d { bytes = f ∷ d.bytes } ∷ [], w);
  filter_connection_report = λ f b w. w;
  protocol_read = λ r d w. (plain_message "1" "Simple" d.bytes ∷ [], w);
  protocol_write =
      λ r m w. (some (record { timestamp = w; bytes = m.payload; extra_properties = [] }), w);
  protocol_update = λ r m w. (m, w);
  protocol_clone = λ r m w. (some (copy_of m), w);
  protocol_received_report = λ r m w. (m, w);
  protocol_sent_report = λ r m w. (m, w);
  protocol_connection_report = λ r b w. w;
}

pub plain-KeepsLabels : KeepsLabels plain
plain-KeepsLabels = record { received_num = λ r m w. refl; received_type = λ r m w. refl }

unfoldable pub plain-CanClone : CanClone plain
plain-CanClone = record { copy = λ r m w. copy_of m; copies = λ r m w. refl }

abbrev pub block : DataInfo
block = record { timestamp = 7; bytes = 1 ∷ 2 ∷ []; extra_properties = [] }

abbrev pub simple : Message
simple = plain_message "1" "Simple" (1 ∷ 2 ∷ [])

-- A message that is stored under the number `n`.
abbrev pub numbered : ℕ → Message
numbered n = record simple { msg_num = some n; msg_type = some type_sent }

-- Objects 0, 1 and 2 are stored under the numbers 1, 2 and 4; objects 3 and up are new.
abbrev pub stored_objects : ℕ → Message
stored_objects h =
    if h == 0
    then numbered 1
    else if h == 1
    then numbered 2
    else if h == 2
    then numbered 4
    else simple

abbrev pub manager : State ℕ
manager = record {
  all_msgs = 0 ∷ 1 ∷ 2 ∷ [];
  recv_enabled = true;
  socket = some 10;
  protocol = some 20;
  filters = 30 ∷ 31 ∷ 32 ∷ [];
  next_msg_num = 5;
  running = true;
  msg_added_callback = true;
  error_report_callback = true;
  connection_callback = true;
  objects = stored_objects;
  next_object = 8;
  world = 100;
  events = [];
}
