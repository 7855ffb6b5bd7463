-- ===== src/Tests/Manager.antt =====
-- The message manager's theorems at concrete states.
use cc_tools_qt.Base.{
  map, ◌==◌, if◌then◌else◌, ℕ, ◌≡◌, refl, List, [], ◌∷◌, Option, none, some, arith,
}
use cc_tools_qt.MsgMgr.Fields.{State, msg_added, init, put}
use cc_tools_qt.MsgMgr.Order.{Numbered, Inv, CanAdd}
use cc_tools_qt.MsgMgr.Chain.{chain, round}
use cc_tools_qt.MsgMgr.Control.{set_socket, set_protocol}
use cc_tools_qt.MsgMgr.Send.{send_msgs}
use cc_tools_qt.MsgMgr.Send.Effects.{send_msgs-appends}
use cc_tools_qt.MsgMgr.Send.Numbering.{AllSent, send_msgs-Numbered}
use cc_tools_qt.MsgMgr.Receive.{socket_data_received, filter_data_to_send, send_blocks, read_all}
use cc_tools_qt.MsgMgr.Receive.Numbering.{AllReceived}
use cc_tools_qt.MsgMgr.Receive.Contents.{contents}
use cc_tools_qt.MsgMgr.Receive.Listing.{read_from, socket_data_received-appends}
use cc_tools_qt.MsgMgr.Receive.Injecting.{filter_data_to_send_earlier}
use cc_tools_qt.MsgMgr.Delete.{delete_msgs}
use cc_tools_qt.MsgMgr.Delete.Exact.{done, gone, kept, delete_msgs_exact, delete_msgs_stale}
use cc_tools_qt.MsgMgr.History.{
  Reach, here, next, history-Inv, makes_object, sets_socket, sets_protocol, sends,
}
use cc_tools_qt.Tests.Samples.{plain, plain-KeepsLabels, block, simple, numbered, manager}

manager-Inv : Inv manager
manager-Inv = record { ordered = omega arith; allocated = omega arith }

abbrev outgoing : List (Option ℕ)
outgoing = some 3 ∷ none ∷ some 5 ∷ []

outgoing-CanAdd : CanAdd (3 ∷ 5 ∷ []) manager
outgoing-CanAdd = record {
  distinct = omega arith;
  apart = omega arith;
  allocated = omega arith;
  fits = omega arith;
}

send_msgs-appends_example :
    let t = send_msgs plain outgoing manager in
    (t.all_msgs ≡ 0 ∷ 1 ∷ 2 ∷ 3 ∷ 5 ∷ []) × (t.events ≡ msg_added 3 ∷ msg_added 5 ∷ [])
send_msgs-appends_example = send_msgs-appends plain 10 20 outgoing manager refl refl

send_msgs-Numbered_example :
    let t = send_msgs plain outgoing manager in
    Numbered t.objects 5 (3 ∷ 5 ∷ []) × AllSent t.objects (3 ∷ 5 ∷ []) × (t.next_msg_num ≡ 7)
send_msgs-Numbered_example =
    send_msgs-Numbered plain 10 20 outgoing manager refl refl (omega arith) (omega arith)

delete_msgs_exact_example : (delete_msgs (0 ∷ 2 ∷ []) manager).all_msgs ≡ 1 ∷ []
delete_msgs_exact_example =
    delete_msgs_exact (0 ∷ 2 ∷ []) (1 ∷ []) manager manager-Inv (gone (kept (gone done)))

-- Object 6 is not stored; object 1 before it goes, and object 2 behind it stays.
delete_msgs_stale_example :
    (delete_msgs (1 ∷ 6 ∷ 2 ∷ []) manager).all_msgs ≡ (delete_msgs (1 ∷ []) manager).all_msgs
delete_msgs_stale_example = delete_msgs_stale (1 ∷ []) 6 (2 ∷ []) manager (omega arith)

socket_data_received-appends_example :
    let t = socket_data_received plain 10 (some block) manager in
    (t.all_msgs ≡ 0 ∷ 1 ∷ 2 ∷ 8 ∷ [])
    × (t.events ≡ msg_added 8 ∷ [])
    × (t.next_msg_num ≡ 6)
    × Numbered t.objects 5 (8 ∷ [])
    × AllReceived t.objects (8 ∷ [])
    × (map (λ h. contents (t.objects h)) (8 ∷ [])
        ≡ map contents (read_from plain 20 block manager).0)
unfolding chain round read_all
socket_data_received-appends_example =
    socket_data_received-appends plain plain-KeepsLabels (λ r m w. refl) 10 20 block manager refl
      refl refl (omega arith)

-- Object 3 has no type; object 0's twin, 9, is a message that was sent.
abbrev loaded : State ℕ
loaded = record manager { objects = λ h. if h == 9 then numbered 1 else simple; next_object = 10 }

-- Filter 32 sends: the data passes 31 and then 30.
filter_data_to_send_earlier_example :
    filter_data_to_send plain 32 (some block) manager ≡ record manager {
      world =
          let (ds, w) = chain plain.filter_send (31 ∷ 30 ∷ []) (block ∷ []) 100 in
          send_blocks plain 10 ds w;
    }
filter_data_to_send_earlier_example =
    filter_data_to_send_earlier plain 10 32 (30 ∷ 31 ∷ []) [] block manager refl (omega arith) refl

-- A fresh manager gets a socket, a protocol and one message object to send.
abbrev ready : State ℕ
ready = record (init (λ h. simple) 0 100) {
  socket = some 10;
  protocol = some 20;
  objects = put 0 simple (λ h. simple);
  next_object = 1;
}

ready-CanAdd : CanAdd (0 ∷ []) ready
unfolding init
ready-CanAdd = record {
  distinct = omega arith;
  apart = omega arith;
  allocated = omega arith;
  fits = omega arith;
}

history : Reach plain (init (λ h. simple) 0 100) (send_msgs plain (some 0 ∷ []) ready)
unfolding init set_socket set_protocol
history =
    next (next (next (next here (sets_socket (some 10))) (sets_protocol 20)) (makes_object simple))
      (sends (some 0 ∷ []) ready-CanAdd)

history-Inv_example : Inv (send_msgs plain (some 0 ∷ []) ready)
history-Inv_example = history-Inv plain plain-KeepsLabels (λ h. simple) 0 100 history
