-- ===== src/MsgMgr/History.antt =====
-- Every history of calls and signals of the message manager (lib/src/ToolsMsgMgrImpl.cpp).
use Prim.Native.String.{String}
use cc_tools_qt.Base.{
  ℕ, suc, ◌+◌, ◌<◌, ◌≡◌, Bool, List, [], ◌∷◌, Option, none, some, length, present, arith,
}
use cc_tools_qt.Message.{Message, DataInfo}
use cc_tools_qt.Plugins.{Plugins, KeepsLabels}
use cc_tools_qt.MsgMgr.Fields.{
  State, u64_mod, put, init, report_error, report_socket_connection_status,
}
use cc_tools_qt.MsgMgr.Order.{Ordered-frame, SameNums-new, Allocated-suc, Inv, CanAdd}
use cc_tools_qt.MsgMgr.Control.{
  set_recv_enabled, set_socket, set_protocol, add_filter, start, stop, clear,
}
use cc_tools_qt.MsgMgr.Send.{send_msgs}
use cc_tools_qt.MsgMgr.Send.Numbering.{send_msgs-Inv}
use cc_tools_qt.MsgMgr.Receive.{
  socket_data_received, add_msgs, filter_data_to_send, socket_connection_report,
  socket_error_report, filter_error_report, protocol_error_report, protocol_send_message_report,
}
use cc_tools_qt.MsgMgr.Receive.Listing.{read_from, socket_data_received-Inv}
use cc_tools_qt.MsgMgr.Receive.Adding.{add_msgs-Inv}
use cc_tools_qt.MsgMgr.Delete.{delete_msg, delete_msgs, delete_all_msgs}
use cc_tools_qt.MsgMgr.Delete.Exact.{delete_msg-Inv, delete_msgs-Inv, delete_all_msgs-Inv}

-- A call, a signal, or what happens outside: other code makes a message object, or the world moves.
pub data Step {W : Type 0} (p : Plugins W) (s : State W) : State W → Type 0 where
  sends : (msgs : List (Option ℕ)) → CanAdd (present msgs) s → Step p s (send_msgs p msgs s)
  adds :
      (msgs : List (Option ℕ)) (b : Bool) → CanAdd (present msgs) s → Step p s (add_msgs p msgs b s)
  receives :
      (sender : ℕ) (d : DataInfo)
      → ((r : ℕ) → s.protocol ≡ some r → s.next_msg_num + length (read_from p r d s).0 < u64_mod)
      → Step p s (socket_data_received p sender (some d) s)
  deletes : (h : ℕ) → Step p s (delete_msg h s)
  deletes_list : (msgs : List ℕ) → Step p s (delete_msgs msgs s)
  deletes_all : Step p s (delete_all_msgs s)
  enables : (b : Bool) → Step p s (set_recv_enabled b s)
  sets_socket : (k : Option ℕ) → Step p s (set_socket k s)
  sets_protocol : (r : ℕ) → Step p s (set_protocol r s)
  adds_filter : (f : Option ℕ) → Step p s (add_filter f s)
  starts : Step p s (start p s)
  stops : Step p s (stop p s)
  clears : Step p s (clear p s)
  filter_sends : (f : ℕ) (d : Option DataInfo) → Step p s (filter_data_to_send p f d s)
  connection : (sender : ℕ) (b : Bool) → Step p s (socket_connection_report p sender b s)
  socket_error : (sender : ℕ) (e : String) → Step p s (socket_error_report p sender e s)
  filter_error : (sender : ℕ) (e : String) → Step p s (filter_error_report p sender e s)
  protocol_error : (sender : ℕ) (e : String) → Step p s (protocol_error_report p sender e s)
  protocol_sends :
      (sender : ℕ) (m : Option ℕ)
      → CanAdd (present (m ∷ [])) s
      → Step p s (protocol_send_message_report p sender m s)
  makes_object :
      (m : Message)
      → Step p s
          (record s { objects = put s.next_object m s.objects; next_object = suc s.next_object })
  moves_world : (w : W) → Step p s (record s { world = w })

pub data Reach {W : Type 0} (p : Plugins W) (s : State W) : State W → Type 0 where
  here : Reach p s s
  next : {t u : State W} → Reach p s t → Step p t u → Reach p s u

-- Two states with the same messages.
record SameMsgs {W : Type 0} (s t : State W) : Type 0 where
  all_msgs : t.all_msgs ≡ s.all_msgs
  objects : t.objects ≡ s.objects
  next_num : t.next_msg_num ≡ s.next_msg_num
  next_object : t.next_object ≡ s.next_object

SameMsgs-Inv : {W : Type 0} {s t : State W} → SameMsgs s t → Inv s → Inv t
SameMsgs-Inv e v = record {
  ordered = rw (e.all_msgs, e.objects, e.next_num) v.ordered;
  allocated = rw (e.all_msgs, e.next_object) v.allocated;
}

module _ {W : Type 0} (p : Plugins W) where
  start-SameMsgs : (s : State W) → SameMsgs s (start p s)
  unfolding start
  start-SameMsgs s = ground arith

  stop-SameMsgs : (s : State W) → SameMsgs s (stop p s)
  unfolding stop
  stop-SameMsgs s = ground arith

  clear-SameMsgs : (s : State W) → SameMsgs s (clear p s)
  unfolding clear stop
  clear-SameMsgs s = ground arith

  add_filter-SameMsgs : (f : Option ℕ) (s : State W) → SameMsgs s (add_filter f s)
  unfolding add_filter
  add_filter-SameMsgs f s = ground arith

  filter_data_to_send-SameMsgs :
      (f : ℕ) (d : Option DataInfo) (s : State W) → SameMsgs s (filter_data_to_send p f d s)
  unfolding filter_data_to_send
  filter_data_to_send-SameMsgs f none s = ground arith
  filter_data_to_send-SameMsgs f (some d) s = ground arith

  connection-SameMsgs :
      (k : ℕ) (b : Bool) (s : State W) → SameMsgs s (socket_connection_report p k b s)
  unfolding socket_connection_report report_socket_connection_status
  connection-SameMsgs k b s = ground arith

  socket_error-SameMsgs :
      (k : ℕ) (e : String) (s : State W) → SameMsgs s (socket_error_report p k e s)
  unfolding socket_error_report report_error
  socket_error-SameMsgs k e s = ground arith

  filter_error-SameMsgs :
      (k : ℕ) (e : String) (s : State W) → SameMsgs s (filter_error_report p k e s)
  unfolding filter_error_report report_error
  filter_error-SameMsgs k e s = ground arith

  protocol_error-SameMsgs :
      (k : ℕ) (e : String) (s : State W) → SameMsgs s (protocol_error_report p k e s)
  unfolding protocol_error_report report_error
  protocol_error-SameMsgs k e s = ground arith

  protocol_send_message_report-Inv :
      (k : ℕ) (m : Option ℕ) (s : State W)
      → Inv s
      → CanAdd (present (m ∷ [])) s
      → Inv (protocol_send_message_report p k m s)
  unfolding protocol_send_message_report
  protocol_send_message_report-Inv k m s v c = ground (arith, send_msgs-Inv p (m ∷ []) s v c)

  Step-Inv : KeepsLabels p → {s t : State W} → Step p s t → Inv s → Inv t
  unfolding set_recv_enabled set_socket set_protocol
  Step-Inv laws {s} (sends msgs c) v = send_msgs-Inv p msgs s v c
  Step-Inv laws {s} (adds msgs b c) v = add_msgs-Inv p msgs b s v c
  Step-Inv laws {s} (receives k d b) v = socket_data_received-Inv p laws k d s v b
  Step-Inv laws {s} (deletes h) v = delete_msg-Inv h s v
  Step-Inv laws {s} (deletes_list msgs) v = delete_msgs-Inv msgs s v
  Step-Inv laws {s} deletes_all v = delete_all_msgs-Inv s v
  Step-Inv laws (enables b) v = record { ordered = v.ordered; allocated = v.allocated }
  Step-Inv laws (sets_socket k) v = record { ordered = v.ordered; allocated = v.allocated }
  Step-Inv laws (sets_protocol r) v = record { ordered = v.ordered; allocated = v.allocated }
  Step-Inv laws {s} (adds_filter f) v = SameMsgs-Inv (add_filter-SameMsgs f s) v
  Step-Inv laws {s} starts v = SameMsgs-Inv (start-SameMsgs s) v
  Step-Inv laws {s} stops v = SameMsgs-Inv (stop-SameMsgs s) v
  Step-Inv laws {s} clears v = SameMsgs-Inv (clear-SameMsgs s) v
  Step-Inv laws {s} (filter_sends f d) v = SameMsgs-Inv (filter_data_to_send-SameMsgs f d s) v
  Step-Inv laws {s} (connection k b) v = SameMsgs-Inv (connection-SameMsgs k b s) v
  Step-Inv laws {s} (socket_error k e) v = SameMsgs-Inv (socket_error-SameMsgs k e s) v
  Step-Inv laws {s} (filter_error k e) v = SameMsgs-Inv (filter_error-SameMsgs k e s) v
  Step-Inv laws {s} (protocol_error k e) v = SameMsgs-Inv (protocol_error-SameMsgs k e s) v
  Step-Inv laws {s} (protocol_sends k m c) v = protocol_send_message_report-Inv k m s v c
  Step-Inv laws {s} (makes_object m) v = record {
    ordered =
        Ordered-frame s.objects (put s.next_object m s.objects) 1 s.all_msgs s.next_msg_num
          (SameNums-new s.objects s.next_object m s.all_msgs v.allocated) v.ordered;
    allocated = Allocated-suc s.next_object s.all_msgs v.allocated;
  }
  Step-Inv laws (moves_world w) v = record { ordered = v.ordered; allocated = v.allocated }

  Reach-Inv : KeepsLabels p → {s t : State W} → Reach p s t → Inv s → Inv t
  Reach-Inv laws here v = v
  Reach-Inv laws (next r st) v = Step-Inv laws st (Reach-Inv laws r v)

  -- After any history of calls and signals the numbers of the stored messages rise along the list
  -- and stay below the next one to be given, when every message that is sent or added is an object
  -- that is not in the list, the 64-bit counter does not wrap, and the protocol leaves the labels
  -- alone.
  pub history-Inv :
      KeepsLabels p
      → (o : ℕ → Message) (n : ℕ) (w : W) {t : State W} → Reach p (init o n w) t
      → Inv t
  unfolding init
  history-Inv laws o n w r = Reach-Inv laws r (record { ordered = omega arith; allocated = tt })
