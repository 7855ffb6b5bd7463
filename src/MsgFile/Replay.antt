-- ===== src/MsgFile/Replay.antt =====
-- What becomes of a list of received messages that was saved: loaded as received messages, and loaded
-- as messages to send, where the delays repeat the times of their arrival
-- (lib/src/ToolsMsgFileMgr.cpp).
use cc_tools_qt.Base.{
  ℕ, suc, ◌+◌, ◌-◌, ◌≤◌, ◌<◌, ◌≡◌, ◌≢◌, refl, ap, ◌∙◌, false, List, [], ◌∷◌, map, Option, none,
  some, All, Dict, arith,
}
use cc_tools_qt.Message.{Variant, Message, get_from}
use cc_tools_qt.MsgFile.Hex.{Text, Documented}
use cc_tools_qt.MsgFile.Entry.{
  Entry, empty_str, encode_msg_data, extra_info_of, comment_of, convert_recv_msg, save_recv_list,
}
use cc_tools_qt.MsgFile.Create.{
  Protocol, set_extra_info, create_msg_object_from, create_msg_object_from_lem,
}
use cc_tools_qt.MsgFile.Reload.{
  u64, load_recv_msg, load_recv_list, delay_from_timestamp, load_send_msg, load_send_list,
  load_send_list-cons, Restorable, remade_from, restored_recv, get_from-extra_info_of,
  get_from-comment_of,
}

abbrev pub stamp : Message → ℕ
stamp m = get_from m.timestamp 0

-- The times at which messages are sent one after the other from `t` on.
abbrev pub due_times : ℕ → List Message → List ℕ
due_times t [] = []
due_times t (m ∷ ms) = (t + get_from m.delay 0) ∷ due_times (t + get_from m.delay 0) ms

-- Timestamps that fit 64 bits, none before `t` and none before the one in front of it.
abbrev pub Rising : ℕ → List Message → Type 0
Rising t [] = Unit
Rising t (m ∷ ms) = (t ≤ stamp m) × (stamp m < u64) × Rising (stamp m) ms

abbrev recv_entry : Text → Message → Entry
recv_entry q m = record {
  id = some m.id_as_string;
  msg_idx = some (get_from m.msg_idx 0);
  data_str = some (encode_msg_data q m);
  delay = none;
  delay_units = none;
  repeat = none;
  repeat_units = none;
  repeat_count = none;
  comment = comment_of m;
  timestamp = some (stamp m);
  type = some (get_from m.msg_type 0);
  extra_info = extra_info_of m;
}

delay_from_timestamp_lem :
    (t prev : ℕ) → prev ≢ 0 → prev ≤ t → t < u64 → delay_from_timestamp 0 t prev ≡ (t - prev, t)
unfolding delay_from_timestamp
delay_from_timestamp_lem t prev h le lt = ground arith

module _ (q : Text) (ok : Documented q) (p : Protocol) (fuel : ℕ) (make : Message → Message) where
  convert_recv-named :
      (m : Message)
      → empty_str m.id_as_string ≡ false
      → convert_recv_msg q m ≡ some (recv_entry q m)
  unfolding convert_recv_msg
  convert_recv-named m named = ground (arith, named)

  create-recv_entry :
      (m : Message)
      → Restorable p m (make m)
      → create_msg_object_from q p (suc fuel) (some (recv_entry q m))
        ≡ some (some (remade_from p make m))
  create-recv_entry m r =
      create_msg_object_from_lem q ok p fuel (recv_entry q m) m (make m) r.named r.bytes refl refl
        refl r.remade
      ∙ ap (λ (x : Dict Variant). some (some (p.update_message (set_extra_info x (make m)))))
          (get_from-extra_info_of m)

  load_recv-recv_entry :
      (m : Message)
      → stamp m ≢ 0
      → load_recv_msg (recv_entry q m) (remade_from p make m) ≡ some (restored_recv p make m)
  unfolding load_recv_msg
  load_recv-recv_entry m h = ground (arith, get_from-comment_of m)

  save_recv_list-cons :
      (m : Message) (ms : List Message)
      → empty_str m.id_as_string ≡ false
      → save_recv_list q (map some (m ∷ ms)) ≡ recv_entry q m ∷ save_recv_list q (map some ms)
  unfolding save_recv_list
  save_recv_list-cons m ms named = ground (arith, convert_recv-named m named)

  load_recv_list-cons :
      (m : Message) (es : List (Option Entry)) (ms : List Message)
      → Restorable p m (make m)
      → stamp m ≢ 0
      → load_recv_list q p (suc fuel) es ≡ some ms
      → load_recv_list q p (suc fuel) (some (recv_entry q m) ∷ es)
        ≡ some (restored_recv p make m ∷ ms)
  unfolding load_recv_list
  load_recv_list-cons m es ms r h rest =
      ground (arith, create-recv_entry m r, load_recv-recv_entry m h, rest)

  -- Received messages that are saved and loaded come back in their order, each one the object that
  -- the protocol makes of its bytes, with its timestamp, type, comment and extra information. It needs
  -- an id, a timestamp other than 0 and bytes in range for each message, that the protocol can remake
  -- it at the saved index, and Qt's documented conversions.
  pub load-save_recv_list :
      (ms : List Message)
      → All (λ m. Restorable p m (make m) × (stamp m ≢ 0)) ms
      → load_recv_list q p (suc fuel) (map some (save_recv_list q (map some ms)))
        ≡ some (map (restored_recv p make) ms)
  unfolding load_recv_list save_recv_list
  load-save_recv_list [] h = refl
  load-save_recv_list (m ∷ ms) h =
      ap (λ (es : List Entry). load_recv_list q p (suc fuel) (map some es))
        (save_recv_list-cons m ms h.0.0.named)
      ∙ load_recv_list-cons m (map some (save_recv_list q (map some ms)))
          (map (restored_recv p make) ms) h.0.0 h.0.1 (load-save_recv_list ms h.1)

  load_send-recv_entry :
      (m : Message) (prev : ℕ)
      → prev ≢ 0
      → prev ≤ stamp m
      → stamp m < u64
      → (get_from (load_send_msg (recv_entry q m) (remade_from p make m) prev).0.delay 0
          ≡ stamp m - prev)
        × ((load_send_msg (recv_entry q m) (remade_from p make m) prev).1 ≡ stamp m)
  unfolding load_send_msg
  load_send-recv_entry m prev h le lt =
      let e = delay_from_timestamp_lem (stamp m) prev h le lt in (ap (λ x. x.0) e, ap (λ x. x.1) e)

  -- Messages `ms` load as a list that is due, from `t` on, at the times of arrival.
  abbrev Replayed : ℕ → ℕ → List Message → Type 0
  Replayed prev t ms =
      (loaded : List Message) × (load_send_list q p (suc fuel) prev
          (map some (save_recv_list q (map some ms)))
        ≡ some loaded)
      × (due_times t loaded ≡ map stamp ms)

  replay_step :
      (m : Message) (ms : List Message) (prev t : ℕ)
      → Restorable p m (make m)
      → t + get_from (load_send_msg (recv_entry q m) (remade_from p make m) prev).0.delay 0
        ≡ stamp m
      → (load_send_msg (recv_entry q m) (remade_from p make m) prev).1 ≡ stamp m
      → Replayed (stamp m) (stamp m) ms
      → Replayed prev t (m ∷ ms)
  replay_step m ms prev t r due next (loaded, eq, times) =
      let x = load_send_msg (recv_entry q m) (remade_from p make m) prev in
      (
        x.0 ∷ loaded,
        ap (λ (es : List Entry). load_send_list q p (suc fuel) prev (map some es))
              (save_recv_list-cons m ms r.named)
            ∙ load_send_list-cons q p (suc fuel) prev (stamp m) (recv_entry q m)
                (map some (save_recv_list q (map some ms))) (remade_from p make m) x.0 loaded
                (create-recv_entry m r) (ap (λ (n : ℕ). (x.0, n)) next) eq,
        ap (λ (n : ℕ). n ∷ due_times n loaded) due ∙ ap (λ (l : List ℕ). stamp m ∷ l) times,
      )

  replay_after :
      (ms : List Message) (prev : ℕ)
      → prev ≢ 0
      → All (λ m. Restorable p m (make m)) ms
      → Rising prev ms
      → Replayed prev prev ms
  unfolding load_send_list save_recv_list
  replay_after [] prev h r rising = ([], refl, refl)
  replay_after (m ∷ ms) prev h r rising =
      let (le, lt, rest) = rising in
      let (delay, next) = load_send-recv_entry m prev h le lt in
      replay_step m ms prev prev r.0 (omega (arith, delay, le)) next
        (replay_after ms (stamp m) (λ e. h (omega (arith, le, e))) r.1 rest)

  load_send-first :
      (m : Message)
      → stamp m ≢ 0
      → (get_from (load_send_msg (recv_entry q m) (remade_from p make m) 0).0.delay 0 ≡ 0)
        × ((load_send_msg (recv_entry q m) (remade_from p make m) 0).1 ≡ stamp m)
  unfolding load_send_msg delay_from_timestamp
  load_send-first m h = (ground arith, ground arith)

  -- A saved list of received messages that is loaded as a list to send repeats the times of arrival:
  -- counted from the arrival of the first message, each message is due when it arrived. It needs, of
  -- each message, an id, bytes in range, that the protocol can remake it at the saved index, and
  -- timestamps that fit 64 bits, start above 0 and do not fall; and Qt's documented conversions.
  pub replay :
      (m : Message) (ms : List Message)
      → stamp m ≢ 0
      → All (λ m. Restorable p m (make m)) (m ∷ ms)
      → Rising 0 (m ∷ ms)
      → (loaded : List Message) × (load_send_list q p
            (suc fuel)
            0
            (map some (save_recv_list q (map some (m ∷ ms))))
          ≡ some loaded)
        × (due_times (stamp m) loaded ≡ map stamp (m ∷ ms))
  replay m ms h r rising =
      let (delay, next) = load_send-first m h in
      replay_step m ms 0 (stamp m) r.0 (omega (arith, delay)) next
        (replay_after ms (stamp m) h r.1 rising.2)
