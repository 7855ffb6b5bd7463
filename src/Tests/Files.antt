-- ===== src/Tests/Files.antt =====
-- Messages in files: sample texts, a sample protocol, and the theorems of MsgFile applied to them.
use cc_tools_qt.Base.{
  ℕ, ◌+◌, ◌-◌, ◌*◌, ◌/◌, ◌%◌, ◌<◌, ◌≡◌, refl, ◌&&◌, List, [], ◌∷◌, map, Option, none, some, ◌==◌,
  if◌then◌else◌, ltb, leb, arith,
}
use cc_tools_qt.Message.{Message, get_from, plain_message, type_received}
use cc_tools_qt.MsgFile.Hex.{
  Text, Documented, hex_digit, parse_data, append_bytes, parse_data-append_bytes,
}
use cc_tools_qt.MsgFile.Entry.{save_recv_list, save_send_list}
use cc_tools_qt.MsgFile.Create.{Protocol, search, Outcome, search_ends}
use cc_tools_qt.MsgFile.Reload.{
  Restorable, restored_send, restored_recv, load_send_list, load_recv_list, load-save_send_list,
}
use cc_tools_qt.MsgFile.Replay.{due_times, load-save_recv_list, replay}

abbrev digit_value : ℕ → ℕ
digit_value c = if ltb c 58 then c - 48 else c - 87

abbrev read_digits : List ℕ → ℕ
read_digits [] = 0
read_digits (a ∷ []) = 0
read_digits (a ∷ b ∷ cs) = 16 * digit_value a + digit_value b

-- Qt on plain texts.
abbrev plain_text : Text
plain_text = record {
  is_digit = λ c. leb 48 c && leb c 57;
  to_int = read_digits;
  arg = λ b. hex_digit (b / 16) ∷ hex_digit (b % 16) ∷ [];
}

digit_value-hex_digit : (n : ℕ) → n < 16 → digit_value (hex_digit n) ≡ n
digit_value-hex_digit n h = ground arith

plain_text-Documented : Documented plain_text
plain_text-Documented = record {
  digit = λ n h. ground arith;
  space = refl;
  two_digits = λ b h. refl;
  reads = λ a b h k. omega (arith, digit_value-hex_digit a h, digit_value-hex_digit b k);
}

-- A protocol with two message classes for each identifier, for one byte and for two.
abbrev decode : Message → List ℕ → Option Message
decode m [] = none
decode m (b ∷ []) = if get_from m.msg_idx 0 == 0 then some (record m { payload = b ∷ [] }) else none
decode m (b ∷ c ∷ []) =
    if get_from m.msg_idx 0 == 1 then some (record m { payload = b ∷ c ∷ [] }) else none
decode m (b ∷ c ∷ d ∷ bs) = none

abbrev two_classes : Protocol
two_classes = record {
  create_message = λ id i.
      if ltb i 2 then some (record (plain_message id "class" []) { msg_idx = some i }) else none;
  create_invalid_message =
      λ bs. some (record (plain_message "" "invalid" []) { raw_data = some bs });
  update_message = λ m. m;
  decode_data = decode;
}

abbrev made : Message → Message
made m = record (plain_message m.id_as_string "class" m.payload) { msg_idx = m.msg_idx }

abbrev first_msg : Message
first_msg = record (plain_message "7" "class" (1 ∷ 255 ∷ [])) {
  msg_idx = some 1;
  timestamp = some 1000;
  msg_type = some type_received;
  delay = some 20;
  repeat_count = some 0;
  comment = some "first";
}

abbrev second_msg : Message
second_msg = record (plain_message "8" "class" (16 ∷ [])) {
  msg_idx = some 0;
  timestamp = some 1250;
  msg_type = some type_received;
}

abbrev first-Restorable : Restorable two_classes first_msg (made first_msg)
first-Restorable = record { named = refl; bytes = (omega arith, (omega arith, tt)); remade = refl }

abbrev second-Restorable : Restorable two_classes second_msg (made second_msg)
second-Restorable = record { named = refl; bytes = (omega arith, tt); remade = refl }

parse_data-append_bytes_example :
    parse_data plain_text (append_bytes plain_text [] (0 ∷ 171 ∷ [])) ≡ 0 ∷ 171 ∷ []
parse_data-append_bytes_example =
    parse_data-append_bytes plain_text plain_text-Documented (0 ∷ 171 ∷ [])
      (omega arith, (omega arith, tt))

search_ends_example :
    (r : Option Message) × (search two_classes 3 "7" (1 ∷ 2 ∷ []) 0 ≡ some r)
    × Outcome two_classes "7" (1 ∷ 2 ∷ []) 0 r
search_ends_example =
    search_ends two_classes "7" (1 ∷ 2 ∷ []) 2 3 0 refl (omega arith) (omega arith) (omega arith)

load-save_send_list_example :
    load_send_list plain_text two_classes 1 0
      (map some (save_send_list plain_text (map some (first_msg ∷ second_msg ∷ []))))
    ≡ some (map (restored_send two_classes made) (first_msg ∷ second_msg ∷ []))
load-save_send_list_example =
    load-save_send_list plain_text plain_text-Documented two_classes 0 made
      (first_msg ∷ second_msg ∷ []) (first-Restorable, (second-Restorable, tt))

load-save_recv_list_example :
    load_recv_list plain_text two_classes 1
      (map some (save_recv_list plain_text (map some (first_msg ∷ second_msg ∷ []))))
    ≡ some (map (restored_recv two_classes made) (first_msg ∷ second_msg ∷ []))
load-save_recv_list_example =
    load-save_recv_list plain_text plain_text-Documented two_classes 0 made
      (first_msg ∷ second_msg ∷ [])
      ((first-Restorable, λ e. omega (arith, e)), ((second-Restorable, λ e. omega (arith, e)), tt))

replay_example :
    (loaded : List Message) × (load_send_list plain_text two_classes 1 0
        (map some (save_recv_list plain_text (map some (first_msg ∷ second_msg ∷ []))))
      ≡ some loaded)
    × (due_times 1000 loaded ≡ 1000 ∷ 1250 ∷ [])
replay_example =
    replay plain_text plain_text-Documented two_classes 0 made first_msg (second_msg ∷ [])
      (λ e. omega (arith, e)) (first-Restorable, (second-Restorable, tt))
      (omega arith, omega arith, (omega arith, omega arith, tt))
