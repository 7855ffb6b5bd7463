-- ===== src/Tests/Protocols.antt =====
-- The theorems on protocols, factories and frames at concrete inputs.
use Prim.Native.String.{String}
use cc_tools_qt.Base.{
  ℕ, ◌+◌, ◌<◌, ◌≡◌, refl, true, false, List, [], ◌∷◌, ◌++◌, length, filter, none, some, ◌==◌,
  if◌then◌else◌, arith,
}
use cc_tools_qt.Message.{Message, plain_message}
use cc_tools_qt.ListView.{get_elem?}
use cc_tools_qt.Factory.{create_by_number, create_by_text, clone_all}
use cc_tools_qt.Factory.Choice.{has_id, copy, create_by_number_lem}
use cc_tools_qt.Protocol.{Frame, create_all_messages, clone_message}
use cc_tools_qt.Protocol.Recreation.{OverFactory, Recreated, create_all_messages-Recreated}
use cc_tools_qt.Protocol.Copies.{KeepsProperties, SameUse, clone_message_lem}
use cc_tools_qt.FrameBase.{ReadStatus, ProtFrame, Buffers, read_data, garbage_limit}
use cc_tools_qt.FrameBase.Stream.{Progress, raw_bytes, read_data_lem}
use cc_tools_qt.Tests.Samples.{simple, block}
use cc_tools_qt.Tests.Tallies.{tally, read_tally, tally-Printed}

-- The numeric identifier of a message is its first byte.
abbrev first_byte : Message → ℕ
first_byte m = elim m.payload [ [] ↦ 0 | b ∷ bs ↦ b ]

abbrev message : ℕ → String → Message
message n name = plain_message (tally n) name (n ∷ [])

-- Two classes of messages share the identifier 2.
abbrev defaults : List Message
defaults = message 1 "First" ∷ message 2 "Short" ∷ message 2 "Long" ∷ message 5 "Last" ∷ []

abbrev pub frame : Frame ℕ
frame = record {
  name = "Test";
  now = λ w. (w, w + 1);
  read_data = λ d w. ([], w);
  encode_framed = λ m. m.payload;
  refresh_msg = λ m. (false, m);
  update_message = λ m. m;
  create_invalid_message = none;
  raw_data_message = λ bs. some bs;
  has_extra_info_message = false;
  extra_info_message = λ x. none;
  create_all_messages = clone_all defaults;
  create_message = λ id idx. create_by_text first_byte read_tally id idx defaults;
}

frame-OverFactory : OverFactory frame first_byte read_tally defaults
frame-OverFactory = record {
  creates_all = refl;
  creates = λ id idx. refl;
  refresh_id = λ m. refl;
  refresh_idx = λ m. refl;
  update_id = λ m. refl;
  update_idx = λ m. refl;
}

same_use : (m : Message) → SameUse m m
same_use m = record {
  id_as_string = refl;
  delay = refl;
  delay_units = refl;
  repeat_duration = refl;
  repeat_duration_units = refl;
  repeat_count = refl;
  comment = refl;
  extra_info = refl;
}

frame-KeepsProperties : KeepsProperties frame
frame-KeepsProperties = record {
  refresh_use = same_use;
  refresh_labels = λ m. record { msg_num = refl; msg_type = refl; timestamp = refl };
  update_use = same_use;
  update_labels = λ m. record { msg_num = refl; msg_type = refl; timestamp = refl };
}

create_by_number_lem_example :
    create_by_number first_byte 2 1 defaults
    ≡ copy (get_elem? (filter (has_id first_byte 2) defaults) 1)
create_by_number_lem_example =
    create_by_number_lem first_byte 2 1 defaults (omega arith) (omega arith)

create_all_messages-Recreated_example : Recreated frame (create_all_messages frame) defaults
create_all_messages-Recreated_example =
    create_all_messages-Recreated frame first_byte tally read_tally tally-Printed defaults
      frame-OverFactory (omega arith) (omega arith)
      (
        (refl, ground arith),
        ((refl, ground arith), ((refl, ground arith), ((refl, ground arith), tt))),
      )

clone_message_lem_example :
    (c : Message) × (clone_message frame simple ≡ some c)
    × SameUse simple c
    × (c.msg_num ≡ none)
    × (c.msg_type ≡ none)
    × (c.timestamp ≡ none)
clone_message_lem_example = clone_message_lem frame frame-KeepsProperties simple refl

-- A protocol whose messages are single bytes; a zero is none.
one_byte : List ℕ → ReadStatus
one_byte [] = ReadStatus.not_enough_data
one_byte (b ∷ bs) = if b == 0 then ReadStatus.failure else ReadStatus.success (b ∷ []) b 0 1

abbrev bytes : ProtFrame
bytes = record {
  frame_read = one_byte;
  create = λ id idx. some simple;
  invalid_message = plain_message "" "Invalid" [];
  json = λ x. [];
}

bytes-Progress : Progress bytes
unfolding one_byte
bytes-Progress = record {
  consumes = λ bs fields id idx n e.
      elim bs as (λ l. one_byte l ≡ ReadStatus.success fields id idx n → 0 < n) [
        | [] ↦ λ h. absurd (cc)
        | b ∷ rest ↦ λ h. ground (arith, h)
      ]
        e;
}

abbrev waiting : Buffers
waiting = record { in_data = 0 ∷ []; garbage = 7 ∷ [] }

read_data_lem_example :
    (msgs : List Message) × (t : Buffers) × (read_data bytes 3 block false waiting ≡ some (msgs, t))
    × ((raw_bytes msgs ++ t.garbage) ++ t.in_data ≡ 7 ∷ 0 ∷ 1 ∷ 2 ∷ [])
    × (1 < garbage_limit → length t.garbage < garbage_limit)
    × (false ≡ true → t.in_data ≡ [])
read_data_lem_example = read_data_lem bytes bytes-Progress 3 block false waiting (omega arith)
