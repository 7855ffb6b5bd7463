-- ===== src/FrameBase.antt =====
-- The reading of a stream of bytes into messages: `readDataImpl` of
-- lib/include/cc_tools_qt/ToolsFrameBase.h. The frame of the protocol itself (of the COMMS library) and
-- the factory are parameters. The message of the transport fields is left out. Asserts are those of a
-- release build. The loop is recursion on fuel, and `none` is a loop that has not ended.
pub mod Stream
use cc_tools_qt.Base.{
  ℕ, zero, suc, ◌+◌, ◌<◌, ◌≡◌, Bool, true, false, not, ◌&&◌, List, [], ◌∷◌, ◌++◌, map, length, take,
  drop, Option, none, some, Dict, is_empty, leb, if◌then◌else◌,
}
use cc_tools_qt.Message.{Message, Variant, DataInfo}

-- What `m_frame.read` answers. A success gives the message of the protocol, encoded, its identifier,
-- its index and the number of bytes read.
pub data ReadStatus : Type 0 where
  not_enough_data : ReadStatus
  alloc_failure : ReadStatus
  failure : ReadStatus
  success : List ℕ → ℕ → ℕ → ℕ → ReadStatus

-- The parameters: the protocol's frame, the factory, a new invalid message, and the bytes of the JSON
-- text of properties.
pub record ProtFrame : Type 0 where
  pub frame_read : List ℕ → ReadStatus
  pub create : ℕ → ℕ → Option Message
  pub invalid_message : Message
  pub json : Dict Variant → List ℕ

-- `m_inData` and `m_garbage`.
pub record Buffers : Type 0 where
  pub in_data : List ℕ
  pub garbage : List ℕ

-- The variables of the loop; `rest` are the bytes that are not consumed.
pub record Loop : Type 0 where
  pub rest : List ℕ
  pub garbage : List ℕ
  pub msgs : List Message

abbrev pub garbage_limit : ℕ
garbage_limit = 512

abbrev pub no_bytes : List ℕ → Bool
no_bytes [] = true
no_bytes (b ∷ bs) = false

module _ (f : ProtFrame) where
  -- `checkGarbageFunc`.
  unfoldable pub check_garbage : Loop → Loop
  check_garbage s = if no_bytes s.garbage then s else record s {
    garbage = [];
    msgs = s.msgs ++ record (f.invalid_message) { raw_data = some s.garbage } ∷ [];
  }

  -- A byte that starts no message.
  unfoldable pub skip : ℕ → Loop → Loop
  skip b s =
      let s1 = record s { garbage = s.garbage ++ b ∷ [] } in
      if leb garbage_limit (length s1.garbage) then check_garbage s1 else s1

  -- A message of the protocol has been read from the bytes.
  unfoldable pub accept : List ℕ → ℕ → ℕ → List ℕ → Loop → Loop
  accept fields id idx bytes s = elim (f.create id idx) [
    | none ↦ check_garbage (record s { garbage = s.garbage ++ bytes })
    | some m ↦ record s {
      msgs = s.msgs ++ record m { payload = fields; raw_data = some bytes } ∷ [];
    }
  ]

  unfoldable pub read_loop : ℕ → Loop → Option Loop
  read_loop zero s = if no_bytes s.rest then some s else none
  read_loop (suc fuel) s = elim s.rest [
    | [] ↦ some s
    | b ∷ bs ↦ elim (f.frame_read (b ∷ bs)) [
      | ReadStatus.not_enough_data ↦ some s
      | ReadStatus.alloc_failure ↦ some s
      | ReadStatus.failure ↦ read_loop fuel (record (skip b s) { rest = bs })
      | ReadStatus.success fields id idx n ↦
          read_loop fuel (record (accept fields id idx (take n (b ∷ bs)) (check_garbage s)) {
            rest = drop n (b ∷ bs);
          })
    ]
  ]

  -- The end of the stream.
  unfoldable pub finish : Bool → Loop → Loop
  finish final s =
      if final && not (no_bytes s.rest)
      then check_garbage (record { rest = []; garbage = s.garbage ++ s.rest; msgs = s.msgs })
      else s

  unfoldable pub set_extra : Dict Variant → Message → Message
  set_extra x m = record m { extra_info = some x; extra_info_msg = some (f.json x) }

  -- What is left to do when the loop has ended.
  unfoldable pub read_end : DataInfo → Bool → Option Loop → Option (List Message × Buffers)
  read_end d final none = none
  read_end d final (some l) =
      let l1 = finish final l in
      let x = d.extra_properties in
      let msgs = if is_empty x then l1.msgs else map (set_extra x) l1.msgs in
      let buffers : Buffers = record { in_data = l1.rest; garbage = l1.garbage } in
      some (msgs, buffers)

  unfoldable pub read_data : ℕ → DataInfo → Bool → Buffers → Option (List Message × Buffers)
  read_data fuel d final s =
      read_end d final
        (read_loop fuel (record { rest = s.in_data ++ d.bytes; garbage = s.garbage; msgs = [] }))
