-- ===== src/MsgFile/Create.antt =====
-- `createMsgObjectFrom` (lib/src/ToolsMsgFileMgr.cpp): a message object for an entry of a file. The
-- search over message indices is recursion on fuel, and `none` is a search that has not ended;
-- `search_ends` gives the fuel that is enough. The index is an `unsigned` of 32 bits.
use Prim.Native.String.{String}
use cc_tools_qt.Base.{
  ℕ, zero, suc, ◌+◌, ◌%◌, ◌≤◌, ◌<◌, ◌≡◌, ◌≢◌, refl, false, ◌&&◌, inl, inr, List, [], Option, none,
  some, Dict, is_empty, All, ◌==◌, if◌then◌else◌, Option-cases, arith,
}
use cc_tools_qt.Message.{Variant, Message, get_from}
use cc_tools_qt.MsgFile.Hex.{Text, Documented, parse_data, parse_data-append_bytes, no_text}
use cc_tools_qt.MsgFile.Entry.{Entry, empty_str, encode_msg_data}

-- The protocol as the file manager uses it, and `ToolsMessage::decodeData`, which gives `none` when it
-- fails. A null pointer is `none`.
pub record Protocol : Type 0 where
  pub create_message : String → ℕ → Option Message
  pub create_invalid_message : List ℕ → Option Message
  pub update_message : Message → Message
  pub decode_data : Message → List ℕ → Option Message

abbrev pub unsigned_mod : ℕ
unsigned_mod = 4294967296

-- The next value of `idx`.
abbrev pub next_idx : ℕ → ℕ
next_idx i = (i + 1) % unsigned_mod

abbrev pub set_extra_info : Dict Variant → Message → Message
set_extra_info x m = if is_empty x then m else record m { extra_info = some x }

module _ (p : Protocol) where
  -- `createMessage` and `decodeData` for one index.
  abbrev pub try_idx : String → ℕ → List ℕ → Option Message
  try_idx id i bytes = elim (p.create_message id i) [ none ↦ none | some m ↦ p.decode_data m bytes ]

  -- while (!msg) { ... }
  unfoldable pub search : ℕ → String → List ℕ → ℕ → Option (Option Message)
  search zero id bytes i = none
  search (suc fuel) id bytes i =
      let rest = search fuel id bytes (next_idx i) in
      elim (p.create_message id i) [
        | none ↦ some none
        | some m ↦ elim (p.decode_data m bytes) [ none ↦ rest | some m' ↦ some (some m') ]
      ]

  -- The `do` block before the loop, and the loop.
  unfoldable pub find_message : ℕ → String → ℕ → List ℕ → Option (Option Message)
  find_message fuel id idx bytes =
      if idx == 0
      then search fuel id bytes 0
      else elim (try_idx id idx bytes) [ none ↦ search fuel id bytes 0 | some m ↦ some (some m) ]

module _ (q : Text) (p : Protocol) where
  unfoldable pub create_msg_object_from : ℕ → Option Entry → Option (Option Message)
  create_msg_object_from fuel none = some none
  create_msg_object_from fuel (some e) =
      let id = get_from e.id "" in
      let text = get_from e.data_str [] in
      let bytes = parse_data q text in
      let x = get_from e.extra_info [] in
      if empty_str id && no_text text
      then some none
      else if empty_str id
      then elim (p.create_invalid_message bytes) [
        | none ↦ some none
        | some m ↦ some (some (if is_empty x then m else p.update_message (set_extra_info x m)))
      ]
      else elim (find_message p fuel id (get_from e.msg_idx 0) bytes) [
        | none ↦ none
        | some none ↦ some none
        | some (some m) ↦ some (some (p.update_message (set_extra_info x m)))
      ]

module _ (p : Protocol) (id : String) (bytes : List ℕ) where
  -- What the search from an index has to return: the first message that decodes the bytes, or null
  -- when the protocol runs out of message classes before.
  pub data Outcome : ℕ → Option Message → Type 0 where
    exhausted : {i : ℕ} → p.create_message id i ≡ none → Outcome i none
    decoded :
        {i : ℕ} {m m' : Message}
        → p.create_message id i ≡ some m
        → p.decode_data m bytes ≡ some m'
        → Outcome i (some m')
    skipped :
        {i : ℕ} {m : Message} {r : Option Message}
        → p.create_message id i ≡ some m
        → p.decode_data m bytes ≡ none
        → Outcome (i + 1) r
        → Outcome i r

module _ (p : Protocol) (id : String) (bytes : List ℕ) (n : ℕ) where
  -- When the protocol has no message class with index `n` for the identifier, the search that starts
  -- at an index up to `n` ends within `n + 1` rounds less that index, and its result is the first
  -- message that decodes the bytes, or null when there is none; the index does not wrap around.
  pub search_ends :
      (fuel i : ℕ)
      → p.create_message id n ≡ none
      → n < unsigned_mod
      → i ≤ n
      → n < fuel + i
      → (r : Option Message) × (search p fuel id bytes i ≡ some r) × Outcome p id bytes i r
  unfolding search
  search_ends zero i none_at small le enough = absurd (omega (arith, le, enough))
  search_ends (suc fuel) i none_at small le enough = elim (Option-cases (p.create_message id i)) [
    | inl e ↦ (none, ground (arith, e), Outcome.exhausted e)
    | inr (m, e) ↦ elim (Option-cases (p.decode_data m bytes)) [
      | inr (m', e') ↦ (some m', ground (arith, e, e'), Outcome.decoded e e')
      | inl e' ↦
          let differs : i ≢ n = λ same. ground (arith, e, none_at, same) in
          let step : next_idx i ≡ i + 1 = omega (arith, le, small, differs) in
          let (r, found, outcome) =
            search_ends fuel (i + 1) none_at small (omega (arith, le, differs))
              (omega (arith, enough)) in
          (r, ground (arith, e, e', step, found), Outcome.skipped e e' outcome)
    ]
  ]

module _ (q : Text) (ok : Documented q) (p : Protocol) where
  find_message-try_idx :
      (fuel : ℕ) (id : String) (i : ℕ) (bytes : List ℕ) (m : Message)
      → try_idx p id i bytes ≡ some m
      → find_message p (suc fuel) id i bytes ≡ some (some m)
  unfolding find_message search
  find_message-try_idx fuel id i bytes m e = elim (Option-cases (p.create_message id i)) [
    | inl none_at ↦ ground (arith, e, none_at)
    | inr (m0, made) ↦ ground (arith, e, made)
  ]

  -- An entry that names a message and holds its bytes is read as the message that the protocol makes
  -- for them, with the extra information of the entry.
  pub create_msg_object_from_lem :
      (fuel : ℕ) (e : Entry) (m made : Message)
      → empty_str m.id_as_string ≡ false
      → All (λ b. b < 256) m.payload
      → e.id ≡ some m.id_as_string
      → e.msg_idx ≡ some (get_from m.msg_idx 0)
      → e.data_str ≡ some (encode_msg_data q m)
      → try_idx p m.id_as_string (get_from m.msg_idx 0) m.payload ≡ some made
      → create_msg_object_from q p (suc fuel) (some e)
        ≡ some (some (p.update_message (set_extra_info (get_from e.extra_info []) made)))
  unfolding create_msg_object_from
  create_msg_object_from_lem fuel e m made named bytes id idx text remade =
      let parsed = parse_data-append_bytes q ok m.payload bytes in
      let found =
        find_message-try_idx fuel m.id_as_string (get_from m.msg_idx 0) m.payload made remade in
      rw (id, idx, text, named, parsed, found) refl
