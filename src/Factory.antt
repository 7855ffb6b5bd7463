-- ===== src/Factory.antt =====
-- The factory of messages: lib/src/ToolsMsgFactory.cpp, with `cloneImpl` of
-- lib/include/cc_tools_qt/ToolsMessageBase.h. A numeric identifier, a `qlonglong`, is given as the
-- natural number 2 ^ 63 above it, which keeps the order. QString::toLongLong is a parameter of the base
-- and the text, and so are the identifier of a message and the list that a protocol creates.
pub mod Choice
use Prim.Native.String.{String}
use cc_tools_qt.Base.{
  ℕ, suc, ◌+◌, ◌-◌, ◌%◌, Bool, not, List, [], ◌∷◌, map, length, Option, none, some, ◌==◌, ltb, leb,
  if◌then◌else◌,
}
use cc_tools_qt.Message.{Message, plain_message}
use cc_tools_qt.ListView.{get_elem?}
use cc_tools_qt.Gui.{u32_mod}

-- `clone()`: the copy constructor copies the message of the protocol, and no property.
abbrev pub clone : Message → Message
clone m = plain_message m.id_as_string m.name m.payload

-- `createAllMessages`. The default messages are made at the first use, by `createAllMessagesImpl`.
abbrev pub clone_all : List Message → List Message
clone_all ms = map clone ms

module _ (numeric_id : Message → ℕ) where
  -- The positions that `std::lower_bound` and `std::upper_bound` find in a sorted list.
  unfoldable pub lower_index : ℕ → List Message → ℕ
  lower_index id [] = 0
  lower_index id (m ∷ ms) = if ltb (numeric_id m) id then suc (lower_index id ms) else 0

  unfoldable pub upper_index : ℕ → List Message → ℕ
  upper_index id [] = 0
  upper_index id (m ∷ ms) = if ltb id (numeric_id m) then 0 else suc (upper_index id ms)

  -- The rest of `createMessage(qlonglong, unsigned)`, with the positions found.
  unfoldable pub choose : ℕ → ℕ → ℕ → ℕ → List Message → Option Message
  choose id idx lower upper ms =
      let distance = (upper - lower) % u32_mod in
      elim (get_elem? ms lower) [
        | none ↦ none
        | some m ↦
            if not (numeric_id m == id)
            then none
            else if leb distance idx
            then none
            else elim (get_elem? ms (lower + idx)) [ none ↦ none | some x ↦ some (clone x) ]
      ]

  -- `createMessage(qlonglong, unsigned)` from the default messages.
  unfoldable pub create_by_number : ℕ → ℕ → List Message → Option Message
  create_by_number id idx ms = choose id idx (lower_index id ms) (upper_index id ms) ms

  -- `createMessage(QString, unsigned)`: a decimal number, else a hexadecimal one.
  unfoldable pub create_by_text :
      (ℕ → String → Option ℕ) → String → ℕ → List Message → Option Message
  create_by_text to_long_long id idx ms = elim (to_long_long 10 id) [
    | some n ↦ create_by_number n idx ms
    | none ↦ elim (to_long_long 16 id) [ some n ↦ create_by_number n idx ms | none ↦ none ]
  ]
