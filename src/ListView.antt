-- ===== src/ListView.antt =====
-- The list widget under both message lists: app/cc_view/src/widget/MsgListWidget.cpp. Of each row only
-- the message matters here: texts, colours and tooltips are left out, and so is the time between two
-- clicks. What Qt makes the current row after a row is taken out is the parameter `next`, of the
-- row and the number of rows left. Asserts are those of a release build.
pub mod Rows
use cc_tools_qt.Base.{
  ℕ, zero, suc, ◌+◌, ◌-◌, Bool, List, [], ◌∷◌, ◌++◌, length, Option, none, some, if◌then◌else◌,
}

pub record ListView : Type 0 where
  -- Addresses of messages.
  pub rows : List ℕ
  pub current_row : Option ℕ
  pub select_on_add : Bool

module _ {ℓ} {A : Type ℓ} where
  abbrev pub get_elem? : List A → ℕ → Option A
  get_elem? [] i = none
  get_elem? (x ∷ xs) zero = some x
  get_elem? (x ∷ xs) (suc i) = get_elem? xs i

  abbrev pub set : List A → ℕ → A → List A
  set [] i v = []
  set (x ∷ xs) zero v = v ∷ xs
  set (x ∷ xs) (suc i) v = x ∷ set xs i v

  -- QListWidget::takeItem, which takes nothing out of range.
  abbrev pub erase_idx : List A → ℕ → List A
  erase_idx [] i = []
  erase_idx (x ∷ xs) zero = xs
  erase_idx (x ∷ xs) (suc i) = x ∷ erase_idx xs i

  -- QListWidget::insertItem, which appends for a row past the end.
  abbrev pub insert_at : List A → ℕ → A → List A
  insert_at xs zero y = y ∷ xs
  insert_at [] (suc i) y = y ∷ []
  insert_at (x ∷ xs) (suc i) y = x ∷ insert_at xs i y

unfoldable pub add_message : ℕ → ListView → ListView
add_message m v = record v {
  rows = v.rows ++ m ∷ [];
  current_row = if v.select_on_add then some (length v.rows) else v.current_row;
}

abbrev pub add_messages : List ℕ → ListView → ListView
add_messages [] v = v
add_messages (m ∷ ms) v = add_messages ms (add_message m v)

-- The message of the current row.
abbrev pub current_msg : ListView → Option ℕ
current_msg v = elim v.current_row [ none ↦ none | some i ↦ get_elem? v.rows i ]

unfoldable pub update_current : ℕ → ListView → ListView
update_current m v = elim v.current_row [ none ↦ v | some i ↦ record v { rows = set v.rows i m } ]

-- The first half of `deleteCurrentMessage`; the click on the next current row is the second half.
unfoldable pub delete_current : (ℕ → ℕ → Option ℕ) → ListView → ListView
delete_current next v = elim v.current_row [
  | none ↦ v
  | some i ↦
      let rows = erase_idx v.rows i in record v { rows = rows; current_row = next i (length rows) }
]

unfoldable pub select_on_add : Bool → ListView → ListView
select_on_add enabled v = record v { select_on_add = enabled }

unfoldable pub clear_selection : ListView → ListView
clear_selection v = record v { current_row = none }

unfoldable pub clear_list : ListView → ListView
clear_list v = record v { rows = []; current_row = none }

-- `none` is the row -1.
unfoldable pub select_msg : Option ℕ → ListView → ListView
select_msg idx v = record v { current_row = idx }
