-- ===== src/ListView/Rows.antt =====
-- Facts on the rows of a list widget.
use cc_tools_qt.Base.{
  ℕ, zero, suc, ◌+◌, ◌≤◌, ◌<◌, ◌≡◌, refl, sym, ◌∙◌, true, false, List, [], ◌∷◌, ◌++◌, length,
  Option, some, append-nil, append_assoc, Option-cases, inl, inr, arith,
}
use cc_tools_qt.ListView.{
  ListView, get_elem?, set, erase_idx, insert_at, add_message, add_messages, current_msg,
  update_current, delete_current,
}

module _ {ℓ} {A : Type ℓ} where
  pub lt_of_get_elem? : (xs : List A) (i : ℕ) (x : A) → get_elem? xs i ≡ some x → i < length xs
  lt_of_get_elem? [] i x h = cc
  lt_of_get_elem? (y ∷ xs) zero x h = omega arith
  lt_of_get_elem? (y ∷ xs) (suc i) x h = omega (arith, lt_of_get_elem? xs i x h)

  pub get_elem?_of_lt : (xs : List A) (i : ℕ) → i < length xs → (x : A) × (get_elem? xs i ≡ some x)
  get_elem?_of_lt [] i h = absurd (omega arith)
  get_elem?_of_lt (y ∷ xs) zero h = (y, refl)
  get_elem?_of_lt (y ∷ xs) (suc i) h = get_elem?_of_lt xs i (omega arith)

  pub get_elem?-append :
      (xs ys : List A) (i : ℕ) (x : A) → get_elem? xs i ≡ some x → get_elem? (xs ++ ys) i ≡ some x
  get_elem?-append [] ys i x h = cc
  get_elem?-append (y ∷ xs) ys zero x h = h
  get_elem?-append (y ∷ xs) ys (suc i) x h = get_elem?-append xs ys i x h

  pub get_elem?_last : (xs : List A) (y : A) → get_elem? (xs ++ y ∷ []) (length xs) ≡ some y
  get_elem?_last [] y = refl
  get_elem?_last (x ∷ xs) y = get_elem?_last xs y

  pub get_elem?-set_self :
      (xs : List A) (i : ℕ) (y : A) → i < length xs → get_elem? (set xs i y) i ≡ some y
  get_elem?-set_self [] i y h = absurd (omega arith)
  get_elem?-set_self (x ∷ xs) zero y h = refl
  get_elem?-set_self (x ∷ xs) (suc i) y h = get_elem?-set_self xs i y (omega arith)

  pub length-set : (xs : List A) (i : ℕ) (y : A) → length (set xs i y) ≡ length xs
  length-set [] i y = refl
  length-set (x ∷ xs) zero y = refl
  length-set (x ∷ xs) (suc i) y = omega (arith, length-set xs i y)

  pub length-erase_idx :
      (xs : List A) (i : ℕ) → i < length xs → length (erase_idx xs i) + 1 ≡ length xs
  length-erase_idx [] i h = absurd (omega arith)
  length-erase_idx (x ∷ xs) zero h = omega arith
  length-erase_idx (x ∷ xs) (suc i) h = omega (arith, length-erase_idx xs i (omega arith))

  pub length-insert_at : (xs : List A) (i : ℕ) (y : A) → length (insert_at xs i y) ≡ length xs + 1
  length-insert_at xs zero y = omega arith
  length-insert_at [] (suc i) y = omega arith
  length-insert_at (x ∷ xs) (suc i) y = omega (arith, length-insert_at xs i y)

  pub get_elem?-insert_at_self :
      (xs : List A) (i : ℕ) (y : A) → i ≤ length xs → get_elem? (insert_at xs i y) i ≡ some y
  get_elem?-insert_at_self xs zero y h = refl
  get_elem?-insert_at_self [] (suc i) y h = absurd (omega arith)
  get_elem?-insert_at_self (x ∷ xs) (suc i) y h = get_elem?-insert_at_self xs i y (omega arith)

-- The current row of a message is one of the rows.
pub current_row_of_msg :
    (v : ListView) (m : ℕ)
    → current_msg v ≡ some m
    → (i : ℕ) × (v.current_row ≡ some i) × (get_elem? v.rows i ≡ some m)
current_row_of_msg v m h = elim (Option-cases v.current_row) [
  | inl e ↦ absurd (ground (arith, e, h))
  | inr (i, e) ↦ (i, e, ground (arith, e, h))
]

-- Without following, an added message leaves the current row alone.
pub current_msg-add_message :
    (h m : ℕ) (v : ListView)
    → v.select_on_add ≡ false
    → current_msg v ≡ some m
    → current_msg (add_message h v) ≡ some m
unfolding add_message
current_msg-add_message h m v follows e =
    let (i, row, at) = current_row_of_msg v m e in
    ground (arith, follows, row, get_elem?-append v.rows (h ∷ []) i m at)

pub current_msg-add_message_self :
    (h : ℕ) (v : ListView) → v.select_on_add ≡ true → current_msg (add_message h v) ≡ some h
unfolding add_message
current_msg-add_message_self h v follows = ground (arith, follows, get_elem?_last v.rows h)

pub current_msg-update_current :
    (h m : ℕ) (v : ListView) → current_msg v ≡ some m → current_msg (update_current h v) ≡ some h
unfolding update_current
current_msg-update_current h m v e =
    let (i, row, at) = current_row_of_msg v m e in
    ground (arith, row, get_elem?-set_self v.rows i h (lt_of_get_elem? v.rows i m at))

pub rows-add_messages : (hs : List ℕ) (v : ListView) → (add_messages hs v).rows ≡ v.rows ++ hs
unfolding add_message
rows-add_messages [] v = sym (append-nil v.rows)
rows-add_messages (h ∷ hs) v =
    rows-add_messages hs (add_message h v) ∙ append_assoc v.rows (h ∷ []) hs

pub select_on_add-add_messages :
    (hs : List ℕ) (v : ListView) → (add_messages hs v).select_on_add ≡ v.select_on_add
unfolding add_message
select_on_add-add_messages [] v = refl
select_on_add-add_messages (h ∷ hs) v = select_on_add-add_messages hs (add_message h v)

-- The list after its current row is deleted has one row less.
pub delete_current_rows :
    (next : ℕ → ℕ → Option ℕ) (v : ListView) (m : ℕ)
    → current_msg v ≡ some m
    → length (delete_current next v).rows + 1 ≡ length v.rows
unfolding delete_current
delete_current_rows next v m e =
    let (i, row, at) = current_row_of_msg v m e in
    ground (arith, row, length-erase_idx v.rows i (lt_of_get_elem? v.rows i m at))

pub delete_current-select_on_add :
    (next : ℕ → ℕ → Option ℕ) (v : ListView)
    → (delete_current next v).select_on_add ≡ v.select_on_add
unfolding delete_current
delete_current-select_on_add next v = ground arith
