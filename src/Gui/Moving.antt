-- ===== src/Gui/Moving.antt =====
-- Moving the selected message to send (app/cc_view/src/widget/MsgListWidget.cpp and GuiAppMgr.cpp):
-- where its row goes. Taking a row out clicks another message, so the moved one is clicked again at
-- its new place.
use cc_tools_qt.Base.{
  ℕ, zero, suc, ◌+◌, ◌-◌, ◌<◌, ◌≡◌, ◌≢◌, refl, sym, ap, ◌∙◌, subst, Bool, true, false, List, [],
  ◌∷◌, Option, some, length, ltb, arith,
}
use cc_tools_qt.MsgMgr.Order.{NotIn, Distinct}
use cc_tools_qt.ListView.{get_elem?, erase_idx, insert_at, select_msg}
use cc_tools_qt.ListView.Rows.{
  lt_of_get_elem?, get_elem?_of_lt, length-erase_idx, current_row_of_msg, get_elem?-insert_at_self,
}
use cc_tools_qt.Gui.{Window, SelectionType}
use cc_tools_qt.Gui.Clicks.{is_msg, on_send, emit_send_selected, send_msg_clicked}
use cc_tools_qt.Gui.SendList.{
  take_row, put_row, move_item, move_up, move_down, move_selected_top, move_selected_up,
  move_selected_down, move_selected_bottom,
}
use cc_tools_qt.Gui.Selection.{send_msg_clicked-SameLists, send_msg_clicked_new}
use cc_tools_qt.Gui.Consistent.{Consistent}
use cc_tools_qt.Gui.Consistent.Refresh.{chosen}

-- The four moves.
pub data Move : Type 0 where
  top : Move
  up : Move
  down : Move
  bottom : Move

abbrev pub moved : {W : Type 0} → (ℕ → ℕ → Option ℕ) → Move → Window W → Window W
moved next top s = move_selected_top next s
moved next up s = move_selected_up next s
moved next down s = move_selected_down next s
moved next bottom s = move_selected_bottom next s

-- Whether a row can be moved, of the given number of rows, and where it goes.
abbrev pub can_move : Move → ℕ → ℕ → Bool
can_move top row count = ltb 0 row
can_move up row count = ltb 0 row
can_move down row count = ltb (row + 1) count
can_move bottom row count = ltb (row + 1) count

abbrev pub target : Move → ℕ → ℕ → ℕ
target top row count = 0
target up row count = row - 1
target down row count = row + 1
target bottom row count = count - 1

-- The message `m` goes from one row to another: the other messages keep their order, and it stays the
-- selected one.
pub record Moved {W : Type 0} (m from to : ℕ) (s t : Window W) : Type 0 where
  pub at_target : get_elem? t.send_list.rows to ≡ some m
  pub others : erase_idx t.send_list.rows to ≡ erase_idx s.send_list.rows from
  pub sel_type : t.sel_type ≡ SelectionType.send
  pub clicked_msg : t.clicked_msg ≡ some m
  pub current_row : t.send_list.current_row ≡ some to

erase_idx-insert_at :
    (xs : List ℕ) (i y : ℕ) → i < length xs + 1 → erase_idx (insert_at xs i y) i ≡ xs
erase_idx-insert_at xs zero y h = refl
erase_idx-insert_at [] (suc i) y h = absurd (omega arith)
erase_idx-insert_at (x ∷ xs) (suc i) y h =
    ap (λ l. x ∷ l) (erase_idx-insert_at xs i y (omega arith))

ne_of_NotIn : (m : ℕ) (xs : List ℕ) (j x : ℕ) → NotIn m xs → get_elem? xs j ≡ some x → x ≢ m
ne_of_NotIn m [] j x h e = absurd (cc)
ne_of_NotIn m (y ∷ xs) zero x h e = ground (arith, h.0, e)
ne_of_NotIn m (y ∷ xs) (suc j) x h e = ne_of_NotIn m xs j x h.1 e

-- In a list of distinct addresses a row that is taken out is no other row's.
ne_of_Distinct :
    (xs : List ℕ) (i m j x : ℕ)
    → Distinct xs
    → get_elem? xs i ≡ some m
    → get_elem? (erase_idx xs i) j ≡ some x
    → x ≢ m
ne_of_Distinct [] i m j x d at e = absurd (cc)
ne_of_Distinct (y ∷ xs) zero m j x d at e =
    ne_of_NotIn m xs j x (subst (λ z. NotIn z xs) (ground (arith, at)) d.0) e
ne_of_Distinct (y ∷ xs) (suc i) m zero x d at e =
    let ne = ne_of_NotIn y xs i m d.0 at in ground (arith, ne, e)
ne_of_Distinct (y ∷ xs) (suc i) m (suc j) x d at e = ne_of_Distinct xs i m j x d.1 at e

target_fits :
    (mv : Move) (row count : ℕ)
    → row < count
    → can_move mv row count ≡ true
    → (1 < count) × (target mv row count < count)
target_fits top row count inside can = (ground (arith, inside, can), ground (arith, inside, can))
target_fits up row count inside can = (ground (arith, inside, can), ground (arith, inside, can))
target_fits down row count inside can = (ground (arith, inside, can), ground (arith, inside, can))
target_fits bottom row count inside can = (ground (arith, inside, can), ground (arith, inside, can))

-- A move of a row that can be moved takes its row out.
moved_item :
    {W : Type 0} (next : ℕ → ℕ → Option ℕ) (mv : Move) (from : ℕ) (s : Window W)
    → s.send_list.current_row ≡ some from
    → can_move mv from (length s.send_list.rows) ≡ true
    → moved next mv s ≡ move_item next from (target mv from (length s.send_list.rows)) s
unfolding move_up move_down
moved_item next top from s row can = ground (arith, row, can)
moved_item next up from s row can = ground (arith, row, can)
moved_item next down from s row can = ground (arith, row, can)
moved_item next bottom from s row can = ground (arith, row, can)

module _ {W : Type 0} (next : ℕ → ℕ → Option ℕ)
    (takes : (i n : ℕ) → 0 < n → (j : ℕ) × (next i n ≡ some j) × (j < n)) where
  -- Taking out the row of the selected message selects another one.
  take_row-selects :
      (m from : ℕ) (s : Window W)
      → s.clicked_msg ≡ some m
      → Distinct s.send_list.rows
      → get_elem? s.send_list.rows from ≡ some m
      → 1 < length s.send_list.rows
      → (x : ℕ) × (x ≢ m)
        × ((take_row next from s).clicked_msg ≡ some x)
        × ((take_row next from s).send_list.rows ≡ erase_idx s.send_list.rows from)
  unfolding take_row
  take_row-selects m from s clicked d at more =
      let rows = erase_idx s.send_list.rows from in
      let inside = lt_of_get_elem? s.send_list.rows from m at in
      let rest = length-erase_idx s.send_list.rows from inside in
      let (j, current, j_inside) = takes from (length rows) (omega (arith, rest, more)) in
      let (x, at_j) = get_elem?_of_lt rows j j_inside in
      let ne = ne_of_Distinct s.send_list.rows from m j x d at at_j in
      let s1 : Window W =
        on_send (λ v. record v { rows = rows; current_row = next from (length rows) }) s in
      let eq : take_row next from s ≡ send_msg_clicked x (next from (length rows)) s1 =
        ground (arith, current, at_j) in
      let other : is_msg s1.clicked_msg x ≡ false = ground (arith, clicked, ne) in
      let (sel, now, list) = send_msg_clicked_new x (next from (length rows)) s1 other in
      let same = send_msg_clicked-SameLists x (next from (length rows)) s1 in
      (
        x,
        ne,
        ap (λ (t : Window W). t.clicked_msg) eq ∙ now,
        ap (λ (t : Window W). t.send_list.rows) eq ∙ same.send_rows,
      )

  put_row-Moved :
      (m x to : ℕ) (s : Window W)
      → s.clicked_msg ≡ some x
      → x ≢ m
      → to < length s.send_list.rows + 1
      → ((put_row m to s).send_list.rows ≡ insert_at s.send_list.rows to m)
        × ((put_row m to s).sel_type ≡ SelectionType.send)
        × ((put_row m to s).clicked_msg ≡ some m)
        × ((put_row m to s).send_list.current_row ≡ some to)
  unfolding put_row emit_send_selected select_msg
  put_row-Moved m x to s clicked ne b =
      let s1 : Window W =
        on_send (λ v. record v { rows = insert_at v.rows to m; current_row = some to }) s in
      let other : is_msg s1.clicked_msg m ≡ false = ground (arith, clicked, ne) in
      let (sel, now, list) = send_msg_clicked_new m (some to) s1 other in
      ((send_msg_clicked-SameLists m (some to) s1).send_rows, sel, now, refl)

  move_item-Moved :
      (m from to : ℕ) (s : Window W)
      → s.clicked_msg ≡ some m
      → Distinct s.send_list.rows
      → get_elem? s.send_list.rows from ≡ some m
      → 1 < length s.send_list.rows
      → to < length s.send_list.rows
      → Moved m from to s (move_item next from to s)
  unfolding move_item
  move_item-Moved m from to s clicked d at more b =
      let (x, ne, other, rows) = take_row-selects m from s clicked d at more in
      let w = take_row next from s in
      let inside = lt_of_get_elem? s.send_list.rows from m at in
      let rest = length-erase_idx s.send_list.rows from inside in
      let left = ap (λ (l : List ℕ). length l) rows in
      let fits : to < length w.send_list.rows + 1 = omega (arith, rest, left, b) in
      let (put, sel, now, current) = put_row-Moved m x to w other ne fits in
      let eq : move_item next from to s ≡ put_row m to w = ground (arith, at) in
      subst (λ t. Moved m from to s t) (sym eq)
        (record {
          at_target =
              ap (λ l. get_elem? l to) put
              ∙ get_elem?-insert_at_self w.send_list.rows to m (omega (arith, fits));
          others =
              ap (λ l. erase_idx l to) put ∙ erase_idx-insert_at w.send_list.rows to m fits ∙ rows;
          sel_type = sel;
          clicked_msg = now;
          current_row = current;
        })

  -- A move of the selected message to send, of a row that can be moved so, puts it into the row above
  -- or below or into the first or last one, as the button says. The other messages keep their order,
  -- and it stays the selected message and that of the current row. This holds in a consistent window
  -- whose list has no message twice, if Qt makes a row of the list current whenever a row is taken
  -- out of it and rows are left.
  pub moved_lem :
      (mv : Move) (m from : ℕ) (s : Window W)
      → Consistent s
      → Distinct s.send_list.rows
      → s.sel_type ≡ SelectionType.send
      → s.clicked_msg ≡ some m
      → s.send_list.current_row ≡ some from
      → can_move mv from (length s.send_list.rows) ≡ true
      → Moved m from (target mv from (length s.send_list.rows)) s (moved next mv s)
  moved_lem mv m from s c d sel clicked row can =
      let count = length s.send_list.rows in
      let (x, clicked_x, at_x) = chosen SelectionType.send s sel c.selected in
      let (i, row_i, at_i) = current_row_of_msg s.send_list x at_x in
      let at : get_elem? s.send_list.rows from ≡ some m =
        ground (arith, clicked, clicked_x, row, row_i, at_i) in
      let inside = lt_of_get_elem? s.send_list.rows from m at in
      let (more, fits) = target_fits mv from count inside can in
      subst (λ t. Moved m from (target mv from count) s t) (sym (moved_item next mv from s row can))
        (move_item-Moved m from (target mv from count) s clicked d at more fits)
