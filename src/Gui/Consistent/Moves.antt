-- ===== src/Gui/Consistent/Moves.antt =====
-- Moving the selected message to send keeps the window consistent.
use cc_tools_qt.Base.{
  ℕ, ◌+◌, ◌%◌, ◌<◌, ◌≤◌, ◌≡◌, refl, sym, ap, ◌∙◌, subst, List, Option, some, length, ◌==◌, leb,
  if◌then◌else◌, if_cases, if_keeps, inl, inr, Bool-cases, Option-cases, arith,
}
use cc_tools_qt.ListView.{ListView, get_elem?, erase_idx, insert_at, current_msg, select_msg}
use cc_tools_qt.ListView.Rows.{
  lt_of_get_elem?, length-erase_idx, length-insert_at, get_elem?-insert_at_self,
}
use cc_tools_qt.Gui.{Window, u32_mod}
use cc_tools_qt.Gui.Clicks.{is_msg, on_send, emit_send_selected, send_msg_clicked}
use cc_tools_qt.Gui.RecvList.{is_send}
use cc_tools_qt.Gui.SendList.{take_row, put_row, move_item, move_up, go_to_row, move_down}
use cc_tools_qt.Gui.Selection.{
  Selects, send_msg_clicked-SameLists, send_msg_clicked_again, send_msg_clicked_new,
}
use cc_tools_qt.Gui.Consistent.Send.{send_click-Consistent, emit_send_selected-Consistent}
use cc_tools_qt.Gui.Consistent.{Consistent, Counted}

module _ {W : Type 0} where
  -- `setCurrentRow` on a row: its message is clicked, and the row is marked.
  go_row-Consistent :
      (m to : ℕ) (s : Window W)
      → get_elem? s.send_list.rows to ≡ some m
      → Counted s
      → Consistent (emit_send_selected (some to) (send_msg_clicked m (some to) s))
  unfolding emit_send_selected select_msg
  go_row-Consistent m to s at c =
      let t = send_msg_clicked m (some to) s in
      let k = send_click-Consistent m to s at c in
      elim (Bool-cases (is_msg s.clicked_msg m)) [
        | inl e ↦
            emit_send_selected-Consistent (some to) t
              (ap is_send (send_msg_clicked_again m (some to) s e).sel_type) k
        | inr e ↦
            let (sel, clicked, list) = send_msg_clicked_new m (some to) s e in
            let row = select_msg (some to) t.send_list in
            record {
              selected =
                  subst (λ x. Selects x t.clicked_msg t.recv_list row) (sym sel)
                    (m, clicked, ap (λ (v : ListView). get_elem? v.rows to) list ∙ at);
              recv_count = k.recv_count;
              send_count = k.send_count;
              send_follows = k.send_follows;
            }
      ]

  -- Taking a row out changes nothing but the selection and the rows.
  record Taken (from : ℕ) (s t : Window W) : Type 0 where
    send_rows : t.send_list.rows ≡ erase_idx s.send_list.rows from
    recv_rows : t.recv_list.rows ≡ s.recv_list.rows
    recv_count : t.recv_list_count ≡ s.recv_list_count
    send_count : t.send_list_count ≡ s.send_list_count
    send_follows : t.send_list.select_on_add ≡ s.send_list.select_on_add

  take_row-Taken :
      (next : ℕ → ℕ → Option ℕ) (from : ℕ) (s : Window W) → Taken from s (take_row next from s)
  unfolding take_row
  take_row-Taken next from s =
      let rows = erase_idx s.send_list.rows from in
      let row = next from (length rows) in
      let s1 = on_send (λ v. record v { rows = rows; current_row = row }) s in
      let same0 : Taken from s s1 = record {
        send_rows = refl;
        recv_rows = refl;
        recv_count = refl;
        send_count = refl;
        send_follows = refl;
      } in
      elim (Option-cases (current_msg s1.send_list)) [
        | inl e ↦
            let eq : take_row next from s ≡ s1 = ground (arith, e) in
            subst (λ t. Taken from s t) (sym eq) same0
        | inr (m, e) ↦
            let t = send_msg_clicked m row s1 in
            let eq : take_row next from s ≡ t = ground (arith, e) in
            let same = send_msg_clicked-SameLists m row s1 in
            subst (λ t. Taken from s t) (sym eq)
              (record {
                send_rows = same.send_rows;
                recv_rows = same.recv_rows;
                recv_count = same.recv_count;
                send_count = same.send_count;
                send_follows = same.send_follows;
              })
      ]

  move_item-Consistent :
      (next : ℕ → ℕ → Option ℕ) (from to : ℕ) (s : Window W)
      → (from < length s.send_list.rows → to < length s.send_list.rows)
      → Consistent s
      → Consistent (move_item next from to s)
  unfolding move_item put_row
  move_item-Consistent next from to s b c = elim (Option-cases (get_elem? s.send_list.rows from)) [
    | inl e ↦
        let eq : move_item next from to s ≡ s = ground (arith, e) in
        subst (λ t. Consistent t) (sym eq) c
    | inr (m, e) ↦
        let w = take_row next from s in
        let k = take_row-Taken next from s in
        let eq : move_item next from to s ≡ put_row m to w = ground (arith, e) in
        let s1 =
          on_send (λ v. record v { rows = insert_at v.rows to m; current_row = some to }) w in
        let inside = lt_of_get_elem? s.send_list.rows from m e in
        let target = b inside in
        let rest = length-erase_idx s.send_list.rows from inside in
        let left = ap (λ (l : List ℕ). length l) k.send_rows in
        subst (λ t. Consistent t) (sym eq)
          (go_row-Consistent m to s1
            (get_elem?-insert_at_self w.send_list.rows to m (omega (arith, rest, left, target)))
            (record {
              recv_count =
                  k.recv_count
                  ∙ c.recv_count
                  ∙ ap (λ (l : List ℕ). length l % u32_mod) (sym k.recv_rows);
              send_count = omega (
                arith,
                k.send_count,
                c.send_count,
                rest,
                left,
                length-insert_at w.send_list.rows to m,
              );
              send_follows = k.send_follows ∙ c.send_follows;
            }))
  ]

  go_to_row-Consistent : (to : ℕ) (s : Window W) → Consistent s → Consistent (go_to_row to s)
  unfolding go_to_row select_msg
  go_to_row-Consistent to s c = elim (Option-cases (get_elem? s.send_list.rows to)) [
    | inl e ↦
        let eq : go_to_row to s ≡ s = ground (arith, e) in subst (λ t. Consistent t) (sym eq) c
    | inr (m, e) ↦
        let s1 = on_send (select_msg (some to)) s in
        let t = emit_send_selected (some to) (send_msg_clicked m (some to) s1) in
        let eq : go_to_row to s ≡ t = ground (arith, e) in
        subst (λ t. Consistent t) (sym eq)
          (go_row-Consistent m to s1 e (record {
            recv_count = c.recv_count;
            send_count = c.send_count;
            send_follows = c.send_follows;
          }))
  ]

  -- The target of a move up is a row above.
  pub move_up-Consistent :
      (next : ℕ → ℕ → Option ℕ) (target : ℕ → ℕ) (s : Window W)
      → ((row : ℕ) → target row ≤ row)
      → Consistent s
      → Consistent (move_up next target s)
  unfolding move_up
  move_up-Consistent next target s h c = elim (Option-cases s.send_list.current_row) [
    | inl e ↦
        let eq : move_up next target s ≡ s = ground (arith, e) in
        subst (λ t. Consistent t) (sym eq) c
    | inr (row, e) ↦
        let move = move_item next row (target row) s in
        let eq : move_up next target s ≡ (if row == 0 then s else move) = rw (e) refl in
        subst (λ t. Consistent t) (sym eq)
          (if_keeps (λ (t : Window W). Consistent t) (row == 0) s move c
            (move_item-Consistent next row (target row) s (λ b. omega (arith, h row, b)) c))
  ]

  pub move_down-Consistent :
      (next : ℕ → ℕ → Option ℕ) (target : ℕ → ℕ → ℕ) (s : Window W)
      → ((below count : ℕ) → below < count → target below count < count)
      → Consistent s
      → Consistent (move_down next target s)
  unfolding move_down
  move_down-Consistent next target s h c =
      let count = length s.send_list.rows in
      elim (Option-cases s.send_list.current_row) [
        | inl e ↦
            let to = go_to_row (target 0 count) s in
            let eq : move_down next target s ≡ (if count == 0 then s else to) = rw (e) refl in
            subst (λ t. Consistent t) (sym eq)
              (if_keeps (λ (t : Window W). Consistent t) (count == 0) s to c
                (go_to_row-Consistent (target 0 count) s c))
        | inr (row, e) ↦
            let move = move_item next row (target (row + 1) count) s in
            let eq : move_down next target s ≡ (if leb count (row + 1) then s else move) =
              rw (e) refl in
            subst (λ t. Consistent t) (sym eq)
              (if_cases (λ (t : Window W). Consistent t) (leb count (row + 1)) s move (λ last. c)
                (λ above.
                  let b : row + 1 < count = ground (arith, above) in
                  move_item-Consistent next row (target (row + 1) count) s
                    (λ inside. h (row + 1) count b) c))
      ]
