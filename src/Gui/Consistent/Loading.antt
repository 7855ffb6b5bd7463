-- ===== src/Gui/Consistent/Loading.antt =====
-- The updates and loads of whole lists, copies and sent messages keep the window consistent.
use cc_tools_qt.Base.{
  ℕ, suc, ◌+◌, ◌%◌, ◌<◌, ◌≡◌, refl, sym, ap, ◌∙◌, subst, Bool, true, false, List, [], ◌∷◌, map,
  none, some, length, ltb→lt, ◌==◌, ==_iff, ==_refl, ltb, if◌then◌else◌, if_cases, if_keeps, ◌⊎◌,
  inl, inr, Bool-cases, Option-cases, arith,
}
use cc_tools_qt.Message.{Message}
use cc_tools_qt.Plugins.{Plugins}
use cc_tools_qt.MsgMgr.Fields.{State, put}
use cc_tools_qt.MsgMgr.Receive.{add_msgs}
use cc_tools_qt.MsgMgr.Send.{send_msgs}
use cc_tools_qt.ListView.{ListView, get_elem?, add_messages, clear_list}
use cc_tools_qt.ListView.Rows.{select_on_add-add_messages}
use cc_tools_qt.Gui.{Window, SelectionType, u32_mod, object}
use cc_tools_qt.Gui.Clicks.{on_send, send_msg_clicked}
use cc_tools_qt.Gui.RecvList.{is_send, allocate, recv_load_msgs}
use cc_tools_qt.Gui.SendList.{
  index_of_msg, set_send_count, send_add_new_message, unselect_send, send_update_list,
  send_load_msgs, dup_clicked, send_now,
}
use cc_tools_qt.Gui.Selection.{
  Selects, Selected, SameLists, SameLists-refl, Unselected→Selected, send_msg_clicked-SameLists,
  send_msg_clicked_again,
}
use cc_tools_qt.Gui.Consistent.Send.{send_click-Consistent, send_add_new_message-Consistent}
use cc_tools_qt.Gui.Consistent.{Consistent, Consistent→Counted}
use cc_tools_qt.Gui.Consistent.Recv.{clear_recv_list-Consistent}
use cc_tools_qt.Gui.Consistent.Slots.{with_mgr-Consistent, with_msg_mgr-Consistent}

-- The loop ends at the first row of the message, or past the end.
index_of_msg_lem :
    (m : ℕ) (ms : List ℕ) (i : ℕ)
    → (index_of_msg (some m) ms i ≡ i + length ms)
      ⊎ ((j : ℕ) × (index_of_msg (some m) ms i ≡ i + j) × (get_elem? ms j ≡ some m))
unfolding index_of_msg
index_of_msg_lem m [] i = inl (omega arith)
index_of_msg_lem m (x ∷ ms) i = elim (Bool-cases (m == x)) [
  | inl e ↦ inr (0, ground (arith, e), ap (λ y. some y) (sym ((==_iff m x).0 e)))
  | inr e ↦ elim (index_of_msg_lem m ms (i + 1)) [
    | inl past ↦ inl (ground (arith, e, past))
    | inr (j, at, found) ↦ inr (suc j, ground (arith, e, at), found)
  ]
]

module _ {W : Type 0} where
  -- The list of messages to send may have been replaced since the selection was set.
  unselect_send_lem :
      (sel : SelectionType) (s : Window W) (old : ListView)
      → s.sel_type ≡ sel
      → Selects sel s.clicked_msg s.recv_list old
      → Selected (unselect_send s) × SameLists s (unselect_send s)
  unfolding unselect_send
  unselect_send_lem SelectionType.unselected s old e h =
      let eq : unselect_send s ≡ s = ground (arith, e) in
      subst (λ t. Selected t × SameLists s t) (sym eq)
        (subst (λ x. Selects x s.clicked_msg s.recv_list s.send_list) (sym e) h, SameLists-refl s)
  unselect_send_lem SelectionType.recv s old e h =
      let eq : unselect_send s ≡ s = ground (arith, e) in
      subst (λ t. Selected t × SameLists s t) (sym eq)
        (subst (λ x. Selects x s.clicked_msg s.recv_list s.send_list) (sym e) h, SameLists-refl s)
  unselect_send_lem SelectionType.send s old e (m, clicked, at) =
      let t = send_msg_clicked m none s in
      let eq : unselect_send s ≡ t = ground (arith, e, clicked) in
      let u = send_msg_clicked_again m none s (ground (arith, clicked, ==_refl m)) in
      subst (λ t. Selected t × SameLists s t) (sym eq)
        (Unselected→Selected t u, send_msg_clicked-SameLists m none s)

  click_found :
      (m : ℕ) (rows : List ℕ) (s : Window W)
      → s.send_list.rows ≡ rows
      → Consistent s
      → (index_of_msg (some m) rows 0 ≡ 0 + length rows)
        ⊎ ((j : ℕ) × (index_of_msg (some m) rows 0 ≡ 0 + j) × (get_elem? rows j ≡ some m))
      → let i = index_of_msg (some m) rows 0 in
        Consistent (if ltb i (length rows) then send_msg_clicked m (some i) s else s)
  click_found m rows s same c (inl past) =
      let i = index_of_msg (some m) rows 0 in
      if_cases (λ (t : Window W). Consistent t) (ltb i (length rows)) _ s
        (λ e. absurd (omega (arith, ltb→lt i (length rows) e, past))) (λ e. c)
  click_found m rows s same c (inr (j, e, at)) =
      let i = index_of_msg (some m) rows 0 in
      let row = ap (λ l. get_elem? l i) same ∙ ap (λ x. get_elem? rows x) (e ∙ omega arith) ∙ at in
      if_keeps (λ (t : Window W). Consistent t) (ltb i (length rows)) _ s
        (send_click-Consistent m i s row (Consistent→Counted s c)) c

  rows-set_send_count :
      (n : ℕ) (s : Window W) → (set_send_count n s).send_list.rows ≡ s.send_list.rows
  unfolding set_send_count
  rows-set_send_count n s = refl

  set_send_count_lem :
      (s t : Window W)
      → SameLists s t
      → Selected t
      → s.recv_list_count ≡ length s.recv_list.rows % u32_mod
      → s.send_list.select_on_add ≡ true
      → Consistent (set_send_count (length s.send_list.rows % u32_mod) t)
  unfolding set_send_count
  set_send_count_lem s t same sel rc f = record {
    selected = sel;
    recv_count =
        same.recv_count ∙ rc ∙ ap (λ (l : List ℕ). length l % u32_mod) (sym same.recv_rows);
    send_count = ap (λ (l : List ℕ). length l % u32_mod) (sym same.send_rows);
    send_follows = same.send_follows ∙ f;
  }

  pub send_update_list-Consistent :
      (s : Window W) (old : ListView)
      → Selects s.sel_type s.clicked_msg s.recv_list old
      → s.recv_list_count ≡ length s.recv_list.rows % u32_mod
      → s.send_list.select_on_add ≡ true
      → Consistent (send_update_list s.send_list.rows s)
  unfolding send_update_list
  send_update_list-Consistent s old h rc f =
      let rows = s.send_list.rows in
      let (sel, same) = unselect_send_lem s.sel_type s old refl h in
      let n = length rows % u32_mod in
      let s1 = set_send_count n (unselect_send s) in
      let c1 = set_send_count_lem s (unselect_send s) same sel rc f in
      let clicked = if is_send s.sel_type then s.clicked_msg else none in
      elim (Option-cases clicked) [
        | inl e ↦
            let eq : send_update_list rows s ≡ s1 = ground (arith, e) in
            subst (λ t. Consistent t) (sym eq) c1
        | inr (m, e) ↦
            let i = index_of_msg (some m) rows 0 in
            let click = if ltb i (length rows) then send_msg_clicked m (some i) s1 else s1 in
            let eq : send_update_list rows s ≡ click = ground (arith, e) in
            let listed = rows-set_send_count n (unselect_send s) ∙ same.send_rows in
            subst (λ t. Consistent t) (sym eq)
              (click_found m rows s1 listed c1 (index_of_msg_lem m rows 0))
      ]

  pub send_load_msgs-Consistent :
      (clear : Bool) (loaded : List Message) (s : Window W)
      → Consistent s
      → Consistent (send_load_msgs clear loaded s)
  unfolding send_load_msgs clear_list
  send_load_msgs-Consistent clear loaded s c =
      let s1 = if clear then on_send clear_list s else s in
      let (hs, m) = allocate loaded s1.msg_mgr in
      let s2 = on_send (add_messages hs) (record s1 { msg_mgr = m }) in
      let (h, rc, f) =
        if_keeps
          (λ (t : Window W).
            Selects t.sel_type t.clicked_msg t.recv_list s.send_list
            × (t.recv_list_count ≡ length t.recv_list.rows % u32_mod)
            × (t.send_list.select_on_add ≡ true))
          clear (on_send clear_list s) s (c.selected, c.recv_count, c.send_follows)
          (c.selected, c.recv_count, c.send_follows) in
      send_update_list-Consistent s2 s.send_list h rc
        (select_on_add-add_messages hs s1.send_list ∙ f)

module _ {W : Type 0} (p : Plugins W) where
  pub recv_load_msgs-Consistent :
      (loaded : List Message) (s : Window W) → Consistent s → Consistent (recv_load_msgs p loaded s)
  unfolding recv_load_msgs
  recv_load_msgs-Consistent loaded s c =
      let (hs, m) = allocate loaded s.msg_mgr in
      with_msg_mgr-Consistent (add_msgs p (map some hs) true) _
        (with_mgr-Consistent _ _ (clear_recv_list-Consistent false _ (with_mgr-Consistent m s c)))

  pub send_now-Consistent :
      (msgs : List Message) (s : Window W) → Consistent s → Consistent (send_now p msgs s)
  unfolding send_now
  send_now-Consistent msgs s c =
      let (hs, m) = allocate msgs s.msg_mgr in
      with_msg_mgr-Consistent (send_msgs p (map some hs)) _ (with_mgr-Consistent m s c)

  -- A duplicate is a new object that is added to the list.
  pub dup_clicked_adds :
      (s t : Window W)
      → dup_clicked p s ≡ some t
      → (m : State W) × (new : ℕ) × (t ≡ send_add_new_message new (record s { msg_mgr = m }))
  unfolding dup_clicked
  dup_clicked_adds s t e = elim (Option-cases s.msg_mgr.protocol) [
    | inl no_protocol ↦ absurd (ground (arith, no_protocol, e))
    | inr (r, protocol) ↦ elim (Option-cases s.clicked_msg) [
      | inl unselected ↦ absurd (ground (arith, protocol, unselected, e))
      | inr (h, clicked) ↦
          let (copy, w) = p.protocol_clone r (object s h) s.msg_mgr.world in
          elim (Option-cases copy) [
            | inl failed ↦ absurd (ground (arith, protocol, clicked, failed, e))
            | inr (x, copied) ↦
                let m = s.msg_mgr in
                let new = m.next_object in
                let m1 : State W = record m {
                  objects = put new x m.objects;
                  next_object = new + 1;
                  world = w;
                } in
                let eq : t ≡ send_add_new_message new (record s { msg_mgr = m1 }) =
                  ground (arith, protocol, clicked, copied, e) in
                (m1, new, eq)
          ]
    ]
  ]

  pub dup_clicked-Consistent :
      (s t : Window W)
      → length s.send_list.rows < u32_mod
      → Consistent s
      → dup_clicked p s ≡ some t
      → Consistent t
  dup_clicked-Consistent s t b c e =
      let (m, new, eq) = dup_clicked_adds s t e in
      let s1 = record s { msg_mgr = m } in
      subst (λ t. Consistent t) (sym eq)
        (send_add_new_message-Consistent new s1 b (with_mgr-Consistent m s c))
