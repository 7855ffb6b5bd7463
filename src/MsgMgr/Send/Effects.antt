-- ===== src/MsgMgr/Send/Effects.antt =====
-- What a call of sendMsgs does to the manager (lib/src/ToolsMsgMgrImpl.cpp), whatever the plugins do
-- with the messages: the protocol may fail to write one, and the filters may drop its data.
use cc_tools_qt.Base.{
  Option-cases, subst, ℕ, ◌+◌, ◌%◌, ◌≡◌, refl, sym, Bool, false, List, [], ◌∷◌, ◌++◌, map, Option,
  none, some, ◌==◌, if◌then◌else◌, present, arith, append-nil, append_assoc, inl, inr, ◌⊎◌,
}
use cc_tools_qt.Message.{type_sent}
use cc_tools_qt.Plugins.{Plugins}
use cc_tools_qt.MsgMgr.Fields.{
  State, Event, msg_added, u64_mod, stamp_now, update_internal_id, report_msg_added,
}
use cc_tools_qt.MsgMgr.Send.{update_msg_guard, send_one, send_each, send_msgs}

-- The events of reporting each of the messages, if the callback is set.
abbrev pub reports : Bool → List ℕ → List Event
reports callback hs = if callback then map msg_added hs else []

module _ {W : Type 0} (p : Plugins W) where
  -- The round leaves the parts of the manager alone that select the path of later rounds.
  pub record SameSetup (s t : State W) : Type 0 where
    pub filters : t.filters ≡ s.filters
    pub callback : t.msg_added_callback ≡ s.msg_added_callback
    pub next_object : t.next_object ≡ s.next_object

  pub send_one-SameSetup : (k r h : ℕ) (s : State W) → SameSetup s (send_one p k r h s)
  unfolding send_one update_msg_guard update_internal_id stamp_now report_msg_added
  send_one-SameSetup k r h s = ground arith

  pub send_one-all_msgs :
      (k r h : ℕ) (s : State W) → (send_one p k r h s).all_msgs ≡ s.all_msgs ++ h ∷ []
  unfolding send_one update_msg_guard update_internal_id stamp_now report_msg_added
  send_one-all_msgs k r h s = ground arith

  pub send_one-next :
      (k r h : ℕ) (s : State W) → (send_one p k r h s).next_msg_num ≡ (s.next_msg_num + 1) % u64_mod
  unfolding send_one update_msg_guard update_internal_id stamp_now report_msg_added
  send_one-next k r h s = ground arith

  pub send_one-events :
      (k r h : ℕ) (s : State W)
      → (send_one p k r h s).events ≡ s.events ++ reports s.msg_added_callback (h ∷ [])
  unfolding send_one update_msg_guard update_internal_id stamp_now report_msg_added
  send_one-events k r h s = ground (arith, append-nil s.events)

  pub send_one-num :
      (k r h : ℕ) (s : State W) → ((send_one p k r h s).objects h).msg_num ≡ some s.next_msg_num
  unfolding send_one update_msg_guard update_internal_id stamp_now report_msg_added
  send_one-num k r h s = ground arith

  pub send_one-type :
      (k r h : ℕ) (s : State W) → ((send_one p k r h s).objects h).msg_type ≡ some type_sent
  unfolding send_one update_msg_guard update_internal_id stamp_now report_msg_added
  send_one-type k r h s = ground arith

  pub send_one_other :
      (k r h : ℕ) (s : State W) (q : ℕ)
      → (h == q) ≡ false
      → (send_one p k r h s).objects q ≡ s.objects q
  unfolding send_one update_msg_guard update_internal_id stamp_now report_msg_added
  send_one_other k r h s q e = ground arith

  send_each-appends :
      (k r : ℕ) (msgs : List (Option ℕ)) (s : State W)
      → ((send_each p k r msgs s).all_msgs ≡ s.all_msgs ++ present msgs)
        × ((send_each p k r msgs s).events
            ≡ s.events ++ reports s.msg_added_callback (present msgs))
  unfolding send_each
  send_each-appends k r [] s = (sym (append-nil s.all_msgs), ground (arith, append-nil s.events))
  send_each-appends k r (none ∷ msgs) s = send_each-appends k r msgs s
  send_each-appends k r (some h ∷ msgs) s = ground (
    arith,
    send_each-appends k r msgs (send_one p k r h s),
    send_one-SameSetup k r h s,
    send_one-all_msgs k r h s,
    send_one-events k r h s,
    append_assoc s.all_msgs (h ∷ []) (present msgs),
    append_assoc s.events (msg_added h ∷ []) (map msg_added (present msgs)),
    append-nil s.events,
  )

  pub send_msgs_running :
      (k r : ℕ) (msgs : List (Option ℕ)) (s : State W)
      → s.socket ≡ some k
      → s.protocol ≡ some r
      → send_msgs p msgs s ≡ send_each p k r msgs s
  unfolding send_msgs send_each
  send_msgs_running k r [] s es ep = refl
  send_msgs_running k r (m ∷ ms) s es ep = ground arith

  -- With a socket and a protocol, sending adds every non-null message to the end of the list and
  -- reports each once if a callback is set, in the order of the call, also those that could not be
  -- written or whose data the filters dropped.
  pub send_msgs-appends :
      (k r : ℕ) (msgs : List (Option ℕ)) (s : State W)
      → s.socket ≡ some k
      → s.protocol ≡ some r
      → ((send_msgs p msgs s).all_msgs ≡ s.all_msgs ++ present msgs)
        × ((send_msgs p msgs s).events ≡ s.events ++ reports s.msg_added_callback (present msgs))
  send_msgs-appends k r msgs s es ep =
      ground (arith, send_msgs_running k r msgs s es ep, send_each-appends k r msgs s)

  pub send_msgs-idle :
      (msgs : List (Option ℕ)) (s : State W)
      → (s.socket ≡ none) ⊎ (s.protocol ≡ none)
      → send_msgs p msgs s ≡ s
  unfolding send_msgs
  send_msgs-idle [] s h = refl
  send_msgs-idle (m ∷ ms) s h = ground arith

  -- To show a property of a call, show it of the loop and of doing nothing.
  pub send_msgs_cases {ℓ} :
      (P : State W → Type ℓ) (msgs : List (Option ℕ)) (s : State W)
      → P s
      → ((k r : ℕ) → P (send_each p k r msgs s))
      → P (send_msgs p msgs s)
  send_msgs_cases P msgs s idle loop = elim (Option-cases s.socket) [
    | inl e ↦ subst P (sym (send_msgs-idle msgs s (inl e))) idle
    | inr (k, ek) ↦ elim (Option-cases s.protocol) [
      | inl e ↦ subst P (sym (send_msgs-idle msgs s (inr e))) idle
      | inr (r, er) ↦ subst P (sym (send_msgs_running k r msgs s ek er)) (loop k r)
    ]
  ]
