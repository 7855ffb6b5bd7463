-- ===== src/MsgMgr/Receive/Adding.antt =====
-- What addMsgs does to the list of messages (lib/src/ToolsMsgMgrImpl.cpp).
use cc_tools_qt.Base.{
  subst, ℕ, ◌+◌, ◌%◌, ◌<◌, ◌≡◌, ◌≢◌, refl, sym, ap, Bool, true, false, List, [], ◌∷◌, ◌++◌, Option,
  none, some, ◌==◌, if◌then◌else◌, present, All-append, arith, append-nil, append_assoc, Bool-cases,
  inl, inr,
}
use cc_tools_qt.Message.{Message, type_invalid, get_from}
use cc_tools_qt.Plugins.{Plugins}
use cc_tools_qt.MsgMgr.Fields.{
  State, u64_mod, num_of, stamp_now, update_internal_id, report_msg_added,
}
use cc_tools_qt.MsgMgr.Order.{NotIn, Inv, CanAdd, SameNums, Ordered-frame, Ordered-snoc, Apart-snoc}
use cc_tools_qt.MsgMgr.Receive.{add_one, add_msgs}

-- The messages of a list whose type is set.
abbrev pub typed : (ℕ → Message) → List ℕ → List ℕ
typed o [] = []
typed o (h ∷ hs) = if get_from (o h).msg_type 0 == type_invalid then typed o hs else h ∷ typed o hs

module _ {W : Type 0} (p : Plugins W) where
  add_one_invalid :
      (b : Bool) (h : ℕ) (s : State W)
      → (get_from (s.objects h).msg_type 0 == type_invalid) ≡ true
      → add_one p b h s ≡ s
  unfolding add_one
  add_one_invalid b h s e = ground arith

  -- What one round does for a message of a valid type.
  record Added (b : Bool) (h : ℕ) (s t : State W) : Type 0 where
    all_msgs : t.all_msgs ≡ s.all_msgs ++ h ∷ []
    next_num : t.next_msg_num ≡ (s.next_msg_num + 1) % u64_mod
    num : (t.objects h).msg_num ≡ some s.next_msg_num
    type : (t.objects h).msg_type ≡ (s.objects h).msg_type
    next_object : t.next_object ≡ s.next_object

  add_one-Added :
      (b : Bool) (h : ℕ) (s : State W)
      → (get_from (s.objects h).msg_type 0 == type_invalid) ≡ false
      → Added b h s (add_one p b h s)
  unfolding add_one stamp_now update_internal_id report_msg_added
  add_one-Added b h s e = ground arith

  add_one_other :
      (b : Bool) (h : ℕ) (s : State W) (q : ℕ) → h ≢ q → (add_one p b h s).objects q ≡ s.objects q
  unfolding add_one stamp_now update_internal_id report_msg_added
  add_one_other b h s q n = ground arith

  add_one-types :
      (b : Bool) (h : ℕ) (s : State W) (q : ℕ)
      → ((add_one p b h s).objects q).msg_type ≡ (s.objects q).msg_type
  unfolding add_one stamp_now update_internal_id report_msg_added
  add_one-types b h s q = ground arith

  typed-frame :
      (o o' : ℕ → Message) (hs : List ℕ)
      → ((q : ℕ) → (o' q).msg_type ≡ (o q).msg_type)
      → typed o' hs ≡ typed o hs
  typed-frame o o' [] same = refl
  typed-frame o o' (h ∷ hs) same = ground (arith, same h, typed-frame o o' hs same)

  -- Adding messages puts the non-null ones with a valid type at the end of the list, in order; the
  -- others are skipped.
  pub add_msgs-appends :
      (msgs : List (Option ℕ)) (b : Bool) (s : State W)
      → (add_msgs p msgs b s).all_msgs ≡ s.all_msgs ++ typed s.objects (present msgs)
  unfolding add_msgs
  add_msgs-appends [] b s = sym (append-nil s.all_msgs)
  add_msgs-appends (none ∷ msgs) b s = add_msgs-appends msgs b s
  add_msgs-appends (some h ∷ msgs) b s =
      elim (Bool-cases (get_from (s.objects h).msg_type 0 == type_invalid)) [
        | inl e ↦ ground (arith, add_one_invalid b h s e, add_msgs-appends msgs b s)
        | inr e ↦ ground (
          arith,
          add_msgs-appends msgs b (add_one p b h s),
          (add_one-Added b h s e).all_msgs,
          typed-frame s.objects (add_one p b h s).objects (present msgs) (add_one-types b h s),
          append_assoc s.all_msgs (h ∷ []) (typed s.objects (present msgs)),
        )
      ]

  SameNums-add_one :
      (b : Bool) (h : ℕ) (s : State W) (hs : List ℕ)
      → NotIn h hs
      → SameNums s.objects (add_one p b h s).objects hs
  SameNums-add_one b h s [] n = tt
  SameNums-add_one b h s (x ∷ hs) n =
      (ap num_of (add_one_other b h s x (λ e. n.0 (sym e))), SameNums-add_one b h s hs n.1)

  add_one-Inv :
      (b : Bool) (h : ℕ) (s t : State W)
      → Added b h s t
      → SameNums s.objects t.objects s.all_msgs
      → Inv s
      → h < s.next_object
      → s.next_msg_num + 1 < u64_mod
      → Inv t
  add_one-Inv b h s t a same v lt fits = record {
    ordered = rw a.all_msgs (
        Ordered-snoc t.objects 1 s.all_msgs s.next_msg_num h
          (Ordered-frame s.objects t.objects 1 s.all_msgs s.next_msg_num same v.ordered)
          (ground (arith, a.num)) (ground (arith, a.num, a.next_num)));
    allocated =
        rw (a.all_msgs, a.next_object)
          (All-append (λ x. x < s.next_object) s.all_msgs (h ∷ []) v.allocated (lt, tt));
  }

  -- Adding messages keeps the list in the order of the message numbers, if they are distinct objects
  -- that are not in the list yet, up to the range of the 64-bit counter.
  pub add_msgs-Inv :
      (msgs : List (Option ℕ)) (b : Bool) (s : State W)
      → Inv s
      → CanAdd (present msgs) s
      → Inv (add_msgs p msgs b s)
  unfolding add_msgs
  add_msgs-Inv [] b s v c = v
  add_msgs-Inv (none ∷ msgs) b s v c = add_msgs-Inv msgs b s v c
  add_msgs-Inv (some h ∷ msgs) b s v c =
      elim (Bool-cases (get_from (s.objects h).msg_type 0 == type_invalid)) [
        | inl e ↦
            subst (λ t. Inv (add_msgs p msgs b t)) (sym (add_one_invalid b h s e))
              (add_msgs-Inv msgs b s v (record {
                distinct = c.distinct.1;
                apart = c.apart.1;
                allocated = c.allocated.1;
                fits = omega (arith, c.fits);
              }))
        | inr e ↦
            let a = add_one-Added b h s e in
            let t = add_one p b h s in
            add_msgs-Inv msgs b t
              (add_one-Inv b h s t a (SameNums-add_one b h s s.all_msgs c.apart.0) v c.allocated.0
                (omega (arith, c.fits)))
              (record {
                distinct = c.distinct.1;
                apart =
                    rw a.all_msgs (Apart-snoc (present msgs) s.all_msgs h c.apart.1 c.distinct.0);
                allocated = rw a.next_object c.allocated.1;
                fits = omega (arith, a.next_num, c.fits);
              })
      ]
