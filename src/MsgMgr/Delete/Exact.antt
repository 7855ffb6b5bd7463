-- ===== src/MsgMgr/Delete/Exact.antt =====
-- Which messages deleteMsg and deleteMsgs remove (lib/src/ToolsMsgMgrImpl.cpp).
use cc_tools_qt.Base.{
  ℕ, ◌+◌, ◌≤◌, ◌<◌, ◌≡◌, ◌≢◌, refl, sym, ap, ◌∙◌, true, false, not, filter, List, [], ◌∷◌, ◌++◌,
  ◌==◌, append_assoc, append-nil, All, arith, ==_refl, Bool-cases, inl, inr,
}
use cc_tools_qt.Message.{Message}
use cc_tools_qt.MsgMgr.Fields.{State, num_of}
use cc_tools_qt.MsgMgr.Order.{Ordered, Inv, Ordered-le}
use cc_tools_qt.MsgMgr.Delete.{erase_num, delete_loop, delete_msg, delete_msgs, delete_all_msgs}

-- The third list is the first and the second merged, each in its own order.
pub data Merge : List ℕ → List ℕ → List ℕ → Type 0 where
  done : Merge [] [] []
  gone : {h : ℕ} {ms ks all : List ℕ} → Merge ms ks all → Merge (h ∷ ms) ks (h ∷ all)
  kept : {h : ℕ} {ms ks all : List ℕ} → Merge ms ks all → Merge ms (h ∷ ks) (h ∷ all)

-- The loop without its iterators: `erase` never reaches what was passed before.
remaining : (ℕ → Message) → List ℕ → List ℕ → List ℕ
remaining o [] rest = rest
remaining o (m ∷ ms) [] = []
remaining o (m ∷ ms) (x ∷ xs) = elim (num_of (o x) == num_of (o m)) [
  | true ↦ remaining o ms xs
  | false ↦ x ∷ remaining o (m ∷ ms) xs
]

delete_loop-eq-remaining :
    (o : ℕ → Message) (ms pre run rest : List ℕ)
    → delete_loop o ms pre run rest ≡ pre ++ remaining o ms rest
unfolding delete_loop remaining
delete_loop-eq-remaining o [] pre run rest = refl
delete_loop-eq-remaining o (m ∷ ms) pre run [] = sym (append-nil pre)
delete_loop-eq-remaining o (m ∷ ms) pre run (x ∷ xs) = ground (
  arith,
  delete_loop-eq-remaining o ms pre (run ++ x ∷ []) xs,
  delete_loop-eq-remaining o (m ∷ ms) (pre ++ x ∷ []) [] xs,
  append_assoc pre (x ∷ []) (remaining o (m ∷ ms) xs),
)

-- A message that is still to come has a number from the bound on.
gone-le :
    (o : ℕ → Message) (lo hi : ℕ) {h : ℕ} {ms ks all : List ℕ}
    → Merge (h ∷ ms) ks all
    → Ordered o lo all hi
    → lo ≤ num_of (o h)
gone-le o lo hi (gone m) v = v.0
gone-le o lo hi (kept {h = x} m) v = omega (arith, v.0, gone-le o (num_of (o x) + 1) hi m v.1)

remaining-Merge :
    (o : ℕ → Message) (lo hi : ℕ) {ms ks all : List ℕ}
    → Merge ms ks all
    → Ordered o lo all hi
    → remaining o ms all ≡ ks
unfolding remaining
remaining-Merge o lo hi done v = refl
remaining-Merge o lo hi (gone {h = h} m) v =
    ground (arith, ==_refl (num_of (o h)), remaining-Merge o (num_of (o h) + 1) hi m v.1)
remaining-Merge o lo hi (kept {h = x} {ms = []} m) v =
    ap (◌∷◌ x) (remaining-Merge o (num_of (o x) + 1) hi m v.1)
remaining-Merge o lo hi (kept {h = x} {ms = y ∷ ms} m) v =
    ground
      (arith, gone-le o (num_of (o x) + 1) hi m v.1, remaining-Merge o (num_of (o x) + 1) hi m v.1)

erase_num-eq-remaining :
    (o : ℕ → Message) (h : ℕ) (all : List ℕ)
    → erase_num o (num_of (o h)) all ≡ remaining o (h ∷ []) all
unfolding erase_num remaining
erase_num-eq-remaining o h [] = refl
erase_num-eq-remaining o h (x ∷ xs) = ground (arith, erase_num-eq-remaining o h xs)

remaining_stale :
    (o : ℕ → Message) (m : ℕ) (ms all : List ℕ)
    → All (λ x. num_of (o x) ≢ num_of (o m)) all
    → remaining o (m ∷ ms) all ≡ all
unfolding remaining
remaining_stale o m ms [] n = refl
remaining_stale o m ms (x ∷ xs) n = ground (arith, n.0, remaining_stale o m ms xs n.1)

remaining_stops :
    (o : ℕ → Message) (before : List ℕ) (m : ℕ) (ms all : List ℕ)
    → All (λ x. num_of (o x) ≢ num_of (o m)) all
    → remaining o (before ++ m ∷ ms) all ≡ remaining o before all
unfolding remaining
remaining_stops o [] m ms all n = remaining_stale o m ms all n
remaining_stops o (b ∷ bs) m ms [] n = refl
remaining_stops o (b ∷ bs) m ms (x ∷ xs) n =
    ground (arith, remaining_stops o bs m ms xs n.1, remaining_stops o (b ∷ bs) m ms xs n.1)

-- Any part of an ordered list is ordered, from any bound that is not above its first number.
Ordered-weaken :
    (o : ℕ → Message) (lo lo' : ℕ) (hs : List ℕ) (hi : ℕ)
    → lo ≤ lo'
    → Ordered o lo' hs hi
    → Ordered o lo hs hi
Ordered-weaken o lo lo' [] hi le v = omega arith
Ordered-weaken o lo lo' (x ∷ hs) hi le v = (omega (arith, v.0), v.1)

Ordered-remaining :
    (o : ℕ → Message) (ms all : List ℕ) (lo hi : ℕ)
    → Ordered o lo all hi
    → Ordered o lo (remaining o ms all) hi
unfolding remaining
Ordered-remaining o [] all lo hi v = v
Ordered-remaining o (m ∷ ms) [] lo hi v = v
Ordered-remaining o (m ∷ ms) (x ∷ xs) lo hi v = elim (Bool-cases (num_of (o x) == num_of (o m))) [
  | inl e ↦
      rw (e, remaining)
        (Ordered-weaken o lo (num_of (o x) + 1) (remaining o ms xs) hi (omega (arith, v.0))
          (Ordered-remaining o ms xs (num_of (o x) + 1) hi v.1))
  | inr e ↦ rw (e, remaining) ((v.0, Ordered-remaining o (m ∷ ms) xs (num_of (o x) + 1) hi v.1))
]

All-remaining :
    (P : ℕ → Type 0) (o : ℕ → Message) (ms all : List ℕ) → All P all → All P (remaining o ms all)
unfolding remaining
All-remaining P o [] all v = v
All-remaining P o (m ∷ ms) [] v = v
All-remaining P o (m ∷ ms) (x ∷ xs) v =
    ground (arith, All-remaining P o ms xs v.1, All-remaining P o (m ∷ ms) xs v.1)

filter_above :
    (o : ℕ → Message) (n lo : ℕ) (all : List ℕ) (hi : ℕ)
    → n < lo
    → Ordered o lo all hi
    → filter (λ x. not (num_of (o x) == n)) all ≡ all
filter_above o n lo [] hi h v = refl
filter_above o n lo (x ∷ xs) hi h v =
    ground (arith, h, v.0, filter_above o n (num_of (o x) + 1) xs hi (omega (arith, h, v.0)) v.1)

erase_num-eq-filter :
    (o : ℕ → Message) (n lo : ℕ) (all : List ℕ) (hi : ℕ)
    → Ordered o lo all hi
    → erase_num o n all ≡ filter (λ x. not (num_of (o x) == n)) all
unfolding erase_num
erase_num-eq-filter o n lo [] hi v = refl
erase_num-eq-filter o n lo (x ∷ xs) hi v = elim (Bool-cases (num_of (o x) == n)) [
  | inl e ↦ ground (arith, e, filter_above o n (num_of (o x) + 1) xs hi (ground (arith, e)) v.1)
  | inr e ↦ ground (arith, e, erase_num-eq-filter o n (num_of (o x) + 1) xs hi v.1)
]

module _ {W : Type 0} where
  -- Deleting a message takes the stored message with its number away and leaves all others.
  pub delete_msg-filter :
      (h : ℕ) (s : State W)
      → Inv s
      → (delete_msg h s).all_msgs
        ≡ filter (λ x. not (num_of (s.objects x) == num_of (s.objects h))) s.all_msgs
  unfolding delete_msg
  delete_msg-filter h s v =
      erase_num-eq-filter s.objects (num_of (s.objects h)) 1 s.all_msgs s.next_msg_num v.ordered

  -- Deleting a list of stored messages, given in the order of the store, leaves exactly the other
  -- messages, in their order; the store has to be in the order of the message numbers.
  pub delete_msgs_exact :
      (msgs rest : List ℕ) (s : State W)
      → Inv s
      → Merge msgs rest s.all_msgs
      → (delete_msgs msgs s).all_msgs ≡ rest
  unfolding delete_msgs
  delete_msgs_exact msgs rest s v m =
      delete_loop-eq-remaining s.objects msgs [] [] s.all_msgs
      ∙ remaining-Merge s.objects 1 s.next_msg_num m v.ordered

  -- Deleting a stored message leaves exactly the other messages, in their order.
  pub delete_msg_exact :
      (h : ℕ) (rest : List ℕ) (s : State W)
      → Inv s
      → Merge (h ∷ []) rest s.all_msgs
      → (delete_msg h s).all_msgs ≡ rest
  unfolding delete_msg
  delete_msg_exact h rest s v m =
      erase_num-eq-remaining s.objects h s.all_msgs
      ∙ remaining-Merge s.objects 1 s.next_msg_num m v.ordered

  -- Wherever in the given list a message stands whose number no stored message has, the walk ends
  -- there: the result is that of deleting only the messages listed before it. Neither it nor any
  -- message listed behind it is deleted.
  pub delete_msgs_stale :
      (before : List ℕ) (m : ℕ) (ms : List ℕ) (s : State W)
      → All (λ x. num_of (s.objects x) ≢ num_of (s.objects m)) s.all_msgs
      → (delete_msgs (before ++ m ∷ ms) s).all_msgs ≡ (delete_msgs before s).all_msgs
  unfolding delete_msgs
  delete_msgs_stale before m ms s n =
      delete_loop-eq-remaining s.objects (before ++ m ∷ ms) [] [] s.all_msgs
      ∙ remaining_stops s.objects before m ms s.all_msgs n
      ∙ sym (delete_loop-eq-remaining s.objects before [] [] s.all_msgs)

  remaining-Inv :
      (msgs : List ℕ) (s : State W)
      → Inv s
      → Inv (record s { all_msgs = remaining s.objects msgs s.all_msgs })
  remaining-Inv msgs s v = record {
    ordered = Ordered-remaining s.objects msgs s.all_msgs 1 s.next_msg_num v.ordered;
    allocated = All-remaining (λ h. h < s.next_object) s.objects msgs s.all_msgs v.allocated;
  }

  pub delete_msgs-Inv : (msgs : List ℕ) (s : State W) → Inv s → Inv (delete_msgs msgs s)
  unfolding delete_msgs
  delete_msgs-Inv msgs s v =
      rw (delete_loop-eq-remaining s.objects msgs [] [] s.all_msgs) (remaining-Inv msgs s v)

  pub delete_msg-Inv : (h : ℕ) (s : State W) → Inv s → Inv (delete_msg h s)
  unfolding delete_msg
  delete_msg-Inv h s v =
      rw (erase_num-eq-remaining s.objects h s.all_msgs) (remaining-Inv (h ∷ []) s v)

  pub delete_all_msgs-Inv : (s : State W) → Inv s → Inv (delete_all_msgs s)
  unfolding delete_all_msgs
  delete_all_msgs-Inv s v = record {
    ordered = Ordered-le s.objects 1 s.all_msgs s.next_msg_num v.ordered;
    allocated = tt;
  }
