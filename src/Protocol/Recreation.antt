-- ===== src/Protocol/Recreation.antt =====
-- `createAllMessages` and `createMessage` of ToolsProtocol over the factory of messages
-- (lib/src/ToolsProtocol.cpp, lib/src/ToolsMsgFactory.cpp).
use Prim.Native.String.{String}
use cc_tools_qt.Base.{
  ℕ, ◌+◌, ◌≤◌, ◌<◌, ◌≡◌, ◌≢◌, refl, sym, ap, ◌∙◌, subst, true, false, List, [], ◌∷◌, ◌++◌, filter,
  filter-append, All, All-append, append_assoc, length, length-append, Option, some, ==_refl,
  str_eq, Bool-cases, inl, inr, arith,
}
use mathlib.Core.Bool.{true≢false}
use text.Mathlib.TextEquality.{eq_iff}
use cc_tools_qt.Message.{Message, get_from}
use cc_tools_qt.ListView.{get_elem?}
use cc_tools_qt.Gui.{u32_mod}
use cc_tools_qt.Factory.{clone, clone_all, create_by_number, create_by_text}
use cc_tools_qt.Factory.Choice.{Sorted, has_id, copy, create_by_number_lem}
use cc_tools_qt.Protocol.{
  Frame, set_name, update, prepare, idx_after, prepare_each, create_all_messages, create_message,
}

-- The texts of identifiers: QString::arg prints different numbers differently and never as the empty
-- text, and QString::toLongLong reads back a number in its range.
pub record Printed (print : ℕ → String) (to_long_long : ℕ → String → Option ℕ) : Type 0 where
  pub reads : (n : ℕ) → n < 9223372036854775808 → to_long_long 10 (print n) ≡ some n
  pub differ : (n k : ℕ) → print n ≡ print k → n ≡ k
  pub not_empty : (n : ℕ) → str_eq "" (print n) ≡ false

-- The frame hands its calls on to a factory with the default messages `defaults` (ToolsFrameBase.h), and
-- its update of a message leaves the identifier and the index alone.
pub record OverFactory {W : Type 0} (f : Frame W) (numeric_id : Message → ℕ)
    (to_long_long : ℕ → String → Option ℕ) (defaults : List Message) : Type 0 where
  pub creates_all : f.create_all_messages ≡ clone_all defaults
  pub creates :
      (id : String) (idx : ℕ)
      → f.create_message id idx ≡ create_by_text numeric_id to_long_long id idx defaults
  pub refresh_id : (m : Message) → (f.refresh_msg m).1.id_as_string ≡ m.id_as_string
  pub refresh_idx : (m : Message) → (f.refresh_msg m).1.msg_idx ≡ m.msg_idx
  pub update_id : (m : Message) → (f.update_message m).id_as_string ≡ m.id_as_string
  pub update_idx : (m : Message) → (f.update_message m).msg_idx ≡ m.msg_idx

==_refl_text : (s t : String) → s ≡ t → str_eq s t ≡ true
==_refl_text s t e = (eq_iff s t).1 e

-- Each message of the first list is made again as a copy of the default message, from its identifier
-- and its index.
abbrev pub Recreated : {W : Type 0} → Frame W → List Message → List Message → Type 0
Recreated f [] [] = Unit
Recreated f [] (m ∷ ms) = ⊥
Recreated f (c ∷ cs) [] = ⊥
Recreated f (c ∷ cs) (m ∷ ms) =
    (create_message f c.id_as_string (get_from c.msg_idx 0)
      ≡ some (record (clone m) { msg_idx = c.msg_idx }))
    × Recreated f cs ms

get_elem?_at : (xs ys : List Message) (y : Message) → get_elem? (xs ++ y ∷ ys) (length xs) ≡ some y
get_elem?_at [] ys y = refl
get_elem?_at (x ∷ xs) ys y = get_elem?_at xs ys y

module _ (numeric_id : Message → ℕ) where
  -- The messages before the place that the loop has reached, and what it remembers of them.
  data Seen (print : ℕ → String) (rest : List Message) : List Message → String → ℕ → Type 0 where
    start : Seen print rest [] "" 0
    seen :
        {pre : List Message} {idx : ℕ} (n : ℕ)
        → All (λ x. numeric_id x ≤ n) pre
        → All (λ x. n ≤ numeric_id x) rest
        → length (filter (has_id numeric_id n) pre) ≡ idx + 1
        → Seen print rest pre (print n) idx

  none_below :
      (n k : ℕ) (pre : List Message)
      → n < k
      → All (λ x. numeric_id x ≤ n) pre
      → filter (has_id numeric_id k) pre ≡ []
  none_below n k [] lt below = refl
  none_below n k (x ∷ pre) lt below = ground (arith, below.0, none_below n k pre lt below.1)

  lt_of_has : (k : ℕ) (pre : List Message) → length (filter (has_id numeric_id k) pre) ≤ length pre
  lt_of_has k [] = omega arith
  lt_of_has k (x ∷ pre) = ground (arith, lt_of_has k pre)

  All-le :
      (n k : ℕ) (pre : List Message)
      → n ≤ k
      → All (λ x. numeric_id x ≤ n) pre
      → All (λ x. numeric_id x ≤ k) pre
  All-le n k [] le below = tt
  All-le n k (x ∷ pre) le below = (omega (arith, le, below.0), All-le n k pre le below.1)

module _ {W : Type 0} (f : Frame W) (numeric_id : Message → ℕ) (print : ℕ → String)
    (to_long_long : ℕ → String → Option ℕ) where
  -- The index that the loop gives is the number of messages with the same identifier before.
  idx_after_lem :
      Printed print to_long_long
      → (m : Message) (pre post : List Message) (pid : String) (pidx : ℕ)
      → m.id_as_string ≡ print (numeric_id m)
      → length pre < u32_mod
      → Seen numeric_id print (m ∷ post) pre pid pidx
      → idx_after f pid pidx m.id_as_string ≡ length (filter (has_id numeric_id (numeric_id m)) pre)
  unfolding idx_after
  idx_after_lem laws m _ post _ _ text b start =
      ground (arith, ap (λ t. str_eq "" t) text, laws.not_empty (numeric_id m))
  idx_after_lem laws m pre post _ pidx text b (seen n below above count) =
      elim (Bool-cases (str_eq (print n) m.id_as_string)) [
        | inl same ↦
            let printed = (eq_iff (print n) m.id_as_string).0 same ∙ text in
            let number = laws.differ n (numeric_id m) printed in
            let all = ap (λ k. length (filter (has_id numeric_id k) pre)) number in
            ground (arith, same, count, all, lt_of_has numeric_id n pre)
        | inr other ↦
            let differ : n ≢ numeric_id m = λ e.
              true≢false
                (sym (==_refl_text (print n) m.id_as_string (ap print e ∙ sym text)) ∙ other) in
            let below_m : n < numeric_id m = ground (arith, differ, above.0) in
            let none_there = none_below numeric_id n (numeric_id m) pre below_m below in
            ground (arith, other, none_there)
      ]

  seen_below :
      (m : Message) (pre post : List Message) (pid : String) (pidx : ℕ)
      → Seen numeric_id print (m ∷ post) pre pid pidx
      → All (λ x. numeric_id x ≤ numeric_id m) pre
  seen_below m _ post _ _ start = tt
  seen_below m pre post _ pidx (seen n below above count) =
      All-le numeric_id n (numeric_id m) pre above.0 below

  seen_next :
      (m : Message) (pre post : List Message) (pid : String) (pidx : ℕ)
      → m.id_as_string ≡ print (numeric_id m)
      → Sorted numeric_id (m ∷ post)
      → Seen numeric_id print (m ∷ post) pre pid pidx
      → Seen numeric_id print post
          (pre ++ m ∷ [])
          m.id_as_string
          (length (filter (has_id numeric_id (numeric_id m)) pre))
  seen_next m pre post pid pidx text sorted s =
      let k = numeric_id m in
      let idx = length (filter (has_id numeric_id k) pre) in
      let split = filter-append (has_id numeric_id k) pre (m ∷ []) in
      let long = length-append (filter (has_id numeric_id k) pre) (m ∷ []) in
      subst (λ t. Seen numeric_id print post (pre ++ m ∷ []) t idx) (sym text)
        (seen k
          (All-append (λ x. numeric_id x ≤ k) pre (m ∷ []) (seen_below m pre post pid pidx s)
            (omega arith))
          sorted.0 (ground (arith, split, long, ==_refl k)))

  prepare_lem :
      (defaults : List Message)
      → OverFactory f numeric_id to_long_long defaults
      → (idx : ℕ) (m : Message) → str_eq m.id_as_string "" ≡ false
      → ((prepare f idx m).id_as_string ≡ m.id_as_string) × ((prepare f idx m).msg_idx ≡ some idx)
  unfolding prepare update set_name
  prepare_lem defaults o idx m e =
      let m1 = record m {
        msg_idx = some idx;
        protocol_name = some f.name;
        force_extra_info = some 1;
      } in
      (
        ground (arith, e, o.update_id (f.refresh_msg m1).1, o.refresh_id m1),
        ground (arith, e, o.update_idx (f.refresh_msg m1).1, o.refresh_idx m1),
      )

  -- Creating the message that follows `pre` in the list, from its place among those with its identifier.
  create_lem :
      Printed print to_long_long
      → (defaults : List Message) → OverFactory f numeric_id to_long_long defaults
      → Sorted numeric_id defaults
      → length defaults < u32_mod
      → (m : Message) (pre post : List Message) → defaults ≡ pre ++ m ∷ post
      → m.id_as_string ≡ print (numeric_id m)
      → numeric_id m < 9223372036854775808
      → let idx = length (filter (has_id numeric_id (numeric_id m)) pre) in
        create_message f m.id_as_string idx ≡ some (record (clone m) { msg_idx = some idx })
  unfolding create_message create_by_text
  create_lem laws defaults o sorted b m pre post split text range =
      let k = numeric_id m in
      let same = filter (has_id numeric_id k) pre in
      let idx = length same in
      let read : to_long_long 10 m.id_as_string ≡ some k =
        ap (to_long_long 10) text ∙ laws.reads k range in
      let chosen : filter (has_id numeric_id k) defaults
          ≡ same ++ m ∷ filter (has_id numeric_id k) post =
        ap (filter (has_id numeric_id k)) split
        ∙ filter-append (has_id numeric_id k) pre (m ∷ post)
        ∙ ground (arith, ==_refl k) in
      let created : create_by_number numeric_id k idx defaults ≡ some (clone m) =
        create_by_number_lem numeric_id k idx defaults sorted b
        ∙ ap (λ l. copy (get_elem? l idx)) chosen
        ∙ ap copy (get_elem?_at same (filter (has_id numeric_id k) post) m) in
      ground (arith, o.creates m.id_as_string idx, read, created)

  not_empty_text :
      Printed print to_long_long
      → (m : Message) → m.id_as_string ≡ print (numeric_id m)
      → str_eq m.id_as_string "" ≡ false
  not_empty_text laws m text = elim (Bool-cases (str_eq m.id_as_string "")) [
    | inl e ↦
        let empty = sym ((eq_iff m.id_as_string "").0 e) ∙ text in
        absurd (
          true≢false
            (sym (==_refl_text "" (print (numeric_id m)) empty) ∙ laws.not_empty (numeric_id m)))
    | inr e ↦ e
  ]

  recreated :
      Printed print to_long_long
      → (defaults : List Message) → OverFactory f numeric_id to_long_long defaults
      → Sorted numeric_id defaults
      → length defaults < u32_mod
      → (pre rest : List Message) (pid : String) (pidx : ℕ) → defaults ≡ pre ++ rest
      → Sorted numeric_id rest
      → All
          (λ m. (m.id_as_string ≡ print (numeric_id m)) × (numeric_id m < 9223372036854775808))
          rest
      → Seen numeric_id print rest pre pid pidx
      → Recreated f (prepare_each f pid pidx (clone_all rest)) rest
  unfolding prepare_each
  recreated laws defaults o sorted b pre [] pid pidx split srest texts s = tt
  recreated laws defaults o sorted b pre (m ∷ post) pid pidx split srest texts s =
      let idx = idx_after f pid pidx m.id_as_string in
      let short : length pre < u32_mod =
        omega (arith, b, ap length split, length-append pre (m ∷ post)) in
      let place = idx_after_lem laws m pre post pid pidx texts.0.0 short s in
      let named : str_eq m.id_as_string "" ≡ false = not_empty_text laws m texts.0.0 in
      let c = prepare f idx (clone m) in
      let (id, index) = prepare_lem defaults o idx (clone m) named in
      let made = create_lem laws defaults o sorted b m pre post split texts.0.0 texts.0.1 in
      (
        subst
            (λ i.
              create_message f c.id_as_string (get_from i 0)
              ≡ some (record (clone m) { msg_idx = i }))
            (sym index)
            (subst (λ t. create_message f t idx ≡ some (record (clone m) { msg_idx = some idx }))
              (sym id)
              (subst
                (λ i.
                  create_message f m.id_as_string i ≡ some (record (clone m) { msg_idx = some i }))
                (sym place) made)),
        recreated laws defaults o sorted b (pre ++ m ∷ []) post m.id_as_string idx
            (split ∙ sym (append_assoc pre (m ∷ []) post)) srest.1 texts.1
            (subst (λ i. Seen numeric_id print post (pre ++ m ∷ []) m.id_as_string i) (sym place)
              (seen_next m pre post pid pidx texts.0.0 srest s)),
      )

  -- Every message that `createAllMessages` makes is made again by `createMessage` from its identifier and
  -- its index, as a copy of the same default message. This holds for default messages that are sorted by
  -- their numeric identifiers, fewer than 2 ^ 32, whose texts print those identifiers, all of them below
  -- 2 ^ 63, for QString's printing and reading of such numbers as documented, and for a frame over the
  -- factory whose refresh and update leave identifiers and indices alone.
  pub create_all_messages-Recreated :
      Printed print to_long_long
      → (defaults : List Message) → OverFactory f numeric_id to_long_long defaults
      → Sorted numeric_id defaults
      → length defaults < u32_mod
      → All
          (λ m. (m.id_as_string ≡ print (numeric_id m)) × (numeric_id m < 9223372036854775808))
          defaults
      → Recreated f (create_all_messages f) defaults
  unfolding create_all_messages
  create_all_messages-Recreated laws defaults o sorted b texts =
      subst (λ ms. Recreated f (prepare_each f "" 0 ms) defaults) (sym o.creates_all)
        (recreated laws defaults o sorted b [] defaults "" 0 refl sorted texts start)
