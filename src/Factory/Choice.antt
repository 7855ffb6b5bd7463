-- ===== src/Factory/Choice.antt =====
-- Which message the factory creates (lib/src/ToolsMsgFactory.cpp).
use cc_tools_qt.Base.{
  ℕ, zero, suc, ◌+◌, ◌-◌, ◌%◌, ◌≤◌, ◌<◌, ◌≡◌, refl, ap, ◌∙◌, Bool, true, false, List, [], ◌∷◌,
  filter, All, length, Option, none, some, ◌==◌, ltb, leb, if◌then◌else◌, Bool-cases, inl, inr,
  arith,
}
use cc_tools_qt.Message.{Message}
use cc_tools_qt.ListView.{get_elem?}
use cc_tools_qt.Gui.{u32_mod}
use cc_tools_qt.Factory.{clone, lower_index, upper_index, choose, create_by_number}

-- The copy of a message, if there is one.
abbrev pub copy : Option Message → Option Message
copy none = none
copy (some m) = some (clone m)

module _ (numeric_id : Message → ℕ) where
  -- The messages stand in the order of their identifiers.
  abbrev pub Sorted : List Message → Type 0
  Sorted [] = Unit
  Sorted (m ∷ ms) = All (λ x. numeric_id m ≤ numeric_id x) ms × Sorted ms

  abbrev pub has_id : ℕ → Message → Bool
  has_id id m = numeric_id m == id

  none_above :
      (id : ℕ) (m : Message) (ms : List Message)
      → id < numeric_id m
      → All (λ x. numeric_id m ≤ numeric_id x) ms
      → filter (has_id id) ms ≡ []
  none_above id m [] lt above = refl
  none_above id m (x ∷ ms) lt above = ground (arith, none_above id m ms lt above.1)

  -- Among messages that are none of them below the identifier, those that have it come first.
  from_lower :
      (id idx : ℕ) (ms : List Message)
      → Sorted ms
      → All (λ x. id ≤ numeric_id x) ms
      → (if leb (upper_index numeric_id id ms) idx then none else get_elem? ms idx)
        ≡ get_elem? (filter (has_id id) ms) idx
  unfolding upper_index
  from_lower id idx [] sorted above = ground arith
  from_lower id zero (m ∷ ms) sorted above = ground (arith, above.0, none_above id m ms)
  from_lower id (suc idx) (m ∷ ms) sorted above =
      ground (arith, above.0, none_above id m ms, sorted.0, from_lower id idx ms sorted.1 above.1)

  above_first :
      (id : ℕ) (m : Message) (ms : List Message)
      → id ≤ numeric_id m
      → All (λ x. numeric_id m ≤ numeric_id x) ms
      → All (λ x. id ≤ numeric_id x) ms
  above_first id m [] le above = tt
  above_first id m (x ∷ ms) le above = (omega (arith, le, above.0), above_first id m ms le above.1)

  upper_index-length : (id : ℕ) (ms : List Message) → upper_index numeric_id id ms ≤ length ms
  unfolding upper_index
  upper_index-length id [] = omega arith
  upper_index-length id (m ∷ ms) = ground (arith, upper_index-length id ms)

  choose-suc :
      (id idx l u : ℕ) (m : Message) (ms : List Message)
      → choose numeric_id id idx (suc l) (suc u) (m ∷ ms) ≡ choose numeric_id id idx l u ms
  unfolding choose
  choose-suc id idx l u m ms =
      let at : suc l + idx ≡ suc (l + idx) = omega arith in
      let distance : suc u - suc l ≡ u - l = omega arith in ground (arith, at, distance)

  choose_nil : (id idx : ℕ) → choose numeric_id id idx 0 0 [] ≡ none
  unfolding choose
  choose_nil id idx = refl

  choose_zero :
      (id idx u : ℕ) (m : Message) (ms : List Message)
      → has_id id m ≡ true
      → u < u32_mod
      → choose numeric_id id idx 0 u (m ∷ ms)
        ≡ copy (if leb u idx then none else get_elem? (m ∷ ms) idx)
  unfolding choose
  choose_zero id idx u m ms e b =
      let at : 0 + idx ≡ idx = omega arith in
      let distance : (u - 0) % u32_mod ≡ u = omega (arith, b) in ground (arith, at, distance, e)

  choose_other :
      (id idx u : ℕ) (m : Message) (ms : List Message)
      → has_id id m ≡ false
      → choose numeric_id id idx 0 u (m ∷ ms) ≡ none
  unfolding choose
  choose_other id idx u m ms e = ground (arith, e)

  -- The first message is not below the identifier.
  at_first :
      (id idx : ℕ) (m : Message) (ms : List Message)
      → Sorted (m ∷ ms)
      → length (m ∷ ms) < u32_mod
      → id ≤ numeric_id m
      → choose numeric_id id idx 0 (upper_index numeric_id id (m ∷ ms)) (m ∷ ms)
        ≡ copy (get_elem? (filter (has_id id) (m ∷ ms)) idx)
  at_first id idx m ms sorted b le = elim (Bool-cases (has_id id m)) [
    | inl e ↦
        let u = upper_index numeric_id id (m ∷ ms) in
        choose_zero id idx u m ms e (omega (arith, b, upper_index-length id (m ∷ ms)))
        ∙ ap copy (from_lower id idx (m ∷ ms) sorted (le, above_first id m ms le sorted.0))
    | inr e ↦
        let none_left = none_above id m ms (ground (arith, e, le)) sorted.0 in
        choose_other id idx (upper_index numeric_id id (m ∷ ms)) m ms e
        ∙ ground (arith, e, none_left)
  ]

  -- Of the default messages, sorted by their identifiers, `createMessage` copies the one that has the
  -- index among those with the identifier, and gives a null pointer when there are not so many, up to
  -- the range of `unsigned`.
  pub create_by_number_lem :
      (id idx : ℕ) (ms : List Message)
      → Sorted ms
      → length ms < u32_mod
      → create_by_number numeric_id id idx ms ≡ copy (get_elem? (filter (has_id id) ms) idx)
  unfolding create_by_number lower_index upper_index
  create_by_number_lem id idx [] sorted b = choose_nil id idx
  create_by_number_lem id idx (m ∷ ms) sorted b = elim (Bool-cases (ltb (numeric_id m) id)) [
    | inl below ↦
        let l = lower_index numeric_id id ms in
        let u = upper_index numeric_id id ms in
        let step : create_by_number numeric_id id idx (m ∷ ms)
            ≡ choose numeric_id id idx (suc l) (suc u) (m ∷ ms) =
          ground (arith, below) in
        step
        ∙ choose-suc id idx l u m ms
        ∙ create_by_number_lem id idx ms sorted.1 (omega (arith, b))
        ∙ ground (arith, below)
    | inr not_below ↦
        let u = upper_index numeric_id id (m ∷ ms) in
        let start : create_by_number numeric_id id idx (m ∷ ms)
            ≡ choose numeric_id id idx 0 u (m ∷ ms) =
          ground (arith, not_below) in
        start ∙ at_first id idx m ms sorted b (ground (arith, not_below))
  ]
