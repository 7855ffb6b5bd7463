-- ===== src/Udp/Writing.antt =====
-- The loop that writes the bytes of a block to a UDP socket.
use Prim.Native.String.{String}
use cc_tools_qt.Base.{
  insert, if◌then◌else◌, ℕ, zero, suc, ◌+◌, ◌≤◌, ◌<◌, ◌≡◌, refl, sym, subst, ap, ◌⊎◌, ◌∙◌, Bool,
  true, false, List, [], ◌∷◌, ◌++◌, append_assoc, take, drop, take-append-drop, length, length-drop,
  Option, none, some, Option-cases, inl, inr, arith,
}
use cc_tools_qt.Message.{Variant, DataInfo}
use cc_tools_qt.Udp.{write_loop, write_block}

-- What the code relies on: a write takes a part of the bytes from their front, and at least one, or
-- nothing when it fails. `sent` is all that has been taken.
pub record Takes {W : Type 0} (put : List ℕ → W → Option ℕ × W) (sent : W → List ℕ) : Type 0 where
  pub some_of :
      (b : ℕ) (bs : List ℕ) (w : W) (c : ℕ)
      → (put (b ∷ bs) w).0 ≡ some c
      → (0 < c) × (c ≤ length bs + 1) × (sent (put (b ∷ bs) w).1 ≡ sent w ++ take c (b ∷ bs))
  pub none_of : (bytes : List ℕ) (w : W) → (put bytes w).0 ≡ none → sent (put bytes w).1 ≡ sent w

abbrev pub is_nil : List ℕ → Bool
is_nil [] = true
is_nil (b ∷ bs) = false

-- Nothing is left, or the last write was one of just the rest, and failed.
abbrev pub Ended : {W : Type 0} → (List ℕ → W → Option ℕ × W) → List ℕ → W → Type 0
Ended {W} put rest w = (rest ≡ []) ⊎ ((v : W) × ((put rest v).0 ≡ none) × (w ≡ (put rest v).1))

module _ {W : Type 0} (put : List ℕ → W → Option ℕ × W) (sent : W → List ℕ)
    (takes : Takes put sent) where
  -- The loop ends within as many rounds as there are bytes. What it has sent is the bytes up to a rest,
  -- which a write failed to send, and it reports success just when no rest is left.
  pub write_loop_lem :
      (fuel : ℕ) (bytes : List ℕ) (w : W)
      → length bytes ≤ fuel
      → (rest : List ℕ) × ((write_loop put fuel bytes w).0 ≡ some (is_nil rest))
        × (sent (write_loop put fuel bytes w).1 ++ rest ≡ sent w ++ bytes)
        × Ended put rest (write_loop put fuel bytes w).1
  unfolding write_loop
  write_loop_lem zero [] w h = ([], refl, refl, inl refl)
  write_loop_lem (suc fuel) [] w h = ([], refl, refl, inl refl)
  write_loop_lem zero (b ∷ bs) w h = absurd (omega arith)
  write_loop_lem (suc fuel) (b ∷ bs) w h =
      let w1 = (put (b ∷ bs) w).1 in
      elim (Option-cases (put (b ∷ bs) w).0) [
        | inl e ↦ (
          b ∷ bs,
          ground (arith, e),
          ground (arith, e, takes.none_of (b ∷ bs) w e),
          inr (w, e, ground (arith, e)),
        )
        | inr (c, e) ↦
            let (positive, bound, more) = takes.some_of b bs w c e in
            let (rest, ends, all, failed) =
              write_loop_lem fuel (drop c (b ∷ bs)) w1 (omega (arith, length-drop c (b ∷ bs))) in
            let joined : sent w1 ++ drop c (b ∷ bs) ≡ sent w ++ b ∷ bs =
              ap (λ l. l ++ drop c (b ∷ bs)) more
              ∙ append_assoc (sent w) (take c (b ∷ bs)) (drop c (b ∷ bs))
              ∙ ap (λ l. sent w ++ l) (take-append-drop c (b ∷ bs)) in
            let same : (write_loop put (suc fuel) (b ∷ bs) w).1
                ≡ (write_loop put fuel (drop c (b ∷ bs)) w1).1 =
              ground (arith, e) in
            (
              rest,
              ground (arith, e, ends),
              ground (arith, e, all, joined),
              subst (λ x. Ended put rest x) (sym same) failed,
            )
      ]

  -- What becomes of a block: it names its receiver just when all of its bytes are written.
  pub write_block_lem :
      (name : W → String) (d : DataInfo) (w : W)
      → (let (e, w1) = write_block put name d w in
          (rest : List ℕ) × (sent w1 ++ rest ≡ sent w ++ d.bytes)
          × Ended put rest w1
          × (e ≡ (
              if is_nil rest
              then record d {
                extra_properties = insert "udp.to" (Variant.text (name w1)) d.extra_properties;
              }
              else d)))
  unfolding write_block
  write_block_lem name d w =
      let (rest, ends, all, failed) = write_loop_lem (length d.bytes) d.bytes w (omega arith) in
      (
        rest,
        ground (arith, ends, all),
        elim failed [ inl e ↦ inl e | inr (v, f, g) ↦ inr (v, f, ground (arith, ends, g)) ],
        ground (arith, ends),
      )
