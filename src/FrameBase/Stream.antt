-- ===== src/FrameBase/Stream.antt =====
-- No byte of the stream is lost (lib/include/cc_tools_qt/ToolsFrameBase.h).
use cc_tools_qt.Base.{
  ℕ, zero, suc, ◌≤◌, ◌<◌, ◌≡◌, refl, sym, ap, ◌∙◌, Bool, true, not, ◌&&◌, List, [], ◌∷◌, ◌++◌, map,
  length, length-drop, take, drop, take-append-drop, append_assoc, append-nil, Option, some,
  Option-cases, inl, inr, Dict, is_empty, leb, if◌then◌else◌, if_cases, if_keeps, arith,
}
use cc_tools_qt.Message.{Message, Variant, DataInfo, get_from}
use cc_tools_qt.FrameBase.{
  ReadStatus, ProtFrame, Buffers, Loop, garbage_limit, no_bytes, check_garbage, skip, accept,
  read_loop, finish, set_extra, read_end, read_data,
}

-- The bytes that the messages were read from, in their order.
abbrev pub raw_bytes : List Message → List ℕ
raw_bytes [] = []
raw_bytes (m ∷ ms) = get_from m.raw_data [] ++ raw_bytes ms

raw_bytes-append : (ms ns : List Message) → raw_bytes (ms ++ ns) ≡ raw_bytes ms ++ raw_bytes ns
raw_bytes-append [] ns = refl
raw_bytes-append (m ∷ ms) ns =
    ap (λ x. get_from m.raw_data [] ++ x) (raw_bytes-append ms ns)
    ∙ sym (append_assoc (get_from m.raw_data []) (raw_bytes ms) (raw_bytes ns))

-- What the loop has passed, in the messages and in the garbage.
passed : Loop → List ℕ
passed s = raw_bytes s.msgs ++ s.garbage

-- The reading of a message takes at least a byte.
pub record Progress (f : ProtFrame) : Type 0 where
  pub consumes :
      (bytes fields : List ℕ) (id idx n : ℕ)
      → f.frame_read bytes ≡ ReadStatus.success fields id idx n
      → 0 < n

pushed :
    (ms : List Message) (m : Message) (bytes : List ℕ)
    → m.raw_data ≡ some bytes
    → raw_bytes (ms ++ m ∷ []) ≡ raw_bytes ms ++ bytes
pushed ms m bytes e =
    raw_bytes-append ms (m ∷ [])
    ∙ ap (λ x. raw_bytes ms ++ (get_from x [] ++ [])) e
    ∙ ap (λ x. raw_bytes ms ++ x) (append-nil bytes)

no_bytes→nil : (bs : List ℕ) → no_bytes bs ≡ true → bs ≡ []
no_bytes→nil [] h = refl
no_bytes→nil (b ∷ bs) h = absurd (cc)

module _ (f : ProtFrame) where
  check_garbage-passed : (s : Loop) → passed (check_garbage f s) ≡ passed s
  unfolding passed check_garbage
  check_garbage-passed s =
      if_keeps (λ (t : Loop). passed t ≡ passed s) (no_bytes s.garbage) s _ refl
        (append-nil _
          ∙ pushed s.msgs (record (f.invalid_message) { raw_data = some s.garbage }) s.garbage refl)

  check_garbage-garbage : (s : Loop) → (check_garbage f s).garbage ≡ []
  unfolding check_garbage
  check_garbage-garbage s =
      if_cases (λ (t : Loop). t.garbage ≡ []) (no_bytes s.garbage) s _ (no_bytes→nil s.garbage)
        (λ e. refl)

  check_garbage-rest : (s : Loop) → (check_garbage f s).rest ≡ s.rest
  unfolding check_garbage
  check_garbage-rest s = ground arith

  skip-passed : (b : ℕ) (s : Loop) → passed (skip f b s) ≡ passed s ++ b ∷ []
  unfolding skip passed
  skip-passed b s =
      let s1 = record s { garbage = s.garbage ++ b ∷ [] } in
      let all = sym (append_assoc (raw_bytes s.msgs) s.garbage (b ∷ [])) in
      if_keeps (λ (t : Loop). passed t ≡ passed s ++ b ∷ []) (leb garbage_limit (length s1.garbage))
        (check_garbage f s1) s1 (check_garbage-passed s1 ∙ all) all

  accept-passed :
      (fields : List ℕ) (id idx : ℕ) (bytes : List ℕ) (s : Loop)
      → s.garbage ≡ []
      → passed (accept f fields id idx bytes s) ≡ passed s ++ bytes
  unfolding accept passed
  accept-passed fields id idx bytes s e = elim (Option-cases (f.create id idx)) [
    | inl failed ↦
        let s1 = record s { garbage = s.garbage ++ bytes } in
        let eq : accept f fields id idx bytes s ≡ check_garbage f s1 = ground (arith, failed) in
        ap passed eq
        ∙ check_garbage-passed s1
        ∙ sym (append_assoc (raw_bytes s.msgs) s.garbage bytes)
    | inr (m, made) ↦
        let x = record m { payload = fields; raw_data = some bytes } in
        let s1 = record s { msgs = s.msgs ++ x ∷ [] } in
        let eq : accept f fields id idx bytes s ≡ s1 = ground (arith, made) in
        let old = append-nil (raw_bytes s.msgs) in
        ap passed eq
        ∙ ap (λ g. raw_bytes s1.msgs ++ g) e
        ∙ append-nil (raw_bytes s1.msgs)
        ∙ pushed s.msgs x bytes refl
        ∙ ap (λ x. x ++ bytes) (sym (ap (λ g. raw_bytes s.msgs ++ g) e ∙ old))
  ]

  -- The bytes of the stream: those passed and those to come.
  total : Loop → List ℕ
  total s = passed s ++ s.rest

  -- What a run of the loop gives.
  record Kept (s t : Loop) : Type 0 where
    total : total t ≡ total s
    bound : length s.garbage < garbage_limit → length t.garbage < garbage_limit

  skip-bound : (b : ℕ) (s : Loop) → length (skip f b s).garbage < garbage_limit
  unfolding skip
  skip-bound b s =
      let s1 = record s { garbage = s.garbage ++ b ∷ [] } in
      if_cases (λ (t : Loop). length t.garbage < garbage_limit)
        (leb garbage_limit (length s1.garbage)) (check_garbage f s1) s1
        (λ e. omega (arith, ap (λ (l : List ℕ). length l) (check_garbage-garbage s1)))
        (λ e. ground (arith, e))

  accept-bound :
      (fields : List ℕ) (id idx : ℕ) (bytes : List ℕ) (s : Loop)
      → s.garbage ≡ []
      → (accept f fields id idx bytes s).garbage ≡ []
  unfolding accept
  accept-bound fields id idx bytes s e = elim (Option-cases (f.create id idx)) [
    | inl failed ↦
        let s1 = record s { garbage = s.garbage ++ bytes } in
        let eq : accept f fields id idx bytes s ≡ check_garbage f s1 = ground (arith, failed) in
        ap (λ (t : Loop). t.garbage) eq ∙ check_garbage-garbage s1
    | inr (m, made) ↦ ground (arith, made, e)
  ]

  Kept-refl : (s : Loop) → Kept s s
  Kept-refl s = record { total = refl; bound = λ b. b }

  Kept-trans : (s t u : Loop) → Kept s t → Kept t u → Kept s u
  Kept-trans s t u k l = record { total = l.total ∙ k.total; bound = λ b. l.bound (k.bound b) }

  -- With enough fuel the loop ends, and keeps the bytes and the bound.
  Ends : ℕ → Loop → Type 0
  Ends fuel s = (t : Loop) × (read_loop f fuel s ≡ some t) × Kept s t

  after :
      (fuel : ℕ) (s s1 : Loop)
      → read_loop f (suc fuel) s ≡ read_loop f fuel s1
      → Kept s s1
      → Ends fuel s1
      → Ends (suc fuel) s
  unfolding Ends
  after fuel s s1 e k (t, run, l) = (t, e ∙ run, Kept-trans s s1 t k l)

  stays : (fuel : ℕ) (s : Loop) → read_loop f (suc fuel) s ≡ some s → Ends (suc fuel) s
  unfolding Ends
  stays fuel s e = (s, e, Kept-refl s)

  skip-Kept :
      (b : ℕ) (bs : List ℕ) (s : Loop)
      → s.rest ≡ b ∷ bs
      → Kept s (record (skip f b s) { rest = bs })
  unfolding total passed
  skip-Kept b bs s e = record {
    total =
        ap (λ x. x ++ bs) (skip-passed b s)
        ∙ append_assoc (passed s) (b ∷ []) bs
        ∙ ap (λ x. passed s ++ x) (sym e);
    bound = λ c. skip-bound b s;
  }

  accept-Kept :
      (fields : List ℕ) (id idx n : ℕ) (bytes : List ℕ) (s : Loop)
      → s.rest ≡ bytes
      → Kept s (record (accept f fields id idx (take n bytes) (check_garbage f s)) {
        rest = drop n bytes;
      })
  unfolding total passed
  accept-Kept fields id idx n bytes s e =
      let s0 = check_garbage f s in
      let none_left = check_garbage-garbage s in
      record {
        total =
            ap (λ x. x ++ drop n bytes) (accept-passed fields id idx (take n bytes) s0 none_left)
            ∙ append_assoc (passed s0) (take n bytes) (drop n bytes)
            ∙ ap (λ x. passed s0 ++ x) (take-append-drop n bytes ∙ sym e)
            ∙ ap (λ x. x ++ s.rest) (check_garbage-passed s);
        bound = λ c. omega (
          arith,
          ap (λ (l : List ℕ). length l) (accept-bound fields id idx (take n bytes) s0 none_left),
        );
      }

  answer :
      Progress f
      → (fuel : ℕ) → ((t : Loop) → length t.rest ≤ fuel → Ends fuel t)
      → (s : Loop) (b : ℕ) (bs : List ℕ) → s.rest ≡ b ∷ bs
      → length bs ≤ fuel
      → (st : ReadStatus) → f.frame_read (b ∷ bs) ≡ st
      → Ends (suc fuel) s
  unfolding read_loop
  answer progress fuel ih s b bs e le ReadStatus.not_enough_data st =
      stays fuel s (ground (arith, e, st))
  answer progress fuel ih s b bs e le ReadStatus.alloc_failure st =
      stays fuel s (ground (arith, e, st))
  answer progress fuel ih s b bs e le ReadStatus.failure st =
      let s1 = record (skip f b s) { rest = bs } in
      after fuel s s1 (ground (arith, e, st)) (skip-Kept b bs s e) (ih s1 le)
  answer progress fuel ih s b bs e le (ReadStatus.success fields id idx n) st =
      let bytes = b ∷ bs in
      let s1 = record (accept f fields id idx (take n bytes) (check_garbage f s)) {
        rest = drop n bytes;
      } in
      let some_read = progress.consumes bytes fields id idx n st in
      after fuel s s1 (ground (arith, e, st)) (accept-Kept fields id idx n bytes s e)
        (ih s1 (omega (arith, le, some_read, length-drop n bytes)))

  round :
      Progress f
      → (fuel : ℕ) → ((t : Loop) → length t.rest ≤ fuel → Ends fuel t)
      → (s : Loop) (rest : List ℕ) → s.rest ≡ rest
      → length rest ≤ suc fuel
      → Ends (suc fuel) s
  unfolding read_loop
  round progress fuel ih s [] e le = stays fuel s (ground (arith, e))
  round progress fuel ih s (b ∷ bs) e le =
      answer progress fuel ih s b bs e (omega (arith, le)) (f.frame_read (b ∷ bs)) refl

  no_rest : (rest : List ℕ) → length rest ≤ 0 → no_bytes rest ≡ true
  no_rest [] le = refl
  no_rest (b ∷ bs) le = absurd (omega (arith, le))

  read_loop_lem : Progress f → (fuel : ℕ) (s : Loop) → length s.rest ≤ fuel → Ends fuel s
  unfolding read_loop Ends
  read_loop_lem progress zero s enough = (s, ground (arith, no_rest s.rest enough), Kept-refl s)
  read_loop_lem progress (suc fuel) s enough =
      round progress fuel (λ t le. read_loop_lem progress fuel t le) s s.rest refl enough

  finish_lem :
      (final : Bool) (s : Loop)
      → Kept s (finish f final s) × (final ≡ true → (finish f final s).rest ≡ [])
  unfolding finish total passed
  finish_lem final s =
      let s1 : Loop = record { rest = []; garbage = s.garbage ++ s.rest; msgs = s.msgs } in
      if_cases (λ (t : Loop). Kept s t × (final ≡ true → t.rest ≡ []))
        (final && not (no_bytes s.rest)) (check_garbage f s1) s
        (λ e. (
          record {
            total =
                ap (λ x. x ++ (check_garbage f s1).rest) (check_garbage-passed s1)
                ∙ ap (λ x. passed s1 ++ x) (check_garbage-rest s1)
                ∙ append-nil (passed s1)
                ∙ sym (append_assoc (raw_bytes s.msgs) s.garbage s.rest);
            bound = λ b. omega (arith, ap (λ (l : List ℕ). length l) (check_garbage-garbage s1));
          },
          λ h. check_garbage-rest s1,
        ))
        (λ e. (Kept-refl s, λ h. no_bytes→nil s.rest (ground (arith, e, h))))

  raw_bytes-set_extra :
      (x : Dict Variant) (ms : List Message) → raw_bytes (map (set_extra f x) ms) ≡ raw_bytes ms
  unfolding set_extra
  raw_bytes-set_extra x [] = refl
  raw_bytes-set_extra x (m ∷ ms) =
      ap (λ bs. get_from m.raw_data [] ++ bs) (raw_bytes-set_extra x ms)

  -- Reading a block always ends, with fuel for the bytes that wait and those of the block, if the frame
  -- takes at least a byte for each message. No byte is lost, made up or moved: the bytes that the messages
  -- were read from, the garbage and the bytes that wait are in this order the garbage, the bytes that
  -- waited and the block. The garbage stays below its limit, and after the final block no byte waits.
  pub read_data_lem :
      Progress f
      → (fuel : ℕ) (d : DataInfo) (final : Bool) (s : Buffers)
      → length (s.in_data ++ d.bytes) ≤ fuel
      → (msgs : List Message) × (t : Buffers) × (read_data f fuel d final s ≡ some (msgs, t))
        × ((raw_bytes msgs ++ t.garbage) ++ t.in_data ≡ s.garbage ++ (s.in_data ++ d.bytes))
        × (length s.garbage < garbage_limit → length t.garbage < garbage_limit)
        × (final ≡ true → t.in_data ≡ [])
  unfolding read_data read_end total passed Ends
  read_data_lem progress fuel d final s enough =
      let start : Loop = record { rest = s.in_data ++ d.bytes; garbage = s.garbage; msgs = [] } in
      let (l, run, k) = read_loop_lem progress fuel start enough in
      let l1 = finish f final l in
      let (k1, ended) = finish_lem final l in
      let x = d.extra_properties in
      let msgs = if is_empty x then l1.msgs else map (set_extra f x) l1.msgs in
      let t : Buffers = record { in_data = l1.rest; garbage = l1.garbage } in
      let same : raw_bytes msgs ≡ raw_bytes l1.msgs =
        if_keeps (λ ms. raw_bytes ms ≡ raw_bytes l1.msgs) (is_empty x) l1.msgs
          (map (set_extra f x) l1.msgs) refl (raw_bytes-set_extra x l1.msgs) in
      (
        msgs,
        t,
        ap (λ (o : Option Loop). read_end f d final o) run,
        ap (λ bs. (bs ++ l1.garbage) ++ l1.rest) same ∙ k1.total ∙ k.total,
        λ b. k1.bound (k.bound b),
        ended,
      )
