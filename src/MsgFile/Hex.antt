-- ===== src/MsgFile/Hex.antt =====
-- The data of a message as hexadecimal text: `encodeMsgData` and the first half of
-- `createMsgObjectFrom` (lib/src/ToolsMsgFileMgr.cpp). The text is a list of UTF-16 code units, as in
-- a QString; a byte is a number below 256. Asserts are those of a release build.
use cc_tools_qt.Base.{
  ℕ, ◌+◌, ◌*◌, ◌/◌, ◌%◌, ◌<◌, ◌≡◌, refl, sym, ap, ap₂, ◌∙◌, Bool, true, false, ◌&&◌, ◌||◌, List, [],
  ◌∷◌, ◌++◌, append-nil, append_assoc, length, All, ◌==◌, if◌then◌else◌, leb, ltb, arith,
}

-- What the code takes from Qt.
pub record Text : Type 0 where
  -- QChar::isDigit, true of the decimal digits of every script.
  pub is_digit : ℕ → Bool
  -- QString::toInt(&ok, 16), which returns 0 when the conversion fails.
  pub to_int : List ℕ → ℕ
  -- QString("%1").arg(v, 2, 16, QChar('0')).
  pub arg : ℕ → List ℕ

-- The lower-case digit for a number below 16.
abbrev pub hex_digit : ℕ → ℕ
hex_digit n = if ltb n 10 then 48 + n else 87 + n

-- Qt's documented behaviour on the characters that a saved file has.
pub record Documented (q : Text) : Type 0 where
  pub digit : (n : ℕ) → n < 10 → q.is_digit (48 + n) ≡ true
  pub space : q.is_digit 32 ≡ false
  pub two_digits : (b : ℕ) → b < 256 → q.arg b ≡ hex_digit (b / 16) ∷ hex_digit (b % 16) ∷ []
  pub reads : (a b : ℕ) → a < 16 → b < 16 → q.to_int (hex_digit a ∷ hex_digit b ∷ []) ≡ 16 * a + b

abbrev pub no_text : List ℕ → Bool
no_text [] = true
no_text (c ∷ cs) = false

module _ (q : Text) where
  -- The loop of `encodeMsgData`: `acc` is `msgDataStr`.
  unfoldable pub append_bytes : List ℕ → List ℕ → List ℕ
  append_bytes acc [] = acc
  append_bytes acc (b ∷ bs) =
      append_bytes ((if no_text acc then acc else acc ++ 32 ∷ []) ++ q.arg b) bs

  pub keeps : ℕ → Bool
  keeps c = q.is_digit c || leb 65 c && leb c 70 || leb 97 c && leb c 102

  -- The `std::copy_if` into `stripedDataStr`.
  unfoldable pub strip : List ℕ → List ℕ
  strip [] = []
  strip (c ∷ cs) = if keeps c then c ∷ strip cs else strip cs

  abbrev pub pad_odd : List ℕ → List ℕ
  pad_odd cs = if length cs % 2 == 1 then 48 ∷ cs else cs

  -- The loop over `stripedDataStr`: `num` holds the digit that has not been used.
  unfoldable pub parse_pairs : List ℕ → List ℕ → List ℕ
  parse_pairs num [] = []
  parse_pairs num (c ∷ cs) =
      if length (num ++ c ∷ []) == 1
      then parse_pairs (num ++ c ∷ []) cs
      else q.to_int (num ++ c ∷ []) % 256 ∷ parse_pairs [] cs

  unfoldable pub parse_data : List ℕ → List ℕ
  parse_data text = parse_pairs [] (pad_odd (strip text))

-- The digits of `bytes`, two for each.
digits : List ℕ → List ℕ
digits [] = []
digits (b ∷ bs) = hex_digit (b / 16) ∷ hex_digit (b % 16) ∷ digits bs

length-digits : (bs : List ℕ) → length (digits bs) % 2 ≡ 0
unfolding digits
length-digits [] = refl
length-digits (b ∷ bs) = omega (arith, length-digits bs)

module _ (q : Text) (ok : Documented q) where
  strip-append : (xs ys : List ℕ) → strip q (xs ++ ys) ≡ strip q xs ++ strip q ys
  unfolding strip
  strip-append [] ys = refl
  strip-append (x ∷ xs) ys = ground (arith, strip-append xs ys)

  keeps-hex_digit : (n : ℕ) → n < 16 → keeps q (hex_digit n) ≡ true
  unfolding keeps
  keeps-hex_digit n h = ground (arith, ok.digit n)

  strip-arg : (b : ℕ) → b < 256 → strip q (q.arg b) ≡ hex_digit (b / 16) ∷ hex_digit (b % 16) ∷ []
  unfolding strip
  strip-arg b h =
      ap (λ (t : List ℕ). strip q t) (ok.two_digits b h)
      ∙ ground
          (arith, keeps-hex_digit (b / 16) (omega arith), keeps-hex_digit (b % 16) (omega arith))

  strip-space : strip q (32 ∷ []) ≡ []
  unfolding strip keeps
  strip-space = ground (arith, ok.space)

  strip-append_bytes :
      (acc bs : List ℕ)
      → All (λ b. b < 256) bs
      → strip q (append_bytes q acc bs) ≡ strip q acc ++ digits bs
  unfolding append_bytes digits strip
  strip-append_bytes acc [] h = sym (append-nil (strip q acc))
  strip-append_bytes [] (b ∷ bs) h =
      strip-append_bytes (q.arg b) bs h.1 ∙ ap (λ (l : List ℕ). l ++ digits bs) (strip-arg b h.0)
  strip-append_bytes (c ∷ cs) (b ∷ bs) h =
      strip-append_bytes ((c ∷ cs ++ 32 ∷ []) ++ q.arg b) bs h.1
      ∙ ap (λ (l : List ℕ). l ++ digits bs)
          (strip-append (c ∷ cs ++ 32 ∷ []) (q.arg b)
            ∙ ap (λ (l : List ℕ). l ++ strip q (q.arg b))
                (strip-append (c ∷ cs) (32 ∷ [])
                  ∙ ap (λ (l : List ℕ). strip q (c ∷ cs) ++ l) strip-space
                  ∙ append-nil (strip q (c ∷ cs)))
            ∙ ap (λ (l : List ℕ). strip q (c ∷ cs) ++ l) (strip-arg b h.0))
      ∙ append_assoc (strip q (c ∷ cs)) (hex_digit (b / 16) ∷ hex_digit (b % 16) ∷ []) (digits bs)

  parse_pairs-digits : (bs : List ℕ) → All (λ b. b < 256) bs → parse_pairs q [] (digits bs) ≡ bs
  unfolding parse_pairs digits
  parse_pairs-digits [] h = refl
  parse_pairs-digits (b ∷ bs) h =
      ap₂ (λ (n : ℕ) (l : List ℕ). n % 256 ∷ l)
        (ok.reads (b / 16) (b % 16) (omega (arith, h.0)) (omega arith)) (parse_pairs-digits bs h.1)
      ∙ ap (λ (n : ℕ). n ∷ bs) (omega (arith, h.0))

  -- What `createMsgObjectFrom` reads back from the text that `encodeMsgData` wrote for some bytes is
  -- those bytes, given that Qt treats digits, the space and the conversions as it documents.
  pub parse_data-append_bytes :
      (bs : List ℕ) → All (λ b. b < 256) bs → parse_data q (append_bytes q [] bs) ≡ bs
  unfolding parse_data strip
  parse_data-append_bytes bs h =
      ap (λ (l : List ℕ). parse_pairs q [] (pad_odd q l)) (strip-append_bytes [] bs h)
      ∙ ap (λ (t : Bool). parse_pairs q [] (if t then 48 ∷ digits bs else digits bs))
          (ap (λ (n : ℕ). n == 1) (length-digits bs))
      ∙ parse_pairs-digits bs h
