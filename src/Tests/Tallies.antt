-- ===== src/Tests/Tallies.antt =====
-- Numbers written as strokes, for the tests: a way of printing numbers that can be read back.
use Prim.Native.Char.{Char}
use Prim.Native.String.compare
use Prim.Native.String.{String, [], ◌∷◌}
use text.Mathlib.Text.{is_eq}
use cc_tools_qt.Base.{str_eq, false, ℕ, zero, suc, ◌≡◌, refl, sym, ◌∙◌, ap, Option, none, some}
use cc_tools_qt.Protocol.Recreation.{Printed}

abbrev stroke : Char
stroke = "|"

-- Numbers as tallies, one stroke more than the number.
unfoldable pub tally : ℕ → String
tally zero = stroke ∷ ""
tally (suc n) = stroke ∷ tally n

unfoldable pub strokes : String → ℕ
strokes [] = 0
strokes (c ∷ s) = suc (strokes s)

unfoldable pub read_tally : ℕ → String → Option ℕ
read_tally base [] = none
read_tally base (c ∷ s) = some (strokes s)

strokes-tally : (n : ℕ) → strokes (tally n) ≡ suc n
unfolding tally strokes
strokes-tally zero = refl
strokes-tally (suc n) = ap suc (strokes-tally n)

tally-reads : (n : ℕ) → read_tally 10 (tally n) ≡ some n
unfolding tally read_tally strokes
tally-reads zero = refl
tally-reads (suc n) = ap some (strokes-tally n)

tally_differ : (n k : ℕ) → tally n ≡ tally k → n ≡ k
tally_differ n k same =
    let read : some n ≡ some k = sym (tally-reads n) ∙ ap (read_tally 10) same ∙ tally-reads k in cc

tally_not_empty : (n : ℕ) → str_eq "" (tally n) ≡ false
unfolding tally
tally_not_empty zero = ap is_eq (compare.nil-cons stroke "")
tally_not_empty (suc n) = ap is_eq (compare.nil-cons stroke (tally n))

pub tally-Printed : Printed tally read_tally
tally-Printed = record {
  reads = λ n range. tally-reads n;
  differ = tally_differ;
  not_empty = tally_not_empty;
}
