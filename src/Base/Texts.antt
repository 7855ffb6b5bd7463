-- ===== src/Base/Texts.antt =====
-- Texts put together, and their order. QString compares UTF-16 code units, and this order code points,
-- which differ only for characters beyond the basic plane.
use Prim.Native.String.{String, ◌++◌, compare}
use text.Mathlib.Text.{is_lt}
use mathlib.Core.Bool.{Bool}

abbrev pub str_append : String → String → String
str_append s t = s ++ t

abbrev pub str_lt : String → String → Bool
str_lt s t = is_lt (compare s t)
