-- ===== src/Base/Dicts.antt =====
-- QVariantMap as an association list with one entry for each key. Only whole keys are compared.
use Prim.Native.String.{String}
use text.Mathlib.Text.{◌==◌}
use text.Mathlib.TextEquality.{eq_iff}
use mathlib.Core.Path.{◌≡◌, refl}
use mathlib.Core.List.{List, [], ◌∷◌}
use mathlib.Core.Option.{Option, none, some}
use mathlib.Core.Bool.{Bool, true, false}
use native.Mathlib.Omega.{arith}
use cc_tools_qt.Base.Tests.{if◌then◌else◌}

abbrev pub str_eq : String → String → Bool
str_eq s t = s == t

abbrev pub Dict {ℓ} : Type ℓ → Type ℓ
Dict V = List (String × V)

module _ {ℓ} {V : Type ℓ} where
  -- QVariantMap::value, with `none` for an invalid QVariant.
  unfoldable pub value : String → Dict V → Option V
  value k [] = none
  value k ((j, v) ∷ m) = if str_eq j k then some v else value k m

  -- QVariantMap::insert.
  unfoldable pub insert : String → V → Dict V → Dict V
  insert k v [] = (k, v) ∷ []
  insert k v ((j, w) ∷ m) = if str_eq j k then (k, v) ∷ m else (j, w) ∷ insert k v m

  abbrev pub is_empty : Dict V → Bool
  is_empty [] = true
  is_empty (e ∷ m) = false

  -- for (auto& key : from.keys()) { map.insert(key, from.value(key)); }
  unfoldable pub merge : Dict V → Dict V → Dict V
  merge [] m = m
  merge ((k, v) ∷ from) m = merge from (insert k v m)

  pub value-insert :
      (k j : String) (v : V) (m : Dict V)
      → value j (insert k v m) ≡ (if str_eq k j then some v else value j m)
  unfolding value insert
  value-insert k j v [] = refl
  value-insert k j v ((i, w) ∷ m) =
      ground (arith, eq_iff k j, eq_iff i k, eq_iff i j, value-insert k j v m)
