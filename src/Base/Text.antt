-- ===== src/Base/Text.antt =====
-- Equality tests on texts, and their concatenation.
use Prim.Native.String.{String, ◌++◌}
use mathlib.Core.List.{List, [], ◌∷◌}
use mathlib.Core.Path.{◌≡◌, refl}
use mathlib.Core.Bool.{Bool, true}
use mathlib.Core.Logic.{◌↔◌}
use text.Mathlib.Text.{◌==◌ as eq}
use text.Mathlib.TextEquality.{eq_iff}

abbrev pub str_eq : String → String → Bool
str_eq s t = eq s t

pub str_eq_iff : (s t : String) → (str_eq s t ≡ true) ↔ (s ≡ t)
str_eq_iff s t = eq_iff s t

pub str_eq_refl : (s : String) → str_eq s s ≡ true
str_eq_refl s = (str_eq_iff s s).1 refl

abbrev pub str_append : String → String → String
str_append s t = s ++ t

-- `parts.join(between)`
abbrev pub join : String → List String → String
join between [] = ""
join between (s ∷ []) = s
join between (s ∷ t ∷ rest) = s ++ between ++ join between (t ∷ rest)

-- `format!`, on its parts
abbrev pub concat : List String → String
concat [] = ""
concat (s ∷ rest) = s ++ concat rest
