-- ===== src/Base/Orders.antt =====
-- The orders of numbers and texts as Boolean tests, with the laws that sorting wants.
use Prim.Native.Nat.{ℕ, Ordering}
use Prim.Native.String.{String, compare, [] as no_chars, ◌∷◌ as chars}
use Prim.Native.String.compare.{nil-nil, nil-cons, cons-nil, cons-cons}
use mathlib.Core.Path.{◌≡◌}
use mathlib.Core.Logic.{◌≢◌}
use mathlib.Core.Bool.{Bool, true, false}
use text.Mathlib.TextEquality.{path_by_compare, IsScalar-prop}
use native.Mathlib.Omega.{arith}
use wyrtloom.Base.Tests.{leb}

-- `a <= b` of texts
abbrev pub str_le : String → String → Bool
str_le s t = elim (compare s t) [ Ordering.gt ↦ false | _ ↦ true ]

compare_nil : (t : String) → compare no_chars t ≢ Ordering.gt
compare_nil no_chars h = cc (nil-nil)
compare_nil (chars d t) h = cc (nil-cons d t)

compare_flip : (s t : String) → compare s t ≡ Ordering.gt → compare t s ≡ Ordering.lt
compare_flip no_chars t h = absurd (compare_nil t h)
compare_flip (chars c s) no_chars h = nil-cons c s
compare_flip (chars c s) (chars d t) h =
    ground (arith, compare_flip s t, cons-cons c d s t, cons-cons d c t s, h)

compare_lt : (s t : String) → compare s t ≡ Ordering.lt → compare t s ≡ Ordering.gt
compare_lt no_chars no_chars h = cc (nil-nil)
compare_lt no_chars (chars d t) h = cons-nil d t
compare_lt (chars c s) no_chars h = cc (cons-nil c s)
compare_lt (chars c s) (chars d t) h =
    ground (arith, compare_lt s t, cons-cons c d s t, cons-cons d c t s, h)

pub str_le_antisym : (s t : String) → str_le s t ≡ true → str_le t s ≡ true → s ≡ t
str_le_antisym s t h k = ground (arith, path_by_compare s t, compare_lt s t, h, k)

pub str_le_total : (s t : String) → str_le s t ≡ false → str_le t s ≡ true
str_le_total s t h = ground (arith, compare_flip s t, h)

pub str_le_trans : (s t u : String) → str_le s t ≡ true → str_le t u ≡ true → str_le s u ≡ true
str_le_trans no_chars t no_chars h k = ground (arith, nil-nil)
str_le_trans no_chars t (chars e u) h k = ground (arith, nil-cons e u)
str_le_trans (chars c s) no_chars u h k = ground (arith, cons-nil c s)
str_le_trans (chars c s) (chars d t) no_chars h k = ground (arith, cons-nil d t, k)
str_le_trans (chars c s) (chars d t) (chars e u) h k =
    ground
      (arith, h, k, str_le_trans s t u, cons-cons c d s t, cons-cons d e t u, cons-cons c e s u)

pub leb_total : (a b : ℕ) → leb a b ≡ false → leb b a ≡ true
leb_total a b h = ground arith

pub leb_trans : (a b c : ℕ) → leb a b ≡ true → leb b c ≡ true → leb a c ≡ true
leb_trans a b c h k = ground arith

pub String_set : IsSet String
String_set = hlevel (IsScalar-prop)
