-- ===== src/F64/Sample.antt =====
-- Hundredths, which stand for doubles in the examples.
use wyrtloom.Base.{ℕ, ◌+◌, ◌-◌, ◌*◌, ◌/◌, ◌^◌, true, false, ltb, leb, ◌==◌}
use Prim.Native.Nat.{min, max}
use wyrtloom.F64.{F64}

abbrev pub hundredths : F64
hundredths = record {
  Num = ℕ;
  lit = λ m k. m * 100 / 10 ^ k;
  add = λ a b. a + b;
  sub = λ a b. a - b;
  mul = λ a b. a * b / 100;
  div = λ a b. a * 100 / b;
  minimum = λ a b. min a b;
  eq = λ a b. a == b;
  lt = λ a b. ltb a b;
  ge = λ a b. leb b a;
  is_finite = λ a. true;
  is_nan = λ a. false;
  clamp = λ a low high. min (max a low) high;
}
