-- ===== src/F64.antt =====
-- IEEE 754 doubles, of which the code uses a few operations and decimal literals. Their type is the
-- parameter `F64`; nothing here depends on how they round.
pub mod Sample
use wyrtloom.Base.{ℕ, Bool}

-- `lit m k` is the literal m / 10 ^ k; `clamp x low high` is `x.clamp(low, high)`.
pub record F64 : Type 1 where
  pub Num : Type 0
  pub lit : ℕ → ℕ → Num
  pub add : Num → Num → Num
  pub sub : Num → Num → Num
  pub mul : Num → Num → Num
  pub div : Num → Num → Num
  pub minimum : Num → Num → Num
  pub eq : Num → Num → Bool
  pub lt : Num → Num → Bool
  pub ge : Num → Num → Bool
  pub is_finite : Num → Bool
  pub is_nan : Num → Bool
  pub clamp : Num → Num → Num → Num
