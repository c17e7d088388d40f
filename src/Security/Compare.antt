-- ===== src/Security/Compare.antt =====
-- The comparison of two MACs, which collects the bits in which they differ.
use Prim.Native.Nat.{bit_or, bit_xor, bit_or-bitwise, bit_xor-bitwise, digits, differ, max}
use wyrtloom.Base.{
  ℕ, zero, suc, ◌/◌, ◌%◌, ◌≤◌, ◌≡◌, ◌↔◌, sym, arith, true, [], ◌∷◌, ==_iff, length, subst,
}
use wyrtloom.Canon.{Bytes}
use wyrtloom.Security.Audit.{diff_bits, constant_time_eq}

differ_iff : (x y : ℕ) → (differ x y ≡ 0) ↔ (x ≡ y)
differ_iff zero y = ground arith
differ_iff (suc x) zero = ground arith
differ_iff (suc x) (suc y) = ground (arith, differ_iff x y)

xor_digits : (n a b : ℕ) → a ≤ n → (digits (λ b. b) differ n a b ≡ 0) ↔ (a ≡ b)
xor_digits zero a b h = ground arith
xor_digits (suc n) zero b h = ground arith
xor_digits (suc n) (suc a) b h =
    let ih = xor_digits n (suc a / 2) (b / 2) (omega arith) in
    ground (arith, ih, differ_iff (suc a % 2) (b % 2))

or_digits : (n a b : ℕ) → a ≤ n → (digits (λ b. b) max n a b ≡ 0) ↔ ((a ≡ 0) × (b ≡ 0))
or_digits zero a b h = ground arith
or_digits (suc n) zero b h = ground arith
or_digits (suc n) (suc a) b h =
    let ih = or_digits n (suc a / 2) (b / 2) (omega arith) in ground (arith, ih)

bit_xor_iff : (a b : ℕ) → (bit_xor a b ≡ 0) ↔ (a ≡ b)
bit_xor_iff a b =
    subst (λ x. (x ≡ 0) ↔ (a ≡ b)) (sym (λ i. bit_xor-bitwise a b i))
      (xor_digits a a b (omega arith))

bit_or_iff : (a b : ℕ) → (bit_or a b ≡ 0) ↔ ((a ≡ 0) × (b ≡ 0))
bit_or_iff a b =
    subst (λ x. (x ≡ 0) ↔ ((a ≡ 0) × (b ≡ 0))) (sym (λ i. bit_or-bitwise a b i))
      (or_digits a a b (omega arith))

diff_bits_iff :
    (diff : ℕ) (a b : Bytes)
    → length a ≡ length b
    → (diff_bits diff a b ≡ 0) ↔ ((diff ≡ 0) × (a ≡ b))
unfolding diff_bits
diff_bits_iff diff [] [] l = ground arith
diff_bits_iff diff [] (y ∷ b) l = absurd (omega arith)
diff_bits_iff diff (x ∷ a) [] l = absurd (omega arith)
diff_bits_iff diff (x ∷ a) (y ∷ b) l = ground (
  arith,
  diff_bits_iff (bit_or diff (bit_xor x y)) a b (omega arith),
  bit_or_iff diff (bit_xor x y),
  bit_xor_iff x y,
)

pub constant_time_eq_iff :
    (a b : Bytes) → length a ≡ length b → (constant_time_eq a b ≡ true) ↔ (a ≡ b)
unfolding constant_time_eq
constant_time_eq_iff a b l = ground (arith, diff_bits_iff 0 a b l, ==_iff (diff_bits 0 a b) 0)
