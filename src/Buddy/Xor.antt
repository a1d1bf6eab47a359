-- ===== src/Buddy/Xor.antt =====
-- The exclusive or of Kernel/mm/mm_buddy.c, `find_buddy`, a digit at a time.
use Prim.Native.Nat.{differ, digits, bit_xor, bit_xor-bitwise}
use so_tp.Base.{
  ℕ, zero, suc, ◌+◌, ◌*◌, ◌/◌, ◌%◌, ◌^◌, ◌≡◌, ◌<◌, ◌≤◌, ◌⊎◌, refl, sym, ◌∙◌, ap, inl, inr, arith,
  eq-cases,
}
use native.Mathlib.Nat.{div-div-eq-div-mul}

abbrev xor_digits : ℕ → ℕ → ℕ → ℕ
xor_digits n a b = digits (λ b. b) differ n a b

differ_digit : (x y : ℕ) → x < 2 → y < 2 → differ x y ≡ (x + y) % 2
differ_digit zero zero p q = refl
differ_digit zero (suc zero) p q = refl
differ_digit (suc zero) zero p q = refl
differ_digit (suc zero) (suc zero) p q = refl
differ_digit zero (suc (suc y)) p q = absurd (omega (arith, q))
differ_digit (suc zero) (suc (suc y)) p q = absurd (omega (arith, q))
differ_digit (suc (suc x)) y p q = absurd (omega (arith, p))

xor_digits_fuel : (n m a b : ℕ) → a ≤ n → a ≤ m → xor_digits n a b ≡ xor_digits m a b
xor_digits_fuel zero zero a b p q = refl
xor_digits_fuel zero (suc m) zero b p q = refl
xor_digits_fuel zero (suc m) (suc a) b p q = absurd (omega arith)
xor_digits_fuel (suc n) zero zero b p q = refl
xor_digits_fuel (suc n) zero (suc a) b p q = absurd (omega arith)
xor_digits_fuel (suc n) (suc m) zero b p q = refl
xor_digits_fuel (suc n) (suc m) (suc a) b p q =
    ap (λ x. x * 2 + differ (suc a % 2) (b % 2))
      (xor_digits_fuel n m (suc a / 2) (b / 2) (omega arith) (omega arith))

zero-bit_xor : (b : ℕ) → bit_xor 0 b ≡ b
zero-bit_xor b = bit_xor-bitwise 0 b

-- The lowest digit.
pub bit_xor_step : (a b : ℕ) → bit_xor a b ≡ bit_xor (a / 2) (b / 2) * 2 + (a % 2 + b % 2) % 2
bit_xor_step zero b = omega (arith, zero-bit_xor b, zero-bit_xor (b / 2))
bit_xor_step (suc a) b = omega (
  arith,
  bit_xor-bitwise (suc a) b,
  bit_xor-bitwise (suc a / 2) (b / 2),
  xor_digits_fuel a (suc a / 2) (suc a / 2) (b / 2) (omega arith) (omega arith),
  differ_digit (suc a % 2) (b % 2) (omega arith) (omega arith),
)

bit_xor-zero_fuel : (n a : ℕ) → a ≤ n → bit_xor a 0 ≡ a
bit_xor-zero_fuel n zero h = refl
bit_xor-zero_fuel zero (suc a) h = absurd (omega arith)
bit_xor-zero_fuel (suc n) (suc a) h =
    omega (arith, bit_xor_step (suc a) 0, bit_xor-zero_fuel n (suc a / 2) (omega arith))

pub bit_xor-zero : (a : ℕ) → bit_xor a 0 ≡ a
bit_xor-zero a = bit_xor-zero_fuel a a (omega arith)

power_suc : (k : ℕ) → 2 ^ suc k ≡ 2 * 2 ^ k
power_suc k = omega arith

half : (k : ℕ) → 2 ^ suc k / 2 ≡ 2 ^ k
half k = omega arith

pub power-pos : (k : ℕ) → 0 < 2 ^ k
power-pos zero = omega arith
power-pos (suc k) = omega (arith, power-pos k)

quotient_suc : (k a : ℕ) → a / 2 / 2 ^ k ≡ a / 2 ^ suc k
quotient_suc k a = div-div-eq-div-mul a 2 (2 ^ k) ∙ ap (λ x. a / x) (sym (power_suc k))

-- The power of two is added where its digit is 0, and taken away where it is 1.
abbrev pub Flipped : ℕ → ℕ → Type 0
Flipped k a =
    ((a / 2 ^ k % 2 ≡ 0) × (bit_xor a (2 ^ k) ≡ a + 2 ^ k))
    ⊎ ((a / 2 ^ k % 2 ≡ 1) × (bit_xor a (2 ^ k) + 2 ^ k ≡ a))

lowest : (a : ℕ) → Flipped 0 a
lowest a = elim (eq-cases (a % 2) 0) [
  | inl e ↦ inl (omega (arith, e), omega (arith, e, bit_xor_step a 1, bit_xor-zero (a / 2)))
  | inr n ↦ inr (omega (arith, n), omega (arith, n, bit_xor_step a 1, bit_xor-zero (a / 2)))
]

xor_suc : (k a : ℕ) → bit_xor a (2 ^ suc k) ≡ bit_xor (a / 2) (2 ^ k) * 2 + a % 2
xor_suc k a =
    bit_xor_step a (2 ^ suc k)
    ∙ ap (λ x. bit_xor (a / 2) x * 2 + (a % 2 + 2 ^ suc k % 2) % 2) (half k)
    ∙ digit (bit_xor (a / 2) (2 ^ k))
  where
    digit : (x : ℕ) → x * 2 + (a % 2 + 2 ^ suc k % 2) % 2 ≡ x * 2 + a % 2
    digit x = omega arith

pub bit_xor-power : (k a : ℕ) → Flipped k a
bit_xor-power zero a = lowest a
bit_xor-power (suc k) a = elim (bit_xor-power k (a / 2)) [
  | inl (e, x) ↦
      inl (ap (λ y. y % 2) (sym (quotient_suc k a)) ∙ e, omega (arith, x, xor_suc k a, power_suc k))
  | inr (e, x) ↦
      inr (ap (λ y. y % 2) (sym (quotient_suc k a)) ∙ e, omega (arith, x, xor_suc k a, power_suc k))
]
