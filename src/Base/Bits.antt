-- ===== src/Base/Bits.antt =====
-- Laws of `&` and `|` at variables: both work digit by digit, so they commute with `/ 2 ^ k` and
-- `% 2 ^ k`; a mask of low ones is a remainder.
use Prim.Native.Nat.{
  ℕ, zero, suc, ◌+◌, ◌-◌, ◌*◌, ◌/◌, ◌%◌, ◌^◌, ◌≤◌, min, max, bit_and, bit_or, digits,
  bit_and-bitwise, bit_or-bitwise,
}
use mathlib.Core.Path.{◌≡◌, refl}
use native.Mathlib.Omega.{arith}
use native.Mathlib.Nat.{le_refl, div-div-eq-div-mul, pow-suc, mul_comm, div-add-mod, one-le-pow}
use mathlib.Core.Path.{ap, sym, ◌∙◌}

-- The digits that are left to read bound the fuel; more of it changes nothing.
module _ (z : ℕ → ℕ) (f : ℕ → ℕ → ℕ) where
  digits-fuel_eq : (n m a b : ℕ) → a ≤ n → a ≤ m → digits z f n a b ≡ digits z f m a b
  digits-fuel_eq n m zero b p q = at_zero n ∙ sym (at_zero m)
    where
      at_zero : (k : ℕ) → digits z f k 0 b ≡ z b
      at_zero zero = refl
      at_zero (suc k) = refl
  digits-fuel_eq zero m (suc a) b p q = absurd (omega arith)
  digits-fuel_eq (suc n) zero (suc a) b p q = absurd (omega arith)
  digits-fuel_eq (suc n) (suc m) (suc a) b p q =
      rw (digits-fuel_eq n m (suc a / 2) (b / 2) (omega arith) (omega arith))

  digits-lowest :
      (a b : ℕ)
      → digits z f (suc a) (suc a) b
        ≡ digits z f (suc a / 2) (suc a / 2) (b / 2) * 2 + f (suc a % 2) (b % 2)
  digits-lowest a b =
      omega (arith, digits-fuel_eq a (suc a / 2) (suc a / 2) (b / 2) (omega arith) (le_refl _))

pub bit_or-lowest : (a b : ℕ) → bit_or a b ≡ bit_or (a / 2) (b / 2) * 2 + max (a % 2) (b % 2)
bit_or-lowest zero b = simp bit_or-bitwise (omega arith)
bit_or-lowest (suc a) b = simp bit_or-bitwise (digits-lowest (λ y. y) max a b)

pub bit_and-lowest : (a b : ℕ) → bit_and a b ≡ bit_and (a / 2) (b / 2) * 2 + min (a % 2) (b % 2)
bit_and-lowest zero b = simp bit_and-bitwise (omega arith)
bit_and-lowest (suc a) b = simp bit_and-bitwise (digits-lowest (λ y. 0) min a b)

div-pow-suc : (a k : ℕ) → a / 2 ^ suc k ≡ a / 2 / 2 ^ k
div-pow-suc a k = rw (pow-suc 2 k, mul_comm (2 ^ k) 2) (sym (div-div-eq-div-mul a 2 (2 ^ k)))

-- `(a | b) >> k` and `(a & b) >> k`, digit by digit.
pub bit_or-div : (k a b : ℕ) → bit_or a b / 2 ^ k ≡ bit_or (a / 2 ^ k) (b / 2 ^ k)
bit_or-div zero a b = ground arith
bit_or-div (suc k) a b =
    let half : bit_or a b / 2 ≡ bit_or (a / 2) (b / 2) = omega (arith, bit_or-lowest a b) in
    rw (div-pow-suc (bit_or a b) k, div-pow-suc a k, div-pow-suc b k, half)
      (bit_or-div k (a / 2) (b / 2))

pub bit_and-div : (k a b : ℕ) → bit_and a b / 2 ^ k ≡ bit_and (a / 2 ^ k) (b / 2 ^ k)
bit_and-div zero a b = ground arith
bit_and-div (suc k) a b =
    let half : bit_and a b / 2 ≡ bit_and (a / 2) (b / 2) = omega (arith, bit_and-lowest a b) in
    rw (div-pow-suc (bit_and a b) k, div-pow-suc a k, div-pow-suc b k, half)
      (bit_and-div k (a / 2) (b / 2))

pub bit_or-zero_left : (b : ℕ) → bit_or 0 b ≡ b
bit_or-zero_left b = simp bit_or-bitwise refl

zero_of_fuel : (n a : ℕ) → a ≤ n → (bit_or a 0 ≡ a) × (bit_and a 0 ≡ 0)
zero_of_fuel n zero h = (refl, refl)
zero_of_fuel zero (suc a) h = absurd (omega arith)
zero_of_fuel (suc n) (suc a) h =
    let ih = zero_of_fuel n (suc a / 2) (omega arith) in
    (omega (arith, bit_or-lowest (suc a) 0, ih.0), omega (arith, bit_and-lowest (suc a) 0, ih.1))

pub bit_or-zero : (a : ℕ) → bit_or a 0 ≡ a
bit_or-zero a = (zero_of_fuel a a (le_refl a)).0

pub bit_and-zero : (a : ℕ) → bit_and a 0 ≡ 0
bit_and-zero a = (zero_of_fuel a a (le_refl a)).1

pub bit_and-one : (a : ℕ) → bit_and a 1 ≡ a % 2
bit_and-one a = omega (arith, bit_and-lowest a 1, bit_and-zero (a / 2))

pub mod-pow-suc : (k a : ℕ) → a % 2 ^ suc k ≡ a / 2 % 2 ^ k * 2 + a % 2
mod-pow-suc k a = omega (
  arith,
  div-add-mod a (2 ^ suc k),
  div-add-mod (a / 2) (2 ^ k),
  ap (λ (t : ℕ). t * (a / 2 / 2 ^ k)) (pow-suc 2 k),
  ap (λ (t : ℕ). 2 ^ suc k * t) (div-pow-suc a k),
)

-- A mask of `k` low ones is the remainder by `2 ^ k`.
pub bit_and-low_mask : (k a : ℕ) → bit_and a (2 ^ k - 1) ≡ a % 2 ^ k
bit_and-low_mask zero a = rw bit_and-zero (omega arith)
bit_and-low_mask (suc k) a =
    let halves : (2 ^ suc k - 1) / 2 ≡ 2 ^ k - 1 = omega (arith, pow-suc 2 k, one-le-pow k 2) in
    let odd : (2 ^ suc k - 1) % 2 ≡ 1 = omega (arith, pow-suc 2 k, one-le-pow k 2) in
    let low : bit_and (a / 2) ((2 ^ suc k - 1) / 2) ≡ a / 2 % 2 ^ k =
      rw halves (bit_and-low_mask k (a / 2)) in
    omega (arith, bit_and-lowest a (2 ^ suc k - 1), low, odd, mod-pow-suc k a)

-- `(a | b) % 2 ^ k`, digit by digit.
pub bit_or-mod : (k a b : ℕ) → bit_or a b % 2 ^ k ≡ bit_or (a % 2 ^ k) (b % 2 ^ k)
bit_or-mod zero a b = ground arith
bit_or-mod (suc k) a b =
    let half : bit_or a b / 2 ≡ bit_or (a / 2) (b / 2) = omega (arith, bit_or-lowest a b) in
    let rest : bit_or a b / 2 % 2 ^ k ≡ bit_or (a / 2 % 2 ^ k) (b / 2 % 2 ^ k) =
      rw half (bit_or-mod k (a / 2) (b / 2)) in
    let half_a : a % 2 ^ suc k / 2 ≡ a / 2 % 2 ^ k = omega (arith, mod-pow-suc k a) in
    let half_b : b % 2 ^ suc k / 2 ≡ b / 2 % 2 ^ k = omega (arith, mod-pow-suc k b) in
    let upper : bit_or (a % 2 ^ suc k / 2) (b % 2 ^ suc k / 2) ≡ bit_or a b / 2 % 2 ^ k =
      rw (half_a, half_b) (sym rest) in
    omega (
      arith,
      upper,
      mod-pow-suc k (bit_or a b),
      mod-pow-suc k a,
      mod-pow-suc k b,
      bit_or-lowest a b,
      bit_or-lowest (a % 2 ^ suc k) (b % 2 ^ suc k),
    )

-- `(a & b) % 2 ^ k`, digit by digit.
pub bit_and-mod : (k a b : ℕ) → bit_and a b % 2 ^ k ≡ bit_and (a % 2 ^ k) (b % 2 ^ k)
bit_and-mod zero a b = ground arith
bit_and-mod (suc k) a b =
    let half : bit_and a b / 2 ≡ bit_and (a / 2) (b / 2) = omega (arith, bit_and-lowest a b) in
    let rest : bit_and a b / 2 % 2 ^ k ≡ bit_and (a / 2 % 2 ^ k) (b / 2 % 2 ^ k) =
      rw half (bit_and-mod k (a / 2) (b / 2)) in
    let half_a : a % 2 ^ suc k / 2 ≡ a / 2 % 2 ^ k = omega (arith, mod-pow-suc k a) in
    let half_b : b % 2 ^ suc k / 2 ≡ b / 2 % 2 ^ k = omega (arith, mod-pow-suc k b) in
    let upper : bit_and (a % 2 ^ suc k / 2) (b % 2 ^ suc k / 2) ≡ bit_and a b / 2 % 2 ^ k =
      rw (half_a, half_b) (sym rest) in
    omega (
      arith,
      upper,
      mod-pow-suc k (bit_and a b),
      mod-pow-suc k a,
      mod-pow-suc k b,
      bit_and-lowest a b,
      bit_and-lowest (a % 2 ^ suc k) (b % 2 ^ suc k),
    )

pub bit_and-two : (a : ℕ) → bit_and a 2 ≡ a / 2 % 2 * 2
bit_and-two a = omega (arith, bit_and-lowest a 2, bit_and-one (a / 2))

pub bit_and-four : (a : ℕ) → bit_and a 4 ≡ a / 4 % 2 * 4
bit_and-four a = omega (arith, bit_and-lowest a 4, bit_and-two (a / 2))
