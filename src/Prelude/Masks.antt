-- ===== src/Prelude/Masks.antt =====
-- Bit masks as arithmetic: over a byte by a table, and at every width by the lowest digit.
use objconv.Prelude.Tests.{◌==◌, ==→eq, if◌then◌else◌, Bool-cases}
use mathlib.Core.Logic.{inl, inr}
use native.Mathlib.Decide.{dec_lt}
use Prim.Native.Nat.{
  ℕ, zero, suc, ◌+◌, ◌*◌, ◌/◌, ◌%◌, ◌^◌, ◌≤◌, ◌<◌, min, max, bit_and, bit_or, digits,
  bit_and-bitwise, bit_or-bitwise,
}
use mathlib.Core.Path.{◌≡◌, refl, ap}
use mathlib.Core.Bool.{Bool, true, false}
use native.Mathlib.Nat.{pow-suc, le_refl, one-le-pow, div-add-mod}
use native.Mathlib.Omega.{arith}

-- Do `f` and `g` agree on the numbers below a bound?
table : (ℕ → ℕ) → (ℕ → ℕ) → ℕ → Bool
table f g zero = true
table f g (suc k) = if f k == g k then table f g k else false

same_below : (k : ℕ) (f g : ℕ → ℕ) → table f g k ≡ true → (x : ℕ) → x < k → f x ≡ g x
unfolding table
same_below zero f g t x h = absurd (omega arith)
same_below (suc k) f g t x h = elim (Bool-cases (f k == g k)) [
  | inl e ↦ elim (dec_lt x k) [
    | yes below ↦ same_below k f g (rw e at t) x below
    | no top ↦ let at_top : x ≡ k = omega arith in rw at_top (==→eq (f k) (g k) e)
  ]
  | inr e ↦ absurd (ground arith)
]

pub mask_80 : (b : ℕ) → b < 256 → bit_and b 0x80 ≡ b / 128 * 128
unfolding table
mask_80 = same_below 256 _ _ refl

pub mask_e0 : (b : ℕ) → b < 256 → bit_and b 0xE0 ≡ b / 32 * 32
unfolding table
mask_e0 = same_below 256 _ _ refl

pub mask_f0 : (b : ℕ) → b < 256 → bit_and b 0xF0 ≡ b / 16 * 16
unfolding table
mask_f0 = same_below 256 _ _ refl

pub mask_1f : (b : ℕ) → b < 256 → bit_and b 0x1F ≡ b % 32
unfolding table
mask_1f = same_below 256 _ _ refl

pub mask_0f : (b : ℕ) → b < 256 → bit_and b 0x0F ≡ b % 16
unfolding table
mask_0f = same_below 256 _ _ refl

pub set_00 : (b : ℕ) → b < 256 → bit_or b 0x00 ≡ b
unfolding table
set_00 = same_below 256 _ _ refl

pub set_80 : (b : ℕ) → b < 128 → bit_or b 0x80 ≡ b + 128
unfolding table
set_80 = same_below 128 _ _ refl

pub set_90 : (b : ℕ) → b < 16 → bit_or b 0x90 ≡ b + 144
unfolding table
set_90 = same_below 16 _ _ refl

pub set_a0 : (b : ℕ) → b < 32 → bit_or b 0xA0 ≡ b + 160
unfolding table
set_a0 = same_below 32 _ _ refl

-- A byte whose three upper bits are set keeps its value.
pub set_e0 : (b : ℕ) → b < 32 → bit_or (b + 224) 0xE0 ≡ b + 224
unfolding table
set_e0 = same_below 32 (λ b. bit_or (b + 224) 0xE0) (λ b. b + 224) refl

-- The upper three bits of a byte and its lower five, joined.
pub join_e0 : (b : ℕ) → b < 256 → bit_or (b / 32 * 32) (b % 32) ≡ b
unfolding table
join_e0 = same_below 256 (λ b. bit_or (b / 32 * 32) (b % 32)) (λ b. b) refl

low_digit_fuel :
    (z : ℕ → ℕ) (f : ℕ → ℕ → ℕ) (n m a b : ℕ) → a ≤ n → a ≤ m → digits z f n a b ≡ digits z f m a b
low_digit_fuel z f zero zero zero b p q = refl
low_digit_fuel z f zero zero (suc a) b p q = absurd (omega arith)
low_digit_fuel z f zero (suc m) zero b p q = refl
low_digit_fuel z f zero (suc m) (suc a) b p q = absurd (omega arith)
low_digit_fuel z f (suc n) zero zero b p q = refl
low_digit_fuel z f (suc n) zero (suc a) b p q = absurd (omega arith)
low_digit_fuel z f (suc n) (suc m) zero b p q = refl
low_digit_fuel z f (suc n) (suc m) (suc a) b p q =
    omega (arith, low_digit_fuel z f n m (suc a / 2) (b / 2) (omega arith) (omega arith))

or_low : (a b : ℕ) → bit_or a b ≡ bit_or (a / 2) (b / 2) * 2 + max (a % 2) (b % 2)
or_low zero b = omega (arith, bit_or-bitwise 0 b, bit_or-bitwise 0 (b / 2))
or_low (suc a) b = omega (
  arith,
  bit_or-bitwise (suc a) b,
  bit_or-bitwise (suc a / 2) (b / 2),
  low_digit_fuel (λ y. y) max a (suc a / 2) (suc a / 2) (b / 2) (omega arith) (omega arith),
)

and_low : (a b : ℕ) → bit_and a b ≡ bit_and (a / 2) (b / 2) * 2 + min (a % 2) (b % 2)
and_low zero b = omega (arith, bit_and-bitwise 0 b, bit_and-bitwise 0 (b / 2))
and_low (suc a) b = omega (
  arith,
  bit_and-bitwise (suc a) b,
  bit_and-bitwise (suc a / 2) (b / 2),
  low_digit_fuel (λ y. zero) min a (suc a / 2) (suc a / 2) (b / 2) (omega arith) (omega arith),
)

and_zero : (n a : ℕ) → a ≤ n → bit_and a 0 ≡ 0
and_zero n zero h = refl
and_zero zero (suc a) h = absurd (omega arith)
and_zero (suc n) (suc a) h = omega (arith, and_low (suc a) 0, and_zero n (suc a / 2) (omega arith))

-- `r | q << k` is a sum when `r` has at most `k` bits.
pub or_shifted : (k r q : ℕ) → r < 2 ^ k → bit_or r (q * 2 ^ k) ≡ r + q * 2 ^ k
or_shifted zero zero q h = omega (arith, bit_or-bitwise 0 (q * 2 ^ 0))
or_shifted zero (suc r) q h = absurd (omega arith)
or_shifted (suc k) r q h = ground (
  arith,
  or_low r (q * 2 ^ suc k),
  ap (λ (t : ℕ). q * t) (pow-suc 2 k),
  pow-suc 2 k,
  or_shifted k (r / 2) q (omega (arith, pow-suc 2 k)),
)

and_shifted : (k r q m : ℕ) → r < 2 ^ k → m + 1 ≡ 2 ^ k → bit_and (r + q * 2 ^ k) m ≡ r
and_shifted zero r q zero h e = omega (arith, and_zero _ (r + q * 2 ^ 0) (le_refl _))
and_shifted zero r q (suc m) h e = absurd (omega arith)
and_shifted (suc k) r q m h e = ground (
  arith,
  and_low (r + q * 2 ^ suc k) m,
  ap (λ (t : ℕ). q * t) (pow-suc 2 k),
  pow-suc 2 k,
  and_shifted k (r / 2) q (m / 2),
)

-- A mask of `k` ones keeps the remainder by `2 ^ k`.
pub and_ones : (k a m : ℕ) → m + 1 ≡ 2 ^ k → bit_and a m ≡ a % 2 ^ k
and_ones k a m e =
    ground (arith, one-le-pow k 2, and_shifted k (a % 2 ^ k) (a / 2 ^ k) m, div-add-mod a (2 ^ k))
