-- ===== src/Prelude/Int.antt =====
-- Signed integers over the native numbers, under the library's names, and their 64-bit patterns.
use objconv.Prelude.Tests.{ltb, leb, if◌then◌else◌}
use Prim.Native.Nat.{ℕ, zero, suc, ◌+◌, ◌-◌, ◌*◌, ◌%◌, ◌^◌, ◌<◌}
use mathlib.Core.Path.{◌≡◌}
use mathlib.Core.Bool.{Bool, true, false}
use native.Mathlib.Omega.{arith}

-- `negsuc n` is -(n + 1).
pub data ℤ : Type 0 where
  pos : ℕ → ℤ
  negsuc : ℕ → ℤ

-- a <= b
abbrev pub leb_ℤ : ℤ → ℤ → Bool
leb_ℤ (pos a) (pos b) = leb a b
leb_ℤ (pos a) (negsuc b) = false
leb_ℤ (negsuc a) (pos b) = true
leb_ℤ (negsuc a) (negsuc b) = leb b a

-- uintw(v) of a signed value: its two's complement pattern of `w` bits.
abbrev pub to_word : ℕ → ℤ → ℕ
to_word w (pos n) = n % 2 ^ w
to_word w (negsuc n) = 2 ^ w - 1 - n % 2 ^ w

-- intw(u) of a pattern of `w` bits.
abbrev pub of_word : ℕ → ℕ → ℤ
of_word w u = if ltb u (2 ^ (w - 1)) then pos u else negsuc (2 ^ w - 1 - u)

-- The values of a signed integer of `w` bits.
abbrev pub IsInt : ℕ → ℤ → Type 0
IsInt w (pos n) = n < 2 ^ (w - 1)
IsInt w (negsuc n) = n < 2 ^ (w - 1)

-- v + k for a number k, before any wrap.
abbrev pub add_nat : ℤ → ℕ → ℤ
add_nat (pos n) k = pos (n + k)
add_nat (negsuc n) k = if ltb n k then pos (k - suc n) else negsuc (n - k)

pub of_word-to_word64 : (v : ℤ) → IsInt 64 v → of_word 64 (to_word 64 v) ≡ v
of_word-to_word64 (pos n) h = ground arith
of_word-to_word64 (negsuc n) h = ground arith

-- a < b
abbrev pub ltb_ℤ : ℤ → ℤ → Bool
ltb_ℤ (pos a) (pos b) = ltb a b
ltb_ℤ (pos a) (negsuc b) = false
ltb_ℤ (negsuc a) (pos b) = true
ltb_ℤ (negsuc a) (negsuc b) = ltb b a

-- Sums, differences and products of int64, which wrap.
abbrev pub add64 : ℤ → ℤ → ℤ
add64 a b = of_word 64 ((to_word 64 a + to_word 64 b) % 2 ^ 64)

abbrev pub sub64 : ℤ → ℤ → ℤ
sub64 a b = of_word 64 ((to_word 64 a + (2 ^ 64 - to_word 64 b)) % 2 ^ 64)

abbrev pub mul64 : ℤ → ℤ → ℤ
mul64 a b = of_word 64 (to_word 64 a * to_word 64 b % 2 ^ 64)

-- -n
abbrev pub neg : ℕ → ℤ
neg zero = pos 0
neg (suc n) = negsuc n
