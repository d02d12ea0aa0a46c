-- ===== src/Objutil/Int/Reference.antt =====
-- ParseInt of objutil/int.go with numbers of any size in place of its sums that wrap.
use objconv.Prelude.{
  ℕ, ◌+◌, ◌-◌, ◌*◌, ◌≤◌, ◌<◌, ◌≡◌, List, [], ◌∷◌, ltb, ◌==◌, Bool, true, false, if◌then◌else◌,
  Option, none, some, arith, lt→ltb, le→ltb_false,
}
use objconv.Prelude.Int.{ℤ, pos, neg}
use objconv.Go.Outcome.{
  Error, Outcome, ok, err, panic, stuck, invalid_int64, overflow_int64, invalid_uint64,
}
use objconv.Objutil.Limits.{int64_max}
use objconv.Objutil.Int.{is_digit}

abbrev pub decimal_digit : ℕ → Option ℕ
decimal_digit d = if is_digit d then some (d - b'0') else none

module _ (base : ℕ) (digit : ℕ → Option ℕ) where
  -- The value of the digits in front, behind digits of the value `v`.
  unfoldable pub leading : ℕ → List ℕ → ℕ
  leading v [] = v
  leading v (d ∷ ds) =
      let rest = λ (x : ℕ). leading (v * base + x) ds in
      elim (digit d) [ none ↦ v | some x ↦ rest x ]

  -- Is there nothing but digits?
  unfoldable pub all_digits : List ℕ → Bool
  all_digits [] = true
  all_digits (d ∷ ds) = let rest = all_digits ds in elim (digit d) [ none ↦ false | some x ↦ rest ]

  -- The number that the digits stand for behind digits of the value `v`, up to `max`.
  unfoldable pub number : ℕ → Error → Error → ℕ → List ℕ → Outcome ℕ
  unfolding leading all_digits
  number max overflow invalid v ds =
      if ltb max (leading v ds)
      then err overflow
      else if all_digits ds
      then ok (leading v ds)
      else err invalid

  leading_grows : 0 < base → (v : ℕ) (ds : List ℕ) → v ≤ leading v ds
  unfolding leading
  leading_grows b v [] = omega arith
  leading_grows b v (d ∷ ds) = by_digit (digit d) (λ x. leading_grows b (v * base + x) ds)
    where
      by_digit :
          (o : Option ℕ)
          → ((x : ℕ) → v * base + x ≤ leading (v * base + x) ds)
          → v ≤ elim o [ none ↦ v | some x ↦ leading (v * base + x) ds ]
      by_digit none h = omega arith
      by_digit (some x) h = grind (arith, h x)

  pub number-nil : (max v : ℕ) (o i : Error) → v ≤ max → number max o i v [] ≡ ok v
  unfolding number
  number-nil max v o i h = rw (le→ltb_false max v h)

  pub number-cons :
      (max v d x : ℕ) (o i : Error) (ds : List ℕ)
      → digit d ≡ some x
      → number max o i v (d ∷ ds) ≡ number max o i (v * base + x) ds
  unfolding number
  number-cons max v d x o i ds e = ground arith

  pub number-invalid :
      (max v d : ℕ) (o i : Error) (ds : List ℕ)
      → digit d ≡ none
      → v ≤ max
      → number max o i v (d ∷ ds) ≡ err i
  unfolding number
  number-invalid max v d o i ds e h = ground arith

  pub number-overflow :
      0 < base → (max v : ℕ) (o i : Error) (ds : List ℕ) → max < v → number max o i v ds ≡ err o
  unfolding number
  number-overflow b max v o i ds h =
      rw (lt→ltb max (leading v ds) (omega (arith, leading_grows b v ds)))

abbrev pub signed : (ℕ → ℤ) → Outcome ℕ → Outcome ℤ
signed sign (ok n) = ok (sign n)
signed sign (err e) = err e
signed sign panic = panic
signed sign stuck = stuck

-- ParseInt with numbers of any size: the digits in front are held to the limit first.
abbrev pub decimal : List ℕ → Outcome ℤ
decimal [] = err invalid_uint64
decimal (d ∷ []) =
    if d == b'-'
    then err invalid_uint64
    else signed pos (number 10 decimal_digit int64_max overflow_int64 invalid_int64 0 (d ∷ []))
decimal (d ∷ c ∷ ds) =
    if d == b'-'
    then signed neg
        (number 10 decimal_digit (int64_max + 1) overflow_int64 invalid_int64 0 (c ∷ ds))
    else signed pos (number 10 decimal_digit int64_max overflow_int64 invalid_int64 0 (d ∷ c ∷ ds))

-- The reference behind digits of the value `v`.
abbrev pub from : ℕ → ℕ → List ℕ → Outcome ℕ
from max = number 10 decimal_digit max overflow_int64 invalid_int64

digit-some : (d : ℕ) → is_digit d ≡ true → decimal_digit d ≡ some (d - b'0')
digit-some d h = rw h

digit-none : (d : ℕ) → is_digit d ≡ false → decimal_digit d ≡ none
digit-none d h = rw h

pub from-nil : (max v : ℕ) → v ≤ max → from max v [] ≡ ok v
from-nil max v h = number-nil 10 decimal_digit max v overflow_int64 invalid_int64 h

pub from-cons :
    (max v d : ℕ) (ds : List ℕ)
    → is_digit d ≡ true
    → from max v (d ∷ ds) ≡ from max (v * 10 + (d - b'0')) ds
from-cons max v d ds good =
    number-cons 10 decimal_digit max v d (d - b'0') overflow_int64 invalid_int64 ds
      (digit-some d good)

pub from-invalid :
    (max v d : ℕ) (ds : List ℕ)
    → is_digit d ≡ false
    → v ≤ max
    → from max v (d ∷ ds) ≡ err invalid_int64
from-invalid max v d ds bad h =
    number-invalid 10 decimal_digit max v d overflow_int64 invalid_int64 ds (digit-none d bad) h

pub from-overflow : (max v : ℕ) (ds : List ℕ) → max < v → from max v ds ≡ err overflow_int64
from-overflow max v ds h =
    number-overflow 10 decimal_digit (omega arith) max v overflow_int64 invalid_int64 ds h
