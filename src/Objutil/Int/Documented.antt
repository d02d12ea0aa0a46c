-- ===== src/Objutil/Int/Documented.antt =====
-- ParseInt of objutil/int.go against what its comment says: the decimal numbers that strconv reads.
use objconv.Prelude.{
  ℕ, zero, suc, ◌+◌, ◌-◌, ◌*◌, ◌≤◌, ◌<◌, ◌≡◌, ◌==◌, refl, List, [], ◌∷◌, leb, ltb, ◌&&◌, Bool, true,
  false, if◌then◌else◌, Option, none, some, arith, ◌⊎◌, inl, inr, Bool-cases, ltb→lt, ltb_false→le,
  subst, sym,
}
use objconv.Prelude.Int.{ℤ, pos, neg, IsInt}
use objconv.Go.Outcome.{Error, Outcome, ok, err, overflow_int64, invalid_int64, invalid_uint64}
use objconv.Objutil.Limits.{int64_max}
use objconv.Objutil.Int.{parse_int}
use objconv.Objutil.Int.Laws.{parse_int-decimal}
use objconv.Objutil.Int.Reference.{decimal, decimal_digit, signed, leading, all_digits, number}

-- The number of any size that digits stand for behind the number `v`; `none` where another byte is
-- among them.
unfoldable pub digits_value : ℕ → List ℕ → Option ℕ
digits_value v [] = some v
digits_value v (d ∷ ds) =
    let rest = digits_value (v * 10 + (d - b'0')) ds in
    if leb b'0' d && leb d b'9' then rest else none

-- One digit at least.
abbrev pub digits_text : List ℕ → Option ℕ
digits_text [] = none
digits_text (d ∷ ds) = digits_value 0 (d ∷ ds)

abbrev pub with_sign : (ℕ → ℤ) → Option ℕ → Option ℤ
with_sign sign none = none
with_sign sign (some n) = some (sign n)

abbrev pub is_plus : List ℕ → Bool
is_plus [] = false
is_plus (d ∷ ds) = d == b'+'

-- The number of any size that a text names: digits behind a sign or none.
abbrev pub decimal_text : List ℕ → Option ℤ
decimal_text [] = none
decimal_text (d ∷ ds) =
    if d == b'-'
    then with_sign neg (digits_text ds)
    else if d == b'+'
    then with_sign pos (digits_text ds)
    else with_sign pos (digits_text (d ∷ ds))

-- A number that fits into an int64 is returned, one that does not is an overflow, and a text that names
-- none is an error.
abbrev pub Answers : Option ℤ → Outcome ℤ → Type 0
Answers none r = (e : Error) × (r ≡ err e)
Answers (some v) r = (IsInt 64 v × (r ≡ ok v)) ⊎ ((¬ IsInt 64 v) × (r ≡ err overflow_int64))

digits_value-leading :
    (v : ℕ) (ds : List ℕ)
    → all_digits 10 decimal_digit ds ≡ true
    → digits_value v ds ≡ some (leading 10 decimal_digit v ds)
unfolding digits_value leading all_digits
digits_value-leading v [] h = refl
digits_value-leading v (d ∷ ds) h = elim (Bool-cases (leb b'0' d && leb d b'9')) [
  | inl good ↦
      rw (good, leading)
        (digits_value-leading (v * 10 + (d - b'0')) ds (rw (good, all_digits) at h))
  | inr bad ↦ let e : false ≡ true = rw (bad, all_digits) at h in absurd cc
]

digits_value-none :
    (v : ℕ) (ds : List ℕ) → all_digits 10 decimal_digit ds ≡ false → digits_value v ds ≡ none
unfolding digits_value all_digits
digits_value-none v [] h = absurd cc
digits_value-none v (d ∷ ds) h = elim (Bool-cases (leb b'0' d && leb d b'9')) [
  | inl good ↦ rw good (digits_value-none (v * 10 + (d - b'0')) ds (rw (good, all_digits) at h))
  | inr bad ↦ rw bad refl
]

-- A sign that keeps the numbers up to `max`, and no other, inside an int64.
record Bounded (sign : ℕ → ℤ) (max : ℕ) : Type 0 where
  fits : (n : ℕ) → n ≤ max → IsInt 64 (sign n)
  exceeds : (n : ℕ) → max < n → ¬ IsInt 64 (sign n)

pos-Bounded : Bounded pos int64_max
pos-Bounded = record { fits = λ n h. omega arith; exceeds = λ n h k. omega arith }

neg-Bounded : Bounded neg (int64_max + 1)
neg-Bounded = record { fits = fits; exceeds = exceeds }
  where
    fits : (n : ℕ) → n ≤ int64_max + 1 → IsInt 64 (neg n)
    fits zero h = omega arith
    fits (suc n) h = omega arith

    exceeds : (n : ℕ) → int64_max + 1 < n → ¬ IsInt 64 (neg n)
    exceeds zero h k = omega arith
    exceeds (suc n) h k = omega arith

number-Answers :
    (sign : ℕ → ℤ) (max : ℕ) (ds : List ℕ)
    → Bounded sign max
    → Answers
        (with_sign sign (digits_value 0 ds))
        (signed sign (number 10 decimal_digit max overflow_int64 invalid_int64 0 ds))
unfolding number
number-Answers sign max ds b = elim (Bool-cases (all_digits 10 decimal_digit ds)) [
  | inl digits ↦ elim (Bool-cases (ltb max (leading 10 decimal_digit 0 ds))) [
    | inl big ↦
        rw (digits_value-leading 0 ds digits, big)
          (inr (b.exceeds _ (ltb→lt max (leading 10 decimal_digit 0 ds) big), refl))
    | inr small ↦
        rw (digits_value-leading 0 ds digits, small, digits)
          (inl (b.fits _ (ltb_false→le max (leading 10 decimal_digit 0 ds) small), refl))
  ]
  | inr other ↦ elim (Bool-cases (ltb max (leading 10 decimal_digit 0 ds))) [
    | inl big ↦ rw (digits_value-none 0 ds other, big) (overflow_int64, refl)
    | inr small ↦ rw (digits_value-none 0 ds other, small, other) (invalid_int64, refl)
  ]
]

decimal-Answers : (b : List ℕ) → is_plus b ≡ false → Answers (decimal_text b) (decimal b)
decimal-Answers [] h = (invalid_uint64, refl)
decimal-Answers (d ∷ []) h = elim (Bool-cases (d == b'-')) [
  | inl minus ↦ rw minus (invalid_uint64, refl)
  | inr other ↦ rw (other, h) (number-Answers pos int64_max (d ∷ []) pos-Bounded)
]
decimal-Answers (d ∷ c ∷ ds) h = elim (Bool-cases (d == b'-')) [
  | inl minus ↦ rw minus (number-Answers neg (int64_max + 1) (c ∷ ds) neg-Bounded)
  | inr other ↦ rw (other, h) (number-Answers pos int64_max (d ∷ c ∷ ds) pos-Bounded)
]

-- For every text that does not begin with a plus sign, ParseInt, whose sums wrap, answers as its
-- comment says: it returns the number that digits behind a minus sign or none stand for where it fits
-- into an int64, an overflow where it does not, and an error where the text names no number, which of
-- the two is left open.
pub parse_int-Answers : (b : List ℕ) → is_plus b ≡ false → Answers (decimal_text b) (parse_int b)
parse_int-Answers b h =
    subst (Answers (decimal_text b)) (sym (parse_int-decimal b)) (decimal-Answers b h)
