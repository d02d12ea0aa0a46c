-- ===== src/Objutil/Int/Print.antt =====
-- ParseInt on what AppendInt of strconv prints.
use objconv.Prelude.{
  ℕ, zero, suc, ◌+◌, ◌-◌, ◌/◌, ◌%◌, ◌≤◌, ◌==◌, ◌≡◌, refl, ap, ◌∙◌, List, [], ◌∷◌, true, false,
  arith, ne→==, ◌≢◌, ℕ_discrete, if◌then◌else◌,
}
use objconv.Prelude.Int.{ℤ, pos, negsuc, neg, IsInt}
use objconv.Go.Outcome.{ok}
use objconv.Go.Strconv.{append_int, append_uint, digits_loop}
use objconv.Objutil.Limits.{int64_max}
use objconv.Objutil.Int.{is_digit, parse_int}
use objconv.Objutil.Int.Laws.{parse_int-decimal}
use objconv.Objutil.Int.Reference.{decimal, signed, from, from-nil, from-cons}

-- Nothing but digits.
abbrev pub AllDigits : List ℕ → Type 0
AllDigits [] = Unit
AllDigits (d ∷ ds) = (is_digit d ≡ true) × AllDigits ds

pub digit_lem : (v : ℕ) → is_digit (v % 10 + b'0') ≡ true
digit_lem v = ground arith

module _ (P : List ℕ → Type 0) (step : (v : ℕ) (t : List ℕ) → P t → P ((v % 10 + b'0') ∷ t)) where
  -- What a digit in front keeps, the digits in front keep.
  digits_loop_lem : (f v : ℕ) (t : List ℕ) → P t → P (digits_loop f v t)
  unfolding digits_loop
  digits_loop_lem zero v t h = h
  digits_loop_lem (suc f) v t h =
      elim (v == 0) as (λ b. P (if b then t else digits_loop f (v / 10) ((v % 10 + b'0') ∷ t))) [
        | true ↦ h
        | false ↦ digits_loop_lem f (v / 10) ((v % 10 + b'0') ∷ t) (step v t h)
      ]

-- A digit, and then nothing but digits.
abbrev pub Number : List ℕ → Type 0
Number [] = ⊥
Number (d ∷ ds) = (is_digit d ≡ true) × AllDigits ds

pub Number-AllDigits : (ds : List ℕ) → Number ds → AllDigits ds
Number-AllDigits [] h = tt
Number-AllDigits (d ∷ ds) h = h

digits_loop_start :
    (v : ℕ) → v ≢ 0 → digits_loop v v [] ≡ digits_loop (v - 1) (v / 10) ((v % 10 + b'0') ∷ [])
unfolding digits_loop
digits_loop_start zero h = absurd (h refl)
digits_loop_start (suc f) h = rw (ne→== (suc f) 0 h, suc_pred) refl
  where
    suc_pred : suc f - 1 ≡ f
    suc_pred = omega arith

pub append_uint-Number : (v : ℕ) → Number (append_uint v)
unfolding append_uint
append_uint-Number v = elim (ℕ_discrete v 0) [
  | yes z ↦ rw z (refl, tt)
  | no nz ↦
      rw (ne→== v 0 nz, digits_loop_start v nz)
        (digits_loop_lem Number (λ u t h. (digit_lem u, Number-AllDigits t h)) (v - 1) (v / 10)
          ((v % 10 + b'0') ∷ []) (digit_lem v, tt))
]

from-digits_loop :
    (max f v : ℕ) (t : List ℕ) → v ≤ f → from max 0 (digits_loop f v t) ≡ from max v t
unfolding digits_loop
from-digits_loop max zero v t h = ap (λ (u : ℕ). from max u t) (omega arith)
from-digits_loop max (suc f) v t h = elim (ℕ_discrete v 0) [
  | yes z ↦ rw z refl
  | no nz ↦ rw (ne→== v 0 nz) (
      from-digits_loop max f (v / 10) ((v % 10 + b'0') ∷ t) (omega arith)
      ∙ from-cons max (v / 10) (v % 10 + b'0') t (digit_lem v)
      ∙ ap (λ (u : ℕ). from max u t) (omega arith))
]

from-append_uint : (max v : ℕ) → v ≤ max → from max 0 (append_uint v) ≡ ok v
unfolding append_uint
from-append_uint max v h = elim (ℕ_discrete v 0) [
  | yes z ↦ rw z (from-cons max 0 b'0' [] refl ∙ from-nil max 0 (omega arith))
  | no nz ↦ rw (ne→== v 0 nz) (from-digits_loop max v v [] (omega arith) ∙ from-nil max v h)
]

not_minus : (d : ℕ) → is_digit d ≡ true → (d == b'-') ≡ false
not_minus d e = ground arith

decimal-Number : (ds : List ℕ) → Number ds → decimal ds ≡ signed pos (from int64_max 0 ds)
decimal-Number [] h = absurd h
decimal-Number (d ∷ []) h = rw (not_minus d h.0) refl
decimal-Number (d ∷ c ∷ ds) h = rw (not_minus d h.0) refl

decimal-minus :
    (ds : List ℕ) → Number ds → decimal (b'-' ∷ ds) ≡ signed neg (from (int64_max + 1) 0 ds)
decimal-minus [] h = absurd h
decimal-minus (d ∷ ds) h = refl

-- An int64 that AppendInt prints is read back by ParseInt.
pub parse_int-append_int : (v : ℤ) → IsInt 64 v → parse_int (append_int v) ≡ ok v
unfolding append_int
parse_int-append_int (pos n) h =
    parse_int-decimal (append_uint n)
    ∙ decimal-Number (append_uint n) (append_uint-Number n)
    ∙ ap (signed pos) (from-append_uint int64_max n (omega arith))
parse_int-append_int (negsuc n) h =
    parse_int-decimal (b'-' ∷ append_uint (n + 1))
    ∙ decimal-minus (append_uint (n + 1)) (append_uint-Number (n + 1))
    ∙ ap (signed neg) (from-append_uint (int64_max + 1) (n + 1) (omega arith))
    ∙ ap (λ k. ok (neg k)) next
  where
    next : n + 1 ≡ suc n
    next = omega arith
