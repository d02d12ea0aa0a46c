-- ===== src/Go/Outcome.antt =====
-- The outcome of a Go call, and the calls that change a state as a monad.
use objconv.Prelude.{ℕ, ◌≡◌, refl, subst, List}
use objconv.Prelude.Int.{ℤ}
use objconv.Types.{ValueType}

-- The errors that the packages return, without their texts, and those of package io.
pub data Error : Type 0 where
  eof unexpected_eof no_progress : Error
  end : Error
  write_failed : Error
  closed_pipe : Error
  too_many_values : ℕ → Error
  invalid_time_format : Error
  unsupported_extension : ℕ → Error
  unknown_tag : ℕ → Error
  unknown_extension : ℕ → Error
  invalid_timestamp_length : ℕ → Error
  invalid_extension_tag : ℕ → Error
  string_too_long : ℕ → Error
  bytes_too_long : ℕ → Error
  array_too_long : ℕ → Error
  map_too_long : ℕ → Error
  unknown_map_length : Error
  multiple_tags : Error
  indefinite_length : ℕ → Error
  unexpected_value : ℕ → Error
  length_overflow : ℕ → Error
  time_overflow : ℕ → Error
  invalid_time_major : ℕ → Error
  invalid_extended_value : ℕ → Error
  invalid_int64 overflow_int64 invalid_uint64 overflow_uint64 : Error
  type_conversion : ValueType → ValueType → Error
  no_nan no_positive_infinity no_negative_infinity : Error
  expected_token expected_boolean : ℕ → Error
  expected_item_end expected_pair_end : ℕ → Error
  expected_byte : ℕ → ℕ → Error
  expected_bytes : List ℕ → List ℕ → Error
  invalid_code_point : List ℕ → Error
  overflow_code_point : ℕ → Error
  invalid_float invalid_base64 : Error
  integer_overflow : ℕ → Error
  empty_line : Error
  unexpected_line : List ℕ → Error
  missing_crlf : List ℕ → Error
  overflows_maximum : ℕ → ℕ → Error
  overflows_minimum : ℤ → ℤ → Error
  invalid_number : List ℕ → Error
  invalid_time invalid_duration : List ℕ → Error
  unsupported_type : Error
  array_length_mismatch : ℕ → ℕ → Error

-- `panic` ends the program. `stuck` is no Go outcome: a loop of the model ran out of fuel.
pub data Outcome {ℓ} (A : Type ℓ) : Type ℓ where
  ok : A → Outcome A
  err : Error → Outcome A
  panic : Outcome A
  stuck : Outcome A

-- A call that reads and changes a state `S`, which an error leaves as far as it was changed.
abbrev pub M : Type 0 → Type 0 → Type 0
M S A = S → Outcome A × S

abbrev pub after : {S A B : Type 0} → Outcome A × S → (A → M S B) → Outcome B × S
after (ok a, s) f = f a s
after (err e, s) f = (err e, s)
after (panic, s) f = (panic, s)
after (stuck, s) f = (stuck, s)

infixl 5 ◌>>=◌ ◌>>◌
abbrev pub ◌>>=◌ : {S A B : Type 0} → M S A → (A → M S B) → M S B
◌>>=◌ m f s = after (m s) f

abbrev pub ◌>>◌ : {S B : Type 0} → M S (Unit {0}) → M S B → M S B
◌>>◌ m k s = after (m s) (λ _. k)

abbrev pub pure : {S A : Type 0} → A → M S A
pure a s = (ok a, s)

abbrev pub fail : {S A : Type 0} → Error → M S A
fail e s = (err e, s)

abbrev pub crash : {S A : Type 0} → M S A
crash s = (panic, s)

-- `r` is a success with the value `v`, and leaves a state that satisfies `Q`.
pub record Returns {S A : Type 0} (r : Outcome A × S) (v : A) (Q : S → Type 0) : Type 0 where
  pub state : S
  pub computes : r ≡ (ok v, state)
  pub post : Q state

-- `r` is the error `e`, and leaves a state that satisfies `Q`.
pub record Fails {S A : Type 0} (r : Outcome A × S) (e : Error) (Q : S → Type 0) : Type 0 where
  pub state : S
  pub computes : r ≡ (err e, state)
  pub post : Q state

-- A value may be replaced by an equal one.
pub Returns-eq :
    {S A : Type 0} {r : Outcome A × S} {Q : S → Type 0} {v w : A}
    → v ≡ w
    → Returns r v Q
    → Returns r w Q
Returns-eq {r = r} {Q = Q} e x = subst (λ u. Returns r u Q) e x

module _ {S A B : Type 0} {r : Outcome A × S} {Q : S → Type 0} {Q' : S → Type 0} where
  pub Returns-after :
      (f : A → M S B) {v : A} {w : B}
      → Returns r v Q
      → ((s : S) → Q s → Returns (f v s) w Q')
      → Returns (after r f) w Q'
  Returns-after f x next =
      let y = next x.state x.post in
      record { state = y.state; computes = rw x.computes y.computes; post = y.post }

  pub Fails-after :
      (f : A → M S B) {v : A} {e : Error}
      → Returns r v Q
      → ((s : S) → Q s → Fails (f v s) e Q')
      → Fails (after r f) e Q'
  Fails-after f x next =
      let y = next x.state x.post in
      record { state = y.state; computes = rw x.computes y.computes; post = y.post }

module _ {S A B : Type 0} {r : Outcome A × S} {Q : S → Type 0} where
  -- An error ends the rest.
  pub Fails-early : (f : A → M S B) {e : Error} → Fails r e Q → Fails (after r f) e Q
  Fails-early f x = record { state = x.state; computes = rw x.computes; post = x.post }

-- What a success of two calls in a row says of each.
pub record Both {S A B : Type 0} (r : Outcome A × S) (f : A → M S B) (v : Outcome B × S)
    : Type 0 where
  pub value : A
  pub state : S
  pub first : r ≡ (ok value, state)
  pub second : f value state ≡ v

pub after-Both :
    {S A B : Type 0} (r : Outcome A × S) (f : A → M S B) (b : B) (s : S)
    → after r f ≡ (ok b, s)
    → Both r f (ok b, s)
after-Both (ok a, t) f b s h = record { value = a; state = t; first = refl; second = h }
after-Both (err x, t) f b s h = absurd cc
after-Both (panic, t) f b s h = absurd cc
after-Both (stuck, t) f b s h = absurd cc
