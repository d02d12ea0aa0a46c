-- ===== src/Decode/Scalars/Laws.antt =====
-- Numbers decoded into variables of smaller types: the bounds of decode.go and objutil/limits.go.
use objconv.Prelude.{
  ℕ, ◌-◌, ◌^◌, ◌<◌, ◌≡◌, ◌≢◌, ◌⊎◌, inl, inr, refl, ap, subst, dec_lt, List, Option, none, some,
  arith,
}
use objconv.Prelude.Int.{ℤ, pos, negsuc, to_word, of_word, IsInt}
use objconv.Go.Outcome.{Error, Outcome, ok, err}
use objconv.Go.Strconv.{IntFormat}
use objconv.Objutil.Limits.{check_int64_bounds, check_uint64_bounds}
use objconv.Parse.{Parser}
use objconv.Types.{ValueType}
use objconv.Value.{IntKind, UintKind}
use objconv.Decode.Scalars.{
  int_width, uint_width, set_int, set_uint, or_error, check_int, check_int_of_uint,
  check_uint_of_int, int_of_type, uint_of_type,
}

-- What a variable holds fits it.
set_int-IsInt : (k : IntKind) (i : ℤ) → IsInt (int_width k) (set_int k i)
set_int-IsInt IntKind.int (pos n) = ground arith
set_int-IsInt IntKind.int (negsuc n) = ground arith
set_int-IsInt IntKind.int8 (pos n) = ground arith
set_int-IsInt IntKind.int8 (negsuc n) = ground arith
set_int-IsInt IntKind.int16 (pos n) = ground arith
set_int-IsInt IntKind.int16 (negsuc n) = ground arith
set_int-IsInt IntKind.int32 (pos n) = ground arith
set_int-IsInt IntKind.int32 (negsuc n) = ground arith
set_int-IsInt IntKind.int64 (pos n) = ground arith
set_int-IsInt IntKind.int64 (negsuc n) = ground arith

set_int-ne : (k : IntKind) (i : ℤ) → ¬ IsInt (int_width k) i → set_int k i ≢ i
set_int-ne k i no_fit e = no_fit (subst (IsInt (int_width k)) e (set_int-IsInt k i))

-- A value that fits the variable is stored as it is.
set_int_lem : (k : IntKind) (i : ℤ) → IsInt (int_width k) i → set_int k i ≡ i
set_int_lem IntKind.int (pos n) h = ground arith
set_int_lem IntKind.int (negsuc n) h = ground arith
set_int_lem IntKind.int8 (pos n) h = ground arith
set_int_lem IntKind.int8 (negsuc n) h = ground arith
set_int_lem IntKind.int16 (pos n) h = ground arith
set_int_lem IntKind.int16 (negsuc n) h = ground arith
set_int_lem IntKind.int32 (pos n) h = ground arith
set_int_lem IntKind.int32 (negsuc n) h = ground arith
set_int_lem IntKind.int64 (pos n) h = ground arith
set_int_lem IntKind.int64 (negsuc n) h = ground arith

check_int-fits : (k : IntKind) (i : ℤ) → IsInt (int_width k) i → check_int (some k) i ≡ none
unfolding check_int check_int64_bounds
check_int-fits IntKind.int (pos n) h = ground arith
check_int-fits IntKind.int (negsuc n) h = ground arith
check_int-fits IntKind.int8 (pos n) h = ground arith
check_int-fits IntKind.int8 (negsuc n) h = ground arith
check_int-fits IntKind.int16 (pos n) h = ground arith
check_int-fits IntKind.int16 (negsuc n) h = ground arith
check_int-fits IntKind.int32 (pos n) h = ground arith
check_int-fits IntKind.int32 (negsuc n) h = ground arith
check_int-fits IntKind.int64 i h = refl

-- A check that fails.
abbrev pub Refused : Option Error → Type 0
Refused none = ⊥
Refused (some e) = Unit

check_int-Refused :
    (k : IntKind) (i : ℤ) → IsInt 64 i → ¬ IsInt (int_width k) i → Refused (check_int (some k) i)
unfolding check_int check_int64_bounds
check_int-Refused IntKind.int i h no_fit = absurd (no_fit h)
check_int-Refused IntKind.int8 (pos n) h no_fit = ground arith
check_int-Refused IntKind.int8 (negsuc n) h no_fit = ground arith
check_int-Refused IntKind.int16 (pos n) h no_fit = ground arith
check_int-Refused IntKind.int16 (negsuc n) h no_fit = ground arith
check_int-Refused IntKind.int32 (pos n) h no_fit = ground arith
check_int-Refused IntKind.int32 (negsuc n) h no_fit = ground arith
check_int-Refused IntKind.int64 i h no_fit = absurd (no_fit h)

below_or_not : (n m : ℕ) → (n < m) ⊎ (¬ (n < m))
below_or_not n m = elim (dec_lt n m) [ yes h ↦ inl h | no h ↦ inr h ]

-- An int64 fits a variable or not.
fits_or_not : (k : IntKind) (i : ℤ) → IsInt (int_width k) i ⊎ (¬ IsInt (int_width k) i)
fits_or_not k (pos n) = below_or_not n (2 ^ (int_width k - 1))
fits_or_not k (negsuc n) = below_or_not n (2 ^ (int_width k - 1))

-- A uint64 as the number of a signed variable.
set_int-nat : (k : IntKind) (u : ℕ) → IsInt (int_width k) (pos u) → set_int k (of_word 64 u) ≡ pos u
set_int-nat IntKind.int u h = ground arith
set_int-nat IntKind.int8 u h = ground arith
set_int-nat IntKind.int16 u h = ground arith
set_int-nat IntKind.int32 u h = ground arith
set_int-nat IntKind.int64 u h = ground arith

check_int_of_uint-fits :
    (k : IntKind) (u : ℕ) → IsInt (int_width k) (pos u) → check_int_of_uint (some k) u ≡ none
unfolding check_int_of_uint check_uint64_bounds
check_int_of_uint-fits IntKind.int u h = ground arith
check_int_of_uint-fits IntKind.int8 u h = ground arith
check_int_of_uint-fits IntKind.int16 u h = ground arith
check_int_of_uint-fits IntKind.int32 u h = ground arith
check_int_of_uint-fits IntKind.int64 u h = ground arith

check_int_of_uint-Refused :
    (k : IntKind) (u : ℕ) → ¬ IsInt (int_width k) (pos u) → Refused (check_int_of_uint (some k) u)
unfolding check_int_of_uint check_uint64_bounds
check_int_of_uint-Refused IntKind.int u h = ground arith
check_int_of_uint-Refused IntKind.int8 u h = ground arith
check_int_of_uint-Refused IntKind.int16 u h = ground arith
check_int_of_uint-Refused IntKind.int32 u h = ground arith
check_int_of_uint-Refused IntKind.int64 u h = ground arith

-- The signed values of an unsigned variable.
abbrev pub IsUint : ℕ → ℤ → Type 0
IsUint w (pos n) = n < 2 ^ w
IsUint w (negsuc n) = ⊥

IsUint-fits_or_not : (k : UintKind) (i : ℤ) → IsUint (uint_width k) i ⊎ (¬ IsUint (uint_width k) i)
IsUint-fits_or_not k (pos n) = below_or_not n (2 ^ uint_width k)
IsUint-fits_or_not k (negsuc n) = inr (λ h. h)

-- What a variable of an unsigned type holds of a signed value.
set_uint-word :
    (k : UintKind) (i : ℤ) (n : ℕ)
    → i ≡ pos n
    → IsUint (uint_width k) (pos n)
    → set_uint k (to_word 64 i) ≡ n
set_uint-word UintKind.uint i n e h = rw e (omega arith)
set_uint-word UintKind.uint8 i n e h = rw e (omega arith)
set_uint-word UintKind.uint16 i n e h = rw e (omega arith)
set_uint-word UintKind.uint32 i n e h = rw e (omega arith)
set_uint-word UintKind.uint64 i n e h = rw e (omega arith)
set_uint-word UintKind.uintptr i n e h = rw e (omega arith)

check_uint_of_int-fits :
    (k : UintKind) (n : ℕ)
    → n < 2 ^ 63
    → n < 2 ^ uint_width k
    → check_uint_of_int (some k) (pos n) ≡ none
unfolding check_uint_of_int check_int64_bounds
check_uint_of_int-fits UintKind.uint n h f = ground arith
check_uint_of_int-fits UintKind.uint8 n h f = ground arith
check_uint_of_int-fits UintKind.uint16 n h f = ground arith
check_uint_of_int-fits UintKind.uint32 n h f = ground arith
check_uint_of_int-fits UintKind.uint64 n h f = ground arith
check_uint_of_int-fits UintKind.uintptr n h f = refl

check_uint_of_int-Refused :
    (k : UintKind) (i : ℤ)
    → k ≢ UintKind.uintptr
    → IsInt 64 i
    → ¬ IsUint (uint_width k) i
    → Refused (check_uint_of_int (some k) i)
unfolding check_uint_of_int check_int64_bounds
check_uint_of_int-Refused UintKind.uint (pos n) c h no_fit = ground arith
check_uint_of_int-Refused UintKind.uint (negsuc n) c h no_fit = tt
check_uint_of_int-Refused UintKind.uint8 (pos n) c h no_fit = ground arith
check_uint_of_int-Refused UintKind.uint8 (negsuc n) c h no_fit = tt
check_uint_of_int-Refused UintKind.uint16 (pos n) c h no_fit = ground arith
check_uint_of_int-Refused UintKind.uint16 (negsuc n) c h no_fit = tt
check_uint_of_int-Refused UintKind.uint32 (pos n) c h no_fit = ground arith
check_uint_of_int-Refused UintKind.uint32 (negsuc n) c h no_fit = tt
check_uint_of_int-Refused UintKind.uint64 (pos n) c h no_fit = ground arith
check_uint_of_int-Refused UintKind.uint64 (negsuc n) c h no_fit = tt
check_uint_of_int-Refused UintKind.uintptr i c h no_fit = absurd (c refl)

-- A call that ends in an error, with the parser in the state `q`.
abbrev pub FailsAt : {A P : Type 0} → Outcome A × P → P → Type 0
FailsAt {A} r q = (e : Error) × (r ≡ (err e, q))

or_error-FailsAt :
    {A P : Type 0} (o : Option Error) (a : A) (q : P) → Refused o → FailsAt (or_error o a q) q
or_error-FailsAt none a q h = absurd h
or_error-FailsAt (some e) a q h = (e, refl)

module _ {P : Type 0} (ps : Parser P) ⦃num : IntFormat⦄ where
  -- The integer that the parser reads is stored in a variable of any signed type exactly where it
  -- fits it: where it does not, the decoder fails behind the value.
  pub int_of_type-int :
      (k : IntKind) (i : ℤ) (p q : P)
      → ps.parse_int p ≡ (ok i, q)
      → IsInt 64 i
      → (IsInt (int_width k) i × (int_of_type ps (some k) ValueType.int p ≡ (ok (some i), q)))
        ⊎ ((¬ IsInt (int_width k) i) × FailsAt (int_of_type ps (some k) ValueType.int p) q)
  unfolding int_of_type
  int_of_type-int k i p q parsed h = elim (fits_or_not k i) [
    | inl fit ↦ inl (
      fit,
      rw (parsed, check_int-fits k i fit) (ap (λ v. (ok (some v), q)) (set_int_lem k i fit)),
    )
    | inr no_fit ↦ inr (no_fit, rw parsed (or_error-FailsAt _ _ q (check_int-Refused k i h no_fit)))
  ]

  -- The same of an unsigned integer that the parser reads.
  pub int_of_type-uint :
      (k : IntKind) (u : ℕ) (p q : P)
      → ps.parse_uint p ≡ (ok u, q)
      → (IsInt (int_width k) (pos u)
          × (int_of_type ps (some k) ValueType.uint p ≡ (ok (some (pos u)), q)))
        ⊎ ((¬ IsInt (int_width k) (pos u)) × FailsAt (int_of_type ps (some k) ValueType.uint p) q)
  unfolding int_of_type
  int_of_type-uint k u p q parsed = elim (fits_or_not k (pos u)) [
    | inl fit ↦ inl (
      fit,
      rw (parsed, check_int_of_uint-fits k u fit)
          (ap (λ v. (ok (some v), q)) (set_int-nat k u fit)),
    )
    | inr no_fit ↦
        inr (no_fit, rw parsed (or_error-FailsAt _ _ q (check_int_of_uint-Refused k u no_fit)))
  ]

  uint_fits :
      (k : UintKind) (i : ℤ) (p q : P)
      → ps.parse_int p ≡ (ok i, q)
      → IsInt 64 i
      → IsUint (uint_width k) i
      → (n : ℕ) × (i ≡ pos n)
        × (n < 2 ^ uint_width k)
        × (uint_of_type ps (some k) ValueType.int p ≡ (ok (some n), q))
  unfolding uint_of_type
  uint_fits k (pos n) p q parsed h fit = (
    n,
    refl,
    fit,
    rw (parsed, check_uint_of_int-fits k n h fit)
        (ap (λ v. (ok (some v), q)) (set_uint-word k (pos n) n refl fit)),
  )
  uint_fits k (negsuc n) p q parsed h fit = absurd fit

  -- A number in a text is stored without a check: where it does not fit the variable, the decoder
  -- succeeds with another number.
  pub int_of_type-text :
      (k : IntKind) (b : List ℕ) (i : ℤ) (p q : P)
      → ps.items.parse_string p ≡ (ok b, q)
      → num.parse_int b ≡ some i
      → ¬ IsInt (int_width k) i
      → (j : ℤ) × (j ≢ i) × (int_of_type ps (some k) ValueType.string p ≡ (ok (some j), q))
  unfolding int_of_type
  int_of_type-text k b i p q parsed e no_fit =
      (set_int k i, set_int-ne k i no_fit, rw (parsed, e) refl)

  -- The signed integer that the parser reads is stored in a variable of any unsigned type but
  -- uintptr exactly where it is one of its values.
  pub uint_of_type-int :
      (k : UintKind) (i : ℤ) (p q : P)
      → k ≢ UintKind.uintptr
      → ps.parse_int p ≡ (ok i, q)
      → IsInt 64 i
      → ((n : ℕ) × (i ≡ pos n)
          × (n < 2 ^ uint_width k)
          × (uint_of_type ps (some k) ValueType.int p ≡ (ok (some n), q)))
        ⊎ ((¬ IsUint (uint_width k) i) × FailsAt (uint_of_type ps (some k) ValueType.int p) q)
  unfolding uint_of_type
  uint_of_type-int k i p q c parsed h = elim (IsUint-fits_or_not k i) [
    | inl fit ↦ inl (uint_fits k i p q parsed h fit)
    | inr no_fit ↦
        inr (no_fit, rw parsed (or_error-FailsAt _ _ q (check_uint_of_int-Refused k i c h no_fit)))
  ]
