-- ===== src/Msgpack/Parse/Scalars.antt =====
-- The other scalars read back: ParseNil, ParseBool, ParseUint and ParseFloat.
use objconv.Prelude.{
  ℕ, ◌%◌, ◌^◌, ◌≤◌, ◌<◌, ◌≡◌, ◌≢◌, refl, ap, length, List, [], ◌∷◌, ◌++◌, arith, Bool, true, false,
  dec_le, ◌==◌,
}
use objconv.Prelude.Bytes.{
  put_uint16, put_uint32, put_uint64, get_uint32, get_uint64, get_uint32-put_uint32,
  get_uint64-put_uint64,
}
use objconv.Go.Outcome.{ok, pure, Returns, Returns-eq}
use objconv.Go.Io.{Reader}
use objconv.Go.Float.{Floats}
use objconv.Types.{ValueType}
use objconv.Msgpack.Tag
use objconv.Msgpack.Emit.{nil_bytes, bool_bytes, uint_bytes, float_bytes}
use objconv.Msgpack.Parse.{
  Parser, type_of_tag, parse_nil, parse_bool, parse_uint, parse_float, uint_width, uint_value,
}
use objconv.Msgpack.Parse.Laws.{At, fixed_lem, skip_front, typed, typed_lem, typed_step}

module _ {R : Type 0} ⦃io : Reader R⦄ where
  -- At the front of the stream of a parser whose buffer is in order, the byte that EmitNil writes
  -- makes ParseType answer Nil and ParseNil succeed, and exactly this byte is consumed.
  pub parse_nil-nil_bytes :
      (ys : List ℕ) (p : Parser R) {k : ℕ}
      → At k (nil_bytes ++ ys) p
      → Returns (typed parse_nil p) (ValueType.nil, tt) (At 0 ys)
  unfolding parse_nil type_of_tag
  parse_nil-nil_bytes ys p h =
      typed_lem parse_nil Tag.nil ys ValueType.nil p h (λ q. refl)
        λ q a. skip_front nil_bytes ys 1 0 q a (omega arith) refl

  -- At the front of the stream of a parser whose buffer is in order, the byte that EmitBool
  -- writes makes ParseType answer Bool and ParseBool return the value, and exactly this byte is
  -- consumed.
  pub parse_bool-bool_bytes :
      (v : Bool) (ys : List ℕ) (p : Parser R) {k : ℕ}
      → At k (bool_bytes v ++ ys) p
      → Returns (typed parse_bool p) (ValueType.bool, v) (At 0 ys)
  unfolding parse_bool type_of_tag
  parse_bool-bool_bytes true ys p h =
      typed_step parse_bool (λ b. pure (b == Tag.true)) Tag.true [] ys (bool_bytes true)
        ValueType.bool p h (λ q. refl) refl (λ q. refl)
        λ q a. record { state = q; computes = refl; post = a }
  parse_bool-bool_bytes false ys p h =
      typed_step parse_bool (λ b. pure (b == Tag.true)) Tag.false [] ys (bool_bytes false)
        ValueType.bool p h (λ q. refl) refl (λ q. refl)
        λ q a. record { state = q; computes = refl; post = a }

  typed_uint :
      (tag n : ℕ) (xs ys bs : List ℕ) (v : ℕ) (p : Parser R) {k : ℕ}
      → At k (bs ++ ys) p
      → bs ≡ tag ∷ xs
      → ((q : Parser R) → type_of_tag tag q ≡ (ok ValueType.uint, q))
      → uint_width tag ≡ n
      → length xs ≡ n
      → n ≤ 8
      → uint_value n xs ≡ v
      → Returns (typed parse_uint p) (ValueType.uint, v) (At 0 ys)
  unfolding parse_uint
  typed_uint tag n xs ys bs v p h e known w l small is =
      typed_step parse_uint _ tag xs ys bs ValueType.uint p h (λ q. refl) e known
        λ q a. rw w (Returns-eq is (fixed_lem (uint_value n) xs ys n q a l (omega arith)))

  -- At the front of the stream of a parser whose buffer is in order, the bytes that EmitUint
  -- writes for a uint64 make ParseType answer Uint and ParseUint return the number, and exactly
  -- these bytes are consumed.
  pub parse_uint-uint_bytes :
      (v : ℕ) (ys : List ℕ) (p : Parser R) {k : ℕ}
      → v < 2 ^ 64
      → At k (uint_bytes v ++ ys) p
      → Returns (typed parse_uint p) (ValueType.uint, v) (At 0 ys)
  unfolding type_of_tag uint_width uint_value
  parse_uint-uint_bytes v ys p fits h = elim (dec_le v 255) [
    | yes a ↦
        typed_uint Tag.uint8 1 ((v % 2 ^ 8) ∷ []) ys (uint_bytes v) v p h
          (unfold uint_bytes in ground arith) (λ q. refl) refl refl (omega arith) (ground arith)
    | no a ↦ elim (dec_le v 65535) [
      | yes b ↦
          typed_uint Tag.uint16 2 (put_uint16 (v % 2 ^ 16)) ys (uint_bytes v) v p h
            (unfold uint_bytes in ground arith) (λ q. refl) refl refl (omega arith) (ground arith)
      | no b ↦ elim (dec_le v 4294967295) [
        | yes c ↦
            typed_uint Tag.uint32 4 (put_uint32 (v % 2 ^ 32)) ys (uint_bytes v) v p h
              (unfold uint_bytes in ground arith) (λ q. refl) refl refl (omega arith) (ground arith)
        | no c ↦
            typed_uint Tag.uint64 8 (put_uint64 v) ys (uint_bytes v) v p h
              (unfold uint_bytes in ground arith) (λ q. refl) refl refl (omega arith) (ground arith)
      ]
    ]
  ]

  -- At the front of the stream of a parser whose buffer is in order, the bytes that EmitFloat
  -- writes for a float64 and a bit size other than 32 make ParseType answer Float and ParseFloat
  -- return the same bit pattern, and exactly these bytes are consumed.
  pub parse_float-float_bytes :
      ⦃fl : Floats⦄ (v bit_size : ℕ) (ys : List ℕ) (p : Parser R) {k : ℕ}
      → bit_size ≢ 32
      → v < 2 ^ 64
      → At k (float_bytes v bit_size ++ ys) p
      → Returns (typed parse_float p) (ValueType.float, v) (At 0 ys)
  unfolding parse_float type_of_tag
  parse_float-float_bytes ⦃fl⦄ v bit_size ys p ne fits h =
      typed_step parse_float _ Tag.float64 (put_uint64 v) ys (float_bytes v bit_size)
        ValueType.float p h (λ q. refl) (ground arith) (λ q. refl)
        λ q a.
          Returns-eq (get_uint64-put_uint64 v fits)
            (fixed_lem get_uint64 (put_uint64 v) ys 8 q a refl (omega arith))

  -- At the front of the stream of a parser whose buffer is in order, the bytes that EmitFloat
  -- writes for a bit size of 32, where the narrowed value has 32 bits, make ParseType answer
  -- Float and ParseFloat return the narrowed value, widened, and exactly these bytes are
  -- consumed.
  pub parse_float-float_bytes_32 :
      ⦃fl : Floats⦄ (v : ℕ) (ys : List ℕ) (p : Parser R) {k : ℕ}
      → fl.narrow v < 2 ^ 32
      → At k (float_bytes v 32 ++ ys) p
      → Returns (typed parse_float p) (ValueType.float, fl.widen (fl.narrow v)) (At 0 ys)
  unfolding parse_float type_of_tag
  parse_float-float_bytes_32 ⦃fl⦄ v ys p fits h =
      typed_step parse_float _ Tag.float32 (put_uint32 (fl.narrow v)) ys (float_bytes v 32)
        ValueType.float p h (λ q. refl) refl (λ q. refl)
        λ q a. Returns-eq (ap fl.widen (get_uint32-put_uint32 (fl.narrow v) fits)) (
          fixed_lem (λ b. fl.widen (get_uint32 b)) (put_uint32 (fl.narrow v)) ys 4 q a refl
            (omega arith))
