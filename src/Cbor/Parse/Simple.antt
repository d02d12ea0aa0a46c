-- ===== src/Cbor/Parse/Simple.antt =====
-- Simple values and floats read back.
use objconv.Prelude.{
  ℕ, ◌^◌, ◌<◌, ◌≡◌, ◌≢◌, refl, ap, List, [], ◌∷◌, ◌++◌, arith, ne→==, Bool, true, false,
}
use objconv.Prelude.Bytes.{
  put_uint32, put_uint64, get_uint32, get_uint64, get_uint32-put_uint32, get_uint64-put_uint64,
}
use objconv.Go.Outcome.{Returns, Returns-after, Returns-eq}
use objconv.Go.Io.{Reader}
use objconv.Go.Float.{Floats}
use objconv.Types.{ValueType}
use objconv.Cbor.Major.{
  no_tag, major_byte, major_type, minor_value, sv_null, sv_true, sv_false, sv_extension, sv_float32,
  sv_float64,
}
use objconv.Cbor.Emit.{null_bytes, simple_bytes, simple_float_bytes}
use objconv.Cbor.State.{Parser}
use objconv.Cbor.Parse.{parse_type7, parse_nil, parse_bool, parse_float, parse_type_loop, attempt}
use objconv.Cbor.Parse.Laws.{
  Moved, peek_lem, skip_front, typed, typed_lem, settle, recode, minor_value-major_byte,
}

module _ {R : Type 0} ⦃io : Reader R⦄ where
  parse_type7_lem :
      (b : ℕ) (ys : List ℕ) {k : ℕ} {p : Parser R} (q : Parser R)
      → b < 32
      → b ≢ sv_extension
      → Moved p k (major_byte 7 b ∷ ys) q
      → Returns (parse_type7 q) b (Moved p 0 ys)
  unfolding parse_type7
  parse_type7_lem b ys q small ne h =
      Returns-after _ (peek_lem (major_byte 7 b ∷ []) ys 1 q h refl (omega arith)) λ r a.
        rw (minor_value-major_byte 7 b (omega arith) small, ne→== b sv_extension ne)
          (Returns-after _ (skip_front (major_byte 7 b ∷ []) ys 1 0 r a (omega arith) refl)
            λ s c. record { state = s; computes = refl; post = c })

  -- At the front of the stream of a parser that is in order and has no tag, the byte that EmitNil
  -- writes makes ParseType answer Nil and ParseNil succeed, and exactly this byte is consumed.
  pub parse_nil-null_bytes :
      (ys : List ℕ) {k : ℕ} {p : Parser R} (q : Parser R)
      → p.tag ≡ no_tag
      → Moved p k (null_bytes ++ ys) q
      → Returns (typed parse_nil q) (ValueType.nil, tt) (Moved p 0 ys)
  unfolding parse_type_loop major_type minor_value major_byte parse_nil
  parse_nil-null_bytes ys q idle h =
      typed_lem parse_nil (major_byte 7 sv_null) ys ValueType.nil q h idle (λ r c. rw c)
        λ r a.
          let x = parse_type7_lem sv_null ys r (omega arith) (omega arith) a in
          let y = settle tt x.state x.post idle in
          record { state = y.state; computes = rw (x.computes, attempt) y.computes; post = y.post }

  -- At the front of the stream of a parser that is in order and has no tag, the byte that EmitBool
  -- writes makes ParseType answer Bool and ParseBool return the value, and exactly this byte is
  -- consumed.
  pub parse_bool-simple_bytes :
      (v : Bool) (ys : List ℕ) {k : ℕ} {p : Parser R} (q : Parser R)
      → p.tag ≡ no_tag
      → Moved p k (simple_bytes v ++ ys) q
      → Returns (typed parse_bool q) (ValueType.bool, v) (Moved p 0 ys)
  unfolding parse_type_loop major_type minor_value major_byte parse_bool
  parse_bool-simple_bytes true ys q idle h =
      typed_lem parse_bool (major_byte 7 sv_true) ys ValueType.bool q h idle (λ r c. rw c)
        λ r a.
          Returns-after _ (parse_type7_lem sv_true ys r (omega arith) (omega arith) a)
            λ s b. settle true s b idle
  parse_bool-simple_bytes false ys q idle h =
      typed_lem parse_bool (major_byte 7 sv_false) ys ValueType.bool q h idle (λ r c. rw c)
        λ r a.
          Returns-after _ (parse_type7_lem sv_false ys r (omega arith) (omega arith) a)
            λ s b. settle false s b idle

  -- At the front of the stream of a parser that is in order and has no tag, the bytes that EmitFloat
  -- writes for a float64 and a bit size other than 32 make ParseType answer Float and ParseFloat
  -- return the same bit pattern, and exactly these bytes are consumed.
  pub parse_float-simple_bytes :
      ⦃fl : Floats⦄ (v bit_size : ℕ) (ys : List ℕ) {k : ℕ} {p : Parser R} (q : Parser R)
      → bit_size ≢ 32
      → v < 2 ^ 64
      → p.tag ≡ no_tag
      → Moved p k (simple_float_bytes v bit_size ++ ys) q
      → Returns (typed parse_float q) (ValueType.float, v) (Moved p 0 ys)
  unfolding parse_type_loop major_type minor_value major_byte parse_float
  parse_float-simple_bytes v bit_size ys q ne fits idle h =
      let e : simple_float_bytes v bit_size ≡ major_byte 7 sv_float64 ∷ put_uint64 v =
        rw (ne→== bit_size 32 ne) in
      typed_lem parse_float (major_byte 7 sv_float64) (put_uint64 v ++ ys) ValueType.float q
        (recode e ys q h) idle (λ r c. rw c)
        λ r a.
          Returns-after _
            (parse_type7_lem sv_float64 (put_uint64 v ++ ys) r (omega arith) (omega arith) a)
            λ s b. Returns-after _ (peek_lem (put_uint64 v) ys 8 s b refl (omega arith)) λ t c.
              Returns-after _ (skip_front (put_uint64 v) ys 8 0 t c (omega arith) refl) λ u d.
                Returns-eq (get_uint64-put_uint64 v fits)
                  (settle (get_uint64 (put_uint64 v)) u d idle)

  -- At the front of the stream of a parser that is in order and has no tag, the bytes that EmitFloat
  -- writes for a bit size of 32, where the narrowed value has 32 bits, make ParseType answer Float
  -- and ParseFloat return the narrowed value, widened, and exactly these bytes are consumed.
  pub parse_float-simple_bytes_32 :
      ⦃fl : Floats⦄ (v : ℕ) (ys : List ℕ) {k : ℕ} {p : Parser R} (q : Parser R)
      → fl.narrow v < 2 ^ 32
      → p.tag ≡ no_tag
      → Moved p k (simple_float_bytes v 32 ++ ys) q
      → Returns (typed parse_float q) (ValueType.float, fl.widen (fl.narrow v)) (Moved p 0 ys)
  unfolding parse_type_loop major_type minor_value major_byte parse_float
  parse_float-simple_bytes_32 ⦃fl⦄ v ys q fits idle h =
      let xs : List ℕ = put_uint32 (fl.narrow v) in
      typed_lem parse_float (major_byte 7 sv_float32) (xs ++ ys) ValueType.float q h idle
        (λ r c. rw c)
        λ r a.
          Returns-after _ (parse_type7_lem sv_float32 (xs ++ ys) r (omega arith) (omega arith) a)
            λ s b. Returns-after _ (peek_lem xs ys 4 s b refl (omega arith)) λ t c.
              Returns-after _ (skip_front xs ys 4 0 t c (omega arith) refl) λ u d.
                Returns-eq (ap fl.widen (get_uint32-put_uint32 (fl.narrow v) fits))
                  (settle (fl.widen (get_uint32 xs)) u d idle)
