-- ===== src/Msgpack/Values/Single.antt =====
-- Single values of MessagePack, presented to a decoder by the parser of msgpack/parse.go.
use objconv.Prelude.{ℕ, ◌^◌, ◌<◌, ◌≡◌, refl, ap, List, [], ◌++◌, length, arith}
use objconv.Go.Float.{Floats}
use objconv.Go.Io.{Reader}
use objconv.Go.Outcome.{ok, M, ◌>>=◌, pure, Returns, Returns-eq, after-Both}
use objconv.Decode.Values.Presents.{Presents, Reads, announced}
use objconv.Msgpack.Emit.{nil_bytes, string_header, bytes_header}
use objconv.Msgpack.Parse.{
  Parser, parse_type, parse_nil, parse_bool, parse_int, parse_uint, parse_float, parse_string,
  parse_bytes, parse_time,
}
use objconv.Msgpack.Parse.Instants.{parse_time-time_bytes}
use objconv.Msgpack.Parse.Laws.{At, typed}
use objconv.Msgpack.Parse.Numbers.{parse_int-int_bytes}
use objconv.Msgpack.Parse.Scalars.{
  parse_nil-nil_bytes, parse_bool-bool_bytes, parse_uint-uint_bytes, parse_float-float_bytes,
  parse_float-float_bytes_32,
}
use objconv.Msgpack.Parse.Text.{parse_string-string_header, parse_bytes-bytes_header}
use objconv.Msgpack.Values.{value_parser, header_of, packed_string, packed_scalar, Fits}
use objconv.Msgpack.Values.Format.{string_header-some, bytes_header-some, duration-short}
use objconv.Objutil.Duration.{append_duration}
use objconv.Types.{ValueType}
use objconv.Value.{IntKind, UintKind, FloatKind, Scalar, Value, nil, scalar, text, natural_scalar}
use objconv.Msgpack.Values.Texted.{texted_scalar}

module _ {R : Type 0} ⦃io : Reader R⦄ ⦃fl : Floats⦄ where
  -- A method behind ParseType, as two calls.
  pub record Calls {A : Type 0} (m : M (Parser R) A) (p : Parser R) (t : ValueType) (v : A)
      (ys : List ℕ) : Type 0 where
    pub middle : Parser R
    pub end : Parser R
    pub announces : parse_type p ≡ (ok t, middle)
    pub reads : m middle ≡ (ok v, end)
    pub rest : At 0 ys end

  pub typed-Calls :
      {A : Type 0} (m : M (Parser R) A) (p : Parser R) (t : ValueType) (v : A) (ys : List ℕ)
      → Returns (typed m p) (t, v) (At 0 ys)
      → Calls m p t v ys
  typed-Calls m p t v ys r =
      let x =
        after-Both (parse_type p) (λ t'. m >>= λ v'. pure (t', v')) (t, v) r.state r.computes in
      let y = after-Both (m x.state) (λ v'. pure (x.value, v')) (t, v) r.state x.second in
      record {
        middle = x.state;
        end = r.state;
        announces = cc (x.first, y.second);
        reads = cc (y.first, y.second);
        rest = r.post;
      }

  -- The parser presents the value, and has then come behind it.
  abbrev pub Presented : Value → List ℕ → Parser R → Type 0
  Presented v ys p = (q : Parser R) × Presents value_parser v p q × At 0 ys q

  -- A scalar that one method reads.
  scalar_Presented :
      (s : Scalar) {A : Type 0} (m : M (Parser R) A) (v : A) (p : Parser R) (ys : List ℕ)
      → ((t q : Parser R) → m t ≡ (ok v, q) → Reads value_parser s t q)
      → Returns (typed m p) (announced s, v) (At 0 ys)
      → Presented (scalar s) ys p
  unfolding Presents
  scalar_Presented s m v p ys reads r =
      let c = typed-Calls m p (announced s) v ys r in
      (c.end, (c.middle, c.announces, reads c.middle c.end c.reads), c.rest)

  pub nil-Presented : (ys : List ℕ) (p : Parser R) → At 0 (nil_bytes ++ ys) p → Presented nil ys p
  unfolding Presents
  nil-Presented ys p h =
      let c = typed-Calls parse_nil p ValueType.nil tt ys (parse_nil-nil_bytes ys p h) in
      (c.end, (c.middle, c.announces, c.reads), c.rest)

  pub string_Presented :
      (s ys : List ℕ) (p : Parser R) {k : ℕ}
      → length s < 2 ^ 32
      → At k (packed_string s ++ ys) p
      → Presented (text s) ys p
  string_Presented s ys p short h =
      scalar_Presented (Scalar.string s) parse_string s p ys (λ t q e. e)
        (parse_string-string_header s (header_of (string_header (length s))) ys p
          (string_header-some (length s) short) h)

  pub scalar_lem :
      (s : Scalar) (ys : List ℕ) (p : Parser R) {k : ℕ}
      → Fits s
      → At k (packed_scalar s ++ ys) p
      → Presented (scalar (texted_scalar (natural_scalar s))) ys p
  unfolding packed_scalar
  scalar_lem (Scalar.bool b) ys p f h =
      scalar_Presented (Scalar.bool b) parse_bool b p ys (λ t q e. e)
        (parse_bool-bool_bytes b ys p h)
  scalar_lem (Scalar.int k i) ys p f h =
      scalar_Presented (Scalar.int IntKind.int64 i) parse_int i p ys (λ t q e. (f, e))
        (parse_int-int_bytes i ys p f h)
  scalar_lem (Scalar.uint k u) ys p f h =
      scalar_Presented (Scalar.uint UintKind.uint64 u) parse_uint u p ys (λ t q e. (f, e))
        (parse_uint-uint_bytes u ys p f h)
  scalar_lem (Scalar.float FloatKind.float32 f) ys p fits h =
      scalar_Presented (Scalar.float FloatKind.float64 (fl.widen f)) parse_float (fl.widen f) p ys
        (λ t q e. e)
        (Returns-eq (ap (λ g. (ValueType.float, fl.widen g)) fits.0)
          (parse_float-float_bytes_32 (fl.widen f) ys p (rw fits.0 fits.1) h))
  scalar_lem (Scalar.float FloatKind.float64 f) ys p fits h =
      scalar_Presented (Scalar.float FloatKind.float64 f) parse_float f p ys (λ t q e. e)
        (parse_float-float_bytes f 64 ys p (omega arith) fits h)
  scalar_lem (Scalar.string s) ys p f h = string_Presented s ys p f h
  scalar_lem (Scalar.bytes b) ys p f h =
      scalar_Presented (Scalar.bytes b) parse_bytes b p ys (λ t q e. rw e refl)
        (parse_bytes-bytes_header b (header_of (bytes_header (length b))) ys p
          (bytes_header-some (length b) f) h)
  scalar_lem (Scalar.time t) ys p f h =
      scalar_Presented (Scalar.time t) parse_time t p ys (λ u q e. e)
        (parse_time-time_bytes t ys p f h)
  scalar_lem (Scalar.duration d) ys p f h =
      string_Presented (append_duration [] d) ys p (duration-short d) h
  scalar_lem (Scalar.error e) ys p f h = string_Presented e ys p f h
