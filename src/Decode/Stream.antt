-- ===== src/Decode/Stream.antt =====
-- StreamDecoder of decode.go, over any parser. A value to decode is the call that decodes it.
pub mod Laws
use objconv.Prelude.{ℕ, ◌+◌, ◌-◌, ◌==◌, leb, Bool, true, false, Option, none, some, if◌then◌else◌}
use objconv.Prelude.Int.{ℤ, pos, negsuc, neg}
use objconv.Go.Outcome.{Error, Outcome, ok, err, panic, stuck, end, M, after, pure}
use objconv.Types.{ValueType}
use objconv.Decode.{ItemParser}
use objconv.Encode.Stream.{StreamEncoder, new_stream_encoder}

pub record StreamDecoder (P : Type 0) : Type 0 where
  pub parser : P
  pub error : Option Error
  pub typ : ValueType
  pub cnt : ℕ
  pub max : ℤ

abbrev pub new_stream_decoder : {P : Type 0} → P → StreamDecoder P
new_stream_decoder p = record {
  parser = p;
  error = none;
  typ = ValueType.unknown;
  cnt = 0;
  max = pos 0;
}

abbrev but_end : Option Error → Option Error
but_end none = none
but_end (some end) = none
but_end (some e) = some e

-- Err
unfoldable pub last_error : {P : Type 0} → StreamDecoder P → Option Error
last_error d = but_end d.error

-- cnt == max, and max - cnt
abbrev pub is_done : ℕ → ℤ → Bool
is_done cnt (pos n) = cnt == n
is_done cnt (negsuc k) = false

abbrev pub left : ℤ → ℕ → ℤ
left (pos n) cnt = if leb cnt n then pos (n - cnt) else neg (cnt - n)
left (negsuc k) cnt = negsuc (k + cnt)

abbrev pub is_unknown : ValueType → Bool
is_unknown ValueType.unknown = true
is_unknown t = false

abbrev pub is_array : ValueType → Bool
is_array ValueType.array = true
is_array t = false

-- The error of a value, the count and the limit behind it.
abbrev pub Result : Type 0
Result = Option Error × ℕ × ℤ

-- A call whose error is kept as a value.
abbrev pub caught : {P A : Type 0} → Outcome (Unit {0}) × P → (Option Error → M P A) → Outcome A × P
caught (ok u, p) f = f none p
caught (err e, p) f = f (some e) p
caught (panic, p) f = (panic, p)
caught (stuck, p) f = (stuck, p)

module _ {P : Type 0} (vp : ItemParser P) where
  -- The type and the length that init finds, as far as it comes, and its error.
  abbrev pub begun : ValueType → Outcome ℤ × P → Outcome (ValueType × ℤ × Option Error) × P
  begun t (ok n, p) = (ok (t, n, none), p)
  begun t (err e, p) = (ok (t, pos 0, some e), p)
  begun t (panic, p) = (panic, p)
  begun t (stuck, p) = (stuck, p)

  -- The type and the number that the parser returns with an error, which nothing reads, are Unknown
  -- and 0 here.
  abbrev pub measured : Outcome ValueType × P → Outcome (ValueType × ℤ × Option Error) × P
  measured (ok t, p) =
      if is_array t then begun t (vp.parse_array_begin p) else (ok (t, pos 1, none), p)
  measured (err e, p) = (ok (ValueType.unknown, pos 0, some e), p)
  measured (panic, p) = (panic, p)
  measured (stuck, p) = (stuck, p)

  -- What a call on the parser makes of the decoder.
  abbrev pub with_parser :
      {A : Type 0} → Outcome A × P → (A → StreamDecoder P → StreamDecoder P) → M (StreamDecoder P) A
  with_parser (ok a, p) f d = (ok a, f a (record d { parser = p }))
  with_parser (err e, p) f d = (err e, record d { parser = p })
  with_parser (panic, p) f d = (panic, record d { parser = p })
  with_parser (stuck, p) f d = (stuck, record d { parser = p })

  -- init; what it returns is in `error`.
  unfoldable pub init : M (StreamDecoder P) (ValueType × ℤ × Option Error)
  init d =
      with_parser (measured (vp.parse_type d.parser))
        (λ (t, n, e) c. record c { error = e; typ = t; max = n }) d

  abbrev pub remaining : StreamDecoder P → ℤ
  remaining d = elim d.error [ some e ↦ pos 0 | none ↦ left d.max d.cnt ]

  -- Len
  unfoldable pub length_left : M (StreamDecoder P) ℤ
  unfolding init
  length_left d = elim d.error [
    | some e ↦ (ok (pos 0), d)
    | none ↦
        if is_unknown d.typ
        then after (init d) (λ _ c. (ok (remaining c), c))
        else (ok (left d.max d.cnt), d)
  ]

  -- The call of ParseArrayEnd or ParseArrayNext in front of a value of an array.
  abbrev pub separated : ValueType → ℕ → ℤ → M P (Unit {0})
  separated t cnt max p =
      if is_array t
      then (if is_done cnt max
          then vp.parse_array_end cnt p
          else if cnt == 0
          then (ok tt, p)
          else vp.parse_array_next cnt p)
      else (ok tt, p)

  -- Where an array of unknown length may be at its end, ParseArrayEnd tells.
  abbrev pub at_end_of : ℕ → ℤ → Error → M P Result
  at_end_of cnt (pos n) e p = (ok (some e, cnt, pos n), p)
  at_end_of cnt (negsuc k) e p = caught (vp.parse_array_end cnt p) λ x q. elim x [
    | none ↦ (ok (some end, cnt, negsuc k), q)
    | some y ↦ (ok (some e, cnt, negsuc k), q)
  ]

  abbrev pub decoded : ℕ → ℤ → Option Error → M P Result
  decoded cnt max none p = (ok (none, cnt + 1, max), p)
  decoded cnt max (some end) p = (ok (some end, cnt + 1, pos (cnt + 1)), p)
  decoded cnt max (some e) p = at_end_of cnt max e p

  abbrev pub decode_value : M P (Unit {0}) → ℕ → ℤ → Option Error → M P Result
  decode_value v cnt max (some e) p = (ok (some e, cnt, max), p)
  decode_value v cnt max none p =
      if is_done cnt max then (ok (some end, cnt, max), p) else caught (v p) (decoded cnt max)

  -- d.err = err, d.cnt = cnt and d.max = max, and err is returned.
  abbrev pub store : Outcome Result × P → M (StreamDecoder P) (Option Error)
  store o d =
      after (with_parser o (λ (e, cnt, max) c. record c { error = e; cnt = cnt; max = max }) d)
        (λ (e, cnt, max). pure e)

  abbrev pub decode_begun : M P (Unit {0}) → M (StreamDecoder P) (Option Error)
  decode_begun v d =
      store (caught (separated d.typ d.cnt d.max d.parser) (decode_value v d.cnt d.max)) d

  abbrev pub decode_first : M P (Unit {0}) → M (StreamDecoder P) (Option Error)
  decode_first v d = after (init d) (λ (t, n, e) c. store (decode_value v c.cnt c.max e c.parser) c)

  -- What Decode returns, `none` without an error.
  unfoldable pub decode : M P (Unit {0}) → M (StreamDecoder P) (Option Error)
  unfolding init
  decode v d = elim d.error [
    | some e ↦ (ok (some e), d)
    | none ↦ if is_unknown d.typ then decode_first v d else decode_begun v d
  ]

  -- Encoder: an encoder of one value where the stream is no array.
  unfoldable pub encoder : {S : Type 0} → S → M (StreamDecoder P) (StreamEncoder S)
  encoder out d =
      after (with_parser (vp.parse_type d.parser) (λ t c. c) d) (λ t.
        pure (record (new_stream_encoder out) { oneshot = if is_array t then false else true }))
