-- ===== src/Value/RoundTrip.antt =====
-- Encode of encode.go into ValueEmitter, and Decode of decode.go from ValueParser, of value.go.
use objconv.Prelude.{ℕ, ◌≤◌, ◌≡◌, refl, some}
use objconv.Go.Float.{Floats}
use objconv.Go.Outcome.{ok}
use objconv.Go.Strconv.{FloatFormat, IntFormat}
use objconv.Go.Time.{TimeFormat, DurationFormat}
use objconv.Decode.{begin_value}
use objconv.Decode.Values.{decode}
use objconv.Decode.Values.Laws.{decode_interface-presented}
use objconv.Decode.Values.Presents.{size}
use objconv.Encode.Map.{Encoder}
use objconv.Encode.Values.{encode}
use objconv.Value.{Value, natural}
use objconv.Value.Emitter.{Keys, value_emitter, new_value_emitter, built}
use objconv.Value.Emitter.Encode.{encode-value_emitter}
use objconv.Value.Emitter.Laws.{WellKeyed}
use objconv.Value.Parser.{Reflection, value_parser, new_value_parser}
use objconv.Value.Parser.Shows.{IsHeld, value_parser-Presents}

module _ ⦃keys : Keys⦄ ⦃fl : Floats⦄ where
  -- What Value of a new ValueEmitter returns behind Encode of a value is its natural form, for an
  -- encoder of any key flag. The condition is that the keys of each map stay hashable and apart from
  -- one another in that form.
  pub built-encode :
      (en : Encoder) (v : Value)
      → WellKeyed (natural v)
      → built (encode value_emitter en v new_value_emitter).1 ≡ some (natural v)
  unfolding built
  built-encode en v h = rw (encode-value_emitter en v new_value_emitter h) refl

module _ ⦃keys : Keys⦄ ⦃fl : Floats⦄ ⦃re : Reflection⦄ ⦃ff : FloatFormat⦄ where
  module _ ⦃num : IntFormat⦄ ⦃tf : TimeFormat⦄ ⦃df : DurationFormat⦄ where
    -- Decode into an empty interface from a new ValueParser at a value returns the natural form of the
    -- value, and the parser is back where it began. The conditions on the value are that its integers
    -- are in range, that no pointer in it is nil or points to an error, that looking up each key of
    -- each of its maps gives the value of that key, as it does not for a NaN, and that the keys of each
    -- map are hashable and apart from one another in the natural form. There is fuel for its parts.
    pub decode-new_value_parser :
        (v : Value) (fuel : ℕ)
        → IsHeld v
        → WellKeyed (natural v)
        → size (natural v) ≤ fuel
        → decode value_parser fuel (record { off = 0 }) (new_value_parser v)
          ≡ (ok (natural v), new_value_parser v)
    unfolding decode begin_value
    decode-new_value_parser v fuel held keyed room =
        let p = new_value_parser v in
        decode_interface-presented value_parser (natural v) fuel p p room keyed
          (value_parser-Presents v p refl held)
