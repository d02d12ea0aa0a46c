-- ===== src/Msgpack/Values/Codec.antt =====
-- A value encoded by Encode of encode.go and decoded by Decode of decode.go through MessagePack.
use objconv.Prelude.{ℕ, ◌≤◌, ◌≡◌, sym, ap, ◌∙◌, List, [], ◌++◌, append-nil, arith, refl, replicate}
use objconv.Buffer.{buffer_size}
use objconv.Go.Slice.{slice}
use objconv.Go.Float.{Floats}
use objconv.Go.Io.{Reader, Writer}
use objconv.Go.Outcome.{ok, Returns}
use objconv.Go.Strconv.{FloatFormat, IntFormat}
use objconv.Go.Time.{TimeFormat, DurationFormat}
use objconv.Decode.{begin_value}
use objconv.Decode.Values.{decode}
use objconv.Decode.Values.Laws.{decode_interface-presented}
use objconv.Decode.Values.Presents.{size}
use objconv.Encode.Map.{Encoder}
use objconv.Encode.Values.{encode}
use objconv.Msgpack.Emit as Out
use objconv.Msgpack.Parse as In
use objconv.Msgpack.Emit.Laws.{Reliable}
use objconv.Msgpack.Parse.Laws.{At}
use objconv.Msgpack.Values.{value_emitter, value_parser, packed, IsPackable}
use objconv.Msgpack.Values.Emit.{encode-packed}
use objconv.Msgpack.Values.Parse.{packed-Presents}
use objconv.Msgpack.Values.Texted.{received}
use objconv.Value.{Value}
use objconv.Value.Emitter.{Keys}
use objconv.Value.Emitter.Laws.{WellKeyed}

module _ {R : Type 0} ⦃io : Reader R⦄ ⦃keys : Keys⦄ ⦃fl : Floats⦄ ⦃ff : FloatFormat⦄ where
  module _ ⦃num : IntFormat⦄ ⦃tf : TimeFormat⦄ ⦃df : DurationFormat⦄ where
    -- Decode into an empty interface, at the front of the stream of a parser whose buffer is in order,
    -- returns of the format of any value that MessagePack can hold its natural form, its durations
    -- and errors as texts, and consumes exactly these bytes. The conditions are that the keys of each
    -- map are hashable and apart from one another in that form, and fuel for the parts of the value.
    pub decode-packed :
        (v : Value) (fuel : ℕ) (ys : List ℕ) (p : In.Parser R)
        → IsPackable v
        → WellKeyed (received v)
        → size (received v) ≤ fuel
        → At 0 (packed v ++ ys) p
        → Returns (decode value_parser fuel (record { off = 0 }) p) (received v) (At 0 ys)
    unfolding decode begin_value
    decode-packed v fuel ys p packable keyed room h =
        let x = packed-Presents v ys p packable h in
        record {
          state = x.0;
          computes = decode_interface-presented value_parser (received v) fuel p x.0 room keyed x.1;
          post = x.2;
        }

module _ {R : Type 0} ⦃io : Reader R⦄ where
  -- A new parser is at the stream of its reader.
  pub new_parser-At : (bs : List ℕ) (r : R) → io.unread r ≡ bs → At 0 bs (In.new_parser r)
  new_parser-At bs r e = record {
    holding = record {
      ordered = omega arith;
      bounded = omega arith;
      sized = refl;
      stream = ap (λ t. slice 0 0 (replicate buffer_size 0) ++ t) e;
    };
    loaded = omega arith;
  }

module _ {W R : Type 0} ⦃out : Writer W⦄ ⦃io : Reader R⦄ ⦃keys : Keys⦄ ⦃fl : Floats⦄ where
  module _ ⦃ff : FloatFormat⦄ ⦃num : IntFormat⦄ ⦃tf : TimeFormat⦄ ⦃df : DurationFormat⦄ where
    -- The whole way: Encode of any value that MessagePack can hold succeeds on a new emitter over an
    -- empty writer that never fails, and Decode into an empty interface of what was written, through
    -- a new parser over any reader of these bytes, returns the natural form of the value, its
    -- durations and errors as texts, and nothing of the stream is left.
    pub decode-encode :
        (en : Encoder) (v : Value) (fuel : ℕ) (w : W) (r : R)
        → Reliable out
        → out.written w ≡ []
        → io.unread r ≡ out.written (encode value_emitter en v (Out.new_emitter w)).1.out
        → IsPackable v
        → WellKeyed (received v)
        → size (received v) ≤ fuel
        → ((encode value_emitter en v (Out.new_emitter w)).0 ≡ ok tt)
          × Returns
              (decode value_parser fuel (record { off = 0 }) (In.new_parser r))
              (received v)
              (At 0 [])
    decode-encode en v fuel w r reliable empty stream packable keyed room =
        let x = encode-packed reliable en v (Out.new_emitter w) packable in
        let bytes : io.unread r ≡ packed v ++ [] =
          stream
          ∙ ap (λ s. out.written s.1.out) x.computes
          ∙ x.post.output
          ∙ ap (λ t. t ++ packed v) empty
          ∙ sym (append-nil (packed v)) in
        (
          ap (λ s. s.0) x.computes,
          decode-packed v fuel [] (In.new_parser r) packable keyed room
              (new_parser-At (packed v ++ []) r bytes),
        )
