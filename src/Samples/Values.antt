-- ===== src/Samples/Values.antt =====
-- Values encoded and decoded, in memory and through MessagePack.
use objconv.Prelude.{
  ℕ, ◌<◌, ◌^◌, List, [], ◌∷◌, ◌++◌, Option, none, some, Bool, true, false, ◌≡◌, ◌≢◌, refl, subst,
  arith, ◌⊎◌, ◌==◌,
}
use objconv.Prelude.Int.{ℤ, pos, negsuc, IsInt}
use objconv.Decode.Collections.{decode_fixed_array}
use objconv.Decode.Collections.Arrays.{decode_fixed_array-Items}
use objconv.Decode.Scalars.{int_of_type, uint_of_type, typed}
use objconv.Decode.Scalars.Laws.{
  FailsAt, IsUint, int_of_type-int, int_of_type-uint, uint_of_type-int, int_of_type-text,
}
use objconv.Decode.Values.{decode, decode_interface}
use objconv.Decode.Values.Flaws.{decode_interface-unhashable}
use objconv.Decode.Values.Laws.{decode_interface-presented}
use objconv.Decode.Values.Presents.{size, Presents}
use objconv.Encode.Map.{Encoder}
use objconv.Encode.Values.{encode}
use objconv.Go.Outcome.{M, ok, err, panic, array_length_mismatch, Returns}
use objconv.Go.Strconv.{equal, FloatFormat, IntFormat}
use objconv.Go.Time.{TimeFormat, DurationFormat}
use objconv.Msgpack.Emit as Out
use objconv.Msgpack.Emit.Laws.{Reliable, Wrote}
use objconv.Msgpack.Parse as In
use objconv.Msgpack.Parse.Laws.{At}
use objconv.Msgpack.Values as Packed
use objconv.Msgpack.Values.{packed, IsPackable}
use objconv.Msgpack.Values.Codec.{decode-encode, new_parser-At}
use objconv.Msgpack.Values.Emit.{encode-packed}
use objconv.Msgpack.Values.Parse.{packed-Presents}
use objconv.Msgpack.Values.Texted.{received, texted}
use objconv.Objutil.Limits.{check_int64_bounds}
use objconv.Samples.Streams.{Source, source_reader, Sink, sink_writer, halves}
use objconv.Types.{ValueType}
use objconv.Value.{
  IntKind, UintKind, Scalar, Value, nil, scalar, pointer, slice_any, map_string_any, map_any,
  no_value, value, no_field, field, no_entry, entry, text, natural,
}
use objconv.Value.Emitter
use objconv.Value.Emitter.{Keys, built, new_value_emitter}
use objconv.Value.Emitter.Laws.{WellKeyed}
use objconv.Value.Parser
use objconv.Value.Parser.{ValueParser, Reflection, new_value_parser}
use objconv.Value.Parser.Shows.{IsHeld, value_parser-Presents}
use objconv.Value.RoundTrip.{built-encode, decode-new_value_parser}

-- Keys that are texts, or unsigned numbers.
abbrev is_key : Value → Bool
is_key (scalar (Scalar.string s)) = true
is_key (scalar (Scalar.uint k u)) = true
is_key v = false

abbrev same_key : Value → Value → Bool
same_key (scalar (Scalar.string s)) (scalar (Scalar.string t)) = equal s t
same_key (scalar (Scalar.uint k u)) (scalar (Scalar.uint l v)) = u == v
same_key v w = false

instance abbrev text_keys : Keys
text_keys = record { hashable = is_key; same = same_key }

-- Stand for strconv, package time and the texts of package reflect.
instance abbrev no_floats : FloatFormat
no_floats = record { format = λ v size. []; parse = λ s. none }

abbrev known_number : List ℕ → Option ℤ
known_number [] = none
known_number (b ∷ s) = some (pos 300)

instance abbrev known_numbers : IntFormat
known_numbers = record { parse_int = known_number; parse_uint = λ s. none }

instance abbrev no_times : TimeFormat
no_times = record { format = λ t. []; parse = λ s. none }

instance abbrev no_durations : DurationFormat
no_durations = record { parse = λ s. none }

instance abbrev no_texts : Reflection
no_texts = record { describe = λ v. [] }

-- map[string]interface{}{"a": []interface{}{int8(-3), nil}, "b": &true}
abbrev nested : Value
nested = map_string_any (
    field (b'a' ∷ [])
      (slice_any (value (scalar (Scalar.int IntKind.int8 (negsuc 2))) (value nil no_value)))
      (field (b'b' ∷ []) (pointer (scalar (Scalar.bool true))) no_field))

-- Its natural form.
abbrev decoded : Value
decoded = map_any (
    entry (text (b'a' ∷ []))
      (slice_any (value (scalar (Scalar.int IntKind.int64 (negsuc 2))) (value nil no_value)))
      (entry (text (b'b' ∷ [])) (scalar (Scalar.bool true)) no_entry))

abbrev plain : Encoder
plain = record { key = false }

keyed : WellKeyed decoded
unfolding WellKeyed equal
keyed = (tt, (tt, (tt, tt)), refl, (refl, tt), (tt, tt, refl, tt, tt))

built-encode_example :
    built (encode Emitter.value_emitter plain nested new_value_emitter).1 ≡ some (natural nested)
unfolding natural
built-encode_example = built-encode plain nested keyed

decode-new_value_parser_example :
    decode Parser.value_parser 20 (record { off = 0 }) (new_value_parser nested)
    ≡ (ok (natural nested), new_value_parser nested)
unfolding natural IsHeld size equal Parser.map_index Parser.fields_index
decode-new_value_parser_example =
    decode-new_value_parser nested 20
      ((refl, (refl, tt)), ((omega arith, (tt, tt)), ((tt, tt), tt))) keyed (omega arith)

sink-Reliable : Reliable sink_writer
sink-Reliable w bs = refl

abbrev out : Out.Emitter Sink
out = Out.new_emitter (record { bytes = [] })

packable : IsPackable nested
unfolding IsPackable
packable =
    (omega arith, (omega arith, (omega arith, (omega arith, (tt, tt))), (omega arith, tt, tt)))

encode-packed_example :
    Returns (encode Packed.value_emitter plain nested out) tt (Wrote (packed nested) out)
encode-packed_example = encode-packed sink-Reliable plain nested out packable

-- The bytes that the encoder has written, three at a time.
abbrev stream : Source
stream = record { piece = 2; rest = (encode Packed.value_emitter plain nested out).1.out.bytes }

decode-encode_example :
    (encode Packed.value_emitter plain nested out).0 ≡ ok tt
    × Returns
        (decode Packed.value_parser 20 (record { off = 0 }) (In.new_parser stream))
        (received nested)
        (At 0 [])
unfolding natural texted size
decode-encode_example =
    decode-encode plain nested 20 (record { bytes = [] }) stream sink-Reliable refl refl packable
      keyed (omega arith)

decode_interface-presented_example :
    decode_interface Parser.value_parser 20 (new_value_parser nested)
    ≡ (ok (natural nested), new_value_parser nested)
unfolding natural IsHeld size equal Parser.map_index Parser.fields_index
decode_interface-presented_example =
    decode_interface-presented Parser.value_parser (natural nested) 20 (new_value_parser nested)
      (new_value_parser nested) (omega arith) keyed
      (value_parser-Presents nested (new_value_parser nested) refl
        ((refl, (refl, tt)), ((omega arith, (tt, tt)), ((tt, tt), tt))))

-- A map with an empty array as its key: 0x81 0x90 0xC0.
abbrev odd_map : Value
odd_map = map_any (entry (slice_any no_value) nil no_entry)

abbrev odd : In.Parser Source
odd = In.new_parser (record { piece = 2; rest = packed odd_map ++ [] })

odd-Presents : (q : In.Parser Source) × Presents Packed.value_parser odd_map odd q × At 0 [] q
unfolding natural texted IsPackable
odd-Presents =
    packed-Presents odd_map [] odd (omega arith, ((omega arith, tt), tt, tt))
      (new_parser-At (packed odd_map ++ []) _ refl)

decode_interface-unhashable_example :
    (y : In.Parser Source) × (decode_interface Packed.value_parser 20 odd ≡ (panic, y))
unfolding size WellKeyed
decode_interface-unhashable_example =
    decode_interface-unhashable Packed.value_parser (slice_any no_value) nil no_entry 20 odd
      odd-Presents.0 refl tt tt (omega arith) odd-Presents.1

abbrev at_int : ValueParser
at_int = new_value_parser (scalar (Scalar.int IntKind.int (pos 300)))

abbrev at_uint : ValueParser
at_uint = new_value_parser (scalar (Scalar.uint UintKind.uint 300))

abbrev at_text : ValueParser
at_text = new_value_parser (text (b'3' ∷ b'0' ∷ b'0' ∷ []))

abbrev to_int8 : ValueType → M ValueParser (Option ℤ)
to_int8 = int_of_type Parser.value_parser (some IntKind.int8)

int_of_type-int_example :
    (IsInt 8 (pos 300) × (to_int8 ValueType.int at_int ≡ (ok (some (pos 300)), at_int)))
    ⊎ ((¬ IsInt 8 (pos 300)) × FailsAt (to_int8 ValueType.int at_int) at_int)
unfolding Parser.int_of
int_of_type-int_example =
    int_of_type-int Parser.value_parser IntKind.int8 (pos 300) at_int at_int refl (omega arith)

int_of_type-uint_example :
    (IsInt 8 (pos 300) × (to_int8 ValueType.uint at_uint ≡ (ok (some (pos 300)), at_uint)))
    ⊎ ((¬ IsInt 8 (pos 300)) × FailsAt (to_int8 ValueType.uint at_uint) at_uint)
unfolding Parser.uint_of
int_of_type-uint_example =
    int_of_type-uint Parser.value_parser IntKind.int8 300 at_uint at_uint refl

abbrev IsUint8 : UintKind → Type 0
IsUint8 UintKind.uint8 = Unit
IsUint8 k = ⊥

uint8-ne : UintKind.uint8 ≢ UintKind.uintptr
uint8-ne e = subst IsUint8 e tt

uint_of_type-int_example :
    ((n : ℕ) × (pos 300 ≡ pos n)
      × (n < 2 ^ 8)
      × (uint_of_type Parser.value_parser (some UintKind.uint8) ValueType.int at_int
          ≡ (ok (some n), at_int)))
    ⊎ ((¬ IsUint 8 (pos 300))
        × FailsAt
            (uint_of_type Parser.value_parser (some UintKind.uint8) ValueType.int at_int)
            at_int)
unfolding Parser.int_of
uint_of_type-int_example =
    uint_of_type-int Parser.value_parser UintKind.uint8 (pos 300) at_int at_int uint8-ne refl
      (omega arith)

int_of_type-text_example :
    (j : ℤ) × (j ≢ pos 300) × (to_int8 ValueType.string at_text ≡ (ok (some j), at_text))
unfolding Parser.string_of
int_of_type-text_example =
    int_of_type-text Parser.value_parser IntKind.int8 (b'3' ∷ b'0' ∷ b'0' ∷ []) (pos 300) at_text
      at_text refl refl (omega arith)

abbrev one_two : Value
one_two = slice_any (
    value (scalar (Scalar.int IntKind.int8 (pos 1)))
      (value (scalar (Scalar.int IntKind.int8 (pos 2))) no_value))

-- The parser at an item of the array.
abbrev at_item : Value → ValueParser
at_item v = record { stack = one_two ∷ v ∷ []; ctx = record { held = one_two; keys = [] } ∷ [] }

abbrev first : ValueParser
first = at_item (scalar (Scalar.int IntKind.int8 (pos 1)))

abbrev last : ValueParser
last = at_item (scalar (Scalar.int IntKind.int8 (pos 2)))

-- Into an array of three.
decode_fixed_array-Items_example :
    decode_fixed_array none Parser.value_parser.items 3 5
      (typed Parser.value_parser to_int8)
      ValueType.array
      (new_value_parser one_two)
    ≡ (err (array_length_mismatch 3 2), new_value_parser one_two)
unfolding Parser.parse_type Parser.int_of Parser.parse_array_begin Parser.parse_array_next
    Parser.parse_end int_of_type check_int64_bounds
decode_fixed_array-Items_example =
    decode_fixed_array-Items Parser.value_parser.items (typed Parser.value_parser to_int8) none
      (some (pos 1) ∷ some (pos 2) ∷ []) 3 5 (new_value_parser one_two) first last
      (new_value_parser one_two) (omega arith) (omega arith) refl
      (first, first, refl, refl, (last, last, refl, refl, refl)) refl
