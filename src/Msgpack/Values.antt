-- ===== src/Msgpack/Values.antt =====
-- Whole values in MessagePack: the emitter of msgpack/emit.go and the parser of msgpack/parse.go as the
-- interfaces that the encoder and the decoder drive, and the bytes of a value.
pub mod Texted
pub mod Single
pub mod Format
pub mod Emit
pub mod Parse
pub mod Codec
use objconv.Prelude.{ℕ, zero, suc, ◌^◌, ◌<◌, ◌≡◌, List, [], ◌∷◌, ◌++◌, length, Option, none, some}
use objconv.Prelude.Int.{pos, IsInt}
use objconv.Go.Float.{Floats}
use objconv.Go.Io.{Reader, Writer}
use objconv.Go.Time.{IsTime}
use objconv.Emit.{Emitter}
use objconv.Encode.Values.{length_values, length_fields, length_entries}
use objconv.Msgpack.Emit.Arrays.{emitter}
use objconv.Msgpack.Emit as Out
use objconv.Msgpack.Parse as In
use objconv.Objutil.Duration.{append_duration}
use objconv.Parse.{Parser}
use objconv.Value.{
  IntKind, UintKind, FloatKind, Scalar, Value, nil, scalar, nil_pointer, pointer, slice_string,
  slice_any, map_string_string, map_string_any, map_any, Values, no_value, value, Fields, no_field,
  field, Entries, no_entry, entry,
}

-- The bit size of an integer is ignored.
abbrev pub value_emitter : {W : Type 0} ⦃io : Writer W⦄ ⦃fl : Floats⦄ → Emitter (Out.Emitter W)
value_emitter = record {
  maps = record {
    arrays = emitter;
    emit_map_begin = Out.emit_map_begin;
    emit_map_end = Out.emit_map_end;
    emit_map_value = Out.emit_map_value;
    emit_map_next = Out.emit_map_next;
  };
  emit_nil = Out.emit_nil;
  emit_bool = Out.emit_bool;
  emit_int = λ v size. Out.emit_int v;
  emit_uint = λ v size. Out.emit_uint v;
  emit_float = Out.emit_float;
  emit_string = Out.emit_string;
  emit_bytes = Out.emit_bytes;
  emit_time = Out.emit_time;
  emit_duration = Out.emit_duration;
  emit_error = Out.emit_error;
}

abbrev pub value_parser : {R : Type 0} ⦃io : Reader R⦄ ⦃fl : Floats⦄ → Parser (In.Parser R)
value_parser = record {
  items = record {
    parse_type = In.parse_type;
    parse_nil = In.parse_nil;
    parse_string = In.parse_string;
    parse_bytes = In.parse_bytes;
    parse_array_begin = In.parse_array_begin;
    parse_array_end = λ n. In.parse_array_end (pos n);
    parse_array_next = λ n. In.parse_array_next (pos n);
    parse_map_begin = In.parse_map_begin;
    parse_map_end = λ n. In.parse_map_end (pos n);
    parse_map_value = λ n. In.parse_map_value (pos n);
    parse_map_next = λ n. In.parse_map_next (pos n);
  };
  parse_bool = In.parse_bool;
  parse_int = In.parse_int;
  parse_uint = In.parse_uint;
  parse_float = In.parse_float;
  parse_time = In.parse_time;
  parse_duration = In.parse_duration;
  parse_error = In.parse_error;
  decode_bytes = none;
}

-- The bytes of a header, where the length fits into 32 bits.
abbrev pub header_of : Option (List ℕ) → List ℕ
header_of none = []
header_of (some h) = h

abbrev pub packed_string : List ℕ → List ℕ
packed_string s = header_of (Out.string_header (length s)) ++ s

-- The format of a value: a header or a tag, and the parts.
unfoldable pub packed_scalar : ⦃fl : Floats⦄ → Scalar → List ℕ
packed_scalar (Scalar.bool b) = Out.bool_bytes b
packed_scalar (Scalar.int k i) = Out.int_bytes i
packed_scalar (Scalar.uint k u) = Out.uint_bytes u
packed_scalar ⦃fl⦄ (Scalar.float FloatKind.float32 f) = Out.float_bytes (fl.widen f) 32
packed_scalar (Scalar.float FloatKind.float64 f) = Out.float_bytes f 64
packed_scalar (Scalar.string s) = packed_string s
packed_scalar (Scalar.bytes b) = header_of (Out.bytes_header (length b)) ++ b
packed_scalar (Scalar.time t) = Out.time_bytes t
packed_scalar (Scalar.duration d) = packed_string (append_duration [] d)
packed_scalar (Scalar.error e) = packed_string e

unfoldable pub packed_strings : List (List ℕ) → List ℕ
packed_strings [] = []
packed_strings (s ∷ ss) = packed_string s ++ packed_strings ss

unfoldable pub packed_texts : List (List ℕ × List ℕ) → List ℕ
packed_texts [] = []
packed_texts ((k, v) ∷ m) = (packed_string k ++ packed_string v) ++ packed_texts m

unfoldable mutual
  pub packed : ⦃fl : Floats⦄ → Value → List ℕ
  packed nil = Out.nil_bytes
  packed (scalar s) = packed_scalar s
  packed nil_pointer = Out.nil_bytes
  packed (pointer v) = packed v
  packed (slice_string ss) = header_of (Out.array_header (length ss)) ++ packed_strings ss
  packed (slice_any vs) = header_of (Out.array_header (length_values vs)) ++ packed_values vs
  packed (map_string_string m) = header_of (Out.map_header (length m)) ++ packed_texts m
  packed (map_string_any m) = header_of (Out.map_header (length_fields m)) ++ packed_fields m
  packed (map_any m) = header_of (Out.map_header (length_entries m)) ++ packed_entries m

  pub packed_values : ⦃fl : Floats⦄ → Values → List ℕ
  packed_values no_value = []
  packed_values (value v vs) = packed v ++ packed_values vs

  pub packed_fields : ⦃fl : Floats⦄ → Fields → List ℕ
  packed_fields no_field = []
  packed_fields (field k v m) = (packed_string k ++ packed v) ++ packed_fields m

  pub packed_entries : ⦃fl : Floats⦄ → Entries → List ℕ
  packed_entries no_entry = []
  packed_entries (entry k v m) = (packed k ++ packed v) ++ packed_entries m

-- The numbers of Go's types, and lengths below 2^32. A float32 survives the way to a float64 and back,
-- as every one does that is no signalling NaN.
abbrev pub Fits : ⦃fl : Floats⦄ → Scalar → Type 0
Fits (Scalar.bool b) = Unit
Fits (Scalar.int k i) = IsInt 64 i
Fits (Scalar.uint k u) = u < 2 ^ 64
Fits ⦃fl⦄ (Scalar.float FloatKind.float32 f) = (fl.narrow (fl.widen f) ≡ f) × (f < 2 ^ 32)
Fits (Scalar.float FloatKind.float64 f) = f < 2 ^ 64
Fits (Scalar.string s) = length s < 2 ^ 32
Fits (Scalar.bytes b) = length b < 2 ^ 32
Fits (Scalar.time t) = IsTime t
Fits (Scalar.duration d) = Unit
Fits (Scalar.error e) = length e < 2 ^ 32

abbrev pub AllShort : List (List ℕ) → Type 0
AllShort [] = Unit
AllShort (s ∷ ss) = (length s < 2 ^ 32) × AllShort ss

abbrev pub TextsShort : List (List ℕ × List ℕ) → Type 0
TextsShort [] = Unit
TextsShort ((k, v) ∷ m) = (length k < 2 ^ 32) × (length v < 2 ^ 32) × TextsShort m

unfoldable mutual
  -- A value that the format can hold.
  pub IsPackable : ⦃fl : Floats⦄ → Value → Type 0
  IsPackable nil = Unit
  IsPackable (scalar s) = Fits s
  IsPackable nil_pointer = Unit
  IsPackable (pointer v) = IsPackable v
  IsPackable (slice_string ss) = (length ss < 2 ^ 32) × AllShort ss
  IsPackable (slice_any vs) = (length_values vs < 2 ^ 32) × IsPackableValues vs
  IsPackable (map_string_string m) = (length m < 2 ^ 32) × TextsShort m
  IsPackable (map_string_any m) = (length_fields m < 2 ^ 32) × IsPackableFields m
  IsPackable (map_any m) = (length_entries m < 2 ^ 32) × IsPackableEntries m

  pub IsPackableValues : ⦃fl : Floats⦄ → Values → Type 0
  IsPackableValues no_value = Unit
  IsPackableValues (value v vs) = IsPackable v × IsPackableValues vs

  pub IsPackableFields : ⦃fl : Floats⦄ → Fields → Type 0
  IsPackableFields no_field = Unit
  IsPackableFields (field k v m) = (length k < 2 ^ 32) × IsPackable v × IsPackableFields m

  pub IsPackableEntries : ⦃fl : Floats⦄ → Entries → Type 0
  IsPackableEntries no_entry = Unit
  IsPackableEntries (entry k v m) = IsPackable k × IsPackable v × IsPackableEntries m
