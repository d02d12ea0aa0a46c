-- ===== src/Msgpack/Values/Format.antt =====
-- The bytes of a value in MessagePack: headers of lengths below 2^32, and that no value is empty.
use objconv.Prelude.{
  ℕ, ◌^◌, ◌<◌, ◌≡◌, refl, ap, List, [], ◌∷◌, ◌++◌, length, arith, some, length-append,
}
use objconv.Prelude.Int.{ℤ, pos, negsuc}
use objconv.Go.Float.{Floats}
use objconv.Go.Time.{Time}
use objconv.Encode.Values.{length_values, length_fields, length_entries}
use objconv.Msgpack.Emit.{
  int_bytes, uint_bytes, float_bytes, time_bytes, string_header, bytes_header, array_header,
  map_header,
}
use objconv.Msgpack.Emit.Arrays.{concat}
use objconv.Msgpack.Values.{
  header_of, packed_string, packed_scalar, packed_strings, packed, packed_values, Fits, IsPackable,
}
use objconv.Objutil.Duration.{append_duration}
use objconv.Objutil.Duration.Laws.{append_duration-length}
use objconv.Value.{
  FloatKind, Scalar, Value, nil, scalar, nil_pointer, pointer, slice_string, slice_any,
  map_string_string, map_string_any, map_any, Values, no_value, value,
}

pub string_header-some : (n : ℕ) → n < 2 ^ 32 → string_header n ≡ some (header_of (string_header n))
unfolding string_header
string_header-some n h = ground arith

pub bytes_header-some : (n : ℕ) → n < 2 ^ 32 → bytes_header n ≡ some (header_of (bytes_header n))
unfolding bytes_header
bytes_header-some n h = ground arith

pub array_header-some : (n : ℕ) → n < 2 ^ 32 → array_header n ≡ some (header_of (array_header n))
unfolding array_header
array_header-some n h = ground arith

pub map_header-some : (n : ℕ) → n < 2 ^ 32 → map_header n ≡ some (header_of (map_header n))
unfolding map_header
map_header-some n h = ground arith

string_header-pos : (n : ℕ) → n < 2 ^ 32 → 0 < length (header_of (string_header n))
unfolding string_header
string_header-pos n h = ground arith

bytes_header-pos : (n : ℕ) → n < 2 ^ 32 → 0 < length (header_of (bytes_header n))
unfolding bytes_header
bytes_header-pos n h = ground arith

array_header-pos : (n : ℕ) → n < 2 ^ 32 → 0 < length (header_of (array_header n))
unfolding array_header
array_header-pos n h = ground arith

map_header-pos : (n : ℕ) → n < 2 ^ 32 → 0 < length (header_of (map_header n))
unfolding map_header
map_header-pos n h = ground arith

int_bytes-pos : (i : ℤ) → 0 < length (int_bytes i)
unfolding int_bytes
int_bytes-pos (pos n) = ground arith
int_bytes-pos (negsuc n) = ground arith

uint_bytes-pos : (u : ℕ) → 0 < length (uint_bytes u)
unfolding uint_bytes
uint_bytes-pos u = ground arith

append-pos : (h s : List ℕ) → 0 < length h → 0 < length (h ++ s)
append-pos h s p = omega (arith, length-append h s)

pub duration-short : (d : ℤ) → length (append_duration [] d) < 2 ^ 32
duration-short d = omega (arith, append_duration-length [] d)

time_bytes-pos : (t : Time) → 0 < length (time_bytes t)
unfolding time_bytes
time_bytes-pos t = ground arith

float_bytes-pos : ⦃fl : Floats⦄ (f size : ℕ) → 0 < length (float_bytes f size)
float_bytes-pos f size = ground arith

pub packed_string-pos : (s : List ℕ) → length s < 2 ^ 32 → 0 < length (packed_string s)
packed_string-pos s h = append-pos _ s (string_header-pos (length s) h)

packed_scalar-pos : ⦃fl : Floats⦄ (s : Scalar) → Fits s → 0 < length (packed_scalar s)
unfolding packed_scalar
packed_scalar-pos (Scalar.bool b) h = omega arith
packed_scalar-pos (Scalar.int k i) h = int_bytes-pos i
packed_scalar-pos (Scalar.uint k u) h = uint_bytes-pos u
packed_scalar-pos ⦃fl⦄ (Scalar.float FloatKind.float32 f) h = float_bytes-pos (fl.widen f) 32
packed_scalar-pos (Scalar.float FloatKind.float64 f) h = float_bytes-pos f 64
packed_scalar-pos (Scalar.string s) h = packed_string-pos s h
packed_scalar-pos (Scalar.bytes b) h = append-pos _ b (bytes_header-pos (length b) h)
packed_scalar-pos (Scalar.time t) h = time_bytes-pos t
packed_scalar-pos (Scalar.duration d) h =
    packed_string-pos (append_duration [] d) (duration-short d)
packed_scalar-pos (Scalar.error e) h = packed_string-pos e h

pub packed-pos : ⦃fl : Floats⦄ (v : Value) → IsPackable v → 0 < length (packed v)
unfolding packed IsPackable
packed-pos nil h = omega arith
packed-pos (scalar s) h = packed_scalar-pos s h
packed-pos nil_pointer h = omega arith
packed-pos (pointer v) h = packed-pos v h
packed-pos (slice_string ss) h = append-pos _ _ (array_header-pos (length ss) h.0)
packed-pos (slice_any vs) h = append-pos _ _ (array_header-pos (length_values vs) h.0)
packed-pos (map_string_string m) h = append-pos _ _ (map_header-pos (length m) h.0)
packed-pos (map_string_any m) h = append-pos _ _ (map_header-pos (length_fields m) h.0)
packed-pos (map_any m) h = append-pos _ _ (map_header-pos (length_entries m) h.0)

abbrev pub string_items : List (List ℕ) → List (List ℕ)
string_items [] = []
string_items (s ∷ ss) = packed_string s ∷ string_items ss

pub concat-string_items : (ss : List (List ℕ)) → concat (string_items ss) ≡ packed_strings ss
unfolding packed_strings
concat-string_items [] = refl
concat-string_items (s ∷ ss) = ap (λ t. packed_string s ++ t) (concat-string_items ss)

abbrev pub value_items : ⦃fl : Floats⦄ → Values → List (List ℕ)
value_items no_value = []
value_items (value v vs) = packed v ∷ value_items vs

pub concat-value_items : ⦃fl : Floats⦄ (vs : Values) → concat (value_items vs) ≡ packed_values vs
unfolding packed
concat-value_items no_value = refl
concat-value_items (value v vs) = ap (λ t. packed v ++ t) (concat-value_items vs)
