-- ===== src/Encode/Values.antt =====
-- Encode of encode.go on the values of Value, over any emitter: its type switch, and the functions on
-- reflected values that makeEncodeFunc gives for the other types. No adapter is registered for the
-- types of Value, and SortMapKeys is not set.
use objconv.Prelude.{ℕ, suc, ◌+◌, List, [], ◌∷◌, length, false}
use objconv.Prelude.Int.{pos}
use objconv.Go.Float.{Floats}
use objconv.Go.Outcome.{M, pure, ◌>>◌}
use objconv.Encode.Map.{Encoder, begin_value, encode_array_in, separate_pairs}
use objconv.Emit.{Emitter}
use objconv.Value.{
  IntKind, UintKind, FloatKind, Scalar, Value, nil, scalar, nil_pointer, pointer, slice_string,
  slice_any, map_string_string, map_string_any, map_any, Values, no_value, value, Fields, no_field,
  field, Entries, no_entry, entry,
}

-- The bit size that an integer is emitted with: 0 for int.
abbrev pub int_size : IntKind → ℕ
int_size IntKind.int = 0
int_size IntKind.int8 = 8
int_size IntKind.int16 = 16
int_size IntKind.int32 = 32
int_size IntKind.int64 = 64

abbrev pub uint_size : UintKind → ℕ
uint_size UintKind.uint = 0
uint_size UintKind.uint8 = 8
uint_size UintKind.uint16 = 16
uint_size UintKind.uint32 = 32
uint_size UintKind.uint64 = 64
uint_size UintKind.uintptr = 0

-- Behind a pointer to an int the type switch gives the size of the machine's int.
abbrev pub pointed_int_size : IntKind → ℕ
pointed_int_size IntKind.int = 64
pointed_int_size k = int_size k

abbrev pub length_values : Values → ℕ
length_values no_value = 0
length_values (value v vs) = suc (length_values vs)

abbrev pub length_fields : Fields → ℕ
length_fields no_field = 0
length_fields (field k v m) = suc (length_fields m)

abbrev pub length_entries : Entries → ℕ
length_entries no_entry = 0
length_entries (entry k v m) = suc (length_entries m)

-- An encoder whose next value is not one of a map.
abbrev pub plain : Encoder
plain = record { key = false }

-- How a value is reached: by the type switch of Encode, by its cases for pointers, or by a function
-- on reflected values.
pub data Way : Type 0 where
  direct pointed reflected : Way

-- The pointers of the switch point to a value that is no pointer: the others are reflected.
abbrev pub way_of_pointer : Way → Way
way_of_pointer direct = pointed
way_of_pointer pointed = reflected
way_of_pointer reflected = reflected

-- encodeSliceOfInterface calls Encode, and encodeArray what makeEncodeFunc gives.
abbrev pub way_of_items : Way → Way
way_of_items direct = direct
way_of_items pointed = direct
way_of_items reflected = reflected

module _ {S : Type 0} (em : Emitter S) ⦃fl : Floats⦄ where
  -- encodeFloat32 and encodeFloat64
  abbrev pub encode_float : FloatKind → ℕ → M S (Unit {0})
  encode_float FloatKind.float32 f = em.emit_float (fl.widen f) 32
  encode_float FloatKind.float64 f = em.emit_float f 64

  -- encodeBool to encodeError
  unfoldable pub reflected_scalar : Scalar → M S (Unit {0})
  reflected_scalar (Scalar.bool b) = em.emit_bool b
  reflected_scalar (Scalar.int k i) = em.emit_int i (int_size k)
  reflected_scalar (Scalar.uint k u) = em.emit_uint u (uint_size k)
  reflected_scalar (Scalar.float k f) = encode_float k f
  reflected_scalar (Scalar.string s) = em.emit_string s
  reflected_scalar (Scalar.bytes b) = em.emit_bytes b
  reflected_scalar (Scalar.time t) = em.emit_time t
  reflected_scalar (Scalar.duration d) = em.emit_duration d
  reflected_scalar (Scalar.error e) = em.emit_error e

  -- The cases of the type switch, and its default.
  unfoldable pub encode_scalar : Scalar → M S (Unit {0})
  unfolding reflected_scalar
  encode_scalar (Scalar.bool b) = em.emit_bool b
  encode_scalar (Scalar.int k i) = em.emit_int i (int_size k)
  encode_scalar (Scalar.uint UintKind.uint8 u) = em.emit_uint u 8
  encode_scalar (Scalar.uint UintKind.uint16 u) = em.emit_uint u 16
  encode_scalar (Scalar.uint UintKind.uint32 u) = em.emit_uint u 32
  encode_scalar (Scalar.uint UintKind.uint64 u) = em.emit_uint u 64
  encode_scalar (Scalar.string s) = em.emit_string s
  encode_scalar (Scalar.bytes b) = em.emit_bytes b
  encode_scalar (Scalar.time t) = em.emit_time t
  encode_scalar (Scalar.duration d) = em.emit_duration d
  encode_scalar s = reflected_scalar s

  -- A pointer to one of these: the pointer cases of the switch, and encodePointer for the others.
  unfoldable pub pointed_scalar : Scalar → M S (Unit {0})
  unfolding encode_scalar
  pointed_scalar (Scalar.int k i) = em.emit_int i (pointed_int_size k)
  pointed_scalar s = encode_scalar s

  abbrev pub string_calls : List (List ℕ) → List (M S (Unit {0}))
  string_calls [] = []
  string_calls (s ∷ ss) = em.emit_string s ∷ string_calls ss

  unfoldable pub encode_slice_of_string : List (List ℕ) → M S (Unit {0})
  unfolding encode_array_in
  encode_slice_of_string ss = encode_array_in em.maps plain (pos (length ss)) (string_calls ss)

  -- One round of the loops over the entries of a map.
  abbrev pub encode_entry : ℕ → M S (Unit {0}) → M S (Unit {0}) → M S (Unit {0})
  encode_entry i of_key of_value =
      separate_pairs em.maps i >> of_key >> em.maps.emit_map_value >> of_value

  unfoldable pub string_entries : ℕ → List (List ℕ × List ℕ) → M S (Unit {0})
  string_entries i [] = pure tt
  string_entries i ((k, v) ∷ m) =
      encode_entry i (em.emit_string k) (em.emit_string v) >> string_entries (i + 1) m

  unfoldable pub encode_map_string_string : List (List ℕ × List ℕ) → M S (Unit {0})
  unfolding string_entries
  encode_map_string_string m =
      em.maps.emit_map_begin (pos (length m)) >> string_entries 0 m >> em.maps.emit_map_end

  -- The parts for each way to a value: from an interface, behind a pointer in one, and reflected.
  abbrev pub scalar_by : Way → Scalar → M S (Unit {0})
  scalar_by direct = encode_scalar
  scalar_by pointed = pointed_scalar
  scalar_by reflected = reflected_scalar

  unfoldable mutual
    -- Encode where the key flag is not set, and the function that makeEncodeFunc gives.
    pub encode_by : Way → Value → M S (Unit {0})
    encode_by way nil = em.emit_nil
    encode_by way (scalar s) = scalar_by way s
    encode_by way nil_pointer = em.emit_nil
    encode_by way (pointer v) = encode_by (way_of_pointer way) v
    encode_by way (slice_string ss) = encode_slice_of_string ss
    encode_by way (slice_any vs) =
        encode_array_in em.maps plain (pos (length_values vs)) (value_calls (way_of_items way) vs)
    encode_by way (map_string_string m) = encode_map_string_string m
    encode_by way (map_string_any m) =
        em.maps.emit_map_begin (pos (length_fields m)) >> fields 0 m >> em.maps.emit_map_end
    encode_by way (map_any m) =
        em.maps.emit_map_begin (pos (length_entries m)) >> entries 0 m >> em.maps.emit_map_end

    pub value_calls : Way → Values → List (M S (Unit {0}))
    value_calls way no_value = []
    value_calls way (value v vs) = encode_by way v ∷ value_calls way vs

    pub fields : ℕ → Fields → M S (Unit {0})
    fields i no_field = pure tt
    fields i (field k v m) =
        encode_entry i (em.emit_string k) (encode_by direct v) >> fields (i + 1) m

    pub entries : ℕ → Entries → M S (Unit {0})
    entries i no_entry = pure tt
    entries i (entry k v m) =
        encode_entry i (encode_by direct k) (encode_by direct v) >> entries (i + 1) m

  unfoldable pub encode : Encoder → Value → M S (Unit {0})
  unfolding begin_value
  encode e v = begin_value em.maps e >> encode_by direct v
