-- ===== src/Msgpack/Values/Emit.antt =====
-- Encode of encode.go over the emitter of msgpack/emit.go: the bytes that are written for a value.
use objconv.Prelude.{
  ℕ, zero, suc, ◌+◌, ◌^◌, ◌<◌, ◌≡◌, refl, ap, subst, List, [], ◌∷◌, ◌++◌, length, arith, Bool-cases,
  inl, inr, ne→==,
}
use objconv.Prelude.Int.{pos}
use objconv.Go.Float.{Floats}
use objconv.Go.Io.{Writer}
use objconv.Go.Outcome.{ok, M, ◌>>◌, Returns, Returns-after}
use objconv.Encode.Map.{Encoder, begin_value, encode_array_in}
use objconv.Encode.Values.{
  plain, encode_entry, Way, direct, pointed, reflected, encode, encode_by, value_calls, fields,
  entries, string_calls, string_entries, encode_slice_of_string, encode_map_string_string,
  encode_scalar, reflected_scalar, pointed_scalar, scalar_by, way_of_pointer, way_of_items,
  length_values, length_fields, length_entries,
}
use objconv.Msgpack.Emit.{
  Emitter, nil_bytes, bool_bytes, int_bytes, uint_bytes, float_bytes, time_bytes, string_header,
  bytes_header, array_header, map_header, emit_nil, emit_bool, emit_int, emit_uint, emit_float,
  emit_string, emit_bytes, emit_time, emit_duration, emit_error, emit_map_begin, emit_map_end,
  emit_map_value, emit_map_next, write,
}
use objconv.Msgpack.Emit.Arrays.{concat, Emits}
use objconv.Msgpack.Emit.Counted.{encode_array-known_length}
use objconv.Msgpack.Emit.Laws.{Reliable, Wrote, Wrote-nil, Wrote-append, write_lem, emit_string_lem}
use objconv.Msgpack.Values.{
  value_emitter, header_of, packed_string, packed_scalar, packed_texts, packed, packed_fields,
  packed_entries, Fits, AllShort, TextsShort, IsPackable, IsPackableValues, IsPackableFields,
  IsPackableEntries,
}
use objconv.Objutil.Duration.{append_duration}
use objconv.Value.{
  UintKind, FloatKind, Scalar, Value, nil, scalar, nil_pointer, pointer, slice_string, slice_any,
  map_string_string, map_string_any, map_any, Values, no_value, value, Fields, no_field, field,
  Entries, no_entry, entry,
}
use objconv.Msgpack.Values.Format.{
  string_header-some, bytes_header-some, array_header-some, map_header-some, duration-short,
  packed_string-pos, packed-pos, string_items, concat-string_items, value_items, concat-value_items,
}

-- A length below 2^32 has a header.

module _ {W : Type 0} ⦃io : Writer W⦄ ⦃fl : Floats⦄ (reliable : Reliable io) where
  -- A call that writes the bytes, and changes nothing else.
  abbrev Writes : List ℕ → M (Emitter W) (Unit {0}) → Type 0
  Writes bs f = (e : Emitter W) → Returns (f e) tt (Wrote bs e)

  Writes-then :
      (xs ys : List ℕ) (f g : M (Emitter W) (Unit {0}))
      → Writes xs f
      → Writes ys g
      → Writes (xs ++ ys) (f >> g)
  Writes-then xs ys f g p q e =
      Returns-after (λ _. g) (p e)
        λ e1 w.
          let r = q e1 in
          record {
            state = r.state;
            computes = r.computes;
            post = Wrote-append xs ys e e1 r.state w r.post;
          }

  Writes-nothing : Writes [] (λ e. (ok tt, e))
  Writes-nothing e = record { state = e; computes = refl; post = Wrote-nil e }

  write_lem' : (bs : List ℕ) → Writes bs (write bs)
  write_lem' bs e = write_lem reliable bs e

  string_lem : (s : List ℕ) → length s < 2 ^ 32 → Writes (packed_string s) (emit_string s)
  string_lem s h e =
      emit_string_lem reliable s (header_of (string_header (length s))) e
        (string_header-some (length s) h)

  bytes_lem :
      (b : List ℕ)
      → length b < 2 ^ 32
      → Writes (header_of (bytes_header (length b)) ++ b) (emit_bytes b)
  unfolding emit_bytes
  bytes_lem b h e =
      rw (bytes_header-some (length b) h, emit_bytes)
        (Writes-then (header_of (bytes_header (length b))) b _ _
          (write_lem' (header_of (bytes_header (length b)))) (write_lem' b) e)

  reflected_lem :
      (s : Scalar) → Fits s → Writes (packed_scalar s) (reflected_scalar value_emitter s)
  unfolding reflected_scalar packed_scalar emit_bool emit_int emit_uint emit_float emit_time
      emit_duration emit_error
  reflected_lem (Scalar.bool b) h = write_lem' (bool_bytes b)
  reflected_lem (Scalar.int k i) h = write_lem' (int_bytes i)
  reflected_lem (Scalar.uint k u) h = write_lem' (uint_bytes u)
  reflected_lem (Scalar.float FloatKind.float32 f) h = write_lem' (float_bytes (fl.widen f) 32)
  reflected_lem (Scalar.float FloatKind.float64 f) h = write_lem' (float_bytes f 64)
  reflected_lem (Scalar.string s) h = string_lem s h
  reflected_lem (Scalar.bytes b) h = bytes_lem b h
  reflected_lem (Scalar.time t) h = write_lem' (time_bytes t)
  reflected_lem (Scalar.duration d) h = string_lem (append_duration [] d) (duration-short d)
  reflected_lem (Scalar.error e) h = string_lem e h

  direct_lem : (s : Scalar) → Fits s → Writes (packed_scalar s) (encode_scalar value_emitter s)
  unfolding reflected_scalar encode_scalar
  direct_lem (Scalar.uint UintKind.uint8 u) h = reflected_lem (Scalar.uint UintKind.uint8 u) h
  direct_lem (Scalar.uint UintKind.uint16 u) h = reflected_lem (Scalar.uint UintKind.uint16 u) h
  direct_lem (Scalar.uint UintKind.uint32 u) h = reflected_lem (Scalar.uint UintKind.uint32 u) h
  direct_lem (Scalar.uint UintKind.uint64 u) h = reflected_lem (Scalar.uint UintKind.uint64 u) h
  direct_lem s h = reflected_lem s h

  pointed_lem : (s : Scalar) → Fits s → Writes (packed_scalar s) (pointed_scalar value_emitter s)
  unfolding pointed_scalar packed_scalar emit_int
  pointed_lem (Scalar.int k i) h = write_lem' (int_bytes i)
  pointed_lem s h = direct_lem s h

  scalar_lem :
      (way : Way) (s : Scalar) → Fits s → Writes (packed_scalar s) (scalar_by value_emitter way s)
  scalar_lem direct s h = direct_lem s h
  scalar_lem pointed s h = pointed_lem s h
  scalar_lem reflected s h = reflected_lem s h

  -- The methods for the separators and ends of maps write nothing.
  Writes-idle :
      (xs : List ℕ) (f : M (Emitter W) (Unit {0})) → Writes xs f → Writes xs (f >> λ e. (ok tt, e))
  Writes-idle xs f p e =
      Returns-after (λ _ e1. (ok tt, e1)) (p e)
        λ e1 w. record { state = e1; computes = refl; post = w }

  entry_lem :
      (i : ℕ) (xs ys : List ℕ) (f g : M (Emitter W) (Unit {0}))
      → Writes xs f
      → Writes ys g
      → Writes (xs ++ ys) (encode_entry value_emitter i f g)
  unfolding emit_map_next emit_map_value
  entry_lem zero xs ys f g p q e = Writes-then xs ys _ g (Writes-idle xs f p) q e
  entry_lem (suc i) xs ys f g p q e =
      rw (ne→== (suc i) 0 (omega arith)) (Writes-then xs ys _ g (Writes-idle xs f p) q e)

  next_lem :
      (i : ℕ) (xs ys zs : List ℕ) (f g rest : M (Emitter W) (Unit {0}))
      → Writes xs f
      → Writes ys g
      → Writes zs rest
      → Writes ((xs ++ ys) ++ zs) (encode_entry value_emitter i f g >> rest)
  next_lem i xs ys zs f g rest p q r =
      Writes-then (xs ++ ys) zs _ rest (entry_lem i xs ys f g p q) r

  begin_lem : (n : ℕ) → n < 2 ^ 32 → Writes (header_of (map_header n)) (emit_map_begin (pos n))
  unfolding emit_map_begin
  begin_lem n h e =
      rw (map_header-some n h, emit_map_begin) (write_lem' (header_of (map_header n)) e)

  map_lem :
      (n : ℕ) (bs : List ℕ) (loop : M (Emitter W) (Unit {0}))
      → n < 2 ^ 32
      → Writes bs loop
      → Writes (header_of (map_header n) ++ bs) (emit_map_begin (pos n) >> loop >> emit_map_end)
  unfolding emit_map_end
  map_lem n bs loop h p = Writes-idle _ _ (Writes-then _ bs _ loop (begin_lem n h) p)

  array_lem :
      (n : ℕ) (bs : List (List ℕ)) (fs : List (M (Emitter W) (Unit {0})))
      → n < 2 ^ 32
      → n ≡ length fs
      → Emits fs bs
      → Writes
          (header_of (array_header n) ++ concat bs)
          (encode_array_in (value_emitter {W = W}).maps plain (pos n) fs)
  unfolding encode_array_in
  array_lem n bs fs h c p e = rw c (
      encode_array-known_length reliable fs bs (header_of (array_header (length fs))) e p
        (array_header-some (length fs) (omega arith)))

  string_calls_lem :
      (ss : List (List ℕ))
      → AllShort ss
      → Emits {W = W} (string_calls value_emitter ss) (string_items ss)
  string_calls_lem [] h = tt
  string_calls_lem (s ∷ ss) h = (string_lem s h.0, packed_string-pos s h.0, string_calls_lem ss h.1)

  length-string_calls :
      (ss : List (List ℕ)) → length ss ≡ length (string_calls (value_emitter {W = W}) ss)
  length-string_calls [] = refl
  length-string_calls (s ∷ ss) = ap suc (length-string_calls ss)

  strings_lem :
      (ss : List (List ℕ))
      → length ss < 2 ^ 32
      → AllShort ss
      → Writes (packed (slice_string ss)) (encode_slice_of_string value_emitter ss)
  unfolding packed encode_slice_of_string
  strings_lem ss h k =
      subst
        (λ t.
          Writes (header_of (array_header (length ss)) ++ t)
            (encode_slice_of_string value_emitter ss))
        (concat-string_items ss)
        (array_lem (length ss) (string_items ss) _ h (length-string_calls ss)
          (string_calls_lem ss k))

  texts_lem :
      (i : ℕ) (m : List (List ℕ × List ℕ))
      → TextsShort m
      → Writes (packed_texts m) (string_entries value_emitter i m)
  unfolding packed_texts string_entries
  texts_lem i [] h e = Writes-nothing e
  texts_lem i ((k, v) ∷ m) h e =
      next_lem i (packed_string k) (packed_string v) (packed_texts m) _ _ _ (string_lem k h.0)
        (string_lem v h.1) (texts_lem (i + 1) m h.2) e

  map_texts_lem :
      (m : List (List ℕ × List ℕ))
      → length m < 2 ^ 32
      → TextsShort m
      → Writes (packed (map_string_string m)) (encode_map_string_string value_emitter m)
  unfolding packed encode_map_string_string
  map_texts_lem m h k = map_lem (length m) (packed_texts m) _ h (texts_lem 0 m k)

  length-value_calls :
      (way : Way) (vs : Values)
      → length_values vs ≡ length (value_calls (value_emitter {W = W}) way vs)
  unfolding encode_by
  length-value_calls way no_value = refl
  length-value_calls way (value v vs) = ap suc (length-value_calls way vs)

  mutual
    unfolding packed IsPackable encode_by emit_nil

    encode_by_lem :
        (way : Way) (v : Value) → IsPackable v → Writes (packed v) (encode_by value_emitter way v)
    encode_by_lem way nil h = write_lem' nil_bytes
    encode_by_lem way (scalar s) h = scalar_lem way s h
    encode_by_lem way nil_pointer h = write_lem' nil_bytes
    encode_by_lem way (pointer v) h = encode_by_lem (way_of_pointer way) v h
    encode_by_lem way (slice_string ss) h = strings_lem ss h.0 h.1
    encode_by_lem way (slice_any vs) h =
        let calls = value_calls (value_emitter {W = W}) (way_of_items way) vs in
        subst
          (λ t.
            Writes (header_of (array_header (length_values vs)) ++ t)
              (encode_array_in (value_emitter {W = W}).maps plain (pos (length_values vs)) calls))
          (concat-value_items vs)
          (array_lem (length_values vs) (value_items vs) calls h.0
            (length-value_calls (way_of_items way) vs) (value_calls_lem (way_of_items way) vs h.1))
    encode_by_lem way (map_string_string m) h = map_texts_lem m h.0 h.1
    encode_by_lem way (map_string_any m) h =
        map_lem (length_fields m) (packed_fields m) _ h.0 (fields_lem 0 m h.1)
    encode_by_lem way (map_any m) h =
        map_lem (length_entries m) (packed_entries m) _ h.0 (entries_lem 0 m h.1)

    value_calls_lem :
        (way : Way) (vs : Values)
        → IsPackableValues vs
        → Emits {W = W} (value_calls value_emitter way vs) (value_items vs)
    value_calls_lem way no_value h = tt
    value_calls_lem way (value v vs) h =
        (encode_by_lem way v h.0, packed-pos v h.0, value_calls_lem way vs h.1)

    fields_lem :
        (i : ℕ) (m : Fields)
        → IsPackableFields m
        → Writes (packed_fields m) (fields value_emitter i m)
    fields_lem i no_field h = λ e. Writes-nothing e
    fields_lem i (field k v m) h =
        next_lem i (packed_string k) (packed v) (packed_fields m) _ _ _ (string_lem k h.0)
          (encode_by_lem direct v h.1) (fields_lem (i + 1) m h.2)

    entries_lem :
        (i : ℕ) (m : Entries)
        → IsPackableEntries m
        → Writes (packed_entries m) (entries value_emitter i m)
    entries_lem i no_entry h = λ e. Writes-nothing e
    entries_lem i (entry k v m) h =
        next_lem i (packed k) (packed v) (packed_entries m) _ _ _ (encode_by_lem direct k h.0)
          (encode_by_lem direct v h.1) (entries_lem (i + 1) m h.2)

  -- Encode of any value that MessagePack can hold, over its emitter and a writer that never fails and
  -- for an encoder of any key flag, writes exactly the format of the value, whatever it nests, and
  -- leaves the emitter's writer and stack as they were.
  pub encode-packed :
      (en : Encoder) (v : Value) (e : Emitter W)
      → IsPackable v
      → Returns (encode value_emitter en v e) tt (Wrote (packed v) e)
  unfolding encode begin_value emit_map_value
  encode-packed en v e h = elim (Bool-cases en.key) [
    | inl k ↦ rw k (encode_by_lem direct v h e)
    | inr k ↦ rw k (encode_by_lem direct v h e)
  ]
