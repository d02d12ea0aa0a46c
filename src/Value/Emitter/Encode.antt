-- ===== src/Value/Emitter/Encode.antt =====
-- Encode of encode.go into ValueEmitter of value.go.
use objconv.Prelude.{
  ℕ, suc, ◌+◌, ◌≡◌, refl, ap, ◌∙◌, List, [], ◌∷◌, length, arith, lt→ltb, le→ltb_false, ◌==◌, inl,
  inr, Bool-cases,
}
use objconv.Prelude.Int.{pos}
use objconv.Go.Float.{Floats}
use objconv.Go.Outcome.{ok, M, ◌>>◌}
use objconv.Encode.{encode_items, separate}
use objconv.Encode.Map.{Encoder, begin_value, encode_array_in, separate_pairs}
use objconv.Encode.Values.{
  plain, encode_entry, Way, direct, pointed, reflected, encode, encode_by, value_calls, fields,
  entries, string_calls, string_entries, encode_slice_of_string, encode_map_string_string,
  encode_scalar, reflected_scalar, pointed_scalar, length_values, way_of_pointer, way_of_items,
  scalar_by,
}
use objconv.Value.{
  UintKind, FloatKind, Scalar, Value, nil, scalar, nil_pointer, pointer, slice_string, slice_any,
  map_string_string, map_string_any, map_any, Values, no_value, value, Fields, no_field, field,
  Entries, no_entry, entry, text, of_list, natural_scalar, natural_strings, natural_texts, natural,
  natural_values, natural_fields, natural_entries,
}
use objconv.Value.Emitter.Laws.{
  pushed_all, to_list, flat, marked, of_list-to_list, pushed_all-pushed, pushed_all-nil,
  emit_array_end_lem, emit_map_end_lem, WellKeyed, WellKeyedValues, WellKeyedEntries,
}
use objconv.Value.Emitter.{Keys, ValueEmitter, value_emitter, pushed, push, push_mark, emit_map_end}

module _ ⦃keys : Keys⦄ where
  separate_lem : (i : ℕ) (e : ValueEmitter) → separate value_emitter.maps.arrays i e ≡ (ok tt, e)
  separate_lem i e = elim (Bool-cases (i == 0)) [ inl z ↦ rw z refl | inr z ↦ rw z refl ]

  separate_pairs_lem :
      (i : ℕ) (e : ValueEmitter) → separate_pairs value_emitter.maps i e ≡ (ok tt, e)
  separate_pairs_lem i e = elim (Bool-cases (i == 0)) [ inl z ↦ rw z refl | inr z ↦ rw z refl ]

  -- A call that pushes the value.
  abbrev Pushes : Value → M ValueEmitter (Unit {0}) → Type 0
  Pushes v f = (e : ValueEmitter) → f e ≡ (ok tt, pushed v e)

  abbrev PushesAll : List Value → List (M ValueEmitter (Unit {0})) → Type 0
  PushesAll [] [] = Unit
  PushesAll [] (f ∷ fs) = ⊥
  PushesAll (v ∷ vs) [] = ⊥
  PushesAll (v ∷ vs) (f ∷ fs) = Pushes v f × PushesAll vs fs

  encode_items_lem :
      (vs : List Value) (fs : List (M ValueEmitter (Unit {0}))) (n i : ℕ) (e : ValueEmitter)
      → n ≡ i + length vs
      → PushesAll vs fs
      → encode_items value_emitter.maps.arrays (pos n) i fs e ≡ (ok tt, pushed_all vs e)
  unfolding encode_items
  encode_items_lem [] [] n i e h p =
      rw (le→ltb_false i n (omega arith)) (ap (λ t. (ok tt, t)) (pushed_all-nil e))
  encode_items_lem [] (f ∷ fs) n i e h p = absurd p
  encode_items_lem (v ∷ vs) [] n i e h p = absurd p
  encode_items_lem (v ∷ vs) (f ∷ fs) n i e h p =
      rw (lt→ltb i n (omega arith), separate_lem i e, p.0 e)
        (encode_items_lem vs fs n (i + 1) (pushed v e) (omega arith) p.1
          ∙ ap (λ t. (ok tt, t)) (pushed_all-pushed v vs e))

  encode_array_lem :
      (vs : List Value) (fs : List (M ValueEmitter (Unit {0}))) (n : ℕ)
      → n ≡ length vs
      → PushesAll vs fs
      → Pushes (slice_any (of_list vs)) (encode_array_in value_emitter.maps plain (pos n) fs)
  unfolding encode_array_in push_mark
  encode_array_lem vs fs n h p e =
      rw (encode_items_lem vs fs n 0 (marked e) (omega arith) p) (emit_array_end_lem vs e)

module _ ⦃keys : Keys⦄ ⦃fl : Floats⦄ where
  encode_entry_lem :
      (i : ℕ) (k v : Value) (f g : M ValueEmitter (Unit {0})) (e : ValueEmitter)
      → Pushes k f
      → Pushes v g
      → encode_entry value_emitter i f g e ≡ (ok tt, pushed v (pushed k e))
  encode_entry_lem i k v f g e p q = rw (separate_pairs_lem i e, p e, q (pushed k e)) refl

  push_lem : (v : Value) → Pushes v (push v)
  unfolding push
  push_lem v e = refl

  reflected_scalar_lem :
      (s : Scalar) → Pushes (scalar (natural_scalar s)) (reflected_scalar value_emitter s)
  unfolding reflected_scalar push
  reflected_scalar_lem (Scalar.bool b) e = refl
  reflected_scalar_lem (Scalar.int k i) e = refl
  reflected_scalar_lem (Scalar.uint k u) e = refl
  reflected_scalar_lem (Scalar.float FloatKind.float32 f) e = refl
  reflected_scalar_lem (Scalar.float FloatKind.float64 f) e = refl
  reflected_scalar_lem (Scalar.string t) e = refl
  reflected_scalar_lem (Scalar.bytes b) e = refl
  reflected_scalar_lem (Scalar.time t) e = refl
  reflected_scalar_lem (Scalar.duration d) e = refl
  reflected_scalar_lem (Scalar.error t) e = refl

  encode_scalar_lem :
      (s : Scalar) → Pushes (scalar (natural_scalar s)) (encode_scalar value_emitter s)
  unfolding encode_scalar push
  encode_scalar_lem (Scalar.uint UintKind.uint8 u) e = refl
  encode_scalar_lem (Scalar.uint UintKind.uint16 u) e = refl
  encode_scalar_lem (Scalar.uint UintKind.uint32 u) e = refl
  encode_scalar_lem (Scalar.uint UintKind.uint64 u) e = refl
  encode_scalar_lem (Scalar.uint UintKind.uint u) e =
      reflected_scalar_lem (Scalar.uint UintKind.uint u) e
  encode_scalar_lem (Scalar.uint UintKind.uintptr u) e =
      reflected_scalar_lem (Scalar.uint UintKind.uintptr u) e
  encode_scalar_lem (Scalar.bool b) e = refl
  encode_scalar_lem (Scalar.int k i) e = refl
  encode_scalar_lem (Scalar.float k f) e = reflected_scalar_lem (Scalar.float k f) e
  encode_scalar_lem (Scalar.string t) e = refl
  encode_scalar_lem (Scalar.bytes b) e = refl
  encode_scalar_lem (Scalar.time t) e = refl
  encode_scalar_lem (Scalar.duration d) e = refl
  encode_scalar_lem (Scalar.error t) e = reflected_scalar_lem (Scalar.error t) e

  pointed_scalar_lem :
      (s : Scalar) → Pushes (scalar (natural_scalar s)) (pointed_scalar value_emitter s)
  unfolding pointed_scalar push
  pointed_scalar_lem (Scalar.int k i) e = refl
  pointed_scalar_lem s e = encode_scalar_lem s e

  scalar_by_lem :
      (way : Way) (s : Scalar) → Pushes (scalar (natural_scalar s)) (scalar_by value_emitter way s)
  scalar_by_lem direct s = encode_scalar_lem s
  scalar_by_lem pointed s = pointed_scalar_lem s
  scalar_by_lem reflected s = reflected_scalar_lem s

  string_calls_lem :
      (ss : List (List ℕ)) → PushesAll (natural_strings ss) (string_calls value_emitter ss)
  unfolding push
  string_calls_lem [] = tt
  string_calls_lem (s ∷ ss) = ((λ e. refl), string_calls_lem ss)

  length-natural_strings : (ss : List (List ℕ)) → length ss ≡ length (natural_strings ss)
  length-natural_strings [] = refl
  length-natural_strings (s ∷ ss) = ap suc (length-natural_strings ss)

  encode_slice_of_string_lem :
      (ss : List (List ℕ))
      → Pushes (slice_any (of_list (natural_strings ss))) (encode_slice_of_string value_emitter ss)
  unfolding encode_slice_of_string
  encode_slice_of_string_lem ss =
      encode_array_lem (natural_strings ss) (string_calls value_emitter ss) (length ss)
        (length-natural_strings ss) (string_calls_lem ss)

  -- The loops over the entries of a map push keys and values in turn.
  abbrev PushesFlat : Entries → M ValueEmitter (Unit {0}) → Type 0
  PushesFlat m f = (e : ValueEmitter) → f e ≡ (ok tt, pushed_all (flat m) e)

  next_entry_lem :
      (i : ℕ) (k v : Value) (m : Entries) (f g rest : M ValueEmitter (Unit {0}))
      → Pushes k f
      → Pushes v g
      → PushesFlat m rest
      → PushesFlat (entry k v m) (encode_entry value_emitter i f g >> rest)
  next_entry_lem i k v m f g rest p q r e =
      rw (encode_entry_lem i k v f g e p q, r (pushed v (pushed k e)))
        (ap (λ t. (ok tt, t))
          (pushed_all-pushed v (flat m) (pushed k e) ∙ pushed_all-pushed k (v ∷ flat m) e))

  encode_map_lem :
      (m : Entries) (loop : M ValueEmitter (Unit {0}))
      → WellKeyedEntries m
      → PushesFlat m loop
      → Pushes (map_any m) (push_mark >> loop >> emit_map_end)
  unfolding push_mark
  encode_map_lem m loop h p e = rw (p (marked e)) (emit_map_end_lem m e h)

  string_entries_lem :
      (i : ℕ) (m : List (List ℕ × List ℕ))
      → PushesFlat (natural_texts m) (string_entries value_emitter i m)
  unfolding string_entries push
  string_entries_lem i [] e = ap (λ t. (ok tt, t)) (pushed_all-nil e)
  string_entries_lem i ((k, v) ∷ m) e =
      next_entry_lem i (text k) (text v) (natural_texts m) _ _ _ (λ e'. refl) (λ e'. refl)
        (string_entries_lem (i + 1) m) e

  encode_map_string_string_lem :
      (m : List (List ℕ × List ℕ))
      → WellKeyedEntries (natural_texts m)
      → Pushes (map_any (natural_texts m)) (encode_map_string_string value_emitter m)
  unfolding encode_map_string_string
  encode_map_string_string_lem m h =
      encode_map_lem (natural_texts m) (string_entries value_emitter 0 m) h (string_entries_lem 0 m)

  length-to_list : (vs : Values) → length_values vs ≡ length (to_list (natural_values vs))
  unfolding natural
  length-to_list no_value = refl
  length-to_list (value v vs) = ap suc (length-to_list vs)

  mutual
    unfolding natural encode_by WellKeyed

    encode_by_lem :
        (way : Way) (v : Value)
        → WellKeyed (natural v)
        → Pushes (natural v) (encode_by value_emitter way v)
    encode_by_lem way nil h = push_lem nil
    encode_by_lem way (scalar s) h = scalar_by_lem way s
    encode_by_lem way nil_pointer h = push_lem nil
    encode_by_lem way (pointer v) h = encode_by_lem (way_of_pointer way) v h
    encode_by_lem way (slice_string ss) h = encode_slice_of_string_lem ss
    encode_by_lem way (slice_any vs) h = λ e.
        encode_array_lem (to_list (natural_values vs))
          (value_calls value_emitter (way_of_items way) vs) (length_values vs) (length-to_list vs)
          (value_calls_lem (way_of_items way) vs h) e
        ∙ ap (λ (t : Values). (ok tt, pushed (slice_any t) e)) (of_list-to_list (natural_values vs))
    encode_by_lem way (map_string_string m) h = encode_map_string_string_lem m h
    encode_by_lem way (map_string_any m) h =
        encode_map_lem (natural_fields m) (fields value_emitter 0 m) h (fields_lem 0 m h)
    encode_by_lem way (map_any m) h =
        encode_map_lem (natural_entries m) (entries value_emitter 0 m) h (entries_lem 0 m h)

    value_calls_lem :
        (way : Way) (vs : Values)
        → WellKeyedValues (natural_values vs)
        → PushesAll (to_list (natural_values vs)) (value_calls value_emitter way vs)
    value_calls_lem way no_value h = tt
    value_calls_lem way (value v vs) h = (encode_by_lem way v h.0, value_calls_lem way vs h.1)

    fields_lem :
        (i : ℕ) (m : Fields)
        → WellKeyedEntries (natural_fields m)
        → PushesFlat (natural_fields m) (fields value_emitter i m)
    fields_lem i no_field h = λ e. ap (λ t. (ok tt, t)) (pushed_all-nil e)
    fields_lem i (field k v m) h =
        next_entry_lem i (text k) (natural v) (natural_fields m) _ _ _ (push_lem (text k))
          (encode_by_lem direct v h.1) (fields_lem (i + 1) m h.4)

    entries_lem :
        (i : ℕ) (m : Entries)
        → WellKeyedEntries (natural_entries m)
        → PushesFlat (natural_entries m) (entries value_emitter i m)
    entries_lem i no_entry h = λ e. ap (λ t. (ok tt, t)) (pushed_all-nil e)
    entries_lem i (entry k v m) h =
        next_entry_lem i (natural k) (natural v) (natural_entries m) _ _ _
          (encode_by_lem direct k h.0) (encode_by_lem direct v h.1) (entries_lem (i + 1) m h.4)

  -- Encode into a ValueEmitter succeeds for every value, whatever way it nests and whatever the
  -- encoder's key flag: it pushes the value with its pointers followed, its numbers widened and its
  -- slices and maps in their generic types, and leaves the rest of the emitter as it was. The
  -- condition is that the keys of each map stay hashable and apart from one another in that form.
  pub encode-value_emitter :
      (en : Encoder) (v : Value) (e : ValueEmitter)
      → WellKeyed (natural v)
      → encode value_emitter en v e ≡ (ok tt, pushed (natural v) e)
  unfolding encode begin_value
  encode-value_emitter en v e h = elim (Bool-cases en.key) [
    | inl k ↦ rw k (encode_by_lem direct v h e)
    | inr k ↦ rw k (encode_by_lem direct v h e)
  ]
