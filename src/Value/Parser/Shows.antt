-- ===== src/Value/Parser/Shows.antt =====
-- ValueParser of value.go presents the value that it walks, in its natural form.
use objconv.Prelude.{
  ℕ, zero, suc, ◌^◌, ◌<◌, ◌≡◌, refl, sym, ap, ◌∙◌, List, [], ◌∷◌, ◌++◌, length, get_elem?,
  append_assoc, some,
}
use objconv.Prelude.Int.{IsInt}
use objconv.Go.Float.{Floats}
use objconv.Decode.Values.Presents.{Presents}
use objconv.Encode.Values.{length_values}
use objconv.Value.{
  FloatKind, Scalar, Value, nil, scalar, nil_pointer, pointer, slice_string, slice_any,
  map_string_string, map_string_any, map_any, Values, no_value, value, Fields, no_field, field,
  Entries, no_entry, entry, text, of_list, natural_scalar, natural_strings, natural_texts, natural,
  natural_values, natural_fields, natural_entries,
}
use objconv.Value.Emitter.{Keys}
use objconv.Value.Emitter.Laws.{to_list}
use objconv.Value.Parser.Laws.{length-last}
use objconv.Value.Parser.{
  ValueParser, Reflection, dereference, top, type_of_value, parse_type, length_of, index_of,
  value_at, text_at, keys_of, texts_keys, fields_keys, entries_keys, value_parser, bool_of, int_of,
  uint_of, float_of, string_of, bytes_of, time_of, duration_of, error_of,
}
use objconv.Value.Parser.Walk.{
  Shows, ShowsEach, Holds, Shows-slice, ShowsPairs, KeysFrom, Finds, Shows-map,
}

module _ ⦃keys : Keys⦄ ⦃fl : Floats⦄ ⦃re : Reflection⦄ where
  -- The integers are int64 and uint64 in range.
  abbrev pub InRange : Scalar → Type 0
  InRange (Scalar.int k i) = IsInt 64 i
  InRange (Scalar.uint k u) = u < 2 ^ 64
  InRange s = Unit

  Shows-scalar :
      (v : Value) (s : Scalar)
      → dereference v ≡ scalar s
      → InRange s
      → Shows v (scalar (natural_scalar s))
  unfolding Presents parse_type type_of_value bool_of int_of uint_of float_of string_of bytes_of
      time_of duration_of error_of
  Shows-scalar v (Scalar.bool b) d r p e = (p, rw (e, d) refl, rw (e, d) refl)
  Shows-scalar v (Scalar.int k i) d r p e = (p, rw (e, d) refl, (r, rw (e, d) refl))
  Shows-scalar v (Scalar.uint k u) d r p e = (p, rw (e, d) refl, (r, rw (e, d) refl))
  Shows-scalar v (Scalar.float FloatKind.float32 f) d r p e = (p, rw (e, d) refl, rw (e, d) refl)
  Shows-scalar v (Scalar.float FloatKind.float64 f) d r p e = (p, rw (e, d) refl, rw (e, d) refl)
  Shows-scalar v (Scalar.string s) d r p e = (p, rw (e, d) refl, rw (e, d) refl)
  Shows-scalar v (Scalar.bytes b) d r p e = (p, rw (e, d) refl, rw (e, d) refl)
  Shows-scalar v (Scalar.time t) d r p e = (p, rw (e, d) refl, rw (e, d) refl)
  Shows-scalar v (Scalar.duration t) d r p e = (p, rw (e, d) refl, rw (e, d) refl)
  Shows-scalar v (Scalar.error t) d r p e = (p, rw (e, d) refl, rw (e, d) refl)

  get_elem?-middle :
      {A : Type 0} (xs : List A) (x : A) (ys : List A)
      → get_elem? (xs ++ (x ∷ ys)) (length xs) ≡ some x
  get_elem?-middle [] x ys = refl
  get_elem?-middle (y ∷ xs) x ys = get_elem?-middle xs x ys

  -- The first items of a list, and how many they are.
  Holds_lem :
      (held : Value) (all before : List Value) (i : ℕ) (vs : Values)
      → ((n : ℕ) → index_of held n ≡ get_elem? all n)
      → all ≡ before ++ to_list vs
      → i ≡ length before
      → Holds held i vs
  Holds_lem held all before i no_value h e c = tt
  Holds_lem held all before i (value v vs) h e c = (
    h i ∙ rw (e, c) (get_elem?-middle before v (to_list vs)),
    Holds_lem held all (before ++ (v ∷ [])) (suc i) vs h
        (e ∙ sym (append_assoc before (v ∷ []) (to_list vs)))
        (ap suc c ∙ sym (length-last before v)),
  )

  KeysFrom_lem :
      (all before : List Value) (i : ℕ) (es : Entries)
      → all ≡ before ++ entries_keys es
      → i ≡ length before
      → KeysFrom all i es
  KeysFrom_lem all before i no_entry e c = tt
  KeysFrom_lem all before i (entry k v es) e c = (
    rw (e, c) (get_elem?-middle before k (entries_keys es)),
    KeysFrom_lem all (before ++ (k ∷ [])) (suc i) es
        (e ∙ sym (append_assoc before (k ∷ []) (entries_keys es)))
        (ap suc c ∙ sym (length-last before k)),
  )

  value_at-to_list : (vs : Values) (n : ℕ) → value_at vs n ≡ get_elem? (to_list vs) n
  value_at-to_list no_value n = refl
  value_at-to_list (value v vs) zero = refl
  value_at-to_list (value v vs) (suc n) = value_at-to_list vs n

  text_at-natural :
      (ss : List (List ℕ)) (n : ℕ) → text_at (get_elem? ss n) ≡ get_elem? (natural_strings ss) n
  text_at-natural [] n = refl
  text_at-natural (s ∷ ss) zero = refl
  text_at-natural (s ∷ ss) (suc n) = text_at-natural ss n

  shows_strings :
      (ss : List (List ℕ)) → ShowsEach (of_list (natural_strings ss)) (of_list (natural_strings ss))
  shows_strings [] = tt
  shows_strings (s ∷ ss) = (Shows-scalar (text s) (Scalar.string s) refl tt, shows_strings ss)

  length-natural_strings :
      (ss : List (List ℕ)) → length ss ≡ length_values (of_list (natural_strings ss))
  length-natural_strings [] = refl
  length-natural_strings (s ∷ ss) = ap suc (length-natural_strings ss)

  to_list-of_list : (vs : List Value) → to_list (of_list vs) ≡ vs
  to_list-of_list [] = refl
  to_list-of_list (v ∷ vs) = ap (λ t. v ∷ t) (to_list-of_list vs)

  shows_texts : (m : List (List ℕ × List ℕ)) → ShowsPairs (natural_texts m) (natural_texts m)
  shows_texts [] = tt
  shows_texts ((k, v) ∷ m) = (
    Shows-scalar (text k) (Scalar.string k) refl tt,
    Shows-scalar (text v) (Scalar.string v) refl tt,
    shows_texts m,
  )

  texts_keys_lem : (m : List (List ℕ × List ℕ)) → texts_keys m ≡ entries_keys (natural_texts m)
  texts_keys_lem [] = refl
  texts_keys_lem ((k, v) ∷ m) = ap (λ t. text k ∷ t) (texts_keys_lem m)

  abbrev pub fields_entries : Fields → Entries
  fields_entries no_field = no_entry
  fields_entries (field k v m) = entry (text k) v (fields_entries m)

  fields_keys_lem : (m : Fields) → fields_keys m ≡ entries_keys (fields_entries m)
  fields_keys_lem no_field = refl
  fields_keys_lem (field k v m) = ap (λ t. text k ∷ t) (fields_keys_lem m)

  abbrev IsNoError : Value → Type 0
  IsNoError (scalar (Scalar.error e)) = ⊥
  IsNoError v = Unit

  unfoldable mutual
    -- What the parser shows in full: integers in range, maps in which looking up each key gives its
    -- value, and no pointer that is nil or points to an error.
    pub IsHeld : Value → Type 0
    IsHeld nil = Unit
    IsHeld (scalar s) = InRange s
    IsHeld nil_pointer = ⊥
    IsHeld (pointer v) = IsNoError v × IsHeld v
    IsHeld (slice_string ss) = Unit
    IsHeld (slice_any vs) = IsHeldValues vs
    IsHeld (map_string_string m) = Finds (map_string_string m) (natural_texts m)
    IsHeld (map_string_any m) = Finds (map_string_any m) (fields_entries m) × IsHeldFields m
    IsHeld (map_any m) = Finds (map_any m) m × IsHeldEntries m

    pub IsHeldValues : Values → Type 0
    IsHeldValues no_value = Unit
    IsHeldValues (value v vs) = IsHeld v × IsHeldValues vs

    pub IsHeldFields : Fields → Type 0
    IsHeldFields no_field = Unit
    IsHeldFields (field k v m) = IsHeld v × IsHeldFields m

    pub IsHeldEntries : Entries → Type 0
    IsHeldEntries no_entry = Unit
    IsHeldEntries (entry k v m) = IsHeld k × IsHeld v × IsHeldEntries m

  length-natural_values : (vs : Values) → length_values vs ≡ length_values (natural_values vs)
  unfolding natural
  length-natural_values no_value = refl
  length-natural_values (value v vs) = ap suc (length-natural_values vs)

  mutual
    unfolding IsHeld natural Presents parse_type type_of_value length_of index_of keys_of

    shows_lem : (v w : Value) → dereference w ≡ dereference v → IsHeld v → Shows w (natural v)
    shows_lem nil w d h = λ p e. (p, rw (e, d) refl, refl)
    shows_lem (scalar s) w d h = Shows-scalar w s d h
    shows_lem nil_pointer w d h = absurd h
    shows_lem (pointer v) w d h = shows_lem v w d h.1
    shows_lem (slice_string ss) w d h =
        Shows-slice w (slice_string ss) (of_list (natural_strings ss))
          (of_list (natural_strings ss)) d refl (ap some (length-natural_strings ss))
          (Holds_lem (slice_string ss) (natural_strings ss) [] 0 (of_list (natural_strings ss))
            (text_at-natural ss) (sym (to_list-of_list (natural_strings ss))) refl)
          (shows_strings ss)
    shows_lem (slice_any vs) w d h =
        Shows-slice w (slice_any vs) vs (natural_values vs) d refl
          (ap some (length-natural_values vs))
          (Holds_lem (slice_any vs) (to_list vs) [] 0 vs (value_at-to_list vs) refl refl)
          (shows_values vs h)
    shows_lem (map_string_string m) w d h =
        Shows-map w (map_string_string m) (natural_texts m) (natural_texts m) d refl
          (ap some (texts_keys_lem m)) (KeysFrom_lem _ [] 0 (natural_texts m) refl refl) h
          (shows_texts m)
    shows_lem (map_string_any m) w d h =
        Shows-map w (map_string_any m) (fields_entries m) (natural_fields m) d refl
          (ap some (fields_keys_lem m)) (KeysFrom_lem _ [] 0 (fields_entries m) refl refl) h.0
          (shows_fields m h.1)
    shows_lem (map_any m) w d h =
        Shows-map w (map_any m) m (natural_entries m) d refl refl (KeysFrom_lem _ [] 0 m refl refl)
          h.0 (shows_entries m h.1)

    shows_values : (vs : Values) → IsHeldValues vs → ShowsEach vs (natural_values vs)
    shows_values no_value h = tt
    shows_values (value v vs) h = (shows_lem v v refl h.0, shows_values vs h.1)

    shows_fields : (m : Fields) → IsHeldFields m → ShowsPairs (fields_entries m) (natural_fields m)
    shows_fields no_field h = tt
    shows_fields (field k v m) h = (
      Shows-scalar (text k) (Scalar.string k) refl tt,
      shows_lem v v refl h.0,
      shows_fields m h.1,
    )

    shows_entries : (m : Entries) → IsHeldEntries m → ShowsPairs m (natural_entries m)
    shows_entries no_entry h = tt
    shows_entries (entry k v m) h =
        (shows_lem k k refl h.0, shows_lem v v refl h.1, shows_entries m h.2)

  -- A ValueParser at a value of that kind presents the natural form of the value, and comes back to
  -- the state where it began.
  pub value_parser-Presents :
      (v : Value) (p : ValueParser)
      → top p.stack ≡ some v
      → IsHeld v
      → Presents value_parser (natural v) p p
  value_parser-Presents v p e h = shows_lem v v refl h p e
