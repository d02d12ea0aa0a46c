-- ===== src/Msgpack/Values/Parse.antt =====
-- The parser of msgpack/parse.go at the format of a value: what it presents to the decoder.
use objconv.Prelude.{
  ℕ, zero, suc, ◌^◌, ◌<◌, ◌≡◌, refl, ap, ◌∙◌, subst, List, [], ◌∷◌, ◌++◌, length, append_assoc,
}
use objconv.Prelude.Int.{pos}
use objconv.Go.Float.{Floats}
use objconv.Go.Io.{Reader}
use objconv.Go.Outcome.{ok}
use objconv.Decode.Collections.Laws.{Separates}
use objconv.Decode.Values.Presents.{Presents, PresentsItems, PresentsPairs}
use objconv.Encode.Values.{length_values, length_fields, length_entries}
use objconv.Msgpack.Emit.{array_header, map_header}
use objconv.Msgpack.Parse.{
  Parser, parse_array_begin, parse_array_end, parse_array_next, parse_map_begin, parse_map_end,
  parse_map_value, parse_map_next,
}
use objconv.Msgpack.Parse.Headers.{parse_array_begin-array_header, parse_map_begin-map_header}
use objconv.Msgpack.Parse.Laws.{At}
use objconv.Msgpack.Values.{
  value_parser, header_of, packed_string, packed_strings, packed_texts, packed, packed_values,
  packed_fields, packed_entries, AllShort, TextsShort, IsPackable, IsPackableValues,
  IsPackableFields, IsPackableEntries,
}
use objconv.Msgpack.Values.Format.{array_header-some, map_header-some}
use objconv.Types.{ValueType}
use objconv.Value.{
  Value, nil, scalar, nil_pointer, pointer, slice_string, slice_any, map_string_string,
  map_string_any, map_any, Values, no_value, value, Fields, no_field, field, Entries, no_entry,
  entry, text, of_list, natural_strings, natural_texts, natural, natural_values, natural_fields,
  natural_entries,
}
use objconv.Msgpack.Values.Single.{
  typed-Calls, Presented, nil-Presented, string_Presented, scalar_lem,
}
use objconv.Msgpack.Values.Texted.{
  texted, texted_values, texted_entries, received, length-strings, length-texts, length-values,
  length-fields, length-entries,
}

module _ {R : Type 0} ⦃io : Reader R⦄ ⦃fl : Floats⦄ where
  regroup :
      (xs zs ys : List ℕ) (p : Parser R) {k : ℕ}
      → At k ((xs ++ zs) ++ ys) p
      → At k (xs ++ (zs ++ ys)) p
  regroup xs zs ys p {k} h = subst (λ t. At k t p) (append_assoc xs zs ys) h

  Separates-items :
      (i : ℕ) (p : Parser R) → Separates (value_parser {R = R}).items.parse_array_next i p p
  unfolding parse_array_next
  Separates-items zero p = refl
  Separates-items (suc i) p = refl

  Separates-pairs :
      (i : ℕ) (p : Parser R) → Separates (value_parser {R = R}).items.parse_map_next i p p
  unfolding parse_map_next
  Separates-pairs zero p = refl
  Separates-pairs (suc i) p = refl

  -- The items of an array, and the entries of a map.
  abbrev ItemsPresented : ℕ → Values → List ℕ → Parser R → Type 0
  ItemsPresented i vs ys p = (q : Parser R) × PresentsItems value_parser i vs p q × At 0 ys q

  abbrev PairsPresented : ℕ → Entries → List ℕ → Parser R → Type 0
  PairsPresented i m ys p = (q : Parser R) × PresentsPairs value_parser i m p q × At 0 ys q

  array_Presented :
      (n : ℕ) (bs ys : List ℕ) (vs : Values) (p : Parser R) {k : ℕ}
      → n < 2 ^ 32
      → n ≡ length_values vs
      → At k ((header_of (array_header n) ++ bs) ++ ys) p
      → ((q : Parser R) → At 0 (bs ++ ys) q → ItemsPresented 0 vs ys q)
      → Presented (slice_any vs) ys p
  unfolding Presents parse_array_end
  array_Presented n bs ys vs p small e h items =
      let c = typed-Calls parse_array_begin p ValueType.array (pos n) (bs ++ ys) (
        parse_array_begin-array_header n (header_of (array_header n)) (bs ++ ys) p
          (array_header-some n small) (regroup _ bs ys p h)) in
      let x = items c.end c.rest in
      (
        x.0,
        (
          c.middle,
          c.end,
          x.0,
          c.announces,
          c.reads ∙ ap (λ (l : ℕ). (ok (pos l), c.end)) e,
          x.1,
          refl,
        ),
        x.2,
      )

  map_Presented :
      (n : ℕ) (bs ys : List ℕ) (m : Entries) (p : Parser R) {k : ℕ}
      → n < 2 ^ 32
      → n ≡ length_entries m
      → At k ((header_of (map_header n) ++ bs) ++ ys) p
      → ((q : Parser R) → At 0 (bs ++ ys) q → PairsPresented 0 m ys q)
      → Presented (map_any m) ys p
  unfolding Presents parse_map_end
  map_Presented n bs ys m p small e h pairs =
      let c = typed-Calls parse_map_begin p ValueType.map (pos n) (bs ++ ys) (
        parse_map_begin-map_header n (header_of (map_header n)) (bs ++ ys) p
          (map_header-some n small) (regroup _ bs ys p h)) in
      let x = pairs c.end c.rest in
      (
        x.0,
        (
          c.middle,
          c.end,
          x.0,
          c.announces,
          c.reads ∙ ap (λ (l : ℕ). (ok (pos l), c.end)) e,
          x.1,
          refl,
        ),
        x.2,
      )

  no_items : (i : ℕ) (ys : List ℕ) (p : Parser R) → At 0 ys p → ItemsPresented i no_value ys p
  unfolding Presents
  no_items i ys p h = (p, refl, h)

  no_pairs : (i : ℕ) (ys : List ℕ) (p : Parser R) → At 0 ys p → PairsPresented i no_entry ys p
  unfolding Presents
  no_pairs i ys p h = (p, refl, h)

  item_lem :
      (i : ℕ) (v : Value) (vs : Values) (bs cs ys : List ℕ) (p : Parser R)
      → ((q : Parser R) → At 0 (bs ++ (cs ++ ys)) q → Presented v (cs ++ ys) q)
      → ((q : Parser R) → At 0 (cs ++ ys) q → ItemsPresented (suc i) vs ys q)
      → At 0 ((bs ++ cs) ++ ys) p
      → ItemsPresented i (value v vs) ys p
  unfolding Presents
  item_lem i v vs bs cs ys p first others h =
      let x = first p (regroup bs cs ys p h) in
      let r = others x.0 x.2 in (r.0, (p, x.0, Separates-items i p, x.1, r.1), r.2)

  pair_lem :
      (i : ℕ) (k v : Value) (m : Entries) (ks bs cs ys : List ℕ) (p : Parser R)
      → ((q : Parser R) → At 0 (ks ++ (bs ++ (cs ++ ys))) q → Presented k (bs ++ (cs ++ ys)) q)
      → ((q : Parser R) → At 0 (bs ++ (cs ++ ys)) q → Presented v (cs ++ ys) q)
      → ((q : Parser R) → At 0 (cs ++ ys) q → PairsPresented (suc i) m ys q)
      → At 0 (((ks ++ bs) ++ cs) ++ ys) p
      → PairsPresented i (entry k v m) ys p
  unfolding Presents parse_map_value
  pair_lem i k v m ks bs cs ys p of_key of_value others h =
      let x = of_key p (regroup ks bs (cs ++ ys) p (regroup (ks ++ bs) cs ys p h)) in
      let y = of_value x.0 x.2 in
      let r = others y.0 y.2 in
      (r.0, (p, x.0, x.0, y.0, Separates-pairs i p, x.1, refl, y.1, r.1), r.2)

  strings_lem :
      (i : ℕ) (ss : List (List ℕ)) (ys : List ℕ) (p : Parser R)
      → AllShort ss
      → At 0 (packed_strings ss ++ ys) p
      → ItemsPresented i (texted_values (of_list (natural_strings ss))) ys p
  unfolding packed_strings texted
  strings_lem i [] ys p f h = no_items i ys p h
  strings_lem i (s ∷ ss) ys p f h =
      item_lem i (text s) _ (packed_string s) (packed_strings ss) ys p
        (λ q a. string_Presented s (packed_strings ss ++ ys) q f.0 a)
        (λ q a. strings_lem (suc i) ss ys q f.1 a) h

  texts_lem :
      (i : ℕ) (m : List (List ℕ × List ℕ)) (ys : List ℕ) (p : Parser R)
      → TextsShort m
      → At 0 (packed_texts m ++ ys) p
      → PairsPresented i (texted_entries (natural_texts m)) ys p
  unfolding packed_texts texted
  texts_lem i [] ys p f h = no_pairs i ys p h
  texts_lem i ((k, v) ∷ m) ys p f h =
      pair_lem i (text k) (text v) _ (packed_string k) (packed_string v) (packed_texts m) ys p
        (λ q a. string_Presented k (packed_string v ++ (packed_texts m ++ ys)) q f.0 a)
        (λ q a. string_Presented v (packed_texts m ++ ys) q f.1 a)
        (λ q a. texts_lem (suc i) m ys q f.2 a) h

  mutual
    unfolding packed texted natural IsPackable Presents

    presented_lem :
        (v : Value) (ys : List ℕ) (p : Parser R)
        → IsPackable v
        → At 0 (packed v ++ ys) p
        → Presented (received v) ys p
    presented_lem nil ys p f h = nil-Presented ys p h
    presented_lem (scalar s) ys p f h = scalar_lem s ys p f h
    presented_lem nil_pointer ys p f h = nil-Presented ys p h
    presented_lem (pointer v) ys p f h = presented_lem v ys p f h
    presented_lem (slice_string ss) ys p f h =
        array_Presented (length ss) (packed_strings ss) ys _ p f.0 (length-strings ss) h
          (λ q a. strings_lem 0 ss ys q f.1 a)
    presented_lem (slice_any vs) ys p f h =
        array_Presented (length_values vs) (packed_values vs) ys _ p f.0 (length-values vs) h
          (λ q a. values_lem 0 vs ys q f.1 a)
    presented_lem (map_string_string m) ys p f h =
        map_Presented (length m) (packed_texts m) ys _ p f.0 (length-texts m) h
          (λ q a. texts_lem 0 m ys q f.1 a)
    presented_lem (map_string_any m) ys p f h =
        map_Presented (length_fields m) (packed_fields m) ys _ p f.0 (length-fields m) h
          (λ q a. fields_lem 0 m ys q f.1 a)
    presented_lem (map_any m) ys p f h =
        map_Presented (length_entries m) (packed_entries m) ys _ p f.0 (length-entries m) h
          (λ q a. entries_lem 0 m ys q f.1 a)

    values_lem :
        (i : ℕ) (vs : Values) (ys : List ℕ) (p : Parser R)
        → IsPackableValues vs
        → At 0 (packed_values vs ++ ys) p
        → ItemsPresented i (texted_values (natural_values vs)) ys p
    values_lem i no_value ys p f h = no_items i ys p h
    values_lem i (value v vs) ys p f h =
        item_lem i (received v) _ (packed v) (packed_values vs) ys p
          (λ q a. presented_lem v (packed_values vs ++ ys) q f.0 a)
          (λ q a. values_lem (suc i) vs ys q f.1 a) h

    fields_lem :
        (i : ℕ) (m : Fields) (ys : List ℕ) (p : Parser R)
        → IsPackableFields m
        → At 0 (packed_fields m ++ ys) p
        → PairsPresented i (texted_entries (natural_fields m)) ys p
    fields_lem i no_field ys p f h = no_pairs i ys p h
    fields_lem i (field k v m) ys p f h =
        pair_lem i (text k) (received v) _ (packed_string k) (packed v) (packed_fields m) ys p
          (λ q a. string_Presented k (packed v ++ (packed_fields m ++ ys)) q f.0 a)
          (λ q a. presented_lem v (packed_fields m ++ ys) q f.1 a)
          (λ q a. fields_lem (suc i) m ys q f.2 a) h

    entries_lem :
        (i : ℕ) (m : Entries) (ys : List ℕ) (p : Parser R)
        → IsPackableEntries m
        → At 0 (packed_entries m ++ ys) p
        → PairsPresented i (texted_entries (natural_entries m)) ys p
    entries_lem i no_entry ys p f h = no_pairs i ys p h
    entries_lem i (entry k v m) ys p f h =
        pair_lem i (received k) (received v) _ (packed k) (packed v) (packed_entries m) ys p
          (λ q a. presented_lem k (packed v ++ (packed_entries m ++ ys)) q f.0 a)
          (λ q a. presented_lem v (packed_entries m ++ ys) q f.1 a)
          (λ q a. entries_lem (suc i) m ys q f.2 a) h

  -- At the front of the stream of a parser whose buffer is in order, the format of any value that
  -- MessagePack can hold is presented to the decoder as the natural form of the value, its durations
  -- and errors as texts, and exactly these bytes are consumed.
  pub packed-Presents :
      (v : Value) (ys : List ℕ) (p : Parser R)
      → IsPackable v
      → At 0 (packed v ++ ys) p
      → Presented (received v) ys p
  packed-Presents v ys p f h = presented_lem v ys p f h
