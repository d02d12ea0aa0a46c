-- ===== src/Value/Parser/Walk.antt =====
-- The arrays and maps that ValueParser of value.go walks, item by item.
use objconv.Prelude.{ℕ, suc, ◌≡◌, refl, ap, List, [], ◌∷◌, length, get_elem?, some, arith, ne→==}
use objconv.Go.Float.{Floats}
use objconv.Go.Outcome.{ok}
use objconv.Decode.Values.Presents.{Presents, PresentsItems, PresentsPairs}
use objconv.Encode.Values.{length_values, length_entries}
use objconv.Types.{ValueType}
use objconv.Value.{Value, slice_any, map_any, Values, no_value, value, Entries, no_entry, entry}
use objconv.Value.Emitter.{Keys}
use objconv.Value.Parser.Laws.{
  at, inside, top-last, pop_context-inside, parse_end-at, parse_array_next-at, parse_map_next-at,
  parse_map_value-at,
}
use objconv.Value.Parser.{
  Context, ValueParser, Reflection, dereference, top, push, push_context, type_of_value, parse_type,
  length_of, index_of, parse_array_begin, parse_end, keys_of, entries_keys, map_index,
  parse_map_begin, value_parser,
}

module _ ⦃keys : Keys⦄ ⦃fl : Floats⦄ ⦃re : Reflection⦄ where
  -- Wherever the value is at the top, the parser presents `n` and comes back to the same state.
  abbrev pub Shows : Value → Value → Type 0
  Shows v n = (p : ValueParser) → top p.stack ≡ some v → Presents value_parser n p p

  abbrev pub ShowsEach : Values → Values → Type 0
  ShowsEach no_value no_value = Unit
  ShowsEach no_value (value n ns) = ⊥
  ShowsEach (value v vs) no_value = ⊥
  ShowsEach (value v vs) (value n ns) = Shows v n × ShowsEach vs ns

  -- What an index finds from the item `i` on.
  abbrev pub Holds : Value → ℕ → Values → Type 0
  Holds held i no_value = Unit
  Holds held i (value v vs) = (index_of held i ≡ some v) × Holds held (suc i) vs

  abbrev last_value : Value → Values → Value
  last_value v no_value = v
  last_value v (value u us) = last_value u us

  shows_items :
      (c : Context) (vs ns : Values) (i : ℕ) (u : Value) (p : ValueParser)
      → ShowsEach vs ns
      → Holds c.held (suc i) vs
      → PresentsItems value_parser (suc i) ns (at c p u) (at c p (last_value u vs))
  unfolding Presents
  shows_items c no_value no_value i u p s h = refl
  shows_items c no_value (value n ns) i u p s h = absurd s
  shows_items c (value v vs) no_value i u p s h = absurd s
  shows_items c (value v vs) (value n ns) i u p s h = (
    at c p v,
    at c p v,
    parse_array_next-at c p u v (suc i) h.0,
    s.0 (at c p v) (top-last p.stack v),
    shows_items c vs ns (suc i) v p s.1 h.1,
  )

  pub Shows-slice :
      (v held : Value) (vs ns : Values)
      → dereference v ≡ held
      → type_of_value held ≡ (λ p. (ok ValueType.array, p))
      → length_of held ≡ some (length_values ns)
      → Holds held 0 vs
      → ShowsEach vs ns
      → Shows v (slice_any ns)
  unfolding Presents parse_type parse_array_begin push push_context parse_end
  Shows-slice v held no_value no_value d ty len h s p e =
      let c : Context = record { held = held; keys = [] } in
      (
        p,
        inside c p,
        inside c p,
        rw (e, d, ty) refl,
        rw (e, d, len) refl,
        refl,
        pop_context-inside c p,
      )
  Shows-slice v held no_value (value n ns) d ty len h s p e = absurd s
  Shows-slice v held (value u us) no_value d ty len h s p e = absurd s
  Shows-slice v held (value u us) (value n ns) d ty len h s p e =
      let c : Context = record { held = held; keys = [] } in
      (
        p,
        at c p u,
        at c p (last_value u us),
        rw (e, d, ty) refl,
        rw (e, d, len, ne→== (suc (length_values ns)) 0 (omega arith), h.0) refl,
        (
          at c p u,
          at c p u,
          refl,
          s.0 (at c p u) (top-last p.stack u),
          shows_items c us ns 0 u p s.1 h.1,
        ),
        parse_end-at c p (last_value u us) (length_values ns),
      )

  abbrev pub ShowsPairs : Entries → Entries → Type 0
  ShowsPairs no_entry no_entry = Unit
  ShowsPairs no_entry (entry k v m) = ⊥
  ShowsPairs (entry k v es) no_entry = ⊥
  ShowsPairs (entry k v es) (entry k' v' m) = Shows k k' × Shows v v' × ShowsPairs es m

  -- The keys from the entry `i` on.
  abbrev pub KeysFrom : List Value → ℕ → Entries → Type 0
  KeysFrom ks i no_entry = Unit
  KeysFrom ks i (entry k v es) = (get_elem? ks i ≡ some k) × KeysFrom ks (suc i) es

  -- Looking up each listed key gives the value that is listed with it.
  abbrev pub Finds : Value → Entries → Type 0
  Finds held no_entry = Unit
  Finds held (entry k v es) = (map_index held k ≡ some v) × Finds held es

  abbrev last_of : Value → Entries → Value
  last_of v no_entry = v
  last_of v (entry k u es) = last_of u es

  shows_pairs :
      (c : Context) (es ms : Entries) (i : ℕ) (u : Value) (p : ValueParser)
      → ShowsPairs es ms
      → KeysFrom c.keys (suc i) es
      → Finds c.held es
      → PresentsPairs value_parser (suc i) ms (at c p u) (at c p (last_of u es))
  unfolding Presents
  shows_pairs c no_entry no_entry i u p s h f = refl
  shows_pairs c no_entry (entry k v ms) i u p s h f = absurd s
  shows_pairs c (entry k v es) no_entry i u p s h f = absurd s
  shows_pairs c (entry k v es) (entry k' v' ms) i u p s h f = (
    at c p k,
    at c p k,
    at c p v,
    at c p v,
    parse_map_next-at c p u k (suc i) h.0,
    s.0 (at c p k) (top-last p.stack k),
    parse_map_value-at c p k k v (suc i) h.0 f.0,
    s.1 (at c p v) (top-last p.stack v),
    shows_pairs c es ms (suc i) v p s.2 h.1 f.1,
  )

  length-entries_keys :
      (es ms : Entries) → ShowsPairs es ms → length (entries_keys es) ≡ length_entries ms
  length-entries_keys no_entry no_entry s = refl
  length-entries_keys no_entry (entry k v ms) s = absurd s
  length-entries_keys (entry k v es) no_entry s = absurd s
  length-entries_keys (entry k v es) (entry k' v' ms) s = ap suc (length-entries_keys es ms s.2)

  pub Shows-map :
      (v held : Value) (es ms : Entries)
      → dereference v ≡ held
      → type_of_value held ≡ (λ p. (ok ValueType.map, p))
      → keys_of held ≡ some (entries_keys es)
      → KeysFrom (entries_keys es) 0 es
      → Finds held es
      → ShowsPairs es ms
      → Shows v (map_any ms)
  unfolding Presents parse_type parse_map_begin push push_context parse_end
  Shows-map v held no_entry no_entry d ty ks h f s p e =
      let c : Context = record { held = held; keys = [] } in
      (
        p,
        inside c p,
        inside c p,
        rw (e, d, ty) refl,
        rw (e, d, ks) refl,
        refl,
        pop_context-inside c p,
      )
  Shows-map v held no_entry (entry k' v' ms) d ty ks h f s p e = absurd s
  Shows-map v held (entry k u es) no_entry d ty ks h f s p e = absurd s
  Shows-map v held (entry k u es) (entry k' u' ms) d ty ks h f s p e =
      let c : Context = record { held = held; keys = k ∷ entries_keys es } in
      (
        p,
        at c p k,
        at c p (last_of u es),
        rw (e, d, ty) refl,
        rw (e, d, ks, length-entries_keys es ms s.2) refl,
        (
          at c p k,
          at c p k,
          at c p u,
          at c p u,
          refl,
          s.0 (at c p k) (top-last p.stack k),
          parse_map_value-at c p k k u 0 h.0 f.0,
          s.1 (at c p u) (top-last p.stack u),
          shows_pairs c es ms 0 u p s.2 h.1 f.1,
        ),
        parse_end-at c p (last_of u es) (length_entries ms),
      )
