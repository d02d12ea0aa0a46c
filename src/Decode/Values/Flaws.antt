-- ===== src/Decode/Values/Flaws.antt =====
-- A map whose keys no Go map can hold, in decodeInterface of decode.go.
use objconv.Prelude.{ℕ, zero, suc, ◌≤◌, ◌≡◌, refl, ◌∙◌, false, arith, lt→ltb}
use objconv.Prelude.Int.{pos}
use objconv.Go.Float.{Floats}
use objconv.Go.Outcome.{panic, ok, M}
use objconv.Go.Strconv.{FloatFormat, IntFormat}
use objconv.Go.Time.{TimeFormat, DurationFormat}
use objconv.Decode.{begin_value, decode_loop}
use objconv.Decode.Values.{
  store, store_pair, decode_map_interface_interface, interface_of_type, decode_interface,
}
use objconv.Decode.Values.Laws.{decode_interface-presented, step_lem}
use objconv.Decode.Values.Presents.{size, Presents}
use objconv.Decode.Values.Loops.{pair_call}
use objconv.Encode.Values.{length_entries}
use objconv.Parse.{Parser}
use objconv.Types.{ValueType}
use objconv.Value.{Value, map_any, Entries, no_entry, entry}
use objconv.Value.Emitter.{Keys}
use objconv.Value.Emitter.Laws.{WellKeyed}

module _ {P : Type 0} (ps : Parser P) ⦃keys : Keys⦄ where
  pair_panics :
      (f : M P Value) (k v : Value) (t u x y : P) (m : Entries)
      → keys.hashable k ≡ false
      → f t ≡ (ok k, u)
      → ps.items.parse_map_value 0 u ≡ (ok tt, x)
      → f x ≡ (ok v, y)
      → pair_call ps f 0 (t, m) ≡ (panic, (y, m))
  unfolding store_pair begin_value store
  pair_panics f k v t u x y m hash e1 e2 e3 = rw (e1, e2, e3, hash) refl

  map_panics :
      (f : M P Value) (n rounds : ℕ) (t u y : P)
      → ps.items.parse_map_begin t ≡ (ok (pos (suc n)), u)
      → pair_call ps f 0 (u, no_entry) ≡ (panic, (y, no_entry))
      → decode_map_interface_interface ps (suc rounds) f ValueType.map t ≡ (panic, y)
  unfolding decode_map_interface_interface decode_loop
  map_panics f n rounds t u y b e = rw (b, lt→ltb 0 (suc n) (omega arith), e) refl

module _ {P : Type 0} (ps : Parser P) ⦃keys : Keys⦄ ⦃fl : Floats⦄ ⦃ff : FloatFormat⦄ where
  module _ ⦃num : IntFormat⦄ ⦃tf : TimeFormat⦄ ⦃df : DurationFormat⦄ where
    -- Decoding a map into an empty interface panics where the type of its first key cannot be one of
    -- a Go map, such as an array: it is no error.
    pub decode_interface-unhashable :
        (k v : Value) (m : Entries) (fuel : ℕ) (p q : P)
        → keys.hashable k ≡ false
        → WellKeyed k
        → WellKeyed v
        → size (map_any (entry k v m)) ≤ fuel
        → Presents ps (map_any (entry k v m)) p q
        → (y : P) × (decode_interface ps fuel p ≡ (panic, y))
    unfolding interface_of_type size Presents
    decode_interface-unhashable k v m zero p q hash wk wv room h = absurd (omega arith)
    decode_interface-unhashable k v m (suc zero) p q hash wk wv room h = absurd (omega arith)
    decode_interface-unhashable k v m (suc (suc fuel)) p q hash wk wv room h =
        let (t, u, w, e, b, pairs, l) = h in
        let (s1, s2, s3, s4, sep, pk, pm, pv, rest) = pairs in
        let of_key = decode_interface-presented ps k (suc fuel) s1 s2 (omega arith) wk pk in
        let of_value = decode_interface-presented ps v (suc fuel) s3 s4 (omega arith) wv pv in
        let f = decode_interface ps (suc fuel) in
        let pair : pair_call ps f 0 (u, no_entry) ≡ (panic, (s4, no_entry)) =
          rw sep (pair_panics ps f k v s1 s2 s3 s4 no_entry hash of_key pm of_value) in
        (
          s4,
          step_lem ps (suc fuel) p
              ∙ rw (e, map_panics ps f (length_entries m) fuel t u s4 b pair) refl,
        )
