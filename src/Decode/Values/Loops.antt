-- ===== src/Decode/Values/Loops.antt =====
-- The loops of decodeInterface of decode.go, over a parser that presents the items of an array or the
-- entries of a map.
use objconv.Prelude.{
  ℕ, zero, suc, ◌+◌, ◌-◌, ◌≤◌, ◌≡◌, refl, sym, ap, ◌∙◌, subst, List, [], ◌∷◌, ◌++◌, true, arith,
  append-nil, append_assoc, ne→==,
}
use objconv.Prelude.Int.{pos}
use objconv.Go.Outcome.{ok, M}
use objconv.Decode.{begin_value, decode_loop, pair_decoders}
use objconv.Decode.Collections.{lifted, beside, Elements, append_item, decode_slice}
use objconv.Decode.Collections.Laws.{
  round_lem, last_lem, Separates-lifted, Decoded, Decoded-none, append_item_lem, trimmed_lem,
}
use objconv.Decode.Values.{store, store_pair, decode_map_interface_interface}
use objconv.Encode.Values.{length_values, length_entries}
use objconv.Parse.{Parser}
use objconv.Types.{ValueType}
use objconv.Value.{Value, nil, Values, no_value, value, Entries, no_entry, entry}
use objconv.Value.Emitter.{Keys, assign}
use objconv.Value.Emitter.Laws.{
  to_list, join, Apart, Apart-last, assign-new, join_assoc, join-nil, WellKeyed, WellKeyedEntries,
}
use objconv.Decode.Values.Presents.{
  size, size_values, size_entries, Presents, PresentsItems, PresentsPairs,
}

module _ {P : Type 0} (ps : Parser P) ⦃keys : Keys⦄ where
  abbrev Item : Type 0
  Item = P × Elements Value

  -- The function decodes each of the values where the parser presents it.
  abbrev pub Decodes : M P Value → Value → Type 0
  Decodes f v = (p q : P) → Presents ps v p q → f p ≡ (ok v, q)

  abbrev pub DecodesAll : M P Value → Values → Type 0
  DecodesAll f no_value = Unit
  DecodesAll f (value v vs) = Decodes f v × DecodesAll f vs

  abbrev pub DecodesPairs : M P Value → Entries → Type 0
  DecodesPairs f no_entry = Unit
  DecodesPairs f (entry k v m) = Decodes f k × Decodes f v × DecodesPairs f m

  abbrev slice_loop : M P Value → ℕ → ℕ → ℕ → M Item (Unit {0})
  slice_loop f n rounds i =
      let vp = beside (Elements Value) ps.items in
      decode_loop vp vp.parse_array_next vp.parse_array_end (λ i. append_item nil ps.items f)
        (pos n) rounds i

  -- What the loop leaves: the elements that were decoded before, and the values.
  record Looped (f : M P Value) (n rounds i : ℕ) (p q : P) (x : Elements Value) (acc : List Value)
      : Type 0 where
    elements : Elements Value
    computes : slice_loop f n rounds i (p, x) ≡ (ok tt, (q, elements))
    decoded : Decoded elements acc

  finish_slice :
      (n i : ℕ) (p w q : P) (x : Elements Value)
      → i ≡ n
      → p ≡ w
      → ps.items.parse_array_end n w ≡ (ok tt, q)
      → lifted (ps.items.parse_array_end i) (p, x) ≡ (ok tt, (q, x))
  finish_slice n i p w q x c h e = rw (c, h, e) refl

  slice_loop_lem :
      (f : M P Value) (vs : Values) (n rounds i : ℕ) (p w q : P) (x : Elements Value)
      (acc : List Value)
      → n ≡ i + length_values vs
      → length_values vs ≤ rounds
      → Decoded x acc
      → DecodesAll f vs
      → PresentsItems ps i vs p w
      → ps.items.parse_array_end n w ≡ (ok tt, q)
      → Looped f n rounds i p q x (acc ++ to_list vs)
  unfolding Presents
  slice_loop_lem f no_value n rounds i p w q x acc len room before d h e = record {
    elements = x;
    computes =
        last_lem _ _ _ _ n rounds i (p, x) (omega arith)
        ∙ finish_slice n i p w q x (omega arith) h e;
    decoded = subst (λ l. Decoded x l) (sym (append-nil acc)) before;
  }
  slice_loop_lem f (value v vs) n zero i p w q x acc len room before d h e = absurd (omega arith)
  slice_loop_lem f (value v vs) n (suc rounds) i p w q x acc len room before d h e =
      let (t, u, s, pv, rest) = h in
      let (y, once, after_one) = append_item_lem nil ps.items f v t u x acc (d.0 t u pv) before in
      let r =
        slice_loop_lem f vs n rounds (suc i) u w q y (acc ++ (v ∷ [])) (omega arith) (omega arith)
          after_one d.1 rest e in
      record {
        elements = r.elements;
        computes =
            round_lem _ _ _ _ n rounds i (p, x) (t, x) (u, y) (omega arith)
              (Separates-lifted ps.items.parse_array_next i p t x s) once
            ∙ r.computes;
        decoded =
            subst (λ l. Decoded r.elements l) (append_assoc acc (v ∷ []) (to_list vs)) r.decoded;
      }

  abbrev pub pair_call : M P Value → ℕ → M (P × Entries) (Unit {0})
  pair_call f = pair_decoders (beside Entries ps.items) (store_pair ps f)

  pair_call_lem :
      (f : M P Value) (k v : Value) (i : ℕ) (t u x y : P) (m : Entries)
      → keys.hashable k ≡ true
      → f t ≡ (ok k, u)
      → ps.items.parse_map_value i u ≡ (ok tt, x)
      → f x ≡ (ok v, y)
      → pair_call f i (t, m) ≡ (ok tt, (y, assign k v m))
  unfolding store_pair begin_value store
  pair_call_lem f k v i t u x y m hash e1 e2 e3 =
      let j : i + 1 - 1 ≡ i = omega arith in
      rw (e1, ne→== (i + 1) 0 (omega arith), j, e2, e3, hash) refl

  abbrev map_loop : M P Value → ℕ → ℕ → ℕ → M (P × Entries) (Unit {0})
  map_loop f n rounds i =
      let vp = beside Entries ps.items in
      decode_loop vp vp.parse_map_next vp.parse_map_end (pair_call f) (pos n) rounds i

  finish_map :
      (n i : ℕ) (p w q : P) (acc : Entries)
      → i ≡ n
      → p ≡ w
      → ps.items.parse_map_end n w ≡ (ok tt, q)
      → lifted (ps.items.parse_map_end i) (p, acc) ≡ (ok tt, (q, join acc no_entry))
  finish_map n i p w q acc c h e = rw (c, h, e, join-nil acc) refl

  map_loop_lem :
      (f : M P Value) (m : Entries) (n rounds i : ℕ) (p w q : P) (acc : Entries)
      → n ≡ i + length_entries m
      → length_entries m ≤ rounds
      → WellKeyedEntries m
      → Apart acc m
      → DecodesPairs f m
      → PresentsPairs ps i m p w
      → ps.items.parse_map_end n w ≡ (ok tt, q)
      → map_loop f n rounds i (p, acc) ≡ (ok tt, (q, join acc m))
  unfolding Presents WellKeyed
  map_loop_lem f no_entry n rounds i p w q acc len room k a d h e =
      last_lem _ _ _ _ n rounds i (p, acc) (omega arith)
      ∙ finish_map n i p w q acc (omega arith) h e
  map_loop_lem f (entry k v m) n zero i p w q acc len room wk a d h e = absurd (omega arith)
  map_loop_lem f (entry k v m) n (suc rounds) i p w q acc len room wk a d
        (t, u, x, y, s, pk, pm, pv, rest) e =
      let acc' = join acc (entry k v no_entry) in
      round_lem _ _ _ _ n rounds i (p, acc) (t, acc) (y, acc') (omega arith)
        (Separates-lifted ps.items.parse_map_next i p t acc s)
        (pair_call_lem f k v i t u x y acc wk.2 (d.0 t u pk) pm (d.1 x y pv)
          ∙ ap (λ l. (ok tt, (y, l))) (assign-new k v acc m a))
      ∙ map_loop_lem f m n rounds (suc i) y w q acc' (omega arith) (omega arith) wk.4
          (Apart-last k v acc m a wk.3) d.2 rest e
      ∙ ap (λ l. (ok tt, (q, l))) (join_assoc acc (entry k v no_entry) m)

  pub decode_slice_lem :
      (f : M P Value) (vs : Values) (rounds : ℕ) (t u w q : P)
      → length_values vs ≤ rounds
      → DecodesAll f vs
      → ps.items.parse_array_begin t ≡ (ok (pos (length_values vs)), u)
      → PresentsItems ps 0 vs u w
      → ps.items.parse_array_end (length_values vs) w ≡ (ok tt, q)
      → decode_slice nil ps.items rounds f ValueType.array t ≡ (ok (to_list vs), q)
  unfolding decode_slice
  decode_slice_lem f vs rounds t u w q room d b h e =
      let x : Elements Value = record { s = []; i = 0 } in
      let r =
        slice_loop_lem f vs (length_values vs) rounds 0 u w q x [] (omega arith) room Decoded-none d
          h e in
      rw (b, r.computes)
        (ap (λ l. (ok l, q)) (trimmed_lem nil ps.items r.elements (to_list vs) r.decoded))

  pub decode_map_lem :
      (f : M P Value) (m : Entries) (rounds : ℕ) (t u w q : P)
      → length_entries m ≤ rounds
      → WellKeyedEntries m
      → DecodesPairs f m
      → ps.items.parse_map_begin t ≡ (ok (pos (length_entries m)), u)
      → PresentsPairs ps 0 m u w
      → ps.items.parse_map_end (length_entries m) w ≡ (ok tt, q)
      → decode_map_interface_interface ps rounds f ValueType.map t ≡ (ok m, q)
  unfolding decode_map_interface_interface
  decode_map_lem f m rounds t u w q room k d b h e =
      rw
        (
          b,
          map_loop_lem f m (length_entries m) rounds 0 u w q no_entry (omega arith) room k tt d h e,
        )
        refl

pub length_values-le : (vs : Values) → length_values vs ≤ size_values vs
unfolding size
length_values-le no_value = omega arith
length_values-le (value v vs) = omega (arith, length_values-le vs)

pub length_entries-le : (m : Entries) → length_entries m ≤ size_entries m
unfolding size
length_entries-le no_entry = omega arith
length_entries-le (entry k v m) = omega (arith, length_entries-le m)
