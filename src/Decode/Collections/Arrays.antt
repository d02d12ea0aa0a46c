-- ===== src/Decode/Collections/Arrays.antt =====
-- decodeArrayFromTypeWith of decode.go: an array of a length that the type gives, filled from a parser
-- that gives the length too.
use objconv.Prelude.{
  ℕ, zero, suc, ◌+◌, ◌≤◌, ◌<◌, ◌≡◌, refl, sym, ap, ◌∙◌, subst, List, [], ◌∷◌, ◌++◌, length, set,
  replicate, arith, Bool-cases, inl, inr, ◌==◌, lt→ltb, if◌then◌else◌, length-append,
  length-replicate, append-nil, append_assoc, eq-nil_of_length,
}
use objconv.Prelude.Int.{pos}
use objconv.Go.Outcome.{ok, err, array_length_mismatch, M}
use objconv.Decode.{ItemParser, decode_loop}
use objconv.Decode.Collections.{lifted, beside, Elements, set_item, full_array, decode_fixed_array}
use objconv.Decode.Collections.Laws.{
  Separates, round_lem, last_lem, Separates-lifted, Decoded, Room-of, set-middle,
}
use objconv.Types.{ValueType}

module _ {P A : Type 0} (vp : ItemParser P) (f : M P A) where
  -- From the state `p` to `q` the function decodes the values, with what separates them in between.
  abbrev pub Items : ℕ → List A → P → P → Type 0
  Items i [] p q = p ≡ q
  Items i (v ∷ vs) p q =
      (t : P) × (u : P) × Separates vp.parse_array_next i p t
      × (f t ≡ (ok v, u))
      × Items (suc i) vs u q

  abbrev array_loop : A → ℕ → ℕ → ℕ → ℕ → M (P × Elements A) (Unit {0})
  array_loop z size n rounds i =
      let b = beside (Elements A) vp in
      decode_loop b b.parse_array_next b.parse_array_end (λ i. set_item z vp size f) (pos n) rounds
        i

  set_item_lem :
      (z v : A) (size : ℕ) (p q : P) (x : Elements A) (acc : List A)
      → f p ≡ (ok v, q)
      → Decoded x acc
      → length acc < size
      → length x.s ≡ size
      → (y : Elements A) × (set_item z vp size f (p, x) ≡ (ok tt, (q, y)))
        × Decoded y (acc ++ (v ∷ []))
        × (length y.s ≡ size)
  unfolding set_item
  set_item_lem z v size p q x acc e d room len =
      let none_free : 0 < length d.others =
        omega (arith, ap length d.split, length-append acc d.others) in
      let r = Room-of x acc d.others d.split d.count none_free in
      let split : set x.s x.i v ≡ (acc ++ (v ∷ [])) ++ r.others =
        ap (λ t. set t x.i v) r.split
        ∙ ap (λ (n : ℕ). set (acc ++ (r.free ∷ r.others)) n v) r.count
        ∙ set-middle acc r.others r.free v in
      (
        record { s = set x.s x.i v; i = x.i + 1 },
        rw (lt→ltb x.i size (omega (arith, d.count)), e) refl,
        record {
          others = r.others;
          split = split;
          count = omega (arith, r.count, length-append acc (v ∷ []));
        },
        omega (
          arith,
          ap length split,
          ap length r.split,
          length-append acc (r.free ∷ r.others),
          length-append (acc ++ (v ∷ [])) r.others,
          length-append acc (v ∷ []),
        ),
      )

  -- What the loop leaves: the elements that were decoded before, and the values.
  record Filled (z : A) (size n rounds i : ℕ) (p q : P) (x : Elements A) (acc : List A)
      : Type 0 where
    elements : Elements A
    computes : array_loop z size n rounds i (p, x) ≡ (ok tt, (q, elements))
    decoded : Decoded elements acc
    sized : length elements.s ≡ size

  finish_array :
      (n i : ℕ) (p w q : P) (x : Elements A)
      → i ≡ n
      → p ≡ w
      → vp.parse_array_end n w ≡ (ok tt, q)
      → lifted (vp.parse_array_end i) (p, x) ≡ (ok tt, (q, x))
  finish_array n i p w q x c h e = rw (c, h, e) refl

  array_loop_lem :
      (z : A) (vs : List A) (size n rounds i : ℕ) (p w q : P) (x : Elements A) (acc : List A)
      → n ≡ i + length vs
      → length vs ≤ rounds
      → length acc + length vs ≤ size
      → Decoded x acc
      → length x.s ≡ size
      → Items i vs p w
      → vp.parse_array_end n w ≡ (ok tt, q)
      → Filled z size n rounds i p q x (acc ++ vs)
  array_loop_lem z [] size n rounds i p w q x acc count room fits before len h e = record {
    elements = x;
    computes =
        last_lem _ _ _ _ n rounds i (p, x) (omega arith)
        ∙ finish_array n i p w q x (omega arith) h e;
    decoded = subst (λ l. Decoded x l) (sym (append-nil acc)) before;
    sized = len;
  }
  array_loop_lem z (v ∷ vs) size n zero i p w q x acc count room fits before len h e =
      absurd (omega arith)
  array_loop_lem z (v ∷ vs) size n (suc rounds) i p w q x acc count room fits before len h e =
      let (t, u, s, call, rest) = h in
      let (y, once, after_one, len_y) =
        set_item_lem z v size t u x acc call before (omega arith) len in
      let r =
        array_loop_lem z vs size n rounds (suc i) u w q y (acc ++ (v ∷ [])) (omega arith)
          (omega arith) (omega (arith, length-append acc (v ∷ []))) after_one len_y rest e in
      record {
        elements = r.elements;
        computes =
            round_lem _ _ _ _ n rounds i (p, x) (t, x) (u, y) (omega arith)
              (Separates-lifted vp.parse_array_next i p t x s) once
            ∙ r.computes;
        decoded = subst (λ l. Decoded r.elements l) (append_assoc acc (v ∷ []) vs) r.decoded;
        sized = r.sized;
      }

  full_array_lem :
      (z : A) (vs : List A) (size : ℕ) (q : P) (x : Elements A)
      → Decoded x vs
      → length x.s ≡ size
      → full_array z vp size x q
        ≡ (if length vs == size then ok vs else err (array_length_mismatch size (length vs)), q)
  full_array_lem z vs size q x d len = elim (Bool-cases (length vs == size)) [
    | inl full ↦
        rw (d.count, full)
          (ap (λ l. (ok l, q))
            (d.split
              ∙ ap (λ t. vs ++ t)
                  (eq-nil_of_length d.others
                    (ground (arith, ap length d.split, length-append vs d.others)))
              ∙ append-nil vs))
    | inr fewer ↦ rw (d.count, fewer) refl
  ]

  -- An array of `size` elements is decoded from a stream that has as many or fewer, with a round for
  -- each: as many are stored, in order, and fewer are a mismatch of the lengths, which is found
  -- behind the end of the stream's array.
  pub decode_fixed_array-Items :
      (z : A) (vs : List A) (size rounds : ℕ) (p t u q : P)
      → length vs ≤ size
      → length vs ≤ rounds
      → vp.parse_array_begin p ≡ (ok (pos (length vs)), t)
      → Items 0 vs t u
      → vp.parse_array_end (length vs) u ≡ (ok tt, q)
      → decode_fixed_array z vp size rounds f ValueType.array p
        ≡ (if length vs == size then ok vs else err (array_length_mismatch size (length vs)), q)
  unfolding decode_fixed_array
  decode_fixed_array-Items z vs size rounds p t u q fits room b h e =
      let zeros : Decoded (record { s = replicate size z; i = 0 }) [] = record {
        others = replicate size z;
        split = refl;
        count = refl;
      } in
      let r =
        array_loop_lem z vs size (length vs) rounds 0 t u q _ [] (omega arith) room (omega arith)
          zeros (length-replicate size z) h e in
      rw (b, r.computes) (full_array_lem z vs size q r.elements r.decoded r.sized)
