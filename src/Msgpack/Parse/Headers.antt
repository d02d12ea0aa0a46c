-- ===== src/Msgpack/Parse/Headers.antt =====
-- The numbers of elements of arrays and maps read back.
use objconv.Prelude.{
  ℕ, ◌+◌, ◌%◌, ◌^◌, ◌≤◌, ◌<◌, ◌≡◌, refl, ap, List, [], ◌∷◌, ◌++◌, length, arith, true, false, some,
  dec_le, ◌==◌, if◌then◌else◌,
}
use objconv.Prelude.Int.{pos}
use objconv.Prelude.Masks.{mask_80, mask_e0, mask_f0, mask_0f, set_80, set_90}
use objconv.Prelude.Bytes.{put_uint16, put_uint32, get_uint16, get_uint32}
use objconv.Go.Outcome.{ok, Returns, Returns-after}
use objconv.Go.Io.{Reader}
use objconv.Types.{ValueType}
use objconv.Msgpack.Tag
use objconv.Msgpack.Emit.{array_header, map_header}
use objconv.Msgpack.Parse.{
  Parser, type_of_tag, parse_array_begin, parse_map_begin, counted, is_positive_fixint,
  is_negative_fixint, is_fixstr, is_fixarray, is_fixmap,
}
use objconv.Msgpack.Parse.Laws.{At, peek_lem, skip_front, typed, typed_step}

-- What the tests of the tags say of a byte.
pub record Nibble (t : ℕ) : Type 0 where
  pub positive : is_positive_fixint t ≡ false
  pub negative : is_negative_fixint t ≡ false
  pub fixstr : is_fixstr t ≡ false

below_e0 : (t : ℕ) → 128 ≤ t → t < 160 → Nibble t
below_e0 t h k = record {
  positive = rw (mask_80 t (omega arith)) (ground arith);
  negative = rw (mask_e0 t (omega arith)) (ground arith);
  fixstr = rw (mask_e0 t (omega arith)) (ground arith);
}

fixarray_true : (t : ℕ) → 144 ≤ t → t < 160 → is_fixarray t ≡ true
fixarray_true t h k = rw (mask_f0 t (omega arith)) (ground arith)

fixarray_false : (t : ℕ) → 128 ≤ t → t < 144 → is_fixarray t ≡ false
fixarray_false t h k = rw (mask_f0 t (omega arith)) (ground arith)

fixmap_true : (t : ℕ) → 128 ≤ t → t < 144 → is_fixmap t ≡ true
fixmap_true t h k = rw (mask_f0 t (omega arith)) (ground arith)

module _ {R : Type 0} ⦃io : Reader R⦄ where
  counted_lem :
      (xs ys : List ℕ) (n v : ℕ) (q : Parser R)
      → At 0 (xs ++ ys) q
      → length xs ≡ n
      → n ≤ 4
      → (if length xs == 2 then get_uint16 xs else get_uint32 xs) ≡ v
      → Returns (counted n q) (pos v) (At 0 ys)
  counted_lem xs ys n v q a l small is =
      Returns-after _ (peek_lem xs ys n q a l (omega arith)) λ s b.
        Returns-after _ (skip_front xs ys (length xs) 0 s b (omega arith) refl)
          λ t c. record { state = t; computes = ap (λ w. (ok (pos w), t)) is; post = c }

  typed_array :
      (tag n : ℕ) (xs ys bs : List ℕ) (v : ℕ) (p : Parser R) {k : ℕ}
      → At k (bs ++ ys) p
      → bs ≡ tag ∷ xs
      → ((q : Parser R) → type_of_tag tag q ≡ (ok ValueType.array, q))
      → is_fixarray tag ≡ false
      → (if tag == Tag.array16 then 2 else 4) ≡ n
      → length xs ≡ n
      → n ≤ 4
      → (if length xs == 2 then get_uint16 xs else get_uint32 xs) ≡ v
      → Returns (typed parse_array_begin p) (ValueType.array, pos v) (At 0 ys)
  unfolding parse_array_begin
  typed_array tag n xs ys bs v p h e known not_fix w l small is =
      typed_step parse_array_begin _ tag xs ys bs ValueType.array p h (λ q. refl) e known
        λ q a. rw (not_fix, w) (counted_lem xs ys n v q a l small is)

  array_fix :
      (n : ℕ) (bs ys : List ℕ) (p : Parser R) {k : ℕ}
      → At k (bs ++ ys) p
      → bs ≡ (n + 144) ∷ []
      → n ≤ 15
      → Returns (typed parse_array_begin p) (ValueType.array, pos n) (At 0 ys)
  unfolding parse_array_begin
  array_fix n bs ys p h e a =
      let t = below_e0 (n + 144) (omega arith) (omega arith) in
      let fix = fixarray_true (n + 144) (omega arith) (omega arith) in
      typed_step parse_array_begin _ (n + 144) [] ys bs ValueType.array p h (λ q. refl) e
        (λ q. unfold type_of_tag in rw (t.positive, t.negative, t.fixstr, fix))
        λ q b. rw fix (record {
          state = q;
          computes = rw (mask_0f (n + 144) (omega arith)) (ground arith);
          post = b;
        })

  -- At the front of the stream of a parser whose buffer is in order, the header of an array whose
  -- length fits into 32 bits makes ParseType answer Array and ParseArrayBegin return the length,
  -- and exactly the header is consumed.
  pub parse_array_begin-array_header :
      (n : ℕ) (bs ys : List ℕ) (p : Parser R) {k : ℕ}
      → array_header n ≡ some bs
      → At k (bs ++ ys) p
      → Returns (typed parse_array_begin p) (ValueType.array, pos n) (At 0 ys)
  unfolding array_header type_of_tag
  parse_array_begin-array_header n bs ys p e h = elim (dec_le n 15) [
    | yes a ↦ array_fix n bs ys p h (ground (arith, set_90 n)) a
    | no a ↦ elim (dec_le n 65535) [
      | yes b ↦
          typed_array Tag.array16 2 (put_uint16 (n % 2 ^ 16)) ys bs n p h (ground arith) (λ q. refl)
            refl refl refl (omega arith) (ground arith)
      | no b ↦ elim (dec_le n 4294967295) [
        | yes c ↦
            typed_array Tag.array32 4 (put_uint32 (n % 2 ^ 32)) ys bs n p h (ground arith)
              (λ q. refl) refl refl refl (omega arith) (ground arith)
        | no c ↦ absurd (ground arith)
      ]
    ]
  ]

  typed_map :
      (tag n : ℕ) (xs ys bs : List ℕ) (v : ℕ) (p : Parser R) {k : ℕ}
      → At k (bs ++ ys) p
      → bs ≡ tag ∷ xs
      → ((q : Parser R) → type_of_tag tag q ≡ (ok ValueType.map, q))
      → is_fixmap tag ≡ false
      → (if tag == Tag.map16 then 2 else 4) ≡ n
      → length xs ≡ n
      → n ≤ 4
      → (if length xs == 2 then get_uint16 xs else get_uint32 xs) ≡ v
      → Returns (typed parse_map_begin p) (ValueType.map, pos v) (At 0 ys)
  unfolding parse_map_begin
  typed_map tag n xs ys bs v p h e known not_fix w l small is =
      typed_step parse_map_begin _ tag xs ys bs ValueType.map p h (λ q. refl) e known
        λ q a. rw (not_fix, w) (counted_lem xs ys n v q a l small is)

  map_fix :
      (n : ℕ) (bs ys : List ℕ) (p : Parser R) {k : ℕ}
      → At k (bs ++ ys) p
      → bs ≡ (n + 128) ∷ []
      → n ≤ 15
      → Returns (typed parse_map_begin p) (ValueType.map, pos n) (At 0 ys)
  unfolding parse_map_begin
  map_fix n bs ys p h e a =
      let t = below_e0 (n + 128) (omega arith) (omega arith) in
      let fix = fixmap_true (n + 128) (omega arith) (omega arith) in
      typed_step parse_map_begin _ (n + 128) [] ys bs ValueType.map p h (λ q. refl) e
        (λ q.
          unfold type_of_tag in
          rw (
            t.positive,
            t.negative,
            t.fixstr,
            fixarray_false (n + 128) (omega arith) (omega arith),
            fix,
          ))
        λ q b. rw fix (record {
          state = q;
          computes = rw (mask_0f (n + 128) (omega arith)) (ground arith);
          post = b;
        })

  -- At the front of the stream of a parser whose buffer is in order, the header of a map whose
  -- length fits into 32 bits makes ParseType answer Map and ParseMapBegin return the length, and
  -- exactly the header is consumed.
  pub parse_map_begin-map_header :
      (n : ℕ) (bs ys : List ℕ) (p : Parser R) {k : ℕ}
      → map_header n ≡ some bs
      → At k (bs ++ ys) p
      → Returns (typed parse_map_begin p) (ValueType.map, pos n) (At 0 ys)
  unfolding map_header type_of_tag
  parse_map_begin-map_header n bs ys p e h = elim (dec_le n 15) [
    | yes a ↦ map_fix n bs ys p h (ground (arith, set_80 n)) a
    | no a ↦ elim (dec_le n 65535) [
      | yes b ↦
          typed_map Tag.map16 2 (put_uint16 (n % 2 ^ 16)) ys bs n p h (ground arith) (λ q. refl)
            refl refl refl (omega arith) (ground arith)
      | no b ↦ elim (dec_le n 4294967295) [
        | yes c ↦
            typed_map Tag.map32 4 (put_uint32 (n % 2 ^ 32)) ys bs n p h (ground arith) (λ q. refl)
              refl refl refl (omega arith) (ground arith)
        | no c ↦ absurd (ground arith)
      ]
    ]
  ]
