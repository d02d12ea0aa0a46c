-- ===== src/Msgpack/Parse/Numbers.antt =====
-- Numbers read back: ParseInt of msgpack/parse.go against the bytes of EmitInt.
use objconv.Prelude.{
  ℕ, ◌%◌, ◌-◌, ◌^◌, ◌≤◌, ◌<◌, ◌≡◌, refl, subst, ap, List, [], ◌∷◌, ◌++◌, length, arith, true, false,
  eq→==, dec_le,
}
use objconv.Prelude.Int.{ℤ, pos, negsuc, IsInt, to_word}
use objconv.Prelude.Masks.{mask_80, mask_e0, set_00, set_e0}
use objconv.Prelude.Bytes.{put_uint16, put_uint32, put_uint64}
use objconv.Go.Outcome.{ok, Returns, Returns-after}
use objconv.Go.Io.{Reader}
use objconv.Types.{ValueType}
use objconv.Msgpack.Tag
use objconv.Msgpack.Emit.{int_bytes}
use objconv.Msgpack.Parse.{
  Parser, type_of_tag, parse_int, is_positive_fixint, is_negative_fixint, int_width, int_value,
}
use objconv.Msgpack.Parse.Laws.{At, next_byte_front, fixed_lem, typed, typed_lem, recode}

positive : (t : ℕ) → t < 128 → is_positive_fixint t ≡ true
positive t h = rw (mask_80 t (omega arith)) (eq→== _ _ (omega arith))

not_positive : (t : ℕ) → 128 ≤ t → t < 256 → is_positive_fixint t ≡ false
not_positive t h k = rw (mask_80 t k) (ground arith)

negative : (t : ℕ) → 224 ≤ t → t < 256 → is_negative_fixint t ≡ true
negative t h k = rw (mask_e0 t k) (eq→== _ _ (omega arith))

module _ {R : Type 0} ⦃io : Reader R⦄ where
  parse_positive :
      (t : ℕ) (ys : List ℕ) (p : Parser R)
      → At 1 (t ∷ ys) p
      → t < 128
      → Returns (parse_int p) (pos t) (At 0 ys)
  unfolding parse_int
  parse_positive t ys p h small =
      Returns-after _ (next_byte_front t ys 0 p h (omega arith))
        λ q a. record { state = q; computes = rw (positive t small) (ground arith); post = a }

  parse_negative :
      (t : ℕ) (ys : List ℕ) (p : Parser R)
      → At 1 (t ∷ ys) p
      → 224 ≤ t
      → t < 256
      → Returns (parse_int p) (negsuc (255 - t)) (At 0 ys)
  unfolding parse_int
  parse_negative t ys p h large byte =
      Returns-after _ (next_byte_front t ys 0 p h (omega arith)) λ q a. record {
        state = q;
        computes = rw (not_positive t (omega arith) byte, negative t large byte) (ground arith);
        post = a;
      }

  parse_wide :
      (tag n : ℕ) (xs ys : List ℕ) (p : Parser R)
      → At 1 (tag ∷ xs ++ ys) p
      → is_positive_fixint tag ≡ false
      → is_negative_fixint tag ≡ false
      → int_width tag ≡ n
      → length xs ≡ n
      → n ≤ 8
      → Returns (parse_int p) (int_value n xs) (At 0 ys)
  unfolding parse_int
  parse_wide tag n xs ys p h e f w l small =
      Returns-after _ (next_byte_front tag (xs ++ ys) 0 p h (omega arith))
        λ q a. rw (e, f, w) (fixed_lem (int_value n) xs ys n q a l (omega arith))

  -- The same with the tag's width and the value given by evaluation.
  typed_wide :
      (tag n : ℕ) (xs ys : List ℕ) (v : ℤ) (p : Parser R) (bs : List ℕ) {k : ℕ}
      → bs ≡ tag ∷ xs
      → At k (bs ++ ys) p
      → is_positive_fixint tag ≡ false
      → is_negative_fixint tag ≡ false
      → int_width tag ≡ n
      → length xs ≡ n
      → n ≤ 8
      → ((q : Parser R) → type_of_tag tag q ≡ (ok ValueType.int, q))
      → int_value n xs ≡ v
      → Returns (typed parse_int p) (ValueType.int, v) (At 0 ys)
  typed_wide tag n xs ys v p bs b h e f w l small known is =
      typed_lem parse_int tag (xs ++ ys) ValueType.int p (recode b ys p h) known
        λ q a. rw is at (parse_wide tag n xs ys q a e f w l small)

  typed_positive :
      (t : ℕ) (ys : List ℕ) (p : Parser R) (bs : List ℕ) {k : ℕ}
      → bs ≡ t ∷ []
      → At k (bs ++ ys) p
      → t < 128
      → Returns (typed parse_int p) (ValueType.int, pos t) (At 0 ys)
  typed_positive t ys p bs b h small =
      typed_lem parse_int t ys ValueType.int p (recode b ys p h)
        (λ q. unfold type_of_tag in rw (positive t small)) λ q a. parse_positive t ys q a small

  typed_negative :
      (t : ℕ) (ys : List ℕ) (p : Parser R) (bs : List ℕ) {k : ℕ}
      → bs ≡ t ∷ []
      → At k (bs ++ ys) p
      → 224 ≤ t
      → t < 256
      → Returns (typed parse_int p) (ValueType.int, negsuc (255 - t)) (At 0 ys)
  typed_negative t ys p bs b h large byte =
      typed_lem parse_int t ys ValueType.int p (recode b ys p h)
        (λ q. unfold type_of_tag in rw (not_positive t (omega arith) byte, negative t large byte))
        λ q a. parse_negative t ys q a large byte

  typed_pos :
      (n : ℕ) (ys : List ℕ) (p : Parser R) {k : ℕ}
      → n < 2 ^ 63
      → At k (int_bytes (pos n) ++ ys) p
      → Returns (typed parse_int p) (ValueType.int, pos n) (At 0 ys)
  unfolding type_of_tag int_width int_value
  typed_pos n ys p fits h = elim (dec_le n 127) [
    | yes a ↦
        typed_positive n ys p (int_bytes (pos n)) (unfold int_bytes in ground (arith, set_00 n)) h
          (omega arith)
    | no a ↦ elim (dec_le n 32767) [
      | yes b ↦
          typed_wide Tag.int16 2 (put_uint16 (n % 2 ^ 16)) ys (pos n) p (int_bytes (pos n))
            (unfold int_bytes in ground arith) h refl refl refl refl (omega arith) (λ q. refl)
            (ground arith)
      | no b ↦ elim (dec_le n 2147483647) [
        | yes c ↦
            typed_wide Tag.int32 4 (put_uint32 (n % 2 ^ 32)) ys (pos n) p (int_bytes (pos n))
              (unfold int_bytes in ground arith) h refl refl refl refl (omega arith) (λ q. refl)
              (ground arith)
        | no c ↦
            typed_wide Tag.int64 8 (put_uint64 (n % 2 ^ 64)) ys (pos n) p (int_bytes (pos n))
              (unfold int_bytes in ground arith) h refl refl refl refl (omega arith) (λ q. refl)
              (ground arith)
      ]
    ]
  ]

  typed_negsuc :
      (n : ℕ) (ys : List ℕ) (p : Parser R) {k : ℕ}
      → n < 2 ^ 63
      → At k (int_bytes (negsuc n) ++ ys) p
      → Returns (typed parse_int p) (ValueType.int, negsuc n) (At 0 ys)
  unfolding type_of_tag int_width int_value
  typed_negsuc n ys p fits h = elim (dec_le n 30) [
    | yes a ↦
        let back : negsuc (255 - (255 - n)) ≡ negsuc n = ap negsuc (omega arith) in
        subst (λ v. Returns (typed parse_int p) (ValueType.int, v) (At 0 ys)) back
          (typed_negative (255 - n) ys p (int_bytes (negsuc n))
            (unfold int_bytes in ground (arith, set_e0 (31 - n))) h (omega arith) (omega arith))
    | no a ↦ elim (dec_le n 127) [
      | yes z ↦
          typed_wide Tag.int8 1 ((255 - n % 256) ∷ []) ys (negsuc n) p (int_bytes (negsuc n))
            (unfold int_bytes in ground arith) h refl refl refl refl (omega arith) (λ q. refl)
            (ground arith)
      | no z ↦ elim (dec_le n 32767) [
        | yes b ↦
            typed_wide Tag.int16 2 (put_uint16 (to_word 16 (negsuc n))) ys (negsuc n) p
              (int_bytes (negsuc n)) (unfold int_bytes in ground arith) h refl refl refl refl
              (omega arith) (λ q. refl) (ground arith)
        | no b ↦ elim (dec_le n 2147483647) [
          | yes c ↦
              typed_wide Tag.int32 4 (put_uint32 (to_word 32 (negsuc n))) ys (negsuc n) p
                (int_bytes (negsuc n)) (unfold int_bytes in ground arith) h refl refl refl refl
                (omega arith) (λ q. refl) (ground arith)
          | no c ↦
              typed_wide Tag.int64 8 (put_uint64 (to_word 64 (negsuc n))) ys (negsuc n) p
                (int_bytes (negsuc n)) (unfold int_bytes in ground arith) h refl refl refl refl
                (omega arith) (λ q. refl) (ground arith)
        ]
      ]
    ]
  ]

  -- At the front of the stream of a parser whose buffer is in order, the bytes that EmitInt
  -- writes for an int64 make ParseType answer Int and ParseInt return the number, and exactly
  -- these bytes are consumed.
  pub parse_int-int_bytes :
      (v : ℤ) (ys : List ℕ) (p : Parser R) {k : ℕ}
      → IsInt 64 v
      → At k (int_bytes v ++ ys) p
      → Returns (typed parse_int p) (ValueType.int, v) (At 0 ys)
  parse_int-int_bytes (pos n) ys p fits h = typed_pos n ys p fits h
  parse_int-int_bytes (negsuc n) ys p fits h = typed_negsuc n ys p fits h
