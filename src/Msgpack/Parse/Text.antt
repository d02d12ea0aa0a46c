-- ===== src/Msgpack/Parse/Text.antt =====
-- Strings and byte strings read back: ParseString and ParseBytes.
pub mod Read
use Read.{read_lem}
use objconv.Prelude.{
  ℕ, ◌+◌, ◌*◌, ◌/◌, ◌%◌, ◌^◌, ◌≤◌, ◌<◌, ◌≡◌, refl, sym, ap, ◌∙◌, subst, List, [], ◌∷◌, ◌++◌, length,
  arith, true, false, some, none, dec_le, append_assoc, bit_and, ◌==◌, if◌then◌else◌,
}
use objconv.Prelude.Masks.{mask_80, mask_e0, mask_1f, set_a0}
use objconv.Prelude.Bytes.{put_uint16, put_uint32}
use objconv.Go.Outcome.{ok, M, pure, Returns, Returns-after, Returns-eq, after}
use objconv.Go.Io.{Reader}
use objconv.Types.{ValueType}
use objconv.Msgpack.Tag
use objconv.Msgpack.Emit.{string_header, bytes_header}
use objconv.Msgpack.Parse.{
  Parser, type_of_tag, parse_string, parse_bytes, sized, read, next_byte, str_width, bin_width,
  length_value, is_positive_fixint, is_negative_fixint, is_fixstr, low_bits,
}
use objconv.Msgpack.Parse.Laws.{At, peek_lem, skip_front, typed, typed_step}

-- The tests of the tags on a short string's tag.
record IsShort (t : ℕ) : Type 0 where
  positive : is_positive_fixint t ≡ false
  negative : is_negative_fixint t ≡ false
  fixstr : is_fixstr t ≡ true

short : (t : ℕ) → 160 ≤ t → t < 192 → IsShort t
short t h k = record {
  positive = rw (mask_80 t (omega arith)) (ground arith);
  negative = rw (mask_e0 t (omega arith)) (ground arith);
  fixstr = rw (mask_e0 t (omega arith)) (ground arith);
}

module _ {R : Type 0} ⦃io : Reader R⦄ where
  sized_lem :
      (hs v ys : List ℕ) (n : ℕ) (q : Parser R)
      → At 0 (hs ++ (v ++ ys)) q
      → length hs ≡ n
      → n ≤ 4
      → length_value n hs ≡ length v
      → Returns (sized n q) v (At 0 ys)
  sized_lem hs v ys n q a l small is =
      Returns-after _ (peek_lem hs (v ++ ys) n q a l (omega arith)) λ s b.
        Returns-after _ (skip_front hs (v ++ ys) n 0 s b (omega arith) l)
          λ t c. read_lem v ys _ t c (sym is)

  -- A method that reads a tag, a length of `n` bytes and as many bytes.
  typed_sized :
      (m : M (Parser R) (List ℕ)) (body : ℕ → M (Parser R) (List ℕ)) (t : ValueType) (tag n : ℕ)
      (hs v header ys : List ℕ) (p : Parser R) {k : ℕ}
      → At k ((header ++ v) ++ ys) p
      → ((q : Parser R) → m q ≡ after (next_byte q) body)
      → header ≡ tag ∷ hs
      → ((q : Parser R) → type_of_tag tag q ≡ (ok t, q))
      → ((q : Parser R) → body tag q ≡ sized n q)
      → length hs ≡ n
      → n ≤ 4
      → length_value n hs ≡ length v
      → Returns (typed m p) (t, v) (At 0 ys)
  typed_sized m body t tag n hs v header ys p h is e known by_size l small value =
      typed_step m body tag (hs ++ v) ys (header ++ v) t p h is (ap (λ w. w ++ v) e) known λ q a.
        rw (by_size q)
          (sized_lem hs v ys n q (subst (λ w. At 0 w q) (append_assoc hs v ys) a) l small value)

  typed_short :
      (v header ys : List ℕ) (p : Parser R) {k : ℕ}
      → At k ((header ++ v) ++ ys) p
      → header ≡ (length v + 160) ∷ []
      → length v ≤ 31
      → Returns (typed parse_string p) (ValueType.string, v) (At 0 ys)
  unfolding parse_string
  typed_short v header ys p h e small =
      let t = length v + 160 in
      let s = short t (omega arith) (omega arith) in
      typed_step parse_string _ t v ys (header ++ v) ValueType.string p h (λ q. refl)
        (ap (λ w. w ++ v) e) (λ q. unfold type_of_tag in rw (s.positive, s.negative, s.fixstr))
        λ q a. rw s.fixstr (
          read_lem v ys (low_bits t Tag.fixstr_mask) q a
            (rw (mask_1f t (omega arith)) (omega arith)))

  -- At the front of the stream of a parser whose buffer is in order, the header of EmitString for
  -- a string whose length fits into 32 bits and the string make ParseType answer String and
  -- ParseString return the string, and exactly these bytes are consumed.
  pub parse_string-string_header :
      (v header ys : List ℕ) (p : Parser R) {k : ℕ}
      → string_header (length v) ≡ some header
      → At k ((header ++ v) ++ ys) p
      → Returns (typed parse_string p) (ValueType.string, v) (At 0 ys)
  unfolding parse_string string_header type_of_tag str_width length_value
  parse_string-string_header v header ys p e h =
      let n = length v in
      elim (dec_le n 31) [
        | yes a ↦ typed_short v header ys p h (ground (arith, set_a0 n)) a
        | no a ↦ elim (dec_le n 255) [
          | yes b ↦
              typed_sized parse_string _ ValueType.string Tag.str8 1 ((n % 2 ^ 8) ∷ []) v header ys
                p h (λ q. refl) (ground arith) (λ q. refl) (λ q. refl) refl (omega arith)
                (ground arith)
          | no b ↦ elim (dec_le n 65535) [
            | yes c ↦
                typed_sized parse_string _ ValueType.string Tag.str16 2 (put_uint16 (n % 2 ^ 16)) v
                  header ys p h (λ q. refl) (ground arith) (λ q. refl) (λ q. refl) refl
                  (omega arith) (ground arith)
            | no c ↦ elim (dec_le n 4294967295) [
              | yes d ↦
                  typed_sized parse_string _ ValueType.string Tag.str32 4 (put_uint32 (n % 2 ^ 32))
                    v header ys p h (λ q. refl) (ground arith) (λ q. refl) (λ q. refl) refl
                    (omega arith) (ground arith)
              | no d ↦ absurd (ground arith)
            ]
          ]
        ]
      ]

  -- At the front of the stream of a parser whose buffer is in order, the header of EmitBytes for
  -- a byte string whose length fits into 32 bits and the byte string make ParseType answer Bytes
  -- and ParseBytes return the byte string, and exactly these bytes are consumed.
  pub parse_bytes-bytes_header :
      (v header ys : List ℕ) (p : Parser R) {k : ℕ}
      → bytes_header (length v) ≡ some header
      → At k ((header ++ v) ++ ys) p
      → Returns (typed parse_bytes p) (ValueType.bytes, v) (At 0 ys)
  unfolding parse_bytes bytes_header type_of_tag bin_width length_value
  parse_bytes-bytes_header v header ys p e h =
      let n = length v in
      elim (dec_le n 255) [
        | yes b ↦
            typed_sized parse_bytes _ ValueType.bytes Tag.bin8 1 ((n % 2 ^ 8) ∷ []) v header ys p h
              (λ q. refl) (ground arith) (λ q. refl) (λ q. refl) refl (omega arith) (ground arith)
        | no b ↦ elim (dec_le n 65535) [
          | yes c ↦
              typed_sized parse_bytes _ ValueType.bytes Tag.bin16 2 (put_uint16 (n % 2 ^ 16)) v
                header ys p h (λ q. refl) (ground arith) (λ q. refl) (λ q. refl) refl (omega arith)
                (ground arith)
          | no c ↦ elim (dec_le n 4294967295) [
            | yes d ↦
                typed_sized parse_bytes _ ValueType.bytes Tag.bin32 4 (put_uint32 (n % 2 ^ 32)) v
                  header ys p h (λ q. refl) (ground arith) (λ q. refl) (λ q. refl) refl
                  (omega arith) (ground arith)
            | no d ↦ absurd (ground arith)
          ]
        ]
      ]
