-- ===== src/Msgpack/Parse/Instants.antt =====
-- Times read back: ParseTime.
use objconv.Prelude.{
  ℕ, ◌+◌, ◌*◌, ◌/◌, ◌%◌, ◌^◌, ◌<◌, ◌≡◌, refl, sym, ap, ap₂, ◌∙◌, subst, List, [], ◌∷◌, ◌++◌, arith,
  dec_le, ℕ_discrete, bit_and,
}
use objconv.Prelude.Int.{ℤ, pos, negsuc, to_word, of_word, IsInt, of_word-to_word64}
use objconv.Prelude.Masks.{or_shifted, and_ones}
use objconv.Prelude.Bytes.{
  put_uint32, put_uint64, get_uint32, get_uint64, get_uint32-put_uint32, get_uint64-put_uint64,
}
use objconv.Go.Outcome.{Returns, Returns-after, Returns-eq}
use objconv.Go.Io.{Reader}
use objconv.Go.Slice.{slice}
use objconv.Go.Time.{Time, IsTime, unix, second}
use objconv.Types.{ValueType}
use objconv.Msgpack.Tag
use objconv.Msgpack.Emit.{time_bytes}
use objconv.Msgpack.Parse.{Parser, type_of_tag, type_of_fixext, parse_type, parse_time}
use objconv.Msgpack.Parse.Laws.{
  At, peek_lem, peek_again, skip_front, next_byte_front, fixed_lem, typed, recode,
}

-- time.Unix gives back the time whose parts it is given.
unix_parts :
    (s : ℤ) (ns : ℕ) → IsInt 64 s → ns < second → unix s ns ≡ record { seconds = s; nanos = ns }
unfolding unix
unix_parts (pos n) ns h k = ground arith
unix_parts (negsuc n) ns h k = ground arith

module _ {R : Type 0} ⦃io : Reader R⦄ where
  -- The types of the extensions that hold a time.
  fixext_type :
      (tag : ℕ) (ys : List ℕ) (p : Parser R) {k : ℕ}
      → At k (tag ∷ Tag.ext_time ∷ ys) p
      → ((q : Parser R) → type_of_tag tag q ≡ type_of_fixext q)
      → Returns (parse_type p) ValueType.time (At 2 (tag ∷ Tag.ext_time ∷ ys))
  unfolding parse_type
  fixext_type tag ys p h known =
      Returns-after _ (peek_lem (tag ∷ []) (Tag.ext_time ∷ ys) 1 p h refl (omega arith)) λ q a.
        rw (known q) (
          Returns-after _ (peek_lem (tag ∷ Tag.ext_time ∷ []) ys 2 q a refl (omega arith))
            λ r b. record { state = r; computes = refl; post = b })

  ext8_type :
      (ys : List ℕ) (p : Parser R) {k : ℕ}
      → At k (Tag.ext8 ∷ 12 ∷ Tag.ext_time ∷ ys) p
      → Returns (parse_type p) ValueType.time (At 3 (Tag.ext8 ∷ 12 ∷ Tag.ext_time ∷ ys))
  unfolding parse_type type_of_tag
  ext8_type ys p h =
      Returns-after _ (peek_lem (Tag.ext8 ∷ []) (12 ∷ Tag.ext_time ∷ ys) 1 p h refl (omega arith))
        λ q a.
          Returns-after _ (peek_lem (Tag.ext8 ∷ 12 ∷ Tag.ext_time ∷ []) ys 3 q a refl (omega arith))
            λ r b. record { state = r; computes = refl; post = b }

  -- Times without nanoseconds, in 32 bits.
  time_of_fixext4 :
      (s : ℕ) (ys : List ℕ) (p : Parser R) {k : ℕ}
      → s < 2 ^ 32
      → At k (Tag.fixext4 ∷ Tag.ext_time ∷ put_uint32 s ++ ys) p
      → Returns (typed parse_time p) (ValueType.time, unix (pos s) 0) (At 0 ys)
  unfolding parse_time type_of_tag
  time_of_fixext4 s ys p fits h =
      Returns-after _ (fixext_type Tag.fixext4 (put_uint32 s ++ ys) p h (λ q. refl))
        λ q a. Returns-after _ (parsed q a) λ r b. record { state = r; computes = refl; post = b }
    where
      parsed :
          (q : Parser R)
          → At 2 (Tag.fixext4 ∷ Tag.ext_time ∷ put_uint32 s ++ ys) q
          → Returns (parse_time q) (unix (pos s) 0) (At 0 ys)
      parsed q a = Returns-after _ (next_byte_front Tag.fixext4 _ 1 q a (omega arith)) λ r b.
          Returns-after _ (skip_front (Tag.ext_time ∷ []) _ 1 0 r b (omega arith) refl) λ t c.
            Returns-eq (ap (λ w. unix (pos w) 0) (get_uint32-put_uint32 s fits)) (
              fixed_lem (λ w. unix (pos (get_uint32 w)) 0) (put_uint32 s) ys 4 t c refl
                (omega arith))

  -- Seconds in 34 bits and nanoseconds in 30.
  time_of_fixext8 :
      (s ns : ℕ) (ys : List ℕ) (p : Parser R) {k : ℕ}
      → s < 2 ^ 34
      → ns < second
      → At k (Tag.fixext8 ∷ Tag.ext_time ∷ put_uint64 (s + ns * 2 ^ 34) ++ ys) p
      → Returns (typed parse_time p) (ValueType.time, unix (pos s) ns) (At 0 ys)
  unfolding parse_time type_of_tag
  time_of_fixext8 s ns ys p fits small h =
      Returns-after _ (fixext_type Tag.fixext8 (put_uint64 x ++ ys) p h (λ q. refl))
        λ q a. Returns-after _ (parsed q a) λ r b. record { state = r; computes = refl; post = b }
    where
      x : ℕ
      x = s + ns * 2 ^ 34

      parts : (w : ℕ) → w ≡ x → unix (pos (bit_and w 0x3FFFFFFFF)) (w / 2 ^ 34) ≡ unix (pos s) ns
      parts w e =
          ap₂ (λ u v. unix (pos u) v) (omega (arith, and_ones 34 w 0x3FFFFFFFF refl)) (omega arith)

      parsed :
          (q : Parser R)
          → At 2 (Tag.fixext8 ∷ Tag.ext_time ∷ put_uint64 x ++ ys) q
          → Returns (parse_time q) (unix (pos s) ns) (At 0 ys)
      parsed q a = Returns-after _ (next_byte_front Tag.fixext8 _ 1 q a (omega arith)) λ r b.
          Returns-after _ (skip_front (Tag.ext_time ∷ []) _ 1 0 r b (omega arith) refl) λ t c.
            Returns-eq (parts _ (get_uint64-put_uint64 x (omega arith))) (
              fixed_lem
                (λ w. unix (pos (bit_and (get_uint64 w) 0x3FFFFFFFF)) (get_uint64 w / 2 ^ 34))
                (put_uint64 x) ys 8 t c refl (omega arith))

  -- Every other time.
  time_of_ext8 :
      (s : ℤ) (ns : ℕ) (ys : List ℕ) (p : Parser R) {k : ℕ}
      → IsInt 64 s
      → ns < second
      → At k
          (Tag.ext8 ∷ 12 ∷ Tag.ext_time ∷ (put_uint32 (ns % 2 ^ 32) ++ put_uint64 (to_word 64 s))
            ++ ys)
          p
      → Returns (typed parse_time p) (ValueType.time, unix s ns) (At 0 ys)
  unfolding parse_time
  time_of_ext8 s ns ys p fits small h =
      Returns-after _ (ext8_type (body ++ ys) p h)
        λ q a. Returns-after _ (parsed q a) λ r b. record { state = r; computes = refl; post = b }
    where
      body : List ℕ
      body = put_uint32 (ns % 2 ^ 32) ++ put_uint64 (to_word 64 s)

      word : (v : ℤ) → to_word 64 v < 2 ^ 64
      word (pos n) = omega arith
      word (negsuc n) = omega arith

      parts : unix (of_word 64 (get_uint64 (slice 4 12 body))) (get_uint32 body) ≡ unix s ns
      parts =
          ap₂ (λ u v. unix u v)
            (ap (of_word 64) (get_uint64-put_uint64 (to_word 64 s) (word s))
              ∙ of_word-to_word64 s fits)
            (omega (arith, get_uint32-put_uint32 (ns % 2 ^ 32) (omega arith)))

      parsed :
          (q : Parser R)
          → At 3 (Tag.ext8 ∷ 12 ∷ Tag.ext_time ∷ body ++ ys) q
          → Returns (parse_time q) (unix s ns) (At 0 ys)
      parsed q a = Returns-after _ (next_byte_front Tag.ext8 _ 2 q a (omega arith)) λ r b.
          Returns-after _ (peek_again (12 ∷ []) _ 1 r b (omega arith) refl) λ t c.
            Returns-after _ (skip_front (12 ∷ Tag.ext_time ∷ []) _ 2 0 t c (omega arith) refl)
              λ u d. Returns-eq parts (
                fixed_lem (λ w. unix (of_word 64 (get_uint64 (slice 4 12 w))) (get_uint32 w)) body
                  ys 12 u d refl (omega arith))

  read_back :
      (s : ℤ) (ns : ℕ) (p : Parser R) (ys : List ℕ)
      → IsInt 64 s
      → ns < second
      → Returns (typed parse_time p) (ValueType.time, unix s ns) (At 0 ys)
      → Returns (typed parse_time p) (ValueType.time, record { seconds = s; nanos = ns }) (At 0 ys)
  read_back s ns p ys fits small x =
      Returns-eq (ap (λ u. (ValueType.time, u)) (unix_parts s ns fits small)) x

  time_from_epoch :
      (s ns : ℕ) (ys : List ℕ) (p : Parser R) {k : ℕ}
      → s < 2 ^ 63
      → ns < second
      → At k (time_bytes (record { seconds = pos s; nanos = ns }) ++ ys) p
      → Returns
          (typed parse_time p)
          (ValueType.time, record { seconds = pos s; nanos = ns })
          (At 0 ys)
  unfolding time_bytes
  time_from_epoch s ns ys p fits small h = elim (dec_le s 4294967295) [
    | yes a ↦ elim (ℕ_discrete ns 0) [
      | yes z ↦ read_back (pos s) ns p ys fits small (
          subst (λ n. Returns (typed parse_time p) (ValueType.time, unix (pos s) n) (At 0 ys))
            (sym z)
            (let e : time_bytes (record { seconds = pos s; nanos = ns })
                  ≡ Tag.fixext4 ∷ Tag.ext_time ∷ put_uint32 s =
                ground arith in
              time_of_fixext4 s ys p (omega arith) (recode e ys p h)))
      | no z ↦ read_back (pos s) ns p ys fits small (
          let e : time_bytes (record { seconds = pos s; nanos = ns })
              ≡ Tag.fixext8 ∷ Tag.ext_time ∷ put_uint64 (s + ns * 2 ^ 34) =
            ground (arith, or_shifted 34 s ns) in
          time_of_fixext8 s ns ys p (omega arith) small (recode e ys p h))
    ]
    | no a ↦ elim (dec_le s 17179869183) [
      | yes b ↦ read_back (pos s) ns p ys fits small (
          let e : time_bytes (record { seconds = pos s; nanos = ns })
              ≡ Tag.fixext8 ∷ Tag.ext_time ∷ put_uint64 (s + ns * 2 ^ 34) =
            ground (arith, or_shifted 34 s ns) in
          time_of_fixext8 s ns ys p (omega arith) small (recode e ys p h))
      | no b ↦ read_back (pos s) ns p ys fits small (
          let e : time_bytes (record { seconds = pos s; nanos = ns })
              ≡ Tag.ext8 ∷ 12 ∷ Tag.ext_time ∷ put_uint32 (ns % 2 ^ 32)
                ++ put_uint64 (to_word 64 (pos s)) =
            ground arith in
          time_of_ext8 (pos s) ns ys p fits small (recode e ys p h))
    ]
  ]

  time_before_epoch :
      (s ns : ℕ) (ys : List ℕ) (p : Parser R) {k : ℕ}
      → s < 2 ^ 63
      → ns < second
      → At k (time_bytes (record { seconds = negsuc s; nanos = ns }) ++ ys) p
      → Returns
          (typed parse_time p)
          (ValueType.time, record { seconds = negsuc s; nanos = ns })
          (At 0 ys)
  unfolding time_bytes
  time_before_epoch s ns ys p fits small h = read_back (negsuc s) ns p ys fits small (
      let e : time_bytes (record { seconds = negsuc s; nanos = ns })
          ≡ Tag.ext8 ∷ 12 ∷ Tag.ext_time ∷ put_uint32 (ns % 2 ^ 32)
            ++ put_uint64 (to_word 64 (negsuc s)) =
        ground arith in
      time_of_ext8 (negsuc s) ns ys p fits small (recode e ys p h))

  -- At the front of the stream of a parser whose buffer is in order, the bytes that EmitTime
  -- writes for an instant with seconds in an int64 and nanoseconds below a second make ParseType
  -- answer Time and ParseTime return that instant, and exactly these bytes are consumed.
  pub parse_time-time_bytes :
      (t : Time) (ys : List ℕ) (p : Parser R) {k : ℕ}
      → IsTime t
      → At k (time_bytes t ++ ys) p
      → Returns (typed parse_time p) (ValueType.time, t) (At 0 ys)
  parse_time-time_bytes t ys p valid h =
      by_sign t.seconds t.nanos valid.seconds_fit valid.nanos_fit h
    where
      by_sign :
          (s : ℤ) (ns : ℕ) {k : ℕ}
          → IsInt 64 s
          → ns < second
          → At k (time_bytes (record { seconds = s; nanos = ns }) ++ ys) p
          → Returns
              (typed parse_time p)
              (ValueType.time, record { seconds = s; nanos = ns })
              (At 0 ys)
      by_sign (pos s) ns fits small h = time_from_epoch s ns ys p fits small h
      by_sign (negsuc s) ns fits small h = time_before_epoch s ns ys p fits small h
