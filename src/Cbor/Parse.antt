-- ===== src/Cbor/Parse.antt =====
-- The parser of cbor/parse.go.
pub mod Laws
pub mod Numbers
pub mod Arrays
pub mod Flaws
pub mod Load
pub mod Simple
pub mod Text
use objconv.Prelude.{
  ℕ, zero, suc, ◌+◌, ◌-◌, ◌*◌, ◌/◌, ◌%◌, ◌^◌, ◌==◌, List, [], ◌∷◌, length, drop, leb, ltb, Bool,
  true, false, ◌||◌, none, some, if◌then◌else◌,
}
use objconv.Prelude.Int.{ℤ, pos, negsuc, to_word, of_word}
use objconv.Prelude.Bytes.{byte_at, get_uint16, get_uint32, get_uint64}
use objconv.Go.Outcome.{
  Error, Outcome, ok, err, panic, stuck, end, multiple_tags, indefinite_length, unexpected_value,
  length_overflow, time_overflow, invalid_time_major, invalid_extended_value, invalid_time_format,
  M, after, ◌>>=◌, ◌>>◌, pure, fail, crash,
}
use objconv.Go.Slice.{reslice}
use objconv.Go.Io.{Reader}
use objconv.Go.Float.{Floats}
use objconv.Go.Time.{Time, TimeFormat, unix, unix_signed, second}
use objconv.Types.{ValueType}
use objconv.Cbor.Major.{
  i_uint8, i_uint16, i_uint32, sv_false, sv_true, sv_null, sv_undefined, sv_extension, sv_float16,
  sv_float32, sv_float64, tag_date_time, tag_timestamp, int_max, int64_max, no_tag, major_type,
  minor_value, f16tof32bits,
}
use objconv.Cbor.State.{Parser, skip, set_tag, peek, load}

-- The size of a head whose low bits `b` are above 23, and the number behind its first byte.
unfoldable pub head_size : ℕ → ℕ
head_size b =
    if b == i_uint8 then 2 else if b == i_uint16 then 3 else if b == i_uint32 then 5 else 9

unfoldable pub head_value : ℕ → List ℕ → ℕ
head_value b s =
    if b == i_uint8
    then byte_at s 1
    else if b == i_uint16
    then get_uint16 (drop 1 s)
    else if b == i_uint32
    then get_uint32 (drop 1 s)
    else get_uint64 (drop 1 s)

-- v = -int64(u + 1), where both the sum and the negation wrap.
unfoldable pub negative_int : ℕ → ℤ
negative_int u = of_word 64 ((2 ^ 64 - (u + 1) % 2 ^ 64) % 2 ^ 64)

-- A success whose error and new value of a variable are looked at afterwards.
abbrev pub attempt :
    {S A B : Type 0} → Outcome A × S → (A → M S B) → (Error → M S B) → Outcome B × S
attempt (ok a, s) f g = f a s
attempt (err e, s) f g = g e s
attempt (panic, s) f g = (panic, s)
attempt (stuck, s) f g = (stuck, s)

-- Seconds and their fraction, in float64 arithmetic; 0x41CDCD6500000000 is the float64 10^9.
abbrev pub time_of_float : ⦃fl : Floats⦄ → ℕ → Time
time_of_float ⦃fl⦄ f =
    let s = fl.to_int64 f in
    unix_signed s (fl.to_int64 (fl.mul (fl.sub f (fl.of_int64 s)) 0x41CDCD6500000000))

module _ {R : Type 0} ⦃io : Reader R⦄ where
  -- parseUint: the number of a head, and whether it announces an indefinite length.
  unfoldable pub parse_head : M (Parser R) (ℕ × Bool)
  unfolding head_size head_value
  parse_head = do
    s ← peek 1
    let b = minor_value (byte_at s 0)
    if leb b 23
        then (skip 1 >> pure (b, false))
        else if b == 31
        then (skip 1 >> pure (0, true))
        else (peek (head_size b) >>= λ c. skip (head_size b) >> pure (head_value b c, false))

  -- A type that is announced for an item of major type 7.
  abbrev pub simple_type : ℕ → M (Parser R) ValueType
  simple_type b =
      if b == sv_null || b == sv_undefined
      then pure ValueType.nil
      else if b == sv_false || b == sv_true
      then pure ValueType.bool
      else if b == sv_float16 || b == sv_float32 || b == sv_float64
      then pure ValueType.float
      else if b == sv_extension
      then pure ValueType.nil
      else fail (unexpected_value b)

  -- p.tag, indef, err = p.parseUint(), which sets the tag to 0 where it fails, and what follows for
  -- an item that no tag precedes. `next` is the next round of the loop.
  abbrev pub load_tag : M (Parser R) ValueType → M (Parser R) ValueType
  load_tag next p =
      attempt (parse_head p)
        (λ (u, indefinite) q.
          let r = record q { tag = u } in
          if indefinite
          then (err (indefinite_length 6), r)
          else if u == tag_date_time || u == tag_timestamp
          then (ok ValueType.time, record r { typ = ValueType.time })
          else next r)
        (λ e q. (err e, record q { tag = 0 }))

  -- The loop of ParseType. The slice `s` that it looks at is the byte of the read buffer at `at`,
  -- which the loop does not set again. `tagged` is `t`.
  pub parse_type_loop : ℕ → ℕ → Bool → M (Parser R) ValueType
  parse_type_loop zero at tagged p = (stuck, p)
  parse_type_loop (suc fuel) at tagged p =
      let next = parse_type_loop fuel at true in
      let first = byte_at p.buf.b at in
      let m = major_type first in
      if m == 0
      then (ok ValueType.uint, p)
      else if m == 1
      then (ok ValueType.int, p)
      else if m == 2
      then (ok ValueType.bytes, p)
      else if m == 3
      then (ok ValueType.string, p)
      else if m == 4
      then (ok ValueType.array, p)
      else if m == 5
      then (ok ValueType.map, p)
      else if m == 6
      then (if tagged then (err multiple_tags, p) else load_tag next p)
      else simple_type (minor_value first) p

  -- A second tag ends the loop, so two rounds are enough.
  unfoldable pub parse_type : M (Parser R) ValueType
  unfolding parse_type_loop parse_head
  parse_type p =
      if p.tag == no_tag
      then after (peek 1 p) (λ _ q. parse_type_loop 2 q.buf.i false q)
      else (ok p.typ, p)

  -- An extended value has a second byte, of 32 or more.
  abbrev pub extended : List ℕ → M (Parser R) ℕ
  extended s =
      if ltb (byte_at s 1) 32
      then fail (invalid_extended_value (byte_at s 1))
      else (skip 2 >> pure (byte_at s 1))

  unfoldable pub parse_type7 : M (Parser R) ℕ
  parse_type7 = do
    s ← peek 1
    let b = minor_value (byte_at s 0)
    if b == sv_extension then (peek 2 >>= extended) else (skip 1 >> pure b)

  -- The tag is reset also where there was an error.
  unfoldable pub parse_nil : M (Parser R) (Unit {0})
  unfolding parse_type7
  parse_nil p = attempt (parse_type7 p) (λ _. set_tag no_tag) (λ e. set_tag no_tag >> fail e)

  unfoldable pub parse_bool : M (Parser R) Bool
  unfolding parse_type7
  parse_bool = do b ← parse_type7; set_tag no_tag; pure (b == sv_true)

  abbrev pub definite : Bool → ℕ → M (Parser R) (Unit {0})
  definite true m = fail (indefinite_length m)
  definite false m = pure tt

  unfoldable pub parse_int : M (Parser R) ℤ
  unfolding parse_head negative_int
  parse_int = do
    (u, indefinite) ← parse_head
    definite indefinite 1
    set_tag no_tag
    pure (negative_int u)

  unfoldable pub parse_uint : M (Parser R) ℕ
  unfolding parse_head
  parse_uint = do (u, indefinite) ← parse_head; definite indefinite 0; set_tag no_tag; pure u

  unfoldable pub parse_float : ⦃fl : Floats⦄ → M (Parser R) ℕ
  unfolding parse_type7
  parse_float ⦃fl⦄ = do
    b ← parse_type7
    let n = if b == sv_float16 then 2 else if b == sv_float32 then 4 else 8
    s ← peek n
    skip n
    set_tag no_tag
    pure (
        if b == sv_float16
        then fl.widen (f16tof32bits (get_uint16 s))
        else if b == sv_float32
        then fl.widen (get_uint32 s)
        else get_uint64 s)

  -- The loop over the chunks of a string of indefinite length. The variable `s` of the source stays
  -- empty, so a chunk is held to the limit by its own length.
  pub chunks_loop : ℕ → List ℕ → M (Parser R) (List ℕ)
  unfolding parse_head
  chunks_loop zero v p = (stuck, p)
  chunks_loop (suc fuel) v p =
      let rest = chunks_loop fuel in
      after (parse_head p) (λ (u, indefinite) q.
        if indefinite
        then (ok v, q)
        else if ltb int_max u
        then (err (length_overflow u), q)
        else after (load u q) rest)

  -- Each chunk takes a byte at least of what the parser and the reader hold.
  abbrev chunks_fuel : Parser R → ℕ
  chunks_fuel p = p.buf.j - p.buf.i + length (io.unread p.buf.r) + 1

  -- parseBytes; the major type given is not looked at.
  unfoldable pub parse_chunks : M (Parser R) (List ℕ)
  unfolding parse_head chunks_loop
  parse_chunks p = after (parse_head (record p { s = reslice 0 p.s })) (λ (u, indefinite) q.
      if indefinite
      then chunks_loop (chunks_fuel q) [] q
      else if ltb int_max u
      then (err (length_overflow u), q)
      else load u q)

  unfoldable pub parse_string : M (Parser R) (List ℕ)
  unfolding parse_chunks
  parse_string = do v ← parse_chunks; set_tag no_tag; pure v

  unfoldable pub parse_bytes : M (Parser R) (List ℕ)
  unfolding parse_chunks
  parse_bytes = do v ← parse_chunks; set_tag no_tag; pure v

  abbrev pub parsed_time : ⦃tf : TimeFormat⦄ → List ℕ → M (Parser R) Time
  parsed_time ⦃tf⦄ s = elim (tf.parse s) [ none ↦ fail invalid_time_format | some v ↦ pure v ]

  -- A time that is no text: seconds as an integer or a float.
  abbrev pub time_of_major : ⦃fl : Floats⦄ → ℕ → M (Parser R) Time
  time_of_major m =
      if m == 0
      then (parse_uint >>= λ u.
          if ltb int64_max u then fail (time_overflow u) else pure (unix (pos u) 0))
      else if m == 1
      then (parse_int >>= λ i. pure (unix i 0))
      else if m == 7
      then (parse_float >>= λ f. pure (time_of_float f))
      else fail (invalid_time_major m)

  unfoldable pub parse_time : ⦃tf : TimeFormat⦄ → ⦃fl : Floats⦄ → M (Parser R) Time
  unfolding parse_string parse_uint parse_int parse_float
  parse_time p =
      let body =
        if p.tag == tag_date_time
        then (parse_string >>= parsed_time)
        else (peek 1 >>= λ s. time_of_major (major_type (byte_at s 0))) in
      after (body p) (λ v. set_tag no_tag >> pure v)

  -- CBOR has no durations and no errors.
  unfoldable pub parse_duration : M (Parser R) ℤ
  parse_duration = crash

  unfoldable pub parse_error : M (Parser R) (List ℕ)
  parse_error = crash

  -- p.stack = append(p.stack, n), p.tag = noTag
  abbrev pub opened : ℤ → M (Parser R) ℤ
  opened n p = (ok n, record p { tag = no_tag; stack = n ∷ p.stack })

  -- The number of elements of an array or map; -1 where the length is indefinite.
  abbrev pub parse_begin : M (Parser R) ℤ
  parse_begin = do
    (u, indefinite) ← parse_head
    if indefinite
        then opened (negsuc 0)
        else if ltb int_max u
        then fail (length_overflow u)
        else opened (pos u)

  -- p.stack = p.stack[:len(p.stack)-1], which panics on an empty stack.
  abbrev pub close : List ℤ → M (Parser R) (Unit {0})
  close [] p = (panic, p)
  close (n ∷ st) p = (ok tt, record p { stack = st })

  -- Before each element of an indefinite length: a break, 0xFF, ends the elements.
  abbrev pub more : List ℤ → M (Parser R) (Unit {0})
  more [] = crash
  more (pos n ∷ st) = pure tt
  more (negsuc n ∷ st) = do s ← peek 1; if byte_at s 0 == 0xFF then fail end else pure tt

  unfoldable pub parse_array_begin : M (Parser R) ℤ
  unfolding parse_head
  parse_array_begin = parse_begin

  unfoldable pub parse_array_end : ℤ → M (Parser R) (Unit {0})
  parse_array_end n p = close p.stack p

  unfoldable pub parse_array_next : ℤ → M (Parser R) (Unit {0})
  parse_array_next n p = more p.stack p

  unfoldable pub parse_map_begin : M (Parser R) ℤ
  unfolding parse_head
  parse_map_begin = parse_begin

  unfoldable pub parse_map_end : ℤ → M (Parser R) (Unit {0})
  parse_map_end n p = close p.stack p

  unfoldable pub parse_map_value : ℤ → M (Parser R) (Unit {0})
  parse_map_value n = pure tt

  unfoldable pub parse_map_next : ℤ → M (Parser R) (Unit {0})
  parse_map_next n p = more p.stack p
