-- ===== src/Msgpack/Parse.antt =====
-- The parser of msgpack/parse.go. Its fields `r`, `i`, `j` and `b` are the buffer `buf`. The slices
-- that the source returns share its buffers until the next call; here they are values.
pub mod Laws
pub mod Numbers
pub mod Scalars
pub mod Headers
pub mod Text
pub mod Instants
use objconv.Prelude.{
  ℕ, zero, suc, ◌+◌, ◌-◌, ◌*◌, ◌/◌, ◌%◌, ◌^◌, ◌==◌, List, [], ◌∷◌, length, leb, ltb, Bool, ◌||◌,
  bit_and, if◌then◌else◌,
}
use objconv.Prelude.Int.{ℤ, pos, of_word}
use objconv.Prelude.Bytes.{byte_at, get_uint16, get_uint32, get_uint64}
use objconv.Go.Outcome.{
  Error, Outcome, ok, err, panic, stuck, unsupported_extension, unknown_tag, unknown_extension,
  invalid_timestamp_length, invalid_extension_tag, M, after, ◌>>=◌, ◌>>◌, pure, fail, crash,
}
use objconv.Go.Slice.{Slice, slice, capacity, contents, make, reslice, copy_at}
use objconv.Go.Io.{Reader, read_full}
use objconv.Go.Float.{Floats}
use objconv.Go.Time.{Time, unix}
use objconv.Types.{ValueType}
use objconv.Buffer
use objconv.Buffer.{Buffer, buffer_size, new_buffer}
use objconv.Msgpack.Tag

-- `s` is the string buffer.
pub record Parser (R : Type 0) : Type 0 where
  pub buf : Buffer buffer_size R
  pub s : Slice

abbrev pub new_parser : {R : Type 0} → R → Parser R
new_parser r = record { buf = new_buffer r; s = make 0 0 }

pub reset : {R : Type 0} → R → Parser R → Parser R
reset r p = record p { buf = record { r = r; i = 0; j = 0; b = p.buf.b } }

-- p.b[p.i:p.j], the bytes behind the reader that Buffered returns.
pub buffered : {R : Type 0} → Parser R → List ℕ
buffered p = slice p.buf.i p.buf.j p.buf.b

pub align : ℕ → ℕ → ℕ
align n a = if n % a == 0 then n else (n / a + 1) * a

-- The string buffer for `n` bytes: a new one where its capacity is too small.
pub make_room : ℕ → Slice → Slice
unfolding align
make_room n s = if ltb (capacity s) n then make n (align n 1024) else reslice n s

-- A call on the read buffer.
abbrev pub on_buffer : {R A : Type 0} → M (Buffer buffer_size R) A → M (Parser R) A
on_buffer m p = let (o, buf) = m p.buf in (o, record p { buf = buf })

-- p.i += n
abbrev pub skip : {R : Type 0} → ℕ → M (Parser R) (Unit {0})
skip n = on_buffer (Buffer.skip n)

-- tag := p.b[p.i] and p.i++
abbrev pub next_byte : {R : Type 0} → M (Parser R) ℕ
next_byte = on_buffer Buffer.next_byte

abbrev pub is_positive_fixint : ℕ → Bool
is_positive_fixint tag = bit_and tag Tag.positive_fixint_mask == Tag.positive_fixint_tag

abbrev pub is_negative_fixint : ℕ → Bool
is_negative_fixint tag = bit_and tag Tag.negative_fixint_mask == Tag.negative_fixint_tag

abbrev pub is_fixstr : ℕ → Bool
is_fixstr tag = bit_and tag Tag.fixstr_mask == Tag.fixstr_tag

abbrev pub is_fixarray : ℕ → Bool
is_fixarray tag = bit_and tag Tag.fixarray_mask == Tag.fixarray_tag

abbrev pub is_fixmap : ℕ → Bool
is_fixmap tag = bit_and tag Tag.fixmap_mask == Tag.fixmap_tag

-- The number of bytes behind an integer's tag, and the integer that they are.
unfoldable pub int_width : ℕ → ℕ
int_width tag =
    if tag == Tag.int8 then 1 else if tag == Tag.int16 then 2 else if tag == Tag.int32 then 4 else 8

unfoldable pub int_value : ℕ → List ℕ → ℤ
int_value n b =
    if n == 1
    then of_word 8 (byte_at b 0)
    else if n == 2
    then of_word 16 (get_uint16 b)
    else if n == 4
    then of_word 32 (get_uint32 b)
    else of_word 64 (get_uint64 b)

unfoldable pub uint_width : ℕ → ℕ
uint_width tag =
    if tag == Tag.uint8
    then 1
    else if tag == Tag.uint16
    then 2
    else if tag == Tag.uint32
    then 4
    else 8

unfoldable pub uint_value : ℕ → List ℕ → ℕ
uint_value n b =
    if n == 1
    then byte_at b 0
    else if n == 2
    then get_uint16 b
    else if n == 4
    then get_uint32 b
    else get_uint64 b

unfoldable pub str_width : ℕ → ℕ
str_width tag = if tag == Tag.str8 then 1 else if tag == Tag.str16 then 2 else 4

unfoldable pub bin_width : ℕ → ℕ
bin_width tag = if tag == Tag.bin8 then 1 else if tag == Tag.bin16 then 2 else 4

-- The length of a string or byte string, in `n` bytes.
unfoldable pub length_value : ℕ → List ℕ → ℕ
length_value n b = if n == 1 then byte_at b 0 else if n == 2 then get_uint16 b else get_uint32 b

-- The low bits of a tag, without those of the mask.
abbrev pub low_bits : ℕ → ℕ → ℕ
low_bits tag mask = bit_and tag (255 - mask)

module _ {R : Type 0} ⦃io : Reader R⦄ where
  unfoldable pub peek : ℕ → M (Parser R) (List ℕ)
  peek n = on_buffer (Buffer.peek n)

  -- A fixed extension: its type is the byte behind the tag.
  abbrev pub type_of_fixext : M (Parser R) ValueType
  type_of_fixext = do
    b ← peek 2
    let tag = byte_at b 1
    if tag == Tag.ext_time then pure ValueType.time else fail (unsupported_extension tag)

  -- An extension with a length of 1, 2 or 4 bytes: its type is the last of the bytes peeked at.
  abbrev pub type_of_ext : ℕ → M (Parser R) ValueType
  type_of_ext n = do
    b ← peek n
    let tag = byte_at b (length b - 1)
    if tag == Tag.ext_time then pure ValueType.time else fail (unknown_extension tag)

  -- The switches of ParseType.
  unfoldable pub type_of_tag : ℕ → M (Parser R) ValueType
  type_of_tag tag =
      if is_positive_fixint tag
      then pure ValueType.int
      else if is_negative_fixint tag
      then pure ValueType.int
      else if is_fixstr tag
      then pure ValueType.string
      else if is_fixarray tag
      then pure ValueType.array
      else if is_fixmap tag
      then pure ValueType.map
      else if tag == Tag.nil
      then pure ValueType.nil
      else if tag == Tag.false || tag == Tag.true
      then pure ValueType.bool
      else if tag == Tag.int8 || tag == Tag.int16 || tag == Tag.int32 || tag == Tag.int64
      then pure ValueType.int
      else if tag == Tag.uint8 || tag == Tag.uint16 || tag == Tag.uint32 || tag == Tag.uint64
      then pure ValueType.uint
      else if tag == Tag.float32 || tag == Tag.float64
      then pure ValueType.float
      else if tag == Tag.str8 || tag == Tag.str16 || tag == Tag.str32
      then pure ValueType.string
      else if tag == Tag.bin8 || tag == Tag.bin16 || tag == Tag.bin32
      then pure ValueType.bytes
      else if tag == Tag.array16 || tag == Tag.array32
      then pure ValueType.array
      else if tag == Tag.map16 || tag == Tag.map32
      then pure ValueType.map
      else if tag == Tag.fixext1
          || tag == Tag.fixext2
          || tag == Tag.fixext4
          || tag == Tag.fixext8
          || tag == Tag.fixext16
      then type_of_fixext
      else if tag == Tag.ext8
      then type_of_ext 3
      else if tag == Tag.ext16
      then type_of_ext 4
      else if tag == Tag.ext32
      then type_of_ext 6
      else fail (unknown_tag tag)

  unfoldable pub parse_type : M (Parser R) ValueType
  parse_type = do b ← peek 1; type_of_tag (byte_at b 0)

  unfoldable pub parse_nil : M (Parser R) (Unit {0})
  parse_nil = skip 1

  unfoldable pub parse_bool : M (Parser R) Bool
  parse_bool = do b ← next_byte; pure (b == Tag.true)

  -- An integer of `n` bytes.
  abbrev pub fixed_int : ℕ → M (Parser R) ℤ
  fixed_int n = do b ← peek n; skip n; pure (int_value n b)

  unfoldable pub parse_int : M (Parser R) ℤ
  parse_int = do
    tag ← next_byte
    if is_positive_fixint tag
        then pure (of_word 8 tag)
        else if is_negative_fixint tag
        then pure (of_word 8 tag)
        else fixed_int (int_width tag)

  abbrev pub fixed_uint : ℕ → M (Parser R) ℕ
  fixed_uint n = do b ← peek n; skip n; pure (uint_value n b)

  unfoldable pub parse_uint : M (Parser R) ℕ
  parse_uint = do tag ← next_byte; fixed_uint (uint_width tag)

  unfoldable pub parse_float : ⦃fl : Floats⦄ → M (Parser R) ℕ
  parse_float ⦃fl⦄ = do
    tag ← next_byte
    b ← peek (if tag == Tag.float32 then 4 else 8)
    skip (if tag == Tag.float32 then 4 else 8)
    pure (if tag == Tag.float32 then fl.widen (get_uint32 b) else get_uint64 b)

  -- What ReadFull leaves behind `m` bytes of the string buffer `s`. What a failed call stored there
  -- is left out: a later call overwrites it.
  abbrev pub large_end : ℕ → Slice → List ℕ → Outcome (List ℕ) × R → Outcome (List ℕ) × Parser R
  large_end m s b (ok bs, r) = (
    ok (contents (copy_at m bs s)),
    record { buf = record { r = r; i = 0; j = 0; b = b }; s = copy_at m bs s },
  )
  large_end m s b (err e, r) =
      (err e, record { buf = record { r = r; i = 0; j = 0; b = b }; s = s })
  large_end m s b (panic, r) =
      (panic, record { buf = record { r = r; i = 0; j = 0; b = b }; s = s })
  large_end m s b (stuck, r) =
      (stuck, record { buf = record { r = r; i = 0; j = 0; b = b }; s = s })

  -- The end of `read`, for more bytes than the read buffer holds: the bytes at hand are moved to the
  -- string buffer, and ReadFull fills the rest of it.
  unfoldable pub read_large : ℕ → M (Parser R) (List ℕ)
  unfolding make_room
  read_large n p =
      let m = p.buf.j - p.buf.i in
      let s = copy_at 0 (slice p.buf.i p.buf.j p.buf.b) (make_room n p.s) in
      large_end m s p.buf.b (read_full (n - m) p.buf.r)

  -- The array of the parser holds `buffer_size` bytes.
  unfoldable pub read : ℕ → M (Parser R) (List ℕ)
  read n p =
      if leb (p.buf.i + n) p.buf.j
      then (
        ok (slice p.buf.i (p.buf.i + n) p.buf.b),
        record p { buf = record { r = p.buf.r; i = p.buf.i + n; j = p.buf.j; b = p.buf.b } },
      )
      else if leb n buffer_size
      then after (peek n p) (λ b. skip n >> pure b)
      else read_large n p

  -- A length of `n` bytes, and as many bytes.
  abbrev pub sized : ℕ → M (Parser R) (List ℕ)
  sized n = do b ← peek n; skip n; read (length_value n b)

  unfoldable pub parse_string : M (Parser R) (List ℕ)
  parse_string = do
    tag ← next_byte
    if is_fixstr tag then read (low_bits tag Tag.fixstr_mask) else sized (str_width tag)

  unfoldable pub parse_bytes : M (Parser R) (List ℕ)
  parse_bytes = do tag ← next_byte; sized (bin_width tag)

  -- 32-bit unsigned timestamp; the byte skipped is the type of the extension.
  abbrev pub time_fixext4 : M (Parser R) Time
  time_fixext4 = do skip 1; b ← peek 4; skip 4; pure (unix (pos (get_uint32 b)) 0)

  -- 30-bit unsigned nanoseconds and 34-bit unsigned timestamp.
  abbrev pub time_fixext8 : M (Parser R) Time
  time_fixext8 = do
    skip 1
    b ← peek 8
    skip 8
    pure (unix (pos (bit_and (get_uint64 b) 0x3FFFFFFFF)) (get_uint64 b / 2 ^ 34))

  -- Behind the checked length: the type of the extension is skipped too.
  abbrev pub time_body : M (Parser R) Time
  time_body = do
    skip 2
    c ← peek 12
    skip 12
    pure (unix (of_word 64 (get_uint64 (slice 4 12 c))) (get_uint32 c))

  -- 32-bit unsigned nanoseconds and 64-bit signed timestamp, 4 bytes later.
  abbrev pub time_ext8 : M (Parser R) Time
  time_ext8 = do
    b ← peek 1
    if byte_at b 0 == 12 then time_body else fail (invalid_timestamp_length (byte_at b 0))

  unfoldable pub parse_time : M (Parser R) Time
  parse_time = do
    tag ← next_byte
    if tag == Tag.fixext4
        then time_fixext4
        else if tag == Tag.fixext8
        then time_fixext8
        else if tag == Tag.ext8
        then time_ext8
        else fail (invalid_extension_tag tag)

  -- MessagePack has no durations and no errors.
  unfoldable pub parse_duration : M (Parser R) ℤ
  parse_duration = crash

  unfoldable pub parse_error : M (Parser R) (List ℕ)
  parse_error = crash

  -- The number of elements behind an array's or a map's tag, in `n` bytes.
  abbrev pub counted : ℕ → M (Parser R) ℤ
  counted n = do
    b ← peek n
    skip (length b)
    pure (pos (if length b == 2 then get_uint16 b else get_uint32 b))

  unfoldable pub parse_array_begin : M (Parser R) ℤ
  parse_array_begin = do
    tag ← next_byte
    if is_fixarray tag
        then pure (of_word 8 (low_bits tag Tag.fixarray_mask))
        else counted (if tag == Tag.array16 then 2 else 4)

  unfoldable pub parse_array_end : ℤ → M (Parser R) (Unit {0})
  parse_array_end n = pure tt

  unfoldable pub parse_array_next : ℤ → M (Parser R) (Unit {0})
  parse_array_next n = pure tt

  unfoldable pub parse_map_begin : M (Parser R) ℤ
  parse_map_begin = do
    tag ← next_byte
    if is_fixmap tag
        then pure (of_word 8 (low_bits tag Tag.fixmap_mask))
        else counted (if tag == Tag.map16 then 2 else 4)

  unfoldable pub parse_map_end : ℤ → M (Parser R) (Unit {0})
  parse_map_end n = pure tt

  unfoldable pub parse_map_value : ℤ → M (Parser R) (Unit {0})
  parse_map_value n = pure tt

  unfoldable pub parse_map_next : ℤ → M (Parser R) (Unit {0})
  parse_map_next n = pure tt
