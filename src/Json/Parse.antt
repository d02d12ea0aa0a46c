-- ===== src/Json/Parse.antt =====
-- The parser of json/parse.go. Its fields `r`, `i`, `j` and `b` are the buffer `buf`. Slices that
-- the source returns share its buffers until the next call; here they are values. A string that is not
-- read to its end is built over the bytes of `s`; here `s` stays as it was.
pub mod Window
pub mod Escapes
pub mod Laws
pub mod Strings
use objconv.Prelude.{
  ℕ, zero, suc, ◌+◌, ◌-◌, ◌==◌, List, [], ◌∷◌, ◌++◌, length, take, leb, ltb, Bool, true, false, not,
  ◌&&◌, ◌||◌, Option, none, some, if◌then◌else◌,
}
use objconv.Prelude.Int.{ℤ, negsuc}
use objconv.Prelude.Bytes.{byte_at}
use objconv.Go.Outcome.{
  Error, Outcome, ok, err, panic, stuck, end, expected_token, expected_boolean, expected_byte,
  expected_bytes, expected_item_end, expected_pair_end, invalid_code_point, overflow_code_point,
  invalid_float, invalid_base64, M, after, ◌>>=◌, ◌>>◌, pure, fail, crash,
}
use objconv.Go.Slice.{slice}
use objconv.Go.Io.{Reader}
use objconv.Go.Strconv.{FloatFormat, index_byte, equal}
use objconv.Go.Unicode.{is_surrogate, decode_rune, encode_rune}
use objconv.Go.Base64.{Base64}
use objconv.Types.{ValueType}
use objconv.Buffer
use objconv.Buffer.{Buffer, new_buffer}
use objconv.Objutil.Int.{parse_int, parse_uint_hex, is_digit}
use objconv.Objutil.Limits.{uint16_max}
use objconv.Json.Emit.{null_bytes, true_bytes, false_bytes, quote, backslash}

abbrev pub buffer_size : ℕ
buffer_size = 128

-- `s` is the string buffer: a number that ParseType found, until a string is built in its place.
pub record Parser (R : Type 0) : Type 0 where
  pub buf : Buffer buffer_size R
  pub s : List ℕ

abbrev pub new_parser : {R : Type 0} → R → Parser R
new_parser r = record { buf = new_buffer r; s = [] }

pub reset : {R : Type 0} → R → Parser R → Parser R
reset r p = record p { buf = record { r = r; i = 0; j = 0; b = p.buf.b } }

-- The bytes that the reader of Buffered returns.
pub buffered : {R : Type 0} → Parser R → List ℕ
buffered p = slice p.buf.i p.buf.j p.buf.b

-- A call on the read buffer.
abbrev pub on_buffer : {R A : Type 0} → M (Buffer buffer_size R) A → M (Parser R) A
on_buffer m p = let (o, buf) = m p.buf in (o, record p { buf = buf })

-- p.i += n
abbrev pub skip : {R : Type 0} → ℕ → M (Parser R) (Unit {0})
skip n = on_buffer (Buffer.skip n)

abbrev pub is_number_byte : ℕ → Bool
is_number_byte b =
    leb b'0' b && leb b b'9'
    || (b == b'.')
    || (b == b'+')
    || (b == b'-')
    || (b == b'e')
    || (b == b'E')

abbrev pub is_space : ℕ → Bool
is_space b = (b == b' ') || (b == 10) || (b == 9) || (b == 13) || (b == 8) || (b == 12)

-- Does the number have a fraction or an exponent?
unfoldable pub is_float : List ℕ → Bool
is_float [] = false
is_float (c ∷ chunk) =
    let rest = is_float chunk in if (c == b'.') || (c == b'e') || (c == b'E') then true else rest

-- How many bytes of `bs` are spaces, up to the first that is none.
unfoldable pub leading_spaces : List ℕ → ℕ
leading_spaces [] = 0
leading_spaces (b ∷ bs) = let rest = leading_spaces bs in if is_space b then suc rest else 0

-- The number of bytes in front of the first that is not part of a number; `none` where there is
-- no such byte.
unfoldable pub number_end : List ℕ → Option ℕ
number_end [] = none
number_end (c ∷ bs) =
    let rest = number_end bs in
    if is_number_byte c then elim rest [ none ↦ none | some i ↦ some (suc i) ] else some 0

-- The switch of ParseString on the byte behind a backslash, but for `u`.
unfoldable pub unescape : ℕ → List ℕ
unescape b =
    if (b == quote) || (b == backslash) || (b == b'/')
    then b ∷ []
    else if b == b'n'
    then 10 ∷ []
    else if b == b'r'
    then 13 ∷ []
    else if b == b't'
    then 9 ∷ []
    else if b == b'b'
    then 8 ∷ []
    else if b == b'f'
    then 12 ∷ []
    else backslash ∷ b ∷ []

abbrev pub parsed_float : Option ℕ → Outcome ℕ
parsed_float none = err invalid_float
parsed_float (some v) = ok v

-- On the bytes behind an opening quote: where the closing one is, if there is no backslash at all.
abbrev pub unless_found : Option ℕ → Option ℕ → Option ℕ
unless_found none off1 = off1
unless_found (some off2) off1 = none

abbrev pub quoted : List ℕ → Option ℕ
quoted chunk = unless_found (index_byte backslash chunk) (index_byte quote chunk)

-- ParseUint, ParseBytes, ParseTime, ParseDuration and ParseError
unfoldable pub parse_absent : {R A : Type 0} → M (Parser R) A
parse_absent = crash

module _ {R : Type 0} ⦃io : Reader R⦄ where
  pub fill : M (Parser R) (Unit {0})
  fill = on_buffer Buffer.fill

  pub peek : ℕ → M (Parser R) (List ℕ)
  peek n = on_buffer (Buffer.peek n)

  -- The loop of peekByteAt is that of peek for one byte more.
  unfoldable pub peek_byte_at : ℕ → M (Parser R) ℕ
  unfolding peek
  peek_byte_at i = peek (i + 1) >>= λ b. pure (byte_at b i)

  -- How many bytes of the stream are left; no more rounds than this are made over it.
  abbrev pub remaining : Parser R → ℕ
  remaining p = p.buf.j - p.buf.i + length (io.unread p.buf.r)

  -- A round of skipSpaces behind its fill: all spaces of the array are skipped, and if nothing
  -- else is in it, it is cleared.
  abbrev pub skip_round : M (Parser R) (Unit {0}) → M (Parser R) (Unit {0})
  skip_round rest p =
      let window = slice p.buf.i p.buf.j p.buf.b in
      let n = leading_spaces window in
      if n == length window
      then rest (record p { buf = record { r = p.buf.r; i = 0; j = 0; b = p.buf.b } })
      else skip n p

  abbrev pub fill_if_empty : M (Parser R) (Unit {0})
  fill_if_empty p = if p.buf.i == p.buf.j then fill p else (ok tt, p)

  unfoldable pub skip_spaces_loop : ℕ → M (Parser R) (Unit {0})
  unfolding fill
  skip_spaces_loop zero p = (stuck, p)
  skip_spaces_loop (suc fuel) p =
      let rest = skip_spaces_loop fuel in after (fill_if_empty p) (λ _ q. skip_round rest q)

  unfoldable pub skip_spaces : M (Parser R) (Unit {0})
  unfolding skip_spaces_loop
  skip_spaces p = skip_spaces_loop (remaining p + 1) p

  unfoldable pub read_byte : ℕ → M (Parser R) (Unit {0})
  unfolding peek_byte_at
  read_byte b = peek_byte_at 0 >>= λ c. if b == c then skip 1 else fail (expected_byte b c)

  unfoldable pub read_token : List ℕ → M (Parser R) (Unit {0})
  unfolding peek
  read_token token = peek (length token) >>= λ chunk.
      if equal chunk token then skip (length token) else fail (expected_bytes token chunk)

  -- The slow path of peekNumber, at index `i`: it ends at a byte of no number, and at an error.
  -- The array has no room for more bytes than its size.
  unfoldable pub number_loop : ℕ → ℕ → M (Parser R) ℕ
  unfolding peek_byte_at
  number_loop zero i p = (stuck, p)
  number_loop (suc fuel) i p =
      let rest = number_loop fuel (i + 1) in
      let (c, q) = peek_byte_at i p in
      elim c [
        | ok b ↦ if is_number_byte b then rest q else (ok i, q)
        | err e ↦ (ok i, q)
        | panic ↦ (panic, q)
        | stuck ↦ (stuck, q)
      ]

  -- The error of the slow path is not looked at by the caller.
  unfoldable pub peek_number : M (Parser R) (List ℕ)
  unfolding number_end number_loop
  peek_number p = elim (number_end (slice p.buf.i p.buf.j p.buf.b)) [
    | some n ↦ (ok (slice p.buf.i (p.buf.i + n) p.buf.b), p)
    | none ↦
        after (number_loop (buffer_size + 2) 0 p)
          (λ n q. (ok (slice q.buf.i (q.buf.i + n) q.buf.b), q))
  ]

  -- A number is kept for the call of ParseInt or ParseFloat that follows.
  unfoldable pub type_of_number : M (Parser R) ValueType
  unfolding peek_number is_float
  type_of_number = peek_number >>= λ chunk p.
      (ok (if is_float chunk then ValueType.float else ValueType.int), record p { s = chunk })

  abbrev pub type_of_byte : ℕ → M (Parser R) ValueType
  type_of_byte b p =
      if b == quote
      then (ok ValueType.string, p)
      else if b == b'{'
      then (ok ValueType.map, p)
      else if b == b'['
      then (ok ValueType.array, p)
      else if b == b'n'
      then (ok ValueType.nil, p)
      else if (b == b't') || (b == b'f')
      then (ok ValueType.bool, p)
      else if (b == b'-') || is_digit b
      then type_of_number p
      else (err (expected_token b), p)

  unfoldable pub parse_type : M (Parser R) ValueType
  unfolding skip_spaces peek_byte_at type_of_number
  parse_type = skip_spaces >> peek_byte_at 0 >>= type_of_byte

  unfoldable pub parse_nil : M (Parser R) (Unit {0})
  unfolding read_token
  parse_nil = read_token null_bytes

  abbrev pub bool_of_byte : ℕ → M (Parser R) Bool
  bool_of_byte b p =
      if b == b'f'
      then after (read_token false_bytes p) (λ _. pure false)
      else if b == b't'
      then after (read_token true_bytes p) (λ _. pure true)
      else (err (expected_boolean b), p)

  unfoldable pub parse_bool : M (Parser R) Bool
  unfolding read_token peek_byte_at
  parse_bool = peek_byte_at 0 >>= bool_of_byte

  abbrev pub took : {A : Type 0} → Outcome A → M (Parser R) A
  took (ok v) p = after (skip (length p.s) p) (λ _. pure v)
  took (err e) p = (err e, p)
  took panic p = (panic, p)
  took stuck p = (stuck, p)

  unfoldable pub parse_int_value : M (Parser R) ℤ
  parse_int_value p = took (parse_int p.s) p

  unfoldable pub parse_float : ⦃fl : FloatFormat⦄ → M (Parser R) ℕ
  parse_float ⦃fl⦄ p = took (parsed_float (fl.parse p.s)) p

  -- Of `chunk` as readUnicode sees it. No four digits are beyond the limit.
  abbrev pub code_point : List ℕ → Outcome ℕ → M (Parser R) ℕ
  code_point chunk (ok code) p =
      if ltb uint16_max code
      then (err (overflow_code_point code), p)
      else after (skip 4 p) (λ _. pure code)
  code_point chunk (err e) p = (err (invalid_code_point chunk), p)
  code_point chunk panic p = (panic, p)
  code_point chunk stuck p = (stuck, p)

  unfoldable pub read_unicode : M (Parser R) ℕ
  unfolding peek
  read_unicode = peek 4 >>= λ chunk. code_point chunk (parse_uint_hex chunk)

  -- The bytes that the code points behind \u stand for.
  unfoldable pub unicode_bytes : M (Parser R) (List ℕ)
  unfolding read_unicode
  unicode_bytes = read_unicode >>= λ r1.
      if is_surrogate r1
      then (read_unicode >>= λ r2. pure (encode_rune (decode_rune r1 r2)))
      else pure (encode_rune r1)

  -- What a byte adds to the string, and whether the next one is escaped.
  abbrev pub string_byte : Bool → ℕ → M (Parser R) (List ℕ × Bool)
  string_byte escaped b =
      if escaped
      then (if b == b'u'
          then (unicode_bytes >>= λ c. pure (c, false))
          else pure (unescape b, false))
      else if b == backslash
      then pure ([], true)
      else pure (b ∷ [], false)

  -- The loop of ParseString behind the opening quote; each round takes a byte.
  unfoldable pub string_loop : ℕ → Bool → List ℕ → M (Parser R) (List ℕ)
  unfolding peek_byte_at unicode_bytes unescape
  string_loop zero escaped v p = (stuck, p)
  string_loop (suc fuel) escaped v p =
      let rest = string_loop fuel in
      after (peek_byte_at 0 p) λ b q. after (skip 1 q) λ _ r.
        if not escaped && (b == quote)
        then (ok v, record r { s = [] })
        else after (string_byte escaped b r) (λ (c, e). rest e (v ++ c))

  unfoldable pub slow_string : M (Parser R) (List ℕ)
  unfolding read_byte string_loop
  slow_string = read_byte quote >> (λ p. string_loop (remaining p + 1) false [] p)

  abbrev pub fast_string : M (Parser R) (List ℕ)
  fast_string p =
      if not (p.buf.i == p.buf.j) && (Buffer.current p.buf == quote)
      then elim (quoted (slice (p.buf.i + 1) p.buf.j p.buf.b)) [
        | none ↦ slow_string p
        | some off ↦
            after (skip (off + 2) p) (λ _. pure (slice (p.buf.i + 1) (p.buf.i + 1 + off) p.buf.b))
      ]
      else slow_string p

  unfoldable pub parse_string : M (Parser R) (List ℕ)
  unfolding slow_string fill
  parse_string = fill_if_empty >> fast_string

  -- The length is never known.
  unfoldable pub parse_array_begin : M (Parser R) ℤ
  unfolding read_byte
  parse_array_begin = read_byte b'[' >> pure (negsuc 0)

  unfoldable pub parse_array_end : ℕ → M (Parser R) (Unit {0})
  unfolding skip_spaces read_byte
  parse_array_end n = skip_spaces >> read_byte b']'

  abbrev pub array_separator : ℕ → ℕ → M (Parser R) (Unit {0})
  array_separator n b =
      if (b == b',') && not (n == 0)
      then skip 1
      else if b == b']'
      then fail end
      else if n == 0
      then pure tt
      else fail (expected_item_end b)

  unfoldable pub parse_array_next : ℕ → M (Parser R) (Unit {0})
  unfolding skip_spaces peek_byte_at
  parse_array_next n = skip_spaces >> peek_byte_at 0 >>= array_separator n

  unfoldable pub parse_map_begin : M (Parser R) ℤ
  unfolding read_byte
  parse_map_begin = read_byte b'{' >> pure (negsuc 0)

  unfoldable pub parse_map_end : ℕ → M (Parser R) (Unit {0})
  unfolding skip_spaces read_byte
  parse_map_end n = skip_spaces >> read_byte b'}'

  unfoldable pub parse_map_value : ℕ → M (Parser R) (Unit {0})
  unfolding skip_spaces read_byte
  parse_map_value n = skip_spaces >> read_byte b':'

  -- A comma is taken in front of the first pair too.
  abbrev pub map_separator : ℕ → ℕ → M (Parser R) (Unit {0})
  map_separator n b =
      if b == b','
      then skip 1
      else if b == b'}'
      then fail end
      else if n == 0
      then pure tt
      else fail (expected_pair_end b)

  unfoldable pub parse_map_next : ℕ → M (Parser R) (Unit {0})
  unfolding skip_spaces peek_byte_at
  parse_map_next n = skip_spaces >> peek_byte_at 0 >>= map_separator n

-- The base64 of a string that is wanted as bytes.
unfoldable pub decode_bytes : ⦃b64 : Base64⦄ → List ℕ → Outcome (List ℕ)
decode_bytes ⦃b64⦄ b = elim (b64.decode b) [ none ↦ err invalid_base64 | some v ↦ ok v ]
