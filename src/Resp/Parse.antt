-- ===== src/Resp/Parse.antt =====
-- The parser of resp/parse.go. Slices that the source returns share its buffers until the next call;
-- here they are values.
pub mod Laws
pub mod Lines
pub mod Flaws
use objconv.Prelude.{
  ℕ, zero, suc, ◌+◌, ◌-◌, ◌==◌, List, [], ◌∷◌, ◌++◌, length, take, drop, leb, ltb, Bool, ◌||◌,
  Option, none, some, if◌then◌else◌,
}
use objconv.Prelude.Int.{ℤ, pos, negsuc}
use objconv.Go.Outcome.{
  Error, Outcome, ok, err, panic, stuck, no_progress, empty_line, unexpected_line, missing_crlf, M,
  after, ◌>>=◌, ◌>>◌, pure, fail, crash,
}
use objconv.Go.Slice.{slice}
use objconv.Go.Io.{Reader, ReadResult}
use objconv.Go.Strconv.{equal}
use objconv.Types.{ValueType}
use objconv.Objutil.Int.{parse_int}
use objconv.Objutil.Limits.{int_max}
use objconv.Resp.Line.{crlf_bytes, index_crlf}

-- The size of the array `b` that bytes are read into.
abbrev pub read_size : ℕ
read_size = 128

-- `n` is the offset of the first unread byte of `s`, and `i` is 0 or the offset behind the line that
-- was found there.
pub record Parser (R : Type 0) : Type 0 where
  pub r : R
  pub i : ℕ
  pub n : ℕ
  pub s : List ℕ

abbrev pub new_parser : {R : Type 0} → R → Parser R
new_parser r = record { r = r; i = 0; n = 0; s = [] }

-- The offset `i` stays as it was.
unfoldable pub reset : {R : Type 0} → R → Parser R → Parser R
reset r p = record { r = r; i = p.i; n = 0; s = [] }

-- The bytes that the reader of Buffered returns.
pub buffered : {R : Type 0} → Parser R → List ℕ
buffered p = drop p.n p.s

abbrev null : List ℕ
null = b'-' ∷ b'1' ∷ []

-- p.n, p.i = p.i, 0
unfoldable pub skip_line : {R : Type 0} → M (Parser R) (Unit {0})
skip_line p = (ok tt, record p { n = p.i; i = 0 })

-- The methods for types that RESP does not have.
unfoldable pub parse_absent : {R A : Type 0} → M (Parser R) A
parse_absent = crash

abbrev pub or_nil : List ℕ → ValueType → ValueType
or_nil line t = if equal line null then ValueType.nil else t

unfoldable pub type_of_line : List ℕ → Outcome ValueType
unfolding equal
type_of_line [] = err empty_line
type_of_line (c ∷ line) =
    if c == b'+'
    then ok ValueType.string
    else if c == b'-'
    then ok ValueType.error
    else if c == b':'
    then ok ValueType.int
    else if c == b'$'
    then ok (or_nil line ValueType.bytes)
    else if c == b'*'
    then ok (or_nil line ValueType.array)
    else err (unexpected_line (c ∷ line))

-- What follows the mark `c` of a line.
unfoldable pub line_of : ℕ → List ℕ → Outcome (List ℕ)
line_of c [] = err empty_line
line_of c (d ∷ line) = if d == c then ok line else err (unexpected_line (d ∷ line))

-- An error that ParseInt returns is replaced.
abbrev pub int_or : {A : Type 0} → List ℕ → (ℤ → Outcome A) → Outcome ℤ → Outcome A
int_or line f (ok v) = f v
int_or line f (err e) = err (unexpected_line line)
int_or line f panic = panic
int_or line f stuck = stuck

abbrev pub size_of : List ℕ → ℤ → Outcome ℕ
size_of line (negsuc k) = err (unexpected_line line)
size_of line (pos n) = if ltb int_max n then err (unexpected_line line) else ok n

abbrev pub into : {A B : Type 0} → (A → Outcome B) → Outcome A → Outcome B
into f (ok a) = f a
into f (err e) = err e
into f panic = panic
into f stuck = stuck

-- An integer, and a size, behind the mark `c` of a line.
unfoldable pub int_of_line : ℕ → List ℕ → Outcome ℤ
unfolding line_of
int_of_line c line = into (λ digits. int_or line ok (parse_int digits)) (line_of c line)

unfoldable pub size_of_line : ℕ → List ℕ → Outcome ℕ
unfolding line_of
size_of_line c line =
    into (λ digits. int_or line (size_of line) (parse_int digits)) (line_of c line)

unfoldable pub nil_of_line : List ℕ → Outcome (Unit {0})
unfolding equal
nil_of_line [] = err empty_line
nil_of_line (c ∷ line) =
    if (c == b'$') || (c == b'*')
    then (if equal line null then ok tt else err (unexpected_line (c ∷ line)))
    else err (unexpected_line (c ∷ line))

module _ {R : Type 0} ⦃io : Reader R⦄ where
  -- The unread bytes are moved to the front of `s`.
  abbrev pub pack : Parser R → Parser R
  pack p = if p.n == 0 then p else record p { s = drop p.n p.s; n = 0 }

  -- The end of a round of peekLine, behind its call of Read.
  abbrev pub append_line :
      M (Parser R) (List ℕ) → Parser R → ReadResult R → Outcome (List ℕ) × Parser R
  append_line rest p res =
      let q = record p { r = res.next; s = p.s ++ res.bytes } in
      if ltb 0 (length res.bytes)
      then rest q
      else elim res.error [ some e ↦ (err e, q) | none ↦ rest q ]

  abbrev pub line_round : M (Parser R) (List ℕ) → Parser R → Option ℕ → Outcome (List ℕ) × Parser R
  line_round rest p (some i) = (ok (slice p.n (p.n + i) p.s), record p { i = p.n + i + 2 })
  line_round rest p none = append_line rest (pack p) (io.read (pack p).r read_size)

  -- The loop of peekLine. A round that reads no byte and gets no error is repeated.
  unfoldable pub line_loop : ℕ → M (Parser R) (List ℕ)
  unfolding index_crlf
  line_loop zero p = (stuck, p)
  line_loop (suc fuel) p =
      let rest = line_loop fuel in line_round rest p (index_crlf (drop p.n p.s))

  -- A reader makes progress, so the rounds are no more than its bytes, and two. To slice a line that
  -- is no longer in `s` panics.
  unfoldable pub peek_line : M (Parser R) (List ℕ)
  unfolding line_loop
  peek_line p =
      if p.i == 0
      then line_loop (length (io.unread p.r) + 2) p
      else if ltb (length p.s) (p.i - 2)
      then (panic, p)
      else (ok (slice p.n (p.i - 2) p.s), p)

  -- The end of a round of peekChunk, behind its call of Read.
  abbrev pub append_chunk :
      M (Parser R) (List ℕ) → Parser R → ReadResult R → Outcome (List ℕ) × Parser R
  append_chunk rest p res =
      let q = record p { r = res.next; s = p.s ++ res.bytes } in
      if ltb 0 (length res.bytes)
      then rest q
      else elim res.error [ some e ↦ (err e, q) | none ↦ (err no_progress, q) ]

  -- The loop of peekChunk, for `size` bytes with their end.
  unfoldable pub chunk_loop : ℕ → ℕ → M (Parser R) (List ℕ)
  chunk_loop zero size p = (stuck, p)
  chunk_loop (suc fuel) size p =
      let rest = chunk_loop fuel size in
      if leb (size + p.n) (length p.s)
      then (ok (slice p.n (p.n + size) p.s), p)
      else append_chunk rest p (io.read p.r read_size)

  abbrev pub without_crlf : ℕ → List ℕ → M (Parser R) (List ℕ)
  without_crlf size chunk p =
      if equal (drop size chunk) crlf_bytes
      then (ok (take size chunk), p)
      else (err (missing_crlf chunk), p)

  -- HasSuffix is asked of `size + 2` bytes. Where the end of these is no int it wraps below zero, and
  -- to slice with it panics.
  unfoldable pub peek_chunk : ℕ → M (Parser R) (List ℕ)
  unfolding chunk_loop equal
  peek_chunk size p =
      if ltb int_max (size + 2 + p.n)
      then (panic, p)
      else after (chunk_loop (length (io.unread p.r) + 2) (size + 2) p)
          (λ chunk. without_crlf size chunk)

  -- The line is peeked, and what it is parsed as returned.
  abbrev pub returning : {A : Type 0} → Outcome A → M (Parser R) A
  returning o p = (o, p)

  -- A line that is parsed is skipped; an error leaves it.
  abbrev pub parse_line : {A : Type 0} → (List ℕ → Outcome A) → M (Parser R) A
  parse_line f = peek_line >>= λ line. returning (f line) >>= λ a. skip_line >> pure a

  unfoldable pub parse_type : M (Parser R) ValueType
  unfolding peek_line type_of_line
  parse_type = peek_line >>= λ line. returning (type_of_line line)

  unfoldable pub parse_nil : M (Parser R) (Unit {0})
  unfolding peek_line nil_of_line skip_line
  parse_nil = parse_line nil_of_line

  unfoldable pub parse_int_value : M (Parser R) ℤ
  unfolding peek_line int_of_line skip_line
  parse_int_value = parse_line (int_of_line b':')

  unfoldable pub parse_string : M (Parser R) (List ℕ)
  unfolding peek_line line_of skip_line
  parse_string = parse_line (line_of b'+')

  -- An error is its text.
  unfoldable pub parse_error : M (Parser R) (List ℕ)
  unfolding peek_line line_of skip_line
  parse_error = parse_line (line_of b'-')

  -- p.n += len(v) + 2
  abbrev pub skip_chunk : ℕ → M (Parser R) (Unit {0})
  skip_chunk k p = (ok tt, record p { n = p.n + k + 2 })

  unfoldable pub parse_bytes : M (Parser R) (List ℕ)
  unfolding peek_line size_of_line skip_line peek_chunk
  parse_bytes = parse_line (size_of_line b'$') >>= λ size.
      peek_chunk size >>= λ v. skip_chunk (length v) >> pure v

  unfoldable pub parse_array_begin : M (Parser R) ℤ
  unfolding peek_line size_of_line skip_line
  parse_array_begin = parse_line (size_of_line b'*') >>= λ size. pure (pos size)

  unfoldable pub parse_array_end : ℕ → M (Parser R) (Unit {0})
  parse_array_end n = pure tt

  unfoldable pub parse_array_next : ℕ → M (Parser R) (Unit {0})
  parse_array_next n = pure tt
