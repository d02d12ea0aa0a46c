-- ===== src/Cbor/State.antt =====
-- The state of the parser of cbor/parse.go, and its methods that move bytes. Its fields `r`, `i`,
-- `j` and `b` are the buffer `buf`.
use objconv.Prelude.{ℕ, ◌+◌, ◌-◌, ◌==◌, List, [], ltb, if◌then◌else◌}
use objconv.Prelude.Int.{ℤ}
use objconv.Go.Outcome.{Outcome, ok, err, panic, stuck, M}
use objconv.Go.Slice.{Slice, slice, capacity, contents, make, reslice, copy_at}
use objconv.Go.Io.{Reader, read_full}
use objconv.Types.{ValueType}
use objconv.Buffer
use objconv.Buffer.{Buffer, buffer_size, new_buffer}
use objconv.Cbor.Major.{align, no_tag}

-- `s` is the string buffer; `tag` and `typ` are the last tag loaded and its type; the last length
-- pushed stands first on `stack`, and a negative one is unknown.
pub record Parser (R : Type 0) : Type 0 where
  pub buf : Buffer buffer_size R
  pub s : Slice
  pub tag : ℕ
  pub typ : ValueType
  pub stack : List ℤ

abbrev pub new_parser : {R : Type 0} → R → Parser R
new_parser r = record {
  buf = new_buffer r;
  s = make 0 0;
  tag = no_tag;
  typ = ValueType.unknown;
  stack = [];
}

pub reset : {R : Type 0} → R → Parser R → Parser R
reset r p = record p { buf = record { r = r; i = 0; j = 0; b = p.buf.b }; tag = no_tag; stack = [] }

-- p.b[p.i:p.j], the bytes behind the reader that Buffered returns.
pub buffered : {R : Type 0} → Parser R → List ℕ
buffered p = slice p.buf.i p.buf.j p.buf.b

-- A call on the read buffer.
abbrev pub on_buffer : {R A : Type 0} → M (Buffer buffer_size R) A → M (Parser R) A
on_buffer m p = let (o, buf) = m p.buf in (o, record p { buf = buf })

-- p.i += n
abbrev pub skip : {R : Type 0} → ℕ → M (Parser R) (Unit {0})
skip n = on_buffer (Buffer.skip n)

-- p.tag = t
abbrev pub set_tag : {R : Type 0} → ℕ → M (Parser R) (Unit {0})
set_tag t p = (ok tt, record p { tag = t })

-- The string buffer for `j` bytes: a new one, of zeros, where its capacity is too small.
unfoldable pub make_room : ℕ → Slice → Slice
unfolding align
make_room j s = if ltb (capacity s) j then make j (align j 1024) else reslice j s

-- The buffer without the first `n1` of the bytes that it holds.
unfoldable pub take_buffered : {R : Type 0} → ℕ → Buffer buffer_size R → Buffer buffer_size R
take_buffered n1 p =
    if p.i + n1 == p.j then record p { i = 0; j = 0 } else record p { i = p.i + n1 }

-- The bytes that `load n` copies out of the read buffer.
abbrev pub at_hand : {R : Type 0} → ℕ → Buffer buffer_size R → ℕ
at_hand n p = if ltb (p.j - p.i) n then p.j - p.i else n

module _ {R : Type 0} ⦃io : Reader R⦄ where
  unfoldable pub peek : ℕ → M (Parser R) (List ℕ)
  peek n = on_buffer (Buffer.peek n)

  -- What ReadFull leaves from `i` on in the string buffer `s`; what a failed call stored there is
  -- left out.
  abbrev pub load_end : ℕ → Slice → Parser R → Outcome (List ℕ) × R → Outcome (List ℕ) × Parser R
  load_end i s p (ok bs, r) =
      let b = p.buf in
      let s' = copy_at i bs s in
      (ok (contents s'), record p { buf = record { r = r; i = b.i; j = b.j; b = b.b }; s = s' })
  load_end i s p (err e, r) =
      let b = p.buf in
      (err e, record p { buf = record { r = r; i = b.i; j = b.j; b = b.b }; s = s })
  load_end i s p (panic, r) = (panic, record p { s = s })
  load_end i s p (stuck, r) = (stuck, record p { s = s })

  -- `load n`, where `n1` of the bytes come out of the read buffer.
  unfoldable pub load_from : ℕ → ℕ → M (Parser R) (List ℕ)
  unfolding make_room take_buffered
  load_from n1 n p =
      let i = p.s.len in
      let j = i + n in
      let s = copy_at i (slice p.buf.i (p.buf.i + n1) p.buf.b) (make_room j p.s) in
      let q = record p { buf = if p.buf.i == p.buf.j then p.buf else take_buffered n1 p.buf } in
      if i + n1 == j
      then (ok (contents s), record q { s = s })
      else load_end (i + n1) s q (read_full (j - (i + n1)) p.buf.r)

  -- `load n` adds `n` bytes to the string buffer, and returns all of it.
  unfoldable pub load : ℕ → M (Parser R) (List ℕ)
  unfolding load_from
  load n p = load_from (at_hand n p.buf) n p
