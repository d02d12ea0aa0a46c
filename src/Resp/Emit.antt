-- ===== src/Resp/Emit.antt =====
-- The emitters of resp/emit.go. The scratch buffer `s` of the source holds no bytes between the
-- methods, and what it is put together to be is a list. Contexts come from a pool, which may hand
-- out one whose buffer is emptied and whose count is reset: a new one stands for both.
pub mod Client
use objconv.Prelude.{
  ℕ, zero, suc, ◌+◌, ◌-◌, ◌^◌, ◌%◌, ◌==◌, List, [], ◌∷◌, ◌++◌, length, take, leb, ltb, Bool, Option,
  none, some, if◌then◌else◌,
}
use objconv.Prelude.Int.{ℤ, pos, negsuc, to_word, add64}
use objconv.Go.Outcome.{
  Outcome, ok, err, panic, stuck, integer_overflow, M, after, ◌>>=◌, ◌>>◌, pure,
}
use objconv.Go.Io.{Writer}
use objconv.Go.Strconv.{append_int, append_uint, FloatFormat}
use objconv.Go.Time.{Time, TimeFormat}
use objconv.Objutil.Duration.{append_duration}
use objconv.Objutil.Limits.{int64_max}
use objconv.Resp.Line.{append_crlf, crlf_bytes, index_crlf}

-- The writers that `e.w` and a context's `w` can be: the one given to NewEmitter, or the buffer of
-- the context at a position of the stack.
pub data WriterRef : Type 0 where
  base : WriterRef
  buffer : ℕ → WriterRef

-- `b` caches the elements of an array of unknown length, `w` is the previous writer, and `n`
-- counts the elements.
pub record Context : Type 0 where
  pub b : List ℕ
  pub w : WriterRef
  pub n : ℕ

-- `out` is the writer given to NewEmitter. `none` on the stack is a nil context. The capacity of `s`
-- decides between one call of Write and three.
pub record Emitter (W : Type 0) : Type 0 where
  pub out : W
  pub w : WriterRef
  pub stack : List (Option Context)

abbrev pub new_emitter : {W : Type 0} → W → Emitter W
new_emitter out = record { out = out; w = base; stack = [] }

pub reset : {W : Type 0} → W → Emitter W → Emitter W
reset out e = record { out = out; w = base; stack = [] }

-- bytes.Buffer.Write on the context at a position.
unfoldable pub cache : ℕ → List ℕ → List (Option Context) → List (Option Context)
cache k bs [] = []
cache zero bs (none ∷ st) = none ∷ st
cache zero bs (some c ∷ st) = some (record c { b = c.b ++ bs }) ∷ st
cache (suc k) bs (c ∷ st) = c ∷ cache k bs st

-- c.n++ on the context at a position.
unfoldable pub count : ℕ → List (Option Context) → List (Option Context)
count k [] = []
count zero (none ∷ st) = none ∷ st
count zero (some c ∷ st) = some (record c { n = c.n + 1 }) ∷ st
count (suc k) (c ∷ st) = c ∷ count k st

-- The stack without its last context, and that context.
unfoldable pub pop : List (Option Context) → Option (List (Option Context) × Option Context)
pop [] = none
pop (c ∷ []) = some ([], c)
pop (c ∷ d ∷ st) = elim (pop (d ∷ st)) [ none ↦ none | some (rest, last) ↦ some (c ∷ rest, last) ]

abbrev pub null_bytes : List ℕ
null_bytes = b'$' ∷ b'-' ∷ b'1' ∷ crlf_bytes

abbrev pub true_bytes : List ℕ
true_bytes = b'+' ∷ b't' ∷ b'r' ∷ b'u' ∷ b'e' ∷ crlf_bytes

abbrev pub false_bytes : List ℕ
false_bytes = b'+' ∷ b'f' ∷ b'a' ∷ b'l' ∷ b's' ∷ b'e' ∷ crlf_bytes

abbrev pub int_bytes : ℤ → List ℕ
int_bytes v = append_crlf (b':' ∷ append_int v)

abbrev pub uint_bytes : ℕ → List ℕ
uint_bytes v = append_crlf (b':' ∷ append_uint v)

-- A bulk string.
abbrev pub bulk_bytes : List ℕ → List ℕ
bulk_bytes v = append_crlf (b'$' ∷ append_uint (length v)) ++ append_crlf v

abbrev pub simple_bytes : List ℕ → List ℕ
simple_bytes v = append_crlf (b'+' ∷ v)

unfoldable pub string_bytes : List ℕ → List ℕ
unfolding index_crlf
string_bytes v = elim (index_crlf v) [ none ↦ simple_bytes v | some i ↦ bulk_bytes v ]

-- Of the text of an error only the first line is kept.
unfoldable pub error_bytes : List ℕ → List ℕ
unfolding index_crlf
error_bytes x = elim (index_crlf x) [
  | none ↦ append_crlf (b'-' ∷ x)
  | some i ↦ append_crlf (b'-' ∷ take i x)
]

-- uint64(n) of a length.
abbrev pub array_bytes : ℤ → List ℕ
array_bytes n = append_crlf (b'*' ∷ append_uint (to_word 64 n))

-- The number of elements that EmitArrayEnd writes: the last one is followed by no EmitArrayNext.
abbrev pub elements : Context → ℕ
elements c = if length c.b == 0 then c.n else c.n + 1

module _ {W : Type 0} ⦃io : Writer W⦄ where
  -- ref.Write(bs)
  pub write_to : WriterRef → List ℕ → M (Emitter W) (Unit {0})
  write_to base bs e =
      let (error, out) = io.write e.out bs in
      elim error [
        | none ↦ (ok tt, record e { out = out })
        | some x ↦ (err x, record e { out = out })
      ]
  write_to (buffer k) bs e = (ok tt, record e { stack = cache k bs e.stack })

  -- e.w.Write(bs)
  pub write : List ℕ → M (Emitter W) (Unit {0})
  unfolding write_to
  write bs e = write_to e.w bs e

  unfoldable pub emit_nil : M (Emitter W) (Unit {0})
  emit_nil = write null_bytes

  unfoldable pub emit_bool : Bool → M (Emitter W) (Unit {0})
  emit_bool v = write (if v then true_bytes else false_bytes)

  -- The bit size is ignored.
  unfoldable pub emit_int : ℤ → M (Emitter W) (Unit {0})
  emit_int v = write (int_bytes v)

  unfoldable pub emit_uint : ℕ → M (Emitter W) (Unit {0})
  emit_uint v e = if ltb int64_max v then (err (integer_overflow v), e) else write (uint_bytes v) e

  unfoldable pub emit_float : ⦃fl : FloatFormat⦄ → ℕ → ℕ → M (Emitter W) (Unit {0})
  emit_float ⦃fl⦄ v bit_size = write (append_crlf (b'+' ∷ fl.format v bit_size))

  unfoldable pub emit_string : List ℕ → M (Emitter W) (Unit {0})
  unfolding string_bytes
  emit_string v = write (string_bytes v)

  -- `room` is the capacity of the scratch buffer: where the bytes do not fit they are written in
  -- three calls.
  unfoldable pub emit_bytes : ℕ → List ℕ → M (Emitter W) (Unit {0})
  emit_bytes room v =
      let header = append_crlf (b'$' ∷ append_uint (length v)) in
      if leb (length v + 2) (room - length header)
      then write (header ++ append_crlf v)
      else write header >> write v >> write crlf_bytes

  unfoldable pub emit_time : ⦃tf : TimeFormat⦄ → Time → M (Emitter W) (Unit {0})
  emit_time ⦃tf⦄ v = write (append_crlf (b'+' ∷ tf.format v))

  unfoldable pub emit_duration : ℤ → M (Emitter W) (Unit {0})
  emit_duration v = write (append_crlf (append_duration (b'+' ∷ []) v))

  unfoldable pub emit_error : List ℕ → M (Emitter W) (Unit {0})
  unfolding error_bytes
  emit_error x = write (error_bytes x)

  -- emitArray
  unfoldable pub emit_array : ℤ → M (Emitter W) (Unit {0})
  emit_array n = write (array_bytes n)

  abbrev push : Option Context → Outcome (Unit {0}) × Emitter W → Outcome (Unit {0}) × Emitter W
  push c (o, e) = (o, record e { stack = e.stack ++ (c ∷ []) })

  -- The context is pushed whether or not the header could be written.
  unfoldable pub emit_array_begin : ℤ → M (Emitter W) (Unit {0})
  unfolding emit_array
  emit_array_begin (negsuc k) e =
      push (some (record { b = []; w = e.w; n = 0 }))
        (ok tt, record e { w = buffer (length e.stack) })
  emit_array_begin (pos n) e = push none (emit_array (pos n) e)

  -- c.b.WriteTo(c.w), which makes no call of Write for an empty buffer.
  unfoldable pub flush : List ℕ → M (Emitter W) (Unit {0})
  flush [] = pure tt
  flush (b ∷ bs) = write (b ∷ bs)

  abbrev pub close : Option Context → M (Emitter W) (Unit {0})
  close none e = (ok tt, e)
  close (some c) e = after (emit_array (pos (elements c)) (record e { w = c.w })) (λ _. flush c.b)

  -- An empty stack is an index out of range.
  unfoldable pub emit_array_end : M (Emitter W) (Unit {0})
  unfolding pop flush emit_array
  emit_array_end e = elim (pop e.stack) [
    | none ↦ (panic, e)
    | some (rest, c) ↦ close c (record e { stack = rest })
  ]

  unfoldable pub emit_array_next : M (Emitter W) (Unit {0})
  unfolding count
  emit_array_next e =
      if length e.stack == 0
      then (panic, e)
      else (ok tt, record e { stack = count (length e.stack - 1) e.stack })

  -- An unknown length is not refused: n + n is written as a uint64.
  unfoldable pub emit_map_begin : ℤ → M (Emitter W) (Unit {0})
  unfolding emit_array
  emit_map_begin n = emit_array (add64 n n)

  unfoldable pub emit_map_end : M (Emitter W) (Unit {0})
  emit_map_end = pure tt

  unfoldable pub emit_map_value : M (Emitter W) (Unit {0})
  emit_map_value = pure tt

  unfoldable pub emit_map_next : M (Emitter W) (Unit {0})
  emit_map_next = pure tt
