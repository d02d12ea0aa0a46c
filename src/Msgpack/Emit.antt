-- ===== src/Msgpack/Emit.antt =====
-- The emitter of msgpack/emit.go. The scratch array `b` of the source holds no state between the
-- methods; what a method puts together there is a list. Contexts come from a pool, which hands
-- out reset ones: a new context stands for both.
pub mod Laws
pub mod Arrays
pub mod Counted
use objconv.Prelude.{
  ℕ, zero, suc, ◌+◌, ◌-◌, ◌*◌, ◌%◌, ◌^◌, ◌==◌, List, [], ◌∷◌, ◌++◌, length, take, drop, leb, ltb,
  Bool, true, false, not, ◌&&◌, Option, none, some, bit_or, if◌then◌else◌,
}
use objconv.Prelude.Int.{ℤ, pos, negsuc, leb_ℤ, to_word}
use objconv.Prelude.Bytes.{put_uint16, put_uint32, put_uint64}
use objconv.Go.Outcome.{
  Error, Outcome, ok, err, panic, stuck, string_too_long, bytes_too_long, array_too_long,
  map_too_long, unknown_map_length, M, after, ◌>>=◌, ◌>>◌, pure, fail, crash,
}
use objconv.Go.Io.{Writer}
use objconv.Objutil.Duration.{append_duration}
use objconv.Go.Float.{Floats}
use objconv.Go.Time.{Time}
use objconv.Objutil.Limits.{
  uint8_max, uint16_max, uint32_max, int8_max, int16_max, int32_max, int8_min, int16_min, int32_min,
}
use objconv.Msgpack.Tag

-- The writers that `e.w` and a context's `w` can be: the one given to NewEmitter, or the buffer of
-- the context at a position of the stack.
pub data WriterRef : Type 0 where
  base : WriterRef
  buffer : ℕ → WriterRef

-- `b` caches the elements of an array of unknown length, `w` is the previous writer, and `n`
-- counts the elements.
pub record Context : Type 0 where
  pub b : List ℕ
  pub w : WriterRef
  pub n : ℕ

-- `out` is the writer given to NewEmitter. `none` on the stack is a nil context.
pub record Emitter (W : Type 0) : Type 0 where
  pub out : W
  pub w : WriterRef
  pub stack : List (Option Context)

abbrev pub new_emitter : {W : Type 0} → W → Emitter W
new_emitter out = record { out = out; w = base; stack = [] }

pub reset : {W : Type 0} → W → Emitter W → Emitter W
reset out e = record { out = out; w = base; stack = [] }

-- bytes.Buffer.Write on the context at a position.
unfoldable pub cache : ℕ → List ℕ → List (Option Context) → List (Option Context)
cache k bs [] = []
cache zero bs (none ∷ st) = none ∷ st
cache zero bs (some c ∷ st) = some (record c { b = c.b ++ bs }) ∷ st
cache (suc k) bs (c ∷ st) = c ∷ cache k bs st

-- c.n++ on the context at a position.
unfoldable pub count : ℕ → List (Option Context) → List (Option Context)
count k [] = []
count zero (none ∷ st) = none ∷ st
count zero (some c ∷ st) = some (record c { n = c.n + 1 }) ∷ st
count (suc k) (c ∷ st) = c ∷ count k st

-- The stack without its last context, and that context.
unfoldable pub pop : List (Option Context) → Option (List (Option Context) × Option Context)
pop [] = none
pop (c ∷ []) = some ([], c)
pop (c ∷ d ∷ st) = elim (pop (d ∷ st)) [ none ↦ none | some (rest, last) ↦ some (c ∷ rest, last) ]

-- The bytes that EmitNil, EmitBool and EmitFloat write.
abbrev pub nil_bytes : List ℕ
nil_bytes = Tag.nil ∷ []

abbrev pub bool_bytes : Bool → List ℕ
bool_bytes v = (if v then Tag.true else Tag.false) ∷ []

abbrev pub float_bytes : ⦃fl : Floats⦄ → ℕ → ℕ → List ℕ
float_bytes ⦃fl⦄ v bit_size =
    if bit_size == 32 then Tag.float32 ∷ put_uint32 (fl.narrow v) else Tag.float64 ∷ put_uint64 v

-- The bytes of an integer: the switch of EmitInt.
unfoldable pub int_bytes : ℤ → List ℕ
int_bytes v =
    if leb_ℤ (pos 0) v
    then (if leb_ℤ v (pos int8_max)
        then bit_or (to_word 8 v) Tag.positive_fixint_tag ∷ []
        else if leb_ℤ v (pos int16_max)
        then Tag.int16 ∷ put_uint16 (to_word 16 v)
        else if leb_ℤ v (pos int32_max)
        then Tag.int32 ∷ put_uint32 (to_word 32 v)
        else Tag.int64 ∷ put_uint64 (to_word 64 v))
    else if leb_ℤ (negsuc 30) v
    then bit_or (to_word 8 v) Tag.negative_fixint_tag ∷ []
    else if leb_ℤ int8_min v
    then Tag.int8 ∷ to_word 8 v ∷ []
    else if leb_ℤ int16_min v
    then Tag.int16 ∷ put_uint16 (to_word 16 v)
    else if leb_ℤ int32_min v
    then Tag.int32 ∷ put_uint32 (to_word 32 v)
    else Tag.int64 ∷ put_uint64 (to_word 64 v)

unfoldable pub uint_bytes : ℕ → List ℕ
uint_bytes v =
    if leb v uint8_max
    then Tag.uint8 ∷ (v % 2 ^ 8) ∷ []
    else if leb v uint16_max
    then Tag.uint16 ∷ put_uint16 (v % 2 ^ 16)
    else if leb v uint32_max
    then Tag.uint32 ∷ put_uint32 (v % 2 ^ 32)
    else Tag.uint64 ∷ put_uint64 v

-- `none` where the length is beyond 32 bits.
unfoldable pub string_header : ℕ → Option (List ℕ)
string_header n =
    if leb n 31
    then some (bit_or (n % 2 ^ 8) Tag.fixstr_tag ∷ [])
    else if leb n uint8_max
    then some (Tag.str8 ∷ (n % 2 ^ 8) ∷ [])
    else if leb n uint16_max
    then some (Tag.str16 ∷ put_uint16 (n % 2 ^ 16))
    else if leb n uint32_max
    then some (Tag.str32 ∷ put_uint32 (n % 2 ^ 32))
    else none

unfoldable pub bytes_header : ℕ → Option (List ℕ)
bytes_header n =
    if leb n uint8_max
    then some (Tag.bin8 ∷ (n % 2 ^ 8) ∷ [])
    else if leb n uint16_max
    then some (Tag.bin16 ∷ put_uint16 (n % 2 ^ 16))
    else if leb n uint32_max
    then some (Tag.bin32 ∷ put_uint32 (n % 2 ^ 32))
    else none

unfoldable pub array_header : ℕ → Option (List ℕ)
array_header n =
    if leb n 15
    then some (bit_or (n % 2 ^ 8) Tag.fixarray_tag ∷ [])
    else if leb n uint16_max
    then some (Tag.array16 ∷ put_uint16 (n % 2 ^ 16))
    else if leb n uint32_max
    then some (Tag.array32 ∷ put_uint32 (n % 2 ^ 32))
    else none

unfoldable pub map_header : ℕ → Option (List ℕ)
map_header n =
    if leb n 15
    then some (bit_or (n % 2 ^ 8) Tag.fixmap_tag ∷ [])
    else if leb n uint16_max
    then some (Tag.map16 ∷ put_uint16 (n % 2 ^ 16))
    else if leb n uint32_max
    then some (Tag.map32 ∷ put_uint32 (n % 2 ^ 32))
    else none

abbrev int34_max : ℕ
int34_max = 17179869183

unfoldable pub time_bytes : Time → List ℕ
time_bytes t =
    let s = t.seconds in
    let ns = t.nanos in
    if ns == 0 && (leb_ℤ (pos 0) s && leb_ℤ s (pos uint32_max))
    then Tag.fixext4 ∷ Tag.ext_time ∷ put_uint32 (to_word 32 s)
    else if leb_ℤ (pos 0) s && leb_ℤ s (pos int34_max)
    then Tag.fixext8 ∷ Tag.ext_time ∷ put_uint64 (bit_or (to_word 64 s) (ns * 2 ^ 34 % 2 ^ 64))
    else Tag.ext8 ∷ 12 ∷ Tag.ext_time ∷ put_uint32 (ns % 2 ^ 32) ++ put_uint64 (to_word 64 s)

-- The bytes of the string `v` that fit behind `front` in the array `b`.
unfoldable pub chunk_size : List ℕ → List ℕ → ℕ
chunk_size front v = if ltb (240 - length front) (length v) then 240 - length front else length v

-- The number of elements that EmitArrayEnd writes: the last one is followed by no EmitArrayNext.
abbrev pub elements : Context → ℕ
elements c = if length c.b == 0 then c.n else c.n + 1

module _ {W : Type 0} ⦃io : Writer W⦄ where
  -- ref.Write(bs)
  pub write_to : WriterRef → List ℕ → M (Emitter W) (Unit {0})
  write_to base bs e =
      let (error, out) = io.write e.out bs in
      elim error [
        | none ↦ (ok tt, record e { out = out })
        | some x ↦ (err x, record e { out = out })
      ]
  write_to (buffer k) bs e = (ok tt, record e { stack = cache k bs e.stack })

  -- e.w.Write(bs)
  pub write : List ℕ → M (Emitter W) (Unit {0})
  unfolding write_to
  write bs e = write_to e.w bs e

  unfoldable pub emit_nil : M (Emitter W) (Unit {0})
  emit_nil = write nil_bytes

  unfoldable pub emit_bool : Bool → M (Emitter W) (Unit {0})
  emit_bool v = write (bool_bytes v)

  -- The bit size is ignored.
  unfoldable pub emit_int : ℤ → M (Emitter W) (Unit {0})
  emit_int v = write (int_bytes v)

  unfoldable pub emit_uint : ℕ → M (Emitter W) (Unit {0})
  emit_uint v = write (uint_bytes v)

  unfoldable pub emit_float : ⦃fl : Floats⦄ → ℕ → ℕ → M (Emitter W) (Unit {0})
  emit_float v bit_size = write (float_bytes v bit_size)

  -- The end of a round of the loop of EmitString: it ends with the string.
  abbrev pub string_more : (List ℕ → M (Emitter W) (Unit {0})) → List ℕ → M (Emitter W) (Unit {0})
  string_more rest [] e = (ok tt, e)
  string_more rest (x ∷ v) e = rest (x ∷ v) e

  -- The loop of EmitString: the first chunk follows the header, and each fills the array `b`.
  pub string_loop : ℕ → List ℕ → List ℕ → M (Emitter W) (Unit {0})
  string_loop zero front v e = (stuck, e)
  string_loop (suc fuel) front v e =
      let n1 = chunk_size front v in
      let rest = string_loop fuel [] in
      after (write (front ++ take n1 v) e) (λ _. string_more rest (drop n1 v))

  -- Each chunk takes a byte at least of a string that is left.
  unfoldable pub emit_string : List ℕ → M (Emitter W) (Unit {0})
  unfolding string_loop chunk_size
  emit_string v e = elim (string_header (length v)) [
    | none ↦ (err (string_too_long (length v)), e)
    | some header ↦ string_loop (length v + 1) header v e
  ]

  unfoldable pub emit_bytes : List ℕ → M (Emitter W) (Unit {0})
  emit_bytes v e = elim (bytes_header (length v)) [
    | none ↦ (err (bytes_too_long (length v)), e)
    | some header ↦ after (write header e) (λ _. write v)
  ]

  unfoldable pub emit_time : Time → M (Emitter W) (Unit {0})
  emit_time t = write (time_bytes t)

  unfoldable pub emit_duration : ℤ → M (Emitter W) (Unit {0})
  unfolding emit_string
  emit_duration v = emit_string (append_duration [] v)

  -- An error is its text.
  unfoldable pub emit_error : List ℕ → M (Emitter W) (Unit {0})
  unfolding emit_string
  emit_error v = emit_string v

  -- emitArray
  unfoldable pub emit_array : ℕ → M (Emitter W) (Unit {0})
  emit_array n e = elim (array_header n) [
    | none ↦ (err (array_too_long n), e)
    | some header ↦ write header e
  ]

  abbrev push : Option Context → Outcome (Unit {0}) × Emitter W → Outcome (Unit {0}) × Emitter W
  push c (o, e) = (o, record e { stack = e.stack ++ (c ∷ []) })

  -- The context is pushed whether or not the header could be written.
  unfoldable pub emit_array_begin : ℤ → M (Emitter W) (Unit {0})
  emit_array_begin (negsuc k) e =
      push (some (record { b = []; w = e.w; n = 0 }))
        (ok tt, record e { w = buffer (length e.stack) })
  emit_array_begin (pos n) e = push none (emit_array n e)

  -- c.b.WriteTo(c.w), which makes no call of Write for an empty buffer.
  unfoldable pub flush : List ℕ → M (Emitter W) (Unit {0})
  flush [] = pure tt
  flush (b ∷ bs) = write (b ∷ bs)

  abbrev pub close : Option Context → M (Emitter W) (Unit {0})
  close none e = (ok tt, e)
  close (some c) e = after (emit_array (elements c) (record e { w = c.w })) (λ _. flush c.b)

  -- An empty stack is an index out of range.
  unfoldable pub emit_array_end : M (Emitter W) (Unit {0})
  unfolding pop flush
  emit_array_end e = elim (pop e.stack) [
    | none ↦ (panic, e)
    | some (rest, c) ↦ close c (record e { stack = rest })
  ]

  unfoldable pub emit_array_next : M (Emitter W) (Unit {0})
  emit_array_next e =
      if length e.stack == 0
      then (panic, e)
      else (ok tt, record e { stack = count (length e.stack - 1) e.stack })

  unfoldable pub emit_map_begin : ℤ → M (Emitter W) (Unit {0})
  emit_map_begin (negsuc k) e = (err unknown_map_length, e)
  emit_map_begin (pos n) e = elim (map_header n) [
    | none ↦ (err (map_too_long n), e)
    | some header ↦ write header e
  ]

  unfoldable pub emit_map_end : M (Emitter W) (Unit {0})
  emit_map_end = pure tt

  unfoldable pub emit_map_value : M (Emitter W) (Unit {0})
  emit_map_value = pure tt

  unfoldable pub emit_map_next : M (Emitter W) (Unit {0})
  emit_map_next = pure tt
