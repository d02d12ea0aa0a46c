-- ===== src/Cbor/Emit.antt =====
-- The emitter of cbor/emit.go. Its scratch array `b` holds no state between the methods.
pub mod Arrays
use objconv.Prelude.{ℕ, ◌%◌, ◌^◌, ◌==◌, List, [], ◌∷◌, length, leb, Bool, none, some, if◌then◌else◌}
use objconv.Prelude.Int.{ℤ, pos, negsuc}
use objconv.Prelude.Bytes.{put_uint16, put_uint32, put_uint64}
use objconv.Go.Outcome.{ok, err, panic, M, ◌>>◌, pure}
use objconv.Go.Io.{Writer}
use objconv.Objutil.Duration.{append_duration}
use objconv.Go.Float.{Floats}
use objconv.Go.Time.{Time, TimeFormat}
use objconv.Objutil.Limits.{uint8_max, uint16_max, uint32_max}
use objconv.Cbor.Major.{
  major_byte, i_uint8, i_uint16, i_uint32, i_uint64, sv_false, sv_true, sv_null, sv_float32,
  sv_float64, tag_date_time,
}

-- The last number pushed stands first on `stack`; a negative one is an unknown length.
pub record Emitter (W : Type 0) : Type 0 where
  pub w : W
  pub stack : List ℤ

abbrev pub new_emitter : {W : Type 0} → W → Emitter W
new_emitter w = record { w = w; stack = [] }

pub reset : {W : Type 0} → W → Emitter W → Emitter W
reset w e = record { w = w; stack = [] }

-- The head of an item of major type `m`: the switch of emitUint.
unfoldable pub head_bytes : ℕ → ℕ → List ℕ
head_bytes m v =
    if leb v 23
    then major_byte m (v % 2 ^ 8) ∷ []
    else if leb v uint8_max
    then major_byte m i_uint8 ∷ (v % 2 ^ 8) ∷ []
    else if leb v uint16_max
    then major_byte m i_uint16 ∷ put_uint16 (v % 2 ^ 16)
    else if leb v uint32_max
    then major_byte m i_uint32 ∷ put_uint32 (v % 2 ^ 32)
    else major_byte m i_uint64 ∷ put_uint64 v

-- uint64(-(v + 1)) of a negative `v`, and the major type that goes with it.
abbrev pub int_head : ℤ → List ℕ
int_head (pos n) = head_bytes 0 (n % 2 ^ 64)
int_head (negsuc n) = head_bytes 1 (n % 2 ^ 64)

-- The bytes that EmitNil, EmitBool and EmitFloat write.
abbrev pub null_bytes : List ℕ
null_bytes = major_byte 7 sv_null ∷ []

abbrev pub simple_bytes : Bool → List ℕ
simple_bytes v = major_byte 7 (if v then sv_true else sv_false) ∷ []

abbrev pub simple_float_bytes : ⦃fl : Floats⦄ → ℕ → ℕ → List ℕ
simple_float_bytes ⦃fl⦄ v bit_size =
    if bit_size == 32
    then major_byte 7 sv_float32 ∷ put_uint32 (fl.narrow v)
    else major_byte 7 sv_float64 ∷ put_uint64 v

module _ {W : Type 0} ⦃io : Writer W⦄ where
  -- e.w.Write(bs)
  unfoldable pub write : List ℕ → M (Emitter W) (Unit {0})
  write bs e =
      let (error, w) = io.write e.w bs in
      elim error [ none ↦ (ok tt, record e { w = w }) | some x ↦ (err x, record e { w = w }) ]

  unfoldable pub emit_nil : M (Emitter W) (Unit {0})
  emit_nil = write null_bytes

  unfoldable pub emit_bool : Bool → M (Emitter W) (Unit {0})
  emit_bool v = write (simple_bytes v)

  -- emitUint
  unfoldable pub emit_head : ℕ → ℕ → M (Emitter W) (Unit {0})
  emit_head m v = write (head_bytes m v)

  unfoldable pub emit_int : ℤ → M (Emitter W) (Unit {0})
  emit_int v = write (int_head v)

  unfoldable pub emit_uint : ℕ → M (Emitter W) (Unit {0})
  unfolding emit_head
  emit_uint v = emit_head 0 v

  unfoldable pub emit_float : ⦃fl : Floats⦄ → ℕ → ℕ → M (Emitter W) (Unit {0})
  emit_float v bit_size = write (simple_float_bytes v bit_size)

  unfoldable pub emit_string : List ℕ → M (Emitter W) (Unit {0})
  unfolding emit_head
  emit_string v = emit_head 3 (length v) >> write v

  unfoldable pub emit_bytes : List ℕ → M (Emitter W) (Unit {0})
  unfolding emit_head
  emit_bytes v = emit_head 2 (length v) >> (if length v == 0 then pure tt else write v)

  unfoldable pub emit_time : ⦃tf : TimeFormat⦄ → Time → M (Emitter W) (Unit {0})
  unfolding emit_head
  emit_time ⦃tf⦄ v = do
    write (major_byte 6 tag_date_time ∷ [])
    emit_head 3 (length (tf.format v))
    write (tf.format v)

  abbrev push : ℤ → M (Emitter W) (Unit {0})
  push n e = (ok tt, record e { stack = n ∷ e.stack })

  -- The head of an array or map: 31 announces an unknown length.
  abbrev begin : ℕ → ℤ → M (Emitter W) (Unit {0})
  begin m (pos n) = emit_head m n
  begin m (negsuc k) = write (major_byte m 31 ∷ [])

  -- A negative length on the stack is closed by a break; an empty stack is out of range.
  abbrev pop_end : List ℤ → M (Emitter W) (Unit {0})
  pop_end [] e = (panic, e)
  pop_end (pos n ∷ st) e = (ok tt, record e { stack = st })
  pop_end (negsuc k ∷ st) e = write (0xFF ∷ []) (record e { stack = st })

  unfoldable pub emit_duration : ℤ → M (Emitter W) (Unit {0})
  unfolding emit_string
  emit_duration v = emit_string (append_duration [] v)

  -- An error is its text.
  unfoldable pub emit_error : List ℕ → M (Emitter W) (Unit {0})
  unfolding emit_string
  emit_error v = emit_string v

  unfoldable pub emit_array_begin : ℤ → M (Emitter W) (Unit {0})
  unfolding emit_head
  emit_array_begin n = push n >> begin 4 n

  unfoldable pub emit_array_end : M (Emitter W) (Unit {0})
  emit_array_end e = pop_end e.stack e

  unfoldable pub emit_array_next : M (Emitter W) (Unit {0})
  emit_array_next = pure tt

  unfoldable pub emit_map_begin : ℤ → M (Emitter W) (Unit {0})
  unfolding emit_head
  emit_map_begin n = push n >> begin 5 n

  unfoldable pub emit_map_end : M (Emitter W) (Unit {0})
  emit_map_end e = pop_end e.stack e

  unfoldable pub emit_map_value : M (Emitter W) (Unit {0})
  emit_map_value = pure tt

  unfoldable pub emit_map_next : M (Emitter W) (Unit {0})
  emit_map_next = pure tt
