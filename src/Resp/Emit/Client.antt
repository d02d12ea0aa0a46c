-- ===== src/Resp/Emit/Client.antt =====
-- The ClientEmitter of resp/emit.go: the requests of a redis client are bulk strings. The methods
-- that are not here are those of the Emitter inside.
use objconv.Prelude.{ℕ, List, Bool, if◌then◌else◌}
use objconv.Prelude.Int.{ℤ, pos}
use objconv.Go.Outcome.{M}
use objconv.Go.Io.{Writer}
use objconv.Go.Strconv.{append_int, append_uint, FloatFormat}
use objconv.Go.Time.{Time}
use objconv.Resp.Emit
use objconv.Resp.Emit.{Emitter, write, bulk_bytes, new_emitter}

abbrev pub new_client_emitter : {W : Type 0} → W → Emitter W
new_client_emitter out = new_emitter out

-- `room` is the capacity of the scratch buffer. Seconds() of a duration, a float64, is a parameter.
module _ {W : Type 0} ⦃io : Writer W⦄ (room : ℕ) where
  unfoldable pub emit_int : ℤ → M (Emitter W) (Unit {0})
  emit_int v = Emit.emit_bytes room (append_int v)

  unfoldable pub emit_bool : Bool → M (Emitter W) (Unit {0})
  unfolding emit_int
  emit_bool v = emit_int (if v then pos 1 else pos 0)

  unfoldable pub emit_uint : ℕ → M (Emitter W) (Unit {0})
  emit_uint v = Emit.emit_bytes room (append_uint v)

  unfoldable pub emit_float : ⦃fl : FloatFormat⦄ → ℕ → ℕ → M (Emitter W) (Unit {0})
  emit_float ⦃fl⦄ v bit_size = Emit.emit_bytes room (fl.format v bit_size)

  unfoldable pub emit_time : Time → M (Emitter W) (Unit {0})
  unfolding emit_int
  emit_time v = emit_int v.seconds

  unfoldable pub emit_duration : ⦃fl : FloatFormat⦄ → (ℤ → ℕ) → ℤ → M (Emitter W) (Unit {0})
  unfolding emit_float
  emit_duration to_seconds v = emit_float (to_seconds v) 64

module _ {W : Type 0} ⦃io : Writer W⦄ where
  unfoldable pub emit_string : List ℕ → M (Emitter W) (Unit {0})
  emit_string v = write (bulk_bytes v)

  unfoldable pub emit_error : List ℕ → M (Emitter W) (Unit {0})
  unfolding emit_string
  emit_error x = emit_string x
