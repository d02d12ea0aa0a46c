-- ===== src/Emit.antt =====
-- The interface Emitter of emit.go, and Discard.
use objconv.Prelude.{ℕ, List, Bool}
use objconv.Prelude.Int.{ℤ}
use objconv.Go.Outcome.{M, pure}
use objconv.Go.Time.{Time}
use objconv.Encode.Map.{MapEmitter}

-- The methods that write an array or a map, and those that write one value. An error is its text.
pub record Emitter (S : Type 0) : Type 0 where
  pub maps : MapEmitter S
  pub emit_nil : M S (Unit {0})
  pub emit_bool : Bool → M S (Unit {0})
  pub emit_int : ℤ → ℕ → M S (Unit {0})
  pub emit_uint : ℕ → ℕ → M S (Unit {0})
  pub emit_float : ℕ → ℕ → M S (Unit {0})
  pub emit_string : List ℕ → M S (Unit {0})
  pub emit_bytes : List ℕ → M S (Unit {0})
  pub emit_time : Time → M S (Unit {0})
  pub emit_duration : ℤ → M S (Unit {0})
  pub emit_error : List ℕ → M S (Unit {0})

-- Discard has no state.
abbrev pub discard_emitter : Emitter (Unit {0})
discard_emitter = record {
  maps = record {
    arrays = record {
      emit_array_begin = λ n. pure tt;
      emit_array_end = pure tt;
      emit_array_next = pure tt;
    };
    emit_map_begin = λ n. pure tt;
    emit_map_end = pure tt;
    emit_map_value = pure tt;
    emit_map_next = pure tt;
  };
  emit_nil = pure tt;
  emit_bool = λ v. pure tt;
  emit_int = λ v size. pure tt;
  emit_uint = λ v size. pure tt;
  emit_float = λ v size. pure tt;
  emit_string = λ v. pure tt;
  emit_bytes = λ v. pure tt;
  emit_time = λ v. pure tt;
  emit_duration = λ v. pure tt;
  emit_error = λ v. pure tt;
}
