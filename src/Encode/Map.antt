-- ===== src/Encode/Map.antt =====
-- EncodeArray and EncodeMap of encode.go for an encoder of any key flag. The callback of EncodeMap is
-- the list of its successive calls, each of which returns nil or an error other than End, after which
-- it returns End.
use objconv.Prelude.{ℕ, ◌+◌, ◌==◌, List, [], ◌∷◌, Bool, true, false, if◌then◌else◌}
use objconv.Prelude.Int.{ℤ}
use objconv.Go.Outcome.{ok, M, after, ◌>>◌}
use objconv.Encode.{ArrayEmitter, goes_on, encode_array}

-- The methods of an emitter that the algorithms call.
pub record MapEmitter (S : Type 0) : Type 0 where
  pub arrays : ArrayEmitter S
  pub emit_map_begin : ℤ → M S (Unit {0})
  pub emit_map_end : M S (Unit {0})
  pub emit_map_value : M S (Unit {0})
  pub emit_map_next : M S (Unit {0})

-- An encoder is passed by value; its emitter is the state. Under `key` the next thing encoded is a
-- value of a map, behind its key.
pub record Encoder : Type 0 where
  pub key : Bool

module _ {S : Type 0} (em : MapEmitter S) where
  -- if e.key { e.key = false; EmitMapValue() }
  unfoldable pub begin_value : Encoder → M S (Unit {0})
  begin_value e s = if e.key then em.emit_map_value s else (ok tt, s)

  unfoldable pub encode_array_in : Encoder → ℤ → List (M S (Unit {0})) → M S (Unit {0})
  unfolding begin_value encode_array
  encode_array_in e n fs = begin_value e >> encode_array em.arrays n fs

  abbrev pub separate_pairs : ℕ → M S (Unit {0})
  separate_pairs i s = if i == 0 then (ok tt, s) else em.emit_map_next s

  -- The loop at index `i`. Each call is given the encoders of the key and of the value.
  unfoldable pub encode_pairs : ℤ → ℕ → List (Encoder → Encoder → M S (Unit {0})) → M S (Unit {0})
  encode_pairs n i [] s = if goes_on n i then separate_pairs i s else (ok tt, s)
  encode_pairs n i (f ∷ fs) s =
      let rest = encode_pairs n (i + 1) fs in
      let call = f (record { key = false }) (record { key = true }) in
      if goes_on n i
      then after (separate_pairs i s) (λ _ t. after (call t) (λ _. rest))
      else (ok tt, s)

  unfoldable pub encode_map :
      Encoder → ℤ → List (Encoder → Encoder → M S (Unit {0})) → M S (Unit {0})
  unfolding begin_value encode_pairs
  encode_map e n fs = begin_value e >> em.emit_map_begin n >> encode_pairs n 0 fs >> em.emit_map_end
