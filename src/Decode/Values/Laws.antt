-- ===== src/Decode/Values/Laws.antt =====
-- decodeInterface of decode.go over a parser that presents a value: the calls that the decoder makes,
-- in its order, answer with the parts of the value.
use objconv.Prelude.{ℕ, zero, suc, ◌%◌, ◌^◌, ◌≤◌, ◌<◌, ◌≡◌, refl, ap, ◌∙◌, List, [], some, arith}
use objconv.Prelude.Int.{of_word-to_word64}
use objconv.Go.Float.{Floats}
use objconv.Go.Outcome.{Outcome, ok, err, panic, stuck, M, after, ◌>>=◌, pure}
use objconv.Go.Strconv.{FloatFormat, IntFormat}
use objconv.Go.Time.{TimeFormat, DurationFormat}
use objconv.Decode.Scalars.{
  bool_of_type, int_of_type, uint_of_type, float_of_type, check_int, check_uint,
}
use objconv.Decode.Texts.{
  string_of_type, bytes_of_type, time_of_type, duration_of_type, error_of_type, transformed,
}
use objconv.Decode.Values.{or_zero, interface_of_type, decode_interface}
use objconv.Parse.{Parser}
use objconv.Value.{
  IntKind, UintKind, FloatKind, Scalar, Value, nil, scalar, nil_pointer, pointer, slice_string,
  slice_any, map_string_string, map_string_any, map_any, Values, no_value, value, Entries, no_entry,
  entry,
}
use objconv.Value.Emitter.{Keys}
use objconv.Value.Emitter.Laws.{of_list-to_list, WellKeyed, WellKeyedValues, WellKeyedEntries}
use objconv.Decode.Values.Loops.{
  Decodes, DecodesAll, DecodesPairs, decode_slice_lem, decode_map_lem, length_values-le,
  length_entries-le,
}
use objconv.Decode.Values.Presents.{size, size_values, size_entries, announced, Reads, Presents}

module _ {P : Type 0} (ps : Parser P) ⦃keys : Keys⦄ ⦃fl : Floats⦄ ⦃ff : FloatFormat⦄ where
  module _ ⦃num : IntFormat⦄ ⦃tf : TimeFormat⦄ ⦃df : DurationFormat⦄ where
    set_uint64 : (u : ℕ) → u < 2 ^ 64 → u % 2 ^ 64 ≡ u
    set_uint64 u h = omega arith

    bytes_lem :
        (b : List ℕ) (r : Outcome (List ℕ) × P) (q : P)
        → after r (transformed ps) ≡ (ok b, q)
        → after
            (after r (λ c. transformed ps c >>= λ v. pure (some v)))
            (λ v. pure (scalar (Scalar.bytes (or_zero [] v))))
          ≡ (ok (scalar (Scalar.bytes b)), q)
    bytes_lem b (ok c, u) q h = rw h refl
    bytes_lem b (err e, u) q h = absurd cc
    bytes_lem b (panic, u) q h = absurd cc
    bytes_lem b (stuck, u) q h = absurd cc

    scalar_lem :
        (s : Scalar) (rounds : ℕ) (f : M P Value) (t q : P)
        → Reads ps s t q
        → interface_of_type ps rounds f (announced s) t ≡ (ok (scalar s), q)
    unfolding interface_of_type bool_of_type int_of_type uint_of_type float_of_type string_of_type
        bytes_of_type time_of_type duration_of_type error_of_type check_int check_uint
    scalar_lem (Scalar.bool b) rounds f t q h = rw h refl
    scalar_lem (Scalar.int IntKind.int64 i) rounds f t q h =
        rw h.1 (ap (λ v. (ok (scalar (Scalar.int IntKind.int64 v)), q)) (of_word-to_word64 i h.0))
    scalar_lem (Scalar.int IntKind.int i) rounds f t q h = absurd h
    scalar_lem (Scalar.int IntKind.int8 i) rounds f t q h = absurd h
    scalar_lem (Scalar.int IntKind.int16 i) rounds f t q h = absurd h
    scalar_lem (Scalar.int IntKind.int32 i) rounds f t q h = absurd h
    scalar_lem (Scalar.uint UintKind.uint64 u) rounds f t q h =
        rw h.1 (ap (λ v. (ok (scalar (Scalar.uint UintKind.uint64 v)), q)) (set_uint64 u h.0))
    scalar_lem (Scalar.uint UintKind.uint u) rounds f t q h = absurd h
    scalar_lem (Scalar.uint UintKind.uint8 u) rounds f t q h = absurd h
    scalar_lem (Scalar.uint UintKind.uint16 u) rounds f t q h = absurd h
    scalar_lem (Scalar.uint UintKind.uint32 u) rounds f t q h = absurd h
    scalar_lem (Scalar.uint UintKind.uintptr u) rounds f t q h = absurd h
    scalar_lem (Scalar.float FloatKind.float64 u) rounds f t q h = rw h refl
    scalar_lem (Scalar.float FloatKind.float32 u) rounds f t q h = absurd h
    scalar_lem (Scalar.string s) rounds f t q h = rw h refl
    scalar_lem (Scalar.bytes b) rounds f t q h = bytes_lem b (ps.items.parse_bytes t) q h
    scalar_lem (Scalar.time u) rounds f t q h = rw h refl
    scalar_lem (Scalar.duration d) rounds f t q h = rw h refl
    scalar_lem (Scalar.error e) rounds f t q h = rw h refl

    pub step_lem :
        (fuel : ℕ) (p : P)
        → decode_interface ps (suc fuel) p
          ≡ (ps.items.parse_type >>= interface_of_type ps fuel (decode_interface ps fuel)) p
    unfolding decode_interface
    step_lem fuel p = refl

    mutual
      unfolding Presents size WellKeyed interface_of_type

      -- By induction on the value: whatever it nests is decoded with the fuel that is left.
      decode_interface_lem :
          (v : Value) (fuel : ℕ)
          → size v ≤ fuel
          → WellKeyed v
          → Decodes ps (decode_interface ps fuel) v
      decode_interface_lem nil zero room k p q h = absurd (omega arith)
      decode_interface_lem nil (suc fuel) room k p q (t, e, e') = step_lem fuel p ∙ rw (e, e') refl
      decode_interface_lem (scalar s) zero room k p q h = absurd (omega arith)
      decode_interface_lem (scalar s) (suc fuel) room k p q (t, e, r) =
          step_lem fuel p ∙ rw e (scalar_lem s fuel (decode_interface ps fuel) t q r)
      decode_interface_lem (slice_any vs) zero room k p q h = absurd (omega arith)
      decode_interface_lem (slice_any vs) (suc fuel) room k p q (t, u, w, e, b, items, l) =
          step_lem fuel p
          ∙ rw
              (
                e,
                decode_slice_lem ps (decode_interface ps fuel) vs fuel t u w q
                    (omega (arith, length_values-le vs)) (decode_values_lem vs fuel (omega arith) k)
                    b items l,
              )
              (ap (λ (l : Values). (ok (slice_any l), q)) (of_list-to_list vs))
      decode_interface_lem (map_any m) zero room k p q h = absurd (omega arith)
      decode_interface_lem (map_any m) (suc fuel) room k p q (t, u, w, e, b, pairs, l) =
          step_lem fuel p
          ∙ rw
              (
                e,
                decode_map_lem ps (decode_interface ps fuel) m fuel t u w q
                    (omega (arith, length_entries-le m)) k
                    (decode_entries_lem m fuel (omega arith) k) b pairs l,
              )
              refl
      decode_interface_lem nil_pointer fuel room k p q h = absurd h
      decode_interface_lem (pointer v) fuel room k p q h = absurd h
      decode_interface_lem (slice_string ss) fuel room k p q h = absurd h
      decode_interface_lem (map_string_string m) fuel room k p q h = absurd h
      decode_interface_lem (map_string_any m) fuel room k p q h = absurd h

      decode_values_lem :
          (vs : Values) (fuel : ℕ)
          → size_values vs ≤ fuel
          → WellKeyedValues vs
          → DecodesAll ps (decode_interface ps fuel) vs
      decode_values_lem no_value fuel room k = tt
      decode_values_lem (value v vs) fuel room k = (
        decode_interface_lem v fuel (omega arith) k.0,
        decode_values_lem vs fuel (omega arith) k.1,
      )

      decode_entries_lem :
          (m : Entries) (fuel : ℕ)
          → size_entries m ≤ fuel
          → WellKeyedEntries m
          → DecodesPairs ps (decode_interface ps fuel) m
      decode_entries_lem no_entry fuel room k = tt
      decode_entries_lem (entry j v m) fuel room k = (
        decode_interface_lem j fuel (omega arith) k.0,
        decode_interface_lem v fuel (omega arith) k.1,
        decode_entries_lem m fuel (omega arith) k.4,
      )

    -- Decoding into an empty interface, with fuel for the parts of the value, returns exactly the
    -- value that the parser presents, for any parser that gives the lengths of arrays and maps, and
    -- leaves the parser where the value ends. The condition on the value is that each of its maps has
    -- keys that can be hashed, and none twice.
    pub decode_interface-presented :
        (v : Value) (fuel : ℕ) (p q : P)
        → size v ≤ fuel
        → WellKeyed v
        → Presents ps v p q
        → decode_interface ps fuel p ≡ (ok v, q)
    decode_interface-presented v fuel p q room k h = decode_interface_lem v fuel room k p q h
