-- ===== src/Decode/Values.antt =====
-- decodeInterface of decode.go, over any parser: the value that is stored in an empty interface. The
-- destination is valid, and MapType is not set.
pub mod Presents
pub mod Loops
pub mod Laws
pub mod Flaws
use objconv.Prelude.{
  ℕ, zero, suc, ◌+◌, ◌++◌, List, [], ◌∷◌, Bool, true, Option, none, some, if◌then◌else◌,
}
use objconv.Prelude.Int.{ℤ, pos}
use objconv.Go.Float.{Floats}
use objconv.Go.Outcome.{Outcome, ok, err, panic, stuck, M, after, ◌>>=◌, ◌>>◌, pure, crash}
use objconv.Go.Strconv.{FloatFormat, IntFormat}
use objconv.Go.Time.{TimeFormat, DurationFormat, zero_time}
use objconv.Decode.{ItemParser, Decoder, begin_value, array_of_type, map_of_type}
use objconv.Decode.Collections.{lifted, beside, filled, decode_slice}
use objconv.Decode.Scalars.{bool_of_type, int_of_type, uint_of_type, float_of_type}
use objconv.Decode.Texts.{
  string_of_type, bytes_of_type, time_of_type, duration_of_type, error_of_type,
}
use objconv.Parse.{Parser}
use objconv.Types.{ValueType}
use objconv.Value.{
  IntKind, UintKind, FloatKind, Scalar, Value, nil, scalar, slice_any, map_any, Entries, no_entry,
  of_list, text,
}
use objconv.Value.Emitter.{Keys, assign}

-- A zero value where nothing is stored.
abbrev pub or_zero : {A : Type 0} → A → Option A → A
or_zero z none = z
or_zero z (some a) = a

module _ {P : Type 0} (ps : Parser P) ⦃keys : Keys⦄ where
  -- m[k] = v, with the panic of a key that cannot be hashed.
  unfoldable pub store : Value → Value → M (P × Entries) (Unit {0})
  unfolding assign
  store k v (p, m) = if keys.hashable k then (ok tt, (p, assign k v m)) else (panic, (p, m))

  -- The closure of decodeMapInterfaceInterface.
  unfoldable pub store_pair : M P Value → Decoder → Decoder → M (P × Entries) (Unit {0})
  unfolding begin_value store
  store_pair f kd vd = do
    k ← lifted (begin_value ps.items kd >> f)
    v ← lifted (begin_value ps.items vd >> f)
    store k v

  unfoldable pub decode_map_interface_interface : ℕ → M P Value → ValueType → M P Entries
  unfolding store_pair
  decode_map_interface_interface rounds f t =
      filled no_entry (map_of_type (beside Entries ps.items) rounds (store_pair f) t)

module _ {P : Type 0} (ps : Parser P) ⦃keys : Keys⦄ ⦃fl : Floats⦄ ⦃ff : FloatFormat⦄ where
  module _ ⦃num : IntFormat⦄ ⦃tf : TimeFormat⦄ ⦃df : DurationFormat⦄ where
    -- decodeInterfaceFromType, with the decoder of the values inside. An error that is nil does not
    -- come back: error_of_type panics.
    unfoldable pub interface_of_type : ℕ → M P Value → ValueType → M P Value
    unfolding decode_slice decode_map_interface_interface
    interface_of_type rounds f ValueType.nil = ps.items.parse_nil >> pure nil
    interface_of_type rounds f ValueType.bool = do
      v ← bool_of_type ps ValueType.bool
      pure (scalar (Scalar.bool v))
    interface_of_type rounds f ValueType.int = do
      v ← int_of_type ps (some IntKind.int64) ValueType.int
      pure (scalar (Scalar.int IntKind.int64 (or_zero (pos 0) v)))
    interface_of_type rounds f ValueType.uint = do
      v ← uint_of_type ps (some UintKind.uint64) ValueType.uint
      pure (scalar (Scalar.uint UintKind.uint64 (or_zero 0 v)))
    interface_of_type rounds f ValueType.float = do
      v ← float_of_type ps (some FloatKind.float64) ValueType.float
      pure (scalar (Scalar.float FloatKind.float64 (or_zero 0 v)))
    interface_of_type rounds f ValueType.string = do
      v ← string_of_type ps ValueType.string
      pure (text v)
    interface_of_type rounds f ValueType.bytes = do
      v ← bytes_of_type ps ValueType.bytes
      pure (scalar (Scalar.bytes (or_zero [] v)))
    interface_of_type rounds f ValueType.time = do
      v ← time_of_type ps true ValueType.time
      pure (scalar (Scalar.time (or_zero zero_time v)))
    interface_of_type rounds f ValueType.duration = do
      v ← duration_of_type ps true ValueType.duration
      pure (scalar (Scalar.duration (or_zero (pos 0) v)))
    interface_of_type rounds f ValueType.error = do
      v ← error_of_type ps true ValueType.error
      pure (scalar (Scalar.error (or_zero [] v)))
    interface_of_type rounds f ValueType.array = do
      vs ← decode_slice nil ps.items rounds f ValueType.array
      pure (slice_any (of_list vs))
    interface_of_type rounds f ValueType.map = do
      m ← decode_map_interface_interface ps rounds f ValueType.map
      pure (map_any m)
    interface_of_type rounds f ValueType.unknown = crash

    -- decodeInterface. The fuel bounds the depth and the rounds of each loop.
    unfoldable pub decode_interface : ℕ → M P Value
    unfolding interface_of_type
    decode_interface zero p = (stuck, p)
    decode_interface (suc fuel) p =
        (ps.items.parse_type >>= interface_of_type fuel (decode_interface fuel)) p

    -- Decode into an empty interface.
    unfoldable pub decode : ℕ → Decoder → M P Value
    unfolding begin_value
    decode fuel d = begin_value ps.items d >> decode_interface fuel
