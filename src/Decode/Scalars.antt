-- ===== src/Decode/Scalars.antt =====
-- The decoders of single values of decode.go: from the type that the parser announces to a variable
-- of the wanted type. Where the destination is not valid, the value is parsed and dropped.
pub mod Laws
use objconv.Prelude.{
  ℕ, ◌%◌, ◌^◌, List, [], ◌∷◌, Bool, true, false, Option, none, some, if◌then◌else◌,
}
use objconv.Prelude.Bytes.{}
use objconv.Prelude.Int.{ℤ, pos, negsuc, to_word, of_word}
use objconv.Go.Float.{Floats}
use objconv.Go.Outcome.{
  Error, invalid_number, invalid_time, invalid_duration, type_conversion, M, ◌>>=◌, ◌>>◌, pure,
  fail, crash,
}
use objconv.Go.Strconv.{append_int, append_uint, FloatFormat, IntFormat}
use objconv.Go.Time.{Time, TimeFormat, DurationFormat, zero_time}
use objconv.Objutil.Duration.{append_duration}
use objconv.Objutil.Limits.{
  int8_min, int16_min, int32_min, int64_min, int8_max, int16_max, int32_max, int64_max, uint8_max,
  uint16_max, uint32_max, uint64_max, float64_int_min, float64_int_max, check_int64_bounds,
  check_uint64_bounds,
}
use objconv.Parse.{Parser}
use objconv.Types.{ValueType}
use objconv.Value.{IntKind, UintKind, FloatKind}

abbrev pub int_width : IntKind → ℕ
int_width IntKind.int = 64
int_width IntKind.int8 = 8
int_width IntKind.int16 = 16
int_width IntKind.int32 = 32
int_width IntKind.int64 = 64

abbrev pub uint_width : UintKind → ℕ
uint_width UintKind.uint = 64
uint_width UintKind.uint8 = 8
uint_width UintKind.uint16 = 16
uint_width UintKind.uint32 = 32
uint_width UintKind.uint64 = 64
uint_width UintKind.uintptr = 64

-- SetInt and SetUint keep the low bits of the variable's width, and SetFloat narrows to a float32.
abbrev pub set_int : IntKind → ℤ → ℤ
set_int k i = of_word (int_width k) (to_word (int_width k) i)

abbrev pub set_uint : UintKind → ℕ → ℕ
set_uint k u = u % 2 ^ uint_width k

abbrev pub set_float : ⦃fl : Floats⦄ → FloatKind → ℕ → ℕ
set_float ⦃fl⦄ FloatKind.float32 f = fl.narrow f
set_float FloatKind.float64 f = f

-- What is stored in a valid destination.
abbrev pub stored : {K A : Type 0} → (K → A → A) → Option K → A → Option A
stored set none a = none
stored set (some k) a = some (set k a)

abbrev pub or_error : {P A : Type 0} → Option Error → A → M P A
or_error none a = pure a
or_error (some e) a = fail e

abbrev pub of_option : {P A : Type 0} → Option A → Error → M P A
of_option none e = fail e
of_option (some a) e = pure a

-- The checks of decodeIntFromType on an int64 and on a uint64, and of decodeUintFromType.
unfoldable pub check_int : Option IntKind → ℤ → Option Error
check_int none i = none
check_int (some IntKind.int) i = check_int64_bounds i int64_min int64_max
check_int (some IntKind.int8) i = check_int64_bounds i int8_min int8_max
check_int (some IntKind.int16) i = check_int64_bounds i int16_min int16_max
check_int (some IntKind.int32) i = check_int64_bounds i int32_min int32_max
check_int (some IntKind.int64) i = none

unfoldable pub check_int_of_uint : Option IntKind → ℕ → Option Error
check_int_of_uint none u = none
check_int_of_uint (some IntKind.int) u = check_uint64_bounds u int64_max
check_int_of_uint (some IntKind.int8) u = check_uint64_bounds u int8_max
check_int_of_uint (some IntKind.int16) u = check_uint64_bounds u int16_max
check_int_of_uint (some IntKind.int32) u = check_uint64_bounds u int32_max
check_int_of_uint (some IntKind.int64) u = check_uint64_bounds u int64_max

unfoldable pub check_uint_of_int : Option UintKind → ℤ → Option Error
check_uint_of_int none i = none
check_uint_of_int (some UintKind.uint) i = check_int64_bounds i (pos 0) uint64_max
check_uint_of_int (some UintKind.uint8) i = check_int64_bounds i (pos 0) uint8_max
check_uint_of_int (some UintKind.uint16) i = check_int64_bounds i (pos 0) uint16_max
check_uint_of_int (some UintKind.uint32) i = check_int64_bounds i (pos 0) uint32_max
check_uint_of_int (some UintKind.uint64) i = check_int64_bounds i (pos 0) uint64_max
check_uint_of_int (some UintKind.uintptr) i = none

unfoldable pub check_uint : Option UintKind → ℕ → Option Error
check_uint none u = none
check_uint (some UintKind.uint) u = check_uint64_bounds u uint64_max
check_uint (some UintKind.uint8) u = check_uint64_bounds u uint8_max
check_uint (some UintKind.uint16) u = check_uint64_bounds u uint16_max
check_uint (some UintKind.uint32) u = check_uint64_bounds u uint32_max
check_uint (some UintKind.uint64) u = none
check_uint (some UintKind.uintptr) u = none

module _ {P : Type 0} (ps : Parser P) where
  -- decodeXFromType behind ParseType
  abbrev pub typed : {A : Type 0} → (ValueType → M P A) → M P A
  typed from_type = ps.items.parse_type >>= from_type

  -- The result is stored where the destination is valid.
  unfoldable pub bool_of_type : ValueType → M P Bool
  bool_of_type ValueType.nil = ps.items.parse_nil >> pure false
  bool_of_type ValueType.bool = ps.parse_bool
  bool_of_type t = fail (type_conversion t ValueType.bool)

  module _ ⦃num : IntFormat⦄ where
    unfoldable pub int_of_type : Option IntKind → ValueType → M P (Option ℤ)
    unfolding check_int check_int_of_uint
    int_of_type to ValueType.nil = ps.items.parse_nil >> pure (stored set_int to (pos 0))
    int_of_type to ValueType.int = do
      i ← ps.parse_int
      or_error (check_int to i) (stored set_int to i)
    int_of_type to ValueType.uint = do
      u ← ps.parse_uint
      or_error (check_int_of_uint to u) (stored set_int to (of_word 64 u))
    int_of_type to ValueType.string = do
      b ← ps.items.parse_string
      i ← of_option (num.parse_int b) (invalid_number b)
      pure (stored set_int to i)
    int_of_type to ValueType.bytes = do
      b ← ps.items.parse_bytes
      i ← of_option (num.parse_int b) (invalid_number b)
      pure (stored set_int to i)
    int_of_type to t = fail (type_conversion t ValueType.int)

    unfoldable pub uint_of_type : Option UintKind → ValueType → M P (Option ℕ)
    unfolding check_uint_of_int check_uint
    uint_of_type to ValueType.nil = ps.items.parse_nil >> pure (stored set_uint to 0)
    uint_of_type to ValueType.int = do
      i ← ps.parse_int
      or_error (check_uint_of_int to i) (stored set_uint to (to_word 64 i))
    uint_of_type to ValueType.uint = do
      u ← ps.parse_uint
      or_error (check_uint to u) (stored set_uint to u)
    uint_of_type to ValueType.string = do
      b ← ps.items.parse_string
      u ← of_option (num.parse_uint b) (invalid_number b)
      pure (stored set_uint to u)
    uint_of_type to ValueType.bytes = do
      b ← ps.items.parse_bytes
      u ← of_option (num.parse_uint b) (invalid_number b)
      pure (stored set_uint to u)
    uint_of_type to t = fail (type_conversion t ValueType.uint)

  unfoldable pub float_of_type :
      ⦃fl : Floats⦄ ⦃ff : FloatFormat⦄ → Option FloatKind → ValueType → M P (Option ℕ)
  float_of_type to ValueType.nil = ps.items.parse_nil >> pure (stored set_float to 0)
  float_of_type ⦃fl⦄ to ValueType.int = do
    i ← ps.parse_int
    or_error (check_int64_bounds i float64_int_min float64_int_max)
        (stored set_float to (fl.of_int64 i))
  float_of_type ⦃fl⦄ to ValueType.uint = do
    u ← ps.parse_uint
    or_error (check_uint64_bounds u float64_int_max) (stored set_float to (fl.of_int64 (pos u)))
  float_of_type to ValueType.float = do f ← ps.parse_float; pure (stored set_float to f)
  float_of_type ⦃fl⦄ ⦃ff⦄ to ValueType.string = do
    b ← ps.items.parse_string
    f ← of_option (ff.parse b) (invalid_number b)
    pure (stored set_float to f)
  float_of_type ⦃fl⦄ ⦃ff⦄ to ValueType.bytes = do
    b ← ps.items.parse_bytes
    f ← of_option (ff.parse b) (invalid_number b)
    pure (stored set_float to f)
  float_of_type to t = fail (type_conversion t ValueType.float)
