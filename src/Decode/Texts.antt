-- ===== src/Decode/Texts.antt =====
-- The decoders of strings, bytes, times, durations and errors of decode.go. Where the destination is
-- not valid the value is parsed and dropped.
use objconv.Prelude.{ℕ, List, [], ◌∷◌, Bool, true, false, Option, none, some, if◌then◌else◌}
use objconv.Prelude.Int.{ℤ, pos}
use objconv.Go.Outcome.{
  invalid_time, invalid_duration, type_conversion, M, ◌>>=◌, ◌>>◌, pure, fail, crash,
}
use objconv.Go.Strconv.{append_int, append_uint, FloatFormat}
use objconv.Go.Time.{Time, TimeFormat, DurationFormat, zero_time}
use objconv.Objutil.Duration.{append_duration}
use objconv.Parse.{Parser}
use objconv.Types.{ValueType}
use objconv.Decode.Scalars.{of_option}

abbrev pub bool_text : Bool → List ℕ
bool_text true = b't' ∷ b'r' ∷ b'u' ∷ b'e' ∷ []
bool_text false = b'f' ∷ b'a' ∷ b'l' ∷ b's' ∷ b'e' ∷ []

abbrev pub if_valid : {A : Type 0} → Bool → A → Option A
if_valid true a = some a
if_valid false a = none

-- string(t) of a Type: the character whose number it is, of one byte here.
abbrev pub type_text : ValueType → List ℕ
type_text ValueType.string = 6 ∷ []
type_text ValueType.bytes = 7 ∷ []
type_text t = []

module _ {P : Type 0} (ps : Parser P) where
  -- The text that is stored where the destination is valid.
  unfoldable pub string_of_type : ⦃ff : FloatFormat⦄ ⦃tf : TimeFormat⦄ → ValueType → M P (List ℕ)
  string_of_type ValueType.nil = ps.items.parse_nil >> pure []
  string_of_type ValueType.string = ps.items.parse_string
  string_of_type ValueType.bytes = ps.items.parse_bytes
  string_of_type ValueType.bool = do v ← ps.parse_bool; pure (bool_text v)
  string_of_type ValueType.int = do v ← ps.parse_int; pure (append_int v)
  string_of_type ValueType.uint = do v ← ps.parse_uint; pure (append_uint v)
  string_of_type ⦃ff⦄ ValueType.float = do v ← ps.parse_float; pure (ff.format v 64)
  string_of_type ⦃ff⦄ ⦃tf⦄ ValueType.time = do v ← ps.parse_time; pure (tf.format v)
  string_of_type ValueType.duration = do v ← ps.parse_duration; pure (append_duration [] v)
  string_of_type ValueType.error = ps.parse_error
  string_of_type t = fail (type_conversion t ValueType.string)

  abbrev pub transformed : List ℕ → M P (List ℕ)
  transformed b = elim (ps.decode_bytes) [ none ↦ pure b | some f ↦ f b ]

  -- The transformation of a bytesDecoder comes behind each of the types. `none` is the nil slice.
  unfoldable pub bytes_of_type : ValueType → M P (Option (List ℕ))
  bytes_of_type ValueType.nil = ps.items.parse_nil >> transformed [] >>= λ b. pure none
  bytes_of_type ValueType.string = do b ← ps.items.parse_string; v ← transformed b; pure (some v)
  bytes_of_type ValueType.bytes = do b ← ps.items.parse_bytes; v ← transformed b; pure (some v)
  bytes_of_type t = fail (type_conversion t ValueType.string)

  -- Behind an error the code parses string(t) in place of the text, and keeps that answer's error.
  abbrev pub time_of_text : ⦃tf : TimeFormat⦄ → ValueType → List ℕ → M P (Option Time)
  time_of_text ⦃tf⦄ t s = elim (tf.parse s) [
    | some v ↦ pure (some v)
    | none ↦ elim (tf.parse (type_text t)) [
      | some v ↦ pure (some zero_time)
      | none ↦ fail (invalid_time s)
    ]
  ]

  -- There is no default case: any other type is no error, and its value is not parsed.
  unfoldable pub time_of_type : ⦃tf : TimeFormat⦄ → Bool → ValueType → M P (Option Time)
  time_of_type to ValueType.nil = ps.items.parse_nil >> pure (if_valid to zero_time)
  time_of_type to ValueType.string = do
    s ← ps.items.parse_string
    if to then time_of_text ValueType.string s else pure none
  time_of_type to ValueType.bytes = do
    s ← ps.items.parse_bytes
    if to then time_of_text ValueType.bytes s else pure none
  time_of_type to ValueType.time = do v ← ps.parse_time; pure (if_valid to v)
  time_of_type to t = pure (if_valid to zero_time)

  -- A text is parsed for a destination that is not valid, too.
  unfoldable pub duration_of_type : ⦃df : DurationFormat⦄ → Bool → ValueType → M P (Option ℤ)
  duration_of_type to ValueType.nil = ps.items.parse_nil >> pure (if_valid to (pos 0))
  duration_of_type ⦃df⦄ to ValueType.string = do
    s ← ps.items.parse_string
    v ← of_option (df.parse s) (invalid_duration s)
    pure (if_valid to v)
  duration_of_type ⦃df⦄ to ValueType.bytes = do
    s ← ps.items.parse_bytes
    v ← of_option (df.parse s) (invalid_duration s)
    pure (if_valid to v)
  duration_of_type to ValueType.duration = do v ← ps.parse_duration; pure (if_valid to v)
  duration_of_type to t = pure (if_valid to (pos 0))

  -- Set panics with the reflection of an error that is nil.
  abbrev pub no_error : Bool → M P (Option (List ℕ))
  no_error to = if to then crash else pure none

  unfoldable pub error_of_type : Bool → ValueType → M P (Option (List ℕ))
  error_of_type to ValueType.nil = ps.items.parse_nil >> no_error to
  error_of_type to ValueType.string = do s ← ps.items.parse_string; pure (if_valid to s)
  error_of_type to ValueType.bytes = do s ← ps.items.parse_bytes; pure (if_valid to s)
  error_of_type to ValueType.error = do v ← ps.parse_error; pure (if_valid to v)
  error_of_type to t = no_error to
