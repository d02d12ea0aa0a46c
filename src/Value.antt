-- ===== src/Value.antt =====
-- The values that Encode takes and the in-memory emitter and parser of value.go walk: Go's interface
-- values of the types that the type switch of Encode names, and of those that it leaves to package
-- reflect (uint, uintptr, floats, errors, pointers to pointers). Structs and named types are left out.
pub mod Emitter
pub mod Parser
pub mod RoundTrip
use objconv.Prelude.{ℕ, List, [], ◌∷◌, Bool}
use objconv.Prelude.Int.{ℤ}
use objconv.Go.Float.{Floats}
use objconv.Go.Time.{Time}

-- int, int8 to int64
pub data IntKind : Type 0 where
  int int8 int16 int32 int64 : IntKind

-- uint, uint8 to uint64, uintptr
pub data UintKind : Type 0 where
  uint uint8 uint16 uint32 uint64 uintptr : UintKind

pub data FloatKind : Type 0 where
  float32 float64 : FloatKind

-- A duration is its nanoseconds, a float its bit pattern, and an error its text.
pub data Scalar : Type 0 where
  bool : Bool → Scalar
  int : IntKind → ℤ → Scalar
  uint : UintKind → ℕ → Scalar
  float : FloatKind → ℕ → Scalar
  string : List ℕ → Scalar
  bytes : List ℕ → Scalar
  time : Time → Scalar
  duration : ℤ → Scalar
  error : List ℕ → Scalar

-- A map is the list of its entries, in the order in which `range` or MapKeys lists them.
mutual
  pub data Value : Type 0 where
    nil : Value
    scalar : Scalar → Value
    nil_pointer : Value
    pointer : Value → Value
    slice_string : List (List ℕ) → Value
    slice_any : Values → Value
    map_string_string : List (List ℕ × List ℕ) → Value
    map_string_any : Fields → Value
    map_any : Entries → Value

  pub data Values : Type 0 where
    no_value : Values
    value : Value → Values → Values

  pub data Fields : Type 0 where
    no_field : Fields
    field : List ℕ → Value → Fields → Fields

  pub data Entries : Type 0 where
    no_entry : Entries
    entry : Value → Value → Entries → Entries

abbrev pub text : List ℕ → Value
text s = scalar (Scalar.string s)

abbrev pub of_list : List Value → Values
of_list [] = no_value
of_list (v ∷ vs) = value v (of_list vs)

-- The value behind a value of a smaller type: what every emitter is given for it.
abbrev pub natural_scalar : ⦃fl : Floats⦄ → Scalar → Scalar
natural_scalar (Scalar.int k i) = Scalar.int IntKind.int64 i
natural_scalar (Scalar.uint k u) = Scalar.uint UintKind.uint64 u
natural_scalar ⦃fl⦄ (Scalar.float FloatKind.float32 f) = Scalar.float FloatKind.float64 (fl.widen f)
natural_scalar s = s

abbrev pub natural_strings : List (List ℕ) → List Value
natural_strings [] = []
natural_strings (s ∷ ss) = text s ∷ natural_strings ss

abbrev pub natural_texts : List (List ℕ × List ℕ) → Entries
natural_texts [] = no_entry
natural_texts ((k, v) ∷ m) = entry (text k) (text v) (natural_texts m)

-- The same data without pointers, in the widest types, []interface{} and
-- map[interface{}]interface{}.
unfoldable mutual
  pub natural : ⦃fl : Floats⦄ → Value → Value
  natural nil = nil
  natural (scalar s) = scalar (natural_scalar s)
  natural nil_pointer = nil
  natural (pointer v) = natural v
  natural (slice_string ss) = slice_any (of_list (natural_strings ss))
  natural (slice_any vs) = slice_any (natural_values vs)
  natural (map_string_string m) = map_any (natural_texts m)
  natural (map_string_any m) = map_any (natural_fields m)
  natural (map_any m) = map_any (natural_entries m)

  pub natural_values : ⦃fl : Floats⦄ → Values → Values
  natural_values no_value = no_value
  natural_values (value v vs) = value (natural v) (natural_values vs)

  pub natural_fields : ⦃fl : Floats⦄ → Fields → Entries
  natural_fields no_field = no_entry
  natural_fields (field k v m) = entry (text k) (natural v) (natural_fields m)

  pub natural_entries : ⦃fl : Floats⦄ → Entries → Entries
  natural_entries no_entry = no_entry
  natural_entries (entry k v m) = entry (natural k) (natural v) (natural_entries m)
