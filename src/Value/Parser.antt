-- ===== src/Value/Parser.antt =====
-- ValueParser of value.go: the parser that walks a value in memory. Structs are left out, so a map
-- is what ParseMapBegin finds.
pub mod Walk
pub mod Laws
pub mod Shows
use objconv.Prelude.{
  ℕ, zero, suc, ◌+◌, ◌-◌, ◌==◌, List, [], ◌∷◌, ◌++◌, length, take, get_elem?, leb, Bool, true,
  false, Option, none, some, if◌then◌else◌,
}
use objconv.Prelude.Int.{ℤ, pos}
use objconv.Go.Float.{Floats}
use objconv.Go.Outcome.{
  Outcome, ok, err, panic, unsupported_type, M, ◌>>=◌, ◌>>◌, pure, fail, crash, after,
}
use objconv.Go.Strconv.{equal}
use objconv.Go.Time.{Time}
use objconv.Decode.{ItemParser}
use objconv.Encode.Values.{length_values, length_fields, length_entries}
use objconv.Parse.{Parser}
use objconv.Types.{ValueType}
use objconv.Value.{
  IntKind, UintKind, FloatKind, Scalar, Value, nil, scalar, nil_pointer, pointer, slice_string,
  slice_any, map_string_string, map_string_any, map_any, Values, no_value, value, Fields, no_field,
  field, Entries, no_entry, entry, text,
}
use objconv.Value.Emitter.{Keys}

-- valueParserContext: the array or map that is walked, and the keys of a map.
pub record Context : Type 0 where
  pub held : Value
  pub keys : List Value

pub record ValueParser : Type 0 where
  pub stack : List Value
  pub ctx : List Context

abbrev pub new_value_parser : Value → ValueParser
new_value_parser v = record { stack = v ∷ []; ctx = [] }

-- String of a reflected value that is no string: a parameter.
pub record Reflection : Type 0 where
  pub describe : Value → List ℕ

-- The pointers are followed as far as they are not nil. An error behind a pointer is left out: the
-- code follows the error's own pointer, too.
abbrev pub dereference : Value → Value
dereference (pointer v) = dereference v
dereference v = v

-- Where there is a last element: the rest and the element.
abbrev pub top : {A : Type 0} → List A → Option A
top [] = none
top (x ∷ xs) = get_elem? (x ∷ xs) (length xs)

abbrev pub of_top : {A : Type 0} → Option Value → (Value → M ValueParser A) → M ValueParser A
of_top none f = crash
of_top (some v) f = f (dereference v)

-- p.value(), of which an empty stack is a panic.
abbrev pub with_value : {A : Type 0} → (Value → M ValueParser A) → M ValueParser A
with_value f p = of_top (top p.stack) f p

unfoldable pub push : Value → M ValueParser (Unit {0})
push v p = (ok tt, record p { stack = p.stack ++ (v ∷ []) })

unfoldable pub pop : M ValueParser (Unit {0})
pop p =
    if length p.stack == 0
    then (panic, p)
    else (ok tt, record p { stack = take (length p.stack - 1) p.stack })

unfoldable pub push_context : Context → M ValueParser (Unit {0})
push_context c p = (ok tt, record p { ctx = p.ctx ++ (c ∷ []) })

unfoldable pub pop_context : M ValueParser (Unit {0})
pop_context p =
    if length p.ctx == 0
    then (panic, p)
    else (ok tt, record p { ctx = take (length p.ctx - 1) p.ctx })

abbrev pub or_crash : {A : Type 0} → Option A → M ValueParser A
or_crash none = crash
or_crash (some a) = pure a

unfoldable pub context : M ValueParser Context
context p = or_crash (top p.ctx) p

unfoldable pub type_of_value : Value → M ValueParser ValueType
type_of_value nil = pure ValueType.nil
type_of_value (scalar (Scalar.time t)) = pure ValueType.time
type_of_value (scalar (Scalar.duration d)) = pure ValueType.duration
type_of_value (scalar (Scalar.error e)) = pure ValueType.error
type_of_value (scalar (Scalar.bool b)) = pure ValueType.bool
type_of_value (scalar (Scalar.int k i)) = pure ValueType.int
type_of_value (scalar (Scalar.uint k u)) = pure ValueType.uint
type_of_value (scalar (Scalar.float k f)) = pure ValueType.float
type_of_value (scalar (Scalar.string s)) = pure ValueType.string
type_of_value (scalar (Scalar.bytes b)) = pure ValueType.bytes
type_of_value (slice_string ss) = pure ValueType.array
type_of_value (slice_any vs) = pure ValueType.array
type_of_value (map_string_string m) = pure ValueType.map
type_of_value (map_string_any m) = pure ValueType.map
type_of_value (map_any m) = pure ValueType.map
type_of_value v = fail unsupported_type

unfoldable pub parse_type : M ValueParser ValueType
unfolding type_of_value
parse_type = with_value type_of_value

-- Bool, Int, Uint, Float and Bytes of a reflected value panic where it is of another kind, and so do
-- the conversions of an interface value to a time, a duration or an error.
unfoldable pub bool_of : Value → M ValueParser Bool
bool_of (scalar (Scalar.bool b)) = pure b
bool_of v = crash

unfoldable pub int_of : Value → M ValueParser ℤ
int_of (scalar (Scalar.int k i)) = pure i
int_of (scalar (Scalar.duration d)) = pure d
int_of v = crash

unfoldable pub uint_of : Value → M ValueParser ℕ
uint_of (scalar (Scalar.uint k u)) = pure u
uint_of v = crash

unfoldable pub float_of : ⦃fl : Floats⦄ → Value → M ValueParser ℕ
float_of ⦃fl⦄ (scalar (Scalar.float FloatKind.float32 f)) = pure (fl.widen f)
float_of (scalar (Scalar.float FloatKind.float64 f)) = pure f
float_of v = crash

unfoldable pub string_of : ⦃re : Reflection⦄ → Value → M ValueParser (List ℕ)
string_of (scalar (Scalar.string s)) = pure s
string_of ⦃re⦄ v = pure (re.describe v)

unfoldable pub bytes_of : Value → M ValueParser (List ℕ)
bytes_of (scalar (Scalar.bytes b)) = pure b
bytes_of v = crash

unfoldable pub time_of : Value → M ValueParser Time
time_of (scalar (Scalar.time t)) = pure t
time_of v = crash

unfoldable pub duration_of : Value → M ValueParser ℤ
duration_of (scalar (Scalar.duration d)) = pure d
duration_of v = crash

unfoldable pub error_of : Value → M ValueParser (List ℕ)
error_of (scalar (Scalar.error e)) = pure e
error_of v = crash

-- Len and Index of a reflected value, where `none` is a panic.
unfoldable pub length_of : Value → Option ℕ
length_of (scalar (Scalar.string s)) = some (length s)
length_of (scalar (Scalar.bytes b)) = some (length b)
length_of (slice_string ss) = some (length ss)
length_of (slice_any vs) = some (length_values vs)
length_of (map_string_string m) = some (length m)
length_of (map_string_any m) = some (length_fields m)
length_of (map_any m) = some (length_entries m)
length_of v = none

abbrev pub byte_at : Option ℕ → Option Value
byte_at none = none
byte_at (some b) = some (scalar (Scalar.uint UintKind.uint8 b))

abbrev pub text_at : Option (List ℕ) → Option Value
text_at none = none
text_at (some s) = some (text s)

abbrev pub value_at : Values → ℕ → Option Value
value_at no_value n = none
value_at (value v vs) zero = some v
value_at (value v vs) (suc n) = value_at vs n

unfoldable pub index_of : Value → ℕ → Option Value
index_of (scalar (Scalar.string s)) n = byte_at (get_elem? s n)
index_of (scalar (Scalar.bytes b)) n = byte_at (get_elem? b n)
index_of (slice_string ss) n = text_at (get_elem? ss n)
index_of (slice_any vs) n = value_at vs n
index_of v n = none

unfoldable pub parse_array_begin : M ValueParser ℤ
unfolding length_of index_of push push_context
parse_array_begin = with_value λ v. do
  n ← or_crash (length_of v)
  push_context (record { held = v; keys = [] })
  if n == 0 then pure tt else (or_crash (index_of v 0) >>= push)
  pure (pos n)

-- if n != 0 { p.pop() }; p.popContext()
unfoldable pub parse_end : ℕ → M ValueParser (Unit {0})
unfolding pop pop_context
parse_end n = do if n == 0 then pure tt else pop; pop_context

unfoldable pub parse_array_next : ℕ → M ValueParser (Unit {0})
unfolding context pop push index_of
parse_array_next n = do c ← context; pop; or_crash (index_of c.held n) >>= push

abbrev pub texts_keys : List (List ℕ × List ℕ) → List Value
texts_keys [] = []
texts_keys ((k, v) ∷ m) = text k ∷ texts_keys m

abbrev pub fields_keys : Fields → List Value
fields_keys no_field = []
fields_keys (field k v m) = text k ∷ fields_keys m

abbrev pub entries_keys : Entries → List Value
entries_keys no_entry = []
entries_keys (entry k v m) = k ∷ entries_keys m

-- MapKeys, where `none` stands for a value that is no map.
unfoldable pub keys_of : Value → Option (List Value)
keys_of (map_string_string m) = some (texts_keys m)
keys_of (map_string_any m) = some (fields_keys m)
keys_of (map_any m) = some (entries_keys m)
keys_of v = none

unfoldable pub texts_index : List ℕ → List (List ℕ × List ℕ) → Value
texts_index k [] = nil
texts_index k ((j, v) ∷ m) = let rest = texts_index k m in if equal j k then text v else rest

unfoldable pub fields_index : List ℕ → Fields → Value
fields_index k no_field = nil
fields_index k (field j v m) = let rest = fields_index k m in if equal j k then v else rest

module _ ⦃keys : Keys⦄ where
  unfoldable pub entries_index : Value → Entries → Value
  entries_index k no_entry = nil
  entries_index k (entry j v m) = let rest = entries_index k m in if keys.same j k then v else rest

  -- MapIndex of a map: a key that it does not hold gives the invalid value, as nil does. A key of
  -- another type and a value that is no map are panics.
  unfoldable pub map_index : Value → Value → Option Value
  unfolding texts_index fields_index entries_index
  map_index (map_string_string m) (scalar (Scalar.string k)) = some (texts_index k m)
  map_index (map_string_any m) (scalar (Scalar.string k)) = some (fields_index k m)
  map_index (map_any m) k = some (entries_index k m)
  map_index v k = none

  abbrev pub begin_map : Value → Option (List Value) → M ValueParser ℤ
  begin_map v none = crash
  begin_map v (some []) = push_context (record { held = v; keys = [] }) >> pure (pos 0)
  begin_map v (some (k ∷ ks)) =
      push_context (record { held = v; keys = k ∷ ks }) >> push k >> pure (pos (suc (length ks)))

  unfoldable pub parse_map_begin : M ValueParser ℤ
  unfolding keys_of push push_context
  parse_map_begin = with_value (λ v. begin_map v (keys_of v))

  unfoldable pub parse_map_value : ℕ → M ValueParser (Unit {0})
  unfolding context pop push map_index
  parse_map_value n = do
    c ← context
    pop
    k ← or_crash (get_elem? c.keys n)
    or_crash (map_index c.held k) >>= push

unfoldable pub parse_map_next : ℕ → M ValueParser (Unit {0})
unfolding context pop push
parse_map_next n = do c ← context; pop; or_crash (get_elem? c.keys n) >>= push

module _ ⦃keys : Keys⦄ ⦃fl : Floats⦄ ⦃re : Reflection⦄ where
  abbrev pub value_parser : Parser ValueParser
  value_parser = record {
    items = record {
      parse_type = parse_type;
      parse_nil = pure tt;
      parse_string = with_value string_of;
      parse_bytes = with_value bytes_of;
      parse_array_begin = parse_array_begin;
      parse_array_end = parse_end;
      parse_array_next = parse_array_next;
      parse_map_begin = parse_map_begin;
      parse_map_end = parse_end;
      parse_map_value = parse_map_value;
      parse_map_next = parse_map_next;
    };
    parse_bool = with_value bool_of;
    parse_int = with_value int_of;
    parse_uint = with_value uint_of;
    parse_float = with_value float_of;
    parse_time = with_value time_of;
    parse_duration = with_value duration_of;
    parse_error = with_value error_of;
    decode_bytes = none;
  }
