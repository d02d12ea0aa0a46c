-- ===== src/Decode.antt =====
-- The array and map algorithms of the decoder: DecodeArray and DecodeMap of decode.go, over any
-- parser. The callback is a function of its own, a change of the parser's state here.
pub mod Stream
pub mod Scalars
pub mod Collections
pub mod Texts
pub mod Values
use objconv.Prelude.{ℕ, zero, suc, ◌+◌, ◌-◌, ◌==◌, List, [], ltb, Bool, not, ◌&&◌, if◌then◌else◌}
use objconv.Prelude.Int.{ℤ, pos, negsuc}
use objconv.Go.Outcome.{
  Error, Outcome, ok, err, panic, stuck, end, type_conversion, M, after, ◌>>=◌, ◌>>◌, pure, fail,
}
use objconv.Types.{ValueType}

-- The methods of a parser that the algorithms call.
pub record ItemParser (P : Type 0) : Type 0 where
  pub parse_type : M P ValueType
  pub parse_nil : M P (Unit {0})
  pub parse_string : M P (List ℕ)
  pub parse_bytes : M P (List ℕ)
  pub parse_array_begin : M P ℤ
  pub parse_array_end : ℕ → M P (Unit {0})
  pub parse_array_next : ℕ → M P (Unit {0})
  pub parse_map_begin : M P ℤ
  pub parse_map_end : ℕ → M P (Unit {0})
  pub parse_map_value : ℕ → M P (Unit {0})
  pub parse_map_next : ℕ → M P (Unit {0})

-- A decoder is passed by value; its parser is the state. Where `off` is not 0 the next thing decoded
-- is the value behind the key number off - 1 of a map.
pub record Decoder : Type 0 where
  pub off : ℕ

-- n < 0 || i < n
abbrev pub goes_on : ℤ → ℕ → Bool
goes_on (pos n) i = ltb i n
goes_on (negsuc k) i = Bool.true

-- n < 0 || i != 0
abbrev pub asks_next : ℤ → ℕ → Bool
asks_next (pos n) i = not (i == 0)
asks_next (negsuc k) i = Bool.true

-- An error ends the loop: End as the end of the array or map, which is left by `leave`.
abbrev pub unless_end :
    {P : Type 0} → M P (Unit {0}) → M P (Unit {0}) → Outcome (Unit {0}) × P → Outcome (Unit {0}) × P
unless_end leave rest (ok u, p) = rest p
unless_end leave rest (err end, p) = leave p
unless_end leave rest (err e, p) = (err e, p)
unless_end leave rest (panic, p) = (panic, p)
unless_end leave rest (stuck, p) = (stuck, p)

module _ {P : Type 0} (vp : ItemParser P) where
  -- if d.off != 0 { d.off = 0; ParseMapValue(d.off - 1) }
  unfoldable pub begin_value : Decoder → M P (Unit {0})
  begin_value d p = if d.off == 0 then (ok tt, p) else vp.parse_map_value (d.off - 1) p

  -- decodeTypeAndString
  abbrev pub string_of_type : ValueType → M P (List ℕ)
  string_of_type ValueType.nil p = after (vp.parse_nil p) (λ _. pure [])
  string_of_type ValueType.string p = vp.parse_string p
  string_of_type ValueType.bytes p = vp.parse_bytes p
  string_of_type t p = (err (type_conversion t ValueType.string), p)

  unfoldable pub decode_type_and_string : M P (ValueType × List ℕ)
  decode_type_and_string = vp.parse_type >>= λ t. string_of_type t >>= λ b. pure (t, b)

  -- A loop at index `i` that calls `f` with the index, `next` in front of it and `leave` at the end.
  -- The rounds of a loop of unknown length are bounded by `fuel`.
  unfoldable pub decode_loop :
      (ℕ → M P (Unit {0}))
      → (ℕ → M P (Unit {0}))
      → (ℕ → M P (Unit {0}))
      → ℤ
      → ℕ
      → ℕ
      → M P (Unit {0})
  decode_loop next leave f n zero i p = if goes_on n i then (stuck, p) else leave i p
  decode_loop next leave f n (suc fuel) i p =
      let rest = decode_loop next leave f n fuel (i + 1) in
      let turn = λ (q : P). after (f i q) (λ _. rest) in
      if goes_on n i
      then (if asks_next n i then unless_end (leave i) turn (next i p) else turn p)
      else leave i p

  abbrev pub array_of_type : ℕ → (ℕ → M P (Unit {0})) → ValueType → M P (Unit {0})
  array_of_type fuel f ValueType.nil = vp.parse_nil
  array_of_type fuel f ValueType.array =
      vp.parse_array_begin >>= λ n. decode_loop vp.parse_array_next vp.parse_array_end f n fuel 0
  array_of_type fuel f t = fail (type_conversion t ValueType.array)

  -- The callback does not see the index.
  unfoldable pub decode_array : ℕ → Decoder → M P (Unit {0}) → M P (Unit {0})
  unfolding begin_value decode_loop
  decode_array fuel d f = begin_value d >> vp.parse_type >>= array_of_type fuel (λ i. f)

  -- The decoders of the key and of the value number `i`.
  abbrev pub pair_decoders : (Decoder → Decoder → M P (Unit {0})) → ℕ → M P (Unit {0})
  pair_decoders f i = f (record { off = 0 }) (record { off = i + 1 })

  abbrev pub map_of_type : ℕ → (Decoder → Decoder → M P (Unit {0})) → ValueType → M P (Unit {0})
  map_of_type fuel f ValueType.nil = vp.parse_nil
  map_of_type fuel f ValueType.map = vp.parse_map_begin >>= λ n.
      decode_loop vp.parse_map_next vp.parse_map_end (pair_decoders f) n fuel 0
  map_of_type fuel f t = fail (type_conversion t ValueType.map)

  unfoldable pub decode_map : ℕ → Decoder → (Decoder → Decoder → M P (Unit {0})) → M P (Unit {0})
  unfolding begin_value decode_loop
  decode_map fuel d f = begin_value d >> vp.parse_type >>= map_of_type fuel f
