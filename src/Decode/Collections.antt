-- ===== src/Decode/Collections.antt =====
-- The decoders of slices, of arrays and of maps with string keys of decode.go, over any parser. A
-- closure changes the variables around it, which are a state beside the parser here.
pub mod Laws
pub mod Arrays
use objconv.Prelude.{
  ℕ, zero, suc, ◌+◌, ◌-◌, ◌*◌, ◌==◌, ◌++◌, List, [], ◌∷◌, length, take, set, replicate, ltb, Bool,
  true, false, Option, none, some, if◌then◌else◌,
}
use objconv.Prelude.Int.{ℤ}
use objconv.Go.Outcome.{
  Outcome, ok, err, panic, stuck, array_length_mismatch, M, after, ◌>>=◌, ◌>>◌, pure, fail,
}
use objconv.Go.Strconv.{equal}
use objconv.Decode.{
  ItemParser, Decoder, begin_value, array_of_type, map_of_type, decode_type_and_string,
}
use objconv.Types.{ValueType}

-- A call beside a variable that a closure fills.
abbrev pub lifted : {P X A : Type 0} → M P A → M (P × X) A
lifted m (p, x) = let (r, q) = m p in (r, (q, x))

-- The parser beside such a variable.
abbrev pub beside : {P : Type 0} (X : Type 0) → ItemParser P → ItemParser (P × X)
beside X vp = record {
  parse_type = lifted vp.parse_type;
  parse_nil = lifted vp.parse_nil;
  parse_string = lifted vp.parse_string;
  parse_bytes = lifted vp.parse_bytes;
  parse_array_begin = lifted vp.parse_array_begin;
  parse_array_end = λ n. lifted (vp.parse_array_end n);
  parse_array_next = λ n. lifted (vp.parse_array_next n);
  parse_map_begin = lifted vp.parse_map_begin;
  parse_map_end = λ n. lifted (vp.parse_map_end n);
  parse_map_value = λ n. lifted (vp.parse_map_value n);
  parse_map_next = λ n. lifted (vp.parse_map_next n);
}

-- What the variable holds behind a call.
abbrev pub filled_of : {P X : Type 0} → Outcome (Unit {0}) × (P × X) → Outcome X × P
filled_of (ok u, (p, x)) = (ok x, p)
filled_of (err e, (p, x)) = (err e, p)
filled_of (panic, (p, x)) = (panic, p)
filled_of (stuck, (p, x)) = (stuck, p)

abbrev pub filled : {P X : Type 0} → X → M (P × X) (Unit {0}) → M P X
filled x m p = filled_of (m (p, x))

-- The variables s and i of decodeSliceFromTypeWith and decodeArrayFromTypeWith: the slice, of which
-- the first i elements are decoded.
pub record Elements (A : Type 0) : Type 0 where
  pub s : List A
  pub i : ℕ

-- The slice with the element that a call has decoded.
abbrev pub element_result :
    {P A : Type 0} → Elements A → Outcome A × P → Outcome (Unit {0}) × (P × Elements A)
element_result x (ok v, p) = (ok tt, (p, record { s = set x.s x.i v; i = x.i + 1 }))
element_result x (err e, p) = (err e, (p, x))
element_result x (panic, p) = (panic, (p, x))
element_result x (stuck, p) = (stuck, (p, x))

-- if n *= 5; n == 0 { n = 10 }
unfoldable pub next_size : ℕ → ℕ
next_size n = if n * 5 == 0 then 10 else n * 5

module _ {A : Type 0} (z : A) where
  -- A slice that is full is copied to a larger one of zero values.
  unfoldable pub grown : Elements A → Elements A
  unfolding next_size
  grown x =
      if x.i == length x.s
      then record x { s = x.s ++ replicate (next_size (length x.s) - length x.s) z }
      else x

  module _ {P : Type 0} (vp : ItemParser P) where
    -- The closure of decodeSliceFromTypeWith.
    unfoldable pub append_item : M P A → M (P × Elements A) (Unit {0})
    unfolding grown
    append_item f (p, x) = element_result (grown x) (f p)

    -- s.Slice(0, i)
    abbrev pub trimmed : Elements A → List A
    trimmed x = if x.i == length x.s then x.s else take x.i x.s

    -- The nil slice of a nil value is the empty one here.
    unfoldable pub decode_slice : ℕ → M P A → ValueType → M P (List A)
    unfolding append_item
    decode_slice rounds f t = do
      x ←
          filled (record { s = []; i = 0 })
            (array_of_type (beside (Elements A) vp) rounds (λ i. append_item f) t)
      pure (trimmed x)

    -- The closure of decodeArrayFromTypeWith: behind the end of the array an element is not parsed.
    unfoldable pub set_item : ℕ → M P A → M (P × Elements A) (Unit {0})
    set_item n f (p, x) =
        if ltb x.i n then element_result x (f p) else (ok tt, (p, record x { i = x.i + 1 }))

    abbrev pub full_array : ℕ → Elements A → M P (List A)
    full_array n x = if x.i == n then pure x.s else fail (array_length_mismatch n x.i)

    abbrev pub array_result : ℕ → ValueType → Elements A → M P (List A)
    array_result n ValueType.nil x = pure (replicate n z)
    array_result n t x = full_array n x

    -- An array of n elements, which are zero values before.
    unfoldable pub decode_fixed_array : ℕ → ℕ → M P A → ValueType → M P (List A)
    unfolding set_item
    decode_fixed_array n rounds f t = do
      x ←
          filled (record { s = replicate n z; i = 0 })
            (array_of_type (beside (Elements A) vp) rounds (λ i. set_item n f) t)
      array_result n t x

-- m[k] = v of a map with string keys.
module _ {V : Type 0} where
  unfoldable pub assign_text : List ℕ → V → List (List ℕ × V) → List (List ℕ × V)
  assign_text k v [] = (k, v) ∷ []
  assign_text k v ((j, w) ∷ m) =
      let rest = assign_text k v m in if equal j k then (j, v) ∷ m else (j, w) ∷ rest

  unfoldable pub store_text : {P : Type 0} → List ℕ → V → M (P × List (List ℕ × V)) (Unit {0})
  unfolding assign_text
  store_text k v (p, m) = (ok tt, (p, assign_text k v m))

module _ {P : Type 0} (vp : ItemParser P) where
  abbrev second : ValueType × List ℕ → List ℕ
  second (t, b) = b

  -- The closure of decodeMapStringInterface, where `f` is decodeInterface.
  unfoldable pub store_interface :
      {V : Type 0} → M P V → Decoder → Decoder → M (P × List (List ℕ × V)) (Unit {0})
  unfolding decode_type_and_string begin_value store_text
  store_interface f kd vd = do
    b ← lifted (decode_type_and_string vp)
    v ← lifted (begin_value vp vd >> f)
    store_text (second b) v

  unfoldable pub decode_map_string_interface :
      {V : Type 0} → ℕ → M P V → ValueType → M P (List (List ℕ × V))
  unfolding store_interface
  decode_map_string_interface {V} rounds f t =
      filled [] (map_of_type (beside (List (List ℕ × V)) vp) rounds (store_interface f) t)

  -- The closure of decodeMapStringString.
  unfoldable pub store_string : Decoder → Decoder → M (P × List (List ℕ × List ℕ)) (Unit {0})
  unfolding decode_type_and_string store_text
  store_string kd vd = do
    k ← lifted (decode_type_and_string vp)
    lifted (vp.parse_map_value (vd.off - 1))
    v ← lifted (decode_type_and_string vp)
    store_text (second k) (second v)

  unfoldable pub decode_map_string_string : ℕ → ValueType → M P (List (List ℕ × List ℕ))
  unfolding store_string
  decode_map_string_string rounds t =
      filled [] (map_of_type (beside (List (List ℕ × List ℕ)) vp) rounds store_string t)
