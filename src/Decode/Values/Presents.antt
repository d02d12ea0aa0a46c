-- ===== src/Decode/Values/Presents.antt =====
-- What it says that a parser presents a value: the calls that the decoder of decode.go makes, in its
-- order, answer with the parts of the value.
use objconv.Prelude.{ℕ, suc, ◌+◌, ◌^◌, ◌<◌, ◌≡◌}
use objconv.Prelude.Int.{pos, IsInt}
use objconv.Go.Outcome.{ok, ◌>>=◌}
use objconv.Decode.Collections.Laws.{Separates}
use objconv.Decode.Texts.{transformed}
use objconv.Encode.Values.{length_values, length_entries}
use objconv.Parse.{Parser}
use objconv.Types.{ValueType}
use objconv.Value.{
  IntKind, UintKind, FloatKind, Scalar, Value, nil, scalar, slice_any, map_any, Values, no_value,
  value, Entries, no_entry, entry,
}

-- The values, slices and maps that a value is made of.
unfoldable mutual
  pub size : Value → ℕ
  size (slice_any vs) = suc (size_values vs)
  size (map_any m) = suc (size_entries m)
  size v = 1

  pub size_values : Values → ℕ
  size_values no_value = 0
  size_values (value v vs) = suc (size v + size_values vs)

  pub size_entries : Entries → ℕ
  size_entries no_entry = 0
  size_entries (entry k v m) = suc (size k + size v + size_entries m)

abbrev pub announced : Scalar → ValueType
announced (Scalar.bool b) = ValueType.bool
announced (Scalar.int k i) = ValueType.int
announced (Scalar.uint k u) = ValueType.uint
announced (Scalar.float k f) = ValueType.float
announced (Scalar.string s) = ValueType.string
announced (Scalar.bytes b) = ValueType.bytes
announced (Scalar.time t) = ValueType.time
announced (Scalar.duration d) = ValueType.duration
announced (Scalar.error e) = ValueType.error

module _ {P : Type 0} (ps : Parser P) where
  -- Behind its type a scalar is read from the state `p` to the state `q`. The only integers and
  -- floats are those of 64 bits, as a parser gives no others.
  abbrev pub Reads : Scalar → P → P → Type 0
  Reads (Scalar.bool b) p q = ps.parse_bool p ≡ (ok b, q)
  Reads (Scalar.int IntKind.int64 i) p q = IsInt 64 i × (ps.parse_int p ≡ (ok i, q))
  Reads (Scalar.int k i) p q = ⊥
  Reads (Scalar.uint UintKind.uint64 u) p q = (u < 2 ^ 64) × (ps.parse_uint p ≡ (ok u, q))
  Reads (Scalar.uint k u) p q = ⊥
  Reads (Scalar.float FloatKind.float64 f) p q = ps.parse_float p ≡ (ok f, q)
  Reads (Scalar.float FloatKind.float32 f) p q = ⊥
  Reads (Scalar.string s) p q = ps.items.parse_string p ≡ (ok s, q)
  Reads (Scalar.bytes b) p q = (ps.items.parse_bytes >>= transformed ps) p ≡ (ok b, q)
  Reads (Scalar.time t) p q = ps.parse_time p ≡ (ok t, q)
  Reads (Scalar.duration d) p q = ps.parse_duration p ≡ (ok d, q)
  Reads (Scalar.error e) p q = ps.parse_error p ≡ (ok e, q)

  -- The parser presents the value from the state `p` to the state `q`: an array or a map with its
  -- length.
  unfoldable mutual
    pub Presents : Value → P → P → Type 0
    Presents nil p q =
        (t : P) × (ps.items.parse_type p ≡ (ok ValueType.nil, t))
        × (ps.items.parse_nil t ≡ (ok tt, q))
    Presents (scalar s) p q =
        (t : P) × (ps.items.parse_type p ≡ (ok (announced s), t)) × Reads s t q
    Presents (slice_any vs) p q =
        (t : P) × (u : P) × (w : P) × (ps.items.parse_type p ≡ (ok ValueType.array, t))
        × (ps.items.parse_array_begin t ≡ (ok (pos (length_values vs)), u))
        × PresentsItems 0 vs u w
        × (ps.items.parse_array_end (length_values vs) w ≡ (ok tt, q))
    Presents (map_any m) p q =
        (t : P) × (u : P) × (w : P) × (ps.items.parse_type p ≡ (ok ValueType.map, t))
        × (ps.items.parse_map_begin t ≡ (ok (pos (length_entries m)), u))
        × PresentsPairs 0 m u w
        × (ps.items.parse_map_end (length_entries m) w ≡ (ok tt, q))
    Presents v p q = ⊥

    pub PresentsItems : ℕ → Values → P → P → Type 0
    PresentsItems i no_value p q = p ≡ q
    PresentsItems i (value v vs) p q =
        (t : P) × (u : P) × Separates ps.items.parse_array_next i p t
        × Presents v t u
        × PresentsItems (suc i) vs u q

    pub PresentsPairs : ℕ → Entries → P → P → Type 0
    PresentsPairs i no_entry p q = p ≡ q
    PresentsPairs i (entry k v m) p q =
        (t : P) × (u : P) × (x : P) × (y : P) × Separates ps.items.parse_map_next i p t
        × Presents k t u
        × (ps.items.parse_map_value i u ≡ (ok tt, x))
        × Presents v x y
        × PresentsPairs (suc i) m y q
