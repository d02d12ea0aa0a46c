-- ===== src/Go/Strconv.antt =====
-- Packages strconv and strings, as far as they are used.
use objconv.Prelude.{
  ℕ, zero, suc, ◌+◌, ◌/◌, ◌%◌, ◌==◌, List, [], ◌∷◌, Option, none, some, Bool, if◌then◌else◌,
}
use objconv.Prelude.Int.{ℤ, pos, negsuc}

-- The decimal digits of `v`, in front of `tail`. Each round divides by ten, so `v` rounds are enough.
unfoldable pub digits_loop : ℕ → ℕ → List ℕ → List ℕ
digits_loop zero v tail = tail
digits_loop (suc fuel) v tail =
    let rest = digits_loop fuel (v / 10) ((v % 10 + b'0') ∷ tail) in if v == 0 then tail else rest

-- AppendUint(nil, v, 10)
unfoldable pub append_uint : ℕ → List ℕ
unfolding digits_loop
append_uint v = if v == 0 then b'0' ∷ [] else digits_loop v v []

-- AppendInt(nil, v, 10)
unfoldable pub append_int : ℤ → List ℕ
unfolding append_uint
append_int (pos n) = append_uint n
append_int (negsuc n) = b'-' ∷ append_uint (n + 1)

-- AppendFloat with the format 'g' and no precision, and ParseFloat of 64 bits, on bit patterns.
pub record FloatFormat : Type 0 where
  pub format : ℕ → ℕ → List ℕ
  pub parse : List ℕ → Option ℕ

-- IndexByte(s, c), where `none` is -1.
unfoldable pub index_byte : ℕ → List ℕ → Option ℕ
index_byte c [] = none
index_byte c (b ∷ s) =
    let rest = index_byte c s in
    if b == c then some 0 else elim rest [ none ↦ none | some i ↦ some (i + 1) ]

-- bytes.Equal, and == of strings
unfoldable pub equal : List ℕ → List ℕ → Bool
equal [] [] = Bool.true
equal [] (y ∷ ys) = Bool.false
equal (x ∷ xs) [] = Bool.false
equal (x ∷ xs) (y ∷ ys) = let rest = equal xs ys in if x == y then rest else Bool.false

-- ParseInt and ParseUint in base 10 for 64 bits, where `none` is an error.
pub record IntFormat : Type 0 where
  pub parse_int : List ℕ → Option ℤ
  pub parse_uint : List ℕ → Option ℕ
