-- ===== src/Prelude/Bytes.antt =====
-- Big-endian numbers (encoding/binary), and predicates on bytes.
use objconv.Prelude.Lists.{get_or}
use Prim.Native.Nat.{ℕ, ◌+◌, ◌*◌, ◌/◌, ◌%◌, ◌^◌, ◌<◌}
use mathlib.Core.Path.{◌≡◌}
use mathlib.Core.List.{List, [], ◌∷◌, ◌++◌}
use native.Mathlib.Omega.{arith}

abbrev pub byte_at : List ℕ → ℕ → ℕ
byte_at b k = get_or b k 0

abbrev pub put_uint16 : ℕ → List ℕ
put_uint16 v = (v / 2 ^ 8 % 256) ∷ (v % 256) ∷ []

abbrev pub put_uint32 : ℕ → List ℕ
put_uint32 v = (v / 2 ^ 24 % 256) ∷ (v / 2 ^ 16 % 256) ∷ (v / 2 ^ 8 % 256) ∷ (v % 256) ∷ []

abbrev pub put_uint64 : ℕ → List ℕ
put_uint64 v = put_uint32 (v / 2 ^ 32) ++ put_uint32 v

abbrev pub get_uint16 : List ℕ → ℕ
get_uint16 b = byte_at b 0 * 2 ^ 8 + byte_at b 1

abbrev pub get_uint32 : List ℕ → ℕ
get_uint32 b = byte_at b 0 * 2 ^ 24 + byte_at b 1 * 2 ^ 16 + byte_at b 2 * 2 ^ 8 + byte_at b 3

abbrev pub get_uint64 : List ℕ → ℕ
get_uint64 b =
    byte_at b 0 * 2 ^ 56
    + byte_at b 1 * 2 ^ 48
    + byte_at b 2 * 2 ^ 40
    + byte_at b 3 * 2 ^ 32
    + byte_at b 4 * 2 ^ 24
    + byte_at b 5 * 2 ^ 16
    + byte_at b 6 * 2 ^ 8
    + byte_at b 7

pub get_uint16-put_uint16 : (v : ℕ) → v < 2 ^ 16 → get_uint16 (put_uint16 v) ≡ v
get_uint16-put_uint16 v h = omega arith

pub get_uint32-put_uint32 : (v : ℕ) → v < 2 ^ 32 → get_uint32 (put_uint32 v) ≡ v
get_uint32-put_uint32 v h = omega arith

pub get_uint64-put_uint64 : (v : ℕ) → v < 2 ^ 64 → get_uint64 (put_uint64 v) ≡ v
get_uint64-put_uint64 v h = omega arith
