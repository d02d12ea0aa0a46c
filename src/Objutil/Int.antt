-- ===== src/Objutil/Int.antt =====
-- ParseInt and ParseUintHex of objutil/int.go. The texts of the errors are left out.
pub mod Reference
pub mod Laws
pub mod Documented
pub mod Print
use objconv.Prelude.{
  ℕ, ◌+◌, ◌-◌, ◌*◌, ◌/◌, ◌%◌, ◌^◌, List, [], ◌∷◌, leb, ltb, ◌==◌, Bool, ◌&&◌, if◌then◌else◌, Option,
  none, some,
}
use objconv.Prelude.Int.{ℤ, pos, negsuc, ltb_ℤ, add64, sub64, mul64}
use objconv.Go.Outcome.{
  Outcome, ok, err, invalid_int64, overflow_int64, invalid_uint64, overflow_uint64,
}
use objconv.Objutil.Limits.{int64_max, int64_min, uint64_max}

abbrev pub is_digit : ℕ → Bool
is_digit d = leb b'0' d && leb d b'9'

-- The limit Int64Min / 10, rounded towards zero.
abbrev pub int64_min_limit : ℤ
int64_min_limit = negsuc 922337203685477579

-- The loop behind a minus sign.
pub parse_negative : ℤ → List ℕ → Outcome ℤ
parse_negative val [] = ok val
parse_negative val (d ∷ b) =
    let x = pos (d - b'0') in
    let tenfold = mul64 val (pos 10) in
    let rest = parse_negative (sub64 tenfold x) b in
    if is_digit d
    then (if ltb_ℤ val int64_min_limit
        then err overflow_int64
        else if ltb_ℤ tenfold (add64 int64_min x)
        then err overflow_int64
        else rest)
    else err invalid_int64

-- The loop over a number without a sign.
pub parse_positive : ℤ → List ℕ → Outcome ℤ
parse_positive val [] = ok val
parse_positive val (d ∷ b) =
    let x = pos (d - b'0') in
    let tenfold = mul64 val (pos 10) in
    let rest = parse_positive (add64 tenfold x) b in
    if is_digit d
    then (if ltb_ℤ (pos (int64_max / 10)) val
        then err overflow_int64
        else if ltb_ℤ (sub64 (pos int64_max) x) tenfold
        then err overflow_int64
        else rest)
    else err invalid_int64

-- Behind the minus sign.
abbrev pub parse_signed : List ℕ → Outcome ℤ
parse_signed [] = err invalid_uint64
parse_signed (d ∷ b) = parse_negative (pos 0) (d ∷ b)

unfoldable pub parse_int : List ℕ → Outcome ℤ
unfolding parse_negative parse_positive
parse_int [] = err invalid_uint64
parse_int (d ∷ b) = if d == b'-' then parse_signed b else parse_positive (pos 0) (d ∷ b)

-- The switch on a hexadecimal digit; `none` is its default.
abbrev pub hex_digit : ℕ → Option ℕ
hex_digit d =
    if leb b'0' d && leb d b'9'
    then some (d - b'0')
    else if leb b'A' d && leb d b'F'
    then some (d - b'A' + 0xA)
    else if leb b'a' d && leb d b'f'
    then some (d - b'a' + 0xA)
    else none

pub parse_hex : ℕ → List ℕ → Outcome ℕ
parse_hex val [] = ok val
parse_hex val (d ∷ b) =
    let rest = λ (x : ℕ). parse_hex ((val * 0x10 % 2 ^ 64 + x) % 2 ^ 64) b in
    elim (hex_digit d) [
      | none ↦ err invalid_uint64
      | some x ↦
          if ltb (uint64_max / 0x10) val
          then err overflow_uint64
          else if ltb (uint64_max - x) (val * 0x10 % 2 ^ 64)
          then err overflow_uint64
          else rest x
    ]

unfoldable pub parse_uint_hex : List ℕ → Outcome ℕ
unfolding parse_hex
parse_uint_hex [] = err invalid_uint64
parse_uint_hex (d ∷ b) = parse_hex 0 (d ∷ b)
