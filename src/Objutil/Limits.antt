-- ===== src/Objutil/Limits.antt =====
-- The integer limits of objutil/limits.go, for a machine of 64 bits, and the checks against them.
use objconv.Prelude.{ℕ, ltb, ◌&&◌, if◌then◌else◌, Option, none, some}
use objconv.Prelude.Int.{ℤ, pos, negsuc, ltb_ℤ, to_word}
use objconv.Go.Outcome.{Error, overflows_maximum, overflows_minimum}

abbrev pub int_max : ℕ
int_max = 9223372036854775807

abbrev pub uint8_max : ℕ
uint8_max = 255

abbrev pub uint16_max : ℕ
uint16_max = 65535

abbrev pub uint32_max : ℕ
uint32_max = 4294967295

abbrev pub uint64_max : ℕ
uint64_max = 18446744073709551615

abbrev pub int8_max : ℕ
int8_max = 127

abbrev pub int16_max : ℕ
int16_max = 32767

abbrev pub int32_max : ℕ
int32_max = 2147483647

abbrev pub int64_max : ℕ
int64_max = 9223372036854775807

-- -128, -32768, -2147483648
abbrev pub int8_min : ℤ
int8_min = negsuc 127

abbrev pub int16_min : ℤ
int16_min = negsuc 32767

abbrev pub int32_min : ℤ
int32_min = negsuc 2147483647

-- -9223372036854775808
abbrev pub int64_min : ℤ
int64_min = negsuc 9223372036854775807

-- 9007199254740992 and -9007199254740992
abbrev pub float64_int_max : ℕ
float64_int_max = 9007199254740992

abbrev pub float64_int_min : ℤ
float64_int_min = negsuc 9007199254740991

-- `none` is the error nil.
unfoldable pub check_uint64_bounds : ℕ → ℕ → Option Error
check_uint64_bounds v max = if ltb max v then some (overflows_maximum v max) else none

-- The second test overwrites the error of the first.
unfoldable pub check_int64_bounds : ℤ → ℤ → ℕ → Option Error
check_int64_bounds v min max =
    let below = if ltb_ℤ v min then some (overflows_minimum v min) else none in
    if ltb_ℤ (pos 0) v && ltb max (to_word 64 v)
    then some (overflows_maximum (to_word 64 v) max)
    else below
