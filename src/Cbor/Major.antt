-- ===== src/Cbor/Major.antt =====
-- The major types, sizes, simple values and tags of cbor/cbor.go, and the helpers of that file.
use objconv.Prelude.{
  ℕ, zero, suc, ◌+◌, ◌-◌, ◌*◌, ◌/◌, ◌%◌, ◌^◌, ◌==◌, bit_and, bit_or, true, false, if◌then◌else◌,
}
use objconv.Objutil.Limits

-- Sizes of an integer behind the head.
abbrev pub i_uint8 : ℕ
i_uint8 = 24

abbrev pub i_uint16 : ℕ
i_uint16 = 25

abbrev pub i_uint32 : ℕ
i_uint32 = 26

abbrev pub i_uint64 : ℕ
i_uint64 = 27

-- Simple values of major type 7.
abbrev pub sv_false : ℕ
sv_false = 20

abbrev pub sv_true : ℕ
sv_true = 21

abbrev pub sv_null : ℕ
sv_null = 22

abbrev pub sv_undefined : ℕ
sv_undefined = 23

abbrev pub sv_extension : ℕ
sv_extension = 24

abbrev pub sv_float16 : ℕ
sv_float16 = 25

abbrev pub sv_float32 : ℕ
sv_float32 = 26

abbrev pub sv_float64 : ℕ
sv_float64 = 27

abbrev pub tag_date_time : ℕ
tag_date_time = 0

abbrev pub tag_timestamp : ℕ
tag_timestamp = 1

abbrev pub int_max : ℕ
int_max = Limits.int_max

abbrev pub int64_max : ℕ
int64_max = Limits.int64_max

abbrev pub no_tag : ℕ
no_tag = Limits.uint64_max

-- (maj << 5) | val, in a byte
unfoldable pub major_byte : ℕ → ℕ → ℕ
major_byte maj val = bit_or (maj * 2 ^ 5 % 2 ^ 8) val

-- The two results of majorType.
unfoldable pub major_type : ℕ → ℕ
major_type b = bit_and b 0xE0 / 2 ^ 5

unfoldable pub minor_value : ℕ → ℕ
minor_value b = bit_and b (255 - 0xE0)

unfoldable pub align : ℕ → ℕ → ℕ
align n a = if n % a == 0 then n else (n / a + 1) * a

-- The loop that renormalises a denormal half: the mantissa moves left until its top bit, 0x400, is
-- set. The exponent is a uint32, and wraps below 0.
pub renormalise : ℕ → ℕ → ℕ → ℕ × ℕ
renormalise zero m e = (m, e)
renormalise (suc fuel) m e = elim (bit_and m 0x400 == 0) [
  | true ↦ renormalise fuel (m * 2 % 2 ^ 32) ((e + 2 ^ 32 - 1) % 2 ^ 32)
  | false ↦ (m, e)
]

abbrev pack32 : ℕ → ℕ → ℕ → ℕ
pack32 s e m = bit_or (bit_or (s * 2 ^ 31 % 2 ^ 32) (e * 2 ^ 23 % 2 ^ 32)) m

abbrev normal32 : ℕ → ℕ → ℕ → ℕ
normal32 s e m = pack32 s ((e + (127 - 15)) % 2 ^ 32) (m * 2 ^ 13 % 2 ^ 32)

-- The mantissa of a denormal has a bit below 0x400 set, so ten rounds are enough.
unfoldable pub f16tof32bits : ℕ → ℕ
unfolding renormalise
f16tof32bits y =
    let s = bit_and (y / 2 ^ 15) 0x01 in
    let e = bit_and (y / 2 ^ 10) 0x1f in
    let m = bit_and y 0x03ff in
    let (m', e') = renormalise 10 m e in
    if e == 0
    then (if m == 0
        then s * 2 ^ 31 % 2 ^ 32
        else normal32 s ((e' + 1) % 2 ^ 32) (bit_and m' (2 ^ 32 - 1 - 0x0400)))
    else if e == 31
    then (if m == 0
        then bit_or (s * 2 ^ 31 % 2 ^ 32) 0x7f800000
        else bit_or (bit_or (s * 2 ^ 31 % 2 ^ 32) 0x7f800000) (m * 2 ^ 13 % 2 ^ 32))
    else normal32 s e m
