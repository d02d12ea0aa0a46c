-- ===== src/Msgpack/Tag.antt =====
-- The tags and masks of msgpack/msgpack.go.
use objconv.Prelude.{ℕ}

abbrev pub nil : ℕ
nil = 0xC0

abbrev pub false : ℕ
false = 0xC2

abbrev pub true : ℕ
true = 0xC3

abbrev pub bin8 : ℕ
bin8 = 0xC4

abbrev pub bin16 : ℕ
bin16 = 0xC5

abbrev pub bin32 : ℕ
bin32 = 0xC6

abbrev pub ext8 : ℕ
ext8 = 0xC7

abbrev pub ext16 : ℕ
ext16 = 0xC8

abbrev pub ext32 : ℕ
ext32 = 0xC9

abbrev pub float32 : ℕ
float32 = 0xCA

abbrev pub float64 : ℕ
float64 = 0xCB

abbrev pub uint8 : ℕ
uint8 = 0xCC

abbrev pub uint16 : ℕ
uint16 = 0xCD

abbrev pub uint32 : ℕ
uint32 = 0xCE

abbrev pub uint64 : ℕ
uint64 = 0xCF

abbrev pub int8 : ℕ
int8 = 0xD0

abbrev pub int16 : ℕ
int16 = 0xD1

abbrev pub int32 : ℕ
int32 = 0xD2

abbrev pub int64 : ℕ
int64 = 0xD3

abbrev pub fixext1 : ℕ
fixext1 = 0xD4

abbrev pub fixext2 : ℕ
fixext2 = 0xD5

abbrev pub fixext4 : ℕ
fixext4 = 0xD6

abbrev pub fixext8 : ℕ
fixext8 = 0xD7

abbrev pub fixext16 : ℕ
fixext16 = 0xD8

abbrev pub str8 : ℕ
str8 = 0xD9

abbrev pub str16 : ℕ
str16 = 0xDA

abbrev pub str32 : ℕ
str32 = 0xDB

abbrev pub array16 : ℕ
array16 = 0xDC

abbrev pub array32 : ℕ
array32 = 0xDD

abbrev pub map16 : ℕ
map16 = 0xDE

abbrev pub map32 : ℕ
map32 = 0xDF

abbrev pub fixmap_mask : ℕ
fixmap_mask = 0xF0

abbrev pub fixmap_tag : ℕ
fixmap_tag = 0x80

abbrev pub fixarray_mask : ℕ
fixarray_mask = 0xF0

abbrev pub fixarray_tag : ℕ
fixarray_tag = 0x90

abbrev pub fixstr_mask : ℕ
fixstr_mask = 0xE0

abbrev pub fixstr_tag : ℕ
fixstr_tag = 0xA0

abbrev pub positive_fixint_mask : ℕ
positive_fixint_mask = 0x80

abbrev pub positive_fixint_tag : ℕ
positive_fixint_tag = 0x00

abbrev pub negative_fixint_mask : ℕ
negative_fixint_mask = 0xE0

abbrev pub negative_fixint_tag : ℕ
negative_fixint_tag = 0xE0

-- int8(-1), as a byte.
abbrev pub ext_time : ℕ
ext_time = 0xFF
