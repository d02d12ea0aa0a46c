-- ===== src/Go/Unicode.antt =====
-- Packages unicode/utf16 and unicode/utf8, as far as they are used.
use objconv.Prelude.{
  ℕ, ◌+◌, ◌-◌, ◌*◌, ◌/◌, ◌%◌, List, [], ◌∷◌, leb, ltb, Bool, ◌&&◌, ◌||◌, if◌then◌else◌,
}

-- U+FFFD
abbrev pub rune_error : ℕ
rune_error = 0xFFFD

-- utf16.IsSurrogate
unfoldable pub is_surrogate : ℕ → Bool
is_surrogate r = leb 0xD800 r && ltb r 0xE000

-- utf16.DecodeRune
unfoldable pub decode_rune : ℕ → ℕ → ℕ
decode_rune r1 r2 =
    if leb 0xD800 r1 && ltb r1 0xDC00 && leb 0xDC00 r2 && ltb r2 0xE000
    then (r1 - 0xD800) * 1024 + (r2 - 0xDC00) + 0x10000
    else rune_error

abbrev three_bytes : ℕ → List ℕ
three_bytes r = (0xE0 + r / 4096) ∷ (0x80 + r / 64 % 64) ∷ (0x80 + r % 64) ∷ []

-- The bytes of utf8.EncodeRune
unfoldable pub encode_rune : ℕ → List ℕ
unfolding is_surrogate
encode_rune r =
    if leb r 0x7F
    then r ∷ []
    else if leb r 0x7FF
    then (0xC0 + r / 64) ∷ (0x80 + r % 64) ∷ []
    else if ltb 0x10FFFF r || is_surrogate r
    then three_bytes rune_error
    else if leb r 0xFFFF
    then three_bytes r
    else (0xF0 + r / 262144) ∷ (0x80 + r / 4096 % 64) ∷ (0x80 + r / 64 % 64) ∷ (0x80 + r % 64) ∷ []
