-- ===== src/Parse.antt =====
-- The interfaces Parser and bytesDecoder of parse.go.
use objconv.Prelude.{ℕ, List, Bool, Option}
use objconv.Prelude.Int.{ℤ}
use objconv.Go.Outcome.{M}
use objconv.Go.Time.{Time}
use objconv.Decode.{ItemParser}

-- The methods that read types, texts, arrays and maps, and those that read one value. An error is
-- its text. `decode_bytes` is there where the parser is a bytesDecoder.
pub record Parser (P : Type 0) : Type 0 where
  pub items : ItemParser P
  pub parse_bool : M P Bool
  pub parse_int : M P ℤ
  pub parse_uint : M P ℕ
  pub parse_float : M P ℕ
  pub parse_time : M P Time
  pub parse_duration : M P ℤ
  pub parse_error : M P (List ℕ)
  pub decode_bytes : Option (List ℕ → M P (List ℕ))
