-- ===== src/Samples/Lines.antt =====
-- Numbers, strings and lines of JSON and RESP, read back from a stream.
use objconv.Prelude.{ℕ, List, [], ◌∷◌, ◌++◌, refl, ◌≡◌, arith}
use objconv.Prelude.Int.{negsuc}
use objconv.Go.Outcome.{ok, panic, Returns}
use objconv.Go.Strconv.{append_int}
use objconv.Types.{ValueType}
use objconv.Objutil.Int.{parse_int}
use objconv.Objutil.Int.Documented.{Answers, decimal_text, parse_int-Answers}
use objconv.Objutil.Int.Print.{parse_int-append_int}
use objconv.Json.Emit.{string_bytes, quote}
use objconv.Json.Emit.Laws.{json_text, string_bytes-json_text}
use objconv.Json.Parse
use objconv.Json.Parse.Strings.{typed_string, typed_string-string_bytes, Left}
use objconv.Resp.Emit
use objconv.Resp.Parse.{Parser, new_parser, parse_int_value, parse_string, parse_type, reset}
use objconv.Resp.Parse.Laws.{At, typed}
use objconv.Resp.Parse.Lines.{parse_int_value-int_bytes, parse_string-string_bytes}
use objconv.Resp.Parse.Flaws.{parse_type-reset}
use objconv.Samples.Streams.{Source, source_reader}

-- 9223372036854775808, one more than an int64 holds
abbrev big : List ℕ
big =
    b'9' ∷ b'2' ∷ b'2' ∷ b'3' ∷ b'3' ∷ b'7' ∷ b'2' ∷ b'0' ∷ b'3' ∷ b'6' ∷ b'8' ∷ b'5' ∷ b'4' ∷ b'7'
    ∷ b'7' ∷ b'5' ∷ b'8' ∷ b'0' ∷ b'8' ∷ []

parse_int-Answers_example : Answers (decimal_text big) (parse_int big)
parse_int-Answers_example = parse_int-Answers big refl

abbrev hex : List ℕ
hex = b'0' ∷ b'f' ∷ b'A' ∷ b'1' ∷ []

parse_int-append_int_example : parse_int (append_int (negsuc 41)) ≡ ok (negsuc 41)
parse_int-append_int_example = parse_int-append_int (negsuc 41) (omega arith)

-- a"b, a line feed, and c
abbrev text : List ℕ
text = b'a' ∷ quote ∷ b'b' ∷ 10 ∷ b'c' ∷ []

string_bytes-json_text_example : string_bytes text ≡ 0x22 ∷ (json_text text ++ (0x22 ∷ []))
string_bytes-json_text_example = string_bytes-json_text text

abbrev behind : List ℕ
behind = b',' ∷ b'1' ∷ []

abbrev json_parser : Parse.Parser Source
json_parser = Parse.new_parser (record { piece = 2; rest = string_bytes text ++ behind })

json_parser-Left : Left (string_bytes text ++ behind) json_parser
json_parser-Left = record {
  holding = record { ordered = omega arith; bounded = omega arith; sized = refl; stream = refl };
  loaded = omega arith;
}

typed_string-string_bytes_example :
    Returns (typed_string json_parser) (ValueType.string, text) (Left behind)
typed_string-string_bytes_example =
    typed_string-string_bytes text behind json_parser json_parser-Left

abbrev resp_parser : List ℕ → Parser Source
resp_parser bs = new_parser (record { piece = 2; rest = bs })

resp_parser-At : (bs : List ℕ) → At bs (resp_parser bs)
resp_parser-At bs = record { no_line = refl; within = omega arith; stream = refl }

abbrev ping : List ℕ
ping = b'+' ∷ b'P' ∷ 13 ∷ 10 ∷ []

parse_int_value-int_bytes_example :
    Returns
      (typed parse_int_value (resp_parser (Emit.int_bytes (negsuc 41) ++ ping)))
      (ValueType.int, negsuc 41)
      (At ping)
parse_int_value-int_bytes_example =
    parse_int_value-int_bytes (negsuc 41) ping (resp_parser (Emit.int_bytes (negsuc 41) ++ ping))
      (omega arith) (resp_parser-At (Emit.int_bytes (negsuc 41) ++ ping))

abbrev word : List ℕ
word = b'O' ∷ b'K' ∷ []

parse_string-string_bytes_example :
    Returns
      (typed parse_string (resp_parser (Emit.string_bytes word ++ ping)))
      (ValueType.string, word)
      (At ping)
parse_string-string_bytes_example =
    parse_string-string_bytes word ping (resp_parser (Emit.string_bytes word ++ ping))
      (λ e. omega (arith, e), (λ e. omega (arith, e), tt))
      (resp_parser-At (Emit.string_bytes word ++ ping))

-- A parser that has peeked the line +P.
abbrev peeked : Parser Source
peeked = record { r = record { piece = 2; rest = [] }; i = 4; n = 0; s = ping }

abbrev source : Source
source = record { piece = 2; rest = ping }

parse_type-reset_example : parse_type (reset source peeked) ≡ (panic, reset source peeked)
parse_type-reset_example = parse_type-reset source peeked (omega arith)
