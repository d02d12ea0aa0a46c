-- ===== src/Samples/Concise.antt =====
-- CBOR items, read back from a stream.
use objconv.Prelude.{ℕ, ◌^◌, ◌-◌, ◌+◌, List, [], ◌∷◌, ◌++◌, refl, ◌≡◌, false, arith}
use objconv.Prelude.Int.{pos, negsuc}
use objconv.Go.Outcome.{Returns, Fails, multiple_tags}
use objconv.Types.{ValueType}
use objconv.Cbor.Major.{major_byte}
use objconv.Cbor.Emit.{head_bytes, int_head}
use objconv.Cbor.State.{Parser, new_parser}
use objconv.Cbor.Parse.{parse_head, parse_int, parse_type}
use objconv.Cbor.Parse.Laws.{Moved, Moved-refl, parse_head-head_bytes, typed}
use objconv.Cbor.Parse.Numbers.{parse_int-head_bytes}
use objconv.Cbor.Parse.Arrays.{Outside, leave_array, leave_array-break}
use objconv.Cbor.Parse.Flaws.{parse_int-head_bytes_wraps, parse_type-unsupported_tag}
use objconv.Samples.Streams.{Source, source_reader}
use objconv.Samples.Buffers.{buffer-Ready}

-- A parser over the bytes `bs`, read three at a time.
abbrev parser : List ℕ → Parser Source
parser bs = new_parser (record { piece = 2; rest = bs })

parser-Moved : (bs : List ℕ) → Moved (parser bs) 0 bs (parser bs)
parser-Moved bs = Moved-refl (parser bs) (buffer-Ready bs)

abbrev tail : List ℕ
tail = 0xF6 ∷ 7 ∷ []

abbrev head_input : List ℕ
head_input = head_bytes 2 1000 ++ tail

parse_head-head_bytes_example :
    Returns (parse_head (parser head_input)) (1000, false) (Moved (parser head_input) 0 tail)
parse_head-head_bytes_example =
    parse_head-head_bytes 2 1000 tail (parser head_input) (omega arith) (omega arith)
      (parser-Moved head_input)

abbrev uint_input : List ℕ
uint_input = head_bytes 0 70000 ++ tail

abbrev int_input : List ℕ
int_input = int_head (negsuc 299) ++ tail

parse_int-head_bytes_example :
    Returns
      (typed parse_int (parser int_input))
      (ValueType.int, negsuc 299)
      (Moved (parser int_input) 0 tail)
parse_int-head_bytes_example =
    parse_int-head_bytes 299 tail (parser int_input) (omega arith) refl (parser-Moved int_input)

abbrev array_input : List ℕ
array_input = head_bytes 4 3 ++ tail

abbrev map_input : List ℕ
map_input = head_bytes 5 200 ++ tail

-- A parser inside an array of indefinite length, in front of its break.
abbrev inside : Parser Source
inside = record (parser (0xFF ∷ tail)) { stack = negsuc 0 ∷ [] }

leave_array-break_example : Returns (leave_array (negsuc 0) inside) tt (Outside [] (0xFF ∷ tail))
leave_array-break_example =
    leave_array-break (negsuc 0) 0 [] tail inside refl (buffer-Ready (0xFF ∷ tail))

parse_type-unsupported_tag_example :
    Fails (parse_type (parser (major_byte 6 4 ∷ tail))) multiple_tags (λ r. r.tag ≡ 4)
parse_type-unsupported_tag_example =
    parse_type-unsupported_tag 4 tail (parser (major_byte 6 4 ∷ tail)) (omega arith) (omega arith)
      refl (buffer-Ready (major_byte 6 4 ∷ tail))

abbrev large_input : List ℕ
large_input = head_bytes 1 (2 ^ 63 + 5) ++ tail

parse_int-head_bytes_wraps_example :
    Returns
      (typed parse_int (parser large_input))
      (ValueType.int, pos (2 ^ 64 - 1 - (2 ^ 63 + 5)))
      (Moved (parser large_input) 0 tail)
parse_int-head_bytes_wraps_example =
    parse_int-head_bytes_wraps (2 ^ 63 + 5) tail (parser large_input) (omega arith) (omega arith)
      refl (parser-Moved large_input)
