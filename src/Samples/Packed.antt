-- ===== src/Samples/Packed.antt =====
-- MessagePack items, read back from a stream.
use objconv.Prelude.{ℕ, List, [], ◌∷◌, ◌++◌, arith}
use objconv.Prelude.Int.{negsuc}
use objconv.Go.Outcome.{Returns}
use objconv.Types.{ValueType}
use objconv.Msgpack.Emit.{int_bytes}
use objconv.Msgpack.Parse.{Parser, new_parser, parse_int}
use objconv.Msgpack.Parse.Laws.{At, typed}
use objconv.Msgpack.Parse.Numbers.{parse_int-int_bytes}
use objconv.Samples.Streams.{Source, source_reader, halves}
use objconv.Samples.Buffers.{buffer-Ready}

-- A parser over the bytes `bs`, read three at a time.
abbrev parser : List ℕ → Parser Source
parser bs = new_parser (record { piece = 2; rest = bs })

abbrev tail : List ℕ
tail = 0xC0 ∷ 7 ∷ []

abbrev int_input : List ℕ
int_input = int_bytes (negsuc 40000) ++ tail

parse_int-int_bytes_example :
    Returns (typed parse_int (parser int_input)) (ValueType.int, negsuc 40000) (At 0 tail)
parse_int-int_bytes_example =
    parse_int-int_bytes (negsuc 40000) tail (parser int_input) (omega arith)
      (buffer-Ready int_input)
