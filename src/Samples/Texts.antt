-- ===== src/Samples/Texts.antt =====
-- CBOR strings, simple values and floats, read back from a stream.
use objconv.Prelude.{ℕ, List, [], ◌∷◌, ◌++◌, refl, true, arith, replicate}
use objconv.Go.Outcome.{Returns}
use objconv.Types.{ValueType}
use objconv.Cbor.Emit.{head_bytes, null_bytes, simple_bytes, simple_float_bytes}
use objconv.Cbor.State.{Parser, new_parser, load}
use objconv.Cbor.Parse.{parse_string}
use objconv.Cbor.Parse.Laws.{Moved, Moved-refl, typed}
use objconv.Cbor.Parse.Load.{Loaded, load-lost_chunks}
use objconv.Cbor.Parse.Text.{parse_string-head_bytes}
use objconv.Samples.Streams.{Source, source_reader, halves}
use objconv.Samples.Buffers.{buffer-Ready}

-- A parser over the bytes `bs`, read three at a time.
abbrev parser : List ℕ → Parser Source
parser bs = new_parser (record { piece = 2; rest = bs })

parser-Moved : (bs : List ℕ) → Moved (parser bs) 0 bs (parser bs)
parser-Moved bs = Moved-refl (parser bs) (buffer-Ready bs)

abbrev tail : List ℕ
tail = 0xF6 ∷ 7 ∷ []

abbrev word : List ℕ
word = 0x61 ∷ 0x62 ∷ 0x63 ∷ 0x64 ∷ []

abbrev string_input : List ℕ
string_input = head_bytes 3 4 ++ (word ++ tail)

parse_string-head_bytes_example :
    Returns
      (typed parse_string (parser string_input))
      (ValueType.string, word)
      (Loaded (parser string_input) tail)
parse_string-head_bytes_example =
    parse_string-head_bytes word tail (parser string_input) (omega arith) refl
      (parser-Moved string_input)

abbrev bytes_input : List ℕ
bytes_input = head_bytes 2 4 ++ (word ++ tail)

-- A parser that has loaded a chunk of a thousand bytes into a string buffer of 1024.
abbrev second_chunk : Parser Source
second_chunk = record (parser (replicate 100 0x61 ++ tail)) {
  s = record { array = replicate 1024 0x61; len = 1000 };
}

load-lost_chunks_example :
    Returns
      (load 100 second_chunk)
      (replicate 1000 0 ++ replicate 100 0x61)
      (Loaded second_chunk tail)
load-lost_chunks_example =
    load-lost_chunks (replicate 100 0x61) tail 100 second_chunk
      (buffer-Ready (replicate 100 0x61 ++ tail)) refl (omega arith)

abbrev null_input : List ℕ
null_input = null_bytes ++ tail

abbrev bool_input : List ℕ
bool_input = simple_bytes true ++ tail

-- 1.5 as a float64
abbrev one_and_a_half : ℕ
one_and_a_half = 0x3FF8000000000000

abbrev float_input : List ℕ
float_input = simple_float_bytes one_and_a_half 64 ++ tail

abbrev float_32_input : List ℕ
float_32_input = simple_float_bytes one_and_a_half 32 ++ tail
