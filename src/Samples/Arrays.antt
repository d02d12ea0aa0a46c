-- ===== src/Samples/Arrays.antt =====
-- Arrays and strings written into a list.
use objconv.Prelude.{ℕ, List, [], ◌∷◌, ◌++◌, refl, arith}
use objconv.Prelude.Int.{pos, negsuc}
use objconv.Go.Outcome.{Returns, M}
use objconv.Encode.{encode_array}
use objconv.Msgpack.Emit.{
  Emitter, new_emitter, emit_nil, emit_int, nil_bytes, int_bytes, array_header,
}
use objconv.Msgpack.Emit.Laws.{Reliable, Wrote, write_lem}
use objconv.Msgpack.Emit.Arrays.{emitter, concat, Emits, encode_array-unknown_length}
use objconv.Msgpack.Emit.Counted.{encode_array-known_length}
use objconv.Samples.Streams.{Sink, sink_writer}

fresh : Emitter Sink
fresh = new_emitter (record { bytes = [] })

sink-Reliable : Reliable sink_writer
sink-Reliable w bs = refl

-- A nil and a number.
abbrev calls : List (M (Emitter Sink) (Unit {0}))
calls = emit_nil ∷ emit_int (pos 300) ∷ []

abbrev outputs : List (List ℕ)
outputs = nil_bytes ∷ int_bytes (pos 300) ∷ []

calls-Emits : Emits calls outputs
unfolding emit_nil emit_int int_bytes
calls-Emits = (
  λ e. write_lem sink-Reliable nil_bytes e,
  omega arith,
  (λ e. write_lem sink-Reliable (int_bytes (pos 300)) e, omega arith, tt),
)

encode_array-unknown_length_example :
    Returns
      (encode_array emitter (negsuc 0) calls fresh)
      tt
      (Wrote ((0x93 ∷ []) ++ concat outputs) fresh)
unfolding array_header
encode_array-unknown_length_example =
    encode_array-unknown_length sink-Reliable 0 calls outputs (0x93 ∷ []) fresh calls-Emits
      (omega arith) refl

encode_array-known_length_example :
    Returns
      (encode_array emitter (pos 2) calls fresh)
      tt
      (Wrote ((0x92 ∷ []) ++ concat outputs) fresh)
unfolding array_header
encode_array-known_length_example =
    encode_array-known_length sink-Reliable calls outputs (0x92 ∷ []) fresh calls-Emits refl
