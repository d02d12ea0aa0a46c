-- ===== src/Samples/Items.antt =====
-- CBOR arrays written into a list.
use objconv.Prelude.{ℕ, List, [], ◌∷◌, ◌++◌, refl}
use objconv.Prelude.Int.{negsuc}
use objconv.Go.Outcome.{M, Returns}
use objconv.Encode.{encode_array}
use objconv.Cbor.Emit.{Emitter, new_emitter, emit_nil, emit_int, null_bytes, int_head}
use objconv.Cbor.Emit.Arrays.{
  Faithful, Written, Outputs, write-Written, array_emitter, joined, head_of, end_of,
  encode_array-head_of,
}
use objconv.Samples.Streams.{Sink, sink_writer}

abbrev fresh : Emitter Sink
fresh = new_emitter (record { bytes = [] })

sink-Faithful : Faithful sink_writer
sink-Faithful w bs = refl

-- A nil and a number.
abbrev calls : List (M (Emitter Sink) (Unit {0}))
calls = emit_nil ∷ emit_int (negsuc 299) ∷ []

abbrev outputs : List (List ℕ)
outputs = null_bytes ∷ int_head (negsuc 299) ∷ []

calls-Outputs : Outputs calls outputs
unfolding emit_nil emit_int
calls-Outputs = (
  λ e. write-Written sink-Faithful null_bytes e,
  (λ e. write-Written sink-Faithful (int_head (negsuc 299)) e, tt),
)

encode_array-head_of_example :
    Returns
      (encode_array array_emitter (negsuc 0) calls fresh)
      tt
      (Written ((head_of (negsuc 0) ++ joined outputs) ++ end_of (negsuc 0)) [] fresh)
encode_array-head_of_example =
    encode_array-head_of sink-Faithful (negsuc 0) calls outputs fresh tt calls-Outputs
