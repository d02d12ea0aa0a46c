-- ===== src/Samples/Encoders.antt =====
-- The stream encoder and the pretty emitter on concrete calls.
use objconv.Prelude.{◌++◌, ℕ, List, [], ◌∷◌, refl, ◌≡◌}
use objconv.Prelude.Int.{pos, negsuc}
use objconv.Go.Outcome.{M, Returns}
use objconv.Go.Strconv.{append_uint}
use objconv.Encode.{ArrayEmitter, encode_array}
use objconv.Encode.Stream.{StreamEncoder, new_stream_encoder}
use objconv.Encode.Stream.Laws.{
  Call, open_call, encode_call, close_call, IsValid, run, new_stream_encoder-run-IsValid,
  run-closed,
}
use objconv.Encode.Stream.Refine.{calls, complete, run-encode_array}
use objconv.Json.Emit
use objconv.Json.Emit.Arrays.{emitter, joined, encode_array-joined}
use objconv.Json.Emit.Laws.{write_lem, Wrote}
use objconv.Json.Emit.Pretty.{PrettyEmitter, new_pretty_emitter, indent, spaces}
use objconv.Json.Emit.Pretty.Laws
use objconv.Json.Emit.Pretty.Laws.{array_begin, map_begin, map_end, array_end, value, reset_to}
use objconv.Samples.Streams.{Sink, sink_writer}

-- The emitter of JSON into a list.
abbrev json : ArrayEmitter Sink
json = emitter

abbrev empty : Sink
empty = record { bytes = [] }

abbrev one : M Sink (Unit {0})
one = Emit.emit_uint 1

abbrev ten : M Sink (Unit {0})
ten = Emit.emit_uint 10

-- One value more than the limit, and then a call of Close.
abbrev too_many : List (Call Sink)
too_many = open_call (pos 2) ∷ encode_call one ∷ encode_call ten ∷ encode_call one ∷ close_call ∷ []

new_stream_encoder-run-IsValid_example : IsValid (run json too_many (new_stream_encoder empty))
new_stream_encoder-run-IsValid_example = new_stream_encoder-run-IsValid json too_many empty

abbrev finished : StreamEncoder Sink
finished = complete 2 (record { bytes = b'[' ∷ b'1' ∷ b']' ∷ [] })

run-closed_example : run json too_many finished ≡ finished
run-closed_example = run-closed json too_many finished refl

-- [1,10,1]
abbrev three : List ℕ
three = b'[' ∷ b'1' ∷ b',' ∷ b'1' ∷ b'0' ∷ b',' ∷ b'1' ∷ b']' ∷ []

run-encode_array_example :
    run json (open_call (pos 3) ∷ calls (one ∷ ten ∷ one ∷ [])) (new_stream_encoder empty)
    ≡ complete 3 (record { bytes = three })
unfolding Emit.emit_array_next Emit.write encode_array Emit.emit_array_begin Emit.emit_uint
    Emit.emit_array_end append_uint
run-encode_array_example =
    run-encode_array json one (ten ∷ one ∷ []) empty (record { bytes = three })
      (λ s. record { state = _; computes = refl; post = tt }) refl

abbrev nested : List (Laws.Call Sink)
nested =
    array_begin (pos 1)
    ∷ map_begin (negsuc 0)
    ∷ value one
    ∷ map_end
    ∷ reset_to empty
    ∷ array_begin (pos 2)
    ∷ array_end
    ∷ array_end
    ∷ []

new_pretty_emitter-run-IsValid_example : Laws.IsValid (Laws.run nested (new_pretty_emitter empty))
new_pretty_emitter-run-IsValid_example = Laws.new_pretty_emitter-run-IsValid nested empty

-- Six levels deep.
abbrev deep : PrettyEmitter Sink
deep = record { w = empty; i = 6; s = pos 1 ∷ pos 1 ∷ pos 1 ∷ pos 1 ∷ pos 1 ∷ pos 1 ∷ [] }

indent-spaces_example :
    Returns (indent deep) tt (λ (f : PrettyEmitter Sink). Wrote (10 ∷ spaces 12) empty f.w)
indent-spaces_example = Laws.indent-spaces deep (λ w bs. refl)

ten_writes : (w : Sink) → Returns (ten w) tt (Wrote (b'1' ∷ b'0' ∷ []) w)
unfolding Emit.emit_uint append_uint
ten_writes w = write_lem (λ v bs. refl) (b'1' ∷ b'0' ∷ []) w

encode_array-joined_example :
    Returns
      (encode_array emitter (pos 2) (ten ∷ ten ∷ []) empty)
      tt
      (Wrote (b'[' ∷ (joined ((b'1' ∷ b'0' ∷ []) ∷ (b'1' ∷ b'0' ∷ []) ∷ []) ++ (b']' ∷ []))) empty)
encode_array-joined_example =
    encode_array-joined (ten ∷ ten ∷ []) ((b'1' ∷ b'0' ∷ []) ∷ (b'1' ∷ b'0' ∷ []) ∷ []) empty
      (λ w bs. refl) (ten_writes, (ten_writes, tt))
