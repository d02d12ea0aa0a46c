-- ===== src/Samples/Decoders.antt =====
-- The stream decoder on concrete calls, and a duration.
use objconv.Prelude.{ℕ, Bool, ◌+◌, ◌≤◌, List, [], ◌∷◌, false, length, ap, sym}
use objconv.Prelude.Int.{pos, negsuc}
use objconv.Go.Outcome.{Outcome, ok, M}
use objconv.Types.{ValueType}
use objconv.Decode.{ItemParser}
use objconv.Decode.Stream.{new_stream_decoder, is_unknown}
use objconv.Decode.Stream.Laws.{
  Announces, Call, len_call, decode_call, IsValid, run, new_stream_decoder-run-IsValid,
}
use objconv.Objutil.Duration.{append_duration}
use objconv.Objutil.Duration.Laws.{append_duration-length}

abbrev done : M ℕ (Unit {0})
done p = (ok tt, p)

-- A parser of an array of two values; its state counts the values.
abbrev pairs : ItemParser ℕ
pairs = record {
  parse_type = λ p. (ok ValueType.array, p);
  parse_nil = done;
  parse_string = λ p. (ok [], p);
  parse_bytes = λ p. (ok [], p);
  parse_array_begin = λ p. (ok (pos 2), p);
  parse_array_end = λ n. done;
  parse_array_next = λ n. done;
  parse_map_begin = λ p. (ok (negsuc 0), p);
  parse_map_end = λ n. done;
  parse_map_value = λ n. done;
  parse_map_next = λ n. done;
}

abbrev announced : Outcome ValueType × ℕ → Bool
announced (ok t, p) = is_unknown t
announced r = false

pairs-Announces : Announces pairs
pairs-Announces p q t e = ap announced (sym e)

abbrev one : M ℕ (Unit {0})
one p = (ok tt, p + 1)

-- One call more than there are values.
abbrev three_calls : List (Call ℕ)
three_calls = len_call ∷ decode_call one ∷ decode_call one ∷ len_call ∷ decode_call one ∷ []

new_stream_decoder-run-IsValid_example : IsValid (run pairs three_calls (new_stream_decoder 0))
new_stream_decoder-run-IsValid_example =
    new_stream_decoder-run-IsValid pairs three_calls 0 pairs-Announces

-- The longest duration, and the one that negation leaves as it is.
append_duration-length_example : length (append_duration [] (negsuc 9223372036854775807)) ≤ 0 + 32
append_duration-length_example = append_duration-length [] (negsuc 9223372036854775807)
