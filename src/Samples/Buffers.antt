-- ===== src/Samples/Buffers.antt =====
-- A buffer over a stream, and what `peek` does on it.
use objconv.Prelude.{ℕ, List, [], ◌∷◌, refl, take, arith}
use objconv.Go.Outcome.{Returns, Fails, eof}
use objconv.Buffer.{Buffer, buffer_size, new_buffer, peek}
use objconv.Buffer.Laws.{Holds, Ready, peek_enough, peek_short}
use objconv.Samples.Streams.{Source, source_reader}

-- The parser's buffer over the bytes `bs`, read three at a time.
abbrev pub buffer : List ℕ → Buffer buffer_size Source
buffer bs = new_buffer (record { piece = 2; rest = bs })

pub buffer-Holds : (bs : List ℕ) → Holds bs (buffer bs)
buffer-Holds bs = record {
  ordered = omega arith;
  bounded = omega arith;
  sized = refl;
  stream = refl;
}

pub buffer-Ready : (bs : List ℕ) → Ready 0 bs (buffer bs)
buffer-Ready bs = record { holding = buffer-Holds bs; loaded = omega arith }

abbrev five : List ℕ
five = 1 ∷ 2 ∷ 3 ∷ 4 ∷ 5 ∷ []

peek_enough_example : Returns (peek 4 (buffer five)) (take 4 five) (Ready 4 five)
peek_enough_example = peek_enough 4 (buffer five) (buffer-Holds five) (omega arith) (omega arith)

peek_short_example : Fails (peek 6 (buffer five)) eof (Holds five)
peek_short_example = peek_short 6 (buffer five) (buffer-Holds five) (omega arith) (omega arith)
