-- ===== src/Samples/Streams.antt =====
-- A reader that hands out a list of bytes in small pieces, a writer into a list, and what is said
-- of the parameters that the packages do not determine.
use objconv.Prelude.{
  ℕ, zero, suc, ◌+◌, ◌/◌, ◌^◌, ◌≤◌, ◌<◌, ◌≡◌, ◌≢◌, refl, ap, List, [], ◌∷◌, ◌++◌, length, take,
  drop, arith, leb, if◌then◌else◌, Option, none, some, take-append-drop, length-take, ◌*◌,
}
use objconv.Prelude.Int.{pos}
use objconv.Go.Outcome.{Error, eof}
use objconv.Go.Io.{Reader, ReadResult, Writer}
use objconv.Go.Float.{Floats}

-- Each call of Read stores at most `piece + 1` bytes.
pub record Source : Type 0 where
  pub piece : ℕ
  pub rest : List ℕ

abbrev taken : ℕ → ℕ → ℕ
taken piece k = if leb k piece then k else piece + 1

abbrev at_end : List ℕ → Option Error
at_end [] = some eof
at_end (b ∷ bs) = none

abbrev read_source : Source → ℕ → ReadResult Source
read_source s k =
    let n = taken s.piece k in
    record {
      bytes = take n s.rest;
      error = at_end (drop n s.rest);
      next = record s { rest = drop n s.rest };
    }

pub some_taken :
    (bs : List ℕ) (piece k : ℕ) → 0 < k → bs ≢ [] → 0 < length (take (taken piece k) bs)
some_taken [] piece k h ne = absurd (ne refl)
some_taken (b ∷ bs) piece k h ne =
    omega (arith, length-take (taken piece k) (b ∷ bs), taken_pos piece k h)
  where
    taken_pos : (piece k : ℕ) → 0 < k → 0 < taken piece k
    taken_pos piece k h = ground arith

taken_le : (piece k : ℕ) → taken piece k ≤ k
taken_le piece k = ground arith

pub taken_fits : (bs : List ℕ) (piece k : ℕ) → length (take (taken piece k) bs) ≤ k
taken_fits bs piece k = omega (arith, length-take (taken piece k) bs, taken_le piece k)

pub at_end-none : (bs : List ℕ) → bs ≢ [] → at_end bs ≡ none
at_end-none [] ne = absurd (ne refl)
at_end-none (b ∷ bs) ne = refl

pub at_end-some : (n : ℕ) (bs : List ℕ) → bs ≡ [] → at_end (drop n bs) ≡ some eof
at_end-some zero bs e = rw e
at_end-some (suc n) [] e = refl
at_end-some (suc n) (b ∷ bs) e = absurd (omega (arith, ap length e))

instance abbrev pub source_reader : Reader Source
source_reader = record {
  read = read_source;
  unread = λ s. s.rest;
  read_in_order = λ s k. take-append-drop (taken s.piece k) s.rest;
  read_fits = λ s k. taken_fits s.rest s.piece k;
  read_progress = λ s k h ne. some_taken s.rest s.piece k h ne;
  read_continues = λ s k ne. at_end-none (drop (taken s.piece k) s.rest) ne;
  read_end = λ s k h e. at_end-some (taken s.piece k) s.rest e;
}

-- A writer into a list.
pub record Sink : Type 0 where
  pub bytes : List ℕ

instance abbrev pub sink_writer : Writer Sink
sink_writer = record {
  write = λ w bs. (none, record { bytes = w.bytes ++ bs });
  written = λ w. w.bytes;
  write_all = λ w bs e. refl;
}

-- Stands for the processor's arithmetic: a float32 is the upper half of the pattern.
instance abbrev pub halves : Floats
halves = record {
  narrow = λ v. v / 2 ^ 32;
  widen = λ v. v * 2 ^ 32;
  to_int64 = λ v. pos 0;
  of_int64 = λ v. 0;
  sub = λ x y. x;
  mul = λ x y. x;
}
