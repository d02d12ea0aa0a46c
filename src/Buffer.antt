-- ===== src/Buffer.antt =====
-- The read buffer of the parsers: the fields `r`, `i`, `j` and `b` of msgpack.Parser, cbor.Parser and
-- json.Parser, with the methods `fill` and `peek`, whose code is the same in the three packages but
-- for the size of the array.
pub mod Laws
use objconv.Prelude.{
  ℕ, zero, suc, ◌+◌, ◌-◌, List, ◌==◌, length, replicate, leb, ltb, Bool, true, false, none, some,
  if◌then◌else◌,
}
use objconv.Prelude.Bytes.{byte_at}
use objconv.Go.Outcome.{Outcome, ok, err, panic, stuck, no_progress, M, after, ◌>>=◌, ◌>>◌}
use objconv.Go.Slice.{slice, overwrite}
use objconv.Go.Io.{Reader, ReadResult}

-- The size in msgpack and in cbor.
abbrev pub buffer_size : ℕ
buffer_size = 240

-- `b` is the array of `size` bytes; `i` and `j` bound the bytes read and not yet parsed.
pub record Buffer (size : ℕ) (R : Type 0) : Type 0 where
  pub r : R
  pub i : ℕ
  pub j : ℕ
  pub b : List ℕ

abbrev pub new_buffer : {size : ℕ} {R : Type 0} → R → Buffer size R
new_buffer {size} r = record { r = r; i = 0; j = 0; b = replicate size 0 }

-- p.b[p.i]
abbrev pub current : {size : ℕ} {R : Type 0} → Buffer size R → ℕ
current p = byte_at p.b p.i

-- p.b[p.i] and p.i++, where an index behind the array is a panic.
unfoldable pub next_byte : {size : ℕ} {R : Type 0} → M (Buffer size R) ℕ
next_byte p =
    if ltb p.i (length p.b) then (ok (current p), record p { i = p.i + 1 }) else (panic, p)

-- p.i += n
unfoldable pub skip : {size : ℕ} {R : Type 0} → ℕ → M (Buffer size R) (Unit {0})
skip n p = (ok tt, record p { i = p.i + n })

module _ {size : ℕ} {R : Type 0} ⦃io : Reader R⦄ where
  -- The end of `fill`, with `n` unread bytes moved to the front of the array `b`.
  abbrev pub fill_end : ℕ → List ℕ → ReadResult R → Outcome (Unit {0}) × Buffer size R
  fill_end n b res =
      if ltb 0 (length res.bytes)
      then (
        ok tt,
        record { r = res.next; i = 0; j = n + length res.bytes; b = overwrite n res.bytes b },
      )
      else elim res.error [
        | some e ↦ (err e, record { r = res.next; i = 0; j = n; b = b })
        | none ↦ (err no_progress, record { r = res.next; i = 0; j = n; b = b })
      ]

  -- Slicing p.b[p.i:p.j] panics where `i` is past `j`.
  unfoldable pub fill : M (Buffer size R) (Unit {0})
  fill p =
      let n = p.j - p.i in
      if ltb p.j p.i
      then (panic, p)
      else fill_end n (overwrite 0 (slice p.i p.j p.b) p.b) (io.read p.r (size - n))

  -- The loop of `peek`; each round reads a byte at least.
  pub peek_loop : ℕ → ℕ → M (Buffer size R) (List ℕ)
  peek_loop zero n p = (stuck, p)
  peek_loop (suc fuel) n p = elim (ltb p.j (p.i + n)) [
    | true ↦ after (fill p) (λ _. peek_loop fuel n)
    | false ↦ (ok (slice p.i (p.i + n) p.b), p)
  ]

  unfoldable pub peek : ℕ → M (Buffer size R) (List ℕ)
  unfolding peek_loop fill
  peek n = peek_loop (n + 1) n
