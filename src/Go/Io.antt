-- ===== src/Go/Io.antt =====
-- The interfaces io.Reader and io.Writer, and io.ReadFull.
pub mod Laws
use objconv.Prelude.{
  ℕ, zero, suc, ◌+◌, ◌-◌, ◌≤◌, ◌<◌, List, [], ◌∷◌, ◌++◌, ◌≡◌, ◌≢◌, refl, arith, length, leb, ltb,
  Bool, true, false, Option, none, some, if◌then◌else◌,
}
use objconv.Go.Outcome.{Error, Outcome, ok, err, stuck, eof, unexpected_eof, M}

-- What a call of Read leaves: the bytes stored, the error and the reader's new state.
pub record ReadResult (R : Type 0) : Type 0 where
  pub bytes : List ℕ
  pub error : Option Error
  pub next : R

-- A reader over a stream of bytes that does not fail before its end, with the documented behaviour
-- of Read: it stores at most as many bytes as it is offered room for, they are the next of the
-- stream, it makes progress while bytes are left, and at the end it answers EOF.
pub record Reader (R : Type 0) : Type 0 where
  pub read : R → ℕ → ReadResult R
  pub unread : R → List ℕ
  pub read_in_order : (r : R) (k : ℕ) → (read r k).bytes ++ unread (read r k).next ≡ unread r
  pub read_fits : (r : R) (k : ℕ) → length (read r k).bytes ≤ k
  pub read_progress : (r : R) (k : ℕ) → 0 < k → unread r ≢ [] → 0 < length (read r k).bytes
  pub read_continues : (r : R) (k : ℕ) → unread (read r k).next ≢ [] → (read r k).error ≡ none
  pub read_end : (r : R) (k : ℕ) → 0 < k → unread r ≡ [] → (read r k).error ≡ some eof

-- A writer, with the documented behaviour of Write: without an error it has written all bytes.
pub record Writer (W : Type 0) : Type 0 where
  pub write : W → List ℕ → Option Error × W
  pub written : W → List ℕ
  pub write_all :
      (w : W) (bs : List ℕ) → (write w bs).0 ≡ none → written (write w bs).1 ≡ written w ++ bs

-- A writer that never fails, such as a buffer in memory.
abbrev pub Reliable : {W : Type 0} → Writer W → Type 0
Reliable {W} io = (w : W) (bs : List ℕ) → (io.write w bs).0 ≡ none

-- The error of ReadFull: EOF only if no byte was read.
abbrev full_error : List ℕ → Error → Error
full_error [] e = e
full_error (b ∷ bs) eof = unexpected_eof
full_error (b ∷ bs) e = e

module _ {R : Type 0} ⦃io : Reader R⦄ where
  -- The loop of ReadFull with `k` bytes still wanted behind the bytes `got`.
  pub read_full_loop : ℕ → ℕ → List ℕ → M R (List ℕ)
  read_full_loop fuel zero got r = (ok got, r)
  read_full_loop zero (suc k) got r = (stuck, r)
  read_full_loop (suc fuel) (suc k) got r =
      let res = io.read r (suc k) in
      let got' = got ++ res.bytes in
      let rest = read_full_loop fuel (suc k - length res.bytes) got' res.next in
      if leb (suc k) (length res.bytes)
      then (ok got', res.next)
      else elim res.error [ some e ↦ (err (full_error got' e), res.next) | none ↦ rest ]

  -- A call of Read stores a byte at least, so `k` rounds are enough.
  unfoldable pub read_full : ℕ → M R (List ℕ)
  unfolding read_full_loop
  read_full k r = read_full_loop k k [] r
