-- ===== src/Buffer/Laws.antt =====
-- The buffer against the stream of bytes that it stands for.
use objconv.Prelude.{
  ℕ, zero, suc, ◌+◌, ◌-◌, ◌≤◌, ◌<◌, ◌≡◌, ◌≢◌, refl, sym, ap, ◌∙◌, List, [], ◌∷◌, ◌++◌, length, take,
  drop, arith, length-append, take-append, drop-append, take-append_le, drop-append_le,
  append_assoc, eq-nil_of_length, ltb, append-nil, lt→ltb, le→ltb_false, ltb→lt, ltb_false→le,
  dec_lt, Bool-cases, inl, inr,
}
use objconv.Go.Outcome.{ok, eof, Returns, Fails, Returns-after, Fails-after, Fails-early}
use native.Mathlib.Nat.{add-zero}
use native.Mathlib.Numerals.{add-one}
use objconv.Go.Slice.{
  slice, overwrite, overwrite-nil, length-overwrite, length-slice, slice-overwrite_front,
  slice_within, slice_later, first_of_slice,
}
use objconv.Go.Io.{Reader}
use objconv.Buffer.{Buffer, fill, peek_loop, peek, skip, next_byte, current}

-- `p` is in order, and `bs` is what is still to be parsed: the unread part of the array and
-- then what the reader has left.
pub record Holds {size : ℕ} {R : Type 0} ⦃io : Reader R⦄ (bs : List ℕ) (p : Buffer size R)
    : Type 0 where
  pub ordered : p.i ≤ p.j
  pub bounded : p.j ≤ size
  pub sized : length p.b ≡ size
  pub stream : slice p.i p.j p.b ++ io.unread p.r ≡ bs

-- Of these bytes at least `k` are in the array.
pub record Ready {size : ℕ} {R : Type 0} ⦃io : Reader R⦄ (k : ℕ) (bs : List ℕ) (p : Buffer size R)
    : Type 0 where
  pub holding : Holds bs p
  pub loaded : p.i + k ≤ p.j

module _ {size : ℕ} {R : Type 0} ⦃io : Reader R⦄ where
  pub length-held :
      {bs : List ℕ} (p : Buffer size R) → Holds bs p → length (slice p.i p.j p.b) ≡ p.j - p.i
  length-held p h = length-slice p.i p.j p.b (omega (arith, h.bounded, h.sized))

  -- The buffer that `fill` leaves, whatever Read returned.
  Holds-filled :
      {bs : List ℕ} (p : Buffer size R) (k : ℕ)
      → Holds bs p
      → let res = io.read p.r k in
        k ≡ size - (p.j - p.i)
        → Holds {size = size} bs (record {
          r = res.next;
          i = 0;
          j = p.j - p.i + length res.bytes;
          b = overwrite (p.j - p.i) res.bytes (overwrite 0 (slice p.i p.j p.b) p.b);
        })
  Holds-filled p k h e = record {
    ordered = omega arith;
    bounded = omega (arith, h.bounded, io.read_fits p.r k);
    sized = length-overwrite _ _ _ ∙ length-overwrite _ _ _ ∙ h.sized;
    stream =
        ap (λ t. t ++ io.unread (io.read p.r k).next)
          (slice-overwrite_front (slice p.i p.j p.b) (io.read p.r k).bytes p.b (p.j - p.i) _
            (length-held p h) refl (omega (arith, h.bounded, h.sized, io.read_fits p.r k)))
        ∙ append_assoc (slice p.i p.j p.b) (io.read p.r k).bytes (io.unread (io.read p.r k).next)
        ∙ ap (λ t. slice p.i p.j p.b ++ t) (io.read_in_order p.r k)
        ∙ h.stream;
  }

  held_le : {bs : List ℕ} (p : Buffer size R) → Holds bs p → p.j - p.i ≤ length bs
  held_le p h = omega (
    arith,
    ap length h.stream,
    length-append (slice p.i p.j p.b) (io.unread p.r),
    length-held p h,
  )

  abbrev Fuller : ℕ → List ℕ → Buffer size R → Type 0
  Fuller n bs p = Holds bs p × (n < p.j - p.i)

  unread-ne-nil :
      {bs : List ℕ} (p : Buffer size R) → Holds bs p → p.j - p.i < length bs → io.unread p.r ≢ []
  unread-ne-nil {bs} p h more e = absurd (omega (arith, ap length short, length-held p h))
    where
      short : slice p.i p.j p.b ≡ bs
      short = sym (append-nil _) ∙ ap (λ t. slice p.i p.j p.b ++ t) (sym e) ∙ h.stream

  -- While bytes are left outside the array, `fill` brings in one or more.
  pub fill_more :
      {bs : List ℕ} (p : Buffer size R)
      → Holds bs p
      → p.j - p.i < length bs
      → p.j - p.i < size
      → Returns (fill p) tt (Fuller (p.j - p.i) bs)
  unfolding fill
  fill_more p h more room =
      let k = size - (p.j - p.i) in
      let progress = io.read_progress p.r k (omega arith) (unread-ne-nil p h more) in
      record {
        state = _;
        computes =
            rw (le→ltb_false p.j p.i h.ordered, lt→ltb 0 (length (io.read p.r k).bytes) progress);
        post = (Holds-filled p k h refl, omega (arith, progress));
      }

  -- At the end of the stream `fill` answers EOF.
  pub fill_end_of_stream :
      {bs : List ℕ} (p : Buffer size R)
      → Holds bs p
      → length bs ≤ p.j - p.i
      → p.j - p.i < size
      → Fails (fill p) eof (Holds bs)
  unfolding fill
  fill_end_of_stream {bs} p h less room = record {
    state = _;
    computes = rw (le→ltb_false p.j p.i h.ordered, nothing, io.read_end p.r k (omega arith) at_end);
    post = rw (nothing, overwrite-nil, add-zero) at (Holds-filled p k h refl);
  }
    where
      k : ℕ
      k = size - (p.j - p.i)

      at_end : io.unread p.r ≡ []
      at_end = eq-nil_of_length _ (
          omega (
            arith,
            ap length h.stream,
            length-append (slice p.i p.j p.b) (io.unread p.r),
            length-held p h,
          ))

      nothing : (io.read p.r k).bytes ≡ []
      nothing = eq-nil_of_length _ (
          omega (
            arith,
            ap length (io.read_in_order p.r k ∙ at_end),
            length-append (io.read p.r k).bytes (io.unread (io.read p.r k).next),
          ))

  -- A window of the array inside what it holds is the front of the stream.
  pub front :
      {bs : List ℕ} (n : ℕ) (p : Buffer size R)
      → Holds bs p
      → p.i + n ≤ p.j
      → slice p.i (p.i + n) p.b ≡ take n bs
  front {bs} n p h fits =
      slice_within p.i n p.j p.b fits
      ∙ sym (take-append_le _ (io.unread p.r) n (omega (arith, length-held p h)))
      ∙ ap (take n) h.stream

  peek_loop_enough :
      {bs : List ℕ} (fuel n : ℕ) (p : Buffer size R)
      → Holds bs p
      → n ≤ length bs
      → n ≤ size
      → p.i + n - p.j < fuel
      → Returns (peek_loop fuel n p) (take n bs) (Ready n bs)
  unfolding peek_loop
  peek_loop_enough zero n p h long small fuel = absurd (omega arith)
  peek_loop_enough {bs} (suc f) n p h long small fuel = elim (Bool-cases (ltb p.j (p.i + n))) [
    | inl short ↦
        let less = ltb→lt _ _ short in
        rw (short, peek_loop)
          (Returns-after (λ _. peek_loop f n)
            (fill_more p h (omega (arith, h.ordered)) (omega (arith, h.ordered)))
            λ q (held, more).
              peek_loop_enough f n q held long small (omega (arith, h.ordered, held.ordered)))
    | inr enough ↦
        let fits = ltb_false→le _ _ enough in
        rw (enough, peek_loop)
          (record {
            state = p;
            computes = ap (λ t. (ok t, p)) (front n p h fits);
            post = record { holding = h; loaded = fits };
          })
  ]

  -- On a buffer in order, with `n` bytes or more in its stream and `n` no more than the array
  -- holds, `peek n` returns the first `n`, puts them into the array and leaves the stream as it
  -- was.
  pub peek_enough :
      {bs : List ℕ} (n : ℕ) (p : Buffer size R)
      → Holds bs p
      → n ≤ length bs
      → n ≤ size
      → Returns (peek n p) (take n bs) (Ready n bs)
  unfolding peek
  peek_enough n p h long small =
      peek_loop_enough (n + 1) n p h long small (omega (arith, h.ordered))

  peek_loop_short :
      {bs : List ℕ} (fuel n : ℕ) (p : Buffer size R)
      → Holds bs p
      → length bs < n
      → n ≤ size
      → p.i + n - p.j < fuel
      → Fails (peek_loop fuel n p) eof (Holds bs)
  unfolding peek_loop
  peek_loop_short zero n p h short small fuel = absurd (omega arith)
  peek_loop_short {bs} (suc f) n p h short small fuel =
      rw (lt→ltb p.j (p.i + n) (omega (arith, h.ordered, held_le p h)), peek_loop)
        (elim (dec_lt (p.j - p.i) (length bs)) [
          | yes more ↦
              Fails-after (λ _. peek_loop f n) (fill_more p h more (omega arith))
                λ q (held, grown).
                  peek_loop_short f n q held short small (omega (arith, h.ordered, held.ordered))
          | no over ↦
              Fails-early (λ _. peek_loop f n)
                (fill_end_of_stream p h (omega arith) (omega (arith, held_le p h)))
        ])

  -- On a buffer in order, with fewer than `n` bytes in its stream and `n` no more than the array
  -- holds, `peek n` answers EOF and loses none of them.
  pub peek_short :
      {bs : List ℕ} (n : ℕ) (p : Buffer size R)
      → Holds bs p
      → length bs < n
      → n ≤ size
      → Fails (peek n p) eof (Holds bs)
  unfolding peek
  peek_short n p h short small =
      peek_loop_short (n + 1) n p h short small (omega (arith, h.ordered))

  -- Moving on by bytes that are in the array takes them off the stream.
  pub Ready-skip :
      (xs ys : List ℕ) (n m : ℕ) {k : ℕ} (p : Buffer size R)
      → Ready k (xs ++ ys) p
      → n + m ≤ k
      → length xs ≡ n
      → Ready {size = size} m ys (record p { i = p.i + n })
  Ready-skip xs ys n m p h fits e =
      let held = h.holding in
      let within : p.i + n ≤ p.j = omega (arith, h.loaded) in
      record {
        holding = record {
          ordered = within;
          bounded = held.bounded;
          sized = held.sized;
          stream =
              ap (λ t. t ++ io.unread p.r) (slice_later p.i n p.j p.b within)
              ∙ sym (drop-append_le _ (io.unread p.r) n (omega (arith, length-held p held)))
              ∙ ap (drop n) held.stream
              ∙ drop-append xs ys n e;
        };
        loaded = omega (arith, h.loaded);
      }

  pub skip_lem :
      (xs ys : List ℕ) (n m : ℕ) {k : ℕ} (p : Buffer size R)
      → Ready k (xs ++ ys) p
      → n + m ≤ k
      → length xs ≡ n
      → Returns (skip n p) tt (Ready m ys)
  unfolding skip
  skip_lem xs ys n m p h fits e = record {
    state = _;
    computes = refl;
    post = Ready-skip xs ys n m p h fits e;
  }

  -- The byte at `i` is the first of the stream, where the array holds one.
  pub current_lem :
      (x : ℕ) (ys : List ℕ) {k : ℕ} (p : Buffer size R) → Ready k (x ∷ ys) p → 1 ≤ k → current p ≡ x
  current_lem x ys p h pos =
      first_of_slice x p.i (p.j - p.i) p.b ys (io.unread p.r) h.holding.stream
        (omega (arith, h.loaded, length-held p h.holding))

  pub next_byte_lem :
      (x : ℕ) (ys : List ℕ) (m : ℕ) {k : ℕ} (p : Buffer size R)
      → Ready k (x ∷ ys) p
      → 1 + m ≤ k
      → Returns (next_byte p) x (Ready m ys)
  unfolding next_byte
  next_byte_lem x ys m p h fits = record {
    state = _;
    computes =
        rw (lt→ltb p.i (length p.b) (omega (arith, h.loaded, h.holding.bounded, h.holding.sized)))
          (ap (λ t. (ok t, record p { i = p.i + 1 })) (current_lem x ys p h (omega arith)));
    post = Ready-skip (x ∷ []) ys 1 m p h fits refl;
  }

  -- `peek` and then `skip` of the same number take the bytes off the stream.
  pub peek_front :
      (xs ys : List ℕ) (n : ℕ) (p : Buffer size R)
      → Holds (xs ++ ys) p
      → length xs ≡ n
      → n ≤ size
      → Returns (peek n p) xs (Ready n (xs ++ ys))
  peek_front xs ys n p h e small =
      rw (take-append xs ys n e) at (peek_enough n p h (omega (arith, length-append xs ys)) small)

  -- `peek` leaves a buffer alone that holds what is asked for.
  pub peek_held :
      (xs ys : List ℕ) (n : ℕ) {k : ℕ} (p : Buffer size R)
      → Ready k (xs ++ ys) p
      → n ≤ k
      → length xs ≡ n
      → peek n p ≡ (ok xs, p)
  unfolding peek peek_loop
  peek_held xs ys n p h fits e =
      let within : p.i + n ≤ p.j = omega (arith, h.loaded) in
      rw (add-one, le→ltb_false p.j (p.i + n) within, peek_loop)
        (ap (λ t. (ok t, p)) (front n p h.holding within ∙ take-append xs ys n e))

  pub peek_loaded :
      (xs ys : List ℕ) (n : ℕ) {k : ℕ} (p : Buffer size R)
      → Ready k (xs ++ ys) p
      → n ≤ k
      → length xs ≡ n
      → Returns (peek n p) xs (Ready k (xs ++ ys))
  peek_loaded xs ys n p h fits e = record {
    state = p;
    computes = peek_held xs ys n p h fits e;
    post = h;
  }
