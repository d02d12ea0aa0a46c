-- ===== src/Json/Parse/Laws.antt =====
-- The steps that the parser's methods are made of, against the stream that its buffer holds.
use objconv.Prelude.{
  ℕ, ◌+◌, ◌≤◌, ◌==◌, ◌≡◌, refl, ap, List, [], ◌∷◌, ◌++◌, length, arith, length-append, false,
  Bool-cases, inl, inr, ne→==, ==→eq, eq→==, ==_false→lt, ◌≢◌,
}
use objconv.Prelude.Bytes.{byte_at}
use native.Mathlib.Numerals.{add-one}
use objconv.Go.Outcome.{M, pure, Returns, Returns-after}
use objconv.Go.Slice.{slice}
use objconv.Go.Io.{Reader}
use objconv.Types.{ValueType}
use objconv.Buffer
use objconv.Buffer.{Buffer}
use objconv.Buffer.Laws.{Holds, Ready, Ready-skip, peek_enough, fill_more, current_lem, length-held}
use objconv.Json.Parse.{
  Parser, buffer_size, on_buffer, peek, fill, skip, peek_byte_at, fill_if_empty, read_byte,
  remaining, skip_spaces, skip_spaces_loop, skip_round, leading_spaces, is_space, parse_type,
  type_of_byte,
}

no_spaces :
    (x : ℕ) (ys bs zs : List ℕ) → is_space x ≡ false → bs ++ zs ≡ x ∷ ys → leading_spaces bs ≡ 0
unfolding leading_spaces
no_spaces x ys [] zs solid e = refl
no_spaces x ys (b ∷ bs) zs solid e = let first : b ≡ x = cc in rw (first, solid) refl

module _ {R : Type 0} ⦃io : Reader R⦄ where
  -- The stream of the parser is `bs`, of which at least `k` bytes are in the array, and `s` is as
  -- given.
  pub record At (s : List ℕ) (k : ℕ) (bs : List ℕ) (p : Parser R) : Type 0 where
    pub ready : Ready k bs p.buf
    pub kept : p.s ≡ s

  pub Returns-on_buffer :
      {A : Type 0} (m : M (Buffer buffer_size R) A) (p : Parser R) {v : A} {k : ℕ} {s bs : List ℕ}
      → p.s ≡ s
      → Returns (m p.buf) v (Ready k bs)
      → Returns (on_buffer m p) v (At s k bs)
  Returns-on_buffer m p e x = record {
    state = record p { buf = x.state };
    computes = rw x.computes;
    post = record { ready = x.post; kept = e };
  }

  -- Peeking at the first byte.
  pub peek_byte_lem :
      (x : ℕ) (ys : List ℕ) {k : ℕ} {s : List ℕ} (p : Parser R)
      → At s k (x ∷ ys) p
      → Returns (peek_byte_at 0 p) x (At s 1 (x ∷ ys))
  unfolding peek_byte_at peek
  peek_byte_lem x ys p h =
      Returns-after (λ b. pure (byte_at b 0))
        (Returns-on_buffer (Buffer.peek 1) p h.kept
          (peek_enough 1 p.buf h.ready.holding (omega arith) (omega arith)))
        λ q a. record { state = q; computes = refl; post = a }

  pub skip_lem :
      (xs ys : List ℕ) (n m : ℕ) {k : ℕ} {s : List ℕ} (p : Parser R)
      → At s k (xs ++ ys) p
      → n + m ≤ k
      → length xs ≡ n
      → Returns (skip n p) tt (At s m ys)
  skip_lem xs ys n m p h fits e =
      Returns-on_buffer (Buffer.skip n) p h.kept
        (Buffer.Laws.skip_lem xs ys n m p.buf h.ready fits e)

  -- The next byte is as wanted.
  pub read_byte_lem :
      (x : ℕ) (ys : List ℕ) {k : ℕ} {s : List ℕ} (p : Parser R)
      → At s k (x ∷ ys) p
      → Returns (read_byte x p) tt (At s 0 ys)
  unfolding read_byte
  read_byte_lem x ys p h =
      Returns-after _ (peek_byte_lem x ys p h)
        λ q a. rw (eq→== x x refl) (skip_lem (x ∷ []) ys 1 0 q a (omega arith) refl)

  pub remaining_lem : {k : ℕ} {s bs : List ℕ} (p : Parser R) → At s k bs p → remaining p ≡ length bs
  remaining_lem p h = omega (
    arith,
    ap length h.ready.holding.stream,
    length-append (slice p.buf.i p.buf.j p.buf.b) (io.unread p.buf.r),
    length-held p.buf h.ready.holding,
  )

  pub fill_if_empty_lem :
      (x : ℕ) (ys : List ℕ) {k : ℕ} {s : List ℕ} (p : Parser R)
      → At s k (x ∷ ys) p
      → Returns (fill_if_empty p) tt (At s 1 (x ∷ ys))
  unfolding fill
  fill_if_empty_lem x ys {s = s} p h = elim (Bool-cases (p.buf.i == p.buf.j)) [
    | inl empty ↦
        let e = ==→eq _ _ empty in
        let r = fill_more p.buf h.ready.holding (omega (arith)) (omega arith) in
        rw empty (
          Returns-on_buffer Buffer.fill p h.kept (record {
            state = r.state;
            computes = r.computes;
            post = record {
              holding = r.post.0;
              loaded = omega (arith, r.post.1, r.post.0.ordered);
            };
          }))
    | inr full ↦ rw full (record {
      state = p;
      computes = refl;
      post = record {
        ready = record {
          holding = h.ready.holding;
          loaded = omega (arith, ==_false→lt p.buf.i p.buf.j h.ready.holding.ordered full);
        };
        kept = h.kept;
      };
    })
  ]

  skip_round_lem :
      (x : ℕ) (ys : List ℕ) {s : List ℕ} (rest : M (Parser R) (Unit {0})) (q : Parser R)
      → is_space x ≡ false
      → At s 1 (x ∷ ys) q
      → Returns (skip_round rest q) tt (At s 1 (x ∷ ys))
  skip_round_lem x ys rest q solid a =
      let window = slice q.buf.i q.buf.j q.buf.b in
      let wide = length-held q.buf a.ready.holding in
      let more : 0 ≢ length window = λ e. omega (arith, a.ready.loaded, wide, e) in
      rw
        (
          no_spaces x ys window (io.unread q.buf.r) solid a.ready.holding.stream,
          ne→== 0 (length window) more,
        )
        (skip_lem [] (x ∷ ys) 0 1 q a (omega arith) refl)

  -- In front of a byte that is no space, skipSpaces only sees to it that the byte is in the array.
  pub skip_spaces_lem :
      (x : ℕ) (ys : List ℕ) {k : ℕ} {s : List ℕ} (p : Parser R)
      → is_space x ≡ false
      → At s k (x ∷ ys) p
      → Returns (skip_spaces p) tt (At s 1 (x ∷ ys))
  unfolding skip_spaces skip_spaces_loop
  skip_spaces_lem x ys p solid h = rw add-one (
      Returns-after _ (fill_if_empty_lem x ys p h)
        λ q a. skip_round_lem x ys (skip_spaces_loop (remaining p)) q solid a)

  -- ParseType in front of a byte that is no space decides by that byte.
  pub parse_type_lem :
      {t : ValueType} {Q : Parser R → Type 0} (x : ℕ) (ys : List ℕ) {k : ℕ} {s : List ℕ}
      (p : Parser R)
      → is_space x ≡ false
      → At s k (x ∷ ys) p
      → ((q : Parser R) → At s 1 (x ∷ ys) q → Returns (type_of_byte x q) t Q)
      → Returns (parse_type p) t Q
  unfolding parse_type
  parse_type_lem x ys p solid h next =
      Returns-after type_of_byte
        (Returns-after (λ _. peek_byte_at 0) (skip_spaces_lem x ys p solid h)
          (λ q a. peek_byte_lem x ys q a))
        next
