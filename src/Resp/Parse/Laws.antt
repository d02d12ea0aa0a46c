-- ===== src/Resp/Parse/Laws.antt =====
-- The parser's lines against the stream of bytes that it stands for.
use objconv.Prelude.{
  ℕ, zero, suc, ◌+◌, ◌-◌, ◌≤◌, ◌<◌, ◌==◌, ◌≡◌, ◌≢◌, refl, sym, subst, true, false, ap, ◌∙◌, List,
  [], ◌∷◌, ◌++◌, length, arith, drop, take, ne→==, eq→==, if◌then◌else◌, dec_le, length-append,
  append_assoc, length-drop, lt→ltb, le→ltb_false, take-append, drop-append, drop-append_le,
  take-append_le, drop-drop,
}
use objconv.Go.Outcome.{Outcome, ok, M, ◌>>=◌, ◌>>◌, pure, Returns, Returns-after}
use objconv.Go.Slice.{slice}
use objconv.Go.Io.{Reader}
use objconv.Types.{ValueType}
use objconv.Resp.Line.Laws.{NoCr, index_crlf-short, index_crlf-long}
use objconv.Resp.Parse.{
  Parser, read_size, pack, append_line, line_loop, peek_line, skip_line, parse_type, parse_line,
  returning, type_of_line,
}

module _ {R : Type 0} ⦃io : Reader R⦄ where
  -- `bs` is the stream of the parser, and no line of it is peeked.
  pub record At (bs : List ℕ) (p : Parser R) : Type 0 where
    pub no_line : p.i ≡ 0
    pub within : p.n ≤ length p.s
    pub stream : drop p.n p.s ++ io.unread p.r ≡ bs

  -- The line `xs` is peeked, and `ys` is what follows its end.
  pub record Peeked (xs ys : List ℕ) (p : Parser R) : Type 0 where
    pub ends : p.i ≡ p.n + length xs + 2
    pub within : p.i ≤ length p.s
    pub line : slice p.n (p.i - 2) p.s ≡ xs
    pub behind : drop p.i p.s ++ io.unread p.r ≡ ys

  -- A line that the buffer holds.
  held_line :
      (xs ys : List ℕ) (p : Parser R)
      → NoCr xs
      → At (xs ++ (13 ∷ 10 ∷ ys)) p
      → length xs + 2 ≤ length p.s - p.n
      → (slice p.n (p.n + length xs) p.s ≡ xs) × Peeked xs ys (record p { i = p.n + length xs + 2 })
  held_line xs ys p n h l = (
    front,
    record {
      ends = refl;
      within = omega (arith, h.within);
      line = ap (λ (k : ℕ). take k (drop p.n p.s)) (omega arith) ∙ front';
      behind = after_line;
    },
  )
    where
      front' : take (length xs) (drop p.n p.s) ≡ xs
      front' =
          sym (
            take-append_le (drop p.n p.s) (io.unread p.r) (length xs)
              (omega (arith, length-drop p.n p.s)))
          ∙ ap (take (length xs)) h.stream
          ∙ take-append xs (13 ∷ 10 ∷ ys) (length xs) refl

      front : slice p.n (p.n + length xs) p.s ≡ xs
      front = ap (λ (k : ℕ). take k (drop p.n p.s)) (omega arith) ∙ front'

      after_line : drop (p.n + length xs + 2) p.s ++ io.unread p.r ≡ ys
      after_line =
          ap (λ (k : ℕ). drop k p.s ++ io.unread p.r) (omega arith)
          ∙ ap (λ t. t ++ io.unread p.r) (sym (drop-drop (length xs + 2) p.n p.s))
          ∙ sym (
              drop-append_le (drop p.n p.s) (io.unread p.r) (length xs + 2)
                (omega (arith, length-drop p.n p.s)))
          ∙ ap (drop (length xs + 2)) (h.stream ∙ sym (append_assoc xs (13 ∷ 10 ∷ []) ys))
          ∙ drop-append (xs ++ (13 ∷ 10 ∷ [])) ys (length xs + 2) (length-append xs (13 ∷ 10 ∷ []))

  -- What a call of Read has brought in is behind the bytes of the packed buffer.
  pub At-append :
      {bs : List ℕ} (p : Parser R) (k : ℕ)
      → At bs p
      → At bs (record p { r = (io.read p.r k).next; s = p.s ++ (io.read p.r k).bytes })
  At-append p k h = record {
    no_line = h.no_line;
    within = omega (arith, h.within, length-append p.s (io.read p.r k).bytes);
    stream =
        ap (λ t. t ++ io.unread (io.read p.r k).next)
          (drop-append_le p.s (io.read p.r k).bytes p.n h.within)
        ∙ append_assoc (drop p.n p.s) (io.read p.r k).bytes (io.unread (io.read p.r k).next)
        ∙ ap (λ t. drop p.n p.s ++ t) (io.read_in_order p.r k)
        ∙ h.stream;
  }

  At-pack : {bs : List ℕ} (p : Parser R) → At bs p → At bs (pack p)
  At-pack {bs} p h =
      elim (p.n == 0) as (λ b. At bs (if b then p else record p { s = drop p.n p.s; n = 0 })) [
        | true ↦ h
        | false ↦ record { no_line = h.no_line; within = omega arith; stream = h.stream }
      ]

  pack_reader : (p : Parser R) → (pack p).r ≡ p.r
  pack_reader p =
      elim (p.n == 0) as (λ b. (if b then p else record p { s = drop p.n p.s; n = 0 }).r ≡ p.r) [
        | true ↦ refl
        | false ↦ refl
      ]

  -- A call of Read while the line is not complete: it brings in a byte at least.
  read_more :
      (rest : M (Parser R) (List ℕ)) (q : Parser R) {v : List ℕ} {Q : Parser R → Type 0}
      → io.unread q.r ≢ []
      → let res = io.read q.r read_size in
        (length (io.unread res.next) < length (io.unread q.r)
          → Returns (rest (record q { r = res.next; s = q.s ++ res.bytes })) v Q)
        → Returns (append_line rest q res) v Q
  read_more rest q left next =
      let progress = io.read_progress q.r read_size (omega arith) left in
      rw (lt→ltb 0 (length (io.read q.r read_size).bytes) progress) (
        next (
          omega (
            arith,
            ap length (io.read_in_order q.r read_size),
            length-append (io.read q.r read_size).bytes (io.unread (io.read q.r read_size).next),
            progress,
          )))

  some_left :
      (xs ys : List ℕ) (p : Parser R)
      → At (xs ++ (13 ∷ 10 ∷ ys)) p
      → ¬ (length xs + 2 ≤ length p.s - p.n)
      → io.unread p.r ≢ []
  some_left xs ys p h short e = omega (
    arith,
    ap length h.stream,
    ap length e,
    length-append (drop p.n p.s) (io.unread p.r),
    length-append xs (13 ∷ 10 ∷ ys),
    length-drop p.n p.s,
    short,
  )

  line_loop_lem :
      (fuel : ℕ) (xs ys : List ℕ) (p : Parser R)
      → NoCr xs
      → At (xs ++ (13 ∷ 10 ∷ ys)) p
      → length (io.unread p.r) < fuel
      → Returns (line_loop fuel p) xs (Peeked xs ys)
  unfolding line_loop
  line_loop_lem zero xs ys p n h f = absurd (omega arith)
  line_loop_lem (suc fuel) xs ys p n h f = elim (dec_le (length xs + 2) (length p.s - p.n)) [
    | yes full ↦
        let (value, peeked) = held_line xs ys p n h full in
        rw
          (index_crlf-long (drop p.n p.s) (io.unread p.r) xs ys n h.stream
            (omega (arith, length-drop p.n p.s)))
          (record {
            state = record p { i = p.n + length xs + 2 };
            computes = ap (λ t. (ok t, record p { i = p.n + length xs + 2 })) value;
            post = peeked;
          })
    | no short ↦
        let q = pack p in
        let same = ap (λ r. length (io.unread r)) (pack_reader p) in
        rw
          (index_crlf-short (drop p.n p.s) (io.unread p.r) xs ys n h.stream
            (omega (arith, length-drop p.n p.s)))
          (read_more (line_loop fuel) q
            (subst (λ r. io.unread r ≢ []) (sym (pack_reader p)) (some_left xs ys p h short))
            λ less.
              line_loop_lem fuel xs ys _ n (At-append q read_size (At-pack p h)) (omega arith))
  ]

  -- On a stream that begins with a line, peekLine returns the line, and has seen to it that it is in
  -- the buffer.
  pub peek_line_lem :
      (xs ys : List ℕ) (p : Parser R)
      → NoCr xs
      → At (xs ++ (13 ∷ 10 ∷ ys)) p
      → Returns (peek_line p) xs (Peeked xs ys)
  unfolding peek_line
  peek_line_lem xs ys p n h =
      rw (eq→== p.i 0 h.no_line)
        (line_loop_lem (length (io.unread p.r) + 2) xs ys p n h (omega arith))

  pub peek_again :
      (xs ys : List ℕ) (p : Parser R) → Peeked xs ys p → Returns (peek_line p) xs (Peeked xs ys)
  unfolding peek_line
  peek_again xs ys p h =
      rw
        (
          ne→== p.i 0 (λ e. omega (arith, h.ends, e)),
          le→ltb_false (length p.s) (p.i - 2) (omega (arith, h.within)),
        )
        (record { state = p; computes = ap (λ t. (ok t, p)) h.line; post = h })

  pub skip_line_lem :
      (xs ys : List ℕ) (p : Parser R) → Peeked xs ys p → Returns (skip_line p) tt (At ys)
  unfolding skip_line
  skip_line_lem xs ys p h = record {
    state = record p { n = p.i; i = 0 };
    computes = refl;
    post = record { no_line = refl; within = h.within; stream = h.behind };
  }

  -- ParseType and then a method that parses a line.
  unfoldable pub typed : {A : Type 0} → M (Parser R) A → M (Parser R) (ValueType × A)
  typed m = parse_type >>= λ t. m >>= λ a. pure (t, a)

  pub parse_line_lem :
      {A : Type 0} (f : List ℕ → Outcome A) (xs ys : List ℕ) (a : A) (p : Parser R)
      → Returns (peek_line p) xs (Peeked xs ys)
      → f xs ≡ ok a
      → Returns (parse_line f p) a (At ys)
  parse_line_lem f xs ys a p r g =
      Returns-after (λ line. returning (f line) >>= λ b. skip_line >> pure b) r
        λ q b. rw g (
          Returns-after (λ _. pure a) (skip_line_lem xs ys q b)
            λ u c. record { state = u; computes = refl; post = c })

  pub typed_lem :
      {A : Type 0} (f : List ℕ → Outcome A) (xs ys : List ℕ) (t : ValueType) (a : A) (p : Parser R)
      → NoCr xs
      → At (xs ++ (13 ∷ 10 ∷ ys)) p
      → type_of_line xs ≡ ok t
      → f xs ≡ ok a
      → Returns (typed (parse_line f) p) (t, a) (At ys)
  unfolding typed parse_type
  typed_lem f xs ys t a p n h e g =
      Returns-after (λ u. parse_line f >>= λ b. pure (u, b))
        (Returns-after (λ line. returning (type_of_line line)) (peek_line_lem xs ys p n h)
          λ q b. record { state = q; computes = ap (λ o. (o, q)) e; post = b })
        λ q b.
          Returns-after (λ c. pure (t, c)) (parse_line_lem f xs ys a q (peek_again xs ys q b) g)
            λ u c. record { state = u; computes = refl; post = c }
