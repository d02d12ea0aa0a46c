-- ===== src/Json/Parse/Strings.antt =====
-- A string that the emitter wrote, read back.
use objconv.Prelude.{
  ℕ, suc, zero, ◌+◌, ◌<◌, ◌≡◌, refl, sym, subst, ap, ◌∙◌, List, [], ◌∷◌, ◌++◌, length, arith,
  length-append, true, false, inl, inr, ne→==, take, take-append, Option, none, some, append_assoc,
  append-nil,
}
use objconv.Go.Outcome.{ok, M, after, ◌>>=◌, pure, Returns, Returns-after, Returns-eq}
use objconv.Go.Slice.{slice}
use objconv.Go.Io.{Reader}
use objconv.Types.{ValueType}
use objconv.Buffer.Laws.{Ready, Ready-skip, front, length-held, current_lem}
use objconv.Json.Emit.{quote, backslash, string_bytes}
use objconv.Json.Emit.Laws.{escaped_all, string_bytes-escaped_all}
use objconv.Json.Parse.{
  Parser, skip, peek_byte_at, string_loop, slow_string, fast_string, quoted, parse_string,
  parse_type, remaining,
}
use objconv.Json.Parse.Laws.{
  At, peek_byte_lem, skip_lem, read_byte_lem, remaining_lem, fill_if_empty_lem, parse_type_lem,
}
use objconv.Json.Parse.Escapes.{
  Escaped, Plain, escape_cases, escaped_all-Plain, escaped_all-Escaped,
}
use objconv.Json.Parse.Window.{window_lem}

module _ {R : Type 0} ⦃io : Reader R⦄ where
  -- The next byte is peeked at and taken.
  take_byte :
      {A : Type 0} {v : A} {Q : Parser R → Type 0} (x : ℕ) (ys : List ℕ) {k : ℕ} {s : List ℕ}
      (f : ℕ → M (Parser R) A) (p : Parser R)
      → At s k (x ∷ ys) p
      → ((q : Parser R) → At s 0 ys q → Returns (f x q) v Q)
      → Returns (after (peek_byte_at 0 p) (λ b q. after (skip 1 q) (λ _ r. f b r))) v Q
  take_byte x ys f p h next =
      Returns-after (λ b q. after (skip 1 q) (λ _ r. f b r)) (peek_byte_lem x ys p h)
        λ q a.
          Returns-after (λ _ r. f x r) (skip_lem (x ∷ []) ys 1 0 q a (omega arith) refl)
            (λ r b. next r b)

  -- A round of the loop on a byte that stands for itself, on a backslash, and behind one.
  plain_round :
      {u : List ℕ} {Q : Parser R → Type 0} (fuel : ℕ) (v : List ℕ) (b : ℕ) (rest : List ℕ)
      {s : List ℕ} (p : Parser R)
      → Plain b
      → At s 0 (b ∷ rest) p
      → ((q : Parser R) → At s 0 rest q → Returns (string_loop fuel false (v ++ (b ∷ [])) q) u Q)
      → Returns (string_loop (suc fuel) false v p) u Q
  unfolding string_loop
  plain_round fuel v b rest p plain h next =
      take_byte b rest _ p h λ q a. rw (plain.not_quote, plain.not_backslash) (next q a)

  backslash_round :
      {u : List ℕ} {Q : Parser R → Type 0} (fuel : ℕ) (v rest : List ℕ) {s : List ℕ} (p : Parser R)
      → At s 0 (backslash ∷ rest) p
      → ((q : Parser R) → At s 0 rest q → Returns (string_loop fuel true v q) u Q)
      → Returns (string_loop (suc fuel) false v p) u Q
  unfolding string_loop
  backslash_round fuel v rest p h next =
      take_byte backslash rest _ p h λ q a. rw (append-nil v) (next q a)

  escaped_round :
      {u : List ℕ} {Q : Parser R → Type 0} (fuel : ℕ) (v : List ℕ) (b c : ℕ) (rest : List ℕ)
      {s : List ℕ} (p : Parser R)
      → Escaped b c
      → At s 0 (c ∷ rest) p
      → ((q : Parser R) → At s 0 rest q → Returns (string_loop fuel false (v ++ (b ∷ [])) q) u Q)
      → Returns (string_loop (suc fuel) true v p) u Q
  unfolding string_loop
  escaped_round fuel v b c rest p e h next =
      take_byte c rest _ p h λ q a. rw (e.not_u, e.read) (next q a)

  two_rounds :
      {u : List ℕ} {Q : Parser R → Type 0} (fuel : ℕ) (v : List ℕ) (b c : ℕ) (rest : List ℕ)
      {s : List ℕ} (p : Parser R)
      → Escaped b c
      → At s 0 (backslash ∷ c ∷ rest) p
      → 1 < fuel
      → ((f : ℕ) (q : Parser R)
          → f + 2 ≡ fuel
          → At s 0 rest q
          → Returns (string_loop f false (v ++ (b ∷ [])) q) u Q)
      → Returns (string_loop fuel false v p) u Q
  two_rounds zero v b c rest p e h l next = absurd (omega arith)
  two_rounds (suc zero) v b c rest p e h l next = absurd (omega arith)
  two_rounds (suc (suc f)) v b c rest p e h l next =
      backslash_round (suc f) v (c ∷ rest) p h
        λ q a. escaped_round f v b c rest q e a λ r d. next f r (omega arith) d

  string_loop_lem :
      (fuel : ℕ) (v w ys : List ℕ) {s : List ℕ} (p : Parser R)
      → At s 0 (escaped_all w ++ (quote ∷ ys)) p
      → length (escaped_all w) < fuel
      → Returns (string_loop fuel false v p) (v ++ w) (At [] 0 ys)
  unfolding string_loop escaped_all
  string_loop_lem zero v w ys p h f = absurd (omega arith)
  string_loop_lem (suc fuel) v [] ys p h f = take_byte quote ys _ p h λ q a. record {
    state = record q { s = [] };
    computes = ap (λ t. (ok t, record q { s = [] })) (sym (append-nil v));
    post = record { ready = a.ready; kept = refl };
  }
  string_loop_lem (suc fuel) v (b ∷ w) ys {s} p h f =
      let again =
        λ (g : ℕ) (q : Parser R) (a : At s 0 (escaped_all w ++ (quote ∷ ys)) q)
            (l : length (escaped_all w) < g).
          Returns-eq (append_assoc v (b ∷ []) w) (string_loop_lem g (v ++ (b ∷ [])) w ys q a l) in
      elim (escape_cases b) [
        | inr plain ↦
            let eq = escaped_all-Plain b w plain in
            plain_round fuel v b (escaped_all w ++ (quote ∷ ys)) p plain
              (subst (λ t. At s 0 (t ++ (quote ∷ ys)) p) eq h)
              λ q a. again fuel q a (omega (arith, ap length eq))
        | inl (c, e) ↦
            let eq = escaped_all-Escaped b c w e in
            two_rounds (suc fuel) v b c (escaped_all w ++ (quote ∷ ys)) p e
              (subst (λ t. At s 0 (t ++ (quote ∷ ys)) p) eq h) (omega (arith, ap length eq))
              λ g q l a. again g q a (omega (arith, ap length eq))
      ]

string_stream : (w ys : List ℕ) → string_bytes w ++ ys ≡ quote ∷ (escaped_all w ++ (quote ∷ ys))
string_stream w ys =
    ap (λ t. t ++ ys) (string_bytes-escaped_all w)
    ∙ ap (λ t. quote ∷ t) (append_assoc (escaped_all w) (quote ∷ []) ys)

module _ {R : Type 0} ⦃io : Reader R⦄ where
  -- What is left behind a string.
  abbrev pub Left : List ℕ → Parser R → Type 0
  Left ys p = Ready 0 ys p.buf

  slow_string_lem :
      (w ys : List ℕ) {k : ℕ} {s : List ℕ} (p : Parser R)
      → At s k (quote ∷ (escaped_all w ++ (quote ∷ ys))) p
      → Returns (slow_string p) w (Left ys)
  unfolding slow_string
  slow_string_lem w ys p h =
      Returns-after _ (read_byte_lem quote (escaped_all w ++ (quote ∷ ys)) p h) λ q a.
        let long = length-append (escaped_all w) (quote ∷ ys) in
        let r =
          string_loop_lem (remaining q + 1) [] w ys q a (omega (arith, remaining_lem q a, long)) in
        record { state = r.state; computes = r.computes; post = r.post.ready }

  window_string_lem :
      (w ys : List ℕ) (o : ℕ) {s : List ℕ} (p : Parser R)
      → At s 1 (quote ∷ (escaped_all w ++ (quote ∷ ys))) p
      → quoted (slice (p.buf.i + 1) p.buf.j p.buf.b) ≡ some o
      → Returns
          (after (skip (o + 2) p) (λ _. pure (slice (p.buf.i + 1) (p.buf.i + 1 + o) p.buf.b)))
          w
          (Left ys)
  window_string_lem w ys o {s} p h f =
      let rest = escaped_all w ++ (quote ∷ ys) in
      let next = Ready-skip (quote ∷ []) rest 1 0 p.buf h.ready (omega arith) refl in
      let b = record p.buf { i = p.buf.i + 1 } in
      let (same, long, fits) =
        window_lem w ys (slice b.i b.j b.b) (io.unread b.r) o next.holding.stream f in
      let wide = length-held b next.holding in
      let value : slice b.i (b.i + o) b.b ≡ w =
        front o b next.holding (omega arith)
        ∙ ap (λ t. take o (t ++ (quote ∷ ys))) same
        ∙ take-append w (quote ∷ ys) o long in
      let stream : quote ∷ rest ≡ (quote ∷ (w ++ (quote ∷ []))) ++ ys =
        ap (λ t. quote ∷ (t ++ (quote ∷ ys))) same
        ∙ ap (λ t. quote ∷ t) (sym (append_assoc w (quote ∷ []) ys)) in
      let all : At s (o + 2) ((quote ∷ (w ++ (quote ∷ []))) ++ ys) p =
        subst (λ t. At s (o + 2) t p) stream
          (record {
            ready = record { holding = h.ready.holding; loaded = omega arith };
            kept = h.kept;
          }) in
      let r =
        skip_lem (quote ∷ (w ++ (quote ∷ []))) ys (o + 2) 0 p all (omega arith)
          (omega (arith, length-append w (quote ∷ []))) in
      Returns-after (λ _. pure (slice b.i (b.i + o) b.b)) r
        λ q a. record { state = q; computes = ap (λ t. (ok t, q)) value; post = a.ready }

  fast_string_lem :
      (w ys : List ℕ) {s : List ℕ} (p : Parser R)
      → At s 1 (quote ∷ (escaped_all w ++ (quote ∷ ys))) p
      → Returns (fast_string p) w (Left ys)
  fast_string_lem w ys p h =
      rw
        (
          ne→== p.buf.i p.buf.j (λ e. omega (arith, h.ready.loaded, e)),
          current_lem quote (escaped_all w ++ (quote ∷ ys)) p.buf h.ready (omega arith),
        )
        (by_window (quoted (slice (p.buf.i + 1) p.buf.j p.buf.b)) refl)
    where
      by_window :
          (o : Option ℕ)
          → quoted (slice (p.buf.i + 1) p.buf.j p.buf.b) ≡ o
          → Returns
              (elim o [
                | none ↦ slow_string p
                | some off ↦
                    after
                      (skip (off + 2) p)
                      (λ _. pure (slice (p.buf.i + 1) (p.buf.i + 1 + off) p.buf.b))
              ])
              w
              (Left ys)
      by_window none e = slow_string_lem w ys p h
      by_window (some o) e = window_string_lem w ys o p h e

  -- ParseType and then ParseString.
  unfoldable pub typed_string : M (Parser R) (ValueType × List ℕ)
  typed_string = parse_type >>= λ t. parse_string >>= λ v. pure (t, v)

  parse_string_lem :
      (w ys : List ℕ) {k : ℕ} {s : List ℕ} (p : Parser R)
      → At s k (quote ∷ (escaped_all w ++ (quote ∷ ys))) p
      → Returns (parse_string p) w (Left ys)
  unfolding parse_string
  parse_string_lem w ys p h =
      Returns-after _ (fill_if_empty_lem quote (escaped_all w ++ (quote ∷ ys)) p h)
        λ q a. fast_string_lem w ys q a

  -- Behind whatever the parser has read before, ParseType and ParseString on the bytes that
  -- EmitString writes for a string, and any bytes behind them, return the type string and the
  -- string itself, and leave those bytes: whether the string fits into the read buffer or not, and
  -- whichever way it is escaped.
  pub typed_string-string_bytes :
      (w ys : List ℕ) (p : Parser R)
      → Left (string_bytes w ++ ys) p
      → Returns (typed_string p) (ValueType.string, w) (Left ys)
  unfolding typed_string
  typed_string-string_bytes w ys p h =
      let rest = escaped_all w ++ (quote ∷ ys) in
      let a : At p.s 0 (quote ∷ rest) p = record {
        ready = subst (λ t. Ready 0 t p.buf) (string_stream w ys) h;
        kept = refl;
      } in
      Returns-after (λ t. parse_string >>= λ v. pure (t, v))
        (parse_type_lem quote rest p refl a
          (λ q b. record { state = q; computes = refl; post = b }))
        λ q b.
          Returns-after (λ v. pure (ValueType.string, v)) (parse_string_lem w ys q b)
            λ r c. record { state = r; computes = refl; post = c }
