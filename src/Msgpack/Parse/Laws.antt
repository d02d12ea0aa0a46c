-- ===== src/Msgpack/Parse/Laws.antt =====
-- The steps that the parser's methods are made of, against the stream that its buffer holds.
use objconv.Prelude.{ℕ, ◌+◌, ◌≤◌, ◌≡◌, refl, subst, List, [], ◌∷◌, ◌++◌, length, arith}
use objconv.Prelude.Bytes.{byte_at}
use objconv.Go.Outcome.{ok, M, after, ◌>>=◌, ◌>>◌, pure, Returns, Returns-after}
use objconv.Go.Io.{Reader}
use objconv.Types.{ValueType}
use objconv.Buffer
use objconv.Buffer.{Buffer, buffer_size}
use objconv.Buffer.Laws.{Ready, peek_front, peek_loaded, skip_lem, next_byte_lem}
use objconv.Msgpack.Parse.{Parser, on_buffer, peek, skip, next_byte, type_of_tag, parse_type}

module _ {R : Type 0} ⦃io : Reader R⦄ where
  -- The stream of the parser is `bs`, and at least `k` bytes of it are in the array.
  abbrev pub At : ℕ → List ℕ → Parser R → Type 0
  At k bs p = Ready k bs p.buf

  pub recode :
      {k : ℕ} {bs cs : List ℕ}
      → bs ≡ cs
      → (ys : List ℕ) (p : Parser R) → At k (bs ++ ys) p
      → At k (cs ++ ys) p
  recode {k} e ys p h = subst (λ t. At k (t ++ ys) p) e h

  pub Returns-on_buffer :
      {A : Type 0} (m : M (Buffer buffer_size R) A) (p : Parser R) {v : A}
      {Q : Buffer buffer_size R → Type 0}
      → Returns (m p.buf) v Q
      → Returns (on_buffer m p) v (λ (q : Parser R). Q q.buf)
  Returns-on_buffer m p x = record {
    state = record p { buf = x.state };
    computes = rw x.computes;
    post = x.post;
  }

  pub peek_lem :
      (xs ys : List ℕ) (n : ℕ) {k : ℕ} (p : Parser R)
      → At k (xs ++ ys) p
      → length xs ≡ n
      → n ≤ buffer_size
      → Returns (peek n p) xs (At n (xs ++ ys))
  unfolding peek
  peek_lem xs ys n p h e small =
      Returns-on_buffer (Buffer.peek n) p (peek_front xs ys n p.buf h.holding e small)

  pub peek_again :
      (xs ys : List ℕ) (n : ℕ) {k : ℕ} (p : Parser R)
      → At k (xs ++ ys) p
      → n ≤ k
      → length xs ≡ n
      → Returns (peek n p) xs (At k (xs ++ ys))
  unfolding peek
  peek_again xs ys n p h fits e =
      Returns-on_buffer (Buffer.peek n) p (peek_loaded xs ys n p.buf h fits e)

  pub skip_front :
      (xs ys : List ℕ) (n m : ℕ) {k : ℕ} (p : Parser R)
      → At k (xs ++ ys) p
      → n + m ≤ k
      → length xs ≡ n
      → Returns (skip n p) tt (At m ys)
  skip_front xs ys n m p h fits e =
      Returns-on_buffer (Buffer.skip n) p (skip_lem xs ys n m p.buf h fits e)

  pub next_byte_front :
      (x : ℕ) (ys : List ℕ) (m : ℕ) {k : ℕ} (p : Parser R)
      → At k (x ∷ ys) p
      → 1 + m ≤ k
      → Returns (next_byte p) x (At m ys)
  next_byte_front x ys m p h fits =
      Returns-on_buffer Buffer.next_byte p (next_byte_lem x ys m p.buf h fits)

  -- `peek`, `skip` and a value made of the bytes.
  pub fixed_lem :
      {A : Type 0} (f : List ℕ → A) (xs ys : List ℕ) (n : ℕ) {k : ℕ} (p : Parser R)
      → At k (xs ++ ys) p
      → length xs ≡ n
      → n ≤ buffer_size
      → Returns ((peek n >>= λ b. skip n >> pure (f b)) p) (f xs) (At 0 ys)
  fixed_lem f xs ys n p h e small =
      Returns-after (λ b. skip n >> pure (f b)) (peek_lem xs ys n p h e small)
        λ q a.
          Returns-after (λ _. pure (f xs)) (skip_front xs ys n 0 q a (omega arith) e)
            λ r b. record { state = r; computes = refl; post = b }

  pub parse_type_lem :
      (tag : ℕ) (ys : List ℕ) (t : ValueType) {k : ℕ} (p : Parser R)
      → At k (tag ∷ ys) p
      → ((q : Parser R) → type_of_tag tag q ≡ (ok t, q))
      → Returns (parse_type p) t (At 1 (tag ∷ ys))
  unfolding parse_type
  parse_type_lem tag ys t p h known =
      Returns-after (λ b. type_of_tag (byte_at b 0))
        (peek_lem (tag ∷ []) ys 1 p h refl (omega arith))
        λ q a. record { state = q; computes = known q; post = a }

  -- What a decoder does: it asks for the type, and then for the value.
  abbrev pub typed : {A : Type 0} → M (Parser R) A → M (Parser R) (ValueType × A)
  typed m = do t ← parse_type; v ← m; pure (t, v)

  pub typed_lem :
      {A : Type 0} (m : M (Parser R) A) (tag : ℕ) (ys : List ℕ) (t : ValueType) {v : A}
      {Q : Parser R → Type 0} {k : ℕ} (p : Parser R)
      → At k (tag ∷ ys) p
      → ((q : Parser R) → type_of_tag tag q ≡ (ok t, q))
      → ((q : Parser R) → At 1 (tag ∷ ys) q → Returns (m q) v Q)
      → Returns (typed m p) (t, v) Q
  typed_lem m tag ys t {v} p h known next =
      Returns-after (λ t'. m >>= λ v'. pure (t', v')) (parse_type_lem tag ys t p h known)
        λ q a.
          Returns-after (λ v'. pure (t, v')) (next q a)
            λ r b. record { state = r; computes = refl; post = b }

  -- The same for a method that reads the tag first, and goes on by it.
  pub typed_step :
      {A : Type 0} (m : M (Parser R) A) (body : ℕ → M (Parser R) A) (tag : ℕ) (xs ys bs : List ℕ)
      (t : ValueType) {v : A} {Q : Parser R → Type 0} {k : ℕ} (p : Parser R)
      → At k (bs ++ ys) p
      → ((q : Parser R) → m q ≡ after (next_byte q) body)
      → bs ≡ tag ∷ xs
      → ((q : Parser R) → type_of_tag tag q ≡ (ok t, q))
      → ((q : Parser R) → At 0 (xs ++ ys) q → Returns (body tag q) v Q)
      → Returns (typed m p) (t, v) Q
  typed_step m body tag xs ys bs t p h is e known next =
      typed_lem m tag (xs ++ ys) t p (recode e ys p h) known λ q a.
        rw (is q) (Returns-after body (next_byte_front tag (xs ++ ys) 0 q a (omega arith)) next)
