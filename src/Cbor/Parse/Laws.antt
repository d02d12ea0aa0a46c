-- ===== src/Cbor/Parse/Laws.antt =====
-- The steps that the parser's methods are made of, against the stream that its buffer holds.
use objconv.Prelude.{
  ℕ, suc, ◌+◌, ◌*◌, ◌%◌, ◌^◌, ◌≤◌, ◌<◌, ◌≡◌, refl, sym, ap, ◌∙◌, subst, List, [], ◌∷◌, ◌++◌, length,
  arith, false, dec_le, ne→==, eq→==, le→leb, lt→leb_false,
}
use objconv.Prelude.Masks.{mask_e0, mask_1f, join_e0}
use objconv.Prelude.Bytes.{byte_at, put_uint16, put_uint32, put_uint64}
use objconv.Go.Outcome.{ok, M, ◌>>=◌, ◌>>◌, pure, Returns, Returns-after}
use objconv.Go.Io.{Reader}
use objconv.Types.{ValueType}
use objconv.Buffer
use objconv.Buffer.{Buffer, buffer_size}
use objconv.Buffer.Laws.{Ready, peek_front, skip_lem, current_lem}
use objconv.Cbor.Major.{
  no_tag, major_byte, major_type, minor_value, i_uint8, i_uint16, i_uint32, i_uint64,
}
use objconv.Cbor.Emit.{head_bytes}
use objconv.Cbor.State.{Parser, on_buffer, peek, skip, set_tag}
use objconv.Cbor.Parse.{parse_head, head_size, head_value, parse_type, parse_type_loop}

pub major_byte_sum : (m v : ℕ) → m < 8 → v < 32 → major_byte m v ≡ m * 32 + v
unfolding major_byte
major_byte_sum m v h k = ground (arith, join_e0 (m * 32 + v))

pub major_type-major_byte : (m v : ℕ) → m < 8 → v < 32 → major_type (major_byte m v) ≡ m
unfolding major_type
major_type-major_byte m v h k =
    rw (major_byte_sum m v h k, mask_e0 (m * 32 + v) (omega arith)) (omega arith)

pub minor_value-major_byte : (m v : ℕ) → m < 8 → v < 32 → minor_value (major_byte m v) ≡ v
unfolding minor_value
minor_value-major_byte m v h k =
    rw (major_byte_sum m v h k, mask_1f (m * 32 + v) (omega arith)) (omega arith)

-- `q` holds `bs`, with at least `k` of these bytes in the array, and has the tag and the stack
-- of `p`.
pub record Moved {R : Type 0} ⦃io : Reader R⦄ (p : Parser R) (k : ℕ) (bs : List ℕ) (q : Parser R)
    : Type 0 where
  pub ready : Ready k bs q.buf
  pub same_tag : q.tag ≡ p.tag
  pub same_type : q.typ ≡ p.typ
  pub same_stack : q.stack ≡ p.stack
  pub same_string : q.s ≡ p.s

module _ {R : Type 0} ⦃io : Reader R⦄ where
  pub Moved-refl : {k : ℕ} {bs : List ℕ} (p : Parser R) → Ready k bs p.buf → Moved p k bs p
  Moved-refl p h = record {
    ready = h;
    same_tag = refl;
    same_type = refl;
    same_stack = refl;
    same_string = refl;
  }

  pub Returns-on_buffer :
      {A : Type 0} (m : M (Buffer buffer_size R) A) {p : Parser R} (q : Parser R) {v : A} {j k : ℕ}
      {bs cs : List ℕ}
      → Moved p j bs q
      → Returns (m q.buf) v (Ready k cs)
      → Returns (on_buffer m q) v (Moved p k cs)
  Returns-on_buffer m q h x = record {
    state = record q { buf = x.state };
    computes = rw x.computes;
    post = record {
      ready = x.post;
      same_tag = h.same_tag;
      same_type = h.same_type;
      same_stack = h.same_stack;
      same_string = h.same_string;
    };
  }

  pub peek_lem :
      (xs ys : List ℕ) (n : ℕ) {k : ℕ} {p : Parser R} (q : Parser R)
      → Moved p k (xs ++ ys) q
      → length xs ≡ n
      → n ≤ buffer_size
      → Returns (peek n q) xs (Moved p n (xs ++ ys))
  unfolding peek
  peek_lem xs ys n q h e small =
      Returns-on_buffer (Buffer.peek n) q h (peek_front xs ys n q.buf h.ready.holding e small)

  pub skip_front :
      (xs ys : List ℕ) (n m : ℕ) {k : ℕ} {p : Parser R} (q : Parser R)
      → Moved p k (xs ++ ys) q
      → n + m ≤ k
      → length xs ≡ n
      → Returns (skip n q) tt (Moved p m ys)
  skip_front xs ys n m q h fits e =
      Returns-on_buffer (Buffer.skip n) q h (skip_lem xs ys n m q.buf h.ready fits e)

  short_head :
      (m v : ℕ) (ys : List ℕ) {k : ℕ} {p : Parser R} (q : Parser R)
      → Moved p k (major_byte m v ∷ ys) q
      → m < 8
      → v ≤ 23
      → Returns (parse_head q) (v, false) (Moved p 0 ys)
  unfolding parse_head
  short_head m v ys q h hm hv =
      Returns-after _ (peek_lem (major_byte m v ∷ []) ys 1 q h refl (omega arith)) λ r a.
        let low = minor_value-major_byte m v hm (omega arith) in
        rw (low, le→leb v 23 hv)
          (Returns-after _ (skip_front (major_byte m v ∷ []) ys 1 0 r a (omega arith) refl)
            λ s b. record { state = s; computes = refl; post = b })

  long_head :
      (m b n v : ℕ) (xs ys : List ℕ) {k : ℕ} {p : Parser R} (q : Parser R)
      → Moved p k (major_byte m b ∷ xs ++ ys) q
      → m < 8
      → 23 < b
      → b < 31
      → head_size b ≡ n
      → suc (length xs) ≡ n
      → n ≤ 9
      → head_value b (major_byte m b ∷ xs) ≡ v
      → Returns (parse_head q) (v, false) (Moved p 0 ys)
  unfolding parse_head
  long_head m b n v xs ys q h hm lo hi size l small value =
      let front = major_byte m b ∷ xs in
      Returns-after _ (peek_lem (major_byte m b ∷ []) (xs ++ ys) 1 q h refl (omega arith)) λ r a.
        let low = minor_value-major_byte m b hm (omega arith) in
        rw (low, lt→leb_false b 23 lo, ne→== b 31 (omega arith), size)
          (Returns-after _ (peek_lem front ys n r a l (omega arith)) λ s c.
            Returns-after _ (skip_front front ys n 0 s c (omega arith) l)
              λ t d. record { state = t; computes = ap (λ w. (ok (w, false), t)) value; post = d })

  pub recode :
      {k : ℕ} {bs cs : List ℕ} {p : Parser R}
      → bs ≡ cs
      → (ys : List ℕ) (q : Parser R) → Moved p k (bs ++ ys) q
      → Moved p k (cs ++ ys) q
  recode {k} {p = p} e ys q h = subst (λ t. Moved p k (t ++ ys) q) e h

  -- At the front of the stream of a parser that is in order, parseUint reads back the head that
  -- emitUint writes, for every major type and every number of 64 bits, and consumes exactly the
  -- head.
  pub parse_head-head_bytes :
      (m v : ℕ) (ys : List ℕ) {k : ℕ} {p : Parser R} (q : Parser R)
      → m < 8
      → v < 2 ^ 64
      → Moved p k (head_bytes m v ++ ys) q
      → Returns (parse_head q) (v, false) (Moved p 0 ys)
  unfolding head_size head_value
  parse_head-head_bytes m v ys q hm fits h = elim (dec_le v 23) [
    | yes a ↦
        let e : head_bytes m v ≡ major_byte m v ∷ [] = unfold head_bytes in ground arith in
        short_head m v ys q (recode e ys q h) hm a
    | no a ↦ elim (dec_le v 255) [
      | yes b ↦
          let xs : List ℕ = (v % 2 ^ 8) ∷ [] in
          let e : head_bytes m v ≡ major_byte m i_uint8 ∷ xs = unfold head_bytes in ground arith in
          long_head m i_uint8 2 v xs ys q (recode e ys q h) hm (omega arith) (omega arith) refl refl
            (omega arith) (omega arith)
      | no b ↦ elim (dec_le v 65535) [
        | yes c ↦
            let xs : List ℕ = put_uint16 (v % 2 ^ 16) in
            let e : head_bytes m v ≡ major_byte m i_uint16 ∷ xs =
              unfold head_bytes in ground arith in
            long_head m i_uint16 3 v xs ys q (recode e ys q h) hm (omega arith) (omega arith) refl
              refl (omega arith) (omega arith)
        | no c ↦ elim (dec_le v 4294967295) [
          | yes d ↦
              let xs : List ℕ = put_uint32 (v % 2 ^ 32) in
              let e : head_bytes m v ≡ major_byte m i_uint32 ∷ xs =
                unfold head_bytes in ground arith in
              long_head m i_uint32 5 v xs ys q (recode e ys q h) hm (omega arith) (omega arith) refl
                refl (omega arith) (omega arith)
          | no d ↦
              let xs : List ℕ = put_uint64 v in
              let e : head_bytes m v ≡ major_byte m i_uint64 ∷ xs =
                unfold head_bytes in ground arith in
              long_head m i_uint64 9 v xs ys q (recode e ys q h) hm (omega arith) (omega arith) refl
                refl (omega arith) (omega arith)
        ]
      ]
    ]
  ]

  -- The type of an item that no tag precedes, from its first byte.
  pub parse_type_lem :
      (first : ℕ) (ys : List ℕ) (t : ValueType) {k : ℕ} {p : Parser R} (q : Parser R)
      → Moved p k (first ∷ ys) q
      → p.tag ≡ no_tag
      → ((r : Parser R)
          → byte_at r.buf.b r.buf.i ≡ first
          → parse_type_loop 2 r.buf.i false r ≡ (ok t, r))
      → Returns (parse_type q) t (Moved p 1 (first ∷ ys))
  unfolding parse_type
  parse_type_lem first ys t q h idle known = rw (eq→== q.tag no_tag (h.same_tag ∙ idle)) (
      Returns-after _ (peek_lem (first ∷ []) ys 1 q h refl (omega arith)) λ r a. record {
        state = r;
        computes = known r (current_lem first ys r.buf a.ready (omega arith));
        post = a;
      })

  -- What a decoder does: it asks for the type, and then for the value.
  abbrev pub typed : {A : Type 0} → M (Parser R) A → M (Parser R) (ValueType × A)
  typed m = do t ← parse_type; v ← m; pure (t, v)

  pub typed_lem :
      {A : Type 0} (m : M (Parser R) A) (first : ℕ) (ys : List ℕ) (t : ValueType) {v : A}
      {Q : Parser R → Type 0} {k : ℕ} {p : Parser R} (q : Parser R)
      → Moved p k (first ∷ ys) q
      → p.tag ≡ no_tag
      → ((r : Parser R)
          → byte_at r.buf.b r.buf.i ≡ first
          → parse_type_loop 2 r.buf.i false r ≡ (ok t, r))
      → ((r : Parser R) → Moved p 1 (first ∷ ys) r → Returns (m r) v Q)
      → Returns (typed m q) (t, v) Q
  typed_lem m first ys t {v} q h idle known next =
      Returns-after (λ t'. m >>= λ v'. pure (t', v')) (parse_type_lem first ys t q h idle known)
        λ r a.
          Returns-after (λ v'. pure (t, v')) (next r a)
            λ s b. record { state = s; computes = refl; post = b }

  -- p.tag = noTag at the end of a method.
  pub settle :
      {A : Type 0} (v : A) {k : ℕ} {ys : List ℕ} {p : Parser R} (q : Parser R)
      → Moved p k ys q
      → p.tag ≡ no_tag
      → Returns ((set_tag no_tag >> pure v) q) v (Moved p k ys)
  settle v q h idle = record {
    state = record q { tag = no_tag };
    computes = refl;
    post = record {
      ready = h.ready;
      same_tag = sym idle;
      same_type = h.same_type;
      same_stack = h.same_stack;
      same_string = h.same_string;
    };
  }

-- The first byte of a head.
pub head_first :
    (m v : ℕ) → (b : ℕ) × (xs : List ℕ) × (head_bytes m v ≡ major_byte m b ∷ xs) × (b < 32)
unfolding head_bytes
head_first m v = elim (dec_le v 23) [
  | yes a ↦ (v % 2 ^ 8, [], ground arith, omega arith)
  | no a ↦ elim (dec_le v 255) [
    | yes b ↦ (i_uint8, (v % 2 ^ 8) ∷ [], ground arith, omega arith)
    | no b ↦ elim (dec_le v 65535) [
      | yes c ↦ (i_uint16, put_uint16 (v % 2 ^ 16), ground arith, omega arith)
      | no c ↦ elim (dec_le v 4294967295) [
        | yes d ↦ (i_uint32, put_uint32 (v % 2 ^ 32), ground arith, omega arith)
        | no d ↦ (i_uint64, put_uint64 v, ground arith, omega arith)
      ]
    ]
  ]
]
