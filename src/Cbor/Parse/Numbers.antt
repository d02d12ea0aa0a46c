-- ===== src/Cbor/Parse/Numbers.antt =====
-- Integers and lengths read back.
use objconv.Prelude.{ℕ, ◌%◌, ◌^◌, ◌<◌, ◌≡◌, sym, List, ◌++◌, arith, false}
use objconv.Prelude.Int.{negsuc}
use objconv.Prelude.Bytes.{byte_at}
use objconv.Go.Outcome.{ok, M, Returns, Returns-after}
use objconv.Go.Io.{Reader}
use objconv.Types.{ValueType}
use objconv.Cbor.Major.{major_byte, major_type, no_tag}
use objconv.Cbor.Emit.{head_bytes, int_head}
use objconv.Cbor.State.{Parser}
use objconv.Cbor.Parse.{parse_type_loop, parse_int, parse_uint, negative_int}
use objconv.Cbor.Parse.Laws.{
  Moved, parse_head-head_bytes, head_first, major_type-major_byte, typed, typed_lem, recode, settle,
}

-- What makes the loop of ParseType answer `t` for a first byte of major type `m`.
abbrev pub Announces : {R : Type 0} ⦃io : Reader R⦄ → Parser R → ℕ → ValueType → Type 0
Announces r m t =
    (first : ℕ)
    → major_type first ≡ m
    → byte_at r.buf.b r.buf.i ≡ first
    → parse_type_loop 2 r.buf.i false r ≡ (ok t, r)

negative_lem : (n : ℕ) → n < 2 ^ 63 → negative_int n ≡ negsuc n
unfolding negative_int
negative_lem n h = ground arith

module _ {R : Type 0} ⦃io : Reader R⦄ where
  -- A head, announced by its major type, and the method that reads it.
  pub typed_head :
      {A : Type 0} (method : M (Parser R) A) (m v : ℕ) (ys : List ℕ) (t : ValueType) {w : A}
      {Q : Parser R → Type 0} {k : ℕ} {p : Parser R} (q : Parser R)
      → m < 8
      → p.tag ≡ no_tag
      → Moved p k (head_bytes m v ++ ys) q
      → ((r : Parser R) → Announces r m t)
      → ((r : Parser R) → Moved p 1 (head_bytes m v ++ ys) r → Returns (method r) w Q)
      → Returns (typed method q) (t, w) Q
  typed_head method m v ys t q hm idle h known next =
      let (b, xs, e, small) = head_first m v in
      typed_lem method (major_byte m b) (xs ++ ys) t q (recode e ys q h) idle
        (λ r c. known r (major_byte m b) (major_type-major_byte m b hm small) c)
        (λ r a. next r (recode (sym e) ys r a))

  -- At the front of the stream of a parser that is in order and has no tag, the bytes that
  -- EmitUint writes for a uint64 make ParseType answer Uint and ParseUint return the number, and
  -- exactly these bytes are consumed.
  pub parse_uint-head_bytes :
      (v : ℕ) (ys : List ℕ) {k : ℕ} {p : Parser R} (q : Parser R)
      → v < 2 ^ 64
      → p.tag ≡ no_tag
      → Moved p k (head_bytes 0 v ++ ys) q
      → Returns (typed parse_uint q) (ValueType.uint, v) (Moved p 0 ys)
  unfolding parse_type_loop
  parse_uint-head_bytes v ys q fits idle h =
      typed_head parse_uint 0 v ys ValueType.uint q (omega arith) idle h (λ r f e c. rw (c, e))
        λ r a.
          unfold parse_uint in
          Returns-after _ (parse_head-head_bytes 0 v ys r (omega arith) fits a)
            λ s b. settle v s b idle

  -- At the front of the stream of a parser that is in order and has no tag, the bytes that
  -- EmitInt writes for a negative int64 make ParseType answer Int and ParseInt return the number,
  -- and exactly these bytes are consumed.
  pub parse_int-head_bytes :
      (n : ℕ) (ys : List ℕ) {k : ℕ} {p : Parser R} (q : Parser R)
      → n < 2 ^ 63
      → p.tag ≡ no_tag
      → Moved p k (int_head (negsuc n) ++ ys) q
      → Returns (typed parse_int q) (ValueType.int, negsuc n) (Moved p 0 ys)
  unfolding parse_type_loop
  parse_int-head_bytes n ys q fits idle h =
      let e : n % 2 ^ 64 ≡ n = omega arith in
      typed_head parse_int 1 (n % 2 ^ 64) ys ValueType.int q (omega arith) idle h
        (λ r f e c. rw (c, e))
        λ r a.
          unfold parse_int in
          Returns-after _ (parse_head-head_bytes 1 (n % 2 ^ 64) ys r (omega arith) (omega arith) a)
            λ s b. rw (e, negative_lem n fits) (settle (negsuc n) s b idle)
