-- ===== src/Cbor/Parse/Flaws.antt =====
-- Inputs on which the parser does not do what it means to.
use objconv.Prelude.{
  ℕ, ◌+◌, ◌-◌, ◌^◌, ◌≤◌, ◌<◌, ◌≡◌, refl, List, [], ◌∷◌, ◌++◌, arith, false, eq→==, ne→==, le→leb,
}
use objconv.Prelude.Int.{pos}
use objconv.Go.Outcome.{ok, multiple_tags, Fails, Fails-after, Returns, Returns-after}
use objconv.Go.Io.{Reader}
use objconv.Buffer
use objconv.Buffer.Laws.{Ready, current_lem, peek_held}
use objconv.Cbor.Major.{major_byte, no_tag}
use objconv.Cbor.State.{Parser, peek}
use objconv.Cbor.Emit.{head_bytes}
use objconv.Cbor.Parse.{parse_head, parse_type, parse_type_loop, load_tag, negative_int, parse_int}
use objconv.Cbor.Parse.Numbers.{typed_head}
use objconv.Types.{ValueType}
use objconv.Cbor.Parse.Laws.{
  Moved, Moved-refl, parse_head-head_bytes, typed, settle, peek_lem, major_type-major_byte,
  minor_value-major_byte,
}

negative_int_wraps : (u : ℕ) → 2 ^ 63 ≤ u → u < 2 ^ 64 → negative_int u ≡ pos (2 ^ 64 - 1 - u)
unfolding negative_int
negative_int_wraps u h k = ground arith

module _ {R : Type 0} ⦃io : Reader R⦄ where
  -- Behind a small tag the array is the same, and `i` is one further.
  abbrev behind : Parser R → Parser R
  behind q = record q { buf = record { r = q.buf.r; i = q.buf.i + 1; j = q.buf.j; b = q.buf.b } }

  peek_one :
      (x : ℕ) (ys : List ℕ) (q : Parser R) → Ready 1 (x ∷ ys) q.buf → peek 1 q ≡ (ok (x ∷ []), q)
  unfolding peek
  peek_one x ys q h = rw (peek_held (x ∷ []) ys 1 q.buf h (omega arith) refl)

  parse_head_small :
      (v : ℕ) (ys : List ℕ) (q : Parser R)
      → v ≤ 23
      → Ready 1 (major_byte 6 v ∷ ys) q.buf
      → parse_head q ≡ (ok (v, false), behind q)
  unfolding parse_head Buffer.skip
  parse_head_small v ys q small h = rw (
    peek_one (major_byte 6 v) ys q h,
    minor_value-major_byte 6 v (omega arith) (omega arith),
    le→leb v 23 small,
  )

  -- At the front of the stream of a parser that is in order and has no tag, the bytes of the item
  -- -1 - u, for a `u` from 2^63 on, which no int64 holds, make ParseType answer Int and ParseInt
  -- return 2^64 - 1 - u, a number from 0 on, without an error, and exactly these bytes are consumed.
  pub parse_int-head_bytes_wraps :
      (u : ℕ) (ys : List ℕ) {k : ℕ} {p : Parser R} (q : Parser R)
      → 2 ^ 63 ≤ u
      → u < 2 ^ 64
      → p.tag ≡ no_tag
      → Moved p k (head_bytes 1 u ++ ys) q
      → Returns (typed parse_int q) (ValueType.int, pos (2 ^ 64 - 1 - u)) (Moved p 0 ys)
  unfolding parse_type_loop
  parse_int-head_bytes_wraps u ys q big fits idle h =
      typed_head parse_int 1 u ys ValueType.int q (omega arith) idle h (λ r f e c. rw (c, e))
        λ r a.
          unfold parse_int in
          Returns-after _ (parse_head-head_bytes 1 u ys r (omega arith) fits a)
            λ s b. rw (negative_int_wraps u big fits) (settle (pos (2 ^ 64 - 1 - u)) s b idle)

  -- On an item with one tag from 2 to 23, none of which the parser supports, ParseType answers
  -- that there are multiple tags, and the tag stays set.
  pub parse_type-unsupported_tag :
      (v : ℕ) (ys : List ℕ) {k : ℕ} (q : Parser R)
      → 2 ≤ v
      → v ≤ 23
      → q.tag ≡ no_tag
      → Ready k (major_byte 6 v ∷ ys) q.buf
      → Fails (parse_type q) multiple_tags (λ r. r.tag ≡ v)
  unfolding parse_type parse_type_loop
  parse_type-unsupported_tag v ys q lo hi idle h = rw (eq→== q.tag no_tag idle) (
      Fails-after _ (peek_lem (major_byte 6 v ∷ []) ys 1 q (Moved-refl q h) refl (omega arith))
        λ r a.
          let here = current_lem (major_byte 6 v) ys r.buf a.ready (omega arith) in
          record {
            state = record (behind r) { tag = v };
            computes =
                rw
                  (
                    here,
                    major_type-major_byte 6 v (omega arith) (omega arith),
                    parse_head_small v ys r hi a.ready,
                    ne→== v 0 (omega arith),
                    ne→== v 1 (omega arith),
                    load_tag,
                  )
                  (rw (here, major_type-major_byte 6 v (omega arith) (omega arith)));
            post = refl;
          })
