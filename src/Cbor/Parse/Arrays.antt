-- ===== src/Cbor/Parse/Arrays.antt =====
-- The numbers of elements of arrays and maps read back, and the break of an indefinite one.
use objconv.Prelude.{ℕ, ◌≤◌, ◌<◌, ◌≡◌, refl, ap, ◌∙◌, List, [], ◌∷◌, ◌++◌, arith, le→ltb_false}
use objconv.Prelude.Int.{ℤ, pos, negsuc}
use objconv.Go.Outcome.{end, fail, M, pure, Returns, Returns-after, Fails, Fails-after}
use objconv.Go.Io.{Reader}
use objconv.Types.{ValueType}
use objconv.Buffer.Laws.{Ready}
use objconv.Cbor.Major.{no_tag, int_max}
use objconv.Cbor.Emit.{head_bytes}
use objconv.Cbor.State.{Parser}
use objconv.Cbor.Parse.{
  parse_type_loop, parse_begin, more, close, attempt, parse_array_begin, parse_array_next,
  parse_array_end, parse_map_begin,
}
use objconv.Cbor.Parse.Laws.{Moved, Moved-refl, peek_lem, parse_head-head_bytes, typed}
use objconv.Cbor.Parse.Numbers.{typed_head}

-- `q` has no tag, `n` on top of the stack of `p`, and `bs` to parse.
pub record Entered {R : Type 0} ⦃io : Reader R⦄ (p : Parser R) (n : ℤ) (bs : List ℕ) (q : Parser R)
    : Type 0 where
  pub ready : Ready 0 bs q.buf
  pub no_tag_left : q.tag ≡ no_tag
  pub pushed : q.stack ≡ n ∷ p.stack

module _ {R : Type 0} ⦃io : Reader R⦄ where
  begin_definite :
      (m n : ℕ) (ys : List ℕ) {k : ℕ} {p : Parser R} (q : Parser R)
      → m < 8
      → n ≤ int_max
      → Moved p k (head_bytes m n ++ ys) q
      → Returns (parse_begin q) (pos n) (Entered p (pos n) ys)
  begin_definite m n ys q hm fits h =
      Returns-after _ (parse_head-head_bytes m n ys q hm (omega arith) h) λ r a.
        rw (le→ltb_false int_max n fits) (record {
          state = record r { tag = no_tag; stack = pos n ∷ r.stack };
          computes = refl;
          post = record {
            ready = a.ready;
            no_tag_left = refl;
            pushed = ap (λ st. pos n ∷ st) a.same_stack;
          };
        })

  -- At the front of the stream of a parser that is in order and has no tag, the head of an array
  -- whose length fits into an int makes ParseType answer Array and ParseArrayBegin return the
  -- length and push it, and exactly the head is consumed.
  pub parse_array_begin-head_bytes :
      (n : ℕ) (ys : List ℕ) {k : ℕ} {p : Parser R} (q : Parser R)
      → n ≤ int_max
      → p.tag ≡ no_tag
      → Moved p k (head_bytes 4 n ++ ys) q
      → Returns (typed parse_array_begin q) (ValueType.array, pos n) (Entered p (pos n) ys)
  unfolding parse_type_loop parse_array_begin
  parse_array_begin-head_bytes n ys q fits idle h =
      typed_head parse_array_begin 4 n ys ValueType.array q (omega arith) idle h
        (λ r f e c. rw (c, e)) λ r a. begin_definite 4 n ys r (omega arith) fits a

  -- At the front of the stream of a parser that is in order and has no tag, the head of a map
  -- whose length fits into an int makes ParseType answer Map and ParseMapBegin return the length
  -- and push it, and exactly the head is consumed.
  pub parse_map_begin-head_bytes :
      (n : ℕ) (ys : List ℕ) {k : ℕ} {p : Parser R} (q : Parser R)
      → n ≤ int_max
      → p.tag ≡ no_tag
      → Moved p k (head_bytes 5 n ++ ys) q
      → Returns (typed parse_map_begin q) (ValueType.map, pos n) (Entered p (pos n) ys)
  unfolding parse_type_loop parse_map_begin
  parse_map_begin-head_bytes n ys q fits idle h =
      typed_head parse_map_begin 5 n ys ValueType.map q (omega arith) idle h (λ r f e c. rw (c, e))
        λ r a. begin_definite 5 n ys r (omega arith) fits a

  more_break :
      (n : ℕ) (st all : List ℤ) (ys : List ℕ) {k : ℕ} (p : Parser R)
      → all ≡ negsuc n ∷ st
      → Ready k (0xFF ∷ ys) p.buf
      → Fails (more all p) end (Moved p 1 (0xFF ∷ ys))
  more_break n st all ys p top h = rw top (
      Fails-after _ (peek_lem (0xFF ∷ []) ys 1 p (Moved-refl p h) refl (omega arith))
        λ r a. record { state = r; computes = refl; post = a })

  close_lem :
      (n : ℤ) (st all : List ℤ) (p : Parser R) {Q : Parser R → Type 0}
      → all ≡ n ∷ st
      → Q (record p { stack = st })
      → Returns (close all p) tt Q
  close_lem n st all p top h =
      rw top (record { state = record p { stack = st }; computes = refl; post = h })

  -- What the decoder's loop does before an element: on End it leaves the array.
  abbrev pub leave_array : ℤ → M (Parser R) (Unit {0})
  leave_array i p =
      attempt (parse_array_next i p) pure
        λ e. elim e [ end ↦ parse_array_end i | other ↦ fail other ]

  -- The bytes `bs` are to be parsed, and `st` is on the stack.
  abbrev pub Outside : List ℤ → List ℕ → Parser R → Type 0
  Outside st bs q = Ready 1 bs q.buf × (q.stack ≡ st)

  -- Where the length on top of the stack is unknown and the next byte is a break, what a decoder
  -- does before an element leaves the array, and the break is still to be parsed.
  pub leave_array-break :
      (i : ℤ) (n : ℕ) (st : List ℤ) (ys : List ℕ) {k : ℕ} (p : Parser R)
      → p.stack ≡ negsuc n ∷ st
      → Ready k (0xFF ∷ ys) p.buf
      → Returns (leave_array i p) tt (Outside st (0xFF ∷ ys))
  unfolding parse_array_next parse_array_end
  leave_array-break i n st ys p top h =
      let stop = more_break n st p.stack ys p top h in
      rw (stop.computes, attempt)
        (close_lem (negsuc n) st stop.state.stack stop.state (stop.post.same_stack ∙ top)
          (stop.post.ready, refl))
