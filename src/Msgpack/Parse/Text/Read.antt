-- ===== src/Msgpack/Parse/Text/Read.antt =====
-- `read`, whose bytes come from the array, through the array, or through the string buffer.
use objconv.Prelude.{
  ℕ, ◌+◌, ◌-◌, ◌≤◌, ◌<◌, ◌≡◌, refl, sym, ap, ◌∙◌, List, ◌++◌, length, drop, arith, ltb, le→leb,
  lt→leb_false, dec_le, length-replicate, take-append, length-drop, Bool-cases, inl, inr,
  ltb_false→le,
}
use objconv.Go.Outcome.{ok, pure, Returns, Returns-after, ◌>>◌}
use objconv.Go.Slice.{Slice, slice, capacity, contents, copy_at, take-overwrite_front}
use objconv.Go.Io.{Reader, read_full}
use objconv.Go.Io.Laws.{read_full_lem, cut_earlier, Left}
use objconv.Buffer.{Buffer, buffer_size}
use objconv.Buffer.Laws.{length-held, front, Ready-skip}
use objconv.Msgpack.Parse.{Parser, align, make_room, large_end, skip, read, read_large}
use objconv.Msgpack.Parse.Laws.{At, peek_lem, skip_front}

pub le-align : (n : ℕ) → n ≤ align n 1024
unfolding align
le-align n = ground arith

len-make_room : (n : ℕ) (s : Slice) → (make_room n s).len ≡ n
unfolding make_room
len-make_room n s = elim (Bool-cases (ltb (capacity s) n)) [
  | inl less ↦ rw less
  | inr enough ↦ rw enough
]

le-capacity-make_room : (n : ℕ) (s : Slice) → n ≤ capacity (make_room n s)
unfolding make_room
le-capacity-make_room n s = elim (Bool-cases (ltb (capacity s) n)) [
  | inl less ↦ rw less (omega (arith, length-replicate {A = ℕ} (align n 1024) 0, le-align n))
  | inr enough ↦ rw enough (ltb_false→le _ _ enough)
]

-- Two copies, one behind the other, fill a slice of the length of both.
contents-copy_at :
    (us vs : List ℕ) (m : ℕ) (s : Slice)
    → length us ≡ m
    → s.len ≡ m + length vs
    → s.len ≤ capacity s
    → contents (copy_at m vs (copy_at 0 us s)) ≡ us ++ vs
contents-copy_at us vs m s e f h = take-overwrite_front us vs s.array m s.len e f h

module _ {R : Type 0} ⦃io : Reader R⦄ where
  read_large_lem :
      (xs ys : List ℕ) (n : ℕ) (p : Parser R)
      → At 0 (xs ++ ys) p
      → length xs ≡ n
      → p.buf.j < p.buf.i + n
      → Returns (read_large n p) xs (At 0 ys)
  unfolding read_large
  read_large_lem xs ys n p h l more =
      rw (full.computes, large_end)
        (record {
          state = _;
          computes =
              ap (λ t. (ok t, record { buf = buf; s = copy_at m tail s }))
                (contents-copy_at head tail m (make_room n p.s) length-head
                    (omega (arith, len-make_room n p.s, length-drop m xs))
                    (omega (arith, len-make_room n p.s, le-capacity-make_room n p.s))
                  ∙ ap (λ (t : ℕ). head ++ drop t xs) (sym length-head)
                  ∙ parts.0);
          post = record {
            holding = record {
              ordered = omega arith;
              bounded = omega arith;
              sized = h.holding.sized;
              stream = full.post;
            };
            loaded = omega arith;
          };
        })
    where
      m : ℕ
      m = p.buf.j - p.buf.i

      head : List ℕ
      head = slice p.buf.i p.buf.j p.buf.b

      tail : List ℕ
      tail = drop m xs

      length-head : length head ≡ m
      length-head = length-held p.buf h.holding

      parts :
          (head ++ drop (length head) xs ≡ xs) × (io.unread p.buf.r ≡ drop (length head) xs ++ ys)
      parts =
          cut_earlier head (io.unread p.buf.r) xs ys h.holding.stream (omega (arith, length-head))

      full : Returns (read_full (n - m) p.buf.r) tail (Left ys)
      full =
          read_full_lem tail ys (n - m) p.buf.r (omega (arith, length-drop m xs))
            (parts.1 ∙ ap (λ (t : ℕ). drop t xs ++ ys) length-head)

      s : Slice
      s = copy_at 0 head (make_room n p.s)

      buf : Buffer buffer_size R
      buf = record { r = full.state; i = 0; j = 0; b = p.buf.b }

  -- With `n` bytes or more in the stream of a parser whose buffer is in order, `read n` returns
  -- the first `n` and leaves the rest, for every `n`.
  pub read_lem :
      (xs ys : List ℕ) (n : ℕ) (p : Parser R)
      → At 0 (xs ++ ys) p
      → length xs ≡ n
      → Returns (read n p) xs (At 0 ys)
  unfolding read
  read_lem xs ys n p h l =
      let after_read : Parser R = record p {
        buf = record { r = p.buf.r; i = p.buf.i + n; j = p.buf.j; b = p.buf.b };
      } in
      elim (dec_le (p.buf.i + n) p.buf.j) [
        | yes held ↦ rw (le→leb _ _ held) (record {
          state = record p {
            buf = record { r = p.buf.r; i = p.buf.i + n; j = p.buf.j; b = p.buf.b };
          };
          computes =
              ap (λ t. (ok t, after_read)) (front n p.buf h.holding held ∙ take-append xs ys n l);
          post =
              Ready-skip xs ys n 0 p.buf (record { holding = h.holding; loaded = held })
                (omega arith) l;
        })
        | no more ↦ elim (dec_le n buffer_size) [
          | yes small ↦
              rw (lt→leb_false (p.buf.i + n) p.buf.j (omega arith), le→leb n buffer_size small)
                (Returns-after (λ b. skip n >> pure b) (peek_lem xs ys n p h l small)
                  λ q a.
                    Returns-after (λ _. pure xs) (skip_front xs ys n 0 q a (omega arith) l)
                      λ r b. record { state = r; computes = refl; post = b })
          | no large ↦
              rw
                (
                  lt→leb_false (p.buf.i + n) p.buf.j (omega arith),
                  lt→leb_false n buffer_size (omega arith),
                )
                (read_large_lem xs ys n p h l (omega arith))
        ]
      ]
