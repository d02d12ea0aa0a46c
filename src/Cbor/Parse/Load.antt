-- ===== src/Cbor/Parse/Load.antt =====
-- `load`, which adds bytes to the string buffer.
use objconv.Prelude.{
  ℕ, zero, suc, ◌+◌, ◌-◌, ◌≤◌, ◌<◌, ◌≡◌, refl, sym, ap, subst, ◌∙◌, List, [], ◌∷◌, ◌++◌, length,
  take, drop, arith, ltb, dec_le, dec_lt, length-replicate, take-append, length-drop, Bool-cases,
  inl, inr, ltb_false→le, lt→ltb, le→ltb_false, eq→==, ne→==, ◌==◌, replicate, append_assoc,
  if◌then◌else◌,
}
use objconv.Go.Outcome.{ok, Returns, Returns-eq}
use objconv.Go.Slice.{Slice, slice, capacity, contents, copy_at, take-overwrite, length-overwrite}
use objconv.Go.Io.{Reader, read_full}
use objconv.Go.Io.Laws.{read_full_lem, cut_earlier, Left}
use objconv.Buffer.{Buffer, buffer_size}
use objconv.Buffer.Laws.{Ready, Ready-skip, length-held, front}
use objconv.Cbor.Major.{align}
use objconv.Cbor.State.{Parser, load, load_from, load_end, make_room, take_buffered}

le-align : (n : ℕ) → n ≤ align n 1024
unfolding align
le-align n = ground arith

len-make_room : (n : ℕ) (s : Slice) → (make_room n s).len ≡ n
unfolding make_room
len-make_room n s = elim (Bool-cases (ltb (capacity s) n)) [
  | inl less ↦ rw less
  | inr enough ↦ rw enough
]

le-capacity-make_room : (n : ℕ) (s : Slice) → n ≤ capacity (make_room n s)
unfolding make_room
le-capacity-make_room n s = elim (Bool-cases (ltb (capacity s) n)) [
  | inl less ↦ rw less (omega (arith, length-replicate {A = ℕ} (align n 1024) 0, le-align n))
  | inr enough ↦ rw enough (ltb_false→le _ _ enough)
]

take-replicate : (i n : ℕ) → i ≤ n → take {A = ℕ} i (replicate n 0) ≡ replicate i 0
take-replicate zero n h = refl
take-replicate (suc i) zero h = absurd (omega arith)
take-replicate (suc i) (suc n) h = ap (λ t. 0 ∷ t) (take-replicate i n (omega arith))

-- What `load n` has in front of the new bytes.
abbrev pub kept : ℕ → Slice → List ℕ
kept n s = take s.len (make_room (s.len + n) s).array

-- Where the string buffer has room for `n` bytes more, `load n` keeps what was loaded before.
pub kept-fits : (n : ℕ) (s : Slice) → s.len + n ≤ capacity s → kept n s ≡ contents s
unfolding make_room
kept-fits n s fits = rw (le→ltb_false (capacity s) (s.len + n) fits)

kept-grows : (n : ℕ) (s : Slice) → capacity s < s.len + n → kept n s ≡ replicate s.len 0
unfolding make_room
kept-grows n s less =
    rw (lt→ltb (capacity s) (s.len + n) less)
      (take-replicate s.len (align (s.len + n) 1024) (omega (arith, le-align (s.len + n))))

pub kept-empty : (n : ℕ) (s : Slice) → s.len ≡ 0 → kept n s ≡ []
kept-empty n s e = ap (λ (k : ℕ). take k (make_room (s.len + n) s).array) e

slice_none : (i j : ℕ) (b : List ℕ) → j ≤ i → slice i j b ≡ []
slice_none i j b h = ap (λ (k : ℕ). take k (drop i b)) none_left
  where
    none_left : j - i ≡ 0
    none_left = omega arith

module _ {R : Type 0} ⦃io : Reader R⦄ where
  -- After `load`: `bs` is to be parsed, and the tag, its type and the stack are those of `p`.
  pub record Loaded (p : Parser R) (bs : List ℕ) (q : Parser R) : Type 0 where
    pub ready : Ready 0 bs q.buf
    pub same_tag : q.tag ≡ p.tag
    pub same_type : q.typ ≡ p.typ
    pub same_stack : q.stack ≡ p.stack

  emptied :
      (p : Buffer buffer_size R) (bs : List ℕ)
      → p.i ≡ p.j
      → Ready 0 bs p
      → Ready 0 bs (record p { i = 0; j = 0 })
  emptied p bs e h = record {
    holding = record {
      ordered = omega arith;
      bounded = omega arith;
      sized = h.holding.sized;
      stream =
          ap (λ t. t ++ io.unread p.r) (sym (slice_none p.i p.j p.b (omega arith)))
          ∙ h.holding.stream;
    };
    loaded = omega arith;
  }

  -- What is left of the buffer when its first bytes have been copied out.
  taken : ℕ → Buffer buffer_size R → Buffer buffer_size R
  taken n b = if b.i == b.j then b else take_buffered n b

  taken-Ready :
      (xs ys : List ℕ) (n : ℕ) (b : Buffer buffer_size R)
      → Ready 0 (xs ++ ys) b
      → b.i + n ≤ b.j
      → length xs ≡ n
      → Ready 0 ys (taken n b)
  unfolding taken take_buffered
  taken-Ready xs ys n b h fits l =
      let next =
        Ready-skip xs ys n 0 b (record { holding = h.holding; loaded = fits }) (omega arith) l in
      elim (dec_lt b.i b.j) [
        | yes some_held ↦ elim (dec_lt (b.i + n) b.j) [
          | yes more ↦ rw (ne→== b.i b.j (omega arith), ne→== (b.i + n) b.j (omega arith)) next
          | no all ↦
              rw (ne→== b.i b.j (omega arith), eq→== (b.i + n) b.j (omega arith))
                (emptied (record b { i = b.i + n }) ys (omega arith) next)
        ]
        | no nothing ↦
            rw (eq→== b.i b.j (omega (arith, h.loaded)))
              (subst (λ t. Ready 0 t b) (nil_front xs ys (omega (arith, h.loaded))) h)
      ]
    where
      nil_front : (xs ys : List ℕ) → length xs ≡ 0 → xs ++ ys ≡ ys
      nil_front [] ys e = refl
      nil_front (x ∷ xs) ys e = absurd (omega arith)

  -- The buffer is empty, and nothing but its bounds has changed.
  record Emptied (b c : Buffer buffer_size R) : Type 0 where
    met : c.i ≡ c.j
    bounded : c.j ≤ buffer_size
    same_array : c.b ≡ b.b
    same_reader : c.r ≡ b.r

  taken-Emptied :
      (n : ℕ) (b : Buffer buffer_size R) → b.j ≤ buffer_size → b.i + n ≡ b.j → Emptied b (taken n b)
  unfolding taken take_buffered
  taken-Emptied n b small all = elim (dec_lt b.i b.j) [
    | yes some_held ↦
        rw (ne→== b.i b.j (omega arith), eq→== (b.i + n) b.j all)
          (record { met = refl; bounded = omega arith; same_array = refl; same_reader = refl })
    | no nothing ↦
        rw (eq→== b.i b.j (omega arith))
          (record { met = omega arith; bounded = small; same_array = refl; same_reader = refl })
  ]

  load_held :
      (xs ys : List ℕ) (n : ℕ) (p : Parser R)
      → Ready 0 (xs ++ ys) p.buf
      → length xs ≡ n
      → p.buf.i + n ≤ p.buf.j
      → Returns (load_from n n p) (kept n p.s ++ xs) (Loaded p ys)
  unfolding load_from taken
  load_held xs ys n p h l held = rw (eq→== (p.s.len + n) (p.s.len + n) refl) (record {
    state = _;
    computes =
        ap (λ t. (ok t, record p { buf = taken n p.buf; s = s }))
          (copied ∙ ap (λ t. kept n p.s ++ t) here);
    post = record {
      ready = taken-Ready xs ys n p.buf h held l;
      same_tag = refl;
      same_type = refl;
      same_stack = refl;
    };
  })
    where
      room : Slice
      room = make_room (p.s.len + n) p.s

      here : slice p.buf.i (p.buf.i + n) p.buf.b ≡ xs
      here = front n p.buf h.holding held ∙ take-append xs ys n l

      s : Slice
      s = copy_at p.s.len (slice p.buf.i (p.buf.i + n) p.buf.b) room

      copied : contents s ≡ kept n p.s ++ slice p.buf.i (p.buf.i + n) p.buf.b
      copied =
          take-overwrite p.s.len room.len (slice p.buf.i (p.buf.i + n) p.buf.b) room.array
            (omega (arith, len-make_room (p.s.len + n) p.s, ap length here))
            (omega
              (arith, len-make_room (p.s.len + n) p.s, le-capacity-make_room (p.s.len + n) p.s))

  load_read :
      (xs ys : List ℕ) (n : ℕ) (p : Parser R)
      → Ready 0 (xs ++ ys) p.buf
      → length xs ≡ n
      → p.buf.j < p.buf.i + n
      → Returns (load_from (p.buf.j - p.buf.i) n p) (kept n p.s ++ xs) (Loaded p ys)
  unfolding load_from taken
  load_read xs ys n p h l more =
      rw (ne→== (p.s.len + m) (p.s.len + n) (omega (arith, h.loaded)), full.computes, load_end)
        (record {
          state = _;
          computes =
              ap (λ t. (ok t, record p { buf = buf; s = copy_at (p.s.len + m) tail s })) copied;
          post = record {
            ready = record {
              holding = record {
                ordered = omega (arith, empty.met);
                bounded = empty.bounded;
                sized = ap length empty.same_array ∙ h.holding.sized;
                stream =
                    ap (λ t. t ++ io.unread full.state)
                      (slice_none _ _ (taken m p.buf).b (omega (arith, empty.met)))
                    ∙ full.post;
              };
              loaded = omega (arith, empty.met);
            };
            same_tag = refl;
            same_type = refl;
            same_stack = refl;
          };
        })
    where
      m : ℕ
      m = p.buf.j - p.buf.i

      room : Slice
      room = make_room (p.s.len + n) p.s

      head : List ℕ
      head = slice p.buf.i (p.buf.i + m) p.buf.b

      tail : List ℕ
      tail = drop m xs

      whole : slice p.buf.i p.buf.j p.buf.b ≡ head
      whole = ap (λ (k : ℕ). slice p.buf.i k p.buf.b) (omega (arith, h.loaded))

      length-head : length head ≡ m
      length-head = ap length (sym whole) ∙ length-held p.buf h.holding

      parts :
          (head ++ drop (length head) xs ≡ xs) × (io.unread p.buf.r ≡ drop (length head) xs ++ ys)
      parts =
          cut_earlier head (io.unread p.buf.r) xs ys
            (ap (λ t. t ++ io.unread p.buf.r) (sym whole) ∙ h.holding.stream)
            (omega (arith, length-head))

      full : Returns (read_full (p.s.len + n - (p.s.len + m)) p.buf.r) tail (Left ys)
      full =
          read_full_lem tail ys (p.s.len + n - (p.s.len + m)) p.buf.r
            (omega (arith, length-drop m xs))
            (parts.1 ∙ ap (λ (t : ℕ). drop t xs ++ ys) length-head)

      empty : Emptied p.buf (taken m p.buf)
      empty = taken-Emptied m p.buf h.holding.bounded (omega (arith, h.loaded))

      s : Slice
      s = copy_at p.s.len head room

      buf : Buffer buffer_size R
      buf = record (taken m p.buf) { r = full.state }

      copied : contents (copy_at (p.s.len + m) tail s) ≡ kept n p.s ++ xs
      copied =
          take-overwrite (p.s.len + m) room.len tail s.array
            (omega (arith, len-make_room (p.s.len + n) p.s, length-drop m xs))
            (omega (
              arith,
              len-make_room (p.s.len + n) p.s,
              le-capacity-make_room (p.s.len + n) p.s,
              length-overwrite p.s.len head room.array,
            ))
          ∙ ap (λ t. t ++ tail)
              (take-overwrite p.s.len (p.s.len + m) head room.array (omega (arith, length-head))
                (omega (arith, le-capacity-make_room (p.s.len + n) p.s)))
          ∙ append_assoc (kept n p.s) head tail
          ∙ ap (λ t. kept n p.s ++ t)
              (ap (λ (t : ℕ). head ++ drop t xs) (sym length-head) ∙ parts.0)

  -- With `n` bytes or more in the stream of a parser whose buffer is in order, `load n` returns the
  -- first `n` behind what the string buffer keeps.
  pub load_lem :
      (xs ys : List ℕ) (n : ℕ) (p : Parser R)
      → Ready 0 (xs ++ ys) p.buf
      → length xs ≡ n
      → Returns (load n p) (kept n p.s ++ xs) (Loaded p ys)
  unfolding load
  load_lem xs ys n p h l = elim (dec_le (p.buf.i + n) p.buf.j) [
    | yes held ↦
        rw (le→ltb_false (p.buf.j - p.buf.i) n (omega arith)) (load_held xs ys n p h l held)
    | no more ↦
        rw (lt→ltb (p.buf.j - p.buf.i) n (omega (arith, h.loaded)))
          (load_read xs ys n p h l (omega arith))
  ]

  -- Where the string buffer is too small for `n` bytes more, and the stream of a parser whose buffer
  -- is in order has `n` bytes or more, `load n` returns the first `n` behind zeros: what the earlier
  -- chunks of a string had brought into the string buffer is lost.
  pub load-lost_chunks :
      (xs ys : List ℕ) (n : ℕ) (p : Parser R)
      → Ready 0 (xs ++ ys) p.buf
      → length xs ≡ n
      → capacity p.s < p.s.len + n
      → Returns (load n p) (replicate p.s.len 0 ++ xs) (Loaded p ys)
  load-lost_chunks xs ys n p h l less =
      Returns-eq (ap (λ t. t ++ xs) (kept-grows n p.s less)) (load_lem xs ys n p h l)
