-- ===== src/Cbor/Parse/Text.antt =====
-- Strings of definite length read back.
use objconv.Prelude.{ℕ, ◌≤◌, ◌<◌, ◌≡◌, refl, sym, ap, ◌∙◌, List, ◌++◌, length, arith, le→ltb_false}
use objconv.Go.Outcome.{pure, ◌>>◌, Returns, Returns-after, Returns-eq}
use objconv.Go.Slice.{reslice}
use objconv.Go.Io.{Reader}
use objconv.Types.{ValueType}
use objconv.Cbor.Major.{no_tag, int_max}
use objconv.Cbor.Emit.{head_bytes}
use objconv.Cbor.State.{Parser, set_tag}
use objconv.Cbor.Parse.{parse_string, parse_bytes, parse_chunks, parse_type_loop}
use objconv.Cbor.Parse.Laws.{Moved, Moved-refl, parse_head-head_bytes, typed}
use objconv.Cbor.Parse.Load.{Loaded, load_lem, kept-empty}
use objconv.Cbor.Parse.Numbers.{typed_head}

module _ {R : Type 0} ⦃io : Reader R⦄ where
  -- A head and as many bytes, read by parseBytes.
  chunks_lem :
      (m : ℕ) (v ys : List ℕ) {k : ℕ} {p : Parser R} (q : Parser R)
      → m < 8
      → length v ≤ int_max
      → Moved p k (head_bytes m (length v) ++ (v ++ ys)) q
      → Returns (parse_chunks q) v (Loaded p ys)
  unfolding parse_chunks
  chunks_lem m v ys {p = p} q hm fits h =
      let q0 : Parser R = record q { s = reslice 0 q.s } in
      Returns-after _
        (parse_head-head_bytes m (length v) (v ++ ys) q0 hm (omega arith) (Moved-refl q0 h.ready))
        λ r a. rw (le→ltb_false int_max (length v) fits) (
          let x = load_lem v ys (length v) r a.ready refl in
          Returns-eq (ap (λ t. t ++ v) (kept-empty (length v) r.s (ap (λ s. s.len) a.same_string)))
            (record {
              state = x.state;
              computes = x.computes;
              post = record {
                ready = x.post.ready;
                same_tag = x.post.same_tag ∙ a.same_tag ∙ h.same_tag;
                same_type = x.post.same_type ∙ a.same_type ∙ h.same_type;
                same_stack = x.post.same_stack ∙ a.same_stack ∙ h.same_stack;
              };
            }))

  settle-Loaded :
      (v ys : List ℕ) (p q : Parser R)
      → p.tag ≡ no_tag
      → Loaded p ys q
      → Returns ((set_tag no_tag >> pure v) q) v (Loaded p ys)
  settle-Loaded v ys p q idle h = record {
    state = record q { tag = no_tag };
    computes = refl;
    post = record {
      ready = h.ready;
      same_tag = sym idle;
      same_type = h.same_type;
      same_stack = h.same_stack;
    };
  }

  -- At the front of the stream of a parser that is in order and has no tag, the head and the bytes
  -- that EmitString writes for a string whose length fits into an int make ParseType answer String
  -- and ParseString return the string, and exactly these bytes are consumed.
  pub parse_string-head_bytes :
      (v ys : List ℕ) {k : ℕ} {p : Parser R} (q : Parser R)
      → length v ≤ int_max
      → p.tag ≡ no_tag
      → Moved p k (head_bytes 3 (length v) ++ (v ++ ys)) q
      → Returns (typed parse_string q) (ValueType.string, v) (Loaded p ys)
  unfolding parse_type_loop
  parse_string-head_bytes v ys {p = p} q fits idle h =
      typed_head parse_string 3 (length v) (v ++ ys) ValueType.string q (omega arith) idle h
        (λ r f e c. rw (c, e))
        λ r a.
          unfold parse_string in
          Returns-after _ (chunks_lem 3 v ys r (omega arith) fits a)
            λ s b. settle-Loaded v ys p s idle b

  -- At the front of the stream of a parser that is in order and has no tag, the head and the bytes
  -- that EmitBytes writes for a byte string whose length fits into an int make ParseType answer
  -- Bytes and ParseBytes return the byte string, and exactly these bytes are consumed.
  pub parse_bytes-head_bytes :
      (v ys : List ℕ) {k : ℕ} {p : Parser R} (q : Parser R)
      → length v ≤ int_max
      → p.tag ≡ no_tag
      → Moved p k (head_bytes 2 (length v) ++ (v ++ ys)) q
      → Returns (typed parse_bytes q) (ValueType.bytes, v) (Loaded p ys)
  unfolding parse_type_loop
  parse_bytes-head_bytes v ys {p = p} q fits idle h =
      typed_head parse_bytes 2 (length v) (v ++ ys) ValueType.bytes q (omega arith) idle h
        (λ r f e c. rw (c, e))
        λ r a.
          unfold parse_bytes in
          Returns-after _ (chunks_lem 2 v ys r (omega arith) fits a)
            λ s b. settle-Loaded v ys p s idle b
