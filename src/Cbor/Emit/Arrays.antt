-- ===== src/Cbor/Emit/Arrays.antt =====
-- EncodeArray of encode.go over the emitter of cbor/emit.go.
use objconv.Prelude.{
  ℕ, zero, suc, ◌+◌, ◌≡◌, refl, sym, subst, ap, ◌∙◌, List, [], ◌∷◌, ◌++◌, length, arith, none,
  append_assoc, append-nil, ne→==, lt→ltb, le→ltb_false,
}
use objconv.Prelude.Int.{ℤ, pos, negsuc}
use objconv.Go.Outcome.{Outcome, ok, M, Returns, Returns-after}
use objconv.Go.Io.{Writer}
use objconv.Encode.{ArrayEmitter, encode_array, encode_items, separate}
use objconv.Cbor.Major.{major_byte}
use objconv.Cbor.Emit.{
  Emitter, write, head_bytes, emit_head, emit_array_begin, emit_array_end, emit_array_next,
}

-- A writer that never fails, such as a buffer in memory.
abbrev pub Faithful : {W : Type 0} → Writer W → Type 0
Faithful {W} io = (w : W) (bs : List ℕ) → (io.write w bs).0 ≡ none

abbrev pub array_emitter : {W : Type 0} ⦃io : Writer W⦄ → ArrayEmitter (Emitter W)
array_emitter = record {
  emit_array_begin = emit_array_begin;
  emit_array_end = emit_array_end;
  emit_array_next = emit_array_next;
}

-- The bytes of several elements.
abbrev pub joined : List (List ℕ) → List ℕ
joined [] = []
joined (b ∷ bs) = b ++ joined bs

-- The head of an array, and what ends it: 0x9F and a break where its length is unknown.
abbrev pub head_of : ℤ → List ℕ
head_of (pos n) = head_bytes 4 n
head_of (negsuc k) = major_byte 4 31 ∷ []

abbrev pub end_of : ℤ → List ℕ
end_of (pos n) = []
end_of (negsuc k) = 0xFF ∷ []

-- Does `n` let the loop run over `left` elements from `i` on, and no further?
abbrev pub Fits : ℤ → ℕ → ℕ → Type 0
Fits (pos n) i left = n ≡ i + left
Fits (negsuc k) i left = Unit

module _ {W : Type 0} ⦃io : Writer W⦄ where
  -- From `e` to `f` the bytes `bs` were written, and the stack became `st`.
  pub record Written (bs : List ℕ) (st : List ℤ) (e f : Emitter W) : Type 0 where
    pub stacked : f.stack ≡ st
    pub output : io.written f.w ≡ io.written e.w ++ bs

  -- Each call writes its bytes, and leaves the stack as it was.
  abbrev pub Outputs : List (M (Emitter W) (Unit {0})) → List (List ℕ) → Type 0
  Outputs [] [] = Unit
  Outputs [] (b ∷ bs) = ⊥
  Outputs (f ∷ fs) [] = ⊥
  Outputs (f ∷ fs) (b ∷ bs) =
      ((e : Emitter W) → Returns (f e) tt (Written b e.stack e)) × Outputs fs bs

  pub write-Written :
      Faithful io → (bs : List ℕ) (e : Emitter W) → Returns (write bs e) tt (Written bs e.stack e)
  unfolding write
  write-Written faithful bs e = record {
    state = record e { w = (io.write e.w bs).1 };
    computes = rw (faithful e.w bs, write);
    post = record { stacked = refl; output = io.write_all e.w bs (faithful e.w bs) };
  }

  Written-append :
      (xs ys : List ℕ) (st : List ℤ) (e f g : Emitter W)
      → Written xs st e f
      → Written ys f.stack f g
      → Written (xs ++ ys) st e g
  Written-append xs ys st e f g h k = record {
    stacked = k.stacked ∙ h.stacked;
    output = k.output ∙ ap (λ t. t ++ ys) h.output ∙ append_assoc (io.written e.w) xs ys;
  }

  separate_lem : (i : ℕ) (f : Emitter W) → separate array_emitter i f ≡ (ok tt, f)
  unfolding emit_array_next
  separate_lem zero f = refl
  separate_lem (suc i) f = rw (ne→== (suc i) 0 (omega arith))

  items_lem :
      (n : ℤ) (fs : List (M (Emitter W) (Unit {0}))) (bs : List (List ℕ)) (st : List ℤ)
      (e f : Emitter W) (acc : List ℕ) (i : ℕ)
      → Fits n i (length fs)
      → Outputs fs bs
      → Written acc st e f
      → Returns (encode_items array_emitter n i fs f) tt (Written (acc ++ joined bs) st e)
  unfolding encode_items
  items_lem n (x ∷ fs) [] st e f acc i l h w = absurd h
  items_lem n [] (b ∷ bs) st e f acc i l h w = absurd h
  items_lem (pos n) [] [] st e f acc i l h w = rw (le→ltb_false i n (omega arith)) (record {
    state = f;
    computes = refl;
    post = subst (λ t. Written t st e f) (sym (append-nil acc)) w;
  })
  items_lem (negsuc k) [] [] st e f acc i l h w = record {
    state = f;
    computes = separate_lem i f;
    post = subst (λ t. Written t st e f) (sym (append-nil acc)) w;
  }
  items_lem (pos n) (x ∷ fs) (b ∷ bs) st e f acc i l (outputs, rest) w =
      rw (lt→ltb i n (omega arith), separate_lem i f)
        (Returns-after _ (outputs f) λ g v.
          let y =
            items_lem (pos n) fs bs st e g (acc ++ b) (i + 1) (omega arith) rest
              (Written-append acc b st e f g w v) in
          record {
            state = y.state;
            computes = y.computes;
            post = subst (λ t. Written t st e y.state) (append_assoc acc b (joined bs)) y.post;
          })
  items_lem (negsuc k) (x ∷ fs) (b ∷ bs) st e f acc i l (outputs, rest) w = rw (separate_lem i f) (
      Returns-after _ (outputs f) λ g v.
        let y =
          items_lem (negsuc k) fs bs st e g (acc ++ b) (i + 1) tt rest
            (Written-append acc b st e f g w v) in
        record {
          state = y.state;
          computes = y.computes;
          post = subst (λ t. Written t st e y.state) (append_assoc acc b (joined bs)) y.post;
        })

  -- `push` and then a write, from the pushed state.
  Returns-pushed :
      (bs : List ℕ) (n : ℤ) (e : Emitter W) (r : Outcome (Unit {0}) × Emitter W)
      → Returns r tt (Written bs (n ∷ e.stack) (record e { stack = n ∷ e.stack }))
      → Returns r tt (Written bs (n ∷ e.stack) e)
  Returns-pushed bs n e r x = record {
    state = x.state;
    computes = x.computes;
    post = record { stacked = x.post.stacked; output = x.post.output };
  }

  begin_lem :
      Faithful io
      → (n : ℤ) (e : Emitter W)
      → Returns (emit_array_begin n e) tt (Written (head_of n) (n ∷ e.stack) e)
  unfolding emit_array_begin emit_head
  begin_lem faithful (pos n) e =
      Returns-pushed (head_bytes 4 n) (pos n) e _ (write-Written faithful (head_bytes 4 n) _)
  begin_lem faithful (negsuc k) e =
      Returns-pushed (major_byte 4 31 ∷ []) (negsuc k) e _
        (write-Written faithful (major_byte 4 31 ∷ []) _)

  end_lem :
      Faithful io
      → (n : ℤ) (st : List ℤ) (acc : List ℕ) (e f : Emitter W) → Written acc (n ∷ st) e f
      → Returns (emit_array_end f) tt (Written (acc ++ end_of n) st e)
  unfolding emit_array_end
  end_lem faithful (pos n) st acc e f h =
      rw (h.stacked, emit_array_end)
        (record {
          state = record f { stack = st };
          computes = refl;
          post = record {
            stacked = refl;
            output = h.output ∙ ap (λ t. io.written e.w ++ t) (sym (append-nil acc));
          };
        })
  end_lem faithful (negsuc k) st acc e f h =
      let x = write-Written faithful (0xFF ∷ []) (record f { stack = st }) in
      rw (h.stacked, emit_array_end)
        (record {
          state = x.state;
          computes = x.computes;
          post = record {
            stacked = x.post.stacked;
            output =
                x.post.output
                ∙ ap (λ t. t ++ (0xFF ∷ [])) h.output
                ∙ append_assoc (io.written e.w) acc (0xFF ∷ []);
          };
        })

  -- EncodeArray over this emitter and a writer that never fails, with the number of its elements or
  -- a negative length, writes the head, the bytes of all elements in order and, for a negative
  -- length, the break, and leaves the stack as it was.
  pub encode_array-head_of :
      Faithful io
      → (n : ℤ) (fs : List (M (Emitter W) (Unit {0}))) (bs : List (List ℕ)) (e : Emitter W)
      → Fits n 0 (length fs)
      → Outputs fs bs
      → Returns
          (encode_array array_emitter n fs e)
          tt
          (Written ((head_of n ++ joined bs) ++ end_of n) e.stack e)
  unfolding encode_array
  encode_array-head_of faithful n fs bs e l h =
      Returns-after _
        (Returns-after _ (begin_lem faithful n e)
          λ f w. items_lem n fs bs (n ∷ e.stack) e f (head_of n) 0 l h w)
        λ g w. end_lem faithful n e.stack (head_of n ++ joined bs) e g w
