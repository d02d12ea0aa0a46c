-- ===== src/Json/Emit/Arrays.antt =====
-- EncodeArray of encode.go over the emitter of json/emit.go.
use objconv.Prelude.{
  ℕ, ◌+◌, ◌<◌, ◌≡◌, refl, sym, ap, ◌∙◌, List, [], ◌∷◌, ◌++◌, length, arith, append_assoc,
  append-nil, ne→==, lt→ltb, le→ltb_false,
}
use objconv.Prelude.Int.{pos}
use objconv.Go.Outcome.{M, after, Returns, Returns-after}
use objconv.Go.Io.{Writer, Reliable}
use objconv.Encode.{ArrayEmitter, encode_array, encode_items, dropped}
use objconv.Json.Emit.{emit_array_begin, emit_array_end, emit_array_next}
use objconv.Json.Emit.Laws.{Wrote, write_lem}

abbrev pub emitter : {W : Type 0} ⦃io : Writer W⦄ → ArrayEmitter W
emitter = record {
  emit_array_begin = emit_array_begin;
  emit_array_end = emit_array_end;
  emit_array_next = emit_array_next;
}

-- Each of several values behind a comma.
unfoldable pub with_commas : List (List ℕ) → List ℕ
with_commas [] = []
with_commas (b ∷ bs) = (b',' ∷ b) ++ with_commas bs

-- Values with commas between them.
unfoldable pub joined : List (List ℕ) → List ℕ
unfolding with_commas
joined [] = []
joined (b ∷ bs) = b ++ with_commas bs

module _ {W : Type 0} ⦃io : Writer W⦄ where
  -- Each call writes its bytes.
  abbrev pub Emits : List (M W (Unit {0})) → List (List ℕ) → Type 0
  Emits [] [] = Unit
  Emits [] (b ∷ bs) = ⊥
  Emits (f ∷ fs) [] = ⊥
  Emits (f ∷ fs) (b ∷ bs) = ((w : W) → Returns (f w) tt (Wrote b w)) × Emits fs bs

  -- Bytes and then more bytes.
  Wrote-append : (xs ys : List ℕ) (u v w : W) → Wrote xs u v → Wrote ys v w → Wrote (xs ++ ys) u w
  Wrote-append xs ys u v w h k = k ∙ ap (λ t. t ++ ys) h ∙ append_assoc (io.written u) xs ys

  comma_lem : Reliable io → (w : W) → Returns (dropped (emit_array_next w)) tt (Wrote (b',' ∷ []) w)
  unfolding emit_array_next
  comma_lem reliable w =
      let r = write_lem reliable (b',' ∷ []) w in
      record { state = r.state; computes = rw r.computes refl; post = r.post }

  items_lem :
      (fs : List (M W (Unit {0}))) (bs : List (List ℕ)) (n i : ℕ) (w : W)
      → Reliable io
      → Emits fs bs
      → 0 < i
      → i + length fs ≡ n
      → Returns (encode_items emitter (pos n) i fs w) tt (Wrote (with_commas bs) w)
  unfolding encode_items with_commas
  items_lem [] [] n i w r e p l =
      rw (le→ltb_false i n (omega arith))
        (record { state = w; computes = refl; post = sym (append-nil (io.written w)) })
  items_lem [] (b ∷ bs) n i w r e p l = absurd e
  items_lem (f ∷ fs) [] n i w r e p l = absurd e
  items_lem (f ∷ fs) (b ∷ bs) n i w r e p l =
      rw (lt→ltb i n (omega arith), ne→== i 0 (λ z. omega (arith, z)))
        (Returns-after (λ _ t. after (f t) (λ _. encode_items emitter (pos n) (i + 1) fs))
          (comma_lem r w)
          λ t wrote.
            Returns-after (λ _. encode_items emitter (pos n) (i + 1) fs) (e.0 t)
              λ u value.
                let rest = items_lem fs bs n (i + 1) u r e.1 (omega arith) (omega arith) in
                record {
                  state = rest.state;
                  computes = rest.computes;
                  post =
                      Wrote-append (b',' ∷ b) (with_commas bs) w u rest.state
                        (Wrote-append (b',' ∷ []) b w t u wrote value) rest.post;
                })

  first_lem :
      (fs : List (M W (Unit {0}))) (bs : List (List ℕ)) (n : ℕ) (w : W)
      → Reliable io
      → Emits fs bs
      → length fs ≡ n
      → Returns (encode_items emitter (pos n) 0 fs w) tt (Wrote (joined bs) w)
  unfolding encode_items joined
  first_lem [] [] n w r e l =
      rw (le→ltb_false 0 n (omega arith))
        (record { state = w; computes = refl; post = sym (append-nil (io.written w)) })
  first_lem [] (b ∷ bs) n w r e l = absurd e
  first_lem (f ∷ fs) [] n w r e l = absurd e
  first_lem (f ∷ fs) (b ∷ bs) n w r e l = rw (lt→ltb 0 n (omega arith)) (
      Returns-after (λ _. encode_items emitter (pos n) 1 fs) (e.0 w)
        λ u value.
          let rest = items_lem fs bs n 1 u r e.1 (omega arith) (omega arith) in
          record {
            state = rest.state;
            computes = rest.computes;
            post = Wrote-append b (with_commas bs) w u rest.state value rest.post;
          })

  -- EncodeArray with the number of its values, over the emitter of JSON and a writer that does not
  -- fail, each value being a call that writes its bytes: it returns, and has written the values between
  -- brackets, with one comma between each two of them.
  pub encode_array-joined :
      (fs : List (M W (Unit {0}))) (bs : List (List ℕ)) (w : W)
      → Reliable io
      → Emits fs bs
      → Returns
          (encode_array emitter (pos (length fs)) fs w)
          tt
          (Wrote (b'[' ∷ (joined bs ++ (b']' ∷ []))) w)
  unfolding encode_array emit_array_begin emit_array_end
  encode_array-joined fs bs w r e =
      Returns-after (λ _. emit_array_end)
        (Returns-after (λ _. encode_items emitter (pos (length fs)) 0 fs)
          (write_lem r (b'[' ∷ []) w)
          λ t begun.
            let items = first_lem fs bs (length fs) t r e refl in
            record {
              state = items.state;
              computes = items.computes;
              post = Wrote-append (b'[' ∷ []) (joined bs) w t items.state begun items.post;
            })
        λ u inside.
          let last = write_lem r (b']' ∷ []) u in
          record {
            state = last.state;
            computes = last.computes;
            post = Wrote-append (b'[' ∷ joined bs) (b']' ∷ []) w u last.state inside last.post;
          }
