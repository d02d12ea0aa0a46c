-- ===== src/Msgpack/Emit/Counted.antt =====
-- EncodeArray of encode.go over the emitter of msgpack/emit.go, for an array whose length is known.
use objconv.Prelude.{
  ℕ, zero, suc, ◌+◌, ◌-◌, ◌≡◌, refl, sym, subst, ap, ap₂, ◌∙◌, List, [], ◌∷◌, ◌++◌, length, arith,
  Option, none, some, append_assoc, append-nil, length-append, ne→==, lt→ltb, le→ltb_false,
}
use objconv.Prelude.Int.{pos}
use objconv.Go.Outcome.{M, Returns, Returns-after}
use objconv.Go.Io.{Writer}
use objconv.Encode.{encode_array, encode_items, separate, dropped}
use objconv.Msgpack.Emit.{
  WriterRef, base, buffer, Context, Emitter, cache, count, array_header, emit_array_begin,
  emit_array_end, emit_array_next,
}
use objconv.Msgpack.Emit.Laws.{Reliable, Wrote, Wrote-append, on_stack, on_out}
use objconv.Msgpack.Emit.Arrays.{emitter, concat, Emits, emit_array_lem, pop-last}

cache-none :
    (st : List (Option Context)) (k : ℕ) (bs : List ℕ)
    → cache k bs (st ++ (none ∷ [])) ≡ cache k bs st ++ (none ∷ [])
unfolding cache
cache-none [] zero bs = refl
cache-none [] (suc k) bs = refl
cache-none (none ∷ st) zero bs = refl
cache-none (some c ∷ st) zero bs = refl
cache-none (s ∷ st) (suc k) bs = ap (λ t. s ∷ t) (cache-none st k bs)

on_stack-none :
    (w : WriterRef) (st : List (Option Context)) (bs : List ℕ)
    → on_stack w bs (st ++ (none ∷ [])) ≡ on_stack w bs st ++ (none ∷ [])
on_stack-none base st bs = refl
on_stack-none (buffer k) st bs = cache-none st k bs

count-none :
    (st : List (Option Context)) → count (length st) (st ++ (none ∷ [])) ≡ st ++ (none ∷ [])
unfolding count
count-none [] = refl
count-none (s ∷ st) = ap (λ t. s ∷ t) (count-none st)

module _ {W : Type 0} ⦃io : Writer W⦄ where
  -- `f` is `inner` with the nil context of the array on its stack, and from `e` to `inner` the
  -- bytes `bs` were written.
  record Inside (e : Emitter W) (bs : List ℕ) (f : Emitter W) : Type 0 where
    inner : Emitter W
    wrote : Wrote bs e inner
    same_writer : f.w ≡ inner.w
    same_out : f.out ≡ inner.out
    stacked : f.stack ≡ inner.stack ++ (none ∷ [])

  Inside-write :
      (e f g : Emitter W) (acc bs : List ℕ) → Inside e acc f → Wrote bs f g → Inside e (acc ++ bs) g
  Inside-write e f g acc bs o w =
      let inner : Emitter W = record {
        out = g.out;
        w = o.inner.w;
        stack = on_stack o.inner.w bs o.inner.stack;
      } in
      record {
        inner = inner;
        wrote = Wrote-append acc bs e o.inner inner o.wrote (record {
          same_writer = refl;
          stacked = refl;
          output = w.output ∙ ap₂ (λ t u. io.written t ++ on_out u bs) o.same_out o.same_writer;
        });
        same_writer = w.same_writer ∙ o.same_writer;
        same_out = refl;
        stacked =
            w.stacked
            ∙ ap₂ (λ u st. on_stack u bs st) o.same_writer o.stacked
            ∙ on_stack-none o.inner.w o.inner.stack bs;
      }

  next_lem :
      (e f : Emitter W) (acc : List ℕ)
      → Inside e acc f
      → Returns (emit_array_next f) tt (Inside e acc)
  unfolding emit_array_next
  next_lem e f acc o =
      let long : length f.stack ≡ length o.inner.stack + 1 =
        ap length o.stacked ∙ length-append o.inner.stack _ in
      rw (ne→== (length f.stack) 0 (omega arith)) (record {
        state = record f { stack = count (length f.stack - 1) f.stack };
        computes = refl;
        post = record {
          inner = o.inner;
          wrote = o.wrote;
          same_writer = o.same_writer;
          same_out = o.same_out;
          stacked =
              ap₂ (λ (k : ℕ) st. count k st) (omega arith) o.stacked ∙ count-none o.inner.stack;
        };
      })

  separate_lem :
      (e f : Emitter W) (acc : List ℕ) (i : ℕ)
      → Inside e acc f
      → Returns (separate emitter i f) tt (Inside e acc)
  separate_lem e f acc zero o = record { state = f; computes = refl; post = o }
  separate_lem e f acc (suc i) o =
      let x = next_lem e f acc o in
      record {
        state = x.state;
        computes = rw (ne→== (suc i) 0 (omega arith)) (ap dropped x.computes);
        post = x.post;
      }

  items_lem :
      (fs : List (M (Emitter W) (Unit {0}))) (bs : List (List ℕ)) (e f : Emitter W) (acc : List ℕ)
      (i n : ℕ)
      → n ≡ i + length fs
      → Emits fs bs
      → Inside e acc f
      → Returns (encode_items emitter (pos n) i fs f) tt (Inside e (acc ++ concat bs))
  unfolding encode_items
  items_lem [] [] e f acc i n l h o = rw (le→ltb_false i n (omega arith)) (record {
    state = f;
    computes = refl;
    post = subst (λ b. Inside e b f) (sym (append-nil acc)) o;
  })
  items_lem [] (b ∷ bs) e f acc i n l h o = absurd h
  items_lem (x ∷ fs) [] e f acc i n l h o = absurd h
  items_lem (x ∷ fs) (b ∷ bs) e f acc i n l (emits, some_bytes, rest) o =
      rw (lt→ltb i n (omega arith)) (
        Returns-after _ (separate_lem e f acc i o) λ g o1. Returns-after _ (emits g) λ h w.
          let y =
            items_lem fs bs e h (acc ++ b) (i + 1) n (omega arith) rest
              (Inside-write e g h acc b o1 w) in
          record {
            state = y.state;
            computes = y.computes;
            post = subst (λ c. Inside e c y.state) (append_assoc acc b (concat bs)) y.post;
          })

  begin_lem :
      Reliable io
      → (n : ℕ) (header : List ℕ) (e : Emitter W) → array_header n ≡ some header
      → Returns (emit_array_begin (pos n) e) tt (Inside e header)
  unfolding emit_array_begin
  begin_lem reliable n header e is =
      let x = emit_array_lem reliable n header e is in
      record {
        state = record x.state { stack = x.state.stack ++ (none ∷ []) };
        computes = rw x.computes;
        post = record {
          inner = x.state;
          wrote = x.post;
          same_writer = refl;
          same_out = refl;
          stacked = refl;
        };
      }

  end_lem :
      (e f : Emitter W) (acc : List ℕ)
      → Inside e acc f
      → Returns (emit_array_end f) tt (Wrote acc e)
  unfolding emit_array_end
  end_lem e f acc o =
      rw (o.stacked, emit_array_end, pop-last o.inner.stack none)
        (record {
          state = record f { stack = o.inner.stack };
          computes = refl;
          post = record {
            same_writer = o.same_writer ∙ o.wrote.same_writer;
            stacked = o.wrote.stacked;
            output = ap io.written o.same_out ∙ o.wrote.output;
          };
        })

  -- EncodeArray of an array of known length, whose callback ends after that many elements, over this
  -- emitter and a writer that never fails, writes the header of the length and the bytes of all
  -- elements in order, and restores the writer and the stack.
  pub encode_array-known_length :
      Reliable io
      → (fs : List (M (Emitter W) (Unit {0}))) (bs : List (List ℕ)) (header : List ℕ)
        (e : Emitter W)
      → Emits fs bs
      → array_header (length fs) ≡ some header
      → Returns (encode_array emitter (pos (length fs)) fs e) tt (Wrote (header ++ concat bs) e)
  unfolding encode_array
  encode_array-known_length reliable fs bs header e emits is =
      Returns-after _
        (Returns-after _ (begin_lem reliable (length fs) header e is)
          λ f o. items_lem fs bs e f header 0 (length fs) (omega arith) emits o)
        λ g o. end_lem e g (header ++ concat bs) o
