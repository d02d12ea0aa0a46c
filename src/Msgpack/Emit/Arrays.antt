-- ===== src/Msgpack/Emit/Arrays.antt =====
-- EncodeArray of encode.go over the emitter of msgpack/emit.go, for an array of unknown length.
use objconv.Prelude.{
  ℕ, zero, suc, ◌+◌, ◌-◌, ◌<◌, ◌≡◌, refl, sym, subst, ap, ap₂, ◌∙◌, List, [], ◌∷◌, ◌++◌, length,
  arith, Option, some, append_assoc, append-nil, length-append, ne→==,
}
use objconv.Prelude.Int.{negsuc}
use objconv.Go.Outcome.{M, Returns, Returns-after}
use objconv.Go.Io.{Writer}
use objconv.Encode.{ArrayEmitter, encode_array, encode_items, separate, dropped}
use objconv.Msgpack.Emit.{
  buffer, Context, Emitter, cache, count, pop, flush, elements, array_header, emit_array,
  emit_array_begin, emit_array_end, emit_array_next,
}
use objconv.Msgpack.Emit.Laws.{
  Reliable, Wrote, Wrote-nil, Wrote-append, write_lem, on_stack, on_out, on_stack-nil, on_out-nil,
}

abbrev pub emitter : {W : Type 0} ⦃io : Writer W⦄ → ArrayEmitter (Emitter W)
emitter = record {
  emit_array_begin = emit_array_begin;
  emit_array_end = emit_array_end;
  emit_array_next = emit_array_next;
}

-- The bytes of several elements.
abbrev pub concat : List (List ℕ) → List ℕ
concat [] = []
concat (b ∷ bs) = b ++ concat bs

cache-last :
    (st : List (Option Context)) (c : Context) (bs : List ℕ)
    → cache (length st) bs (st ++ (some c ∷ [])) ≡ st ++ (some (record c { b = c.b ++ bs }) ∷ [])
unfolding cache
cache-last [] c bs = refl
cache-last (s ∷ st) c bs = ap (λ t. s ∷ t) (cache-last st c bs)

count-last :
    (st : List (Option Context)) (c : Context)
    → count (length st) (st ++ (some c ∷ [])) ≡ st ++ (some (record c { n = c.n + 1 }) ∷ [])
unfolding count
count-last [] c = refl
count-last (s ∷ st) c = ap (λ t. s ∷ t) (count-last st c)

pub pop-last :
    (st : List (Option Context)) (c : Option Context) → pop (st ++ (c ∷ [])) ≡ some (st, c)
unfolding pop
pop-last [] c = refl
pop-last (s ∷ []) c = refl
pop-last (s ∷ t ∷ st) c = rw (pop-last (t ∷ st) c)

module _ {W : Type 0} ⦃io : Writer W⦄ where
  -- Each call writes its bytes, at least one.
  abbrev pub Emits : List (M (Emitter W) (Unit {0})) → List (List ℕ) → Type 0
  Emits [] [] = Unit
  Emits [] (b ∷ bs) = ⊥
  Emits (f ∷ fs) [] = ⊥
  Emits (f ∷ fs) (b ∷ bs) =
      ((e : Emitter W) → Returns (f e) tt (Wrote b e)) × (0 < length b) × Emits fs bs

  -- Since `e` an array of unknown length was begun: `acc` is cached and `n` elements are counted.
  record Open (e : Emitter W) (acc : List ℕ) (n : ℕ) (f : Emitter W) : Type 0 where
    to_cache : f.w ≡ buffer (length e.stack)
    stacked : f.stack ≡ e.stack ++ (some (record { b = acc; w = e.w; n = n }) ∷ [])
    output : io.written f.out ≡ io.written e.out

  Open-write :
      (e f g : Emitter W) (acc bs : List ℕ) (n : ℕ)
      → Open e acc n f
      → Wrote bs f g
      → Open e (acc ++ bs) n g
  Open-write e f g acc bs n o w = record {
    to_cache = w.same_writer ∙ o.to_cache;
    stacked =
        w.stacked
        ∙ ap₂ (λ u st. on_stack u bs st) o.to_cache o.stacked
        ∙ cache-last e.stack (record { b = acc; w = e.w; n = n }) bs;
    output = w.output ∙ ap₂ (λ t u. t ++ on_out u bs) o.output o.to_cache ∙ append-nil _;
  }

  next_lem :
      (e f : Emitter W) (acc : List ℕ) (n : ℕ)
      → Open e acc n f
      → Returns (emit_array_next f) tt (Open e acc (n + 1))
  unfolding emit_array_next
  next_lem e f acc n o =
      let long : length f.stack ≡ length e.stack + 1 =
        ap length o.stacked ∙ length-append e.stack _ in
      rw (ne→== (length f.stack) 0 (omega arith)) (record {
        state = record f { stack = count (length f.stack - 1) f.stack };
        computes = refl;
        post = record {
          to_cache = o.to_cache;
          stacked =
              ap₂ (λ (k : ℕ) st. count k st) (omega arith) o.stacked
              ∙ count-last e.stack (record { b = acc; w = e.w; n = n });
          output = o.output;
        };
      })

  separate_lem :
      (e f : Emitter W) (acc : List ℕ) (i : ℕ)
      → Open e acc (i - 1) f
      → Returns (separate emitter i f) tt (Open e acc i)
  separate_lem e f acc zero o = record { state = f; computes = refl; post = o }
  separate_lem e f acc (suc i) o =
      let x = next_lem e f acc i (subst (λ k. Open e acc k f) (omega arith) o) in
      record {
        state = x.state;
        computes = rw (ne→== (suc i) 0 (omega arith)) (ap dropped x.computes);
        post = subst (λ k. Open e acc k x.state) (omega arith) x.post;
      }

  items_lem :
      (fs : List (M (Emitter W) (Unit {0}))) (bs : List (List ℕ)) (e f : Emitter W) (acc : List ℕ)
      (i k : ℕ)
      → Emits fs bs
      → Open e acc (i - 1) f
      → Returns
          (encode_items emitter (negsuc k) i fs f)
          tt
          (Open e (acc ++ concat bs) (i + length fs))
  unfolding encode_items
  items_lem [] [] e f acc i k h o =
      let x = separate_lem e f acc i o in
      record {
        state = x.state;
        computes = x.computes;
        post =
            subst (λ b. Open e b (i + 0) x.state) (sym (append-nil acc))
              (subst (λ j. Open e acc j x.state) (omega arith) x.post);
      }
  items_lem [] (b ∷ bs) e f acc i k h o = absurd h
  items_lem (x ∷ fs) [] e f acc i k h o = absurd h
  items_lem (x ∷ fs) (b ∷ bs) e f acc i k (emits, some_bytes, rest) o =
      Returns-after _ (separate_lem e f acc i o) λ g o1. Returns-after _ (emits g) λ h w.
        let y =
          items_lem fs bs e h (acc ++ b) (i + 1) k rest
            (subst (λ j. Open e (acc ++ b) j h) (omega arith) (Open-write e g h acc b i o1 w)) in
        record {
          state = y.state;
          computes = y.computes;
          post =
              subst (λ j. Open e (acc ++ (b ++ concat bs)) j y.state) (omega arith)
                (subst (λ c. Open e c (i + 1 + length fs) y.state) (append_assoc acc b (concat bs))
                  y.post);
        }

  flush_lem : Reliable io → (bs : List ℕ) (e : Emitter W) → Returns (flush bs e) tt (Wrote bs e)
  unfolding flush
  flush_lem reliable [] e = record { state = e; computes = refl; post = Wrote-nil e }
  flush_lem reliable (b ∷ bs) e = write_lem reliable (b ∷ bs) e

  pub emit_array_lem :
      Reliable io
      → (n : ℕ) (header : List ℕ) (e : Emitter W) → array_header n ≡ some header
      → Returns (emit_array n e) tt (Wrote header e)
  unfolding emit_array
  emit_array_lem reliable n header e is = rw (is, emit_array) (write_lem reliable header e)

  end_lem :
      Reliable io
      → (e f : Emitter W) (acc header : List ℕ) (n : ℕ) → Open e acc n f
      → array_header (elements (record { b = acc; w = e.w; n = n })) ≡ some header
      → Returns (emit_array_end f) tt (Wrote (header ++ acc) e)
  unfolding emit_array_end
  end_lem reliable e f acc header n o is =
      let g : Emitter W = record { out = f.out; w = e.w; stack = e.stack } in
      let start : Wrote [] e g = record {
        same_writer = refl;
        stacked = sym (on_stack-nil e.w e.stack);
        output =
            o.output ∙ sym (append-nil _) ∙ ap (λ t. io.written e.out ++ t) (sym (on_out-nil e.w));
      } in
      rw (o.stacked, emit_array_end, pop-last e.stack (some (record { b = acc; w = e.w; n = n })))
        (Returns-after _ (emit_array_lem reliable _ header g is) λ h w.
          let x = flush_lem reliable acc h in
          record {
            state = x.state;
            computes = x.computes;
            post =
                Wrote-append header acc e h x.state (Wrote-append [] header e g h start w) x.post;
          })

  some_output :
      (fs : List (M (Emitter W) (Unit {0}))) (bs : List (List ℕ))
      → Emits fs bs
      → 0 < length fs
      → 0 < length (concat bs)
  some_output [] bs h pos_fs = absurd (omega arith)
  some_output (f ∷ fs) [] h pos_fs = absurd h
  some_output (f ∷ fs) (b ∷ bs) (emits, some_bytes, rest) pos_fs =
      omega (arith, length-append b (concat bs))

  begin_lem : (e : Emitter W) (k : ℕ) → Returns (emit_array_begin (negsuc k) e) tt (Open e [] 0)
  unfolding emit_array_begin
  begin_lem e k = record {
    state = record {
      out = e.out;
      w = buffer (length e.stack);
      stack = e.stack ++ (some (record { b = []; w = e.w; n = 0 }) ∷ []);
    };
    computes = refl;
    post = record { to_cache = refl; stacked = refl; output = refl };
  }

  -- EncodeArray of an array of unknown length with one element or more, over this emitter and a
  -- writer that never fails, writes the bytes of all its elements, but behind the header of an
  -- array of one element more.
  pub encode_array-unknown_length :
      Reliable io
      → (k : ℕ) (fs : List (M (Emitter W) (Unit {0}))) (bs : List (List ℕ)) (header : List ℕ)
        (e : Emitter W)
      → Emits fs bs
      → 0 < length fs
      → array_header (length fs + 1) ≡ some header
      → Returns (encode_array emitter (negsuc k) fs e) tt (Wrote (header ++ concat bs) e)
  unfolding encode_array
  encode_array-unknown_length reliable k fs bs header e emits more is =
      Returns-after _ (Returns-after _ (begin_lem e k) λ f o. items_lem fs bs e f [] 0 k emits o)
        λ g o.
          end_lem reliable e g (concat bs) header (length fs)
            (subst (λ j. Open e (concat bs) j g) (omega arith) o)
            (rw (ne→== (length (concat bs)) 0 (omega (arith, some_output fs bs emits more))) is)
