-- ===== src/Msgpack/Emit/Laws.antt =====
-- What the emitter's methods write.
use objconv.Prelude.{
  ℕ, zero, suc, ◌+◌, ◌<◌, ◌≡◌, refl, sym, subst, ap, ap₂, ◌∙◌, List, [], ◌∷◌, ◌++◌, length, take,
  drop, arith, Option, none, some, append_assoc, append-nil, length-drop, take-append-drop,
}
use objconv.Go.Outcome.{Returns, Returns-after}
use objconv.Go.Io.{Writer}
pub use objconv.Go.Io.{Reliable}
use objconv.Msgpack.Emit.{
  WriterRef, base, buffer, Context, Emitter, cache, write, write_to, emit_string, string_loop,
  string_more, chunk_size, string_header,
}

-- What a write of `bs` to a writer does to the stack, and what it adds to the output.
abbrev pub on_stack : WriterRef → List ℕ → List (Option Context) → List (Option Context)
on_stack base bs st = st
on_stack (buffer k) bs st = cache k bs st

abbrev pub on_out : WriterRef → List ℕ → List ℕ
on_out base bs = bs
on_out (buffer k) bs = []

-- A header is far shorter than the array.
pub header-lt : (v header : List ℕ) → string_header (length v) ≡ some header → length header < 6
unfolding string_header
header-lt v header e = ground arith

chunk_size-pos : (front v : List ℕ) → length front < 240 → 0 < length v → 0 < chunk_size front v
unfolding chunk_size
chunk_size-pos front v h k = ground arith

-- From `e` to `e'` the bytes `bs` were written to the current writer, and nothing else changed.
pub record Wrote {W : Type 0} ⦃io : Writer W⦄ (bs : List ℕ) (e e' : Emitter W) : Type 0 where
  pub same_writer : e'.w ≡ e.w
  pub stacked : e'.stack ≡ on_stack e.w bs e.stack
  pub output : io.written e'.out ≡ io.written e.out ++ on_out e.w bs

pub cache-append :
    (k : ℕ) (xs ys : List ℕ) (st : List (Option Context))
    → cache k ys (cache k xs st) ≡ cache k (xs ++ ys) st
unfolding cache
cache-append k xs ys [] = refl
cache-append zero xs ys (none ∷ st) = refl
cache-append zero xs ys (some c ∷ st) =
    ap (λ b. some (record c { b = b }) ∷ st) (append_assoc c.b xs ys)
cache-append (suc k) xs ys (c ∷ st) = ap (λ t. c ∷ t) (cache-append k xs ys st)

cache-nil : (k : ℕ) (st : List (Option Context)) → cache k [] st ≡ st
unfolding cache
cache-nil k [] = refl
cache-nil zero (none ∷ st) = refl
cache-nil zero (some c ∷ st) = ap (λ b. some (record c { b = b }) ∷ st) (append-nil c.b)
cache-nil (suc k) (c ∷ st) = ap (λ t. c ∷ t) (cache-nil k st)

on_stack-append :
    (w : WriterRef) (xs ys : List ℕ) (st : List (Option Context))
    → on_stack w ys (on_stack w xs st) ≡ on_stack w (xs ++ ys) st
on_stack-append base xs ys st = refl
on_stack-append (buffer k) xs ys st = cache-append k xs ys st

pub on_stack-nil : (w : WriterRef) (st : List (Option Context)) → on_stack w [] st ≡ st
on_stack-nil base st = refl
on_stack-nil (buffer k) st = cache-nil k st

on_out-append : (w : WriterRef) (xs ys : List ℕ) → on_out w xs ++ on_out w ys ≡ on_out w (xs ++ ys)
on_out-append base xs ys = refl
on_out-append (buffer k) xs ys = refl

pub on_out-nil : (w : WriterRef) → on_out w [] ≡ []
on_out-nil base = refl
on_out-nil (buffer k) = refl

module _ {W : Type 0} ⦃io : Writer W⦄ where
  pub Wrote-nil : (e : Emitter W) → Wrote [] e e
  Wrote-nil e = record {
    same_writer = refl;
    stacked = sym (on_stack-nil e.w e.stack);
    output = sym (append-nil _) ∙ ap (λ t. io.written e.out ++ t) (sym (on_out-nil e.w));
  }

  pub Wrote-append :
      (xs ys : List ℕ) (e f g : Emitter W) → Wrote xs e f → Wrote ys f g → Wrote (xs ++ ys) e g
  Wrote-append xs ys e f g h k = record {
    same_writer = k.same_writer ∙ h.same_writer;
    stacked =
        k.stacked
        ∙ ap₂ (λ w st. on_stack w ys st) h.same_writer h.stacked
        ∙ on_stack-append e.w xs ys e.stack;
    output =
        k.output
        ∙ ap₂ (λ t w. t ++ on_out w ys) h.output h.same_writer
        ∙ append_assoc (io.written e.out) (on_out e.w xs) (on_out e.w ys)
        ∙ ap (λ t. io.written e.out ++ t) (on_out-append e.w xs ys);
  }

  pub write_lem : Reliable io → (bs : List ℕ) (e : Emitter W) → Returns (write bs e) tt (Wrote bs e)
  unfolding write write_to
  write_lem reliable bs e = to e.w refl
    where
      to : (w : WriterRef) → w ≡ e.w → Returns (write_to w bs e) tt (Wrote bs e)
      to base at = record {
        state = record e { out = (io.write e.out bs).1 };
        computes = rw (reliable e.out bs, write_to);
        post = record {
          same_writer = refl;
          stacked = ap (λ u. on_stack u bs e.stack) at;
          output =
              io.write_all e.out bs (reliable e.out bs)
              ∙ ap (λ u. io.written e.out ++ on_out u bs) at;
        };
      }
      to (buffer k) at = record {
        state = record e { stack = cache k bs e.stack };
        computes = refl;
        post = record {
          same_writer = refl;
          stacked = ap (λ u. on_stack u bs e.stack) at;
          output = sym (append-nil _) ∙ ap (λ u. io.written e.out ++ on_out u bs) at;
        };
      }

  -- The chunks of a string, put together.
  string_loop_lem :
      Reliable io
      → (fuel : ℕ) (front v : List ℕ) (e : Emitter W) → length front < 240
      → length v < fuel
      → Returns (string_loop fuel front v e) tt (Wrote (front ++ v) e)
  unfolding string_loop
  string_loop_lem reliable zero front v e room fuel = absurd (omega arith)
  string_loop_lem reliable (suc f) front v e room fuel =
      Returns-after _ (write_lem reliable (front ++ take (chunk_size front v) v) e) (
        more (λ u e1 short. string_loop_lem reliable f [] u e1 (omega arith) short)
          (drop (chunk_size front v) v) refl)
    where
      n1 : ℕ
      n1 = chunk_size front v

      more :
          ((u : List ℕ) (e1 : Emitter W)
            → length u < f
            → Returns (string_loop f [] u e1) tt (Wrote u e1))
          → (u : List ℕ) → u ≡ drop n1 v
          → (e1 : Emitter W) → Wrote (front ++ take n1 v) e e1
          → Returns (string_more (string_loop f []) u e1) tt (Wrote (front ++ v) e)
      more rest [] at e1 w = record {
        state = e1;
        computes = refl;
        post =
            subst (λ t. Wrote (front ++ t) e e1)
              (sym (append-nil _) ∙ ap (λ t. take n1 v ++ t) at ∙ take-append-drop n1 v) w;
      }
      more rest (x ∷ u) at e1 w =
          let r =
            rest (x ∷ u) e1
              (omega (arith, ap length at, length-drop n1 v, chunk_size-pos front v room)) in
          record {
            state = r.state;
            computes = r.computes;
            post =
                subst (λ t. Wrote t e r.state)
                  (append_assoc front (take n1 v) (x ∷ u)
                    ∙ ap (λ t. front ++ (take n1 v ++ t)) at
                    ∙ ap (λ t. front ++ t) (take-append-drop n1 v))
                  (Wrote-append (front ++ take n1 v) (x ∷ u) e e1 r.state w r.post);
          }

  -- Over a writer that never fails, EmitString of a string whose length fits into 32 bits writes
  -- its header and the whole string, in however many chunks, and changes nothing else.
  pub emit_string_lem :
      Reliable io
      → (v header : List ℕ) (e : Emitter W) → string_header (length v) ≡ some header
      → Returns (emit_string v e) tt (Wrote (header ++ v) e)
  unfolding emit_string
  emit_string_lem reliable v header e is =
      rw (is, emit_string)
        (string_loop_lem reliable (length v + 1) header v e (omega (arith, header-lt v header is))
          (omega arith))
