-- ===== src/Encode/Stream/Refine.antt =====
-- A stream encoder of a known length against EncodeArray.
use objconv.Prelude.{
  ℕ, suc, ◌+◌, ◌<◌, ◌≡◌, refl, sym, ap, ◌∙◌, ◌==◌, true, false, none, arith, if◌then◌else◌, List,
  [], ◌∷◌, length, not, ◌&&◌, lt→leb_false, le→leb, lt→ltb, le→ltb_false,
}
use objconv.Prelude.Int.{pos}
use objconv.Go.Outcome.{Outcome, ok, M, after, ◌>>◌, Returns, after-Both}
use objconv.Encode.{ArrayEmitter, encode_items, encode_array, separate, dropped}
use objconv.Encode.Stream.{
  StreamEncoder, new_stream_encoder, open_stream, close, encode, next_value, stored, counted,
}
use objconv.Encode.Stream.Laws.{Call, open_call, encode_call, call, run}

-- The separator never fails: EncodeArray loses its error, the stream encoder does not.
abbrev pub NextReliable : {S : Type 0} → ArrayEmitter S → Type 0
NextReliable {S} em = (s : S) → Returns (em.emit_array_next s) tt (λ _. Unit)

abbrev pub calls : {S : Type 0} → List (M S (Unit {0})) → List (Call S)
calls [] = []
calls (f ∷ fs) = encode_call f ∷ calls fs

-- The encoder behind all `n` values.
abbrev pub complete : {S : Type 0} → ℕ → S → StreamEncoder S
complete n s = record {
  out = s;
  error = none;
  max = pos n;
  cnt = n;
  opened = true;
  closed = true;
  oneshot = false;
}

module _ {S : Type 0} (em : ArrayEmitter S) (n : ℕ) where
  -- The encoder behind `i` values.
  abbrev at : ℕ → S → StreamEncoder S
  at i s = record {
    out = s;
    error = none;
    max = pos n;
    cnt = i;
    opened = true;
    closed = false;
    oneshot = false;
  }

  next_value-at :
      (i : ℕ) (s t : S)
      → NextReliable em
      → separate em i s ≡ (ok tt, t)
      → next_value em (at i s) ≡ (ok tt, at i t)
  next_value-at i s t next e =
      elim (i == 0)
          as (λ b.
            (if b then (ok tt, s) else dropped (em.emit_array_next s)) ≡ (ok tt, t)
            → (if true && not b then stored em (at i s) (em.emit_array_next s) else (ok tt, at i s))
              ≡ (ok tt, at i t)) [ true ↦ λ h. ap (λ (o, x). (o, at i x)) h | false ↦ emitted ]
        e
    where
      emitted :
          dropped (em.emit_array_next s) ≡ (ok tt, t)
          → stored em (at i s) (em.emit_array_next s) ≡ (ok tt, at i t)
      emitted = rw (next s).computes (λ h. ap (λ (o, x). (o, at i x)) h)

  -- Up to e.cnt++.
  encode-counted :
      (i : ℕ) (v : M S (Unit {0})) (s t u : S)
      → i < n
      → NextReliable em
      → separate em i s ≡ (ok tt, t)
      → v t ≡ (ok tt, u)
      → encode em v (at i s) ≡ counted em (at i u)
  unfolding encode open_stream
  encode-counted i v s t u h next e f = rw (lt→leb_false n i h, next_value-at i s t next e, f) refl

  counted-more : (i : ℕ) (u : S) → suc i < n → counted em (at i u) ≡ (ok tt, at (i + 1) u)
  counted-more i u h = rw (lt→leb_false n (i + 1) (omega arith)) refl

  counted-last :
      (i : ℕ) (u w : S)
      → i + 1 ≡ n
      → em.emit_array_end u ≡ (ok tt, w)
      → counted em (at i u) ≡ (ok tt, complete n w)
  unfolding close open_stream
  counted-last i u w h e = rw (h, le→leb n n (omega arith), e) refl

  -- One turn of the loop of EncodeArray that succeeds, with what follows it.
  record Turn (i : ℕ) (f : M S (Unit {0})) (fs : List (M S (Unit {0}))) (s x : S) : Type 0 where
    before : S
    behind : S
    separated : separate em i s ≡ (ok tt, before)
    called : f before ≡ (ok tt, behind)
    rest : encode_items em (pos n) (i + 1) fs behind ≡ (ok tt, x)

  turn_lem :
      (i : ℕ) (f : M S (Unit {0})) (fs : List (M S (Unit {0}))) (s x : S)
      → i < n
      → encode_items em (pos n) i (f ∷ fs) s ≡ (ok tt, x)
      → Turn i f fs s x
  unfolding encode_items
  turn_lem i f fs s x h e =
      let a = after-Both (separate em i s) (λ _ t. after (f t) (λ _. rest)) tt x entered in
      let b = after-Both (f a.state) (λ _. rest) tt x a.second in
      record {
        before = a.state;
        behind = b.state;
        separated = a.first;
        called = b.first;
        rest = b.second;
      }
    where
      rest : M S (Unit {0})
      rest = encode_items em (pos n) (i + 1) fs

      opened :
          encode_items em (pos n) i (f ∷ fs) s
          ≡ after (separate em i s) (λ _ t. after (f t) (λ _. rest))
      opened = rw (lt→ltb i n h) refl

      entered : after (separate em i s) (λ _ t. after (f t) (λ _. rest)) ≡ (ok tt, x)
      entered = sym opened ∙ e

  items_end : (i : ℕ) (s x : S) → i ≡ n → encode_items em (pos n) i [] s ≡ (ok tt, x) → s ≡ x
  unfolding encode_items
  items_end i s x h e = ap (λ (r : Outcome (Unit {0}) × S). r.1) (sym ended ∙ e)
    where
      ended : encode_items em (pos n) i [] s ≡ (ok tt, s)
      ended = rw (le→ltb_false i n (omega arith)) refl

  call-encode :
      {i : ℕ} {f : M S (Unit {0})} {fs : List (M S (Unit {0}))} {s x : S} (t : Turn i f fs s x)
      → i < n
      → NextReliable em
      → (e : StreamEncoder S) → counted em (at i t.behind) ≡ (ok tt, e)
      → call em (encode_call f) (at i s) ≡ e
  unfolding call
  call-encode {i} {f} {fs} {s} t h next e c =
      ap (λ (r : Outcome (Unit {0}) × StreamEncoder S). r.1)
        (encode-counted i f s t.before t.behind h next t.separated t.called ∙ c)

  run-at :
      (i : ℕ) (f : M S (Unit {0})) (fs : List (M S (Unit {0}))) (s x w : S)
      → i + length (f ∷ fs) ≡ n
      → NextReliable em
      → encode_items em (pos n) i (f ∷ fs) s ≡ (ok tt, x)
      → em.emit_array_end x ≡ (ok tt, w)
      → run em (calls (f ∷ fs)) (at i s) ≡ complete n w
  unfolding run
  run-at i f [] s x w h next e g =
      let t = turn_lem i f [] s x (omega arith) e in
      let last = items_end (i + 1) t.behind x h t.rest in
      call-encode t (omega arith) next (complete n w) (counted-last i t.behind w h (rw last g))
  run-at i f (f' ∷ fs) s x w h next e g =
      let t = turn_lem i f (f' ∷ fs) s x (omega arith) e in
      let now =
        call-encode t (omega arith) next (at (i + 1) t.behind)
          (counted-more i t.behind (omega arith)) in
      ap (λ a. run em (calls (f' ∷ fs)) a) now
      ∙ run-at (i + 1) f' fs t.behind x w (omega arith) next t.rest g

  call-open :
      (s t : S)
      → em.emit_array_begin (pos n) s ≡ (ok tt, t)
      → call em (open_call (pos n)) (new_stream_encoder s) ≡ at 0 t
  unfolding call open_stream
  call-open s t h = rw (h, call) refl

module _ {S : Type 0} (em : ArrayEmitter S) where
  -- Where EncodeArray succeeds on an array of a known length above 0, and EmitArrayNext never fails,
  -- Open with that length and one Encode for each value end with the same output, the stream being
  -- closed without a call of Close, without an error, and with the length counted.
  pub run-encode_array :
      (f : M S (Unit {0})) (fs : List (M S (Unit {0}))) (s w : S)
      → NextReliable em
      → encode_array em (pos (length (f ∷ fs))) (f ∷ fs) s ≡ (ok tt, w)
      → run em (open_call (pos (length (f ∷ fs))) ∷ calls (f ∷ fs)) (new_stream_encoder s)
        ≡ complete (length (f ∷ fs)) w
  unfolding encode_array run call open_stream
  run-encode_array f fs s w next e =
      let n = length (f ∷ fs) in
      let a =
        after-Both ((em.emit_array_begin (pos n) >> encode_items em (pos n) 0 (f ∷ fs)) s)
          (λ _. em.emit_array_end) tt w e in
      let b =
        after-Both (em.emit_array_begin (pos n) s) (λ _. encode_items em (pos n) 0 (f ∷ fs)) tt
          a.state a.first in
      ap (run em (calls (f ∷ fs))) (call-open em n s b.state b.first)
      ∙ run-at em n 0 f fs b.state a.state w (omega arith) next b.second a.second
