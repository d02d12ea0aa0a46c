-- ===== src/Decode/Stream/Laws.antt =====
-- What holds of a stream decoder between two calls of Len and Decode, in any order.
use objconv.Prelude.{
  ℕ, ◌+◌, ◌≡◌, refl, Bool, true, false, Option, none, some, arith, if◌then◌else◌, List, [], ◌∷◌,
  ==_false→lt,
}
use objconv.Prelude.Int.{ℤ, pos, negsuc}
use objconv.Go.Outcome.{Error, Outcome, ok, err, panic, stuck, end, M, after}
use objconv.Types.{ValueType}
use objconv.Encode.Stream.Laws.{Within, Within-zero}
use objconv.Decode.{ItemParser}
use objconv.Decode.Stream.{
  StreamDecoder, new_stream_decoder, is_done, is_unknown, is_array, caught, begun, measured,
  with_parser, init, length_left, left, separated, Result, at_end_of, decoded, decode_value, store,
  decode_begun, decode_first, decode, remaining,
}

-- Nothing is counted before the type of the stream is known, and without an error no more values are
-- counted than the stream has.
pub record Bounds (error : Option Error) (typ : ValueType) (cnt : ℕ) (max : ℤ) : Type 0 where
  pub none_before : is_unknown typ ≡ true → cnt ≡ 0
  pub within : error ≡ none → Within max cnt

abbrev pub IsValid : {P : Type 0} → StreamDecoder P → Type 0
IsValid d = Bounds d.error d.typ d.cnt d.max

-- A parser announces no value of the type Unknown.
abbrev pub Announces : {P : Type 0} → ItemParser P → Type 0
Announces {P} vp = (p q : P) (t : ValueType) → vp.parse_type p ≡ (ok t, q) → is_unknown t ≡ false

failed :
    {e : Error} {t : ValueType} {cnt : ℕ} {max : ℤ}
    → (is_unknown t ≡ true → cnt ≡ 0)
    → Bounds (some e) t cnt max
failed h = record { none_before = h; within = λ e. absurd cc }

is_known : (t : ValueType) {cnt : ℕ} → is_unknown t ≡ false → is_unknown t ≡ true → cnt ≡ 0
is_known t k u = absurd cc

Within-suc : (max : ℤ) (cnt : ℕ) → is_done cnt max ≡ false → Within max cnt → Within max (cnt + 1)
Within-suc (pos n) cnt h w = omega (arith, ==_false→lt cnt n w h)
Within-suc (negsuc k) cnt h w = tt

module _ {P : Type 0} where
  -- What is stored after a value.
  abbrev Good : ValueType → Outcome Result × P → Type 0
  Good t (ok (e, cnt, max), p) = Bounds e t cnt max
  Good t (err e, p) = Unit
  Good t (panic, p) = Unit
  Good t (stuck, p) = Unit

  abbrev Sound : {A : Type 0} → Outcome A × StreamDecoder P → Type 0
  Sound r = IsValid r.1

module _ {P : Type 0} (vp : ItemParser P) where
  store-Sound :
      (o : Outcome Result × P) (d : StreamDecoder P)
      → IsValid d
      → Good d.typ o
      → Sound (store vp o d)
  store-Sound (ok (e, cnt, max), p) d h g = g
  store-Sound (err e, p) d h g = h
  store-Sound (panic, p) d h g = h
  store-Sound (stuck, p) d h g = h

  at_end_of-Good :
      (t : ValueType) (cnt : ℕ) (max : ℤ) (e : Error) (p : P)
      → is_unknown t ≡ false
      → Good t (at_end_of vp cnt max e p)
  at_end_of-Good t cnt (pos n) e p k = failed (is_known t k)
  at_end_of-Good t cnt (negsuc m) e p k = by_end (vp.parse_array_end cnt p)
    where
      by_end :
          (r : Outcome (Unit {0}) × P)
          → Good t (
              caught r λ x q. elim x [
                | none ↦ (ok (some end, cnt, negsuc m), q)
                | some y ↦ (ok (some e, cnt, negsuc m), q)
              ])
      by_end (ok u, q) = failed (is_known t k)
      by_end (err x, q) = failed (is_known t k)
      by_end (panic, q) = tt
      by_end (stuck, q) = tt

  decoded-Good :
      (t : ValueType) (cnt : ℕ) (max : ℤ) (x : Option Error) (p : P)
      → is_unknown t ≡ false
      → Within max (cnt + 1)
      → Good t (decoded vp cnt max x p)
  decoded-Good t cnt max none p k w = record { none_before = is_known t k; within = λ e. w }
  decoded-Good t cnt max (some end) p k w = failed (is_known t k)
  decoded-Good t cnt max (some e) p k w = at_end_of-Good t cnt max _ p k

  decode_value-Good :
      (v : M P (Unit {0})) (t : ValueType) (cnt : ℕ) (max : ℤ) (x : Option Error) (p : P)
      → (is_unknown t ≡ true → cnt ≡ 0)
      → (x ≡ none → is_unknown t ≡ false)
      → Within max cnt
      → Good t (decode_value vp v cnt max x p)
  decode_value-Good v t cnt max (some e) p h k w = failed h
  decode_value-Good v t cnt max none p h k w = by_done (is_done cnt max) refl
    where
      sent :
          (r : Outcome (Unit {0}) × P)
          → Within max (cnt + 1)
          → Good t (caught r (decoded vp cnt max))
      sent (ok u, q) l = decoded-Good t cnt max none q (k refl) l
      sent (err e, q) l = decoded-Good t cnt max (some e) q (k refl) l
      sent (panic, q) l = tt
      sent (stuck, q) l = tt

      by_done :
          (b : Bool)
          → is_done cnt max ≡ b
          → Good t (if b then (ok (some end, cnt, max), p) else caught (v p) (decoded vp cnt max))
      by_done true e = failed h
      by_done false e = sent (v p) (Within-suc max cnt e w)

  begun_value-Good :
      (v : M P (Unit {0})) (t : ValueType) (cnt : ℕ) (max : ℤ) (r : Outcome (Unit {0}) × P)
      → is_unknown t ≡ false
      → Within max cnt
      → Good t (caught r (decode_value vp v cnt max))
  begun_value-Good v t cnt max (ok u, p) k w =
      decode_value-Good v t cnt max none p (is_known t k) (λ e. k) w
  begun_value-Good v t cnt max (err e, p) k w = failed (is_known t k)
  begun_value-Good v t cnt max (panic, p) k w = tt
  begun_value-Good v t cnt max (stuck, p) k w = tt

  -- What init has found.
  abbrev Begun : Outcome (ValueType × ℤ × Option Error) × P → Type 0
  Begun (ok (t, n, e), p) = e ≡ none → is_unknown t ≡ false
  Begun (err e, p) = Unit
  Begun (panic, p) = Unit
  Begun (stuck, p) = Unit

  begun-Begun : (t : ValueType) (r : Outcome ℤ × P) → is_unknown t ≡ false → Begun (begun vp t r)
  begun-Begun t (ok n, p) k = λ e. k
  begun-Begun t (err x, p) k = λ e. k
  begun-Begun t (panic, p) k = tt
  begun-Begun t (stuck, p) k = tt

  measured-Begun :
      (r : Outcome ValueType × P)
      → ((t : ValueType) (q : P) → r ≡ (ok t, q) → is_unknown t ≡ false)
      → Begun (measured vp r)
  measured-Begun (ok t, p) k =
      elim (is_array t)
        as (λ b.
          Begun (if b then begun vp t (vp.parse_array_begin p) else (ok (t, pos 1, none), p))) [
            | true ↦ begun-Begun t (vp.parse_array_begin p) (k t p refl)
            | false ↦ λ e. k t p refl
          ]
  measured-Begun (err x, p) k = λ e. absurd cc
  measured-Begun (panic, p) k = tt
  measured-Begun (stuck, p) k = tt

  -- The decoder behind init.
  abbrev set_up : ValueType × ℤ × Option Error → StreamDecoder P → StreamDecoder P
  set_up (t, n, e) c = record c { error = e; typ = t; max = n }

  -- What is done with the decoder behind init, where nothing has been counted.
  init-Sound :
      {A : Type 0} (f : ValueType × ℤ × Option Error → M (StreamDecoder P) A)
      (r : Outcome (ValueType × ℤ × Option Error) × P) (d : StreamDecoder P)
      → IsValid d
      → Begun r
      → ((t : ValueType) (n : ℤ) (e : Option Error) (p : P)
          → (e ≡ none → is_unknown t ≡ false)
          → Sound (f (t, n, e) (set_up (t, n, e) (record d { parser = p }))))
      → Sound (after (with_parser vp r set_up d) f)
  init-Sound f (ok (t, n, e), p) d h b next = next t n e p b
  init-Sound f (err x, p) d h b next = h
  init-Sound f (panic, p) d h b next = h
  init-Sound f (stuck, p) d h b next = h

  fresh : (t : ValueType) (n : ℤ) (e : Option Error) (cnt : ℕ) → cnt ≡ 0 → Bounds e t cnt n
  fresh t n e cnt z = record { none_before = λ u. z; within = λ x. rw z (Within-zero n) }

  decode_first-Sound :
      (v : M P (Unit {0})) (d : StreamDecoder P)
      → Announces vp
      → IsValid d
      → d.cnt ≡ 0
      → Sound (decode_first vp v d)
  unfolding init
  decode_first-Sound v d announces h z =
      init-Sound (λ (t, n, e) c. store vp (decode_value vp v c.cnt c.max e c.parser) c)
        (measured vp (vp.parse_type d.parser)) d h
        (measured-Begun (vp.parse_type d.parser) (λ t q e. announces d.parser q t e))
        λ t n e p k.
          let c = set_up (t, n, e) (record d { parser = p }) in
          store-Sound (decode_value vp v d.cnt n e p) c (fresh t n e d.cnt z)
            (decode_value-Good v t d.cnt n e p (λ u. z) k (rw z (Within-zero n)))

  decode-Sound :
      (v : M P (Unit {0})) (d : StreamDecoder P) → Announces vp → IsValid d → Sound (decode vp v d)
  unfolding decode
  decode-Sound v d announces h = by_error d.error refl
    where
      by_type :
          (b : Bool)
          → is_unknown d.typ ≡ b
          → d.error ≡ none
          → Sound {P = P} {A = Option Error}
              (if b then decode_first vp v d else decode_begun vp v d)
      by_type true u e = decode_first-Sound v d announces h (h.none_before u)
      by_type false u e = store-Sound _ d h (
          begun_value-Good v d.typ d.cnt d.max (separated vp d.typ d.cnt d.max d.parser) u
            (h.within e))

      by_error :
          (x : Option Error)
          → d.error ≡ x
          → Sound {P = P} {A = Option Error} (elim x [
            | some e ↦ (ok (some e), d)
            | none ↦ if is_unknown d.typ then decode_first vp v d else decode_begun vp v d
          ])
      by_error (some x) e = h
      by_error none e = by_type (is_unknown d.typ) refl e

  length_left-Sound : (d : StreamDecoder P) → Announces vp → IsValid d → Sound (length_left vp d)
  unfolding length_left init
  length_left-Sound d announces h = by_error d.error
    where
      by_type :
          (b : Bool)
          → is_unknown d.typ ≡ b
          → Sound {P = P} {A = ℤ} (
              if b
              then after
                  (with_parser vp (measured vp (vp.parse_type d.parser)) set_up d)
                  (λ x c. (ok (remaining vp c), c))
              else (ok (left d.max d.cnt), d))
      by_type true u =
          init-Sound (λ x c. (ok (remaining vp c), c)) (measured vp (vp.parse_type d.parser)) d h
            (measured-Begun (vp.parse_type d.parser) (λ t q e. announces d.parser q t e))
            λ t n e p k. fresh t n e d.cnt (h.none_before u)
      by_type false u = h

      by_error :
          (x : Option Error)
          → Sound {P = P} {A = ℤ} (elim x [
            | some e ↦ (ok (pos 0), d)
            | none ↦
                if is_unknown d.typ
                then after
                    (with_parser vp (measured vp (vp.parse_type d.parser)) set_up d)
                    (λ x c. (ok (remaining vp c), c))
                else (ok (left d.max d.cnt), d)
          ])
      by_error (some x) = h
      by_error none = by_type (is_unknown d.typ) refl

-- A call of the user.
pub data Call (P : Type 0) : Type 0 where
  len_call : Call P
  decode_call : M P (Unit {0}) → Call P

module _ {P : Type 0} (vp : ItemParser P) where
  -- The state behind calls, whatever they returned.
  unfoldable pub run : List (Call P) → StreamDecoder P → StreamDecoder P
  run [] d = d
  run (len_call ∷ cs) d = run cs (length_left vp d).1
  run (decode_call v ∷ cs) d = run cs (decode vp v d).1

  run-IsValid :
      (cs : List (Call P)) (d : StreamDecoder P) → Announces vp → IsValid d → IsValid (run cs d)
  unfolding run
  run-IsValid [] d a h = h
  run-IsValid (len_call ∷ cs) d a h =
      run-IsValid cs (length_left vp d).1 a (length_left-Sound vp d a h)
  run-IsValid (decode_call v ∷ cs) d a h =
      run-IsValid cs (decode vp v d).1 a (decode-Sound vp v d a h)

  -- Whatever calls of Len and Decode are made on a new stream decoder, in any order and with any
  -- outcomes, over a parser that announces no value of the type Unknown: nothing is counted before the
  -- type of the stream is known, and without an error no more values are counted than the stream has,
  -- where that is known.
  pub new_stream_decoder-run-IsValid :
      (cs : List (Call P)) (p : P) → Announces vp → IsValid (run cs (new_stream_decoder p))
  new_stream_decoder-run-IsValid cs p a =
      run-IsValid cs (new_stream_decoder p) a
        (record { none_before = λ u. refl; within = λ e. omega arith })
