-- ===== src/Go/Io/Laws.antt =====
-- io.ReadFull against the stream of bytes.
use objconv.Prelude.{
  ℕ, zero, suc, ◌-◌, ◌≤◌, ◌<◌, ◌≡◌, ◌≢◌, refl, sym, ap, ◌∙◌, List, [], ◌∷◌, ◌++◌, length, drop,
  arith, append_assoc, length-append, length-drop, le→leb, lt→leb_false, dec_le, append-nil,
  eq-nil_of_length,
}
use objconv.Go.Outcome.{ok, Returns, Returns-eq}
use objconv.Go.Io.{Reader, read_full, read_full_loop}

-- Two ways to cut one list, the first cut no later than the second.
pub cut_earlier :
    (us vs xs ys : List ℕ)
    → us ++ vs ≡ xs ++ ys
    → length us ≤ length xs
    → (us ++ drop (length us) xs ≡ xs) × (vs ≡ drop (length us) xs ++ ys)
cut_earlier [] vs xs ys e h = (refl, e)
cut_earlier (u ∷ us) vs [] ys e h = absurd (omega arith)
cut_earlier (u ∷ us) vs (x ∷ xs) ys e h =
    let (p, q) = cut_earlier us vs xs ys (cc) (omega arith) in (cc, q)

module _ {R : Type 0} ⦃io : Reader R⦄ where
  abbrev pub Left : List ℕ → R → Type 0
  Left ys r = io.unread r ≡ ys

  not_empty : (xs ys : List ℕ) (r : R) → 0 < length xs → io.unread r ≡ xs ++ ys → io.unread r ≢ []
  not_empty xs ys r pos e n = absurd (omega (arith, ap length (sym n ∙ e), length-append xs ys))

  read_full_loop_lem :
      (fuel k : ℕ) (got xs ys : List ℕ) (r : R)
      → k ≤ fuel
      → length xs ≡ k
      → io.unread r ≡ xs ++ ys
      → Returns (read_full_loop fuel k got r) (got ++ xs) (Left ys)
  unfolding read_full_loop
  read_full_loop_lem fuel zero got [] ys r f l e = record {
    state = r;
    computes = ap (λ t. (ok t, r)) (sym (append-nil got));
    post = e;
  }
  read_full_loop_lem fuel zero got (x ∷ xs) ys r f l e = absurd (omega arith)
  read_full_loop_lem zero (suc k) got xs ys r f l e = absurd (omega arith)
  read_full_loop_lem (suc fuel) (suc k) got xs ys r f l e =
      let res = io.read r (suc k) in
      let some_read =
        io.read_progress r (suc k) (omega arith) (not_empty xs ys r (omega arith) e) in
      let (whole, left) =
        cut_earlier res.bytes (io.unread res.next) xs ys (io.read_in_order r (suc k) ∙ e)
          (omega (arith, io.read_fits r (suc k))) in
      elim (dec_le (suc k) (length res.bytes)) [
        | yes full ↦
            let none_left =
              eq-nil_of_length (drop (length res.bytes) xs)
                (omega (arith, length-drop (length res.bytes) xs)) in
            rw (le→leb (suc k) (length res.bytes) full) (record {
              state = res.next;
              computes =
                  ap (λ t. (ok (got ++ t), res.next))
                    (sym (append-nil _) ∙ ap (λ t. res.bytes ++ t) (sym none_left) ∙ whole);
              post = left ∙ ap (λ t. t ++ ys) none_left;
            })
        | no short ↦
            let more = length-drop (length res.bytes) xs in
            let no_error =
              io.read_continues r (suc k)
                (not_empty (drop (length res.bytes) xs) ys res.next (omega (arith, more)) left) in
            rw (lt→leb_false (suc k) (length res.bytes) (omega arith), no_error)
              (Returns-eq (append_assoc got res.bytes _ ∙ ap (λ t. got ++ t) whole) (
                read_full_loop_lem fuel (suc k - length res.bytes) (got ++ res.bytes)
                  (drop (length res.bytes) xs) ys res.next (omega arith) (omega (arith, more))
                  left))
      ]

  -- With `k` bytes or more in the stream, ReadFull returns the first `k`.
  pub read_full_lem :
      (xs ys : List ℕ) (k : ℕ) (r : R)
      → length xs ≡ k
      → io.unread r ≡ xs ++ ys
      → Returns (read_full k r) xs (Left ys)
  unfolding read_full
  read_full_lem xs ys k r l e = read_full_loop_lem k k [] xs ys r (omega arith) l e
