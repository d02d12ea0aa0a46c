-- ===== src/Decode/Collections/Laws.antt =====
-- The loops of the decoder, and the slice that grows with its elements.
use objconv.Prelude.{
  ℕ, zero, suc, ◌+◌, ◌-◌, ◌<◌, ◌≡◌, refl, ap, ◌∙◌, List, [], ◌∷◌, ◌++◌, length, take, set,
  replicate, arith, Bool-cases, inl, inr, ◌==◌, ne→==, lt→ltb, le→ltb_false, length-append,
  length-replicate, take-append, append-nil, append_assoc, eq-nil_of_length,
}
use objconv.Prelude.Int.{pos}
use objconv.Go.Outcome.{ok, M}
use objconv.Decode.{ItemParser, decode_loop}
use objconv.Decode.Collections.{lifted, Elements, next_size, grown, append_item, trimmed}

-- The separator in front of the item number `i`: none in front of the first.
abbrev pub Separates : {P : Type 0} → (ℕ → M P (Unit {0})) → ℕ → P → P → Type 0
Separates next zero p q = p ≡ q
Separates next (suc i) p q = next (suc i) p ≡ (ok tt, q)

-- One round of the loops of the decoder.
pub round_lem :
    {P : Type 0} (vp : ItemParser P) (next leave f : ℕ → M P (Unit {0})) (n fuel i : ℕ) (p t u : P)
    → i < n
    → Separates next i p t
    → f i t ≡ (ok tt, u)
    → decode_loop vp next leave f (pos n) (suc fuel) i p
      ≡ decode_loop vp next leave f (pos n) fuel (suc i) u
unfolding decode_loop
round_lem vp next leave f n fuel zero p t u h s e = rw (s, lt→ltb 0 n h, e) refl
round_lem vp next leave f n fuel (suc i) p t u h s e =
    let j : suc i + 1 ≡ suc (suc i) = omega arith in
    rw (lt→ltb (suc i) n h, ne→== (suc i) 0 (omega arith), s, e, j) refl

pub last_lem :
    {P : Type 0} (vp : ItemParser P) (next leave f : ℕ → M P (Unit {0})) (n fuel i : ℕ) (p : P)
    → i ≡ n
    → decode_loop vp next leave f (pos n) fuel i p ≡ leave i p
unfolding decode_loop
last_lem vp next leave f n zero i p e = rw (le→ltb_false i n (omega arith)) refl
last_lem vp next leave f n (suc fuel) i p e = rw (le→ltb_false i n (omega arith)) refl

pub Separates-lifted :
    {P X : Type 0} (next : ℕ → M P (Unit {0})) (i : ℕ) (p t : P) (x : X)
    → Separates next i p t
    → Separates (λ n. lifted {X = X} (next n)) i (p, x) (t, x)
Separates-lifted next zero p t x s = ap (λ q. (q, x)) s
Separates-lifted next (suc i) p t x s = rw s refl

next_size-lt : (n : ℕ) → n < next_size n
unfolding next_size
next_size-lt n = ground arith

module _ {A : Type 0} where
  -- The first elements of the slice are `acc`.
  pub record Decoded (x : Elements A) (acc : List A) : Type 0 where
    pub others : List A
    pub split : x.s ≡ acc ++ others
    pub count : x.i ≡ length acc

  pub Decoded-none : Decoded (record { s = []; i = 0 }) []
  Decoded-none = record { others = []; split = refl; count = refl }

  -- There is room for one more element.
  pub record Room (x : Elements A) (acc : List A) : Type 0 where
    pub free : A
    pub others : List A
    pub split : x.s ≡ acc ++ (free ∷ others)
    pub count : x.i ≡ length acc

  pub set-middle :
      (xs ys : List A) (y v : A) → set (xs ++ (y ∷ ys)) (length xs) v ≡ (xs ++ (v ∷ [])) ++ ys
  set-middle [] ys y v = refl
  set-middle (x ∷ xs) ys y v = ap (λ t. x ∷ t) (set-middle xs ys y v)

  pub Room-of :
      (x : Elements A) (acc others : List A)
      → x.s ≡ acc ++ others
      → x.i ≡ length acc
      → 0 < length others
      → Room x acc
  Room-of x acc [] e c h = elim h [ ]
  Room-of x acc (y ∷ ys) e c h = record { free = y; others = ys; split = e; count = c }

  grown-Room : (z : A) (x : Elements A) (acc : List A) → Decoded x acc → Room (grown z x) acc
  unfolding grown
  grown-Room z x acc d = elim (Bool-cases (x.i == length x.s)) [
    | inl full ↦ rw full (
        Room-of _ acc (d.others ++ replicate (next_size (length x.s) - length x.s) z)
          (ap (λ t. t ++ replicate (next_size (length x.s) - length x.s) z) d.split
            ∙ append_assoc acc d.others _)
          d.count
          (omega (
            arith,
            length-append d.others (replicate (next_size (length x.s) - length x.s) z),
            length-replicate (next_size (length x.s) - length x.s) z,
            next_size-lt (length x.s),
          )))
    | inr more ↦ rw more (
        Room-of x acc d.others d.split d.count
          (ground (arith, ap length d.split, length-append acc d.others, d.count)))
  ]

  module _ {P : Type 0} (z : A) (vp : ItemParser P) where
    pub append_item_lem :
        (f : M P A) (v : A) (p q : P) (x : Elements A) (acc : List A)
        → f p ≡ (ok v, q)
        → Decoded x acc
        → (y : Elements A) × (append_item z vp f (p, x) ≡ (ok tt, (q, y)))
          × Decoded y (acc ++ (v ∷ []))
    unfolding append_item
    append_item_lem f v p q x acc e d =
        let g = grown z x in
        let r = grown-Room z x acc d in
        (
          record { s = set g.s g.i v; i = g.i + 1 },
          rw e refl,
          record {
            others = r.others;
            split =
                ap (λ t. set t g.i v) r.split
                ∙ ap (λ (n : ℕ). set (acc ++ (r.free ∷ r.others)) n v) r.count
                ∙ set-middle acc r.others r.free v;
            count = omega (arith, r.count, length-append acc (v ∷ []));
          },
        )

    pub trimmed_lem : (x : Elements A) (acc : List A) → Decoded x acc → trimmed z vp x ≡ acc
    trimmed_lem x acc d = elim (Bool-cases (x.i == length x.s)) [
      | inl full ↦ rw full (
          d.split
          ∙ ap (λ t. acc ++ t)
              (eq-nil_of_length d.others
                (ground (arith, ap length d.split, length-append acc d.others, d.count)))
          ∙ append-nil acc)
      | inr more ↦ rw more (
          ap (λ (n : ℕ). take n x.s) d.count
          ∙ ap (λ t. take (length acc) t) d.split
          ∙ take-append acc d.others (length acc) refl)
    ]
