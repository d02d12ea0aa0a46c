-- ===== src/Resp/Line/Laws.antt =====
-- Where a line ends that has no carriage return in it.
use objconv.Prelude.{
  ℕ, suc, ◌+◌, ◌≤◌, ◌<◌, ◌≡◌, ◌≢◌, refl, ap, ◌∙◌, List, [], ◌∷◌, ◌++◌, length, arith, none, some,
  ne→==, eq→==, dec_lt,
}
use objconv.Prelude.Bytes.{byte_at}
use objconv.Go.Strconv.{index_byte}
use objconv.Resp.Line.{index_loop, index_crlf}

-- No carriage return.
abbrev pub NoCr : List ℕ → Type 0
NoCr [] = Unit
NoCr (x ∷ xs) = (x ≢ 13) × NoCr xs

pub NoCr-append : (xs ys : List ℕ) → NoCr xs → NoCr ys → NoCr (xs ++ ys)
NoCr-append [] ys h k = k
NoCr-append (x ∷ xs) ys h k = (h.0, NoCr-append xs ys h.1 k)

index_byte-short :
    (t rest xs zs : List ℕ)
    → NoCr xs
    → t ++ rest ≡ xs ++ zs
    → length t ≤ length xs
    → index_byte 13 t ≡ none
unfolding index_byte
index_byte-short [] rest xs zs h e l = refl
index_byte-short (b ∷ t) rest [] zs h e l = absurd (omega arith)
index_byte-short (b ∷ t) rest (x ∷ xs) zs h e l =
    let first : b ≡ x = cc in
    let more : t ++ rest ≡ xs ++ zs = cc in
    rw (first, ne→== x 13 h.0, index_byte-short t rest xs zs h.1 more (omega arith)) refl

index_byte-long :
    (t rest xs zs : List ℕ)
    → NoCr xs
    → t ++ rest ≡ xs ++ (13 ∷ zs)
    → length xs < length t
    → index_byte 13 t ≡ some (length xs)
unfolding index_byte
index_byte-long [] rest xs zs h e l = absurd (omega arith)
index_byte-long (b ∷ t) rest [] zs h e l = let first : b ≡ 13 = cc in rw first refl
index_byte-long (b ∷ t) rest (x ∷ xs) zs h e l =
    let first : b ≡ x = cc in
    let more : t ++ rest ≡ xs ++ (13 ∷ zs) = cc in
    rw (first, ne→== x 13 h.0, index_byte-long t rest xs zs h.1 more (omega arith))
      (ap some (omega arith))

plus_one : (n : ℕ) → n + 1 ≡ suc n
plus_one n = omega arith

byte_behind :
    (t rest xs ys : List ℕ)
    → t ++ rest ≡ xs ++ (13 ∷ 10 ∷ ys)
    → length xs + 1 < length t
    → byte_at t (suc (length xs)) ≡ 10
byte_behind [] rest xs ys e l = absurd (omega arith)
byte_behind (a ∷ []) rest xs ys e l = absurd (omega arith)
byte_behind (a ∷ b ∷ t) rest [] ys e l = cc
byte_behind (a ∷ t) rest (x ∷ xs) ys e l = byte_behind t rest xs ys (cc) (omega arith)

-- A part of the stream that ends inside the line or between the two bytes of its end.
pub index_crlf-short :
    (t rest xs ys : List ℕ)
    → NoCr xs
    → t ++ rest ≡ xs ++ (13 ∷ 10 ∷ ys)
    → length t < length xs + 2
    → index_crlf t ≡ none
unfolding index_crlf index_loop
index_crlf-short [] rest xs ys h e l = refl
index_crlf-short (b ∷ t) rest xs ys h e l = elim (dec_lt (length xs) (length (b ∷ t))) [
  | no less ↦ rw (index_byte-short (b ∷ t) rest xs (13 ∷ 10 ∷ ys) h e (omega arith)) refl
  | yes more ↦
      rw
        (
          index_byte-long (b ∷ t) rest xs (10 ∷ ys) h e more,
          eq→== (length xs + 1) (length (b ∷ t)) (omega arith),
        )
        refl
]

-- A part that holds the line and its end.
pub index_crlf-long :
    (t rest xs ys : List ℕ)
    → NoCr xs
    → t ++ rest ≡ xs ++ (13 ∷ 10 ∷ ys)
    → length xs + 2 ≤ length t
    → index_crlf t ≡ some (length xs)
unfolding index_crlf index_loop
index_crlf-long [] rest xs ys h e l = absurd (omega arith)
index_crlf-long (b ∷ t) rest xs ys h e l =
    rw
      (
        index_byte-long (b ∷ t) rest xs (10 ∷ ys) h e (omega arith),
        ne→== (length xs + 1) (length (b ∷ t)) (λ k. omega (arith, k)),
        ap (λ (k : ℕ). byte_at (b ∷ t) k) (plus_one (length xs))
            ∙ byte_behind (b ∷ t) rest xs ys e (omega arith),
      )
      refl
