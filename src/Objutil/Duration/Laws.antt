-- ===== src/Objutil/Duration/Laws.antt =====
-- How long the text of a duration is: whether it fits into the array that AppendDuration fills.
use objconv.Prelude.{
  ℕ, zero, suc, ◌+◌, ◌/◌, ◌%◌, ◌^◌, ◌≤◌, ◌<◌, ◌==◌, ◌≡◌, refl, subst, length-append, List, [], ◌∷◌,
  ◌++◌, length, ltb, Bool, true, false, not, ◌||◌, arith, if◌then◌else◌,
}
use objconv.Prelude.Int.{ℤ, pos, negsuc}
use objconv.Go.Time.{second}
use objconv.Objutil.Duration.{
  Fraction, fmt_frac_loop, fmt_frac, fmt_int_loop, fmt_int, below_second, hours_and_minutes,
  from_second, magnitude, unsigned, append_duration, is_negative, microsecond, millisecond,
}

-- The number has at most `k` decimal digits.
unfoldable pub Small : ℕ → ℕ → Type 0
Small zero v = v ≡ 0
Small (suc k) v = Small k (v / 10)

Small-le : (k v w : ℕ) → w ≤ v → Small k v → Small k w
unfolding Small
Small-le zero v w l h = omega (arith, h)
Small-le (suc k) v w l h = Small-le k (v / 10) (w / 10) (omega arith) h

Small-zero : (k : ℕ) → Small k 0
unfolding Small
Small-zero zero = refl
Small-zero (suc k) = Small-zero k

fmt_int_loop-length :
    (f k v : ℕ) (buf : List ℕ) → Small k v → length (fmt_int_loop f v buf) ≤ length buf + k
unfolding fmt_int_loop Small
fmt_int_loop-length zero k v buf h = omega arith
fmt_int_loop-length (suc f) zero v buf h = rw h (omega arith)
fmt_int_loop-length (suc f) (suc k) v buf h =
    let rest = fmt_int_loop-length f k (v / 10) ((v % 10 + b'0') ∷ buf) h in
    elim (ltb 0 v)
      as (λ b.
        length (if b then fmt_int_loop f (v / 10) ((v % 10 + b'0') ∷ buf) else buf)
        ≤ length buf + suc k) [ true ↦ omega (arith, rest) | false ↦ omega arith ]

fmt_int-length :
    (k v : ℕ) (buf : List ℕ) → Small (suc k) v → length (fmt_int v buf) ≤ length buf + suc k
unfolding fmt_int
fmt_int-length k v buf h =
    let digits = fmt_int_loop-length v (suc k) v buf h in
    elim (v == 0)
      as (λ b. length (if b then b'0' ∷ buf else fmt_int_loop v v buf) ≤ length buf + suc k) [
        | true ↦ omega arith
        | false ↦ digits
      ]

-- The fraction takes a byte for each round at most, and the number loses as many digits.
record Shortened (rounds k : ℕ) (buf : List ℕ) (f : Fraction) : Type 0 where
  bytes : length f.buf ≤ length buf + rounds
  rest : Small k f.v

one_more : (b : Bool) (d : ℕ) (buf : List ℕ) → length (if b then d ∷ buf else buf) ≤ length buf + 1
one_more true d buf = omega arith
one_more false d buf = omega arith

fmt_frac_loop-length :
    (rounds k t : ℕ) (print : Bool) (v : ℕ) (buf : List ℕ)
    → t ≡ rounds + k
    → Small t v
    → Shortened rounds k buf (fmt_frac_loop rounds print v buf)
unfolding fmt_frac_loop Small
fmt_frac_loop-length zero k t print v buf e h =
    let same : t ≡ k = omega arith in
    record { bytes = omega arith; rest = subst (λ (m : ℕ). Small m v) same h }
fmt_frac_loop-length (suc rounds) k zero print v buf e h = absurd (omega arith)
fmt_frac_loop-length (suc rounds) k (suc t) print v buf e h =
    let b = print || not (v % 10 == 0) in
    let next = if b then (v % 10 + b'0') ∷ buf else buf in
    let r = fmt_frac_loop-length rounds k t b (v / 10) next (omega arith) h in
    record { bytes = omega (arith, r.bytes, one_more b (v % 10 + b'0') buf); rest = r.rest }

fmt_frac-length :
    (prec k t v : ℕ) (buf : List ℕ)
    → t ≡ prec + k
    → Small t v
    → (length (fmt_frac v prec buf).0 ≤ length buf + prec + 1) × Small k (fmt_frac v prec buf).1
unfolding fmt_frac
fmt_frac-length prec k t v buf e h =
    let r = fmt_frac_loop-length prec k t false v buf e h in
    let f = fmt_frac_loop prec false v buf in
    (omega (arith, r.bytes, one_more f.print b'.' f.buf), r.rest)

below_second-length :
    (prec k u : ℕ) (unit : List ℕ)
    → 20 ≡ prec + suc k
    → Small 20 u
    → length (below_second u prec unit) ≤ length unit + 21
unfolding below_second
below_second-length prec k u unit e h =
    let (bytes, rest) = fmt_frac-length prec (suc k) 20 u unit e h in
    omega (arith, bytes, fmt_int-length k (fmt_frac u prec unit).1 (fmt_frac u prec unit).0 rest)

Small-sixty : (v : ℕ) → Small 2 (v % 60)
unfolding Small
Small-sixty v = omega arith

hours_and_minutes-length :
    (u : ℕ) (buf : List ℕ) → Small 11 u → length (hours_and_minutes u buf) ≤ length buf + 15
unfolding hours_and_minutes
hours_and_minutes-length u buf h =
    let minutes = fmt_int-length 1 (u % 60) (b'm' ∷ buf) (Small-sixty u) in
    let hours =
      fmt_int-length 10 (u / 60) (b'h' ∷ fmt_int (u % 60) (b'm' ∷ buf))
        (Small-le 11 u (u / 60) (omega arith) h) in
    two_tests (ltb 0 u) (ltb 0 (u / 60)) _ _ (omega (arith, minutes))
      (omega (arith, minutes, hours))
  where
    two_tests :
        (b c : Bool) (xs ys : List ℕ)
        → length xs ≤ length buf + 15
        → length ys ≤ length buf + 15
        → length (if b then (if c then ys else xs) else buf) ≤ length buf + 15
    two_tests true true xs ys m h = h
    two_tests true false xs ys m h = m
    two_tests false c xs ys m h = omega arith

from_second-length : (u : ℕ) → Small 20 u → length (from_second u) ≤ 28
unfolding from_second
from_second-length u h =
    let (bytes, rest) = fmt_frac-length 9 11 20 u (b's' ∷ []) refl h in
    let v = (fmt_frac u 9 (b's' ∷ [])).1 in
    let seconds = fmt_int-length 1 (v % 60) (fmt_frac u 9 (b's' ∷ [])).0 (Small-sixty v) in
    omega (
      arith,
      bytes,
      seconds,
      hours_and_minutes-length (v / 60) (fmt_int (v % 60) (fmt_frac u 9 (b's' ∷ [])).0)
          (Small-le 11 v (v / 60) (omega arith) rest),
    )

magnitude-length : (u : ℕ) → Small 20 u → length (magnitude u) ≤ 28
unfolding magnitude
magnitude-length u h =
    three_tests (ltb u second) (ltb u microsecond) (ltb u millisecond) _ _ _ _
      (omega (arith, below_second-length 0 19 u (b'n' ∷ b's' ∷ []) refl h))
      (omega (arith, below_second-length 3 16 u (0xC2 ∷ 0xB5 ∷ b's' ∷ []) refl h))
      (omega (arith, below_second-length 6 13 u (b'm' ∷ b's' ∷ []) refl h)) (from_second-length u h)
  where
    three_tests :
        (a b c : Bool) (ws xs ys zs : List ℕ)
        → length ws ≤ 28
        → length xs ≤ 28
        → length ys ≤ 28
        → length zs ≤ 28
        → length (if a then (if b then ws else if c then xs else ys) else zs) ≤ 28
    three_tests true true c ws xs ys zs w x y z = w
    three_tests true false true ws xs ys zs w x y z = x
    three_tests true false false ws xs ys zs w x y z = y
    three_tests false b c ws xs ys zs w x y z = z

Small-word : (u : ℕ) → u < 2 ^ 64 → Small 20 u
unfolding Small
Small-word u h = omega arith

unsigned-lt : (d : ℤ) → unsigned d < 2 ^ 64
unsigned-lt (pos n) = omega arith
unsigned-lt (negsuc n) = omega arith

-- AppendDuration appends 32 bytes at most for any duration, so that its array of 32 bytes, which it
-- fills from the end, is large enough.
pub append_duration-length : (b : List ℕ) (d : ℤ) → length (append_duration b d) ≤ length b + 32
unfolding append_duration
append_duration-length b d =
    let u = unsigned d in
    let text = if is_negative d then b'-' ∷ magnitude u else magnitude u in
    elim (u == 0)
      as (λ z. length (if z then b ++ (b'0' ∷ b's' ∷ []) else b ++ text) ≤ length b + 32) [
        | true ↦ omega (arith, length-append b (b'0' ∷ b's' ∷ []))
        | false ↦ omega (
          arith,
          length-append b text,
          with_sign (is_negative d) (magnitude u)
              (magnitude-length u (Small-word u (unsigned-lt d))),
        )
      ]
  where
    with_sign :
        (n : Bool) (xs : List ℕ) → length xs ≤ 28 → length (if n then b'-' ∷ xs else xs) ≤ 29
    with_sign true xs h = omega arith
    with_sign false xs h = omega arith
