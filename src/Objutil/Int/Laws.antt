-- ===== src/Objutil/Int/Laws.antt =====
-- The parsers of integers against a reference: the value of the digits in front, of any size, and
-- then the tests.
use objconv.Prelude.{
  ℕ, zero, suc, ◌+◌, ◌-◌, ◌*◌, ◌/◌, ◌≤◌, ◌<◌, ◌≡◌, refl, ap, List, [], ◌∷◌, ltb, ◌==◌, true, arith,
  dec_lt, Bool-cases, inl, inr, lt→ltb, le→ltb_false,
}
use objconv.Prelude.Int.{pos, negsuc, neg, ltb_ℤ, add64, sub64, mul64}
use objconv.Go.Outcome.{Outcome, err, invalid_uint64, overflow_uint64}
use objconv.Objutil.Limits.{int64_max, int64_min, uint64_max}
use objconv.Objutil.Int.{is_digit, parse_negative, parse_positive, parse_int, hex_digit}
use objconv.Objutil.Int.Reference.{
  number, signed, decimal, from, from-nil, from-cons, from-invalid, from-overflow,
}

tenfold_lem : (v : ℕ) → v ≤ int64_max / 10 → mul64 (pos v) (pos 10) ≡ pos (v * 10)
tenfold_lem v h = ground arith

room_lem : (x : ℕ) → x < 10 → sub64 (pos int64_max) (pos x) ≡ pos (int64_max - x)
room_lem x h = ground arith

sum_lem : (t x : ℕ) → t + x ≤ int64_max → add64 (pos t) (pos x) ≡ pos (t + x)
sum_lem t x h = ground arith

digit-lt : (d : ℕ) → is_digit d ≡ true → d - b'0' < 10
digit-lt d h = ground arith

parse_positive_lem :
    (ds : List ℕ) (v : ℕ)
    → v ≤ int64_max
    → parse_positive (pos v) ds ≡ signed pos (from int64_max v ds)
unfolding parse_positive
parse_positive_lem [] v h = rw (from-nil int64_max v h)
parse_positive_lem (d ∷ ds) v h = elim (Bool-cases (is_digit d)) [
  | inr bad ↦ rw (bad, from-invalid int64_max v d ds bad h)
  | inl good ↦
      let x = d - b'0' in
      let small : x < 10 = digit-lt d good in
      rw (good, from-cons int64_max v d ds good)
        (elim (dec_lt (int64_max / 10) v) [
          | yes big ↦
              rw (
                lt→ltb (int64_max / 10) v big,
                from-overflow int64_max (v * 10 + x) ds (omega arith),
              )
          | no fits ↦
              rw
                (
                  le→ltb_false (int64_max / 10) v (omega arith),
                  tenfold_lem v (omega arith),
                  room_lem x small,
                )
                (elim (dec_lt (int64_max - x) (v * 10)) [
                  | yes big ↦ rw (
                    lt→ltb (int64_max - x) (v * 10) big,
                    from-overflow int64_max (v * 10 + x) ds (omega arith),
                  )
                  | no less ↦
                      rw
                        (
                          le→ltb_false (int64_max - x) (v * 10) (omega arith),
                          sum_lem (v * 10) x (omega arith),
                        )
                        (parse_positive_lem ds (v * 10 + x) (omega arith))
                ])
        ])
]

-- The same below 0.
neg-negsuc : (n : ℕ) → 0 < n → neg n ≡ negsuc (n - 1)
neg-negsuc zero h = absurd (omega arith)
neg-negsuc (suc n) h = ap negsuc (omega arith)

neg_tenfold_lem : (v : ℕ) → v ≤ 922337203685477580 → mul64 (neg v) (pos 10) ≡ neg (v * 10)
neg_tenfold_lem zero h = refl
neg_tenfold_lem (suc v) h = rw (neg-negsuc (suc v * 10) (omega arith)) (ground arith)

neg_room_lem : (x : ℕ) → x < 10 → add64 int64_min (pos x) ≡ neg (int64_max + 1 - x)
neg_room_lem x h = rw (neg-negsuc (int64_max + 1 - x) (omega arith)) (ground arith)

neg_sum_lem : (t x : ℕ) → t + x ≤ int64_max + 1 → x < 10 → sub64 (neg t) (pos x) ≡ neg (t + x)
neg_sum_lem zero zero h k = refl
neg_sum_lem zero (suc x) h k = rw (neg-negsuc (zero + suc x) (omega arith)) (ground arith)
neg_sum_lem (suc t) x h k = rw (neg-negsuc (suc t + x) (omega arith)) (ground arith)

neg_lt : (a b : ℕ) → ltb_ℤ (neg a) (neg b) ≡ ltb b a
neg_lt zero zero = refl
neg_lt zero (suc b) = ground arith
neg_lt (suc a) zero = ground arith
neg_lt (suc a) (suc b) = ground arith

parse_negative_lem :
    (ds : List ℕ) (v : ℕ)
    → v ≤ int64_max + 1
    → parse_negative (neg v) ds ≡ signed neg (from (int64_max + 1) v ds)
unfolding parse_negative
parse_negative_lem [] v h = rw (from-nil (int64_max + 1) v h)
parse_negative_lem (d ∷ ds) v h = elim (Bool-cases (is_digit d)) [
  | inr bad ↦ rw (bad, from-invalid (int64_max + 1) v d ds bad h)
  | inl good ↦
      let x = d - b'0' in
      let small : x < 10 = digit-lt d good in
      rw (good, from-cons (int64_max + 1) v d ds good, neg_lt v 922337203685477580)
        (elim (dec_lt 922337203685477580 v) [
          | yes big ↦ rw (
            lt→ltb 922337203685477580 v big,
            from-overflow (int64_max + 1) (v * 10 + x) ds (omega arith),
          )
          | no fits ↦
              rw
                (
                  le→ltb_false 922337203685477580 v (omega arith),
                  neg_tenfold_lem v (omega arith),
                  neg_room_lem x small,
                  neg_lt (v * 10) (int64_max + 1 - x),
                )
                (elim (dec_lt (int64_max + 1 - x) (v * 10)) [
                  | yes big ↦ rw (
                    lt→ltb (int64_max + 1 - x) (v * 10) big,
                    from-overflow (int64_max + 1) (v * 10 + x) ds (omega arith),
                  )
                  | no less ↦
                      rw
                        (
                          le→ltb_false (int64_max + 1 - x) (v * 10) (omega arith),
                          neg_sum_lem (v * 10) x (omega arith) small,
                        )
                        (parse_negative_lem ds (v * 10 + x) (omega arith))
                ])
        ])
]

-- On every input ParseInt returns the number that the sign and the decimal digits stand for where
-- it fits into an int64, an overflow where the digits in front of the first other byte stand for one
-- that does not, and else the error of an invalid number.
pub parse_int-decimal : (b : List ℕ) → parse_int b ≡ decimal b
unfolding parse_int
parse_int-decimal [] = refl
parse_int-decimal (d ∷ []) = elim (Bool-cases (d == b'-')) [
  | inl minus ↦ rw minus
  | inr other ↦ rw other (parse_positive_lem (d ∷ []) 0 (omega arith))
]
parse_int-decimal (d ∷ c ∷ ds) = elim (Bool-cases (d == b'-')) [
  | inl minus ↦ rw minus (parse_negative_lem (c ∷ ds) 0 (omega arith))
  | inr other ↦ rw other (parse_positive_lem (d ∷ c ∷ ds) 0 (omega arith))
]

-- What ParseUintHex means to compute.
abbrev pub hexadecimal : List ℕ → Outcome ℕ
hexadecimal [] = err invalid_uint64
hexadecimal (d ∷ ds) = number 16 hex_digit uint64_max overflow_uint64 invalid_uint64 0 (d ∷ ds)
