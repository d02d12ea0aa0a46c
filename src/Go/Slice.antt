-- ===== src/Go/Slice.antt =====
-- Byte slices: an array of fixed length, and the part of it that a slice shows.
use objconv.Prelude.{
  ℕ, zero, suc, ◌+◌, ◌-◌, ◌≤◌, ◌<◌, List, [], ◌∷◌, ◌++◌, ◌≡◌, refl, ap, arith, length, take, drop,
  replicate, get_or, take-take, drop-take, drop-drop, length-take, length-drop,
}

-- b[i:j]
abbrev pub slice : ℕ → ℕ → List ℕ → List ℕ
slice i j b = take (j - i) (drop i b)

-- copy(b[i:], xs): what does not fit is dropped.
pub overwrite : ℕ → List ℕ → List ℕ → List ℕ
overwrite i xs [] = []
overwrite zero [] (b ∷ bs) = b ∷ bs
overwrite zero (x ∷ xs) (b ∷ bs) = x ∷ overwrite zero xs bs
overwrite (suc i) xs (b ∷ bs) = b ∷ overwrite i xs bs

pub length-overwrite : (i : ℕ) (xs b : List ℕ) → length (overwrite i xs b) ≡ length b
unfolding overwrite
length-overwrite i xs [] = refl
length-overwrite zero [] (b ∷ bs) = refl
length-overwrite zero (x ∷ xs) (b ∷ bs) = ap suc (length-overwrite zero xs bs)
length-overwrite (suc i) xs (b ∷ bs) = ap suc (length-overwrite i xs bs)

pub overwrite-nil : (i : ℕ) (b : List ℕ) → overwrite i [] b ≡ b
unfolding overwrite
overwrite-nil i [] = refl
overwrite-nil zero (b ∷ bs) = refl
overwrite-nil (suc i) (b ∷ bs) = ap (λ t. b ∷ t) (overwrite-nil i bs)

-- After a copy behind the first `i` bytes these and the copied bytes are the front of the array.
pub take-overwrite :
    (i n : ℕ) (xs b : List ℕ)
    → n ≡ i + length xs
    → n ≤ length b
    → take n (overwrite i xs b) ≡ take i b ++ xs
unfolding overwrite
take-overwrite zero zero [] [] e h = refl
take-overwrite zero (suc n) [] b e h = absurd (omega arith)
take-overwrite zero zero [] (b ∷ bs) e h = refl
take-overwrite zero n (x ∷ xs) [] e h = absurd (omega arith)
take-overwrite zero zero (x ∷ xs) (b ∷ bs) e h = absurd (omega arith)
take-overwrite zero (suc n) (x ∷ xs) (b ∷ bs) e h =
    ap (λ t. x ∷ t) (take-overwrite zero n xs bs (omega arith) (omega arith))
take-overwrite (suc i) n xs [] e h = absurd (omega arith)
take-overwrite (suc i) zero xs (b ∷ bs) e h = absurd (omega arith)
take-overwrite (suc i) (suc n) xs (b ∷ bs) e h =
    ap (λ t. b ∷ t) (take-overwrite i n xs bs (omega arith) (omega arith))

-- A slice whose capacity matters: its array, as long as the capacity, and its length.
pub record Slice : Type 0 where
  pub array : List ℕ
  pub len : ℕ

abbrev pub capacity : Slice → ℕ
capacity s = length s.array

abbrev pub contents : Slice → List ℕ
contents s = take s.len s.array

-- make([]byte, n, c)
abbrev pub make : ℕ → ℕ → Slice
make n c = record { array = replicate c 0; len = n }

-- s[:n]
abbrev pub reslice : ℕ → Slice → Slice
reslice n s = record s { len = n }

-- copy(s[i:], xs), where `xs` is no longer than what `s` holds from `i` on.
abbrev pub copy_at : ℕ → List ℕ → Slice → Slice
copy_at i xs s = record s { array = overwrite i xs s.array }

-- Bytes copied to the front of an array, and more bytes behind them.
pub take-overwrite_front :
    (ys xs b : List ℕ) (n k : ℕ)
    → length ys ≡ n
    → k ≡ n + length xs
    → k ≤ length b
    → take k (overwrite n xs (overwrite 0 ys b)) ≡ ys ++ xs
take-overwrite_front ys xs b n k e f h =
    rw
      (
        take-overwrite n k xs (overwrite 0 ys b) f (rw length-overwrite h),
        take-overwrite 0 n ys b (omega arith) (omega arith),
      )
      refl

pub slice-overwrite_front :
    (ys xs b : List ℕ) (n k : ℕ)
    → length ys ≡ n
    → k ≡ n + length xs
    → k ≤ length b
    → slice 0 k (overwrite n xs (overwrite 0 ys b)) ≡ ys ++ xs
slice-overwrite_front ys xs b n k e f h = rw as_front (take-overwrite_front ys xs b n k e f h)
  where
    as_front : k - 0 ≡ k
    as_front = omega arith

-- What lies between `i` and `i + n` is the front of what lies between `i` and a later `j`.
pub slice_within : (i n j : ℕ) (b : List ℕ) → i + n ≤ j → slice i (i + n) b ≡ take n (slice i j b)
slice_within i n j b h = rw (take-take n (j - i) (drop i b) (omega arith), width)
  where
    width : i + n - i ≡ n
    width = omega arith

pub slice_later : (i n j : ℕ) (b : List ℕ) → i + n ≤ j → slice (i + n) j b ≡ drop n (slice i j b)
slice_later i n j b h =
    rw (drop-take n (j - (i + n)) (j - i) (drop i b) (omega arith), drop-drop n i b)

pub length-slice : (i j : ℕ) (b : List ℕ) → j ≤ length b → length (slice i j b) ≡ j - i
length-slice i j b h = omega (arith, length-take (j - i) (drop i b), length-drop i b)

-- The first byte of a slice that is not empty.
pub first_of_slice :
    (x i m : ℕ) (b ys zs : List ℕ)
    → take m (drop i b) ++ zs ≡ x ∷ ys
    → 0 < length (take m (drop i b))
    → get_or b i 0 ≡ x
first_of_slice x i zero b ys zs e l = absurd (omega arith)
first_of_slice x zero (suc m) [] ys zs e l = absurd (omega arith)
first_of_slice x zero (suc m) (c ∷ b) ys zs e l = cc
first_of_slice x (suc i) (suc m) [] ys zs e l = absurd (omega arith)
first_of_slice x (suc i) (suc m) (c ∷ b) ys zs e l = first_of_slice x i (suc m) b ys zs e l
