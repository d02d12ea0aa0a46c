-- ===== src/Objutil/Duration.antt =====
-- AppendDuration of objutil/duration.go. The array `buf` is filled from its end: here it is the list
-- of the bytes from `w` on.
pub mod Laws
use objconv.Prelude.{
  ℕ, zero, suc, ◌+◌, ◌-◌, ◌/◌, ◌%◌, ◌^◌, ◌==◌, List, [], ◌∷◌, ◌++◌, ltb, Bool, true, false, not,
  ◌||◌, if◌then◌else◌,
}
use objconv.Prelude.Int.{ℤ, pos, negsuc, to_word}
use objconv.Go.Time.{second}

abbrev pub microsecond : ℕ
microsecond = 1000

abbrev pub millisecond : ℕ
millisecond = 1000000

-- What the loop of fmtFrac leaves: `print`, `v` and the bytes.
pub record Fraction : Type 0 where
  pub print : Bool
  pub v : ℕ
  pub buf : List ℕ

-- The loop of fmtFrac, with the given number of rounds to come.
unfoldable pub fmt_frac_loop : ℕ → Bool → ℕ → List ℕ → Fraction
fmt_frac_loop zero print v buf = record { print = print; v = v; buf = buf }
fmt_frac_loop (suc rounds) print v buf =
    let digit = v % 10 in
    let print' = print || not (digit == 0) in
    fmt_frac_loop rounds print' (v / 10) (if print' then (digit + b'0') ∷ buf else buf)

-- The bytes and v / 10^prec.
unfoldable pub fmt_frac : ℕ → ℕ → List ℕ → List ℕ × ℕ
unfolding fmt_frac_loop
fmt_frac v prec buf =
    let f = fmt_frac_loop prec false v buf in (if f.print then b'.' ∷ f.buf else f.buf, f.v)

-- The loop of fmtInt; each round divides by ten, so `v` rounds are enough.
unfoldable pub fmt_int_loop : ℕ → ℕ → List ℕ → List ℕ
fmt_int_loop zero v buf = buf
fmt_int_loop (suc fuel) v buf =
    let rest = fmt_int_loop fuel (v / 10) ((v % 10 + b'0') ∷ buf) in if ltb 0 v then rest else buf

unfoldable pub fmt_int : ℕ → List ℕ → List ℕ
unfolding fmt_int_loop
fmt_int v buf = if v == 0 then b'0' ∷ buf else fmt_int_loop v v buf

-- The fraction, the integer and the unit of a duration below a second.
unfoldable pub below_second : ℕ → ℕ → List ℕ → List ℕ
unfolding fmt_frac fmt_int
below_second u prec unit = let (buf, v) = fmt_frac u prec unit in fmt_int v buf

-- Behind the seconds: `u` is minutes.
unfoldable pub hours_and_minutes : ℕ → List ℕ → List ℕ
unfolding fmt_int
hours_and_minutes u buf =
    let minutes = fmt_int (u % 60) (b'm' ∷ buf) in
    if ltb 0 u then (if ltb 0 (u / 60) then fmt_int (u / 60) (b'h' ∷ minutes) else minutes) else buf

unfoldable pub from_second : ℕ → List ℕ
unfolding fmt_frac fmt_int hours_and_minutes
from_second u =
    let (buf, v) = fmt_frac u 9 (b's' ∷ []) in hours_and_minutes (v / 60) (fmt_int (v % 60) buf)

-- The bytes of a duration that is not zero, without its sign.
unfoldable pub magnitude : ℕ → List ℕ
unfolding below_second from_second
magnitude u =
    if ltb u second
    then (if ltb u microsecond
        then below_second u 0 (b'n' ∷ b's' ∷ [])
        else if ltb u millisecond
        then below_second u 3 (0xC2 ∷ 0xB5 ∷ b's' ∷ [])
        else below_second u 6 (b'm' ∷ b's' ∷ []))
    else from_second u

abbrev pub is_negative : ℤ → Bool
is_negative (pos n) = false
is_negative (negsuc n) = true

-- u := uint64(d), and u = -u of a negative `d`.
abbrev pub unsigned : ℤ → ℕ
unsigned d = if is_negative d then (2 ^ 64 - to_word 64 d) % 2 ^ 64 else to_word 64 d

unfoldable pub append_duration : List ℕ → ℤ → List ℕ
unfolding magnitude
append_duration b d =
    let u = unsigned d in
    if u == 0
    then b ++ (b'0' ∷ b's' ∷ [])
    else b ++ (if is_negative d then b'-' ∷ magnitude u else magnitude u)
