-- ===== src/Resp/Parse/Lines.antt =====
-- The values that the emitter writes as a line, read back.
use objconv.Prelude.{
  ℕ, ◌+◌, ◌≡◌, ◌≢◌, refl, true, take, subst, ap, List, [], ◌∷◌, ◌++◌, arith, append_assoc, Option,
  none, some,
}
use objconv.Prelude.Int.{ℤ, pos, negsuc, IsInt}
use objconv.Go.Outcome.{Returns}
use objconv.Go.Io.{Reader}
use objconv.Go.Strconv.{append_int, append_uint}
use objconv.Types.{ValueType}
use objconv.Objutil.Int.{is_digit}
use objconv.Objutil.Int.Print.{
  AllDigits, append_uint-Number, Number-AllDigits, parse_int-append_int,
}
use objconv.Resp.Line.{crlf_bytes, append_crlf}
use objconv.Resp.Line.Laws.{NoCr, index_crlf-short}
use objconv.Resp.Emit.{int_bytes, string_bytes, simple_bytes, bulk_bytes, error_bytes}
use objconv.Resp.Parse.{
  Parser, parse_int_value, parse_string, parse_error, int_of_line, line_of, type_of_line,
}
use objconv.Resp.Parse.Laws.{At, typed, typed_lem}

digit-ne-cr : (d : ℕ) → is_digit d ≡ true → d ≢ 13
digit-ne-cr d h e = ground arith

AllDigits-NoCr : (ds : List ℕ) → AllDigits ds → NoCr ds
AllDigits-NoCr [] h = tt
AllDigits-NoCr (d ∷ ds) h = (digit-ne-cr d h.0, AllDigits-NoCr ds h.1)

append_uint-NoCr : (n : ℕ) → NoCr (append_uint n)
append_uint-NoCr n =
    AllDigits-NoCr (append_uint n) (Number-AllDigits (append_uint n) (append_uint-Number n))

append_int-NoCr : (v : ℤ) → NoCr (append_int v)
unfolding append_int
append_int-NoCr (pos n) = append_uint-NoCr n
append_int-NoCr (negsuc n) = (λ e. omega (arith, e), append_uint-NoCr (n + 1))

-- A text without a carriage return is written as a simple string.
string_bytes-NoCr : (v : List ℕ) → NoCr v → string_bytes v ≡ simple_bytes v
unfolding string_bytes
string_bytes-NoCr v h =
    ap (λ (o : Option ℕ). elim o [ none ↦ simple_bytes v | some i ↦ bulk_bytes v ])
      (index_crlf-short v (13 ∷ 10 ∷ []) v [] h refl (omega arith))

error_bytes-NoCr : (v : List ℕ) → NoCr v → error_bytes v ≡ append_crlf (b'-' ∷ v)
unfolding error_bytes
error_bytes-NoCr v h =
    ap
      (λ (o : Option ℕ). elim o [
        | none ↦ append_crlf (b'-' ∷ v)
        | some i ↦ append_crlf (b'-' ∷ take i v)
      ])
      (index_crlf-short v (13 ∷ 10 ∷ []) v [] h refl (omega arith))

module _ {R : Type 0} ⦃io : Reader R⦄ where
  -- A line with its end, and what follows.
  at_line :
      (xs ys : List ℕ) (p : Parser R) → At (append_crlf xs ++ ys) p → At (xs ++ (13 ∷ 10 ∷ ys)) p
  at_line xs ys p h = subst (λ t. At t p) (append_assoc xs crlf_bytes ys) h

  -- ParseType and ParseInt on the bytes that EmitInt writes for an int64, and any bytes behind them,
  -- return the type int and the number, and leave those bytes.
  pub parse_int_value-int_bytes :
      (v : ℤ) (ys : List ℕ) (p : Parser R)
      → IsInt 64 v
      → At (int_bytes v ++ ys) p
      → Returns (typed parse_int_value p) (ValueType.int, v) (At ys)
  unfolding parse_int_value type_of_line int_of_line line_of
  parse_int_value-int_bytes v ys p fits h =
      typed_lem (int_of_line b':') (b':' ∷ append_int v) ys ValueType.int v p
        (λ e. omega (arith, e), append_int-NoCr v) (at_line (b':' ∷ append_int v) ys p h) refl
        (rw (parse_int-append_int v fits) refl)

  -- ParseType and ParseString on the bytes that EmitString writes for a text without a carriage
  -- return, and any bytes behind them, return the type string and the text, and leave those bytes.
  pub parse_string-string_bytes :
      (v ys : List ℕ) (p : Parser R)
      → NoCr v
      → At (string_bytes v ++ ys) p
      → Returns (typed parse_string p) (ValueType.string, v) (At ys)
  unfolding parse_string type_of_line line_of
  parse_string-string_bytes v ys p n h =
      typed_lem (line_of b'+') (b'+' ∷ v) ys ValueType.string v p (λ e. omega (arith, e), n)
        (at_line (b'+' ∷ v) ys p (subst (λ t. At (t ++ ys) p) (string_bytes-NoCr v n) h)) refl refl

  -- The same of an error: EmitError, ParseType and ParseError.
  pub parse_error-error_bytes :
      (v ys : List ℕ) (p : Parser R)
      → NoCr v
      → At (error_bytes v ++ ys) p
      → Returns (typed parse_error p) (ValueType.error, v) (At ys)
  unfolding parse_error type_of_line line_of
  parse_error-error_bytes v ys p n h =
      typed_lem (line_of b'-') (b'-' ∷ v) ys ValueType.error v p (λ e. omega (arith, e), n)
        (at_line (b'-' ∷ v) ys p (subst (λ t. At (t ++ ys) p) (error_bytes-NoCr v n) h)) refl refl
