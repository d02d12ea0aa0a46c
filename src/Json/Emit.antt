-- ===== src/Json/Emit.antt =====
-- The emitter of json/emit.go. The scratch buffer `s` of the source holds no bytes between the
-- methods, and what it is put together to be is a list; the writer `w` is the only state.
pub mod Pretty
pub mod Arrays
pub mod Laws
use objconv.Prelude.{
  ℕ, zero, suc, ◌+◌, ◌/◌, ◌%◌, ◌^◌, ◌==◌, List, [], ◌∷◌, ◌++◌, Bool, ◌||◌, Option, none, some,
  if◌then◌else◌,
}
use objconv.Prelude.Int.{ℤ}
use objconv.Go.Outcome.{
  Error, Outcome, ok, err, panic, stuck, no_nan, no_positive_infinity, no_negative_infinity, M,
}
use objconv.Go.Io.{Writer}
use objconv.Go.Strconv.{append_int, append_uint, FloatFormat}
use objconv.Go.Base64.{Base64}
use objconv.Go.Time.{Time, TimeFormat}
use objconv.Objutil.Duration.{append_duration}

abbrev pub null_bytes : List ℕ
null_bytes = b'n' ∷ b'u' ∷ b'l' ∷ b'l' ∷ []

abbrev pub true_bytes : List ℕ
true_bytes = b't' ∷ b'r' ∷ b'u' ∷ b'e' ∷ []

abbrev pub false_bytes : List ℕ
false_bytes = b'f' ∷ b'a' ∷ b'l' ∷ b's' ∷ b'e' ∷ []

abbrev pub quote : ℕ
quote = b'"'

abbrev pub backslash : ℕ
backslash = 92

-- The switch of EmitString: the byte behind the backslash, for a byte that is escaped.
unfoldable pub escape : ℕ → Option ℕ
escape b =
    if b == quote || (b == backslash)
    then some b
    else if b == 8
    then some b'b'
    else if b == 12
    then some b'f'
    else if b == 10
    then some b'n'
    else if b == 13
    then some b'r'
    else if b == 9
    then some b't'
    else none

-- The loop of EmitString: `s` is what is put together, and `chunk` is v[i:j].
unfoldable pub string_loop : List ℕ → List ℕ → List ℕ → List ℕ
unfolding escape
string_loop s chunk [] = s ++ chunk ++ (quote ∷ [])
string_loop s chunk (b ∷ v) =
    let plain = string_loop s (chunk ++ (b ∷ [])) v in
    let escaped = λ (c : ℕ). string_loop (s ++ chunk ++ (backslash ∷ c ∷ [])) [] v in
    elim (escape b) [ none ↦ plain | some c ↦ escaped c ]

unfoldable pub string_bytes : List ℕ → List ℕ
unfolding string_loop
string_bytes v = string_loop (quote ∷ []) [] v

-- The exponent and the fraction of a float64.
abbrev exponent : ℕ → ℕ
exponent v = v / 2 ^ 52 % 2048

abbrev fraction : ℕ → ℕ
fraction v = v % 2 ^ 52

abbrev answered : {W : Type 0} → Option Error → M W (Unit {0})
answered none w = (ok tt, w)
answered (some x) w = (err x, w)

module _ {W : Type 0} ⦃io : Writer W⦄ where
  -- e.w.Write(bs)
  unfoldable pub write : List ℕ → M W (Unit {0})
  write bs w = let (error, w') = io.write w bs in answered error w'

  unfoldable pub emit_nil : M W (Unit {0})
  emit_nil = write null_bytes

  unfoldable pub emit_bool : Bool → M W (Unit {0})
  emit_bool v = write (if v then true_bytes else false_bytes)

  -- The bit size is ignored.
  unfoldable pub emit_int : ℤ → M W (Unit {0})
  emit_int v = write (append_int v)

  unfoldable pub emit_uint : ℕ → M W (Unit {0})
  emit_uint v = write (append_uint v)

  -- NaN and the infinities have the exponent 2047; bit 63 is the sign.
  unfoldable pub emit_float : ⦃fl : FloatFormat⦄ → ℕ → ℕ → M W (Unit {0})
  emit_float ⦃fl⦄ v bit_size w =
      if exponent v == 2047
      then (if fraction v == 0
          then (if v / 2 ^ 63 == 0
              then (err no_positive_infinity, w)
              else (err no_negative_infinity, w))
          else (err no_nan, w))
      else write (fl.format v bit_size) w

  unfoldable pub emit_string : List ℕ → M W (Unit {0})
  emit_string v = write (string_bytes v)

  unfoldable pub emit_bytes : ⦃b64 : Base64⦄ → List ℕ → M W (Unit {0})
  emit_bytes ⦃b64⦄ v = write (quote ∷ (b64.encode v ++ (quote ∷ [])))

  unfoldable pub emit_time : ⦃tf : TimeFormat⦄ → Time → M W (Unit {0})
  emit_time ⦃tf⦄ v = write (quote ∷ (tf.format v ++ (quote ∷ [])))

  unfoldable pub emit_duration : ℤ → M W (Unit {0})
  emit_duration v = write (append_duration (quote ∷ []) v ++ (quote ∷ []))

  -- An error is its text.
  unfoldable pub emit_error : List ℕ → M W (Unit {0})
  unfolding emit_string
  emit_error v = emit_string v

  unfoldable pub emit_array_begin : ℤ → M W (Unit {0})
  emit_array_begin n = write (b'[' ∷ [])

  unfoldable pub emit_array_end : M W (Unit {0})
  emit_array_end = write (b']' ∷ [])

  unfoldable pub emit_array_next : M W (Unit {0})
  emit_array_next = write (b',' ∷ [])

  unfoldable pub emit_map_begin : ℤ → M W (Unit {0})
  emit_map_begin n = write (b'{' ∷ [])

  unfoldable pub emit_map_end : M W (Unit {0})
  emit_map_end = write (b'}' ∷ [])

  unfoldable pub emit_map_value : M W (Unit {0})
  emit_map_value = write (b':' ∷ [])

  unfoldable pub emit_map_next : M W (Unit {0})
  emit_map_next = write (b',' ∷ [])
