-- ===== src/Json/Emit/Pretty.antt =====
-- The PrettyEmitter of json/emit.go: its level of indentation, and the stack of the lengths of the
-- arrays and maps that are open.
pub mod Laws
use objconv.Prelude.{
  ℕ, zero, suc, ◌+◌, ◌-◌, ◌*◌, ◌==◌, List, [], ◌∷◌, replicate, ltb, Option, none, some, Bool, true,
  false, if◌then◌else◌,
}
use objconv.Prelude.Int.{ℤ, pos, negsuc}
use objconv.Go.Outcome.{Outcome, ok, err, panic, stuck, M, after, ◌>>=◌, ◌>>◌, pure}
use objconv.Go.Io.{Writer}
use objconv.Json.Emit

-- The last of the source's stack `s` is the first of this one.
pub record PrettyEmitter (W : Type 0) : Type 0 where
  pub w : W
  pub i : ℕ
  pub s : List ℤ

abbrev pub new_pretty_emitter : {W : Type 0} → W → PrettyEmitter W
new_pretty_emitter w = record { w = w; i = 0; s = [] }

-- e.Emitter.Reset(w), e.i = 0 and e.s = e.s[:0]
unfoldable pub reset : {W : Type 0} → W → M (PrettyEmitter W) (Unit {0})
reset w e = (ok tt, record { w = w; i = 0; s = [] })

-- n != 0
abbrev pub is_filled : ℤ → Bool
is_filled (pos n) = if n == 0 then false else true
is_filled (negsuc k) = true

-- A method of the Emitter inside.
abbrev pub plain : {W : Type 0} → M W (Unit {0}) → M (PrettyEmitter W) (Unit {0})
plain m e = let (o, w) = m e.w in (o, record e { w = w })

abbrev pub newline : List ℕ
newline = 10 ∷ []

-- spaces[:n]
abbrev pub spaces : ℕ → List ℕ
spaces n = replicate n b' '

-- At most as many as the array `spaces` holds.
abbrev pub piece : ℕ → ℕ
piece n = if ltb 10 n then 10 else n

unfoldable pub push : {W : Type 0} → ℤ → M (PrettyEmitter W) ℤ
push n e = (ok n, record e { i = if is_filled n then e.i + 1 else e.i; s = n ∷ e.s })

abbrev pub pop_from : {W : Type 0} → List ℤ → M (PrettyEmitter W) ℤ
pop_from [] e = (panic, e)
pop_from (n ∷ s) e = (ok n, record e { i = if is_filled n then e.i - 1 else e.i; s = s })

-- An empty stack is an index out of range.
unfoldable pub pop : {W : Type 0} → M (PrettyEmitter W) ℤ
pop e = pop_from e.s e

module _ {W : Type 0} ⦃io : Writer W⦄ where
  -- The loop of indent, with `n` spaces to come; each round writes one at least.
  unfoldable pub indent_loop : ℕ → ℕ → M (PrettyEmitter W) (Unit {0})
  indent_loop zero n e = if n == 0 then (ok tt, e) else (stuck, e)
  indent_loop (suc fuel) n e =
      let rest = indent_loop fuel (n - piece n) in
      if n == 0 then (ok tt, e) else after (plain (Emit.write (spaces (piece n))) e) (λ _. rest)

  unfoldable pub indent : M (PrettyEmitter W) (Unit {0})
  unfolding indent_loop
  indent e = after (plain (Emit.write newline) e) (λ _ f. indent_loop (2 * f.i) (2 * f.i) f)

  abbrev pub indent_if : ℤ → M (PrettyEmitter W) (Unit {0})
  indent_if n e = if is_filled n then indent e else (ok tt, e)

  unfoldable pub emit_array_begin : ℤ → M (PrettyEmitter W) (Unit {0})
  unfolding indent push
  emit_array_begin n = plain (Emit.emit_array_begin n) >> push n >>= indent_if

  unfoldable pub emit_array_end : M (PrettyEmitter W) (Unit {0})
  unfolding indent pop
  emit_array_end = pop >>= indent_if >> plain Emit.emit_array_end

  unfoldable pub emit_array_next : M (PrettyEmitter W) (Unit {0})
  unfolding indent
  emit_array_next = plain Emit.emit_array_next >> indent

  unfoldable pub emit_map_begin : ℤ → M (PrettyEmitter W) (Unit {0})
  unfolding indent push
  emit_map_begin n = plain (Emit.emit_map_begin n) >> push n >>= indent_if

  unfoldable pub emit_map_end : M (PrettyEmitter W) (Unit {0})
  unfolding indent pop
  emit_map_end = pop >>= indent_if >> plain Emit.emit_map_end

  unfoldable pub emit_map_value : M (PrettyEmitter W) (Unit {0})
  emit_map_value = plain Emit.emit_map_value >> plain (Emit.write (spaces 1))

  unfoldable pub emit_map_next : M (PrettyEmitter W) (Unit {0})
  unfolding indent
  emit_map_next = plain Emit.emit_map_next >> indent
