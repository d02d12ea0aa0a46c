-- ===== src/Json/Emit/Pretty/Laws.antt =====
-- The indentation of the PrettyEmitter against the arrays and maps that are open.
use objconv.Prelude.{
  ℕ, zero, suc, ◌+◌, ◌-◌, ◌*◌, ◌≤◌, ◌<◌, ◌≡◌, ◌==◌, refl, sym, ap, ap₂, ℕ_discrete, ◌≢◌, ◌∙◌, List,
  [], ◌∷◌, ◌++◌, true, false, if◌then◌else◌, arith, append_assoc, append-nil, ne→==,
}
use objconv.Prelude.Int.{ℤ}
use objconv.Go.Outcome.{
  Outcome, ok, err, panic, stuck, M, after, ◌>>=◌, ◌>>◌, Returns, Returns-after,
}
use objconv.Go.Io.{Writer, Reliable}
use objconv.Json.Emit
use objconv.Json.Emit.Laws.{Wrote, write_lem}
use objconv.Json.Emit.Pretty.{
  PrettyEmitter, new_pretty_emitter, is_filled, plain, push, pop, pop_from, indent, indent_if,
  indent_loop, newline, spaces, piece, emit_array_begin, emit_array_end, emit_array_next,
  emit_map_begin, emit_map_end, emit_map_value, emit_map_next, reset,
}

-- The number of open arrays and maps that are not known to be empty.
unfoldable pub depth : List ℤ → ℕ
depth [] = 0
depth (n ∷ s) = if is_filled n then depth s + 1 else depth s

abbrev pub IsValid : {W : Type 0} → PrettyEmitter W → Type 0
IsValid e = e.i ≡ depth e.s

module _ {W : Type 0} where
  -- A call keeps the level of indentation in order, whatever it returns.
  abbrev Keeps : {A : Type 0} → M (PrettyEmitter W) A → Type 0
  Keeps m = (e : PrettyEmitter W) → IsValid e → IsValid (m e).1

  abbrev Sound : Outcome (Unit {0}) × PrettyEmitter W → Type 0
  Sound r = IsValid r.1

  after-Keeps :
      {A B : Type 0} (r : Outcome A × PrettyEmitter W) (f : A → M (PrettyEmitter W) B)
      → IsValid r.1
      → ((a : A) → Keeps (f a))
      → IsValid (after r f).1
  after-Keeps (ok a, e) f h k = k a e h
  after-Keeps (err x, e) f h k = h
  after-Keeps (panic, e) f h k = h
  after-Keeps (stuck, e) f h k = h

  plain-Keeps : (m : M W (Unit {0})) → Keeps (plain m)
  plain-Keeps m e h = h

  push-Keeps : (n : ℤ) → Keeps (push {W = W} n)
  unfolding push depth
  push-Keeps n e h =
      elim (is_filled n)
        as (λ b. (if b then e.i + 1 else e.i) ≡ (if b then depth e.s + 1 else depth e.s)) [
          | true ↦ omega (arith, h)
          | false ↦ h
        ]

  pop-Keeps : Keeps (pop {W = W})
  unfolding pop depth
  pop-Keeps e h = by_stack e.s h
    where
      by_stack : (s : List ℤ) → e.i ≡ depth s → IsValid (pop_from s e).1
      by_stack [] k = h
      by_stack (n ∷ s) k =
          elim (is_filled n)
              as (λ b.
                e.i ≡ (if b then depth s + 1 else depth s)
                → (if b then e.i - 1 else e.i) ≡ depth s) [
                  | true ↦ λ l. omega (arith, l)
                  | false ↦ λ l. l
                ]
            k

-- A call of a method: the begin and the end of an array or a map, what stands between their elements,
-- a value, which the Emitter inside writes, or Reset.
pub data Call (W : Type 0) : Type 0 where
  array_begin map_begin : ℤ → Call W
  array_end array_next map_end map_value map_next : Call W
  value : M W (Unit {0}) → Call W
  reset_to : W → Call W

module _ {W : Type 0} ⦃io : Writer W⦄ where
  indent_loop-Keeps : (fuel n : ℕ) → Keeps {W = W} (indent_loop fuel n)
  unfolding indent_loop
  indent_loop-Keeps zero n e h =
      elim (n == 0) as (λ b. Sound (if b then (ok tt, e) else (stuck, e))) [ true ↦ h | false ↦ h ]
  indent_loop-Keeps (suc fuel) n e h =
      let rest =
        after-Keeps (plain (Emit.write (spaces (piece n))) e) (λ _. indent_loop fuel (n - piece n))
          h (λ a. indent_loop-Keeps fuel (n - piece n)) in
      elim (n == 0)
        as (λ b. Sound (
          if b
          then (ok tt, e)
          else after (plain (Emit.write (spaces (piece n))) e)
              (λ _. indent_loop fuel (n - piece n)))) [ true ↦ h | false ↦ rest ]

  indent-Keeps : Keeps {W = W} indent
  unfolding indent
  indent-Keeps e h =
      after-Keeps (plain (Emit.write newline) e) (λ _ f. indent_loop (2 * f.i) (2 * f.i) f) h
        (λ a f k. indent_loop-Keeps (2 * f.i) (2 * f.i) f k)

  indent_if-Keeps : (n : ℤ) → Keeps {W = W} (indent_if n)
  indent_if-Keeps n e h = elim (is_filled n) as (λ b. Sound (if b then indent e else (ok tt, e))) [
    | true ↦ indent-Keeps e h
    | false ↦ h
  ]

  -- The shapes of the methods.
  begin-Keeps : (n : ℤ) (m : M W (Unit {0})) → Keeps {W = W} (plain m >> push n >>= indent_if)
  begin-Keeps n m e h =
      after-Keeps ((plain m >> push n) e) indent_if
        (after-Keeps (plain m e) (λ _. push n) h (λ a. push-Keeps n)) indent_if-Keeps

  end-Keeps : (m : M W (Unit {0})) → Keeps {W = W} (pop >>= indent_if >> plain m)
  end-Keeps m e h =
      after-Keeps ((pop >>= indent_if) e) (λ _. plain m)
        (after-Keeps (pop e) indent_if (pop-Keeps e h) indent_if-Keeps) (λ a. plain-Keeps m)

  next-Keeps : (m : M W (Unit {0})) → Keeps {W = W} (plain m >> indent)
  next-Keeps m e h = after-Keeps (plain m e) (λ _. indent) h (λ a. indent-Keeps)

  unfoldable pub call : Call W → M (PrettyEmitter W) (Unit {0})
  call (array_begin n) = emit_array_begin n
  call (map_begin n) = emit_map_begin n
  call array_end = emit_array_end
  call array_next = emit_array_next
  call map_end = emit_map_end
  call map_value = emit_map_value
  call map_next = emit_map_next
  call (value m) = plain m
  call (reset_to w) = reset w

  unfoldable pub run : List (Call W) → PrettyEmitter W → PrettyEmitter W
  unfolding call
  run [] e = e
  run (c ∷ cs) e = run cs (call c e).1

  call-Keeps : (c : Call W) → Keeps {W = W} (call c)
  unfolding call emit_array_begin emit_map_begin emit_array_end emit_array_next emit_map_end
      emit_map_value emit_map_next reset depth
  call-Keeps (array_begin n) e h = begin-Keeps n (Emit.emit_array_begin n) e h
  call-Keeps (map_begin n) e h = begin-Keeps n (Emit.emit_map_begin n) e h
  call-Keeps array_end e h = end-Keeps Emit.emit_array_end e h
  call-Keeps map_end e h = end-Keeps Emit.emit_map_end e h
  call-Keeps array_next e h = next-Keeps Emit.emit_array_next e h
  call-Keeps map_next e h = next-Keeps Emit.emit_map_next e h
  call-Keeps map_value e h =
      after-Keeps (plain Emit.emit_map_value e) (λ _. plain (Emit.write (spaces 1))) h (λ a f k. k)
  call-Keeps (value m) e h = plain-Keeps m e h
  call-Keeps (reset_to w) e h = refl

  run-IsValid : (cs : List (Call W)) (e : PrettyEmitter W) → IsValid e → IsValid (run cs e)
  unfolding run
  run-IsValid [] e h = h
  run-IsValid (c ∷ cs) e h = run-IsValid cs (call c e).1 (call-Keeps c e h)

  -- Whatever methods of a new PrettyEmitter are called, Reset included, in any order and with any
  -- outcomes, its level of indentation is the number of arrays and maps on its stack that are not known to be empty.
  pub new_pretty_emitter-run-IsValid :
      (cs : List (Call W)) (w : W) → IsValid (run cs (new_pretty_emitter w))
  unfolding depth
  new_pretty_emitter-run-IsValid cs w = run-IsValid cs (new_pretty_emitter w) refl

replicate-add : (m n : ℕ) → spaces m ++ spaces n ≡ spaces (m + n)
replicate-add zero n = ap spaces (omega arith)
replicate-add (suc m) n = ap (λ t. b' ' ∷ t) (replicate-add m n) ∙ ap spaces (next m n)
  where
    next : (m n : ℕ) → suc (m + n) ≡ suc m + n
    next m n = omega arith

piece_le : (n : ℕ) → piece n ≤ n
piece_le n = ground arith

piece-pos : (n : ℕ) → 0 < n → 0 < piece n
piece-pos n h = ground arith

module _ {W : Type 0} ⦃io : Writer W⦄ where
  plain_write_lem :
      (bs : List ℕ) (e : PrettyEmitter W)
      → Reliable io
      → Returns
          (plain (Emit.write bs) e)
          tt
          (λ (f : PrettyEmitter W). Wrote bs e.w f.w × (f.i ≡ e.i))
  plain_write_lem bs e reliable =
      let r = write_lem reliable bs e.w in
      record { state = record e { w = r.state }; computes = rw r.computes; post = (r.post, refl) }

  indent_loop_lem :
      (fuel n : ℕ) (e : PrettyEmitter W)
      → Reliable io
      → n ≤ fuel
      → Returns (indent_loop fuel n e) tt (λ (f : PrettyEmitter W). Wrote (spaces n) e.w f.w)
  unfolding indent_loop
  indent_loop_lem zero n e reliable h =
      let z : n ≡ 0 = omega arith in
      rw z (record { state = e; computes = refl; post = sym (append-nil (io.written e.w)) })
  indent_loop_lem (suc fuel) n e reliable h = elim (ℕ_discrete n 0) [
    | yes z ↦ rw z (record { state = e; computes = refl; post = sym (append-nil (io.written e.w)) })
    | no nz ↦
        let some_written = piece-pos n (pos_lem n nz) in
        let all : piece n + (n - piece n) ≡ n = omega (arith, piece_le n) in
        rw (ne→== n 0 nz) (
          Returns-after (λ _. indent_loop fuel (n - piece n))
            (plain_write_lem (spaces (piece n)) e reliable)
            λ f (wrote, same).
              let r = indent_loop_lem fuel (n - piece n) f reliable (omega arith) in
              record {
                state = r.state;
                computes = r.computes;
                post =
                    r.post
                    ∙ ap (λ t. t ++ spaces (n - piece n)) wrote
                    ∙ append_assoc (io.written e.w) (spaces (piece n)) (spaces (n - piece n))
                    ∙ ap (λ t. io.written e.w ++ t)
                        (replicate-add (piece n) (n - piece n) ∙ ap spaces all);
              })
  ]
    where
      pos_lem : (n : ℕ) → n ≢ 0 → 0 < n
      pos_lem n h = ground arith

  -- On a writer that does not fail the loop of indent ends, and what has been written is a line feed
  -- and two spaces for each level of indentation, however the spaces are cut into pieces of ten.
  pub indent-spaces :
      (e : PrettyEmitter W)
      → Reliable io
      → Returns (indent e) tt (λ (f : PrettyEmitter W). Wrote (10 ∷ spaces (2 * e.i)) e.w f.w)
  unfolding indent
  indent-spaces e reliable =
      Returns-after (λ _ f. indent_loop (2 * f.i) (2 * f.i) f) (plain_write_lem newline e reliable)
        λ f (wrote, same).
          let r = indent_loop_lem (2 * f.i) (2 * f.i) f reliable (omega arith) in
          record {
            state = r.state;
            computes = r.computes;
            post =
                r.post
                ∙ ap₂ (λ t (k : ℕ). t ++ spaces (2 * k)) wrote same
                ∙ append_assoc (io.written e.w) newline (spaces (2 * e.i));
          }
