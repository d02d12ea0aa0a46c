-- ===== src/Encode.antt =====
-- The array algorithm of the encoder: EncodeArray of encode.go, over any emitter. The callback `f`
-- is the list of its successive calls, each of which returns nil or an error other than End, after
-- which it returns End. A callback that writes a value and returns End at once is left out.
pub mod Map
pub mod Stream
pub mod Values
use objconv.Prelude.{ℕ, ◌+◌, List, [], ◌∷◌, ltb, Bool, true, ◌==◌, if◌then◌else◌}
use objconv.Prelude.Int.{ℤ, pos, negsuc}
use objconv.Go.Outcome.{Outcome, ok, err, panic, stuck, M, after, ◌>>◌}

-- The methods of an emitter that the algorithm calls.
pub record ArrayEmitter (S : Type 0) : Type 0 where
  pub emit_array_begin : ℤ → M S (Unit {0})
  pub emit_array_end : M S (Unit {0})
  pub emit_array_next : M S (Unit {0})

-- A call whose error is not looked at.
abbrev pub dropped : {S : Type 0} → Outcome (Unit {0}) × S → Outcome (Unit {0}) × S
dropped (ok u, s) = (ok u, s)
dropped (err e, s) = (ok tt, s)
dropped (panic, s) = (panic, s)
dropped (stuck, s) = (stuck, s)

-- n < 0 || i < n
abbrev pub goes_on : ℤ → ℕ → Bool
goes_on (pos n) i = ltb i n
goes_on (negsuc n) i = true

module _ {S : Type 0} (em : ArrayEmitter S) where
  -- The error of EmitArrayNext is lost: the source tests a variable that the call does not set.
  abbrev pub separate : ℕ → M S (Unit {0})
  separate i s = if i == 0 then (ok tt, s) else dropped (em.emit_array_next s)

  -- The loop at index `i`, with the calls of `f` still to come.
  unfoldable pub encode_items : ℤ → ℕ → List (M S (Unit {0})) → M S (Unit {0})
  encode_items n i [] s = if goes_on n i then separate i s else (ok tt, s)
  encode_items n i (f ∷ fs) s =
      let rest = encode_items n (i + 1) fs in
      if goes_on n i then after (separate i s) (λ _ t. after (f t) (λ _. rest)) else (ok tt, s)

  unfoldable pub encode_array : ℤ → List (M S (Unit {0})) → M S (Unit {0})
  unfolding encode_items
  encode_array n fs = em.emit_array_begin n >> encode_items n 0 fs >> em.emit_array_end
