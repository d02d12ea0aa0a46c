-- ===== src/Encode/Stream.antt =====
-- StreamEncoder of encode.go, over any emitter. A value to encode is the call that encodes it.
pub mod Laws
pub mod Refine
use objconv.Prelude.{
  ℕ, ◌+◌, ◌==◌, List, [], ◌∷◌, leb, Bool, true, false, not, ◌&&◌, Option, none, some, if◌then◌else◌,
}
use objconv.Prelude.Int.{ℤ, pos, negsuc}
use objconv.Go.Outcome.{
  Error, Outcome, ok, err, panic, stuck, closed_pipe, too_many_values, M, after, ◌>>=◌, ◌>>◌, pure,
}
use objconv.Encode.{ArrayEmitter}

-- `out` is the state of the emitter; a negative `max` is no limit.
pub record StreamEncoder (S : Type 0) : Type 0 where
  pub out : S
  pub error : Option Error
  pub max : ℤ
  pub cnt : ℕ
  pub opened : Bool
  pub closed : Bool
  pub oneshot : Bool

abbrev pub new_stream_encoder : {S : Type 0} → S → StreamEncoder S
new_stream_encoder out = record {
  out = out;
  error = none;
  max = pos 0;
  cnt = 0;
  opened = false;
  closed = false;
  oneshot = false;
}

-- max >= 0 && cnt >= max
abbrev pub is_full : ℤ → ℕ → Bool
is_full (pos n) cnt = leb n cnt
is_full (negsuc k) cnt = false

abbrev pub limit : ℤ → ℕ
limit (pos n) = n
limit (negsuc k) = 0

module _ {S : Type 0} (em : ArrayEmitter S) where
  -- e.err = m, where `m` is a call on the emitter, and then e.err is returned.
  abbrev pub stored :
      StreamEncoder S → Outcome (Unit {0}) × S → Outcome (Unit {0}) × StreamEncoder S
  stored e (ok u, s) = (ok tt, record e { out = s; error = none })
  stored e (err x, s) = (err x, record e { out = s; error = some x })
  stored e (panic, s) = (panic, record e { out = s })
  stored e (stuck, s) = (stuck, record e { out = s })

  -- return e.err
  abbrev pub returned : Option Error → M (StreamEncoder S) (Unit {0})
  returned none e = (ok tt, e)
  returned (some x) e = (err x, e)

  abbrev pub start : ℤ → M (StreamEncoder S) (Unit {0})
  start n e =
      let f = record e { max = n; opened = true } in
      if e.oneshot then (ok tt, f) else stored f (em.emit_array_begin n e.out)

  abbrev pub open_unless : Option Error → ℤ → M (StreamEncoder S) (Unit {0})
  open_unless (some x) n e = (err x, e)
  open_unless none n e =
      if e.closed then (err closed_pipe, e) else if e.opened then (ok tt, e) else start n e

  unfoldable pub open_stream : ℤ → M (StreamEncoder S) (Unit {0})
  open_stream n e = open_unless e.error n e

  abbrev pub finish : M (StreamEncoder S) (Unit {0})
  finish e =
      let f = record e { closed = true } in
      if e.oneshot then (ok tt, f) else stored f (em.emit_array_end e.out)

  -- Open(-1) comes first.
  unfoldable pub close : M (StreamEncoder S) (Unit {0})
  unfolding open_stream
  close e = if e.closed then returned e.error e else after (open_stream (negsuc 0) e) (λ _. finish)

  -- What the error is that a call of Close left is in e.err.
  abbrev pub ignored : Outcome (Unit {0}) × StreamEncoder S → Outcome (Unit {0}) × StreamEncoder S
  ignored (ok u, e) = returned e.error e
  ignored (err x, e) = returned e.error e
  ignored (panic, e) = (panic, e)
  ignored (stuck, e) = (stuck, e)

  -- e.cnt++, and the stream is closed behind its last value.
  abbrev pub counted : M (StreamEncoder S) (Unit {0})
  counted e =
      let f = record e { cnt = e.cnt + 1 } in
      if is_full e.max (e.cnt + 1) then ignored (close f) else returned f.error f

  -- The value has been encoded, with or without an error.
  abbrev pub put : Outcome (Unit {0}) × StreamEncoder S → Outcome (Unit {0}) × StreamEncoder S
  put (ok u, e) = counted e
  put (err x, e) = counted e
  put (panic, e) = (panic, e)
  put (stuck, e) = (stuck, e)

  abbrev pub next_value : M (StreamEncoder S) (Unit {0})
  next_value e =
      if not e.oneshot && not (e.cnt == 0) then stored e (em.emit_array_next e.out) else (ok tt, e)

  unfoldable pub encode : M S (Unit {0}) → M (StreamEncoder S) (Unit {0})
  unfolding open_stream close
  encode v e = after (open_stream (negsuc 0) e) λ _ f.
      if is_full f.max f.cnt
      then (err (too_many_values (limit f.max)), f)
      else after (next_value f) (λ _ g. put (stored g (v g.out)))
