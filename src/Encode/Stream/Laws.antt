-- ===== src/Encode/Stream/Laws.antt =====
-- What holds of a stream encoder between two calls of Open, Encode and Close, in any order.
use objconv.Prelude.{
  ℕ, subst, ◌+◌, ◌≤◌, ◌≡◌, refl, sym, ap, ◌∙◌, ◌==◌, Bool, true, false, not, ◌&&◌, Option, none,
  some, arith, if◌then◌else◌, List, [], ◌∷◌,
}
use objconv.Prelude.Int.{ℤ, pos, negsuc}
use objconv.Go.Outcome.{
  Error, Outcome, ok, err, panic, stuck, M, after, closed_pipe, too_many_values,
}
use objconv.Encode.{ArrayEmitter}
use objconv.Encode.Stream.{
  StreamEncoder, new_stream_encoder, is_full, limit, start, finish, open_unless, open_stream, close,
  encode, stored, returned, ignored, counted, put, next_value,
}

-- The count is within the limit.
abbrev pub Within : ℤ → ℕ → Type 0
Within (pos n) cnt = cnt ≤ n
Within (negsuc k) cnt = Unit

-- A stream is closed only after it was opened, holds no value before, and never more than its limit.
pub record Bounds (opened closed : Bool) (cnt : ℕ) (max : ℤ) : Type 0 where
  pub closed_opened : closed ≡ true → opened ≡ true
  pub empty_before : opened ≡ false → cnt ≡ 0
  pub within : opened ≡ true → Within max cnt

abbrev pub IsValid : {S : Type 0} → StreamEncoder S → Type 0
IsValid e = Bounds e.opened e.closed e.cnt e.max

pub new_stream_encoder-IsValid : {S : Type 0} (out : S) → IsValid (new_stream_encoder out)
new_stream_encoder-IsValid out = record {
  closed_opened = λ h. h;
  empty_before = λ h. refl;
  within = λ h. omega arith;
}

pub Within-zero : (n : ℤ) → Within n 0
Within-zero (pos n) = omega arith
Within-zero (negsuc k) = tt

Within-suc : (n : ℤ) (cnt : ℕ) → is_full n cnt ≡ false → Within n (cnt + 1)
Within-suc (pos n) cnt h = ground arith
Within-suc (negsuc k) cnt h = tt

-- A call of the user.
pub data Call (S : Type 0) : Type 0 where
  open_call : ℤ → Call S
  encode_call : M S (Unit {0}) → Call S
  close_call : Call S

module _ {S : Type 0} where
  -- After a success `Q`, and in any case the invariant.
  abbrev Post : (StreamEncoder S → Type 0) → Outcome (Unit {0}) × StreamEncoder S → Type 0
  Post Q (ok u, e) = Q e
  Post Q (err x, e) = IsValid e
  Post Q (panic, e) = IsValid e
  Post Q (stuck, e) = IsValid e

  abbrev Opened : StreamEncoder S → Type 0
  Opened e = IsValid e × (e.opened ≡ true)

  Post-IsValid : (r : Outcome (Unit {0}) × StreamEncoder S) → Post IsValid r → IsValid r.1
  Post-IsValid (ok u, e) h = h
  Post-IsValid (err x, e) h = h
  Post-IsValid (panic, e) h = h
  Post-IsValid (stuck, e) h = h

  Opened-IsValid : (r : Outcome (Unit {0}) × StreamEncoder S) → Post Opened r → IsValid r.1
  Opened-IsValid (ok u, e) h = h.0
  Opened-IsValid (err x, e) h = h
  Opened-IsValid (panic, e) h = h
  Opened-IsValid (stuck, e) h = h

  Post-after :
      {P : StreamEncoder S → Type 0} (Q : StreamEncoder S → Type 0)
      (r : Outcome (Unit {0}) × StreamEncoder S) (f : Unit {0} → M (StreamEncoder S) (Unit {0}))
      → Post P r
      → ((e : StreamEncoder S) → P e → Post Q (f tt e))
      → Post Q (after r f)
  Post-after Q (ok u, e) f h k = k e h
  Post-after Q (err x, e) f h k = h
  Post-after Q (panic, e) f h k = h
  Post-after Q (stuck, e) f h k = h

module _ {S : Type 0} (em : ArrayEmitter S) where
  stored-Post :
      (e : StreamEncoder S) (r : Outcome (Unit {0}) × S) → Opened e → Post Opened (stored em e r)
  stored-Post e (ok u, s) h = h
  stored-Post e (err x, s) h = h.0
  stored-Post e (panic, s) h = h.0
  stored-Post e (stuck, s) h = h.0

  returned-Post :
      (x : Option Error) (e : StreamEncoder S) → Opened e → Post Opened (returned em x e)
  returned-Post none e h = h
  returned-Post (some x) e h = h.0

  start-Post :
      (n : ℤ) (e : StreamEncoder S) → IsValid e → e.opened ≡ false → Post Opened (start em n e)
  start-Post n e h shut =
      elim e.oneshot
        as (λ b.
          Post Opened (if b then (ok tt, f) else stored em f (em.emit_array_begin n e.out))) [
            | true ↦ (valid, refl)
            | false ↦ stored-Post f (em.emit_array_begin n e.out) (valid, refl)
          ]
    where
      f : StreamEncoder S
      f = record e { max = n; opened = true }

      zero_within : (k : ℕ) → k ≡ 0 → Within n k
      zero_within k e = rw e (Within-zero n)

      valid : IsValid f
      valid = record {
        closed_opened = λ c. refl;
        empty_before = λ c. absurd (ground arith);
        within = λ c. zero_within e.cnt (h.empty_before shut);
      }

  open-Post :
      (x : Option Error) (n : ℤ) (e : StreamEncoder S)
      → IsValid e
      → Post Opened (open_unless em x n e)
  open-Post (some x) n e h = h
  open-Post none n e h =
      elim e.closed
        as (λ b.
          Post Opened
            (if b then (err closed_pipe, e) else (if e.opened then (ok tt, e) else start em n e))) [
              | true ↦ h
              | false ↦ by_opened e.opened refl
            ]
    where
      by_opened : (b : Bool) → e.opened ≡ b → Post Opened (if b then (ok tt, e) else start em n e)
      by_opened true c = (h, c)
      by_opened false c = start-Post n e h c

  finish-Post : (e : StreamEncoder S) → Opened e → Post Opened (finish em e)
  finish-Post e (h, o) =
      elim e.oneshot
        as (λ b. Post Opened (if b then (ok tt, f) else stored em f (em.emit_array_end e.out))) [
          | true ↦ (valid, o)
          | false ↦ stored-Post f (em.emit_array_end e.out) (valid, o)
        ]
    where
      f : StreamEncoder S
      f = record e { closed = true }

      valid : IsValid f
      valid = record { closed_opened = λ c. o; empty_before = h.empty_before; within = h.within }

  close-Post : (e : StreamEncoder S) → IsValid e → Post Opened (close em e)
  unfolding close open_stream
  close-Post e h = by_closed e.closed refl
    where
      by_closed :
          (b : Bool)
          → e.closed ≡ b
          → Post Opened (
              if b
              then returned em e.error e
              else after (open_stream em (negsuc 0) e) (λ _. finish em))
      by_closed true c = returned-Post e.error e (h, h.closed_opened c)
      by_closed false c =
          Post-after Opened (open_stream em (negsuc 0) e) (λ _. finish em)
            (open-Post e.error (negsuc 0) e h) finish-Post

  returned-IsValid :
      (x : Option Error) (e : StreamEncoder S) → IsValid e → Post IsValid (returned em x e)
  returned-IsValid none e h = h
  returned-IsValid (some x) e h = h

  ignored-IsValid :
      (r : Outcome (Unit {0}) × StreamEncoder S) → Post Opened r → Post IsValid (ignored em r)
  ignored-IsValid (ok u, e) h = returned-IsValid e.error e h.0
  ignored-IsValid (err x, e) h = returned-IsValid e.error e h
  ignored-IsValid (panic, e) h = h
  ignored-IsValid (stuck, e) h = h

  -- A stream with room for a value.
  abbrev Roomy : StreamEncoder S → Type 0
  Roomy e = Opened e × (is_full e.max e.cnt ≡ false)

  counted-IsValid : (e : StreamEncoder S) → Roomy e → Post IsValid (counted em e)
  counted-IsValid e ((h, o), room) =
      elim (is_full e.max (e.cnt + 1))
        as (λ b. Post IsValid (if b then ignored em (close em f) else returned em f.error f)) [
          | true ↦ ignored-IsValid (close em f) (close-Post f valid)
          | false ↦ returned-IsValid f.error f valid
        ]
    where
      f : StreamEncoder S
      f = record e { cnt = e.cnt + 1 }

      valid : IsValid f
      valid = record {
        closed_opened = h.closed_opened;
        empty_before = λ c. absurd (ground arith);
        within = λ c. Within-suc e.max e.cnt room;
      }

  put-IsValid :
      (e : StreamEncoder S) (r : Outcome (Unit {0}) × S)
      → Roomy e
      → Post IsValid (put em (stored em e r))
  put-IsValid e (ok u, s) h = counted-IsValid (record e { out = s; error = none }) h
  put-IsValid e (err x, s) h = counted-IsValid (record e { out = s; error = some x }) h
  put-IsValid e (panic, s) h = h.0.0
  put-IsValid e (stuck, s) h = h.0.0

  stored-Roomy :
      (e : StreamEncoder S) (r : Outcome (Unit {0}) × S) → Roomy e → Post Roomy (stored em e r)
  stored-Roomy e (ok u, s) h = h
  stored-Roomy e (err x, s) h = h.0.0
  stored-Roomy e (panic, s) h = h.0.0
  stored-Roomy e (stuck, s) h = h.0.0

  next_value-Roomy : (e : StreamEncoder S) → Roomy e → Post Roomy (next_value em e)
  next_value-Roomy e h =
      elim (not e.oneshot && not (e.cnt == 0))
        as (λ b. Post Roomy (if b then stored em e (em.emit_array_next e.out) else (ok tt, e))) [
          | true ↦ stored-Roomy e (em.emit_array_next e.out) h
          | false ↦ h
        ]

  encode-IsValid :
      (v : M S (Unit {0})) (e : StreamEncoder S) → IsValid e → Post IsValid (encode em v e)
  unfolding encode open_stream
  encode-IsValid v e h =
      Post-after IsValid (open_stream em (negsuc 0) e) (λ _. guarded)
        (open-Post e.error (negsuc 0) e h) (λ f o. by_room f (is_full f.max f.cnt) refl o)
    where
      send : M (StreamEncoder S) (Unit {0})
      send f = after (next_value em f) (λ _ g. put em (stored em g (v g.out)))

      guarded : M (StreamEncoder S) (Unit {0})
      guarded f = if is_full f.max f.cnt then (err (too_many_values (limit f.max)), f) else send f

      by_room :
          (f : StreamEncoder S) (b : Bool)
          → is_full f.max f.cnt ≡ b
          → Opened f
          → Post IsValid (if b then (err (too_many_values (limit f.max)), f) else send f)
      by_room f true c o = o.0
      by_room f false c o =
          Post-after IsValid (next_value em f) (λ _ g. put em (stored em g (v g.out)))
            (next_value-Roomy f (o, c)) (λ g room. put-IsValid g (v g.out) room)

  open-IsValid : (n : ℤ) (e : StreamEncoder S) → IsValid e → IsValid (open_stream em n e).1
  unfolding open_stream
  open-IsValid n e h = Opened-IsValid (open_unless em e.error n e) (open-Post e.error n e h)

  close-IsValid : (e : StreamEncoder S) → IsValid e → IsValid (close em e).1
  close-IsValid e h = Opened-IsValid (close em e) (close-Post e h)

  -- The state behind a call, whatever it returned.
  unfoldable pub call : Call S → StreamEncoder S → StreamEncoder S
  call (open_call n) e = (open_stream em n e).1
  call (encode_call v) e = (encode em v e).1
  call close_call e = (close em e).1

  unfoldable pub run : List (Call S) → StreamEncoder S → StreamEncoder S
  unfolding call
  run [] e = e
  run (c ∷ cs) e = run cs (call c e)

  call-IsValid : (c : Call S) (e : StreamEncoder S) → IsValid e → IsValid (call c e)
  unfolding call
  call-IsValid (open_call n) e h = open-IsValid n e h
  call-IsValid (encode_call v) e h = Post-IsValid (encode em v e) (encode-IsValid v e h)
  call-IsValid close_call e h = close-IsValid e h

  run-IsValid : (cs : List (Call S)) (e : StreamEncoder S) → IsValid e → IsValid (run cs e)
  unfolding run
  run-IsValid [] e h = h
  run-IsValid (c ∷ cs) e h = run-IsValid cs (call c e) (call-IsValid c e h)

  -- Whatever calls of Open, Encode and Close are made on a new stream encoder, in any order and with
  -- any outcomes: it holds no value before it is opened, was opened when it is closed, and once it is
  -- opened it has not counted more values than its limit, where the limit is not negative.
  pub new_stream_encoder-run-IsValid :
      (cs : List (Call S)) (out : S) → IsValid (run cs (new_stream_encoder out))
  new_stream_encoder-run-IsValid cs out =
      run-IsValid cs (new_stream_encoder out) (new_stream_encoder-IsValid out)

  -- The error of a call that is refused.
  refusal : Option Error → Error
  refusal none = closed_pipe
  refusal (some x) = x

  open_unless-closed :
      (x : Option Error) (n : ℤ) (e : StreamEncoder S)
      → e.closed ≡ true
      → open_unless em x n e ≡ (err (refusal x), e)
  unfolding refusal
  open_unless-closed none n e h = rw h refl
  open_unless-closed (some x) n e h = refl

  returned_state : (x : Option Error) (e : StreamEncoder S) → (returned em x e).1 ≡ e
  returned_state none e = refl
  returned_state (some x) e = refl

  call-closed : (c : Call S) (e : StreamEncoder S) → e.closed ≡ true → call c e ≡ e
  unfolding call open_stream close encode
  call-closed (open_call n) e h = rw (open_unless-closed e.error n e h, call) refl
  call-closed (encode_call v) e h = rw (open_unless-closed e.error (negsuc 0) e h, call) refl
  call-closed close_call e h =
      subst
        (λ b.
          (if b
            then returned em e.error e
            else after (open_unless em e.error (negsuc 0) e) (λ _. finish em)).1
          ≡ e)
        (sym h) (returned_state e.error e)

  -- A stream encoder that is closed stays as it is: no sequence of calls of Open, Encode and Close
  -- writes to its emitter again, counts a value or changes its error.
  pub run-closed : (cs : List (Call S)) (e : StreamEncoder S) → e.closed ≡ true → run cs e ≡ e
  unfolding run
  run-closed [] e h = refl
  run-closed (c ∷ cs) e h = ap (run cs) (call-closed c e h) ∙ run-closed cs e h
