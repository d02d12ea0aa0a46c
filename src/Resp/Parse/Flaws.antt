-- ===== src/Resp/Parse/Flaws.antt =====
-- Inputs on which the parser of resp panics.
use objconv.Prelude.{◌-◌, ◌<◌, ◌≡◌, refl, arith, ne→==, lt→ltb}
use objconv.Go.Outcome.{panic}
use objconv.Go.Io.{Reader}
use objconv.Resp.Parse.{Parser, reset, peek_line, parse_type}

module _ {R : Type 0} ⦃io : Reader R⦄ where
  -- After Reset of a parser whose offset `i` is above 2, as it is behind a line that is not empty and
  -- was peeked and not skipped, ParseType panics whatever the input is.
  pub parse_type-reset :
      (r : R) (p : Parser R) → 2 < p.i → parse_type (reset r p) ≡ (panic, reset r p)
  unfolding parse_type peek_line reset
  parse_type-reset r p h =
      rw (ne→== p.i 0 (λ e. omega (arith, e)), lt→ltb 0 (p.i - 2) (omega arith)) refl
