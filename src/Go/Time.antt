-- ===== src/Go/Time.antt =====
-- Package time, as far as it is used: an instant in seconds and nanoseconds since the Unix epoch.
use objconv.Prelude.{ℕ, ◌+◌, ◌-◌, ◌/◌, ◌%◌, ◌<◌, List, Option, leb, if◌then◌else◌}
use objconv.Prelude.Int.{ℤ, pos, negsuc, add_nat, to_word, of_word, IsInt}

-- `seconds` is Unix() and `nanos` is Nanosecond(), which lies below 10^9. The zone is left out.
pub record Time : Type 0 where
  pub seconds : ℤ
  pub nanos : ℕ

abbrev pub second : ℕ
second = 1000000000

-- An int64 sum, which wraps.
abbrev wrap64 : ℤ → ℤ
wrap64 v = of_word 64 (to_word 64 v)

-- time.Unix(s, ns) for ns from 0 on: whole seconds of `ns` are carried.
unfoldable pub unix : ℤ → ℕ → Time
unix s ns = record { seconds = wrap64 (add_nat s (ns / second)); nanos = ns % second }

-- time.Unix(s, -(k + 1)): the nanoseconds are brought up to 0 or more.
abbrev sub_nat : ℤ → ℕ → ℤ
sub_nat (pos n) k = if leb k n then pos (n - k) else negsuc (k - n - 1)
sub_nat (negsuc n) k = negsuc (n + k)

unfoldable pub unix_before : ℤ → ℕ → Time
unix_before s k = record {
  seconds = wrap64 (sub_nat s (k / second + 1));
  nanos = second - 1 - k % second;
}

-- time.Unix(s, ns) for a signed `ns`.
unfoldable pub unix_signed : ℤ → ℤ → Time
unfolding unix unix_before
unix_signed s (pos ns) = unix s ns
unix_signed s (negsuc k) = unix_before s k

-- Formatting and parsing of time.RFC3339Nano are parameters.
pub record TimeFormat : Type 0 where
  pub format : Time → List ℕ
  pub parse : List ℕ → Option Time

-- time.ParseDuration is a parameter.
pub record DurationFormat : Type 0 where
  pub parse : List ℕ → Option ℤ

-- time.Time{}: the first of January of the year 1.
abbrev pub zero_time : Time
zero_time = record { seconds = negsuc 62135596799; nanos = 0 }

-- What Unix() and Nanosecond() of a time can be.
pub record IsTime (t : Time) : Type 0 where
  pub seconds_fit : IsInt 64 t.seconds
  pub nanos_fit : t.nanos < second
