-- ===== src/Verifier/Window.antt =====
-- The stateful predicate handlers of v3/verifier.py, over a telemetry buffer.
--
-- The buffer is the protocol `BufferLike`: a record of the queries that the code makes, with
-- `none` for a query that raises. Within one evaluation the buffer does not change, so an
-- awaited query is a call.
use ski_framework.Prelude.{
  ℕ, suc, String, Bool, true, false, ◌&&◌, Option, none, some, List, [], ◌∷◌, length, ◌>>=◌,
  if◌then◌else◌,
}
use ski_framework.Value.{Value, obj, find}
use ski_framework.Value.Numeric.{ℤ, pos, Frac, of_int, add_frac, divide_frac, le_frac, lt_frac}
use ski_framework.Schema.{Assertion}
use ski_framework.Verifier.Handlers.{Outcome, real, bounds}

-- an aware datetime, in microseconds
abbrev pub Time : Type 0
Time = ℕ

-- an entry of a list of samples: a (timestamp, value) pair, or anything else
pub data Sample : Type 0 where
  timed : Value → Value → Sample
  bare : Value → Sample

-- What a query returns. `aggregate` is an object with `avg_value`, and with `count` and
-- `max_value` where it has them; `sequence` is a list or a tuple, `stream` another iterable, and
-- `opaque` anything that is none of these.
pub data WindowData : Type 0 where
  nothing : WindowData
  aggregate : Option Value → Value → Option Value → WindowData
  sequence : List Sample → WindowData
  stream : List Sample → WindowData
  opaque : WindowData

pub record Buffer : Type 0 where
  pub window_query : String → Time → ℕ → Option String → Option WindowData
  pub has_fresh_sample : Option (String → Time → ℕ → Option Bool)

-- The keyword arguments `subject`, `as_of` and `buffer`.
pub record Context : Type 0 where
  pub subject : Option String
  pub as_of : Option Time
  pub buffer : Option Buffer

abbrev reading_of : Value → Option Value → Value
reading_of v none = v
reading_of v (some w) = w

abbrev pub sample_value : Sample → Value
sample_value (timed t v) = v
sample_value (bare (obj d)) = reading_of (obj d) (find "value" d)
sample_value (bare v) = v

abbrev keep : Option Frac → List Frac → List Frac
keep none xs = xs
keep (some x) xs = x ∷ xs

-- `_extract_values`: entries that are no real number are dropped
unfoldable pub extract_values : List Sample → List Frac
extract_values [] = []
extract_values (s ∷ samples) = keep (real (sample_value s)) (extract_values samples)

unfoldable pub sum_values : Frac → List Frac → Frac
sum_values acc [] = acc
sum_values acc (x ∷ xs) = sum_values (add_frac acc x) xs

-- Python's `max`, from the first value on
unfoldable pub max_values : Frac → List Frac → Frac
max_values best [] = best
max_values best (x ∷ xs) = max_values (if lt_frac best x then x else best) xs

pub record WindowSummary : Type 0 where
  pub average : Option Frac
  pub peak : Option Frac
  pub samples : Option ℕ
  pub peak_reported : Bool

abbrev pub summarize_values : List Frac → WindowSummary
summarize_values [] = record { average = none; peak = none; samples = some 0; peak_reported = true }
summarize_values (x ∷ xs) = record {
  average = some (divide_frac (sum_values (of_int (pos 0)) (x ∷ xs)) (length (x ∷ xs)));
  peak = some (max_values x xs);
  samples = some (length (x ∷ xs));
  peak_reported = true;
}

abbrev real? : Option Value → Option Frac
real? none = none
real? (some v) = real v

abbrev is_reported : Option Value → Bool
is_reported none = false
is_reported (some v) = true

unfoldable pub summarize_window : WindowData → Option WindowSummary
unfolding real
summarize_window (aggregate count average peak) = some (record {
  average = real average;
  peak = real? peak;
  samples = none;
  peak_reported = is_reported peak;
})
summarize_window (sequence samples) = some (summarize_values (extract_values samples))
summarize_window (stream samples) = some (summarize_values (extract_values samples))
summarize_window nothing = none
summarize_window opaque = none

unfoldable pub query_window : String → String → Time → ℕ → Buffer → Option WindowSummary
query_window metric subject as_of seconds buffer = do
  found ← buffer.window_query subject as_of seconds (some metric)
  summarize_window found

-- a `window_seconds` that is there and above zero
abbrev pub positive? : Option ℤ → Option ℕ
positive? (some (pos (suc n))) = some (suc n)
positive? _ = none

unfoldable pub check_must_average_within : Context → Assertion → Outcome
check_must_average_within c a = do
  buffer ← c.buffer
  subject ← c.subject
  as_of ← c.as_of
  seconds ← positive? a.window_seconds
  (lo, hi) ← bounds a.value
  summary ← query_window a.metric subject as_of seconds buffer
  average ← summary.average
  some (le_frac lo average && le_frac average hi)

abbrev pub reported_peak : WindowSummary → Option Frac
reported_peak s = if s.peak_reported then s.peak else none

unfoldable pub check_must_not_exceed_in_window : Context → Assertion → Outcome
check_must_not_exceed_in_window c a = do
  buffer ← c.buffer
  subject ← c.subject
  as_of ← c.as_of
  seconds ← positive? a.window_seconds
  threshold ← real a.value
  summary ← query_window a.metric subject as_of seconds buffer
  peak ← reported_peak summary
  some (le_frac peak threshold)
