-- ===== src/Monitor.antt =====
-- The rolling window of verifier statuses: `AgreementMonitor` of
-- reference-implementation/src/ski_model/v3/agreement_monitor.py. The threshold is the fraction that
-- its double stands for; `divide`, Python's division of two integers into a double, is a parameter.
-- The lock is left out: a step is atomic.
pub mod Rolling
use ski_framework.Prelude.{
  ℕ, ◌+◌, ◌-◌, Bool, true, false, ◌&&◌, Option, none, some, List, [], ◌∷◌, ◌++◌, String, ◌==◌,
  length, str_eq, if◌then◌else◌, ◌>>=◌,
}
use ski_framework.Schema.{
  VerifierStatus, agreed, llm_contradiction, neuro_symbolic_divergence, unverifiable,
}
use ski_framework.Value.Numeric.{Frac, ℤ, negsuc, le_frac, of_int, pos}
use ski_framework.Merkle.Slices.{drop}

pub record Monitor : Type 0 where
  pub window_size : ℕ
  pub threshold : Frac
  pub statuses : List VerifierStatus

-- what a caller gives: a status, a text, or a value of another type
pub data StatusInput : Type 0 where
  of_status : VerifierStatus → StatusInput
  of_text : String → StatusInput
  of_other : StatusInput

-- `VerifierStatus(value)` of a text; nothing where it raises
unfoldable pub status_of_text : String → Option VerifierStatus
status_of_text value =
    if str_eq value "AGREED"
    then some agreed
    else if str_eq value "LLM_CONTRADICTION"
    then some llm_contradiction
    else if str_eq value "NEURO_SYMBOLIC_DIVERGENCE"
    then some neuro_symbolic_divergence
    else if str_eq value "UNVERIFIABLE"
    then some unverifiable
    else none

unfoldable pub normalise_status : StatusInput → Option VerifierStatus
unfolding status_of_text
normalise_status (of_status s) = some s
normalise_status (of_text value) = status_of_text value
normalise_status of_other = none

-- `__post_init__`; nothing where it raises
unfoldable pub new_monitor : ℤ → Frac → Option Monitor
unfolding le_frac of_int
new_monitor (negsuc n) threshold = none
new_monitor (pos window_size) threshold =
    if window_size == 0
    then none
    else if le_frac (of_int (pos 0)) threshold && le_frac threshold (of_int (pos 1))
    then some (record { window_size = window_size; threshold = threshold; statuses = [] })
    else none

-- `deque.append` under a maximal length: what is too much falls off at the left
unfoldable pub push_status : ℕ → VerifierStatus → List VerifierStatus → List VerifierStatus
push_status maxlen s xs = drop (length xs + 1 - maxlen) (xs ++ (s ∷ []))

-- `record`; nothing where it raises
unfoldable pub record_status : StatusInput → Monitor → Option Monitor
unfolding push_status normalise_status
record_status status m = do
  normalised ← normalise_status status
  some (record m { statuses = push_status m.window_size normalised m.statuses })

-- several evaluations, in their order; a status that raises leaves the window as it is
unfoldable pub record_all : List StatusInput → Monitor → Monitor
unfolding record_status
record_all [] m = m
record_all (s ∷ ss) m = record_all ss (elim (record_status s m) [ some next ↦ next | none ↦ m ])

pub record Counts : Type 0 where
  pub agreed_count : ℕ
  pub contradiction_count : ℕ
  pub divergence_count : ℕ
  pub unverifiable_count : ℕ

-- `counts[s] = counts.get(s, 0) + 1`
abbrev pub count_one : VerifierStatus → Counts → Counts
count_one agreed c = record c { agreed_count = c.agreed_count + 1 }
count_one llm_contradiction c = record c { contradiction_count = c.contradiction_count + 1 }
count_one neuro_symbolic_divergence c = record c { divergence_count = c.divergence_count + 1 }
count_one unverifiable c = record c { unverifiable_count = c.unverifiable_count + 1 }

unfoldable pub count_statuses : List VerifierStatus → Counts → Counts
count_statuses [] c = c
count_statuses (s ∷ ss) c = count_statuses ss (count_one s c)

abbrev pub no_counts : Counts
no_counts = record {
  agreed_count = 0;
  contradiction_count = 0;
  divergence_count = 0;
  unverifiable_count = 0;
}

pub record MonitorSnapshot : Type 0 where
  pub window_size : ℕ
  pub threshold : Frac
  pub observed : ℕ
  pub counts : Counts
  pub agreement_rate : Option Frac
  pub is_healthy : Bool

-- `sum(1 for s in statuses if s == AGREED)`
unfoldable pub count_agreed : List VerifierStatus → ℕ
count_agreed [] = 0
count_agreed (s ∷ ss) = let rest = count_agreed ss in elim s [ agreed ↦ 1 + rest | _ ↦ rest ]

module _ (divide : ℕ → ℕ → Frac) where
  unfoldable pub monitor_snapshot : Monitor → MonitorSnapshot
  unfolding count_statuses le_frac
  monitor_snapshot m =
      let counts = count_statuses m.statuses no_counts in
      let total = length m.statuses in
      let rate = divide counts.agreed_count total in
      if total == 0
      then record {
        window_size = m.window_size;
        threshold = m.threshold;
        observed = total;
        counts = counts;
        agreement_rate = none;
        is_healthy = true;
      }
      else record {
        window_size = m.window_size;
        threshold = m.threshold;
        observed = total;
        counts = counts;
        agreement_rate = some rate;
        is_healthy = le_frac m.threshold rate;
      }

  unfoldable pub is_healthy : Monitor → Bool
  unfolding count_agreed le_frac
  is_healthy m =
      let total = length m.statuses in
      if total == 0 then true else le_frac m.threshold (divide (count_agreed m.statuses) total)
