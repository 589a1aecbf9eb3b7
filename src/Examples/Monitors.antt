-- ===== src/Examples/Monitors.antt =====
-- A monitor with a window of two statuses.
use Prim.Native.Nat.{◌/◌}
use ski_framework.Prelude.{ℕ, ◌≡◌, refl, true, List, [], ◌∷◌}
use ski_framework.Value.Numeric.{Frac, pos, of_int}
use ski_framework.Schema.{agreed, unverifiable}
use ski_framework.Monitor.{
  Monitor, StatusInput, of_status, of_text, of_other, new_monitor, record_all, monitor_snapshot,
  is_healthy,
}
use ski_framework.Monitor.Rolling.{last, accepted, rolling_window}

abbrev whole : ℕ → ℕ → Frac
whole a b = of_int (pos (a / b))

abbrev small : Monitor
small = record { window_size = 2; threshold = of_int (pos 1); statuses = [] }

-- four evaluations, of which the third has no status
abbrev recorded : List StatusInput
recorded = of_status unverifiable ∷ of_text "AGREED" ∷ of_other ∷ of_status agreed ∷ []

two_agreed : (record_all recorded small).statuses ≡ (agreed ∷ agreed ∷ [])
unfolding record_all
two_agreed = refl

still_healthy : is_healthy whole (record_all recorded small) ≡ true
unfolding is_healthy record_all of_int
still_healthy = refl

rolling_window_example :
    ((record_all recorded small).statuses ≡ last 2 (accepted recorded))
    × ((monitor_snapshot whole (record_all recorded small)).is_healthy
        ≡ is_healthy whole (record_all recorded small))
unfolding new_monitor
rolling_window_example = rolling_window whole 2 (of_int (pos 1)) small recorded refl
