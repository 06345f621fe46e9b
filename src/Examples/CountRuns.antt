-- ===== src/Examples/CountRuns.antt =====
-- Runs of the counts and of the breakdown of the sessions that were set aside.
use growthmind.Prelude.{◌≡◌, ◌↔◌, refl, some}
use growthmind.Counts.{measured_count}
use growthmind.Counts.Laws.{IsCountable, HasValuesOf, measured_count_iff}
use growthmind.Examples.{input_of, count_of_30}

seven_counted : measured_count (input_of 7) ≡ some (count_of_30 7)
unfolding measured_count
seven_counted = refl

measured_count_iff_example :
    (measured_count (input_of 7) ≡ some (count_of_30 7))
    ↔ (IsCountable (input_of 7) × HasValuesOf (input_of 7) (count_of_30 7))
measured_count_iff_example = measured_count_iff (input_of 7) (count_of_30 7)
