-- ===== src/Examples.antt =====
-- Small data that the runs of the child modules share: a window, its basis and counts over it.
pub mod CountRuns
pub mod GateRuns
pub mod DeliveryRuns
pub mod DetectRuns
pub mod FindingRuns
pub mod TextRuns
pub mod ReportRuns
pub mod AccessRuns
pub mod SessionRuns
pub mod ProductRuns
pub mod LedgerRuns
use growthmind.Prelude.{ℕ, ◌+◌, ◌≡◌, refl, text, [], ◌∷◌, arith}
use growthmind.Counts.{
  AnalysisWindow, CountBasis, MeasuredCount, MeasuredCountInput, counted, sessions, internal_domain,
  set_aside_total,
}
use growthmind.Counts.Laws.{IsAccounted}

abbrev pub one_day : AnalysisWindow
one_day = record { start = 0; end = 86_400_000 }

abbrev pub basis_of_30 : CountBasis
basis_of_30 = record {
  total_in_window = 32;
  kept = 30;
  set_aside = record { reason = internal_domain; count = 2; label = text "Your own team" } ∷ [];
  kept_unchecked = 0;
}

basis_of_30-accounts : 30 + set_aside_total basis_of_30.set_aside ≡ 32
unfolding set_aside_total
basis_of_30-accounts = refl

pub basis_of_30-IsAccounted : IsAccounted basis_of_30
basis_of_30-IsAccounted = record {
  accounted = basis_of_30-accounts;
  unchecked_within = omega arith;
}

abbrev pub input_of : ℕ → MeasuredCountInput
input_of n = record {
  numerator = n;
  denominator = 30;
  unit = sessions;
  timeframe = one_day;
  basis = basis_of_30;
}

abbrev pub count_of_30 : ℕ → MeasuredCount
count_of_30 n = counted (input_of n)
