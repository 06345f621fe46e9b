-- ===== src/Counts.antt =====
-- packages/core/src/counts: counts that carry their denominator and account for every session.
-- A date is its count of milliseconds; `none` is the ZodError that `parse` throws. The fields that
-- the schemas hold to be non-negative integers are natural numbers.
pub mod Laws
pub mod Breakdown
use growthmind.Prelude.{
  ℕ, ◌+◌, Text, String, Option, some, none, List, [], ◌∷◌, ◌++◌, map, Bool, true, false, not, ◌&&◌,
  ltb, ◌==◌, if◌then◌else◌, all, is_empty, text,
}
use growthmind.Doubles.{Doubles}

pub data ExclusionReason : Type 0 where
  kept_none internal_domain automation_headless automation_known_agent automation_coding_agent
        outside_who_counts :
      ExclusionReason

pub ExclusionReason-discrete : Discrete ExclusionReason
ExclusionReason-discrete = hlevel

pub record SetAsideBasis : Type 0 where
  pub reason : ExclusionReason
  pub count : ℕ
  pub label : Text

pub record CountBasis : Type 0 where
  pub total_in_window : ℕ
  pub kept : ℕ
  pub set_aside : List SetAsideBasis
  pub kept_unchecked : ℕ

pub data CountUnit : Type 0 where
  sessions people : CountUnit

pub record AnalysisWindow : Type 0 where
  pub start : ℕ
  pub end : ℕ

pub record MeasuredCountInput : Type 0 where
  pub numerator : ℕ
  pub denominator : ℕ
  pub unit : CountUnit
  pub timeframe : AnalysisWindow
  pub basis : CountBasis

-- The branded result: `measured_count` alone builds one.
pub record MeasuredCount : Type 0 where
  pub numerator : ℕ
  pub denominator : ℕ
  pub unit : CountUnit
  pub timeframe : AnalysisWindow
  pub basis : CountBasis

-- `setAside.reduce((sum, row) => sum + row.count, 0)`
unfoldable pub set_aside_total : List SetAsideBasis → ℕ
set_aside_total [] = 0
set_aside_total (row ∷ rows) = row.count + set_aside_total rows

pub data CountIssue : Type 0 where
  unaccounted_basis unchecked_exceeds_kept denominator_not_kept numerator_exceeds : CountIssue

abbrev pub issue_when : Bool → CountIssue → List CountIssue
issue_when true i = i ∷ []
issue_when false i = []

-- The four tests of `superRefine`, in its order.
unfoldable pub consistency_issues : MeasuredCountInput → List CountIssue
unfolding set_aside_total
consistency_issues i =
    issue_when (not (i.basis.kept + set_aside_total i.basis.set_aside == i.basis.total_in_window))
      unaccounted_basis
    ++ (issue_when (ltb i.basis.kept i.basis.kept_unchecked) unchecked_exceeds_kept
        ++ (issue_when (not (i.denominator == i.basis.kept)) denominator_not_kept
            ++ issue_when (ltb i.denominator i.numerator) numerator_exceeds))

unfoldable pub labels_present : CountBasis → Bool
labels_present b = all b.set_aside (λ row. not (is_empty row.label))

abbrev pub copy_row : SetAsideBasis → SetAsideBasis
copy_row row = record { reason = row.reason; count = row.count; label = row.label }

abbrev pub counted : MeasuredCountInput → MeasuredCount
counted i = record {
  numerator = i.numerator;
  denominator = i.denominator;
  unit = i.unit;
  timeframe = i.timeframe;
  basis = record {
    total_in_window = i.basis.total_in_window;
    kept = i.basis.kept;
    set_aside = map copy_row i.basis.set_aside;
    kept_unchecked = i.basis.kept_unchecked;
  };
}

unfoldable pub measured_count : MeasuredCountInput → Option MeasuredCount
unfolding consistency_issues labels_present
measured_count i =
    if labels_present i.basis && is_empty (consistency_issues i) then some (counted i) else none

pub data NoRateReason : Type 0 where
  zero_denominator no_identity_coverage : NoRateReason

abbrev pub percent_scale : ℕ
percent_scale = 100

module _ (F : Doubles) where
  open F use {Double, of_ℕ, div}

  pub data Rate : Type 0 where
    rate : Double → Rate
    no_rate : NoRateReason → Rate

  unfoldable pub rate_of : MeasuredCount → Rate
  rate_of c =
      if c.denominator == 0
      then no_rate zero_denominator
      else rate (div (of_ℕ c.numerator) (of_ℕ c.denominator))
