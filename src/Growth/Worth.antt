-- ===== src/Growth/Worth.antt =====
-- packages/core/src/growth/surface-worth.ts and expected-value.ts, with the roles and bases of
-- packages/shared/src/growth/types.ts: the weight of a surface, and the value that ranks a finding.
use growthmind.Prelude.{ℕ, ◌*◌, Text, Option, none, Sign, compare_numbers}
use growthmind.Counts.{MeasuredCount}

pub data SurfaceRole : Type 0 where
  makes_money first_value leads_to_money keeps_people unknown : SurfaceRole

pub data WorthBasis : Type 0 where
  stated_by_customer derived_from_product observed_from_behaviour : WorthBasis

abbrev pub worth_weight_version : ℕ
worth_weight_version = 1

abbrev pub weight_of_role : SurfaceRole → ℕ
weight_of_role makes_money = 8
weight_of_role first_value = 6
weight_of_role leads_to_money = 4
weight_of_role keeps_people = 3
weight_of_role unknown = 1

pub record SurfaceWorth : Type 0 where
  pub surface : Text
  pub role : SurfaceRole
  pub weight : ℕ
  pub weight_version : ℕ
  pub basis : WorthBasis
  pub confirmed_at : Option ℕ

abbrev pub unknown_worth : Text → SurfaceWorth
unknown_worth surface = record {
  surface = surface;
  role = unknown;
  weight = weight_of_role unknown;
  weight_version = worth_weight_version;
  basis = derived_from_product;
  confirmed_at = none;
}

pub record ExpectedValue : Type 0 where
  pub score : ℕ
  pub affected : ℕ
  pub weight : ℕ
  pub weight_version : ℕ
  pub role : SurfaceRole

abbrev pub expected_value_of : ℕ → SurfaceWorth → ExpectedValue
expected_value_of affected_sessions worth = record {
  score = affected_sessions * worth.weight;
  affected = affected_sessions;
  weight = worth.weight;
  weight_version = worth.weight_version;
  role = worth.role;
}

abbrev pub expected_value_of_count : MeasuredCount → SurfaceWorth → ExpectedValue
expected_value_of_count affected worth = expected_value_of affected.numerator worth

-- The larger score comes first.
abbrev pub compare_expected_value : ExpectedValue → ExpectedValue → Sign
compare_expected_value a b = compare_numbers b.score a.score
