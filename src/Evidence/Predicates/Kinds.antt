-- ===== src/Evidence/Predicates/Kinds.antt =====
-- The kinds that could prove a class: `admissibleProofKinds` of evidence/predicates.ts. Its sort is
-- by name, so a kind is ranked by its place in the alphabet.
use growthmind.Prelude.{
  ℕ, ◌≡◌, Bool, true, List, any, ◌==◌, arith, ◌↔◌, Sign, compare_numbers, to_sorted, to_set,
}
use growthmind.Rules.{
  EvidenceSignalKind, failure_correlated, failure_uncorrelated, struggle, clean_exit,
  instrumentation_rate_drop,
}

-- The kinds in the order of their names.
abbrev pub kind_rank : EvidenceSignalKind → ℕ
kind_rank clean_exit = 0
kind_rank failure_correlated = 1
kind_rank failure_uncorrelated = 2
kind_rank instrumentation_rate_drop = 3
kind_rank struggle = 4

abbrev pub same_kind : EvidenceSignalKind → EvidenceSignalKind → Bool
same_kind a b = kind_rank a == kind_rank b

pub same_kind_iff : (a b : EvidenceSignalKind) → (same_kind a b ≡ true) ↔ (a ≡ b)
same_kind_iff a b = ground arith

-- `kinds.includes(kind)`
abbrev pub includes_kind : List EvidenceSignalKind → EvidenceSignalKind → Bool
includes_kind kinds k = any kinds (λ j. same_kind j k)

abbrev pub compare_kinds : EvidenceSignalKind → EvidenceSignalKind → Sign
compare_kinds a b = compare_numbers (kind_rank a) (kind_rank b)

-- `[...new Set(kinds)].toSorted()`
unfoldable pub sorted_kind_set : List EvidenceSignalKind → List EvidenceSignalKind
unfolding to_sorted to_set
sorted_kind_set kinds = to_sorted compare_kinds (to_set same_kind kinds)
