-- ===== src/Counts/Breakdown.antt =====
-- packages/core/src/counts/set-aside-breakdown.ts, with the labels of
-- packages/shared/src/session-source/messages.ts. `localeCompare` puts the reasons, which are ASCII
-- words, in the order of the alphabet.
use growthmind.Prelude.{
  ℕ, ◌+◌, ◌≡◌, refl, ◌∙◌, Text, text, Bool, true, not, is_empty, all, Option, none, some, List, [],
  ◌∷◌, map, Sign, compare_numbers, ◌then_by◌, to_sorted, all-to_sorted, sort_insert, ◌==◌, map_get,
  map_set, arith,
}
use growthmind.Counts.{
  ExclusionReason, kept_none, internal_domain, automation_headless, automation_known_agent,
  automation_coding_agent, outside_who_counts, SetAsideBasis, set_aside_total,
}

abbrev pub exclusion_reason_label : ExclusionReason → Text
exclusion_reason_label kept_none = text "Kept and counted"
exclusion_reason_label internal_domain = text "Your own team"
exclusion_reason_label automation_headless = text "Automated browser tests"
exclusion_reason_label automation_known_agent = text "Crawlers, monitors and scripts"
exclusion_reason_label automation_coding_agent = text "Coding agents"
exclusion_reason_label outside_who_counts = text "Not who you said counts"

-- The place of a reason's name in the alphabet.
abbrev pub reason_rank : ExclusionReason → ℕ
reason_rank automation_coding_agent = 0
reason_rank automation_headless = 1
reason_rank automation_known_agent = 2
reason_rank internal_domain = 3
reason_rank kept_none = 4
reason_rank outside_who_counts = 5

abbrev pub same_reason : ExclusionReason → ExclusionReason → Bool
same_reason a b = reason_rank a == reason_rank b

abbrev pub compare_rows : SetAsideBasis → SetAsideBasis → Sign
compare_rows left right =
    compare_numbers right.count left.count
    then_by compare_numbers (reason_rank left.reason) (reason_rank right.reason)

abbrev pub breakdown_row : ExclusionReason × ℕ → SetAsideBasis
breakdown_row (reason, count) = record {
  reason = reason;
  count = count;
  label = exclusion_reason_label reason;
}

unfoldable pub build_set_aside_breakdown : List (ExclusionReason × ℕ) → List SetAsideBasis
unfolding to_sorted
build_set_aside_breakdown counts = to_sorted compare_rows (map breakdown_row counts)

abbrev pub or_zero : Option ℕ → ℕ
or_zero none = 0
or_zero (some n) = n

-- `byReason.set(reason, (byReason.get(reason) ?? 0) + 1)`
unfoldable pub count_reason :
    ExclusionReason → List (ExclusionReason × ℕ) → List (ExclusionReason × ℕ)
unfolding map_get map_set
count_reason reason counts =
    map_set same_reason reason (or_zero (map_get same_reason reason counts) + 1) counts

abbrev pub counts_total : List (ExclusionReason × ℕ) → ℕ
counts_total [] = 0
counts_total ((reason, n) ∷ counts) = n + counts_total counts

counts_total-map_set :
    (reason : ExclusionReason) (counts : List (ExclusionReason × ℕ))
    → counts_total
        (map_set same_reason reason (or_zero (map_get same_reason reason counts) + 1) counts)
      ≡ counts_total counts + 1
unfolding map_get map_set
counts_total-map_set reason [] = omega arith
counts_total-map_set reason ((r, n) ∷ counts) = ground (arith, counts_total-map_set reason counts)

-- Counting one more session under a reason adds one to the total of all reasons.
pub counts_total-count_reason :
    (reason : ExclusionReason) (counts : List (ExclusionReason × ℕ))
    → counts_total (count_reason reason counts) ≡ counts_total counts + 1
unfolding count_reason
counts_total-count_reason reason counts = counts_total-map_set reason counts

set_aside_total-sort_insert :
    (row : SetAsideBasis) (rows : List SetAsideBasis)
    → set_aside_total (sort_insert compare_rows row rows) ≡ row.count + set_aside_total rows
unfolding sort_insert set_aside_total
set_aside_total-sort_insert row [] = refl
set_aside_total-sort_insert row (r ∷ rows) = ground (arith, set_aside_total-sort_insert row rows)

set_aside_total-sorted_rows :
    (counts : List (ExclusionReason × ℕ))
    → set_aside_total (to_sorted compare_rows (map breakdown_row counts)) ≡ counts_total counts
unfolding to_sorted set_aside_total
set_aside_total-sorted_rows [] = refl
set_aside_total-sorted_rows ((reason, n) ∷ counts) = omega (
  arith,
  set_aside_total-sort_insert (breakdown_row (reason, n))
      (to_sorted compare_rows (map breakdown_row counts)),
  set_aside_total-sorted_rows counts,
)

-- The rows of a breakdown add up to the total of the counts that it was built from.
pub set_aside_total-breakdown :
    (counts : List (ExclusionReason × ℕ))
    → set_aside_total (build_set_aside_breakdown counts) ≡ counts_total counts
unfolding build_set_aside_breakdown
set_aside_total-breakdown counts = set_aside_total-sorted_rows counts

all-rows :
    (counts : List (ExclusionReason × ℕ))
    → all (map breakdown_row counts) (λ r. not (is_empty r.label)) ≡ true
all-rows [] = refl
all-rows ((kept_none, n) ∷ counts) = all-rows counts
all-rows ((_, n) ∷ counts) = all-rows counts

-- Each row of a breakdown has a label that is not empty.
pub all-breakdown :
    (counts : List (ExclusionReason × ℕ))
    → all (build_set_aside_breakdown counts) (λ r. not (is_empty r.label)) ≡ true
unfolding build_set_aside_breakdown
all-breakdown counts =
    all-to_sorted compare_rows (λ r. not (is_empty r.label)) (map breakdown_row counts)
    ∙ all-rows counts
