-- ===== src/Shipped/Corpus.antt =====
-- packages/core/src/shipped/corpus.ts, counts.ts and floors.ts: the corpus of those who reached the
-- page, the counts over it, and whether they are enough for a claim.
pub mod Laws
use growthmind.Prelude.{
  ℕ, Text, Bool, true, false, not, ◌&&◌, Option, none, some, List, [], ◌∷◌, map, filter, length,
  ltb, ◌==◌, if◌then◌else◌, ◌>>=◌,
}
use growthmind.Doubles.{Doubles}
use growthmind.Platform.{Platform}
use growthmind.Counts.{
  AnalysisWindow, CountBasis, MeasuredCount, measured_count, sessions, people, Rate, no_rate,
  rate_of, no_identity_coverage,
}
use growthmind.Detect.Types.{DetectorCorpus}
use growthmind.Detect.Analysed.{is_kept}
use growthmind.Sessions.UrlPath.{url_path_normalisation_version}
use growthmind.Shipped.Eligibility.{
  ShippedCorpusKind, page_kind, recorded_kind, EligibleSession, PeopleTally, eligible_sessions_for,
  rebuild_basis, tally_people, who_counts_is_readable,
}

pub record AtPageCorpus : Type 0 where
  pub kind : ShippedCorpusKind
  pub basis : CountBasis
  pub people_basis : Option CountBasis
  pub timeframe : AnalysisWindow
  pub truncated : Bool
  pub touched_sessions : ℕ
  pub repeat_people : ℕ
  pub unidentified_eligible : ℕ

pub record BuildAtPageCorpusInput : Type 0 where
  pub corpus : DetectorCorpus
  pub kind : ShippedCorpusKind
  pub page : Text
  pub control_label : Text
  pub page_normalisation_version : ℕ

pub data AtPageRefusal : Type 0 where
  stale_page_spelling corpus_predates_who_counts : AtPageRefusal

pub data BuildAtPageCorpusResult : Type 0 where
  built : AtPageCorpus → BuildAtPageCorpusResult
  not_built : AtPageRefusal → BuildAtPageCorpusResult

abbrev pub is_touched_and_kept : EligibleSession → Bool
is_touched_and_kept entry = entry.touched && is_kept entry.session

abbrev pub at_page_corpus_of :
    BuildAtPageCorpusInput → List EligibleSession → PeopleTally → AtPageCorpus
at_page_corpus_of input eligible tally = record {
  kind = input.kind;
  basis = rebuild_basis (map (λ (e : EligibleSession). e.session) eligible);
  people_basis = tally.people_basis;
  timeframe = input.corpus.window;
  truncated = input.corpus.coverage.truncated;
  touched_sessions = length (filter is_touched_and_kept eligible);
  repeat_people = tally.returned;
  unidentified_eligible = tally.unidentified;
}

module _ (W : Platform) where
  unfoldable pub build_at_page_corpus : BuildAtPageCorpusInput → BuildAtPageCorpusResult
  unfolding eligible_sessions_for rebuild_basis tally_people who_counts_is_readable
  build_at_page_corpus input =
      let eligible =
        eligible_sessions_for W input.corpus input.kind input.page input.control_label in
      if not (input.page_normalisation_version == url_path_normalisation_version)
      then not_built stale_page_spelling
      else if not (who_counts_is_readable input.corpus)
      then not_built corpus_predates_who_counts
      else built (at_page_corpus_of input eligible (tally_people eligible))

abbrev pub shipped_spine_eligibility_floor : ℕ
shipped_spine_eligibility_floor = 30

abbrev pub shipped_recorded_eligibility_floor : ℕ
shipped_recorded_eligibility_floor = 10

pub data ShippedClaimGate : Type 0 where
  claim : ShippedClaimGate
  too_few : (denominator : ℕ) → ShippedClaimGate

abbrev pub eligibility_floor_for : ShippedCorpusKind → ℕ
eligibility_floor_for page_kind = shipped_spine_eligibility_floor
eligibility_floor_for recorded_kind = shipped_recorded_eligibility_floor

unfoldable pub shipped_claim_gate : AtPageCorpus → ShippedClaimGate
shipped_claim_gate corpus =
    if ltb corpus.basis.kept (eligibility_floor_for corpus.kind)
    then too_few corpus.basis.kept
    else claim

module _ (F : Doubles) where
  pub record ShippedCounts : Type 0 where
    pub reach : MeasuredCount
    pub repeat : Option MeasuredCount
    pub repeat_rate : Rate F

  abbrev pub counts_with_people :
      AtPageCorpus → MeasuredCount → Option CountBasis → Option ShippedCounts
  counts_with_people corpus reach none =
      some (record { reach = reach; repeat = none; repeat_rate = no_rate no_identity_coverage })
  counts_with_people corpus reach (some people_basis) = do
    repeat ← measured_count (record {
      numerator = corpus.repeat_people;
      denominator = people_basis.kept;
      unit = people;
      timeframe = corpus.timeframe;
      basis = people_basis;
    })
    some (record { reach = reach; repeat = some repeat; repeat_rate = rate_of F repeat })

  -- `none` is the ZodError that `measuredCount` throws.
  unfoldable pub shipped_counts : AtPageCorpus → Option ShippedCounts
  unfolding measured_count rate_of
  shipped_counts corpus = do
    reach ← measured_count (record {
      numerator = corpus.touched_sessions;
      denominator = corpus.basis.kept;
      unit = sessions;
      timeframe = corpus.timeframe;
      basis = corpus.basis;
    })
    counts_with_people corpus reach corpus.people_basis
