-- ===== src/Shipped/Corpus/Laws.antt =====
-- packages/core/src/shipped/counts.ts: the counts over a corpus that was built.
use growthmind.Prelude.{◌≡◌, Option, none, some}
use growthmind.Doubles.{Doubles}
use growthmind.Platform.{Platform}
use growthmind.Counts.{
  MeasuredCountInput, CountBasis, MeasuredCount, sessions, people, Rate, no_rate, rate_of,
  no_identity_coverage,
}
use growthmind.Counts.Laws.{HasValuesOf}
use growthmind.Detect.Types.{SessionTimeline}
use growthmind.Shipped.Eligibility.{EligibleSession}
use growthmind.Shipped.Corpus.{AtPageCorpus, ShippedCounts}

session_of : EligibleSession → SessionTimeline
session_of e = e.session

-- What the count of those who touched the change has to say.
abbrev pub reach_of : AtPageCorpus → MeasuredCountInput
reach_of corpus = record {
  numerator = corpus.touched_sessions;
  denominator = corpus.basis.kept;
  unit = sessions;
  timeframe = corpus.timeframe;
  basis = corpus.basis;
}

-- What the count of those who came back has to say.
abbrev pub repeat_of : AtPageCorpus → CountBasis → MeasuredCountInput
repeat_of corpus people_basis = record {
  numerator = corpus.repeat_people;
  denominator = people_basis.kept;
  unit = people;
  timeframe = corpus.timeframe;
  basis = people_basis;
}

module _ (F : Doubles) where
  -- Those who came back are counted, with their rate, exactly if the corpus knows its people.
  abbrev pub IsRepeat : AtPageCorpus → Option CountBasis → Option MeasuredCount → Rate F → Type 0
  IsRepeat corpus none none shown = shown ≡ no_rate no_identity_coverage
  IsRepeat corpus none (some repeat) shown = ⊥
  IsRepeat corpus (some basis) none shown = ⊥
  IsRepeat corpus (some basis) (some repeat) shown =
      HasValuesOf (repeat_of corpus basis) repeat × (shown ≡ rate_of F repeat)

  pub record AreCountsOf (corpus : AtPageCorpus) (c : ShippedCounts F) : Type 0 where
    pub reached : HasValuesOf (reach_of corpus) c.reach
    pub came_back : IsRepeat corpus corpus.people_basis c.repeat c.repeat_rate
