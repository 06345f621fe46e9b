-- ===== src/Detect/Corpus.antt =====
-- The corpus as a detector takes it for granted, and the counts over it.
use growthmind.Prelude.{ℕ, ◌≤◌, ◌≡◌, refl, true, length, Returns, arith}
use growthmind.Counts.{labels_present}
use growthmind.Counts.Laws.{IsAccounted, measured_count_complete}
use growthmind.Detect.Types.{DetectorCorpus}
use growthmind.Detect.Analysed.{analysed_sessions}
use growthmind.Detect.Funnel.{count_of}

-- The basis accounts for the window, its rows are labelled, and it counts the sessions kept.
pub record IsSound (corpus : DetectorCorpus) : Type 0 where
  pub accounted : IsAccounted corpus.basis
  pub labelled : labels_present corpus.basis ≡ true
  pub counts_kept : length (analysed_sessions corpus).kept ≤ corpus.basis.kept

-- A number of kept sessions can be counted.
pub count_of_total :
    (corpus : DetectorCorpus) (n : ℕ)
    → IsSound corpus
    → n ≤ length (analysed_sessions corpus).kept
    → Returns (count_of corpus n)
count_of_total corpus n sound h = (
  _,
  measured_count_complete _ (record {
    labelled = sound.labelled;
    input_accounted = sound.accounted;
    over_kept = refl;
    within = omega arith;
  }),
)
