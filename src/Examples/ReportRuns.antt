-- ===== src/Examples/ReportRuns.antt =====
-- Runs of the readout of a shipped change, of a notification's receipts, of the filters of the replay
-- list and of the facts about a business.
use growthmind.Prelude.{
  ℕ, ◌≡◌, ◌≤◌, refl, Text, text, Bool, true, false, Option, none, some, List, [], ◌∷◌, All, filter,
  length,
}
use growthmind.Counts.{CountBasis, internal_domain}
use growthmind.Detect.Types.{DetectorCorpus}
use growthmind.Shipped.Eligibility.{page_kind, EligibleSession, tally_people}
use growthmind.Shipped.Corpus.{AtPageCorpus, BuildAtPageCorpusInput}
use growthmind.Notifications.Receipt.{
  SlackReceiptFacts, NotificationSendStatus, slack, pending, sent, quiet,
}
use growthmind.ReplayFilters.Select.{
  ReplaySessionFact, ReplayFilters, real, real_origin, stamped_none,
}
use growthmind.ReplayFilters.WayOut.{WayOutInput, way_out, relax, company_filter}
use growthmind.Growth.Facts.{
  BusinessFact, BusinessFactKind, BusinessContext, regime, site, stated_by_customer,
  FactConfirmation, confirmed, confirm_in_facts, merge_research, facts_per_kind_max,
  business_fact_limit, same_fact_kind,
}
use growthmind.Growth.Facts.Remaining.{Belongs}
use growthmind.Growth.Facts.Laws.{merge_research_lem}
use growthmind.Examples.DetectRuns.{two_sessions, paying, cart}

-- Two visits of one person and one visit of the customer's own team, all at the cart.
abbrev visit_of : ℕ → Bool → EligibleSession
visit_of person own = record {
  session = record paying {
    identity_group = some person;
    exclusion_reason = elim own [ true ↦ internal_domain | false ↦ paying.exclusion_reason ];
  };
  touched = true;
}

abbrev visits_at_cart : List EligibleSession
visits_at_cart = visit_of 1 false ∷ visit_of 1 false ∷ visit_of 2 true ∷ []

abbrev basis_of_people : CountBasis
basis_of_people = record {
  total_in_window = 2;
  kept = 1;
  set_aside = record { reason = internal_domain; count = 1; label = text "Your own team" } ∷ [];
  kept_unchecked = 0;
}

two_people : (tally_people visits_at_cart).people_basis ≡ some basis_of_people
unfolding tally_people
two_people = refl

-- Two sessions at the cart, of one person and of another.
abbrev known_people : DetectorCorpus
known_people = record two_sessions {
  sessions =
      record paying { identity_group = some 1 } ∷ record paying { identity_group = some 2 } ∷ [];
}

abbrev cart_input : BuildAtPageCorpusInput
cart_input = record {
  corpus = known_people;
  kind = page_kind;
  page = cart;
  control_label = [];
  page_normalisation_version = 3;
}

abbrev cart_corpus : AtPageCorpus
cart_corpus = record {
  kind = page_kind;
  basis = record { total_in_window = 2; kept = 2; set_aside = []; kept_unchecked = 0 };
  people_basis =
      some (record { total_in_window = 2; kept = 2; set_aside = []; kept_unchecked = 0 });
  timeframe = two_sessions.window;
  truncated = false;
  touched_sessions = 2;
  repeat_people = 0;
  unidentified_eligible = 0;
}

abbrev receipt : NotificationSendStatus → ℕ → SlackReceiptFacts
receipt status at = record {
  channel = slack;
  target = text "C1";
  status = status;
  quiet_reason = none;
  failure_reason = none;
  message_ref = none;
  channel_label = none;
  sent_at = none;
  created_at = at;
}

abbrev receipts : List SlackReceiptFacts
receipts = receipt quiet 1 ∷ receipt sent 2 ∷ receipt pending 9 ∷ receipt quiet 8 ∷ []

abbrev fact_of : Text → Option Text → ReplaySessionFact
fact_of key domain = record {
  session_key = key;
  started_at = 0;
  identity_email_domain = domain;
  entry_url_path = some cart;
  origin = real_origin;
  exclusion_reason = stamped_none;
  duration_seconds = none;
  active_seconds = none;
  click_count = none;
  keypress_count = none;
  console_error_count = none;
}

abbrev acme : ReplayFilters
acme = record { company = some (text "acme.example"); entry = none; lane = real }

abbrev replays : List ReplaySessionFact
replays =
    fact_of (text "ph:1") (some (text "acme.example"))
    ∷ fact_of (text "gm:2") (some (text "acme.example"))
    ∷ fact_of (text "ph:3") none
    ∷ []

abbrev stuck : WayOutInput
stuck = record {
  filters = acme;
  relaxing_company = replays;
  relaxing_entry = [];
  relaxing_lane = [];
}

relaxes_company : way_out stuck ≡ relax company_filter
unfolding way_out
relaxes_company = refl

abbrev licensed : BusinessFact Unit
licensed = record {
  kind = regime;
  statement = text "licensed";
  source = site;
  corrected_from = none;
  audience = none;
  confirmation = none;
}

abbrev click_of : ℕ → FactConfirmation
click_of at = record { at = at; by = none }

first_click : (confirm_in_facts (licensed ∷ []) regime (text "licensed") (click_of 1)).0 ≡ confirmed
unfolding confirm_in_facts
first_click = refl

abbrev known : BusinessContext Unit
known = record {
  facts = record licensed { source = stated_by_customer } ∷ licensed ∷ [];
  removed = text "sells hats" ∷ [];
}

abbrev read_again : List (BusinessFact Unit)
read_again = record licensed { statement = text "sells hats" } ∷ licensed ∷ []

merge_research_lem_example :
    (length (merge_research known read_again).facts ≤ business_fact_limit)
    × ((k : BusinessFactKind)
        → length (
            filter
              (λ (f : BusinessFact Unit). same_fact_kind f.kind k)
              (merge_research known read_again).facts)
          ≤ facts_per_kind_max)
    × All (Belongs known read_again) (merge_research known read_again).facts
merge_research_lem_example = merge_research_lem known read_again
