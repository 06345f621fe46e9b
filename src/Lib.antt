-- ===== src/Lib.antt =====
-- The decision core of Growthmind: from the sessions of a product's users to a finding that is worth
-- telling, and to what may be said of a change that was shipped. Paths below are from the repository's
-- root.
--
-- How the parts interact. A session is stored under a key (Sessions.SessionKey, deriveSessionKey and
-- recordingIdFromSessionKey of packages/shared/src/sessions/grouping.ts) and stamped with a reason to set
-- it aside (Exclusions, classifyExclusion of packages/shared/src/exclusions/classify.ts). A corpus of
-- sessions (Detect.Types, packages/core/src/detect/types.ts) is read by
-- three detectors: Detect.Funnel (detectFunnelDropoff) over the walks of Spine.Walk (sessionWalk,
-- transitionsOf), Detect.ErrorEvent (detectErrorEvent) over timelines ordered by Detect.Order, and
-- Evidence.ObservedStruggle (observedStruggleCandidates, with
-- Evidence.StruggleTally) over recordings (Replay.Types) whose controls are
-- told apart by Evidence.ElementKey and whose pages are normalised by Sessions.UrlPath. Every count that
-- they make is built by Counts (measuredCount), which accounts for the sessions set aside
-- (Counts.Breakdown). The cohorts of a funnel are held against the steps that they share (Spine.Steps,
-- buildStepSpine and placeOnSpine) by Divergence.Compute (computeDivergence), whole and by the cuts of
-- Divergence.Cuts (cohortCutsOf, over CohortCuts.Classify). Findings.Assemble (assembleCandidates) puts
-- each candidate to Evidence.Gate
-- (evaluate), which asks the predicates of Evidence.Predicates under the thresholds of Rules; what passes
-- becomes a candidate finding (Findings.Candidate) with an identity (Findings.EvidenceShape, over
-- Serialise.CanonicalJson). Signatures keeps the ledger of these identities
-- (packages/db/src/services/signature-ledger.service.ts: recordSignature, consultSignature,
-- markSignatureDelivered, recordDismissal, recordAncestry; Signatures.Ledger has the tables and their
-- queries), Findings.Suppression decides by it whether the finding is new, and
-- Delivery.Schedule (decideDelivery) which one is delivered, by the worth of its page (Growth.Worth, and
-- Growth.Context for worthOf). Text that leaves is scanned by Delivery.ResidualPii (scanResidualPii) and
-- escaped by Delivery.Mrkdwn (escapeMrkdwn); what may be shown of a page's own text is
-- Replay.DescribeValue (deliverableName).
-- Cause.Guard and Cause.CitationGate hold a model's account of a cause to the evidence.
-- Shipped.Eligibility, Shipped.Corpus and Shipped.PageMatch count who reached a changed page
-- (buildAtPageCorpus, shippedCounts). Growth.Facts keeps what is known of the business (confirmInFacts,
-- mergeResearch, capFactsPerKind), Growth.FactAdmission what may be a fact (admitStatement),
-- Growth.Derive the roles of surfaces (deriveRoledSurfaces), and Growth.Proposable the surfaces that no
-- change is proposed for (isProposableSurface). Notifications.Receipt chooses the receipt that speaks for
-- a notification, Notifications.Digest when the weekly summary is due and what it spans
-- (digestWindowStart), and ReplayFilters.Select and ReplayFilters.WayOut list recordings. Sessions.Grouping
-- counts the sessions of an account (groupSessionsByDomain).
-- Onboarding leads a new customer through the setup (deriveStepStates, nextBlocker) and the first run
-- (reduceStage).
-- Tenancy finds whom a request acts for (deriveTenantContext, mayAdminister), and Crypto.SecretBox keeps
-- the credentials of a project (encryptSecret, decryptSecret).
--
-- How code becomes definitions. Records and unions keep the source's fields and members in snake case, a
-- function keeps its name. A union member whose word is taken by another type of the same module gets a
-- longer name (kept_none for the reason `none`). A thrown error is `none`, or a constructor of a result
-- type where the code tells outcomes apart (GateResult). Loops are structural recursion over the list that
-- the source iterates; objects that a loop changes are passed along. A Map or a Set is an association list
-- or a list in the order of insertion, as is a table by the columns of its unique key; `toSorted` is an
-- insertion sort, which is stable. A string is the list
-- of its UTF-16 code units, a Date its milliseconds since the epoch. What a zod schema asks beyond the
-- types is a Boolean test (claim_parses, labels_present, candidate_finding). The regular expressions of
-- the scan for personal data are terms of Regex, which matches them as the language does: by
-- backtracking, with greedy repeats, word boundaries and looks behind and ahead.
--
-- Fuel. The loops of `evaluate` and `isReachableClass` follow the ladder of classes and take fuel
-- (ladder_fuel, five): a pass adds a class to those visited, there are four, and the longest descent
-- has two. Evidence.Gate.Laws shows that no claim exhausts it. The digits of a number take the number
-- itself as fuel. The loop over the matches of a pattern takes the length of the text and one, since each
-- match but an empty one ends further on; Delivery.ResidualPii.Scan.Fuel compares it with more fuel.
--
-- Parameters. Doubles is IEEE arithmetic, which rates are made of; the results hold for any such
-- operations. Platform is the engine's lower case and its URL parser. NodeCrypto, of Crypto.SecretBox,
-- is AES-256-GCM, SHA-256 and UTF-8 as Node has them, with what Node documents as hypotheses
-- (IsNodeCrypto). `sha256_hex`, of Signatures.Identity, is SHA-256; nothing is asked of it.
-- Audience, of Growth.Facts, is a proposal that facts carry along.
--
-- Not modelled: the recorder's event format and the narration of recordings, message texts and layouts,
-- the database but for the ledger of signatures, the adapters to other services, and the web application.
pub mod Prelude
pub mod Doubles
pub mod Rules
pub mod Counts
pub mod Exclusions
pub mod Crypto
pub mod Evidence
pub mod Growth
pub mod Delivery
pub mod Connection
pub mod Replay
pub mod Detect
pub mod Signatures
pub mod Spine
pub mod Divergence
pub mod CohortCuts
pub mod Platform
pub mod Regex
pub mod Sessions
pub mod Tenancy
pub mod Serialise
pub mod Findings
pub mod Cause
pub mod Shipped
pub mod Notifications
pub mod Onboarding
pub mod ReplayFilters
pub mod Examples
