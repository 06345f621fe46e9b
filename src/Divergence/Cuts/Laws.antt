-- ===== src/Divergence/Cuts/Laws.antt =====
-- packages/core/src/divergence/cuts.ts: the cuts of a cohort, and the filters that they stand for.
use mathlib.Core.List.{append_assoc, append-nil}
use growthmind.Prelude.{
  subst, map_get_same, ◌≡◌, refl, ap, sym, ◌∙◌, Bool, true, ◌&&◌, Option, none, some, List, [], ◌∷◌,
  ◌++◌, filter, is_empty, map_get, map_set, map_get-map_set, if◌then◌else◌, Bool-cases, inl, inr,
}
use growthmind.Detect.Types.{
  BrowserFamily, safari, chrome, firefox, edge, other_browser, unknown_browser, DeviceType, mobile,
  tablet, desktop, unknown_device, SessionCohortCuts, SessionTimeline,
}
use growthmind.CohortCuts.Classify.{
  CohortCut, surface_cut, browser_cut, device_cut, browser_families, device_types,
}
use growthmind.Divergence.Cuts.{
  DivergenceCohortCut, cuts_of, same_browser, same_device, bucket_with, buckets_from, buckets_of,
  cut_with, axis_cuts, browser_of, device_of, cohort_cuts_of,
}

module _ {Key : Type 0} (same_key : Key → Key → Bool) (key_of : SessionCohortCuts → Key) where
  -- The sessions of a key.
  abbrev pub of_key : Key → List SessionTimeline → List SessionTimeline
  of_key key sessions = filter (λ s. same_key (key_of (cuts_of s)) key) sessions

  abbrev pub unless_empty :
      List DivergenceCohortCut → DivergenceCohortCut → List DivergenceCohortCut
  unless_empty cuts cut = if is_empty cut.succeeded && is_empty cut.failed then cuts else cut ∷ cuts

  -- One cut for each key that a session of either cohort has.
  pub cuts_by :
      List Key
      → (Key → CohortCut)
      → List SessionTimeline
      → List SessionTimeline
      → List DivergenceCohortCut
  cuts_by [] cut_of succeeded failed = []
  cuts_by (key ∷ order) cut_of succeeded failed =
      unless_empty (cuts_by order cut_of succeeded failed)
        (record { cut = cut_of key; succeeded = of_key key succeeded; failed = of_key key failed })

  abbrev onto_bucket :
      Option (List SessionTimeline) → List SessionTimeline → Option (List SessionTimeline)
  onto_bucket none [] = none
  onto_bucket none (s ∷ sessions) = some (s ∷ sessions)
  onto_bucket (some bucket) sessions = some (bucket ++ sessions)

  onto_bucket-with :
      (s : SessionTimeline) (o : Option (List SessionTimeline)) (sessions : List SessionTimeline)
      → onto_bucket (some (bucket_with same_key key_of s o)) sessions ≡ onto_bucket o (s ∷ sessions)
  onto_bucket-with s none sessions = refl
  onto_bucket-with s (some bucket) sessions = ap some (append_assoc bucket (s ∷ []) sessions)

  onto_bucket-nil : (o : Option (List SessionTimeline)) → onto_bucket o [] ≡ o
  onto_bucket-nil none = refl
  onto_bucket-nil (some bucket) = ap some (append-nil bucket)

  module _ (left : (i j k : Key) → same_key i j ≡ true → same_key i k ≡ same_key j k)
      (right : (i j k : Key) → same_key j k ≡ true → same_key i j ≡ same_key i k) where
    map_get-buckets_from :
        (key : Key) (sessions : List SessionTimeline) (buckets : List (Key × List SessionTimeline))
        → map_get same_key key (buckets_from same_key key_of sessions buckets)
          ≡ onto_bucket (map_get same_key key buckets) (of_key key sessions)
    unfolding buckets_from
    map_get-buckets_from key [] buckets = sym (onto_bucket-nil (map_get same_key key buckets))
    map_get-buckets_from key (s ∷ sessions) buckets =
        let here = key_of (cuts_of s) in
        let old = map_get same_key here buckets in
        map_get-buckets_from key sessions
          (map_set same_key here (bucket_with same_key key_of s old) buckets)
        ∙ elim (Bool-cases (same_key here key)) [
          | inl e ↦
              rw
                (
                  map_get-map_set same_key left right here key (bucket_with same_key key_of s old)
                      buckets,
                  e,
                )
                (onto_bucket-with s old (of_key key sessions)
                  ∙ ap (λ o. onto_bucket o (s ∷ of_key key sessions))
                      (map_get_same same_key left right here key buckets e))
          | inr e ↦
              rw
                (
                  map_get-map_set same_key left right here key (bucket_with same_key key_of s old)
                      buckets,
                  e,
                )
                refl
        ]

    cut_with_buckets :
        (cut : CohortCut) (succeeded failed : List SessionTimeline)
        (cuts : List DivergenceCohortCut)
        → cut_with same_key key_of cut (onto_bucket none succeeded) (onto_bucket none failed) cuts
          ≡ unless_empty cuts (record { cut = cut; succeeded = succeeded; failed = failed })
    cut_with_buckets cut [] [] cuts = refl
    cut_with_buckets cut [] (f ∷ failed) cuts = refl
    cut_with_buckets cut (s ∷ succeeded) [] cuts = refl
    cut_with_buckets cut (s ∷ succeeded) (f ∷ failed) cuts = refl

    bucket_at :
        (key : Key) (sessions : List SessionTimeline)
        → map_get same_key key (buckets_of same_key key_of sessions)
          ≡ onto_bucket none (of_key key sessions)
    unfolding map_get
    bucket_at key sessions = map_get-buckets_from key sessions []

    pub axis_cuts-eq-cuts_by :
        (order : List Key) (cut_of : Key → CohortCut) (succeeded failed : List SessionTimeline)
        → axis_cuts same_key key_of order cut_of
            (buckets_of same_key key_of succeeded)
            (buckets_of same_key key_of failed)
          ≡ cuts_by order cut_of succeeded failed
    unfolding axis_cuts cuts_by
    axis_cuts-eq-cuts_by [] cut_of succeeded failed = refl
    axis_cuts-eq-cuts_by (key ∷ order) cut_of succeeded failed =
        rw
          (
            bucket_at key succeeded,
            bucket_at key failed,
            axis_cuts-eq-cuts_by order cut_of succeeded failed,
          )
          (cut_with_buckets (cut_of key) (of_key key succeeded) (of_key key failed)
            (cuts_by order cut_of succeeded failed))

browser_eq : (i j : BrowserFamily) → same_browser i j ≡ true → i ≡ j
browser_eq safari safari h = refl
browser_eq safari chrome h = cc
browser_eq safari firefox h = cc
browser_eq safari edge h = cc
browser_eq safari other_browser h = cc
browser_eq safari unknown_browser h = cc
browser_eq chrome safari h = cc
browser_eq chrome chrome h = refl
browser_eq chrome firefox h = cc
browser_eq chrome edge h = cc
browser_eq chrome other_browser h = cc
browser_eq chrome unknown_browser h = cc
browser_eq firefox safari h = cc
browser_eq firefox chrome h = cc
browser_eq firefox firefox h = refl
browser_eq firefox edge h = cc
browser_eq firefox other_browser h = cc
browser_eq firefox unknown_browser h = cc
browser_eq edge safari h = cc
browser_eq edge chrome h = cc
browser_eq edge firefox h = cc
browser_eq edge edge h = refl
browser_eq edge other_browser h = cc
browser_eq edge unknown_browser h = cc
browser_eq other_browser safari h = cc
browser_eq other_browser chrome h = cc
browser_eq other_browser firefox h = cc
browser_eq other_browser edge h = cc
browser_eq other_browser other_browser h = refl
browser_eq other_browser unknown_browser h = cc
browser_eq unknown_browser safari h = cc
browser_eq unknown_browser chrome h = cc
browser_eq unknown_browser firefox h = cc
browser_eq unknown_browser edge h = cc
browser_eq unknown_browser other_browser h = cc
browser_eq unknown_browser unknown_browser h = refl

device_eq : (i j : DeviceType) → same_device i j ≡ true → i ≡ j
device_eq mobile mobile h = refl
device_eq mobile tablet h = cc
device_eq mobile desktop h = cc
device_eq mobile unknown_device h = cc
device_eq tablet mobile h = cc
device_eq tablet tablet h = refl
device_eq tablet desktop h = cc
device_eq tablet unknown_device h = cc
device_eq desktop mobile h = cc
device_eq desktop tablet h = cc
device_eq desktop desktop h = refl
device_eq desktop unknown_device h = cc
device_eq unknown_device mobile h = cc
device_eq unknown_device tablet h = cc
device_eq unknown_device desktop h = cc
device_eq unknown_device unknown_device h = refl

same_browser_left :
    (i j k : BrowserFamily) → same_browser i j ≡ true → same_browser i k ≡ same_browser j k
same_browser_left i j k h = subst (λ x. same_browser i k ≡ same_browser x k) (browser_eq i j h) refl

same_browser_right :
    (i j k : BrowserFamily) → same_browser j k ≡ true → same_browser i j ≡ same_browser i k
same_browser_right i j k h = ap (same_browser i) (browser_eq j k h)

same_device_left : (i j k : DeviceType) → same_device i j ≡ true → same_device i k ≡ same_device j k
same_device_left i j k h = subst (λ x. same_device i k ≡ same_device x k) (device_eq i j h) refl

same_device_right :
    (i j k : DeviceType) → same_device j k ≡ true → same_device i j ≡ same_device i k
same_device_right i j k h = ap (same_device i) (device_eq j k h)

-- Grouping the sessions of a cohort gives, behind the whole of it, what picking the sessions of each
-- browser and of each device gives, in the order of the two lists and without the cuts that nobody is in.
pub cohort_cuts_of-eq-cuts_by :
    (succeeded failed : List SessionTimeline)
    → cohort_cuts_of succeeded failed
      ≡ record { cut = surface_cut; succeeded = succeeded; failed = failed }
        ∷ (cuts_by same_browser browser_of browser_families browser_cut succeeded failed
            ++ cuts_by same_device device_of device_types device_cut succeeded failed)
unfolding cohort_cuts_of
cohort_cuts_of-eq-cuts_by succeeded failed = rw (
  axis_cuts-eq-cuts_by same_browser browser_of same_browser_left same_browser_right browser_families
      browser_cut succeeded failed,
  axis_cuts-eq-cuts_by same_device device_of same_device_left same_device_right device_types
      device_cut succeeded failed,
)
