-- ===== src/Spine/Walk/Laws.antt =====
-- packages/core/src/spine/walk.ts: the pages of a walk and those of the session's events.
use growthmind.Prelude.{
  Text, text_eq, text_eq_iff, text_eq_refl, Bool, true, false, Option, none, some, List, [], ◌∷◌,
  ◌≡◌, refl, arith, any, if◌then◌else◌, Bool-cases, inl, inr, ◌||◌, ◌∙◌, any-to_sorted,
}
use growthmind.Detect.Types.{TimelineEvent, SessionTimeline}
use growthmind.Detect.Order.{order_timeline, compare_events}
use growthmind.Spine.Walk.{walk_from, session_walk, is_path, is_at}

-- No page follows itself; `previous` is the page before the list.
abbrev pub MovesOn : Option Text → List Text → Type 0
MovesOn previous [] = Unit
MovesOn previous (path ∷ walk) = (is_path previous path ≡ false) × MovesOn (some path) walk

MovesOn-after_same :
    (previous : Option Text) (path : Text) (walk : List Text)
    → is_path previous path ≡ true
    → MovesOn (some path) walk
    → MovesOn previous walk
MovesOn-after_same none path walk e h = cc
MovesOn-after_same (some previous) path walk e h = rw ((text_eq_iff previous path).0 e) h

MovesOn-step :
    (previous : Option Text) (path : Text) (rest : List Text)
    → MovesOn (some path) rest
    → MovesOn previous (if is_path previous path then rest else path ∷ rest)
MovesOn-step previous path rest h = ground (arith, MovesOn-after_same previous path rest)

walk_from-MovesOn :
    (previous : Option Text) (events : List TimelineEvent)
    → MovesOn previous (walk_from previous events)
unfolding walk_from
walk_from-MovesOn previous [] = tt
walk_from-MovesOn previous (e ∷ es) =
    elim (e.url_path)
      as (λ p. MovesOn previous (elim p [
        | none ↦ walk_from previous es
        | some path ↦
            let rest = walk_from (some path) es in
            if is_path previous path then rest else path ∷ rest
      ])) [
        | none ↦ walk_from-MovesOn previous es
        | some path ↦
            MovesOn-step previous path (walk_from (some path) es) (walk_from-MovesOn (some path) es)
      ]

-- A walk never stands still: no page on it is followed by itself.
pub session_walk-MovesOn : (session : SessionTimeline) → MovesOn none (session_walk session)
unfolding session_walk
session_walk-MovesOn session = walk_from-MovesOn none (order_timeline session.events)

abbrev pub visits : List Text → Text → Bool
visits walk path = any walk (λ p. text_eq p path)

visits-step :
    (previous : Option Text) (path q : Text) (rest : List Text) (later : Bool)
    → (text_eq path q || visits rest q) ≡ (text_eq path q || later)
    → (is_path previous q || visits (if is_path previous path then rest else path ∷ rest) q)
      ≡ (is_path previous q || (text_eq path q || later))
visits-step none path q rest later h = h
visits-step (some previous) path q rest later h = elim (Bool-cases (text_eq previous path)) [
  | inl e ↦ rw ((text_eq_iff previous path).0 e, text_eq_refl path) (ground arith)
  | inr e ↦ rw e (ground arith)
]

walk_from-visits :
    (previous : Option Text) (q : Text) (events : List TimelineEvent)
    → (is_path previous q || visits (walk_from previous events) q)
      ≡ (is_path previous q || any events (is_at q))
unfolding walk_from
walk_from-visits previous q [] = refl
walk_from-visits previous q (e ∷ es) =
    elim (e.url_path)
      as (λ p.
        (is_path previous q
          || visits
              (elim p [
                | none ↦ walk_from previous es
                | some path ↦
                    let rest = walk_from (some path) es in
                    if is_path previous path then rest else path ∷ rest
              ])
              q)
        ≡ (is_path previous q
            || (elim p [ none ↦ false | some path ↦ text_eq path q ] || any es (is_at q)))) [
              | none ↦ walk_from-visits previous q es
              | some path ↦
                  visits-step previous path q (walk_from (some path) es) (any es (is_at q))
                    (walk_from-visits (some path) q es)
            ]

-- A page is on the walk of a session exactly if one of the session's events names it.
pub session_walk-visits :
    (session : SessionTimeline) (q : Text)
    → visits (session_walk session) q ≡ any session.events (is_at q)
unfolding session_walk order_timeline
session_walk-visits session q =
    walk_from-visits none q (order_timeline session.events)
    ∙ any-to_sorted compare_events (is_at q) session.events
