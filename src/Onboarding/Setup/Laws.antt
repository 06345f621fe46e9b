-- ===== src/Onboarding/Setup/Laws.antt =====
-- packages/shared/src/onboarding/blockers.ts: what stands between a customer and the first run.
use growthmind.Prelude.{◌≡◌, refl, Bool, true, false, Option, none, some}
use growthmind.Onboarding.Setup.{
  ℕ, SetupBlockerId, analytics, delivery, channel, arm, SetupFacts, is_armed, next_blocker, can_arm,
  SetupBlocker,
}

abbrev pub id_of : Option SetupBlocker → Option SetupBlockerId
id_of none = none
id_of (some blocker) = some blocker.id

-- What a blocker says of the facts.
abbrev pub Blocks : SetupFacts → Option SetupBlockerId → Type 0
Blocks facts none = (can_arm facts ≡ true) × (is_armed facts.armed_at ≡ true)
Blocks facts (some analytics) = facts.analytics_attached ≡ false
Blocks facts (some delivery) =
    (facts.analytics_attached ≡ true)
    × (facts.workspace_attached ≡ false)
    × (facts.delivery_resolved ≡ false)
Blocks facts (some channel) =
    (facts.analytics_attached ≡ true)
    × (facts.workspace_attached ≡ true)
    × (facts.delivery_resolved ≡ false)
Blocks facts (some arm) = (can_arm facts ≡ true) × (is_armed facts.armed_at ≡ false)

Blocks-of :
    (analytics_attached workspace_attached delivery_resolved : Bool) (armed_at : Option ℕ)
    → Blocks
        (record {
          analytics_attached = analytics_attached;
          workspace_attached = workspace_attached;
          delivery_resolved = delivery_resolved;
          armed_at = armed_at;
        })
        (id_of (
          next_blocker (record {
            analytics_attached = analytics_attached;
            workspace_attached = workspace_attached;
            delivery_resolved = delivery_resolved;
            armed_at = armed_at;
          })))
unfolding next_blocker can_arm
Blocks-of false w d a = refl
Blocks-of true false false a = (refl, refl, refl)
Blocks-of true true false a = (refl, refl, refl)
Blocks-of true false true none = (refl, refl)
Blocks-of true true true none = (refl, refl)
Blocks-of true false true (some at) = (refl, refl)
Blocks-of true true true (some at) = (refl, refl)

-- What is asked next is the first thing that is missing: analytics, a workspace, a channel, and to be
-- armed at last, which is asked only where it is allowed; nothing is asked once the run is armed and
-- all of it is there.
pub next_blocker-Blocks : (facts : SetupFacts) → Blocks facts (id_of (next_blocker facts))
next_blocker-Blocks facts =
    Blocks-of facts.analytics_attached facts.workspace_attached facts.delivery_resolved
      facts.armed_at
