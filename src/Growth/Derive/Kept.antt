-- ===== src/Growth/Derive/Kept.antt =====
-- packages/core/src/growth/derive.ts: the map of the confirmed roles.
use growthmind.Prelude.{
  text_right, text_left, ◌≡◌, refl, Text, text_eq, Bool, true, false, ◌&&◌, Option, some, List, [],
  ◌∷◌, ap, ◌∙◌, ◌||◌, any, map_get-map_set, All, Any, map_get, map_set, map_values, AllValues,
  AllValues-map_set, if◌then◌else◌, arith, Bool-cases, inl, inr,
}
use growthmind.Growth.Context.{RoledSurface}
use growthmind.Growth.Derive.{is_confirmed, confirmed_surfaces, has_surface, is_present}

-- Somebody confirmed the role of this surface.
abbrev pub is_confirmed_surface : List RoledSurface → Text → Bool
is_confirmed_surface existing surface =
    any existing (λ roled. is_confirmed roled && text_eq roled.surface surface)

has_surface-map_set :
    (roled : RoledSurface) (confirmed : List (Text × RoledSurface)) (surface : Text)
    → has_surface surface (map_set text_eq roled.surface roled confirmed)
      ≡ (text_eq roled.surface surface || has_surface surface confirmed)
has_surface-map_set roled confirmed surface =
    ap is_present
      (map_get-map_set text_eq text_left text_right roled.surface surface roled confirmed)
    ∙ present (text_eq roled.surface surface) (map_get text_eq surface confirmed)
  where
    present :
        (b : Bool) (o : Option RoledSurface)
        → is_present (if b then some roled else o) ≡ (b || is_present o)
    present true o = refl
    present false o = refl

or_moved : (a b c : Bool) {d : Bool} → d ≡ (b || c) → (a || d) ≡ ((b || a) || c)
or_moved a b c h = ground arith

pub has_surface-confirmed_surfaces :
    (existing : List RoledSurface) (confirmed : List (Text × RoledSurface)) (surface : Text)
    → has_surface surface (confirmed_surfaces existing confirmed)
      ≡ (is_confirmed_surface existing surface || has_surface surface confirmed)
unfolding confirmed_surfaces
has_surface-confirmed_surfaces [] confirmed surface = refl
has_surface-confirmed_surfaces (roled ∷ existing) confirmed surface =
    elim (Bool-cases (is_confirmed roled)) [
      | inl e ↦ rw e (
          has_surface-confirmed_surfaces existing (map_set text_eq roled.surface roled confirmed)
            surface
          ∙ or_moved (is_confirmed_surface existing surface) (text_eq roled.surface surface)
              (has_surface surface confirmed) (has_surface-map_set roled confirmed surface))
      | inr e ↦ rw e (has_surface-confirmed_surfaces existing confirmed surface)
    ]

-- A role that was kept: it is confirmed, and as it was.
abbrev pub IsKept : List RoledSurface → RoledSurface → Type 0
IsKept existing roled = (is_confirmed roled ≡ true) × Any (λ kept. kept ≡ roled) existing

pub confirmed_surfaces-AllValues :
    (all_existing existing : List RoledSurface) (confirmed : List (Text × RoledSurface))
    → ((roled : RoledSurface)
        → Any (λ kept. kept ≡ roled) existing
        → Any (λ kept. kept ≡ roled) all_existing)
    → AllValues (IsKept all_existing) confirmed
    → AllValues (IsKept all_existing) (confirmed_surfaces existing confirmed)
unfolding confirmed_surfaces
confirmed_surfaces-AllValues all_existing [] confirmed f h = h
confirmed_surfaces-AllValues all_existing (roled ∷ existing) confirmed f h =
    elim (Bool-cases (is_confirmed roled)) [
      | inl e ↦ rw e (
          confirmed_surfaces-AllValues all_existing existing
            (map_set text_eq roled.surface roled confirmed) (λ r a. f r (inr a))
            (AllValues-map_set text_eq (IsKept all_existing) roled.surface roled confirmed h
              (e, f roled (inl refl))))
      | inr e ↦
          rw e (confirmed_surfaces-AllValues all_existing existing confirmed (λ r a. f r (inr a)) h)
    ]

pub All-map_values :
    (P : RoledSurface → Type 0) (m : List (Text × RoledSurface))
    → AllValues P m
    → All P (map_values text_eq m)
All-map_values P [] h = tt
All-map_values P ((k, v) ∷ m) h = (h.0, All-map_values P m h.1)
