-- ===== src/Growth/Derive/Laws.antt =====
-- packages/core/src/growth/derive.ts: the roles that are kept and those that are new.
use growthmind.Prelude.{
  All-take, length-take-le, All-append, ◌≤◌, ◌≡◌, ◌⊎◌, refl, Text, text_eq, Bool, true, false, some,
  List, [], ◌∷◌, ◌++◌, sym, ◌∙◌, ◌||◌, All, Any, All-map, take, length, map_get, map_values, arith,
  Bool-cases, inl, inr, ==_iff, bind-eq-some,
}
use growthmind.Doubles.{Doubles}
use growthmind.Platform.{Platform}
use growthmind.Sessions.UrlPath.{is_normalised_url_path, url_path_normalisation_version}
use growthmind.Growth.Context.{RoledSurface, roled_surface_limit}
use growthmind.Growth.Derive.{
  SurfaceObservation, DeriveInput, observation_parses, is_confirmed, is_unknown, confirmed_surfaces,
  has_surface, proposed, role_of_observation, propose_role, is_current, roled_as, propose_surface,
  propose_surfaces, derive_roled_surfaces,
}
use growthmind.Growth.Derive.Kept.{
  is_confirmed_surface, IsKept, has_surface-confirmed_surfaces, confirmed_surfaces-AllValues,
  All-map_values,
}

module _ (D : Doubles) (W : Platform) where
  -- A role that was proposed: of a surface that was observed in the current spelling of paths and that
  -- nobody confirmed, the role that the observation gives, which is a known one.
  abbrev pub IsProposedFrom :
      List (Text × RoledSurface) → List SurfaceObservation → RoledSurface → Type 0
  IsProposedFrom confirmed observations roled =
      (is_confirmed roled ≡ false)
      × (is_unknown roled.role ≡ false)
      × (is_normalised_url_path W roled.surface ≡ true)
      × (roled.normalisation_version ≡ url_path_normalisation_version)
      × (has_surface roled.surface confirmed ≡ false)
      × Any
          (λ (seen : SurfaceObservation).
            (seen.surface ≡ roled.surface)
            × (proposed roled.role roled.basis ≡ role_of_observation D W seen))
          observations

  roled_as-All :
      (confirmed : List (Text × RoledSurface)) (seen : SurfaceObservation)
      → has_surface seen.surface confirmed ≡ false
      → is_current D W seen ≡ true
      → All
          (IsProposedFrom confirmed (seen ∷ []))
          (roled_as D W seen (role_of_observation D W seen))
  roled_as-All confirmed seen fresh current =
      elim (Bool-cases (is_unknown (role_of_observation D W seen).role)) [
        | inl e ↦ rw e tt
        | inr e ↦ rw e (
          ((
            refl,
            e,
            ground arith,
            (==_iff seen.normalisation_version url_path_normalisation_version).0 (ground arith),
            fresh,
            inl (refl, refl),
          )),
          tt,
        )
      ]

  later :
      (confirmed : List (Text × RoledSurface)) (seen : SurfaceObservation)
      (observations : List SurfaceObservation) (roled : RoledSurface)
      → IsProposedFrom confirmed observations roled
      → IsProposedFrom confirmed (seen ∷ observations) roled
  later confirmed seen observations roled (a, b, c, d, e, f) = (a, b, c, d, e, inr f)

  first :
      (confirmed : List (Text × RoledSurface)) (seen : SurfaceObservation)
      (observations : List SurfaceObservation) (roled : RoledSurface)
      → IsProposedFrom confirmed (seen ∷ []) roled
      → IsProposedFrom confirmed (seen ∷ observations) roled
  first confirmed seen observations roled (a, b, c, d, e, inl f) = (a, b, c, d, e, inl f)
  first confirmed seen observations roled (a, b, c, d, e, inr f) = absurd f

  propose_surface-All :
      (confirmed : List (Text × RoledSurface)) (seen : SurfaceObservation)
      {pushed : List RoledSurface}
      → propose_surface D W confirmed seen ≡ some pushed
      → All (IsProposedFrom confirmed (seen ∷ [])) pushed
  unfolding propose_surface propose_role
  propose_surface-All confirmed seen {pushed} h =
      elim (Bool-cases (has_surface seen.surface confirmed)) [
        | inl e ↦ let none_pushed : [] ≡ pushed = ground (arith, rw e at h) in rw (← none_pushed) tt
        | inr fresh ↦ elim (Bool-cases (is_current D W seen)) [
          | inr e ↦
              let none_pushed : [] ≡ pushed = ground (arith, rw (fresh, e) at h) in
              rw (← none_pushed) tt
          | inl current ↦ elim (Bool-cases (observation_parses seen)) [
            | inr e ↦ cc (rw (fresh, current, e) at h)
            | inl e ↦
                let same : roled_as D W seen (role_of_observation D W seen) ≡ pushed =
                  ground (arith, rw (fresh, current, e) at h) in
                rw (← same) (roled_as-All confirmed seen fresh current)
          ]
        ]
      ]

  propose_surfaces-All :
      (confirmed : List (Text × RoledSurface)) (observations : List SurfaceObservation)
      {pushed : List RoledSurface}
      → propose_surfaces D W confirmed observations ≡ some pushed
      → All (IsProposedFrom confirmed observations) pushed
  unfolding propose_surfaces
  propose_surfaces-All confirmed [] {pushed} h =
      let none_pushed : [] ≡ pushed = ground arith in rw (← none_pushed) tt
  propose_surfaces-All confirmed (seen ∷ observations) {pushed} h =
      let (here, e, h') = bind-eq-some (propose_surface D W confirmed seen) _ h in
      let (rest, e', h'') = bind-eq-some (propose_surfaces D W confirmed observations) _ h' in
      let same : here ++ rest ≡ pushed = ground arith in
      rw (← same) (
        All-append _ here rest
          (All-map _ (IsProposedFrom confirmed (seen ∷ observations)) here
            (λ roled a. first confirmed seen observations roled a)
            (propose_surface-All confirmed seen e))
          (All-map _ (IsProposedFrom confirmed (seen ∷ observations)) rest
            (λ roled a. later confirmed seen observations roled a)
            (propose_surfaces-All confirmed observations e')))

  -- Of a surface that was derived, the existing roles confirmed none.
  abbrev pub IsProposed : DeriveInput → RoledSurface → Type 0
  IsProposed input roled =
      (is_unknown roled.role ≡ false)
      × (is_normalised_url_path W roled.surface ≡ true)
      × (roled.normalisation_version ≡ url_path_normalisation_version)
      × (is_confirmed_surface input.existing roled.surface ≡ false)
      × Any
          (λ (seen : SurfaceObservation).
            (seen.surface ≡ roled.surface)
            × (proposed roled.role roled.basis ≡ role_of_observation D W seen))
          input.observations

  IsProposed-fresh :
      (input : DeriveInput) (roled : RoledSurface)
      → IsProposedFrom (confirmed_surfaces input.existing []) input.observations roled
      → IsProposed input roled
  unfolding map_get
  IsProposed-fresh input roled (a, b, c, d, e, f) =
      let same = has_surface-confirmed_surfaces input.existing [] roled.surface in
      (b, c, d, unset (is_confirmed_surface input.existing roled.surface) (sym same ∙ e), f)
    where
      unset : (b : Bool) → (b || false) ≡ false → b ≡ false
      unset b h = ground arith

  -- The roles that are derived are at most two hundred. Each is an existing one, confirmed and as it was,
  -- or is new: of a normalised surface that was observed in the current spelling and that no existing role
  -- is confirmed of, and with the role that the observation gives, which is not the unknown one.
  pub derive_roled_surfaces_lem :
      (input : DeriveInput) {roles : List RoledSurface}
      → derive_roled_surfaces D W input ≡ some roles
      → (length roles ≤ roled_surface_limit)
        × All (λ roled. IsKept input.existing roled ⊎ IsProposed input roled) roles
  unfolding derive_roled_surfaces
  derive_roled_surfaces_lem input {roles} h =
      let confirmed = confirmed_surfaces input.existing [] in
      let kept = map_values text_eq confirmed in
      let (pushed, e, h') = bind-eq-some (propose_surfaces D W confirmed input.observations) _ h in
      let same : take roled_surface_limit (kept ++ pushed) ≡ roles = ground arith in
      rw (← same) (
        length-take-le roled_surface_limit (kept ++ pushed),
        All-take _ roled_surface_limit (kept ++ pushed) (
            All-append _ kept pushed
              (All-map (IsKept input.existing) _ kept (λ roled a. inl a)
                (All-map_values (IsKept input.existing) confirmed (
                  confirmed_surfaces-AllValues input.existing input.existing [] (λ roled a. a) tt)))
              (All-map _ _ pushed (λ roled a. inr (IsProposed-fresh input roled a))
                (propose_surfaces-All confirmed input.observations e))),
      )
