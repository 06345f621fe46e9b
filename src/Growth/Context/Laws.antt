-- ===== src/Growth/Context/Laws.antt =====
-- packages/core/src/growth/context.ts: what a context that was built says of a surface.
use growthmind.Prelude.{
  ◌≡◌, ◌⊎◌, refl, Text, text_eq, true, false, Option, none, some, List, [], ◌∷◌, All, Any, all,
  is_empty, ◌==◌, ==_iff, map_get, map_set, AllEntries, AllEntries-map_set, AllEntries-map_get,
  arith, Bool-cases, Option-cases, inl, inr,
}
use growthmind.Platform.{Platform}
use growthmind.Sessions.UrlPath.{is_normalised_url_path, url_path_normalisation_version}
use growthmind.Growth.Worth.{SurfaceWorth, weight_of_role, unknown_worth}
use growthmind.Growth.Context.{
  RoledSurface, GrowthContextInput, GrowthContext, set_surfaces, roled_surface_parses,
  surface_worth, growth_context, worth_of, worth_of_roled,
}

-- A worth is of the surface and has the weight of its role; it is the worth of a surface that nothing
-- is known of, or the role is one that the input gives the surface in the current spelling.
abbrev pub IsWorthFrom : List RoledSurface → Text → SurfaceWorth → Type 0
IsWorthFrom roles surface worth =
    (worth.surface ≡ surface)
    × (worth.weight ≡ weight_of_role worth.role)
    × ((worth ≡ unknown_worth surface)
        ⊎ Any
            (λ (roled : RoledSurface).
              (roled.surface ≡ surface)
              × (roled.role ≡ worth.role)
              × (roled.normalisation_version ≡ url_path_normalisation_version))
            roles)

abbrev pub ReturnsWorthFrom : List RoledSurface → Text → Option SurfaceWorth → Type 0
ReturnsWorthFrom roles surface none = ⊥
ReturnsWorthFrom roles surface (some worth) = IsWorthFrom roles surface worth

Any-among :
    {A : Type 0} (P : A → Type 0) (xs : List A) (x : A) → Any (λ y. y ≡ x) xs → P x → Any P xs
Any-among P [] x h p = absurd h
Any-among P (y ∷ ys) x (inl e) p = inl (rw e p)
Any-among P (y ∷ ys) x (inr h) p = inr (Any-among P ys x h p)

module _ (W : Platform) (roles : List RoledSurface) where
  -- A value of the map stands at its own surface, was parsed, and is of the input.
  abbrev Entry : Text → RoledSurface → Type 0
  Entry surface roled =
      (roled.surface ≡ surface)
      × (roled_surface_parses W roled ≡ true)
      × Any (λ given. given ≡ roled) roles

  set_surfaces-AllEntries :
      (rest : List RoledSurface) (by_surface : List (Text × RoledSurface))
      → All (λ (roled : RoledSurface). Entry roled.surface roled) rest
      → AllEntries Entry by_surface
      → AllEntries Entry (set_surfaces rest by_surface)
  unfolding set_surfaces
  set_surfaces-AllEntries [] by_surface given h = h
  set_surfaces-AllEntries (roled ∷ rest) by_surface given h =
      set_surfaces-AllEntries rest (map_set text_eq roled.surface roled by_surface) given.1
        (AllEntries-map_set Entry Entry roled.surface roled by_surface (λ j w e. e) h given.0)

  worth_of_Entry :
      (surface : Text) (roled : RoledSurface)
      → Entry surface roled
      → ReturnsWorthFrom roles surface (worth_of_roled W surface (some roled))
  unfolding surface_worth
  worth_of_Entry surface roled (same, parses, among) =
      elim (Bool-cases (roled.normalisation_version == url_path_normalisation_version)) [
        | inr old ↦ rw old (refl, refl, inl refl)
        | inl current ↦
            let filled : is_empty roled.surface ≡ false = ground arith in
            let normal : is_normalised_url_path W roled.surface ≡ true = ground arith in
            rw (current, filled, normal)
              (
                same,
                refl,
                inr (
                    Any-among _ roles roled among (
                      same,
                      refl,
                      (==_iff roled.normalisation_version url_path_normalisation_version).0 current,
                    )),
              )
      ]

all-Entries :
    (W : Platform) (rest roles : List RoledSurface)
    → all rest (roled_surface_parses W) ≡ true
    → ((roled : RoledSurface)
        → Any (λ given. given ≡ roled) rest
        → Any (λ given. given ≡ roled) roles)
    → All (λ (roled : RoledSurface). Entry W roles roled.surface roled) rest
all-Entries W [] roles h f = tt
all-Entries W (roled ∷ rest) roles h f = (
  (refl, ground arith, f roled (inl refl)),
  all-Entries W rest roles (ground arith) (λ other a. f other (inr a)),
)

-- A context that was built has a worth for every surface: that of an unknown surface, or that of a
-- role that the input gives the surface in the current spelling of paths.
pub worth_of-growth_context :
    (W : Platform) (input : GrowthContextInput) (context : GrowthContext) (surface : Text)
    → growth_context W input ≡ some context
    → ReturnsWorthFrom input.surfaces surface (worth_of W (some context) surface)
unfolding growth_context worth_of
worth_of-growth_context W input context surface h =
    let parses : all input.surfaces (roled_surface_parses W) ≡ true = ground arith in
    let built : set_surfaces input.surfaces [] ≡ context.by_surface = ground arith in
    let entries =
      set_surfaces-AllEntries W input.surfaces input.surfaces []
        (all-Entries W input.surfaces input.surfaces parses (λ roled a. a)) tt in
    elim (Option-cases (map_get text_eq surface context.by_surface)) [
      | inl e ↦ rw e (refl, refl, inl refl)
      | inr (roled, e) ↦ rw e (
          worth_of_Entry W input.surfaces surface roled (
            AllEntries-map_get (Entry W input.surfaces) surface context.by_surface
              (rw built at entries) e))
    ]
