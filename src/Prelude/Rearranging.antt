-- ===== src/Prelude/Rearranging.antt =====
-- Sorting of rearranged lists, by an order that tells all elements apart.
use mathlib.Core.Path.{◌≡◌, refl, ap, ◌∙◌}
use mathlib.Core.List.{List, [], ◌∷◌, Permᴰ}
use native.Mathlib.Omega.{arith}
use growthmind.Prelude.Tests.{Sign, same}
use growthmind.Prelude.Sorting.{sort_insert, to_sorted, IsOrder}

module _ {A : Type 0} (cmp : A → A → Sign) (o : IsOrder cmp)
    (apart : (x y : A) → cmp x y ≡ same → x ≡ y) where
  sort_insert_comm :
      (x y : A) (l : List A)
      → sort_insert cmp x (sort_insert cmp y l) ≡ sort_insert cmp y (sort_insert cmp x l)
  unfolding sort_insert
  sort_insert_comm x y [] = ground (arith, o.flips x y, apart x y)
  sort_insert_comm x y (z ∷ zs) =
      ground
        (arith, o.flips x y, apart x y, o.chains x y z, o.chains y x z, sort_insert_comm x y zs)

  pub to_sorted-Permᴰ : {xs ys : List A} → Permᴰ xs ys → to_sorted cmp xs ≡ to_sorted cmp ys
  unfolding to_sorted
  to_sorted-Permᴰ Permᴰ.nil = refl
  to_sorted-Permᴰ (Permᴰ.cons {b = b} {l₁ = l₁} e d) =
      ap (λ a. sort_insert cmp a (to_sorted cmp l₁)) e ∙ ap (sort_insert cmp b) (to_sorted-Permᴰ d)
  to_sorted-Permᴰ (Permᴰ.swap {a' = a'} {b' = b'} {l = l} e f) =
      rw (e, f) (sort_insert_comm b' a' (to_sorted cmp l))
  to_sorted-Permᴰ (Permᴰ.trans d e) = to_sorted-Permᴰ d ∙ to_sorted-Permᴰ e
