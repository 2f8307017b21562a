-- ===== src/Base/Sort.antt =====
-- Python's `sorted` and `list.sort`: stable, by a test that says which of two may stand first.
use mathlib.Core.Path.{◌≡◌, refl}
use mathlib.Core.Bool.{Bool, true, ◌&&◌, ◌||◌}
use mathlib.Core.List.{List, [], ◌∷◌}
use native.Mathlib.Omega.{arith}
use tiny_ctx.Base.Equality.{if◌then◌else◌}
use tiny_ctx.Base.Sets.{every}

module _ {ℓ} {A : Type ℓ} (le : A → A → Bool) where
  unfoldable pub place_by : A → List A → List A
  place_by x [] = x ∷ []
  place_by x (y ∷ ys) = let rest = place_by x ys in if le x y then x ∷ y ∷ ys else y ∷ rest

  unfoldable pub sort_by : List A → List A
  sort_by [] = []
  sort_by (x ∷ xs) = place_by x (sort_by xs)

  -- Each element may stand before all that follow it.
  unfoldable pub ascending : List A → Bool
  ascending [] = true
  ascending (x ∷ xs) = every (le x) xs && ascending xs

  abbrev pub IsTotalOrder : Type ℓ
  IsTotalOrder =
      ((x y : A) → (le x y || le y x) ≡ true)
      × ((x y z : A) → le x y ≡ true → le y z ≡ true → le x z ≡ true)

  pub every-place_by :
      (p : A → Bool) (x : A) (ys : List A) → every p (place_by x ys) ≡ (p x && every p ys)
  unfolding place_by every
  every-place_by p x [] = refl
  every-place_by p x (y ∷ ys) = ground (arith, every-place_by p x ys)

  -- Sorting neither loses nor makes elements.
  pub every-sort_by : (p : A → Bool) (xs : List A) → every p (sort_by xs) ≡ every p xs
  unfolding sort_by every
  every-sort_by p [] = refl
  every-sort_by p (x ∷ xs) = ground (arith, every-place_by p x (sort_by xs), every-sort_by p xs)

  every_mono :
      (p q : A → Bool) (xs : List A)
      → ((y : A) → p y ≡ true → q y ≡ true)
      → every p xs ≡ true
      → every q xs ≡ true
  unfolding every
  every_mono p q [] h all = refl
  every_mono p q (x ∷ xs) h all = ground (arith, h x, every_mono p q xs h)

  place_by-ascending :
      (x : A) (ys : List A) → IsTotalOrder → ascending ys ≡ true → ascending (place_by x ys) ≡ true
  unfolding place_by ascending every
  place_by-ascending x [] o h = refl
  place_by-ascending x (y ∷ ys) (total, trans) h = ground (
    arith,
    total x y,
    every-place_by (le y) x ys,
    place_by-ascending x ys (total, trans),
    λ (below : le x y ≡ true). every_mono (le y) (le x) ys (λ z. trans x y z below),
  )

  pub sort_by-ascending : (xs : List A) → IsTotalOrder → ascending (sort_by xs) ≡ true
  unfolding sort_by ascending
  sort_by-ascending [] o = refl
  sort_by-ascending (x ∷ xs) o = place_by-ascending x (sort_by xs) o (sort_by-ascending xs o)
