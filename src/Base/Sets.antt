-- ===== src/Base/Sets.antt =====
-- Python's sets, as lists. A program only tests membership, inclusion and emptiness of a set, so
-- the order and the repeats of the list are never seen.
use Prim.Native.Nat.{ℕ, suc}
use mathlib.Core.Path.{◌≡◌, refl}
use mathlib.Core.Bool.{Bool, true, false, not, ◌&&◌, ◌||◌}
use mathlib.Core.List.{List, [], ◌∷◌, ◌++◌}
use native.Mathlib.Omega.{arith}
use tiny_ctx.Base.Equality.{Eq, ◌==◌, if◌then◌else◌}

module _ {ℓ} {A : Type ℓ} where
  abbrev pub length : List A → ℕ
  length [] = 0
  length (x ∷ xs) = suc (length xs)

  -- `all(p(x) for x in xs)`
  unfoldable pub every : (A → Bool) → List A → Bool
  every p [] = true
  every p (x ∷ xs) = p x && every p xs

  -- `any(p(x) for x in xs)`
  unfoldable pub exists : (A → Bool) → List A → Bool
  exists p [] = false
  exists p (x ∷ xs) = p x || exists p xs

  -- `[x for x in xs if p(x)]`
  unfoldable pub keep : (A → Bool) → List A → List A
  keep p [] = []
  keep p (x ∷ xs) = let rest = keep p xs in if p x then x ∷ rest else rest

  -- truth value of a container: `bool(xs)`
  abbrev pub nonempty : List A → Bool
  nonempty [] = false
  nonempty (_ ∷ _) = true

  pub every-append :
      (p : A → Bool) (xs ys : List A) → every p (xs ++ ys) ≡ (every p xs && every p ys)
  unfolding every
  every-append p [] ys = refl
  every-append p (x ∷ xs) ys = ground (arith, every-append p xs ys)

  pub exists-append :
      (p : A → Bool) (xs ys : List A) → exists p (xs ++ ys) ≡ (exists p xs || exists p ys)
  unfolding exists
  exists-append p [] ys = refl
  exists-append p (x ∷ xs) ys = ground (arith, exists-append p xs ys)

module _ {ℓ} {A : Type ℓ} ⦃e : Eq A⦄ where
  -- `a in xs`
  unfoldable pub contains : List A → A → Bool
  contains [] a = false
  contains (x ∷ xs) a = x == a || contains xs a

  -- `s.add(a)`
  unfoldable pub add : A → List A → List A
  add a s = if contains s a then s else a ∷ s

  -- `s.discard(a)`
  unfoldable pub discard : A → List A → List A
  unfolding keep
  discard a s = keep (λ x. not (x == a)) s

  -- `s.issubset(t)`
  unfoldable pub subset : List A → List A → Bool
  unfolding every
  subset s t = every (λ x. contains t x) s

  -- `s - t`
  unfoldable pub minus : List A → List A → List A
  unfolding keep
  minus s t = keep (λ x. not (contains t x)) s

  -- `s | t`
  unfoldable pub union : List A → List A → List A
  union s t = s ++ minus t s

  pub contains-append :
      (xs ys : List A) (a : A) → contains (xs ++ ys) a ≡ (contains xs a || contains ys a)
  unfolding contains
  contains-append [] ys a = refl
  contains-append (x ∷ xs) ys a = ground (arith, contains-append xs ys a)

  pub contains-keep :
      (p : A → Bool) (xs : List A) (a : A) → contains (keep p xs) a ≡ (contains xs a && p a)
  unfolding contains keep
  contains-keep p [] a = refl
  contains-keep p (x ∷ xs) a = ground (arith, contains-keep p xs a)

  pub contains-add :
      (b : A) (xs : List A) (a : A) → contains (add b xs) a ≡ (b == a || contains xs a)
  unfolding contains add
  contains-add b xs a = ground arith

  pub contains-discard :
      (b : A) (xs : List A) (a : A)
      → contains (discard b xs) a ≡ (if b == a then false else contains xs a)
  unfolding discard
  contains-discard b xs a = ground (arith, contains-keep (λ x. not (x == b)) xs a)

  pub contains-union :
      (s t : List A) (a : A) → contains (union s t) a ≡ (contains s a || contains t a)
  unfolding union minus
  contains-union s t a =
      ground (arith, contains-append s (minus t s) a, contains-keep (λ x. not (contains s x)) t a)

  pub contains_self : (a : A) (xs : List A) → contains (a ∷ xs) a ≡ true
  unfolding contains
  contains_self a xs = ground arith

  -- A set without members is the empty list.
  pub nonempty-keep :
      (p : A → Bool) (xs : List A) → nonempty (keep p xs) ≡ not (every (λ x. not (p x)) xs)
  unfolding keep every
  nonempty-keep p [] = refl
  nonempty-keep p (x ∷ xs) = ground (arith, nonempty-keep p xs)

  -- What holds for every member holds for a given one.
  pub every-contains :
      (p : A → Bool) (xs : List A) (a : A) → every p xs ≡ true → contains xs a ≡ true → p a ≡ true
  unfolding every contains
  every-contains p [] a all m = cc
  every-contains p (x ∷ xs) a all m = ground (arith, every-contains p xs a)

  pub every_of_contains :
      (p : A → Bool) (xs : List A)
      → ((a : A) → contains xs a ≡ true → p a ≡ true)
      → every p xs ≡ true
  unfolding every contains
  every_of_contains p [] h = refl
  every_of_contains p (x ∷ xs) h =
      let rest : every p xs ≡ true = every_of_contains p xs (λ a m. h a (ground arith)) in
      ground (arith, h x, rest)

  pub subset-contains :
      (s t : List A) (a : A) → subset s t ≡ true → contains s a ≡ true → contains t a ≡ true
  unfolding subset
  subset-contains s t a h m = every-contains (λ x. contains t x) s a h m

  pub nonempty-minus : (s t : List A) → nonempty (minus s t) ≡ not (subset s t)
  unfolding minus subset
  nonempty-minus [] t = refl
  nonempty-minus (x ∷ s) t = ground (arith, nonempty-minus s t)

  pub subset_of_contains :
      (s t : List A) → ((a : A) → contains s a ≡ true → contains t a ≡ true) → subset s t ≡ true
  unfolding subset
  subset_of_contains s t h = every_of_contains (λ x. contains t x) s h

pub ruleset set_laws =
    (contains-append, contains-keep, contains-add, contains-discard, contains-union)
