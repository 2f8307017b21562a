-- ===== src/Base/Dict.antt =====
-- Python's dicts, as association lists in insertion order.
use mathlib.Core.Path.{◌≡◌, refl}
use mathlib.Core.Bool.{Bool, true, false, ◌&&◌}
use mathlib.Core.Option.{Option, none, some}
use mathlib.Core.List.{List, [], ◌∷◌}
use native.Mathlib.Omega.{arith}
use tiny_ctx.Base.Equality.{Eq, ◌==◌, if◌then◌else◌}

abbrev pub Dict {ℓ κ} : Type ℓ → Type κ → Type (ℓ ⊔ κ)
Dict K V = List (K × V)

module _ {ℓ κ} {K : Type ℓ} {V : Type κ} ⦃e : Eq K⦄ where
  -- `d.get(k)`
  unfoldable pub lookup : K → Dict K V → Option V
  lookup k [] = none
  lookup k ((j, v) ∷ d) = if j == k then some v else lookup k d

  -- `d[k] = v`
  unfoldable pub insert : K → V → Dict K V → Dict K V
  insert k v [] = (k, v) ∷ []
  insert k v ((j, w) ∷ d) = if j == k then (j, v) ∷ d else (j, w) ∷ insert k v d

  -- `d.pop(k, None)`
  unfoldable pub erase : K → Dict K V → Dict K V
  erase k [] = []
  erase k ((j, w) ∷ d) = let rest = erase k d in if j == k then rest else (j, w) ∷ rest

  -- `k in d`
  abbrev pub has_key : K → Dict K V → Bool
  has_key k d = elim (lookup k d) [ none ↦ false | some _ ↦ true ]

  -- A dict has a key at most once.
  abbrev pub IsDict : Dict K V → Type κ
  IsDict [] = Unit
  IsDict ((k, _) ∷ d) = (lookup k d ≡ none) × IsDict d

  pub lookup-insert :
      (j k : K) (v : V) (d : Dict K V)
      → lookup j (insert k v d) ≡ (if k == j then some v else lookup j d)
  unfolding insert lookup
  lookup-insert j k v [] = refl
  lookup-insert j k v (_ ∷ d) = ground (arith, lookup-insert j k v d)

  pub lookup-erase :
      (j k : K) (d : Dict K V) → lookup j (erase k d) ≡ (if k == j then none else lookup j d)
  unfolding erase lookup
  lookup-erase j k [] = ground arith
  lookup-erase j k (_ ∷ d) = ground (arith, lookup-erase j k d)

  pub insert-IsDict : (k : K) (v : V) (d : Dict K V) → IsDict d → IsDict (insert k v d)
  unfolding insert lookup
  insert-IsDict k v [] _ = (refl, tt)
  insert-IsDict k v ((j, _) ∷ d) (fresh, u) =
      ground (arith, insert-IsDict k v d u, lookup-insert j k v d)

  -- `all(q(v) for v in d.values())`
  unfoldable pub every_value : (V → Bool) → Dict K V → Bool
  every_value q [] = true
  every_value q ((k, v) ∷ d) = q v && every_value q d

  pub every_value-insert :
      (q : V → Bool) (k : K) (v : V) (d : Dict K V)
      → q v ≡ true
      → every_value q d ≡ true
      → every_value q (insert k v d) ≡ true
  unfolding every_value insert
  every_value-insert q k v [] h all = ground arith
  every_value-insert q k v (_ ∷ d) h all = ground (arith, every_value-insert q k v d h)

  pub every_value-erase :
      (q : V → Bool) (k : K) (d : Dict K V)
      → every_value q d ≡ true
      → every_value q (erase k d) ≡ true
  unfolding every_value erase
  every_value-erase q k [] all = refl
  every_value-erase q k (_ ∷ d) all = ground (arith, every_value-erase q k d)

  pub every_value-lookup :
      (q : V → Bool) (k : K) (v : V) (d : Dict K V)
      → every_value q d ≡ true
      → lookup k d ≡ some v
      → q v ≡ true
  unfolding every_value lookup
  every_value-lookup q k v [] all h = ground arith
  every_value-lookup q k v ((j, w) ∷ d) all h = ground (arith, every_value-lookup q k v d)

  pub every_value_mono :
      (p q : V → Bool) (d : Dict K V)
      → ((v : V) → p v ≡ true → q v ≡ true)
      → every_value p d ≡ true
      → every_value q d ≡ true
  unfolding every_value
  every_value_mono p q [] imp all = refl
  every_value_mono p q ((j, w) ∷ d) imp all =
      let here = imp w in ground (arith, every_value_mono p q d imp)

pub ruleset dict_laws = (lookup-insert, lookup-erase)
