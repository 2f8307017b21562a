-- ===== src/Shell/Policy/Merge.antt =====
-- What the rules of a policy are after it extends another.
use tiny_ctx.Base.{
  String, ◌≡◌, refl, ap, ◌∙◌, true, false, not, ◌&&◌, Option, none, some, List, [], ◌∷◌, ◌++◌, ◌==◌,
  if◌then◌else◌, string_eq, contains, keep, inr, arith, subset, nonempty-minus,
}
use tiny_ctx.Shell.Policy.{Rule, Policy, Disable, dropped, ids, merge_rules}

module _ {P : Type 0} where
  -- The rule with an id, the first of them.
  unfoldable pub find_rule : String → List (Rule P) → Option (Rule P)
  find_rule k [] = none
  find_rule k (r ∷ rs) = if r.id == k then some r else find_rule k rs

  -- What a file means by an id: its own rule, else the base's if the file does not disable it.
  unfoldable pub override : String → List (Rule P) → List String → List (Rule P) → Option (Rule P)
  override k own off base =
      if contains (ids own) k
      then find_rule k own
      else if contains off k
      then none
      else find_rule k base

  find_rule-ids :
      (k : String) (xs : List (Rule P)) → contains (ids xs) k ≡ false → find_rule k xs ≡ none
  unfolding find_rule contains ids
  find_rule-ids k [] h = refl
  find_rule-ids k (r ∷ xs) h = ground (arith, find_rule-ids k xs)

  find_rule-keep :
      (k : String) (off own_ids : List String) (xs ys : List (Rule P))
      → find_rule k (keep (λ r. not (contains off r.id) && not (contains own_ids r.id)) xs ++ ys)
        ≡ (if not (contains off k) && not (contains own_ids k)
            then (if contains (ids xs) k then find_rule k xs else find_rule k ys)
            else find_rule k ys)
  unfolding find_rule contains ids keep
  find_rule-keep k off own_ids [] ys = ground arith
  find_rule-keep k off own_ids (r ∷ xs) ys = ground (arith, find_rule-keep k off own_ids xs ys)

  -- The rules of a merge that succeeds, and what `disable` held then.
  merge_rules-inr :
      (base : Policy P) (own : List (Rule P)) (own_ids : List String) (disable : Disable)
      (rules : List (Rule P))
      → merge_rules (some base) own own_ids disable ≡ inr rules
      → (rules ≡ (
          keep
            (λ r. not (contains (dropped disable) r.id) && not (contains own_ids r.id))
            base.rules
          ++ own))
        × (subset (dropped disable) (ids base.rules) ≡ true)
  unfolding merge_rules
  merge_rules-inr base own own_ids disable rules h =
      ground (arith, nonempty-minus (dropped disable) (ids base.rules))

  -- Where the merge over a base succeeds, each id means what the file means by it, and each disabled
  -- id was a rule of the base.
  pub merge_rules-override :
      (base : Policy P) (own : List (Rule P)) (disable : Disable) (rules : List (Rule P))
      → merge_rules (some base) own (ids own) disable ≡ inr rules
      → ((k : String) → find_rule k rules ≡ override k own (dropped disable) base.rules)
        × (subset (dropped disable) (ids base.rules) ≡ true)
  unfolding override
  merge_rules-override base own disable rules h =
      let (same, off) = merge_rules-inr base own (ids own) disable rules h in
      (
        (λ k.
            ap (find_rule k) same
            ∙ ground (
              arith,
              find_rule-keep k (dropped disable) (ids own) base.rules own,
              find_rule-ids k own,
              find_rule-ids k base.rules,
            )),
        off,
      )
