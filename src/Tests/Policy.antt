-- ===== src/Tests/Policy.antt =====
-- A policy that extends another one: TinyCTX/modules/shell/policy.py.
use tiny_ctx.Base.{
  ℕ, String, ◌≡◌, refl, Bool, true, false, not, Option, none, some, List, [], ◌∷◌, ◌++◌, map, ◌==◌,
  string_eq, contains, keep, minus, nonempty, inl, inr, subset,
}
use tiny_ctx.Shell.Policy.{
  Rule, Policy, policy_error, several, one, dropped, ids, merge_rules, compile_constructs,
  declare_constructs, is_unconstrained, is_set, is_some,
}
use tiny_ctx.Shell.Policy.Merge.{find_rule, override, merge_rules-override}

-- An allow rule for a command, with at most so many arguments.
abbrev rule : String → ℕ → Rule String
rule c n = record {
  id = c;
  action = "allow";
  message = c;
  command = some (c ∷ []);
  subcommand = none;
  any_flag = none;
  all_flags = none;
  no_operands = false;
  allowed_flags = none;
  arg_matches = none;
  max_args = some n;
  path_under = none;
  path_outside = none;
  redirect_under = none;
}

abbrev base : Policy String
base = record {
  name = "allow.yaml";
  default_action = "deny";
  constructs = ("command", "allow") ∷ ("pipeline", "deny") ∷ [];
  rules = rule "ls" 1 ∷ rule "ps" 2 ∷ rule "cat" 3 ∷ [];
  max_command_bytes = 8192;
}

abbrev own : List (Rule String)
own = rule "ps" 9 ∷ rule "wc" 1 ∷ []

merge_rules-base :
    merge_rules (some base) own ("ps" ∷ "wc" ∷ []) (several ("cat" ∷ []))
    ≡ inr (rule "ls" 1 ∷ rule "ps" 9 ∷ rule "wc" 1 ∷ [])
unfolding merge_rules dropped ids contains keep minus string_eq
merge_rules-base = refl

merge_rules-typo : merge_rules (some base) own ("ps" ∷ "wc" ∷ []) (one "cta") ≡ inl policy_error
unfolding merge_rules dropped ids contains keep minus string_eq
merge_rules-typo = refl

compile_constructs-flips :
    compile_constructs (some (("pipeline", "allow") ∷ [])) (some base)
    ≡ inr (("command", "allow") ∷ ("pipeline", "allow") ∷ [])
unfolding compile_constructs declare_constructs tiny_ctx.Base.Dict.insert string_eq
compile_constructs-flips = refl

is_unconstrained-rule : is_unconstrained (rule "ls" 1) ≡ false
unfolding is_unconstrained is_set is_some
is_unconstrained-rule = refl

merge_rules-override_example :
    ((k : String)
      → find_rule k (rule "ls" 1 ∷ rule "ps" 9 ∷ rule "wc" 1 ∷ [])
        ≡ override k own (dropped (several ("cat" ∷ []))) base.rules)
    × (subset (dropped (several ("cat" ∷ []))) (ids base.rules) ≡ true)
unfolding merge_rules dropped ids contains keep minus string_eq
merge_rules-override_example =
    merge_rules-override base own (several ("cat" ∷ []))
      (rule "ls" 1 ∷ rule "ps" 9 ∷ rule "wc" 1 ∷ []) refl
