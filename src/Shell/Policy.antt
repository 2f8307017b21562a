-- ===== src/Shell/Policy.antt =====
-- TinyCTX/modules/shell/policy.py: the rules and constructs of a policy that extends another. A
-- compiled regular expression is of a type that the model leaves open. A policy error is a value,
-- without the text of its message.
pub mod Merge
use tiny_ctx.Base.{
  ℕ, String, Bool, true, false, not, ◌&&◌, ◌||◌, Option, none, some, List, [], ◌∷◌, ◌++◌, map, ◌==◌,
  if◌then◌else◌, string_eq, contains, keep, minus, nonempty, ◌⊎◌, inl, inr,
}
use tiny_ctx.Base.Dict.{Dict, insert}

pub data PolicyError : Type 0 where
  policy_error : PolicyError

-- `Rule`; P is the type of compiled patterns.
pub record Rule (P : Type 0) : Type 0 where
  pub id : String
  pub action : String
  pub message : String
  pub command : Option (List String)
  pub subcommand : Option (List String)
  pub any_flag : Option (List String)
  pub all_flags : Option (List String)
  pub no_operands : Bool
  pub allowed_flags : Option (List String)
  pub arg_matches : Option P
  pub max_args : Option ℕ
  pub path_under : Option (List String)
  pub path_outside : Option (List String)
  pub redirect_under : Option (List String)

pub record Policy (P : Type 0) : Type 0 where
  pub name : String
  pub default_action : String
  pub constructs : Dict String String
  pub rules : List (Rule P)
  pub max_command_bytes : ℕ

-- The value of `disable:` in a file.
pub data Disable : Type 0 where
  absent : Disable
  one : String → Disable
  several : List String → Disable

-- `if disable`
unfoldable pub is_given : Disable → Bool
is_given absent = false
is_given (one d) = not (d == "")
is_given (several ds) = nonempty ds

-- `dropped`
unfoldable pub dropped : Disable → List String
dropped absent = []
dropped (one d) = d ∷ []
dropped (several ds) = ds

-- `out[str(node_type)] = value`, for each declared construct
unfoldable pub declare_constructs :
    Dict String String → Dict String String → PolicyError ⊎ Dict String String
declare_constructs [] out = inr out
declare_constructs ((node_type, value) ∷ raw) out =
    let rest = declare_constructs raw (insert node_type value out) in
    if value == "allow" || value == "deny" then rest else inl policy_error

-- `any` of a field that is a set, a tuple or None
unfoldable pub is_set : Option (List String) → Bool
is_set none = false
is_set (some xs) = nonempty xs

unfoldable pub is_some {ℓ} : {A : Type ℓ} → Option A → Bool
is_some none = false
is_some (some _) = true

module _ {P : Type 0} where
  unfoldable pub ids : List (Rule P) → List String
  ids rs = map (λ r. r.id) rs

  unfoldable pub merge_rules :
      Option (Policy P) → List (Rule P) → List String → Disable → PolicyError ⊎ List (Rule P)
  merge_rules none own own_ids disable = if is_given disable then inl policy_error else inr own
  merge_rules (some base) own own_ids disable =
      if nonempty (minus (dropped disable) (ids base.rules))
      then inl policy_error
      else inr (
          keep (λ r. not (contains (dropped disable) r.id) && not (contains own_ids r.id))
            base.rules
          ++ own)

  -- `_compile_constructs`, where the file's entry is a mapping or is missing
  unfoldable pub compile_constructs :
      Option (Dict String String) → Option (Policy P) → PolicyError ⊎ Dict String String
  compile_constructs none (some base) = inr base.constructs
  compile_constructs none none = inl policy_error
  compile_constructs (some []) base = inl policy_error
  compile_constructs (some (c ∷ raw)) none = declare_constructs (c ∷ raw) []
  compile_constructs (some (c ∷ raw)) (some base) = declare_constructs (c ∷ raw) base.constructs

  unfoldable pub is_unconstrained : Rule P → Bool
  is_unconstrained r = not (
      is_set r.command
      || is_set r.subcommand
      || is_set r.any_flag
      || is_set r.all_flags
      || r.no_operands
      || is_some r.allowed_flags
      || is_some r.arg_matches
      || is_some r.max_args
      || is_set r.path_under
      || is_set r.path_outside
      || is_set r.redirect_under)
