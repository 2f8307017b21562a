-- ===== src/Shell/Specs.antt =====
-- The compiled table of TinyCTX/modules/shell/perms.py: an entry of a command, and the merge of a
-- file over the one that it extends (`_compile`, from the compiled entries on).
pub mod Claims
use tiny_ctx.Base.{
  String, Bool, true, false, not, ◌&&◌, List, [], ◌∷◌, ◌++◌, Option, none, some, ◌==◌, string_eq,
  if◌then◌else◌, contains, keep, nonempty, every,
}
use tiny_ctx.Base.Dict.{Dict, lookup, insert, has_key}
use tiny_ctx.Permissions.{Permission}

-- `_Rule`
pub record Rule : Type 0 where
  pub any_flag : List String
  pub operand_in : List String
  pub added : List Permission

-- `_CommandSpec`
pub record CommandSpec : Type 0 where
  pub id : String
  pub names : List String
  pub permissions : List Permission
  pub if_operands : List Permission
  pub operand_prefix : Dict String (List Permission)
  pub subcommands : Dict String (List Permission)
  pub subcommand_default : List Permission
  pub rules : List Rule
  pub known_flags : List String

-- `_Table`
pub record Table : Type 0 where
  pub by_name : Dict String CommandSpec
  pub worst_case : Dict String (List Permission)

-- The ways in which `_compile` refuses a file at this point; each raises `PolicyError`.
pub data PolicyError : Type 0 where
  duplicate_id disable_without_extends unknown_disabled claimed_twice : PolicyError

pub data Compiled (T : Type 0) : Type 0 where
  compiled : T → Compiled T
  rejected : PolicyError → Compiled T

-- The first rejection ends the compilation.
infixl 6 ◌>>=◌
abbrev pub ◌>>=◌ : {S T : Type 0} → Compiled S → (S → Compiled T) → Compiled T
◌>>=◌ m next = elim m [ compiled x ↦ next x | rejected why ↦ rejected why ]

-- The loop over `own_entries` that looks for a repeated id.
unfoldable pub has_duplicate : List CommandSpec → List String → Bool
has_duplicate [] seen = false
has_duplicate (e ∷ es) seen =
    let rest = has_duplicate es (e.id ∷ seen) in if contains seen e.id then true else rest

-- `base_by_id`: the entries of the base under their ids, an entry of several names once
unfoldable pub by_id : Dict String CommandSpec → Dict String CommandSpec → Dict String CommandSpec
by_id [] acc = acc
by_id ((name, spec) ∷ d) acc = by_id d (insert spec.id spec acc)

-- the values of a dict, in its order
unfoldable pub values : Dict String CommandSpec → List CommandSpec
values [] = []
values ((_, spec) ∷ d) = spec ∷ values d

unfoldable pub ids : List CommandSpec → List String
ids [] = []
ids (e ∷ es) = e.id ∷ ids es

-- The entries of a file over those of its base; `disable` is what the file lists.
unfoldable pub merge_entries :
    Option Table → List CommandSpec → Option (List String) → Compiled (List CommandSpec)
merge_entries none own none = compiled own
merge_entries none own (some dropped) =
    if nonempty dropped then rejected disable_without_extends else compiled own
merge_entries (some base) own disable =
    let base_by_id = by_id base.by_name [] in
    let dropped : List String = elim disable [ none ↦ [] | some d ↦ d ] in
    if every (λ d. has_key d base_by_id) dropped
    then compiled (
        keep (λ e. not (contains dropped e.id) && not (contains (ids own) e.id)) (values base_by_id)
        ++ own)
    else rejected unknown_disabled

-- The inner loop over the names of one entry: a name stays with the id that claimed it first.
unfoldable pub claim_names :
    CommandSpec → List String → Dict String CommandSpec → Compiled (Dict String CommandSpec)
claim_names spec [] d = compiled d
claim_names spec (name ∷ names) d =
    let rest = claim_names spec names (insert name spec d) in
    elim (lookup name d) [
      | none ↦ rest
      | some other ↦ if other.id == spec.id then rest else rejected claimed_twice
    ]

unfoldable pub claim_all :
    List CommandSpec → Dict String CommandSpec → Compiled (Dict String CommandSpec)
claim_all [] d = compiled d
claim_all (spec ∷ specs) d = do d' ← claim_names spec spec.names d; claim_all specs d'

-- `worst_case[str(name)] = ...` over the file's own section
unfoldable pub merge_worst_case :
    Dict String (List Permission) → Dict String (List Permission) → Dict String (List Permission)
merge_worst_case base [] = base
merge_worst_case base ((name, perms) ∷ own) = merge_worst_case (insert name perms base) own

-- `_compile` from the compiled entries on.
unfoldable pub compile :
    Option Table
    → List CommandSpec
    → Option (List String)
    → Dict String (List Permission)
    → Compiled Table
compile base own disable worst_case = if has_duplicate own [] then rejected duplicate_id else do
  merged ← merge_entries base own disable
  by_name ← claim_all merged []
  compiled (record {
    by_name = by_name;
    worst_case = merge_worst_case (elim base [ none ↦ [] | some b ↦ b.worst_case ]) worst_case;
  })
