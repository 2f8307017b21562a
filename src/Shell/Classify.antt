-- ===== src/Shell/Classify.antt =====
-- The classification of a command line: `classify` and `required_permissions_for_shell` of
-- TinyCTX/modules/shell/perms.py. The theorems are in Shell/Classify/FailClosed and
-- Shell/Classify/CommandLine.
pub mod FailClosed
pub mod CommandLine
use tiny_ctx.Base.{
  String, Bool, true, false, not, ◌&&◌, ◌||◌, List, [], ◌∷◌, ◌++◌, Option, none, some, ◌==◌,
  string_eq, if◌then◌else◌, contains, exists, keep, nonempty, union, starts_with,
}
use tiny_ctx.Base.Dict.{Dict, lookup}
use tiny_ctx.Permissions.{Permission, permission_eq, root, untrusted_exec, file_write, backend_exec}
use tiny_ctx.Shell.Tree.{Node, Constructs, first_denied_construct}
use tiny_ctx.Shell.Commands.{Command, subcommand, extract}
use tiny_ctx.Shell.Specs.{Rule, CommandSpec, Table}

-- `str.lower` and `str.upper`
pub record Letters : Type 0 where
  pub lower : String → String
  pub upper : String → String

-- What the module loads at import: the table and the constructs of the shape policy, or `none`
-- after a `PolicyError`.
pub record Loaded : Type 0 where
  pub table : Option Table
  pub constructs : Option Constructs

-- `accounted` of `_unaccounted_flags`: the known flags, `--help`, and the flags of the rules
unfoldable pub rule_flags : List Rule → List String
rule_flags [] = []
rule_flags (r ∷ rs) = r.any_flag ++ rule_flags rs

unfoldable pub accounted : CommandSpec → List String
accounted spec = (spec.known_flags ++ "--help" ∷ []) ++ rule_flags spec.rules

unfoldable pub unaccounted_flags : CommandSpec → Command → List String
unaccounted_flags spec cmd = keep (λ f. not (contains (accounted spec) f)) cmd.flags

-- `spec.subcommand.get(sub, spec.subcommand_default)`, if the entry has subcommands
unfoldable pub subcommand_part : Letters → CommandSpec → Command → List Permission
subcommand_part letters spec cmd =
    if nonempty spec.subcommands
    then elim (lookup (letters.lower (elim (subcommand cmd) [ none ↦ "" | some s ↦ s ]))
        spec.subcommands) [ none ↦ spec.subcommand_default | some perms ↦ perms ]
    else []

unfoldable pub operands_part : CommandSpec → Command → List Permission
operands_part spec cmd = if nonempty cmd.operands then spec.if_operands else []

-- the loop over `operand_prefix`
unfoldable pub prefix_part : Dict String (List Permission) → Command → List Permission
prefix_part [] cmd = []
prefix_part ((prefix, perms) ∷ d) cmd =
    let rest = prefix_part d cmd in
    if exists (λ op. starts_with op prefix) cmd.operands then perms ++ rest else rest

-- `flag_ok and operand_ok`
unfoldable pub rule_fires : Letters → Rule → Command → Bool
rule_fires letters rule cmd =
    (not (nonempty rule.any_flag) || exists (contains rule.any_flag) cmd.flags)
    && (not (nonempty rule.operand_in)
        || exists (λ op. contains rule.operand_in (letters.upper op)) cmd.operands)

-- the loop over `rules`
unfoldable pub rules_part : Letters → List Rule → Command → List Permission
rules_part letters [] cmd = []
rules_part letters (r ∷ rs) cmd =
    let rest = rules_part letters rs cmd in
    if rule_fires letters r cmd then r.added ++ rest else rest

-- the worst case for flags that the entry does not account for
unfoldable pub flags_part : CommandSpec → Command → List Permission
flags_part spec cmd = if nonempty (unaccounted_flags spec cmd) then untrusted_exec ∷ [] else []

-- `_eval_spec`
unfoldable pub eval_spec : Letters → CommandSpec → Command → List Permission
eval_spec letters spec cmd =
    spec.permissions
    ++ (subcommand_part letters spec cmd
        ++ (operands_part spec cmd
            ++ (prefix_part spec.operand_prefix cmd
                ++ (rules_part letters spec.rules cmd ++ flags_part spec cmd))))

-- The base permissions of a named command: those of its entry, or the worst case.
unfoldable pub base_of : Letters → Table → String → Command → List Permission
base_of letters table name cmd = elim (lookup name table.by_name) [
  | none ↦ untrusted_exec ∷ []
  | some spec ↦ eval_spec letters spec cmd
]

unfoldable pub redirects_part : Command → List Permission
redirects_part cmd = if nonempty cmd.redirects then file_write ∷ [] else []

unfoldable pub dynamic_part : Table → String → Command → List Permission
dynamic_part table name cmd =
    if cmd.dynamic
    then elim (lookup name table.worst_case) [
      | none ↦ untrusted_exec ∷ []
      | some perms ↦ perms ++ untrusted_exec ∷ []
    ]
    else []

-- `classify`, once the files are loaded
unfoldable pub classify_with : Letters → Table → Command → List Permission
classify_with letters table cmd = elim cmd.name [
  | none ↦ untrusted_exec ∷ []
  | some name ↦
      base_of letters table name cmd ++ (redirects_part cmd ++ dynamic_part table name cmd)
]

-- `needed |= classify(cmd)` over the commands
unfoldable pub classify_all : Letters → Table → List Command → List Permission
classify_all letters table [] = []
classify_all letters table (cmd ∷ cmds) =
    classify_with letters table cmd ++ classify_all letters table cmds

unfoldable pub shape_part : Constructs → Node → List Permission
shape_part constructs tree = elim (first_denied_construct constructs tree) [
  | none ↦ []
  | some _ ↦ untrusted_exec ∷ []
]

-- `required_permissions_for_shell` for loaded files; the tree is `none` where the line is empty or
-- does not parse
unfoldable pub required_with : Letters → Table → Constructs → Option Node → Bool → List Permission
required_with letters table constructs none backend_access = untrusted_exec ∷ []
required_with letters table constructs (some tree) backend_access =
    shape_part constructs tree
    ++ (classify_all letters table (extract letters.lower tree)
        ++ (if backend_access then backend_exec ∷ [] else []))

-- Either file missing is the load error, under which every command needs root.
unfoldable pub required_permissions_for_shell :
    Letters → Loaded → Option Node → Bool → List Permission
required_permissions_for_shell letters loaded tree backend_access = elim loaded.table [
  | none ↦ root ∷ []
  | some table ↦ elim loaded.constructs [
    | none ↦ root ∷ []
    | some constructs ↦ required_with letters table constructs tree backend_access
  ]
]
