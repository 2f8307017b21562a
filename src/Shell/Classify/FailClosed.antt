-- ===== src/Shell/Classify/FailClosed.antt =====
-- A command that is not fully understood needs untrusted_exec.
use tiny_ctx.Base.{
  String, ◌≡◌, refl, true, false, not, List, [], ◌∷◌, ◌++◌, Option, none, some, string_eq, contains,
  contains-append, contains-keep, nonempty, arith, Option-cases, inl, inr,
}
use tiny_ctx.Base.Dict.{lookup}
use tiny_ctx.Permissions.{permission_eq, untrusted_exec, file_write}
use tiny_ctx.Shell.Commands.{Command}
use tiny_ctx.Shell.Specs.{CommandSpec, Table}
use tiny_ctx.Shell.Classify.{
  Letters, accounted, unaccounted_flags, flags_part, subcommand_part, operands_part, prefix_part,
  rules_part, eval_spec, base_of, redirects_part, dynamic_part, classify_with,
}

-- The table knows the command and every flag on it, and none of its arguments is dynamic.
pub record Vetted (table : Table) (cmd : Command) : Type 0 where
  pub name : String
  pub named : cmd.name ≡ some name
  pub spec : CommandSpec
  pub listed : lookup name table.by_name ≡ some spec
  pub static : cmd.dynamic ≡ false
  pub flags : (f : String) → contains cmd.flags f ≡ true → contains (accounted spec) f ≡ true

contains-empty : (xs : List String) (f : String) → nonempty xs ≡ false → contains xs f ≡ false
unfolding contains
contains-empty [] f h = refl
contains-empty (x ∷ xs) f h = cc

-- Without untrusted_exec the entry accounts for each flag.
eval_spec-accounts :
    (letters : Letters) (spec : CommandSpec) (cmd : Command) (f : String)
    → contains (eval_spec letters spec cmd) untrusted_exec ≡ false
    → contains cmd.flags f ≡ true
    → contains (accounted spec) f ≡ true
unfolding eval_spec flags_part unaccounted_flags contains permission_eq
eval_spec-accounts letters spec cmd f h m =
    let known : nonempty (unaccounted_flags spec cmd) ≡ false = ground (
      arith,
      contains-append spec.permissions
          (subcommand_part letters spec cmd
            ++ (operands_part spec cmd
                ++ (prefix_part spec.operand_prefix cmd
                    ++ (rules_part letters spec.rules cmd ++ flags_part spec cmd))))
          untrusted_exec,
      contains-append (subcommand_part letters spec cmd)
          (operands_part spec cmd
            ++ (prefix_part spec.operand_prefix cmd
                ++ (rules_part letters spec.rules cmd ++ flags_part spec cmd)))
          untrusted_exec,
      contains-append (operands_part spec cmd)
          (prefix_part spec.operand_prefix cmd
            ++ (rules_part letters spec.rules cmd ++ flags_part spec cmd))
          untrusted_exec,
      contains-append (prefix_part spec.operand_prefix cmd)
          (rules_part letters spec.rules cmd ++ flags_part spec cmd) untrusted_exec,
      contains-append (rules_part letters spec.rules cmd) (flags_part spec cmd) untrusted_exec,
    ) in
    ground (
      arith,
      contains-empty (unaccounted_flags spec cmd) f known,
      contains-keep (λ g. not (contains (accounted spec) g)) cmd.flags f,
    )

-- The part for dynamic arguments holds untrusted_exec exactly if there is one.
contains-dynamic_part :
    (table : Table) (name : String) (cmd : Command)
    → contains (dynamic_part table name cmd) untrusted_exec ≡ cmd.dynamic
unfolding dynamic_part contains permission_eq
contains-dynamic_part table name cmd = elim (Option-cases (lookup name table.worst_case)) [
  | inl e ↦ ground arith
  | inr (perms, e) ↦ ground (arith, contains-append perms (untrusted_exec ∷ []) untrusted_exec)
]

-- A command that does not need untrusted_exec is known to the table, has only flags that its entry
-- accounts for, and has no dynamic argument.
pub classify_with-Vetted :
    (letters : Letters) (table : Table) (cmd : Command)
    → contains (classify_with letters table cmd) untrusted_exec ≡ false
    → Vetted table cmd
unfolding classify_with base_of contains permission_eq
classify_with-Vetted letters table cmd h = go cmd.name refl
  where
    go_spec :
        (name : String) (o : Option CommandSpec)
        → cmd.name ≡ some name
        → lookup name table.by_name ≡ o
        → Vetted table cmd
    go_spec name none e f = absurd (
        ground (
          arith,
          contains-append (base_of letters table name cmd)
              (redirects_part cmd ++ dynamic_part table name cmd) untrusted_exec,
        ))
    go_spec name (some spec) e f =
        let parts =
          contains-append (eval_spec letters spec cmd)
            (redirects_part cmd ++ dynamic_part table name cmd) untrusted_exec in
        let rest =
          contains-append (redirects_part cmd) (dynamic_part table name cmd) untrusted_exec in
        record {
          name = name;
          named = e;
          spec = spec;
          listed = f;
          static = ground (arith, parts, rest, contains-dynamic_part table name cmd);
          flags = λ g m. eval_spec-accounts letters spec cmd g (ground (arith, parts, rest)) m;
        }

    go : (o : Option String) → cmd.name ≡ o → Vetted table cmd
    go none e = absurd (ground arith)
    go (some name) e = go_spec name (lookup name table.by_name) e refl

-- A redirect on a command with a literal name needs file_write, whatever the command is.
pub classify_with-redirects :
    (letters : Letters) (table : Table) (cmd : Command) (name : String)
    → cmd.name ≡ some name
    → nonempty cmd.redirects ≡ true
    → contains (classify_with letters table cmd) file_write ≡ true
unfolding classify_with redirects_part contains permission_eq
classify_with-redirects letters table cmd name e h = ground (
  arith,
  contains-append (base_of letters table name cmd)
      (redirects_part cmd ++ dynamic_part table name cmd) file_write,
  contains-append (redirects_part cmd) (dynamic_part table name cmd) file_write,
)
