-- ===== src/Tests/Specs.antt =====
-- A table of two commands, the second under two names.
use tiny_ctx.Base.{String, ◌≡◌, refl, List, [], ◌∷◌, none, string_eq, contains}
use tiny_ctx.Base.Dict.{lookup, insert}
use tiny_ctx.Shell.Specs.{
  CommandSpec, Table, compiled, has_duplicate, merge_entries, claim_names, claim_all,
  merge_worst_case, compile,
}
use tiny_ctx.Shell.Specs.Claims.{Owned, compile-Owned}

abbrev spec : String → List String → CommandSpec
spec id names = record {
  id = id;
  names = names;
  permissions = [];
  if_operands = [];
  operand_prefix = [];
  subcommands = [];
  subcommand_default = [];
  rules = [];
  known_flags = [];
}

abbrev grep : CommandSpec
grep = spec "grep" ("grep" ∷ "egrep" ∷ [])

abbrev ls : CommandSpec
ls = spec "ls" ("ls" ∷ [])

abbrev small_table : Table
small_table = record {
  by_name = ("ls", ls) ∷ ("grep", grep) ∷ ("egrep", grep) ∷ [];
  worst_case = [];
}

compile_small : compile none (ls ∷ grep ∷ []) none [] ≡ compiled small_table
unfolding compile has_duplicate merge_entries claim_all claim_names merge_worst_case contains lookup
    insert string_eq
compile_small = refl

compile-Owned_example :
    (merged : List CommandSpec) × ((merge_entries none (ls ∷ grep ∷ []) none ≡ compiled merged)
      × Owned merged small_table.by_name)
compile-Owned_example = compile-Owned none (ls ∷ grep ∷ []) none [] small_table compile_small
