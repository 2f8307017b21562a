-- ===== src/Tests/Shell.antt =====
-- The command line `ls -l` and a table that knows it.
use tiny_ctx.Base.{
  String, ℕ, suc, ◌≡◌, refl, true, false, [], ◌∷◌, Option, none, some, ◌==◌, string_eq, nat_eq,
  contains, add, union, minus, keep, exists, arith,
}
use tiny_ctx.Base.Dict.{lookup}
use tiny_ctx.Permissions.{
  Permission, permission_eq, file_read, file_write, root, untrusted_exec, expand, of_value, value,
}
use tiny_ctx.Permissions.Expansion.{contains-expand}
use tiny_ctx.Users.Models
use tiny_ctx.Users.Models.{
  User, PermissionsConfig, has_permission, effective_permissions, apply_override,
}
use tiny_ctx.Tools.Values.{Args, str, Builtins, Cast, object}
use tiny_ctx.Tools.Coerce.{coerce_args, coerce_value}
use tiny_ctx.Tools.Registry.{Ran, returned, classifier, Tool, Handler, make_tool}
use tiny_ctx.Tools.Execute.{Call, parsed, callable, permissions_cfg, read_arguments}
use tiny_ctx.Tools.Execute.Guard.{Cleared, Authorised}
use tiny_ctx.Shell.Tree.{
  Node, node, nil, cons, to_list, walk, type, is_named, Constructs, is_allowed, denied_node,
  first_denied, first_denied_construct,
}
use tiny_ctx.Shell.Tree.Inside.{here, below, first, later, first_denied_construct-none}
use tiny_ctx.Shell.Commands
use tiny_ctx.Shell.Commands.{Command, command_at, extract}
use tiny_ctx.Shell.Specs.{CommandSpec, Table}
use tiny_ctx.Shell.Classify
use tiny_ctx.Shell.Classify.{Letters, Loaded, classify_with, required_permissions_for_shell}
use tiny_ctx.Shell.Classify.FailClosed.{Vetted, classify_with-Vetted}
use tiny_ctx.Shell.Classify.CommandLine.{LineVetted, required_permissions_for_shell-LineVetted}
use tiny_ctx.Shell.Gate.{
  shell_classifier, needed_for, backend_of, CallVetted, shell_call-CallVetted,
}

abbrev letters : Letters
letters = record { lower = λ s. s; upper = λ s. s }

abbrev ls_spec : CommandSpec
ls_spec = record {
  id = "ls";
  names = "ls" ∷ [];
  permissions = file_read ∷ [];
  if_operands = [];
  operand_prefix = [];
  subcommands = [];
  subcommand_default = [];
  rules = [];
  known_flags = "-l" ∷ [];
}

abbrev table : Table
table = record { by_name = ("ls", ls_spec) ∷ []; worst_case = [] }

abbrev constructs : Constructs
constructs =
    ("program", "allow")
    ∷ ("command", "allow")
    ∷ ("command_name", "allow")
    ∷ ("word", "allow")
    ∷ ("redirected_statement", "allow")
    ∷ ("file_redirect", "allow")
    ∷ []

abbrev loaded : Loaded
loaded = record { table = some table; constructs = some constructs }

abbrev word : ℕ → String → Node
word i s = node i "word" "" true s nil

-- the command `ls -l`, with its name in the field `name`
abbrev ls_command : Node
ls_command = node 1 "command" "" true "ls -l" (
    cons (node 2 "command_name" "name" true "ls" (cons (word 3 "ls") nil)) (cons (word 4 "-l") nil))

abbrev ls_line : Node
ls_line = node 0 "program" "" true "ls -l" (cons ls_command nil)

-- `ls -l > out`
abbrev redirect_line : Node
redirect_line = node 5 "program" "" true "ls -l > out" (
    cons
      (node 6 "redirected_statement" "" true "ls -l > out" (
        cons ls_command
          (cons (node 7 "file_redirect" "" true "> out" (cons (word 8 "out") nil)) nil)))
      nil)

run : Unit {0}
unfolding to_list walk exists keep contains minus string_eq nat_eq lookup permission_eq
    Commands.subcommand Commands.expansion_types Commands.quoted_types Commands.find_first
    Commands.last Commands.literal Commands.is_dynamic Commands.redirect_target Commands.targets_of
    Commands.redirects_for Commands.name_node Commands.command_name Commands.is_skipped
    Commands.is_operand Commands.build_step Commands.build_loop Commands.build command_at extract
    Commands.Text.last_segment Commands.Text.dash_atoms Commands.Text.has_glob
    Commands.Text.before_equals union add Classify.rule_flags Classify.accounted
    Classify.unaccounted_flags Classify.subcommand_part Classify.operands_part Classify.prefix_part
    Classify.rules_part Classify.rule_fires Classify.flags_part Classify.eval_spec Classify.base_of
    Classify.redirects_part Classify.dynamic_part classify_with Classify.classify_all
    Classify.shape_part Classify.required_with required_permissions_for_shell is_allowed denied_node
    first_denied first_denied_construct
run = tt

ls_needs : required_permissions_for_shell letters loaded (some ls_line) false ≡ file_read ∷ []
unfolding run
ls_needs = refl

redirect_needs :
    required_permissions_for_shell letters loaded (some redirect_line) false
    ≡ file_read ∷ file_write ∷ []
unfolding run
redirect_needs = refl

required_permissions_for_shell-LineVetted_example : LineVetted letters loaded (some ls_line)
unfolding run
required_permissions_for_shell-LineVetted_example =
    required_permissions_for_shell-LineVetted letters loaded (some ls_line) false refl refl

classify_with-Vetted_example : Vetted table (command_at letters.lower ls_line ls_command)
unfolding run
classify_with-Vetted_example =
    classify_with-Vetted letters table (command_at letters.lower ls_line ls_command) refl

first_denied_construct-none_example :
    (is_named (word 4 "-l") ≡ true → is_allowed constructs (type (word 4 "-l")) ≡ true)
    × (is_named (word 4 "-l") ≡ false
        → (type (word 4 "-l") == "&") ≡ true
        → is_allowed constructs "background" ≡ true)
unfolding run
first_denied_construct-none_example =
    first_denied_construct-none constructs {n = word 4 "-l"} {root = ls_line} refl
      (below (first (below (later (first (here refl))))))

-- The builtins: a text is kept, and `loads` is not called.
abbrev py : Builtins
py = record {
  to_int = λ v. Cast.value v;
  to_float = λ v. Cast.value v;
  to_str = λ v. Cast.value v;
  truthy = λ v. true;
  strip_lower = λ s. s;
  loads = λ s. object [];
}

-- Every line parses to `ls -l`.
abbrev parse : String → Option Node
parse s = some ls_line

abbrev count_run : Args → ℕ → Ran × ℕ
count_run args n = (returned (str "done"), suc n)

abbrev shell_tool : Tool ℕ
shell_tool =
    make_tool count_run "runs a command" [] (classifier (shell_classifier py letters loaded parse))
      none

abbrev handler : Handler ℕ
handler = record {
  tools = ("shell", shell_tool) ∷ [];
  enabled = "shell" ∷ [];
  auto_enabled = [];
  permissions_config = none;
}

abbrev reader : User
reader = record {
  username = "alice";
  identities = [];
  meta = [];
  created_at = 0;
  permission_overrides = ("file_read", true) ∷ [];
}

abbrev line_args : Args
line_args = ("command", str "ls -l") ∷ []

abbrev call : Call
call = record { function_name = some "shell"; arguments = parsed line_args }

users : Unit {0}
unfolding has_permission effective_permissions permissions_cfg Models.apply_overrides apply_override
    of_value value add contains string_eq permission_eq
users = tt

reader_reads : has_permission reader file_read (permissions_cfg none) ≡ true
unfolding users
reader_reads = refl

reader_not_root : has_permission reader root (permissions_cfg none) ≡ false
unfolding users
reader_not_root = refl

reader_not_trusted : has_permission reader untrusted_exec (permissions_cfg none) ≡ false
unfolding users
reader_not_trusted = refl

reads_only :
    (p : Permission)
    → contains (expand (file_read ∷ [])) p ≡ true
    → has_permission reader p (permissions_cfg none) ≡ true
unfolding contains permission_eq
reads_only p m = ground (arith, contains-expand (file_read ∷ []) p, reader_reads)

line_classified : shell_classifier py letters loaded parse line_args ≡ some (file_read ∷ [])
unfolding run shell_classifier needed_for backend_of
line_classified = refl

cleared : Cleared py (permissions_cfg none) reader shell_tool (parsed line_args)
unfolding read_arguments coerce_args coerce_value lookup make_tool
cleared = record {
  raw = line_args;
  read = refl;
  args = line_args;
  coerced = refl;
  permitted = (file_read ∷ [], line_classified, reads_only);
}

authorised : Authorised py handler call reader
unfolding lookup callable contains string_eq
authorised = record {
  name = "shell";
  named = refl;
  not_empty = refl;
  tool = shell_tool;
  registered = refl;
  is_callable = refl;
  cleared = cleared;
}

shell_gate : (shell_tool).required_permissions ≡ some (shell_classifier py letters loaded parse)
unfolding make_tool
shell_gate = refl

shell_call-CallVetted_example : CallVetted py letters loaded parse authorised.cleared.args
unfolding authorised
shell_call-CallVetted_example =
    shell_call-CallVetted py letters loaded parse handler call reader authorised shell_gate
      reader_not_root reader_not_trusted
