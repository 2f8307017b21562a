-- ===== src/Shell/Commands.antt =====
-- The commands of a tree: `_extract` and `_build` of TinyCTX/modules/shell/validate.py.
pub mod Text
use tiny_ctx.Base.{
  String, ℕ, ◌+◌, Bool, true, false, not, ◌&&◌, ◌||◌, List, [], ◌∷◌, ◌++◌, Option, none, some, ◌==◌,
  string_eq, nat_eq, starts_with, if◌then◌else◌, contains, union, exists, keep, map, ltb, add,
}
use tiny_ctx.Shell.Tree.{Node, id, type, field, is_named, text, children, walk}
use tiny_ctx.Shell.Commands.Text.{last_segment, before_equals, dash_atoms, has_glob, unquote, join}

-- One resolved command; `name` is missing where it is no literal word.
pub record Command : Type 0 where
  pub name : Option String
  pub atoms : List String
  pub flags : List String
  pub operands : List String
  pub redirects : List String
  pub dynamic : Bool

-- `Command.subcommand`
unfoldable pub subcommand : Command → Option String
subcommand cmd = elim cmd.operands [ [] ↦ none | op ∷ _ ↦ some op ]

unfoldable pub expansion_types : List String
expansion_types =
    "simple_expansion" ∷ "expansion" ∷ "command_substitution" ∷ "process_substitution"
    ∷ "arithmetic_expansion" ∷ []

unfoldable pub quoted_types : List String
quoted_types = "string" ∷ "raw_string" ∷ "ansi_c_string" ∷ "translated_string" ∷ []

-- `next((x for x in xs if p(x)), None)`
unfoldable pub find_first : (Node → Bool) → List Node → Option Node
find_first p [] = none
find_first p (n ∷ ns) = let rest = find_first p ns in if p n then some n else rest

-- `xs[-1]`, or `none` of an empty list
unfoldable pub last : List Node → Option Node
last [] = none
last (n ∷ ns) = let rest = last ns in elim rest [ none ↦ some n | some m ↦ some m ]

-- `_literal`
unfoldable pub literal : Node → String
literal n =
    if contains quoted_types (type n)
    then elim (keep (λ c. type c == "string_content") (children n)) [
      | [] ↦ unquote (text n)
      | c ∷ cs ↦ join (map text (c ∷ cs))
    ]
    else text n

-- `_is_dynamic`
unfoldable pub is_dynamic : Node → Bool
is_dynamic n =
    if exists (λ m. contains expansion_types (type m)) (walk n)
    then true
    else if contains quoted_types (type n)
    then false
    else has_glob (text n)

-- `_redirect_target`
unfoldable pub redirect_target : Node → Option String
redirect_target n =
    elim (last (keep (λ c. is_named c && not (type c == "file_descriptor")) (children n))) [
      | none ↦ none
      | some c ↦ some (literal c)
    ]

-- the targets of the redirects among the children of a `redirected_statement`
unfoldable pub targets_of : List Node → List String
targets_of [] = []
targets_of (c ∷ cs) =
    let rest = targets_of cs in
    if type c == "file_redirect" || type c == "heredoc_redirect"
    then elim (redirect_target c) [ none ↦ rest | some t ↦ t ∷ rest ]
    else rest

-- The dict of redirects by the id of the command, as the function that `redirects.get(id, ())` is:
-- what each statement of the walk adds for the id.
unfoldable pub redirects_for : ℕ → List Node → List String
redirects_for i [] = []
redirects_for i (n ∷ ns) =
    let rest = redirects_for i ns in
    if type n == "redirected_statement"
    then elim (find_first (λ c. type c == "command") (children n)) [
      | none ↦ rest
      | some body ↦ if id body == i then targets_of (children n) ++ rest else rest
    ]
    else rest

-- `child_by_field_name("name")`
unfoldable pub name_node : Node → Option Node
name_node n = find_first (λ c. field c == "name") (children n)

-- `_command_name`; `lower` is `str.lower`
unfoldable pub command_name : (String → String) → Node → Option String
command_name lower n = elim (name_node n) [
  | none ↦ none
  | some m ↦
      let inner : Node = elim (children m) [ [] ↦ m | c ∷ _ ↦ c ] in
      if type inner == "word" then some (lower (last_segment (text inner))) else none
]

-- The loop variables of `_build`.
pub record Parts : Type 0 where
  pub atoms : List String
  pub raw_flags : List String
  pub operands : List String
  pub dynamic : Bool
  pub end_of_flags : Bool

-- The child is the name, an assignment or an anonymous token, which the loop skips.
unfoldable pub is_skipped : Node → Bool
is_skipped c = type c == "command_name" || type c == "variable_assignment" || not (is_named c)

-- The argument is an operand by its form: a number, no leading dash, or the dash alone.
unfoldable pub is_operand : Node → String → Bool
is_operand c t = type c == "number" || not (starts_with t "-") || t == "-"

-- One turn of the loop of `_build`.
unfoldable pub build_step : Node → Parts → Parts
build_step c p =
    let t = literal c in
    if is_skipped c
    then p
    else if is_dynamic c
    then record p { dynamic = true; operands = p.operands ++ t ∷ [] }
    else if p.end_of_flags
    then record p { operands = p.operands ++ t ∷ [] }
    else if t == "--"
    then record p { end_of_flags = true }
    else if is_operand c t
    then record p { operands = p.operands ++ t ∷ [] }
    else if starts_with t "--"
    then record p { raw_flags = add t p.raw_flags; atoms = add (before_equals t) p.atoms }
    else record p { raw_flags = add t p.raw_flags; atoms = union p.atoms (dash_atoms t) }

unfoldable pub build_loop : List Node → Parts → Parts
build_loop [] p = p
build_loop (c ∷ cs) p = build_loop cs (build_step c p)

abbrev pub no_parts : Parts
no_parts = record {
  atoms = [];
  raw_flags = [];
  operands = [];
  dynamic = false;
  end_of_flags = false;
}

-- `_build`
unfoldable pub build : (String → String) → Node → List String → Command
build lower n targets =
    let p = build_loop (children n) no_parts in
    record {
      name = command_name lower n;
      atoms = p.atoms;
      flags = union p.atoms p.raw_flags;
      operands = p.operands;
      redirects = targets;
      dynamic = p.dynamic || exists has_glob targets;
    }

-- the command of one node, with the redirects that the whole tree attaches to it
unfoldable pub command_at : (String → String) → Node → Node → Command
command_at lower root n = build lower n (redirects_for (id n) (walk root))

-- `_extract`
unfoldable pub extract : (String → String) → Node → List Command
extract lower root = map (command_at lower root) (keep (λ n. type n == "command") (walk root))
