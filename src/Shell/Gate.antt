-- ===== src/Shell/Gate.antt =====
-- The shell tool behind the permission guard: the classifier that TinyCTX/modules/shell registers
-- for `shell`, seen from `execute_tool_call`. Parsing a line is a parameter.
use tiny_ctx.Base.{
  String, ◌≡◌, refl, Bool, true, false, List, Option, none, some, string_eq, if◌then◌else◌,
  contains, ◌&&◌, arith, Bool-cases, inl, inr,
}
use tiny_ctx.Base.Dict.{lookup}
use tiny_ctx.Permissions.{Permission, permission_eq, root, untrusted_exec, expand}
use tiny_ctx.Permissions.Expansion.{contains-expand}
use tiny_ctx.Users.Models.{User, PermissionsConfig, has_permission}
use tiny_ctx.Tools.Values.{Args, Value, Builtins, str}
use tiny_ctx.Tools.Registry.{Classifier, Handler}
use tiny_ctx.Tools.Execute.{Call, permissions_cfg}
use tiny_ctx.Tools.Execute.Guard.{Permits, Authorised}
use tiny_ctx.Shell.Tree.{Node}
use tiny_ctx.Shell.Classify.{Letters, Loaded, required_permissions_for_shell}
use tiny_ctx.Shell.Classify.CommandLine.{LineVetted, required_permissions_for_shell-LineVetted}

-- Whether both files were loaded, so that the classifier goes on to parse.
unfoldable pub is_loaded : Loaded → Bool
is_loaded loaded = elim loaded.table [
  | none ↦ false
  | some _ ↦ elim loaded.constructs [ none ↦ false | some _ ↦ true ]
]

-- `bool(backend_access)`, which is False where it is not passed
unfoldable pub backend_of : Builtins → Args → Bool
backend_of py args = elim (lookup "backend_access" args) [ none ↦ false | some v ↦ py.truthy v ]

-- The capabilities for the value of `command`: a text is parsed, an empty value needs the worst
-- case, and any other value has no `strip` and raises.
unfoldable pub needed_for :
    Builtins → Letters → Loaded → (String → Option Node) → Value → Bool → Option (List Permission)
needed_for py letters loaded parse (str line) backend =
    some (required_permissions_for_shell letters loaded (parse line) backend)
needed_for py letters loaded parse v backend =
    if is_loaded loaded && py.truthy v
    then none
    else some (required_permissions_for_shell letters loaded none backend)

-- `required_permissions_for_shell(**args)`; a call without `command` raises
unfoldable pub shell_classifier : Builtins → Letters → Loaded → (String → Option Node) → Classifier
shell_classifier py letters loaded parse args = elim (lookup "command" args) [
  | none ↦ none
  | some v ↦ needed_for py letters loaded parse v (backend_of py args)
]

expand-lacks :
    (perms : List Permission) (p : Permission)
    → contains (expand perms) p ≡ false
    → contains perms p ≡ false
expand-lacks perms p h = ground (arith, contains-expand perms p)

module _ (py : Builtins) (letters : Letters) (loaded : Loaded) (parse : String → Option Node) where
  -- The command line that a call carries, vetted.
  pub record CallVetted (args : Args) : Type 0 where
    pub line : String
    pub carried : lookup "command" args ≡ some (str line)
    pub vetted : LineVetted letters loaded (parse line)

  module _ (cfg : PermissionsConfig) (caller : User) where
    permits_lacks :
        (needed : List Permission) (p : Permission)
        → ((q : Permission)
            → contains (expand needed) q ≡ true
            → has_permission caller q cfg ≡ true)
        → has_permission caller p cfg ≡ false
        → contains needed p ≡ false
    permits_lacks needed p all lacks = elim (Bool-cases (contains (expand needed) p)) [
      | inl yes_p ↦ absurd (ground (arith, all p yes_p))
      | inr no_p ↦ expand-lacks needed p no_p
    ]

    line_vetted :
        (tree : Option Node) (backend : Bool) (needed : List Permission)
        → required_permissions_for_shell letters loaded tree backend ≡ needed
        → contains needed root ≡ false
        → contains needed untrusted_exec ≡ false
        → LineVetted letters loaded tree
    line_vetted tree backend needed e r u =
        required_permissions_for_shell-LineVetted letters loaded tree backend (rw e r) (rw e u)

    -- A value that is no text never passes without root and untrusted_exec.
    no_text :
        (backend : Bool) (needed : List Permission) (b : Bool)
        → (if b then none else some (required_permissions_for_shell letters loaded none backend))
          ≡ some needed
        → contains needed root ≡ false
        → contains needed untrusted_exec ≡ false
        → ⊥
    no_text backend needed true e r u = cc
    no_text backend needed false e r u = cc ((line_vetted none backend needed (cc) r u).parsed)

    value-CallVetted :
        (args : Args) (v : Value) (needed : List Permission)
        → lookup "command" args ≡ some v
        → needed_for py letters loaded parse v (backend_of py args) ≡ some needed
        → contains needed root ≡ false
        → contains needed untrusted_exec ≡ false
        → CallVetted args
    unfolding needed_for
    value-CallVetted args (str line) needed f e r u = record {
      line = line;
      carried = f;
      vetted = line_vetted (parse line) (backend_of py args) needed (cc e) r u;
    }
    value-CallVetted args _ needed f e r u = absurd (no_text (backend_of py args) needed _ e r u)

    -- A caller with neither root nor untrusted_exec whom the guard lets run the shell tool carries a
    -- command line that parses and is vetted throughout.
    pub Permits-CallVetted :
        (args : Args)
        → Permits cfg caller (some (shell_classifier py letters loaded parse)) args
        → has_permission caller root cfg ≡ false
        → has_permission caller untrusted_exec cfg ≡ false
        → CallVetted args
    unfolding shell_classifier
    Permits-CallVetted args (needed, e, all) r u = go (lookup "command" args) refl
      where
        go : (o : Option Value) → lookup "command" args ≡ o → CallVetted args
        go none f = absurd (ground arith)
        go (some v) f =
            value-CallVetted args v needed f (ground arith) (permits_lacks needed root all r)
              (permits_lacks needed untrusted_exec all u)

  -- Whenever a call of the shell tool is authorised for a caller with neither root nor
  -- untrusted_exec, the line that reaches the tool parses, has allowed constructs only, and all the
  -- commands in it are in the table with known flags and no dynamic argument.
  pub shell_call-CallVetted :
      {W : Type 0} (h : Handler W) (call : Call) (caller : User) (a : Authorised py h call caller)
      → a.tool.required_permissions ≡ some (shell_classifier py letters loaded parse)
      → has_permission caller root (permissions_cfg h.permissions_config) ≡ false
      → has_permission caller untrusted_exec (permissions_cfg h.permissions_config) ≡ false
      → CallVetted a.cleared.args
  shell_call-CallVetted h call caller a gate r u =
      Permits-CallVetted (permissions_cfg h.permissions_config) caller a.cleared.args
        (rw gate at a.cleared.permitted) r u
