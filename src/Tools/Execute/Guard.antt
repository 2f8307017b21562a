-- ===== src/Tools/Execute/Guard.antt =====
-- When a call of a tool reaches the tool's function, and what a refusal leaves behind.
use tiny_ctx.Base.{
  String, ◌≡◌, ◌⊎◌, inl, inr, refl, true, false, List, Option, none, some, ◌==◌, string_eq,
  contains, nonempty-minus, subset-contains, subset_of_contains, arith, Bool-cases, Option-cases,
}
use tiny_ctx.Base.Dict.{lookup}
use tiny_ctx.Permissions.{Permission, permission_eq, expand}
use tiny_ctx.Users.Models.{User, PermissionsConfig, effective_permissions, has_permission}
use tiny_ctx.Tools.Values.{Args, Builtins, Loaded, object, not_json, other}
use tiny_ctx.Tools.Coerce.{coerce_args}
use tiny_ctx.Tools.Registry.{Classifier, Tool, Handler}
use tiny_ctx.Tools.Execute.{
  Arguments, Call, Refusal, exception, invalid_json, not_found, no_name, Response, failed,
  permissions_cfg, read_arguments, guard, run_guarded, run_tool, callable, execute_tool_call,
}

-- The caller has every capability that the classifier asks for, implied ones included. A tool
-- without a classifier asks for nothing.
abbrev pub Permits : PermissionsConfig → User → Option Classifier → Args → Type 0
Permits cfg caller none args = Unit {0}
Permits cfg caller (some f) args =
    (needed : List Permission) × (f args ≡ some needed)
    × ((p : Permission) → contains (expand needed) p ≡ true → has_permission caller p cfg ≡ true)

module _ (cfg : PermissionsConfig) (caller : User) where
  pub Permits-of_guard :
      (c : Option Classifier) (args : Args)
      → guard cfg caller c args ≡ none
      → Permits cfg caller c args
  unfolding guard has_permission
  Permits-of_guard none args h = tt
  Permits-of_guard (some f) args h = elim (Option-cases (f args)) [
    | inl e ↦ absurd (ground arith)
    | inr (needed, e) ↦ (
      needed,
      e,
      λ p m.
          subset-contains (expand needed) (effective_permissions caller cfg) p
            (ground (arith, nonempty-minus (expand needed) (effective_permissions caller cfg))) m,
    )
  ]

  pub guard_of_Permits :
      (c : Option Classifier) (args : Args)
      → Permits cfg caller c args
      → guard cfg caller c args ≡ none
  unfolding guard has_permission
  guard_of_Permits none args h = refl
  guard_of_Permits (some f) args (needed, e, h) = ground (
    arith,
    nonempty-minus (expand needed) (effective_permissions caller cfg),
    subset_of_contains (expand needed) (effective_permissions caller cfg) h,
  )

-- All that must hold for the function of a found tool to run.
pub record Cleared {W : Type 0} (py : Builtins) (cfg : PermissionsConfig) (caller : User)
    (tool : Tool W) (arguments : Arguments) : Type 0 where
  pub raw : Args
  pub read : read_arguments py arguments ≡ object raw
  pub args : Args
  pub coerced : coerce_args py tool.signature raw ≡ some args
  pub permitted : Permits cfg caller tool.required_permissions args

-- All that must hold for a call to reach the function of a tool.
pub record Authorised {W : Type 0} (py : Builtins) (h : Handler W) (call : Call) (caller : User)
    : Type 0 where
  pub name : String
  pub named : call.function_name ≡ some name
  pub not_empty : (name == "") ≡ false
  pub tool : Tool W
  pub registered : lookup name h.tools ≡ some tool
  pub is_callable : callable h name ≡ true
  pub cleared : Cleared py (permissions_cfg h.permissions_config) caller tool call.arguments

-- The handler answered with a refusal and left the world alone.
pub record Refused {W : Type 0} (w : W) (out : Response × W) : Type 0 where
  pub refusal : Refusal
  pub answer : out.0 ≡ failed refusal
  pub unchanged : out.1 ≡ w

module _ {W : Type 0} (py : Builtins) (cfg : PermissionsConfig) (caller : User)
    (tool : Tool W) where
  run_guarded-cases :
      (args : Args) (w : W)
      → Permits cfg caller tool.required_permissions args
        ⊎ Refused w (run_guarded cfg caller tool args w)
  unfolding run_guarded
  run_guarded-cases args w = elim (Option-cases (guard cfg caller tool.required_permissions args)) [
    | inl open_guard ↦ inl (Permits-of_guard cfg caller tool.required_permissions args open_guard)
    | inr (r, shut) ↦
        inr (rw (shut, run_guarded) (record { refusal = r; answer = refl; unchanged = refl }))
  ]

  run_tool-cases :
      (arguments : Arguments) (w : W)
      → Cleared py cfg caller tool arguments ⊎ Refused w (run_tool py cfg caller tool arguments w)
  unfolding run_tool
  run_tool-cases arguments w = go (read_arguments py arguments) refl
    where
      go_args :
          (raw : Args) (o : Option Args)
          → read_arguments py arguments ≡ object raw
          → coerce_args py tool.signature raw ≡ o
          → Cleared py cfg caller tool arguments
            ⊎ Refused w (run_tool py cfg caller tool arguments w)
      go_args raw none e f = inr (
          rw (e, run_tool)
            (rw (f, run_tool) (record { refusal = exception; answer = refl; unchanged = refl })))
      go_args raw (some args) e f = elim (run_guarded-cases args w) [
        | inl p ↦ inl (record { raw = raw; read = e; args = args; coerced = f; permitted = p })
        | inr r ↦ inr (rw (e, run_tool) (rw (f, run_tool) r))
      ]

      go :
          (l : Loaded)
          → read_arguments py arguments ≡ l
          → Cleared py cfg caller tool arguments
            ⊎ Refused w (run_tool py cfg caller tool arguments w)
      go not_json e =
          inr
            (rw (e, run_tool) (record { refusal = invalid_json; answer = refl; unchanged = refl }))
      go other e =
          inr (rw (e, run_tool) (record { refusal = exception; answer = refl; unchanged = refl }))
      go (object raw) e = go_args raw (coerce_args py tool.signature raw) e refl

module _ {W : Type 0} (py : Builtins) (h : Handler W) (call : Call) (caller : User) (w : W) where
  -- Every call is authorised, or else it is refused and the world stays as it was.
  pub execute_tool_call-cases :
      Authorised py h call caller ⊎ Refused w (execute_tool_call py h call caller w)
  unfolding execute_tool_call
  execute_tool_call-cases = go_name call.function_name refl
    where
      refused_by :
          (r : Refusal)
          → execute_tool_call py h call caller w ≡ (failed r, w)
          → Refused w (execute_tool_call py h call caller w)
      refused_by r e = rw e (record { refusal = r; answer = refl; unchanged = refl })

      go_tool :
          (name : String) (o : Option (Tool W))
          → call.function_name ≡ some name
          → (name == "") ≡ false
          → lookup name h.tools ≡ o
          → Authorised py h call caller ⊎ Refused w (execute_tool_call py h call caller w)
      go_tool name none e n f = inr (refused_by not_found (ground arith))
      go_tool name (some tool) e n f = elim (Bool-cases (callable h name)) [
        | inr off ↦ inr (refused_by not_found (ground arith))
        | inl on ↦
            elim (run_tool-cases py (permissions_cfg h.permissions_config) caller tool
              call.arguments w) [
                | inl c ↦ inl (record {
                  name = name;
                  named = e;
                  not_empty = n;
                  tool = tool;
                  registered = f;
                  is_callable = on;
                  cleared = c;
                })
                | inr r ↦
                    let step : execute_tool_call py h call caller w
                        ≡ run_tool py (permissions_cfg h.permissions_config) caller tool
                            call.arguments w =
                      cc (e, n, f, on) in
                    inr (rw step r)
              ]
      ]

      go_name :
          (o : Option String)
          → call.function_name ≡ o
          → Authorised py h call caller ⊎ Refused w (execute_tool_call py h call caller w)
      go_name none e = inr (refused_by no_name (ground arith))
      go_name (some name) e = elim (Bool-cases (name == "")) [
        | inl blank ↦ inr (refused_by no_name (ground arith))
        | inr n ↦ go_tool name (lookup name h.tools) e n refl
      ]

  -- A caller that lacks a capability which the tool's classifier asks for never reaches the tool,
  -- whatever the arguments: the call is refused and the world stays as it was.
  pub execute_tool_call-denies :
      (name : String) (tool : Tool W) (f : Classifier) (p : Permission)
      → call.function_name ≡ some name
      → lookup name h.tools ≡ some tool
      → tool.required_permissions ≡ some f
      → ((args : Args) (needed : List Permission)
          → f args ≡ some needed
          → contains (expand needed) p ≡ true)
      → has_permission caller p (permissions_cfg h.permissions_config) ≡ false
      → Refused w (execute_tool_call py h call caller w)
  execute_tool_call-denies name tool f p named found gate asks lacks =
      elim execute_tool_call-cases [
        | inr r ↦ r
        | inl a ↦ absurd (go a (cc (a.named, named, a.registered, found, gate)) a.cleared.permitted)
      ]
    where
      go :
          (a : Authorised py h call caller)
          → a.tool.required_permissions ≡ some f
          → Permits
              (permissions_cfg h.permissions_config)
              caller
              a.tool.required_permissions
              a.cleared.args
          → ⊥
      go a e permitted =
          let (needed, classified, all) : Permits (permissions_cfg h.permissions_config) caller
              (some f) a.cleared.args =
            rw e at permitted in
          cc (all p (asks a.cleared.args needed classified), lacks)
