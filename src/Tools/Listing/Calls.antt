-- ===== src/Tools/Listing/Calls.antt =====
-- How the list of tools that a caller is shown compares with what the caller's calls do.
use tiny_ctx.Base.{
  String, ◌≡◌, refl, sym, ◌∙◌, true, false, ◌||◌, List, Option, none, some, ◌==◌, string_eq,
  contains, arith, Option-cases, inl, inr,
}
use tiny_ctx.Base.Dict.{Dict, lookup}
use tiny_ctx.Permissions.{Permission, permission_eq, network_read, network_write}
use tiny_ctx.Users.Models.{User, PermissionsConfig, effective_permissions, has_permission}
use tiny_ctx.Tools.Values.{Args, Builtins, object}
use tiny_ctx.Tools.Coerce.{Annotation, coerce_args}
use tiny_ctx.Tools.Registry.{Tool, Handler, Ran, static, make_tool}
use tiny_ctx.Tools.Execute.{
  Call, Refusal, failed, permissions_cfg, read_arguments, guard, respond, run_tool, run_guarded,
  callable, execute_tool_call,
}
use tiny_ctx.Tools.Execute.Guard.{Permits-of_guard, guard_of_Permits, Refused}
use tiny_ctx.Tools.Listing.{shown, effective_of, get_tool_definitions, tool_visible}
use tiny_ctx.Tools.Listing.Visible.{lists, lists-get_tool_definitions, gated-Permits_iff}

module _ {W : Type 0} (py : Builtins) (h : Handler W) (caller : User) (call : Call) (name : String)
    (f : Args → W → Ran × W) (description : String) (signature : Dict String Annotation)
    (perms : List Permission) (listing : Option (List Permission)) (raw args : Args) (w : W) where
  abbrev pub tool : Tool W
  tool = make_tool f description signature (static perms) listing

  -- The list that is filtered for the caller has the tool, and network_write is not asked for
  -- without that the caller has network_read.
  abbrev pub IsOffered : Type 0
  IsOffered =
      (lists (get_tool_definitions h (some caller) true) name ≡ true)
      × (contains perms network_write ≡ true
          → has_permission caller network_read (permissions_cfg h.permissions_config) ≡ true)

  listed :
      lookup name h.tools ≡ some tool
      → (contains h.enabled name || contains h.auto_enabled name) ≡ true
      → lists (get_tool_definitions h (some caller) true) name
        ≡ tool_visible tool (effective_permissions caller (permissions_cfg h.permissions_config))
  unfolding shown effective_of
  listed found on = ground (arith, lists-get_tool_definitions h (some caller) true name)

  run_guarded-call :
      call.function_name ≡ some name
      → (name == "") ≡ false
      → lookup name h.tools ≡ some tool
      → (contains h.enabled name || contains h.auto_enabled name) ≡ true
      → read_arguments py call.arguments ≡ object raw
      → coerce_args py signature raw ≡ some args
      → execute_tool_call py h call caller w
        ≡ run_guarded (permissions_cfg h.permissions_config) caller tool args w
  unfolding execute_tool_call run_tool callable make_tool
  run_guarded-call named full found on read coerced = ground arith

  abbrev cfg : PermissionsConfig
  cfg = permissions_cfg h.permissions_config

  run_guarded_offered :
      guard cfg caller tool.required_permissions args ≡ none
      → run_guarded cfg caller tool args w ≡ respond (f args w)
  unfolding run_guarded make_tool
  run_guarded_offered through = ground arith

  run_guarded_refused :
      (why : Refusal)
      → guard cfg caller tool.required_permissions args ≡ some why
      → run_guarded cfg caller tool args w ≡ (failed why, w)
  unfolding run_guarded
  run_guarded_refused why shut = ground arith

  -- Of a call with a name that is not empty, of a tool that was registered under it with a fixed set
  -- of capabilities and that is enabled, with arguments that are read and cast: where the list that
  -- is filtered for the caller has the tool, and the caller has network_read if the set has
  -- network_write, the answer and the world are what the tool's function makes of the arguments;
  -- else the call is refused and the world stays as it was.
  pub execute_tool_call-lists :
      call.function_name ≡ some name
      → (name == "") ≡ false
      → lookup name h.tools ≡ some tool
      → (contains h.enabled name || contains h.auto_enabled name) ≡ true
      → read_arguments py call.arguments ≡ object raw
      → coerce_args py signature raw ≡ some args
      → (IsOffered → execute_tool_call py h call caller w ≡ respond (f args w))
        × (¬ IsOffered → Refused w (execute_tool_call py h call caller w))
  execute_tool_call-lists named full found on read coerced =
      let step = run_guarded-call named full found on read coerced in
      let seen = listed found on in
      let (offers, permits) =
        gated-Permits_iff f description signature perms listing cfg caller args in
      (
        λ (lists_it, gap).
            step
            ∙ run_guarded_offered (
                guard_of_Permits cfg caller tool.required_permissions args
                  (permits (sym seen ∙ lists_it, gap))),
        λ hidden. elim (Option-cases (guard cfg caller tool.required_permissions args)) [
          | inl through ↦
              let (lists_it, gap) =
                offers (Permits-of_guard cfg caller tool.required_permissions args through) in
              absurd (hidden (seen ∙ lists_it, gap))
          | inr (why, shut) ↦
              rw (step, run_guarded_refused why shut)
                (record { refusal = why; answer = refl; unchanged = refl })
        ],
      )
