-- ===== src/Tests/Tools.antt =====
-- A handler with one gated tool, which counts its runs in the world.
use tiny_ctx.Base.{
  ℕ, suc, ◌≡◌, ◌⊎◌, refl, true, false, List, [], ◌∷◌, none, some, string_eq, contains, add, exists,
  subset, every, union, minus, keep, arith,
}
use tiny_ctx.Base.Dict.{lookup}
use tiny_ctx.Permissions.{of_value, value, Permission, permission_eq, file_write, expand}
use tiny_ctx.Permissions.Expansion.{contains-expand}
use tiny_ctx.Users.Models.{
  User, PermissionsConfig, has_permission, effective_permissions, apply_override,
}
use tiny_ctx.Users.Models
use tiny_ctx.Tools.Values.{Args, int, pos, Builtins, Cast, object}
use tiny_ctx.Tools.Coerce.{coerce_args}
use tiny_ctx.Tools.Registry.{
  Ran, returned, static, Tool, Handler, make_tool, tools_search, static_permission_fn,
}
use tiny_ctx.Tools.Registry.Enabled.{EnabledRegistered, tools_search-EnabledRegistered}
use tiny_ctx.Tools.Execute.{
  Call, json_text, callable, respond, permissions_cfg, read_arguments, execute_tool_call,
}
use tiny_ctx.Tools.Execute.Guard.{
  Cleared, Authorised, Refused, execute_tool_call-cases, execute_tool_call-denies,
}
use tiny_ctx.Tools.Listing.{
  tool_visible, shown, effective_of, definitions_from, get_tool_definitions,
}
use tiny_ctx.Tools.Listing.Visible.{lists}
use tiny_ctx.Tools.Listing.Calls.{IsOffered, execute_tool_call-lists}

abbrev py : Builtins
py = record {
  to_int = λ v. Cast.value v;
  to_float = λ v. Cast.value v;
  to_str = λ v. Cast.value v;
  truthy = λ v. true;
  strip_lower = λ s. s;
  loads = λ s. object [];
}

abbrev count_run : Args → ℕ → Ran × ℕ
count_run args n = (returned (int (pos n)), suc n)

abbrev counter : Tool ℕ
counter = make_tool count_run "counts" [] (static (file_write ∷ [])) none

abbrev handler : Handler ℕ
handler = record {
  tools = ("count", counter) ∷ [];
  enabled = "count" ∷ [];
  auto_enabled = [];
  permissions_config = none;
}

abbrev granted : User
granted = record {
  username = "alice";
  identities = [];
  meta = [];
  created_at = 0;
  permission_overrides = ("file_write", true) ∷ [];
}

abbrev stranger : User
stranger = record granted { permission_overrides = [] }

abbrev call : Call
call = record { function_name = some "count"; arguments = json_text "{}" }

granted_writes : has_permission granted file_write (permissions_cfg none) ≡ true
unfolding has_permission effective_permissions permissions_cfg Models.apply_overrides apply_override
    of_value value add contains string_eq permission_eq
granted_writes = refl

stranger_lacks : has_permission stranger file_write (permissions_cfg none) ≡ false
unfolding has_permission effective_permissions permissions_cfg Models.apply_overrides apply_override
    of_value value add contains
stranger_lacks = refl

writes_only :
    (p : Permission)
    → contains (expand (file_write ∷ [])) p ≡ true
    → has_permission granted p (permissions_cfg none) ≡ true
unfolding contains permission_eq
writes_only p m = ground (arith, contains-expand (file_write ∷ []) p, granted_writes)

cleared : Cleared py (permissions_cfg none) granted counter (json_text "{}")
unfolding read_arguments coerce_args make_tool
cleared = record {
  raw = [];
  read = refl;
  args = [];
  coerced = refl;
  permitted = (file_write ∷ [], refl, writes_only);
}

authorised : Authorised py handler call granted
unfolding lookup callable contains string_eq
authorised = record {
  name = "count";
  named = refl;
  not_empty = refl;
  tool = counter;
  registered = refl;
  is_callable = refl;
  cleared = cleared;
}

execute_tool_call-cases_example :
    Authorised py handler call stranger ⊎ Refused 7 (execute_tool_call py handler call stranger 7)
execute_tool_call-cases_example = execute_tool_call-cases py handler call stranger 7

found_counter : lookup "count" handler.tools ≡ some counter
unfolding lookup string_eq
found_counter = refl

counter_gate : (counter).required_permissions ≡ some (static_permission_fn (file_write ∷ []))
unfolding make_tool
counter_gate = refl

counter_asks :
    (args : Args) (needed : List Permission)
    → static_permission_fn (file_write ∷ []) args ≡ some needed
    → contains (expand needed) file_write ≡ true
unfolding contains permission_eq
counter_asks args needed e = ground (arith, contains-expand needed file_write)

execute_tool_call-denies_example : Refused 7 (execute_tool_call py handler call stranger 7)
execute_tool_call-denies_example =
    execute_tool_call-denies py handler call stranger 7 "count" counter
      (static_permission_fn (file_write ∷ [])) file_write refl found_counter counter_gate
      counter_asks stranger_lacks

handler-EnabledRegistered : EnabledRegistered handler
unfolding lookup contains
handler-EnabledRegistered = record { registered = λ n m. ground arith }

tools_search-EnabledRegistered_example : EnabledRegistered (tools_search "count" [] handler).0
tools_search-EnabledRegistered_example =
    tools_search-EnabledRegistered "count" [] handler handler-EnabledRegistered

reads : read_arguments py call.arguments ≡ object []
unfolding read_arguments
reads = refl

-- The caller has file_write and the set has no network_write, so the counter is offered and runs.
execute_tool_call-lists_example :
    (IsOffered py handler granted call "count" count_run "counts" [] (file_write ∷ []) none [] [] 7
      → execute_tool_call py handler call granted 7 ≡ respond (count_run [] 7))
    × (¬ IsOffered py handler granted call "count" count_run "counts" []
          (file_write ∷ [])
          none
          []
          []
          7
        → Refused 7 (execute_tool_call py handler call granted 7))
unfolding string_eq lookup contains coerce_args
execute_tool_call-lists_example =
    execute_tool_call-lists py handler granted call "count" count_run "counts" [] (file_write ∷ [])
      none [] [] 7 refl refl refl refl reads refl

is_offered :
    IsOffered py handler granted call "count" count_run "counts" [] (file_write ∷ []) none [] [] 7
unfolding string_eq contains permission_eq get_tool_definitions definitions_from effective_of shown
    tool_visible lists exists subset every union minus keep lookup make_tool permissions_cfg
    effective_permissions Models.apply_overrides apply_override of_value value add
is_offered = (refl, λ m. ground arith)
