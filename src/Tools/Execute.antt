-- ===== src/Tools/Execute.antt =====
-- `execute_tool_call` of TinyCTX/tool_handling/handler.py: the one place where a tool runs. The
-- theorems are in Tools/Execute/Guard and Tools/Listing/Calls.
pub mod Guard
use tiny_ctx.Base.{
  String, Bool, true, false, not, List, [], ◌∷◌, Option, none, some, ◌==◌, ◌||◌, string_eq,
  if◌then◌else◌, contains, minus, nonempty,
}
use tiny_ctx.Base.Dict.{Dict, lookup}
use tiny_ctx.Permissions.{Permission, permission_eq, expand}
use tiny_ctx.Users.Models.{User, PermissionsConfig, effective_permissions}
use tiny_ctx.Tools.Values.{Args, Value, Builtins, Loaded, not_json, object, other}
use tiny_ctx.Tools.Coerce.{coerce_args}
use tiny_ctx.Tools.Registry.{Classifier, Ran, returned, raised, Tool, Handler}

-- The arguments of a call: a JSON text, or an object already.
pub data Arguments : Type 0 where
  json_text : String → Arguments
  parsed : Args → Arguments

pub record Call : Type 0 where
  pub function_name : Option String
  pub arguments : Arguments

pub data Refusal : Type 0 where
  no_name not_found invalid_json unclassified exception : Refusal
  denied : List Permission → Refusal

pub data Response : Type 0 where
  failed : Refusal → Response
  succeeded : Value → Response

-- `_permissions_cfg`: without a configuration nothing is granted
unfoldable pub permissions_cfg : Option PermissionsConfig → PermissionsConfig
permissions_cfg none = record { minimal_tokens = false; template = [] }
permissions_cfg (some cfg) = cfg

-- `json.loads` where the arguments are a text. A JSON value that is no object raises when its
-- items are read, which is the outer handler's `exception`.
unfoldable pub read_arguments : Builtins → Arguments → Loaded
read_arguments py (json_text s) = py.loads s
read_arguments py (parsed args) = object args

-- The permission guard: `none` lets the call through.
unfoldable pub guard : PermissionsConfig → User → Option Classifier → Args → Option Refusal
guard cfg caller none args = none
guard cfg caller (some required_fn) args = elim (required_fn args) [
  | none ↦ some unclassified
  | some needed ↦
      let missing = minus (expand needed) (effective_permissions caller cfg) in
      if nonempty missing then some (denied missing) else none
]

module _ {W : Type 0} where
  -- The response to what the tool's function did; the world is as the function left it.
  unfoldable pub respond : Ran × W → Response × W
  respond (returned v, w) = (succeeded v, w)
  respond (raised _, w) = (failed exception, w)

  unfoldable pub run_guarded : PermissionsConfig → User → Tool W → Args → W → Response × W
  unfolding respond
  run_guarded cfg caller tool args w = elim (guard cfg caller tool.required_permissions args) [
    | some refusal ↦ (failed refusal, w)
    | none ↦ respond (tool.function args w)
  ]

  -- The part from the decoding of the arguments on, for a tool that was found.
  unfoldable pub run_tool :
      Builtins → PermissionsConfig → User → Tool W → Arguments → W → Response × W
  unfolding read_arguments
  run_tool py cfg caller tool arguments w = elim (read_arguments py arguments) [
    | not_json ↦ (failed invalid_json, w)
    | other ↦ (failed exception, w)
    | object raw ↦ elim (coerce_args py tool.signature raw) [
      | none ↦ (failed exception, w)
      | some args ↦ run_guarded cfg caller tool args w
    ]
  ]

  -- `function_name in self.enabled or function_name in self.auto_enabled`
  unfoldable pub callable : Handler W → String → Bool
  callable h name = contains h.enabled name || contains h.auto_enabled name

  unfoldable pub execute_tool_call : Builtins → Handler W → Call → User → W → Response × W
  execute_tool_call py h call caller w = elim call.function_name [
    | none ↦ (failed no_name, w)
    | some name ↦ if name == "" then (failed no_name, w) else elim (lookup name h.tools) [
      | none ↦ (failed not_found, w)
      | some tool ↦
          if callable h name
          then run_tool py (permissions_cfg h.permissions_config) caller tool call.arguments w
          else (failed not_found, w)
    ]
  ]
