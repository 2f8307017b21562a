-- ===== src/Tools/Registry.antt =====
-- The registry of TinyCTX/tool_handling/handler.py: registration, enabling, and the search for
-- tools. A tool's function acts on a world `W`, which is everything outside the handler. The
-- theorems are in Tools/Registry/Enabled.
pub mod Enabled
use tiny_ctx.Base.{
  String, ℕ, Bool, true, false, not, List, [], ◌∷◌, Option, none, some, ◌==◌, string_eq,
  if◌then◌else◌, contains, add, discard, map, nonempty,
}
use tiny_ctx.Base.Dict.{Dict, lookup, insert, has_key}
use tiny_ctx.Permissions.{Permission}
use tiny_ctx.Users.Models.{PermissionsConfig}
use tiny_ctx.Tools.Values.{Args, Value}
use tiny_ctx.Tools.Coerce.{Annotation}

-- A classifier maps the arguments of a call to the capabilities that it needs; `none` is an
-- exception.
abbrev pub Classifier : Type 0
Classifier = Args → Option (List Permission)

-- The argument `required_permissions` of `register_tool`: not passed, None, a set or a callable.
pub data Required : Type 0 where
  unset ungated : Required
  static : List Permission → Required
  classifier : Classifier → Required

-- The result of a tool's function: a value, or an exception with its text.
pub data Ran : Type 0 where
  returned : Value → Ran
  raised : String → Ran

pub record Tool (W : Type 0) : Type 0 where
  pub function : Args → W → Ran × W
  pub description : String
  pub signature : Dict String Annotation
  pub required_permissions : Option Classifier
  pub static_permissions : Option (List Permission)
  pub listing_permissions : Option (List Permission)
  pub permissions_declared : Bool

pub record Handler (W : Type 0) : Type 0 where
  pub tools : Dict String (Tool W)
  pub enabled : List String
  pub auto_enabled : List String
  pub permissions_config : Option PermissionsConfig

-- `_static_permission_fn`
abbrev pub static_permission_fn : List Permission → Classifier
static_permission_fn perms args = some perms

-- The branches of `register_tool` on `required_permissions`.
unfoldable pub required_fn : Required → Option Classifier
required_fn unset = none
required_fn ungated = none
required_fn (static perms) = some (static_permission_fn perms)
required_fn (classifier f) = some f

unfoldable pub static_part : Required → Option (List Permission)
static_part (static perms) = some perms
static_part _ = none

unfoldable pub is_declared : Required → Bool
is_declared unset = false
is_declared _ = true

-- An entry of `tools.overrides`: only `always_on` still acts.
pub record ToolOverride : Type 0 where
  pub always_on : Option Bool

-- What `tools_search` answers.
pub data Found : Type 0 where
  already_enabled now_enabled no_tools nothing_found : Found
  candidates : List (String × Bool) → Found

module _ {W : Type 0} where
  -- the entry that `register_tool` stores
  unfoldable pub make_tool :
      (Args → W → Ran × W)
      → String
      → Dict String Annotation
      → Required
      → Option (List Permission)
      → Tool W
  unfolding required_fn static_part is_declared
  make_tool function description signature required listing = record {
    function = function;
    description = description;
    signature = signature;
    required_permissions = required_fn required;
    static_permissions = static_part required;
    listing_permissions = listing;
    permissions_declared = is_declared required;
  }

  -- `register_tool`, from the name and the parts that it extracts from the function
  unfoldable pub register_tool :
      String
      → (Args → W → Ran × W)
      → String
      → Dict String Annotation
      → Bool
      → Required
      → Option (List Permission)
      → Handler W
      → Handler W
  register_tool name function description signature always_on required listing h = record h {
    tools = insert name (make_tool function description signature required listing) h.tools;
    enabled = if always_on then add name h.enabled else h.enabled;
  }

  -- `assert_permissions_declared`: the names that it would report
  unfoldable pub undeclared : Dict String (Tool W) → List String
  undeclared [] = []
  undeclared ((name, tool) ∷ tools) =
      let rest = undeclared tools in if tool.permissions_declared then rest else name ∷ rest

  -- `apply_overrides`, one entry and all
  unfoldable pub apply_override : String → ToolOverride → Handler W → Handler W
  apply_override name o h =
      if has_key name h.tools
      then elim o.always_on [
        | none ↦ h
        | some on ↦ record h { enabled = if on then add name h.enabled else discard name h.enabled }
      ]
      else h

  unfoldable pub apply_overrides : List (String × ToolOverride) → Handler W → Handler W
  unfolding apply_override
  apply_overrides [] h = h
  apply_overrides ((name, o) ∷ os) h = apply_overrides os (apply_override name o h)

  unfoldable pub enable : String → Handler W → Handler W × Bool
  enable name h =
      if has_key name h.tools then (record h { enabled = add name h.enabled }, true) else (h, false)

  -- `tools_search`; `hits` are the names that `_ranked_candidates` returns for the query
  unfoldable pub tools_search : String → List String → Handler W → Handler W × Found
  tools_search query hits h =
      if has_key query h.tools
      then if contains h.enabled query
        then (h, already_enabled)
        else (record h { enabled = add query h.enabled }, now_enabled)
      else if nonempty h.tools
      then if nonempty hits
        then (h, candidates (map (λ name. (name, contains h.enabled name)) hits))
        else (h, nothing_found)
      else (h, no_tools)

  -- `passive_search`; `bm25_on` and `vec_on` are the switches of its configuration, and `hits` the
  -- ranked names
  unfoldable pub passive_search : Bool → Bool → List String → Handler W → Handler W
  passive_search bm25_on vec_on hits h =
      if nonempty h.tools
      then if bm25_on
        then record h { auto_enabled = hits }
        else if vec_on
        then record h { auto_enabled = hits }
        else record h { auto_enabled = [] }
      else record h { auto_enabled = [] }
