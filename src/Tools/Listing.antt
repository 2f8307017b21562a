-- ===== src/Tools/Listing.antt =====
-- The list of tools that the model is shown: `_tool_visible` and `get_tool_definitions` of
-- TinyCTX/tool_handling/handler.py. The theorems are in Visible and Calls.
pub mod Visible
pub mod Calls
use tiny_ctx.Base.{
  String, Bool, true, false, List, [], ◌∷◌, Option, none, some, string_eq, if◌then◌else◌, subset,
  union,
}
use tiny_ctx.Base.Dict.{lookup}
use tiny_ctx.Permissions.{Permission, permission_eq}
use tiny_ctx.Users.Models.{User, effective_permissions}
use tiny_ctx.Tools.Registry.{Tool, Handler}
use tiny_ctx.Tools.Execute.{permissions_cfg}

-- An entry of the list: the name and the description of the function.
pub record Definition : Type 0 where
  pub name : String
  pub description : String

module _ {W : Type 0} where
  -- `static.issubset(effective)`, or the listing hint of a callable; else always listed
  unfoldable pub tool_visible : Tool W → List Permission → Bool
  tool_visible tool effective = elim tool.required_permissions [
    | none ↦ true
    | some _ ↦ elim tool.static_permissions [
      | some static ↦ subset static effective
      | none ↦ elim tool.listing_permissions [
        | some listing ↦ subset listing effective
        | none ↦ true
      ]
    ]
  ]

  -- The test `effective is None or not self._tool_visible(...)`, negated.
  unfoldable pub shown : Bool → Option (List Permission) → Tool W → Bool
  shown false effective tool = true
  shown true none tool = false
  shown true (some effective) tool = tool_visible tool effective

  -- The loop over the names.
  unfoldable pub definitions_from :
      Handler W → Bool → Option (List Permission) → List String → List Definition
  definitions_from h minimal effective [] = []
  definitions_from h minimal effective (name ∷ names) =
      let rest = definitions_from h minimal effective names in
      elim (lookup name h.tools) [
        | none ↦ rest
        | some tool ↦
            if shown minimal effective tool
            then record { name = name; description = tool.description } ∷ rest
            else rest
      ]

  -- `effective`, which is only computed under `minimal_tokens` and for a caller
  unfoldable pub effective_of : Handler W → Option User → Bool → Option (List Permission)
  effective_of h (some caller) true =
      some (effective_permissions caller (permissions_cfg h.permissions_config))
  effective_of h _ _ = none

  unfoldable pub get_tool_definitions : Handler W → Option User → Bool → List Definition
  get_tool_definitions h caller minimal =
      definitions_from h minimal (effective_of h caller minimal) (union h.enabled h.auto_enabled)
