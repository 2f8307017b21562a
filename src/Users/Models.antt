-- ===== src/Users/Models.antt =====
-- TinyCTX/users/models.py: a user, and the capabilities that the user has. The theorems are in
-- Users/Models/Overrides.
pub mod Overrides
use tiny_ctx.Base.{
  String, ℕ, Bool, List, [], ◌∷◌, Option, none, some, if◌then◌else◌, contains, add, discard,
}
use tiny_ctx.Base.Dict.{Dict}
use tiny_ctx.Permissions.{Permission, permission_eq, of_value}

-- `Platform` of TinyCTX/contracts.py
pub data Platform : Type 0 where
  cli discord matrix telegram cron api system : Platform

pub record PlatformIdentity : Type 0 where
  pub platform : Platform
  pub user_id : String
  pub username : String
  pub display_name : String

pub record User : Type 0 where
  pub username : String
  pub identities : List PlatformIdentity
  pub meta : Dict String String
  pub created_at : ℕ
  pub permission_overrides : Dict String Bool

-- The part of `PermissionsConfig` (TinyCTX/config/__main__.py) that permissions are resolved against.
pub record PermissionsConfig : Type 0 where
  pub minimal_tokens : Bool
  pub template : List Permission

-- One turn of the loop over `permission_overrides`: an unknown name is dropped.
unfoldable pub apply_override : String → Bool → List Permission → List Permission
apply_override name granted_value granted = elim (of_value name) [
  | none ↦ granted
  | some perm ↦ if granted_value then add perm granted else discard perm granted
]

unfoldable pub apply_overrides : Dict String Bool → List Permission → List Permission
apply_overrides [] granted = granted
apply_overrides ((name, v) ∷ overrides) granted =
    apply_overrides overrides (apply_override name v granted)

unfoldable pub effective_permissions : User → PermissionsConfig → List Permission
effective_permissions user cfg = apply_overrides user.permission_overrides cfg.template

unfoldable pub has_permission : User → Permission → PermissionsConfig → Bool
has_permission user perm cfg = contains (effective_permissions user cfg) perm
