-- ===== src/Users/Models/Overrides.antt =====
-- A user's override of a capability wins over the template, in either direction.
use tiny_ctx.Base.{
  String, ◌≡◌, refl, Bool, List, [], ◌∷◌, Option, none, some, ◌==◌, string_eq, if◌then◌else◌,
  contains, contains-add, contains-discard, arith, Option-cases, inl, inr,
}
use tiny_ctx.Base.Dict.{Dict, lookup, IsDict}
use tiny_ctx.Permissions.{Permission, permission_eq, value, of_value}
use tiny_ctx.Permissions.Expansion.{of_value-value, value-of_value, value-injective}
use tiny_ctx.Users.Models.{
  User, PermissionsConfig, apply_override, apply_overrides, effective_permissions, has_permission,
}

-- The override that a dict holds for a capability, or else what was granted before.
abbrev pub override_or : Option Bool → Bool → Bool
override_or none b = b
override_or (some v) b = v

contains-apply_override :
    (name : String) (v : Bool) (granted : List Permission) (p : Permission)
    → contains (apply_override name v granted) p
      ≡ (if name == value p then v else contains granted p)
unfolding apply_override
contains-apply_override name v granted p = elim (Option-cases (of_value name)) [
  | inl unknown ↦ ground (arith, of_value-value p)
  | inr (q, known) ↦ ground (
    arith,
    value-of_value name q known,
    value-injective q p,
    contains-add q granted p,
    contains-discard q granted p,
  )
]

pub contains-apply_overrides :
    (overrides : Dict String Bool) (granted : List Permission) (p : Permission)
    → IsDict overrides
    → contains (apply_overrides overrides granted) p
      ≡ override_or (lookup (value p) overrides) (contains granted p)
unfolding apply_overrides lookup
contains-apply_overrides [] granted p d = refl
contains-apply_overrides ((name, v) ∷ overrides) granted p (fresh, d) = ground (
  arith,
  contains-apply_overrides overrides (apply_override name v granted) p d,
  contains-apply_override name v granted p,
)

-- What a user may do: for each capability the user's override where there is one, and the
-- template otherwise. Overrides under unknown names change nothing.
pub has_permission-eq-override_or :
    (user : User) (perm : Permission) (cfg : PermissionsConfig)
    → IsDict user.permission_overrides
    → has_permission user perm cfg
      ≡ override_or (lookup (value perm) user.permission_overrides) (contains cfg.template perm)
unfolding has_permission effective_permissions
has_permission-eq-override_or user perm cfg d =
    contains-apply_overrides user.permission_overrides cfg.template perm d
