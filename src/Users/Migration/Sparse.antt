-- ===== src/Users/Migration/Sparse.antt =====
-- The sparse difference of a permission set and the template, and what it resolves to.
use tiny_ctx.Base.{
  ◌≡◌, refl, true, false, ◌&&◌, List, [], ◌∷◌, none, some, string_eq, if◌then◌else◌, contains,
  arith,
}
use tiny_ctx.Base.Dict.{lookup, IsDict}
use tiny_ctx.Permissions.{Permission, permission_eq, value, all_permissions, file_read}
use tiny_ctx.Permissions.Expansion.{value-injective}
use tiny_ctx.Users.Models.{apply_overrides}
use tiny_ctx.Users.Models.Overrides.{contains-apply_overrides}
use tiny_ctx.Users.Migration.{differ, sparse_from, sparse_overrides_for}

abbrev Distinct : List Permission → Type 0
Distinct [] = Unit
Distinct (p ∷ ps) = (contains ps p ≡ false) × Distinct ps

module _ (perms template : List Permission) where
  lookup-sparse_from :
      (ps : List Permission) (q : Permission)
      → lookup (value q) (sparse_from perms template ps) ≡ (
          if contains ps q && differ (contains perms q) (contains template q)
          then some (contains perms q)
          else none)
  unfolding lookup sparse_from contains
  lookup-sparse_from [] q = refl
  lookup-sparse_from (p ∷ ps) q = ground (arith, lookup-sparse_from ps q, value-injective p q)

  sparse_from-IsDict : (ps : List Permission) → Distinct ps → IsDict (sparse_from perms template ps)
  unfolding sparse_from
  sparse_from-IsDict [] d = tt
  sparse_from-IsDict (p ∷ ps) (fresh, d) =
      ground (arith, lookup-sparse_from ps p, sparse_from-IsDict ps d)

contains-all_permissions : (q : Permission) → contains all_permissions q ≡ true
unfolding contains all_permissions permission_eq
contains-all_permissions file_read = refl
contains-all_permissions _ = refl

Distinct-all_permissions : Distinct all_permissions
unfolding contains all_permissions permission_eq
Distinct-all_permissions = (
  refl,
  (
    refl,
    (
      refl,
      (
        refl,
        (
          refl,
          (
            refl,
            (
              refl,
              (refl, (refl, (refl, (refl, (refl, (refl, (refl, (refl, (refl, (refl, tt)))))))))),
            ),
          ),
        ),
      ),
    ),
  ),
)

pub sparse_overrides_for-IsDict :
    (perms template : List Permission) → IsDict (sparse_overrides_for perms template)
unfolding sparse_overrides_for
sparse_overrides_for-IsDict perms template =
    sparse_from-IsDict perms template all_permissions Distinct-all_permissions

-- The overrides name a capability exactly where the set and the template differ, with the set's
-- answer.
pub lookup-sparse_overrides_for :
    (perms template : List Permission) (q : Permission)
    → lookup (value q) (sparse_overrides_for perms template)
      ≡ (if differ (contains perms q) (contains template q) then some (contains perms q) else none)
unfolding sparse_overrides_for
lookup-sparse_overrides_for perms template q =
    ground (arith, lookup-sparse_from perms template all_permissions q, contains-all_permissions q)

-- To resolve the difference against the template gives the set back.
pub apply_overrides-sparse_overrides_for :
    (perms template : List Permission) (q : Permission)
    → contains (apply_overrides (sparse_overrides_for perms template) template) q ≡ contains perms q
apply_overrides-sparse_overrides_for perms template q = ground (
  arith,
  contains-apply_overrides (sparse_overrides_for perms template) template q
      (sparse_overrides_for-IsDict perms template),
  lookup-sparse_overrides_for perms template q,
)
