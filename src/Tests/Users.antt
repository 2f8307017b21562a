-- ===== src/Tests/Users.antt =====
-- Users, overrides and migrated rows.
use tiny_ctx.Base.{String, ◌≡◌, refl, Bool, true, false, List, [], ◌∷◌, some, string_eq, contains}
use tiny_ctx.Base.Dict.{Dict, lookup, IsDict}
use tiny_ctx.Permissions.{
  Permission, permission_eq, file_read, file_write, network_read, memory_read, value,
}
use tiny_ctx.Users.Models.{User, PermissionsConfig, apply_overrides}
use tiny_ctx.Users.Models.Overrides.{override_or}
use tiny_ctx.Users.Migration.{
  Row, Table, sparse_overrides_for, legacy_template, template_name_for_level, template_or_guest,
  migrate_level_row, migrate_template_row, migrate,
}
use tiny_ctx.Users.Migration.Sparse.{apply_overrides-sparse_overrides_for}
use tiny_ctx.Users.Migration.Rows.{
  migrate_level_row-preserves, migrate_template_row-preserves, set_overrides,
  migrate_undropped-forgets_overrides,
}

abbrev overrides : Dict String Bool
overrides = ("file_write", true) ∷ ("stale_name", true) ∷ ("network_read", false) ∷ []

abbrev template : List Permission
template = network_read ∷ memory_read ∷ []

abbrev alice : User
alice = record {
  username = "alice";
  identities = [];
  meta = [];
  created_at = 0;
  permission_overrides = overrides;
}

abbrev cfg : PermissionsConfig
cfg = record { minimal_tokens = false; template = template }

overrides-IsDict : IsDict overrides
unfolding lookup string_eq
overrides-IsDict = (refl, (refl, (refl, tt)))

apply_overrides-sparse_overrides_for_example :
    contains (apply_overrides (sparse_overrides_for (file_read ∷ []) template) template) file_read
    ≡ contains (file_read ∷ []) file_read
apply_overrides-sparse_overrides_for_example =
    apply_overrides-sparse_overrides_for (file_read ∷ []) template file_read

abbrev row : Row
row = record {
  username = "bob";
  permission_overrides = overrides;
  permission_template = some "trusted";
  permission_level = 60;
}

abbrev level_table : Table
level_table = record { has_template = false; has_level = true; rows = row ∷ [] }

migrate_level_row-preserves_example :
    contains
      (apply_overrides (migrate_level_row template row).permission_overrides template)
      file_write
    ≡ contains (legacy_template (template_name_for_level 60)) file_write
migrate_level_row-preserves_example = migrate_level_row-preserves template row file_write

migrate_template_row-preserves_example :
    contains
      (apply_overrides (migrate_template_row template row).permission_overrides template)
      network_read
    ≡ override_or
        (lookup (value network_read) overrides)
        (contains (legacy_template (template_or_guest (some "trusted"))) network_read)
migrate_template_row-preserves_example =
    migrate_template_row-preserves template row network_read overrides-IsDict

member_reads : contains (legacy_template (template_name_for_level 30)) file_read ≡ true
unfolding contains legacy_template template_name_for_level string_eq permission_eq
member_reads = refl

migrate_undropped-forgets_overrides_example :
    migrate false template (set_overrides (λ _. []) (migrate false template level_table))
    ≡ migrate false template level_table
migrate_undropped-forgets_overrides_example =
    migrate_undropped-forgets_overrides template (λ _. []) level_table refl refl
