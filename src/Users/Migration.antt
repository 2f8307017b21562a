-- ===== src/Users/Migration.antt =====
-- TinyCTX/users/store.py: `_migrate` and its helpers, which turn a row of the two older schemas
-- into overrides of the one global template. A JSON column stands for the dict that it holds.
-- The theorems are in Users/Migration/Sparse and Users/Migration/Rows.
pub mod Sparse
pub mod Rows
use tiny_ctx.Base.{
  String, ℕ, ◌≤◌, Bool, true, false, not, List, [], ◌∷◌, Option, none, some, map, ◌==◌,
  if◌then◌else◌, contains, string_eq, leb,
}
use tiny_ctx.Base.Dict.{Dict, lookup}
use tiny_ctx.Permissions.{
  Permission, permission_eq, value, all_permissions, file_read, file_write, network_read,
  network_write, manage_ctx, model_swap, memory_read, memory_write, cron_create, user_read,
  dm_access, image_gen,
}
use tiny_ctx.Users.Models.{apply_overrides}

-- `_LEGACY_TEMPLATES`
unfoldable pub legacy_templates : Dict String (List Permission)
unfolding all_permissions
legacy_templates =
    ("guest", [])
    ∷ ("member", file_read ∷ network_read ∷ memory_read ∷ [])
    ∷ (
      "trusted",
      file_read ∷ file_write ∷ network_read ∷ network_write ∷ memory_read ∷ memory_write
          ∷ manage_ctx ∷ model_swap ∷ cron_create ∷ dm_access ∷ user_read ∷ image_gen ∷ [],
    )
    ∷ ("operator", all_permissions)
    ∷ []

-- `_LEGACY_TEMPLATES.get(name, frozenset())`
unfoldable pub legacy_template : String → List Permission
unfolding lookup legacy_templates
legacy_template name = elim (lookup name legacy_templates) [ none ↦ [] | some perms ↦ perms ]

-- `_BACKFILL_RANGES`
unfoldable pub backfill_ranges : List (ℕ × String)
backfill_ranges = (0, "guest") ∷ (25, "member") ∷ (50, "trusted") ∷ (90, "operator") ∷ []

-- The loop of `_template_name_for_level`: the last range whose low bound is reached.
pub name_from : List (ℕ × String) → String → ℕ → String
name_from [] name level = name
name_from ((lo, candidate) ∷ ranges) name level =
    name_from ranges (if leb lo level then candidate else name) level

unfoldable pub template_name_for_level : ℕ → String
unfolding name_from backfill_ranges
template_name_for_level level = name_from backfill_ranges "guest" level

-- `a != b` on Booleans
abbrev pub differ : Bool → Bool → Bool
differ true b = not b
differ false b = b

-- The comprehension of `_sparse_overrides_for`, over the listed capabilities.
pub sparse_from : List Permission → List Permission → List Permission → Dict String Bool
sparse_from perms template [] = []
sparse_from perms template (p ∷ ps) =
    let rest = sparse_from perms template ps in
    if differ (contains perms p) (contains template p)
    then (value p, contains perms p) ∷ rest
    else rest

unfoldable pub sparse_overrides_for : List Permission → List Permission → Dict String Bool
sparse_overrides_for perms template = sparse_from perms template all_permissions

pub record Row : Type 0 where
  pub username : String
  pub permission_overrides : Dict String Bool
  pub permission_template : Option String
  pub permission_level : ℕ

-- The `users` table, with the columns that say which schema wrote it.
pub record Table : Type 0 where
  pub has_template : Bool
  pub has_level : Bool
  pub rows : List Row

-- `row["permission_template"] or "guest"`
unfoldable pub template_or_guest : Option String → String
template_or_guest none = "guest"
template_or_guest (some name) = if name == "" then "guest" else name

-- The body of the loop over the rows of the multi-template schema.
unfoldable pub migrate_template_row : List Permission → Row → Row
migrate_template_row template row =
    let resolved =
      apply_overrides row.permission_overrides
        (legacy_template (template_or_guest row.permission_template)) in
    record row { permission_overrides = sparse_overrides_for resolved template }

-- The body of the loop over the rows of the `permission_level` schema.
unfoldable pub migrate_level_row : List Permission → Row → Row
migrate_level_row template row =
    let resolved = legacy_template (template_name_for_level row.permission_level) in
    record row { permission_overrides = sparse_overrides_for resolved template }

-- `_migrate`; `can_drop` says whether this SQLite can drop a column.
unfoldable pub migrate : Bool → List Permission → Table → Table
migrate can_drop template t =
    if t.has_template
    then record t { has_template = not can_drop; rows = map (migrate_template_row template) t.rows }
    else if t.has_level
    then record t { has_level = not can_drop; rows = map (migrate_level_row template) t.rows }
    else t
