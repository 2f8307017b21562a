-- ===== src/Users/Migration/Rows.antt =====
-- What a migrated user may do, and what happens to a table that is migrated twice.
use tiny_ctx.Base.{
  String, ℕ, ◌≤◌, ◌≡◌, refl, ap, Bool, true, false, List, [], ◌∷◌, map, contains, string_eq, arith,
  leb, if◌then◌else◌, ◌&&◌,
}
use tiny_ctx.Base.Dict.{Dict, lookup, IsDict}
use tiny_ctx.Permissions.{Permission, permission_eq, value, file_read}
use tiny_ctx.Users.Models.{apply_overrides}
use tiny_ctx.Users.Models.Overrides.{override_or, contains-apply_overrides}
use tiny_ctx.Users.Migration.{
  Row, Table, legacy_template, template_name_for_level, template_or_guest, migrate_level_row,
  migrate_template_row, migrate,
}
use tiny_ctx.Users.Migration.Sparse.{apply_overrides-sparse_overrides_for}

-- Under the template that it was migrated against, a user with a permission level may do
-- exactly what the legacy template of that level allowed.
pub migrate_level_row-preserves :
    (template : List Permission) (row : Row) (q : Permission)
    → contains (apply_overrides (migrate_level_row template row).permission_overrides template) q
      ≡ contains (legacy_template (template_name_for_level row.permission_level)) q
unfolding migrate_level_row
migrate_level_row-preserves template row q = apply_overrides-sparse_overrides_for _ template q

-- Under the template that it was migrated against, a user of the multi-template schema may do
-- exactly what the overrides of its row, over its named template, allowed.
pub migrate_template_row-preserves :
    (template : List Permission) (row : Row) (q : Permission)
    → IsDict row.permission_overrides
    → contains (apply_overrides (migrate_template_row template row).permission_overrides template) q
      ≡ override_or
          (lookup (value q) row.permission_overrides)
          (contains (legacy_template (template_or_guest row.permission_template)) q)
unfolding migrate_template_row
migrate_template_row-preserves template row q d =
    rw apply_overrides-sparse_overrides_for
      (contains-apply_overrides row.permission_overrides _ q d)

-- The template of a level, with the loop and the tables computed.
level_template : ℕ → Permission → Bool
level_template level q =
    if leb 90 level
    then contains (legacy_template "operator") q
    else if leb 50 level
    then contains (legacy_template "trusted") q
    else if leb 25 level
    then contains (legacy_template "member") q
    else contains (legacy_template "guest") q

level_template_lem :
    (level : ℕ) (q : Permission)
    → contains (legacy_template (template_name_for_level level)) q ≡ level_template level q
unfolding template_name_for_level level_template
level_template_lem level q = ground arith

level_template_mono :
    (a b : ℕ) (q : Permission) → a ≤ b → level_template a q ≡ true → level_template b q ≡ true
unfolding level_template contains permission_eq legacy_template string_eq
level_template_mono a b file_read le h = ground arith
level_template_mono a b _ le h = ground arith

-- A higher permission level never allows less.
template_name_for_level_mono :
    (a b : ℕ) (q : Permission)
    → a ≤ b
    → contains (legacy_template (template_name_for_level a)) q ≡ true
    → contains (legacy_template (template_name_for_level b)) q ≡ true
template_name_for_level_mono a b q le h =
    rw level_template_lem (level_template_mono a b q le (rw level_template_lem at h))

-- What an administrator does between two starts: the overrides of each user are set anew.
pub set_row_overrides : (String → Dict String Bool) → Row → Row
set_row_overrides f row = record row { permission_overrides = f row.username }

pub set_overrides : (String → Dict String Bool) → Table → Table
set_overrides f t = record t { rows = map (set_row_overrides f) t.rows }

migrate_level_rows-set_overrides :
    (template : List Permission) (f : String → Dict String Bool) (rows : List Row)
    → map
        (migrate_level_row template)
        (map (set_row_overrides f) (map (migrate_level_row template) rows))
      ≡ map (migrate_level_row template) rows
unfolding migrate_level_row set_row_overrides
migrate_level_rows-set_overrides template f [] = refl
migrate_level_rows-set_overrides template f (row ∷ rows) =
    ap (◌∷◌ (migrate_level_row template row)) (migrate_level_rows-set_overrides template f rows)

-- Where SQLite cannot drop the permission_level column, the next start migrates again: whatever
-- overrides were set in between are replaced by those of the legacy level.
pub migrate_undropped-forgets_overrides :
    (template : List Permission) (f : String → Dict String Bool) (t : Table)
    → t.has_template ≡ false
    → t.has_level ≡ true
    → migrate false template (set_overrides f (migrate false template t)) ≡ migrate false template t
unfolding migrate set_overrides
migrate_undropped-forgets_overrides template f t p q =
    ground (arith, migrate_level_rows-set_overrides template f t.rows)

-- Where the legacy column is dropped, the next start changes nothing, overrides set in between
-- included.
migrate_dropped-keeps_overrides :
    (template : List Permission) (f : String → Dict String Bool) (t : Table)
    → (t.has_template && t.has_level) ≡ false
    → migrate true template (set_overrides f (migrate true template t))
      ≡ set_overrides f (migrate true template t)
unfolding migrate set_overrides
migrate_dropped-keeps_overrides template f t p = ground arith
