-- ===== src/Permissions.antt =====
-- TinyCTX/permissions.py: the named capabilities, and the expansion of a requirement.
-- The theorems are in Permissions/Expansion.
pub mod Expansion
use tiny_ctx.Base.{
  String, List, [], ◌∷◌, ◌++◌, Option, none, some, Eq, ◌==◌, string_eq, if◌then◌else◌,
}

pub data Permission : Type 0 where
  file_read file_write network_read network_write backend_exec untrusted_exec : Permission
  manage_ctx model_swap memory_read memory_write cron_create cron_admin user_read root : Permission
  dm_access equipment_trusted image_gen : Permission

pub Permission-discrete : Discrete Permission
Permission-discrete = hlevel

-- Members of an enumeration are compared by identity.
instance unfoldable pub permission_eq : Eq Permission
unfolding Permission-discrete
permission_eq = record { dec = Permission-discrete }

-- `Permission.value`
unfoldable pub value : Permission → String
value file_read = "file_read"
value file_write = "file_write"
value network_read = "network_read"
value network_write = "network_write"
value backend_exec = "backend_exec"
value untrusted_exec = "untrusted_exec"
value manage_ctx = "manage_ctx"
value model_swap = "model_swap"
value memory_read = "memory_read"
value memory_write = "memory_write"
value cron_create = "cron_create"
value cron_admin = "cron_admin"
value user_read = "user_read"
value root = "root"
value dm_access = "dm_access"
value equipment_trusted = "equipment_trusted"
value image_gen = "image_gen"

-- `for p in Permission`, in the order of the class
unfoldable pub all_permissions : List Permission
all_permissions =
    file_read ∷ file_write ∷ network_read ∷ network_write ∷ backend_exec ∷ untrusted_exec
    ∷ manage_ctx ∷ model_swap ∷ memory_read ∷ memory_write ∷ cron_create ∷ cron_admin ∷ user_read
    ∷ root ∷ dm_access ∷ equipment_trusted ∷ image_gen ∷ []

-- `Permission(name)`; `none` is the `ValueError`
find_value : String → List Permission → Option Permission
find_value name [] = none
find_value name (p ∷ ps) = if value p == name then some p else find_value name ps

unfoldable pub of_value : String → Option Permission
unfolding find_value all_permissions
of_value name = find_value name all_permissions

-- `_IMPLIES.get(p, frozenset())`
unfoldable pub implies : Permission → List Permission
implies network_write = network_read ∷ []
implies _ = []

-- `for p in list(out): out |= _IMPLIES.get(p, frozenset())`, over the listed members
expand_from : List Permission → List Permission → List Permission
expand_from [] out = out
expand_from (p ∷ ps) out = expand_from ps (out ++ implies p)

unfoldable pub expand : List Permission → List Permission
unfolding expand_from implies
expand perms = expand_from perms perms
