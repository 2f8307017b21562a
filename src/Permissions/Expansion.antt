-- ===== src/Permissions/Expansion.antt =====
-- What `expand` adds to a requirement, and the names of the capabilities.
use tiny_ctx.Base.{
  String, ◌≡◌, refl, some, ◌&&◌, ◌||◌, List, [], ◌∷◌, ◌++◌, ◌==◌, contains, contains-append,
  string_eq, arith,
}
use tiny_ctx.Permissions.{
  Permission, permission_eq, file_read, network_read, network_write, value, all_permissions,
  find_value, of_value, implies, expand_from, expand,
}

-- A capability is implied by `network_write` alone, and it is `network_read`.
contains-implies :
    (p q : Permission) → contains (implies p) q ≡ (p == network_write && network_read == q)
unfolding contains implies permission_eq
contains-implies network_write q = ground arith
contains-implies _ q = refl

contains-expand_from :
    (ps out : List Permission) (q : Permission)
    → contains (expand_from ps out) q
      ≡ (contains out q || (contains ps network_write && network_read == q))
unfolding contains expand_from
contains-expand_from [] out q = ground arith
contains-expand_from (p ∷ ps) out q = ground (
  arith,
  contains-expand_from ps (out ++ implies p) q,
  contains-append out (implies p) q,
  contains-implies p q,
)

-- An expanded requirement holds exactly what it held before, and network_read if it held
-- network_write.
pub contains-expand :
    (perms : List Permission) (q : Permission)
    → contains (expand perms) q
      ≡ (contains perms q || (contains perms network_write && network_read == q))
unfolding expand
contains-expand perms q = contains-expand_from perms perms q

-- One level of implications is a fixed point: to expand again adds nothing.
expand-expand :
    (perms : List Permission) (q : Permission)
    → contains (expand (expand perms)) q ≡ contains (expand perms) q
unfolding permission_eq
expand-expand perms q = ground (
  arith,
  contains-expand (expand perms) q,
  contains-expand perms q,
  contains-expand perms network_write,
)

find_value-eq-some :
    (name : String) (ps : List Permission) (p : Permission)
    → find_value name ps ≡ some p
    → value p ≡ name
unfolding find_value
find_value-eq-some name [] p h = cc
find_value-eq-some name (q ∷ ps) p h = ground (arith, find_value-eq-some name ps p)

-- The enumeration reads back every name that it writes.
pub of_value-value : (p : Permission) → of_value (value p) ≡ some p
unfolding of_value value string_eq
of_value-value file_read = refl
of_value-value _ = refl

-- Two capabilities never share a name.
pub value-injective : (p q : Permission) → value p ≡ value q → p ≡ q
value-injective p q h = cc (of_value-value p, of_value-value q, h)

pub value-of_value : (name : String) (p : Permission) → of_value name ≡ some p → value p ≡ name
unfolding of_value
value-of_value name p h = find_value-eq-some name all_permissions p h
