-- ===== src/Users/Store/Caches.antt =====
-- The statements on the tables and the caches, by what they leave under a name or a key.
use tiny_ctx.Base.{
  String, ◌≡◌, refl, List, [], ◌∷◌, none, some, ◌==◌, string_eq, pair_eq, if◌then◌else◌, contains,
  arith, Option-cases, inl, inr,
}
use tiny_ctx.Base.Dict.{Dict, lookup, insert, erase, lookup-insert, lookup-erase}
use tiny_ctx.Users.Models.{Platform, PlatformIdentity, User}
use tiny_ctx.Users.Store.{
  Key, keys, find_user, insert_keys, erase_keys, update_rows, changed_identities,
}

pub lookup-insert_keys :
    (k : Key) (ks : List Key) (u : User) (d : Dict Key User)
    → lookup k (insert_keys ks u d) ≡ (if contains ks k then some u else lookup k d)
unfolding insert_keys contains
lookup-insert_keys k [] u d = refl
lookup-insert_keys k (j ∷ ks) u d =
    ground (arith, lookup-insert_keys k ks u (insert j u d), lookup-insert k j u d)

pub lookup-erase_keys :
    (k : Key) (ks : List Key) (d : Dict Key User)
    → lookup k (erase_keys ks d) ≡ (if contains ks k then none else lookup k d)
unfolding erase_keys contains
lookup-erase_keys k [] d = refl
lookup-erase_keys k (j ∷ ks) d =
    ground (arith, lookup-erase_keys k ks (erase j d), lookup-erase k j d)

pub find_user-username :
    (name : String) (u : User) (us : List User) → find_user name us ≡ some u → u.username ≡ name
unfolding find_user
find_user-username name u [] h = ground arith
find_user-username name u (r ∷ rs) h = ground (arith, find_user-username name u rs)

-- The row after an update.
abbrev pub updated : User → User → User
updated u r = record r {
  permission_overrides = u.permission_overrides;
  identities = u.identities;
  meta = u.meta;
}

pub find_user-update_rows :
    (name : String) (u : User) (us : List User)
    → find_user name (update_rows u us) ≡ (
        if u.username == name
        then elim (find_user name us) [ none ↦ none | some r ↦ some (updated u r) ]
        else find_user name us)
unfolding find_user update_rows
find_user-update_rows name u [] = ground arith
find_user-update_rows name u (r ∷ rs) = ground (arith, find_user-update_rows name u rs)

-- A changed identity stays under its key.
pub keys-changed_identities :
    (platform : Platform) (user_id username display_name : String) (is is' : List PlatformIdentity)
    → changed_identities platform user_id username display_name is ≡ some is'
    → keys is' ≡ keys is
unfolding changed_identities keys
keys-changed_identities platform user_id username display_name [] is' h = ground arith
keys-changed_identities platform user_id username display_name (i ∷ is) is' h =
    elim (Option-cases (changed_identities platform user_id username display_name is)) [
      | inl same ↦ ground arith
      | inr (js, changed) ↦
          let rest = keys-changed_identities platform user_id username display_name is js changed in
          ground arith
    ]
