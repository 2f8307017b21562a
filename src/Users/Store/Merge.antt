-- ===== src/Users/Store/Merge.antt =====
-- `merge_users` and `rename_user` of TinyCTX/users/store.py, and what they answer.
use tiny_ctx.Base.{
  String, ◌≡◌, refl, false, not, List, [], ◌∷◌, ◌++◌, Option, none, some, ◌==◌, string_eq, pair_eq,
  if◌then◌else◌, contains, keep, arith,
}
use tiny_ctx.Base.Dict.{Dict, lookup, erase}
use tiny_ctx.Users.Models.{PlatformIdentity, User}
use tiny_ctx.Users.Store.{
  UserStore, Key, Answer, answered, failed, username_conflict, user_not_found, assertion_error,
  key_of, keys, find_user, load_user, populate_cache, invalidate, erase_keys, username_taken,
}

-- `_invalidate_by_username`
unfoldable pub invalidate_by_username : String → UserStore → UserStore
invalidate_by_username name s = elim (lookup name s.by_username) [
  | none ↦ s
  | some u ↦ record s {
    by_username = erase name s.by_username;
    by_platform = erase_keys (keys u.identities) s.by_platform;
  }
]

-- `UPDATE user_platform_index SET username = ? WHERE username = ?`
unfoldable pub redirect : String → String → Dict Key String → Dict Key String
redirect old new [] = []
redirect old new ((k, name) ∷ d) = (k, (if name == old then new else name)) ∷ redirect old new d

-- `UPDATE users SET identities = ? WHERE username = ?`
unfoldable pub set_identities : String → List PlatformIdentity → List User → List User
set_identities name is [] = []
set_identities name is (u ∷ us) =
    let rest = set_identities name is us in
    if u.username == name then record u { identities = is } ∷ rest else u ∷ rest

-- `DELETE FROM users WHERE username = ?`
unfoldable pub delete_user : String → List User → List User
delete_user name us = keep (λ u. not (u.username == name)) us

-- `UPDATE users SET username = ? WHERE username = ?`
unfoldable pub rename_rows : String → String → List User → List User
rename_rows old new [] = []
rename_rows old new (u ∷ us) =
    let rest = rename_rows old new us in
    if u.username == old then record u { username = new } ∷ rest else u ∷ rest

-- The identities of the first user, then those of the second under other keys.
unfoldable pub merge_identities :
    List PlatformIdentity → List PlatformIdentity → List PlatformIdentity
merge_identities ps qs = ps ++ keep (λ q. not (contains (keys ps) (key_of q))) qs

-- `user = self._load_user(name); assert user is not None; self._populate_cache(user)`
unfoldable pub reload : String → UserStore → Answer User × UserStore
reload name s = elim (find_user name s.users) [
  | none ↦ (failed assertion_error, s)
  | some u ↦ (answered u, populate_cache u (load_user name s).1)
]

unfoldable pub merge_rows : String → String → List PlatformIdentity → UserStore → UserStore
merge_rows primary secondary is s = record s {
  index = redirect secondary primary s.index;
  users = delete_user secondary (set_identities primary is s.users);
}

unfoldable pub merge_users : String → String → UserStore → Answer User × UserStore
merge_users primary secondary s =
    let s1 = (load_user primary s).1 in
    let s2 = (load_user secondary s1).1 in
    elim (find_user primary s.users) [
      | none ↦ (failed user_not_found, s2)
      | some p ↦ elim (find_user secondary s.users) [
        | none ↦ (failed user_not_found, s2)
        | some q ↦
            let is = merge_identities p.identities q.identities in
            let written = merge_rows primary secondary is s2 in
            reload primary
              (invalidate (record p { identities = is }) (invalidate_by_username secondary written))
      ]
    ]

unfoldable pub rename_user : String → String → UserStore → Answer User × UserStore
rename_user username new_username s =
    if username_taken new_username s
    then (failed username_conflict, s)
    else reload new_username (
        invalidate_by_username username (record s {
          index = redirect username new_username s.index;
          users = rename_rows username new_username s.users;
        }))

pub find_user-delete_user :
    (name other : String) (us : List User)
    → find_user other (delete_user name us) ≡ (if other == name then none else find_user other us)
unfolding find_user delete_user keep
find_user-delete_user name other [] = ground arith
find_user-delete_user name other (u ∷ us) = ground (arith, find_user-delete_user name other us)

pub find_user-set_identities :
    (name other : String) (is : List PlatformIdentity) (us : List User)
    → find_user other (set_identities name is us) ≡ (
        if other == name
        then elim (find_user other us) [
          | none ↦ none
          | some u ↦ some (record u { identities = is })
        ]
        else find_user other us)
unfolding find_user set_identities
find_user-set_identities name other is [] = ground arith
find_user-set_identities name other is (u ∷ us) =
    ground (arith, find_user-set_identities name other is us)

pub find_user-rename_rows :
    (old new : String) (us : List User)
    → find_user new us ≡ none
    → find_user new (rename_rows old new us)
      ≡ elim (find_user old us) [ none ↦ none | some u ↦ some (record u { username = new }) ]
unfolding find_user rename_rows
find_user-rename_rows old new [] free = refl
find_user-rename_rows old new (u ∷ us) free = ground (arith, find_user-rename_rows old new us)

pub users-load_user : (name : String) (s : UserStore) → (load_user name s).1.users ≡ s.users
unfolding load_user
users-load_user name s = ground arith

pub users-invalidate_by_username :
    (name : String) (s : UserStore) → (invalidate_by_username name s).users ≡ s.users
unfolding invalidate_by_username
users-invalidate_by_username name s = ground arith

users-reload : (name : String) (s : UserStore) → (reload name s).1.users ≡ s.users
unfolding reload populate_cache
users-reload name s = ground (arith, users-load_user name s)

reload-find_user :
    (name : String) (s : UserStore)
    → (reload name s).0
      ≡ elim (find_user name s.users) [ none ↦ failed assertion_error | some u ↦ answered u ]
unfolding reload
reload-find_user name s = ground arith

-- The store that `merge_users` reloads the first user from.
unfoldable pub merged_store : String → String → User → User → UserStore → UserStore
merged_store primary secondary p q s =
    let is = merge_identities p.identities q.identities in
    invalidate (record p { identities = is })
      (invalidate_by_username secondary
        (merge_rows primary secondary is (load_user secondary (load_user primary s).1).1))

pub users-merged_store :
    (primary secondary : String) (p q : User) (s : UserStore)
    → (merged_store primary secondary p q s).users
      ≡ delete_user secondary
          (set_identities primary (merge_identities p.identities q.identities) s.users)
unfolding merged_store invalidate merge_rows
users-merged_store primary secondary p q s =
    let is = merge_identities p.identities q.identities in
    let s2 = (load_user secondary (load_user primary s).1).1 in
    ground (
      arith,
      users-invalidate_by_username secondary (merge_rows primary secondary is s2),
      users-load_user primary s,
      users-load_user secondary (load_user primary s).1,
    )

pub merge_users-reload :
    (primary secondary : String) (p q : User) (s : UserStore)
    → find_user primary s.users ≡ some p
    → find_user secondary s.users ≡ some q
    → merge_users primary secondary s ≡ reload primary (merged_store primary secondary p q s)
unfolding merge_users merged_store
merge_users-reload primary secondary p q s found other = ground arith

-- The identity under a key, the first of them.
unfoldable pub identity_at : Key → List PlatformIdentity → Option PlatformIdentity
identity_at k [] = none
identity_at k (i ∷ is) = if key_of i == k then some i else identity_at k is

identity_at-append :
    (k : Key) (ps qs : List PlatformIdentity)
    → identity_at k (ps ++ qs)
      ≡ elim (identity_at k ps) [ none ↦ identity_at k qs | some i ↦ some i ]
unfolding identity_at
identity_at-append k [] qs = refl
identity_at-append k (p ∷ ps) qs = ground (arith, identity_at-append k ps qs)

identity_at-keep :
    (k : Key) (ks : List Key) (qs : List PlatformIdentity)
    → contains ks k ≡ false
    → identity_at k (keep (λ q. not (contains ks (key_of q))) qs) ≡ identity_at k qs
unfolding identity_at keep
identity_at-keep k ks [] h = refl
identity_at-keep k ks (q ∷ qs) h = ground (arith, identity_at-keep k ks qs)

identity_at-keys :
    (k : Key) (ps : List PlatformIdentity) → identity_at k ps ≡ none → contains (keys ps) k ≡ false
unfolding identity_at keys contains
identity_at-keys k [] h = refl
identity_at-keys k (p ∷ ps) h = ground (arith, identity_at-keys k ps)

-- Under each key the first user's identity wins, and the second's stays where the first has none.
pub identity_at-merge_identities :
    (k : Key) (ps qs : List PlatformIdentity)
    → identity_at k (merge_identities ps qs)
      ≡ elim (identity_at k ps) [ none ↦ identity_at k qs | some i ↦ some i ]
unfolding merge_identities
identity_at-merge_identities k ps qs =
    let both = identity_at-append k ps (keep (λ q. not (contains (keys ps) (key_of q))) qs) in
    ground (arith, both, identity_at-keys k ps, identity_at-keep k (keys ps) qs)

-- A merge of two different users that exist answers the first with new identities, and writes them
-- to its row: under each key the first user's identity, else the second's. The second user's row
-- is gone.
pub merge_users-merges :
    (primary secondary : String) (p q : User) (s : UserStore)
    → (primary == secondary) ≡ false
    → find_user primary s.users ≡ some p
    → find_user secondary s.users ≡ some q
    → (is : List PlatformIdentity) × (((merge_users primary secondary s).0
          ≡ answered (record p { identities = is }))
        × ((find_user primary (merge_users primary secondary s).1.users
              ≡ some (record p { identities = is }))
            × (((k : Key)
                  → identity_at k is ≡ elim (identity_at k p.identities) [
                    | none ↦ identity_at k q.identities
                    | some i ↦ some i
                  ])
                × (find_user secondary (merge_users primary secondary s).1.users ≡ none))))
merge_users-merges primary secondary p q s apart found other =
    let is = merge_identities p.identities q.identities in
    let s' = merged_store primary secondary p q s in
    let rows = users-merged_store primary secondary p q s in
    let first = find_user-delete_user secondary primary (set_identities primary is s.users) in
    let second = find_user-delete_user secondary secondary (set_identities primary is s.users) in
    let set = find_user-set_identities primary primary is s.users in
    let step = merge_users-reload primary secondary p q s found other in
    let answer = reload-find_user primary s' in
    let kept = users-reload primary s' in
    (
      is,
      (
        ground arith,
        (
          ground arith,
          ((λ k. identity_at-merge_identities k p.identities q.identities), ground arith),
        ),
      ),
    )

-- A merge of a user with itself deletes the user and fails.
pub merge_users-deletes_self :
    (name : String) (u : User) (s : UserStore)
    → find_user name s.users ≡ some u
    → ((merge_users name name s).0 ≡ failed assertion_error)
      × (find_user name (merge_users name name s).1.users ≡ none)
merge_users-deletes_self name u s found =
    let is = merge_identities u.identities u.identities in
    let s' = merged_store name name u u s in
    let rows = users-merged_store name name u u s in
    let gone = find_user-delete_user name name (set_identities name is s.users) in
    let step = merge_users-reload name name u u s found found in
    let answer = reload-find_user name s' in
    let kept = users-reload name s' in (ground arith, ground arith)

-- A rename to a free name answers the user under that name, with all else as it was.
rename_user-renames :
    (username new_username : String) (u : User) (s : UserStore)
    → username_taken new_username s ≡ false
    → find_user username s.users ≡ some u
    → (rename_user username new_username s).0 ≡ answered (record u { username = new_username })
unfolding rename_user
rename_user-renames username new_username u s free found =
    let renamed : UserStore = record s {
      index = redirect username new_username s.index;
      users = rename_rows username new_username s.users;
    } in
    ground (
      arith,
      reload-find_user new_username (invalidate_by_username username renamed),
      users-invalidate_by_username username renamed,
      find_user-rename_rows username new_username s.users,
    )
