-- ===== src/Users/Store/Renaming.antt =====
-- A rename keeps the invariant of the store.
use tiny_ctx.Base.{
  String, ◌≡◌, refl, true, false, List, [], ◌∷◌, none, some, ◌==◌, string_eq, pair_eq,
  if◌then◌else◌, contains, arith, Option-cases, inl, inr, Bool-cases,
}
use tiny_ctx.Base.Dict.{Dict, lookup, lookup-erase}
use tiny_ctx.Users.Models.{User}
use tiny_ctx.Users.Store.{
  UserStore, Key, keys, find_user, load_user, populate_cache, username_taken,
}
use tiny_ctx.Users.Store.Caches.{lookup-erase_keys, find_user-username}
use tiny_ctx.Users.Store.Coherence.{Coherent, load_user-Coherent, populate_cache-Coherent}
use tiny_ctx.Users.Store.Merge.{
  invalidate_by_username, redirect, rename_rows, reload, rename_user, find_user-rename_rows,
  users-load_user, users-invalidate_by_username,
}

pub lookup-redirect :
    (k : Key) (old new : String) (d : Dict Key String)
    → lookup k (redirect old new d)
      ≡ elim (lookup k d) [ none ↦ none | some n ↦ some (if n == old then new else n) ]
unfolding lookup redirect
lookup-redirect k old new [] = refl
lookup-redirect k old new (_ ∷ d) = ground (arith, lookup-redirect k old new d)

-- The names apart from the two of a rename.
find_user_renamed_other :
    (old new other : String) (us : List User)
    → (other == old) ≡ false
    → (other == new) ≡ false
    → find_user other (rename_rows old new us) ≡ find_user other us
unfolding find_user rename_rows
find_user_renamed_other old new other [] h k = refl
find_user_renamed_other old new other (u ∷ us) h k =
    ground (arith, find_user_renamed_other old new other us)

-- What is left in the caches after a name was dropped has another name.
pub lookup-invalidate_by_username :
    (name other : String) (s : UserStore)
    → lookup other (invalidate_by_username name s).by_username
      ≡ (if name == other then none else lookup other s.by_username)
unfolding invalidate_by_username
lookup-invalidate_by_username name other s = ground (arith, lookup-erase other name s.by_username)

pub placed_after_invalidate :
    (name : String) (k : Key) (u : User) (s : UserStore)
    → (lookup k s.by_platform ≡ some u
        → (lookup u.username s.by_username ≡ some u) × (contains (keys u.identities) k ≡ true))
    → lookup k (invalidate_by_username name s).by_platform ≡ some u
    → ((lookup u.username s.by_username ≡ some u) × (contains (keys u.identities) k ≡ true))
      × ((name == u.username) ≡ false)
unfolding invalidate_by_username
placed_after_invalidate name k u s c h = elim (Option-cases (lookup name s.by_username)) [
  | inl absent ↦ let p = c (ground arith) in (p, ground arith)
  | inr (v, cached) ↦
      let erased = lookup-erase_keys k (keys v.identities) s.by_platform in
      let p = c (ground arith) in (p, ground arith)
]

row_after_load :
    (name : String) (u : User) (s : UserStore)
    → find_user name s.users ≡ some u
    → find_user u.username (load_user name s).1.users ≡ some u
row_after_load name u s found =
    ground (arith, users-load_user name s, find_user-username name u s.users)

pub reload-Coherent : (name : String) (s : UserStore) → Coherent s → Coherent (reload name s).1
unfolding reload
reload-Coherent name s c = elim (Option-cases (find_user name s.users)) [
  | inl absent ↦ let same : (reload name s).1 ≡ s = ground arith in rw same c
  | inr (u, found) ↦
      let loaded = (load_user name s).1 in
      let step : (reload name s).1 ≡ populate_cache u loaded = ground arith in
      rw step (
        populate_cache-Coherent u loaded (row_after_load name u s found)
          (load_user-Coherent name s c))
]

pub index-invalidate_by_username :
    (name : String) (s : UserStore) → (invalidate_by_username name s).index ≡ s.index
unfolding invalidate_by_username
index-invalidate_by_username name s = ground arith

abbrev renamed_tables : String → String → UserStore → UserStore
renamed_tables old new s = record s {
  index = redirect old new s.index;
  users = rename_rows old new s.users;
}

-- A row of the index leads to the user who has its key, under the new name as well.
renamed_index :
    (old new : String) (s : UserStore) (k : Key) (n : String)
    → find_user new s.users ≡ none
    → Coherent s
    → lookup k (redirect old new s.index) ≡ some n
    → (u : User) × ((find_user n (invalidate_by_username old (renamed_tables old new s)).users
          ≡ some u)
        × (contains (keys u.identities) k ≡ true))
renamed_index old new s k n free c h =
    let users' = users-invalidate_by_username old (renamed_tables old new s) in
    let moved = lookup-redirect k old new s.index in
    elim (Option-cases (lookup k s.index)) [
      | inl unknown ↦ ground arith
      | inr (m, known) ↦
          let (v, (row, held)) = c.indexed k m known in
          elim (Bool-cases (m == old)) [
            | inl mine ↦ (
              record v { username = new },
              (ground (arith, find_user-rename_rows old new s.users), held),
            )
            | inr other ↦ (v, (ground (arith, find_user_renamed_other old new m s.users), held))
          ]
    ]

-- The two updates of a rename, and the invalidation under the old name.
renamed_tables-Coherent :
    (old new : String) (s : UserStore)
    → find_user new s.users ≡ none
    → Coherent s
    → Coherent (invalidate_by_username old (renamed_tables old new s))
renamed_tables-Coherent old new s free c =
    let s' = renamed_tables old new s in
    let users' = users-invalidate_by_username old s' in
    let index' = index-invalidate_by_username old s' in
    record {
      named = λ n v h.
          let left = lookup-invalidate_by_username old n s' in
          let row = c.named n v (ground arith) in
          ground (arith, find_user_renamed_other old new n s.users);
      placed = λ k v h.
          let ((cached, held), apart) = placed_after_invalidate old k v s' (c.placed k v) h in
          (ground (arith, lookup-invalidate_by_username old v.username s'), held);
      indexed = λ k n h. renamed_index old new s k n free c (ground arith);
    }

-- A rename keeps the store coherent, also where it raises.
rename_user-Coherent :
    (username new_username : String) (s : UserStore)
    → Coherent s
    → Coherent (rename_user username new_username s).1
unfolding rename_user
rename_user-Coherent username new_username s c =
    let s' = invalidate_by_username username (renamed_tables username new_username s) in
    elim (Bool-cases (username_taken new_username s)) [
      | inl taken ↦
          let same : (rename_user username new_username s).1 ≡ s = ground arith in rw same c
      | inr free ↦
          let step : rename_user username new_username s ≡ reload new_username s' = ground arith in
          rw step (
            reload-Coherent new_username s'
              (renamed_tables-Coherent username new_username s (ground arith) c))
    ]
