-- ===== src/Users/Store/Coherence.antt =====
-- The invariant of the store: what a cache holds is the row of the table, under every key of that
-- row and no other, and a row of the index leads to a user who has its key.
use tiny_ctx.Base.{
  String, ◌≡◌, true, ◌||◌, List, ◌∷◌, none, some, ◌==◌, string_eq, pair_eq, contains, arith,
  Option-cases, inl, inr, Bool-cases,
}
use tiny_ctx.Base.Dict.{lookup, insert, has_key, lookup-insert, lookup-erase}
use tiny_ctx.Users.Models.{User}
use tiny_ctx.Users.Store.{
  UserStore, Key, keys, find_user, load_user, populate_cache, invalidate, update_user, insert_user,
  username_taken,
}
use tiny_ctx.Users.Store.Caches.{
  lookup-insert_keys, lookup-erase_keys, find_user-update_rows, updated,
}

pub record Coherent (s : UserStore) : Type 0 where
  pub named :
      (name : String) (u : User)
      → lookup name s.by_username ≡ some u
      → find_user name s.users ≡ some u
  pub placed :
      (k : Key) (u : User)
      → lookup k s.by_platform ≡ some u
      → (lookup u.username s.by_username ≡ some u) × (contains (keys u.identities) k ≡ true)
  pub indexed :
      (k : Key) (name : String)
      → lookup k s.index ≡ some name
      → (u : User) × ((find_user name s.users ≡ some u) × (contains (keys u.identities) k ≡ true))

-- To cache a row under its name, or under one of its keys, keeps the invariant.
pub cache_name-Coherent :
    (name : String) (u : User) (s : UserStore)
    → find_user name s.users ≡ some u
    → Coherent s
    → Coherent (record s { by_username = insert name u s.by_username })
cache_name-Coherent name u s found c = record {
  named = λ n v h. ground (arith, lookup-insert n name u s.by_username, c.named n v);
  placed = λ k v h.
      ground
        (arith, lookup-insert v.username name u s.by_username, c.placed k v, c.named v.username v);
  indexed = c.indexed;
}

pub cache_key-Coherent :
    (k : Key) (u : User) (s : UserStore)
    → lookup u.username s.by_username ≡ some u
    → contains (keys u.identities) k ≡ true
    → Coherent s
    → Coherent (record s { by_platform = insert k u s.by_platform })
cache_key-Coherent k u s cached held c = record {
  named = c.named;
  placed = λ j v h. ground (arith, lookup-insert j k u s.by_platform, c.placed j v);
  indexed = c.indexed;
}

pub load_user-Coherent :
    (name : String) (s : UserStore) → Coherent s → Coherent (load_user name s).1
unfolding load_user
load_user-Coherent name s c = elim (Option-cases (find_user name s.users)) [
  | inl absent ↦ let same : (load_user name s).1 ≡ s = ground arith in rw same c
  | inr (u, found) ↦
      let cached : (load_user name s).1 ≡ record s { by_username = insert name u s.by_username } =
        ground arith in
      rw cached (cache_name-Coherent name u s found c)
]

new_row : (u : User) (us : List User) → find_user u.username (u ∷ us) ≡ some u
unfolding find_user
new_row u us = ground arith

pub populate_cache-Coherent :
    (u : User) (s : UserStore)
    → find_user u.username s.users ≡ some u
    → Coherent s
    → Coherent (populate_cache u s)
unfolding populate_cache
populate_cache-Coherent u s found c = record {
  named = λ n v h. ground (arith, lookup-insert n u.username u s.by_username, c.named n v);
  placed = λ k v h. ground (
    arith,
    lookup-insert_keys k (keys u.identities) u s.by_platform,
    c.placed k v,
    lookup-insert v.username u.username u s.by_username,
    c.named v.username v,
  );
  indexed = c.indexed;
}

-- An update of a user under the same keys keeps the invariant: what was cached of the old row is
-- dropped.
pub update_user-Coherent :
    (u r : User) (s : UserStore)
    → find_user u.username s.users ≡ some r
    → keys u.identities ≡ keys r.identities
    → Coherent s
    → Coherent (update_user u s)
unfolding update_user invalidate
update_user-Coherent u r s found same c = record {
  named = λ n v h. ground (
    arith,
    lookup-erase n u.username s.by_username,
    find_user-update_rows n u s.users,
    c.named n v,
  );
  placed = λ k v h. ground (
    arith,
    lookup-erase_keys k (keys u.identities) s.by_platform,
    lookup-erase v.username u.username s.by_username,
    c.placed k v,
    c.named v.username v,
  );
  indexed = λ k n h.
      let (v, (row, held)) = c.indexed k n h in
      elim (Bool-cases (u.username == n)) [
        | inl mine ↦
            (updated u v, (ground (arith, find_user-update_rows n u s.users), ground arith))
        | inr apart ↦ (v, (ground (arith, find_user-update_rows n u s.users), held))
      ];
}

-- The two new rows keep the invariant where neither was there.
insert_rows-Coherent :
    (u : User) (key : Key) (s : UserStore)
    → contains (keys u.identities) key ≡ true
    → find_user u.username s.users ≡ none
    → Coherent s
    → Coherent (record s { users = u ∷ s.users; index = insert key u.username s.index })
unfolding find_user
insert_rows-Coherent u key s held free c = record {
  named = λ n v h. ground (arith, c.named n v);
  placed = λ k v h. ground (arith, c.placed k v);
  indexed = λ k n h. elim (Bool-cases (key == k)) [
    | inl new ↦ (u, (ground (arith, lookup-insert k key u.username s.index), ground arith))
    | inr old ↦
        let before : lookup k s.index ≡ some n =
          ground (arith, lookup-insert k key u.username s.index) in
        let (v, (row, with_key)) = c.indexed k n before in (v, (ground arith, with_key))
  ];
}

-- A new user under a new key keeps the invariant; where the insert fails nothing changes.
pub insert_user-Coherent :
    (u : User) (key : Key) (s : UserStore)
    → contains (keys u.identities) key ≡ true
    → Coherent s
    → Coherent (insert_user u key s).1
unfolding insert_user
insert_user-Coherent u key s held c =
    elim (Bool-cases (username_taken u.username s || has_key key s.index)) [
      | inl refused ↦ let same : (insert_user u key s).1 ≡ s = ground arith in rw same c
      | inr free ↦
          let s' : UserStore = record s {
            users = u ∷ s.users;
            index = insert key u.username s.index;
          } in
          let inserted : (insert_user u key s).1 ≡ populate_cache u s' = ground arith in
          let rows = insert_rows-Coherent u key s held (ground arith) c in
          rw inserted (populate_cache-Coherent u s' (new_row u s.users) rows)
    ]
