-- ===== src/Users/Store/Merging.antt =====
-- A merge of two users keeps the invariant of the store.
use tiny_ctx.Base.{
  String, ◌≡◌, refl, true, false, not, ◌&&◌, ◌||◌, List, [], ◌∷◌, ◌++◌, none, some, ◌==◌, string_eq,
  pair_eq, if◌then◌else◌, contains, keep, arith, Option-cases, inl, inr, Bool-cases,
}
use tiny_ctx.Base.Dict.{lookup, lookup-erase}
use tiny_ctx.Users.Models.{PlatformIdentity, User}
use tiny_ctx.Users.Store.{UserStore, Key, key_of, keys, find_user, load_user, invalidate}
use tiny_ctx.Users.Store.Caches.{lookup-erase_keys, find_user-username}
use tiny_ctx.Users.Store.Coherence.{Coherent, load_user-Coherent}
use tiny_ctx.Users.Store.Merge.{
  invalidate_by_username, redirect, set_identities, delete_user, merge_identities, merge_rows,
  merge_users, merged_store, merge_users-reload, users-load_user, users-invalidate_by_username,
  find_user-delete_user, find_user-set_identities,
}
use tiny_ctx.Users.Store.Renaming.{
  lookup-redirect, lookup-invalidate_by_username, placed_after_invalidate,
  index-invalidate_by_username, reload-Coherent,
}

contains-keys-append :
    (xs ys : List PlatformIdentity) (k : Key)
    → contains (keys (xs ++ ys)) k ≡ (contains (keys xs) k || contains (keys ys) k)
unfolding contains keys
contains-keys-append [] ys k = refl
contains-keys-append (x ∷ xs) ys k = ground (arith, contains-keys-append xs ys k)

contains-keys-keep :
    (ks : List Key) (xs : List PlatformIdentity) (k : Key)
    → contains (keys (keep (λ x. not (contains ks (key_of x))) xs)) k
      ≡ (contains (keys xs) k && not (contains ks k))
unfolding contains keys keep
contains-keys-keep ks [] k = refl
contains-keys-keep ks (x ∷ xs) k = ground (arith, contains-keys-keep ks xs k)

contains-keys-merge_identities :
    (ps qs : List PlatformIdentity) (k : Key)
    → contains (keys (merge_identities ps qs)) k ≡ (contains (keys ps) k || contains (keys qs) k)
unfolding merge_identities
contains-keys-merge_identities ps qs k = ground (
  arith,
  contains-keys-append ps (keep (λ q. not (contains (keys ps) (key_of q))) qs) k,
  contains-keys-keep (keys ps) qs k,
)

-- The rows of a merge under each name.
find_user-merged :
    (primary secondary other : String) (p : User) (is : List PlatformIdentity) (us : List User)
    → (primary == secondary) ≡ false
    → find_user primary us ≡ some p
    → find_user other (delete_user secondary (set_identities primary is us)) ≡ (
        if other == secondary
        then none
        else if other == primary
        then some (record p { identities = is })
        else find_user other us)
find_user-merged primary secondary other p is us apart found = ground (
  arith,
  find_user-delete_user secondary other (set_identities primary is us),
  find_user-set_identities primary other is us,
)

-- The store after both invalidations, on a coherent store in which both users are loaded.
abbrev merged : String → String → User → List PlatformIdentity → UserStore → UserStore
merged primary secondary p is s =
    invalidate (record p { identities = is })
      (invalidate_by_username secondary (merge_rows primary secondary is s))

merged_index :
    (primary secondary : String) (p q : User) (k : Key) (n : String) (s : UserStore)
    → (primary == secondary) ≡ false
    → find_user primary s.users ≡ some p
    → find_user secondary s.users ≡ some q
    → Coherent s
    → lookup k (redirect secondary primary s.index) ≡ some n
    → let is = merge_identities p.identities q.identities in
      (u : User) × ((find_user n (delete_user secondary (set_identities primary is s.users))
          ≡ some u)
        × (contains (keys u.identities) k ≡ true))
merged_index primary secondary p q k n s apart found other c h =
    let is = merge_identities p.identities q.identities in
    let moved = lookup-redirect k secondary primary s.index in
    let rows = find_user-merged primary secondary n p is s.users apart found in
    let both = contains-keys-merge_identities p.identities q.identities k in
    elim (Option-cases (lookup k s.index)) [
      | inl unknown ↦ ground arith
      | inr (m, known) ↦
          let (v, (row, held)) = c.indexed k m known in
          elim (Bool-cases (n == primary)) [
            | inl first ↦ (record p { identities = is }, (ground arith, ground arith))
            | inr third ↦ (v, (ground arith, held))
          ]
    ]

merged-Coherent :
    (primary secondary : String) (p q : User) (s : UserStore)
    → (primary == secondary) ≡ false
    → find_user primary s.users ≡ some p
    → find_user secondary s.users ≡ some q
    → Coherent s
    → Coherent (merged primary secondary p (merge_identities p.identities q.identities) s)
unfolding invalidate merge_rows
merged-Coherent primary secondary p q s apart found other c =
    let is = merge_identities p.identities q.identities in
    let w = merge_rows primary secondary is s in
    let d = invalidate_by_username secondary w in
    let own : p.username ≡ primary = find_user-username primary p s.users found in
    let users' : d.users ≡ delete_user secondary (set_identities primary is s.users) =
      users-invalidate_by_username secondary w in
    let index' : d.index ≡ redirect secondary primary s.index =
      index-invalidate_by_username secondary w in
    record {
      named = λ n v h.
          let kept = lookup-erase n p.username d.by_username in
          let left = lookup-invalidate_by_username secondary n w in
          let row = c.named n v (ground arith) in
          ground (arith, find_user-merged primary secondary n p is s.users apart found);
      placed = λ k v h.
          let kept = lookup-erase_keys k (keys is) d.by_platform in
          let ((cached, held), differ) =
            placed_after_invalidate secondary k v w (c.placed k v) (ground arith) in
          let row = c.named v.username v cached in
          let both = contains-keys-merge_identities p.identities q.identities k in
          let left = lookup-invalidate_by_username secondary v.username w in
          (ground (arith, lookup-erase v.username p.username d.by_username), held);
      indexed = λ k n h.
          let (u, (row, held)) =
            merged_index primary secondary p q k n s apart found other c (ground arith) in
          (u, (ground arith, held));
    }

-- A merge of two different users that exist keeps the store coherent.
pub merge_users-Coherent :
    (primary secondary : String) (p q : User) (s : UserStore)
    → (primary == secondary) ≡ false
    → find_user primary s.users ≡ some p
    → find_user secondary s.users ≡ some q
    → Coherent s
    → Coherent (merge_users primary secondary s).1
unfolding merged_store
merge_users-Coherent primary secondary p q s apart found other c =
    let s1 = (load_user primary s).1 in
    let s2 = (load_user secondary s1).1 in
    let rows : s2.users ≡ s.users =
      ground (arith, users-load_user primary s, users-load_user secondary s1) in
    let c2 = load_user-Coherent secondary s1 (load_user-Coherent primary s c) in
    let step = merge_users-reload primary secondary p q s found other in
    rw step (
      reload-Coherent primary (merged_store primary secondary p q s)
        (merged-Coherent primary secondary p q s2 apart (rw rows found) (rw rows other) c2))
