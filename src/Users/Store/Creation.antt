-- ===== src/Users/Store/Creation.antt =====
-- What a lookup by name answers, and how a new user comes to be.
use tiny_ctx.Base.{
  String, ℕ, ◌≡◌, true, false, not, ◌&&◌, List, [], ◌∷◌, some, ◌==◌, string_eq, pair_eq, contains,
  contains_self, exists, arith, Option-cases, inl, inr, Bool-cases,
}
use tiny_ctx.Base.Dict.{lookup, has_key}
use tiny_ctx.Users.Models.{Platform, PlatformIdentity, User}
use tiny_ctx.Users.Store.{
  UserStore, Key, answered, key_of, keys, find_user, load_user, get_user, insert_user, new_user,
  create_user, username_taken, pick_username, draw_username, populate_cache,
}
use tiny_ctx.Users.Store.Coherence.{Coherent, insert_user-Coherent}

-- A lookup by name answers what the table holds, cached or not.
get_user-find_user :
    (name : String) (s : UserStore) → Coherent s → (get_user name s).0 ≡ find_user name s.users
unfolding get_user load_user
get_user-find_user name s c = elim (Option-cases (lookup name s.by_username)) [
  | inl fresh ↦ ground arith
  | inr (u, cached) ↦ ground (arith, c.named name u cached)
]

-- A step from a row of the table: the user that it answers is the row of the new table, and has
-- the key.
pub record Answers (key : Key) (u : User) (s : UserStore) : Type 0 where
  pub row : find_user u.username s.users ≡ some u
  pub held : contains (keys u.identities) key ≡ true
  pub coherent : Coherent s

-- Where one of the names drawn is free, a free name is picked.
draw_username_free :
    (draws : List String) (s : UserStore)
    → exists (λ name. not (username_taken name s)) draws ≡ true
    → (name : String) × ((draw_username draws s ≡ some name) × (username_taken name s ≡ false))
unfolding draw_username exists
draw_username_free [] s h = ground arith
draw_username_free (name ∷ draws) s h = elim (Bool-cases (username_taken name s)) [
  | inl taken ↦
      let (other, (drawn, free)) = draw_username_free draws s (ground arith) in
      (other, (ground arith, free))
  | inr free ↦ (name, (ground arith, free))
]

pub pick_username_free :
    (slugs draws : List String) (s : UserStore)
    → exists (λ name. not (username_taken name s)) draws ≡ true
    → (name : String) × ((pick_username slugs draws s ≡ some name)
        × (username_taken name s ≡ false))
unfolding pick_username
pick_username_free [] draws s h = draw_username_free draws s h
pick_username_free (slug ∷ slugs) draws s h =
    let (other, (picked, free)) = pick_username_free slugs draws s h in
    elim (Bool-cases (not (slug == "") && not (username_taken slug s))) [
      | inl good ↦ (slug, (ground arith, ground arith))
      | inr bad ↦ (other, (ground arith, free))
    ]

-- A new user of one identity, where neither the name nor the key is there.
pub insert_user-Answers :
    (name : String) (now : ℕ) (identity : PlatformIdentity) (s : UserStore)
    → username_taken name s ≡ false
    → has_key (key_of identity) s.index ≡ false
    → Coherent s
    → let u = new_user name now identity in
      let r = insert_user u (key_of identity) s in
      (r.0 ≡ answered u) × Answers (key_of identity) u r.1
unfolding keys insert_user populate_cache find_user
insert_user-Answers name now identity s free fresh c =
    let u = new_user name now identity in
    let has_it : contains (keys u.identities) (key_of identity) ≡ true =
      contains_self (key_of identity) [] in
    (
      ground arith,
      record {
        row = ground arith;
        held = has_it;
        coherent = insert_user-Coherent u (key_of identity) s has_it c;
      },
    )

-- Creating a user under an exact name keeps the invariant, and raises where the name is taken.
pub create_user-Coherent :
    (username : String) (now : ℕ) (platform : Platform) (s : UserStore)
    → Coherent s
    → Coherent (create_user username now platform s).1
unfolding create_user keys
create_user-Coherent username now platform s c =
    let identity : PlatformIdentity = record {
      platform = platform;
      user_id = username;
      username = username;
      display_name = username;
    } in
    let u = new_user username now identity in
    elim (Bool-cases (username_taken username s)) [
      | inl taken ↦
          let same : (create_user username now platform s).1 ≡ s = ground arith in rw same c
      | inr free ↦
          let step : create_user username now platform s ≡ insert_user u (key_of identity) s =
            ground arith in
          rw step
            (insert_user-Coherent u (key_of identity) s (contains_self (key_of identity) []) c)
    ]
