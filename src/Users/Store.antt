-- ===== src/Users/Store.antt =====
-- TinyCTX/users/store.py: the two tables of `UserStore`, the two caches in front of them, and the
-- methods that read and change both. A JSON column stands for what it holds; a cached user stands
-- for the object that the cache refers to, which no code changes after it was put there but
-- `_maybe_update_identity`, where it is dropped from the caches at once.
pub mod Caches
pub mod Coherence
pub mod Creation
pub mod Resolution
pub mod Merge
pub mod Renaming
pub mod Merging
use tiny_ctx.Base.{
  String, ℕ, ◌≡◌, refl, Bool, true, false, not, ◌&&◌, ◌||◌, List, [], ◌∷◌, ◌++◌, Option, none, some,
  ◌==◌, string_eq, pair_eq, if◌then◌else◌, contains, map,
}
use tiny_ctx.Base.Dict.{Dict, lookup, insert, erase, has_key}
use tiny_ctx.Users.Models.{
  Platform, cli, discord, matrix, telegram, cron, api, system, PlatformIdentity, User,
}

-- `Platform.value`
unfoldable pub platform_value : Platform → String
platform_value cli = "cli"
platform_value discord = "discord"
platform_value matrix = "matrix"
platform_value telegram = "telegram"
platform_value cron = "cron"
platform_value api = "api"
platform_value system = "system"

-- `(platform.value, user_id)`
abbrev pub Key : Type 0
Key = String × String

abbrev pub key_of : PlatformIdentity → Key
key_of ident = (platform_value ident.platform, ident.user_id)

unfoldable pub keys : List PlatformIdentity → List Key
keys [] = []
keys (i ∷ is) = key_of i ∷ keys is

pub record UserStore : Type 0 where
  pub users : List User
  pub index : Dict Key String
  pub by_platform : Dict Key User
  pub by_username : Dict String User

-- How a method raises; `still_drawing` stands for a loop over random names that has not ended.
pub data StoreError : Type 0 where
  username_conflict user_not_found integrity_error assertion_error still_drawing : StoreError

pub data Answer (A : Type 0) : Type 0 where
  answered : A → Answer A
  failed : StoreError → Answer A

-- `SELECT * FROM users WHERE username = ?`
unfoldable pub find_user : String → List User → Option User
find_user name [] = none
find_user name (u ∷ us) = if u.username == name then some u else find_user name us

-- `_username_taken`
abbrev pub username_taken : String → UserStore → Bool
username_taken name s = elim (find_user name s.users) [ none ↦ false | some _ ↦ true ]

-- `_load_user`
unfoldable pub load_user : String → UserStore → Option User × UserStore
load_user name s = elim (find_user name s.users) [
  | none ↦ (none, s)
  | some u ↦ (some u, record s { by_username = insert name u s.by_username })
]

-- The loops over the identities of a user in `_populate_cache` and `_invalidate`.
unfoldable pub insert_keys : List Key → User → Dict Key User → Dict Key User
insert_keys [] u d = d
insert_keys (k ∷ ks) u d = insert_keys ks u (insert k u d)

unfoldable pub erase_keys : List Key → Dict Key User → Dict Key User
erase_keys [] d = d
erase_keys (k ∷ ks) d = erase_keys ks (erase k d)

-- `_populate_cache`
unfoldable pub populate_cache : User → UserStore → UserStore
populate_cache u s = record s {
  by_username = insert u.username u s.by_username;
  by_platform = insert_keys (keys u.identities) u s.by_platform;
}

-- `_invalidate`
unfoldable pub invalidate : User → UserStore → UserStore
invalidate u s = record s {
  by_username = erase u.username s.by_username;
  by_platform = erase_keys (keys u.identities) s.by_platform;
}

-- `UPDATE users SET permission_overrides, identities, meta WHERE username = ?`
unfoldable pub update_rows : User → List User → List User
update_rows u [] = []
update_rows u (r ∷ rs) =
    let rest = update_rows u rs in
    if r.username == u.username
    then record r {
      permission_overrides = u.permission_overrides;
      identities = u.identities;
      meta = u.meta;
    }
      ∷ rest
    else r ∷ rest

unfoldable pub update_user : User → UserStore → UserStore
update_user u s = invalidate u (record s { users = update_rows u s.users })

unfoldable pub get_user : String → UserStore → Option User × UserStore
get_user name s = elim (lookup name s.by_username) [
  | some u ↦ (some u, s)
  | none ↦ load_user name s
]

unfoldable pub get_by_platform : Platform → String → UserStore → Option User × UserStore
get_by_platform platform user_id s =
    let key : Key = (platform_value platform, user_id) in
    elim (lookup key s.by_platform) [
      | some u ↦ (some u, s)
      | none ↦ elim (lookup key s.index) [ none ↦ (none, s) | some name ↦ load_user name s ]
    ]

-- The loop of `_maybe_update_identity`: the identities after a change, and none without one.
unfoldable pub changed_identities :
    Platform → String → String → String → List PlatformIdentity → Option (List PlatformIdentity)
changed_identities platform user_id username display_name [] = none
changed_identities platform user_id username display_name (i ∷ is) =
    let rest = changed_identities platform user_id username display_name is in
    if key_of i == (platform_value platform, user_id)
    then (if i.username == username && i.display_name == display_name
        then none
        else some (
            record {
              platform = platform;
              user_id = user_id;
              username = username;
              display_name = display_name;
            }
            ∷ is))
    else elim rest [ none ↦ none | some is' ↦ some (i ∷ is') ]

unfoldable pub maybe_update_identity :
    User → Platform → String → String → String → UserStore → User × UserStore
maybe_update_identity u platform user_id username display_name s =
    elim (changed_identities platform user_id username display_name u.identities) [
      | none ↦ (u, s)
      | some is ↦ let u' : User = record u { identities = is } in (u', update_user u' s)
    ]

-- The two inserts of a new user in one transaction, then the caches.
unfoldable pub insert_user : User → Key → UserStore → Answer User × UserStore
insert_user u key s =
    if username_taken u.username s || has_key key s.index then (failed integrity_error, s) else (
      answered u,
      populate_cache u (record s { users = u ∷ s.users; index = insert key u.username s.index }),
    )

-- The loop over random names, on the names that are drawn; none where it would draw on.
unfoldable pub draw_username : List String → UserStore → Option String
draw_username [] s = none
draw_username (name ∷ draws) s =
    let rest = draw_username draws s in if username_taken name s then rest else some name

-- `_pick_username`, on the slugs of the two names
unfoldable pub pick_username : List String → List String → UserStore → Option String
pick_username [] draws s = draw_username draws s
pick_username (slug ∷ slugs) draws s =
    let rest = pick_username slugs draws s in
    if not (slug == "") && not (username_taken slug s) then some slug else rest

abbrev pub new_user : String → ℕ → PlatformIdentity → User
new_user name now identity = record {
  username = name;
  identities = identity ∷ [];
  meta = [];
  created_at = now;
  permission_overrides = [];
}

module _ (slugify : String → String) where
  -- `_create_user`
  unfoldable pub create_picked :
      List String → ℕ → Platform → String → String → String → UserStore → Answer User × UserStore
  create_picked draws now platform user_id username display_name s =
      let identity : PlatformIdentity = record {
        platform = platform;
        user_id = user_id;
        username = username;
        display_name = display_name;
      } in
      elim (pick_username (slugify username ∷ slugify display_name ∷ []) draws s) [
        | none ↦ (failed still_drawing, s)
        | some name ↦ insert_user (new_user name now identity) (platform_value platform, user_id) s
      ]

  unfoldable pub resolve_user :
      List String → ℕ → Platform → String → String → String → UserStore → Answer User × UserStore
  resolve_user draws now platform user_id username display_name s =
      let key : Key = (platform_value platform, user_id) in
      let created = create_picked draws now platform user_id username display_name s in
      elim (lookup key s.by_platform) [
        | some u ↦
            let (u', s') = maybe_update_identity u platform user_id username display_name s in
            (answered u', s')
        | none ↦ elim (lookup key s.index) [
          | none ↦ created
          | some name ↦ elim (find_user name s.users) [
            | none ↦ created
            | some u ↦
                let (u', s') =
                  maybe_update_identity u platform user_id username display_name
                    (load_user name s).1 in
                (
                  answered u',
                  record s' {
                    by_platform = insert key u' s'.by_platform;
                    by_username = insert u'.username u' s'.by_username;
                  },
                )
          ]
        ]
      ]

unfoldable pub create_user : String → ℕ → Platform → UserStore → Answer User × UserStore
create_user username now platform s =
    if username_taken username s
    then (failed username_conflict, s)
    else insert_user
        (new_user username now (record {
          platform = platform;
          user_id = username;
          username = username;
          display_name = username;
        }))
        (platform_value platform, username) s
