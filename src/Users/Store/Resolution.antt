-- ===== src/Users/Store/Resolution.antt =====
-- What `resolve_user` answers, and that it keeps the invariant.
use tiny_ctx.Base.{
  String, ℕ, ◌≡◌, refl, true, false, not, List, [], ◌∷◌, some, string_eq, pair_eq, contains, exists,
  arith, Option-cases, inl, inr,
}
use tiny_ctx.Base.Dict.{lookup-insert, lookup, insert, has_key}
use tiny_ctx.Users.Models.{Platform, PlatformIdentity, User}
use tiny_ctx.Users.Store.{
  UserStore, Key, answered, platform_value, key_of, keys, find_user, load_user, update_user,
  changed_identities, maybe_update_identity, insert_user, new_user, create_picked, resolve_user,
  username_taken, invalidate,
}
use tiny_ctx.Users.Store.Caches.{find_user-username, find_user-update_rows, keys-changed_identities}
use tiny_ctx.Users.Store.Coherence.{
  Coherent, cache_name-Coherent, cache_key-Coherent, load_user-Coherent, update_user-Coherent,
}
use tiny_ctx.Users.Store.Creation.{Answers, pick_username_free, insert_user-Answers}

-- An update of the identities that keeps their keys.
update_identities-Answers :
    (u : User) (is : List PlatformIdentity) (key : Key) (s : UserStore)
    → keys is ≡ keys u.identities
    → Answers key u s
    → Answers key (record u { identities = is }) (update_user (record u { identities = is }) s)
unfolding update_user invalidate
update_identities-Answers u is key s same a =
    let u' : User = record u { identities = is } in
    record {
      row = ground (arith, find_user-update_rows u.username u' s.users, a.row);
      held = ground (arith, a.held);
      coherent = update_user-Coherent u' u s a.row same a.coherent;
    }

maybe_update_identity-Answers :
    (u : User) (platform : Platform) (user_id username display_name : String) (s : UserStore)
    → Answers (platform_value platform, user_id) u s
    → Answers
        (platform_value platform, user_id)
        (maybe_update_identity u platform user_id username display_name s).0
        (maybe_update_identity u platform user_id username display_name s).1
unfolding maybe_update_identity
maybe_update_identity-Answers u platform user_id username display_name s a =
    elim (Option-cases (changed_identities platform user_id username display_name u.identities)) [
      | inl none_changed ↦
          let same : maybe_update_identity u platform user_id username display_name s ≡ (u, s) =
            ground arith in
          rw same a
      | inr (is, changed) ↦
          let u' : User = record u { identities = is } in
          let step : maybe_update_identity u platform user_id username display_name s
              ≡ (u', update_user u' s) =
            ground arith in
          let same =
            keys-changed_identities platform user_id username display_name u.identities is
              changed in
          rw step (update_identities-Answers u is (platform_value platform, user_id) s same a)
    ]

-- To cache what was answered changes nothing of it.
cached-Answers :
    (key : Key) (u : User) (s : UserStore)
    → Answers key u s
    → Answers key u (record s {
      by_platform = insert key u s.by_platform;
      by_username = insert u.username u s.by_username;
    })
cached-Answers key u s a = record {
  row = a.row;
  held = a.held;
  coherent =
      cache_key-Coherent key u (record s { by_username = insert u.username u s.by_username })
        (ground (arith, lookup-insert u.username u.username u s.by_username)) a.held
        (cache_name-Coherent u.username u s a.row a.coherent);
}

load_user-Answers :
    (name : String) (key : Key) (u : User) (s : UserStore)
    → find_user name s.users ≡ some u
    → contains (keys u.identities) key ≡ true
    → Coherent s
    → Answers key u (load_user name s).1
unfolding load_user
load_user-Answers name key u s row held c =
    let same : u.username ≡ name = find_user-username name u s.users row in
    record { row = ground arith; held = held; coherent = load_user-Coherent name s c }

module _ (slugify : String → String) where
  create_picked-Answers :
      (draws : List String) (now : ℕ) (platform : Platform) (user_id username display_name : String)
      (s : UserStore)
      → exists (λ name. not (username_taken name s)) draws ≡ true
      → has_key (platform_value platform, user_id) s.index ≡ false
      → Coherent s
      → (u : User) × (((create_picked slugify draws now platform user_id username display_name s).0
            ≡ answered u)
          × Answers
              (platform_value platform, user_id)
              u
              (create_picked slugify draws now platform user_id username display_name s).1)
  unfolding create_picked
  create_picked-Answers draws now platform user_id username display_name s some_free fresh c =
      let identity : PlatformIdentity = record {
        platform = platform;
        user_id = user_id;
        username = username;
        display_name = display_name;
      } in
      let (name, (picked, free)) =
        pick_username_free (slugify username ∷ slugify display_name ∷ []) draws s some_free in
      let step : create_picked slugify draws now platform user_id username display_name s
          ≡ insert_user (new_user name now identity) (key_of identity) s =
        ground arith in
      (new_user name now identity, rw step (insert_user-Answers name now identity s free fresh c))

  -- A platform identity is resolved to the row of a user who has it, one being created where there
  -- was none, as soon as one of the random names drawn is free; the caches stay right.
  pub resolve_user-Answers :
      (draws : List String) (now : ℕ) (platform : Platform) (user_id username display_name : String)
      (s : UserStore)
      → exists (λ name. not (username_taken name s)) draws ≡ true
      → Coherent s
      → (u : User) × (((resolve_user slugify draws now platform user_id username display_name s).0
            ≡ answered u)
          × Answers
              (platform_value platform, user_id)
              u
              (resolve_user slugify draws now platform user_id username display_name s).1)
  unfolding resolve_user
  resolve_user-Answers draws now platform user_id username display_name s some_free c =
      let key : Key = (platform_value platform, user_id) in
      let whole = resolve_user slugify draws now platform user_id username display_name s in
      elim (Option-cases (lookup key s.by_platform)) [
        | inr (u, cached) ↦
            let (named, held) = c.placed key u cached in
            let row = c.named u.username u named in
            let (u', s') = maybe_update_identity u platform user_id username display_name s in
            let step : whole ≡ (answered u', s') = ground arith in
            (
              u',
              rw step (
                refl,
                maybe_update_identity-Answers u platform user_id username display_name s
                    (record { row = row; held = held; coherent = c }),
              ),
            )
        | inl missed ↦ elim (Option-cases (lookup key s.index)) [
          | inl unknown ↦
              let created =
                create_picked slugify draws now platform user_id username display_name s in
              let step : whole ≡ created = ground arith in
              rw step (
                create_picked-Answers draws now platform user_id username display_name s some_free
                  (ground arith) c)
          | inr (name, known) ↦
              let (u, (row, held)) = c.indexed key name known in
              let s1 = (load_user name s).1 in
              let (u', s') = maybe_update_identity u platform user_id username display_name s1 in
              let answer : Answers key u' s' =
                maybe_update_identity-Answers u platform user_id username display_name s1
                  (load_user-Answers name key u s row held c) in
              let s2 : UserStore = record s' {
                by_platform = insert key u' s'.by_platform;
                by_username = insert u'.username u' s'.by_username;
              } in
              let step : whole ≡ (answered u', s2) = ground arith in
              (u', rw step (refl, cached-Answers key u' s' answer))
        ]
      ]
