-- ===== src/Tests/Store.antt =====
-- The store of users: one user created on the command line, and a second one with a chat account.
use tiny_ctx.Base.{
  ℕ, String, ◌≡◌, refl, true, false, not, List, [], ◌∷◌, none, some, ◌==◌, string_eq, pair_eq,
  exists, arith,
}
use tiny_ctx.Base.Dict.{lookup, insert}
use tiny_ctx.Users.Models.{Platform, cli, discord, PlatformIdentity, User}
use tiny_ctx.Users.Store.{
  Key, UserStore, answered, failed, assertion_error, platform_value, find_user, insert_user,
  populate_cache, create_user, resolve_user, username_taken, new_user,
}
use tiny_ctx.Users.Store.Coherence.{Coherent}
use tiny_ctx.Users.Store.Creation.{Answers, create_user-Coherent}
use tiny_ctx.Users.Store.Resolution.{resolve_user-Answers}
use tiny_ctx.Users.Store.Merging.{merge_users-Coherent}
use tiny_ctx.Users.Store.Merge.{
  identity_at, merge_users, merge_users-merges, merge_users-deletes_self,
}

abbrev empty : UserStore
empty = record { users = []; index = []; by_platform = []; by_username = [] }

empty-Coherent : Coherent empty
unfolding lookup
empty-Coherent = record {
  named = λ n u h. ground arith;
  placed = λ k u h. ground arith;
  indexed = λ k n h. ground arith;
}

abbrev one_user : UserStore
one_user = (create_user "alice" 0 cli empty).1

one_user-Coherent : Coherent one_user
one_user-Coherent = create_user-Coherent "alice" 0 cli empty empty-Coherent

abbrev draws : List String
draws = "alice" ∷ "calm-fox-1234" ∷ []

some_draw_free : exists (λ name. not (username_taken name one_user)) draws ≡ true
unfolding exists create_user insert_user populate_cache find_user string_eq lookup
some_draw_free = refl

resolve_user-Answers_example :
    (u : User) × (((resolve_user (λ s. s) draws 5 discord "42" "alice" "" one_user).0 ≡ answered u)
      × Answers
          (platform_value discord, "42")
          u
          (resolve_user (λ s. s) draws 5 discord "42" "alice" "" one_user).1)
resolve_user-Answers_example =
    resolve_user-Answers (λ s. s) draws 5 discord "42" "alice" "" one_user some_draw_free
      one_user-Coherent

abbrev bob_identity : PlatformIdentity
bob_identity = record { platform = discord; user_id = "42"; username = "b"; display_name = "Bob" }

abbrev alice_identity : PlatformIdentity
alice_identity = record { platform = cli; user_id = "al"; username = "al"; display_name = "Al" }

abbrev bob : User
bob = new_user "bob" 2 bob_identity

abbrev al : User
al = new_user "al" 1 alice_identity

-- What `create_user` makes.
abbrev own_user : String → ℕ → Platform → User
own_user name now platform =
    new_user name now
      (record { platform = platform; user_id = name; username = name; display_name = name })

abbrev two_users : UserStore
two_users = record { users = bob ∷ al ∷ []; index = []; by_platform = []; by_username = [] }

abbrev al_name : String
al_name = "al"

abbrev bob_name : String
bob_name = "bob"

abbrev al_bob : UserStore
al_bob = (create_user bob_name 2 discord (create_user al_name 1 cli empty).1).1

names_differ : (al_name == bob_name) ≡ false
unfolding string_eq
names_differ = refl

found_al : find_user al_name two_users.users ≡ some al
unfolding find_user string_eq
found_al = refl

found_bob : find_user bob_name two_users.users ≡ some bob
unfolding find_user string_eq
found_bob = refl

merge_users-merges_example :
    (is : List PlatformIdentity) × (((merge_users al_name bob_name two_users).0
        ≡ answered (record al { identities = is }))
      × ((find_user al_name (merge_users al_name bob_name two_users).1.users
            ≡ some (record al { identities = is }))
          × (((k : Key)
                → identity_at k is ≡ elim (identity_at k al.identities) [
                  | none ↦ identity_at k bob.identities
                  | some i ↦ some i
                ])
              × (find_user bob_name (merge_users al_name bob_name two_users).1.users ≡ none))))
merge_users-merges_example =
    merge_users-merges al_name bob_name al bob two_users names_differ found_al found_bob

merge_users-deletes_self_example :
    ((merge_users al_name al_name two_users).0 ≡ failed assertion_error)
    × (find_user al_name (merge_users al_name al_name two_users).1.users ≡ none)
merge_users-deletes_self_example = merge_users-deletes_self al_name al two_users found_al

al_bob-Coherent : Coherent al_bob
al_bob-Coherent =
    create_user-Coherent bob_name 2 discord (create_user al_name 1 cli empty).1
      (create_user-Coherent al_name 1 cli empty empty-Coherent)

created_al : find_user al_name al_bob.users ≡ some (own_user al_name 1 cli)
unfolding create_user insert_user populate_cache find_user string_eq lookup insert pair_eq
    platform_value
created_al = refl

created_bob : find_user bob_name al_bob.users ≡ some (own_user bob_name 2 discord)
unfolding create_user insert_user populate_cache find_user string_eq lookup insert pair_eq
    platform_value
created_bob = refl

merge_users-Coherent_example : Coherent (merge_users al_name bob_name al_bob).1
merge_users-Coherent_example =
    merge_users-Coherent al_name bob_name (own_user al_name 1 cli) (own_user bob_name 2 discord)
      al_bob names_differ created_al created_bob al_bob-Coherent
