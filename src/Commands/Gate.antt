-- ===== src/Commands/Gate.antt =====
-- A slash command of TinyCTX/utils/commands.py that asks for permissions runs only for a
-- caller who has them.
use tiny_ctx.Base.{
  String, ◌≡◌, ◌⊎◌, inl, inr, refl, true, List, Option, none, some, string_eq, contains,
  nonempty-minus, subset-contains, arith, Option-cases,
}
use tiny_ctx.Permissions.{Permission, permission_eq, expand}
use tiny_ctx.Users.Models.{User, PermissionsConfig, effective_permissions, has_permission}
use tiny_ctx.Commands.{
  entry_of, Server, Invocation, Entry, Dispatched, no_command, unresolved, missing_permissions,
  handler_raised, ran, Syntax, resolve_caller, config_of, check_permission, run_entry, dispatch,
}

-- No handler has run.
abbrev pub IsDenial : Dispatched → Type 0
IsDenial no_command = Unit
IsDenial unresolved = Unit
IsDenial missing_permissions = Unit
IsDenial handler_raised = ⊥
IsDenial (ran tail) = ⊥

abbrev Denies : Option Dispatched → Type 0
Denies none = Unit
Denies (some why) = IsDenial why

module _ {T W : Type 0} where
  -- A gated command has a caller who holds every permission it asks for, implied ones included.
  abbrev pub MayRun : PermissionsConfig → Entry T W → Invocation W → Server T W → Type 0
  MayRun default e inv s =
      (needed : List Permission)
      → e.required_permissions ≡ some needed
      → (u : User) × (((resolve_caller inv s).0 ≡ some u)
          × ((p : Permission)
              → contains (expand needed) p ≡ true
              → has_permission u p (config_of default inv s) ≡ true))

  -- The same database and the same world.
  abbrev pub IsUntouched : Server T W → Server T W → Type 0
  IsUntouched s' s = (s'.db ≡ s.db) × (s'.world ≡ s.world)

  resolve_caller-IsUntouched :
      (inv : Invocation W) (s : Server T W) → IsUntouched (resolve_caller inv s).1 s
  unfolding resolve_caller
  resolve_caller-IsUntouched inv s = ground arith

  check_permission-IsUntouched :
      (default : PermissionsConfig) (e : Entry T W) (inv : Invocation W) (s : Server T W)
      → IsUntouched (check_permission default e inv s).1 s
  unfolding check_permission
  check_permission-IsUntouched default e inv s =
      let kept = resolve_caller-IsUntouched inv s in ground arith

  check_permission-MayRun :
      (default : PermissionsConfig) (e : Entry T W) (inv : Invocation W) (s : Server T W)
      → (check_permission default e inv s).0 ≡ none
      → MayRun default e inv s
  unfolding check_permission has_permission
  check_permission-MayRun default e inv s h needed asks =
      elim (Option-cases (resolve_caller inv s).0) [
        | inl nobody ↦ absurd (ground arith)
        | inr (u, somebody) ↦
            let effective = effective_permissions u (config_of default inv s) in
            let counted = nonempty-minus (expand needed) effective in
            (u, (somebody, λ p m. subset-contains (expand needed) effective p (ground arith) m))
      ]

  -- How a dispatch has ended: without a handler, the database and the world as they were; or with
  -- the run of the entry that the text names, from a state with the same database and world, for a
  -- caller who may run it.
  abbrev pub HasEnded :
      Syntax T
      → PermissionsConfig
      → String
      → Invocation W
      → List (Entry T W)
      → Server T W
      → Dispatched × Server T W
      → Type 0
  HasEnded syn default t inv entries s r =
      (IsDenial r.0 × IsUntouched r.1 s)
      ⊎ ((e : Entry T W) × ((namespace : String) × ((sub : String) × ((args : List String)
                × ((s1 : Server T W) × ((entry_of syn t entries
                        ≡ some (e, (namespace, (sub, args))))
                      × (MayRun default e inv s
                          × (IsUntouched s1 s
                              × (r ≡ run_entry syn e namespace sub args inv s1)))))))))

  check_permission-IsDenial :
      (default : PermissionsConfig) (e : Entry T W) (inv : Invocation W) (s : Server T W)
      → Denies (check_permission default e inv s).0
  unfolding check_permission
  check_permission-IsDenial default e inv s = ground arith

  module _ (syn : Syntax T) (default : PermissionsConfig) (t : String) (inv : Invocation W)
      (entries : List (Entry T W)) (s : Server T W) where
    entry-HasEnded :
        (e : Entry T W) (namespace sub : String) (args : List String) (denial : Option Dispatched)
        (s1 : Server T W)
        → entry_of syn t entries ≡ some (e, (namespace, (sub, args)))
        → Denies denial
        → (denial ≡ none → MayRun default e inv s)
        → IsUntouched s1 s
        → HasEnded syn default t inv entries s (elim denial [
          | none ↦ run_entry syn e namespace sub args inv s1
          | some why ↦ (why, s1)
        ])
    entry-HasEnded e namespace sub args none s1 found d may kept =
        inr (e, (namespace, (sub, (args, (s1, (found, (may refl, (kept, refl))))))))
    entry-HasEnded e namespace sub args (some why) s1 found d may kept = inl (d, kept)

    found-HasEnded :
        (o : Option (Entry T W × (String × (String × List String))))
        → entry_of syn t entries ≡ o
        → HasEnded syn default t inv entries s (elim o [
          | none ↦ (no_command, s)
          | some (e, (namespace, (sub, args))) ↦
              let (denial, s1) = check_permission default e inv s in
              let going = run_entry syn e namespace sub args inv s1 in
              elim denial [ none ↦ going | some why ↦ (why, s1) ]
        ])
    found-HasEnded none found = inl (tt, (refl, refl))
    found-HasEnded (some (e, (namespace, (sub, args)))) found =
        let (denial, s1) = check_permission default e inv s in
        entry-HasEnded e namespace sub args denial s1 found
          (check_permission-IsDenial default e inv s) (check_permission-MayRun default e inv s)
          (check_permission-IsUntouched default e inv s)

    -- Every dispatch either ends without a handler, and leaves the database and the world as they
    -- were; or it is the run of the entry that the text names in the registry, from a state with the
    -- same database and world, and where that entry asks for permissions, the caller was resolved to
    -- a user who has each of them, implied ones included.
    pub dispatch-HasEnded :
        HasEnded syn default t inv entries s (dispatch syn default t inv entries s)
    unfolding dispatch
    dispatch-HasEnded = found-HasEnded (entry_of syn t entries) refl
