-- ===== src/Shell/Specs/Claims.antt =====
-- The names of a compiled table: each entry owns the names that it lists.
use tiny_ctx.Base.{
  String, ◌≡◌, refl, true, List, [], ◌∷◌, Option, some, ◌==◌, string_eq, contains, arith,
  Option-cases, ◌⊎◌, inl, inr, Bool-cases,
}
use tiny_ctx.Base.Dict.{Dict, lookup, insert, lookup-insert}
use tiny_ctx.Permissions.{Permission}
use tiny_ctx.Shell.Specs.{
  CommandSpec, Table, Compiled, compiled, rejected, PolicyError, merge_entries, claim_names,
  claim_all, compile,
}

-- A name leads to an entry with this id.
abbrev pub LeadsTo : Dict String CommandSpec → String → String → Type 0
LeadsTo d name id = (e : CommandSpec) × ((lookup name d ≡ some e) × ((e.id == id) ≡ true))

-- Every name of every entry leads to an entry with the same id.
abbrev pub Owned : List CommandSpec → Dict String CommandSpec → Type 0
Owned [] d = Unit
Owned (s ∷ ss) d =
    ((name : String) → contains s.names name ≡ true → LeadsTo d name s.id) × Owned ss d

Compiled-cases :
    {T : Type 0} (m : Compiled T)
    → ((e : PolicyError) × (m ≡ rejected e)) ⊎ ((x : T) × (m ≡ compiled x))
Compiled-cases (rejected e) = inl (e, refl)
Compiled-cases (compiled x) = inr (x, refl)

-- A name keeps its id while the names of an entry are claimed.
claim_names-keeps :
    (spec : CommandSpec) (names : List String) (d d' : Dict String CommandSpec) (name id : String)
    → claim_names spec names d ≡ compiled d'
    → LeadsTo d name id
    → LeadsTo d' name id
unfolding claim_names
claim_names-keeps spec [] d d' name id h (e, (row, same)) = (e, (ground arith, same))
claim_names-keeps spec (n ∷ names) d d' name id h (e, (row, same)) =
    let put = lookup-insert name n spec d in
    elim (Bool-cases (n == name)) [
      | inl here ↦
          claim_names-keeps spec names (insert n spec d) d' name id (ground arith)
            (spec, (ground arith, ground arith))
      | inr there ↦
          claim_names-keeps spec names (insert n spec d) d' name id
            (elim (Option-cases (lookup n d)) [
              | inl free ↦ ground arith
              | inr (o, taken) ↦ ground arith
            ])
            (e, (ground arith, same))
    ]

claim_names-claims :
    (spec : CommandSpec) (names : List String) (d d' : Dict String CommandSpec) (name : String)
    → claim_names spec names d ≡ compiled d'
    → contains names name ≡ true
    → LeadsTo d' name spec.id
unfolding claim_names contains
claim_names-claims spec [] d d' name h m = ground arith
claim_names-claims spec (n ∷ names) d d' name h m =
    let rest : claim_names spec names (insert n spec d) ≡ compiled d' =
      elim (Option-cases (lookup n d)) [
        | inl free ↦ ground arith
        | inr (o, taken) ↦ ground arith
      ] in
    elim (Bool-cases (n == name)) [
      | inl here ↦
          claim_names-keeps spec names (insert n spec d) d' name spec.id rest
            (spec, (ground (arith, lookup-insert name n spec d), ground arith))
      | inr there ↦ claim_names-claims spec names (insert n spec d) d' name rest (ground arith)
    ]

claim_all-keeps :
    (specs : List CommandSpec) (d d' : Dict String CommandSpec) (name id : String)
    → claim_all specs d ≡ compiled d'
    → LeadsTo d name id
    → LeadsTo d' name id
unfolding claim_all
claim_all-keeps [] d d' name id h (e, (row, same)) = (e, (ground arith, same))
claim_all-keeps (s ∷ ss) d d' name id h l = elim (Compiled-cases (claim_names s s.names d)) [
  | inl (why, failed) ↦ ground arith
  | inr (d1, claimed) ↦
      claim_all-keeps ss d1 d' name id (ground arith)
        (claim_names-keeps s s.names d d1 name id claimed l)
]

claim_all-Owned :
    (specs : List CommandSpec) (d d' : Dict String CommandSpec)
    → claim_all specs d ≡ compiled d'
    → Owned specs d'
unfolding claim_all
claim_all-Owned [] d d' h = tt
claim_all-Owned (s ∷ ss) d d' h = elim (Compiled-cases (claim_names s s.names d)) [
  | inl (why, failed) ↦ ground arith
  | inr (d1, claimed) ↦
      let rest : claim_all ss d1 ≡ compiled d' = ground arith in
      (
        λ name m.
            claim_all-keeps ss d1 d' name s.id rest
              (claim_names-claims s s.names d d1 name claimed m),
        claim_all-Owned ss d1 d' rest,
      )
]

-- Where a file compiles, its merged entries do, and every name that one of them lists leads in the
-- table to an entry with the same id: no entry takes a name from another.
pub compile-Owned :
    (base : Option Table) (own : List CommandSpec) (disable : Option (List String))
    (worst_case : Dict String (List Permission)) (table : Table)
    → compile base own disable worst_case ≡ compiled table
    → (merged : List CommandSpec) × ((merge_entries base own disable ≡ compiled merged)
        × Owned merged table.by_name)
unfolding compile
compile-Owned base own disable worst_case table h =
    elim (Compiled-cases (merge_entries base own disable)) [
      | inl (why, failed) ↦ ground arith
      | inr (merged, found) ↦ elim (Compiled-cases (claim_all merged [])) [
        | inl (why, failed) ↦ ground arith
        | inr (by_name, claimed) ↦
            let same : table.by_name ≡ by_name = ground arith in
            (merged, (found, rw same (claim_all-Owned merged [] by_name claimed)))
      ]
    ]
