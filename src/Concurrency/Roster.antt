-- ===== src/Concurrency/Roster.antt =====
-- What a spawned fork is to the other runs of its session.
use tiny_ctx.Base.{
  String, ◌⊎◌, inl, inr, ◌≡◌, refl, ap, sym, ◌∙◌, true, false, none, some, [], ◌∷◌, ◌++◌, ◌==◌,
  string_eq, keep, arith,
}
use tiny_ctx.Base.Dict.{Dict, insert, lookup, lookup-insert}
use tiny_ctx.Db.{DbError, Outcome, returned, raised}
use tiny_ctx.Runtime.{
  Run, Runtime, Supply, running, is_running, runs_in_session, start_run, nudge, new_run, spawn_task,
}
use tiny_ctx.Concurrency.{peers, ok, ok_run, spawn_fork, nudge_fork}

peers-insert :
    (active r : Run) (k : String) (runs : Dict String Run)
    → lookup k runs ≡ none
    → r.session_key ≡ active.session_key
    → (r.id == active.id) ≡ false
    → is_running r.status ≡ true
    → peers active (insert k r runs) ≡ peers active runs ++ (r ∷ [])
unfolding peers insert lookup runs_in_session keep
peers-insert active r k [] fresh same other runs_on = ground arith
peers-insert active r k (p ∷ runs) fresh same other runs_on =
    ground (arith, peers-insert active r k runs)

outcome_cases :
    {A : Type 0} (o : Outcome A)
    → ((r : A) × (o ≡ returned r)) ⊎ ((why : DbError) × (o ≡ raised why))
outcome_cases (returned r) = inl (r, refl)
outcome_cases (raised why) = inr (why, refl)

module _ {T : Type 0} where
  start_run-run :
      (supply : Supply T) (key prompt tail caller : String) (active r : Run) (rt : Runtime T)
      → (start_run supply key prompt tail caller (some active) rt).0 ≡ returned r
      → (r.id ≡ supply.run_id)
        × ((r.session_key ≡ active.session_key)
            × ((r.status ≡ running)
                × ((start_run supply key prompt tail caller (some active) rt).1.runs
                    ≡ insert supply.run_id r rt.runs)))
  unfolding start_run new_run spawn_task
  start_run-run supply key prompt tail caller active r rt h = ground arith

  spawn_fork-run :
      (strip : String → String) (supply : Supply T) (active : Run) (tail caller prompt id : String)
      (rt : Runtime T)
      → (spawn_fork strip supply active tail caller prompt rt).0 ≡ returned (ok_run id)
      → (r : Run) × (((start_run supply active.session_key
              (strip prompt)
              tail
              caller
              (some active)
              rt).0
            ≡ returned r)
          × ((r.id ≡ id)
              × ((spawn_fork strip supply active tail caller prompt rt).1
                  ≡ (start_run supply active.session_key
                      (strip prompt)
                      tail
                      caller
                      (some active)
                      rt).1)))
  unfolding spawn_fork
  spawn_fork-run strip supply active tail caller prompt id rt h =
      elim (outcome_cases
        (start_run supply active.session_key (strip prompt) tail caller (some active) rt).0) [
          | inl (r, is) ↦ (r, (is, (ground arith, ground arith)))
          | inr (why, is) ↦ ground arith
        ]

  nudge_fork-ok :
      (strip shown : String → String) (peer r : Run) (message id : String) (rt : Runtime T)
      → (strip message == "") ≡ false
      → lookup id rt.runs ≡ some r
      → r.status ≡ running
      → r.session_key ≡ peer.session_key
      → (nudge_fork strip shown peer id message rt).0 ≡ ok
  unfolding nudge_fork nudge is_running
  nudge_fork-ok strip shown peer r message id rt text there live same = ground arith

  -- A fork that a run spawns under a fresh id is the last one of the roster of every run of the
  -- session, which is else as it was, and takes a nudge of a run of the session at once.
  pub spawn_fork-peers :
      (strip shown : String → String) (supply : Supply T) (active peer : Run)
      (tail caller prompt message id : String) (rt : Runtime T)
      → lookup supply.run_id rt.runs ≡ none
      → (supply.run_id == peer.id) ≡ false
      → peer.session_key ≡ active.session_key
      → (strip message == "") ≡ false
      → (spawn_fork strip supply active tail caller prompt rt).0 ≡ returned (ok_run id)
      → (r : Run) × ((r.id ≡ id)
          × ((peers peer (spawn_fork strip supply active tail caller prompt rt).1.runs
                ≡ peers peer rt.runs ++ (r ∷ []))
              × ((nudge_fork strip shown peer id message
                    (spawn_fork strip supply active tail caller prompt rt).1).0
                  ≡ ok)))
  unfolding is_running
  spawn_fork-peers strip shown supply active peer tail caller prompt message id rt fresh other same
        text h =
      let (r, (is, (named, after))) =
        spawn_fork-run strip supply active tail caller prompt id rt h in
      let (own, (session, (live, runs))) =
        start_run-run supply active.session_key (strip prompt) tail caller active r rt is in
      let here : (spawn_fork strip supply active tail caller prompt rt).1.runs
          ≡ insert supply.run_id r rt.runs =
        ap (λ s. s.runs) after ∙ runs in
      (
        r,
        (
          named,
          (
            ap (peers peer) here
                ∙ peers-insert peer r supply.run_id rt.runs fresh (session ∙ sym same)
                    (ground arith) (ground arith),
            nudge_fork-ok strip shown peer r message id
                (spawn_fork strip supply active tail caller prompt rt).1 text
                (ap (lookup id) here ∙ ground (arith, lookup-insert id supply.run_id r rt.runs))
                live (session ∙ sym same),
          ),
        ),
      )
