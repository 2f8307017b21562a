-- ===== src/Runtime/Coherent.antt =====
-- What holds of each state of TinyCTX/runtime.py between two calls, and that `push` keeps it.
use tiny_ctx.Base.{
  String, ◌≡◌, refl, ap, true, false, List, [], ◌∷◌, Option, none, some, ◌==◌, string_eq, arith,
  Bool-cases, Option-cases, inl, inr,
}
use tiny_ctx.Base.Dict.{
  Dict, lookup, every_value, every_value-insert, every_value-lookup, every_value_mono,
}
use tiny_ctx.Db.{Node, returned, find, has_row}
use tiny_ctx.Db.Tree.{IsTree}
use tiny_ctx.Runtime.{
  Run, Runtime, Inbound, Supply, Exogenous, put, fan_out, push, spawn_task, new_run, attach_point,
  set_default, effective_key,
}
use tiny_ctx.Runtime.Attach.{takes, with_row, push_parent, push_row, push-takes, find-accepted}

module _ {T : Type 0} where
  -- The nodes are a tree without an empty id, and each attach point and each root of a run is one.
  abbrev pub IsCoherent : Runtime T → Type 0
  IsCoherent rt =
      IsTree rt.db.nodes
      × ((has_row "" rt.db.nodes ≡ false)
          × ((every_value (λ id. has_row id rt.db.nodes) rt.settled ≡ true)
              × (every_value (λ r. has_row r.root_node_id rt.db.nodes) rt.runs ≡ true)))

  -- An id that the uuid module answers: not empty, and not of a row.
  abbrev pub IsFresh : String → List (Node T) → Type 0
  IsFresh id ns = ((id == "") ≡ false) × (find id ns ≡ none)

  -- A row more keeps what is coherent.
  pub with_row-IsCoherent :
      (n : Node T) (rt : Runtime T)
      → IsTree (n ∷ rt.db.nodes)
      → (n.id == "") ≡ false
      → IsCoherent rt
      → IsCoherent (with_row n rt)
  unfolding find
  with_row-IsCoherent n rt tree named (t, (blank, (settled, runs))) = (
    tree,
    (
      ground arith,
      (
        every_value_mono (λ id. has_row id rt.db.nodes) (λ id. has_row id (n ∷ rt.db.nodes))
            rt.settled (λ id h. ground arith) settled,
        every_value_mono (λ (r : Run). has_row r.root_node_id rt.db.nodes)
            (λ (r : Run). has_row r.root_node_id (n ∷ rt.db.nodes)) rt.runs (λ r h. ground arith)
            runs,
      ),
    ),
  )

  pub every_value-fan_out :
      (ns : List (Node T)) (r : Run) (x : Exogenous) (runs : Dict String Run)
      → every_value (λ p. has_row p.root_node_id ns) runs ≡ true
      → every_value (λ p. has_row p.root_node_id ns) (fan_out r x runs) ≡ true
  unfolding every_value fan_out put
  every_value-fan_out ns r x [] h = refl
  every_value-fan_out ns r x ((j, p) ∷ runs) h = ground (arith, every_value-fan_out ns r x runs)

  set_default-every_value :
      (ns : List (Node T)) (key tail : String) (d : Dict String String)
      → has_row tail ns ≡ true
      → every_value (λ id. has_row id ns) d ≡ true
      → every_value (λ id. has_row id ns) (set_default key tail d) ≡ true
  unfolding set_default
  set_default-every_value ns key tail d h all =
      ground (arith, every_value-insert (λ id. has_row id ns) key tail d)

  attach_point-has_row :
      (ns : List (Node T)) (key tail : String) (d : Dict String String)
      → has_row tail ns ≡ true
      → every_value (λ id. has_row id ns) d ≡ true
      → has_row (attach_point key tail d) ns ≡ true
  unfolding attach_point
  attach_point-has_row ns key tail d h all = elim (Option-cases (lookup key d)) [
    | inl absent ↦ ground arith
    | inr (s, found) ↦ ground (arith, every_value-lookup (λ id. has_row id ns) key s d all found)
  ]

  module _ (sentinel : String) (supply : Supply T) (session_key : Option String)
      (parent : Option Run) (msg : Inbound T) (rt : Runtime T) where
    push_parent-has_row :
        IsCoherent rt
        → has_row msg.tail_node_id rt.db.nodes ≡ true
        → has_row (push_parent sentinel supply session_key parent msg rt) rt.db.nodes ≡ true
    push_parent-has_row (t, (blank, (settled, runs))) tail =
        attach_point-has_row rt.db.nodes (effective_key session_key parent msg.tail_node_id)
          msg.tail_node_id rt.settled tail settled

    push_takes :
        IsCoherent rt
        → IsFresh supply.node_id rt.db.nodes
        → has_row msg.tail_node_id rt.db.nodes ≡ true
        → takes supply (push_parent sentinel supply session_key parent msg rt) rt.db.nodes ≡ true
    push_takes coherent (named, new) tail =
        let there = push_parent-has_row coherent tail in let blank = coherent.1.0 in ground arith

    -- From a coherent state a message whose tail is a node is always accepted.
    pub push-returns :
        IsCoherent rt
        → IsFresh supply.node_id rt.db.nodes
        → has_row msg.tail_node_id rt.db.nodes ≡ true
        → (push sentinel supply session_key parent msg rt).0 ≡ returned supply.node_id
    push-returns coherent fresh tail =
        ap (λ r. r.0)
          (push-takes sentinel supply session_key parent msg rt (push_takes coherent fresh tail))

    -- The row that an accepted message writes.
    pub push-writes :
        IsCoherent rt
        → IsFresh supply.node_id rt.db.nodes
        → has_row msg.tail_node_id rt.db.nodes ≡ true
        → (n : Node T) × ((find supply.node_id
                (push sentinel supply session_key parent msg rt).1.db.nodes
              ≡ some n)
            × ((n.role ≡ "user")
                × ((n.content ≡ msg.content)
                    × ((above : String) × ((n.parent_id ≡ some above)
                          × (has_row above rt.db.nodes ≡ true))))))
    push-writes coherent fresh tail =
        let step =
          push-takes sentinel supply session_key parent msg rt (push_takes coherent fresh tail) in
        let found = find-accepted sentinel supply session_key parent msg rt in
        (
          push_row sentinel supply session_key parent msg rt,
          (
            rw (step) found,
            (
              refl,
              (
                refl,
                (
                  push_parent sentinel supply session_key parent msg rt,
                  (refl, push_parent-has_row coherent tail),
                ),
              ),
            ),
          ),
        )

    pub push-IsCoherent :
        IsCoherent rt
        → IsFresh supply.node_id rt.db.nodes
        → has_row msg.tail_node_id rt.db.nodes ≡ true
        → IsCoherent (push sentinel supply session_key parent msg rt).1
    unfolding spawn_task find new_run
    push-IsCoherent coherent (named, new) tail =
        let there = push_parent-has_row coherent tail in
        let row = push_row sentinel supply session_key parent msg rt in
        let key = effective_key session_key parent msg.tail_node_id in
        let (t, (blank, (settled, runs))) =
          with_row-IsCoherent row rt (new, (there, coherent.0)) named coherent in
        let nodes = row ∷ rt.db.nodes in
        let tail' : has_row msg.tail_node_id nodes ≡ true = ground arith in
        let here : has_row supply.node_id nodes ≡ true = ground arith in
        let settled' =
          set_default-every_value nodes key msg.tail_node_id rt.settled tail' settled in
        let moved =
          every_value-insert (λ id. has_row id nodes) key supply.node_id
            (set_default key msg.tail_node_id rt.settled) here settled' in
        let r = new_run supply.run_id key msg.text supply.node_id in
        let runs' =
          every_value-insert (λ (p : Run). has_row p.root_node_id nodes) supply.run_id r rt.runs
            here runs in
        let step =
          push-takes sentinel supply session_key parent msg rt
            (push_takes coherent (named, new) tail) in
        elim (Bool-cases msg.trigger) [
          | inl yes_run ↦ rw (step, yes_run) (t, (blank, (settled', runs')))
          | inr no_run ↦ rw (step, no_run) (t, (blank, (moved, runs)))
        ]
