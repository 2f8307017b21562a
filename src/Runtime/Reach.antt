-- ===== src/Runtime/Reach.antt =====
-- The steps of TinyCTX/runtime.py and of the cycles that it drives, in any order, and what holds of
-- each state that they reach.
use tiny_ctx.Base.{
  String, ◌≡◌, ◌≢◌, ◌⊎◌, sym, subst, Bool, true, false, ◌&&◌, ◌||◌, [], ◌∷◌, Option, none, some,
  ◌==◌, string_eq, if◌then◌else◌, arith, Bool-cases, Option-cases, inl, inr,
}
use tiny_ctx.Base.Dict.{lookup, insert, every_value-insert, every_value-erase, every_value-lookup}
use tiny_ctx.Db.{Node, ConversationDb, returned, insert_node, find, has_row}
use tiny_ctx.Db.Tree.{IsTree, insert_node-IsTree}
use tiny_ctx.Runtime.{
  is_running, Run, Runtime, Inbound, Supply, Exogenous, put, fan_out, push, start_run, finish_run,
  nudge, end_process, abandon_run, seed_session, abort, spawn_task, new_run, or_none,
}
use tiny_ctx.Runtime.Coherent.{
  IsCoherent, IsFresh, with_row-IsCoherent, every_value-fan_out, push-IsCoherent, push-returns,
  push-writes,
}
use tiny_ctx.Runtime.Attach.{takes, start_run-takes, start_run-refuses, fork, user_row}
use tiny_ctx.Runtime.Digest.{render_nudge}
use tiny_ctx.Context.{role_user}

module _ {T : Type 0} where
  module _ (strip shown : String → String) (sentinel : String) where
    pub data Step : Runtime T → Runtime T → Type 0 where
      pushed :
          (supply : Supply T) (session_key : Option String) (parent : Option Run) (msg : Inbound T)
          (rt : Runtime T)
          → IsFresh supply.node_id rt.db.nodes
          → has_row msg.tail_node_id rt.db.nodes ≡ true
          → Step rt (push sentinel supply session_key parent msg rt).1
      started :
          (supply : Supply T) (session_key prompt branch_from caller : String) (parent : Option Run)
          (rt : Runtime T)
          → IsFresh supply.node_id rt.db.nodes
          → (branch_from == supply.node_id) ≡ false
          → Step rt (start_run supply session_key prompt branch_from caller parent rt).1
      -- A cycle writes a node off its head.
      wrote :
          (n : Node T) (rt : Runtime T)
          → n.parent_id ≢ some n.id
          → IsFresh n.id rt.db.nodes
          → Step rt (record rt { db = (insert_node n rt.db).1 })
      -- A cycle has drained the inbox of its run and stands at a node.
      drained :
          (id head : String) (r : Run) (rt : Runtime T)
          → lookup id rt.runs ≡ some r
          → Step rt
              (record rt { runs = insert id (record r { inbox = []; head = some head }) rt.runs })
      finished :
          (r : Run) (final_text head : String) (rt : Runtime T)
          → has_row head rt.db.nodes ≡ true
          → Step rt (finish_run strip shown r final_text head rt).1
      ended :
          (crashed : Bool) (r : Run) (rt : Runtime T)
          → has_row r.root_node_id rt.db.nodes ≡ true
          → elim r.head [ none ↦ true | some h ↦ h == "" || has_row h rt.db.nodes ] ≡ true
          → Step rt (end_process crashed r rt).1
      nudged :
          (target_id message : String) (from_run : Run) (rt : Runtime T)
          → Step rt (nudge shown target_id from_run message rt).1
      seeded :
          (key node_id : String) (rt : Runtime T)
          → has_row node_id rt.db.nodes ≡ true
          → Step rt (seed_session key node_id rt)
      aborting : (node_id : String) (rt : Runtime T) → Step rt (abort node_id rt).1

    pub data Steps (start : Runtime T) : Runtime T → Type 0 where
      stay : Steps start start
      next : {now after : Runtime T} → Steps start now → Step now after → Steps start after

  started-IsCoherent :
      (supply : Supply T) (session_key prompt branch_from caller : String) (parent : Option Run)
      (rt : Runtime T)
      → IsCoherent rt
      → IsFresh supply.node_id rt.db.nodes
      → (branch_from == supply.node_id) ≡ false
      → IsCoherent (start_run supply session_key prompt branch_from caller parent rt).1
  unfolding spawn_task new_run find
  started-IsCoherent supply session_key prompt branch_from caller parent rt coherent (named, new)
        apart =
      elim (Bool-cases (takes supply branch_from rt.db.nodes)) [
        | inr no_row ↦
            rw (start_run-refuses supply session_key prompt branch_from caller parent rt no_row)
              coherent
        | inl taken ↦
            let row = user_row supply branch_from prompt (or_none caller) none in
            let there : has_row branch_from rt.db.nodes ≡ true = ground arith in
            let (t, (blank, (settled, runs))) =
              with_row-IsCoherent row rt (new, (there, coherent.0)) named coherent in
            let r = fork supply session_key prompt branch_from caller parent rt in
            let here : has_row supply.node_id (row ∷ rt.db.nodes) ≡ true = ground arith in
            let runs' =
              every_value-insert (λ (p : Run). has_row p.root_node_id (row ∷ rt.db.nodes))
                supply.run_id r rt.runs here runs in
            rw (start_run-takes supply session_key prompt branch_from caller parent rt taken)
              (t, (blank, (settled, runs')))
      ]

  insert_node-cases :
      (n : Node T) (db : ConversationDb T)
      → ((insert_node n db).1 ≡ db) ⊎ ((insert_node n db).1 ≡ record db { nodes = n ∷ db.nodes })
  unfolding insert_node
  insert_node-cases n db = ground arith

  wrote-IsCoherent :
      (n : Node T) (rt : Runtime T)
      → IsCoherent rt
      → n.parent_id ≢ some n.id
      → IsFresh n.id rt.db.nodes
      → IsCoherent (record rt { db = (insert_node n rt.db).1 })
  wrote-IsCoherent n rt coherent apart (named, new) =
      let tree = insert_node-IsTree n rt.db apart coherent.0 in
      let grown = with_row-IsCoherent n rt in
      elim (insert_node-cases n rt.db) [
        | inl same ↦ subst (λ db. IsCoherent (record rt { db = db })) (sym same) coherent
        | inr more ↦
            let tree' = subst (λ db. IsTree db.nodes) more tree in
            subst (λ db. IsCoherent (record rt { db = db })) (sym more) (grown tree' named coherent)
      ]

  finished-IsCoherent :
      (strip shown : String → String) (r : Run) (final_text head : String) (rt : Runtime T)
      → IsCoherent rt
      → has_row head rt.db.nodes ≡ true
      → IsCoherent (finish_run strip shown r final_text head rt).1
  unfolding finish_run
  finished-IsCoherent strip shown r final_text head rt (t, (blank, (settled, runs))) h = (
    t,
    (
      blank,
      (
        every_value-insert (λ id. has_row id rt.db.nodes) r.session_key head rt.settled h settled,
        every_value-erase (λ (p : Run). has_row p.root_node_id rt.db.nodes) r.id
            (fan_out r _ rt.runs) (every_value-fan_out rt.db.nodes r _ rt.runs runs),
      ),
    ),
  )

  -- A run may take in messages and move on, since its root stays.
  changed-IsCoherent :
      (id : String) (r : Run) (rt : Runtime T)
      → IsCoherent rt
      → has_row r.root_node_id rt.db.nodes ≡ true
      → IsCoherent (record rt { runs = insert id r rt.runs })
  changed-IsCoherent id r rt (t, (blank, (settled, runs))) h = (
    t,
    (
      blank,
      (
        settled,
        every_value-insert (λ (p : Run). has_row p.root_node_id rt.db.nodes) id r rt.runs h runs,
      ),
    ),
  )

  root-has_row :
      (id : String) (r : Run) (rt : Runtime T)
      → IsCoherent rt
      → lookup id rt.runs ≡ some r
      → has_row r.root_node_id rt.db.nodes ≡ true
  root-has_row id r rt (t, (blank, (settled, runs))) h =
      every_value-lookup (λ (p : Run). has_row p.root_node_id rt.db.nodes) id r rt.runs runs h

  -- A nudge changes at most the inbox of its target.
  nudge-cases :
      (shown : String → String) (target_id message : String) (from_run : Run) (rt : Runtime T)
      → ((nudge shown target_id from_run message rt).1 ≡ rt)
        ⊎ ((x : Exogenous) × ((target : Run) × ((lookup target_id rt.runs ≡ some target)
                × ((nudge shown target_id from_run message rt).1
                    ≡ record rt { runs = insert target_id (put x target) rt.runs }))))
  unfolding nudge
  nudge-cases shown target_id message from_run rt =
      let note : Exogenous = record {
        kind = "nudge";
        role = role_user;
        content = render_nudge shown from_run.id from_run.intent message;
      } in
      elim (Option-cases (lookup target_id rt.runs)) [
        | inl absent ↦ inl (ground arith)
        | inr (target, found) ↦
            elim (Bool-cases
              (is_running target.status && target.session_key == from_run.session_key)) [
                | inl peer ↦ inr (note, (target, (found, ground arith)))
                | inr other ↦ inl (ground arith)
              ]
      ]

  nudged-IsCoherent :
      (shown : String → String) (target_id message : String) (from_run : Run) (rt : Runtime T)
      → IsCoherent rt
      → IsCoherent (nudge shown target_id from_run message rt).1
  unfolding put
  nudged-IsCoherent shown target_id message from_run rt coherent =
      elim (nudge-cases shown target_id message from_run rt) [
        | inl same ↦ subst IsCoherent (sym same) coherent
        | inr (x, (target, (found, sent))) ↦
            let root = root-has_row target_id target rt coherent found in
            subst IsCoherent (sym sent)
              (changed-IsCoherent target_id (put x target) rt coherent root)
      ]

  ended-IsCoherent :
      (crashed : Bool) (r : Run) (rt : Runtime T)
      → IsCoherent rt
      → has_row r.root_node_id rt.db.nodes ≡ true
      → elim r.head [ none ↦ true | some h ↦ h == "" || has_row h rt.db.nodes ] ≡ true
      → IsCoherent (end_process crashed r rt).1
  unfolding end_process abandon_run
  ended-IsCoherent crashed r rt (t, (blank, (settled, runs))) root head =
      let nodes = rt.db.nodes in
      let erased =
        every_value-erase (λ (p : Run). has_row p.root_node_id nodes) r.id rt.runs runs in
      let last : String = elim r.head [
        | none ↦ r.root_node_id
        | some h ↦ if h == "" then r.root_node_id else h
      ] in
      let last_row : has_row last nodes ≡ true = ground arith in
      let moved =
        every_value-insert (λ id. has_row id nodes) r.session_key last rt.settled last_row
          settled in
      ground arith

  aborting-IsCoherent :
      (node_id : String) (rt : Runtime T) → IsCoherent rt → IsCoherent (abort node_id rt).1
  unfolding abort
  aborting-IsCoherent node_id rt (t, (blank, (settled, runs))) = ground arith

  module _ (strip shown : String → String) (sentinel : String) where
    Step-IsCoherent :
        {now after : Runtime T}
        → Step strip shown sentinel now after
        → IsCoherent now
        → IsCoherent after
    Step-IsCoherent (pushed supply session_key parent msg rt fresh tail) c =
        push-IsCoherent sentinel supply session_key parent msg rt c fresh tail
    Step-IsCoherent (started supply session_key prompt branch_from caller parent rt fresh apart) c =
        started-IsCoherent supply session_key prompt branch_from caller parent rt c fresh apart
    Step-IsCoherent (wrote n rt apart fresh) c = wrote-IsCoherent n rt c apart fresh
    Step-IsCoherent (drained id head r rt found) c =
        changed-IsCoherent id (record r { inbox = []; head = some head }) rt c
          (root-has_row id r rt c found)
    Step-IsCoherent (finished r final_text head rt here) c =
        finished-IsCoherent strip shown r final_text head rt c here
    Step-IsCoherent (ended crashed r rt root head) c = ended-IsCoherent crashed r rt c root head
    Step-IsCoherent (nudged target_id message from_run rt) c =
        nudged-IsCoherent shown target_id message from_run rt c
    Step-IsCoherent (seeded key node_id rt here) (t, (blank, (settled, runs))) = (
      t,
      (
        blank,
        (
          every_value-insert (λ id. has_row id rt.db.nodes) key node_id rt.settled here settled,
          runs,
        ),
      ),
    )
    Step-IsCoherent (aborting node_id rt) c = aborting-IsCoherent node_id rt c

    -- However pushes, forks, cycles, ends of runs, nudges and resets follow each other from a
    -- coherent state on, with fresh ids and with tails and heads that are nodes: the nodes stay a
    -- tree without an empty id, and each attach point and each root of a run is a node.
    pub Steps-IsCoherent :
        {start now : Runtime T}
        → Steps strip shown sentinel start now
        → IsCoherent start
        → IsCoherent now
    Steps-IsCoherent stay c = c
    Steps-IsCoherent (next before step) c = Step-IsCoherent step (Steps-IsCoherent before c)

    -- After any such steps from a coherent state, a message whose tail is a node, with a fresh id, is
    -- accepted: its id is answered, and afterwards the node of that id has role user, the message's
    -- content and a parent that was a node before.
    pub Steps-accept :
        {start now : Runtime T}
        → Steps strip shown sentinel start now
        → IsCoherent start
        → (supply : Supply T) (session_key : Option String) (parent : Option Run) (msg : Inbound T)
        → IsFresh supply.node_id now.db.nodes
        → has_row msg.tail_node_id now.db.nodes ≡ true
        → ((push sentinel supply session_key parent msg now).0 ≡ returned supply.node_id)
          × ((n : Node T) × ((find supply.node_id
                    (push sentinel supply session_key parent msg now).1.db.nodes
                  ≡ some n)
                × ((n.role ≡ "user")
                    × ((n.content ≡ msg.content)
                        × ((above : String) × ((n.parent_id ≡ some above)
                              × (has_row above now.db.nodes ≡ true)))))))
    Steps-accept {start} {now} steps c supply session_key parent msg fresh tail =
        let coherent = Steps-IsCoherent steps c in
        (
          push-returns sentinel supply session_key parent msg now coherent fresh tail,
          push-writes sentinel supply session_key parent msg now coherent fresh tail,
        )
