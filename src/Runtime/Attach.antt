-- ===== src/Runtime/Attach.antt =====
-- `push` and `start_run` of TinyCTX/runtime.py, with the insert of the row written out.
use tiny_ctx.Base.{
  String, ◌≡◌, refl, Bool, true, false, not, ◌&&◌, ◌||◌, List, ◌∷◌, Option, none, some, ◌==◌,
  string_eq, if◌then◌else◌, arith, contains, Bool-cases, inl, inr,
}
use tiny_ctx.Base.Dict.{insert}
use tiny_ctx.Db.{
  Node, returned, raised, invalid_parent, integrity_error, add_node, insert_node, find, has_row,
  valid_roles,
}
use tiny_ctx.Context.{role_user}
use tiny_ctx.Runtime.{
  Run, Runtime, Inbound, Supply, push, start_run, spawn_task, new_run, effective_key, attach_point,
  set_default, author_column, or_none,
}

user_valid : contains valid_roles role_user ≡ true
unfolding contains valid_roles string_eq
user_valid = refl

-- The key of a fork's session.
abbrev pub fork_key : String → Option Run → String
fork_key session_key parent = elim parent [ none ↦ session_key | some p ↦ p.session_key ]

module _ {T : Type 0} where
  -- The row of a user message.
  abbrev pub user_row : Supply T → String → String → Option String → Option T → Node T
  user_row supply parent content author_id state_delta = record {
    id = supply.node_id;
    parent_id = some parent;
    role = role_user;
    content = content;
    created_at = supply.now;
    tool_calls = none;
    tool_call_id = none;
    author_id = author_id;
    attachment_paths = none;
    state_delta = state_delta;
    flags = supply.no_flags;
  }

  -- Whether the table takes a row under the parent.
  abbrev pub takes : Supply T → String → List (Node T) → Bool
  takes supply parent ns =
      not (parent == "")
      && not (has_row supply.node_id ns)
      && (parent == supply.node_id || has_row parent ns)

  abbrev pub with_row : Node T → Runtime T → Runtime T
  with_row n rt = record rt { db = record rt.db { nodes = n ∷ rt.db.nodes } }

  module _ (sentinel : String) (supply : Supply T) (session_key : Option String)
      (parent : Option Run) (msg : Inbound T) (rt : Runtime T) where
    abbrev pub push_key : String
    push_key = effective_key session_key parent msg.tail_node_id

    abbrev pub push_parent : String
    push_parent = attach_point push_key msg.tail_node_id rt.settled

    abbrev pub push_row : Node T
    push_row =
        user_row supply push_parent msg.content
          (author_column sentinel msg.suppress_attribution msg.author) msg.state_delta

    -- The state where the row is taken.
    abbrev pub accepted : Runtime T
    accepted =
        let settled = set_default push_key msg.tail_node_id rt.settled in
        let r = new_run supply.run_id push_key msg.text supply.node_id in
        if msg.trigger
        then spawn_task r (record (with_row push_row rt) {
          settled = settled;
          runs = insert supply.run_id r rt.runs;
        })
        else record (with_row push_row rt) { settled = insert push_key supply.node_id settled }

    pub accepted-nodes : accepted.db.nodes ≡ push_row ∷ rt.db.nodes
    unfolding spawn_task
    accepted-nodes = ground arith

    pub find-accepted : find supply.node_id accepted.db.nodes ≡ some push_row
    unfolding find
    find-accepted = rw (accepted-nodes) (ground arith)

    pub push-takes :
        takes supply push_parent rt.db.nodes ≡ true
        → push sentinel supply session_key parent msg rt ≡ (returned supply.node_id, accepted)
    unfolding push add_node insert_node new_run
    push-takes h = ground (arith, user_valid)

    pub push-refuses :
        takes supply push_parent rt.db.nodes ≡ false
        → push sentinel supply session_key parent msg rt ≡ (
          raised (if push_parent == "" then invalid_parent else integrity_error),
          record rt { settled = set_default push_key msg.tail_node_id rt.settled },
        )
    unfolding push add_node insert_node
    push-refuses h = ground (arith, user_valid)

    pub push-returned :
        (n : String)
        → (push sentinel supply session_key parent msg rt).0 ≡ returned n
        → (takes supply push_parent rt.db.nodes ≡ true) × (n ≡ supply.node_id)
    push-returned n done = elim (Bool-cases (takes supply push_parent rt.db.nodes)) [
      | inl yes_row ↦ let step = push-takes yes_row in ground (arith, step)
      | inr no_row ↦ let step = push-refuses no_row in ground (arith, step)
    ]

  module _ (supply : Supply T) (session_key prompt branch_from caller : String)
      (parent : Option Run) (rt : Runtime T) where
    abbrev pub fork : Run
    fork = new_run supply.run_id (fork_key session_key parent) prompt supply.node_id

    abbrev pub forked : Runtime T
    forked =
        let row = user_row supply branch_from prompt (or_none caller) none in
        spawn_task fork (record (with_row row rt) { runs = insert supply.run_id fork rt.runs })

    pub start_run-takes :
        takes supply branch_from rt.db.nodes ≡ true
        → start_run supply session_key prompt branch_from caller parent rt ≡ (returned fork, forked)
    unfolding start_run add_node insert_node new_run
    start_run-takes h = ground (arith, user_valid)

    pub start_run-refuses :
        takes supply branch_from rt.db.nodes ≡ false
        → start_run supply session_key prompt branch_from caller parent rt
          ≡ (raised (if branch_from == "" then invalid_parent else integrity_error), rt)
    unfolding start_run add_node insert_node
    start_run-refuses h = ground (arith, user_valid)
