-- ===== src/Db/State/Checkpoint.antt =====
-- What a checkpoint and a write of one key do to the session state of their node.
use tiny_ctx.Base.{String, ℕ, ◌<◌, ◌≡◌, refl, true, [], ◌∷◌, none, some, string_eq, arith}
use tiny_ctx.Base.Dict.{Dict, lookup, insert, erase, IsDict, lookup-insert, lookup-erase}
use tiny_ctx.Db.{Node, ConversationDb, find, update_node_state_delta, update_row}
use tiny_ctx.Db.Json.{Json, JsonLaws}
use tiny_ctx.Db.Tree.{find-update_where}
use tiny_ctx.Db.State.{
  state_at, delta_of, fill, read_delta, is_checkpoint, load_loop, load_session_state, merge_dicts,
  write_checkpoint_if_needed,
}
use tiny_ctx.Db.State.Nearest.{lookup-fill}

module _ {V : Type 0} where
  lookup-merge_dicts :
      (k : String) (d extra : Dict String V)
      → IsDict extra
      → lookup k (merge_dicts d extra)
        ≡ elim (lookup k extra) [ some v ↦ some v | none ↦ lookup k d ]
  unfolding merge_dicts lookup
  lookup-merge_dicts k d [] u = refl
  lookup-merge_dicts k d ((j, v) ∷ extra) (fresh, u) =
      ground (arith, lookup-merge_dicts k (insert j v d) extra u, lookup-insert k j v d)

module _ {T V : Type 0} (json : Json T V) (laws : JsonLaws json) where
  pub read_delta_written :
      (n : Node T) (d : Dict String V)
      → read_delta json (record n { state_delta = some (json.dumps d) }) ≡ delta_of d
  unfolding read_delta
  read_delta_written n d = ground (arith, laws.loads-dumps d, laws.dumps-nonempty d)

  -- A walk from a node that holds a checkpoint ends there.
  load_session_state_checkpoint :
      (node_id : String) (n : Node T) (d : Dict String V) (db : ConversationDb T)
      → find node_id db.nodes ≡ some n
      → read_delta json n ≡ delta_of d
      → is_checkpoint json d ≡ true
      → load_session_state json node_id db ≡ state_at (erase "_checkpoint" (fill d [])) 1
  unfolding load_session_state load_loop
  load_session_state_checkpoint node_id n d db found delta last = ground arith

  -- After a checkpoint with the state that a walk returned, every walk from the node visits that
  -- node alone and returns the same value for each key.
  pub load_session_state-write_checkpoint :
      (node_id k : String) (n : Node T) (state : Dict String V) (depth threshold : ℕ)
      (db : ConversationDb T)
      → find node_id db.nodes ≡ some n
      → IsDict state
      → lookup "_checkpoint" state ≡ none
      → threshold < depth
      → (final : Dict String V) × ((load_session_state json node_id
              (write_checkpoint_if_needed json node_id state depth threshold db)
            ≡ state_at final 1)
          × (lookup k final ≡ lookup k state))
  unfolding write_checkpoint_if_needed update_node_state_delta update_row is_checkpoint lookup
  load_session_state-write_checkpoint node_id k n state depth threshold db found u plain deep =
      let written = merge_dicts (("_checkpoint", json.true_value) ∷ []) state in
      let n' : Node T = record n { state_delta = some (json.dumps written) } in
      let db' = write_checkpoint_if_needed json node_id state depth threshold db in
      let found' : find node_id db'.nodes ≡ some n' = ground (
        arith,
        find-update_where node_id node_id
            (λ m. record m { state_delta = some (json.dumps written) }) db.nodes
            (λ m. (refl, refl)),
      ) in
      let marked : is_checkpoint json written ≡ true = ground (
        arith,
        lookup-merge_dicts "_checkpoint" (("_checkpoint", json.true_value) ∷ []) state u,
        laws.truthy-true,
      ) in
      (
        erase "_checkpoint" (fill written []),
        (
          load_session_state_checkpoint node_id n' written db' found' (read_delta_written n written)
              marked,
          ground (
            arith,
            lookup-erase k "_checkpoint" (fill written []),
            lookup-fill k written [],
            lookup-merge_dicts k (("_checkpoint", json.true_value) ∷ []) state u,
          ),
        ),
      )
