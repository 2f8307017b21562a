-- ===== src/Db/State.antt =====
-- Session state of TinyCTX/db.py: each node holds a delta, and the state at a node is what the deltas
-- up to the last checkpoint say, the nearest one first.
pub mod Nearest
pub mod Checkpoint
pub mod Written
use tiny_ctx.Base.{
  String, ℕ, suc, zero, ◌<◌, ◌≡◌, refl, Bool, true, false, not, ◌&&◌, List, [], ◌∷◌, Option, none,
  some, ◌==◌, string_eq, if◌then◌else◌, leb, arith, length, Option-cases, inl, inr, Bool-cases,
}
use tiny_ctx.Base.Dict.{Dict, lookup, insert, erase, has_key, lookup-insert, lookup-erase}
use tiny_ctx.Db.{Node, ConversationDb, find, get_node, update_node_state_delta, has_row}
use tiny_ctx.Db.Json.{Json, Loaded, object, array, other}
use tiny_ctx.Db.Tree.{IsTree}
use tiny_ctx.Db.Walk.{ancestry, lineage, ancestry-lineage}

-- `attribute_error`: a text that holds no object has no `items`.
pub data Walked (V : Type 0) : Type 0 where
  state_at : Dict String V → ℕ → Walked V
  attribute_error no_fuel : Walked V

-- The delta of one node as the walk reads it.
pub data Delta (V : Type 0) : Type 0 where
  nothing not_a_dict : Delta V
  delta_of : Dict String V → Delta V

module _ {V : Type 0} where
  -- `for k, v in delta.items(): if k not in state: state[k] = v`
  unfoldable pub fill : Dict String V → Dict String V → Dict String V
  fill [] state = state
  fill ((k, v) ∷ delta) state = fill delta (if has_key k state then state else insert k v state)

  -- `{**d, **extra}`
  unfoldable pub merge_dicts : Dict String V → Dict String V → Dict String V
  merge_dicts d [] = d
  merge_dicts d ((k, v) ∷ extra) = merge_dicts (insert k v d) extra

module _ {T V : Type 0} where
  unfoldable pub read_delta : Json T V → Node T → Delta V
  read_delta json n = elim n.state_delta [
    | none ↦ nothing
    | some text ↦
        if json.nonempty_text text
        then elim (json.loads text) [
          | none ↦ nothing
          | some (object d) ↦ delta_of d
          | some _ ↦ not_a_dict
        ]
        else nothing
  ]

  -- `delta.get("_checkpoint")`, as a truth value
  unfoldable pub is_checkpoint : Json T V → Dict String V → Bool
  is_checkpoint json d = elim (lookup "_checkpoint" d) [ none ↦ false | some v ↦ json.truthy v ]

  -- The loop of `load_session_state`.
  unfoldable pub load_loop : Json T V → ℕ → String → List (Node T) → Dict String V → ℕ → Walked V
  load_loop json zero id ns state depth = no_fuel
  load_loop json (suc fuel) id ns state depth = elim (find id ns) [
    | none ↦ state_at state depth
    | some n ↦ elim (read_delta json n) [
      | not_a_dict ↦ attribute_error
      | nothing ↦ elim n.parent_id [
        | none ↦ state_at state (suc depth)
        | some p ↦ load_loop json fuel p ns state (suc depth)
      ]
      | delta_of d ↦
          if is_checkpoint json d then state_at (fill d state) (suc depth) else elim n.parent_id [
            | none ↦ state_at (fill d state) (suc depth)
            | some p ↦ load_loop json fuel p ns (fill d state) (suc depth)
          ]
    ]
  ]

  unfoldable pub load_session_state : Json T V → String → ConversationDb T → Walked V
  load_session_state json node_id db =
      elim (load_loop json (suc (length db.nodes)) node_id db.nodes [] 0) [
        | state_at state depth ↦ state_at (erase "_checkpoint" state) depth
        | attribute_error ↦ attribute_error
        | no_fuel ↦ no_fuel
      ]

  -- `get_state`; none where the walk raises
  unfoldable pub get_state : Json T V → String → String → V → ConversationDb T → Option V
  get_state json node_id key default db = elim (load_session_state json node_id db) [
    | state_at state _ ↦ some (elim (lookup key state) [ none ↦ default | some v ↦ v ])
    | _ ↦ none
  ]

  -- The node's own delta where it is an object, and an empty one otherwise.
  unfoldable pub own_delta : Json T V → Node T → Dict String V
  own_delta json n = elim (read_delta json n) [ delta_of d ↦ d | _ ↦ [] ]

  unfoldable pub set_state :
      Json T V → String → String → V → ConversationDb T → Bool × ConversationDb T
  set_state json node_id key value db = elim (get_node node_id db) [
    | none ↦ (false, db)
    | some n ↦ update_node_state_delta node_id (json.dumps (insert key value (own_delta json n))) db
  ]

  unfoldable pub write_checkpoint_if_needed :
      Json T V → String → Dict String V → ℕ → ℕ → ConversationDb T → ConversationDb T
  write_checkpoint_if_needed json node_id state depth threshold db =
      if leb depth threshold
      then db
      else (update_node_state_delta node_id
          (json.dumps (merge_dicts (("_checkpoint", json.true_value) ∷ []) state)) db).1
