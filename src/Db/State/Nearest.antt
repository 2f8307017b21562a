-- ===== src/Db/State/Nearest.antt =====
-- The walk of session state on a tree: it ends, and the nearest delta with a key decides.
use tiny_ctx.Base.{
  String, ℕ, suc, zero, ◌≡◌, ◌≢◌, ◌⊎◌, refl, false, List, [], ◌∷◌, Option, none, some, ◌==◌,
  string_eq, if◌then◌else◌, arith, length, Option-cases, inl, inr,
}
use tiny_ctx.Base.Dict.{Dict, lookup, insert, erase, lookup-insert, lookup-erase}
use tiny_ctx.Db.{Node, ConversationDb, find}
use tiny_ctx.Db.Json.{Json}
use tiny_ctx.Db.Tree.{IsTree}
use tiny_ctx.Db.Walk.{ancestry, lineage, ancestry-lineage}
use tiny_ctx.Db.State.{
  Delta, Walked, state_at, attribute_error, no_fuel, nothing, not_a_dict, delta_of, fill,
  read_delta, is_checkpoint, load_loop, load_session_state,
}

module _ {V : Type 0} where
  -- To split on what a node's column holds and keep the equation.
  pub Delta-cases :
      (d : Delta V) → (d ≡ nothing) ⊎ ((d ≡ not_a_dict) ⊎ ((e : Dict String V) × (d ≡ delta_of e)))
  Delta-cases nothing = inl refl
  Delta-cases not_a_dict = inr (inl refl)
  Delta-cases (delta_of e) = inr (inr (e, refl))

  Walked-cases :
      (w : Walked V)
      → ((w ≡ attribute_error) ⊎ (w ≡ no_fuel))
        ⊎ ((s : Dict String V) × ((d : ℕ) × (w ≡ state_at s d)))
  Walked-cases attribute_error = inl (inl refl)
  Walked-cases no_fuel = inl (inr refl)
  Walked-cases (state_at s d) = inr (s, (d, refl))

  pub lookup-fill :
      (k : String) (delta state : Dict String V)
      → lookup k (fill delta state)
        ≡ elim (lookup k state) [ some v ↦ some v | none ↦ lookup k delta ]
  unfolding fill lookup
  lookup-fill k [] state = ground arith
  lookup-fill k ((j, v) ∷ delta) state = ground (
    arith,
    lookup-fill k delta state,
    lookup-fill k delta (insert j v state),
    lookup-insert k j v state,
  )

module _ {T V : Type 0} where
  -- The loop on the rows that it visits.
  unfoldable pub follow : Json T V → List (Node T) → Dict String V → ℕ → Walked V
  follow json [] state depth = state_at state depth
  follow json (n ∷ up) state depth = elim (read_delta json n) [
    | not_a_dict ↦ attribute_error
    | nothing ↦ follow json up state (suc depth)
    | delta_of d ↦
        if is_checkpoint json d
        then state_at (fill d state) (suc depth)
        else follow json up (fill d state) (suc depth)
  ]

  -- What the first of these nodes that has the key says, a checkpoint being the last one asked.
  unfoldable pub nearest : Json T V → String → List (Node T) → Option V
  nearest json k [] = none
  nearest json k (n ∷ up) =
      let further = nearest json k up in
      elim (read_delta json n) [
        | not_a_dict ↦ none
        | nothing ↦ further
        | delta_of d ↦ elim (lookup k d) [
          | some v ↦ some v
          | none ↦ if is_checkpoint json d then none else further
        ]
      ]

  pub load_loop-follow :
      (json : Json T V) (fuel : ℕ) (id : String) (ns up : List (Node T)) (state : Dict String V)
      (depth : ℕ)
      → ancestry fuel id ns ≡ some up
      → load_loop json fuel id ns state depth ≡ follow json up state depth
  unfolding ancestry load_loop follow
  load_loop-follow json zero id ns up state depth h = ground arith
  load_loop-follow json (suc fuel) id ns up state depth h = elim (Option-cases (find id ns)) [
    | inl absent ↦ ground arith
    | inr (n, found) ↦ elim (Option-cases n.parent_id) [
      | inl top ↦ ground arith
      | inr (p, above) ↦ elim (Option-cases (ancestry fuel p ns)) [
        | inl short ↦ ground arith
        | inr (up', more) ↦ elim (Delta-cases (read_delta json n)) [
          | inl silent ↦ ground (arith, load_loop-follow json fuel p ns up' state (suc depth) more)
          | inr (inl odd) ↦ ground arith
          | inr (inr (d, delta)) ↦
              ground (arith, load_loop-follow json fuel p ns up' (fill d state) (suc depth) more)
        ]
      ]
    ]
  ]

  follow-fuel :
      (json : Json T V) (up : List (Node T)) (state : Dict String V) (depth : ℕ)
      → follow json up state depth ≢ no_fuel
  unfolding follow
  follow-fuel json [] state depth = ground arith
  follow-fuel json (n ∷ up) state depth = elim (Delta-cases (read_delta json n)) [
    | inl silent ↦ ground (arith, follow-fuel json up state (suc depth))
    | inr (inl odd) ↦ ground arith
    | inr (inr (d, delta)) ↦ ground (arith, follow-fuel json up (fill d state) (suc depth))
  ]

  follow-nearest :
      (json : Json T V) (up : List (Node T)) (k : String) (state final : Dict String V)
      (depth visited : ℕ)
      → follow json up state depth ≡ state_at final visited
      → lookup k final ≡ elim (lookup k state) [ some v ↦ some v | none ↦ nearest json k up ]
  unfolding follow nearest
  follow-nearest json [] k state final depth visited h = ground arith
  follow-nearest json (n ∷ up) k state final depth visited h =
      elim (Delta-cases (read_delta json n)) [
        | inl silent ↦ ground (arith, follow-nearest json up k state final (suc depth) visited)
        | inr (inl odd) ↦ ground arith
        | inr (inr (d, delta)) ↦ ground (
          arith,
          lookup-fill k d state,
          follow-nearest json up k (fill d state) final (suc depth) visited,
        )
      ]

  load_loop_on_tree :
      (json : Json T V) (node_id : String) (db : ConversationDb T)
      → IsTree db.nodes
      → load_loop json (suc (length db.nodes)) node_id db.nodes [] 0
        ≡ follow json (lineage node_id db.nodes) [] 0
  load_loop_on_tree json node_id db t =
      let up = lineage node_id db.nodes in
      let fuel = suc (length db.nodes) in
      load_loop-follow json fuel node_id db.nodes up [] 0
        (ancestry-lineage fuel node_id db.nodes t (omega arith))

  -- One unit of fuel for each row is enough on a tree: the walk reaches the root, a checkpoint or a
  -- text that holds no object.
  load_session_state-fuel :
      (json : Json T V) (node_id : String) (db : ConversationDb T)
      → IsTree db.nodes
      → load_session_state json node_id db ≢ no_fuel
  unfolding load_session_state
  load_session_state-fuel json node_id db t =
      ground (
        arith,
        load_loop_on_tree json node_id db t,
        follow-fuel json (lineage node_id db.nodes) [] 0,
      )

  -- A walk that returns is a run over the lineage that returns, and the other way round.
  pub load_session_state_of_follow :
      (json : Json T V) (node_id : String) (state : Dict String V) (depth : ℕ)
      (db : ConversationDb T)
      → IsTree db.nodes
      → follow json (lineage node_id db.nodes) [] 0 ≡ state_at state depth
      → load_session_state json node_id db ≡ state_at (erase "_checkpoint" state) depth
  unfolding load_session_state
  load_session_state_of_follow json node_id state depth db t h =
      ground (arith, load_loop_on_tree json node_id db t)

  pub follow_of_load_session_state :
      (json : Json T V) (node_id : String) (state : Dict String V) (depth : ℕ)
      (db : ConversationDb T)
      → IsTree db.nodes
      → load_session_state json node_id db ≡ state_at state depth
      → (full : Dict String V) × ((follow json (lineage node_id db.nodes) [] 0
            ≡ state_at full depth)
          × (erase "_checkpoint" full ≡ state))
  unfolding load_session_state
  follow_of_load_session_state json node_id state depth db t h =
      let walk = load_loop_on_tree json node_id db t in
      elim (Walked-cases (follow json (lineage node_id db.nodes) [] 0)) [
        | inl failed ↦ ground arith
        | inr (s, (d, finished)) ↦ (s, (ground arith, ground arith))
      ]

  -- On a tree, the state that a walk from a node returns has for every key but _checkpoint what the
  -- nearest node up to the last checkpoint says, and nothing where none has the key.
  pub load_session_state-nearest :
      (json : Json T V) (node_id k : String) (state : Dict String V) (depth : ℕ)
      (db : ConversationDb T)
      → IsTree db.nodes
      → load_session_state json node_id db ≡ state_at state depth
      → ("_checkpoint" == k) ≡ false
      → lookup k state ≡ nearest json k (lineage node_id db.nodes)
  unfolding lookup
  load_session_state-nearest json node_id k state depth db t h other_key =
      let (full, (finished, popped)) =
        follow_of_load_session_state json node_id state depth db t h in
      ground (
        arith,
        lookup-erase k "_checkpoint" full,
        follow-nearest json (lineage node_id db.nodes) k [] full 0 depth finished,
      )
