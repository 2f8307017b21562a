-- ===== src/Db/State/Written.antt =====
-- What a write of one key on a node does to the session state at the node.
use tiny_ctx.Base.{
  String, ℕ, suc, ◌≡◌, ◌≢◌, refl, false, List, [], ◌∷◌, none, some, ◌==◌, string_eq, if◌then◌else◌,
  arith, inl, inr, Bool-cases,
}
use tiny_ctx.Base.Dict.{Dict, lookup, insert, erase, lookup-insert}
use tiny_ctx.Db.{
  Node, ConversationDb, find, get_node, update_node_state_delta, update_row, update_where,
}
use tiny_ctx.Db.Json.{Json, JsonLaws}
use tiny_ctx.Db.Tree.{IsTree, KeepsLinks, update_where_absent, update_where-IsTree}
use tiny_ctx.Db.Walk.{lineage}
use tiny_ctx.Db.State.{
  state_at, not_a_dict, delta_of, fill, read_delta, is_checkpoint, load_session_state, own_delta,
  set_state,
}
use tiny_ctx.Db.State.Nearest.{
  Delta-cases, follow, nearest, load_session_state_of_follow, follow_of_load_session_state,
  load_session_state-nearest,
}
use tiny_ctx.Db.State.Checkpoint.{read_delta_written}

module _ {T : Type 0} where
  -- An update of one row changes the first node of its lineage and no other.
  lineage-update_where :
      (id : String) (f : Node T → Node T) (n : Node T) (ns : List (Node T))
      → KeepsLinks f
      → IsTree ns
      → find id ns ≡ some n
      → (up : List (Node T)) × ((lineage id ns ≡ n ∷ up)
          × (lineage id (update_where id f ns) ≡ f n ∷ up))
  unfolding lineage update_where find
  lineage-update_where id f n [] k t found = ground arith
  lineage-update_where id f n (m ∷ ns) k (fresh, (parent, t)) found =
      let h = k m in
      elim (Bool-cases (m.id == id)) [
        | inl here ↦ (
          elim m.parent_id [ none ↦ [] | some p ↦ lineage p ns ],
          (ground arith, ground (arith, update_where_absent id f ns)),
        )
        | inr below ↦
            let (up, (old, new)) = lineage-update_where id f n ns k t (ground arith) in
            (up, (ground arith, ground arith))
      ]

module _ {T V : Type 0} where
  -- Whether a walk raises does not depend on the state that it fills.
  follow-state :
      (json : Json T V) (up : List (Node T)) (s t final : Dict String V) (depth visited : ℕ)
      → follow json up s depth ≡ state_at final visited
      → (other : Dict String V) × (follow json up t depth ≡ state_at other visited)
  unfolding follow
  follow-state json [] s t final depth visited h = (t, ground arith)
  follow-state json (n ∷ up) s t final depth visited h = elim (Delta-cases (read_delta json n)) [
    | inl silent ↦
        let (other, same) = follow-state json up s t final (suc depth) visited (ground arith) in
        (other, ground arith)
    | inr (inl odd) ↦ (t, ground arith)
    | inr (inr (d, delta)) ↦ elim (Bool-cases (is_checkpoint json d)) [
      | inl last ↦ (fill d t, ground arith)
      | inr more ↦
          let (other, same) =
            follow-state json up (fill d s) (fill d t) final (suc depth) visited (ground arith) in
          (other, ground arith)
    ]
  ]

module _ {T V : Type 0} (json : Json T V) (laws : JsonLaws json) where
  abbrev with_key : String → V → Node T → Node T
  with_key key value n = record n {
    state_delta = some (json.dumps (insert key value (own_delta json n)));
  }

  -- The written delta is a checkpoint exactly if the old one was.
  is_checkpoint-insert :
      (key : String) (value : V) (d : Dict String V)
      → (key == "_checkpoint") ≡ false
      → is_checkpoint json (insert key value d) ≡ is_checkpoint json d
  unfolding is_checkpoint
  is_checkpoint-insert key value d h = ground (arith, lookup-insert "_checkpoint" key value d)

  -- The run over a lineage whose first node has one more key in its delta.
  follow_written :
      (n : Node T) (up : List (Node T)) (key : String) (value : V) (final : Dict String V)
      (visited : ℕ)
      → (key == "_checkpoint") ≡ false
      → follow json (n ∷ up) [] 0 ≡ state_at final visited
      → (other : Dict String V) × (follow json (with_key key value n ∷ up) [] 0
          ≡ state_at other visited)
  unfolding follow own_delta is_checkpoint lookup
  follow_written n up key value final visited plain h =
      let w : Dict String V = insert key value (own_delta json n) in
      let delta' : read_delta json (with_key key value n) ≡ delta_of w =
        read_delta_written json laws n w in
      let mark = is_checkpoint-insert key value (own_delta json n) plain in
      elim (Delta-cases (read_delta json n)) [
        | inl silent ↦
            let (other, same) =
              follow-state json up [] (fill w []) final 1 visited (ground arith) in
            (other, ground arith)
        | inr (inl odd) ↦ ([], ground arith)
        | inr (inr (d, delta)) ↦ elim (Bool-cases (is_checkpoint json d)) [
          | inl last ↦ (fill w [], ground arith)
          | inr more ↦
              let (other, same) =
                follow-state json up (fill d []) (fill w []) final 1 visited (ground arith) in
              (other, ground arith)
        ]
      ]

  nearest_written :
      (n : Node T) (up : List (Node T)) (key k : String) (value : V)
      → (key == "_checkpoint") ≡ false
      → read_delta json n ≢ not_a_dict
      → nearest json k (with_key key value n ∷ up)
        ≡ (if key == k then some value else nearest json k (n ∷ up))
  unfolding nearest own_delta is_checkpoint lookup
  nearest_written n up key k value plain dict =
      let w : Dict String V = insert key value (own_delta json n) in
      let delta' : read_delta json (with_key key value n) ≡ delta_of w =
        read_delta_written json laws n w in
      let mark = is_checkpoint-insert key value (own_delta json n) plain in
      elim (Delta-cases (read_delta json n)) [
        | inl silent ↦ ground (arith, lookup-insert k key value [])
        | inr (inl odd) ↦ ground arith
        | inr (inr (d, delta)) ↦ ground (arith, lookup-insert k key value d)
      ]

  follow_dict :
      (n : Node T) (up : List (Node T)) (final : Dict String V) (visited : ℕ)
      → follow json (n ∷ up) [] 0 ≡ state_at final visited
      → read_delta json n ≢ not_a_dict
  unfolding follow
  follow_dict n up final visited h = ground arith

  -- Where a walk from a node returns, it still does after a key other than _checkpoint was set on the
  -- node: the key has the new value there, and every other key what it had.
  pub load_session_state-set_state :
      (node_id key k : String) (value : V) (state : Dict String V) (depth : ℕ) (n : Node T)
      (db : ConversationDb T)
      → IsTree db.nodes
      → find node_id db.nodes ≡ some n
      → (key == "_checkpoint") ≡ false
      → ("_checkpoint" == k) ≡ false
      → load_session_state json node_id db ≡ state_at state depth
      → (final : Dict String V) × ((load_session_state json node_id
              (set_state json node_id key value db).1
            ≡ state_at final depth)
          × (lookup k final ≡ (if key == k then some value else lookup k state)))
  unfolding set_state get_node update_node_state_delta update_row
  load_session_state-set_state node_id key k value state depth n db t found plain other_key loaded =
      let text = json.dumps (insert key value (own_delta json n)) in
      let f : Node T → Node T = λ m. record m { state_delta = some text } in
      let links : KeepsLinks f = λ m. (refl, refl) in
      let db' : ConversationDb T = record db { nodes = update_where node_id f db.nodes } in
      let written : (set_state json node_id key value db).1 ≡ db' = ground arith in
      let t' : IsTree db'.nodes = update_where-IsTree node_id f db.nodes links t in
      let (up, (old, new)) = lineage-update_where node_id f n db.nodes links t found in
      let (full, (run, _)) = follow_of_load_session_state json node_id state depth db t loaded in
      let run' : follow json (n ∷ up) [] 0 ≡ state_at full depth = ground arith in
      let (other, again) = follow_written n up key value full depth plain run' in
      let final = erase "_checkpoint" other in
      let load' : load_session_state json node_id db' ≡ state_at final depth =
        load_session_state_of_follow json node_id other depth db' t' (rw new again) in
      (
        final,
        (
          rw written load',
          ground (
            arith,
            load_session_state-nearest json node_id k state depth db t loaded other_key,
            load_session_state-nearest json node_id k final depth db' t' load' other_key,
            nearest_written n up key k value plain (follow_dict n up full depth run'),
          ),
        ),
      )
