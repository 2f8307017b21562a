-- ===== src/Db/Tree.antt =====
-- The shape of the table: ids are unique and a parent is older than its children. Every method that
-- changes rows keeps it.
use tiny_ctx.Base.{
  String, ℕ, ◌≡◌, refl, Bool, true, false, not, ◌&&◌, List, [], ◌∷◌, Option, none, some, ◌==◌,
  if◌then◌else◌, exists, keep, arith, ◌≢◌, string_eq,
}
use tiny_ctx.Db.{
  Node, ConversationDb, find, has_row, update_where, is_child_of, insert_node, add_node,
  delete_node,
}

module _ {T : Type 0} where
  -- A row without a parent, or with one among the older rows.
  abbrev pub has_parent : Option String → List (Node T) → Bool
  has_parent parent ns = elim parent [ none ↦ true | some p ↦ has_row p ns ]

  abbrev pub IsTree : List (Node T) → Type 0
  IsTree [] = Unit
  IsTree (n ∷ ns) = (find n.id ns ≡ none) × ((has_parent n.parent_id ns ≡ true) × IsTree ns)

  -- What an update of other columns leaves alone.
  abbrev pub KeepsLinks : (Node T → Node T) → Type 0
  KeepsLinks f = (n : Node T) → ((f n).id ≡ n.id) × ((f n).parent_id ≡ n.parent_id)

  pub find-update_where :
      (j id : String) (f : Node T → Node T) (ns : List (Node T))
      → KeepsLinks f
      → find j (update_where id f ns)
        ≡ elim (find j ns) [ none ↦ none | some n ↦ some (if j == id then f n else n) ]
  unfolding find update_where
  find-update_where j id f [] k = refl
  find-update_where j id f (n ∷ ns) k =
      let h = (k n).0 in ground (arith, find-update_where j id f ns k)

  pub update_where_absent :
      (id : String) (f : Node T → Node T) (ns : List (Node T))
      → find id ns ≡ none
      → update_where id f ns ≡ ns
  unfolding find update_where
  update_where_absent id f [] h = refl
  update_where_absent id f (n ∷ ns) h = ground (arith, update_where_absent id f ns)

  pub has_parent-update_where :
      (parent : Option String) (id : String) (f : Node T → Node T) (ns : List (Node T))
      → KeepsLinks f
      → has_parent parent ns ≡ true
      → has_parent parent (update_where id f ns) ≡ true
  has_parent-update_where none id f ns k h = refl
  has_parent-update_where (some p) id f ns k h = ground (arith, find-update_where p id f ns k)

  pub update_where-IsTree :
      (id : String) (f : Node T → Node T) (ns : List (Node T))
      → KeepsLinks f
      → IsTree ns
      → IsTree (update_where id f ns)
  unfolding update_where
  update_where-IsTree id f [] k t = tt
  update_where-IsTree id f (n ∷ ns) k (fresh, (parent, t)) =
      let h = k n in
      let same_id : (if n.id == id then f n else n).id ≡ n.id = ground arith in
      let same_parent : (if n.id == id then f n else n).parent_id ≡ n.parent_id = ground arith in
      let fresh' : find n.id (update_where id f ns) ≡ none =
        ground (arith, find-update_where n.id id f ns k) in
      let parent' : has_parent n.parent_id (update_where id f ns) ≡ true =
        has_parent-update_where n.parent_id id f ns k parent in
      (rw same_id fresh', (rw same_parent parent', update_where-IsTree id f ns k t))

  pub update_older-IsTree :
      (id : String) (f : Node T → Node T) (n : Node T) (ns : List (Node T))
      → KeepsLinks f
      → IsTree (n ∷ ns)
      → IsTree (n ∷ update_where id f ns)
  update_older-IsTree id f n ns k (fresh, (parent, t)) = (
    ground (arith, find-update_where n.id id f ns k),
    (has_parent-update_where n.parent_id id f ns k parent, update_where-IsTree id f ns k t),
  )

  pub insert_node-IsTree :
      (n : Node T) (db : ConversationDb T)
      → n.parent_id ≢ some n.id
      → IsTree db.nodes
      → IsTree (insert_node n db).1.nodes
  unfolding insert_node
  insert_node-IsTree n db apart t = ground arith

  find-keep :
      (j id : String) (ns : List (Node T))
      → find j (keep (λ n. not (n.id == id)) ns) ≡ (if j == id then none else find j ns)
  unfolding find keep
  find-keep j id [] = ground arith
  find-keep j id (n ∷ ns) = ground (arith, find-keep j id ns)

  has_parent-keep :
      (parent : Option String) (id : String) (ns : List (Node T))
      → elim parent [ none ↦ false | some p ↦ p == id ] ≡ false
      → has_parent parent ns ≡ true
      → has_parent parent (keep (λ n. not (n.id == id)) ns) ≡ true
  has_parent-keep none id ns differ h = refl
  has_parent-keep (some p) id ns differ h = ground (arith, find-keep p id ns)

  keep-IsTree :
      (id : String) (ns : List (Node T))
      → exists (λ n. is_child_of id n && not (n.id == id)) ns ≡ false
      → IsTree ns
      → IsTree (keep (λ n. not (n.id == id)) ns)
  unfolding keep exists is_child_of
  keep-IsTree id [] none_left t = tt
  keep-IsTree id (n ∷ ns) none_left (fresh, (parent, t)) =
      let rest = keep-IsTree id ns (ground arith) t in
      let parent' = has_parent-keep n.parent_id id ns in
      ground (arith, rest, find-keep n.id id ns, parent')

  keep_absent :
      (id : String) (ns : List (Node T)) → find id ns ≡ none → keep (λ n. not (n.id == id)) ns ≡ ns
  unfolding find keep
  keep_absent id [] h = refl
  keep_absent id (n ∷ ns) h = ground (arith, keep_absent id ns)

  -- Deleting a node keeps the tree: a node with children is not deleted.
  delete_node-IsTree :
      (id : String) (db : ConversationDb T) → IsTree db.nodes → IsTree (delete_node id db).1.nodes
  unfolding delete_node
  delete_node-IsTree id db t = ground (arith, keep-IsTree id db.nodes, keep_absent id db.nodes)

  -- Adding a node keeps the tree where the id that uuid4 gives is not the parent's.
  add_node-IsTree :
      (node_id : String) (now : ℕ) (no_flags : T) (parent_id role content : String)
      (tool_calls tool_call_id author_id attachment_paths : Option String) (state_delta : Option T)
      (db : ConversationDb T)
      → (parent_id == node_id) ≡ false
      → IsTree db.nodes
      → IsTree
          (add_node node_id now no_flags parent_id role content tool_calls tool_call_id author_id
            attachment_paths state_delta db).1.nodes
  unfolding add_node
  add_node-IsTree node_id now no_flags parent_id role content tool_calls tool_call_id author_id
        attachment_paths state_delta db apart t =
      let n : Node T = record {
        id = node_id;
        parent_id = some parent_id;
        role = role;
        content = content;
        created_at = now;
        tool_calls = tool_calls;
        tool_call_id = tool_call_id;
        author_id = author_id;
        attachment_paths = attachment_paths;
        state_delta = state_delta;
        flags = no_flags;
      } in
      ground (arith, insert_node-IsTree n db (ground arith) t)
