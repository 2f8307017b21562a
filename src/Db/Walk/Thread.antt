-- ===== src/Db/Walk/Thread.antt =====
-- What `get_ancestors` of TinyCTX/db.py answers on a tree, described from the root down.
use tiny_ctx.Base.{
  String, ◌≡◌, refl, ap, sym, ◌∙◌, Bool, true, false, not, ◌&&◌, ◌||◌, List, [], ◌∷◌, ◌++◌, none,
  some, ◌==◌, string_eq, if◌then◌else◌, keep, arith, starts_with, append_assoc, Option-cases,
  Bool-cases, inl, inr,
}
use tiny_ctx.Db.{Node, ConversationDb}
use tiny_ctx.Db.Tree.{IsTree}
use tiny_ctx.Db.Walk.{
  get_ancestors, lineage, dialogue, reverse_onto, drop_root, is_session_node, get_ancestors-lineage,
}

module _ {T : Type 0} where
  -- A node that is part of no conversation: an empty one without a parent, or a session node.
  unfoldable pub is_hidden : Node T → Bool
  is_hidden n =
      (n.content == "" && elim n.parent_id [ none ↦ true | some _ ↦ false ])
      || (n.role == "system" && starts_with "session:" n.content)

  unfoldable pub shown_row : Node T → List (Node T)
  shown_row n = if is_hidden n then [] else n ∷ []

  -- The conversation that ends at a node: that of its parent, found among the older rows, and then
  -- the node itself unless it is hidden.
  unfoldable pub thread : String → List (Node T) → List (Node T)
  thread id [] = []
  thread id (n ∷ older) =
      if n.id == id
      then elim n.parent_id [ none ↦ [] | some p ↦ thread p older ] ++ shown_row n
      else thread id older

  abbrev shown : List (Node T) → List (Node T)
  shown down = keep (λ n. not (is_session_node n)) (drop_root down)

  reverse_onto-append : (up acc : List (Node T)) → reverse_onto up acc ≡ reverse_onto up [] ++ acc
  unfolding reverse_onto
  reverse_onto-append [] acc = refl
  reverse_onto-append (n ∷ up) acc =
      reverse_onto-append up (n ∷ acc)
      ∙ (sym (append_assoc (reverse_onto up []) (n ∷ []) acc)
          ∙ ap (λ down. down ++ acc) (sym (reverse_onto-append up (n ∷ []))))

  keep-append :
      (q : Node T → Bool) (xs ys : List (Node T)) → keep q (xs ++ ys) ≡ keep q xs ++ keep q ys
  unfolding keep
  keep-append q [] ys = refl
  keep-append q (x ∷ xs) ys = ground (arith, keep-append q xs ys)

  -- A node with a parent is not the placeholder, wherever it stands.
  shown-append :
      (down : List (Node T)) (n : Node T) (p : String)
      → n.parent_id ≡ some p
      → shown (down ++ (n ∷ [])) ≡ shown down ++ shown_row n
  unfolding keep shown_row is_hidden
  shown-append [] n p up = ground arith
  shown-append (m ∷ down) n p up =
      let q : Node T → Bool = λ x. not (is_session_node x) in
      ground (arith, keep-append q down (n ∷ []), keep-append q (m ∷ down) (n ∷ []))

  dialogue-below :
      (n : Node T) (up : List (Node T)) (p : String)
      → n.parent_id ≡ some p
      → dialogue (n ∷ up) ≡ dialogue up ++ shown_row n
  unfolding dialogue reverse_onto
  dialogue-below n up p above =
      ap shown (reverse_onto-append up (n ∷ [])) ∙ shown-append (reverse_onto up []) n p above

  dialogue_at_root : (n : Node T) → n.parent_id ≡ none → dialogue (n ∷ []) ≡ shown_row n
  unfolding dialogue reverse_onto keep shown_row is_hidden
  dialogue_at_root n top = ground arith

  dialogue_of_none : dialogue {T = T} [] ≡ []
  unfolding dialogue reverse_onto keep
  dialogue_of_none = refl

  dialogue-thread : (id : String) (ns : List (Node T)) → dialogue (lineage id ns) ≡ thread id ns
  unfolding lineage thread
  dialogue-thread id [] = dialogue_of_none
  dialogue-thread id (n ∷ older) = elim (Bool-cases (n.id == id)) [
    | inr below ↦ ground (arith, dialogue-thread id older)
    | inl here ↦ elim (Option-cases n.parent_id) [
      | inl top ↦ ground (arith, dialogue_at_root n)
      | inr (p, above) ↦
          let below = dialogue-below n (lineage p older) p above in
          ground (arith, below, dialogue-thread p older)
    ]
  ]

  -- On a tree the recursive query ends, and `get_ancestors` answers the conversation of the node.
  pub get_ancestors-thread :
      (node_id : String) (db : ConversationDb T)
      → IsTree db.nodes
      → get_ancestors node_id db ≡ some (thread node_id db.nodes)
  get_ancestors-thread node_id db t =
      get_ancestors-lineage node_id db t ∙ ap some (dialogue-thread node_id db.nodes)
