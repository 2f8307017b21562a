-- ===== src/Db/Walk.antt =====
-- The walk of TinyCTX/db.py from a node to the root: the recursive query of `get_ancestors` on
-- fuel, and what it answers on a tree.
pub mod Thread
use tiny_ctx.Base.{
  String, ℕ, suc, zero, ◌<◌, ◌≡◌, refl, Bool, true, false, not, ◌&&◌, List, [], ◌∷◌, Option, none,
  some, ◌==◌, string_eq, if◌then◌else◌, keep, arith, length, starts_with, Option-cases, Bool-cases,
  inl, inr,
}
use tiny_ctx.Db.{Node, ConversationDb, find, has_row}
use tiny_ctx.Db.Tree.{IsTree}

module _ {T : Type 0} where
  -- The rows of `_ANCESTORS_CTE`, from the node up; none where the fuel does not reach the root.
  unfoldable pub ancestry : ℕ → String → List (Node T) → Option (List (Node T))
  ancestry zero id ns = none
  ancestry (suc fuel) id ns = elim (find id ns) [
    | none ↦ some []
    | some n ↦ elim n.parent_id [
      | none ↦ some (n ∷ [])
      | some p ↦ elim (ancestry fuel p ns) [ none ↦ none | some up ↦ some (n ∷ up) ]
    ]
  ]

  unfoldable pub reverse_onto : List (Node T) → List (Node T) → List (Node T)
  reverse_onto [] acc = acc
  reverse_onto (n ∷ ns) acc = reverse_onto ns (n ∷ acc)

  -- `nodes[0].parent_id is None and nodes[0].content == ""`
  abbrev pub is_root_placeholder : Node T → Bool
  is_root_placeholder n = elim n.parent_id [ none ↦ n.content == "" | some _ ↦ false ]

  abbrev pub drop_root : List (Node T) → List (Node T)
  drop_root [] = []
  drop_root (n ∷ ns) = if is_root_placeholder n then ns else n ∷ ns

  abbrev pub is_session_node : Node T → Bool
  is_session_node n = n.role == "system" && starts_with "session:" n.content

  -- What `get_ancestors` makes of the rows.
  unfoldable pub dialogue : List (Node T) → List (Node T)
  dialogue up = keep (λ n. not (is_session_node n)) (drop_root (reverse_onto up []))

  -- One unit of fuel for each row, and one for a missing node.
  unfoldable pub get_ancestors : String → ConversationDb T → Option (List (Node T))
  get_ancestors node_id db = elim (ancestry (suc (length db.nodes)) node_id db.nodes) [
    | none ↦ none
    | some up ↦ some (dialogue up)
  ]

  -- The rows from a node up, found in one pass over the table since parents are older.
  unfoldable pub lineage : String → List (Node T) → List (Node T)
  lineage id [] = []
  lineage id (n ∷ older) =
      if n.id == id
      then n ∷ elim n.parent_id [ none ↦ [] | some p ↦ lineage p older ]
      else lineage id older

  pub parent-IsTree :
      (id p : String) (n : Node T) (ns : List (Node T))
      → IsTree ns
      → find id ns ≡ some n
      → n.parent_id ≡ some p
      → has_row p ns ≡ true
  unfolding find
  parent-IsTree id p n [] t h q = cc
  parent-IsTree id p n (m ∷ ns) (fresh, (parent, t)) h q = ground (arith, parent-IsTree id p n ns t)

  -- In a tree the newest row is on no walk that starts below it.
  pub ancestry_older :
      (fuel : ℕ) (id : String) (n : Node T) (older : List (Node T))
      → IsTree (n ∷ older)
      → has_row id older ≡ true
      → ancestry fuel id (n ∷ older) ≡ ancestry fuel id older
  unfolding ancestry find
  ancestry_older zero id n older t h = refl
  ancestry_older (suc fuel) id n older (fresh, (parent, t)) h =
      elim (Option-cases (find id older)) [
        | inl absent ↦ ground arith
        | inr (m, found) ↦ elim (Option-cases m.parent_id) [
          | inl top ↦ ground arith
          | inr (p, up) ↦
              let older_parent = parent-IsTree id p m older t found up in
              let rest = ancestry_older fuel p n older (fresh, (parent, t)) older_parent in
              ground arith
        ]
      ]

  ancestry_absent :
      (fuel : ℕ) (id : String) (ns : List (Node T))
      → find id ns ≡ none
      → ancestry (suc fuel) id ns ≡ some (lineage id ns)
  unfolding ancestry lineage find
  ancestry_absent fuel id [] h = refl
  ancestry_absent fuel id (n ∷ ns) h = ground (arith, ancestry_absent fuel id ns)

  -- On a tree, fuel beyond the number of rows gives the lineage.
  pub ancestry-lineage :
      (fuel : ℕ) (id : String) (ns : List (Node T))
      → IsTree ns
      → length ns < fuel
      → ancestry fuel id ns ≡ some (lineage id ns)
  unfolding ancestry lineage find
  ancestry-lineage zero id ns t h = ground arith
  ancestry-lineage (suc fuel) id [] t h = refl
  ancestry-lineage (suc fuel) id (n ∷ older) (fresh, (parent, t)) h =
      elim (Bool-cases (n.id == id)) [
        | inl here ↦ elim (Option-cases n.parent_id) [
          | inl top ↦ ground arith
          | inr (p, above) ↦ ground (
            arith,
            ancestry_older fuel p n older (fresh, (parent, t)),
            ancestry-lineage fuel p older t,
          )
        ]
        | inr below ↦ elim (Bool-cases (has_row id older)) [
          | inl found ↦ ground (
            arith,
            ancestry_older (suc fuel) id n older (fresh, (parent, t)),
            ancestry-lineage (suc fuel) id older t,
          )
          | inr absent ↦ ground (arith, ancestry_absent fuel id older)
        ]
      ]

  -- On a tree the recursive query ends, and what `get_ancestors` answers is the lineage from the
  -- root down, without the root placeholder and the session nodes.
  pub get_ancestors-lineage :
      (node_id : String) (db : ConversationDb T)
      → IsTree db.nodes
      → get_ancestors node_id db ≡ some (dialogue (lineage node_id db.nodes))
  unfolding get_ancestors
  get_ancestors-lineage node_id db t =
      ground (arith, ancestry-lineage (suc (length db.nodes)) node_id db.nodes t (omega arith))
