-- ===== src/Db.antt =====
-- The conversation tree of TinyCTX/db.py: the rows of the table `nodes`, the statements on them and
-- the methods of ConversationDB that read or change single rows. The walks are in Db/Walk,
-- Db/State and Db/Flags.
--
-- The list holds the newest row first. A JSON column holds a text of the type T, which only the
-- json package reads (Db/Json). SQLite runs with foreign keys on, as the constructor asks.
pub mod Json
pub mod Tree
pub mod Walk
pub mod State
pub mod Flags
use tiny_ctx.Base.{
  String, ℕ, ◌≡◌, refl, Bool, true, false, not, ◌&&◌, ◌||◌, List, [], ◌∷◌, Option, none, some, map,
  ◌==◌, string_eq, if◌then◌else◌, contains, exists, keep, leb,
}

pub record Node (T : Type 0) : Type 0 where
  pub id : String
  pub parent_id : Option String
  pub role : String
  pub content : String
  pub created_at : ℕ
  pub tool_calls : Option String
  pub tool_call_id : Option String
  pub author_id : Option String
  pub attachment_paths : Option String
  pub state_delta : Option T
  pub flags : T

-- The tables: `nodes`, and the row of `meta` with the key root_id.
pub record ConversationDb (T : Type 0) : Type 0 where
  pub root_id : Option String
  pub nodes : List (Node T)

pub data DbError : Type 0 where
  invalid_role invalid_parent integrity_error runtime_error : DbError

pub data Outcome (A : Type 0) : Type 0 where
  returned : A → Outcome A
  raised : DbError → Outcome A

-- `_VALID_ROLES`
unfoldable pub valid_roles : List String
valid_roles = "user" ∷ "assistant" ∷ "system" ∷ "tool" ∷ []

module _ {T : Type 0} where
  -- `SELECT ... FROM nodes WHERE id = ?`
  unfoldable pub find : String → List (Node T) → Option (Node T)
  find id [] = none
  find id (n ∷ ns) = if n.id == id then some n else find id ns

  abbrev pub has_row : String → List (Node T) → Bool
  has_row id ns = elim (find id ns) [ none ↦ false | some _ ↦ true ]

  -- `UPDATE nodes SET ... WHERE id = ?`
  unfoldable pub update_where : String → (Node T → Node T) → List (Node T) → List (Node T)
  update_where id f [] = []
  update_where id f (n ∷ ns) = (if n.id == id then f n else n) ∷ update_where id f ns

  -- `parent_id = ?`
  unfoldable pub is_child_of : String → Node T → Bool
  is_child_of id n = elim n.parent_id [ none ↦ false | some p ↦ p == id ]

  unfoldable pub get_node : String → ConversationDb T → Option (Node T)
  get_node node_id db = find node_id db.nodes

  -- A missing row and a null parent both make the inner query null, which no id equals.
  unfoldable pub get_parent : String → ConversationDb T → Option (Node T)
  get_parent node_id db = elim (find node_id db.nodes) [
    | none ↦ none
    | some n ↦ elim n.parent_id [ none ↦ none | some p ↦ find p db.nodes ]
  ]

  unfoldable pub get_root : ConversationDb T → Outcome (Node T)
  get_root db = elim db.root_id [
    | none ↦ raised runtime_error
    | some root ↦ elim (get_node root db) [ none ↦ raised runtime_error | some n ↦ returned n ]
  ]

  -- `ORDER BY created_at`
  unfoldable pub place : Node T → List (Node T) → List (Node T)
  place n [] = n ∷ []
  place n (m ∷ ms) =
      let rest = place n ms in if leb n.created_at m.created_at then n ∷ m ∷ ms else m ∷ rest

  unfoldable pub by_time : List (Node T) → List (Node T)
  by_time [] = []
  by_time (n ∷ ns) = place n (by_time ns)

  unfoldable pub get_children : String → ConversationDb T → List (Node T)
  get_children node_id db = by_time (keep (is_child_of node_id) db.nodes)

  unfoldable pub get_tail_nodes : ConversationDb T → List (Node T)
  get_tail_nodes db = keep (λ n. not (exists (is_child_of n.id) db.nodes)) db.nodes

  -- `INSERT INTO nodes`: the id is the primary key and a parent has to exist.
  unfoldable pub insert_node : Node T → ConversationDb T → Outcome (Node T) × ConversationDb T
  insert_node n db =
      let parent_missing : Bool = elim n.parent_id [
        | none ↦ false
        | some p ↦ not (p == n.id || has_row p db.nodes)
      ] in
      if has_row n.id db.nodes || parent_missing
      then (raised integrity_error, db)
      else (returned n, record db { nodes = n ∷ db.nodes })

  -- `ensure_schema` on a current table: the root node is inserted once.
  unfoldable pub ensure_root : String → ℕ → T → ConversationDb T → Outcome Unit × ConversationDb T
  ensure_root root_id now no_flags db =
      let root : Node T = record {
        id = root_id;
        parent_id = none;
        role = "system";
        content = "";
        created_at = now;
        tool_calls = none;
        tool_call_id = none;
        author_id = none;
        attachment_paths = none;
        state_delta = none;
        flags = no_flags;
      } in
      let (outcome, db') = insert_node root db in
      elim db.root_id [
        | some _ ↦ (returned tt, db)
        | none ↦ elim outcome [
          | returned _ ↦ (returned tt, record db' { root_id = some root_id })
          | raised why ↦ (raised why, db')
        ]
      ]

  -- `add_node`; `node_id` is what uuid4 answers and `no_flags` is the text "[]".
  unfoldable pub add_node :
      String
      → ℕ
      → T
      → String
      → String
      → String
      → Option String
      → Option String
      → Option String
      → Option String
      → Option T
      → ConversationDb T
      → Outcome (Node T) × ConversationDb T
  add_node node_id now no_flags parent_id role content tool_calls tool_call_id author_id
        attachment_paths state_delta db =
      if not (contains valid_roles role)
      then (raised invalid_role, db)
      else if parent_id == ""
      then (raised invalid_parent, db)
      else insert_node
          (record {
            id = node_id;
            parent_id = some parent_id;
            role = role;
            content = content;
            created_at = now;
            tool_calls = tool_calls;
            tool_call_id = tool_call_id;
            author_id = author_id;
            attachment_paths = attachment_paths;
            state_delta = state_delta;
            flags = no_flags;
          })
          db

  -- An update and `cur.rowcount > 0`.
  unfoldable pub update_row :
      String → (Node T → Node T) → ConversationDb T → Bool × ConversationDb T
  update_row node_id f db =
      (has_row node_id db.nodes, record db { nodes = update_where node_id f db.nodes })

  unfoldable pub update_node_content : String → String → ConversationDb T → Bool × ConversationDb T
  update_node_content node_id content db =
      update_row node_id (λ n. record n { content = content }) db

  unfoldable pub update_node_state_delta : String → T → ConversationDb T → Bool × ConversationDb T
  update_node_state_delta node_id state_delta db =
      update_row node_id (λ n. record n { state_delta = some state_delta }) db

  -- `delete_node`: a row that others name as their parent cannot go.
  unfoldable pub delete_node : String → ConversationDb T → Outcome Bool × ConversationDb T
  delete_node node_id db =
      if exists (λ n. is_child_of node_id n && not (n.id == node_id)) db.nodes
        && has_row node_id db.nodes
      then (raised integrity_error, db)
      else (
        returned (has_row node_id db.nodes),
        record db { nodes = keep (λ n. not (n.id == node_id)) db.nodes },
      )
