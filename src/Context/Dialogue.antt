-- ===== src/Context/Dialogue.antt =====
-- The dialogue of a Context in TinyCTX/context.py and its rows in the conversation database. What
-- an added entry is loaded as is in Context/Dialogue/Loading.
pub mod Loading
use Prim.Native.String
use tiny_ctx.Base.{
  String, ℕ, suc, Bool, true, false, not, ◌&&◌, ◌||◌, List, [], ◌∷◌, ◌++◌, Option, none, some, ◌==◌,
  string_eq, if◌then◌else◌, contains, keep, length, map, nonempty, starts_with, add,
}
use tiny_ctx.Db.{
  Node, ConversationDb, Outcome, returned, raised, add_node, delete_node, update_node_content,
}
use tiny_ctx.Db.Walk.{get_ancestors}
use tiny_ctx.Context.{
  Block, Content, text, blocks, CallDict, HistoryEntry, call_ids, synthetic, role_user,
  role_assistant, role_tool,
}
use tiny_ctx.Context.Trim.{answers}

-- `json` on the two columns that hold JSON. A parsed list has a none for each element that is no
-- object; a text that does not parse, or to no list, gives none.
pub record Codec : Type 0 where
  pub dumps_blocks : List Block → String
  pub load_blocks : String → Option (List (Option Block))
  pub dumps_calls : List CallDict → String
  pub load_calls : String → Option (List CallDict)

-- A Context: its database, the tail of its branch, and the entries in memory.
pub record Context (T : Type 0) : Type 0 where
  pub db : ConversationDb T
  pub tail_node_id : String
  pub dialogue : List HistoryEntry

-- `_VALID_BLOCK_TYPES`
unfoldable pub valid_block_types : List String
valid_block_types = "text" ∷ "image_url" ∷ "image" ∷ "document" ∷ []

-- `all(isinstance(b, dict) and b.get("type") in _VALID_BLOCK_TYPES for b in parsed)`
unfoldable pub valid_blocks : List (Option Block) → Option (List Block)
valid_blocks [] = some []
valid_blocks (none ∷ bs) = none
valid_blocks (some b ∷ bs) =
    let rest = valid_blocks bs in
    if contains valid_block_types b.kind
    then elim rest [ none ↦ none | some bs' ↦ some (b ∷ bs') ]
    else none

-- The roles whose content may be a list of blocks.
unfoldable pub may_have_blocks : String → Bool
may_have_blocks role = role == role_user || role == role_tool

unfoldable pub load_content : Codec → String → String → Content
load_content codec role content =
    if may_have_blocks role && starts_with "[" content
    then elim (codec.load_blocks content) [
      | none ↦ text content
      | some parsed ↦ elim (valid_blocks parsed) [ none ↦ text content | some bs ↦ blocks bs ]
    ]
    else text content

unfoldable pub load_tool_calls : Codec → Option String → List CallDict
load_tool_calls codec none = []
load_tool_calls codec (some s) =
    if s == "" then [] else elim (codec.load_calls s) [ none ↦ [] | some cs ↦ cs ]

-- `_reindex`, from an index on
unfoldable pub reindex : ℕ → List HistoryEntry → List HistoryEntry
reindex i [] = []
reindex i (e ∷ es) = record e { index = i } ∷ reindex (suc i) es

-- The columns of an entry: its content and its calls as texts.
unfoldable pub content_column : Codec → Content → String
content_column codec (text s) = s
content_column codec (blocks bs) = codec.dumps_blocks bs

unfoldable pub calls_column : Codec → List CallDict → Option String
calls_column codec cs = if nonempty cs then some (codec.dumps_calls cs) else none

-- The first entry with the id, with its content replaced.
unfoldable pub edit_entry : String → String → List HistoryEntry → Option (List HistoryEntry)
edit_entry id new_content [] = none
edit_entry id new_content (e ∷ es) =
    let rest = edit_entry id new_content es in
    if e.id == id
    then some (record e { content = text new_content } ∷ es)
    else elim rest [ none ↦ none | some es' ↦ some (e ∷ es') ]

-- `by_id[id]`: the last entry with the id.
unfoldable pub entry_by_id : String → List HistoryEntry → Option HistoryEntry
entry_by_id id [] = none
entry_by_id id (e ∷ es) = elim (entry_by_id id es) [
  | some f ↦ some f
  | none ↦ if e.id == id then some e else none
]

unfoldable pub ids_of : List HistoryEntry → List String
ids_of [] = []
ids_of (e ∷ es) = e.id ∷ ids_of es

-- The first assistant entry that makes the call.
unfoldable pub caller_of : String → List HistoryEntry → Option HistoryEntry
caller_of call_id [] = none
caller_of call_id (e ∷ es) =
    if e.role == role_assistant && contains (call_ids e.tool_calls) call_id
    then some e
    else caller_of call_id es

-- `_dependents`: an entry with the call and the results that belong to it.
unfoldable pub dependents : String → List HistoryEntry → List String
dependents entry_id es = elim (entry_by_id entry_id es) [
  | none ↦ []
  | some target ↦
      let own = call_ids target.tool_calls in
      let call_id : String = elim target.tool_call_id [ none ↦ "" | some c ↦ c ] in
      if target.role == role_assistant && nonempty target.tool_calls
      then entry_id ∷ ids_of (keep (answers own) es)
      else if target.role == role_tool && not (call_id == "")
      then elim (caller_of call_id es) [
        | none ↦ entry_id ∷ []
        | some e ↦ entry_id ∷ e.id ∷ ids_of (keep (answers (call_ids e.tool_calls)) es)
      ]
      else entry_id ∷ []
]

-- `strip_tool_calls`: none for the target where it has no calls to strip.
unfoldable pub strip_target : String → List HistoryEntry → Option (List String × List HistoryEntry)
strip_target entry_id [] = none
strip_target entry_id (e ∷ es) =
    let rest = strip_target entry_id es in
    if e.id == entry_id
    then if e.role == role_assistant && nonempty e.tool_calls
      then some (call_ids e.tool_calls, record e { tool_calls = [] } ∷ es)
      else none
    else elim rest [ none ↦ none | some (ids, es') ↦ some (ids, e ∷ es') ]

-- `ToolResult` of TinyCTX/contracts.py, with the mime type and the data of an image.
pub record ToolResult : Type 0 where
  pub call_id : String
  pub tool_name : String
  pub output : String
  pub is_error : Bool
  pub image : Option (String × String)

-- The entry that `add_tool_result` adds; the fields of the image block are its JSON text.
unfoldable pub tool_entry : ToolResult → HistoryEntry
tool_entry result =
    let bare = synthetic "" role_tool result.output in
    let entry : HistoryEntry = record bare { tool_call_id = some result.call_id } in
    elim result.image [
      | none ↦ entry
      | some (mime, data_text) ↦
          let url = String.◌++◌ "data:" (String.◌++◌ mime (String.◌++◌ ";base64," data_text)) in
          let caption : Block = record { kind = "text"; text = some result.output; fields = "" } in
          let picture : Block = record {
            kind = "image_url";
            text = none;
            fields = String.◌++◌ "{\"image_url\": {\"url\": \"" (String.◌++◌ url "\"}}");
          } in
          record entry { content = blocks (caption ∷ picture ∷ []) }
    ]

module _ {T : Type 0} where
  unfoldable pub load_entry : Codec → ℕ → Node T → HistoryEntry
  load_entry codec i node = record {
    role = node.role;
    content = load_content codec node.role node.content;
    id = node.id;
    index = i;
    tool_calls = load_tool_calls codec node.tool_calls;
    tool_call_id = node.tool_call_id;
    author_id = node.author_id;
    parent_id = node.parent_id;
    tags = [];
  }

  unfoldable pub load_entries : Codec → ℕ → List (Node T) → List HistoryEntry
  load_entries codec i [] = []
  load_entries codec i (n ∷ ns) = load_entry codec i n ∷ load_entries codec (suc i) ns

  -- `_load_from_db`; none where the walk to the root does not end.
  unfoldable pub load_from_db : Codec → Context T → Option (List HistoryEntry)
  load_from_db codec ctx = elim (get_ancestors ctx.tail_node_id ctx.db) [
    | none ↦ none
    | some nodes ↦ some (load_entries codec 0 nodes)
  ]

  -- `add`; what `add_node` raises leaves the Context as it is.
  unfoldable pub add_entry :
      Codec → String → ℕ → T → HistoryEntry → Context T → Outcome HistoryEntry × Context T
  add_entry codec node_id now no_flags e ctx =
      let (outcome, db') =
        add_node node_id now no_flags ctx.tail_node_id e.role (content_column codec e.content)
          (calls_column codec e.tool_calls) e.tool_call_id e.author_id none none ctx.db in
      elim outcome [
        | raised why ↦ (raised why, record ctx { db = db' })
        | returned node ↦
            let added : HistoryEntry = record e {
              id = node.id;
              parent_id = node.parent_id;
              index = length ctx.dialogue;
            } in
            (
              returned added,
              record { db = db'; tail_node_id = node.id; dialogue = ctx.dialogue ++ (added ∷ []) },
            )
      ]

  unfoldable pub edit : String → String → Context T → Bool × Context T
  edit entry_id new_content ctx = elim (edit_entry entry_id new_content ctx.dialogue) [
    | none ↦ (false, ctx)
    | some es ↦
        let (updated, db') = update_node_content entry_id new_content ctx.db in
        (true, record ctx { db = db'; dialogue = es })
  ]

  -- The rows go one by one; the first that cannot go ends the loop.
  unfoldable pub delete_nodes :
      List String → ConversationDb T → Outcome (List String) × ConversationDb T
  delete_nodes [] db = (returned [], db)
  delete_nodes (id ∷ ids) db =
      let (outcome, db') = delete_node id db in
      let (rest, db'') = delete_nodes ids db' in
      elim outcome [
        | raised why ↦ (raised why, db')
        | returned _ ↦
            (elim rest [ raised why ↦ raised why | returned gone ↦ returned (id ∷ gone) ], db'')
      ]

  -- `delete`: the entries go first, then the rows, in the order in which the set gives its members.
  unfoldable pub delete :
      (List String → List String) → String → Context T → Outcome (List String) × Context T
  delete in_set_order entry_id ctx =
      let group = dependents entry_id ctx.dialogue in
      let left = reindex 0 (keep (λ e. not (contains group e.id)) ctx.dialogue) in
      let (outcome, db') = delete_nodes (in_set_order group) ctx.db in
      if nonempty group
      then (outcome, record ctx { db = db'; dialogue = left })
      else (returned [], ctx)

  -- The calls go first; the rows of the results one by one, and then the results.
  unfoldable pub strip_tool_calls : String → Context T → Outcome (List String) × Context T
  strip_tool_calls entry_id ctx = elim (strip_target entry_id ctx.dialogue) [
    | none ↦ (returned [], ctx)
    | some (ids, stripped) ↦
        let left = reindex 0 (keep (λ e. not (answers ids e)) stripped) in
        let (outcome, db') = delete_nodes (ids_of (keep (answers ids) stripped)) ctx.db in
        (
          outcome,
          record {
            db = db';
            tail_node_id = ctx.tail_node_id;
            dialogue = elim outcome [ raised _ ↦ stripped | returned _ ↦ left ];
          },
        )
  ]
