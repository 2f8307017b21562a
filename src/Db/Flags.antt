-- ===== src/Db/Flags.antt =====
-- Flags of TinyCTX/db.py: a JSON list of names on each node, and the walk that marks a branch.
pub mod Branch
pub mod Marks
use tiny_ctx.Base.{
  String, ℕ, suc, zero, Bool, true, false, not, List, [], ◌∷◌, ◌++◌, Option, none, some, ◌==◌,
  string_eq, if◌then◌else◌, length, contains, keep,
}
use tiny_ctx.Db.{Node, ConversationDb, find, update_where, update_row}
use tiny_ctx.Db.Json.{Json, Loaded, array}

module _ {T V : Type 0} where
  -- `_parse_flags`; the text "[]" that stands in for an empty one holds no flag.
  unfoldable pub parse_flags : Json T V → T → List String
  parse_flags json flags_json =
      if json.nonempty_text flags_json
      then elim (json.loads flags_json) [
        | none ↦ []
        | some held ↦ elim held [ array flags ↦ flags | _ ↦ [] ]
      ]
      else []

  unfoldable pub get_flags : Json T V → String → ConversationDb T → List String
  get_flags json node_id db = elim (find node_id db.nodes) [
    | none ↦ []
    | some n ↦ parse_flags json n.flags
  ]

  unfoldable pub has_flag : Json T V → String → String → ConversationDb T → Bool
  has_flag json node_id flag db = contains (get_flags json node_id db) flag

  -- `UPDATE nodes SET flags = ? WHERE id = ?`
  abbrev pub with_flags : Json T V → List String → Node T → Node T
  with_flags json flags n = record n { flags = json.dumps_list flags }

  unfoldable pub add_flag : Json T V → String → String → ConversationDb T → ConversationDb T
  add_flag json node_id flag db =
      let flags = get_flags json node_id db in
      if contains flags flag
      then db
      else (update_row node_id (with_flags json (flags ++ flag ∷ [])) db).1

  unfoldable pub remove_flag : Json T V → String → String → ConversationDb T → ConversationDb T
  remove_flag json node_id flag db =
      let flags = get_flags json node_id db in
      if not (contains flags flag)
      then db
      else (update_row node_id (with_flags json (keep (λ f. not (f == flag)) flags)) db).1

  -- The loop of `flag_branch` over the rows, with the ids flagged so far; none where the fuel ends.
  unfoldable pub flag_loop :
      Json T V
      → ℕ
      → String
      → String
      → List (Node T)
      → List String
      → Option (List String × List (Node T))
  flag_loop json zero id flag ns flagged = none
  flag_loop json (suc fuel) id flag ns flagged = elim (find id ns) [
    | none ↦ some (flagged, ns)
    | some n ↦
        let existing = parse_flags json n.flags in
        let ns' = update_where id (with_flags json (existing ++ flag ∷ [])) ns in
        let flagged' = flagged ++ id ∷ [] in
        if contains existing flag then some (flagged, ns) else elim n.parent_id [
          | none ↦ some (flagged', ns')
          | some p ↦ flag_loop json fuel p flag ns' flagged'
        ]
  ]

  unfoldable pub flag_branch :
      Json T V → String → String → ConversationDb T → Option (List String × ConversationDb T)
  flag_branch json node_id flag db =
      elim (flag_loop json (suc (length db.nodes)) node_id flag db.nodes []) [
        | none ↦ none
        | some (flagged, ns) ↦ some (flagged, record db { nodes = ns })
      ]
