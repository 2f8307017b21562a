-- ===== src/Db/Flags/Marks.antt =====
-- Flags that are put, removed, and put on a branch a second time.
use tiny_ctx.Base.{
  String, ◌≡◌, refl, true, not, ◌||◌, ◌&&◌, List, [], ◌∷◌, ◌++◌, none, some, ◌==◌, string_eq, arith,
  contains, keep, contains-append, contains-keep,
}
use tiny_ctx.Db.{Node, ConversationDb, find, has_row, update_row}
use tiny_ctx.Db.Json.{Json, JsonLaws}
use tiny_ctx.Db.Tree.{IsTree, find-update_where}
use tiny_ctx.Db.Flags.{
  parse_flags, with_flags, get_flags, has_flag, add_flag, remove_flag, flag_loop, flag_branch,
}
use tiny_ctx.Db.Flags.Branch.{is_flagged, flag_table, flag_branch-lineage}

module _ {T V : Type 0} (json : Json T V) (laws : JsonLaws json) where
  parse_flags-dumps_list : (flags : List String) → parse_flags json (json.dumps_list flags) ≡ flags
  unfolding parse_flags
  parse_flags-dumps_list flags =
      ground (arith, laws.loads-dumps_list flags, laws.dumps_list-nonempty flags)

  get_flags_written :
      (node_id : String) (flags : List String) (db : ConversationDb T)
      → has_row node_id db.nodes ≡ true
      → get_flags json node_id (update_row node_id (with_flags json flags) db).1 ≡ flags
  unfolding get_flags update_row
  get_flags_written node_id flags db known = ground (
    arith,
    find-update_where node_id node_id (with_flags json flags) db.nodes (λ _. (refl, refl)),
    parse_flags-dumps_list flags,
  )

  -- After a flag was put on a node that exists, the node has that flag and those it had.
  has_flag-add_flag :
      (node_id flag other : String) (db : ConversationDb T)
      → has_row node_id db.nodes ≡ true
      → has_flag json node_id other (add_flag json node_id flag db)
        ≡ (flag == other || has_flag json node_id other db)
  unfolding has_flag add_flag contains
  has_flag-add_flag node_id flag other db known =
      let flags = get_flags json node_id db in
      ground (
        arith,
        get_flags_written node_id (flags ++ flag ∷ []) db known,
        contains-append flags (flag ∷ []) other,
      )

  -- After a flag was removed from a node that exists, the node has the others that it had.
  has_flag-remove_flag :
      (node_id flag other : String) (db : ConversationDb T)
      → has_row node_id db.nodes ≡ true
      → has_flag json node_id other (remove_flag json node_id flag db)
        ≡ (not (flag == other) && has_flag json node_id other db)
  unfolding has_flag remove_flag contains
  has_flag-remove_flag node_id flag other db known =
      let flags = get_flags json node_id db in
      ground (
        arith,
        get_flags_written node_id (keep (λ f. not (f == flag)) flags) db known,
        contains-keep (λ f. not (f == flag)) flags other,
      )

  flag_table-flagged :
      (id flag : String) (ns : List (Node T))
      → elim (find id (flag_table json id flag ns)) [
        | none ↦ true
        | some n ↦ is_flagged json flag n
      ]
        ≡ true
  unfolding find flag_table contains
  flag_table-flagged id flag [] = refl
  flag_table-flagged id flag (n ∷ ns) =
      let flags = parse_flags json n.flags ++ flag ∷ [] in
      ground (
        arith,
        flag_table-flagged id flag ns,
        parse_flags-dumps_list flags,
        contains-append (parse_flags json n.flags) (flag ∷ []) flag,
      )

  flag_branch_flagged :
      (node_id flag : String) (db : ConversationDb T)
      → elim (find node_id db.nodes) [ none ↦ true | some n ↦ is_flagged json flag n ] ≡ true
      → flag_branch json node_id flag db ≡ some ([], db)
  unfolding flag_branch flag_loop
  flag_branch_flagged node_id flag db h = ground arith

  -- On a tree, a second walk with the same flag marks nothing and changes nothing.
  flag_branch-flag_branch :
      (node_id flag : String) (db db' : ConversationDb T) (flagged : List String)
      → IsTree db.nodes
      → flag_branch json node_id flag db ≡ some (flagged, db')
      → flag_branch json node_id flag db' ≡ some ([], db')
  flag_branch-flag_branch node_id flag db db' flagged t h =
      let walk = flag_branch-lineage json node_id flag db t in
      let after : db'.nodes ≡ flag_table json node_id flag db.nodes = ground arith in
      flag_branch_flagged node_id flag db' (rw after (flag_table-flagged node_id flag db.nodes))
