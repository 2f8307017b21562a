-- ===== src/Context/Dialogue/Loading.antt =====
-- What the database gives back of an added entry: `add` and `_load_from_db` of TinyCTX/context.py
-- over `add_node` and `get_ancestors` of TinyCTX/db.py.
use tiny_ctx.Base.{
  String, ℕ, suc, ◌+◌, ◌≡◌, refl, sym, ap, subst, ◌∙◌, Bool, true, false, not, ◌&&◌, List, [], ◌∷◌,
  ◌++◌, none, some, ◌==◌, string_eq, contains, keep, length, map, starts_with, every, arith,
  Bool-cases, inl, inr,
}
use tiny_ctx.Db.{Node, returned, find, has_row, insert_node, add_node}
use tiny_ctx.Db.Tree.{IsTree}
use tiny_ctx.Db.Walk.{
  dialogue, lineage, reverse_onto, is_root_placeholder, is_session_node, get_ancestors-lineage,
}
use tiny_ctx.Context.{Block, Content, text, blocks, CallDict, HistoryEntry, role_system}
use tiny_ctx.Context.Dialogue.{
  Codec, Context, valid_block_types, valid_blocks, may_have_blocks, load_content, load_tool_calls,
  content_column, calls_column, load_entry, load_entries, load_from_db, add_entry,
}

-- What `json` promises for the two columns of an entry: what `dumps` writes is read back, a list
-- starts with a bracket, and no text is empty.
pub record IsReadBack (codec : Codec) (c : Content) (cs : List CallDict) : Type 0 where
  pub blocks_back :
      (bs : List Block)
      → c ≡ blocks bs
      → codec.load_blocks (codec.dumps_blocks bs) ≡ some (map some bs)
  pub bracket : (bs : List Block) → c ≡ blocks bs → starts_with "[" (codec.dumps_blocks bs) ≡ true
  pub calls_back : codec.load_calls (codec.dumps_calls cs) ≡ some cs
  pub calls_nonempty : (codec.dumps_calls cs == "") ≡ false

-- Whether a content comes back from the database: a text that is not taken for a list, or blocks of
-- known types under a role that may have them.
unfoldable pub storable : String → Content → Bool
storable role (text s) = not (may_have_blocks role && starts_with "[" s)
storable role (blocks bs) =
    may_have_blocks role && every (λ b. contains valid_block_types b.kind) bs

valid_blocks-map :
    (bs : List Block)
    → every (λ b. contains valid_block_types b.kind) bs ≡ true
    → valid_blocks (map some bs) ≡ some bs
unfolding valid_blocks every
valid_blocks-map [] h = refl
valid_blocks-map (b ∷ bs) h =
    let rest : valid_blocks (map some bs) ≡ some bs = valid_blocks-map bs (ground arith) in
    ground arith

load_content-column :
    (codec : Codec) (role : String) (c : Content) (cs : List CallDict)
    → IsReadBack codec c cs
    → storable role c ≡ true
    → load_content codec role (content_column codec c) ≡ c
unfolding load_content content_column storable
load_content-column codec role (text s) cs json h = ground arith
load_content-column codec role (blocks bs) cs json h =
    let back = json.blocks_back bs refl in
    let starts = json.bracket bs refl in
    let valid : valid_blocks (map some bs) ≡ some bs = valid_blocks-map bs (ground arith) in
    ground arith

load_tool_calls-column :
    (codec : Codec) (c : Content) (cs : List CallDict)
    → IsReadBack codec c cs
    → load_tool_calls codec (calls_column codec cs) ≡ cs
unfolding load_tool_calls calls_column
load_tool_calls-column codec c [] json = refl
load_tool_calls-column codec c (call ∷ cs) json =
    let back = json.calls_back in let filled = json.calls_nonempty in ground arith

module _ {T : Type 0} where
  load_entries-append :
      (codec : Codec) (i j : ℕ) (ns : List (Node T)) (n : Node T)
      → i + length ns ≡ j
      → load_entries codec i (ns ++ (n ∷ []))
        ≡ load_entries codec i ns ++ (load_entry codec j n ∷ [])
  unfolding load_entries
  load_entries-append codec i j [] n h = let same : i ≡ j = omega arith in rw (same)
  load_entries-append codec i j (m ∷ ns) n h =
      rw (load_entries-append codec (suc i) j ns n (omega arith))

  length-load_entries :
      (codec : Codec) (i : ℕ) (ns : List (Node T)) → length (load_entries codec i ns) ≡ length ns
  unfolding load_entries
  length-load_entries codec i [] = refl
  length-load_entries codec i (n ∷ ns) = ap suc (length-load_entries codec (suc i) ns)

  reverse_onto-append :
      (ns acc rest : List (Node T)) → reverse_onto ns (acc ++ rest) ≡ reverse_onto ns acc ++ rest
  unfolding reverse_onto
  reverse_onto-append [] acc rest = refl
  reverse_onto-append (n ∷ ns) acc rest = reverse_onto-append ns (n ∷ acc) rest

  reverse_onto_nonempty :
      (ns : List (Node T)) (n : Node T) (acc : List (Node T))
      → (m : Node T) × ((ms : List (Node T)) × (reverse_onto ns (n ∷ acc) ≡ m ∷ ms))
  unfolding reverse_onto
  reverse_onto_nonempty [] n acc = (n, (acc, refl))
  reverse_onto_nonempty (k ∷ ns) n acc = reverse_onto_nonempty ns k (n ∷ acc)

  keep_last :
      (p : Node T → Bool) (ns : List (Node T)) (n : Node T)
      → p n ≡ true
      → keep p (ns ++ (n ∷ [])) ≡ keep p ns ++ (n ∷ [])
  unfolding keep
  keep_last p [] n h = ground arith
  keep_last p (m ∷ ns) n h = ground (arith, keep_last p ns n h)

  -- A row with its parent is the last of the dialogue, unless it marks a session.
  dialogue-newest :
      (n m : Node T) (up : List (Node T))
      → is_session_node n ≡ false
      → dialogue (n ∷ m ∷ up) ≡ dialogue (m ∷ up) ++ (n ∷ [])
  unfolding dialogue reverse_onto
  dialogue-newest n m up h =
      let (top, (rest, split)) = reverse_onto_nonempty up m [] in
      let turned : reverse_onto up (m ∷ n ∷ []) ≡ top ∷ (rest ++ (n ∷ [])) =
        reverse_onto-append up (m ∷ []) (n ∷ []) ∙ ap (λ ns. ns ++ (n ∷ [])) split in
      let live : Bool = is_root_placeholder top in
      let newest = keep_last (λ k. not (is_session_node k)) rest n (ground arith) in
      let whole = keep_last (λ k. not (is_session_node k)) (top ∷ rest) n (ground arith) in
      rw (turned, split) (ground (arith, newest, whole))

-- Whether the row of an entry would mark a session, which the dialogue leaves out.
abbrev pub marks_session : Codec → HistoryEntry → Bool
marks_session codec e =
    e.role == role_system && starts_with "session:" (content_column codec e.content)

module _ {T : Type 0} where
  lineage_present :
      (id : String) (ns : List (Node T))
      → has_row id ns ≡ true
      → (m : Node T) × ((up : List (Node T)) × (lineage id ns ≡ m ∷ up))
  unfolding lineage find
  lineage_present id [] h = ground arith
  lineage_present id (n ∷ ns) h = elim (Bool-cases (n.id == id)) [
    | inl here ↦ (n, (elim n.parent_id [ none ↦ [] | some p ↦ lineage p ns ], ground arith))
    | inr below ↦
        let (m, (up, found)) = lineage_present id ns (ground arith) in (m, (up, ground arith))
  ]

  lineage_newest :
      (n : Node T) (p : String) (ns : List (Node T))
      → n.parent_id ≡ some p
      → lineage n.id (n ∷ ns) ≡ n ∷ lineage p ns
  unfolding lineage
  lineage_newest n p ns h = ground arith

  load_from_db-lineage :
      (codec : Codec) (ctx : Context T)
      → IsTree ctx.db.nodes
      → load_from_db codec ctx
        ≡ some (load_entries codec 0 (dialogue (lineage ctx.tail_node_id ctx.db.nodes)))
  unfolding load_from_db
  load_from_db-lineage codec ctx t =
      let walk = get_ancestors-lineage ctx.tail_node_id ctx.db t in ground arith

  -- The row that `add` writes.
  row_of : Codec → String → ℕ → T → HistoryEntry → String → Node T
  row_of codec node_id now no_flags e tail = record {
    id = node_id;
    parent_id = some tail;
    role = e.role;
    content = content_column codec e.content;
    created_at = now;
    tool_calls = calls_column codec e.tool_calls;
    tool_call_id = e.tool_call_id;
    author_id = e.author_id;
    attachment_paths = none;
    state_delta = none;
    flags = no_flags;
  }

  module _ (codec : Codec) (node_id : String) (now : ℕ) (no_flags : T) (e : HistoryEntry)
      (ctx : Context T) where
    -- Where `add` succeeds, the row is new and the tail was there.
    add_entry-nodes :
        (after : HistoryEntry)
        → (ctx.tail_node_id == node_id) ≡ false
        → (add_entry codec node_id now no_flags e ctx).0 ≡ returned after
        → ((add_entry codec node_id now no_flags e ctx).1.db.nodes
            ≡ row_of codec node_id now no_flags e ctx.tail_node_id ∷ ctx.db.nodes)
          × (((add_entry codec node_id now no_flags e ctx).1.tail_node_id ≡ node_id)
              × ((has_row ctx.tail_node_id ctx.db.nodes ≡ true)
                  × (find node_id ctx.db.nodes ≡ none)))
    unfolding add_entry add_node insert_node row_of
    add_entry-nodes after apart done = ground arith

    -- An entry that is added is what the next load gives last, after what a load gave before: with
    -- its content, its calls and its author, under the node's id, at the next index and without
    -- tags.
    pub load_from_db-add_entry :
        IsReadBack codec e.content e.tool_calls
        → IsTree ctx.db.nodes
        → storable e.role e.content ≡ true
        → marks_session codec e ≡ false
        → (ctx.tail_node_id == node_id) ≡ false
        → (after : HistoryEntry) → (add_entry codec node_id now no_flags e ctx).0 ≡ returned after
        → (old : List HistoryEntry) × ((load_from_db codec ctx ≡ some old)
            × (load_from_db codec (add_entry codec node_id now no_flags e ctx).1
                ≡ some (
                    old
                    ++ (record e {
                      id = node_id;
                      index = length old;
                      parent_id = some ctx.tail_node_id;
                      tags = [];
                    }
                        ∷ []))))
    unfolding row_of load_entry
    load_from_db-add_entry json t stored plain apart after done =
        let n = row_of codec node_id now no_flags e ctx.tail_node_id in
        let above = dialogue (lineage ctx.tail_node_id ctx.db.nodes) in
        let old = load_entries codec 0 above in
        let (rows, (tail, (parent, fresh))) = add_entry-nodes after apart done in
        let (m, (up, nonroot)) = lineage_present ctx.tail_node_id ctx.db.nodes parent in
        let up_to_node : lineage node_id (n ∷ ctx.db.nodes) ≡ n ∷ m ∷ up =
          lineage_newest n ctx.tail_node_id ctx.db.nodes refl ∙ ap (◌∷◌ n) nonroot in
        let tree : IsTree (n ∷ ctx.db.nodes) = (fresh, (parent, t)) in
        let ctx' = (add_entry codec node_id now no_flags e ctx).1 in
        let walk = load_from_db-lineage codec ctx' (subst IsTree (sym rows) tree) in
        let same : load_entry codec (length old) n ≡ record e {
          id = node_id;
          index = length old;
          parent_id = some ctx.tail_node_id;
          tags = [];
        } =
          rw (
            load_content-column codec e.role e.content e.tool_calls json stored,
            load_tool_calls-column codec e.content e.tool_calls json,
          ) in
        let turned : dialogue (n ∷ m ∷ up) ≡ above ++ (n ∷ []) =
          rw (nonroot) (dialogue-newest n m up plain) in
        let count : 0 + length above ≡ length old =
          let same_length = length-load_entries codec 0 above in omega arith in
        let loaded = load_entries-append codec 0 (length old) above n count in
        (
          old,
          (
            load_from_db-lineage codec ctx t,
            rw (walk, tail, rows, up_to_node, turned, loaded, same),
          ),
        )
