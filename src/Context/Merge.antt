-- ===== src/Context/Merge.antt =====
-- Stage 4 of `assemble` in TinyCTX/context.py: adjacent entries of one role become one, and special
-- tokens are stripped from every text. The theorems are in Context/Merge/Adjacent.
pub mod Adjacent
use Prim.Native.String
use tiny_ctx.Base.{
  String, Bool, true, false, not, ◌&&◌, ◌||◌, List, [], ◌∷◌, ◌++◌, Option, none, some, ◌==◌,
  string_eq, if◌then◌else◌, nonempty, union, map,
}
use tiny_ctx.Context.{HistoryEntry, Content, text, blocks, Block, Texts, role_user, role_assistant}
use tiny_ctx.Context.Sanitize.{sanitize_special_tokens}

abbrev pub is_text : Content → Bool
is_text (text s) = true
is_text (blocks bs) = false

unfoldable pub can_merge : HistoryEntry → HistoryEntry → Bool
can_merge prev m =
    m.role == prev.role
    && ((m.role == role_user || m.role == role_assistant)
        && (not (nonempty m.tool_calls)
            && (not (nonempty prev.tool_calls) && (is_text m.content && is_text prev.content))))

-- `(prev.content + "\n\n" + m.content).strip()`
unfoldable pub join_content : (String → String) → Content → Content → Content
join_content strip (text s) (text t) = text (strip (String.◌++◌ s (String.◌++◌ "\n\n" t)))
join_content strip (text s) (blocks bs) = text s
join_content strip (blocks bs) c = blocks bs

unfoldable pub join_entries : (String → String) → HistoryEntry → HistoryEntry → HistoryEntry
join_entries strip prev m = record prev {
  content = join_content strip prev.content m.content;
  tags = union prev.tags m.tags;
}

-- The loop, with `merged` in reverse.
unfoldable pub merge_loop :
    (String → String) → List HistoryEntry → List HistoryEntry → List HistoryEntry
merge_loop strip [] merged = merged
merge_loop strip (m ∷ ms) merged = merge_loop strip ms (elim merged [
  | [] ↦ m ∷ []
  | prev ∷ rest ↦ if can_merge prev m then join_entries strip prev m ∷ rest else m ∷ prev ∷ rest
])

unfoldable pub reverse_entries : List HistoryEntry → List HistoryEntry → List HistoryEntry
reverse_entries [] acc = acc
reverse_entries (e ∷ es) acc = reverse_entries es (e ∷ acc)

unfoldable pub merge : (String → String) → List HistoryEntry → List HistoryEntry
merge strip es = reverse_entries (merge_loop strip es []) []

-- Stage 4b on one entry.
unfoldable pub clean_block : (String → String) → Block → Block
clean_block clean b =
    if b.kind == "text"
    then record b {
      text = elim b.text [ none ↦ none | some s ↦ some (if s == "" then s else clean s) ];
    }
    else b

unfoldable pub clean_content : (String → String) → Content → Content
clean_content clean (text s) = if s == "" then text s else text (clean s)
clean_content clean (blocks bs) = blocks (map (clean_block clean) bs)

unfoldable pub clean_entry : Texts → HistoryEntry → HistoryEntry
clean_entry t e = record e {
  content = clean_content (sanitize_special_tokens t.strip_tokens t.collapse) e.content;
}
