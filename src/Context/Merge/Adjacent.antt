-- ===== src/Context/Merge/Adjacent.antt =====
-- The merge leaves no two neighbours that could be merged, and every tag.
use tiny_ctx.Base.{
  String, ◌≡◌, refl, Bool, true, not, ◌&&◌, ◌||◌, List, [], ◌∷◌, ◌++◌, string_eq, if◌then◌else◌,
  union, contains, contains-append, contains-union, arith,
}
use tiny_ctx.Context.{HistoryEntry, Content, text, blocks}
use tiny_ctx.Context.Merge.{
  can_merge, is_text, join_content, join_entries, merge_loop, reverse_entries, merge,
}

-- No entry can be merged into the one before it.
unfoldable pub apart : List HistoryEntry → Bool
apart [] = true
apart (e ∷ []) = true
apart (e ∷ f ∷ es) = not (can_merge e f) && apart (f ∷ es)

-- The same of a list in reverse.
apart_back : List HistoryEntry → Bool
apart_back [] = true
apart_back (f ∷ []) = true
apart_back (f ∷ e ∷ es) = not (can_merge e f) && apart_back (e ∷ es)

-- The last entry of the one list and the first of the other.
meet : List HistoryEntry → List HistoryEntry → Bool
meet [] fs = true
meet (e ∷ es) [] = true
meet (e ∷ es) (f ∷ fs) = not (can_merge e f)

apart-cons :
    (e : HistoryEntry) (es fs : List HistoryEntry)
    → meet (e ∷ es) fs ≡ true
    → apart fs ≡ true
    → apart (e ∷ fs) ≡ true
unfolding meet apart
apart-cons e es [] m a = refl
apart-cons e es (f ∷ fs) m a = ground arith

apart-reverse_entries :
    (es fs : List HistoryEntry)
    → apart_back es ≡ true
    → meet es fs ≡ true
    → apart fs ≡ true
    → apart (reverse_entries es fs) ≡ true
unfolding apart_back meet reverse_entries
apart-reverse_entries [] fs b m a = a
apart-reverse_entries (e ∷ []) fs b m a = apart-cons e [] fs m a
apart-reverse_entries (f ∷ e ∷ es) fs b m a =
    apart-reverse_entries (e ∷ es) (f ∷ fs) (ground arith) (ground arith)
      (apart-cons f (e ∷ es) fs m a)

meet-nil : (es : List HistoryEntry) → meet es [] ≡ true
unfolding meet
meet-nil [] = refl
meet-nil (e ∷ es) = refl

is_text-join_content :
    (strip : String → String) (c d : Content) → is_text (join_content strip c d) ≡ is_text c
unfolding join_content
is_text-join_content strip (text s) (text t) = refl
is_text-join_content strip (text s) (blocks bs) = refl
is_text-join_content strip (blocks bs) d = refl

-- A joined entry merges with what its first part would.
can_merge-join_entries :
    (strip : String → String) (e p m : HistoryEntry)
    → can_merge p m ≡ true
    → can_merge e (join_entries strip p m) ≡ can_merge e p
unfolding can_merge join_entries
can_merge-join_entries strip e p m h =
    ground (arith, is_text-join_content strip p.content m.content)

merge_loop-apart_back :
    (strip : String → String) (es merged : List HistoryEntry)
    → apart_back merged ≡ true
    → apart_back (merge_loop strip es merged) ≡ true
unfolding merge_loop apart_back
merge_loop-apart_back strip [] merged b = b
merge_loop-apart_back strip (m ∷ ms) [] b = merge_loop-apart_back strip ms (m ∷ []) refl
merge_loop-apart_back strip (m ∷ ms) (p ∷ []) b =
    merge_loop-apart_back strip ms
      (if can_merge p m then join_entries strip p m ∷ [] else m ∷ p ∷ []) (ground arith)
merge_loop-apart_back strip (m ∷ ms) (p ∷ e ∷ rest) b =
    merge_loop-apart_back strip ms
      (if can_merge p m then join_entries strip p m ∷ e ∷ rest else m ∷ p ∷ e ∷ rest)
      (ground (arith, can_merge-join_entries strip e p m))

-- After the merge no two neighbours could be merged again.
pub merge-apart : (strip : String → String) (es : List HistoryEntry) → apart (merge strip es) ≡ true
unfolding merge apart_back apart
merge-apart strip es =
    apart-reverse_entries (merge_loop strip es []) [] (merge_loop-apart_back strip es [] refl)
      (meet-nil (merge_loop strip es [])) refl

-- The tags of a list of entries.
unfoldable pub tags_of : List HistoryEntry → List String
tags_of [] = []
tags_of (e ∷ es) = e.tags ++ tags_of es

contains-tags_of-reverse_entries :
    (es fs : List HistoryEntry) (tag : String)
    → contains (tags_of (reverse_entries es fs)) tag
      ≡ (contains (tags_of es) tag || contains (tags_of fs) tag)
unfolding reverse_entries tags_of contains
contains-tags_of-reverse_entries [] fs tag = refl
contains-tags_of-reverse_entries (e ∷ es) fs tag = ground (
  arith,
  contains-tags_of-reverse_entries es (e ∷ fs) tag,
  contains-append e.tags (tags_of es) tag,
  contains-append e.tags (tags_of fs) tag,
)

contains-tags_of-joined :
    (strip : String → String) (p m : HistoryEntry) (rest : List HistoryEntry) (tag : String)
    → contains (tags_of (join_entries strip p m ∷ rest)) tag
      ≡ ((contains p.tags tag || contains m.tags tag) || contains (tags_of rest) tag)
unfolding tags_of join_entries
contains-tags_of-joined strip p m rest tag = ground (
  arith,
  contains-append (union p.tags m.tags) (tags_of rest) tag,
  contains-union p.tags m.tags tag,
)

contains-tags_of-merge_loop :
    (strip : String → String) (es merged : List HistoryEntry) (tag : String)
    → contains (tags_of (merge_loop strip es merged)) tag
      ≡ (contains (tags_of merged) tag || contains (tags_of es) tag)
unfolding merge_loop tags_of contains
contains-tags_of-merge_loop strip [] merged tag = ground arith
contains-tags_of-merge_loop strip (m ∷ ms) [] tag = ground (
  arith,
  contains-tags_of-merge_loop strip ms (m ∷ []) tag,
  contains-append m.tags [] tag,
  contains-append m.tags (tags_of ms) tag,
)
contains-tags_of-merge_loop strip (m ∷ ms) (p ∷ rest) tag =
    let joined = join_entries strip p m in
    ground (
      arith,
      contains-tags_of-merge_loop strip ms (if can_merge p m then joined ∷ rest else m ∷ p ∷ rest)
          tag,
      contains-tags_of-joined strip p m rest tag,
      contains-append m.tags (p.tags ++ tags_of rest) tag,
      contains-append p.tags (tags_of rest) tag,
      contains-append m.tags (tags_of ms) tag,
    )

-- The merge keeps every tag and makes none.
pub contains-tags_of-merge :
    (strip : String → String) (es : List HistoryEntry) (tag : String)
    → contains (tags_of (merge strip es)) tag ≡ contains (tags_of es) tag
unfolding merge contains tags_of
contains-tags_of-merge strip es tag = ground (
  arith,
  contains-tags_of-reverse_entries (merge_loop strip es []) [] tag,
  contains-tags_of-merge_loop strip es [] tag,
)
