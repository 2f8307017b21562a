-- ===== src/Tests/Chunkers.antt =====
-- Chunks of TinyCTX/modules/rag/chunkers.py.
use Prim.Native.String
use tiny_ctx.Base.{
  String, ◌≡◌, ◌≤◌, ◌⊎◌, refl, Bool, true, List, [], ◌∷◌, some, ◌==◌, string_eq, nat_eq, leb,
  length, every, map,
}
use tiny_ctx.Tools.Values.{pos}
use tiny_ctx.Chunkers.{
  chunk_size, chunk_overlap, windows, window_loop, slice, take, drop, concat_lines, group_lines,
  merged_chunks,
}
use tiny_ctx.Chunkers.Windows.{joined, windows-cover}
use tiny_ctx.Chunkers.Markdown.{merged_chunks-joined}

abbrev words : List String
words = "a" ∷ "b" ∷ "c" ∷ "d" ∷ "e" ∷ []

windows-words :
    windows (pos 3) (pos 1) words ≡ some (("a" ∷ "b" ∷ "c" ∷ []) ∷ ("c" ∷ "d" ∷ "e" ∷ []) ∷ [])
unfolding windows window_loop slice take drop chunk_size chunk_overlap nat_eq
windows-words = refl

windows-cover_example :
    (ws : List (List String)) × ((windows (pos 3) (pos 1) words ≡ some ws)
      × ((every (λ w. leb (length w) (chunk_size (pos 3))) ws ≡ true)
          × (joined 0 (chunk_overlap (pos 1) (pos 3)) ws ≡ words)))
windows-cover_example = windows-cover (pos 3) (pos 1) words

abbrev lines : List String
lines = "# One" ∷ "text" ∷ "# Two" ∷ []

abbrev heading : String → Bool
heading s = s == "# Two"

merged_chunks-joined_example :
    (concat_lines (merged_chunks 4 (map concat_lines (group_lines heading [] lines)))
      ≡ concat_lines lines)
    × ((every
            (λ c. leb 4 (String.count c))
            (merged_chunks 4 (map concat_lines (group_lines heading [] lines)))
          ≡ true)
        ⊎ (length (merged_chunks 4 (map concat_lines (group_lines heading [] lines))) ≤ 1))
merged_chunks-joined_example = merged_chunks-joined 4 heading lines
