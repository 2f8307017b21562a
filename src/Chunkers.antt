-- ===== src/Chunkers.antt =====
-- TinyCTX/modules/rag/chunkers.py: the strategies that cut a text into chunks. Splitting a text into
-- words, lines or parts, `strip` and the regular expression are parameters. That the windows end and
-- lose nothing is in Chunkers/Windows, what the merge keeps in Chunkers/Markdown.
pub mod Windows
pub mod Markdown
use Prim.Native.String
use tiny_ctx.Base.{
  String, ℕ, zero, suc, ◌+◌, ◌-◌, Bool, true, false, not, ◌&&◌, List, [], ◌∷◌, ◌++◌, Option, none,
  some, ◌==◌, string_eq, nat_eq, if◌then◌else◌, ltb, leb, length, nonempty, map, keep,
}
use tiny_ctx.Base.Dict.{Dict, lookup}
use tiny_ctx.Tools.Values.{ℤ, pos, negsuc}
use tiny_ctx.Context.Turns.{join_lines}

-- `_nonempty`
unfoldable pub nonempty_chunks : (String → String) → List String → List String
nonempty_chunks strip [] = []
nonempty_chunks strip (c ∷ cs) =
    let rest = nonempty_chunks strip cs in if strip c == "" then rest else strip c ∷ rest

-- `max(1, size)` and `max(0, min(overlap, size - 1))`
unfoldable pub chunk_size : ℤ → ℕ
chunk_size (pos zero) = 1
chunk_size (pos (suc n)) = suc n
chunk_size (negsuc n) = 1

unfoldable pub chunk_overlap : ℤ → ℤ → ℕ
chunk_overlap (pos overlap) (pos (suc k)) = if leb overlap k then overlap else k
chunk_overlap (pos overlap) (pos zero) = 0
chunk_overlap (pos overlap) (negsuc n) = 0
chunk_overlap (negsuc m) size = 0

module _ {A : Type 0} where
  -- `xs[:n]` and `xs[n:]`
  unfoldable pub take : ℕ → List A → List A
  take zero xs = []
  take (suc n) [] = []
  take (suc n) (x ∷ xs) = x ∷ take n xs

  unfoldable pub drop : ℕ → List A → List A
  drop zero xs = xs
  drop (suc n) [] = []
  drop (suc n) (x ∷ xs) = drop n xs

  -- `xs[start:end]`
  unfoldable pub slice : ℕ → ℕ → List A → List A
  slice start end xs = take (end - start) (drop start xs)

  -- The loop of the window strategies; none where the fuel ends first.
  unfoldable pub window_loop : ℕ → ℕ → ℕ → List A → ℕ → Option (List (List A))
  window_loop zero size overlap xs start = none
  window_loop (suc fuel) size overlap xs start =
      let end : ℕ = if leb (start + size) (length xs) then start + size else length xs in
      let piece = slice start end xs in
      elim (ltb start (length xs)) [
        | false ↦ some []
        | true ↦ elim (end == length xs) [
          | true ↦ some (piece ∷ [])
          | false ↦ elim (window_loop fuel size overlap xs (start + (size - overlap))) [
            | none ↦ none
            | some rest ↦ some (piece ∷ rest)
          ]
        ]
      ]

  -- One round for each element, and one to see the end.
  unfoldable pub windows : ℤ → ℤ → List A → Option (List (List A))
  windows size overlap xs =
      window_loop (suc (length xs)) (chunk_size size) (chunk_overlap overlap size) xs 0

unfoldable pub all_chunks : (String → String) → Option (List String) → Option (List String)
all_chunks strip none = none
all_chunks strip (some cs) = some (nonempty_chunks strip cs)

-- `TokenChunker.chunk`; `split` is `text.split()`.
unfoldable pub chunk_tokens :
    (String → List String) → (String → String) → ℤ → ℤ → String → Option (List String)
chunk_tokens split strip size overlap t = all_chunks strip (elim (windows size overlap (split t)) [
  | none ↦ none
  | some pieces ↦ some (map (join_lines " ") pieces)
])

-- The characters of a text, and a text of characters.
unfoldable pub characters : String → List Prim.Native.Char.Char
characters String.[] = []
characters (String.◌∷◌ c s) = c ∷ characters s

unfoldable pub text_of : List Prim.Native.Char.Char → String
text_of [] = ""
text_of (c ∷ cs) = String.◌∷◌ c (text_of cs)

-- `CharChunker.chunk`
unfoldable pub chunk_chars : (String → String) → ℤ → ℤ → String → Option (List String)
chunk_chars strip size overlap t = all_chunks strip (elim (windows size overlap (characters t)) [
  | none ↦ none
  | some pieces ↦ some (map text_of pieces)
])

-- `DelimiterChunker.chunk`; `split` is `text.split(delimiter)`.
unfoldable pub chunk_delimiter :
    (String → List String) → (String → String) → Bool → String → List String
chunk_delimiter split strip strips t =
    if strips then nonempty_chunks strip (split t) else keep (λ p. not (p == "")) (split t)

-- `"".join(lines)`
unfoldable pub concat_lines : List String → String
concat_lines [] = ""
concat_lines (l ∷ ls) = String.◌++◌ l (concat_lines ls)

-- The groups of lines, the last one open: a line that splits starts a group.
unfoldable pub group_lines : (String → Bool) → List String → List String → List (List String)
group_lines splits current [] = current ∷ []
group_lines splits current (l ∷ ls) =
    let fresh = group_lines splits (l ∷ []) ls in
    let same = group_lines splits (current ++ (l ∷ [])) ls in
    if splits l && nonempty current then current ∷ fresh else same

-- The merge of chunks that are too short, with the buffer; the last one takes what is left.
unfoldable pub merge_short : ℕ → String → List String → List String × String
merge_short least buf [] = ([], buf)
merge_short least buf (chunk ∷ chunks) =
    let buf' = String.◌++◌ buf chunk in
    let (merged, left) = merge_short least "" chunks in
    let later = merge_short least buf' chunks in
    if leb least (String.count buf') then (buf' ∷ merged, left) else later

unfoldable pub append_last : List String → String → List String
append_last [] left = left ∷ []
append_last (c ∷ []) left = String.◌++◌ c left ∷ []
append_last (c ∷ d ∷ cs) left = c ∷ append_last (d ∷ cs) left

unfoldable pub merged_chunks : ℕ → List String → List String
merged_chunks least raw =
    let (merged, left) = merge_short least "" raw in
    if left == "" then merged else append_last merged left

-- `MarkdownChunker.chunk`; `splitlines` keeps the ends of the lines.
unfoldable pub chunk_markdown :
    (String → List String) → (String → Bool) → (String → String) → ℕ → String → List String
chunk_markdown splitlines splits strip least t =
    nonempty_chunks strip
      (merged_chunks least (map concat_lines (group_lines splits [] (splitlines t))))
