-- ===== src/Chunkers/Markdown.antt =====
-- What `MarkdownChunker.chunk` of TinyCTX/modules/rag/chunkers.py makes of the lines.
use Prim.Native.String
use text.Mathlib.TextLemmas.{append_assoc, append-nil, nil-append, length-append}
use tiny_ctx.Base.{
  String, ℕ, ◌≤◌, ◌≡◌, ◌⊎◌, refl, ap, sym, ◌∙◌, Bool, true, ◌&&◌, List, [], ◌∷◌, ◌++◌, ◌==◌,
  string_eq, if◌then◌else◌, leb, every, map, nonempty, arith, Bool-cases, inl, inr, length,
}
use tiny_ctx.Chunkers.{concat_lines, group_lines, merge_short, append_last, merged_chunks}

concat_lines-append :
    (xs ys : List String)
    → concat_lines (xs ++ ys) ≡ String.◌++◌ (concat_lines xs) (concat_lines ys)
unfolding concat_lines
concat_lines-append [] ys = sym (nil-append (concat_lines ys))
concat_lines-append (x ∷ xs) ys =
    rw (concat_lines-append xs ys) (sym (append_assoc x (concat_lines xs) (concat_lines ys)))

-- The groups hold the lines in their order.
concat-group_lines :
    (splits : String → Bool) (current ls : List String)
    → concat_lines (map concat_lines (group_lines splits current ls))
      ≡ String.◌++◌ (concat_lines current) (concat_lines ls)
unfolding group_lines concat_lines
concat-group_lines splits current [] = refl
concat-group_lines splits current (l ∷ ls) =
    let fresh = concat-group_lines splits (l ∷ []) ls in
    let same = concat-group_lines splits (current ++ (l ∷ [])) ls in
    let joined = concat_lines-append current (l ∷ []) in
    elim (Bool-cases (splits l && nonempty current)) [
      | inl starts ↦ rw (starts, fresh) (simp append-nil refl)
      | inr stays ↦ rw (stays, same, joined) (simp (append_assoc, append-nil) refl)
    ]

concat-merge_short :
    (least : ℕ) (buf : String) (cs : List String)
    → String.◌++◌ (concat_lines (merge_short least buf cs).0) (merge_short least buf cs).1
      ≡ String.◌++◌ buf (concat_lines cs)
unfolding merge_short concat_lines
concat-merge_short least buf [] = simp (append-nil, nil-append) refl
concat-merge_short least buf (chunk ∷ cs) =
    let buf' = String.◌++◌ buf chunk in
    let whole = concat-merge_short least "" cs in
    let later = concat-merge_short least buf' cs in
    elim (Bool-cases (leb least (String.count buf'))) [
      | inl long ↦ rw (long) (simp (append_assoc, whole, nil-append) refl)
      | inr short ↦ rw (short, later) (simp append_assoc refl)
    ]

concat-append_last :
    (cs : List String) (left : String)
    → concat_lines (append_last cs left) ≡ String.◌++◌ (concat_lines cs) left
unfolding append_last concat_lines
concat-append_last [] left = simp (append-nil, nil-append) refl
concat-append_last (c ∷ []) left = simp (append_assoc, append-nil) refl
concat-append_last (c ∷ d ∷ cs) left =
    let rest = concat-append_last (d ∷ cs) left in rw (rest) (simp append_assoc refl)

merge_short-long :
    (least : ℕ) (buf : String) (cs : List String)
    → every (λ c. leb least (String.count c)) (merge_short least buf cs).0 ≡ true
unfolding merge_short every
merge_short-long least buf [] = refl
merge_short-long least buf (chunk ∷ cs) =
    let buf' = String.◌++◌ buf chunk in
    let whole = merge_short-long least "" cs in
    let later = merge_short-long least buf' cs in
    elim (Bool-cases (leb least (String.count buf'))) [
      | inl long ↦ rw (long) (ground arith)
      | inr short ↦ rw (short) later
    ]

append_last-long :
    (least : ℕ) (c : String) (cs : List String) (left : String)
    → every (λ d. leb least (String.count d)) (c ∷ cs) ≡ true
    → every (λ d. leb least (String.count d)) (append_last (c ∷ cs) left) ≡ true
unfolding append_last every
append_last-long least c [] left h = let grown = length-append c left in rw (grown) (ground arith)
append_last-long least c (d ∷ cs) left h = ground (arith, append_last-long least d cs left)

concat-merged_chunks :
    (least : ℕ) (raw : List String) → concat_lines (merged_chunks least raw) ≡ concat_lines raw
unfolding merged_chunks
concat-merged_chunks least raw =
    let (merged, left) = merge_short least "" raw in
    let whole : String.◌++◌ (concat_lines merged) left ≡ concat_lines raw =
      concat-merge_short least "" raw ∙ nil-append (concat_lines raw) in
    elim (Bool-cases (left == "")) [
      | inl done ↦
          let none_left : left ≡ "" = ground arith in
          rw (done) (
            sym (append-nil (concat_lines merged))
            ∙ (ap (String.◌++◌ (concat_lines merged)) (sym none_left) ∙ whole))
      | inr more ↦ rw (more) (concat-append_last merged left ∙ whole)
    ]

long_or_single :
    (least : ℕ) (merged : List String) (left : String)
    → every (λ c. leb least (String.count c)) merged ≡ true
    → (every
          (λ c. leb least (String.count c))
          (if left == "" then merged else append_last merged left)
        ≡ true)
      ⊎ (length (if left == "" then merged else append_last merged left) ≤ 1)
unfolding append_last
long_or_single least [] left h = elim (Bool-cases (left == "")) [
  | inl done ↦ inl (rw (done) h)
  | inr more ↦ inr (rw (more) (omega arith))
]
long_or_single least (c ∷ cs) left h = elim (Bool-cases (left == "")) [
  | inl done ↦ inl (rw (done) h)
  | inr more ↦ inl (rw (more) (append_last-long least c cs left h))
]

-- The merge neither loses nor moves a character; and where it gives more than one chunk, none is
-- shorter than the least length.
pub merged_chunks-joined :
    (least : ℕ) (splits : String → Bool) (lines : List String)
    → (concat_lines (merged_chunks least (map concat_lines (group_lines splits [] lines)))
        ≡ concat_lines lines)
      × ((every
              (λ c. leb least (String.count c))
              (merged_chunks least (map concat_lines (group_lines splits [] lines)))
            ≡ true)
          ⊎ (length (merged_chunks least (map concat_lines (group_lines splits [] lines))) ≤ 1))
unfolding merged_chunks concat_lines
merged_chunks-joined least splits lines =
    let raw = map concat_lines (group_lines splits [] lines) in
    let kept : concat_lines raw ≡ concat_lines lines =
      concat-group_lines splits [] lines ∙ nil-append (concat_lines lines) in
    let (merged, left) = merge_short least "" raw in
    (
      concat-merged_chunks least raw ∙ kept,
      long_or_single least merged left (merge_short-long least "" raw),
    )
