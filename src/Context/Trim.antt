-- ===== src/Context/Trim.antt =====
-- Stage 5 of `assemble` in TinyCTX/context.py: the trim to the token budget. The theorems are in
-- Context/Trim/Budget and Context/Trim/Survivors.
pub mod Budget
pub mod Survivors
use tiny_ctx.Base.{
  String, ℕ, zero, suc, Bool, true, false, not, ◌&&◌, List, [], ◌∷◌, Option, none, some, ◌==◌,
  string_eq, if◌then◌else◌, contains, leb, nonempty,
}
use tiny_ctx.Context.{HistoryEntry, Content, text, blocks, call_ids, role_system, role_tool}

-- `e.role == ROLE_TOOL and e.tool_call_id in call_ids`
unfoldable pub answers : List String → HistoryEntry → Bool
answers ids e =
    e.role == role_tool && elim e.tool_call_id [ none ↦ false | some id ↦ contains ids id ]

-- The inner loop, from the index on.
unfoldable pub pop_answers : List String → List HistoryEntry → List HistoryEntry
pop_answers ids [] = []
pop_answers ids (e ∷ es) = let rest = pop_answers ids es in if answers ids e then rest else e ∷ es

-- `isinstance(content, str) and content.strip()`
unfoldable pub has_text : (String → String) → Content → Bool
has_text strip (text s) = not (strip s == "")
has_text strip (blocks bs) = false

-- One round at the entry that `next` finds: none where all are system entries.
unfoldable pub trim_step : (String → String) → List HistoryEntry → Option (List HistoryEntry)
trim_step strip [] = none
trim_step strip (e ∷ es) =
    let later = trim_step strip es in
    let ids = call_ids e.tool_calls in
    if e.role == role_system
    then elim later [ none ↦ none | some es' ↦ some (e ∷ es') ]
    else if nonempty e.tool_calls
    then some (
        if has_text strip e.content
        then pop_answers ids (record e { tool_calls = [] } ∷ es)
        else pop_answers ids es)
    else some es

-- The outer loop, with `was_trimmed`; none where the fuel ends first.
unfoldable pub trim_loop :
    (String → String)
    → (List HistoryEntry → ℕ)
    → ℕ
    → ℕ
    → List HistoryEntry
    → Bool
    → Option (List HistoryEntry × Bool)
trim_loop strip count limit zero es trimmed = none
trim_loop strip count limit (suc fuel) es trimmed = elim (leb (count es) limit) [
  | true ↦ some (es, trimmed)
  | false ↦ elim (trim_step strip es) [
    | none ↦ some (es, true)
    | some es' ↦ trim_loop strip count limit fuel es' true
  ]
]

-- Two rounds for each entry are enough: one takes its calls, one takes the entry.
unfoldable pub trim_fuel : List HistoryEntry → ℕ
trim_fuel [] = 1
trim_fuel (e ∷ es) = suc (suc (trim_fuel es))

unfoldable pub trim :
    (String → String)
    → (List HistoryEntry → ℕ)
    → ℕ
    → List HistoryEntry
    → Option (List HistoryEntry × Bool)
trim strip count limit es = trim_loop strip count limit (trim_fuel es) es false
