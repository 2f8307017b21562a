-- ===== src/Context/Turns.antt =====
-- Stages 2 and 3 of `assemble` in TinyCTX/context.py, entry by entry: filter, transform, label; and
-- the insertion of the deferred prompts. Hooks of these stages do not raise here: an exception of
-- theirs would leave `assemble` as a whole.
pub mod Seen
use Prim.Native.String
use tiny_ctx.Base.{
  String, ℕ, suc, ◌-◌, Bool, true, false, not, ◌&&◌, List, [], ◌∷◌, ◌++◌, Option, none, some, ◌==◌,
  string_eq, if◌then◌else◌, leb, union,
}
use tiny_ctx.Tools.Values.{ℤ, pos, negsuc}
use tiny_ctx.Context.{HistoryEntry, Content, text, blocks, Block, role_user}
use tiny_ctx.Context.Hooks.{Hook, PromptSlot}
use tiny_ctx.Context.Sanitize.{sanitize_brackets}

-- `NO_ATTRIBUTION_SENTINEL`
unfoldable pub no_attribution_sentinel : String
no_attribution_sentinel = "\0no_attribution"

-- `n - 1 - entry.index`, as an integer
unfoldable pub age_of : ℕ → HistoryEntry → ℤ
age_of n e = if leb (suc e.index) n then pos (n - suc e.index) else negsuc (e.index - n)

-- `fn(entry, age, ctx)`: a filter says false to drop, a transform may answer another entry.
abbrev pub Filter : Type 0 → Type 0
Filter S = HistoryEntry → ℤ → S → Bool × S

abbrev pub Transform : Type 0 → Type 0
Transform S = HistoryEntry → ℤ → S → Option HistoryEntry × S

-- `f"【{label}】: "`
abbrev pub label_prefix : String → String
label_prefix label = String.◌++◌ "【" (String.◌++◌ label "】: ")

-- The first block of type text gets the prefix; none where there is no such block. A block of type
-- text without a text would raise, and stands for one with an empty text.
unfoldable pub label_first_text : String → List Block → Option (List Block)
label_first_text prefix [] = none
label_first_text prefix (b ∷ bs) =
    let rest = label_first_text prefix bs in
    if b.kind == "text"
    then some (
        record b {
          text =
              some
                (String.◌++◌ prefix (sanitize_brackets (elim b.text [ none ↦ "" | some s ↦ s ])));
        }
        ∷ bs)
    else elim rest [ none ↦ none | some bs' ↦ some (b ∷ bs') ]

unfoldable pub label_content : String → Content → Content
label_content prefix (text s) = text (String.◌++◌ prefix (sanitize_brackets s))
label_content prefix (blocks bs) = blocks (elim (label_first_text prefix bs) [
  | some bs' ↦ bs'
  | none ↦ record { kind = "text"; text = some prefix; fields = "" } ∷ bs
])

-- The prefix of a user entry that names its author.
unfoldable pub label_entry : HistoryEntry → HistoryEntry
label_entry e = elim e.author_id [
  | none ↦ e
  | some author ↦
      if e.role == role_user && not (author == no_attribution_sentinel)
      then record e { content = label_content (label_prefix author) e.content }
      else e
]

module _ {S : Type 0} where
  -- Whether a filter drops the entry: the first to say so ends the loop.
  unfoldable pub dropped_by : List (Hook (Filter S)) → HistoryEntry → ℤ → S → Bool × S
  dropped_by [] e age s = (false, s)
  dropped_by (h ∷ hooks) e age s =
      let (keeps, s') = h.run e age s in
      let rest = dropped_by hooks e age s' in if keeps then rest else (true, s')

  -- The entry after all transforms, and the tags seen on the way.
  unfoldable pub transformed :
      List (Hook (Transform S))
      → HistoryEntry
      → ℤ
      → S
      → List String
      → HistoryEntry × (List String × S)
  transformed [] e age s seen = (e, (seen, s))
  transformed (h ∷ hooks) e age s seen =
      let (result, s') = h.run e age s in
      let e' : HistoryEntry = elim result [ none ↦ e | some r ↦ r ] in
      let seen' : List String = elim result [ none ↦ seen | some r ↦ union seen r.tags ] in
      transformed hooks e' age s' seen'

  -- The loop over the dialogue: the entries that go on, the tags seen, and the state.
  unfoldable pub turn_loop :
      List (Hook (Filter S))
      → List (Hook (Transform S))
      → ℕ
      → List HistoryEntry
      → S
      → List String
      → List HistoryEntry × (List String × S)
  turn_loop filters transforms n [] s seen = ([], (seen, s))
  turn_loop filters transforms n (e ∷ es) s seen =
      let age = age_of n e in
      let seen1 = union seen e.tags in
      let (drop, s1) = dropped_by filters e age s in
      let (e', (seen2, s2)) = transformed transforms e age s1 seen1 in
      let skipped = turn_loop filters transforms n es s1 seen1 in
      let (out, after) = turn_loop filters transforms n es s2 seen2 in
      if drop then skipped else (label_entry e' ∷ out, after)

-- `system_lines` and the system entry at the front
unfoldable pub contents_of : (PromptSlot → Bool) → List (PromptSlot × String) → List String
contents_of p [] = []
contents_of p ((slot, c) ∷ rs) = let rest = contents_of p rs in if p slot then c ∷ rest else rest

-- `sep.join(lines)`
unfoldable pub join_lines : String → List String → String
join_lines sep [] = ""
join_lines sep (l ∷ []) = l
join_lines sep (l ∷ k ∷ ls) = String.◌++◌ l (String.◌++◌ sep (join_lines sep (k ∷ ls)))

-- The entries before the trailing run of user entries, and that run.
unfoldable pub split_trailing_users : List HistoryEntry → List HistoryEntry × List HistoryEntry
split_trailing_users [] = ([], [])
split_trailing_users (e ∷ es) =
    let (front, run) = split_trailing_users es in
    elim front [
      | [] ↦ if e.role == role_user then ([], e ∷ run) else (e ∷ [], run)
      | f ∷ fs ↦ (e ∷ f ∷ fs, run)
    ]

-- `entries[insert_at:insert_at] = synthetic`, where there are deferred prompts
unfoldable pub insert_deferred : List HistoryEntry → List HistoryEntry → List HistoryEntry
insert_deferred deferred es =
    let (front, run) = split_trailing_users es in front ++ (deferred ++ run)
