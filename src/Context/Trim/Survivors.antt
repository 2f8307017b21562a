-- ===== src/Context/Trim/Survivors.antt =====
-- What the trim keeps: every system entry, and the newest of the others.
use tiny_ctx.Base.{
  String, ℕ, zero, suc, ◌≡◌, refl, sym, ap, ◌∙◌, Bool, true, false, ◌&&◌, List, [], ◌∷◌, ◌++◌,
  append_assoc, none, some, ◌==◌, string_eq, if◌then◌else◌, contains, leb, nonempty, keep, arith,
  Option-cases, Bool-cases, inl, inr,
}
use tiny_ctx.Context.{HistoryEntry, call_ids, role_system, role_tool, role_assistant}
use tiny_ctx.Context.Trim.{answers, pop_answers, has_text, trim_step, trim_loop, trim_fuel, trim}
use tiny_ctx.Context.Trim.Budget.{is_system}

abbrev pub system_of : List HistoryEntry → List HistoryEntry
system_of es = keep is_system es

-- The ids of the other entries, in order.
unfoldable pub turn_ids : List HistoryEntry → List String
turn_ids [] = []
turn_ids (e ∷ es) = let rest = turn_ids es in if is_system e then rest else e.id ∷ rest

tool-ne-system : (role_tool == role_system) ≡ false
unfolding string_eq
tool-ne-system = refl

assistant-ne-system : (role_assistant == role_system) ≡ false
unfolding string_eq
assistant-ne-system = refl

assistant-ne-tool : (role_assistant == role_tool) ≡ false
unfolding string_eq
assistant-ne-tool = refl

answers-system : (ids : List String) (e : HistoryEntry) → answers ids e ≡ true → is_system e ≡ false
unfolding answers
answers-system ids e h = ground (arith, tool-ne-system)

system_of-pop_answers :
    (ids : List String) (es : List HistoryEntry) → system_of (pop_answers ids es) ≡ system_of es
unfolding pop_answers keep
system_of-pop_answers ids [] = refl
system_of-pop_answers ids (e ∷ es) =
    ground (arith, system_of-pop_answers ids es, answers-system ids e)

system_of-trim_step :
    (strip : String → String) (es es' : List HistoryEntry)
    → trim_step strip es ≡ some es'
    → system_of es' ≡ system_of es
unfolding trim_step keep
system_of-trim_step strip [] es' h = ground arith
system_of-trim_step strip (e ∷ es) es' h =
    let ids = call_ids e.tool_calls in
    let bare : HistoryEntry = record e { tool_calls = [] } in
    elim (Option-cases (trim_step strip es)) [
      | inl last ↦
          ground (arith, system_of-pop_answers ids es, system_of-pop_answers ids (bare ∷ es))
      | inr (later, more) ↦ ground (
        arith,
        system_of-pop_answers ids es,
        system_of-pop_answers ids (bare ∷ es),
        system_of-trim_step strip es later more,
      )
    ]

system_of-trim_loop :
    (strip : String → String) (count : List HistoryEntry → ℕ) (limit fuel : ℕ)
    (es kept : List HistoryEntry) (trimmed cut : Bool)
    → trim_loop strip count limit fuel es trimmed ≡ some (kept, cut)
    → system_of kept ≡ system_of es
unfolding trim_loop
system_of-trim_loop strip count limit zero es kept trimmed cut h = ground arith
system_of-trim_loop strip count limit (suc fuel) es kept trimmed cut h =
    elim (Option-cases (trim_step strip es)) [
      | inl stuck ↦ ground arith
      | inr (es', step) ↦ ground (
        arith,
        system_of-trim_step strip es es' step,
        system_of-trim_loop strip count limit fuel es' kept true cut,
      )
    ]

-- The trim keeps every system entry, as it was and in its order.
pub trim-system_of :
    (strip : String → String) (count : List HistoryEntry → ℕ) (limit : ℕ)
    (es kept : List HistoryEntry) (cut : Bool)
    → trim strip count limit es ≡ some (kept, cut)
    → system_of kept ≡ system_of es
unfolding trim
trim-system_of strip count limit es kept cut h =
    system_of-trim_loop strip count limit (trim_fuel es) es kept false cut h

-- `ys` is what is left of `xs` after some entries at its front.
abbrev pub IsEndOf : List String → List String → Type 0
IsEndOf ys xs = (gone : List String) × (xs ≡ gone ++ ys)

IsEndOf-trans : (xs ys zs : List String) → IsEndOf ys xs → IsEndOf zs ys → IsEndOf zs xs
IsEndOf-trans xs ys zs (g, p) (h, q) = (g ++ h, p ∙ ap (◌++◌ g) q ∙ sym (append_assoc g h zs))

turn_ids-pop_answers :
    (ids : List String) (es : List HistoryEntry)
    → IsEndOf (turn_ids (pop_answers ids es)) (turn_ids es)
unfolding pop_answers turn_ids
turn_ids-pop_answers ids [] = ([], refl)
turn_ids-pop_answers ids (e ∷ es) = elim (Bool-cases (answers ids e)) [
  | inl popped ↦
      let (gone, rest) = turn_ids-pop_answers ids es in
      (e.id ∷ gone, ground (arith, answers-system ids e popped))
  | inr kept ↦ ([], ground arith)
]

turn_ids-trim_step :
    (strip : String → String) (es es' : List HistoryEntry)
    → trim_step strip es ≡ some es'
    → IsEndOf (turn_ids es') (turn_ids es)
unfolding trim_step turn_ids
turn_ids-trim_step strip [] es' h = ([], ground arith)
turn_ids-trim_step strip (e ∷ es) es' h =
    let ids = call_ids e.tool_calls in
    let bare : HistoryEntry = record e { tool_calls = [] } in
    elim (Bool-cases (is_system e)) [
      | inl system ↦ elim (Option-cases (trim_step strip es)) [
        | inl last ↦ ([], ground arith)
        | inr (later, more) ↦
            let (gone, rest) = turn_ids-trim_step strip es later more in (gone, ground arith)
      ]
      | inr turn ↦ elim (Bool-cases (nonempty e.tool_calls)) [
        | inr plain ↦ (e.id ∷ [], ground arith)
        | inl calls ↦ elim (Bool-cases (has_text strip e.content)) [
          | inl said ↦
              let (gone, rest) = turn_ids-pop_answers ids (bare ∷ es) in (gone, ground arith)
          | inr silent ↦
              let (gone, rest) = turn_ids-pop_answers ids es in (e.id ∷ gone, ground arith)
        ]
      ]
    ]

turn_ids-trim_loop :
    (strip : String → String) (count : List HistoryEntry → ℕ) (limit fuel : ℕ)
    (es kept : List HistoryEntry) (trimmed cut : Bool)
    → trim_loop strip count limit fuel es trimmed ≡ some (kept, cut)
    → IsEndOf (turn_ids kept) (turn_ids es)
unfolding trim_loop
turn_ids-trim_loop strip count limit zero es kept trimmed cut h = ([], ground arith)
turn_ids-trim_loop strip count limit (suc fuel) es kept trimmed cut h =
    elim (Bool-cases (leb (count es) limit)) [
      | inl fits ↦ ([], ground arith)
      | inr over ↦ elim (Option-cases (trim_step strip es)) [
        | inl stuck ↦ ([], ground arith)
        | inr (es', step) ↦
            IsEndOf-trans (turn_ids es) (turn_ids es') (turn_ids kept)
              (turn_ids-trim_step strip es es' step)
              (turn_ids-trim_loop strip count limit fuel es' kept true cut (ground arith))
      ]
    ]

-- The turns that the trim keeps are the newest ones, in their order.
pub trim-IsEndOf :
    (strip : String → String) (count : List HistoryEntry → ℕ) (limit : ℕ)
    (es kept : List HistoryEntry) (cut : Bool)
    → trim strip count limit es ≡ some (kept, cut)
    → IsEndOf (turn_ids kept) (turn_ids es)
unfolding trim
trim-IsEndOf strip count limit es kept cut h =
    turn_ids-trim_loop strip count limit (trim_fuel es) es kept false cut h

-- Every result of a tool call stands behind an entry that makes the call.
unfoldable pub paired : List String → List HistoryEntry → Bool
paired made [] = true
paired made (e ∷ es) =
    let rest = paired (call_ids e.tool_calls ++ made) es in
    (if e.role == role_tool
      then elim e.tool_call_id [ none ↦ true | some id ↦ contains made id ]
      else true)
    && rest

-- A round takes the calls of an assistant entry that also has text, and leaves the results that
-- follow it: a dialogue in which each result had its call then has one without.
pub trim_step-unpaired :
    (strip : String → String) (e t : HistoryEntry) (id : String) (es : List HistoryEntry)
    → e.role ≡ role_assistant
    → nonempty e.tool_calls ≡ true
    → has_text strip e.content ≡ true
    → t.role ≡ role_tool
    → t.tool_call_id ≡ some id
    → (kept : List HistoryEntry) × ((trim_step strip (e ∷ t ∷ es) ≡ some kept)
        × (paired [] kept ≡ false))
unfolding trim_step pop_answers answers paired call_ids contains
trim_step-unpaired strip e t id es assistant calls said tool answer = (
  record e { tool_calls = [] } ∷ t ∷ es,
  (ground (arith, assistant-ne-system, assistant-ne-tool), ground (arith, assistant-ne-tool)),
)
