-- ===== src/Context/Trim/Budget.antt =====
-- The trim ends, and leaves a context within the budget or one of system entries only.
use tiny_ctx.Base.{
  String, ℕ, zero, suc, ◌+◌, ◌≤◌, ◌<◌, ◌≡◌, refl, ◌⊎◌, inl, inr, Bool, true, false, List, [], ◌∷◌,
  none, some, ◌==◌, string_eq, if◌then◌else◌, leb, nonempty, every, arith, Option-cases, Bool-cases,
}
use tiny_ctx.Context.{HistoryEntry, call_ids, role_system}
use tiny_ctx.Context.Trim.{pop_answers, trim_step, trim_loop, trim_fuel, trim}

abbrev pub is_system : HistoryEntry → Bool
is_system e = e.role == role_system

-- The rounds that a list may still take: two for an entry with calls, one for another.
measure : List HistoryEntry → ℕ
measure [] = 0
measure (e ∷ es) = (if nonempty e.tool_calls then 2 else 1) + measure es

measure-pop_answers :
    (ids : List String) (es : List HistoryEntry) → measure (pop_answers ids es) ≤ measure es
unfolding measure pop_answers
measure-pop_answers ids [] = omega arith
measure-pop_answers ids (e ∷ es) = ground (arith, measure-pop_answers ids es)

measure-trim_step :
    (strip : String → String) (es es' : List HistoryEntry)
    → trim_step strip es ≡ some es'
    → measure es' < measure es
unfolding measure trim_step
measure-trim_step strip [] es' h = ground arith
measure-trim_step strip (e ∷ es) es' h =
    let ids = call_ids e.tool_calls in
    let bare : HistoryEntry = record e { tool_calls = [] } in
    elim (Option-cases (trim_step strip es)) [
      | inl last ↦ ground (arith, measure-pop_answers ids es, measure-pop_answers ids (bare ∷ es))
      | inr (later, more) ↦ ground (
        arith,
        measure-pop_answers ids es,
        measure-pop_answers ids (bare ∷ es),
        measure-trim_step strip es later more,
      )
    ]

trim_step-none :
    (strip : String → String) (es : List HistoryEntry)
    → trim_step strip es ≡ none
    → every is_system es ≡ true
unfolding trim_step every
trim_step-none strip [] h = refl
trim_step-none strip (e ∷ es) h = ground (arith, trim_step-none strip es)

measure-lt-trim_fuel : (es : List HistoryEntry) → measure es < trim_fuel es
unfolding measure trim_fuel
measure-lt-trim_fuel [] = omega arith
measure-lt-trim_fuel (e ∷ es) = ground (arith, measure-lt-trim_fuel es)

trim_loop-ends :
    (strip : String → String) (count : List HistoryEntry → ℕ) (limit fuel : ℕ)
    (es : List HistoryEntry) (trimmed : Bool)
    → measure es < fuel
    → (kept : List HistoryEntry) × ((cut : Bool) × ((trim_loop strip count limit fuel es trimmed
            ≡ some (kept, cut))
          × ((count kept ≤ limit) ⊎ (every is_system kept ≡ true))))
unfolding trim_loop
trim_loop-ends strip count limit zero es trimmed h = absurd (omega arith)
trim_loop-ends strip count limit (suc fuel) es trimmed h =
    elim (Bool-cases (leb (count es) limit)) [
      | inl fits ↦ (es, (trimmed, (ground arith, inl (ground arith))))
      | inr over ↦ elim (Option-cases (trim_step strip es)) [
        | inl stuck ↦ (es, (true, (ground arith, inr (trim_step-none strip es stuck))))
        | inr (es', step) ↦
            let less = measure-trim_step strip es es' step in
            let (kept, (cut, (run, done))) =
              trim_loop-ends strip count limit fuel es' true (omega arith) in
            (kept, (cut, (ground arith, done)))
      ]
    ]

-- The trim ends, and what it keeps is within the budget or has system entries only.
pub trim-ends :
    (strip : String → String) (count : List HistoryEntry → ℕ) (limit : ℕ) (es : List HistoryEntry)
    → (kept : List HistoryEntry) × ((cut : Bool) × ((trim strip count limit es ≡ some (kept, cut))
          × ((count kept ≤ limit) ⊎ (every is_system kept ≡ true))))
unfolding trim
trim-ends strip count limit es =
    trim_loop-ends strip count limit (trim_fuel es) es false (measure-lt-trim_fuel es)
