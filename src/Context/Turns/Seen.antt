-- ===== src/Context/Turns/Seen.antt =====
-- Which entries stages 2 and 3 of `assemble` in TinyCTX/context.py meet, as a relation: those of the
-- dialogue, and each that a transform answers on the way.
use tiny_ctx.Base.{
  String, ℕ, ◌≡◌, refl, true, false, List, [], ◌∷◌, Option, none, some, string_eq, contains,
  contains-union, union, arith, Option-cases, Bool-cases, inl, inr,
}
use tiny_ctx.Tools.Values.{ℤ}
use tiny_ctx.Context.{HistoryEntry}
use tiny_ctx.Context.Hooks.{Hook}
use tiny_ctx.Context.Turns.{Filter, Transform, dropped_by, transformed, turn_loop, age_of}

-- The entry that the hooks after one work on.
abbrev pub answer_or : HistoryEntry → Option HistoryEntry → HistoryEntry
answer_or e none = e
answer_or e (some r) = r

module _ {S : Type 0} where
  -- One of the transforms, in their order, answers r on the way from e.
  pub data Answers : List (Hook (Transform S)) → HistoryEntry → ℤ → S → HistoryEntry → Type 0 where
    answers_now :
        (k : Hook (Transform S)) (hooks : List (Hook (Transform S))) (e : HistoryEntry) (age : ℤ)
        (s : S) (r : HistoryEntry)
        → (k.run e age s).0 ≡ some r
        → Answers (k ∷ hooks) e age s r
    answers_later :
        (k : Hook (Transform S)) (hooks : List (Hook (Transform S))) (e : HistoryEntry) (age : ℤ)
        (s : S) (r : HistoryEntry)
        → Answers hooks (answer_or e (k.run e age s).0) age (k.run e age s).1 r
        → Answers (k ∷ hooks) e age s r

  -- The state that the transforms leave.
  unfoldable pub left_by : List (Hook (Transform S)) → HistoryEntry → ℤ → S → S
  left_by [] e age s = s
  left_by (k ∷ hooks) e age s = left_by hooks (answer_or e (k.run e age s).0) age (k.run e age s).1

  -- r is an entry of the dialogue, or the answer of a transform to one that no filter drops.
  pub data Meets (filters : List (Hook (Filter S))) (transforms : List (Hook (Transform S))) (n : ℕ)
      : List HistoryEntry → S → HistoryEntry → Type 0 where
    itself :
        (e : HistoryEntry) (es : List HistoryEntry) (s : S)
        → Meets filters transforms n (e ∷ es) s e
    answered :
        (e : HistoryEntry) (es : List HistoryEntry) (s : S) (r : HistoryEntry)
        → (dropped_by filters e (age_of n e) s).0 ≡ false
        → Answers transforms e (age_of n e) (dropped_by filters e (age_of n e) s).1 r
        → Meets filters transforms n (e ∷ es) s r
    after_drop :
        (e : HistoryEntry) (es : List HistoryEntry) (s : S) (r : HistoryEntry)
        → (dropped_by filters e (age_of n e) s).0 ≡ true
        → Meets filters transforms n es (dropped_by filters e (age_of n e) s).1 r
        → Meets filters transforms n (e ∷ es) s r
    after_keep :
        (e : HistoryEntry) (es : List HistoryEntry) (s : S) (r : HistoryEntry)
        → (dropped_by filters e (age_of n e) s).0 ≡ false
        → Meets filters transforms n es
            (left_by transforms e (age_of n e) (dropped_by filters e (age_of n e) s).1)
            r
        → Meets filters transforms n (e ∷ es) s r

  left_by-transformed :
      (hooks : List (Hook (Transform S))) (e : HistoryEntry) (age : ℤ) (s : S) (seen : List String)
      → (transformed hooks e age s seen).1.1 ≡ left_by hooks e age s
  unfolding transformed left_by
  left_by-transformed [] e age s seen = refl
  left_by-transformed (k ∷ hooks) e age s seen = elim (Option-cases (k.run e age s).0) [
    | inl none_given ↦ ground (arith, left_by-transformed hooks e age (k.run e age s).1 seen)
    | inr (r, given) ↦
        ground (arith, left_by-transformed hooks r age (k.run e age s).1 (union seen r.tags))
  ]

  -- Tags seen stay seen.
  transformed-seen :
      (hooks : List (Hook (Transform S))) (e : HistoryEntry) (age : ℤ) (s : S) (seen : List String)
      (tag : String)
      → contains seen tag ≡ true
      → contains (transformed hooks e age s seen).1.0 tag ≡ true
  unfolding transformed
  transformed-seen [] e age s seen tag h = h
  transformed-seen (k ∷ hooks) e age s seen tag h =
      let (result, s') = k.run e age s in
      elim (Option-cases result) [
        | inl same ↦ ground (arith, transformed-seen hooks e age s' seen tag)
        | inr (r, changed) ↦ ground (
          arith,
          transformed-seen hooks r age s' (union seen r.tags) tag,
          contains-union seen r.tags tag,
        )
      ]

  Answers-seen :
      {hooks : List (Hook (Transform S))} {e : HistoryEntry} {age : ℤ} {s : S} {r : HistoryEntry}
      → Answers hooks e age s r
      → (seen : List String) (tag : String) → contains r.tags tag ≡ true
      → contains (transformed hooks e age s seen).1.0 tag ≡ true
  unfolding transformed
  Answers-seen (answers_now k hooks e age s r given) seen tag h = ground (
    arith,
    transformed-seen hooks r age (k.run e age s).1 (union seen r.tags) tag,
    contains-union seen r.tags tag,
  )
  Answers-seen (answers_later k hooks e age s r below) seen tag h =
      elim (Option-cases (k.run e age s).0) [
        | inl none_given ↦ ground (arith, Answers-seen below seen tag h)
        | inr (x, given) ↦ ground (arith, Answers-seen below (union seen x.tags) tag h)
      ]

  turn_loop-seen :
      (filters : List (Hook (Filter S))) (transforms : List (Hook (Transform S))) (n : ℕ)
      (es : List HistoryEntry) (s : S) (seen : List String) (tag : String)
      → contains seen tag ≡ true
      → contains (turn_loop filters transforms n es s seen).1.0 tag ≡ true
  unfolding turn_loop
  turn_loop-seen filters transforms n [] s seen tag h = h
  turn_loop-seen filters transforms n (e ∷ es) s seen tag h =
      let age = age_of n e in
      let seen1 = union seen e.tags in
      let s1 = (dropped_by filters e age s).1 in
      let seen2 = (transformed transforms e age s1 seen1).1.0 in
      let s2 = (transformed transforms e age s1 seen1).1.1 in
      let both = contains-union seen e.tags tag in
      elim (Bool-cases ((dropped_by filters e age s).0)) [
        | inl drop ↦ ground (arith, turn_loop-seen filters transforms n es s1 seen1 tag)
        | inr goes ↦ ground (
          arith,
          turn_loop-seen filters transforms n es s2 seen2 tag,
          transformed-seen transforms e age s1 seen1 tag,
        )
      ]

  -- The tags of each entry that is met are seen.
  pub Meets-seen :
      {filters : List (Hook (Filter S))} {transforms : List (Hook (Transform S))} {n : ℕ}
      {es : List HistoryEntry} {s : S} {r : HistoryEntry}
      → Meets filters transforms n es s r
      → (seen : List String) (tag : String) → contains r.tags tag ≡ true
      → contains (turn_loop filters transforms n es s seen).1.0 tag ≡ true
  unfolding turn_loop
  Meets-seen {filters} {transforms} {n} (itself e es s) seen tag h =
      let age = age_of n e in
      let seen1 = union seen e.tags in
      let s1 = (dropped_by filters e age s).1 in
      let seen2 = (transformed transforms e age s1 seen1).1.0 in
      let s2 = (transformed transforms e age s1 seen1).1.1 in
      ground (
        arith,
        contains-union seen e.tags tag,
        turn_loop-seen filters transforms n es s1 seen1 tag,
        turn_loop-seen filters transforms n es s2 seen2 tag,
        transformed-seen transforms e age s1 seen1 tag,
      )
  Meets-seen {filters} {transforms} {n} (answered e es s r goes given) seen tag h =
      let age = age_of n e in
      let seen1 = union seen e.tags in
      let s1 = (dropped_by filters e age s).1 in
      let seen2 = (transformed transforms e age s1 seen1).1.0 in
      let s2 = (transformed transforms e age s1 seen1).1.1 in
      let recorded = Answers-seen given seen1 tag h in
      let kept = turn_loop-seen filters transforms n es s2 seen2 tag recorded in rw (goes) kept
  Meets-seen {filters} {transforms} {n} (after_drop e es s r drops below) seen tag h =
      let rest = Meets-seen below (union seen e.tags) tag h in rw (drops) rest
  Meets-seen {filters} {transforms} {n} (after_keep e es s r goes below) seen tag h =
      let age = age_of n e in
      let seen1 = union seen e.tags in
      let s1 = (dropped_by filters e age s).1 in
      let seen2 = (transformed transforms e age s1 seen1).1.0 in
      let rest = Meets-seen below seen2 tag h in
      rw (goes, left_by-transformed transforms e age s1 seen1) rest
