-- ===== src/Context/Assemble.antt =====
-- `assemble` of TinyCTX/context.py, from the entries that were loaded on: all stages in a row. The
-- theorems are in Context/Assemble/Outcome and Context/Assemble/Tags.
pub mod Outcome
pub mod Tags
use tiny_ctx.Base.{
  String, ℕ, Bool, true, false, not, List, [], ◌∷◌, ◌++◌, Option, none, some, ◌==◌, string_eq,
  if◌then◌else◌, nonempty, length, map, minus,
}
use mathlib.Core.Option
use tiny_ctx.Base.Dict.{Dict}
use tiny_ctx.Base.Sort.{sort_by}
use tiny_ctx.Context.{HistoryEntry, Texts, synthetic, role_system}
use tiny_ctx.Context.Hooks.{Hook, Prompt, PromptSlot, leb_ℤ, resolve_prompts}
use tiny_ctx.Context.Turns.{Filter, Transform, turn_loop, contents_of, join_lines, insert_deferred}
use tiny_ctx.Context.Merge.{merge, clean_entry}
use tiny_ctx.Context.Merge.Adjacent.{tags_of}
use tiny_ctx.Context.Trim.{trim}
use tiny_ctx.Context.Render.{Message, render, count_tokens_entries}

-- The registries of a Context and its numbers. `session` puts the replayed session state into the
-- shared state; `pre_assemble` hooks may also change the dialogue in place.
pub record Pipeline (S : Type 0) : Type 0 where
  pub token_limit : ℕ
  pub img_cost : ℕ
  pub pre_assemble : List (Hook (List HistoryEntry × S → List HistoryEntry × S))
  pub filter_turn : List (Hook (Filter S))
  pub transform_turn : List (Hook (Transform S))
  pub post_assemble : List (Hook (List Message → S → Option (List Message) × S))
  pub prompts : Dict String (Prompt S)

pub record AssembleMeta : Type 0 where
  pub tokens_pre_trim : ℕ
  pub tokens_used : ℕ
  pub was_trimmed : Bool
  pub invalidated_tags : List String

pub record Assembled (S : Type 0) : Type 0 where
  pub messages : List Message
  pub meta : AssembleMeta
  pub surviving : List HistoryEntry
  pub state : S

-- The synthetic system entry, where a provider has something to say.
unfoldable pub system_entries : List (PromptSlot × String) → List HistoryEntry
system_entries resolved =
    let lines = contents_of (λ slot. slot.role == role_system) resolved in
    if nonempty lines then synthetic "" role_system (join_lines "\n\n" lines) ∷ [] else []

unfoldable pub deferred_from : List (PromptSlot × String) → List HistoryEntry
deferred_from [] = []
deferred_from ((slot, c) ∷ rs) =
    let rest = deferred_from rs in
    if slot.role == role_system then rest else synthetic "" slot.role c ∷ rest

-- The deferred prompts, sorted again by priority.
unfoldable pub deferred_entries : List (PromptSlot × String) → List HistoryEntry
deferred_entries resolved =
    deferred_from (sort_by (λ p q. leb_ℤ p.0.priority q.0.priority) resolved)

module _ {S : Type 0} where
  unfoldable pub run_pre_assemble :
      List (Hook (List HistoryEntry × S → List HistoryEntry × S))
      → List HistoryEntry × S
      → List HistoryEntry × S
  run_pre_assemble [] d = d
  run_pre_assemble (h ∷ hooks) d = run_pre_assemble hooks (h.run d)

  unfoldable pub run_post_assemble :
      List (Hook (List Message → S → Option (List Message) × S))
      → List Message
      → S
      → List Message × S
  run_post_assemble [] ms s = (ms, s)
  run_post_assemble (h ∷ hooks) ms s =
      let (result, s') = h.run ms s in
      run_post_assemble hooks (elim result [ none ↦ ms | some r ↦ r ]) s'

  -- Stages 1 to 4b: the entries before the trim, the tags seen, and the state.
  unfoldable pub prepared :
      Texts → Pipeline S → List HistoryEntry → S → List HistoryEntry × (List String × S)
  prepared t p loaded s =
      let (source, s1) = run_pre_assemble p.pre_assemble (loaded, s) in
      let (resolved, s2) = resolve_prompts p.prompts s1 in
      let (turns, (seen, s3)) =
        turn_loop p.filter_turn p.transform_turn (length loaded) source s2 [] in
      let entries =
        insert_deferred (deferred_entries resolved) (system_entries resolved ++ turns) in
      (map (clean_entry t) (merge t.strip entries), (seen, s3))

  -- What follows the trim: the accounts and the messages of the entries kept. `publish` writes the
  -- results into the shared state.
  unfoldable pub concluded :
      Texts
      → Pipeline S
      → ℕ
      → (AssembleMeta → S → S)
      → List HistoryEntry
      → List String
      → S
      → List HistoryEntry × Bool
      → Assembled S
  concluded t p tool_tokens publish merged seen s (kept, cut) =
      let meta : AssembleMeta = record {
        tokens_pre_trim = count_tokens_entries t p.img_cost tool_tokens merged;
        tokens_used = count_tokens_entries t p.img_cost tool_tokens kept;
        was_trimmed = cut;
        invalidated_tags = minus seen (tags_of kept);
      } in
      let (messages, s') =
        run_post_assemble p.post_assemble (map (render t) kept) (publish meta s) in
      record { messages = messages; meta = meta; surviving = kept; state = s' }

  -- None where the trim would not end.
  unfoldable pub assemble :
      Texts → Pipeline S → ℕ → (AssembleMeta → S → S) → List HistoryEntry → S → Option (Assembled S)
  assemble t p tool_tokens publish loaded s =
      let (merged, (seen, s1)) = prepared t p loaded s in
      let count = count_tokens_entries t p.img_cost tool_tokens in
      Option.map (concluded t p tool_tokens publish merged seen s1)
        (trim t.strip count p.token_limit merged)
