-- ===== src/Context/Assemble/Tags.antt =====
-- What `assemble` of TinyCTX/context.py reports of the tags that its first stages meet.
use mathlib.Core.Option
use mathlib.Core.Option.{some-injective}
use tiny_ctx.Base.{
  String, ℕ, ◌≡◌, ap, sym, ◌∙◌, true, not, List, [], some, string_eq, length, minus, contains,
  contains-keep, Option-cases, inl, inr,
}
use tiny_ctx.Context.{HistoryEntry, Texts}
use tiny_ctx.Context.Hooks.{resolve_prompts}
use tiny_ctx.Context.Turns.Seen.{Meets, Meets-seen}
use tiny_ctx.Context.Merge.Adjacent.{tags_of}
use tiny_ctx.Context.Trim.{trim}
use tiny_ctx.Context.Render.{count_tokens_entries}
use tiny_ctx.Context.Assemble.{
  Pipeline, AssembleMeta, Assembled, run_pre_assemble, prepared, concluded, assemble,
}

module _ {S : Type 0} (t : Texts) (p : Pipeline S) (tool_tokens : ℕ)
    (publish : AssembleMeta → S → S) (loaded : List HistoryEntry) (s : S) where
  -- The entry is met while the dialogue, as stage 1 leaves it, goes through the filters and the
  -- transforms, in the state that the prompts leave.
  abbrev pub IsMet : HistoryEntry → Type 0
  IsMet r =
      Meets p.filter_turn p.transform_turn (length loaded)
        (run_pre_assemble p.pre_assemble (loaded, s)).0
        (resolve_prompts p.prompts (run_pre_assemble p.pre_assemble (loaded, s)).1).1 r

  -- A tag of an entry of the dialogue, as stage 1 leaves it, or of an entry that a transform answers
  -- in the place of one that no filter drops, is after the assembly reported as invalidated exactly
  -- if no surviving entry has it.
  pub assemble-accounts :
      (a : Assembled S) (r : HistoryEntry) (tag : String)
      → assemble t p tool_tokens publish loaded s ≡ some a
      → IsMet r
      → contains r.tags tag ≡ true
      → contains a.meta.invalidated_tags tag ≡ not (contains (tags_of a.surviving) tag)
  unfolding assemble concluded prepared minus
  assemble-accounts a r tag h met tagged =
      let before = prepared t p loaded s in
      let count = count_tokens_entries t p.img_cost tool_tokens in
      let finish = concluded t p tool_tokens publish before.0 before.1.0 before.1.1 in
      let seen = Meets-seen met [] tag tagged in
      elim (Option-cases (trim t.strip count p.token_limit before.0)) [
        | inl stuck ↦ cc (ap (Option.map finish) stuck, h)
        | inr ((kept, cut), run) ↦
            let same : finish (kept, cut) ≡ a =
              some-injective _ _ (sym (ap (Option.map finish) run) ∙ h) in
            let split = contains-keep (λ x. not (contains (tags_of kept) x)) before.1.0 tag in
            rw (sym same, split, seen)
      ]
