-- ===== src/Context/Assemble/Outcome.antt =====
-- What `assemble` answers: it ends, within the budget or with system entries only.
use mathlib.Core.Option
use mathlib.Core.Option.{some-injective}
use tiny_ctx.Base.{ℕ, ◌≤◌, ◌≡◌, ap, ◌⊎◌, true, List, some, string_eq, every}
use tiny_ctx.Context.{HistoryEntry, Texts}
use tiny_ctx.Context.Trim.Budget.{is_system, trim-ends}
use tiny_ctx.Context.Trim.Survivors.{system_of, trim-system_of}
use tiny_ctx.Context.Render.{count_tokens_entries}
use tiny_ctx.Context.Assemble.{Pipeline, AssembleMeta, Assembled, prepared, concluded, assemble}

module _ {S : Type 0} where
  module _ (t : Texts) (p : Pipeline S) (tool_tokens : ℕ) (publish : AssembleMeta → S → S)
      (loaded : List HistoryEntry) (s : S) where
    -- The assembly ends; the messages are within the token limit, or nothing but system entries
    -- was left to drop; and no system entry was dropped.
    pub assemble-ends :
        (a : Assembled S) × ((assemble t p tool_tokens publish loaded s ≡ some a)
          × (((a.meta.tokens_used ≤ p.token_limit) ⊎ (every is_system a.surviving ≡ true))
              × (system_of a.surviving ≡ system_of (prepared t p loaded s).0)))
    unfolding assemble concluded
    assemble-ends =
        let before = prepared t p loaded s in
        let count = count_tokens_entries t p.img_cost tool_tokens in
        let (kept, (cut, (run, done))) = trim-ends t.strip count p.token_limit before.0 in
        let kept_system = trim-system_of t.strip count p.token_limit before.0 kept cut run in
        (
          concluded t p tool_tokens publish before.0 before.1.0 before.1.1 (kept, cut),
          (
            ap (Option.map (concluded t p tool_tokens publish before.0 before.1.0 before.1.1)) run,
            (done, kept_system),
          ),
        )
