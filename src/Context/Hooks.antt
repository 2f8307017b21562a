-- ===== src/Context/Hooks.antt =====
-- The registries of a Context in TinyCTX/context.py: hooks by stage, kept in order of priority, and
-- prompt providers. A hook reads and changes a state of the type S, all that hooks share. The
-- identity of a function object is a name here.
pub mod Order
use tiny_ctx.Base.{
  String, ℕ, suc, Bool, true, false, not, ◌&&◌, ◌||◌, List, [], ◌∷◌, ◌++◌, Option, none, some, ◌==◌,
  string_eq, nat_eq, if◌then◌else◌, leb, ltb, keep,
}
use tiny_ctx.Base.Dict.{Dict, lookup, insert, erase}
use tiny_ctx.Base.Sort.{sort_by}
use tiny_ctx.Tools.Values.{ℤ, pos, negsuc}

abbrev pub leb_ℤ : ℤ → ℤ → Bool
leb_ℤ (pos a) (pos b) = leb a b
leb_ℤ (pos a) (negsuc b) = false
leb_ℤ (negsuc a) (pos b) = true
leb_ℤ (negsuc a) (negsuc b) = leb b a

-- `(priority, insertion_order, fn)`
pub record Hook {ℓ} (F : Type ℓ) : Type ℓ where
  pub priority : ℤ
  pub order : ℕ
  pub name : String
  pub run : F

module _ {ℓ} {F : Type ℓ} where
  -- The order of the keys `(x[0], x[1])`.
  unfoldable pub hook_le : Hook F → Hook F → Bool
  hook_le g h =
      (leb_ℤ g.priority h.priority && not (leb_ℤ h.priority g.priority))
      || (leb_ℤ g.priority h.priority && leb_ℤ h.priority g.priority && leb g.order h.order)

  -- `register_hook`, on the hooks of the stage and the counter
  unfoldable pub register_hook : String → F → ℤ → ℕ × List (Hook F) → ℕ × List (Hook F)
  register_hook name fn priority (counter, hooks) =
      let hook : Hook F = record {
        priority = priority;
        order = suc counter;
        name = name;
        run = fn;
      } in
      (suc counter, sort_by hook_le (hooks ++ hook ∷ []))

  -- `unregister_hook`
  unfoldable pub unregister_hook : String → List (Hook F) → List (Hook F)
  unregister_hook name hooks = keep (λ h. not (h.name == name)) hooks

-- What a call of a hook gives: an exception, or a value.
pub data Reply {ℓ} (A : Type ℓ) : Type ℓ where
  raises : Reply A
  replies : A → Reply A

-- `run_sync_hooks`: a hook that raises is skipped.
unfoldable pub run_sync_hooks :
    {S A : Type 0} → List (Hook (S → Reply (Option A) × S)) → S → List A × S
run_sync_hooks [] s = ([], s)
run_sync_hooks (h ∷ hooks) s =
    let (reply, s') = h.run s in
    let (actions, s'') = run_sync_hooks hooks s' in
    elim reply [
      | raises ↦ (actions, s'')
      | replies action ↦ elim action [ none ↦ (actions, s'') | some a ↦ (a ∷ actions, s'') ]
    ]

-- `PromptSlot`
pub record PromptSlot : Type 0 where
  pub pid : String
  pub role : String
  pub priority : ℤ

-- A registered provider; `none` is a provider that raised or answered None.
pub record Prompt (S : Type 0) : Type 0 where
  pub slot : PromptSlot
  pub provider : S → Option String × S

module _ {S : Type 0} where
  unfoldable pub register_prompt :
      String
      → (S → Option String × S)
      → String
      → ℤ
      → Dict String (Prompt S)
      → Dict String (Prompt S)
  register_prompt pid provider role priority prompts =
      insert pid
        (record {
          slot = record { pid = pid; role = role; priority = priority };
          provider = provider;
        })
        prompts

  unfoldable pub unregister_prompt : String → Dict String (Prompt S) → Dict String (Prompt S)
  unregister_prompt pid prompts = erase pid prompts

  -- `self._prompts.values()`
  unfoldable pub prompt_values : Dict String (Prompt S) → List (Prompt S)
  prompt_values [] = []
  prompt_values ((_, p) ∷ ps) = p ∷ prompt_values ps

  -- The loop that fills `resolved`.
  unfoldable pub resolve_from : List (Prompt S) → S → List (PromptSlot × String) × S
  resolve_from [] s = ([], s)
  resolve_from (p ∷ ps) s =
      let (content, s') = p.provider s in
      let (resolved, s'') = resolve_from ps s' in
      elim content [ none ↦ (resolved, s'') | some c ↦ ((p.slot, c) ∷ resolved, s'') ]

  unfoldable pub resolve_prompts : Dict String (Prompt S) → S → List (PromptSlot × String) × S
  resolve_prompts prompts s =
      resolve_from (sort_by (λ p q. leb_ℤ p.slot.priority q.slot.priority) (prompt_values prompts))
        s
