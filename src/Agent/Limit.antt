-- ===== src/Agent/Limit.antt =====
-- The final text of `AgentCycle.run` in TinyCTX/agent.py: what becomes of it where every completion
-- calls a tool, and after the model has once answered the token for no reply.
use tiny_ctx.Base.{
  String, ℕ, zero, suc, ◌≡◌, ◌⊎◌, refl, ap, sym, ◌∙◌, subst, Bool, true, false, not, ◌&&◌, ◌||◌,
  List, [], ◌∷◌, Option, none, some, ◌==◌, string_eq, nat_eq, if◌then◌else◌, ltb, nonempty, map,
  arith, inl, inr,
}
use mathlib.Core.Option.{some-injective}
use tiny_ctx.Db.{Outcome, returned, raised}
use tiny_ctx.Context.{CallDict, HistoryEntry, synthetic, role_user}
use tiny_ctx.Context.Dialogue.{Context, ToolResult, tool_entry}
use tiny_ctx.Agent.{
  Completion, Environment, Config, Turn, Ending, was_aborted, no_output, llm_error, final, crashed,
  Progress, going, ended, write, write_all, and_then, run_tools, drain_inbox, finalize, complete,
  infer_round, round, run_loop, first_turn, limit_reached, exogenous_entries, stored_content,
  assistant_entry,
}

-- What a turn would answer if it ended now.
abbrev answer : {T W : Type 0} → Turn T W → String × Bool
answer t = (t.final_text, t.no_reply)

-- The answer that an ending has, or that of the turn.
answered : {T W : Type 0} → Turn T W → Ending × Turn T W → String × Bool
answered t (final s b, t') = (s, b)
answered t (was_aborted, t') = answer t
answered t (no_output, t') = answer t
answered t (llm_error e, t') = answer t
answered t (crashed e, t') = answer t

module _ {T W : Type 0} (env : Environment T W) where
  write_all-answer :
      (es : List HistoryEntry) (t : Turn T W) → answer (write_all env es t).1 ≡ answer t
  unfolding write_all write
  write_all-answer [] t = refl
  write_all-answer (e ∷ es) t = ground (arith, write_all-answer es (write env e t).1)

  run_tools-answer :
      (is_last : Bool) (calls : List CallDict) (t : Turn T W)
      → answer (run_tools env is_last calls t).1 ≡ answer t
  unfolding run_tools write
  run_tools-answer is_last [] t = refl
  run_tools-answer is_last (call ∷ calls) t =
      let (result, w) = env.execute call t.world in
      let shown : ToolResult = if is_last then limit_reached result else result in
      let t' = (write env (tool_entry shown) (record t { world = w })).1 in
      let rest = run_tools-answer is_last calls t' in ground (arith, rest)

  drain_inbox-answer : (t : Turn T W) → answer (drain_inbox env t).1.1 ≡ answer t
  unfolding drain_inbox
  drain_inbox-answer t =
      write_all-answer (exogenous_entries (env.inbox t.world).0)
        (record t { world = (env.inbox t.world).1 })

  module _ (config : Config) (P : String × Bool → Type 0) where
    -- Going on keeps the property of the answer, and ending with a text has it.
    abbrev Keeps : Progress T W → Type 0
    Keeps (going t) = P (answer t)
    Keeps (ended (final s b) t) = P (s, b)
    Keeps (ended was_aborted t) = Unit
    Keeps (ended no_output t) = Unit
    Keeps (ended (llm_error e) t) = Unit
    Keeps (ended (crashed e) t) = Unit

    and_then-Keeps :
        (r : Outcome Unit × Turn T W) (k : Turn T W → Progress T W)
        → Keeps (k r.1)
        → Keeps (and_then r k)
    unfolding and_then
    and_then-Keeps (raised why, t) k h = tt
    and_then-Keeps (returned _, t) k h = h

    if-Keeps :
        (b : Bool) (p q : Progress T W)
        → Keeps p
        → (b ≡ false → Keeps q)
        → Keeps (if b then p else q)
    if-Keeps true p q hp hq = hp
    if-Keeps false p q hp hq = hq refl

    error-Keeps :
        (o : Option String) (f : String → Turn T W) (p : Progress T W)
        → Keeps p
        → Keeps (elim o [ some s ↦ ended (llm_error s) (f s) | none ↦ p ])
    error-Keeps none f p hp = hp
    error-Keeps (some s) f p hp = tt

    -- What a completion without calls makes of the answer.
    abbrev Finalizes : Completion → Type 0
    Finalizes c =
        (nonempty c.calls ≡ true)
        ⊎ ((a : String × Bool)
            → P a
            → P (
              if env.strip c.text == config.no_reply_token then "" else c.text,
              env.strip c.text == config.no_reply_token || a.1,
            ))

    finalize-Keeps :
        (c : Completion) (t : Turn T W)
        → nonempty c.calls ≡ false
        → Finalizes c
        → P (answer t)
        → Keeps (finalize env config c t)
    unfolding finalize
    finalize-Keeps c t none_called (inl called) h = ground arith
    finalize-Keeps c t none_called (inr new) h =
        let no_reply : Bool = env.strip c.text == config.no_reply_token in
        let t1 : Turn T W = record t {
          final_text = if no_reply then "" else c.text;
          no_reply = no_reply || t.no_reply;
        } in
        let drained = drain_inbox env t1 in
        let kept : P (answer drained.1.1) =
          subst P (sym (drain_inbox-answer t1)) (new (answer t) h) in
        and_then-Keeps drained.1 _ (if-Keeps drained.0 _ _ kept (λ b. kept))

    complete-Keeps :
        (c : Completion) (t : Turn T W)
        → Finalizes c
        → P (answer t)
        → Keeps (complete env config c t)
    unfolding complete
    complete-Keeps c t new h =
        let t1 : Turn T W = record t { empty_retries = 0 } in
        let es =
          assistant_entry (stored_content c) c.calls config.agent_name
          ∷ map (synthetic "" role_user) c.followups in
        let is_last = suc t.cycle_num == config.max_tool_cycles in
        let t2 = (write_all env es t1).1 in
        let kept2 : P (answer t2) = subst P (sym (write_all-answer es t1)) h in
        let kept3 = subst P (sym (run_tools-answer is_last c.calls t2)) kept2 in
        and_then-Keeps (write_all env es t1) _ (
          if-Keeps (nonempty c.calls) _ _
            (and_then-Keeps (run_tools env is_last c.calls t2) _ kept3)
            (λ none_called. finalize-Keeps c t2 none_called new kept2))

    abbrev Gives : Option (Ending × Turn T W) → Type 0
    Gives o = (s : String) (b : Bool) (t : Turn T W) → o ≡ some (final s b, t) → P (s, b)

    branch-Gives :
        (b : Bool) (x y : Option (Ending × Turn T W))
        → Gives x
        → Gives y
        → Gives (elim b [ false ↦ y | true ↦ x ])
    branch-Gives true x y hx hy = hx
    branch-Gives false x y hx hy = hy

    round-Gives :
        (k : Turn T W → Option (Ending × Turn T W)) (p : Progress T W)
        → Keeps p
        → ((t : Turn T W) → P (answer t) → Gives (k t))
        → Gives (elim p [ ended why t ↦ some (why, t) | going t ↦ k t ])
    round-Gives k (going t) h go s b t' same = go t h s b t' same
    round-Gives k (ended why t) h go s b t' same =
        let ending : why ≡ final s b = ap (λ r. r.0) (some-injective _ _ same) in
        subst (λ (e : Ending). Keeps (ended e t)) ending h

    module _ (each : (ctx : Context T) (w : W) → Finalizes (env.infer ctx w).0) where
      infer_round-Keeps : (t : Turn T W) → P (answer t) → Keeps (infer_round env config t)
      unfolding infer_round
      infer_round-Keeps t h =
          let (c, w) = env.infer t.ctx t.world in
          let t1 : Turn T W = record t { world = w; inferences = suc t.inferences } in
          let is_empty : Bool = not (nonempty c.calls) && env.strip c.text == "" in
          error-Keeps c.error _ _ (
            if-Keeps is_empty _ _
              (if-Keeps (ltb t.empty_retries config.max_empty_retries) _ _ h (λ b. tt))
              (λ b. complete-Keeps c t1 (each t.ctx t.world) h))

      round-Keeps : (t : Turn T W) → P (answer t) → Keeps (round env config t)
      unfolding round
      round-Keeps t h =
          let (abort, w) = env.abort_set t.world in
          let t1 : Turn T W = record t { world = w } in
          let kept = subst P (sym (drain_inbox-answer t1)) h in
          if-Keeps abort _ _ tt (λ b.
            and_then-Keeps (drain_inbox env t1).1 _
              (infer_round-Keeps (drain_inbox env t1).1.1 kept))

      run_loop-Gives : (fuel : ℕ) (t : Turn T W) → P (answer t) → Gives (run_loop env fuel config t)
      unfolding run_loop answered
      run_loop-Gives zero t h s b t' run = ground arith
      run_loop-Gives (suc fuel) t h s b t' run =
          branch-Gives (ltb t.cycle_num config.max_tool_cycles) _ _
            (round-Gives (run_loop env fuel config) (round env config t) (round-Keeps t h)
              (run_loop-Gives fuel))
            (λ s' b' t1 same. subst P (ap (answered t) (some-injective _ _ same)) h) s b t' run

  taken :
      (b : Bool) (x y : Option (Ending × Turn T W)) → b ≡ true → x ≡ elim b [ false ↦ y | true ↦ x ]
  taken true x y h = refl
  taken false x y h = ground arith

  -- The turn as the model is asked in its next round: after the abort check and the drain.
  abbrev pub asked : Turn T W → Turn T W
  asked t = (drain_inbox env (record t { world = (env.abort_set t.world).1 })).1.1

  -- A completion without calls, whose text is the token for no reply.
  abbrev pub IsDeclined : Config → Completion → Type 0
  IsDeclined config c = (nonempty c.calls ≡ false) × (env.strip c.text ≡ config.no_reply_token)

  module _ (config : Config) where
    -- The flag is set when the loop goes on or ends with a text.
    abbrev Flagged : Progress T W → Type 0
    Flagged = Keeps config (λ a. a.1 ≡ true)

    else-Flagged :
        (b : Bool) (p q : Progress T W) → b ≡ false → Flagged q → Flagged (if b then p else q)
    else-Flagged true p q h hq = ground arith
    else-Flagged false p q h hq = hq

    finalize_declined :
        (c : Completion) (t : Turn T W)
        → env.strip c.text ≡ config.no_reply_token
        → Flagged (finalize env config c t)
    unfolding finalize
    finalize_declined c t token =
        let t1 : Turn T W = record t {
          final_text = if env.strip c.text == config.no_reply_token then "" else c.text;
          no_reply = env.strip c.text == config.no_reply_token || t.no_reply;
        } in
        let drained = drain_inbox env t1 in
        let kept : drained.1.1.no_reply ≡ true =
          ap (λ a. a.1) (drain_inbox-answer t1) ∙ ground arith in
        and_then-Keeps config (λ a. a.1 ≡ true) drained.1 _
          (if-Keeps config (λ a. a.1 ≡ true) drained.0 _ _ kept (λ b. kept))

    complete_declined :
        (c : Completion) (t : Turn T W) → IsDeclined config c → Flagged (complete env config c t)
    unfolding complete
    complete_declined c t (none_called, token) =
        let stored = assistant_entry (stored_content c) c.calls config.agent_name in
        let follow = map (synthetic "" role_user) c.followups in
        let wrote = write_all env (stored ∷ follow) (record t { empty_retries = 0 }) in
        let ending : Flagged (finalize env config c wrote.1) = finalize_declined c wrote.1 token in
        and_then-Keeps config (λ a. a.1 ≡ true) wrote _
          (else-Flagged (nonempty c.calls) _ _ none_called ending)

    infer_round_declined :
        (t : Turn T W)
        → (config.no_reply_token == "") ≡ false
        → IsDeclined config (env.infer t.ctx t.world).0
        → Flagged (infer_round env config t)
    unfolding infer_round
    infer_round_declined t full declined =
        let (c, w) = env.infer t.ctx t.world in
        let t1 : Turn T W = record t { world = w; inferences = suc t.inferences } in
        let ending : Flagged (complete env config c t1) = complete_declined c t1 declined in
        let said : (not (nonempty c.calls) && env.strip c.text == "") ≡ false =
          ap (λ text. not (nonempty c.calls) && text == "") declined.1 ∙ ground arith in
        error-Keeps config (λ a. a.1 ≡ true) c.error _ _ (else-Flagged _ _ _ said ending)

    round_declined :
        (t : Turn T W)
        → (config.no_reply_token == "") ≡ false
        → IsDeclined config (env.infer (asked t).ctx (asked t).world).0
        → Flagged (round env config t)
    unfolding round
    round_declined t full declined =
        let (abort, w) = env.abort_set t.world in
        let t1 : Turn T W = record t { world = w } in
        if-Keeps config (λ a. a.1 ≡ true) abort _ _ tt
          (λ b.
            and_then-Keeps config (λ a. a.1 ≡ true) (drain_inbox env t1).1 _
              (infer_round_declined (asked t) full declined))

  -- Where the loop begins a round, and the completion that the model then gives has no calls and a
  -- text that is, stripped, the token for no reply, which is not empty: if the loop ends with a
  -- final text, it is suppressed, whatever the inbox and the model say afterwards.
  pub run_loop-suppressed :
      (config : Config) (fuel : ℕ) (t t' : Turn T W) (s : String) (b : Bool)
      → (config.no_reply_token == "") ≡ false
      → ltb t.cycle_num config.max_tool_cycles ≡ true
      → IsDeclined config (env.infer (asked t).ctx (asked t).world).0
      → run_loop env fuel config t ≡ some (final s b, t')
      → b ≡ true
  unfolding run_loop
  run_loop-suppressed config zero t t' s b full more declined run = ground arith
  run_loop-suppressed config (suc fuel) t t' s b full more declined run =
      let stays : (u : Turn T W)
          → u.no_reply ≡ true
          → (s : String) (b : Bool) (t' : Turn T W)
          → run_loop env fuel config u ≡ some (final s b, t')
          → b ≡ true =
        λ u.
          run_loop-Gives config (λ a. a.1 ≡ true) (λ ctx w. inr (λ a kept. ground arith)) fuel u in
      round-Gives config (λ a. a.1 ≡ true) (run_loop env fuel config) (round env config t)
        (round_declined config t full declined) stays s b t'
        (taken (ltb t.cycle_num config.max_tool_cycles) _ _ more ∙ run)

  -- Where every completion calls a tool, a turn that comes to its end has the empty text: the
  -- results that ask for a summary are its last entries, and no inference follows them.
  pub run_loop-silent :
      (config : Config) (fuel : ℕ) (ctx : Context T) (w : W) (t : Turn T W) (s : String) (b : Bool)
      → ((ctx : Context T) (w : W) → nonempty (env.infer ctx w).0.calls ≡ true)
      → run_loop env fuel config (first_turn ctx w) ≡ some (final s b, t)
      → s ≡ ""
  unfolding first_turn
  run_loop-silent config fuel ctx w t s b calls run =
      run_loop-Gives config (λ a. a.0 ≡ "") (λ c v. inl (calls c v)) fuel (first_turn ctx w) refl s
        b t run
