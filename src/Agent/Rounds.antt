-- ===== src/Agent/Rounds.antt =====
-- The loop of `AgentCycle.run` in TinyCTX/agent.py ends: each round uses up a tool cycle or an empty
-- retry.
use Prim.Native.Nat.{◌*◌}
use native.Mathlib.Numerals.{unary_clauses}
use tiny_ctx.Base.{
  String, ℕ, zero, suc, ◌+◌, ◌≤◌, ◌<◌, ◌≡◌, ◌⊎◌, refl, ap, ◌∙◌, Bool, true, false, not, ◌&&◌, ◌||◌,
  List, [], ◌∷◌, Option, none, some, ◌==◌, string_eq, nat_eq, if◌then◌else◌, ltb, nonempty, map,
  arith, inl, inr,
}
use tiny_ctx.Db.{Outcome, returned, raised}
use tiny_ctx.Context.{CallDict, HistoryEntry, synthetic, role_user}
use tiny_ctx.Context.Dialogue.{Context, ToolResult, tool_entry}
use tiny_ctx.Agent.{
  Completion, Environment, Config, Turn, Ending, final, Progress, going, ended, write, write_all,
  and_then, record_error_introspection, run_tools, drain_inbox, finalize, complete, infer_round,
  round, run_loop, first_turn, llm_error_text, limit_reached, exogenous_entries, stored_content,
  assistant_entry,
}

-- The counters of a turn.
abbrev pub counters : {T W : Type 0} → Turn T W → ℕ × (ℕ × ℕ)
counters t = (t.cycle_num, (t.empty_retries, t.inferences))

module _ {T W : Type 0} (env : Environment T W) where
  write_all-counters :
      (es : List HistoryEntry) (t : Turn T W) → counters (write_all env es t).1 ≡ counters t
  unfolding write_all write
  write_all-counters [] t = refl
  write_all-counters (e ∷ es) t = ground (arith, write_all-counters es (write env e t).1)

  run_tools-counters :
      (is_last : Bool) (calls : List CallDict) (t : Turn T W)
      → counters (run_tools env is_last calls t).1 ≡ counters t
  unfolding run_tools write
  run_tools-counters is_last [] t = refl
  run_tools-counters is_last (call ∷ calls) t =
      let (result, w) = env.execute call t.world in
      let shown : ToolResult = if is_last then limit_reached result else result in
      let t' = (write env (tool_entry shown) (record t { world = w })).1 in
      let rest = run_tools-counters is_last calls t' in ground (arith, rest)

  introspection-counters :
      (config : Config) (message : String) (t : Turn T W)
      → counters (record_error_introspection env config message t) ≡ counters t
  unfolding record_error_introspection write
  introspection-counters config message t = ground arith

  drain_inbox-counters : (t : Turn T W) → counters (drain_inbox env t).1.1 ≡ counters t
  unfolding drain_inbox
  drain_inbox-counters t =
      write_all-counters (exogenous_entries (env.inbox t.world).0)
        (record t { world = (env.inbox t.world).1 })

  -- A round from the counters n, e and i that goes on has asked the model once, and used up a cycle
  -- or an empty retry.
  abbrev Advances : Config → ℕ → ℕ → ℕ → Progress T W → Type 0
  Advances config n e i (ended why t) = t.inferences ≤ suc i
  Advances config n e i (going t) =
      (t.inferences ≡ suc i)
      × (((t.cycle_num ≡ suc n) × (t.empty_retries ≡ 0))
          ⊎ ((t.cycle_num ≡ n) × ((t.empty_retries ≡ suc e) × (e < config.max_empty_retries))))

  module _ (config : Config) (n e i : ℕ) where
    and_then-Advances :
        (r : Outcome Unit × Turn T W) (k : Turn T W → Progress T W)
        → r.1.inferences ≤ suc i
        → Advances config n e i (k r.1)
        → Advances config n e i (and_then r k)
    unfolding and_then
    and_then-Advances (raised why, t) k h all = h
    and_then-Advances (returned _, t) k h all = all

    if-Advances :
        (b : Bool) (p q : Progress T W)
        → (b ≡ true → Advances config n e i p)
        → Advances config n e i q
        → Advances config n e i (if b then p else q)
    if-Advances true p q hp hq = hp refl
    if-Advances false p q hp hq = hq

    finalize-Advances :
        (c : Completion) (t : Turn T W)
        → counters t ≡ (n, (0, suc i))
        → Advances config n e i (finalize env config c t)
    unfolding finalize
    finalize-Advances c t h =
        let no_reply : Bool = env.strip c.text == config.no_reply_token in
        let t1 : Turn T W = record t {
          final_text = if no_reply then "" else c.text;
          no_reply = no_reply || t.no_reply;
        } in
        let drained = drain_inbox env t1 in
        let same : counters drained.1.1 ≡ (n, (0, suc i)) = drain_inbox-counters t1 ∙ h in
        let cycle : drained.1.1.cycle_num ≡ n = ap (λ k. k.0) same in
        let retries : drained.1.1.empty_retries ≡ 0 = ap (λ k. k.1.0) same in
        let asked : drained.1.1.inferences ≡ suc i = ap (λ k. k.1.1) same in
        and_then-Advances drained.1 _ (omega arith)
          (if-Advances drained.0 _ _ (λ b. (asked, inl (ap suc cycle, retries))) (omega arith))

    complete-Advances :
        (c : Completion) (t : Turn T W)
        → t.cycle_num ≡ n
        → t.inferences ≡ suc i
        → Advances config n e i (complete env config c t)
    unfolding complete
    complete-Advances c t h j =
        let t1 : Turn T W = record t { empty_retries = 0 } in
        let es =
          assistant_entry (stored_content c) c.calls config.agent_name
          ∷ map (synthetic "" role_user) c.followups in
        let is_last = suc t.cycle_num == config.max_tool_cycles in
        let t2 = (write_all env es t1).1 in
        let start : counters t1 ≡ (n, (0, suc i)) = rw (h, j) refl in
        let same : counters t2 ≡ (n, (0, suc i)) = write_all-counters es t1 ∙ start in
        let asked : t2.inferences ≡ suc i = ap (λ k. k.1.1) same in
        let same3 = run_tools-counters is_last c.calls t2 ∙ same in
        let t3 = (run_tools env is_last c.calls t2).1 in
        let cycle3 : t3.cycle_num ≡ n = ap (λ k. k.0) same3 in
        let retries3 : t3.empty_retries ≡ 0 = ap (λ k. k.1.0) same3 in
        let asked3 : t3.inferences ≡ suc i = ap (λ k. k.1.1) same3 in
        and_then-Advances (write_all env es t1) _ (omega arith) (
          if-Advances (nonempty c.calls) _ _
            (λ b.
              and_then-Advances (run_tools env is_last c.calls t2) _ (omega arith)
                (asked3, inl (ap suc cycle3, retries3)))
            (finalize-Advances c t2 same))

    error-Advances :
        (o : Option String) (f : String → Progress T W) (p : Progress T W)
        → ((s : String) → Advances config n e i (f s))
        → Advances config n e i p
        → Advances config n e i (elim o [ some s ↦ f s | none ↦ p ])
    error-Advances none f p hf hp = hp
    error-Advances (some s) f p hf hp = hf s

    infer_round-Advances :
        (t : Turn T W) → counters t ≡ (n, (e, i)) → Advances config n e i (infer_round env config t)
    unfolding infer_round
    infer_round-Advances t h =
        let (c, w) = env.infer t.ctx t.world in
        let t1 : Turn T W = record t { world = w; inferences = suc t.inferences } in
        let is_empty : Bool = not (nonempty c.calls) && env.strip c.text == "" in
        let cycle : t.cycle_num ≡ n = ap (λ k. k.0) h in
        let retries : t.empty_retries ≡ e = ap (λ k. k.1.0) h in
        let asked : suc t.inferences ≡ suc i = ap (λ k. suc k.1.1) h in
        let told : (message : String)
            → (record_error_introspection env config message t1).inferences ≤ suc i =
          λ message.
            let same = ap (λ k. k.1.1) (introspection-counters config message t1) in omega arith in
        error-Advances c.error _ _ (λ s. told (llm_error_text s))
          (if-Advances is_empty _ _
            (λ b.
              if-Advances (ltb t.empty_retries config.max_empty_retries) _ _
                (λ again. (asked, inr (cycle, (ap suc retries, ground arith))))
                (told "[no output from model]"))
            (complete-Advances c t1 cycle asked))

    round-Advances :
        (t : Turn T W) → counters t ≡ (n, (e, i)) → Advances config n e i (round env config t)
    unfolding round
    round-Advances t h =
        let (abort, w) = env.abort_set t.world in
        let t1 : Turn T W = record t { world = w } in
        let same = introspection-counters config "[aborted]" t1 ∙ h in
        let asked = ap (λ k. k.1.1) same in
        let drained = drain_inbox-counters t1 ∙ h in
        let kept = ap (λ k. k.1.1) drained in
        if-Advances abort _ _ (λ b. omega arith)
          (and_then-Advances (drain_inbox env t1).1 _ (omega arith)
            (infer_round-Advances (drain_inbox env t1).1.1 drained))

-- The inferences that so many cycles can take.
abbrev pub most : Config → ℕ → ℕ
most config zero = 0
most config (suc cycles) = most config cycles + suc config.max_empty_retries

most_lem :
    (config : Config) (cycles : ℕ) → most config cycles ≡ cycles * suc config.max_empty_retries
most_lem config zero = omega arith
most_lem config (suc cycles) = rw (most_lem config cycles) (simp unary_clauses (omega arith))

module _ {T W : Type 0} (env : Environment T W) (config : Config) where
  -- The run gives a result within a number of inferences, less the retries already used.
  Ends : ℕ → ℕ → ℕ → Option (Ending × Turn T W) → Type 0
  Ends e i bound o =
      (why : Ending) × ((t : Turn T W) × ((o ≡ some (why, t)) × (t.inferences + e ≤ i + bound)))

  after_round :
      (n e i bound : ℕ) (k : Turn T W → Option (Ending × Turn T W)) (p : Progress T W)
      → Advances env config n e i p
      → suc e ≤ bound
      → ((t : Turn T W) → Advances env config n e i (going t) → Ends e i bound (k t))
      → Ends e i bound (elim p [ ended why t ↦ some (why, t) | going t ↦ k t ])
  unfolding Ends
  after_round n e i bound k (ended why t) h least go = (why, (t, (refl, omega arith)))
  after_round n e i bound k (going t) h least go = go t h

  branch-Ends :
      (e i bound : ℕ) (b : Bool) (x y : Option (Ending × Turn T W))
      → (b ≡ true → Ends e i bound x)
      → (b ≡ false → Ends e i bound y)
      → Ends e i bound (elim b [ false ↦ y | true ↦ x ])
  branch-Ends e i bound true x y hx hy = hx refl
  branch-Ends e i bound false x y hx hy = hy refl

  run_loop-Ends :
      (fuel left : ℕ) (t : Turn T W)
      → t.cycle_num + left ≡ config.max_tool_cycles
      → t.empty_retries ≤ config.max_empty_retries
      → t.empty_retries ≤ most config left
      → suc (most config left) ≤ fuel + t.empty_retries
      → 1 ≤ fuel
      → Ends t.empty_retries t.inferences (most config left) (run_loop env fuel config t)
  unfolding run_loop Ends
  run_loop-Ends zero left t cycles few rest enough some_fuel = ground arith
  run_loop-Ends (suc fuel) zero t cycles few rest enough some_fuel =
      branch-Ends t.empty_retries t.inferences 0 (ltb t.cycle_num config.max_tool_cycles) _ _
        (λ more. ground arith) (λ full. (final t.final_text t.no_reply, (t, (refl, omega arith))))
  run_loop-Ends (suc fuel) (suc left) t cycles few rest enough some_fuel =
      branch-Ends t.empty_retries t.inferences (most config (suc left))
        (ltb t.cycle_num config.max_tool_cycles) _ _
        (λ more.
          after_round t.cycle_num t.empty_retries t.inferences (most config (suc left))
            (run_loop env fuel config) (round env config t)
            (round-Advances env config t.cycle_num t.empty_retries t.inferences t refl)
            (omega arith)
            (λ t'. λ (asked, way). elim way [
              | inl (cycle, fresh) ↦
                  let (why, (end, (runs, few'))) =
                    run_loop-Ends fuel left t' (omega arith) (omega arith) (omega arith)
                      (omega arith) (omega arith) in
                  (why, (end, (runs, omega arith)))
              | inr (cycle, (again, less)) ↦
                  let (why, (end, (runs, few'))) =
                    run_loop-Ends fuel (suc left) t' (omega arith) (omega arith) (omega arith)
                      (omega arith) (omega arith) in
                  (why, (end, (runs, omega arith)))
            ]))
        (λ full. ground arith)

  -- A turn ends, whatever the model, the tools and the inbox answer, after at most
  -- `max_tool_cycles * (1 + max_empty_retries)` inferences.
  pub run_loop-ends :
      (ctx : Context T) (w : W)
      → (why : Ending) × ((t : Turn T W) × ((run_loop env
                (suc (config.max_tool_cycles * suc config.max_empty_retries))
                config
                (first_turn ctx w)
              ≡ some (why, t))
            × (t.inferences ≤ config.max_tool_cycles * suc config.max_empty_retries)))
  unfolding Ends first_turn
  run_loop-ends ctx w =
      let same = most_lem config config.max_tool_cycles in
      let (why, (t, (runs, few))) =
        run_loop-Ends (suc (config.max_tool_cycles * suc config.max_empty_retries))
          config.max_tool_cycles (first_turn ctx w) (omega arith) (omega arith) (omega arith)
          (omega arith) (omega arith) in
      (why, (t, (runs, omega arith)))
