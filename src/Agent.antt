-- ===== src/Agent.antt =====
-- The generation loop of `AgentCycle.run` in TinyCTX/agent.py, over a Context and its database. What
-- the loop awaits, the model with its tools and hooks, the execution of a tool and the inbox, is the
-- environment. That it ends is in Agent/Rounds, what it leaves behind in Agent/Limit.
pub mod Rounds
pub mod Limit
use Prim.Native.String
use tiny_ctx.Base.{
  String, ℕ, zero, suc, Bool, true, false, not, ◌&&◌, ◌||◌, List, [], ◌∷◌, ◌++◌, Option, none, some,
  ◌==◌, string_eq, nat_eq, if◌then◌else◌, ltb, nonempty, map,
}
use tiny_ctx.Db.{ConversationDb, Outcome, returned, raised, DbError}
use tiny_ctx.Context.{CallDict, HistoryEntry, synthetic, role_user, role_assistant, role_tool}
use tiny_ctx.Context.Dialogue.{Codec, Context, ToolResult, tool_entry, add_entry}
use tiny_ctx.Runtime.{Exogenous}

-- What one inference answers, none for no error or an empty one, with the follow-ups that the post_completion hooks queue.
pub record Completion : Type 0 where
  pub error : Option String
  pub text : String
  pub thinking : String
  pub calls : List CallDict
  pub followups : List String

-- The world that the loop asks: each answer changes it.
pub record Environment (T W : Type 0) : Type 0 where
  pub abort_set : W → Bool × W
  -- all that `inbox.get_nowait()` gives until the inbox is empty
  pub inbox : W → List Exogenous × W
  -- the async hooks, the tool definitions, `assemble`, the stream and the hooks on its completion
  pub infer : Context T → W → Completion × W
  pub execute : CallDict → W → ToolResult × W
  -- what the uuid module and the clock answer to one `add_node`
  pub supply : W → (String × ℕ) × W
  pub strip : String → String
  pub codec : Codec
  pub no_flags : T

pub record Config : Type 0 where
  pub max_tool_cycles : ℕ
  pub max_empty_retries : ℕ
  pub error_introspection : Bool
  pub agent_name : Option String
  pub no_reply_token : String

-- The state of a turn. `inferences` counts the calls of the model.
pub record Turn (T W : Type 0) : Type 0 where
  pub ctx : Context T
  pub world : W
  pub cycle_num : ℕ
  pub empty_retries : ℕ
  pub final_text : String
  pub no_reply : Bool
  pub inferences : ℕ

-- How a turn ends: an `AgentError`, the final text with whether it is suppressed, or an exception of
-- the database.
pub data Ending : Type 0 where
  was_aborted no_output : Ending
  llm_error : String → Ending
  final : String → Bool → Ending
  crashed : DbError → Ending

pub data Progress (T W : Type 0) : Type 0 where
  going : Turn T W → Progress T W
  ended : Ending → Turn T W → Progress T W

-- `HistoryEntry.assistant(...)`
unfoldable pub assistant_entry : String → List CallDict → Option String → HistoryEntry
assistant_entry content calls author =
    let bare = synthetic "" role_assistant content in
    record bare { tool_calls = calls; author_id = author }

-- `stored_content`
unfoldable pub stored_content : Completion → String
stored_content c =
    if c.thinking == ""
    then c.text
    else String.◌++◌ "<think>" (String.◌++◌ c.thinking (String.◌++◌ "</think>" c.text))

-- The result that the last cycle puts in the place of a tool's.
unfoldable pub limit_reached : ToolResult → ToolResult
limit_reached result = record {
  call_id = result.call_id;
  tool_name = result.tool_name;
  output = "[Tool Limit Reached] Summarize now.";
  is_error = true;
  image = none;
}

unfoldable pub exogenous_entries : List Exogenous → List HistoryEntry
exogenous_entries [] = []
exogenous_entries (x ∷ xs) = synthetic "" x.role x.content ∷ exogenous_entries xs

-- An error's text for the bridge and for the dialogue.
unfoldable pub llm_error_text : String → String
llm_error_text error = String.◌++◌ "[LLM error: " (String.◌++◌ error "]")

module _ {T W : Type 0} where
  -- What follows where nothing was raised.
  unfoldable pub and_then : Outcome Unit × Turn T W → (Turn T W → Progress T W) → Progress T W
  and_then (raised why, t) k = ended (crashed why) t
  and_then (returned _, t) k = k t

module _ {T W : Type 0} (env : Environment T W) where
  -- `self.context.add(entry)`
  unfoldable pub write : HistoryEntry → Turn T W → Outcome HistoryEntry × Turn T W
  write e t =
      let ((node_id, now), w) = env.supply t.world in
      let (outcome, ctx) = add_entry env.codec node_id now env.no_flags e t.ctx in
      (outcome, record t { ctx = ctx; world = w })

  -- Entries in a row, up to the first that raises.
  unfoldable pub write_all : List HistoryEntry → Turn T W → Outcome Unit × Turn T W
  write_all [] t = (returned tt, t)
  write_all (e ∷ es) t =
      let (outcome, t') = write e t in
      let rest = write_all es t' in
      elim outcome [ raised why ↦ (raised why, t') | returned _ ↦ rest ]

  -- `_record_error_introspection`, which keeps what it raises to itself.
  unfoldable pub record_error_introspection : Config → String → Turn T W → Turn T W
  record_error_introspection config message t =
      if config.error_introspection then (write (assistant_entry message [] none) t).1 else t

  -- The loop over the calls of a completion.
  unfoldable pub run_tools : Bool → List CallDict → Turn T W → Outcome Unit × Turn T W
  run_tools is_last [] t = (returned tt, t)
  run_tools is_last (call ∷ calls) t =
      let (result, w) = env.execute call t.world in
      let shown : ToolResult = if is_last then limit_reached result else result in
      let (outcome, t') = write (tool_entry shown) (record t { world = w }) in
      let rest = run_tools is_last calls t' in
      elim outcome [ raised why ↦ (raised why, t') | returned _ ↦ rest ]

  -- A drain point: the entries written, and whether there were any.
  unfoldable pub drain_inbox : Turn T W → Bool × (Outcome Unit × Turn T W)
  drain_inbox t =
      let (arrived, w) = env.inbox t.world in
      (nonempty arrived, write_all (exogenous_entries arrived) (record t { world = w }))

  -- A completion without calls: the final text, unless the inbox has something.
  unfoldable pub finalize : Config → Completion → Turn T W → Progress T W
  finalize config c t =
      let no_reply : Bool = env.strip c.text == config.no_reply_token in
      let t1 : Turn T W = record t {
        final_text = if no_reply then "" else c.text;
        no_reply = no_reply || t.no_reply;
      } in
      let (wrote, drained) = drain_inbox t1 in
      and_then drained (λ t2.
        if wrote
        then going (record t2 { cycle_num = suc t2.cycle_num })
        else ended (final t2.final_text t2.no_reply) t2)

  -- The rest of a round, from the completion on.
  unfoldable pub complete : Config → Completion → Turn T W → Progress T W
  complete config c t =
      let is_last = suc t.cycle_num == config.max_tool_cycles in
      let stored = assistant_entry (stored_content c) c.calls config.agent_name in
      let follow = map (synthetic "" role_user) c.followups in
      let t1 : Turn T W = record t { empty_retries = 0 } in
      and_then (write_all (stored ∷ follow) t1) (λ t2.
        if nonempty c.calls
        then and_then (run_tools is_last c.calls t2)
            (λ t3. going (record t3 { cycle_num = suc t3.cycle_num }))
        else finalize config c t2)

  -- One inference and what it leads to.
  unfoldable pub infer_round : Config → Turn T W → Progress T W
  infer_round config t =
      let (c, w) = env.infer t.ctx t.world in
      let t1 : Turn T W = record t { world = w; inferences = suc t.inferences } in
      let is_empty : Bool = not (nonempty c.calls) && env.strip c.text == "" in
      elim c.error [
        | some error ↦
            ended (llm_error error) (record_error_introspection config (llm_error_text error) t1)
        | none ↦
            if is_empty
            then if ltb t1.empty_retries config.max_empty_retries
              then going (record t1 { empty_retries = suc t1.empty_retries })
              else ended no_output (record_error_introspection config "[no output from model]" t1)
            else complete config c t1
      ]

  -- The body of the loop.
  unfoldable pub round : Config → Turn T W → Progress T W
  round config t =
      let (abort, w) = env.abort_set t.world in
      let t1 : Turn T W = record t { world = w } in
      if abort
      then ended was_aborted (record_error_introspection config "[aborted]" t1)
      else and_then (drain_inbox t1).1 (infer_round config)

  -- The loop, on fuel: none where the fuel ends first.
  unfoldable pub run_loop : ℕ → Config → Turn T W → Option (Ending × Turn T W)
  run_loop zero config t = none
  run_loop (suc fuel) config t = elim (ltb t.cycle_num config.max_tool_cycles) [
    | false ↦ some (final t.final_text t.no_reply, t)
    | true ↦ elim (round config t) [
      | ended e t' ↦ some (e, t')
      | going t' ↦ run_loop fuel config t'
    ]
  ]

-- The state before the loop.
unfoldable pub first_turn : {T W : Type 0} → Context T → W → Turn T W
first_turn ctx w = record {
  ctx = ctx;
  world = w;
  cycle_num = 0;
  empty_retries = 0;
  final_text = "";
  no_reply = false;
  inferences = 0;
}
