-- ===== src/Tests/Agent.antt =====
-- Turns of TinyCTX/agent.py with a model that answers, and with one that only calls a tool.
use tiny_ctx.Base.{
  String, ℕ, suc, ◌≡◌, ◌≤◌, refl, Bool, true, false, [], ◌∷◌, Option, none, some, ◌==◌, string_eq,
  nat_eq, if◌then◌else◌, contains,
}
use tiny_ctx.Db.{Node, find, add_node, insert_node, valid_roles}
use tiny_ctx.Context.{CallDict, json_object}
use tiny_ctx.Context.Dialogue.{Codec, Context, tool_entry, add_entry, content_column, calls_column}
use tiny_ctx.Agent.{
  Completion, Environment, Config, Turn, Ending, final, write, write_all, and_then, run_tools,
  drain_inbox, finalize, complete, infer_round, round, run_loop, first_turn, exogenous_entries,
  stored_content, assistant_entry, limit_reached,
}
use tiny_ctx.Agent.Rounds.{run_loop-ends}
use tiny_ctx.Agent.Limit.{run_loop-suppressed, run_loop-silent}

abbrev row : String → Option String → String → String → Node ℕ
row id parent role content = record {
  id = id;
  parent_id = parent;
  role = role;
  content = content;
  created_at = 0;
  tool_calls = none;
  tool_call_id = none;
  author_id = none;
  attachment_paths = none;
  state_delta = none;
  flags = 0;
}

abbrev session : Context ℕ
session = record {
  db = record {
    root_id = some "root";
    nodes = row "q" (some "root") "user" "hi" ∷ row "root" none "system" "" ∷ [];
  };
  tail_node_id = "q";
  dialogue = [];
}

abbrev codec : Codec
codec = record {
  dumps_blocks = λ bs. "[]";
  load_blocks = λ s. some [];
  dumps_calls = λ cs. "[{}]";
  load_calls = λ s. some [];
}

abbrev call : CallDict
call = record { id = "c1"; name = "find"; arguments = json_object "{}" }

abbrev says : Completion
says = record { error = none; text = "yes"; thinking = ""; calls = []; followups = [] }

abbrev calls_tool : Completion
calls_tool = record says { calls = call ∷ [] }

-- The world counts its answers, and gives the first two nodes their ids.
abbrev answering : Completion → Environment ℕ ℕ
answering c = record {
  abort_set = λ w. (false, w);
  inbox = λ w. ([], w);
  infer = λ ctx w. (c, suc w);
  execute = λ k w. (
    record { call_id = k.id; tool_name = k.name; output = "here"; is_error = false; image = none },
    w,
  );
  supply = λ w. ((if w == 1 then "a" else "b", w), suc w);
  strip = λ s. s;
  codec = codec;
  no_flags = 0;
}

abbrev config : Config
config = record {
  max_tool_cycles = 1;
  max_empty_retries = 2;
  error_introspection = true;
  agent_name = some "agent";
  no_reply_token = "NO_REPLY";
}

run_loop-ends_example :
    (why : Ending) × ((t : Turn ℕ ℕ) × ((run_loop (answering says) 4 config (first_turn session 0)
          ≡ some (why, t))
        × (t.inferences ≤ 3)))
run_loop-ends_example = run_loop-ends (answering says) config session 0

abbrev declines : Completion
declines = record says { text = "NO_REPLY" }

-- The model first declines; a note then arrives, and the model answers it.
abbrev noted : Environment ℕ ℕ
noted = record (answering says) {
  inbox = λ w.
      (if w == 2 then record { kind = "nudge"; role = "user"; content = "and?" } ∷ [] else [], w);
  infer = λ ctx w. ((if w == 0 then declines else says), suc w);
  supply = λ w. ((if w == 1 then "a" else if w == 2 then "b" else "c", w), suc w);
}

abbrev two_cycles : Config
two_cycles = record config { max_tool_cycles = 2 }

abbrev noted_turn : Turn ℕ ℕ
noted_turn = elim (run_loop noted 4 two_cycles (first_turn session 0)) [
  | some (why, t) ↦ t
  | none ↦ first_turn session 0
]

noted_run : run_loop noted 4 two_cycles (first_turn session 0) ≡ some (final "yes" true, noted_turn)
unfolding run_loop round and_then drain_inbox write_all write exogenous_entries infer_round complete
    finalize stored_content assistant_entry add_entry add_node insert_node find valid_roles contains
    string_eq nat_eq content_column calls_column first_turn
noted_run = refl

abbrev suppressed : Bool
suppressed = true

run_loop-suppressed_example : suppressed ≡ true
unfolding first_turn drain_inbox write_all exogenous_entries string_eq nat_eq
run_loop-suppressed_example =
    run_loop-suppressed noted two_cycles 4 (first_turn session 0) noted_turn "yes" suppressed refl
      refl (refl, refl) noted_run

abbrev called : Turn ℕ ℕ
called =
    let t : Turn ℕ ℕ = record (first_turn session 0) { world = 1; inferences = 1 } in
    let t1 =
      (write (answering calls_tool) (assistant_entry "yes" (call ∷ []) (some "agent")) t).1 in
    let t2 = (run_tools (answering calls_tool) true (call ∷ []) t1).1 in record t2 { cycle_num = 1 }

called_run :
    run_loop (answering calls_tool) 4 config (first_turn session 0) ≡ some (final "" false, called)
unfolding run_loop round and_then drain_inbox write_all write exogenous_entries infer_round complete
    finalize stored_content assistant_entry add_entry add_node insert_node find valid_roles contains
    string_eq nat_eq content_column calls_column run_tools tool_entry limit_reached first_turn
called_run = refl

abbrev no_text : String
no_text = ""

run_loop-silent_example : no_text ≡ ""
run_loop-silent_example =
    run_loop-silent (answering calls_tool) config 4 session 0 called no_text false (λ ctx w. refl)
      called_run
