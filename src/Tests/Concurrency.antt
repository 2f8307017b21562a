-- ===== src/Tests/Concurrency.antt =====
-- A fork that a running cycle spawns: TinyCTX/modules/concurrency.
use tiny_ctx.Base.{String, ℕ, ◌≡◌, refl, [], ◌∷◌, ◌++◌, none, some, string_eq, contains, keep}
use tiny_ctx.Base.Dict.{lookup}
use tiny_ctx.Db.{Node, returned, find, add_node, insert_node, valid_roles}
use tiny_ctx.Runtime.{
  Run, Runtime, Supply, running, is_running, runs_in_session, start_run, nudge, new_run, spawn_task,
  or_none,
}
use tiny_ctx.Concurrency.{
  peers, ok, ok_run, error, spawn_fork, nudge_fork, running_forks_provider, roster_lines,
}
use tiny_ctx.Concurrency.Roster.{spawn_fork-peers}

abbrev same : String → String
same s = s

abbrev asker : Run
asker = record {
  id = "r1";
  session_key = "s";
  intent = "hi";
  root_node_id = "q";
  status = running;
  inbox = [];
  head = none;
}

abbrev question : Node ℕ
question = record {
  id = "q";
  parent_id = none;
  role = "user";
  content = "hi";
  created_at = 0;
  tool_calls = none;
  tool_call_id = none;
  author_id = none;
  attachment_paths = none;
  state_delta = none;
  flags = 0;
}

abbrev busy : Runtime ℕ
busy = record {
  db = record { root_id = some "q"; nodes = question ∷ [] };
  runs = ("r1", asker) ∷ [];
  settled = [];
  abort_events = [];
}

abbrev supply : Supply ℕ
supply = record { node_id = "n"; run_id = "r2"; now = 5; no_flags = 0 }

spawn_fork_empty :
    (spawn_fork same supply asker "q" "alice" "" busy).0
    ≡ returned (error "spawn_fork requires a non-empty prompt.")
unfolding spawn_fork string_eq
spawn_fork_empty = refl

running_forks_provider_alone : running_forks_provider same same (some asker) busy.runs ≡ none
unfolding running_forks_provider roster_lines peers keep runs_in_session is_running string_eq
running_forks_provider_alone = refl

-- A run may name itself.
nudge_fork_self : (nudge_fork same same asker "r1" "go on" busy).0 ≡ ok
unfolding nudge_fork nudge lookup is_running string_eq
nudge_fork_self = refl

is_fresh : lookup supply.run_id busy.runs ≡ none
unfolding lookup string_eq
is_fresh = refl

spawn_fork_on_busy :
    (spawn_fork same supply asker "q" "alice" "look" busy).0 ≡ returned (ok_run "r2")
unfolding spawn_fork start_run new_run spawn_task add_node insert_node valid_roles contains find
    or_none string_eq
spawn_fork_on_busy = refl

abbrev spawned : Runtime ℕ
spawned = (spawn_fork same supply asker "q" "alice" "look" busy).1

spawn_fork-peers_example :
    (r : Run) × ((r.id ≡ "r2")
      × ((peers asker spawned.runs ≡ peers asker busy.runs ++ (r ∷ []))
          × ((nudge_fork same same asker "r2" "hurry" spawned).0 ≡ ok)))
unfolding string_eq
spawn_fork-peers_example =
    spawn_fork-peers same same supply asker asker "q" "alice" "look" "hurry" "r2" busy is_fresh refl
      refl refl spawn_fork_on_busy
