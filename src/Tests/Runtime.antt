-- ===== src/Tests/Runtime.antt =====
-- A session of TinyCTX/runtime.py with a root, a question and messages of two users.
use Prim.Native.String
use mathlib.Core.Option
use tiny_ctx.Base.{
  every, ◌++◌, String, ℕ, ◌≡◌, ◌≤◌, ◌+◌, refl, Bool, true, false, [], ◌∷◌, Option, none, some, ◌==◌,
  string_eq, if◌then◌else◌, contains,
}
use tiny_ctx.Base.Dict.{lookup, insert, every_value}
use tiny_ctx.Db.{Node, returned, find, has_row, add_node, insert_node, valid_roles}
use tiny_ctx.Runtime.{
  Run, Runtime, Inbound, Supply, running, push, finish_run, effective_key, attach_point,
  set_default, new_run, spawn_task, or_none, author_column,
}
use tiny_ctx.Runtime.Digest.{render_digest, intent_of, count-render_digest}
use tiny_ctx.Runtime.Peers.{notice_of, finish_run-delivers, push-finish_run}
use tiny_ctx.Runtime.Forks.{Sending, is_raised, push_each, push-forks, push-stranded}
use tiny_ctx.Runtime.Coherent.{IsCoherent, IsFresh}
use tiny_ctx.Runtime.Reach.{Steps, stay, next, pushed, Steps-IsCoherent, Steps-accept}

abbrev row : String → Option String → String → String → Node ℕ
row id parent role content = record {
  id = id;
  parent_id = parent;
  role = role;
  content = content;
  created_at = 0;
  tool_calls = none;
  tool_call_id = none;
  author_id = none;
  attachment_paths = none;
  state_delta = none;
  flags = 0;
}

abbrev quiet : Runtime ℕ
quiet = record {
  db = record {
    root_id = some "root";
    nodes = row "q" (some "root") "user" "hi" ∷ row "root" none "system" "" ∷ [];
  };
  runs = [];
  settled = [];
  abort_events = [];
}

abbrev message : String → Bool → Inbound ℕ
message tail trigger = record {
  text = "and now?";
  content = "and now?";
  tail_node_id = tail;
  author = "alice";
  suppress_attribution = false;
  trigger = trigger;
  state_delta = none;
}

abbrev supply : String → String → Supply ℕ
supply node_id run_id = record { node_id = node_id; run_id = run_id; now = 5; no_flags = 0 }

abbrev channel : Option String
channel = some "group:1"

abbrev sentinel : String
sentinel = "none"

abbrev same : String → String
same s = s

quiet-IsCoherent : IsCoherent quiet
unfolding find every_value string_eq
quiet-IsCoherent = ((refl, (refl, (refl, (refl, tt)))), (refl, (refl, refl)))

abbrev first_supply : Supply ℕ
first_supply = supply "n" "r1"

abbrev second_supply : Supply ℕ
second_supply = supply "m" "r2"

abbrev asks : Inbound ℕ
asks = message "q" true

abbrev asked : Runtime ℕ
asked = (push sentinel first_supply channel none asks quiet).1

first-IsFresh : IsFresh first_supply.node_id quiet.db.nodes
unfolding find string_eq
first-IsFresh = (refl, refl)

tail_there : has_row asks.tail_node_id quiet.db.nodes ≡ true
unfolding find string_eq
tail_there = refl

ask-Steps : Steps same same sentinel quiet asked
ask-Steps = next stay (pushed first_supply channel none asks quiet first-IsFresh tail_there)

Steps-IsCoherent_example : IsCoherent asked
Steps-IsCoherent_example = Steps-IsCoherent same same sentinel ask-Steps quiet-IsCoherent

second-IsFresh : IsFresh second_supply.node_id asked.db.nodes
unfolding find string_eq push add_node insert_node valid_roles contains attach_point effective_key
    lookup author_column or_none spawn_task new_run
second-IsFresh = (refl, refl)

tail_still : has_row asks.tail_node_id asked.db.nodes ≡ true
unfolding find string_eq push add_node insert_node valid_roles contains attach_point effective_key
    lookup author_column or_none spawn_task new_run
tail_still = refl

Steps-accept_example :
    ((push sentinel second_supply channel none asks asked).0 ≡ returned second_supply.node_id)
    × ((n : Node ℕ) × ((find "m" (push sentinel second_supply channel none asks asked).1.db.nodes
            ≡ some n)
          × ((n.role ≡ "user")
              × ((n.content ≡ "and now?")
                  × ((above : String) × ((n.parent_id ≡ some above)
                        × (has_row above asked.db.nodes ≡ true)))))))
Steps-accept_example =
    Steps-accept same same sentinel ask-Steps quiet-IsCoherent second_supply channel none asks
      second-IsFresh tail_still

abbrev eight : String
eight = "r8"

abbrev nine : String
nine = "r9"

abbrev group : String
group = "group:1"

abbrev peer : String → Run
peer id = record {
  id = id;
  session_key = "group:1";
  intent = "look it up";
  root_node_id = "q";
  status = running;
  inbox = [];
  head = none;
}

abbrev busy : Runtime ℕ
busy = record quiet { runs = ("r8", peer "r8") ∷ ("r9", peer "r9") ∷ [] }

abbrev other_session : String
other_session = "group:2"

finish_run-delivers_example :
    (lookup "r8" (finish_run same same (peer "r8") "done" "q" busy).1.runs ≡ none)
    × (((peer nine).session_key ≡ group
          → running ≡ running
          → lookup "r9" (finish_run same same (peer "r8") "done" "q" busy).1.runs
            ≡ some (record (peer nine) {
              inbox =
                  []
                  ++ (record {
                    kind = "fork_finished";
                    role = "user";
                    content = render_digest same same "r8" "look it up" "done";
                  }
                      ∷ []);
            }))
        × ((((peer nine).session_key == group) ≡ false
              → lookup "r9" (finish_run same same (peer "r8") "done" "q" busy).1.runs
                ≡ some (peer nine))
            × ((¬ (running ≡ running)
                  → lookup "r9" (finish_run same same (peer "r8") "done" "q" busy).1.runs
                    ≡ some (peer nine))
                × ((lookup "group:1" (finish_run same same (peer "r8") "done" "q" busy).1.settled
                      ≡ some "q")
                    × (lookup "group:2" (finish_run same same (peer "r8") "done" "q" busy).1.settled
                        ≡ lookup "group:2" busy.settled)))))
unfolding string_eq lookup
finish_run-delivers_example =
    finish_run-delivers same same (peer "r8") "done" "q" busy (peer nine) other_session refl refl
      refl

same_session : effective_key channel none asks.tail_node_id ≡ (peer "r8").session_key
unfolding effective_key string_eq
same_session = refl

other_run : (first_supply.run_id == (peer "r8").id) ≡ false
unfolding string_eq
other_run = refl

push-finish_run_example :
    ((push sentinel first_supply channel none asks busy).0 ≡ returned "n"
      → Option.map
          (λ run. run.inbox)
          (lookup "r1"
            (finish_run same same
              (peer "r8")
              "done"
              "q"
              (push sentinel first_supply channel none asks busy).1).1.runs)
        ≡ some (notice_of same same (peer "r8") "done" ∷ []))
    × ((push sentinel first_supply channel none asks
            (finish_run same same (peer "r8") "done" "q" busy).1).0
          ≡ returned "n"
        → Option.map
            (λ node. node.parent_id)
            (find "n"
              (push sentinel first_supply channel none asks
                (finish_run same same (peer "r8") "done" "q" busy).1).1.db.nodes)
          ≡ some (some "q"))
push-finish_run_example =
    push-finish_run same same sentinel first_supply channel none asks (peer "r8") "done" "q" "n"
      busy refl same_session other_run

first_accepted : (push sentinel first_supply channel none asks quiet).0 ≡ returned "n"
unfolding find string_eq push add_node insert_node valid_roles contains attach_point effective_key
    lookup author_column or_none spawn_task new_run
first_accepted = refl

second_accepted : (push sentinel second_supply channel none asks asked).0 ≡ returned "m"
unfolding find string_eq push add_node insert_node valid_roles contains attach_point effective_key
    lookup author_column or_none spawn_task new_run set_default insert
second_accepted = refl

push-forks_example :
    Option.map
      (λ node. node.parent_id)
      (find "m" (push sentinel second_supply channel none asks asked).1.db.nodes)
    ≡ (if asks.trigger
        then Option.map (λ node. node.parent_id) (find "n" asked.db.nodes)
        else some (some "n"))
push-forks_example =
    push-forks sentinel first_supply second_supply channel channel none none asks asks quiet "n" "m"
      refl first_accepted second_accepted

abbrev lost : Inbound ℕ
lost = message "gone" true

no_point : lookup (effective_key channel none lost.tail_node_id) quiet.settled ≡ none
unfolding lookup
no_point = refl

no_tail : has_row lost.tail_node_id quiet.db.nodes ≡ false
unfolding find string_eq
no_tail = refl

abbrev lost_push : Sending ℕ
lost_push = record { supply = first_supply; session_key = channel; parent = none; msg = lost }

abbrev good_push : Sending ℕ
good_push = record { supply = second_supply; session_key = channel; parent = none; msg = asks }

push-stranded_example :
    every is_raised (push_each sentinel (lost_push ∷ good_push ∷ good_push ∷ []) quiet) ≡ true
unfolding every effective_key string_eq
push-stranded_example =
    push-stranded sentinel "group:1" lost_push (good_push ∷ good_push ∷ []) quiet no_point no_tail
      refl

count-render_digest_example :
    String.count (render_digest same same "0123456789" (intent_of "look it up") "it is here")
    ≤ 200 + 2050
count-render_digest_example =
    count-render_digest same same 200 (λ s short. short) "0123456789" "look it up" "it is here"
