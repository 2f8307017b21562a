-- ===== src/Tests/Db.antt =====
-- The conversation tree: a root, a question and an answer.
use tiny_ctx.Base.{
  String, ◌≡◌, refl, Bool, true, false, [], ◌∷◌, Option, none, some, ◌==◌, string_eq, if◌then◌else◌,
  arith, exists, keep,
}
use tiny_ctx.Base.Dict.{Dict, lookup, insert, erase, IsDict}
use tiny_ctx.Db.{Node, ConversationDb, raised, integrity_error, find, delete_node, is_child_of}
use tiny_ctx.Db.Json.{Json, JsonLaws, Loaded, object, array}
use tiny_ctx.Db.Tree.{IsTree}
use tiny_ctx.Db.Walk.Thread.{thread, get_ancestors-thread}
use tiny_ctx.Db.Walk.{get_ancestors, ancestry, reverse_onto, dialogue, lineage}
use tiny_ctx.Db.State.{
  state_at, load_loop, read_delta, fill, is_checkpoint, load_session_state, set_state,
  write_checkpoint_if_needed,
}
use tiny_ctx.Db.State.Nearest.{nearest, load_session_state-nearest}
use tiny_ctx.Db.State.Checkpoint.{load_session_state-write_checkpoint}
use tiny_ctx.Db.State.Written.{load_session_state-set_state}

-- Texts that are what they hold, over Booleans.
abbrev plain_json : Json (Loaded Bool) Bool
plain_json = record {
  loads = λ t. some t;
  dumps = λ d. object d;
  dumps_list = λ xs. array xs;
  nonempty_text = λ _. true;
  true_value = true;
  truthy = λ v. v;
}

plain_json-JsonLaws : JsonLaws plain_json
plain_json-JsonLaws = record {
  loads-dumps = λ _. refl;
  loads-dumps_list = λ _. refl;
  dumps-nonempty = λ _. refl;
  dumps_list-nonempty = λ _. refl;
  truthy-true = refl;
}

abbrev node : String → Option String → String → String → Option (Loaded Bool) → Node (Loaded Bool)
node id parent role content delta = record {
  id = id;
  parent_id = parent;
  role = role;
  content = content;
  created_at = 0;
  tool_calls = none;
  tool_call_id = none;
  author_id = none;
  attachment_paths = none;
  state_delta = delta;
  flags = array [];
}

abbrev root : Node (Loaded Bool)
root = node "root" none "system" "" none

abbrev question : Node (Loaded Bool)
question =
    node "q" (some "root") "user" "hi"
      (some (object (("thinking", false) ∷ ("verbose", true) ∷ [])))

abbrev answer : Node (Loaded Bool)
answer = node "a" (some "q") "assistant" "hello" (some (object (("thinking", true) ∷ [])))

abbrev chat : ConversationDb (Loaded Bool)
chat = record { root_id = some "root"; nodes = answer ∷ question ∷ root ∷ [] }

chat-IsTree : IsTree chat.nodes
unfolding find string_eq
chat-IsTree = (refl, (refl, (refl, (refl, (refl, (refl, tt))))))

chat_state :
    load_session_state plain_json "a" chat
    ≡ state_at (("thinking", true) ∷ ("verbose", true) ∷ []) 3
unfolding load_session_state load_loop find string_eq read_delta fill is_checkpoint lookup insert
    erase
chat_state = refl

chat_ancestors : get_ancestors "a" chat ≡ some (question ∷ answer ∷ [])
unfolding get_ancestors ancestry dialogue reverse_onto keep find string_eq
chat_ancestors = refl

delete_question : delete_node "q" chat ≡ (raised integrity_error, chat)
unfolding delete_node exists is_child_of find string_eq
delete_question = refl

abbrev verbose : String
verbose = "verbose"

abbrev thinking : String
thinking = "thinking"

abbrev mark : String
mark = "_checkpoint"

abbrev indexed : String
indexed = "indexed"

abbrev answer_state : Dict String Bool
answer_state = (thinking, true) ∷ (verbose, true) ∷ []

answer_state-IsDict : IsDict answer_state
unfolding lookup string_eq
answer_state-IsDict = (refl, (refl, tt))

found_answer : find "a" chat.nodes ≡ some answer
unfolding find string_eq
found_answer = refl

apart_from_mark : (mark == verbose) ≡ false
unfolding string_eq
apart_from_mark = refl

plain_key : (thinking == mark) ≡ false
unfolding string_eq
plain_key = refl

no_mark : lookup mark answer_state ≡ none
unfolding lookup string_eq
no_mark = refl

load_session_state-nearest_example :
    lookup verbose answer_state ≡ nearest plain_json verbose (lineage "a" chat.nodes)
load_session_state-nearest_example =
    load_session_state-nearest plain_json "a" verbose answer_state 3 chat chat-IsTree chat_state
      apart_from_mark

load_session_state-write_checkpoint_example :
    (final : Dict String Bool) × ((load_session_state plain_json "a"
          (write_checkpoint_if_needed plain_json "a" answer_state 3 2 chat)
        ≡ state_at final 1)
      × (lookup verbose final ≡ lookup verbose answer_state))
load_session_state-write_checkpoint_example =
    load_session_state-write_checkpoint plain_json plain_json-JsonLaws "a" verbose answer
      answer_state 3 2 chat found_answer answer_state-IsDict no_mark (omega arith)

load_session_state-set_state_example :
    (final : Dict String Bool) × ((load_session_state plain_json "a"
          (set_state plain_json "a" thinking false chat).1
        ≡ state_at final 3)
      × (lookup verbose final
          ≡ (if thinking == verbose then some false else lookup verbose answer_state)))
load_session_state-set_state_example =
    load_session_state-set_state plain_json plain_json-JsonLaws "a" thinking verbose false
      answer_state 3 answer chat chat-IsTree found_answer plain_key apart_from_mark chat_state

get_ancestors-thread_example : get_ancestors "a" chat ≡ some (thread "a" chat.nodes)
get_ancestors-thread_example = get_ancestors-thread "a" chat chat-IsTree
