-- ===== src/Tests/Context.antt =====
-- A dialogue of a question, a call of a tool and its result, in a Context of TinyCTX/context.py.
use Prim.Native.String
use tiny_ctx.Base.{
  String, ℕ, ◌≡◌, ◌≤◌, ◌⊎◌, refl, Bool, true, false, not, if◌then◌else◌, List, [], ◌∷◌, ◌++◌,
  Option, none, some, ◌==◌, string_eq, nat_eq, contains, length, every, arith,
}
use tiny_ctx.Base.Dict.{lookup}
use tiny_ctx.Tools.Values.{pos}
use tiny_ctx.Db.{Node, returned, find, add_node, insert_node, valid_roles}
use tiny_ctx.Db.Json.{Loaded, array}
use tiny_ctx.Db.Tree.{IsTree}
use tiny_ctx.Context.{CallDict, json_object, HistoryEntry, Texts, synthetic}
use tiny_ctx.Context.Sanitize.{homoglyph_table, sanitize_brackets, has_char-sanitize_brackets}
use tiny_ctx.Context.Merge.Adjacent.{tags_of}
use tiny_ctx.Context.Trim.{trim, trim_loop, trim_fuel, trim_step}
use tiny_ctx.Context.Trim.Budget.{is_system}
use tiny_ctx.Context.Trim.Survivors.{system_of, turn_ids, IsEndOf, trim-IsEndOf}
use tiny_ctx.Context.Assemble.{Pipeline, Assembled, run_pre_assemble, prepared, assemble}
use tiny_ctx.Context.Assemble.Outcome.{assemble-ends}
use tiny_ctx.Context.Assemble.Tags.{IsMet, assemble-accounts}
use tiny_ctx.Context.Hooks.{resolve_prompts}
use tiny_ctx.Context.Turns.{dropped_by}
use tiny_ctx.Context.Turns.Seen.{left_by, answered, after_keep, answers_now}
use tiny_ctx.Context.Dialogue.{
  Codec, Context, load_from_db, add_entry, content_column, calls_column, may_have_blocks,
}
use tiny_ctx.Context.Dialogue.Loading.{IsReadBack, storable, marks_session, load_from_db-add_entry}
use tiny_ctx.Shell.Commands.Text.{has_char}

abbrev plain_texts : Texts
plain_texts = record {
  strip = λ s. s;
  strip_tokens = λ s. s;
  collapse = λ s. s;
  think = λ s. none;
  dumps_block = λ b. b.fields;
  dumps_calls = λ cs. "[]";
  tokens = String.count;
  fuzz = λ n. n;
}

abbrev lookup_call : CallDict
lookup_call = record { id = "c1"; name = "find"; arguments = json_object "{}" }

abbrev question : HistoryEntry
question = synthetic "q" "user" "where is it?"

abbrev asking : HistoryEntry
asking =
    let bare = synthetic "a" "assistant" "let me see" in
    record bare { tool_calls = lookup_call ∷ [] }

abbrev found : HistoryEntry
found = let bare = synthetic "t" "tool" "here" in record bare { tool_call_id = some "c1" }

abbrev talk : List HistoryEntry
talk = question ∷ asking ∷ found ∷ []

-- A prompt of the system, and a limit that the dialogue passes.
abbrev small_pipeline : Pipeline ℕ
small_pipeline = record {
  token_limit = 20;
  img_cost = 280;
  pre_assemble = [];
  filter_turn =
      record { priority = pos 0; order = 1; name = "all"; run = λ e age s. (true, s) } ∷ [];
  transform_turn =
      record { priority = pos 0; order = 2; name = "same"; run = λ e age s. (none, s) } ∷ [];
  post_assemble = [];
  prompts =
      (
        "p",
        record {
          slot = record { pid = "p"; role = "system"; priority = pos 0 };
          provider = λ s. (some "be brief", s);
        },
      )
      ∷ [];
}

assemble-ends_example :
    (a : Assembled ℕ) × ((assemble plain_texts small_pipeline 0 (λ meta s. s) talk 7 ≡ some a)
      × (((a.meta.tokens_used ≤ 20) ⊎ (every is_system a.surviving ≡ true))
          × (system_of a.surviving ≡ system_of (prepared plain_texts small_pipeline talk 7).0)))
assemble-ends_example = assemble-ends plain_texts small_pipeline 0 (λ meta s. s) talk 7

abbrev skill_tag : String
skill_tag = "skill:find"

-- A transform that tags the results of tools.
abbrev tagging : Pipeline ℕ
tagging = record small_pipeline {
  transform_turn =
      record {
        priority = pos 0;
        order = 2;
        name = "tags";
        run = λ e age s.
            (if e.role == "tool" then some (record e { tags = skill_tag ∷ [] }) else none, s);
      }
      ∷ [];
}

abbrev assembled : Assembled ℕ
assembled = (assemble-ends plain_texts tagging 0 (λ meta s. s) talk 7).0

assemble-talk : assemble plain_texts tagging 0 (λ meta s. s) talk 7 ≡ some assembled
assemble-talk = (assemble-ends plain_texts tagging 0 (λ meta s. s) talk 7).1.0

abbrev tagged : HistoryEntry
tagged = record found { tags = skill_tag ∷ [] }

found-IsMet : IsMet plain_texts tagging 0 (λ meta s. s) talk 7 tagged
unfolding run_pre_assemble resolve_prompts dropped_by left_by string_eq
found-IsMet = after_keep question (asking ∷ found ∷ []) _ tagged refl (
    after_keep asking (found ∷ []) _ tagged refl
      (answered found [] _ tagged refl (answers_now _ [] found _ _ tagged refl)))

tag_there : contains tagged.tags skill_tag ≡ true
unfolding contains string_eq
tag_there = refl

assemble-accounts_example :
    contains assembled.meta.invalidated_tags skill_tag
    ≡ not (contains (tags_of assembled.surviving) skill_tag)
assemble-accounts_example =
    assemble-accounts plain_texts tagging 0 (λ meta s. s) talk 7 assembled tagged skill_tag
      assemble-talk found-IsMet tag_there

trim-talk : trim (λ s. s) length 2 talk ≡ some (asking ∷ found ∷ [], true)
unfolding trim trim_loop trim_fuel trim_step string_eq
trim-talk = refl

trim-IsEndOf_example : IsEndOf ("a" ∷ "t" ∷ []) ("q" ∷ "a" ∷ "t" ∷ [])
unfolding turn_ids string_eq
trim-IsEndOf_example = trim-IsEndOf (λ s. s) length 2 talk (asking ∷ found ∷ []) true trim-talk

has_char-sanitize_brackets_example : has_char 12304 (sanitize_brackets "【root】: do it") ≡ false
unfolding lookup homoglyph_table nat_eq
has_char-sanitize_brackets_example = has_char-sanitize_brackets 12304 "【root】: do it" refl

abbrev fixed_codec : Codec
fixed_codec = record {
  dumps_blocks = λ bs. "[]";
  load_blocks = λ s. some [];
  dumps_calls = λ cs. "[{}]";
  load_calls = λ s. some (lookup_call ∷ []);
}

abbrev row : String → Option String → String → String → Node (Loaded Bool)
row id parent role content = record {
  id = id;
  parent_id = parent;
  role = role;
  content = content;
  created_at = 0;
  tool_calls = none;
  tool_call_id = none;
  author_id = none;
  attachment_paths = none;
  state_delta = none;
  flags = array [];
}

abbrev session : Context (Loaded Bool)
session = record {
  db = record {
    root_id = some "root";
    nodes = row "q" (some "root") "user" "where is it?" ∷ row "root" none "system" "" ∷ [];
  };
  tail_node_id = "q";
  dialogue = [];
}

session-IsTree : IsTree session.db.nodes
unfolding find string_eq
session-IsTree = (refl, (refl, (refl, (refl, tt))))

asking-IsReadBack : IsReadBack fixed_codec asking.content asking.tool_calls
unfolding string_eq
asking-IsReadBack = record {
  blocks_back = λ bs e. ground arith;
  bracket = λ bs e. ground arith;
  calls_back = refl;
  calls_nonempty = refl;
}

asking_stored : storable asking.role asking.content ≡ true
unfolding storable may_have_blocks string_eq
asking_stored = refl

asking_plain : marks_session fixed_codec asking ≡ false
unfolding content_column string_eq
asking_plain = refl

abbrev tail_key : String
tail_key = "q"

abbrev new_key : String
new_key = "a"

tail_apart : (tail_key == new_key) ≡ false
unfolding string_eq
tail_apart = refl

abbrev no_flags : Loaded Bool
no_flags = array []

abbrev after_asking : HistoryEntry
after_asking = record asking { parent_id = some "q" }

asking_added : (add_entry fixed_codec new_key 5 no_flags asking session).0 ≡ returned after_asking
unfolding add_entry add_node insert_node find valid_roles contains string_eq content_column
    calls_column
asking_added = refl

load_from_db-add_entry_example :
    (old : List HistoryEntry) × ((load_from_db fixed_codec session ≡ some old)
      × (load_from_db fixed_codec (add_entry fixed_codec new_key 5 no_flags asking session).1
          ≡ some (
              old
              ++ (record asking {
                id = new_key;
                index = length old;
                parent_id = some tail_key;
                tags = [];
              }
                  ∷ []))))
load_from_db-add_entry_example =
    load_from_db-add_entry fixed_codec new_key 5 no_flags asking session asking-IsReadBack
      session-IsTree asking_stored asking_plain tail_apart after_asking asking_added
