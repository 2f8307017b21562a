-- ===== src/Context.antt =====
-- TinyCTX/context.py: the entries of a dialogue, the prompt providers and the hooks of a Context.
-- The dialogue and its rows are in Context/Dialogue, the stages of `assemble` in Context/Turns,
-- Context/Merge, Context/Trim and Context/Render, and `assemble` in Context/Assemble.
pub mod Hooks
pub mod Sanitize
pub mod Turns
pub mod Merge
pub mod Trim
pub mod Render
pub mod Assemble
pub mod Dialogue
use tiny_ctx.Base.{String, ℕ, Bool, true, false, List, [], ◌∷◌, Option, none, some, nonempty}

-- A content block: its `type`, its `text` if it has one, and its other fields as JSON text.
pub record Block : Type 0 where
  pub kind : String
  pub text : Option String
  pub fields : String

pub data Content : Type 0 where
  text : String → Content
  blocks : List Block → Content

-- The arguments of a call: a JSON text, or an object, known by its JSON text.
pub data Arguments : Type 0 where
  json_text json_object : String → Arguments

pub record CallDict : Type 0 where
  pub id : String
  pub name : String
  pub arguments : Arguments

pub record HistoryEntry : Type 0 where
  pub role : String
  pub content : Content
  pub id : String
  pub index : ℕ
  pub tool_calls : List CallDict
  pub tool_call_id : Option String
  pub author_id : Option String
  pub parent_id : Option String
  pub tags : List String

-- `HistoryEntry(role=..., content=...)`; the id that uuid4 gives is not looked at.
abbrev pub synthetic : String → String → String → HistoryEntry
synthetic id role content = record {
  role = role;
  content = text content;
  id = id;
  index = 0;
  tool_calls = [];
  tool_call_id = none;
  author_id = none;
  parent_id = none;
  tags = [];
}

-- `{tc["id"] for tc in calls}`
unfoldable pub call_ids : List CallDict → List String
call_ids [] = []
call_ids (c ∷ cs) = c.id ∷ call_ids cs

-- `ROLE_USER` and the others
abbrev pub role_user : String
role_user = "user"

abbrev pub role_assistant : String
role_assistant = "assistant"

abbrev pub role_tool : String
role_tool = "tool"

abbrev pub role_system : String
role_system = "system"

-- What the stages take from Python's texts, the re package, json and tiktoken.
pub record Texts : Type 0 where
  -- `s.strip()`
  pub strip : String → String
  -- the special-token pattern's `sub("", s)`, and the collapse of runs of blanks
  pub strip_tokens : String → String
  pub collapse : String → String
  -- `_THINK_PREFIX_RE.match(s)`: the thought, and what follows without its leading newlines
  pub think : String → Option (String × String)
  -- `json.dumps` of a block, and of a list of rendered calls (id, name, arguments)
  pub dumps_block : Block → String
  pub dumps_calls : List (String × (String × String)) → String
  -- the number of tokens of a text, and `int(raw * token_fuzz)`
  pub tokens : String → ℕ
  pub fuzz : ℕ → ℕ
