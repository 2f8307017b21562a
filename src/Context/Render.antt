-- ===== src/Context/Render.antt =====
-- Stage 6 of `assemble` in TinyCTX/context.py, and the counting of tokens over rendered entries.
use tiny_ctx.Base.{
  String, ℕ, ◌+◌, List, [], ◌∷◌, Option, none, some, ◌==◌, string_eq, if◌then◌else◌, map,
}
use tiny_ctx.Context.{
  HistoryEntry, Content, text, blocks, Block, Texts, CallDict, json_text, json_object, role_tool,
  role_assistant,
}

-- A message of the API; a call of a message is its id, its name and its arguments.
pub record Message : Type 0 where
  pub role : String
  pub content : Content
  pub tool_call_id : Option String
  pub reasoning_content : Option String
  pub tool_calls : List (String × (String × String))

unfoldable pub rendered_call : CallDict → String × (String × String)
rendered_call tc = (tc.id, (tc.name, elim tc.arguments [ json_text s ↦ s | json_object s ↦ s ]))

-- The thought at the front of an assistant's text, and the rest.
unfoldable pub split_thought : Texts → Content → Option String × Content
split_thought t (text s) = elim (t.think s) [
  | none ↦ (none, text s)
  | some (thought, rest) ↦ (some thought, text rest)
]
split_thought t (blocks bs) = (none, blocks bs)

-- `_render`
unfoldable pub render : Texts → HistoryEntry → Message
render t e =
    let (thought, rest) = split_thought t e.content in
    if e.role == role_tool
    then record {
      role = role_tool;
      content = e.content;
      tool_call_id = e.tool_call_id;
      reasoning_content = none;
      tool_calls = [];
    }
    else if e.role == role_assistant
    then record {
      role = role_assistant;
      content = rest;
      tool_call_id = none;
      reasoning_content = thought;
      tool_calls = map rendered_call e.tool_calls;
    }
    else record {
      role = e.role;
      content = e.content;
      tool_call_id = none;
      reasoning_content = none;
      tool_calls = [];
    }

-- `_content_tokens`; `img_cost` is `_image_tokens_per_block or 0`.
unfoldable pub block_tokens : Texts → ℕ → List Block → ℕ
block_tokens t img_cost [] = 0
block_tokens t img_cost (b ∷ bs) =
    (if b.kind == "image_url" then img_cost else t.tokens (t.dumps_block b))
    + block_tokens t img_cost bs

unfoldable pub content_tokens : Texts → ℕ → Content → ℕ
content_tokens t img_cost (text s) = t.tokens s
content_tokens t img_cost (blocks bs) = block_tokens t img_cost bs

-- `_reasoning_tokens`: an empty thought counts as none.
unfoldable pub reasoning_tokens : Texts → Message → ℕ
reasoning_tokens t m = elim m.reasoning_content [
  | none ↦ 0
  | some rc ↦ if rc == "" then 0 else t.tokens rc
]

unfoldable pub message_tokens : Texts → ℕ → List Message → ℕ
message_tokens t img_cost [] = 0
message_tokens t img_cost (m ∷ ms) =
    content_tokens t img_cost m.content
    + t.tokens (t.dumps_calls m.tool_calls)
    + reasoning_tokens t m
    + message_tokens t img_cost ms

-- `_count_tokens`, with the tokens of the tools
unfoldable pub count_tokens : Texts → ℕ → ℕ → List Message → ℕ
count_tokens t img_cost tool_tokens ms = t.fuzz (message_tokens t img_cost ms + tool_tokens)

-- `_count_tokens_entries`
unfoldable pub count_tokens_entries : Texts → ℕ → ℕ → List HistoryEntry → ℕ
count_tokens_entries t img_cost tool_tokens es =
    count_tokens t img_cost tool_tokens (map (render t) es)
