-- ===== src/Lib.antt =====
-- A model of TinyCTX, an agent runtime in Python: a user's message is stored in a tree of conversation
-- nodes, the context for the language model is assembled from it, and the model calls tools, among
-- them a shell, on behalf of that user. The parts modelled here are the one that decides who may do
-- what, the tree of the conversation, the assembly of a context, the runs of a session with the loop
-- of a turn, and the chunkers of the retrieval.
--
-- The parts and their files:
--   Permissions (TinyCTX/permissions.py): the enumeration `Permission`, `expand`.
--   Users/Models (TinyCTX/users/models.py): `User`, `effective_permissions`. A set is a list of which
--     only membership is read; a dict is an association list in insertion order.
--   Users/Migration (TinyCTX/users/store.py): `_migrate` and its helpers, by rows.
--   Users/Store (TinyCTX/users/store.py): `UserStore`, its tables and caches, `resolve_user`,
--     `create_user`, `update_user`; Merge: `merge_users`, `rename_user`. The
--     invariant is `Coherent`, in Users/Store/Coherence.
--   Tools (TinyCTX/tool_handling/handler.py): Registry (`register_tool`, `apply_overrides`, `enable`,
--     `tools_search`, `passive_search`), Coerce (`_coerce_args`), Execute (`execute_tool_call`) and
--     Listing (`get_tool_definitions`).
--   Shell/Tree and Shell/Commands (TinyCTX/modules/shell/validate.py): the walk over the syntax tree,
--     `_first_denied_construct`, `_extract`, `_build`.
--   Shell/Specs and Shell/Classify (TinyCTX/modules/shell/perms.py): the compiled table, `classify`,
--     `required_permissions_for_shell`; Shell/Gate joins it to the tool handler.
--   Shell/Policy (TinyCTX/modules/shell/policy.py): `_merge_rules`, `_compile_constructs`,
--     `_is_unconstrained`.
--   Db (TinyCTX/db.py): rows and statements; Walk (`get_ancestors`), State (`load_session_state`,
--     `set_state`, checkpoints) and Flags (`flag_branch`). A row has the type of its JSON texts.
--   Context (TinyCTX/context.py): Hooks (hooks and prompts), Dialogue (`add`, `delete`,
--     `_load_from_db`), and `assemble` by its stages: Turns (filter, transform, label), Merge, Trim,
--     Render, and Assemble, which joins them. Context/Sanitize is TinyCTX/utils/sanitize.py.
--   Runtime (TinyCTX/runtime.py): `push`, `start_run`, `finish_run`, the end of `_process`, `nudge`;
--     Reach has the steps of the runs in any order as a relation.
--   Agent (TinyCTX/agent.py): the loop of `AgentCycle.run`, from its counters to its endings.
--   Commands (TinyCTX/utils/commands.py): the registry of slash commands and `dispatch`, which asks the
--     same permissions of a caller as the tool handler and records a command as two nodes of Db.
--   Concurrency (TinyCTX/modules/concurrency/__main__.py): the roster of running forks, `spawn_fork`
--     and `nudge_fork`, on the state of Runtime.
--   Chunkers (TinyCTX/modules/rag/chunkers.py): the four strategies.
--   Base: tests, sets and dicts that the parts share. Tests: the theorems at concrete inputs.
--
-- How they interact: a bridge resolves the sender to a `User`; the handler lists and runs tools for
-- that user, and asks the tool's classifier what a call needs; the classifier of the shell tool walks
-- the tree of the command line; the need, expanded, is compared with the user's effective permissions.
-- The state that modules keep for a session is in the nodes of the conversation tree. The runtime
-- writes a message into the tree under the attach point of its session and starts a run; the run's loop
-- assembles a context from the nodes above its head, asks the model, and writes answers and tool
-- results back through the Context; when it finishes, the runtime moves the attach point and puts a
-- digest into the inboxes of the session's other runs, which the loop drains.
--
-- What is a parameter: the builtins of Python (`int`, `str`, `json.loads`, `str.lower`, record
-- `Builtins` and `Letters`), tree-sitter's parse of a command line (a function into a tree), the json
-- package (record `Json`, with the laws of its documentation in `JsonLaws`), and the function of a
-- tool, which acts on a world of any type. The world is all state outside the handler, so
-- a theorem that it is unchanged covers files, network and databases. Of the context, the tokenizer,
-- the regular expressions and `strip` are fields of the record `Texts`, and hooks and prompts are any
-- functions on a shared state; of a turn, the model, the tools, the inbox and the clock are fields of
-- the record `Environment`, which act on a world of any type.
--
-- The walks of Db up the parents take fuel, one unit for each row and one more, which is enough where a
-- parent is older than its children (`IsTree`). The trim takes two rounds for each entry, the window
-- loop of the chunkers one for each element, and the loop of a turn one for each inference that its
-- bounds allow; one more round sees the end. All other recursion is
-- structural: loops over Python sequences recur on the list, walks over a syntax tree on the tree. The
-- loop that draws random names recurs on the names drawn.
--
-- A method of the runtime holds the lock of its session from its first read to its last write, so it
-- is one step; what the steps of several runs do is the sequence of them.
--
-- Not modelled: logging, messages and events to the user, the ranking of tools (floats), the building
-- of attachments, the bridges, the model backends and the other modules.
pub mod Base
pub mod Permissions
pub mod Users
pub mod Tools
pub mod Shell
pub mod Db
pub mod Context
pub mod Runtime
pub mod Agent
pub mod Commands
pub mod Concurrency
pub mod Chunkers
pub mod Tests
