-- ===== src/Commands.antt =====
-- TinyCTX/utils/commands.py: the registry of slash commands, their dispatch and the record of a
-- command in the conversation tree. Who a command runs for is in Commands/Gate.
pub mod Gate
use Prim.Native.String
use tiny_ctx.Base.{
  String, ℕ, Bool, true, false, not, ◌&&◌, ◌||◌, List, [], ◌∷◌, ◌++◌, Option, none, some, ◌==◌,
  string_eq, if◌then◌else◌, keep, minus, nonempty, map,
}
use tiny_ctx.Permissions.{Permission, permission_eq, expand}
use tiny_ctx.Users.Models.{
  Platform, cli, discord, matrix, telegram, cron, api, system, User, PermissionsConfig,
  effective_permissions,
}
use tiny_ctx.Users.Store.{UserStore, get_by_platform}
use tiny_ctx.Db.{Node, ConversationDb, Outcome, returned, raised, add_node}
use tiny_ctx.Context.{role_user, role_assistant}
use tiny_ctx.Context.Turns.{join_lines}

-- The runtime as a command sees it, and the world of the handlers. `permissions` is the section of
-- the configuration, where there is one.
pub record Server (T W : Type 0) : Type 0 where
  pub users : UserStore
  pub db : ConversationDb T
  pub permissions : Option PermissionsConfig
  pub command_introspection : Bool
  pub world : W

-- What a bridge passes: the runtime may be missing; `node_id` and `get_output` as well.
pub record Invocation (W : Type 0) : Type 0 where
  pub has_runtime : Bool
  pub caller : Option User
  pub caller_platform : String
  pub caller_user_id : String
  pub node_id : String
  pub cursor : String
  pub get_output : Option (W → String)

-- A handler says whether it came to its end, or raised.
pub record Entry (T W : Type 0) : Type 0 where
  pub namespace : String
  pub sub : String
  pub handler : List String → Server T W → Bool × Server T W
  pub help : String
  pub required_permissions : Option (List Permission)
  pub permissions_declared : Bool

-- How a dispatch ends; `ran` has the tail of the recorded command.
pub data Dispatched : Type 0 where
  no_command unresolved missing_permissions handler_raised : Dispatched
  ran : Option String → Dispatched

-- What the texts of Python do, and the id and the time that two added nodes get.
pub record Syntax (T : Type 0) : Type 0 where
  pub lower : String → String
  pub strip : String → String
  pub split : String → List String
  pub user_node : String
  pub assistant_node : String
  pub now : ℕ
  pub no_flags : T

-- `Platform(name)`
unfoldable pub platform_of : String → Option Platform
platform_of s =
    if s == "cli"
    then some cli
    else if s == "discord"
    then some discord
    else if s == "matrix"
    then some matrix
    else if s == "telegram"
    then some telegram
    else if s == "cron"
    then some cron
    else if s == "api"
    then some api
    else if s == "system"
    then some system
    else none

-- The words after the slash of a text; none for another text.
unfoldable pub command_words : (String → List String) → String → Option (List String)
command_words split String.[] = none
command_words split (String.◌∷◌ c s) = if String.◌∷◌ c "" == "/" then some (split s) else none

-- `/namespace sub args`
unfoldable pub command_text : String → String → List String → String
command_text namespace sub args = String.◌++◌ "/" (
    String.◌++◌ namespace (
      String.◌++◌ (if sub == "" then "" else String.◌++◌ " " sub)
        (if nonempty args then String.◌++◌ " " (join_lines " " args) else "")))

module _ {T W : Type 0} where
  unfoldable pub is_entry : String → String → Entry T W → Bool
  is_entry namespace sub e = e.namespace == namespace && e.sub == sub

  -- `register`; none for a requirement that was not passed.
  unfoldable pub register :
      Syntax T
      → String
      → String
      → (List String → Server T W → Bool × Server T W)
      → String
      → Option (Option (List Permission))
      → List (Entry T W)
      → List (Entry T W)
  register syn namespace sub handler help required entries =
      let ns = syn.strip (syn.lower namespace) in
      let sb = syn.strip (syn.lower sub) in
      let entry : Entry T W = record {
        namespace = ns;
        sub = sb;
        handler = handler;
        help = help;
        required_permissions = elim required [ none ↦ none | some r ↦ r ];
        permissions_declared = elim required [ none ↦ false | some _ ↦ true ];
      } in
      keep (λ e. not (is_entry ns sb e)) entries ++ (entry ∷ [])

  -- `assert_permissions_declared` raises where this is nonempty.
  unfoldable pub undeclared_commands : List (Entry T W) → List (Entry T W)
  undeclared_commands entries = keep (λ e. not e.permissions_declared) entries

  -- `_find`
  unfoldable pub find_entry : String → String → List (Entry T W) → Option (Entry T W)
  find_entry namespace sub [] = none
  find_entry namespace sub (e ∷ es) =
      if is_entry namespace sub e then some e else find_entry namespace sub es

  -- The entry for the words of a command, its words as the dispatch names them, and its arguments.
  unfoldable pub entry_for :
      (String → String)
      → List String
      → List (Entry T W)
      → Option (Entry T W × (String × (String × List String)))
  entry_for lower [] entries = none
  entry_for lower (w ∷ []) entries = elim (find_entry (lower w) "" entries) [
    | none ↦ none
    | some e ↦ some (e, (lower w, ("", [])))
  ]
  entry_for lower (w ∷ v ∷ args) entries = elim (find_entry (lower w) (lower v) entries) [
    | some e ↦ some (e, (lower w, (lower v, args)))
    | none ↦ elim (find_entry (lower w) "" entries) [
      | some e ↦ some (e, (lower w, (lower v, v ∷ args)))
      | none ↦ none
    ]
  ]

  -- `_resolve_caller`: looking a user up may fill the caches of the store.
  unfoldable pub resolve_caller : Invocation W → Server T W → Option User × Server T W
  resolve_caller inv s =
      let known : Bool =
        inv.has_runtime && not (inv.caller_platform == "") && not (inv.caller_user_id == "") in
      elim inv.caller [
        | some u ↦ (some u, s)
        | none ↦ elim (platform_of inv.caller_platform) [
          | none ↦ (none, s)
          | some p ↦
              let (u, users) = get_by_platform p inv.caller_user_id s.users in
              if known then (u, record s { users = users }) else (none, s)
        ]
      ]

  -- `PermissionsConfig()` where the configuration has no section, or there is no runtime.
  unfoldable pub config_of : PermissionsConfig → Invocation W → Server T W → PermissionsConfig
  config_of default inv s =
      if inv.has_runtime then elim s.permissions [ none ↦ default | some c ↦ c ] else default

  -- `_check_permission`: none where the call may proceed.
  unfoldable pub check_permission :
      PermissionsConfig → Entry T W → Invocation W → Server T W → Option Dispatched × Server T W
  check_permission default e inv s = elim e.required_permissions [
    | none ↦ (none, s)
    | some needed ↦
        let (caller, s') = resolve_caller inv s in
        (
          elim caller [
            | none ↦ some unresolved
            | some u ↦
                if nonempty
                  (minus (expand needed) (effective_permissions u (config_of default inv s)))
                then some missing_permissions
                else none
          ],
          s',
        )
  ]

  -- `_record_command_introspection`: the command and its output as two nodes.
  unfoldable pub record_introspection :
      Syntax T
      → String
      → String
      → List String
      → Invocation W
      → Server T W
      → Option String × Server T W
  record_introspection syn namespace sub args inv s =
      let node_id = syn.strip (if inv.node_id == "" then inv.cursor else inv.node_id) in
      let shown : String =
        syn.strip (elim inv.get_output [ none ↦ "" | some read ↦ read s.world ]) in
      let output : String = if shown == "" then "(no output)" else shown in
      let (caller, s') = resolve_caller inv s in
      let author : Option String = elim caller [ none ↦ none | some u ↦ some u.username ] in
      let (asked, db1) =
        add_node syn.user_node syn.now syn.no_flags node_id role_user
          (syn.strip (command_text namespace sub args)) none none author none none s'.db in
      let (replied, db2) =
        add_node syn.assistant_node syn.now syn.no_flags syn.user_node role_assistant output none
          none none none none db1 in
      if namespace == "reset" || not inv.has_runtime || not s.command_introspection || node_id == ""
      then (none, s)
      else elim asked [
        | raised _ ↦ (none, record s' { db = db1 })
        | returned _ ↦ elim replied [
          | raised _ ↦ (none, record s' { db = db2 })
          | returned n ↦ (some n.id, record s' { db = db2 })
        ]
      ]

  -- The handler of an entry, and the record of what came to its end.
  unfoldable pub run_entry :
      Syntax T
      → Entry T W
      → String
      → String
      → List String
      → Invocation W
      → Server T W
      → Dispatched × Server T W
  run_entry syn e namespace sub args inv s =
      let (ended, s1) = e.handler args s in
      let (tail, s2) = record_introspection syn namespace sub args inv s1 in
      if ended then (ran tail, s2) else (handler_raised, s1)

  -- What the dispatch of a text finds.
  unfoldable pub entry_of :
      Syntax T → String → List (Entry T W) → Option (Entry T W × (String × (String × List String)))
  entry_of syn t entries = elim (command_words syn.split (syn.strip t)) [
    | none ↦ none
    | some words ↦ entry_for syn.lower words entries
  ]

  -- `dispatch`
  unfoldable pub dispatch :
      Syntax T
      → PermissionsConfig
      → String
      → Invocation W
      → List (Entry T W)
      → Server T W
      → Dispatched × Server T W
  dispatch syn default t inv entries s = elim (entry_of syn t entries) [
    | none ↦ (no_command, s)
    | some (e, (namespace, (sub, args))) ↦
        let (denial, s1) = check_permission default e inv s in
        let going = run_entry syn e namespace sub args inv s1 in
        elim denial [ none ↦ going | some why ↦ (why, s1) ]
  ]
