-- ===== src/Runtime.antt =====
-- TinyCTX/runtime.py: the runs of a process, the attach point of each session, and the methods that
-- start and finish runs. A method holds the lock of its session from its first read to its last
-- write, so each is one step. The digest of a finished run is in Runtime/Digest, what the methods
-- do together in Runtime/Peers, Runtime/Forks and Runtime/Reach.
pub mod Digest
pub mod Attach
pub mod Peers
pub mod Forks
pub mod Coherent
pub mod Reach
use tiny_ctx.Base.{
  String, ℕ, Bool, true, false, not, ◌&&◌, ◌||◌, List, [], ◌∷◌, ◌++◌, Option, none, some, ◌==◌,
  string_eq, if◌then◌else◌, keep,
}
use tiny_ctx.Base.Dict.{Dict, lookup, insert, erase, has_key}
use tiny_ctx.Db.{Node, ConversationDb, Outcome, returned, raised, add_node}
use tiny_ctx.Runtime.Digest.{render_digest, render_nudge, intent_of}
use tiny_ctx.Context.{role_user}

pub record Exogenous : Type 0 where
  pub kind : String
  pub role : String
  pub content : String

pub data Status : Type 0 where
  running done failed aborted : Status

-- `head` is the tail of its cycle's context, where it has one.
pub record Run : Type 0 where
  pub id : String
  pub session_key : String
  pub intent : String
  pub root_node_id : String
  pub status : Status
  pub inbox : List Exogenous
  pub head : Option String

-- The shared state: `abort_events` says of each whether it is set.
pub record Runtime (T : Type 0) : Type 0 where
  pub db : ConversationDb T
  pub runs : Dict String Run
  pub settled : Dict String String
  pub abort_events : Dict String Bool

-- An inbound message as `push` has prepared it: its content for the database and its state delta.
pub record Inbound (T : Type 0) : Type 0 where
  pub text : String
  pub content : String
  pub tail_node_id : String
  pub author : String
  pub suppress_attribution : Bool
  pub trigger : Bool
  pub state_delta : Option T

-- What the uuid module and the clock answer to one call.
pub record Supply (T : Type 0) : Type 0 where
  pub node_id : String
  pub run_id : String
  pub now : ℕ
  pub no_flags : T

-- `status == "running"`
unfoldable pub is_running : Status → Bool
is_running running = true
is_running done = false
is_running failed = false
is_running aborted = false

unfoldable pub is_done : Status → Bool
is_done running = false
is_done done = true
is_done failed = false
is_done aborted = false

-- `s or None`
unfoldable pub or_none : String → Option String
or_none s = if s == "" then none else some s

-- `Run(...)` with its defaults
unfoldable pub new_run : String → String → String → String → Run
new_run id session_key prompt root_node_id = record {
  id = id;
  session_key = session_key;
  intent = intent_of prompt;
  root_node_id = root_node_id;
  status = running;
  inbox = [];
  head = none;
}

-- `inbox.put_nowait(...)`
unfoldable pub put : Exogenous → Run → Run
put x r = record r { inbox = r.inbox ++ (x ∷ []) }

-- A running peer of the same session.
unfoldable pub is_peer : Run → Run → Bool
is_peer r peer =
    not (peer.id == r.id) && peer.session_key == r.session_key && is_running peer.status

-- The loop of `finish_run` over the runs.
unfoldable pub fan_out : Run → Exogenous → Dict String Run → Dict String Run
fan_out r notice [] = []
fan_out r notice ((id, peer) ∷ runs) =
    (id, if is_peer r peer then put notice peer else peer) ∷ fan_out r notice runs

-- `session_key or msg.tail_node_id`, unless there is a parent.
unfoldable pub effective_key : Option String → Option Run → String → String
effective_key session_key parent tail =
    let own : String = elim session_key [ none ↦ tail | some k ↦ if k == "" then tail else k ] in
    elim parent [ none ↦ own | some p ↦ p.session_key ]

-- `settled.setdefault(key, default)`
unfoldable pub attach_point : String → String → Dict String String → String
attach_point key default settled = elim (lookup key settled) [ none ↦ default | some s ↦ s ]

unfoldable pub set_default : String → String → Dict String String → Dict String String
set_default key default settled =
    if has_key key settled then settled else insert key default settled

-- `NO_ATTRIBUTION_SENTINEL` and `runs_in_session`
unfoldable pub author_column : String → Bool → String → Option String
author_column sentinel suppress author = if suppress then some sentinel else or_none author

unfoldable pub runs_in_session : String → Dict String Run → List Run
runs_in_session key [] = []
runs_in_session key ((id, r) ∷ runs) =
    let rest = runs_in_session key runs in if r.session_key == key then r ∷ rest else rest

module _ {T : Type 0} where
  abbrev pub seed_session : String → String → Runtime T → Runtime T
  seed_session key node_id rt = record rt { settled = insert key node_id rt.settled }

  -- `_get_abort_event`, which `_spawn_task` calls: the event of the root node, cleared.
  unfoldable pub spawn_task : Run → Runtime T → Runtime T
  spawn_task r rt = record rt { abort_events = insert r.root_node_id false rt.abort_events }

  unfoldable pub abort : String → Runtime T → Bool × Runtime T
  abort node_id rt =
      if has_key node_id rt.abort_events
      then (true, record rt { abort_events = insert node_id true rt.abort_events })
      else (false, rt)

  -- `push`: the node, and for a triggering message its run. What `add_node` raises leaves the
  -- attach point that `setdefault` has set.
  unfoldable pub push :
      String
      → Supply T
      → Option String
      → Option Run
      → Inbound T
      → Runtime T
      → Outcome String × Runtime T
  push sentinel supply session_key parent msg rt =
      let key = effective_key session_key parent msg.tail_node_id in
      let attach_to = attach_point key msg.tail_node_id rt.settled in
      let settled = set_default key msg.tail_node_id rt.settled in
      let author_id = author_column sentinel msg.suppress_attribution msg.author in
      let (outcome, db') =
        add_node supply.node_id supply.now supply.no_flags attach_to role_user msg.content none none
          author_id none msg.state_delta rt.db in
      elim outcome [
        | raised why ↦ (raised why, record rt { db = db'; settled = settled })
        | returned node ↦
            let r = new_run supply.run_id key msg.text node.id in
            (
              returned node.id,
              if msg.trigger
                  then spawn_task r
                      (record rt { db = db'; settled = settled; runs = insert r.id r rt.runs })
                  else record rt { db = db'; settled = insert key node.id settled },
            )
      ]

  -- `start_run`: a fork off a node of the caller's choice.
  unfoldable pub start_run :
      Supply T
      → String
      → String
      → String
      → String
      → Option Run
      → Runtime T
      → Outcome Run × Runtime T
  start_run supply session_key prompt branch_from caller parent rt =
      let key : String = elim parent [ none ↦ session_key | some p ↦ p.session_key ] in
      let (outcome, db') =
        add_node supply.node_id supply.now supply.no_flags branch_from role_user prompt none none
          (or_none caller) none none rt.db in
      elim outcome [
        | raised why ↦ (raised why, record rt { db = db' })
        | returned node ↦
            let r = new_run supply.run_id key prompt node.id in
            (returned r, spawn_task r (record rt { db = db'; runs = insert r.id r rt.runs }))
      ]

  -- `finish_run`, with the run's status afterwards.
  unfoldable pub finish_run :
      (String → String) → (String → String) → Run → String → String → Runtime T → Run × Runtime T
  finish_run strip shown r final_text head_node_id rt =
      let notice : Exogenous = record {
        kind = "fork_finished";
        role = role_user;
        content = render_digest strip shown r.id r.intent final_text;
      } in
      (
        record r { status = done },
        record rt {
          settled = insert r.session_key head_node_id rt.settled;
          runs = erase r.id (fan_out r notice rt.runs);
        },
      )

  -- `_abandon_run`: the furthest node that the run wrote.
  unfoldable pub abandon_run : Run → Runtime T → Runtime T
  abandon_run r rt =
      let head : String = elim r.head [
        | none ↦ r.root_node_id
        | some h ↦ if h == "" then r.root_node_id else h
      ] in
      seed_session r.session_key head rt

  unfoldable pub nudge : (String → String) → String → Run → String → Runtime T → Bool × Runtime T
  nudge shown target_id from_run message rt = elim (lookup target_id rt.runs) [
    | none ↦ (false, rt)
    | some target ↦
        let note : Exogenous = record {
          kind = "nudge";
          role = role_user;
          content = render_nudge shown from_run.id from_run.intent message;
        } in
        if is_running target.status && target.session_key == from_run.session_key
        then (true, record rt { runs = insert target_id (put note target) rt.runs })
        else (false, rt)
  ]

  -- The end of `_process`; `crashed` says that the cycle raised.
  unfoldable pub end_process : Bool → Run → Runtime T → Run × Runtime T
  end_process crashed r rt =
      let abort_set : Bool = elim (lookup r.root_node_id rt.abort_events) [
        | none ↦ false
        | some b ↦ b
      ] in
      let status1 : Status = if crashed then failed else r.status in
      let status2 : Status =
        if is_running status1 then if abort_set then aborted else failed else status1 in
      let r' : Run = record r { status = status2 } in
      let rt1 : Runtime T = record rt { abort_events = erase r.root_node_id rt.abort_events } in
      let rt2 : Runtime T = if is_done status2 then rt1 else abandon_run r' rt1 in
      (r', record rt2 { runs = erase r.id rt2.runs })
