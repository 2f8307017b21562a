-- ===== src/Runtime/Peers.antt =====
-- What finishing a run of TinyCTX/runtime.py does to its peers, before and after a concurrent start.
use mathlib.Core.Option
use tiny_ctx.Base.{
  String, ◌++◌, ◌≡◌, refl, ap, true, false, [], ◌∷◌, Option, none, some, ◌==◌, string_eq,
  if◌then◌else◌, arith,
}
use tiny_ctx.Base.Dict.{Dict, lookup, lookup-insert, lookup-erase}
use tiny_ctx.Db.{returned, find}
use tiny_ctx.Context.{role_user}
use tiny_ctx.Runtime.Digest.{render_digest}
use tiny_ctx.Runtime.Attach.{push_parent, push-takes, push-returned, accepted, find-accepted}
use tiny_ctx.Runtime.{
  Run, Runtime, Inbound, Supply, Exogenous, Status, running, done, failed, aborted, put, is_running,
  is_peer, fan_out, finish_run, push, spawn_task, new_run, effective_key, attach_point,
}

-- What a peer finds in its inbox.
unfoldable pub notice_of : (String → String) → (String → String) → Run → String → Exogenous
notice_of strip shown r final_text = record {
  kind = "fork_finished";
  role = role_user;
  content = render_digest strip shown r.id r.intent final_text;
}

lookup-fan_out :
    (r : Run) (x : Exogenous) (id : String) (runs : Dict String Run)
    → lookup id (fan_out r x runs)
      ≡ Option.map (λ peer. if is_peer r peer then put x peer else peer) (lookup id runs)
unfolding lookup fan_out
lookup-fan_out r x id [] = refl
lookup-fan_out r x id ((j, peer) ∷ runs) = ground (arith, lookup-fan_out r x id runs)

is_running_not : (s : Status) → ¬ (s ≡ running) → is_running s ≡ false
unfolding is_running
is_running_not running h = absurd (h refl)
is_running_not done h = refl
is_running_not failed h = refl
is_running_not aborted h = refl

module _ {T : Type 0} (strip shown : String → String) where
  -- The entries of `finish_run`, key by key.
  finish_run-lookups :
      (r : Run) (final_text head : String) (rt : Runtime T) (id key : String)
      → (lookup id (finish_run strip shown r final_text head rt).1.runs ≡ (
          if r.id == id
          then none
          else Option.map
              (λ peer.
                if is_peer r peer then put (notice_of strip shown r final_text) peer else peer)
              (lookup id rt.runs)))
        × (lookup key (finish_run strip shown r final_text head rt).1.settled
            ≡ (if r.session_key == key then some head else lookup key rt.settled))
  unfolding finish_run notice_of
  finish_run-lookups r final_text head rt id key =
      let notice = notice_of strip shown r final_text in
      let erased = lookup-erase id r.id (fan_out r notice rt.runs) in
      let sent = lookup-fan_out r notice id rt.runs in
      (rw (erased, sent) refl, lookup-insert key r.session_key head rt.settled)

  -- When a run finishes, its own entry goes. Of another run, whose entry has the run's id as its key:
  -- if it is running and of the same session, its inbox has the digest at its end, a message of
  -- role user, and the rest of it is as it was; if it is of another session or not running, its
  -- entry is as it was. The session continues at the answered head, the others where they were.
  pub finish_run-delivers :
      (r : Run) (final_text head : String) (rt : Runtime T) (peer : Run) (key : String)
      → (r.id == peer.id) ≡ false
      → lookup peer.id rt.runs ≡ some peer
      → (r.session_key == key) ≡ false
      → (lookup r.id (finish_run strip shown r final_text head rt).1.runs ≡ none)
        × ((peer.session_key ≡ r.session_key
              → peer.status ≡ running
              → lookup peer.id (finish_run strip shown r final_text head rt).1.runs
                ≡ some (record peer {
                  inbox =
                      peer.inbox
                      ++ (record {
                        kind = "fork_finished";
                        role = "user";
                        content = render_digest strip shown r.id r.intent final_text;
                      }
                          ∷ []);
                }))
            × (((peer.session_key == r.session_key) ≡ false
                  → lookup peer.id (finish_run strip shown r final_text head rt).1.runs ≡ some peer)
                × ((¬ (peer.status ≡ running)
                      → lookup peer.id (finish_run strip shown r final_text head rt).1.runs
                        ≡ some peer)
                    × ((lookup r.session_key (finish_run strip shown r final_text head rt).1.settled
                          ≡ some head)
                        × (lookup key (finish_run strip shown r final_text head rt).1.settled
                            ≡ lookup key rt.settled)))))
  unfolding is_peer is_running put notice_of
  finish_run-delivers r final_text head rt peer key apart here away =
      let (sent, _) = finish_run-lookups r final_text head rt peer.id key in
      let (own, moved) = finish_run-lookups r final_text head rt r.id r.session_key in
      let (_, left) = finish_run-lookups r final_text head rt peer.id key in
      (
        ground arith,
        (
          (λ same live. ground arith),
          (
            (λ other. ground arith),
            (
              (λ dead. let off = is_running_not peer.status dead in ground arith),
              (ground arith, ground arith),
            ),
          ),
        ),
      )

  module _ (sentinel : String) (supply : Supply T) (session_key : Option String)
      (parent : Option Run) (msg : Inbound T) (r : Run) (final_text head n : String)
      (rt : Runtime T) where
    push_first :
        msg.trigger ≡ true
        → effective_key session_key parent msg.tail_node_id ≡ r.session_key
        → (supply.run_id == r.id) ≡ false
        → (push sentinel supply session_key parent msg rt).0 ≡ returned n
        → Option.map
            (λ run. run.inbox)
            (lookup supply.run_id
              (finish_run strip shown r final_text head
                (push sentinel supply session_key parent msg rt).1).1.runs)
          ≡ some (notice_of strip shown r final_text ∷ [])
    unfolding new_run is_peer is_running put spawn_task
    push_first trigger same other accepts =
        let (taken, _) = push-returned sentinel supply session_key parent msg rt n accepts in
        let step = push-takes sentinel supply session_key parent msg rt taken in
        let rt1 = accepted sentinel supply session_key parent msg rt in
        let key = effective_key session_key parent msg.tail_node_id in
        let r1 = new_run supply.run_id key msg.text supply.node_id in
        let (sent, _) = finish_run-lookups r final_text head rt1 supply.run_id "" in
        let there = lookup-insert supply.run_id supply.run_id r1 rt.runs in
        let here : lookup supply.run_id rt1.runs ≡ some r1 = ground arith in
        rw (step, sent, here) (ground arith)

    finish_first :
        effective_key session_key parent msg.tail_node_id ≡ r.session_key
        → (push sentinel supply session_key parent msg
            (finish_run strip shown r final_text head rt).1).0
          ≡ returned n
        → Option.map
            (λ node. node.parent_id)
            (find n
              (push sentinel supply session_key parent msg
                (finish_run strip shown r final_text head rt).1).1.db.nodes)
          ≡ some (some head)
    unfolding attach_point
    finish_first same accepts =
        let finished = (finish_run strip shown r final_text head rt).1 in
        let (taken, own) =
          push-returned sentinel supply session_key parent msg finished n accepts in
        let step = push-takes sentinel supply session_key parent msg finished taken in
        let (_, settled) = finish_run-lookups r final_text head rt "" r.session_key in
        let known : lookup r.session_key finished.settled ≡ some head = ground arith in
        let point : push_parent sentinel supply session_key parent msg finished ≡ head =
          rw (same) (ground arith) in
        let found = find-accepted sentinel supply session_key parent msg finished in
        rw (own, step, found) (ap some (ap some point))

  -- A triggering message of the session of a run, whose own run gets another id, and the end of
  -- that first run, one directly after the other: where the message is accepted and the run
  -- finishes next, the message's run has the digest alone in its inbox; where the run finishes and
  -- the message is accepted next, the message's node is under the first run's head.
  pub push-finish_run :
      (sentinel : String) (supply : Supply T) (session_key : Option String) (parent : Option Run)
      (msg : Inbound T) (r : Run) (final_text head n : String) (rt : Runtime T)
      → msg.trigger ≡ true
      → effective_key session_key parent msg.tail_node_id ≡ r.session_key
      → (supply.run_id == r.id) ≡ false
      → ((push sentinel supply session_key parent msg rt).0 ≡ returned n
          → Option.map
              (λ run. run.inbox)
              (lookup supply.run_id
                (finish_run strip shown r final_text head
                  (push sentinel supply session_key parent msg rt).1).1.runs)
            ≡ some (notice_of strip shown r final_text ∷ []))
        × ((push sentinel supply session_key parent msg
                (finish_run strip shown r final_text head rt).1).0
              ≡ returned n
            → Option.map
                (λ node. node.parent_id)
                (find n
                  (push sentinel supply session_key parent msg
                    (finish_run strip shown r final_text head rt).1).1.db.nodes)
              ≡ some (some head))
  push-finish_run sentinel supply session_key parent msg r final_text head n rt trigger same other =
      (
        push_first sentinel supply session_key parent msg r final_text head n rt trigger same other,
        finish_first sentinel supply session_key parent msg r final_text head n rt same,
      )
