-- ===== src/Runtime/Forks.antt =====
-- Where the messages of one session of TinyCTX/runtime.py attach: forks, chains, and the session
-- whose attach point is no node.
use mathlib.Core.Option
use tiny_ctx.Base.{
  String, ◌≡◌, refl, ap, ◌∙◌, Bool, true, false, not, ◌&&◌, List, [], ◌∷◌, every, Option, none,
  some, ◌==◌, string_eq, if◌then◌else◌, arith, Bool-cases, Option-cases, inl, inr,
}
use tiny_ctx.Base.Dict.{Dict, lookup, lookup-insert}
use tiny_ctx.Db.{Outcome, raised, returned, find, has_row}
use tiny_ctx.Runtime.{
  Run, Runtime, Inbound, Supply, push, spawn_task, effective_key, attach_point, set_default,
}
use tiny_ctx.Runtime.Attach.{
  takes, push_parent, find-accepted, push-takes, push-refuses, push-returned,
}

-- `settled.setdefault` sets what it answers.
lookup-set_default :
    (key tail : String) (settled : Dict String String)
    → lookup key (set_default key tail settled) ≡ some (attach_point key tail settled)
unfolding set_default attach_point
lookup-set_default key tail settled =
    let set = lookup-insert key key tail settled in
    elim (Option-cases (lookup key settled)) [
      | inl absent ↦ ground arith
      | inr (s, found) ↦ ground arith
    ]

-- What `push` is called with.
pub record Sending (T : Type 0) : Type 0 where
  pub supply : Supply T
  pub session_key : Option String
  pub parent : Option Run
  pub msg : Inbound T

abbrev pub is_raised : Outcome String → Bool
is_raised (returned n) = false
is_raised (raised why) = true

module _ {T : Type 0} (sentinel : String) where
  module _ (supply : Supply T) (session_key : Option String) (parent : Option Run) (msg : Inbound T)
      (rt : Runtime T) where
    -- The parent of the row that a push has written.
    push-parent_id :
        (n : String)
        → (push sentinel supply session_key parent msg rt).0 ≡ returned n
        → Option.map
            (λ node. node.parent_id)
            (find n (push sentinel supply session_key parent msg rt).1.db.nodes)
          ≡ some (some (push_parent sentinel supply session_key parent msg rt))
    push-parent_id n done =
        let (taken, own) = push-returned sentinel supply session_key parent msg rt n done in
        let step = push-takes sentinel supply session_key parent msg rt taken in
        rw (own, step, find-accepted sentinel supply session_key parent msg rt) refl

    -- The attach point after a push.
    push-settled :
        (n : String)
        → (push sentinel supply session_key parent msg rt).0 ≡ returned n
        → lookup
            (effective_key session_key parent msg.tail_node_id)
            (push sentinel supply session_key parent msg rt).1.settled
          ≡ some (if msg.trigger then push_parent sentinel supply session_key parent msg rt else n)
    unfolding spawn_task
    push-settled n done =
        let (taken, own) = push-returned sentinel supply session_key parent msg rt n done in
        let step = push-takes sentinel supply session_key parent msg rt taken in
        let key = effective_key session_key parent msg.tail_node_id in
        let settled = set_default key msg.tail_node_id rt.settled in
        let kept = lookup-set_default key msg.tail_node_id rt.settled in
        let moved = lookup-insert key key supply.node_id settled in
        elim (Bool-cases msg.trigger) [
          | inl yes_run ↦ rw (step, yes_run) kept
          | inr no_run ↦ rw (step, no_run, own) (ground arith)
        ]

  -- Two messages of a session in a row: after a triggering one the next is its sibling, under the
  -- same parent; after a passive one the next is its child.
  pub push-forks :
      (supply supply' : Supply T) (key key' : Option String) (parent parent' : Option Run)
      (msg msg' : Inbound T) (rt : Runtime T) (n m : String)
      → effective_key key' parent' msg'.tail_node_id ≡ effective_key key parent msg.tail_node_id
      → (push sentinel supply key parent msg rt).0 ≡ returned n
      → (push sentinel supply' key' parent' msg' (push sentinel supply key parent msg rt).1).0
        ≡ returned m
      → Option.map
          (λ node. node.parent_id)
          (find m
            (push sentinel supply' key' parent' msg'
              (push sentinel supply key parent msg rt).1).1.db.nodes)
        ≡ (if msg.trigger
            then Option.map
                (λ node. node.parent_id)
                (find n (push sentinel supply key parent msg rt).1.db.nodes)
            else some (some n))
  unfolding attach_point
  push-forks supply supply' key key' parent parent' msg msg' rt n m same first second =
      let rt1 = (push sentinel supply key parent msg rt).1 in
      let above = push-parent_id supply key parent msg rt n first in
      let below = push-parent_id supply' key' parent' msg' rt1 m second in
      let point = push-settled supply key parent msg rt n first in
      let attach : push_parent sentinel supply' key' parent' msg' rt1
          ≡ (if msg.trigger then push_parent sentinel supply key parent msg rt else n) =
        rw (same) (ground arith) in
      elim (Bool-cases msg.trigger) [
        | inl yes_run ↦
            let sibling : push_parent sentinel supply' key' parent' msg' rt1
                ≡ push_parent sentinel supply key parent msg rt =
              ground arith in
            rw (below, sibling) (ground arith)
        | inr no_run ↦
            let child : push_parent sentinel supply' key' parent' msg' rt1 ≡ n = ground arith in
            rw (below, child) (ground arith)
      ]

  -- Pushes in a row, and what each of them answers.
  unfoldable pub push_each : List (Sending T) → Runtime T → List (Outcome String)
  push_each [] rt = []
  push_each (a ∷ later) rt =
      let (outcome, rt') = push sentinel a.supply a.session_key a.parent a.msg rt in
      outcome ∷ push_each later rt'

  -- Whether a push is one of the session and its fresh id is not the given one.
  abbrev pub is_sent_to : String → String → Sending T → Bool
  is_sent_to key missing a =
      effective_key a.session_key a.parent a.msg.tail_node_id == key
      && not (missing == a.supply.node_id)

  push_raises :
      (a : Sending T) (key missing : String) (rt : Runtime T)
      → is_sent_to key missing a ≡ true
      → attach_point key a.msg.tail_node_id rt.settled ≡ missing
      → has_row missing rt.db.nodes ≡ false
      → (is_raised (push sentinel a.supply a.session_key a.parent a.msg rt).0 ≡ true)
        × ((lookup key (push sentinel a.supply a.session_key a.parent a.msg rt).1.settled
              ≡ some missing)
            × ((push sentinel a.supply a.session_key a.parent a.msg rt).1.db.nodes ≡ rt.db.nodes))
  push_raises a key missing rt sent point gone =
      let own = effective_key a.session_key a.parent a.msg.tail_node_id in
      let same : own ≡ key = ground arith in
      let there : push_parent sentinel a.supply a.session_key a.parent a.msg rt ≡ missing =
        rw (same) point in
      let refused : takes a.supply (push_parent sentinel a.supply a.session_key a.parent a.msg rt)
            rt.db.nodes
          ≡ false =
        rw (there) (ground arith) in
      let step = push-refuses sentinel a.supply a.session_key a.parent a.msg rt refused in
      let kept = lookup-set_default key a.msg.tail_node_id rt.settled in
      rw (step) (refl, (rw (same) (kept ∙ ap some point), refl))

  push_each_stuck :
      (later : List (Sending T)) (key missing : String) (rt : Runtime T)
      → every (is_sent_to key missing) later ≡ true
      → lookup key rt.settled ≡ some missing
      → has_row missing rt.db.nodes ≡ false
      → every is_raised (push_each later rt) ≡ true
  unfolding every push_each attach_point
  push_each_stuck [] key missing rt sent point gone = refl
  push_each_stuck (a ∷ later) key missing rt sent point gone =
      let (first, (settled, nodes)) =
        push_raises a key missing rt (ground arith) (ground arith) gone in
      let rt' = (push sentinel a.supply a.session_key a.parent a.msg rt).1 in
      let rest = push_each_stuck later key missing rt' (ground arith) settled (rw (nodes) gone) in
      ground (arith, first, rest)

  -- Of a row of pushes of one session that has no attach point yet, whose first has a tail that is
  -- no node and is no id that a push of the row would write: every one raises, whatever tails and
  -- however many the later ones have.
  pub push-stranded :
      (key : String) (a : Sending T) (later : List (Sending T)) (rt : Runtime T)
      → lookup key rt.settled ≡ none
      → has_row a.msg.tail_node_id rt.db.nodes ≡ false
      → every (is_sent_to key a.msg.tail_node_id) (a ∷ later) ≡ true
      → every is_raised (push_each (a ∷ later) rt) ≡ true
  unfolding every push_each attach_point
  push-stranded key a later rt free missing sent =
      let (first, (settled, nodes)) =
        push_raises a key a.msg.tail_node_id rt (ground arith) (ground arith) missing in
      let rt' = (push sentinel a.supply a.session_key a.parent a.msg rt).1 in
      let rest =
        push_each_stuck later key a.msg.tail_node_id rt' (ground arith) settled
          (rw (nodes) missing) in
      ground (arith, first, rest)
