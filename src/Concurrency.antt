-- ===== src/Concurrency.antt =====
-- TinyCTX/modules/concurrency: the roster of running forks and the tools that spawn and nudge one.
-- The JSON of an answer is a value, `repr` and `strip` are parameters, and a run is its handle.
pub mod Roster
use Prim.Native.String
use tiny_ctx.Base.{
  String, Bool, true, false, not, ◌&&◌, Option, none, some, List, [], ◌∷◌, ◌++◌, map, ◌==◌,
  string_eq, keep, if◌then◌else◌,
}
use tiny_ctx.Base.Dict.{Dict}
use tiny_ctx.Db.{Outcome, returned, raised}
use tiny_ctx.Runtime.{Run, Runtime, Supply, is_running, runs_in_session, start_run, nudge}

-- What a tool answers: the two shapes of `{"status": "ok"}` and the error.
pub data Answer : Type 0 where
  ok : Answer
  ok_run : String → Answer
  error : String → Answer

unfoldable pub running_forks_preamble : String
running_forks_preamble =
    "Other copies of yourself, multitasking. Respond with NO_REPLY if you don't need to do anything. Don't redo what one's already doing:"

-- `peers` of the provider
unfoldable pub peers : Run → Dict String Run → List Run
peers active runs =
    keep (λ r. not (r.id == active.id) && is_running r.status)
      (runs_in_session active.session_key runs)

-- `take` is `run.id[:8]`.
unfoldable pub format_run_line : (String → String) → (String → String) → Run → String
format_run_line take shown r =
    String.◌++◌ "- fork " (String.◌++◌ (take r.id) (String.◌++◌ ": " (shown r.intent)))

unfoldable pub roster_lines : List String → Option (List String)
roster_lines [] = none
roster_lines (line ∷ lines) =
    some (running_forks_preamble ∷ "<running_forks>" ∷ (line ∷ lines ++ ("</running_forks>" ∷ [])))

-- The lines of the roster, which the provider joins.
unfoldable pub running_forks_provider :
    (String → String) → (String → String) → Option Run → Dict String Run → Option (List String)
running_forks_provider take shown none runs = none
running_forks_provider take shown (some active) runs =
    roster_lines (map (format_run_line take shown) (peers active runs))

module _ {T : Type 0} where
  unfoldable pub spawn_fork :
      (String → String)
      → Supply T
      → Run
      → String
      → String
      → String
      → Runtime T
      → Outcome Answer × Runtime T
  spawn_fork strip supply active tail caller prompt rt =
      let text : String = strip prompt in
      let (outcome, rt') = start_run supply active.session_key text tail caller (some active) rt in
      if text == ""
      then (returned (error "spawn_fork requires a non-empty prompt."), rt)
      else elim outcome [
        | raised why ↦ (raised why, rt')
        | returned r ↦ (returned (ok_run r.id), rt')
      ]

  unfoldable pub nudge_fork :
      (String → String) → (String → String) → Run → String → String → Runtime T → Answer × Runtime T
  nudge_fork strip shown active run_id message rt =
      let text : String = strip message in
      let (sent, rt') = nudge shown run_id active text rt in
      if text == ""
      then (error "nudge_fork requires a non-empty message.", rt)
      else if sent
      then (ok, rt')
      else (error "That fork already completed (or is unknown).", rt')
