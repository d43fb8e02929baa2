-- ===== src/StateMachine/Tests.antt =====
-- Runs of `BridgeStateMachine` (src/core/state-machine.ts).
use remote_codex.Base.{
  String, ◌≡◌, refl, true, false, some, List, [], ◌∷◌, nat_key, string_key, includes, add, has,
  remove,
}
use remote_codex.Errors.{ok, bridge_error, bridge_not_ready}
use remote_codex.StateMachine.{
  state_key, disabled, connecting, ready, disconnected, Machine, init, on_change, unsubscribe,
  move_to, transition, assert_operational, state_of_name,
}
use remote_codex.StateMachine.Listening.{heard, initial, listens}
use remote_codex.StateMachine.Laws.{
  run, run-needs_connecting, transition-disabled, replay, run-replay, run-needs_ready,
}

abbrev listening : Machine
listening = record { state = disabled; listeners = 3 ∷ [] }

abbrev at_work : Machine
at_work = record { state = ready; listeners = 3 ∷ [] }

abbrev calls : List String
calls = "connecting" ∷ "busy" ∷ "ready" ∷ "busy" ∷ "nonsense" ∷ []

-- The call for `busy` while connecting fails; an unknown state is `disconnected`.
calls-state : (run calls listening).machine.state ≡ disconnected
unfolding run transition move_to state_of_name
calls-state = refl

starts_disconnected : (init "nonsense").state ≡ disconnected
unfolding init state_of_name
starts_disconnected = refl

hears_once : (unsubscribe 4 (on_change 4 (on_change 4 listening))).listeners ≡ 3 ∷ []
unfolding unsubscribe on_change add remove
hears_once = refl

-- Three listeners, one of which has been put in twice.
abbrev crowd : Machine
crowd = on_change 3 (on_change 5 (on_change 3 (on_change 4 (init "disabled"))))

run-replay_example :
    replay disabled (heard 3 (run calls crowd).notified) ≡ some (run calls crowd).machine.state
unfolding on_change init state_of_name add has
run-replay_example =
    run-replay calls 3 crowd (listens 3 (listens 5 (listens 3 (listens 4 (initial "disabled")))))
      refl

run-needs_connecting_example :
    includes connecting (run ("connecting" ∷ "ready" ∷ []) listening).visited ≡ true
unfolding run transition move_to state_of_name assert_operational
run-needs_connecting_example =
    run-needs_connecting ("connecting" ∷ "ready" ∷ []) listening false refl refl

transition-disabled_example :
    transition "disabled" at_work
    ≡ ok (
      record at_work { state = disabled },
      record { listener = 3; current = disabled; previous = ready } ∷ [],
    )
transition-disabled_example = transition-disabled at_work

run-needs_ready_example :
    includes ready (run ("connecting" ∷ "ready" ∷ "busy" ∷ []) listening).visited ≡ true
unfolding run transition move_to state_of_name assert_operational
run-needs_ready_example =
    run-needs_ready ("connecting" ∷ "ready" ∷ "busy" ∷ []) listening
      (bridge_error bridge_not_ready "Bridge state is disabled") refl refl
