-- ===== src/StateMachine.antt =====
-- src/core/state-machine.ts: `BridgeStateMachine`, with the states of src/core/types.ts. A listener
-- is a name; a transition returns the calls that it makes of its listeners. A listener that calls
-- back into the machine is not modelled.
pub mod Listening
pub mod Laws
mod Tests
use remote_codex.Base.{
  ℕ, String, ◌≡◌, ◌↔◌, Bool, true, false, not, ◌&&◌, ◌||◌, Option, none, some, List, [], ◌∷◌, map,
  arith, if◌then◌else◌, Eq, ◌==◌, nat_key, string_key, find_by, includes, add, remove,
}
use Prim.Native.String.{◌++◌ as ◌<>◌}
use remote_codex.Errors.{Result, ok, err, bridge_error, bridge_not_ready}

pub data BridgeState : Type 0 where
  disabled configuring connecting ready busy degraded disconnected incompatible : BridgeState

abbrev pub state_name : BridgeState → String
state_name disabled = "disabled"
state_name configuring = "configuring"
state_name connecting = "connecting"
state_name ready = "ready"
state_name busy = "busy"
state_name degraded = "degraded"
state_name disconnected = "disconnected"
state_name incompatible = "incompatible"

abbrev pub bridge_states : List BridgeState
bridge_states =
    disabled ∷ configuring ∷ connecting ∷ ready ∷ busy ∷ degraded ∷ disconnected ∷ incompatible ∷ []

-- `BRIDGE_STATES.includes(text)`, with the state that it names.
unfoldable pub state_of_name : String → Option BridgeState
state_of_name text = find_by (λ s. state_name s == text) bridge_states

-- `TRANSITIONS[from]`.
unfoldable pub transitions : BridgeState → List BridgeState
transitions disabled = configuring ∷ connecting ∷ []
transitions configuring = disabled ∷ connecting ∷ disconnected ∷ incompatible ∷ []
transitions connecting = ready ∷ degraded ∷ disconnected ∷ incompatible ∷ disabled ∷ []
transitions ready = busy ∷ degraded ∷ disconnected ∷ incompatible ∷ disabled ∷ []
transitions busy = ready ∷ degraded ∷ disconnected ∷ incompatible ∷ disabled ∷ []
transitions degraded = connecting ∷ ready ∷ disconnected ∷ incompatible ∷ disabled ∷ []
transitions disconnected = connecting ∷ disabled ∷ incompatible ∷ []
transitions incompatible = configuring ∷ disabled ∷ connecting ∷ []

abbrev pub state_eq : BridgeState → BridgeState → Bool
state_eq disabled disabled = true
state_eq configuring configuring = true
state_eq connecting connecting = true
state_eq ready ready = true
state_eq busy busy = true
state_eq degraded degraded = true
state_eq disconnected disconnected = true
state_eq incompatible incompatible = true
state_eq _ _ = false

pub state_eq_iff : (s t : BridgeState) → (state_eq s t ≡ true) ↔ (s ≡ t)
state_eq_iff s t = ground arith

instance abbrev pub state_key : Eq BridgeState
state_key = record { same = state_eq; same_iff = state_eq_iff }

pub record Machine : Type 0 where
  pub state : BridgeState
  pub listeners : List ℕ

-- A call `listener(current, previous)`.
pub record Notification : Type 0 where
  pub listener : ℕ
  pub current : BridgeState
  pub previous : BridgeState

abbrev or_disconnected : Option BridgeState → BridgeState
or_disconnected none = disconnected
or_disconnected (some s) = s

unfoldable pub init : String → Machine
init initial = record { state = or_disconnected (state_of_name initial); listeners = [] }

unfoldable pub on_change : ℕ → Machine → Machine
on_change listener m = record m { listeners = add listener m.listeners }

-- The function that `onChange` returns.
unfoldable pub unsubscribe : ℕ → Machine → Machine
unsubscribe listener m = record m { listeners = remove listener m.listeners }

-- The part of `transition` behind the check of its argument.
unfoldable pub move_to : BridgeState → Machine → Result (Machine × List Notification)
unfolding transitions
move_to next m =
    if next == m.state
    then ok (m, [])
    else if not (includes next (transitions m.state))
    then err (
        bridge_error bridge_not_ready
          ("Invalid bridge state transition: " <> state_name m.state <> " -> " <> state_name next))
    else ok (
      record m { state = next },
      map (λ l. record { listener = l; current = next; previous = m.state }) m.listeners,
    )

unfoldable pub transition : String → Machine → Result (Machine × List Notification)
transition next m = move_to (or_disconnected (state_of_name next)) m

unfoldable pub assert_operational : Bool → Machine → Result (Unit {0})
assert_operational read_only m =
    let allowed = m.state == ready || m.state == busy in
    let degraded_read = read_only && m.state == degraded in
    if not allowed && not degraded_read
    then err (bridge_error bridge_not_ready ("Bridge state is " <> state_name m.state))
    else ok tt
