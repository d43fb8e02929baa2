-- ===== src/StateMachine/Laws.antt =====
-- Which histories of `BridgeStateMachine` (src/core/state-machine.ts) can occur.
use remote_codex.Base.{
  ℕ, ◌||◌, has, String, ◌≡◌, refl, ◌∙◌, ◌⊎◌, inl, inr, Bool, true, false, Option, none, some, List,
  [], ◌∷◌, ◌++◌, map, arith, if◌then◌else◌, ◌==◌, nat_key, string_key, includes,
}
use remote_codex.Errors.{BridgeError, Result, ok, err}
use remote_codex.StateMachine.{
  BridgeState, state_key, disabled, configuring, connecting, ready, busy, disconnected,
  incompatible, Machine, Notification, move_to, transition, assert_operational, or_disconnected,
  state_of_name,
}
use remote_codex.StateMachine.Listening.{
  heard, heard-append, times_in, times_in-has, Made, Made-once, call, heard-once,
}

-- The state that a call `transition(text)` asks for.
abbrev pub requested : String → BridgeState
requested text = or_disconnected (state_of_name text)

-- A machine that has no connection yet, or has lost it for good.
abbrev pub is_offline : BridgeState → Bool
is_offline disabled = true
is_offline configuring = true
is_offline disconnected = true
is_offline incompatible = true
is_offline _ = false

-- Calls of `transition` whose errors the caller catches: the machine that they leave, the states
-- behind each call, and all notifications.
pub record Run : Type 0 where
  pub machine : Machine
  pub visited : List BridgeState
  pub notified : List Notification

after : Machine → Result (Machine × List Notification) → Machine × List Notification
after m (ok r) = r
after m (err e) = (m, [])

unfoldable pub run : List String → Machine → Run
unfolding after
run [] m = record { machine = m; visited = []; notified = [] }
run (text ∷ texts) m =
    let (m', notes) = after m (transition text m) in
    let rest = run texts m' in
    record rest { visited = m'.state ∷ rest.visited; notified = notes ++ rest.notified }

after-from_offline :
    (t : BridgeState) (m : Machine)
    → is_offline m.state ≡ true
    → (is_offline (after m (move_to t m)).0.state ≡ true)
      ⊎ ((after m (move_to t m)).0.state ≡ connecting)
unfolding after move_to
after-from_offline t m h = ground arith

-- From a machine with no connection, whatever transitions are asked for: when the bridge accepts
-- work, read-only work included, some accepted transition has gone through `connecting`.
pub run-needs_connecting :
    (texts : List String) (m : Machine) (read_only : Bool)
    → is_offline m.state ≡ true
    → assert_operational read_only (run texts m).machine ≡ ok tt
    → includes connecting (run texts m).visited ≡ true
unfolding run transition
run-needs_connecting [] m read_only h e = absurd (unfold assert_operational in ground arith)
run-needs_connecting (text ∷ texts) m read_only h e =
    elim (after-from_offline (requested text) m h) [
      | inl off ↦ let rest = run-needs_connecting texts _ read_only off e in ground (arith, rest)
      | inr on ↦ rw on
    ]

is_writable : BridgeState → Bool
is_writable s = s == ready || s == busy

after-not_writable :
    (t : BridgeState) (m : Machine)
    → is_writable m.state ≡ false
    → (is_writable (after m (move_to t m)).0.state ≡ false)
      ⊎ ((after m (move_to t m)).0.state ≡ ready)
unfolding after move_to is_writable
after-not_writable t m h = ground arith

run-writable :
    (texts : List String) (m : Machine)
    → is_writable m.state ≡ false
    → assert_operational false (run texts m).machine ≡ ok tt
    → includes ready (run texts m).visited ≡ true
unfolding run transition is_writable
run-writable [] m h e = absurd (unfold assert_operational in ground arith)
run-writable (text ∷ texts) m h e = elim (after-not_writable (requested text) m h) [
  | inl off ↦ let rest = run-writable texts _ off e in ground (arith, rest)
  | inr on ↦ rw on refl
]

-- From a machine that refuses writing, whatever transitions are asked for: when the bridge accepts
-- writing, some accepted transition has led to ready. No call for busy gets there by itself.
pub run-needs_ready :
    (texts : List String) (m : Machine) (e : BridgeError)
    → assert_operational false m ≡ err e
    → assert_operational false (run texts m).machine ≡ ok tt
    → includes ready (run texts m).visited ≡ true
unfolding assert_operational is_writable
run-needs_ready texts m e refused accepted =
    let idle : is_writable m.state ≡ false = ground arith in run-writable texts m idle accepted

-- Every call for `disabled` succeeds, in any state, and switches the bridge off. All listeners hear
-- of it, unless it was off already.
pub transition-disabled :
    (m : Machine)
    → transition "disabled" m
      ≡ ok (
        record m { state = disabled },
        if m.state == disabled
            then []
            else map
                (λ l. record { listener = l; current = disabled; previous = m.state })
                m.listeners,
      )
unfolding transition move_to state_of_name
transition-disabled m = ground arith

-- A listener that keeps a copy of the state and checks each notification's `previous` against it.
abbrev pub replay : BridgeState → List Notification → Option BridgeState
replay s [] = some s
replay s (n ∷ ns) = if n.previous == s then replay n.current ns else none

replay-append :
    (s t : BridgeState) (ns ms : List Notification)
    → replay s ns ≡ some t
    → replay s (ns ++ ms) ≡ replay t ms
replay-append s t [] ms h = cc
replay-append s t (n ∷ ns) ms h = ground (arith, replay-append n.current t ns ms)

after-replay :
    (t : BridgeState) (l : ℕ) (m : Machine)
    → times_in l m.listeners ≡ 1
    → (replay m.state (heard l (after m (move_to t m)).1) ≡ some (after m (move_to t m)).0.state)
      × (times_in l (after m (move_to t m)).0.listeners ≡ 1)
unfolding after move_to heard call
after-replay t l m h = ground (arith, heard-once l t m.state m.listeners h)

once-replay :
    (texts : List String) (l : ℕ) (m : Machine)
    → times_in l m.listeners ≡ 1
    → replay m.state (heard l (run texts m).notified) ≡ some (run texts m).machine.state
unfolding run transition
once-replay [] l m h = unfold heard in refl
once-replay (text ∷ texts) l m h =
    let (kept, same) = after-replay (requested text) l m h in
    rw (heard-append l (after m (transition text m)).1) (
      replay-append m.state _ (heard l (after m (transition text m)).1) _ kept
      ∙ once-replay texts l _ same)

-- On a machine with any listeners, as calls of the class have made it: the notifications that one of
-- its listeners receives, over any calls of `transition`, errors included, chain from the state at the
-- start to the state at the end: none is missing, doubled or out of order.
pub run-replay :
    (texts : List String) (l : ℕ) (m : Machine)
    → Made m
    → has l m.listeners ≡ true
    → replay m.state (heard l (run texts m).notified) ≡ some (run texts m).machine.state
run-replay texts l m made there =
    once-replay texts l m (omega (arith, Made-once l made, times_in-has l m.listeners there))
