-- ===== src/StateMachine/Listening.antt =====
-- The listeners of `BridgeStateMachine` (src/core/state-machine.ts): each stands once in the set, and what it
-- hears.
use remote_codex.Base.{
  ℕ, suc, ◌≤◌, ◌&&◌, nat_eq, nat_eq_iff, add, remove, has, String, ◌≡◌, refl, true, List, [], ◌∷◌,
  ◌++◌, map, arith, if◌then◌else◌, ◌==◌, nat_key, string_key,
}
use remote_codex.Errors.{ok}
use remote_codex.StateMachine.{
  BridgeState, state_key, Machine, Notification, init, on_change, unsubscribe, move_to, transition,
  or_disconnected, state_of_name,
}

-- The calls that a listener gets.
unfoldable pub heard : ℕ → List Notification → List Notification
heard l [] = []
heard l (n ∷ ns) = let rest = heard l ns in if n.listener == l then n ∷ rest else rest

pub heard-append :
    (l : ℕ) (ns ms : List Notification) → heard l (ns ++ ms) ≡ heard l ns ++ heard l ms
unfolding heard
heard-append l [] ms = refl
heard-append l (n ∷ ns) ms = ground (arith, heard-append l ns ms)

-- How often a listener stands in the set.
unfoldable pub times_in : ℕ → List ℕ → ℕ
times_in l [] = 0
times_in l (k ∷ ks) = let rest = times_in l ks in if k == l then suc rest else rest

times_in-add :
    (l k : ℕ) (ks : List ℕ)
    → times_in l (add k ks) ≡ (if k == l && nat_eq (times_in l ks) 0 then 1 else times_in l ks)
unfolding times_in add
times_in-add l k [] = ground arith
times_in-add l k (j ∷ ks) =
    ground (arith, times_in-add l k ks, nat_eq_iff j k, nat_eq_iff j l, nat_eq_iff k l)

times_in-remove :
    (l k : ℕ) (ks : List ℕ) → times_in l (remove k ks) ≡ (if k == l then 0 else times_in l ks)
unfolding times_in remove
times_in-remove l k [] = ground arith
times_in-remove l k (j ∷ ks) =
    ground (arith, times_in-remove l k ks, nat_eq_iff j k, nat_eq_iff j l, nat_eq_iff k l)

pub times_in-has : (l : ℕ) (ks : List ℕ) → has l ks ≡ true → 1 ≤ times_in l ks
unfolding times_in has
times_in-has l [] h = absurd (cc)
times_in-has l (k ∷ ks) h = ground (arith, times_in-has l ks)

-- The machines that calls of the class make.
pub data Made : Machine → Type 0 where
  initial : (text : String) → Made (init text)
  listens : {m : Machine} (listener : ℕ) → Made m → Made (on_change listener m)
  stops : {m : Machine} (listener : ℕ) → Made m → Made (unsubscribe listener m)
  moves :
      {m m' : Machine} {notes : List Notification} (text : String)
      → transition text m ≡ ok (m', notes)
      → Made m
      → Made m'

move_to-listeners :
    (t : BridgeState) (m m' : Machine) (notes : List Notification)
    → move_to t m ≡ ok (m', notes)
    → m'.listeners ≡ m.listeners
unfolding move_to
move_to-listeners t m m' notes h = ground arith

pub Made-once : {m : Machine} (l : ℕ) → Made m → times_in l m.listeners ≤ 1
unfolding init on_change unsubscribe transition
Made-once l (initial text) = unfold times_in in omega arith
Made-once l (listens {m} k made) = ground (arith, times_in-add l k m.listeners, Made-once l made)
Made-once l (stops {m} k made) = ground (arith, times_in-remove l k m.listeners, Made-once l made)
Made-once l (moves {m} {m'} {notes} text h made) =
    rw (move_to-listeners (or_disconnected (state_of_name text)) m m' notes h) (Made-once l made)

unfoldable pub call : BridgeState → BridgeState → ℕ → Notification
call next previous l = record { listener = l; current = next; previous = previous }

heard-none :
    (l : ℕ) (next previous : BridgeState) (ks : List ℕ)
    → times_in l ks ≡ 0
    → heard l (map (call next previous) ks) ≡ []
unfolding heard times_in call
heard-none l next previous [] h = refl
heard-none l next previous (k ∷ ks) h = ground (arith, heard-none l next previous ks)

pub heard-once :
    (l : ℕ) (next previous : BridgeState) (ks : List ℕ)
    → times_in l ks ≡ 1
    → heard l (map (call next previous) ks) ≡ call next previous l ∷ []
unfolding heard times_in call
heard-once l next previous [] h = absurd (omega (arith, h))
heard-once l next previous (k ∷ ks) h =
    ground (arith, heard-none l next previous ks, heard-once l next previous ks)
