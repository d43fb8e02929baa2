-- ===== src/Callbacks/Lanes.antt =====
-- `enqueue` of src/shim/request-callback-queue.ts. An operation is a link of its lane's chain of promises: it
-- may start when the one before it has settled, and the callback of its `finally` runs some time after
-- it has settled itself.
use remote_codex.Base.{
  ℕ, suc, ◌≤◌, ◌<◌, String, ◌≡◌, Bool, true, false, not, ◌&&◌, Option, none, some, [], leb, nat_eq,
  if◌then◌else◌, nat_key, string_key, length, Dict, get, set, delete,
}

pub record Operation : Type 0 where
  pub before : Option ℕ
  pub lane : String
  pub settled : Bool
  pub started : Bool

pub record Lanes : Type 0 where
  pub lanes : Dict String ℕ
  pub next : ℕ
  pub operations : Dict ℕ Operation

abbrev pub init : Lanes
init = record { lanes = []; next = 0; operations = [] }

abbrev pub is_known {ℓ} : {A : Type ℓ} → Option A → Bool
is_known none = false
is_known (some a) = true

-- `none` stands for the promise that is rejected at once.
unfoldable pub enqueue : String → Lanes → Lanes × Option ℕ
enqueue lane s =
    let tail = get lane s.lanes in
    if leb 1024 (length s.lanes) && not (is_known tail) then (s, none) else (
      record {
        lanes = set lane s.next s.lanes;
        next = suc s.next;
        operations =
            set s.next (record { before = tail; lane = lane; settled = false; started = false })
              s.operations;
      },
      some s.next,
    )

abbrev pub has_settled : Option Operation → Bool
has_settled none = false
has_settled (some o) = o.settled

abbrev pub may_start : Lanes → Operation → Bool
may_start s o =
    not o.started && elim o.before [ none ↦ true | some p ↦ has_settled (get p s.operations) ]

-- What the promises do with an operation: it is called, and its promise is settled.
unfoldable pub start : ℕ → Lanes → Lanes
start n s = elim (get n s.operations) [
  | none ↦ s
  | some o ↦
      if may_start s o
      then record s { operations = set n (record o { started = true }) s.operations }
      else s
]

unfoldable pub settle : ℕ → Lanes → Lanes
settle n s = elim (get n s.operations) [
  | none ↦ s
  | some o ↦
      if o.started
      then record s { operations = set n (record o { settled = true }) s.operations }
      else s
]

abbrev pub is_tail : ℕ → Option ℕ → Bool
is_tail n none = false
is_tail n (some t) = nat_eq t n

-- The callback of `finally`.
unfoldable pub clean : ℕ → Lanes → Lanes
clean n s = elim (get n s.operations) [
  | none ↦ s
  | some o ↦
      if o.settled && is_tail n (get o.lane s.lanes)
      then record s { lanes = delete o.lane s.lanes }
      else s
]

pub data Reach : Lanes → Type 0 where
  empty : Reach init
  enqueues : {s : Lanes} (lane : String) → Reach s → Reach (enqueue lane s).0
  starts : {s : Lanes} (n : ℕ) → Reach s → Reach (start n s)
  settles : {s : Lanes} (n : ℕ) → Reach s → Reach (settle n s)
  cleans : {s : Lanes} (n : ℕ) → Reach s → Reach (clean n s)

-- Every operation that came before this one in its lane has settled.
abbrev pub Alone : Lanes → ℕ → Operation → Type 0
Alone s m o =
    (n : ℕ) (p : Operation)
    → get n s.operations ≡ some p
    → p.lane ≡ o.lane
    → n < m
    → p.settled ≡ true

-- What the lanes and the chains say of the operations.
pub record IsChained (s : Lanes) : Type 0 where
  pub fresh : (n : ℕ) (o : Operation) → get n s.operations ≡ some o → n < s.next
  pub tail :
      (lane : String) (t : ℕ)
      → get lane s.lanes ≡ some t
      → (n : ℕ) (o : Operation) → get n s.operations ≡ some o
      → o.lane ≡ lane
      → n ≤ t
  pub named :
      (lane : String) (t : ℕ)
      → get lane s.lanes ≡ some t
      → (o : Operation) × (get t s.operations ≡ some o) × (o.lane ≡ lane)
  pub idle :
      (lane : String)
      → get lane s.lanes ≡ none
      → (n : ℕ) (o : Operation) → get n s.operations ≡ some o
      → o.lane ≡ lane
      → o.settled ≡ true
  pub first : (m : ℕ) (o : Operation) → get m s.operations ≡ some o → o.before ≡ none → Alone s m o
  pub chain :
      (m : ℕ) (o : Operation) (b : ℕ)
      → get m s.operations ≡ some o
      → o.before ≡ some b
      → ((p : Operation) × (get b s.operations ≡ some p) × (p.lane ≡ o.lane))
        × ((n : ℕ) (p : Operation) → get n s.operations ≡ some p → p.lane ≡ o.lane → n < m → n ≤ b)
  pub called :
      (n : ℕ) (o : Operation) → get n s.operations ≡ some o → o.settled ≡ true → o.started ≡ true
  pub alone : (m : ℕ) (o : Operation) → get m s.operations ≡ some o → o.started ≡ true → Alone s m o
