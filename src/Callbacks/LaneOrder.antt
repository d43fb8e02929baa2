-- ===== src/Callbacks/LaneOrder.antt =====
-- `enqueue` of src/shim/request-callback-queue.ts: in which order the operations of a lane run.
use remote_codex.Base.{
  ℕ, suc, ◌≤◌, ◌<◌, String, ◌≡◌, refl, sym, ap, ◌∙◌, subst, ◌⊎◌, inl, inr, true, false, not, ◌&&◌,
  Option, none, some, arith, leb, Bool-cases, ◌==◌, nat_key, string_key, ==_refl, length, get, set,
  get-set,
}
use remote_codex.Callbacks.Lanes.{
  Operation, Lanes, init, enqueue, is_known, Reach, empty, enqueues, starts, settles, cleans, Alone,
  IsChained,
}
use remote_codex.Callbacks.LaneSteps.{
  set_cases, get-set_new, start-IsChained, settle-IsChained, clean-IsChained,
}

abbrev added : String → Lanes → Lanes
added lane s = record {
  lanes = set lane s.next s.lanes;
  next = suc s.next;
  operations =
      set s.next
        (record { before = get lane s.lanes; lane = lane; settled = false; started = false })
        s.operations;
}

-- With the new operation given apart.
module _ (s : Lanes) (h : IsChained s) (lane : String) where
  abbrev new_operation : Operation
  new_operation = record {
    before = get lane s.lanes;
    lane = lane;
    settled = false;
    started = false;
  }

  -- What the operations are: the new one, or one from before.
  operation_cases :
      (n : ℕ) (p : Operation)
      → get n (added lane s).operations ≡ some p
      → ((s.next ≡ n) × (new_operation ≡ p)) ⊎ ((n < s.next) × (get n s.operations ≡ some p))
  operation_cases n p g = elim (set_cases s.next n new_operation p s.operations g) [
    | inl new ↦ inl new
    | inr (other, old) ↦ inr (h.fresh n p old, old)
  ]

  -- An operation that came before another one is one from before.
  earlier :
      (n m : ℕ) (p : Operation)
      → get n (added lane s).operations ≡ some p
      → n < m
      → m ≤ s.next
      → get n s.operations ≡ some p
  earlier n m p g less low = elim (operation_cases n p g) [
    | inl (same, new) ↦ absurd (omega (arith, same, less, low))
    | inr (l, old) ↦ old
  ]

  other_lane : (j : String) → (lane == j) ≡ false → lane ≡ j → ⊥
  other_lane j other e = let z : true ≡ false = sym ((string_key.same_iff lane j).1 e) ∙ other in cc

  new_first :
      (before : Option ℕ)
      → get lane s.lanes ≡ before
      → before ≡ none
      → Alone (added lane s) s.next new_operation
  new_first before e z n p g l less =
      h.idle lane (e ∙ z) n p (earlier n s.next p g less (omega arith)) l

  added-IsChained : IsChained (added lane s)
  added-IsChained = record {
    fresh = λ n p g. elim (operation_cases n p g) [
      | inl (same, new) ↦ omega (arith, same)
      | inr (l, old) ↦ omega (arith, l)
    ];
    tail = λ j t g n p f l. elim (set_cases lane j s.next t s.lanes g) [
      | inl (here, new) ↦ elim (operation_cases n p f) [
        | inl (same, is_new) ↦ omega (arith, same, new)
        | inr (low, old) ↦ omega (arith, low, new)
      ]
      | inr (other, old_tail) ↦ elim (operation_cases n p f) [
        | inl (same, is_new) ↦ absurd (other_lane j other (ap (λ x. x.lane) is_new ∙ l))
        | inr (low, old) ↦ h.tail j t old_tail n p old l
      ]
    ];
    named = λ j t g. elim (set_cases lane j s.next t s.lanes g) [
      | inl (here, new) ↦
          let there = get-set s.next t new_operation s.operations ∙ rw new (rw (==_refl t) refl) in
          (new_operation, there, here)
      | inr (other, old) ↦
          let (o, f, l) = h.named j t old in
          (o, get-set_new s.next t new_operation o s.operations (h.fresh t o f) f, l)
    ];
    idle = λ j g n p f l. elim (Bool-cases (lane == j)) [
      | inl same ↦ absurd (
          let z : some s.next ≡ none = sym (get-set lane j s.next s.lanes ∙ rw same refl) ∙ g in cc)
      | inr other ↦ elim (operation_cases n p f) [
        | inl (here, is_new) ↦ absurd (other_lane j other (ap (λ x. x.lane) is_new ∙ l))
        | inr (low, old) ↦
            h.idle j (sym (get-set lane j s.next s.lanes ∙ rw other refl) ∙ g) n p old l
      ]
    ];
    first = λ m o g e. elim (operation_cases m o g) [
      | inl (same, new) ↦
          let k = new_first (get lane s.lanes) refl (ap (λ x. x.before) new ∙ e) in
          subst (λ x. Alone (added lane s) m x) new
            (subst (λ y. Alone (added lane s) y new_operation) same k)
      | inr (low, old) ↦
          λ n p f l less. h.first m o old e n p (earlier n m p f less (omega (arith, low))) l less
    ];
    chain = λ m o b g e. elim (operation_cases m o g) [
      | inl (same, new) ↦
          let tail : get lane s.lanes ≡ some b = ap (λ x. x.before) new ∙ e in
          let here : lane ≡ o.lane = ap (λ x. x.lane) new in
          let (p, pf, pl) = h.named lane b tail in
          (
            (p, get-set_new s.next b new_operation p s.operations (h.fresh b p pf) pf, pl ∙ here),
            λ n r f l less.
                h.tail lane b tail n r (earlier n m r f less (omega (arith, same))) (l ∙ sym here),
          )
      | inr (low, old) ↦
          let ((p, pf, pl), least) = h.chain m o b old e in
          (
            (p, get-set_new s.next b new_operation p s.operations (h.fresh b p pf) pf, pl),
            λ n r f l less. least n r (earlier n m r f less (omega (arith, low))) l less,
          )
    ];
    called = λ n p g settled. elim (operation_cases n p g) [
      | inl (same, new) ↦ absurd (let z : false ≡ true = ap (λ x. x.settled) new ∙ settled in cc)
      | inr (low, old) ↦ h.called n p old settled
    ];
    alone = λ m o g begun n p f l less. elim (operation_cases m o g) [
      | inl (same, new) ↦ absurd (let z : false ≡ true = ap (λ x. x.started) new ∙ begun in cc)
      | inr (low, old) ↦
          h.alone m o old begun n p (earlier n m p f less (omega (arith, low))) l less
    ];
  }

enqueue-IsChained : (lane : String) (s : Lanes) → IsChained s → IsChained (enqueue lane s).0
unfolding enqueue
enqueue-IsChained lane s h =
    elim (Bool-cases (leb 1024 (length s.lanes) && not (is_known (get lane s.lanes)))) [
      | inl full ↦ rw (enqueue, full) h
      | inr room ↦ rw (enqueue, room) (added-IsChained s h lane)
    ]

init-IsChained : IsChained init
unfolding get
init-IsChained = record {
  fresh = λ n o g. absurd (cc);
  tail = λ lane t g. absurd (cc);
  named = λ lane t g. absurd (cc);
  idle = λ lane g n o f. absurd (cc);
  first = λ m o g. absurd (cc);
  chain = λ m o b g. absurd (cc);
  called = λ n o g. absurd (cc);
  alone = λ m o g. absurd (cc);
}

pub Reach-IsChained : {s : Lanes} → Reach s → IsChained s
Reach-IsChained empty = init-IsChained
Reach-IsChained (enqueues {s} lane r) = enqueue-IsChained lane s (Reach-IsChained r)
Reach-IsChained (starts {s} n r) = start-IsChained n s (Reach-IsChained r)
Reach-IsChained (settles {s} n r) = settle-IsChained n s (Reach-IsChained r)
Reach-IsChained (cleans {s} n r) = clean-IsChained n s (Reach-IsChained r)

-- In every history: an operation of a lane is not called before each of those that were put into the lane
-- before it has settled, so that one at most of a lane runs at a time, and they run in their order, also
-- when the lane has been given up and taken anew in between.
pub Reach-Alone :
    {s : Lanes}
    → Reach s
    → (m : ℕ) (o : Operation) → get m s.operations ≡ some o
    → o.started ≡ true
    → Alone s m o
Reach-Alone r = (Reach-IsChained r).alone
