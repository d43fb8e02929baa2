-- ===== src/Callbacks/LaneSteps.antt =====
-- `enqueue` of src/shim/request-callback-queue.ts: what the promises of the operations do to the lanes.
use remote_codex.Base.{
  ℕ, ◌<◌, String, ◌≡◌, refl, sym, ap, ◌∙◌, subst, ◌⊎◌, inl, inr, true, false, ◌&&◌, Option, none,
  some, arith, nat_eq, if◌then◌else◌, Bool-cases, Option-cases, Eq, ◌==◌, nat_key, string_key,
  some_inj, nat_eq_iff, Dict, get, set, delete, get-set, get-delete,
}
use remote_codex.Callbacks.Lanes.{
  Operation, Lanes, has_settled, may_start, start, settle, clean, is_tail, Alone, IsChained,
}

pub set_cases :
    {K V : Type 0} ⦃e : Eq K⦄ (m n : K) (v p : V) (d : Dict K V)
    → get n (set m v d) ≡ some p
    → ((m ≡ n) × (v ≡ p)) ⊎ (((m == n) ≡ false) × (get n d ≡ some p))
set_cases ⦃e⦄ m n v p d h = elim (Bool-cases (m == n)) [
  | inl same ↦ inl ((e.same_iff m n).0 same, some_inj (sym (get-set m n v d ∙ rw same refl) ∙ h))
  | inr other ↦ inr (other, sym (get-set m n v d ∙ rw other refl) ∙ h)
]

pub get-set_new :
    {V : Type 0} (m n : ℕ) (v p : V) (d : Dict ℕ V)
    → n < m
    → get n d ≡ some p
    → get n (set m v d) ≡ some p
get-set_new m n v p d l h =
    let other : nat_eq m n ≡ false = ground arith in get-set m n v d ∙ rw other h

-- Operations that have gone on: the same lanes and chains, and what was settled still is.
pub record Older (a b : Dict ℕ Operation) : Type 0 where
  pub back :
      (n : ℕ) (p : Operation)
      → get n b ≡ some p
      → (q : Operation) × (get n a ≡ some q)
        × (p.lane ≡ q.lane)
        × (p.before ≡ q.before)
        × (q.settled ≡ true → p.settled ≡ true)
  pub forth :
      (n : ℕ) (q : Operation)
      → get n a ≡ some q
      → (p : Operation) × (get n b ≡ some p) × (p.lane ≡ q.lane)

pub set-Older :
    (m : ℕ) (o o' : Operation) (d : Dict ℕ Operation)
    → get m d ≡ some o
    → o'.lane ≡ o.lane
    → o'.before ≡ o.before
    → (o.settled ≡ true → o'.settled ≡ true)
    → Older d (set m o' d)
set-Older m o o' d found lane before settled = record {
  back = λ n p h. elim (set_cases m n o' p d h) [
    | inl (same, new) ↦
        subst
          (λ x.
            (q : Operation) × (get n d ≡ some q)
            × (x.lane ≡ q.lane)
            × (x.before ≡ q.before)
            × (q.settled ≡ true → x.settled ≡ true))
          new (o, subst (λ k. get k d ≡ some o) same found, lane, before, settled)
    | inr (other, old) ↦ (p, old, refl, refl, λ e. e)
  ];
  forth = λ n q h. elim (Bool-cases (nat_eq m n)) [
    | inl same ↦
        let e = (nat_eq_iff m n).0 same in
        let old : o ≡ q = some_inj (sym (subst (λ k. get k d ≡ some o) e found) ∙ h) in
        (o', get-set m n o' d ∙ rw same refl, lane ∙ ap (λ x. x.lane) old)
    | inr other ↦ (q, get-set m n o' d ∙ rw other h, refl)
  ];
}

-- What the lanes and the chains say still holds when the operations have gone on.
pub evolve :
    (s s' : Lanes)
    → IsChained s
    → s'.lanes ≡ s.lanes
    → s'.next ≡ s.next
    → Older s.operations s'.operations
    → ((n : ℕ) (o : Operation) → get n s'.operations ≡ some o → o.settled ≡ true → o.started ≡ true)
    → ((m : ℕ) (o : Operation) → get m s'.operations ≡ some o → o.started ≡ true → Alone s' m o)
    → IsChained s'
evolve s s' h lanes next old called alone = record {
  fresh = λ n o g. let (q, f, l, b, st) = old.back n o g in rw next (h.fresh n q f);
  tail = λ lane t g n o f l.
      let (q, k, ql, b, st) = old.back n o f in h.tail lane t (rw lanes at g) n q k (sym ql ∙ l);
  named = λ lane t g.
      let (o, f, l) = h.named lane t (rw lanes at g) in
      let (p, k, pl) = old.forth t o f in (p, k, pl ∙ l);
  idle = λ lane g n o f l.
      let (q, k, ql, b, st) = old.back n o f in st (h.idle lane (rw lanes at g) n q k (sym ql ∙ l));
  first = λ m o g e n p f l less.
      let (q, k, ql, qb, st) = old.back m o g in
      let (r, kr, rl, rb, str) = old.back n p f in
      str (h.first m q k (sym qb ∙ e) n r kr (sym rl ∙ l ∙ ql) less);
  chain = λ m o b g e.
      let (q, k, ql, qb, st) = old.back m o g in
      let ((p, pf, pl), least) = h.chain m q b k (sym qb ∙ e) in
      let (p', pk, pl') = old.forth b p pf in
      (
        (p', pk, pl' ∙ pl ∙ sym ql),
        λ n r f l less.
            let (r0, kr, rl, rb, str) = old.back n r f in least n r0 kr (sym rl ∙ l ∙ ql) less,
      );
  called = called;
  alone = alone;
}

-- An operation that may start: those before it in its lane have settled.
pub may_start-Alone :
    (s : Lanes) (m : ℕ) (o : Operation) (before : Option ℕ)
    → IsChained s
    → get m s.operations ≡ some o
    → o.before ≡ before
    → may_start s o ≡ true
    → Alone s m o
may_start-Alone s m o none h g e may n p f l less = h.first m o g e n p f l less
may_start-Alone s m o (some b) h g e may n p f l less =
    let ((q, found, lane), least) = h.chain m o b g e in
    let ready : has_settled (get b s.operations) ≡ true = ground (arith, rw e at may) in
    let over : q.settled ≡ true = rw found at ready in
    let low = least n p f l less in
    elim (Bool-cases (nat_eq n b)) [
      | inl same ↦
          let here = subst (λ k. get k s.operations ≡ some p) ((nat_eq_iff n b).0 same) f in
          let one : p ≡ q = some_inj (sym here ∙ found) in
          subst (λ x. x.settled ≡ true) (sym one) over
      | inr other ↦
          h.alone b q found (h.called b q found over) n p f (l ∙ sym lane)
            (ground (arith, low, other))
    ]

abbrev pub started : ℕ → Operation → Lanes → Lanes
started m o s = record s { operations = set m (record o { started = true }) s.operations }

pub started-IsChained :
    (m : ℕ) (s : Lanes) (o : Operation)
    → IsChained s
    → get m s.operations ≡ some o
    → may_start s o ≡ true
    → IsChained (started m o s)
started-IsChained m s o h found may =
    let o' = record o { started = true } in
    let old = set-Older m o o' s.operations found refl refl (λ e. e) in
    evolve s (started m o s) h refl refl old
      (λ n p g settled. elim (set_cases m n o' p s.operations g) [
        | inl (same, new) ↦ ap (λ x. x.started) (sym new)
        | inr (other, k) ↦ h.called n p k settled
      ])
      (λ n p g begun r q f l less.
        let (q0, k, ql, qb, st) = old.back r q f in
        elim (set_cases m n o' p s.operations g) [
          | inl (same, new) ↦
              let lane : o.lane ≡ p.lane = ap (λ x. x.lane) new in
              st (
                may_start-Alone s m o o.before h found refl may r q0 k (sym ql ∙ l ∙ sym lane)
                  (subst (λ x. r < x) (sym same) less))
          | inr (other, kept) ↦ st (h.alone n p kept begun r q0 k (sym ql ∙ l) less)
        ])

pub start-IsChained : (n : ℕ) (s : Lanes) → IsChained s → IsChained (start n s)
unfolding start
start-IsChained m s h = elim (Option-cases (get m s.operations)) [
  | inl missing ↦ rw (start, missing) h
  | inr (o, found) ↦ elim (Bool-cases (may_start s o)) [
    | inr waits ↦ rw (start, found, waits) h
    | inl may ↦ rw (start, found, may) (started-IsChained m s o h found may)
  ]
]

abbrev pub ended : ℕ → Operation → Lanes → Lanes
ended m o s = record s { operations = set m (record o { settled = true }) s.operations }

pub ended-IsChained :
    (m : ℕ) (s : Lanes) (o : Operation)
    → IsChained s
    → get m s.operations ≡ some o
    → o.started ≡ true
    → IsChained (ended m o s)
ended-IsChained m s o h found begun =
    let o' = record o { settled = true } in
    let old = set-Older m o o' s.operations found refl refl (λ e. refl) in
    evolve s (ended m o s) h refl refl old
      (λ n p g settled. elim (set_cases m n o' p s.operations g) [
        | inl (same, new) ↦ ap (λ x. x.started) (sym new) ∙ begun
        | inr (other, k) ↦ h.called n p k settled
      ])
      (λ n p g running r q f l less.
        let (q0, k, ql, qb, st) = old.back r q f in
        elim (set_cases m n o' p s.operations g) [
          | inl (same, new) ↦
              let lane : o.lane ≡ p.lane = ap (λ x. x.lane) new in
              st (
                h.alone m o found begun r q0 k (sym ql ∙ l ∙ sym lane)
                  (subst (λ x. r < x) (sym same) less))
          | inr (other, kept) ↦ st (h.alone n p kept running r q0 k (sym ql ∙ l) less)
        ])

pub settle-IsChained : (n : ℕ) (s : Lanes) → IsChained s → IsChained (settle n s)
unfolding settle
settle-IsChained m s h = elim (Option-cases (get m s.operations)) [
  | inl missing ↦ rw (settle, missing) h
  | inr (o, found) ↦ elim (Bool-cases o.started) [
    | inr waits ↦ rw (settle, found, waits) h
    | inl begun ↦
        rw (settle, found)
          (subst (λ b. IsChained (if b then ended m o s else s)) (sym begun)
            (ended-IsChained m s o h found begun))
  ]
]

pub is_tail-eq : (n : ℕ) (o : Option ℕ) → is_tail n o ≡ true → o ≡ some n
is_tail-eq n none h = absurd (cc)
is_tail-eq n (some t) h = ap some ((nat_eq_iff t n).0 h)

abbrev pub cleaned : String → Lanes → Lanes
cleaned lane s = record s { lanes = delete lane s.lanes }

pub kept_lane :
    (lane j : String) (t : ℕ) (d : Dict String ℕ)
    → get j (delete lane d) ≡ some t
    → get j d ≡ some t
kept_lane lane j t d g = elim (Bool-cases (lane == j)) [
  | inl same ↦ absurd (let z : none ≡ some t = sym (get-delete lane j d ∙ rw same refl) ∙ g in cc)
  | inr other ↦ sym (get-delete lane j d ∙ rw other refl) ∙ g
]

-- The lane's last operation has settled: so have all of the lane.
pub cleaned-IsChained :
    (m : ℕ) (s : Lanes) (o : Operation)
    → IsChained s
    → get m s.operations ≡ some o
    → o.settled ≡ true
    → get o.lane s.lanes ≡ some m
    → IsChained (cleaned o.lane s)
cleaned-IsChained m s o h found over last = record {
  fresh = h.fresh;
  tail = λ lane t g. h.tail lane t (kept_lane o.lane lane t s.lanes g);
  named = λ lane t g. h.named lane t (kept_lane o.lane lane t s.lanes g);
  idle = λ lane g n p f l. elim (Bool-cases (o.lane == lane)) [
    | inr other ↦ h.idle lane (sym (get-delete o.lane lane s.lanes ∙ rw other refl) ∙ g) n p f l
    | inl same ↦
        let e : o.lane ≡ lane = (string_key.same_iff o.lane lane).0 same in
        let low = h.tail o.lane m last n p f (l ∙ sym e) in
        elim (Bool-cases (nat_eq n m)) [
          | inl here ↦
              let at_m = subst (λ k. get k s.operations ≡ some p) ((nat_eq_iff n m).0 here) f in
              let one : o ≡ p = some_inj (sym found ∙ at_m) in
              subst (λ x. x.settled ≡ true) one over
          | inr before ↦
              h.alone m o found (h.called m o found over) n p f (l ∙ sym e)
                (ground (arith, low, before))
        ]
  ];
  first = h.first;
  chain = h.chain;
  called = h.called;
  alone = h.alone;
}

pub clean-IsChained : (n : ℕ) (s : Lanes) → IsChained s → IsChained (clean n s)
unfolding clean
clean-IsChained m s h = elim (Option-cases (get m s.operations)) [
  | inl missing ↦ rw (clean, missing) h
  | inr (o, found) ↦ elim (Bool-cases (o.settled && is_tail m (get o.lane s.lanes))) [
    | inr stays ↦ rw (clean, found, stays) h
    | inl goes ↦
        rw (clean, found, goes)
          (cleaned-IsChained m s o h found (ground (arith, goes))
            (is_tail-eq m (get o.lane s.lanes) (ground (arith, goes))))
  ]
]
