-- ===== src/Callbacks/Settling.antt =====
-- Which promises of `RequestCallbackQueue` (src/shim/request-callback-queue.ts) are resolved, how often.
use remote_codex.Base.{
  ℕ, suc, ◌+◌, ◌≤◌, ◌<◌, String, ◌≡◌, refl, sym, ap, ◌∙◌, subst, ◌⊎◌, inl, inr, true, false, none,
  some, List, [], ◌∷◌, ◌++◌, arith, nat_eq, if◌then◌else◌, Bool-cases, Option-cases, ◌==◌, nat_key,
  string_key, ==_refl, some_inj, nat_eq_iff, Dict, get, delete, get-set, get-delete,
}
use remote_codex.Rpc.{RpcId}
use remote_codex.Callbacks.{Pending, Answer, RequestCallbackQueue, settle, register}

-- How often a promise was resolved.
abbrev pub times : ℕ → List (ℕ × Answer) → ℕ
times c [] = 0
times c ((call, answer) ∷ given) = if nat_eq call c then suc (times c given) else times c given

pub times-append :
    (c call : ℕ) (answer : Answer) (given : List (ℕ × Answer))
    → times c (given ++ (call, answer) ∷ []) ≡ times c given + (if nat_eq call c then 1 else 0)
times-append c call answer [] = ground arith
times-append c call answer ((other, a) ∷ given) = ground (arith, times-append c call answer given)

-- Each promise has been resolved once, or waits under one key.
pub record IsSettled (q : RequestCallbackQueue) : Type 0 where
  pub waiting :
      (key : String) (p : Pending)
      → get key q.callbacks ≡ some p
      → (p.call < q.next_call) × (times p.call q.resolved ≡ 0)
  pub single :
      (key other : String) (p r : Pending)
      → get key q.callbacks ≡ some p
      → get other q.callbacks ≡ some r
      → p.call ≡ r.call
      → key ≡ other
  pub answered :
      (c : ℕ)
      → c < q.next_call
      → (times c q.resolved ≡ 1)
        ⊎ ((times c q.resolved ≡ 0)
            × (key : String) × (p : Pending) × (get key q.callbacks ≡ some p)
            × (p.call ≡ c))
  pub future : (c : ℕ) → q.next_call ≤ c → times c q.resolved ≡ 0

-- What is left behind a deletion was there, under another key.
get-delete-some :
    (key other : String) (m : Dict String Pending) (p : Pending)
    → get other (delete key m) ≡ some p
    → (get other m ≡ some p) × ((key == other) ≡ false)
get-delete-some key other m p h = elim (Bool-cases (key == other)) [
  | inl hit ↦ absurd (let z : none ≡ some p = sym (get-delete key other m ∙ rw hit refl) ∙ h in cc)
  | inr miss ↦ (sym (get-delete key other m ∙ rw miss refl) ∙ h, miss)
]

other_key :
    (key other : String) (p r : Pending) (c : ℕ) (q : RequestCallbackQueue)
    → get key q.callbacks ≡ some p
    → get other q.callbacks ≡ some r
    → r.call ≡ c
    → nat_eq p.call c ≡ false
    → (key == other) ≡ false
other_key key other p r c q there old e away = elim (Bool-cases (key == other)) [
  | inr miss ↦ miss
  | inl hit ↦
      let same : p ≡ r =
        some_inj
          (sym there ∙ ap (λ k. get k q.callbacks) ((string_key.same_iff key other).0 hit) ∙ old) in
      absurd (
        let z : true ≡ false = sym ((nat_eq_iff p.call c).1 (ap (λ x. x.call) same ∙ e)) ∙ away in
        cc)
]

settled :
    (key : String) (answer : Answer) (p : Pending) (q : RequestCallbackQueue)
    → get key q.callbacks ≡ some p
    → IsSettled q
    → IsSettled (record q {
      callbacks = delete key q.callbacks;
      resolved = q.resolved ++ (p.call, answer) ∷ [];
    })
settled key answer p q there v =
    let counts = λ (c : ℕ). times-append c p.call answer q.resolved in
    record {
      waiting = λ other r h.
          let (old, miss) = get-delete-some key other q.callbacks r h in
          let (early, unanswered) = v.waiting other r old in
          elim (Bool-cases (nat_eq p.call r.call)) [
            | inl same ↦ absurd (
                let e : key ≡ other = v.single key other p r there old ((nat_eq_iff _ _).0 same) in
                let z : true ≡ false = sym ((string_key.same_iff key other).1 e) ∙ miss in cc)
            | inr away ↦ (early, counts r.call ∙ rw (away, unanswered) refl)
          ];
      single = λ one other r t h k e.
          v.single one other r t (get-delete-some key one q.callbacks r h).0
            (get-delete-some key other q.callbacks t k).0 e;
      answered = λ c l. elim (Bool-cases (nat_eq p.call c)) [
        | inl here ↦
            let none_yet : times c q.resolved ≡ 0 =
              subst (λ n. times n q.resolved ≡ 0) ((nat_eq_iff _ _).0 here)
                (v.waiting key p there).1 in
            inl (counts c ∙ rw (here, none_yet) refl)
        | inr away ↦ elim (v.answered c l) [
          | inl once ↦ inl (counts c ∙ rw (away, once) refl)
          | inr (none_yet, other, r, old, e) ↦ inr (
            counts c ∙ rw (away, none_yet) refl,
            other,
            r,
            get-delete key other q.callbacks
                ∙ rw (other_key key other p r c q there old e away) old,
            e,
          )
        ]
      ];
      future = λ c l.
          let early = (v.waiting key p there).0 in
          let away : nat_eq p.call c ≡ false = ground (arith, nat_eq_iff p.call c) in
          counts c ∙ rw (away, v.future c l) refl;
    }

pub settle-IsSettled :
    (key : String) (answer : RpcId → Answer) (q : RequestCallbackQueue)
    → IsSettled q
    → IsSettled (settle key answer q)
unfolding settle
settle-IsSettled key answer q v = elim (Option-cases (get key q.callbacks)) [
  | inl absent ↦ rw (settle, absent) v
  | inr (p, there) ↦ rw (settle, there) (settled key (answer p.id) p q there v)
]

absent_key :
    (key other : String) (p : Pending) (q : RequestCallbackQueue)
    → get key q.callbacks ≡ none
    → get other q.callbacks ≡ some p
    → (key == other) ≡ false
absent_key key other p q new old = elim (Bool-cases (key == other)) [
  | inr miss ↦ miss
  | inl hit ↦ absurd (
      let z : none ≡ some p =
        sym new ∙ ap (λ k. get k q.callbacks) ((string_key.same_iff key other).0 hit) ∙ old in
      cc)
]

-- A new key.
registered :
    (key : String) (id : RpcId) (q : RequestCallbackQueue) (other : String) (r : Pending)
    → get other (register key id q).callbacks ≡ some r
    → ((key ≡ other) × (r.call ≡ q.next_call))
      ⊎ (((key == other) ≡ false) × (get other q.callbacks ≡ some r))
unfolding register
registered key id q other r h = elim (Bool-cases (key == other)) [
  | inl hit ↦
      let fresh : Pending = record { call = q.next_call; id = id } in
      let e : some fresh ≡ some r = sym (get-set key other fresh q.callbacks ∙ rw hit refl) ∙ h in
      let calls : q.next_call ≡ r.call = ap (λ (x : Pending). x.call) (some_inj e) in
      inl ((string_key.same_iff key other).0 hit, sym calls)
  | inr miss ↦ inr (miss, sym (get-set key other _ q.callbacks ∙ rw miss refl) ∙ h)
]

register-answered :
    (key : String) (id : RpcId) (q : RequestCallbackQueue) (c : ℕ)
    → get key q.callbacks ≡ none
    → IsSettled q
    → c < suc q.next_call
    → (times c (register key id q).resolved ≡ 1)
      ⊎ ((times c (register key id q).resolved ≡ 0)
          × (other : String) × (p : Pending) × (get other (register key id q).callbacks ≡ some p)
          × (p.call ≡ c))
unfolding register
register-answered key id q c new v l =
    let fresh : Pending = record { call = q.next_call; id = id } in
    elim (Bool-cases (nat_eq q.next_call c)) [
      | inl last ↦
          let e = (nat_eq_iff q.next_call c).0 last in
          inr (
            v.future c (omega (arith, e)),
            key,
            fresh,
            get-set key key fresh q.callbacks ∙ rw (==_refl key) refl,
            e,
          )
      | inr before ↦ elim (v.answered c (ground (arith, nat_eq_iff q.next_call c))) [
        | inl once ↦ inl once
        | inr (unanswered, other, p, old, e) ↦ inr (
          unanswered,
          other,
          p,
          get-set key other fresh q.callbacks ∙ rw (absent_key key other p q new old) old,
          e,
        )
      ]
    ]

pub register-IsSettled :
    (key : String) (id : RpcId) (q : RequestCallbackQueue)
    → get key q.callbacks ≡ none
    → IsSettled q
    → IsSettled (register key id q)
register-IsSettled key id q new v = record {
  waiting = λ other r h. elim (registered key id q other r h) [
    | inl (here, e) ↦
        unfold register in (omega (arith, e), rw e (v.future q.next_call (omega arith)))
    | inr (miss, old) ↦
        let (early, unanswered) = v.waiting other r old in
        unfold register in (omega (arith, early), unanswered)
  ];
  single = λ one other r t h k e. elim (registered key id q one r h) [
    | inl (here, new_call) ↦ elim (registered key id q other t k) [
      | inl (there, _) ↦ sym here ∙ there
      | inr (_, old) ↦
          let early = (v.waiting other t old).0 in absurd (omega (arith, early, e, new_call))
    ]
    | inr (_, old) ↦ elim (registered key id q other t k) [
      | inl (_, new_call) ↦
          let early = (v.waiting one r old).0 in absurd (omega (arith, early, e, new_call))
      | inr (_, older) ↦ v.single one other r t old older e
    ]
  ];
  answered = λ c l. register-answered key id q c new v (unfold register in l);
  future = λ c l. unfold register in v.future c (omega (arith, l));
}
