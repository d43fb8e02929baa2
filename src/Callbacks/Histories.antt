-- ===== src/Callbacks/Histories.antt =====
-- The histories of `RequestCallbackQueue` (src/shim/request-callback-queue.ts).
use remote_codex.Base.{
  ℕ, suc, ◌<◌, String, ◌≡◌, refl, sym, ap, ◌∙◌, ◌⊎◌, inl, inr, Bool, false, none, some, List, [],
  ◌∷◌, ◌++◌, map, arith, leb, nat_eq, if◌then◌else◌, Bool-cases, Option-cases, ◌==◌, nat_key,
  string_key, nat_eq_iff, length, Dict, get, get-delete, has,
}
use text.Mathlib.Text.{starts_with}
use remote_codex.Json.{Value, at, text_of}
use remote_codex.Rpc.{RpcId, is_rpc_response}
use remote_codex.Callbacks.{
  Pending, timed_out, client_detached, transport_lost, queue_is_full, reply, RequestCallbackQueue,
  init, settle, request, receive, settle_all, close,
}
use remote_codex.Callbacks.Settling.{
  times, times-append, IsSettled, settle-IsSettled, register-IsSettled,
}

-- A request takes a key that is not in use, as a random UUID is; any message may arrive, and a timer
-- may run out, at any time.
pub data Step (q : RequestCallbackQueue) : RequestCallbackQueue → Type 0 where
  requests :
      (key : String) (id : RpcId) (sent : Bool)
      → get key q.callbacks ≡ none
      → Step q (request key id sent q)
  receives : (message : Value) → Step q (receive message q).0
  times_out : (key : String) → Step q (settle key timed_out q)
  closes : Step q (close q)

pub data Reach : RequestCallbackQueue → Type 0 where
  begin : Reach init
  next : {q q' : RequestCallbackQueue} → Reach q → Step q q' → Reach q'

refused-IsSettled :
    (id : RpcId) (q : RequestCallbackQueue)
    → IsSettled q
    → IsSettled (record q {
      next_call = suc q.next_call;
      resolved = q.resolved ++ (q.next_call, queue_is_full id) ∷ [];
    })
refused-IsSettled id q v =
    let counts = λ (c : ℕ). times-append c q.next_call (queue_is_full id) q.resolved in
    record {
      waiting = λ key p h.
          let (early, unanswered) = v.waiting key p h in
          let away : nat_eq q.next_call p.call ≡ false =
            ground (arith, nat_eq_iff q.next_call p.call) in
          (omega (arith, early), counts p.call ∙ rw (away, unanswered) refl);
      single = v.single;
      answered = λ c l. elim (Bool-cases (nat_eq q.next_call c)) [
        | inl last ↦
            let old : times c q.resolved ≡ 0 =
              v.future c (let e = (nat_eq_iff q.next_call c).0 last in omega (arith, e)) in
            inl (counts c ∙ rw (last, old) refl)
        | inr before ↦ elim (v.answered c (ground (arith, nat_eq_iff q.next_call c))) [
          | inl once ↦ inl (counts c ∙ rw (before, once) refl)
          | inr (unanswered, key, p, there, e) ↦
              inr (counts c ∙ rw (before, unanswered) refl, key, p, there, e)
        ]
      ];
      future = λ c l.
          let away : nat_eq q.next_call c ≡ false = ground (arith, nat_eq_iff q.next_call c) in
          counts c ∙ rw (away, v.future c (omega (arith, l))) refl;
    }

request-IsSettled :
    (key : String) (id : RpcId) (sent : Bool) (q : RequestCallbackQueue)
    → get key q.callbacks ≡ none
    → IsSettled q
    → IsSettled (request key id sent q)
unfolding request
request-IsSettled key id sent q new v = elim (Bool-cases (leb 1024 (length q.callbacks))) [
  | inl full ↦ rw full (refused-IsSettled id q v)
  | inr room ↦ rw room (elim (Bool-cases sent) [
    | inl gone ↦ rw gone (register-IsSettled key id q new v)
    | inr lost ↦ rw lost (settle-IsSettled key transport_lost _ (register-IsSettled key id q new v))
  ])
]

receive-IsSettled :
    (message : Value) (q : RequestCallbackQueue) → IsSettled q → IsSettled (receive message q).0
unfolding receive
receive-IsSettled message q v = elim (Bool-cases (is_rpc_response message)) [
  | inr other ↦ rw other v
  | inl response ↦ elim (Option-cases (text_of (at "id" message))) [
    | inl unnamed ↦ rw (receive, response, unnamed) v
    | inr (key, named) ↦ elim (Bool-cases (starts_with key "bridge_callback_")) [
      | inr foreign ↦ rw (receive, response, named, foreign) v
      | inl ours ↦ rw (receive, response, named, ours) (settle-IsSettled key (reply message) q v)
    ]
  ]
]

settle_all-IsSettled :
    (keys : List String) (q : RequestCallbackQueue) → IsSettled q → IsSettled (settle_all keys q)
unfolding settle_all
settle_all-IsSettled [] q v = v
settle_all-IsSettled (key ∷ keys) q v =
    settle_all-IsSettled keys _ (settle-IsSettled key client_detached q v)

Reach-IsSettled : {q : RequestCallbackQueue} → Reach q → IsSettled q
unfolding get close
Reach-IsSettled begin = record {
  waiting = λ key p h. absurd (let e : none ≡ some p = h in cc);
  single = λ key other p r h k e. absurd (let z : none ≡ some p = h in cc);
  answered = λ c l. absurd (omega (arith, l));
  future = λ c l. refl;
}
Reach-IsSettled (next {q} r (requests key id sent new)) =
    request-IsSettled key id sent q new (Reach-IsSettled r)
Reach-IsSettled (next {q} r (receives message)) = receive-IsSettled message q (Reach-IsSettled r)
Reach-IsSettled (next {q} r (times_out key)) = settle-IsSettled key timed_out q (Reach-IsSettled r)
Reach-IsSettled (next {q} r closes) =
    settle_all-IsSettled (map (λ e. e.0) q.callbacks) q (Reach-IsSettled r)

settle-get :
    (key other : String) (q : RequestCallbackQueue)
    → get other (settle key client_detached q).callbacks
      ≡ (if key == other then none else get other q.callbacks)
unfolding settle
settle-get key other q = elim (Option-cases (get key q.callbacks)) [
  | inl absent ↦
      rw (settle, absent)
        (elim (Bool-cases (key == other)) [
          | inl hit ↦
              rw hit
                (ap (λ k. get k q.callbacks) (sym ((string_key.same_iff key other).0 hit)) ∙ absent)
          | inr miss ↦ rw miss refl
        ])
  | inr (p, there) ↦ rw (settle, there) (get-delete key other q.callbacks)
]

settle_all-get :
    (keys : List String) (other : String) (q : RequestCallbackQueue)
    → get other (settle_all keys q).callbacks
      ≡ (if has other keys then none else get other q.callbacks)
unfolding settle_all has
settle_all-get [] other q = refl
settle_all-get (key ∷ keys) other q =
    settle_all-get keys other _ ∙ rw (settle-get key other q) (ground arith)

get-has_keys :
    (key : String) (m : Dict String Pending) → has key (map (λ e. e.0) m) ≡ false → get key m ≡ none
unfolding has get
get-has_keys key [] h = refl
get-has_keys key ((other, p) ∷ m) h = ground (arith, get-has_keys key m)

close-get : (key : String) (q : RequestCallbackQueue) → get key (close q).callbacks ≡ none
unfolding close
close-get key q =
    settle_all-get (map (λ e. e.0) q.callbacks) key q
    ∙ elim (Bool-cases (has key (map (λ e. e.0) q.callbacks))) [
      | inl listed ↦ rw listed refl
      | inr unlisted ↦ rw unlisted (get-has_keys key q.callbacks unlisted)
    ]

-- In every history: no promise of `request` is resolved twice, whatever arrives, runs out or fails, and
-- in whatever order; and one that has not been resolved has its callback in the queue.
pub Reach-times :
    {q : RequestCallbackQueue} (c : ℕ)
    → Reach q
    → c < q.next_call
    → (times c q.resolved ≡ 1)
      ⊎ ((times c q.resolved ≡ 0)
          × (key : String) × (p : Pending) × (get key q.callbacks ≡ some p)
          × (p.call ≡ c))
Reach-times c r l = (Reach-IsSettled r).answered c l

settle_all-next_call :
    (keys : List String) (q : RequestCallbackQueue) → (settle_all keys q).next_call ≡ q.next_call
unfolding settle_all settle
settle_all-next_call [] q = refl
settle_all-next_call (key ∷ keys) q = settle_all-next_call keys _ ∙ ground arith

-- In every history: behind `close`, each promise that `request` has ever returned has been resolved,
-- exactly once.
pub close-times :
    {q : RequestCallbackQueue} (c : ℕ) → Reach q → c < q.next_call → times c (close q).resolved ≡ 1
close-times {q} c r l =
    let same : (close q).next_call ≡ q.next_call =
      unfold close in settle_all-next_call (map (λ e. e.0) q.callbacks) q in
    elim (Reach-times c (next r closes) (rw same l)) [
      | inl once ↦ once
      | inr (_, key, p, there, _) ↦
          absurd (let z : none ≡ some p = sym (close-get key q) ∙ there in cc)
    ]
