-- ===== src/Ledger/Replay.antt =====
-- The promise of `OperationLedger` (src/core/operation-ledger.ts): an idempotency key runs its
-- operation once, and later calls with the key are answered from its first outcome.
use remote_codex.Base.{
  ℕ, ◌+◌, String, ◌≡◌, refl, sym, ap, ◌∙◌, subst, inl, inr, false, Option, none, some, List, [],
  ◌∷◌, ◌++◌, arith, leb, if◌then◌else◌, Option-cases, nat_key, string_key, ==_refl, some_inj, add,
}
use remote_codex.Errors.{ok, Result-cases}
use remote_codex.Ledger.Types.{
  executed, joined, replayed, rejected, OperationHandle, OperationEntry, OperationLedger,
  OperationSnapshot, Limits, is_running, is_running_state, find_entry, deref, Outcome, assign,
}
use remote_codex.Ledger.Calls.{
  start, status, settle, prune, new_entry, with_entry, bind_operation, start_existing,
  settled_entry, settlement, snapshot_size, is_expired, with_id,
}
use remote_codex.Ledger.Steps.{Step, Reach, next, Runs, Follows, settles, starts}
use remote_codex.Ledger.Evolution.{deref-append_self}
use remote_codex.Ledger.History.{start_new-cases}
use remote_codex.Ledger.Identity.{
  IsIdentified, Reach-IsIdentified, Follows-IsIdentified, Follows-IsLater, find_entry-prune,
  deref-uid, deref-lt, deref_beyond, prune-IsIdentified,
}
use remote_codex.Ledger.Invariant.{settlement-done}
use remote_codex.Ledger.Calls.{oversize_error, oversize_snapshot}

module _ {T : Type 0} (limits : Limits) (json_bytes : OperationSnapshot T → Option ℕ) where
  deref-assign_self :
      (uid : ℕ) (e e' : OperationEntry T) (es : List (OperationEntry T))
      → deref uid es ≡ some e
      → e'.uid ≡ uid
      → deref uid (assign uid e' es) ≡ some e'
  unfolding deref assign
  deref-assign_self uid e e' [] h k = cc
  deref-assign_self uid e e' (x ∷ es) h k = ground (arith, deref-assign_self uid e e' es)

  -- What a settled entry answers while it has not expired.
  settled_answers :
      (uid now : ℕ) (op : String) (e : OperationEntry T) (l : OperationLedger T)
      → IsIdentified l
      → deref uid l.entries ≡ some e
      → is_running e ≡ false
      → is_expired limits now e ≡ false
      → ((start limits e.entry_id op e.fingerprint now l).1
          ≡ ok (record { outcome = replayed; entry = uid; result = e.result }))
        × ((status limits e.entry_id now l).1 ≡ e.snapshot)
  unfolding start start_existing status
  settled_answers uid now op e l v h done young =
      let f = find_entry-prune limits now uid e l v h young in
      let u = deref-uid uid e l.entries h in
      (rw (f, start) (rw (==_refl e.fingerprint) (rw (done, u))), rw (f, status))

  settle-entry :
      (uid : ℕ) (o : Outcome T) (at : ℕ) (e : OperationEntry T) (l : OperationLedger T)
      → deref uid l.entries ≡ some e
      → deref uid (settle limits json_bytes uid o at l).entries
        ≡ some (settled_entry limits json_bytes o at l.stored_bytes e)
  unfolding settle settled_entry
  settle-entry uid o at e l h =
      rw (h, settle) (deref-assign_self uid e _ l.entries h (deref-uid uid e l.entries h))

  settled_entry_fields :
      (o : Outcome T) (at stored : ℕ) (e e' : OperationEntry T)
      → e' ≡ settled_entry limits json_bytes o at stored e
      → let (s, p) = settlement limits json_bytes o in
        let fits = leb (snapshot_size limits json_bytes s + stored) limits.max_bytes in
        (is_running e' ≡ false)
        × (e'.snapshot ≡ (if fits then s else oversize_snapshot))
        × (e'.result ≡ (if fits then p else rejected oversize_error))
  unfolding settled_entry
  settled_entry_fields o at stored e e' h =
      rw h (ground (arith, settlement-done limits json_bytes o), ground arith, ground arith)

  -- When an operation of the map ends, and its entry is still there and has not expired at some later
  -- time, then whatever happened between: `start` with its key and its parameters runs nothing and is
  -- answered by the first outcome, and `status` shows that outcome. An outcome that did not fit into
  -- the ledger is answered as unknown.
  pub start-settle :
      {l l' : OperationLedger T} (uid : ℕ) (o : Outcome T) (at now : ℕ) (op : String)
      (e : OperationEntry T)
      → Reach limits json_bytes l
      → Runs uid l.entries
      → Follows limits json_bytes (settle limits json_bytes uid o at l) l'
      → deref uid l'.entries ≡ some e
      → is_expired limits now e ≡ false
      → let (s, p) = settlement limits json_bytes o in
        let fits = leb (snapshot_size limits json_bytes s + l.stored_bytes) limits.max_bytes in
        ((start limits e.entry_id op e.fingerprint now l').1
          ≡ ok (record {
            outcome = replayed;
            entry = uid;
            result = if fits then p else rejected oversize_error;
          }))
        × ((status limits e.entry_id now l').1 ≡ (if fits then s else oversize_snapshot))
  start-settle {l} {l'} uid o at now op e r (e0, found, going) f d young =
      let s : Step limits json_bytes l (settle limits json_bytes uid o at l) =
        settles uid o at (e0, found, going) in
      let v = Reach-IsIdentified limits json_bytes (next r s) in
      let there = settle-entry uid o at e0 l found in
      let (w, n) = Follows-IsIdentified limits json_bytes f v in
      let (e1, found', later) =
        Follows-IsLater limits json_bytes uid e f v (deref-lt uid _ _ v there) d in
      let same = sym (some_inj (sym there ∙ found')) in
      let (done, snap, res) = settled_entry_fields o at l.stored_bytes e0 e1 same in
      let (snap', res') = later.settled done in
      let still = ap (λ s. is_running_state s.status) snap' ∙ done in
      let (a, b) = settled_answers uid now op e l' w d still young in
      (
        a ∙ ap (λ p. ok (record { outcome = replayed; entry = uid; result = p })) (res' ∙ res),
        b ∙ snap' ∙ snap,
      )

  start_existing-executed :
      (op fingerprint : String) (e : OperationEntry T) (l : OperationLedger T)
      (h : OperationHandle T)
      → (start_existing limits op fingerprint e l).1 ≡ ok h
      → (e.fingerprint ≡ fingerprint)
        × (h.entry ≡ e.uid)
        × (h.outcome ≡ (if is_running e then joined else replayed))
        × (h.result ≡ e.result)
  unfolding start_existing
  start_existing-executed op fingerprint e l h k = elim (Result-cases (bind_operation op e.uid l)) [
    | inl (l', b) ↦ ground (arith, string_key.same_iff e.fingerprint fingerprint)
    | inr (x, b) ↦ ground (arith, string_key.same_iff e.fingerprint fingerprint)
  ]

  with_entry-bound :
      (id op fingerprint : String) (l l' : OperationLedger T)
      → deref l.next_uid l.entries ≡ none
      → bind_operation op l.next_uid (with_entry id fingerprint l) ≡ ok l'
      → (e : OperationEntry T) × (deref l.next_uid l'.entries ≡ some e)
        × (e.entry_id ≡ id)
        × (e.fingerprint ≡ fingerprint)
  unfolding bind_operation with_entry with_id
  with_entry-bound id op fingerprint l l' gone h =
      let x : OperationEntry T = new_entry id fingerprint l.next_uid in
      let found = deref-append_self x l.entries gone in
      let x' : OperationEntry T = record x { operation_ids = add op [] } in
      let bound = deref-assign_self l.next_uid x x' (l.entries ++ x ∷ []) found refl in
      (x', ground (arith, found, bound), refl, refl)

  -- What a call that has started an operation leaves.
  start-executed :
      (id op fingerprint : String) (at : ℕ) (l : OperationLedger T) (h : OperationHandle T)
      → IsIdentified (prune limits at l)
      → (start limits id op fingerprint at l).1 ≡ ok h
      → h.outcome ≡ executed
      → (e : OperationEntry T) × (deref h.entry (start limits id op fingerprint at l).0.entries
          ≡ some e)
        × (e.entry_id ≡ id)
        × (e.fingerprint ≡ fingerprint)
  unfolding start
  start-executed id op fingerprint at l h v first fresh =
      let m : OperationLedger T = prune limits at l in
      elim (Option-cases (find_entry id m.entries)) [
        | inr (x, found) ↦
            let s = start_existing-executed op fingerprint x m h (ground arith) in
            absurd (ground arith)
        | inl gone ↦ elim (start_new-cases limits id op fingerprint m) [
          | inl (x, e) ↦ absurd (ground arith)
          | inr (l', bound, e) ↦
              let beyond = deref_beyond m.next_uid m.next_uid m.entries v.below (omega arith) in
              let (y, there, i, p) = with_entry-bound id op fingerprint m l' beyond bound in
              (y, ground arith, i, p)
        ]
      ]

  start-found :
      (id op fingerprint : String) (now : ℕ) (l : OperationLedger T) (h : OperationHandle T)
      (e : OperationEntry T)
      → find_entry id (prune limits now l).entries ≡ some e
      → (start limits id op fingerprint now l).1 ≡ ok h
      → (start_existing limits op fingerprint e (prune limits now l)).1 ≡ ok h
  unfolding start
  start-found id op fingerprint now l h e found k = ground arith

  -- An idempotency key that has started an operation starts no other while its entry is there and has
  -- not expired: whatever happened between, a call with the key that succeeds has the same parameters
  -- and is joined to that entry or answered from it.
  pub start-start :
      {l l' : OperationLedger T} (id op op' fingerprint fingerprint' : String) (at now : ℕ)
      (h h' : OperationHandle T) (e : OperationEntry T)
      → Reach limits json_bytes l
      → (start limits id op fingerprint at l).1 ≡ ok h
      → h.outcome ≡ executed
      → Follows limits json_bytes (start limits id op fingerprint at l).0 l'
      → deref h.entry l'.entries ≡ some e
      → is_expired limits now e ≡ false
      → (start limits id op' fingerprint' now l').1 ≡ ok h'
      → (fingerprint' ≡ fingerprint)
        × (h'.entry ≡ h.entry)
        × (h'.outcome ≡ (if is_running e then joined else replayed))
        × (h'.result ≡ e.result)
  start-start {l} {l'} id op op' fingerprint fingerprint' at now h h' e r first fresh f d young
        second =
      let v0 = Reach-IsIdentified limits json_bytes r in
      let v1 = prune-IsIdentified limits at l v0 in
      let v = Reach-IsIdentified limits json_bytes (next r (starts id op fingerprint at)) in
      let (e0, there, i, p) = start-executed id op fingerprint at l h v1 first fresh in
      let (w, n) = Follows-IsIdentified limits json_bytes f v in
      let (e1, found, later) =
        Follows-IsLater limits json_bytes h.entry e f v (deref-lt h.entry e0 _ v there) d in
      let same = some_inj (sym there ∙ found) in
      let here = find_entry-prune limits now h.entry e l' w d young in
      let named = later.same_id ∙ ap (λ x. x.entry_id) (sym same) ∙ i in
      let (k, u, o, p') = start_existing-executed op' fingerprint' e (prune limits now l') h' (
        start-found id op' fingerprint' now l' h' e
          (subst (λ x. find_entry x (prune limits now l').entries ≡ some e) named here) second) in
      (
        sym k ∙ later.same_fingerprint ∙ ap (λ x. x.fingerprint) (sym same) ∙ p,
        u ∙ deref-uid h.entry e l'.entries d,
        o,
        p',
      )
