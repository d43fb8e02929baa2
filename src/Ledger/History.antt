-- ===== src/Ledger/History.antt =====
-- What the calls of `OperationLedger` (src/core/operation-ledger.ts) do to the objects in its map.
use remote_codex.Base.{
  ℕ, suc, String, ◌≡◌, refl, sym, ap, ◌∙◌, ◌⊎◌, inl, inr, true, false, Option, none, List, [], ◌∷◌,
  ◌++◌, arith, Bool-cases, Option-cases, ◌==◌, nat_key, string_key, get, set,
}
use remote_codex.Errors.{BridgeError, BridgeErrorCode, bridge_error, ok, err, Result-cases}
use remote_codex.Ledger.Types.{
  executed, pending, OperationEntry, OperationLedger, OperationSnapshot, Limits, is_running,
  find_entry, deref, Outcome,
}
use remote_codex.Ledger.Calls.{
  start, status, cancel, clear_prefix_begin, clear_prefix_end, close, settle, prune, with_id,
  new_entry, with_entry, has_capacity, make_capacity, bind_operation, delete_entry, start_existing,
  start_new, unbind, settled_entry,
}
use remote_codex.Ledger.Store.{is_fresh, prune_entries-kept}
use remote_codex.Ledger.Steps.{
  Step, starts, settles, settles_orphan, reads, cancels, clears, cleared, closes, Runs,
}
use remote_codex.Ledger.Evolution.{
  IsLater, Evolves, Evolves-refl, Evolves-trans, filter_by-Evolves, all-drops, assign-Evolves,
  remove_entry-Evolves, abort_where-Evolves,
}

module _ {T : Type 0} where
  -- A call changes or drops objects, or also adds one with the next identity and a new entry id.
  pub data Grows (l l' : OperationLedger T) : Type 0 where
    same : Evolves l.entries l'.entries → l'.next_uid ≡ l.next_uid → Grows l l'
    new :
        (e : OperationEntry T) (mid : List (OperationEntry T))
        → e.uid ≡ l.next_uid
        → l'.next_uid ≡ suc l.next_uid
        → find_entry e.entry_id mid ≡ none
        → Evolves l.entries mid
        → Evolves (mid ++ e ∷ []) l'.entries
        → Grows l l'

  -- An object that differs in its operation ids, its abort flag or its size alone.
  touched :
      (e e' : OperationEntry T)
      → e'.uid ≡ e.uid
      → e'.entry_id ≡ e.entry_id
      → e'.fingerprint ≡ e.fingerprint
      → e'.snapshot ≡ e.snapshot
      → e'.result ≡ e.result
      → IsLater e e'
  touched e e' u i f s r = record {
    same_uid = u;
    same_id = i;
    same_fingerprint = f;
    settled = λ h. (s, r);
  }

  with_id-Evolves :
      (op : String) (uid : ℕ) (es : List (OperationEntry T)) → Evolves es (with_id op uid es)
  unfolding with_id
  with_id-Evolves op uid es = elim (Option-cases (deref uid es)) [
    | inl gone ↦ rw (gone, with_id) (Evolves-refl es)
    | inr (e, found) ↦
        rw (found, with_id) (assign-Evolves uid e _ es found (touched e _ refl refl refl refl refl))
  ]

  bind_operation-Evolves :
      (op : String) (uid : ℕ) (l l' : OperationLedger T)
      → bind_operation op uid l ≡ ok l'
      → Evolves l.entries l'.entries × (l'.next_uid ≡ l.next_uid)
  unfolding bind_operation
  bind_operation-Evolves op uid l l' h = ground (arith, with_id-Evolves op uid l.entries)

  -- An operation id that is free can be bound.
  bind_operation_fresh :
      (op : String) (uid : ℕ) (l : OperationLedger T)
      → get op l.operations ≡ none
      → (l' : OperationLedger T) × (bind_operation op uid l ≡ ok l')
  unfolding bind_operation
  bind_operation_fresh op uid l h =
      (record l { operations = set op uid l.operations; entries = with_id op uid l.entries }, rw h)

  cancel-Grows : (op : String) (l : OperationLedger T) → Grows l (cancel op l).0
  unfolding cancel
  cancel-Grows op l = elim (Option-cases (get op l.operations)) [
    | inl e ↦ rw (e, cancel) (same (Evolves-refl l.entries) refl)
    | inr (uid, e) ↦ elim (Option-cases (deref uid l.entries)) [
      | inl d ↦ rw (e, cancel) (rw d (same (Evolves-refl l.entries) refl))
      | inr (x, d) ↦ elim (Bool-cases (is_running x)) [
        | inl r ↦
            rw (e, cancel)
              (rw d (
                rw r (
                  same (assign-Evolves uid x _ l.entries d (touched x _ refl refl refl refl refl))
                    refl)))
        | inr r ↦ rw (e, cancel) (rw d (rw r (same (Evolves-refl l.entries) refl)))
      ]
    ]
  ]

  unbind-Evolves :
      (uid : ℕ) (l : OperationLedger T)
      → Evolves l.entries (unbind uid l).entries × ((unbind uid l).next_uid ≡ l.next_uid)
  unfolding unbind
  unbind-Evolves uid l = elim (Option-cases (deref uid l.entries)) [
    | inl gone ↦ rw (gone, unbind) (Evolves-refl l.entries, refl)
    | inr (e, found) ↦
        rw (found, unbind)
          (assign-Evolves uid e _ l.entries found (touched e _ refl refl refl refl refl), refl)
  ]

  delete_entry-Evolves :
      (id : String) (uid : ℕ) (l : OperationLedger T)
      → Evolves l.entries (delete_entry id uid l).entries
        × ((delete_entry id uid l).next_uid ≡ l.next_uid)
  unfolding delete_entry
  delete_entry-Evolves id uid l = elim (Option-cases (find_entry id l.entries)) [
    | inl gone ↦ rw (gone, delete_entry) (Evolves-refl l.entries, refl)
    | inr (e, found) ↦ elim (Bool-cases (e.uid == uid)) [
      | inr other ↦ rw (found, delete_entry) (rw other (Evolves-refl l.entries, refl))
      | inl hit ↦ rw (found, delete_entry) (rw hit (remove_entry-Evolves id l.entries, refl))
    ]
  ]

  clear_prefix_end-Evolves :
      (matches : List (String × ℕ)) (l : OperationLedger T)
      → Evolves l.entries (clear_prefix_end matches l).entries
        × ((clear_prefix_end matches l).next_uid ≡ l.next_uid)
  unfolding clear_prefix_end
  clear_prefix_end-Evolves [] l = (Evolves-refl l.entries, refl)
  clear_prefix_end-Evolves ((id, uid) ∷ matches) l =
      let a = unbind-Evolves uid l in
      let b = delete_entry-Evolves id uid (unbind uid l) in
      let c = clear_prefix_end-Evolves matches (delete_entry id uid (unbind uid l)) in
      (Evolves-trans a.0 (Evolves-trans b.0 c.0), c.1 ∙ b.1 ∙ a.1)

  module _ (limits : Limits) where
    prune-Evolves :
        (now : ℕ) (l : OperationLedger T)
        → Evolves l.entries (prune limits now l).entries
          × ((prune limits now l).next_uid ≡ l.next_uid)
    unfolding prune
    prune-Evolves now l =
        rw (prune_entries-kept limits now l.entries l.stored_bytes)
          (filter_by-Evolves (is_fresh limits now) l.entries, refl)

    status-Grows :
        (id : String) (now : ℕ) (l : OperationLedger T) → Grows l (status limits id now l).0
    unfolding status
    status-Grows id now l =
        let p = prune-Evolves now l in
        elim (Option-cases (find_entry id (prune limits now l).entries)) [
          | inl gone ↦ rw (gone, status) (same p.0 p.1)
          | inr (e, found) ↦ rw (found, status) (same p.0 p.1)
        ]

    start_existing-Evolves :
        (op fingerprint : String) (e : OperationEntry T) (l : OperationLedger T)
        → Evolves l.entries (start_existing limits op fingerprint e l).0.entries
          × ((start_existing limits op fingerprint e l).0.next_uid ≡ l.next_uid)
    unfolding start_existing
    start_existing-Evolves op fingerprint e l = elim (Result-cases (bind_operation op e.uid l)) [
      | inl (l', h) ↦
          let b = bind_operation-Evolves op e.uid l l' h in
          let r = Evolves-refl l.entries in ground arith
      | inr (x, h) ↦ let r = Evolves-refl l.entries in ground arith
    ]

    -- A new entry is refused and nothing changes, or it is made and bound.
    pub start_new-cases :
        (id op fingerprint : String) (l : OperationLedger T)
        → ((x : BridgeError) × (start_new limits id op fingerprint l ≡ (l, err x)))
          ⊎ ((l' : OperationLedger T) × (bind_operation op l.next_uid (with_entry id fingerprint l)
                ≡ ok l')
              × (start_new limits id op fingerprint l
                  ≡ (l', ok (record { outcome = executed; entry = l.next_uid; result = pending }))))
    unfolding start_new make_capacity
    start_new-cases id op fingerprint l = elim (Bool-cases (has_capacity limits l)) [
      | inr full ↦ inl (
        bridge_error BridgeErrorCode.command_denied "Remote operation ledger is at capacity",
        ground arith,
      )
      | inl room ↦ elim (Option-cases (get op l.operations)) [
        | inr (bound, taken) ↦ inl (
          bridge_error BridgeErrorCode.protocol_mismatch
              "Remote operation ID is already bound to another request",
          ground arith,
        )
        | inl unbound ↦
            let (l', bound) =
              bind_operation_fresh op l.next_uid (with_entry id fingerprint l)
                (unfold with_entry in unbound) in
            inr (l', bound, ground arith)
      ]
    ]

    start_new-Grows :
        (id op fingerprint : String) (l : OperationLedger T)
        → find_entry id l.entries ≡ none
        → Grows l (start_new limits id op fingerprint l).0
    start_new-Grows id op fingerprint l absent = elim (start_new-cases id op fingerprint l) [
      | inl (x, e) ↦ rw e (same (Evolves-refl l.entries) refl)
      | inr (l', bound, e) ↦
          let b = bind_operation-Evolves op l.next_uid (with_entry id fingerprint l) l' bound in
          rw e (
            unfold with_entry in
            new (new_entry id fingerprint l.next_uid) l.entries refl b.1 absent
              (Evolves-refl l.entries) b.0)
    ]

    -- The pruning that a call begins with goes before what it adds.
    Grows-after :
        {l m l' : OperationLedger T}
        → Evolves l.entries m.entries × (m.next_uid ≡ l.next_uid)
        → Grows m l'
        → Grows l l'
    Grows-after p (same r h) = same (Evolves-trans p.0 r) (h ∙ p.1)
    Grows-after p (new e mid u n f r s) =
        new e mid (u ∙ p.1) (n ∙ ap suc p.1) f (Evolves-trans p.0 r) s

    start-Grows :
        (id op fingerprint : String) (now : ℕ) (l : OperationLedger T)
        → Grows l (start limits id op fingerprint now l).0
    unfolding start
    start-Grows id op fingerprint now l =
        let p = prune-Evolves now l in
        elim (Option-cases (find_entry id (prune limits now l).entries)) [
          | inl gone ↦ rw (gone, start) (Grows-after p (start_new-Grows id op fingerprint _ gone))
          | inr (e, found) ↦
              let x = start_existing-Evolves op fingerprint e (prune limits now l) in
              rw (found, start) (same (Evolves-trans p.0 x.0) (x.1 ∙ p.1))
        ]

    module _ (json_bytes : OperationSnapshot T → Option ℕ) where
      settle-Grows :
          (uid : ℕ) (o : Outcome T) (now : ℕ) (l : OperationLedger T)
          → Runs uid l.entries
          → Grows l (settle limits json_bytes uid o now l)
      unfolding settle settled_entry
      settle-Grows uid o now l (e, found, run) =
          rw (found, settle)
            (same
              (assign-Evolves uid e _ l.entries found (record {
                same_uid = refl;
                same_id = refl;
                same_fingerprint = refl;
                settled = λ h. absurd (let g : true ≡ false = sym run ∙ h in cc);
              }))
              refl)

      settle-Grows_orphan :
          (uid : ℕ) (o : Outcome T) (now : ℕ) (l : OperationLedger T)
          → deref uid l.entries ≡ none
          → Runs uid l.orphans
          → Grows l (settle limits json_bytes uid o now l)
      unfolding settle
      settle-Grows_orphan uid o now l gone (e, found, run) =
          rw (gone, settle) (rw found (same (Evolves-refl l.entries) refl))

      pub Step-Grows : {l l' : OperationLedger T} → Step limits json_bytes l l' → Grows l l'
      unfolding close clear_prefix_begin
      Step-Grows (starts id op fingerprint now) = start-Grows id op fingerprint now _
      Step-Grows (settles uid o now run) = settle-Grows uid o now _ run
      Step-Grows (settles_orphan uid o now gone run) = settle-Grows_orphan uid o now _ gone run
      Step-Grows (reads id now) = status-Grows id now _
      Step-Grows (cancels op) = cancel-Grows op _
      Step-Grows {l} (clears prefix) = same (abort_where-Evolves _ l.entries) refl
      Step-Grows {l} (cleared matches settled) =
          let c = clear_prefix_end-Evolves matches l in same c.0 c.1
      Step-Grows {l} closes = same (all-drops l.entries) refl
