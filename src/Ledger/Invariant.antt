-- ===== src/Ledger/Invariant.antt =====
-- Accounting in `OperationLedger` (src/core/operation-ledger.ts) when operations end, and in whole
-- histories.
use remote_codex.Base.{ℕ, ◌-◌, ◌≤◌, ◌≡◌, refl, false, Option, none, arith, nat_key, string_key}
use remote_codex.Ledger.Types.{
  OperationEntry, OperationLedger, OperationSnapshot, Limits, is_running_state, deref, Outcome,
  returned, threw, terminal_state,
}
use remote_codex.Ledger.Calls.{settle, settled_entry, settlement}
use remote_codex.Ledger.Store.{known_bytes, sum-assign, length-assign, All-assign, All-deref}
use remote_codex.Ledger.Steps.{
  Runs, Step, starts, settles, settles_orphan, reads, cancels, clears, cleared, closes, Reach,
  begin, next,
}
use remote_codex.Ledger.Bounds.{
  IsShaped, size, IsBounded, known-le-size, init-IsBounded, start-IsBounded, status-IsBounded,
}
use remote_codex.Ledger.Clearing.{
  cancel-IsBounded, clear_prefix_begin-IsBounded, clear_prefix_end-IsBounded, close-IsBounded,
}

module _ {T : Type 0} (limits : Limits) where
  module _ (json_bytes : OperationSnapshot T → Option ℕ) where
    pub settlement-done :
        (o : Outcome T) → is_running_state (settlement limits json_bytes o).0.status ≡ false
    unfolding settlement terminal_state
    settlement-done (returned v) = refl
    settlement-done (threw t) = ground arith

    settled_entry-IsShaped :
        (o : Outcome T) (now stored : ℕ) (e : OperationEntry T)
        → IsShaped (settled_entry limits json_bytes o now stored e)
    unfolding settled_entry
    settled_entry-IsShaped o now stored e = record {
      unsized = ground (arith, settlement-done o);
      undated = ground (arith, settlement-done o);
    }

    -- An outcome that does not fit is marked unknown; one that is kept fits.
    settled_entry-fits :
        (o : Outcome T) (now stored : ℕ) (e : OperationEntry T)
        → known_bytes (settled_entry limits json_bytes o now stored e) ≤ limits.max_bytes - stored
    unfolding settled_entry
    settled_entry-fits o now stored e = ground arith

    -- Settling an object that runs, in the map or dropped by `close`.
    settle-IsBounded :
        (uid : ℕ) (o : Outcome T) (now : ℕ) (l : OperationLedger T)
        → IsBounded limits l
        → Runs uid l.entries
        → IsBounded limits (settle limits json_bytes uid o now l)
    unfolding settle
    settle-IsBounded uid o now l v (e, found, run) =
        let e' : OperationEntry T = settled_entry limits json_bytes o now l.stored_bytes e in
        let unsized = (All-deref IsShaped uid e l.entries v.shaped found).unsized run in
        rw (found, settle)
          (record {
            shaped =
                All-assign IsShaped uid e' l.entries v.shaped
                  (settled_entry-IsShaped o now l.stored_bytes e);
            shaped_orphans = v.shaped_orphans;
            counted = omega (arith, v.counted, unsized, sum-assign size uid e e' l.entries found);
            within = ground (
              arith,
              v.counted,
              v.within,
              unsized,
              known-le-size l.entries,
              known-le-size l.orphans,
              sum-assign known_bytes uid e e' l.entries found,
              settled_entry-fits o now l.stored_bytes e,
            );
            few = omega (arith, v.few, length-assign uid e' l.entries);
          })

    settle-IsBounded_orphan :
        (uid : ℕ) (o : Outcome T) (now : ℕ) (l : OperationLedger T)
        → IsBounded limits l
        → deref uid l.entries ≡ none
        → Runs uid l.orphans
        → IsBounded limits (settle limits json_bytes uid o now l)
    unfolding settle
    settle-IsBounded_orphan uid o now l v gone (e, found, run) =
        let e' : OperationEntry T = settled_entry limits json_bytes o now l.stored_bytes e in
        let unsized = (All-deref IsShaped uid e l.orphans v.shaped_orphans found).unsized run in
        rw (gone, settle)
          (rw found (record {
            shaped = v.shaped;
            shaped_orphans =
                All-assign IsShaped uid e' l.orphans v.shaped_orphans
                  (settled_entry-IsShaped o now l.stored_bytes e);
            counted = omega (arith, v.counted, unsized, sum-assign size uid e e' l.orphans found);
            within = ground (
              arith,
              v.counted,
              v.within,
              unsized,
              known-le-size l.entries,
              known-le-size l.orphans,
              sum-assign known_bytes uid e e' l.orphans found,
              settled_entry-fits o now l.stored_bytes e,
            );
            few = v.few;
          }))

    Step-IsBounded :
        {l l' : OperationLedger T}
        → Step limits json_bytes l l'
        → IsBounded limits l
        → IsBounded limits l'
    Step-IsBounded (starts id op fingerprint now) v =
        start-IsBounded limits id op fingerprint now _ v
    Step-IsBounded (settles uid o now run) v = settle-IsBounded uid o now _ v run
    Step-IsBounded (settles_orphan uid o now gone run) v =
        settle-IsBounded_orphan uid o now _ v gone run
    Step-IsBounded (reads id now) v = status-IsBounded limits id now _ v
    Step-IsBounded (cancels op) v = cancel-IsBounded limits op _ v
    Step-IsBounded (clears prefix) v = clear_prefix_begin-IsBounded limits prefix _ v
    Step-IsBounded (cleared matches settled) v = clear_prefix_end-IsBounded limits matches _ v
    Step-IsBounded closes v = close-IsBounded limits _ v

    -- In every history of calls and settlements the ledger keeps within its limits: it never holds more
    -- than `max_entries` entries, the outcomes that it keeps never exceed `max_bytes` (what does not fit
    -- is marked unknown instead), and `stored_bytes` is the sum over its objects.
    pub Reach-IsBounded : {l : OperationLedger T} → Reach limits json_bytes l → IsBounded limits l
    Reach-IsBounded (begin h) = init-IsBounded limits h
    Reach-IsBounded (next r s) = Step-IsBounded s (Reach-IsBounded r)
