-- ===== src/Ledger/Steps.antt =====
-- The histories of an `OperationLedger` (src/core/operation-ledger.ts): its calls, and the callbacks
-- of its promises, in any order that the event loop can make.
use remote_codex.Base.{
  ℕ, String, ◌≡◌, true, false, Option, none, some, List, [], ◌∷◌, nat_key, string_key,
}
use remote_codex.Ledger.Types.{
  OperationEntry, OperationLedger, OperationSnapshot, Outcome, Limits, is_running, deref, init,
}
use remote_codex.Ledger.Calls.{
  start, status, cancel, clear_prefix_begin, clear_prefix_end, close, settle,
}

module _ {T : Type 0} where
  -- The object is there, and its operation has not ended.
  abbrev pub Runs : ℕ → List (OperationEntry T) → Type 0
  Runs uid es = (e : OperationEntry T) × (deref uid es ≡ some e) × (is_running e ≡ true)

  -- The objects that are still there have settled, as `Promise.allSettled` has waited for.
  abbrev pub AllSettled : List (String × ℕ) → List (OperationEntry T) → Type 0
  AllSettled [] es = Unit {0}
  AllSettled ((id, uid) ∷ ms) es =
      ((e : OperationEntry T) → deref uid es ≡ some e → is_running e ≡ false) × AllSettled ms es

  module _ (limits : Limits) (json_bytes : OperationSnapshot T → Option ℕ) where
    -- An operation ends once: its callback settles an object that is running.
    pub data Step (l : OperationLedger T) : OperationLedger T → Type 0 where
      starts :
          (id op fingerprint : String) (now : ℕ) → Step l (start limits id op fingerprint now l).0
      settles :
          (uid : ℕ) (o : Outcome T) (now : ℕ)
          → Runs uid l.entries
          → Step l (settle limits json_bytes uid o now l)
      settles_orphan :
          (uid : ℕ) (o : Outcome T) (now : ℕ)
          → deref uid l.entries ≡ none
          → Runs uid l.orphans
          → Step l (settle limits json_bytes uid o now l)
      reads : (id : String) (now : ℕ) → Step l (status limits id now l).0
      cancels : (op : String) → Step l (cancel op l).0
      clears : (prefix : String) → Step l (clear_prefix_begin prefix l).0
      cleared :
          (matches : List (String × ℕ))
          → AllSettled matches l.entries
          → Step l (clear_prefix_end matches l)
      closes : Step l (close l)

    pub data Reach : OperationLedger T → Type 0 where
      begin : {l : OperationLedger T} → init limits ≡ some l → Reach l
      next : {l l' : OperationLedger T} → Reach l → Step l l' → Reach l'

    -- The ledger later, after any number of steps.
    pub data Follows (l : OperationLedger T) : OperationLedger T → Type 0 where
      now_here : Follows l l
      then_step : {l' l'' : OperationLedger T} → Follows l l' → Step l' l'' → Follows l l''
