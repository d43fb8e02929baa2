-- ===== src/Ledger/Store.antt =====
-- The lists of objects behind `OperationLedger` (src/core/operation-ledger.ts): what the assignments,
-- removals and the loops over them do to sums over all objects and to properties of each.
use remote_codex.Base.{
  ℕ, ◌+◌, ◌-◌, ◌≤◌, String, ◌≡◌, refl, ap, subst, inl, inr, Bool, true, false, not, ◌&&◌, some,
  List, [], ◌∷◌, ◌++◌, arith, if◌then◌else◌, Bool-cases, ◌==◌, nat_key, string_key, length,
  filter_by, All,
}
use remote_codex.Ledger.Types.{
  OperationEntry, is_running, unknown, OperationState, find_entry, deref, assign, remove_entry,
  abort_where,
}
use remote_codex.Ledger.Calls.{prune_entries, is_expired}
use remote_codex.Ledger.Types.{Limits}

abbrev pub is_unknown : OperationState → Bool
is_unknown unknown = true
is_unknown _ = false

module _ {T : Type 0} where
  -- A weight that each object has, summed.
  abbrev pub sum : (OperationEntry T → ℕ) → List (OperationEntry T) → ℕ
  sum w [] = 0
  sum w (e ∷ es) = w e + sum w es

  -- The bytes of an object whose outcome is kept.
  abbrev pub known_bytes : OperationEntry T → ℕ
  known_bytes e = if is_unknown e.snapshot.status then 0 else e.size_bytes

  pub sum-append :
      (w : OperationEntry T → ℕ) (es fs : List (OperationEntry T))
      → sum w (es ++ fs) ≡ sum w es + sum w fs
  sum-append w [] fs = omega arith
  sum-append w (e ∷ es) fs = omega (arith, sum-append w es fs)

  pub sum-assign :
      (w : OperationEntry T → ℕ) (uid : ℕ) (e e' : OperationEntry T) (es : List (OperationEntry T))
      → deref uid es ≡ some e
      → sum w (assign uid e' es) + w e ≡ sum w es + w e'
  unfolding deref assign
  sum-assign w uid e e' [] h = cc
  sum-assign w uid e e' (x ∷ es) h = ground (arith, sum-assign w uid e e' es, ap w)

  pub length-assign :
      (uid : ℕ) (e' : OperationEntry T) (es : List (OperationEntry T))
      → length (assign uid e' es) ≡ length es
  unfolding assign
  length-assign uid e' [] = refl
  length-assign uid e' (x ∷ es) = ground (arith, length-assign uid e' es)

  pub sum-remove_entry :
      (w : OperationEntry T → ℕ) (id : String) (e : OperationEntry T) (es : List (OperationEntry T))
      → find_entry id es ≡ some e
      → sum w (remove_entry id es) + w e ≡ sum w es
  unfolding find_entry remove_entry
  sum-remove_entry w id e [] h = cc
  sum-remove_entry w id e (x ∷ es) h = ground (arith, sum-remove_entry w id e es)

  pub length-remove_entry-le :
      (id : String) (es : List (OperationEntry T)) → length (remove_entry id es) ≤ length es
  unfolding remove_entry
  length-remove_entry-le id [] = omega arith
  length-remove_entry-le id (x ∷ es) = ground (arith, length-remove_entry-le id es)

  module _ {κ} (P : OperationEntry T → Type κ) where
    pub All-assign :
        (uid : ℕ) (e' : OperationEntry T) (es : List (OperationEntry T))
        → All P es
        → P e'
        → All P (assign uid e' es)
    unfolding assign
    All-assign uid e' [] h p = tt
    All-assign uid e' (x ∷ es) h p = elim (Bool-cases (x.uid == uid)) [
      | inl hit ↦ rw hit (p, h.1)
      | inr miss ↦ rw miss (h.0, All-assign uid e' es h.1 p)
    ]

    pub All-deref :
        (uid : ℕ) (e : OperationEntry T) (es : List (OperationEntry T))
        → All P es
        → deref uid es ≡ some e
        → P e
    unfolding deref
    All-deref uid e [] h d = absurd (cc)
    All-deref uid e (x ∷ es) h d = elim (Bool-cases (x.uid == uid)) [
      | inl hit ↦ subst P (ground arith) h.0
      | inr miss ↦ All-deref uid e es h.1 (ground arith)
    ]

    pub All-remove_entry :
        (id : String) (es : List (OperationEntry T)) → All P es → All P (remove_entry id es)
    unfolding remove_entry
    All-remove_entry id [] h = tt
    All-remove_entry id (x ∷ es) h = elim (Bool-cases (x.entry_id == id)) [
      | inl hit ↦ rw hit h.1
      | inr miss ↦ rw miss (h.0, All-remove_entry id es h.1)
    ]

    pub All-filter_by :
        (p : OperationEntry T → Bool) (es : List (OperationEntry T))
        → All P es
        → All P (filter_by p es)
    All-filter_by p [] h = tt
    All-filter_by p (x ∷ es) h = elim (Bool-cases (p x)) [
      | inl hit ↦ rw hit (h.0, All-filter_by p es h.1)
      | inr miss ↦ rw miss (All-filter_by p es h.1)
    ]

    pub All-abort_where :
        ((e : OperationEntry T) → P e → P (record e { aborted = true }))
        → (p : OperationEntry T → Bool) (es : List (OperationEntry T)) → All P es
        → All P (abort_where p es)
    unfolding abort_where
    All-abort_where keep p [] h = tt
    All-abort_where keep p (x ∷ es) h = elim (Bool-cases (p x && is_running x)) [
      | inl hit ↦ rw hit (keep x h.0, All-abort_where keep p es h.1)
      | inr miss ↦ rw miss (h.0, All-abort_where keep p es h.1)
    ]

  pub sum-abort_where :
      (w : OperationEntry T → ℕ)
      → ((e : OperationEntry T) → w (record e { aborted = true }) ≡ w e)
      → (p : OperationEntry T → Bool) (es : List (OperationEntry T))
      → sum w (abort_where p es) ≡ sum w es
  unfolding abort_where
  sum-abort_where w keep p [] = refl
  sum-abort_where w keep p (x ∷ es) = ground (arith, keep x, sum-abort_where w keep p es)

  pub length-abort_where :
      (p : OperationEntry T → Bool) (es : List (OperationEntry T))
      → length (abort_where p es) ≡ length es
  unfolding abort_where
  length-abort_where p [] = refl
  length-abort_where p (x ∷ es) = ground (arith, length-abort_where p es)

  pub sum-filter_by-le :
      (w : OperationEntry T → ℕ) (p : OperationEntry T → Bool) (es : List (OperationEntry T))
      → sum w (filter_by p es) ≤ sum w es
  sum-filter_by-le w p [] = omega arith
  sum-filter_by-le w p (x ∷ es) = ground (arith, sum-filter_by-le w p es)

  module _ (limits : Limits) (now : ℕ) where
    -- What `#prune` keeps.
    abbrev pub is_fresh : OperationEntry T → Bool
    is_fresh e = not (is_expired limits now e)

    pub prune_entries-kept :
        (es : List (OperationEntry T)) (stored : ℕ)
        → (prune_entries limits now es stored).0 ≡ filter_by is_fresh es
    unfolding prune_entries
    prune_entries-kept [] stored = refl
    prune_entries-kept (x ∷ es) stored =
        ground (arith, prune_entries-kept es stored, prune_entries-kept es (stored - x.size_bytes))

    -- The bytes are counted down by just what is dropped.
    pub prune_entries-left :
        (es : List (OperationEntry T)) (stored : ℕ)
        → sum (λ e. e.size_bytes) es ≤ stored
        → (prune_entries limits now es stored).1 + sum (λ e. e.size_bytes) es
          ≡ stored + sum (λ e. e.size_bytes) (filter_by is_fresh es)
    unfolding prune_entries
    prune_entries-left [] stored h = omega arith
    prune_entries-left (x ∷ es) stored h =
        ground (arith, prune_entries-left es stored, prune_entries-left es (stored - x.size_bytes))
