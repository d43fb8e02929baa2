-- ===== src/Ledger/Clearing.antt =====
-- Accounting in `OperationLedger` (src/core/operation-ledger.ts) under the calls that cancel, clear
-- and close.
use remote_codex.Base.{
  ℕ, String, ◌≡◌, refl, inl, inr, true, List, [], ◌∷◌, arith, Bool-cases, Option-cases, ◌==◌,
  nat_key, string_key, filter_by, All, All-append, get,
}
use remote_codex.Ledger.Types.{
  OperationEntry, OperationLedger, Limits, is_running, find_entry, deref, abort_where,
}
use remote_codex.Ledger.Calls.{
  cancel, clear_prefix_begin, clear_prefix_end, close, delete_entry, unbind,
}
use remote_codex.Ledger.Store.{
  sum, known_bytes, sum-append, sum-remove_entry, length-remove_entry-le, All-remove_entry,
  All-filter_by, All-abort_where, sum-abort_where, length-abort_where,
}
use remote_codex.Ledger.Bounds.{IsShaped, size, IsBounded, assign-IsBounded}

module _ {T : Type 0} (limits : Limits) where
  pub cancel-IsBounded :
      (op : String) (l : OperationLedger T) → IsBounded limits l → IsBounded limits (cancel op l).0
  unfolding cancel
  cancel-IsBounded op l v = elim (Option-cases (get op l.operations)) [
    | inl e ↦ rw (e, cancel) v
    | inr (uid, e) ↦ elim (Option-cases (deref uid l.entries)) [
      | inl d ↦ rw (e, cancel) (rw d v)
      | inr (x, d) ↦ elim (Bool-cases (is_running x)) [
        | inl r ↦
            rw (e, cancel)
              (rw d (rw r (assign-IsBounded limits l uid x _ l.operations d refl refl refl v)))
        | inr r ↦ rw (e, cancel) (rw d (rw r v))
      ]
    ]
  ]

  pub clear_prefix_begin-IsBounded :
      (prefix : String) (l : OperationLedger T)
      → IsBounded limits l
      → IsBounded limits (clear_prefix_begin prefix l).0
  unfolding clear_prefix_begin
  clear_prefix_begin-IsBounded prefix l v = record {
    shaped =
        All-abort_where IsShaped (λ e s. record { unsized = s.unsized; undated = s.undated }) _
          l.entries v.shaped;
    shaped_orphans = v.shaped_orphans;
    counted = rw (sum-abort_where size (λ e. refl)) v.counted;
    within = rw (sum-abort_where known_bytes (λ e. refl)) v.within;
    few = rw length-abort_where v.few;
  }

  delete_entry-IsBounded :
      (id : String) (uid : ℕ) (l : OperationLedger T)
      → IsBounded limits l
      → IsBounded limits (delete_entry id uid l)
  unfolding delete_entry
  delete_entry-IsBounded id uid l v = elim (Option-cases (find_entry id l.entries)) [
    | inl gone ↦ rw (gone, delete_entry) v
    | inr (e, found) ↦ elim (Bool-cases (e.uid == uid)) [
      | inr other ↦ rw (found, delete_entry) (rw other v)
      | inl same ↦
          rw (found, delete_entry)
            (rw same (record {
              shaped = All-remove_entry IsShaped id l.entries v.shaped;
              shaped_orphans = v.shaped_orphans;
              counted = omega (arith, v.counted, sum-remove_entry size id e l.entries found);
              within = omega (arith, v.within, sum-remove_entry known_bytes id e l.entries found);
              few = omega (arith, v.few, length-remove_entry-le id l.entries);
            }))
    ]
  ]

  unbind-IsBounded :
      (uid : ℕ) (l : OperationLedger T) → IsBounded limits l → IsBounded limits (unbind uid l)
  unfolding unbind
  unbind-IsBounded uid l v = elim (Option-cases (deref uid l.entries)) [
    | inl gone ↦ rw (gone, unbind) v
    | inr (e, found) ↦
        rw (found, unbind) (assign-IsBounded limits l uid e _ _ found refl refl refl v)
  ]

  pub clear_prefix_end-IsBounded :
      (matches : List (String × ℕ)) (l : OperationLedger T)
      → IsBounded limits l
      → IsBounded limits (clear_prefix_end matches l)
  unfolding clear_prefix_end
  clear_prefix_end-IsBounded [] l v = v
  clear_prefix_end-IsBounded ((id, uid) ∷ matches) l v =
      clear_prefix_end-IsBounded matches _
        (delete_entry-IsBounded id uid _ (unbind-IsBounded uid l v))

  -- An entry that is still running, and so takes no bytes.
  running-sizes :
      (es : List (OperationEntry T))
      → All IsShaped es
      → (sum size (filter_by is_running es) ≡ 0) × (sum known_bytes (filter_by is_running es) ≡ 0)
  running-sizes [] h = omega arith
  running-sizes (e ∷ es) h = ground (arith, running-sizes es h.1, h.0.unsized)

  pub close-IsBounded : (l : OperationLedger T) → IsBounded limits l → IsBounded limits (close l)
  unfolding close
  close-IsBounded l v =
      let es = abort_where (λ e. true) l.entries in
      let shaped : All IsShaped es =
        All-abort_where IsShaped (λ e s. record { unsized = s.unsized; undated = s.undated }) _
          l.entries v.shaped in
      record {
        shaped = tt;
        shaped_orphans =
            All-append IsShaped (filter_by is_running es) (filter_by is_running l.orphans)
              (All-filter_by IsShaped is_running es shaped)
              (All-filter_by IsShaped is_running l.orphans v.shaped_orphans);
        counted = omega (
          arith,
          sum-append size (filter_by is_running es) (filter_by is_running l.orphans),
          (running-sizes es shaped).0,
          (running-sizes l.orphans v.shaped_orphans).0,
        );
        within = omega (
          arith,
          sum-append known_bytes (filter_by is_running es) (filter_by is_running l.orphans),
          (running-sizes es shaped).1,
          (running-sizes l.orphans v.shaped_orphans).1,
        );
        few = omega arith;
      }
