-- ===== src/Ledger/Bounds.antt =====
-- Accounting in `OperationLedger` (src/core/operation-ledger.ts): what it is, and how calls that start and
-- look up operations keep it.
use remote_codex.Base.{
  ℕ, ◌+◌, ◌≤◌, ◌<◌, String, ◌≡◌, refl, inl, inr, true, none, some, List, [], ◌∷◌, arith, Bool-cases,
  Option-cases, nat_key, string_key, length, All, length-append, length-filter_by-le, All-append,
  Dict, set,
}
use remote_codex.Errors.{ok, Result-cases}
use remote_codex.Ledger.Types.{
  OperationEntry, OperationLedger, Limits, is_running, find_entry, deref, init, assign,
}
use remote_codex.Ledger.Calls.{
  start, status, prune, with_id, new_entry, with_entry, has_capacity, bind_operation, make_capacity,
  start_existing, start_new,
}
use remote_codex.Ledger.Store.{
  sum, known_bytes, sum-append, sum-assign, length-assign, All-assign, All-deref, All-filter_by,
  sum-filter_by-le, is_fresh, prune_entries-kept, prune_entries-left,
}

-- A running operation takes no bytes yet, and has no date.
pub record IsShaped {T : Type 0} (e : OperationEntry T) : Type 0 where
  pub unsized : is_running e ≡ true → e.size_bytes ≡ 0
  pub undated : is_running e ≡ true → e.settled_at ≡ none

abbrev pub size : {T : Type 0} → OperationEntry T → ℕ
size e = e.size_bytes

-- The ledger keeps within its limits. `stored_bytes` counts exactly the objects that it knows of, and
-- the outcomes that it keeps, unlike those marked unknown, fit in `max_bytes`.
pub record IsBounded {T : Type 0} (limits : Limits) (l : OperationLedger T) : Type 0 where
  pub shaped : All IsShaped l.entries
  pub shaped_orphans : All IsShaped l.orphans
  pub counted : l.stored_bytes ≡ sum size l.entries + sum size l.orphans
  pub within : sum known_bytes l.entries + sum known_bytes l.orphans ≤ limits.max_bytes
  pub few : length l.entries ≤ limits.max_entries

pub known-le-size : {T : Type 0} (es : List (OperationEntry T)) → sum known_bytes es ≤ sum size es
known-le-size [] = omega arith
known-le-size (e ∷ es) = ground (arith, known-le-size es)

module _ {T : Type 0} (limits : Limits) where
  pub init-IsBounded : {l : OperationLedger T} → init limits ≡ some l → IsBounded limits l
  unfolding init
  init-IsBounded h = ground arith

  prune-IsBounded :
      (now : ℕ) (l : OperationLedger T) → IsBounded limits l → IsBounded limits (prune limits now l)
  unfolding prune
  prune-IsBounded now l v = record {
    shaped =
        rw (prune_entries-kept limits now l.entries l.stored_bytes)
          (All-filter_by IsShaped _ l.entries v.shaped);
    shaped_orphans = v.shaped_orphans;
    counted = rw (prune_entries-kept limits now l.entries l.stored_bytes) (
        omega (
          arith,
          v.counted,
          prune_entries-left limits now l.entries l.stored_bytes (omega (arith, v.counted)),
        ));
    within =
        rw (prune_entries-kept limits now l.entries l.stored_bytes)
          (omega (arith, v.within, sum-filter_by-le known_bytes (is_fresh limits now) l.entries));
    few =
        rw (prune_entries-kept limits now l.entries l.stored_bytes)
          (omega (arith, v.few, length-filter_by-le (is_fresh limits now) l.entries));
  }

  -- An assignment that keeps an object's snapshot and size.
  pub assign-IsBounded :
      (l : OperationLedger T) (uid : ℕ) (e e' : OperationEntry T) (ops : Dict String ℕ)
      → deref uid l.entries ≡ some e
      → e'.size_bytes ≡ e.size_bytes
      → e'.snapshot ≡ e.snapshot
      → e'.settled_at ≡ e.settled_at
      → IsBounded limits l
      → IsBounded limits (record l { entries = assign uid e' l.entries; operations = ops })
  assign-IsBounded l uid e e' ops h same still date v = record {
    shaped =
        let s = All-deref IsShaped uid e l.entries v.shaped h in
        All-assign IsShaped uid e' l.entries v.shaped
          (record { unsized = rw (same, still) s.unsized; undated = rw (date, still) s.undated });
    shaped_orphans = v.shaped_orphans;
    counted = omega (arith, v.counted, sum-assign size uid e e' l.entries h);
    within = ground (arith, v.within, sum-assign known_bytes uid e e' l.entries h);
    few = omega (arith, v.few, length-assign uid e' l.entries);
  }

  with_id-IsBounded :
      (op : String) (uid : ℕ) (l : OperationLedger T) (ops : Dict String ℕ)
      → IsBounded limits l
      → IsBounded limits (record l { entries = with_id op uid l.entries; operations = ops })
  unfolding with_id
  with_id-IsBounded op uid l ops v = elim (Option-cases (deref uid l.entries)) [
    | inl gone ↦
        rw (gone, with_id)
          (record {
            shaped = v.shaped;
            shaped_orphans = v.shaped_orphans;
            counted = v.counted;
            within = v.within;
            few = v.few;
          })
    | inr (e, found) ↦ rw (found, with_id) (assign-IsBounded l uid e _ ops found refl refl refl v)
  ]

  bind_operation-IsBounded :
      (op : String) (uid : ℕ) (l l' : OperationLedger T)
      → IsBounded limits l
      → bind_operation op uid l ≡ ok l'
      → IsBounded limits l'
  unfolding bind_operation
  bind_operation-IsBounded op uid l l' v h =
      ground (arith, with_id-IsBounded op uid l (set op uid l.operations) v)

  start_existing-IsBounded :
      (op fingerprint : String) (e : OperationEntry T) (l : OperationLedger T)
      → IsBounded limits l
      → IsBounded limits (start_existing limits op fingerprint e l).0
  unfolding start_existing
  start_existing-IsBounded op fingerprint e l v = elim (Result-cases (bind_operation op e.uid l)) [
    | inl (l', h) ↦ let v' = bind_operation-IsBounded op e.uid l l' v h in ground arith
    | inr (x, h) ↦ ground arith
  ]

  with_entry-IsBounded :
      (id fingerprint : String) (l : OperationLedger T)
      → length l.entries < limits.max_entries
      → IsBounded limits l
      → IsBounded limits (with_entry id fingerprint l)
  unfolding with_entry
  with_entry-IsBounded id fingerprint l room v =
      let e : OperationEntry T = new_entry id fingerprint l.next_uid in
      record {
        shaped =
            All-append IsShaped l.entries _ v.shaped
              (record { unsized = λ _. refl; undated = λ _. refl }, tt);
        shaped_orphans = v.shaped_orphans;
        counted = omega (arith, v.counted, sum-append size l.entries (e ∷ []));
        within = omega (arith, v.within, sum-append known_bytes l.entries (e ∷ []));
        few = omega (arith, length-append l.entries (e ∷ []));
      }

  start_new-IsBounded :
      (id op fingerprint : String) (l : OperationLedger T)
      → IsBounded limits l
      → IsBounded limits (start_new limits id op fingerprint l).0
  unfolding start_new make_capacity
  start_new-IsBounded id op fingerprint l v = elim (Bool-cases (has_capacity limits l)) [
    | inl room ↦
        let v' = with_entry-IsBounded id fingerprint l (ground arith) v in
        elim (Result-cases (bind_operation op l.next_uid (with_entry id fingerprint l))) [
          | inl (l', h) ↦ let w = bind_operation-IsBounded op l.next_uid _ l' v' h in ground arith
          | inr (x, h) ↦ ground arith
        ]
    | inr full ↦ ground arith
  ]

  pub start-IsBounded :
      (id op fingerprint : String) (now : ℕ) (l : OperationLedger T)
      → IsBounded limits l
      → IsBounded limits (start limits id op fingerprint now l).0
  unfolding start
  start-IsBounded id op fingerprint now l v =
      let v' = prune-IsBounded now l v in
      elim (Option-cases (find_entry id (prune limits now l).entries)) [
        | inl gone ↦ rw (gone, start) (start_new-IsBounded id op fingerprint _ v')
        | inr (e, found) ↦ rw (found, start) (start_existing-IsBounded op fingerprint e _ v')
      ]

  pub status-IsBounded :
      (id : String) (now : ℕ) (l : OperationLedger T)
      → IsBounded limits l
      → IsBounded limits (status limits id now l).0
  unfolding status
  status-IsBounded id now l v =
      let v' = prune-IsBounded now l v in
      elim (Option-cases (find_entry id (prune limits now l).entries)) [
        | inl gone ↦ rw (gone, status) v'
        | inr (e, found) ↦ rw (found, status) v'
      ]
