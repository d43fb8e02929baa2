-- ===== src/Ledger/Identity.antt =====
-- The identities of the objects of `OperationLedger` (src/core/operation-ledger.ts), over a history.
use remote_codex.Base.{
  ℕ, suc, ◌≤◌, ◌<◌, ◌≡◌, refl, sym, ap, ◌∙◌, Bool, true, false, Option, none, some, List, [], ◌∷◌,
  arith, nat_key, string_key, filter_by, All, All-append,
}
use remote_codex.Ledger.Types.{
  OperationEntry, OperationLedger, OperationSnapshot, Limits, find_entry, deref, init,
}
use remote_codex.Ledger.Calls.{prune, is_expired}
use remote_codex.Ledger.Store.{All-deref, is_fresh, prune_entries-kept}
use remote_codex.Ledger.Steps.{Reach, begin, next, Follows, now_here, then_step}
use remote_codex.Ledger.Evolution.{
  IsLater, Evolves, stop, keep, drops, IsLater-refl, IsLater-trans, IsKeyed, filter_by-Evolves,
  Evolves-IsKeyed, deref-Evolves, deref-append_ne, append-IsKeyed,
}
use remote_codex.Ledger.History.{Grows, same, new, Step-Grows}

module _ {T : Type 0} where
  All-Evolves :
      (n : ℕ) {es es' : List (OperationEntry T)}
      → Evolves es es'
      → All (λ e. e.uid < n) es
      → All (λ e. e.uid < n) es'
  All-Evolves n stop h = tt
  All-Evolves n (keep k r) h = (rw k.same_uid h.0, All-Evolves n r h.1)
  All-Evolves n (drops r) h = All-Evolves n r h.1

  pub deref_beyond :
      (n uid : ℕ) (es : List (OperationEntry T))
      → All (λ e. e.uid < n) es
      → n ≤ uid
      → deref uid es ≡ none
  unfolding deref
  deref_beyond n uid [] h k = refl
  deref_beyond n uid (e ∷ es) h k = ground (arith, deref_beyond n uid es h.1)

  below_suc :
      (n : ℕ) (es : List (OperationEntry T)) → All (λ e. e.uid < n) es → All (λ e. e.uid < suc n) es
  below_suc n [] h = tt
  below_suc n (e ∷ es) h = (omega arith, below_suc n es h.1)

  -- Identities and entry ids are distinct, and identities that are to come are larger.
  pub record IsIdentified (l : OperationLedger T) : Type 0 where
    pub keyed : IsKeyed l.entries
    pub below : All (λ e. e.uid < l.next_uid) l.entries

  Grows-IsIdentified : {l l' : OperationLedger T} → Grows l l' → IsIdentified l → IsIdentified l'
  Grows-IsIdentified {l} {l'} (same r n) v = record {
    keyed = Evolves-IsKeyed r v.keyed;
    below = rw n (All-Evolves l.next_uid r v.below);
  }
  Grows-IsIdentified {l} {l'} (new e mid u n f r s) v =
      let b = All-Evolves l.next_uid r v.below in
      record {
        keyed = Evolves-IsKeyed s (
            append-IsKeyed e mid (deref_beyond l.next_uid e.uid mid b (omega (arith, u))) f
              (Evolves-IsKeyed r v.keyed));
        below = rw n (
            All-Evolves (suc l.next_uid) s (
              All-append (λ x. x.uid < suc l.next_uid) mid (e ∷ []) (below_suc l.next_uid mid b)
                (omega (arith, u), tt)));
      }

  deref-Grows :
      {l l' : OperationLedger T} (uid : ℕ) (e' : OperationEntry T)
      → Grows l l'
      → IsIdentified l
      → uid < l.next_uid
      → deref uid l'.entries ≡ some e'
      → (e : OperationEntry T) × (deref uid l.entries ≡ some e) × IsLater e e'
  deref-Grows uid e' (same r n) v h d = deref-Evolves uid e' r v.keyed d
  deref-Grows {l} uid e' (new x mid u n f r s) v h d =
      let b = All-Evolves l.next_uid r v.below in
      let gone = deref_beyond l.next_uid x.uid mid b (omega (arith, u)) in
      let (y, found, later) =
        deref-Evolves uid e' s (append-IsKeyed x mid gone f (Evolves-IsKeyed r v.keyed)) d in
      let found' = sym (deref-append_ne uid x mid (omega (arith, u))) ∙ found in
      let (e, first, before) = deref-Evolves uid y r v.keyed found' in
      (e, first, IsLater-trans before later)

  next_uid-Grows : {l l' : OperationLedger T} → Grows l l' → l.next_uid ≤ l'.next_uid
  next_uid-Grows (same r n) = omega arith
  next_uid-Grows (new e mid u n f r s) = omega arith

  -- With distinct keys, the entry of an identity is the entry of its id.
  find_entry-deref :
      (uid : ℕ) (e : OperationEntry T) (es : List (OperationEntry T))
      → IsKeyed es
      → deref uid es ≡ some e
      → find_entry e.entry_id es ≡ some e
  unfolding deref find_entry
  find_entry-deref uid e [] v h = cc
  find_entry-deref uid e (x ∷ es) v h =
      ground (arith, v.1, find_entry-deref uid e es v.2, string_key.same_iff x.entry_id e.entry_id)

  deref-filter_by :
      (p : OperationEntry T → Bool) (uid : ℕ) (e : OperationEntry T) (es : List (OperationEntry T))
      → deref uid es ≡ some e
      → p e ≡ true
      → deref uid (filter_by p es) ≡ some e
  unfolding deref
  deref-filter_by p uid e [] h k = cc
  deref-filter_by p uid e (x ∷ es) h k = ground (arith, deref-filter_by p uid e es, ap p)

  module _ (limits : Limits) (json_bytes : OperationSnapshot T → Option ℕ) where
    pub Reach-IsIdentified : {l : OperationLedger T} → Reach limits json_bytes l → IsIdentified l
    unfolding init
    Reach-IsIdentified (begin h) = ground arith
    Reach-IsIdentified (next r s) =
        Grows-IsIdentified (Step-Grows limits json_bytes s) (Reach-IsIdentified r)

    pub Follows-IsIdentified :
        {l l' : OperationLedger T}
        → Follows limits json_bytes l l'
        → IsIdentified l
        → IsIdentified l' × (l.next_uid ≤ l'.next_uid)
    Follows-IsIdentified now_here v = (v, omega arith)
    Follows-IsIdentified (then_step f s) v =
        let (w, n) = Follows-IsIdentified f v in
        let g = Step-Grows limits json_bytes s in
        (Grows-IsIdentified g w, omega (arith, next_uid-Grows g))

    -- An object that is there later was there before, for the same request, and an outcome that it had
    -- then is the one that it has now.
    pub Follows-IsLater :
        {l l' : OperationLedger T} (uid : ℕ) (e' : OperationEntry T)
        → Follows limits json_bytes l l'
        → IsIdentified l
        → uid < l.next_uid
        → deref uid l'.entries ≡ some e'
        → (e : OperationEntry T) × (deref uid l.entries ≡ some e) × IsLater e e'
    Follows-IsLater uid e' now_here v h d = (e', d, IsLater-refl e')
    Follows-IsLater uid e' (then_step f s) v h d =
        let (w, n) = Follows-IsIdentified f v in
        let (y, found, later) =
          deref-Grows uid e' (Step-Grows limits json_bytes s) w (omega arith) d in
        let (e, first, before) = Follows-IsLater uid y f v h found in
        (e, first, IsLater-trans before later)

  pub deref-uid :
      (uid : ℕ) (e : OperationEntry T) (es : List (OperationEntry T))
      → deref uid es ≡ some e
      → e.uid ≡ uid
  unfolding deref
  deref-uid uid e [] h = cc
  deref-uid uid e (x ∷ es) h = ground (arith, deref-uid uid e es)

  pub deref-lt :
      (uid : ℕ) (e : OperationEntry T) (l : OperationLedger T)
      → IsIdentified l
      → deref uid l.entries ≡ some e
      → uid < l.next_uid
  deref-lt uid e l v h = omega (
    arith,
    deref-uid uid e l.entries h,
    All-deref (λ x. x.uid < l.next_uid) uid e l.entries v.below h,
  )

  pub prune-IsIdentified :
      (limits : Limits) (now : ℕ) (l : OperationLedger T)
      → IsIdentified l
      → IsIdentified (prune limits now l)
  unfolding prune
  prune-IsIdentified limits now l v =
      let r = filter_by-Evolves (is_fresh limits now) l.entries in
      rw (prune_entries-kept limits now l.entries l.stored_bytes)
        (record { keyed = Evolves-IsKeyed r v.keyed; below = All-Evolves l.next_uid r v.below })

  -- An entry that has not expired is found by a call that prunes first.
  pub find_entry-prune :
      (limits : Limits) (now uid : ℕ) (e : OperationEntry T) (l : OperationLedger T)
      → IsIdentified l
      → deref uid l.entries ≡ some e
      → is_expired limits now e ≡ false
      → find_entry e.entry_id (prune limits now l).entries ≡ some e
  unfolding prune
  find_entry-prune limits now uid e l v h young =
      rw (prune_entries-kept limits now l.entries l.stored_bytes) (
        find_entry-deref uid e _
          (Evolves-IsKeyed (filter_by-Evolves (is_fresh limits now) l.entries) v.keyed)
          (deref-filter_by (is_fresh limits now) uid e l.entries h (rw young)))
