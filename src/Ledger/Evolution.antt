-- ===== src/Ledger/Evolution.antt =====
-- How the objects of `OperationLedger` (src/core/operation-ledger.ts) may change over time.
use remote_codex.Base.{
  ℕ, String, ◌≡◌, refl, ap, ◌∙◌, subst, ◌≢◌, inl, inr, Bool, false, ◌&&◌, none, some, List, [], ◌∷◌,
  ◌++◌, arith, Bool-cases, ◌==◌, nat_eq_iff, nat_key, string_key, filter_by,
}
use remote_codex.Ledger.Types.{
  OperationEntry, is_running, is_running_state, find_entry, deref, assign, remove_entry,
  abort_where,
}

module _ {T : Type 0} where
  -- An object later: the same request, and once it has settled the same outcome.
  pub record IsLater (e e' : OperationEntry T) : Type 0 where
    pub same_uid : e'.uid ≡ e.uid
    pub same_id : e'.entry_id ≡ e.entry_id
    pub same_fingerprint : e'.fingerprint ≡ e.fingerprint
    pub settled : is_running e ≡ false → (e'.snapshot ≡ e.snapshot) × (e'.result ≡ e.result)

  pub IsLater-refl : (e : OperationEntry T) → IsLater e e
  IsLater-refl e = record {
    same_uid = refl;
    same_id = refl;
    same_fingerprint = refl;
    settled = λ h. (refl, refl);
  }

  pub IsLater-trans : {e f g : OperationEntry T} → IsLater e f → IsLater f g → IsLater e g
  IsLater-trans {e} {f} {g} a b = record {
    same_uid = b.same_uid ∙ a.same_uid;
    same_id = b.same_id ∙ a.same_id;
    same_fingerprint = b.same_fingerprint ∙ a.same_fingerprint;
    settled = λ h.
        let k = a.settled h in
        let m = b.settled (ap (λ s. is_running_state s.status) k.0 ∙ h) in (m.0 ∙ k.0, m.1 ∙ k.1);
  }

  -- Objects are changed or dropped, in place.
  pub data Evolves : List (OperationEntry T) → List (OperationEntry T) → Type 0 where
    stop : Evolves [] []
    keep :
        {e e' : OperationEntry T} {es es' : List (OperationEntry T)}
        → IsLater e e'
        → Evolves es es'
        → Evolves (e ∷ es) (e' ∷ es')
    drops :
        {e : OperationEntry T} {es es' : List (OperationEntry T)}
        → Evolves es es'
        → Evolves (e ∷ es) es'

  pub Evolves-refl : (es : List (OperationEntry T)) → Evolves es es
  Evolves-refl [] = stop
  Evolves-refl (e ∷ es) = keep (IsLater-refl e) (Evolves-refl es)

  pub filter_by-Evolves :
      (p : OperationEntry T → Bool) (es : List (OperationEntry T)) → Evolves es (filter_by p es)
  filter_by-Evolves p [] = stop
  filter_by-Evolves p (e ∷ es) = elim (Bool-cases (p e)) [
    | inl hit ↦ rw hit (keep (IsLater-refl e) (filter_by-Evolves p es))
    | inr miss ↦ rw miss (drops (filter_by-Evolves p es))
  ]

  pub all-drops : (es : List (OperationEntry T)) → Evolves es []
  all-drops [] = stop
  all-drops (e ∷ es) = drops (all-drops es)

  pub assign-Evolves :
      (uid : ℕ) (e e' : OperationEntry T) (es : List (OperationEntry T))
      → deref uid es ≡ some e
      → IsLater e e'
      → Evolves es (assign uid e' es)
  unfolding deref assign
  assign-Evolves uid e e' [] h k = absurd (cc)
  assign-Evolves uid e e' (x ∷ es) h k = elim (Bool-cases (x.uid == uid)) [
    | inl hit ↦ rw hit (keep (subst (λ y. IsLater y e') (ground arith) k) (Evolves-refl es))
    | inr miss ↦ rw miss (keep (IsLater-refl x) (assign-Evolves uid e e' es (ground arith) k))
  ]

  pub remove_entry-Evolves :
      (id : String) (es : List (OperationEntry T)) → Evolves es (remove_entry id es)
  unfolding remove_entry
  remove_entry-Evolves id [] = stop
  remove_entry-Evolves id (x ∷ es) = elim (Bool-cases (x.entry_id == id)) [
    | inl hit ↦ rw hit (drops (Evolves-refl es))
    | inr miss ↦ rw miss (keep (IsLater-refl x) (remove_entry-Evolves id es))
  ]

  pub abort_where-Evolves :
      (p : OperationEntry T → Bool) (es : List (OperationEntry T)) → Evolves es (abort_where p es)
  unfolding abort_where
  abort_where-Evolves p [] = stop
  abort_where-Evolves p (x ∷ es) = elim (Bool-cases (p x && is_running x)) [
    | inl hit ↦ rw hit (
        keep
          (record {
            same_uid = refl;
            same_id = refl;
            same_fingerprint = refl;
            settled = λ h. (refl, refl);
          })
          (abort_where-Evolves p es))
    | inr miss ↦ rw miss (keep (IsLater-refl x) (abort_where-Evolves p es))
  ]

  pub Evolves-trans :
      {es fs gs : List (OperationEntry T)} → Evolves es fs → Evolves fs gs → Evolves es gs
  Evolves-trans stop b = b
  Evolves-trans (keep k a) (keep m b) = keep (IsLater-trans k m) (Evolves-trans a b)
  Evolves-trans (keep k a) (drops b) = drops (Evolves-trans a b)
  Evolves-trans (drops a) b = drops (Evolves-trans a b)

  pub deref-Evolves-none :
      {es es' : List (OperationEntry T)} (uid : ℕ)
      → Evolves es es'
      → deref uid es ≡ none
      → deref uid es' ≡ none
  unfolding deref
  deref-Evolves-none uid stop h = h
  deref-Evolves-none uid (keep {e = e} {e' = e'} k r) h =
      let rest = deref-Evolves-none uid r in ground (arith, k.same_uid, rest)
  deref-Evolves-none uid (drops {e = e} r) h =
      let rest = deref-Evolves-none uid r in ground (arith, rest)

  pub find_entry-Evolves-none :
      {es es' : List (OperationEntry T)} (id : String)
      → Evolves es es'
      → find_entry id es ≡ none
      → find_entry id es' ≡ none
  unfolding find_entry
  find_entry-Evolves-none id stop h = h
  find_entry-Evolves-none id (keep {e = e} {e' = e'} k r) h =
      let rest = find_entry-Evolves-none id r in ground (arith, k.same_id, rest)
  find_entry-Evolves-none id (drops {e = e} r) h =
      let rest = find_entry-Evolves-none id r in ground (arith, rest)

  -- No two objects share an identity or an entry id.
  abbrev pub IsKeyed : List (OperationEntry T) → Type 0
  IsKeyed [] = Unit {0}
  IsKeyed (e ∷ es) = (deref e.uid es ≡ none) × (find_entry e.entry_id es ≡ none) × IsKeyed es

  pub Evolves-IsKeyed :
      {es es' : List (OperationEntry T)} → Evolves es es' → IsKeyed es → IsKeyed es'
  Evolves-IsKeyed stop v = tt
  Evolves-IsKeyed (keep k r) v = (
    rw k.same_uid (deref-Evolves-none _ r v.0),
    rw k.same_id (find_entry-Evolves-none _ r v.1),
    Evolves-IsKeyed r v.2,
  )
  Evolves-IsKeyed (drops r) v = Evolves-IsKeyed r v.2

  -- What is found later under an identity was there before.
  pub deref-Evolves :
      {es es' : List (OperationEntry T)} (uid : ℕ) (e' : OperationEntry T)
      → Evolves es es'
      → IsKeyed es
      → deref uid es' ≡ some e'
      → (e : OperationEntry T) × (deref uid es ≡ some e) × IsLater e e'
  unfolding deref
  deref-Evolves uid e' stop v h = absurd (cc)
  deref-Evolves uid e' (keep {e = x} {e' = x'} {es' = es'} k r) v h =
      elim (Bool-cases (x'.uid == uid)) [
        | inl hit ↦ (x, ground (arith, k.same_uid), subst (IsLater x) (ground arith) k)
        | inr miss ↦
            let rest : deref uid es' ≡ some e' = ground arith in
            let (e, found, later) = deref-Evolves uid e' r v.2 rest in
            (e, ground (arith, k.same_uid), later)
      ]
  deref-Evolves uid e' (drops {e = x} r) v h =
      let (e, found, later) = deref-Evolves uid e' r v.2 h in
      (e, ground (arith, nat_eq_iff x.uid uid, v.0), later)

  pub deref-append_ne :
      (uid : ℕ) (x : OperationEntry T) (es : List (OperationEntry T))
      → x.uid ≢ uid
      → deref uid (es ++ x ∷ []) ≡ deref uid es
  unfolding deref
  deref-append_ne uid x [] h = ground arith
  deref-append_ne uid x (e ∷ es) h = ground (arith, deref-append_ne uid x es h)

  pub find_entry-append_ne :
      (id : String) (x : OperationEntry T) (es : List (OperationEntry T))
      → x.entry_id ≢ id
      → find_entry id (es ++ x ∷ []) ≡ find_entry id es
  unfolding find_entry
  find_entry-append_ne id x [] h = ground (arith, string_key.same_iff x.entry_id id)
  find_entry-append_ne id x (e ∷ es) h = ground (arith, find_entry-append_ne id x es h)

  pub deref-append_self :
      (x : OperationEntry T) (es : List (OperationEntry T))
      → deref x.uid es ≡ none
      → deref x.uid (es ++ x ∷ []) ≡ some x
  unfolding deref
  deref-append_self x [] h = ground arith
  deref-append_self x (e ∷ es) h = ground (arith, deref-append_self x es)

  pub append-IsKeyed :
      (x : OperationEntry T) (es : List (OperationEntry T))
      → deref x.uid es ≡ none
      → find_entry x.entry_id es ≡ none
      → IsKeyed es
      → IsKeyed (es ++ x ∷ [])
  unfolding deref find_entry
  append-IsKeyed x [] h k v = (refl, refl, tt)
  append-IsKeyed x (e ∷ es) h k v = (
    deref-append_ne e.uid x es (ground (arith, nat_eq_iff e.uid x.uid)) ∙ v.0,
    find_entry-append_ne e.entry_id x es (ground (arith, string_key.same_iff e.entry_id x.entry_id))
        ∙ v.1,
    append-IsKeyed x es (ground arith) (ground arith) v.2,
  )
