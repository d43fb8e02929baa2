-- ===== src/Mutations/Patches.antt =====
-- What the patches of src/core/workspace-mutations.ts do to a text.
use remote_codex.Base.{
  ℕ, zero, suc, ◌+◌, ◌≤◌, ◌<◌, ◌≡◌, refl, sym, ap, ◌∙◌, ◌≢◌, inl, inr, Bool, true, false, Option,
  none, some, List, [], ◌∷◌, ◌++◌, append_assoc, arith, nat_eq, Bool-cases, Option-cases, nat_key,
  string_key, some_inj, nat_eq_iff, length, take, drop, length-take, drop-nil, drop-drop,
  take-append-drop,
}
use remote_codex.Errors.{ok}
use remote_codex.Mutations.{
  WorkspacePatchReplacement, is_prefix, next_index, index_of, is_found, replace,
}

-- Whether the text has the pattern at a place.
abbrev pub occurs_at : List ℕ → List ℕ → ℕ → Bool
occurs_at pattern text n = is_prefix pattern (drop n text)

is_prefix-append :
    (pattern text : List ℕ)
    → is_prefix pattern text ≡ true
    → text ≡ pattern ++ drop (length pattern) text
unfolding is_prefix
is_prefix-append [] text h = refl
is_prefix-append (c ∷ cs) [] h = absurd (cc)
is_prefix-append (c ∷ cs) (d ∷ ds) h =
    let rest = is_prefix-append cs ds (ground arith) in
    let same : d ≡ c = ground (arith, nat_eq_iff c d) in rw same (ap (◌∷◌ c) rest)

is_prefix-nil : (pattern : List ℕ) → 0 < length pattern → is_prefix pattern [] ≡ false
unfolding is_prefix
is_prefix-nil [] h = absurd (omega arith)
is_prefix-nil (c ∷ cs) h = refl

next_index-some :
    (o : Option ℕ) (n : ℕ) → next_index o ≡ some n → (m : ℕ) × (o ≡ some m) × (n ≡ suc m)
next_index-some none n h = absurd (cc)
next_index-some (some m) n h = (m, refl, sym (some_inj h))

next_index-none : (o : Option ℕ) → next_index o ≡ none → o ≡ none
next_index-none none h = refl
next_index-none (some m) h = absurd (cc)

first_later :
    (pattern : List ℕ) (c : ℕ) (cs : List ℕ) (k : ℕ)
    → is_prefix pattern (c ∷ cs) ≡ false
    → ((m : ℕ) → m < k → occurs_at pattern cs m ≡ false)
    → (m : ℕ) → m < suc k
    → occurs_at pattern (c ∷ cs) m ≡ false
first_later pattern c cs k h first zero l = h
first_later pattern c cs k h first (suc m) l = first m (omega arith)

-- `indexOf` finds the first place.
index_of-some :
    (pattern text : List ℕ) (n : ℕ)
    → index_of pattern text ≡ some n
    → (occurs_at pattern text n ≡ true)
      × (n ≤ length text)
      × ((m : ℕ) → m < n → occurs_at pattern text m ≡ false)
unfolding index_of
index_of-some pattern [] n h = elim (Bool-cases (is_prefix pattern [])) [
  | inl here ↦
      let zero_index : n ≡ 0 = ground arith in
      rw zero_index (here, omega arith, λ m l. absurd (omega arith))
  | inr nowhere ↦ absurd (let e : none ≡ some n = rw nowhere at h in cc)
]
index_of-some pattern (c ∷ cs) n h = elim (Bool-cases (is_prefix pattern (c ∷ cs))) [
  | inl here ↦
      let zero_index : n ≡ 0 = ground arith in
      rw zero_index (here, omega arith, λ m l. absurd (omega arith))
  | inr later ↦
      let (k, found, e) = next_index-some (index_of pattern cs) n (ground arith) in
      let (there, inside, first) = index_of-some pattern cs k found in
      rw e (there, omega (arith, inside), first_later pattern c cs k later first)
]

index_of-none :
    (pattern text : List ℕ) (n : ℕ)
    → 0 < length pattern
    → index_of pattern text ≡ none
    → occurs_at pattern text n ≡ false
unfolding index_of
index_of-none pattern [] n p h = rw (drop-nil n) (is_prefix-nil pattern p)
index_of-none pattern (c ∷ cs) zero p h = ground arith
index_of-none pattern (c ∷ cs) (suc n) p h =
    index_of-none pattern cs n p (next_index-none (index_of pattern cs) (ground arith))

-- A text around a place of the pattern.
split_at :
    (pattern text : List ℕ) (n : ℕ)
    → occurs_at pattern text n ≡ true
    → text ≡ take n text ++ (pattern ++ drop (n + length pattern) text)
split_at pattern text n h =
    let behind : drop (length pattern) (drop n text) ≡ drop (n + length pattern) text =
      drop-drop (length pattern) n text in
    sym (take-append-drop n text)
    ∙ ap (λ x. take n text ++ x)
        (is_prefix-append pattern (drop n text) h ∙ ap (λ x. pattern ++ x) behind)

is_found-none : (o : Option ℕ) → is_found o ≡ false → o ≡ none
is_found-none none h = refl
is_found-none (some n) h = absurd (cc)

-- A replacement that is made: the text falls into a part before, the old text, and a part behind, of
-- which the new text replaces the old and the others stay; the old text begins nowhere earlier, and
-- nowhere in the part behind.
pub replace_lem :
    (r : WorkspacePatchReplacement) (text result : List ℕ)
    → replace r text ≡ ok result
    → (before after : List ℕ) × (text ≡ before ++ r.old_text ++ after)
      × (result ≡ before ++ r.new_text ++ after)
      × ((m : ℕ) → m < length before → occurs_at r.old_text text m ≡ false)
      × ((m : ℕ) → occurs_at r.old_text after m ≡ false)
unfolding replace
replace_lem r text result h = elim (Bool-cases (nat_eq (length r.old_text) 0)) [
  | inl bare ↦ absurd (ground arith)
  | inr full ↦ elim (Option-cases (index_of r.old_text text)) [
    | inl missing ↦ absurd (ground arith)
    | inr (first, there) ↦
        let after = drop (first + length r.old_text) text in
        elim (Bool-cases (is_found (index_of r.old_text after))) [
          | inl twice ↦ absurd (ground arith)
          | inr once ↦
              let (here, inside, earliest) = index_of-some r.old_text text first there in
              let some_text : 0 < length r.old_text =
                ground (arith, nat_eq_iff (length r.old_text) 0) in
              let made : result ≡ take first text ++ r.new_text ++ after = ground arith in
              (
                take first text,
                after,
                split_at r.old_text text first here
                    ∙ sym (append_assoc (take first text) r.old_text after),
                made,
                (λ m l. earliest m (omega (arith, l, length-take first text))),
                (λ m. index_of-none r.old_text after m some_text (is_found-none _ once)),
              )
        ]
  ]
]

unique_index :
    (pattern text : List ℕ) (n : ℕ)
    → 0 < length pattern
    → occurs_at pattern text n ≡ true
    → ((m : ℕ) → m ≢ n → occurs_at pattern text m ≡ false)
    → index_of pattern text ≡ some n
unique_index pattern text n p here alone = elim (Option-cases (index_of pattern text)) [
  | inl missing ↦
      absurd (let z : true ≡ false = sym here ∙ index_of-none pattern text n p missing in cc)
  | inr (k, found) ↦
      let (there, inside, first) = index_of-some pattern text k found in
      elim (Bool-cases (nat_eq k n)) [
        | inl same ↦ found ∙ ap some ((nat_eq_iff k n).0 same)
        | inr other ↦
            absurd (
              let z : true ≡ false = sym there ∙ alone k (λ e. ground (arith, nat_eq_iff k n)) in
              cc)
      ]
]

-- A text that has the old text, which is not empty, at exactly one place: the replacement is made,
-- there.
pub replace-occurs_at :
    (r : WorkspacePatchReplacement) (text : List ℕ) (n : ℕ)
    → 0 < length r.old_text
    → occurs_at r.old_text text n ≡ true
    → ((m : ℕ) → m ≢ n → occurs_at r.old_text text m ≡ false)
    → replace r text ≡ ok (take n text ++ r.new_text ++ drop (n + length r.old_text) text)
unfolding replace
replace-occurs_at r text n p here alone =
    let found = unique_index r.old_text text n p here alone in
    let after = drop (n + length r.old_text) text in
    let full : nat_eq (length r.old_text) 0 ≡ false =
      ground (arith, nat_eq_iff (length r.old_text) 0) in
    elim (Option-cases (index_of r.old_text after)) [
      | inl once ↦ rw (replace, full, found, once) refl
      | inr (k, again) ↦
          let (there, inside, first) = index_of-some r.old_text after k again in
          let same : drop k after ≡ drop (n + length r.old_text + k) text =
            drop-drop k (n + length r.old_text) text in
          let z : true ≡ false =
            sym there
            ∙ ap (is_prefix r.old_text) same
            ∙ alone (n + length r.old_text + k) (λ e. omega (arith, e, p)) in
          absurd (cc)
    ]
