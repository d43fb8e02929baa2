-- ===== src/LocalCore/Laws.antt =====
-- What src/shim/local-core-policy.ts lets through, and where it puts its options.
use remote_codex.Base.{
  ℕ, suc, ◌≤◌, ◌<◌, String, ◌≡◌, refl, sym, ap, ◌∙◌, subst, ◌≢◌, inl, inr, Bool, true, false, not,
  ◌&&◌, ◌||◌, Option, none, some, List, [], ◌∷◌, ◌++◌, arith, if◌then◌else◌, Bool-cases,
  Option-cases, ◌==◌, nat_key, string_key, length, all, All, includes,
}
use remote_codex.Json.{Value, undefined, null, num, obj, arr, bool, str, at, has_at}
use remote_codex.Background.Calls.{codes}
use remote_codex.Config.Text.{has_code}
use remote_codex.LocalCore.{
  is_local_client_risk_namespace, method_of, is_blocked_local_client_message,
  LocalAttachmentRequestKind, attachment_directory, pasted_text, registry, matches,
  attachment_pattern, split, Paths, equal_codes, same_text, kind_of_segments, leads_out,
  managed_attachment_path_kind, is_true, is_text_up_to, max_managed_attachment_base64_length,
  is_allowed_method, is_object, allowed_local_attachment_request, remote_permission_overrides,
  as_options, index_of_text, spliced, next_place, with_remote_core_policy,
  is_blocked_local_client_method, blocked_local_client_methods,
}

matches-length : (ps : List (ℕ → Bool)) (cs : List ℕ) → matches ps cs ≡ true → length cs ≡ length ps
unfolding matches
matches-length [] [] h = refl
matches-length (p ∷ ps) (c ∷ cs) h = ap suc (matches-length ps cs (ground arith))
matches-length [] (c ∷ cs) h = absurd (cc)
matches-length (p ∷ ps) [] h = absurd (cc)

equal_codes-eq : (xs ys : List ℕ) → equal_codes xs ys ≡ true → xs ≡ ys
unfolding equal_codes
equal_codes-eq [] [] h = refl
equal_codes-eq (x ∷ xs) (y ∷ ys) h =
    let first : x ≡ y = ground arith in
    let rest = equal_codes-eq xs ys (ground arith) in rw first (ap (◌∷◌ y) rest)
equal_codes-eq [] (y ∷ ys) h = absurd (cc)
equal_codes-eq (x ∷ xs) [] h = absurd (cc)

-- The name of a directory's parent.
abbrev pub dots : List ℕ
dots = 46 ∷ 46 ∷ []

length-neq-dots : (cs : List ℕ) (n : ℕ) → length cs ≡ n → 2 < n → cs ≢ dots
length-neq-dots cs n h l e = absurd (let z : length cs ≡ 2 = ap length e in omega (arith, h, l, z))

-- A name that one of the kinds of path asks for.
abbrev pub IsName : List ℕ → Type 0
IsName segment = segment ≢ dots

text-neq-dots :
    (cs : List ℕ) (s : String) → same_text cs s ≡ true → 2 < length (codes s) → IsName cs
text-neq-dots cs s h l =
    length-neq-dots cs (length (codes s)) (ap length (equal_codes-eq cs (codes s) h)) l

pattern-neq-dots : (cs : List ℕ) → matches attachment_pattern cs ≡ true → IsName cs
pattern-neq-dots cs h = length-neq-dots cs 36 (matches-length attachment_pattern cs h) (omega arith)

single-IsName :
    (name : List ℕ) (kind : LocalAttachmentRequestKind)
    → kind_of_segments (name ∷ []) ≡ some kind
    → IsName name
unfolding kind_of_segments
single-IsName name kind h = elim (Bool-cases (same_text name "pasted-text-attachments.json")) [
  | inl same ↦ text-neq-dots name "pasted-text-attachments.json" same (omega arith)
  | inr other ↦ elim (Bool-cases (matches attachment_pattern name)) [
    | inl fits ↦ pattern-neq-dots name fits
    | inr differs ↦ absurd (let z : none ≡ some kind = rw (other, differs) at h in cc)
  ]
]

pair-IsName :
    (directory name : List ℕ) (kind : LocalAttachmentRequestKind)
    → kind_of_segments (directory ∷ name ∷ []) ≡ some kind
    → IsName directory × IsName name
unfolding kind_of_segments
pair-IsName directory name kind h =
    elim (Bool-cases (matches attachment_pattern directory && same_text name "pasted-text.txt")) [
      | inl both ↦ (
        pattern-neq-dots directory (ground (arith, both)),
        text-neq-dots name "pasted-text.txt" (ground (arith, both)) (omega arith),
      )
      | inr neither ↦ absurd (let z : none ≡ some kind = rw neither at h in cc)
    ]

kind_of_segments-IsName :
    (segments : List (List ℕ)) (kind : LocalAttachmentRequestKind)
    → kind_of_segments segments ≡ some kind
    → All IsName segments × (length segments ≤ 2)
unfolding kind_of_segments
kind_of_segments-IsName [] kind h = absurd (cc)
kind_of_segments-IsName (name ∷ []) kind h = ((single-IsName name kind h, tt), omega arith)
kind_of_segments-IsName (directory ∷ name ∷ []) kind h =
    let (a, b) = pair-IsName directory name kind h in ((a, (b, tt)), omega arith)
kind_of_segments-IsName (a ∷ b ∷ c ∷ rest) kind h = absurd (cc)

-- A path that is one of the managed attachments below a root.
pub record IsManaged (paths : Paths) (root path : String) : Type 0 where
  pub whole : has_code 0 path ≡ false
  pub absolute : paths.is_absolute path ≡ true
  pub names :
      All IsName
        (split paths.separator (codes (paths.relative (paths.resolve root) (paths.resolve path))))
  pub shallow :
      length
        (split paths.separator (codes (paths.relative (paths.resolve root) (paths.resolve path))))
      ≤ 2
  pub below : paths.is_absolute (paths.relative (paths.resolve root) (paths.resolve path)) ≡ false

text-IsManaged :
    (paths : Paths) (root path : String) (kind : LocalAttachmentRequestKind)
    → managed_attachment_path_kind paths (str path) root ≡ some kind
    → IsManaged paths root path
unfolding managed_attachment_path_kind
text-IsManaged paths root path kind h =
    let child = paths.relative (paths.resolve root) (paths.resolve path) in
    elim (Bool-cases (
      has_code 0 path
      || not (paths.is_absolute path)
      || leads_out paths.separator (codes child)
      || paths.is_absolute child)) [
        | inl outside ↦ absurd (let z : none ≡ some kind = rw outside at h in cc)
        | inr inside ↦
            let (names, shallow) =
              kind_of_segments-IsName (split paths.separator (codes child)) kind (rw inside at h) in
            record {
              whole = ground (arith, inside);
              absolute = ground (arith, inside);
              names = names;
              shallow = shallow;
              below = ground (arith, inside);
            }
      ]

IsManaged-str :
    (paths : Paths) (v : Value) (root : String) (kind : LocalAttachmentRequestKind)
    → managed_attachment_path_kind paths v root ≡ some kind
    → (path : String) × (v ≡ str path) × IsManaged paths root path
unfolding managed_attachment_path_kind
IsManaged-str paths (str path) root kind h = (path, refl, text-IsManaged paths root path kind h)
IsManaged-str paths undefined root kind h = absurd (cc)
IsManaged-str paths null root kind h = absurd (cc)
IsManaged-str paths (num n) root kind h = absurd (cc)
IsManaged-str paths (bool b) root kind h = absurd (cc)
IsManaged-str paths (obj fs) root kind h = absurd (cc)
IsManaged-str paths (arr vs) root kind h = absurd (cc)

blocked-eq :
    (m : String) (t : String)
    → (m == t) ≡ true
    → is_blocked_local_client_method t ≡ true
    → is_blocked_local_client_method m ≡ true
blocked-eq m t h b =
    subst (λ x. is_blocked_local_client_method x ≡ true) (sym ((string_key.same_iff m t).0 h)) b

is_allowed_method-blocked :
    (m : String) (params : Value) (kind : Option LocalAttachmentRequestKind)
    → is_allowed_method m params kind ≡ true
    → is_blocked_local_client_method m ≡ true
unfolding is_allowed_method
is_allowed_method-blocked m params kind h = elim (Bool-cases (m == "fs/readFile")) [
  | inl e ↦ blocked-eq m "fs/readFile" e (unfold is_blocked_local_client_method in refl)
  | inr a ↦ elim (Bool-cases (m == "fs/createDirectory")) [
    | inl e ↦ blocked-eq m "fs/createDirectory" e (unfold is_blocked_local_client_method in refl)
    | inr b ↦ elim (Bool-cases (m == "fs/writeFile")) [
      | inl e ↦ blocked-eq m "fs/writeFile" e (unfold is_blocked_local_client_method in refl)
      | inr c ↦ elim (Bool-cases (m == "fs/remove")) [
        | inl e ↦ blocked-eq m "fs/remove" e (unfold is_blocked_local_client_method in refl)
        | inr d ↦ absurd (let z : false ≡ true = rw (a, b, c, d) at h in cc)
      ]
    ]
  ]
]

includes-all :
    (p : String → Bool) (m : String) (ms : List String)
    → all p ms ≡ true
    → includes m ms ≡ true
    → p m ≡ true
includes-all p m [] h k = absurd (cc)
includes-all p m (x ∷ ms) h k = elim (Bool-cases (x == m)) [
  | inl same ↦ subst (λ y. p y ≡ true) ((string_key.same_iff x m).0 same) (ground (arith, h))
  | inr other ↦ includes-all p m ms (ground (arith, h)) (rw other at k)
]

blocked_in_namespace :
    (m : String) → is_blocked_local_client_method m ≡ true → is_local_client_risk_namespace m ≡ true
unfolding is_blocked_local_client_method
blocked_in_namespace m h =
    includes-all is_local_client_risk_namespace m blocked_local_client_methods
      (unfold is_local_client_risk_namespace in refl) h

-- What is known of a request that is let through.
pub record IsLetThrough (paths : Paths) (message : Value) (root : String)
    (kind : LocalAttachmentRequestKind) : Type 0 where
  pub is_request : has_at "id" message ≡ true
  pub method : String
  pub has_method : method_of message ≡ some method
  pub otherwise_blocked : is_blocked_local_client_message message ≡ true
  pub path : String
  pub has_path : at "path" (at "params" message) ≡ str path
  pub managed : IsManaged paths root path
  pub removes_one :
      method ≡ "fs/remove"
      → (kind ≡ pasted_text) × (is_true (at "recursive" (at "params" message)) ≡ false)
  pub writes_little :
      method ≡ "fs/writeFile"
      → is_text_up_to max_managed_attachment_base64_length (at "dataBase64" (at "params" message))
        ≡ true

remove-pasted :
    (params : Value) (kind : LocalAttachmentRequestKind)
    → is_allowed_method "fs/remove" params (some kind) ≡ true
    → (kind ≡ pasted_text) × (is_true (at "recursive" params) ≡ false)
unfolding is_allowed_method
remove-pasted params pasted_text h = (refl, ground (arith, h))
remove-pasted params registry h = absurd (cc)
remove-pasted params attachment_directory h = absurd (cc)

write-bounded :
    (params : Value) (kind : LocalAttachmentRequestKind)
    → is_allowed_method "fs/writeFile" params (some kind) ≡ true
    → is_text_up_to max_managed_attachment_base64_length (at "dataBase64" params) ≡ true
unfolding is_allowed_method
write-bounded params pasted_text h = h
write-bounded params registry h = h
write-bounded params attachment_directory h = absurd (cc)

-- Whatever message a client sends: when it is let through as a request for an attachment, it is a request
-- that the policy would block otherwise; its path is absolute, has no NUL and leads, by two names
-- at most, none of which is that of a parent, to a place below the attachments' root; what is removed
-- is one pasted text, not a directory with what it holds, and what is written is no longer than the
-- largest attachment.
pub allowed_local_attachment_request-IsLetThrough :
    (paths : Paths) (message : Value) (root : String) (kind : LocalAttachmentRequestKind)
    → allowed_local_attachment_request paths message root ≡ some kind
    → IsLetThrough paths message root kind
unfolding allowed_local_attachment_request is_blocked_local_client_message
allowed_local_attachment_request-IsLetThrough paths message root kind h =
    let params = at "params" message in
    let shape =
      not (has_at "method" message) || not (has_at "id" message) || not (is_object params) in
    elim (Bool-cases shape) [
      | inl wrong ↦ absurd (let z : none ≡ some kind = rw wrong at h in cc)
      | inr right ↦ elim (Option-cases (method_of message)) [
        | inl missing ↦ absurd (let z : none ≡ some kind = rw (right, missing) at h in cc)
        | inr (m, found) ↦
            let managed = managed_attachment_path_kind paths (at "path" params) root in
            elim (Bool-cases (is_allowed_method m params managed)) [
              | inl allowed ↦
                  let same : managed ≡ some kind = rw (right, found, allowed) at h in
                  let passed = subst (λ o. is_allowed_method m params o ≡ true) same allowed in
                  let (path, has_path, inside) =
                    IsManaged-str paths (at "path" params) root kind same in
                  let blocked =
                    blocked_in_namespace m
                      (is_allowed_method-blocked m params (some kind) passed) in
                  record {
                    is_request = ground (arith, right);
                    method = m;
                    has_method = found;
                    otherwise_blocked = rw (is_blocked_local_client_message, found) blocked;
                    path = path;
                    has_path = has_path;
                    managed = inside;
                    removes_one = λ e.
                        remove-pasted params kind
                          (subst (λ x. is_allowed_method x params (some kind) ≡ true) e passed);
                    writes_little = λ e.
                        write-bounded params kind
                          (subst (λ x. is_allowed_method x params (some kind) ≡ true) e passed);
                  }
              | inr denied ↦
                  absurd (let z : none ≡ some kind = rw (right, found, denied) at h in cc)
            ]
      ]
    ]

abbrev behind_first : String → Option (List String) → Option (List String)
behind_first x none = none
behind_first x (some ys) = some (x ∷ ys)

-- The options stand before the first `app-server`, if there is one.
unfoldable pub insert_before : List String → List String → Option (List String)
insert_before options [] = none
insert_before options (x ∷ xs) =
    let rest = insert_before options xs in
    if x == "app-server" then some (options ++ (x ∷ xs)) else behind_first x rest

spliced-next :
    (options : List String) (x : String) (xs : List String) (o : Option ℕ)
    → spliced options (x ∷ xs) (next_place o) ≡ behind_first x (spliced options xs o)
spliced-next options x xs none = refl
spliced-next options x xs (some n) = refl

index_of_text-spliced :
    (options args : List String)
    → spliced options args (index_of_text "app-server" args) ≡ insert_before options args
unfolding index_of_text insert_before
index_of_text-spliced options [] = refl
index_of_text-spliced options (x ∷ xs) = elim (Bool-cases (x == "app-server")) [
  | inl here ↦ rw here refl
  | inr later ↦ rw later (
      spliced-next options x xs (index_of_text "app-server" xs)
      ∙ ap (behind_first x) (index_of_text-spliced options xs))
]

-- `withRemoteCorePolicy` puts its options before the first `app-server` of the arguments and leaves
-- these as they are and in their order; it refuses arguments without one.
pub with_remote_core_policy-insert_before :
    (args : List String)
    → with_remote_core_policy args ≡ insert_before (as_options remote_permission_overrides) args
unfolding with_remote_core_policy
with_remote_core_policy-insert_before args =
    index_of_text-spliced (as_options remote_permission_overrides) args
