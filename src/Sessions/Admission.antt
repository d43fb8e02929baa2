-- ===== src/Sessions/Admission.antt =====
-- src/core/remote-mcp-policy.ts, src/core/remote-mcp-adapters.ts and `start` of
-- src/remote-extension/stdio-sessions.ts: what can be launched.
use remote_codex.Base.{
  ℕ, ◌≤◌, String, ◌≡◌, refl, ◌∙◌, subst, ◌⊎◌, inl, inr, Bool, true, false, not, ◌&&◌, ◌||◌, Option,
  none, some, List, [], ◌∷◌, arith, Bool-cases, Option-cases, ◌==◌, nat_key, string_key, length,
  all, All, includes, get,
}
use remote_codex.Errors.{ok, ◌>>◌, >>=-eq-ok, >>-eq-ok, throw_if-eq-ok, throw_if-passed, ok_inj}
use remote_codex.Background.Calls.{codes}
use remote_codex.Sessions.Launch.{
  local_launchers, is_plain, is_executable_name, is_dash, is_word, is_safe_argument,
  is_sensitive_argument, is_eligible_argument, remote_mcp_executable_name, is_some_text,
  assert_remote_mcp_launch, RemoteMcpLaunch, RemoteMcpLaunchRequest, resolve_codegraph,
  resolve_adapter, resolve_remote_mcp_launch,
}
use remote_codex.Config.Checks.{holds_of_negated}
use remote_codex.Sessions.Table.{StartStdioRequest, RemoteStdioSessions, start_begin}

is_word-plain : (cs : List ℕ) → is_word cs ≡ true → all is_plain cs ≡ true
is_word-plain [] h = refl
is_word-plain (c ∷ cs) h = ground arith

is_dash-plain : (c : ℕ) → is_dash c ≡ true → is_plain c ≡ true
is_dash-plain c h = ground arith

or_cases : (a b : Bool) → (a || b) ≡ true → (a ≡ true) ⊎ (b ≡ true)
or_cases true b h = inl refl
or_cases false b h = inr h

and_both : (a b : Bool) → (a && b) ≡ true → (a ≡ true) × (b ≡ true)
and_both true b h = (refl, h)
and_both false b h = absurd (cc)

both_and : (a b : Bool) → a ≡ true → b ≡ true → (a && b) ≡ true
both_and true b h k = k
both_and false b h k = absurd (cc)

fails_of_negated : (b : Bool) → not b ≡ true → b ≡ false
fails_of_negated true h = absurd (cc)
fails_of_negated false h = refl

plain_then :
    (c : ℕ) (cs : List ℕ) → is_dash c ≡ true → all is_plain cs ≡ true → all is_plain (c ∷ cs) ≡ true
plain_then c cs h k = both_and (is_plain c) (all is_plain cs) (is_dash-plain c h) k

is_safe_argument-plain : (cs : List ℕ) → is_safe_argument cs ≡ true → all is_plain cs ≡ true
is_safe_argument-plain [] h = refl
is_safe_argument-plain (a ∷ []) h = is_word-plain (a ∷ []) h
is_safe_argument-plain (a ∷ b ∷ cs) h = elim (or_cases (is_word (a ∷ b ∷ cs)) _ h) [
  | inl word ↦ is_word-plain (a ∷ b ∷ cs) word
  | inr dashed ↦
      let (dash, rest) = and_both (is_dash a) _ dashed in
      plain_then a (b ∷ cs) dash (elim (or_cases (is_word (b ∷ cs)) _ rest) [
        | inl word ↦ is_word-plain (b ∷ cs) word
        | inr twice ↦
            let (again, word) = and_both (is_dash b) (is_word cs) twice in
            plain_then b cs again (is_word-plain cs word)
      ])
]

-- An argument: the workspace's root, or plain characters alone, and no word for a secret.
abbrev pub IsHarmless : String → String → Type 0
IsHarmless root entry =
    (entry ≡ root)
    ⊎ ((all is_plain (codes entry) ≡ true) × (is_sensitive_argument (codes entry) ≡ false))

allowed-IsHarmless :
    (root entry : String)
    → (entry == root || is_eligible_argument entry) ≡ true
    → IsHarmless root entry
unfolding is_eligible_argument
allowed-IsHarmless root entry h = elim (Bool-cases (entry == root)) [
  | inl same ↦ inl ((string_key.same_iff entry root).0 same)
  | inr other ↦
      inr
        (is_safe_argument-plain (codes entry) (ground (arith, h, other)), ground (arith, h, other))
]

all-IsHarmless :
    (root : String) (args : List String)
    → all (λ entry. entry == root || is_eligible_argument entry) args ≡ true
    → All (IsHarmless root) args
all-IsHarmless root [] h = tt
all-IsHarmless root (entry ∷ args) h =
    (allowed-IsHarmless root entry (ground arith), all-IsHarmless root args (ground arith))

executable_name-plain : (cs : List ℕ) → is_executable_name cs ≡ true → all is_plain cs ≡ true
executable_name-plain [] h = refl
executable_name-plain (c ∷ cs) h = h

remote_mcp_executable_name-some :
    (basename : String → String) (executable : String)
    → is_some_text (remote_mcp_executable_name basename executable) executable ≡ true
    → (all is_plain (codes executable) ≡ true) × (includes executable local_launchers ≡ false)
unfolding remote_mcp_executable_name
remote_mcp_executable_name-some basename executable h =
    let name = basename executable in
    elim (Bool-cases (is_executable_name (codes name) && not (includes name local_launchers))) [
      | inl good ↦
          let h' = rw good at h in
          let same : name ≡ executable = (string_key.same_iff name executable).0 h' in
          let (pattern, other) = and_both (is_executable_name (codes name)) _ good in
          subst (λ x. (all is_plain (codes x) ≡ true) × (includes x local_launchers ≡ false)) same
            (executable_name-plain (codes name) pattern, fails_of_negated _ other)
      | inr bad ↦ absurd (let z : false ≡ true = rw bad at h in cc)
    ]

-- What the launch runs: a plain name that is no local launcher, with harmless arguments, which are the
-- request's, and an environment of one variable at most.
pub record IsAdmitted (r : RemoteMcpLaunchRequest) (launch : RemoteMcpLaunch) : Type 0 where
  pub same_args : launch.args ≡ r.args
  pub harmless : All (IsHarmless r.workspace_root) launch.args
  pub plain_name : all is_plain (codes r.executable) ≡ true
  pub no_launcher : includes r.executable local_launchers ≡ false
  pub small_environment : length launch.environment ≤ 1

resolve_adapter-args :
    (id : String) (r : RemoteMcpLaunchRequest) (launch : RemoteMcpLaunch)
    → resolve_adapter id r ≡ ok launch
    → (launch.args ≡ r.args) × (length launch.environment ≤ 1)
unfolding resolve_adapter resolve_codegraph
resolve_adapter-args id r launch h =
    let (registered, h1) = throw_if-eq-ok _ _ h in
    let (found, resolved, h2) = >>=-eq-ok h1 in
    let (matches, made) = throw_if-eq-ok _ _ resolved in
    let (clean, h3) = >>-eq-ok h2 in
    let same = ok_inj made ∙ ok_inj h3 in
    subst (λ x. (x.args ≡ r.args) × (length x.environment ≤ 1)) same (refl, omega arith)

launch-args :
    (adapter : Option String) (r : RemoteMcpLaunchRequest) (launch : RemoteMcpLaunch)
    → r.adapter_id ≡ adapter
    → resolve_remote_mcp_launch r ≡ ok launch
    → (launch.args ≡ r.args) × (length launch.environment ≤ 1)
unfolding resolve_remote_mcp_launch
launch-args none r launch e h =
    let made : ok (record { args = r.args; environment = [] }) ≡ ok launch =
      rw (resolve_remote_mcp_launch, e) at h in
    subst (λ x. (x.args ≡ r.args) × (length x.environment ≤ 1)) (ok_inj made) (refl, omega arith)
launch-args (some id) r launch e h =
    resolve_adapter-args id r launch (rw (resolve_remote_mcp_launch, e) at h)

resolved-IsAdmitted :
    (basename : String → String) (r : RemoteMcpLaunchRequest) (resolved launch : RemoteMcpLaunch)
    → resolve_remote_mcp_launch r ≡ ok resolved
    → assert_remote_mcp_launch basename r.executable resolved.args r.workspace_root >> ok resolved
      ≡ ok launch
    → IsAdmitted r launch
unfolding assert_remote_mcp_launch
resolved-IsAdmitted basename r resolved launch made h =
    let (asserted, kept) = >>-eq-ok h in
    let (named, checked) = throw_if-eq-ok _ _ asserted in
    let safe = throw_if-passed _ _ checked in
    let (args, small) = launch-args r.adapter_id r resolved refl made in
    let (plain, foreign) =
      remote_mcp_executable_name-some basename r.executable (holds_of_negated _ named) in
    subst (IsAdmitted r) (ok_inj kept) (record {
      same_args = args;
      harmless = all-IsHarmless r.workspace_root resolved.args (holds_of_negated _ safe);
      plain_name = plain;
      no_launcher = foreign;
      small_environment = small;
    })

-- Whatever a request to start a session asks for: when its launch is let through, no session has its
-- id, and it runs a name of plain characters that is no local launcher, with the arguments asked for, each
-- of them the workspace's root or a text of plain characters with no word for a secret, in an
-- environment with one variable at most.
pub start_begin-IsAdmitted :
    (basename : String → String) (r : StartStdioRequest) (s : RemoteStdioSessions)
    (launch : RemoteMcpLaunch)
    → start_begin basename r s ≡ ok launch
    → (get r.id s.sessions ≡ none) × IsAdmitted r.launch launch
unfolding start_begin
start_begin-IsAdmitted basename r s launch h = elim (Option-cases (get r.id s.sessions)) [
  | inr (uid, found) ↦ absurd (let z = rw (start_begin, found) at h in cc)
  | inl missing ↦
      let (resolved, made, h1) = >>=-eq-ok (rw (start_begin, missing) at h) in
      (missing, resolved-IsAdmitted basename r.launch resolved launch made h1)
]
