-- ===== src/Config/Checks.antt =====
-- src/core/config.ts: what follows when a text or a number has been accepted.
use remote_codex.Base.{
  ℕ, String, ◌≡◌, refl, subst, Bool, true, false, not, ◌||◌, arith, ltb, nat_key, string_key,
}
use remote_codex.Errors.{ok, BridgeErrorCode, ◌>>=◌, ◌>>◌, throw_if, >>=-eq-ok, throw_if-eq-ok}
use remote_codex.Json.{Value, undefined, null, num, str, obj, arr, bool, at}
use remote_codex.Background.Registry.{pair_key}
use remote_codex.Config.Text.{trim, text_length, IsText, IsText-trim, trim-trim}
use remote_codex.Config.Roots.{parse_display_name}
use remote_codex.Config.Printed.{IsBetween, IsDisplayName}
use remote_codex.Config.{required_string, parse_host, is_bad_host, integer_in_range}

pub required_string-IsText :
    (v : Value) (name s : String) → required_string v name ≡ ok s → (v ≡ str s) × IsText s
unfolding required_string
required_string-IsText (str t) name s h =
    let (filled, h1) = throw_if-eq-ok _ _ h in
    let (whole, h2) = throw_if-eq-ok _ _ h1 in
    let same : t ≡ s = cc in
    subst (λ x. (str t ≡ str x) × IsText x) same
      (refl, record { not_blank = filled; no_nul = whole })
required_string-IsText undefined name s h = absurd (cc)
required_string-IsText null name s h = absurd (cc)
required_string-IsText (num n) name s h = absurd (cc)
required_string-IsText (bool b) name s h = absurd (cc)
required_string-IsText (obj fs) name s h = absurd (cc)
required_string-IsText (arr vs) name s h = absurd (cc)

in_range :
    (n minimum maximum : ℕ) (message : String) (m : ℕ)
    → throw_if (ltb n minimum || ltb maximum n) BridgeErrorCode.invalid_config message >> ok n
      ≡ ok m
    → IsBetween minimum maximum m
in_range n minimum maximum message m h =
    let (inside, e) = throw_if-eq-ok _ _ h in
    let same : n ≡ m = cc in subst (IsBetween minimum maximum) same (ground arith)

pub integer_in_range-IsBetween :
    (v : Value) (fallback minimum maximum : ℕ) (message : String) (n : ℕ)
    → integer_in_range v fallback minimum maximum message ≡ ok n
    → IsBetween minimum maximum n
unfolding integer_in_range
integer_in_range-IsBetween (num k) fallback minimum maximum message n h =
    in_range k minimum maximum message n h
integer_in_range-IsBetween undefined fallback minimum maximum message n h =
    in_range fallback minimum maximum message n h
integer_in_range-IsBetween null fallback minimum maximum message n h =
    in_range fallback minimum maximum message n h
integer_in_range-IsBetween (str s) fallback minimum maximum message n h = absurd (cc)
integer_in_range-IsBetween (bool b) fallback minimum maximum message n h = absurd (cc)
integer_in_range-IsBetween (obj fs) fallback minimum maximum message n h = absurd (cc)
integer_in_range-IsBetween (arr vs) fallback minimum maximum message n h = absurd (cc)

-- A required text of which the code goes on with the trimmed one, behind a test of it.
pub trimmed-IsText :
    (bad : String → Bool) (v : Value) (name message s : String)
    → (required_string v name >>= λ text.
        throw_if (bad (trim text)) BridgeErrorCode.invalid_config message >> ok (trim text))
      ≡ ok s
    → IsText s × (trim s ≡ s) × (bad s ≡ false)
trimmed-IsText bad v name message s h =
    let (text, found, h1) = >>=-eq-ok h in
    let (good, e) = throw_if-eq-ok _ _ h1 in
    let same : trim text ≡ s = cc in
    subst (λ x. IsText x × (trim x ≡ x) × (bad x ≡ false)) same
      (IsText-trim text (required_string-IsText v name text found).1, trim-trim text, good)

-- A required text that the code keeps behind a test of it.
pub kept-IsText :
    (bad : String → Bool) (v : Value) (name message s : String)
    → (required_string v name >>= λ text.
        throw_if (bad text) BridgeErrorCode.invalid_config message >> ok text)
      ≡ ok s
    → IsText s × (bad s ≡ false)
kept-IsText bad v name message s h =
    let (text, found, h1) = >>=-eq-ok h in
    let (good, e) = throw_if-eq-ok _ _ h1 in
    let same : text ≡ s = cc in
    subst (λ x. IsText x × (bad x ≡ false)) same
      ((required_string-IsText v name text found).1, good)

pub parse_host-IsText :
    (v : Value) (s : String)
    → parse_host v ≡ ok s
    → IsText s × (trim s ≡ s) × (is_bad_host s ≡ false)
unfolding parse_host
parse_host-IsText v s h = trimmed-IsText is_bad_host (at "host" v) _ _ s h

pub holds_of_negated : (b : Bool) → not b ≡ false → b ≡ true
holds_of_negated true h = refl
holds_of_negated false h = absurd (cc)

pub parse_display_name-IsDisplayName :
    (v : Value) (name s : String) → parse_display_name v name ≡ ok s → IsDisplayName s
unfolding parse_display_name
parse_display_name-IsDisplayName v name s h =
    let (text, trimmed, short) = trimmed-IsText (λ t. ltb 128 (text_length t)) v _ _ s h in
    record { name_text = text; name_trimmed = trimmed; name_length = short }
