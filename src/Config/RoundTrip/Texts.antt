-- ===== src/Config/RoundTrip/Texts.antt =====
-- src/core/config.ts: a text or a number that has what is asked of it is accepted.
use remote_codex.Base.{ℕ, String, ◌≡◌, refl, arith, nat_key, string_key}
use remote_codex.Errors.{ok, ◌>>◌, throw_if, throw_if-ok}
use remote_codex.Json.{num, str}
use remote_codex.Background.Registry.{pair_key}
use remote_codex.Config.Text.{IsText}
use remote_codex.Config.Printed.{IsBetween}
use remote_codex.Config.{required_string, integer_in_range}

pub required_string-ok : (s name : String) → IsText s → required_string (str s) name ≡ ok s
unfolding required_string
required_string-ok s name t = rw (t.not_blank, t.no_nul) (unfold throw_if ◌>>◌ in refl)

pub integer_in_range-ok :
    (n fallback minimum maximum : ℕ) (message : String)
    → IsBetween minimum maximum n
    → integer_in_range (num n) fallback minimum maximum message ≡ ok n
unfolding integer_in_range
integer_in_range-ok n fallback minimum maximum message h =
    throw_if-ok _ _ _ (ground (arith, h.0, h.1))
