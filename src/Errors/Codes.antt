-- ===== src/Errors/Codes.antt =====
-- Which code the errors have that the calls of src/core throw: rules for each way to put calls together.
use remote_codex.Base.{
  String, ◌≡◌, refl, sym, ap, Bool, true, false, if◌then◌else◌, nat_key, string_key,
}
use remote_codex.Errors.{
  BridgeErrorCode, BridgeError, bridge_error, Result, ok, err, ◌>>=◌, ◌>>◌, throw_if, err_inj,
}

-- Each error of the call has the code.
pub record Throws {ℓ} {A : Type ℓ} (code : BridgeErrorCode) (m : Result A) : Type ℓ where
  pub at : (e : BridgeError) → m ≡ err e → e.code ≡ code

module _ {ℓ} {A : Type ℓ} where
  pub Throws-ok : (code : BridgeErrorCode) (a : A) → Throws code (ok a)
  Throws-ok code a = record { at = λ e h. absurd (cc) }

  pub Throws-err :
      (code : BridgeErrorCode) (message : String)
      → Throws {A = A} code (err (bridge_error code message))
  unfolding bridge_error
  Throws-err code message = record { at = λ e h. sym (ap (λ x. x.code) (err_inj refl h)) }

  pub Throws-if :
      (code : BridgeErrorCode) (test : Bool) (m k : Result A)
      → Throws code m
      → Throws code k
      → Throws code (if test then m else k)
  Throws-if code true m k h l = h
  Throws-if code false m k h l = l

  pub Throws-then :
      (code : BridgeErrorCode) (m : Result (Unit {0})) (k : Result A)
      → Throws code m
      → Throws code k
      → Throws code (m >> k)
  unfolding ◌>>◌
  Throws-then code (ok u) k h l = l
  Throws-then code (err e) k h l = record { at = λ f eq. h.at f (ap err (err_inj refl eq)) }

  pub Throws-bind :
      {B : Type ℓ} (code : BridgeErrorCode) (m : Result A) (f : A → Result B)
      → Throws code m
      → ((a : A) → Throws code (f a))
      → Throws code (m >>= f)
  unfolding ◌>>=◌
  Throws-bind code (ok a) f h k = k a
  Throws-bind code (err e) f h k = record { at = λ x eq. h.at x (ap err (err_inj refl eq)) }

pub Throws-throw_if :
    (code : BridgeErrorCode) (test : Bool) (message : String)
    → Throws code (throw_if test code message)
unfolding throw_if
Throws-throw_if code true message = Throws-err code message
Throws-throw_if code false message = Throws-ok code tt

pub ruleset throws_rules =
    (Throws-ok, Throws-err, Throws-if, Throws-then, Throws-bind, Throws-throw_if)
