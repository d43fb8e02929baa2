-- ===== src/Errors.antt =====
-- src/core/errors.ts and the error codes of src/core/types.ts. `details` and `cause` are left out:
-- no modelled code reads them.
pub mod Codes
use remote_codex.Base.{String, ◌≡◌, refl, sym, ◌∙◌, ◌⊎◌, inl, inr, Bool, true, false}

pub data BridgeErrorCode : Type 0 where
  bridge_not_ready ssh_disconnected host_key_mismatch path_outside_root : BridgeErrorCode
  file_conflict command_denied local_execution_blocked timeout cancelled : BridgeErrorCode
  protocol_mismatch output_truncated result_unknown invalid_config : BridgeErrorCode
  remote_transport_disconnected : BridgeErrorCode

-- Membership in `RETRYABLE_CODES`.
pub is_retryable_code : BridgeErrorCode → Bool
is_retryable_code ssh_disconnected = true
is_retryable_code output_truncated = true
is_retryable_code remote_transport_disconnected = true
is_retryable_code _ = false

pub record BridgeError : Type 0 where
  pub code : BridgeErrorCode
  pub message : String
  pub retryable : Bool

-- The constructor of `BridgeError`.
unfoldable pub bridge_error : BridgeErrorCode → String → BridgeError
bridge_error code message = record {
  code = code;
  message = message;
  retryable = is_retryable_code code;
}

-- What a promise may be rejected with: a `BridgeError`, another `Error` with its message, or any
-- other value with what `String` makes of it.
pub data Thrown : Type 0 where
  bridge : BridgeError → Thrown
  error : String → Thrown
  other : String → Thrown

unfoldable pub as_bridge_error : Thrown → BridgeErrorCode → BridgeError
as_bridge_error (bridge e) fallback_code = e
as_bridge_error (error message) fallback_code = bridge_error fallback_code message
as_bridge_error (other text) fallback_code = bridge_error fallback_code text

-- A call that may throw a `BridgeError`.
pub data Result {ℓ} (A : Type ℓ) : Type ℓ where
  ok : A → Result A
  err : BridgeError → Result A

pub Result-cases {ℓ} :
    {A : Type ℓ} (r : Result A) → ((a : A) × (r ≡ ok a)) ⊎ ((e : BridgeError) × (r ≡ err e))
Result-cases (ok a) = inl (a, refl)
Result-cases (err e) = inr (e, refl)

module _ {ℓ} {A B : Type ℓ} where
  -- What the code does next when nothing was thrown.
  infixl 5 ◌>>=◌
  unfoldable pub ◌>>=◌ : Result A → (A → Result B) → Result B
  ok a >>= f = f a
  err e >>= f = err e

  pub >>=-eq-ok :
      {m : Result A} {f : A → Result B} {b : B}
      → m >>= f ≡ ok b
      → (a : A) × (m ≡ ok a) × (f a ≡ ok b)
  unfolding ◌>>=◌
  >>=-eq-ok {m = ok a} h = (a, refl, h)
  >>=-eq-ok {m = err e} h = absurd (cc)

  pub >>=-ok : (a : A) (f : A → Result B) → ok a >>= f ≡ f a
  unfolding ◌>>=◌
  >>=-ok a f = refl

-- A guard of the code: when the test holds it throws, otherwise it goes on.
infixl 5 ◌>>◌
unfoldable pub ◌>>◌ {ℓ} : {B : Type ℓ} → Result (Unit {0}) → Result B → Result B
ok u >> k = k
err e >> k = err e

unfoldable pub throw_if : Bool → BridgeErrorCode → String → Result (Unit {0})
throw_if true code message = err (bridge_error code message)
throw_if false code message = ok tt

pub throw_if-eq-ok {ℓ} :
    {B : Type ℓ} {bad : Bool} (code : BridgeErrorCode) (message : String) {k : Result B} {b : B}
    → throw_if bad code message >> k ≡ ok b
    → (bad ≡ false) × (k ≡ ok b)
unfolding ◌>>◌ throw_if
throw_if-eq-ok {bad = true} code message h = absurd (cc)
throw_if-eq-ok {bad = false} code message h = (refl, h)

pub throw_if-ok {ℓ} :
    {B : Type ℓ} {bad : Bool} (code : BridgeErrorCode) (message : String) (k : Result B)
    → bad ≡ false
    → throw_if bad code message >> k ≡ k
unfolding ◌>>◌ throw_if
throw_if-ok code message k e = rw e refl

pub >>-eq-ok {ℓ} :
    {B : Type ℓ} {m : Result (Unit {0})} {k : Result B} {b : B}
    → m >> k ≡ ok b
    → (m ≡ ok tt) × (k ≡ ok b)
unfolding ◌>>◌
>>-eq-ok {m = ok tt} h = (refl, h)
>>-eq-ok {m = err e} h = absurd (cc)

pub ok_inj {ℓ} : {A : Type ℓ} {a b : A} → ok a ≡ ok b → a ≡ b
ok_inj h = cc

pub >>-ok {ℓ} : {B : Type ℓ} (k : Result B) → ok tt >> k ≡ k
unfolding ◌>>◌
>>-ok k = refl

pub err_inj {ℓ} : {A : Type ℓ} {m : Result A} {e f : BridgeError} → m ≡ err e → m ≡ err f → e ≡ f
err_inj {e = e} {f = f} h k = let same : err e ≡ err f = sym h ∙ k in cc

pub throw_if-passed :
    {bad : Bool} (code : BridgeErrorCode) (message : String)
    → throw_if bad code message ≡ ok tt
    → bad ≡ false
unfolding throw_if
throw_if-passed {bad = true} code message h = absurd (cc)
throw_if-passed {bad = false} code message h = refl
