-- ===== src/Transport/Shapes.antt =====
-- What a value is that a test of the guards of src/core/vscode-transport.ts has accepted.
use remote_codex.Base.{
  ℕ, String, ◌≡◌, refl, ◌⊎◌, inl, inr, Bool, true, ◌||◌, arith, Bool-cases, nat_key, string_key,
}
use remote_codex.Json.{
  Value, undefined, null, bool, num, str, arr, obj, is_text, is_string, is_bool, is_number, is_null,
}
use remote_codex.Transport.{is_channel}

-- A value that names a channel, a number or null, and a text or null.
abbrev pub IsChannel : Value → Type 0
IsChannel v = (v ≡ str "stdout") ⊎ (v ≡ str "stderr")

abbrev pub IsNumberOrNull : Value → Type 0
IsNumberOrNull v = (v ≡ null) ⊎ ((n : ℕ) × (v ≡ num n))

abbrev pub IsTextOrNull : Value → Type 0
IsTextOrNull v = (v ≡ null) ⊎ ((s : String) × (v ≡ str s))

pub is_string-str : (v : Value) → is_string v ≡ true → (s : String) × (v ≡ str s)
is_string-str (str s) h = (s, refl)
is_string-str undefined h = absurd (cc)
is_string-str null h = absurd (cc)
is_string-str (bool b) h = absurd (cc)
is_string-str (num n) h = absurd (cc)
is_string-str (arr xs) h = absurd (cc)
is_string-str (obj fs) h = absurd (cc)

pub is_text-str : (t : String) (v : Value) → is_text t v ≡ true → v ≡ str t
is_text-str t (str s) h = ground (arith, string_key.same_iff s t)
is_text-str t undefined h = absurd (cc)
is_text-str t null h = absurd (cc)
is_text-str t (bool b) h = absurd (cc)
is_text-str t (num n) h = absurd (cc)
is_text-str t (arr xs) h = absurd (cc)
is_text-str t (obj fs) h = absurd (cc)

pub is_bool-bool : (v : Value) → is_bool v ≡ true → (b : Bool) × (v ≡ bool b)
is_bool-bool (bool b) h = (b, refl)
is_bool-bool (str s) h = absurd (cc)
is_bool-bool undefined h = absurd (cc)
is_bool-bool null h = absurd (cc)
is_bool-bool (num n) h = absurd (cc)
is_bool-bool (arr xs) h = absurd (cc)
is_bool-bool (obj fs) h = absurd (cc)

pub is_number-num : (v : Value) → is_number v ≡ true → (n : ℕ) × (v ≡ num n)
is_number-num (num n) h = (n, refl)
is_number-num (bool b) h = absurd (cc)
is_number-num (str s) h = absurd (cc)
is_number-num undefined h = absurd (cc)
is_number-num null h = absurd (cc)
is_number-num (arr xs) h = absurd (cc)
is_number-num (obj fs) h = absurd (cc)

pub is_null-null : (v : Value) → is_null v ≡ true → v ≡ null
is_null-null null h = refl
is_null-null (num n) h = absurd (cc)
is_null-null (bool b) h = absurd (cc)
is_null-null (str s) h = absurd (cc)
is_null-null undefined h = absurd (cc)
is_null-null (arr xs) h = absurd (cc)
is_null-null (obj fs) h = absurd (cc)

pub is_channel-IsChannel : (v : Value) → is_channel v ≡ true → IsChannel v
is_channel-IsChannel v h = elim (Bool-cases (is_text "stdout" v)) [
  | inl out ↦ inl (is_text-str "stdout" v out)
  | inr other ↦ inr (is_text-str "stderr" v (rw other at h))
]

pub is_number-IsNumberOrNull : (v : Value) → (is_null v || is_number v) ≡ true → IsNumberOrNull v
is_number-IsNumberOrNull v h = elim (Bool-cases (is_null v)) [
  | inl nothing ↦ inl (is_null-null v nothing)
  | inr other ↦ inr (is_number-num v (rw other at h))
]

pub is_string-IsTextOrNull : (v : Value) → (is_null v || is_string v) ≡ true → IsTextOrNull v
is_string-IsTextOrNull v h = elim (Bool-cases (is_null v)) [
  | inl nothing ↦ inl (is_null-null v nothing)
  | inr other ↦ inr (is_string-str v (rw other at h))
]
