-- ===== src/Config/Text.antt =====
-- What the validation of src/core/config.ts uses of the language's texts: `trim`, `length`, `includes`
-- and numbers written in a text.
use remote_codex.Base.{
  ℕ, zero, suc, ◌+◌, ◌/◌, ◌%◌, String, ◌≡◌, refl, inl, inr, Bool, true, false, not, ◌&&◌, ◌||◌,
  List, [], ◌∷◌, arith, ltb, leb, nat_eq, if◌then◌else◌, Bool-cases, nat_key, string_key, any,
}
use Prim.Native.Char.{Char, code}
use Prim.Native.String.{◌++◌ as ◌<>◌}
use remote_codex.Background.Calls.{codes}

-- White space, for `trim` and for `\s` alike.
unfoldable pub is_space : ℕ → Bool
is_space c =
    (leb 9 c && leb c 13)
    || nat_eq c 32
    || nat_eq c 160
    || nat_eq c 5760
    || (leb 8192 c && leb c 8202)
    || nat_eq c 8232
    || nat_eq c 8233
    || nat_eq c 8239
    || nat_eq c 8287
    || nat_eq c 12288
    || nat_eq c 65279

abbrev pub is_blank : String → Bool
is_blank String.[] = true
is_blank (String.◌∷◌ c s) = false

-- `text.trimStart()`, `text.trimEnd()` and `text.trim()`.
unfoldable pub trim_start : String → String
trim_start String.[] = String.[]
trim_start (String.◌∷◌ c s) = if is_space (code c) then trim_start s else String.◌∷◌ c s

abbrev pub before_end : Char → String → String
before_end c s = if is_space (code c) && is_blank s then String.[] else String.◌∷◌ c s

unfoldable pub trim_end : String → String
trim_end String.[] = String.[]
trim_end (String.◌∷◌ c s) = before_end c (trim_end s)

unfoldable pub trim : String → String
trim s = trim_end (trim_start s)

-- `text.length` counts UTF-16 code units; a text here is its code points.
unfoldable pub units : List ℕ → ℕ
units [] = 0
units (c ∷ cs) = (if ltb 65535 c then 2 else 1) + units cs

unfoldable pub text_length : String → ℕ
text_length s = units (codes s)

-- `text.includes(c)` for one character.
abbrev pub has_code : ℕ → String → Bool
has_code c s = any (λ d. nat_eq d c) (codes s)

digit : ℕ → String
digit n =
    if nat_eq n 0
    then "0"
    else if nat_eq n 1
    then "1"
    else if nat_eq n 2
    then "2"
    else if nat_eq n 3
    then "3"
    else if nat_eq n 4
    then "4"
    else if nat_eq n 5
    then "5"
    else if nat_eq n 6
    then "6"
    else if nat_eq n 7
    then "7"
    else if nat_eq n 8
    then "8"
    else "9"

-- `String(n)`, with `n` steps at most.
digits : ℕ → ℕ → String → String
digits zero n rest = rest
digits (suc steps) n rest =
    let more = digits steps (n / 10) (digit (n % 10) <> rest) in
    if ltb n 10 then digit n <> rest else more

unfoldable pub decimal : ℕ → String
unfolding digits digit
decimal n = digits (suc n) n ""

decimal_example : decimal 1024 ≡ "1024"
unfolding decimal
decimal_example = refl

trim_example : trim "  a b \n" ≡ "a b"
unfolding trim trim_end trim_start is_space
trim_example = refl

trim_end-before_end :
    (c : Char) (s : String) → trim_end s ≡ s → trim_end (before_end c s) ≡ before_end c s
unfolding trim_end
trim_end-before_end c s h = ground (arith, h)

pub trim_end-trim_end : (s : String) → trim_end (trim_end s) ≡ trim_end s
unfolding trim_end
trim_end-trim_end String.[] = refl
trim_end-trim_end (String.◌∷◌ c s) = trim_end-before_end c (trim_end s) (trim_end-trim_end s)

-- A text that does not begin with white space, and what `trimStart` leaves.
abbrev starts_plain : String → Bool
starts_plain String.[] = true
starts_plain (String.◌∷◌ c s) = not (is_space (code c))

starts_plain-trim_start : (s : String) → starts_plain (trim_start s) ≡ true
unfolding trim_start
starts_plain-trim_start String.[] = refl
starts_plain-trim_start (String.◌∷◌ c s) = elim (Bool-cases (is_space (code c))) [
  | inl white ↦ rw white (starts_plain-trim_start s)
  | inr plain ↦ rw (plain, plain) refl
]

trim_start_of_starts_plain : (s : String) → starts_plain s ≡ true → trim_start s ≡ s
unfolding trim_start
trim_start_of_starts_plain String.[] h = refl
trim_start_of_starts_plain (String.◌∷◌ c s) h = ground arith

starts_plain-trim_end : (s : String) → starts_plain s ≡ true → starts_plain (trim_end s) ≡ true
unfolding trim_end
starts_plain-trim_end String.[] h = refl
starts_plain-trim_end (String.◌∷◌ c s) h = ground arith

pub trim-trim : (s : String) → trim (trim s) ≡ trim s
unfolding trim
trim-trim s =
    let plain = starts_plain-trim_end (trim_start s) (starts_plain-trim_start s) in
    rw (trim_start_of_starts_plain (trim_end (trim_start s)) plain)
      (trim_end-trim_end (trim_start s))

has_code-trim_start :
    (k : ℕ) (s : String) → has_code k s ≡ false → has_code k (trim_start s) ≡ false
unfolding trim_start
has_code-trim_start k String.[] h = refl
has_code-trim_start k (String.◌∷◌ c s) h = ground (arith, has_code-trim_start k s)

has_code-trim_end : (k : ℕ) (s : String) → has_code k s ≡ false → has_code k (trim_end s) ≡ false
unfolding trim_end
has_code-trim_end k String.[] h = refl
has_code-trim_end k (String.◌∷◌ c s) h = ground (arith, has_code-trim_end k s)

-- Trimming brings no character in.
pub has_code-trim : (k : ℕ) (s : String) → has_code k s ≡ false → has_code k (trim s) ≡ false
unfolding trim
has_code-trim k s h = has_code-trim_end k (trim_start s) (has_code-trim_start k s h)

-- What `requiredString` asks of a text.
pub record IsText (s : String) : Type 0 where
  pub not_blank : is_blank (trim s) ≡ false
  pub no_nul : has_code 0 s ≡ false

pub IsText-trim : (s : String) → IsText s → IsText (trim s)
IsText-trim s t = record {
  not_blank = rw trim-trim t.not_blank;
  no_nul = has_code-trim 0 s t.no_nul;
}
