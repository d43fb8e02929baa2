-- ===== src/Json.antt =====
-- The values that cross a process boundary, as the guards of src/shim/rpc.ts and its users read them:
-- JSON, and `undefined` for what is not there. A number is a natural number; no modelled code
-- computes with one that came in a message.
use remote_codex.Base.{
  ℕ, String, ◌≡◌, refl, Bool, true, false, Option, none, some, arith, if◌then◌else◌, ◌==◌, nat_key,
  string_key,
}

mutual
  pub data Fields : Type 0 where
    end : Fields
    field : String → Value → Fields → Fields

  pub data Value : Type 0 where
    undefined null : Value
    str : String → Value
    num : ℕ → Value
    bool : Bool → Value
    obj : Fields → Value
    arr : Items → Value

  pub data Items : Type 0 where
    no_items : Items
    item : Value → Items → Items

-- `isRecord` of src/shim/rpc.ts.
abbrev pub is_record : Value → Bool
is_record (obj fs) = true
is_record _ = false

abbrev pub fields_of : Value → Fields
fields_of (obj fs) = fs
fields_of _ = end

-- `object[key]`, `key in object`, `{ ...object, [key]: value }` and `delete object[key]`.
unfoldable pub lookup_field : String → Fields → Value
lookup_field key end = undefined
lookup_field key (field k v fs) = if k == key then v else lookup_field key fs

unfoldable pub has_field : String → Fields → Bool
has_field key end = false
has_field key (field k v fs) = if k == key then true else has_field key fs

unfoldable pub set_field : String → Value → Fields → Fields
set_field key v end = field key v end
set_field key v (field k w fs) = if k == key then field k v fs else field k w (set_field key v fs)

unfoldable pub delete_field : String → Fields → Fields
delete_field key end = end
delete_field key (field k w fs) =
    if k == key then delete_field key fs else field k w (delete_field key fs)

-- A property of a value that has been tested to be a record.
abbrev pub at : String → Value → Value
at key v = lookup_field key (fields_of v)

abbrev pub has_at : String → Value → Bool
has_at key v = has_field key (fields_of v)

abbrev pub is_string : Value → Bool
is_string (str s) = true
is_string _ = false

abbrev pub is_number : Value → Bool
is_number (num n) = true
is_number _ = false

abbrev pub is_bool : Value → Bool
is_bool (bool b) = true
is_bool _ = false

abbrev pub is_array : Value → Bool
is_array (arr xs) = true
is_array _ = false

abbrev pub text_of : Value → Option String
text_of (str s) = some s
text_of _ = none

-- `value === "text"`.
abbrev pub is_text : String → Value → Bool
is_text t (str s) = s == t
is_text t _ = false

abbrev pub is_undefined : Value → Bool
is_undefined undefined = true
is_undefined _ = false

abbrev pub is_null : Value → Bool
is_null null = true
is_null _ = false

-- `array.includes("text")`.
unfoldable pub items_include : String → Items → Bool
items_include t no_items = false
items_include t (item v vs) = if is_text t v then true else items_include t vs

pub lookup_field-set_field :
    (j k : String) (v : Value) (fs : Fields)
    → lookup_field j (set_field k v fs) ≡ (if k == j then v else lookup_field j fs)
unfolding lookup_field set_field
lookup_field-set_field j k v end = refl
lookup_field-set_field j k v (field i w fs) = ground (
  arith,
  string_key.same_iff k j,
  string_key.same_iff i k,
  string_key.same_iff i j,
  lookup_field-set_field j k v fs,
)

pub lookup_field-delete_field :
    (j k : String) (fs : Fields)
    → lookup_field j (delete_field k fs) ≡ (if k == j then undefined else lookup_field j fs)
unfolding lookup_field delete_field
lookup_field-delete_field j k end = ground arith
lookup_field-delete_field j k (field i w fs) = ground (
  arith,
  string_key.same_iff k j,
  string_key.same_iff i k,
  string_key.same_iff i j,
  lookup_field-delete_field j k fs,
)
