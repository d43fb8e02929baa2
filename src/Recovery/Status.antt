-- ===== src/Recovery/Status.antt =====
-- `threadStatus` of src/shim/thread-recovery.ts. A `type` that is no text is taken for none.
use remote_codex.Base.{
  ℕ, ◌+◌, ◌-◌, ◌/◌, ◌%◌, String, Bool, true, false, ◌&&◌, ◌||◌, Option, none, some, List, [], ◌∷◌,
  ltb, nat_eq, if◌then◌else◌, ◌==◌, nat_key, string_key,
}
use remote_codex.Json.{Value, undefined, str, arr, Items, no_items, item, is_record, at}
use remote_codex.Background.Calls.{codes}
use remote_codex.Config.Text.{text_length}
use remote_codex.Config.Parse.{items_length}

pub data ThreadStatusType : Type 0 where
  active idle not_loaded system_error : ThreadStatusType

pub record ThreadStatus : Type 0 where
  pub active_flags : Option (List String)
  pub kind : ThreadStatusType

abbrev pub status_type : String → Option ThreadStatusType
status_type t =
    if t == "active"
    then some active
    else if t == "idle"
    then some idle
    else if t == "notLoaded"
    then some not_loaded
    else if t == "systemError"
    then some system_error
    else none

-- The UTF-16 code units of a text, by which the language sorts texts.
abbrev pub utf16 : List ℕ → List ℕ
utf16 [] = []
utf16 (c ∷ cs) =
    let rest = utf16 cs in
    if ltb c 65536
    then c ∷ rest
    else (55296 + (c - 65536) / 1024) ∷ (56320 + (c - 65536) % 1024) ∷ rest

abbrev pub comes_before : List ℕ → List ℕ → Bool
comes_before [] ys = true
comes_before (x ∷ xs) [] = false
comes_before (x ∷ xs) (y ∷ ys) = ltb x y || (nat_eq x y && comes_before xs ys)

unfoldable pub insert_text : String → List String → List String
insert_text t [] = t ∷ []
insert_text t (s ∷ ss) =
    let later = insert_text t ss in
    if comes_before (utf16 (codes t)) (utf16 (codes s)) then t ∷ s ∷ ss else s ∷ later

-- `[...texts].sort()`.
unfoldable pub sort_texts : List String → List String
sort_texts [] = []
sort_texts (t ∷ ts) = insert_text t (sort_texts ts)

-- The flags, if each is a text of at most 128 characters.
abbrev add_flag : Value → Option (List String) → Option (List String)
add_flag (str s) (some flags) = if ltb 128 (text_length s) then none else some (s ∷ flags)
add_flag _ _ = none

abbrev pub flags_of : Items → Option (List String)
flags_of no_items = some []
flags_of (item v vs) = add_flag v (flags_of vs)

abbrev with_flags : ThreadStatusType → Option (List String) → Option ThreadStatus
with_flags kind none = none
with_flags kind (some flags) = some (record { active_flags = some (sort_texts flags); kind = kind })

abbrev status_with : ThreadStatusType → Value → Option ThreadStatus
status_with kind undefined = some (record { active_flags = none; kind = kind })
status_with kind (arr vs) = if ltb 32 (items_length vs) then none else with_flags kind (flags_of vs)
status_with kind _ = none

abbrev status_of : Option ThreadStatusType → Value → Option ThreadStatus
status_of none v = none
status_of (some kind) v = status_with kind (at "activeFlags" v)

abbrev type_of : Value → Option ThreadStatusType
type_of (str t) = status_type t
type_of _ = none

unfoldable pub thread_status : Value → Option ThreadStatus
thread_status v = if is_record v then status_of (type_of (at "type" v)) v else none

abbrev type_code : ThreadStatusType → ℕ
type_code active = 0
type_code idle = 1
type_code not_loaded = 2
type_code system_error = 3

abbrev pub same_texts : List String → List String → Bool
same_texts [] [] = true
same_texts (s ∷ ss) (t ∷ ts) = s == t && same_texts ss ts
same_texts _ _ = false

abbrev same_flags : Option (List String) → Option (List String) → Bool
same_flags none none = true
same_flags (some ss) (some ts) = same_texts ss ts
same_flags _ _ = false

-- Whether the JSON texts of two statuses are the same.
unfoldable pub same_status : ThreadStatus → ThreadStatus → Bool
same_status s t =
    nat_eq (type_code s.kind) (type_code t.kind) && same_flags s.active_flags t.active_flags
