-- ===== src/Background/Log.antt =====
-- src/remote-extension/background-tasks.ts: `BoundedTaskLog`. Buffers are lists of bytes; a cursor and
-- a limit are natural numbers, as the callers hand them on.
use remote_codex.Base.{
  ℕ, ◌+◌, ◌-◌, min, max, Bool, ◌||◌, List, [], ◌∷◌, ◌++◌, ltb, leb, if◌then◌else◌, nat_key,
  string_key, length, take, drop,
}

pub data Channel : Type 0 where
  stderr stdout : Channel

abbrev pub background_task_max_log_read_bytes : ℕ
background_task_max_log_read_bytes = 262144

pub record LogSegment : Type 0 where
  pub channel : Channel
  pub content : List ℕ
  pub stop : ℕ
  pub start : ℕ

pub record BoundedTaskLog : Type 0 where
  pub limit : ℕ
  pub segments : List LogSegment
  pub base_cursor : ℕ
  pub next_cursor : ℕ

unfoldable pub init : ℕ → BoundedTaskLog
init limit = record { limit = limit; segments = []; base_cursor = 0; next_cursor = 0 }

-- The `while` loop of `#prune`.
unfoldable pub shift_old : ℕ → List LogSegment → List LogSegment
shift_old minimum [] = []
shift_old minimum (s ∷ ss) = if leb s.stop minimum then shift_old minimum ss else s ∷ ss

unfoldable pub trim_first : ℕ → List LogSegment → List LogSegment
trim_first minimum [] = []
trim_first minimum (s ∷ ss) =
    if ltb s.start minimum
    then record s { content = drop (minimum - s.start) s.content; start = minimum } ∷ ss
    else s ∷ ss

unfoldable pub prune : BoundedTaskLog → BoundedTaskLog
prune l =
    let minimum = l.next_cursor - l.limit in
    record l { segments = trim_first minimum (shift_old minimum l.segments); base_cursor = minimum }

unfoldable pub append : Channel → List ℕ → BoundedTaskLog → BoundedTaskLog
append channel [] l = l
append channel (b ∷ bs) l =
    let stop = l.next_cursor + length (b ∷ bs) in
    prune (record l {
      segments =
          l.segments
          ++ record { channel = channel; content = b ∷ bs; stop = stop; start = l.next_cursor }
            ∷ [];
      next_cursor = stop;
    })

-- An event, with the bytes that the code writes in base64.
pub record LogEvent : Type 0 where
  pub channel : Channel
  pub content : List ℕ
  pub cursor : ℕ

-- What the loop of `read` takes of a segment, and whether it goes on to the next at once.
abbrev pub offset_in : LogSegment → ℕ → ℕ
offset_in s position = position - s.start

abbrev pub size_in : LogSegment → ℕ → ℕ → ℕ
size_in s position remaining = min (length s.content - offset_in s position) remaining

abbrev pub skips : LogSegment → ℕ → ℕ → Bool
skips s position remaining =
    leb s.stop position || leb remaining 0 || leb (size_in s position remaining) 0

abbrev pub event_of : LogSegment → ℕ → ℕ → LogEvent
event_of s position remaining = record {
  channel = s.channel;
  content = take (size_in s position remaining) (drop (offset_in s position) s.content);
  cursor = s.start + offset_in s position;
}

-- The loop of `read`: the events, and `position` behind it.
unfoldable pub read_segments : List LogSegment → ℕ → ℕ → List LogEvent × ℕ
read_segments [] position remaining = ([], position)
read_segments (s ∷ ss) position remaining =
    let skipped = skips s position remaining in
    let size = size_in s position remaining in
    let (events, last) =
      read_segments ss (if skipped then position else s.start + offset_in s position + size)
        (if skipped then remaining else remaining - size) in
    (if skipped then events else event_of s position remaining ∷ events, last)

pub record LogPage : Type 0 where
  pub events : List LogEvent
  pub has_more : Bool
  pub next_cursor : ℕ
  pub truncated : Bool

abbrev pub read_size : ℕ → ℕ
read_size limit_bytes = max 1 (min limit_bytes background_task_max_log_read_bytes)

unfoldable pub read : ℕ → ℕ → BoundedTaskLog → LogPage
read cursor limit_bytes l =
    let (events, position) =
      read_segments l.segments (max l.base_cursor cursor) (read_size limit_bytes) in
    record {
      events = events;
      has_more = ltb position l.next_cursor;
      next_cursor = position;
      truncated = ltb cursor l.base_cursor;
    }
