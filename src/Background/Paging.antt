-- ===== src/Background/Paging.antt =====
-- A task's log behind `append` and `read` (src/remote-extension/background-tasks.ts), over all output.
use remote_codex.Base.{
  ℕ, zero, suc, ◌+◌, ◌-◌, ◌≤◌, ◌<◌, max, ◌≡◌, refl, sym, ap, ◌∙◌, subst, inl, inr, List, [], ◌∷◌,
  ◌++◌, append-nil, append_assoc, arith, ltb, if◌then◌else◌, Bool-cases, nat_key, string_key,
  length, take, drop, length-append, length-take, length-drop, drop-append_le, drop-drop,
  take_of_length-le, take-append-drop,
}
use mathlib.Core.Path.{ap₂}
use remote_codex.Background.Log.{
  Channel, LogSegment, BoundedTaskLog, init, prune, append, read_size, read,
}
use remote_codex.Background.Reading.{
  stored, shown, IsLog, Spans-append, stored-append, shift_trim, read_segments_lem,
}

-- The output of a process, chunk by chunk.
unfoldable pub append_all : List (Channel × List ℕ) → BoundedTaskLog → BoundedTaskLog
append_all [] l = l
append_all ((channel, bytes) ∷ chunks) l = append_all chunks (append channel bytes l)

abbrev pub bytes_of : List (Channel × List ℕ) → List ℕ
bytes_of [] = []
bytes_of ((channel, bytes) ∷ chunks) = bytes ++ bytes_of chunks

init-IsLog : (limit : ℕ) → IsLog (init limit) []
unfolding init
init-IsLog limit = record { counted = refl; based = omega arith; spans = refl; kept = refl }

append-limit :
    (channel : Channel) (bytes : List ℕ) (l : BoundedTaskLog)
    → (append channel bytes l).limit ≡ l.limit
unfolding append prune
append-limit channel [] l = refl
append-limit channel (b ∷ bs) l = refl

append-IsLog :
    (channel : Channel) (bytes : List ℕ) (l : BoundedTaskLog) (w : List ℕ)
    → IsLog l w
    → IsLog (append channel bytes l) (w ++ bytes)
unfolding append prune
append-IsLog channel [] l w v = rw (append-nil w) v
append-IsLog channel (b ∷ bs) l w v =
    let bytes = b ∷ bs in
    let s : LogSegment = record {
      channel = channel;
      content = bytes;
      stop = l.next_cursor + length bytes;
      start = l.next_cursor;
    } in
    let spans =
      Spans-append l.base_cursor l.next_cursor s.stop l.segments (s ∷ []) v.spans
        (refl, refl, refl) in
    let m = s.stop - l.limit in
    let (r, e) =
      shift_trim m l.base_cursor s.stop (l.segments ++ s ∷ []) spans (omega (arith, v.based))
        (omega arith) in
    record {
      counted = omega (arith, v.counted, length-append w bytes);
      based = refl;
      spans = r;
      kept =
          e
          ∙ ap (drop (m - l.base_cursor)) (
              stored-append l.segments (s ∷ [])
              ∙ ap (λ x. stored l.segments ++ x) (append-nil bytes)
              ∙ ap (λ x. x ++ bytes) v.kept
              ∙ sym (drop-append_le l.base_cursor w bytes (omega (arith, v.based, v.counted))))
          ∙ drop-drop (m - l.base_cursor) l.base_cursor (w ++ bytes)
          ∙ (let k : l.base_cursor + (m - l.base_cursor) ≡ m = omega (arith, v.based) in
              ap (λ n. drop n (w ++ bytes)) k);
    }

append_all-IsLog :
    (chunks : List (Channel × List ℕ)) (l : BoundedTaskLog) (w : List ℕ)
    → IsLog l w
    → IsLog (append_all chunks l) (w ++ bytes_of chunks) × ((append_all chunks l).limit ≡ l.limit)
unfolding append_all
append_all-IsLog [] l w v = (rw (append-nil w) v, refl)
append_all-IsLog ((channel, bytes) ∷ chunks) l w v =
    let (r, e) =
      append_all-IsLog chunks (append channel bytes l) (w ++ bytes)
        (append-IsLog channel bytes l w v) in
    (subst (IsLog _) (append_assoc w bytes (bytes_of chunks)) r, e ∙ append-limit channel bytes l)

IsLog-append_all :
    (chunks : List (Channel × List ℕ)) (limit : ℕ)
    → IsLog (append_all chunks (init limit)) (bytes_of chunks)
      × ((append_all chunks (init limit)).limit ≡ limit)
IsLog-append_all chunks limit =
    let (v, e) = append_all-IsLog chunks (init limit) [] (init-IsLog limit) in
    (v, e ∙ unfold init in refl)

-- A page against the output as a whole.
read-IsLog :
    (cursor limit_bytes : ℕ) (l : BoundedTaskLog) (w : List ℕ)
    → IsLog l w
    → let page = read cursor limit_bytes l in
      let from = max (length w - l.limit) cursor in
      (shown page.events ≡ take (read_size limit_bytes) (drop from w))
      × (page.next_cursor ≡ from + length (shown page.events))
      × (page.has_more ≡ ltb page.next_cursor (length w))
      × (page.truncated ≡ ltb cursor (length w - l.limit))
unfolding read
read-IsLog cursor limit_bytes l w v =
    let from = max l.base_cursor cursor in
    let base : l.base_cursor ≡ length w - l.limit = v.based ∙ ap (λ n. n - l.limit) v.counted in
    let (r, e) =
      read_segments_lem l.base_cursor l.next_cursor l.segments from (read_size limit_bytes) v.spans
        (omega arith) in
    let k : l.base_cursor + (from - l.base_cursor) ≡ from = omega arith in
    let bytes =
      ap (drop (from - l.base_cursor)) v.kept
      ∙ drop-drop (from - l.base_cursor) l.base_cursor w
      ∙ ap (λ n. drop n w) k in
    rw (← base, ← v.counted) (r ∙ ap (take (read_size limit_bytes)) bytes, e, refl, refl)

-- Whatever a process has written, in whatever chunks and on both channels: the page behind a cursor
-- shows the next bytes of the output, as many as the page may have, from the cursor or from where the
-- bounded log begins; `nextCursor` stands right behind them, `hasMore` says whether output is left,
-- and `truncated` whether bytes behind the cursor are lost.
pub read-append_all :
    (chunks : List (Channel × List ℕ)) (limit cursor limit_bytes : ℕ)
    → let page = read cursor limit_bytes (append_all chunks (init limit)) in
      let output = bytes_of chunks in
      let from = max (length output - limit) cursor in
      (shown page.events ≡ take (read_size limit_bytes) (drop from output))
      × (page.next_cursor ≡ from + length (shown page.events))
      × (page.has_more ≡ ltb page.next_cursor (length output))
      × (page.truncated ≡ ltb cursor (length output - limit))
unfolding append_all
read-append_all chunks limit cursor limit_bytes =
    let (v, same) = IsLog-append_all chunks limit in
    rw same at (read-IsLog cursor limit_bytes (append_all chunks (init limit)) (bytes_of chunks) v)

-- A client that reads page after page while there is more.
unfoldable pub read_all : ℕ → ℕ → ℕ → BoundedTaskLog → List ℕ
read_all zero cursor limit_bytes l = []
read_all (suc fuel) cursor limit_bytes l =
    let page = read cursor limit_bytes l in
    let rest = read_all fuel page.next_cursor limit_bytes l in
    if page.has_more then shown page.events ++ rest else shown page.events

read_all-IsLog :
    (fuel cursor limit_bytes : ℕ) (l : BoundedTaskLog) (w : List ℕ)
    → IsLog l w
    → length w - cursor < fuel
    → read_all fuel cursor limit_bytes l ≡ drop (max (length w - l.limit) cursor) w
unfolding read_all
read_all-IsLog zero cursor limit_bytes l w v h = absurd (omega arith)
read_all-IsLog (suc fuel) cursor limit_bytes l w v h =
    let (bytes, next, more, lost) = read-IsLog cursor limit_bytes l w v in
    let n = read_size limit_bytes in
    let from = max (length w - l.limit) cursor in
    let k = length-take n (drop from w) in
    let d = length-drop from w in
    let page = read cursor limit_bytes l in
    elim (Bool-cases page.has_more) [
      | inr done ↦
          let enough : length (drop from w) ≤ n = ground (arith, ap length bytes) in
          rw done (bytes ∙ take_of_length-le n (drop from w) enough)
      | inl on ↦
          let step : page.next_cursor ≡ from + n = ground (arith, ap length bytes) in
          let behind : page.next_cursor < length w = ground (arith, more) in
          let rest = read_all-IsLog fuel page.next_cursor limit_bytes l w v (omega arith) in
          let reached : max (length w - l.limit) page.next_cursor ≡ from + n = omega arith in
          rw on (
            ap₂ ◌++◌ bytes (rest ∙ ap (λ m. drop m w) reached ∙ sym (drop-drop n from w))
            ∙ take-append-drop n (drop from w))
    ]

-- A client that reads page after page from a cursor while `hasMore` is set comes to an end, and has
-- then read the output from the cursor, or from where the bounded log begins, to its end: each byte
-- once, and in order.
pub read_all-append_all :
    (chunks : List (Channel × List ℕ)) (limit cursor limit_bytes fuel : ℕ)
    → length (bytes_of chunks) - cursor < fuel
    → read_all fuel cursor limit_bytes (append_all chunks (init limit))
      ≡ drop (max (length (bytes_of chunks) - limit) cursor) (bytes_of chunks)
unfolding append_all
read_all-append_all chunks limit cursor limit_bytes fuel h =
    let l = append_all chunks (init limit) in
    let (v, same) = IsLog-append_all chunks limit in
    rw same at (read_all-IsLog fuel cursor limit_bytes l (bytes_of chunks) v h)
