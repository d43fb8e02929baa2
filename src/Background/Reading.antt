-- ===== src/Background/Reading.antt =====
-- What a reader of `BoundedTaskLog` (src/remote-extension/background-tasks.ts) gets to see.
use remote_codex.Base.{
  ℕ, zero, suc, ◌+◌, ◌-◌, ◌≤◌, ◌≡◌, refl, sym, ap, ◌∙◌, subst, inl, inr, true, false, List, [], ◌∷◌,
  ◌++◌, append-nil, append_assoc, arith, ltb, leb, Bool-cases, nat_key, string_key, length, take,
  drop, length-append, length-take, length-drop, drop-append_ge, drop-append_le, take-append_ge,
  take-append_le, drop-nil, take_of_length-le,
}
use remote_codex.Background.Log.{
  LogSegment, BoundedTaskLog, shift_old, trim_first, LogEvent, offset_in, size_in, skips, event_of,
  read_segments,
}

-- The bytes of segments, of events.
abbrev pub stored : List LogSegment → List ℕ
stored [] = []
stored (s ∷ ss) = s.content ++ stored ss

abbrev pub shown : List LogEvent → List ℕ
shown [] = []
shown (e ∷ es) = e.content ++ shown es

-- Segments that follow one another from one cursor to another.
abbrev pub Spans : ℕ → List LogSegment → ℕ → Type 0
Spans a [] b = a ≡ b
Spans a (s ∷ ss) b = (s.start ≡ a) × (s.stop ≡ a + length s.content) × Spans s.stop ss b

-- The log of a task that has written `written`: the last `limit` bytes of it.
pub record IsLog (l : BoundedTaskLog) (written : List ℕ) : Type 0 where
  pub counted : l.next_cursor ≡ length written
  pub based : l.base_cursor ≡ l.next_cursor - l.limit
  pub spans : Spans l.base_cursor l.segments l.next_cursor
  pub kept : stored l.segments ≡ drop l.base_cursor written

pub Spans-append :
    (a b c : ℕ) (ss ts : List LogSegment) → Spans a ss b → Spans b ts c → Spans a (ss ++ ts) c
Spans-append a b c [] ts h k = rw h k
Spans-append a b c (s ∷ ss) ts h k = (h.0, h.1, Spans-append s.stop b c ss ts h.2 k)

pub stored-append : (ss ts : List LogSegment) → stored (ss ++ ts) ≡ stored ss ++ stored ts
stored-append [] ts = refl
stored-append (s ∷ ss) ts =
    ap (◌++◌ s.content) (stored-append ss ts) ∙ sym (append_assoc s.content (stored ss) (stored ts))

-- `#prune` leaves segments from the new base on, with the bytes behind it.
pub shift_trim :
    (m a b : ℕ) (ss : List LogSegment)
    → Spans a ss b
    → a ≤ m
    → m ≤ b
    → Spans m (trim_first m (shift_old m ss)) b
      × (stored (trim_first m (shift_old m ss)) ≡ drop (m - a) (stored ss))
unfolding shift_old trim_first
shift_trim m a b [] h p q = (omega arith, sym (drop-nil (m - a)))
shift_trim m a b (s ∷ ss) h p q = elim (Bool-cases (leb s.stop m)) [
  | inl old ↦
      let (r, e) = shift_trim m s.stop b ss h.2 (ground arith) q in
      let skip = drop-append_ge (m - a) s.content (stored ss) (ground arith) in
      let k : m - a - length s.content ≡ m - s.stop = ground arith in
      rw old (r, e ∙ ap (λ n. drop n (stored ss)) (sym k) ∙ sym skip)
  | inr young ↦
      let cut = drop-append_le (m - a) s.content (stored ss) (ground arith) in
      elim (Bool-cases (ltb s.start m)) [
        | inl trim ↦
            let n = length-drop (m - s.start) s.content in
            rw young (rw trim ((refl, ground arith, h.2), rw h.0 (sym cut)))
        | inr whole ↦
            let k : m ≡ a = ground arith in
            let z : m - a ≡ 0 = ground arith in
            rw young (
              rw whole (
                (ground arith, ground arith, h.2),
                ap (λ n. drop n (s.content ++ stored ss)) (sym z),
              ))
      ]
]

read_segments_none :
    (ss : List LogSegment) (position : ℕ) → read_segments ss position 0 ≡ ([], position)
unfolding read_segments
read_segments_none [] position = refl
read_segments_none (s ∷ ss) position = ground (arith, read_segments_none ss position)

read_segments_skip :
    (s : LogSegment) (ss : List LogSegment) (position remaining : ℕ)
    → skips s position remaining ≡ true
    → read_segments (s ∷ ss) position remaining ≡ read_segments ss position remaining
unfolding read_segments
read_segments_skip s ss position remaining h = rw h

read_segments_take :
    (s : LogSegment) (ss : List LogSegment) (position remaining : ℕ)
    → skips s position remaining ≡ false
    → let size = size_in s position remaining in
      let rest = read_segments ss (s.start + offset_in s position + size) (remaining - size) in
      read_segments (s ∷ ss) position remaining ≡ (event_of s position remaining ∷ rest.0, rest.1)
unfolding read_segments
read_segments_take s ss position remaining h = rw h

-- What a loop from a position with room for some bytes has read.
abbrev pub HasRead : List ℕ → ℕ → ℕ → List LogEvent × ℕ → Type 0
HasRead bytes position remaining r =
    (shown r.0 ≡ take remaining bytes) × (r.1 ≡ position + length (shown r.0))

-- The segment that `position` stands in is left before its end.
read_segments_within :
    (s : LogSegment) (ss : List LogSegment) (position remaining : ℕ)
    → skips s position remaining ≡ false
    → s.start ≤ position
    → remaining ≤ length s.content - offset_in s position
    → HasRead
        (drop (offset_in s position) s.content ++ stored ss)
        position
        remaining
        (read_segments (s ∷ ss) position remaining)
read_segments_within s ss position remaining h p q =
    let all : size_in s position remaining ≡ remaining = omega arith in
    let none_left : remaining - remaining ≡ 0 = omega arith in
    let c = drop (offset_in s position) s.content in
    let n = length-drop (offset_in s position) s.content in
    rw (read_segments_take s ss position remaining h, all, none_left)
      (rw (read_segments_none ss) (
        append-nil (take remaining c)
            ∙ sym (take-append_le remaining c (stored ss) (omega (arith, n))),
        omega (arith, ap length (append-nil (take remaining c)), length-take remaining c, n),
      ))

-- Or it is read to its end, and the loop goes on behind it.
read_segments_across :
    (s : LogSegment) (ss : List LogSegment) (position remaining : ℕ)
    → skips s position remaining ≡ false
    → s.start ≤ position
    → s.stop ≡ s.start + length s.content
    → length s.content - offset_in s position ≤ remaining
    → HasRead
        (stored ss)
        s.stop
        (remaining - (length s.content - offset_in s position))
        (read_segments ss s.stop (remaining - (length s.content - offset_in s position)))
    → HasRead
        (drop (offset_in s position) s.content ++ stored ss)
        position
        remaining
        (read_segments (s ∷ ss) position remaining)
read_segments_across s ss position remaining h p e q rest =
    let c = drop (offset_in s position) s.content in
    let n = length-drop (offset_in s position) s.content in
    let k = length s.content - offset_in s position in
    let whole : size_in s position remaining ≡ k = omega arith in
    let ends : s.start + offset_in s position + k ≡ s.stop = ground arith in
    let last : length c ≡ k = omega (arith, n) in
    rw
      (
        read_segments_take s ss position remaining h,
        whole,
        ends,
        take_of_length-le k c (omega (arith, n)),
      )
      (
        ap (◌++◌ c) rest.0
            ∙ ap (λ m. c ++ take (remaining - m) (stored ss)) (sym last)
            ∙ sym (take-append_ge remaining c (stored ss) (omega (arith, n))),
        omega
            (arith, rest.1, n, length-append c (shown (read_segments ss s.stop (remaining - k)).0)),
      )

pub read_segments_lem :
    (a b : ℕ) (ss : List LogSegment) (position remaining : ℕ)
    → Spans a ss b
    → a ≤ position
    → HasRead
        (drop (position - a) (stored ss))
        position
        remaining
        (read_segments ss position remaining)
read_segments_lem a b ss position zero h p = rw (read_segments_none ss position) (refl, omega arith)
read_segments_lem a b [] position (suc k) h p =
    unfold read_segments in (ap (take (suc k)) (sym (drop-nil (position - a))), omega arith)
read_segments_lem a b (s ∷ ss) position (suc k) h p = elim (Bool-cases (leb s.stop position)) [
  | inl past ↦
      let k' = drop-append_ge (position - a) s.content (stored ss) (ground arith) in
      let e : position - a - length s.content ≡ position - s.stop = ground arith in
      let bytes = k' ∙ ap (λ n. drop n (stored ss)) e in
      rw (read_segments_skip s ss position (suc k) (rw past), bytes)
        (read_segments_lem s.stop b ss position (suc k) h.2 (ground arith))
  | inr in_it ↦
      let on : skips s position (suc k) ≡ false = ground arith in
      let bytes = drop-append_le (position - a) s.content (stored ss) (ground arith) in
      let same : offset_in s position ≡ position - a = ground arith in
      rw (bytes, ← same)
        (elim (Bool-cases (leb (suc k) (length s.content - offset_in s position))) [
          | inl within ↦ read_segments_within s ss position (suc k) on (ground arith) (ground arith)
          | inr across ↦
              read_segments_across s ss position (suc k) on (ground arith) (ground arith)
                (ground arith)
                (subst
                  (λ x.
                    HasRead x s.stop (suc k - (length s.content - offset_in s position))
                      (read_segments ss s.stop (suc k - (length s.content - offset_in s position))))
                  (let z : s.stop - s.stop ≡ 0 = omega arith in ap (λ n. drop n (stored ss)) z)
                  (read_segments_lem s.stop b ss s.stop _ h.2 (omega arith)))
        ])
]
