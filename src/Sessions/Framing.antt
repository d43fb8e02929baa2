-- ===== src/Sessions/Framing.antt =====
-- `queueData` of src/remote-extension/stdio-sessions.ts: a chunk of output in frames.
use remote_codex.Base.{
  ℕ, zero, suc, ◌+◌, ◌≤◌, max, ◌≡◌, sym, ap, ◌∙◌, inl, inr, List, [], ◌∷◌, ◌++◌, arith, ltb,
  if◌then◌else◌, Bool-cases, nat_key, string_key, length, take, drop, All, length-take, length-drop,
  drop-drop, drop_of_length-le, take-append-drop,
}

abbrev pub concat {ℓ} : {A : Type ℓ} → List (List A) → List A
concat [] = []
concat (xs ∷ xss) = xs ++ concat xss

-- The loop of `queueData` from an offset on, with its steps bounded.
unfoldable pub frames_from : ℕ → ℕ → ℕ → List ℕ → List (List ℕ)
frames_from zero limit offset chunk = []
frames_from (suc steps) limit offset chunk =
    let later = frames_from steps limit (offset + limit) chunk in
    if ltb offset (length chunk) then take limit (drop offset chunk) ∷ later else []

-- The frames of a chunk: no step goes less than one byte on.
unfoldable pub frames : ℕ → List ℕ → List (List ℕ)
frames max_frame_bytes chunk = frames_from (length chunk) (max 1 max_frame_bytes) 0 chunk

-- Enough steps for what is left of the chunk.
concat-frames_from :
    (steps limit offset : ℕ) (chunk : List ℕ)
    → 1 ≤ limit
    → length chunk ≤ offset + steps
    → concat (frames_from steps limit offset chunk) ≡ drop offset chunk
unfolding frames_from
concat-frames_from zero limit offset chunk l h =
    sym (drop_of_length-le offset chunk (omega (arith, h)))
concat-frames_from (suc steps) limit offset chunk l h =
    elim (Bool-cases (ltb offset (length chunk))) [
      | inl more ↦ rw more (
          ap (◌++◌ (take limit (drop offset chunk))) (
            concat-frames_from steps limit (offset + limit) chunk l (omega arith)
            ∙ sym (drop-drop limit offset chunk))
          ∙ take-append-drop limit (drop offset chunk))
      | inr over ↦ rw over (sym (drop_of_length-le offset chunk (ground arith)))
    ]

-- The frames of a chunk, put together again, are the chunk, whatever the largest frame is, 0
-- included: the loop ends behind the last byte, and leaves none out.
pub concat-frames :
    (max_frame_bytes : ℕ) (chunk : List ℕ) → concat (frames max_frame_bytes chunk) ≡ chunk
unfolding frames
concat-frames max_frame_bytes chunk =
    concat-frames_from (length chunk) (max 1 max_frame_bytes) 0 chunk (omega arith) (omega arith)

abbrev pub IsFrame : ℕ → List ℕ → Type 0
IsFrame limit frame = (1 ≤ length frame) × (length frame ≤ limit)

frames_from-IsFrame :
    (steps limit offset : ℕ) (chunk : List ℕ)
    → 1 ≤ limit
    → All (IsFrame limit) (frames_from steps limit offset chunk)
unfolding frames_from
frames_from-IsFrame zero limit offset chunk l = tt
frames_from-IsFrame (suc steps) limit offset chunk l =
    elim (Bool-cases (ltb offset (length chunk))) [
      | inl more ↦
          let size = length-take limit (drop offset chunk) in
          let rest = length-drop offset chunk in
          rw more (
            (ground (arith, size, rest), omega (arith, size)),
            frames_from-IsFrame steps limit (offset + limit) chunk l,
          )
      | inr over ↦ rw over tt
    ]

-- No frame is empty, and none is longer than the largest frame, or than one byte where that is 0.
pub frames-IsFrame :
    (max_frame_bytes : ℕ) (chunk : List ℕ)
    → All (IsFrame (max 1 max_frame_bytes)) (frames max_frame_bytes chunk)
unfolding frames
frames-IsFrame max_frame_bytes chunk =
    frames_from-IsFrame (length chunk) (max 1 max_frame_bytes) 0 chunk (omega arith)
