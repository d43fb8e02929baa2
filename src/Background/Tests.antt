-- ===== src/Background/Tests.antt =====
-- Runs of `BoundedTaskLog` (src/remote-extension/background-tasks.ts).
use remote_codex.Base.{
  ℕ, ◌+◌, ◌-◌, max, ◌≡◌, refl, List, [], ◌∷◌, arith, ltb, nat_key, string_key, length, take, drop,
}
use remote_codex.Background.Log.{
  Channel, prune, shift_old, trim_first, read_segments, BoundedTaskLog, init, append, read,
  read_size,
}
use remote_codex.Background.Reading.{shown}
use remote_codex.Background.Paging.{
  bytes_of, append_all, read-append_all, read_all, read_all-append_all,
}

abbrev chunks : List (Channel × List ℕ)
chunks =
    (Channel.stdout, 1 ∷ 2 ∷ 3 ∷ []) ∷ (Channel.stderr, 4 ∷ 5 ∷ []) ∷ (Channel.stdout, 6 ∷ []) ∷ []

-- Four bytes are kept of six.
abbrev log : BoundedTaskLog
log = append_all chunks (init 4)

tail_read : shown (read 0 100 log).events ≡ 3 ∷ 4 ∷ 5 ∷ 6 ∷ []
unfolding append_all init append prune shift_old trim_first read read_segments
tail_read = refl

read-append_all_example :
    (shown (read 3 2 log).events
      ≡ take (read_size 2) (drop (max (length (bytes_of chunks) - 4) 3) (bytes_of chunks)))
    × ((read 3 2 log).next_cursor
        ≡ max (length (bytes_of chunks) - 4) 3 + length (shown (read 3 2 log).events))
    × ((read 3 2 log).has_more ≡ ltb (read 3 2 log).next_cursor (length (bytes_of chunks)))
    × ((read 3 2 log).truncated ≡ ltb 3 (length (bytes_of chunks) - 4))
read-append_all_example = read-append_all chunks 4 3 2

read_all-append_all_example :
    read_all 7 0 2 log ≡ drop (max (length (bytes_of chunks) - 4) 0) (bytes_of chunks)
read_all-append_all_example = read_all-append_all chunks 4 0 2 7 (omega arith)
