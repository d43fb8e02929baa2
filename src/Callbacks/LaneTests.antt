-- ===== src/Callbacks/LaneTests.antt =====
-- Lanes of src/shim/request-callback-queue.ts, and a witness of the theorem on them.
use remote_codex.Base.{◌≡◌, refl, true, false, some, get, set, nat_key, string_key}
use remote_codex.Callbacks.Lanes.{
  Operation, Lanes, init, enqueue, start, settle, Reach, empty, enqueues, starts, settles, Alone,
}
use remote_codex.Callbacks.LaneOrder.{Reach-Alone}

abbrev two_in_lane : Lanes
two_in_lane = start 1 (settle 0 (start 0 (enqueue "a" (enqueue "a" init).0).0))

two_reached : Reach two_in_lane
two_reached = starts 1 (settles 0 (starts 0 (enqueues "a" (enqueues "a" empty))))

abbrev second : Operation
second = record { before = some 0; lane = "a"; settled = false; started = true }

second_runs : get 1 two_in_lane.operations ≡ some second
unfolding enqueue start settle get set
second_runs = refl

Reach-Alone_example : Alone two_in_lane 1 second
Reach-Alone_example = Reach-Alone two_reached 1 second second_runs refl

-- The second of a lane is not called while the first runs.
second_waits :
    start 1 (start 0 (enqueue "a" (enqueue "a" init).0).0)
    ≡ start 0 (enqueue "a" (enqueue "a" init).0).0
unfolding enqueue start get set
second_waits = refl
