-- ===== src/Recovery/State.antt =====
-- `ThreadSubscriptionRecovery` of src/shim/thread-recovery.ts: its state, and what a cycle of it waits for.
use remote_codex.Base.{ℕ, String, Bool, false, Option, none, List, [], nat_key, string_key, Dict}
use remote_codex.Json.{Value}
use remote_codex.Recovery.Status.{ThreadStatus}

pub data Await : Type 0 where
  -- The page, the cursors that were used and the threads so far.
  lists : ℕ → List String → List String → Await
  -- The thread, and those behind it; a thread that is resumed has the status that was read.
  reads : String → List String → Await
  resumes : String → ThreadStatus → List String → Await
  unsubscribes : String → List String → Await

pub data Outcome : Type 0 where
  answered : Value → Outcome
  failed_with : String → Outcome

pub data Running : Type 0 where
  -- The request that is waited for, or what has become of it.
  waits : String → Await → Running
  has_outcome : Outcome → Await → Running

pub record ThreadRecoveryCycle : Type 0 where
  pub errors : ℕ
  pub listed_threads : ℕ
  pub matching_threads : ℕ
  pub published_statuses : ℕ
  pub resumed_threads : ℕ
  pub unsubscribed_threads : ℕ

pub data Emitted : Type 0 where
  closed : String → Emitted
  status_changed : String → ThreadStatus → Emitted

-- `emitted`, `sent`, `logged` and `reported` are what `emit`, `send`, `log` and `onCycle` were called with.
pub record ThreadRecovery : Type 0 where
  pub cycle : ThreadRecoveryCycle
  pub disposed : Bool
  pub emitted : List Emitted
  pub logged : List String
  pub pending : Dict String String
  pub published_status : Dict String ThreadStatus
  pub refreshing : Bool
  pub reported : List ThreadRecoveryCycle
  pub running : Option Running
  pub sent : List (String × Value)
  pub subscribed : List String

abbrev pub no_cycle : ThreadRecoveryCycle
no_cycle = record {
  errors = 0;
  listed_threads = 0;
  matching_threads = 0;
  published_statuses = 0;
  resumed_threads = 0;
  unsubscribed_threads = 0;
}

abbrev pub init : ThreadRecovery
init = record {
  cycle = no_cycle;
  disposed = false;
  emitted = [];
  logged = [];
  pending = [];
  published_status = [];
  refreshing = false;
  reported = [];
  running = none;
  sent = [];
  subscribed = [];
}

-- What decides how the next request goes, and what the options say meanwhile.
pub record Context : Type 0 where
  pub random : String
  pub selected_thread_id : Option String
  -- What `send` throws, if it does.
  pub send_failure : Option String
  pub workspace_root : Option String
