-- ===== src/Background/Lifecycle.antt =====
-- What becomes of the tasks of `RemoteBackgroundTasks` (src/remote-extension/background-tasks.ts), over
-- calls, callbacks of processes and timers, and the two halves of the methods that wait.
use remote_codex.Base.{
  ℕ, zero, suc, nat_eq, String, ◌≢◌, ◌≡◌, refl, ◌∙◌, inl, inr, Bool, true, false, ◌||◌, Option,
  none, some, List, [], ◌∷◌, ◌++◌, arith, if◌then◌else◌, Bool-cases, nat_key, string_key,
}
use remote_codex.Background.Log.{Channel}
use remote_codex.Background.Registry.{key_of}
use remote_codex.Background.Tasks.{
  BackgroundTask, RemoteBackgroundTaskState, completed, failed, cancelled, timed_out, Signal,
  sigterm, sigkill, is_running_state, is_running, verdict, terminate, finish, on_timeout, on_force,
  request_cancellation, on_data,
}
use remote_codex.Background.Registry.{pair_key}

-- The outcome of a task stays.
abbrev pub SameOutcome : BackgroundTask → BackgroundTask → Type 0
SameOutcome t u =
    (u.status ≡ t.status)
    × (u.exit_code ≡ t.exit_code)
    × (u.signal ≡ t.signal)
    × (u.completed_at_ms ≡ t.completed_at_ms)
    × (u.cancellation_requested ≡ t.cancellation_requested)

abbrev pub was_sent_term : List Signal → Bool
was_sent_term [] = false
was_sent_term (s ∷ ss) = elim s [ sigterm ↦ true | _ ↦ was_sent_term ss ]

was_sent_term-append :
    (ss ts : List Signal) → was_sent_term (ss ++ ts) ≡ (was_sent_term ss || was_sent_term ts)
was_sent_term-append [] ts = refl
was_sent_term-append (sigterm ∷ ss) ts = refl
was_sent_term-append (sigkill ∷ ss) ts = was_sent_term-append ss ts

-- Why a task has the status that it ended with: whether it has run out of time, whether its
-- cancellation was requested, and its exit code.
pub data Reason : Bool → Bool → Option ℕ → RemoteBackgroundTaskState → Type 0 where
  out_of_time : {unwanted : Bool} {code : Option ℕ} → Reason true unwanted code timed_out
  not_wanted : {code : Option ℕ} → Reason false true code cancelled
  success : Reason false false (some 0) completed
  failure : {code : Option ℕ} → code ≢ some 0 → Reason false false code failed

verdict-Reason :
    (over_time unwanted : Bool) (code : Option ℕ)
    → Reason over_time unwanted code (verdict over_time unwanted code)
verdict-Reason true unwanted code = out_of_time
verdict-Reason false true code = not_wanted
verdict-Reason false false none = failure (λ e. cc)
verdict-Reason false false (some zero) = success
verdict-Reason false false (some (suc n)) =
    let other : nat_eq (suc n) 0 ≡ false = ground arith in rw other (failure (λ e. cc))

-- A task has its status for a reason; it has an end exactly if it is not running; and one that was
-- cancelled or has run out of time has been sent SIGTERM.
pub record Explained (t : BackgroundTask) : Type 0 where
  pub going : is_running t ≡ true → t.completed_at_ms ≡ none
  pub ended :
      is_running t ≡ false
      → Reason t.timed_out_flag t.cancellation_requested t.exit_code t.status
        × ((at : ℕ) × (t.completed_at_ms ≡ some at))
  pub told : (t.timed_out_flag || t.cancellation_requested) ≡ true → was_sent_term t.sent ≡ true

-- A change that respects both.
pub record IsFine (f : BackgroundTask → BackgroundTask) : Type 0 where
  pub frame : (t : BackgroundTask) → is_running t ≡ false → SameOutcome t (f t)
  pub keyed : (t : BackgroundTask) → key_of (f t) ≡ key_of t
  pub explains : (t : BackgroundTask) → Explained t → Explained (f t)

verdict-is_running : (a b : Bool) (code : Option ℕ) → is_running_state (verdict a b code) ≡ false
verdict-is_running a b code = ground arith

pub finish-IsFine : (code : Option ℕ) (sig : Option String) (now : ℕ) → IsFine (finish code sig now)
unfolding finish
finish-IsFine code sig now = record {
  keyed = λ t. elim (Bool-cases (is_running t)) [ inl on ↦ rw on refl | inr done ↦ rw done refl ];
  frame = λ t h. rw h (refl, refl, refl, refl, refl);
  explains = λ t v. elim (Bool-cases (is_running t)) [
    | inr done ↦ rw done v
    | inl on ↦ rw on (record {
      going =
          λ h. ground (arith, verdict-is_running t.timed_out_flag t.cancellation_requested code);
      ended = λ h. (verdict-Reason t.timed_out_flag t.cancellation_requested code, (now, refl));
      told = v.told;
    })
  ];
}

terminate-key_of :
    (immediate : Bool) (t : BackgroundTask) → key_of (terminate immediate t) ≡ key_of t
unfolding terminate
terminate-key_of true t = refl
terminate-key_of false t = refl

terminated-told :
    (immediate : Bool) (ss : List Signal)
    → was_sent_term (ss ++ sigterm ∷ (if immediate then sigkill ∷ [] else [])) ≡ true
terminated-told immediate ss =
    was_sent_term-append ss (sigterm ∷ (if immediate then sigkill ∷ [] else [])) ∙ ground arith

-- What `terminate` does to a task that is running and has been given a reason to end.
terminate-Explained :
    (immediate : Bool) (t : BackgroundTask)
    → is_running t ≡ true
    → t.completed_at_ms ≡ none
    → Explained (terminate immediate t)
unfolding terminate
terminate-Explained true t on unended = record {
  going = λ h. unended;
  ended = λ h. absurd (ground arith);
  told = λ h. terminated-told true t.sent;
}
terminate-Explained false t on unended = record {
  going = λ h. unended;
  ended = λ h. absurd (ground arith);
  told = λ h. terminated-told false t.sent;
}

pub on_timeout-IsFine : IsFine on_timeout
unfolding on_timeout
on_timeout-IsFine = record {
  keyed = λ t. elim (Bool-cases (is_running t)) [
    | inl on ↦ rw on (terminate-key_of false _)
    | inr done ↦ rw done refl
  ];
  frame = λ t h. rw h (refl, refl, refl, refl, refl);
  explains = λ t v. elim (Bool-cases (is_running t)) [
    | inr done ↦ rw done v
    | inl on ↦
        rw on (terminate-Explained false (record t { timed_out_flag = true }) on (v.going on))
  ];
}

pub request_cancellation-IsFine : (immediate : Bool) → IsFine (request_cancellation immediate)
unfolding request_cancellation
request_cancellation-IsFine immediate = record {
  keyed = λ t. elim (Bool-cases (is_running t)) [
    | inl on ↦ rw on (terminate-key_of immediate _)
    | inr done ↦ rw done refl
  ];
  frame = λ t h. rw h (refl, refl, refl, refl, refl);
  explains = λ t v. elim (Bool-cases (is_running t)) [
    | inr done ↦ rw done v
    | inl on ↦
        rw on (
          terminate-Explained immediate (record t { cancellation_requested = true }) on
            (v.going on))
  ];
}

pub on_force-IsFine : IsFine on_force
unfolding on_force
on_force-IsFine = record {
  keyed = λ t. elim (Bool-cases (is_running t)) [ inl on ↦ rw on refl | inr done ↦ rw done refl ];
  frame = λ t h. rw h (refl, refl, refl, refl, refl);
  explains = λ t v. elim (Bool-cases (is_running t)) [
    | inr done ↦ rw done v
    | inl on ↦ rw on (record {
      going = v.going;
      ended = v.ended;
      told = λ h. was_sent_term-append t.sent (sigkill ∷ []) ∙ rw (v.told h) refl;
    })
  ];
}

pub on_data-IsFine : (channel : Channel) (chunk : List ℕ) → IsFine (on_data channel chunk)
unfolding on_data
on_data-IsFine channel chunk = record {
  keyed = λ t. refl;
  frame = λ t h. (refl, refl, refl, refl, refl);
  explains = λ t v. record { going = v.going; ended = v.ended; told = v.told };
}
