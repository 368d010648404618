-- ===== src/ActorContainer.antt =====
-- src/server/actor-container.ts: the class of an actor, and the delivery of an alarm to it, over the
-- alarm that the storage holds. What the handler does is a list of calls, and how it ends is given.
pub mod Facets
pub mod Descendants
pub mod Deepest
pub mod Tree
pub mod Delivery
use do_runtime.Common.{ℕ, Bool, true, false, not, Option, none, some, List, [], ◌∷◌, if◌then◌else◌}
use do_runtime.AlarmScheduler.{
  EventOutcome, succeeded, canceled, script_not_found, failed, aborted, AlarmResult,
}
use do_runtime.ActorSqlite.Handler.{
  Slot, Armed, running, already_running, cancelling, arm_alarm_handler,
  cancel_deferred_alarm_deletion, maybe_delete_deferred_alarm, HandlerCall, run_calls,
}

-- `constructed` is the `running` of the source, and tells whether the class has an alarm handler;
-- `broken` is its `failed`.
pub data ClassInstance : Type 0 where
  before_ctor initializing broken : ClassInstance
  constructed : Bool → ClassInstance

pub data AlarmRefusal : Type 0 where
  facet_alarm early no_handler construction_failed : AlarmRefusal

-- `assertCanSetAlarm`.
abbrev pub refusal_of : ClassInstance → Option AlarmRefusal
refusal_of before_ctor = some early
refusal_of initializing = none
refusal_of (constructed has_handler) = if has_handler then none else some no_handler
refusal_of broken = some construction_failed

abbrev pub assert_can_set_alarm : Bool → ClassInstance → Option AlarmRefusal
assert_can_set_alarm is_facet c = if is_facet then some facet_alarm else refusal_of c

-- What `inspectAlarmException` and `isAlarmFailureUserError` tell of an exception.
pub record Failure : Type 0 where
  pub is_abort : Bool
  pub retry : Bool
  pub user_error : Bool

abbrev pub failure_result : Failure → Bool → AlarmResult
failure_result f counts = record {
  retry = f.retry;
  retry_counts_against_limit = counts;
  outcome = if f.is_abort then aborted else failed;
}

abbrev pub final_result : EventOutcome → AlarmResult
final_result outcome = record {
  retry = false;
  retry_counts_against_limit = true;
  outcome = outcome;
}

-- The handler has ended, or the actor was aborted meanwhile.
abbrev pub after_run : Option Failure → Slot → AlarmResult × Slot
after_run none s = (final_result succeeded, s)
after_run (some f) s = (failure_result f true, cancel_deferred_alarm_deletion s)

-- The output locks have been waited for.
abbrev pub after_locks : Option Failure → AlarmResult × Slot → AlarmResult × Slot
after_locks none (r, s) = (r, s)
after_locks (some f) (r, s) = (failure_result f f.user_error, cancel_deferred_alarm_deletion s)

-- What the world does in a delivery: the calls of the handler and its end, or the end of the run if
-- there is no instance, the output locks, and whether the storage is broken at the end.
pub record Course : Type 0 where
  pub calls : List HandlerCall
  pub run_end : Option Failure
  pub locks_end : Option Failure
  pub storage_broken : Bool

abbrev pub run_handler : Course → Slot → AlarmResult × Slot
run_handler w s = after_locks w.locks_end (after_run w.run_end (run_calls w.calls s))

-- Without an instance `#runAlarmHandler` throws, if the run is not refused before it.
abbrev pub refused_failure : Option Failure → Failure
refused_failure none = record { is_abort = false; retry = true; user_error = false }
refused_failure (some f) = f

abbrev pub without_calls : Course → Course
without_calls w = record w { calls = []; run_end = some (refused_failure w.run_end) }

abbrev pub deliver_to : ClassInstance → Course → Slot → AlarmResult × Slot
deliver_to (constructed has_handler) w s =
    if has_handler then run_handler w s else (final_result script_not_found, s)
deliver_to before_ctor w s = run_handler (without_calls w) s
deliver_to initializing w s = run_handler (without_calls w) s
deliver_to broken w s = run_handler (without_calls w) s

-- The `finally`.
abbrev pub drop_deleter : Bool → AlarmResult × Slot → AlarmResult × Slot
drop_deleter storage_broken (r, s) = (r, maybe_delete_deferred_alarm storage_broken s)

abbrev pub deliver_armed : ClassInstance → Course → Armed × Slot → Option AlarmResult × Slot
deliver_armed c w (running, s) =
    let (r, s') = drop_deleter w.storage_broken (deliver_to c w s) in (some r, s')
deliver_armed c w (cancelling later request, s) = (some (final_result canceled), s)
deliver_armed c w (already_running, s) = (none, s)

-- `#deliverAlarmImpl`; `none` if it throws. Its wait for a request that cancels is taken to succeed.
abbrev pub deliver_alarm : ClassInstance → Course → ℕ → ℕ → Slot → Option AlarmResult × Slot
deliver_alarm c w scheduled now s = deliver_armed c w (arm_alarm_handler scheduled now s)
