-- ===== src/AlarmScheduler/Delivery.antt =====
-- src/server/alarm-scheduler.ts: `#makeAlarmTask`, from its wake to its `finally`, cut where it
-- awaits: the handler, and the actor's answer to `abandonAlarm`.
use do_runtime.Common.{
  ℕ, ◌+◌, min, Bool, true, false, Option, none, some, List, [], ◌∷◌, String, nat_beq, leb,
  if◌then◌else◌, ◌&&◌, Result, ok, err, ◌>>=◌, not, lookup, string_eq,
}
use do_runtime.AlarmScheduler.{
  AlarmError, write_refused, AlarmResult, EventOutcome, succeeded, failed, aborted, AlarmStatus,
  waiting, started, finished, Task, Entry, Scheduler, project, mark_running, clear_running,
  save_retry, set_entry, schedule, set_alarm, delete_alarm,
}
use do_runtime.AlarmScheduler.Ladder.{Draw, next_delay, alarm_retry_max_tries, retry_backoff_max}

-- The locals of a task behind its wake.
pub record Run : Type 0 where
  pub actor : String
  pub number : ℕ
  pub scheduled_time : ℕ
  pub bookkeeping_backoff : ℕ

-- What the platform answers while a piece of the task runs: the clock, `random()`, and whether
-- each of up to two writes is refused.
pub record Env : Type 0 where
  pub now : ℕ
  pub random : Draw
  pub refused : Bool
  pub refused_again : Bool

pub data Flow : Type 0 where
  done : Scheduler → Flow
  abandoning : Scheduler → Flow

abbrev pub is_ok : EventOutcome → Bool
is_ok succeeded = true
is_ok _ = false

-- `#runAlarmGuarded`: what the handler reports, or `none` if it throws.
abbrev pub guarded : Option AlarmResult → AlarmResult
guarded (some r) = record r { retry = not (is_ok r.outcome) && r.retry }
guarded none = record { retry = true; retry_counts_against_limit = false; outcome = failed }

abbrev pub current_of : Option Entry → ℕ → Option Entry
current_of none n = none
current_of (some e) n = if nat_beq e.number n then some e else none

-- `this.#alarms.get(actorId) === entry`, with the entry.
abbrev pub current : Run → Scheduler → Option Entry
current r s = current_of (lookup r.actor s.alarms) r.number

abbrev pub status_after : Option AlarmResult → AlarmStatus
status_after none = waiting
status_after (some _) = finished

-- The `catch`: the bookkeeping is tried again later, with the result that is known.
abbrev pub retry_later :
    Env → Run → Option AlarmResult → Result AlarmError ℕ → Entry → Scheduler → Scheduler
retry_later env r result (err _) e s =
    set_entry r.actor (record e { status = status_after result }) s
retry_later env r result (ok delay) e s =
    set_entry r.actor
      (record e {
        status = status_after result;
        task = some (record {
          due = env.now + delay;
          completed = result;
          bookkeeping_backoff = min retry_backoff_max r.bookkeeping_backoff + 1;
        });
      })
      s

abbrev pub task_failed_on : Option Entry → Env → Run → Option AlarmResult → Scheduler → Scheduler
task_failed_on none env r result s = s
task_failed_on (some e) env r result s =
    retry_later env r result (next_delay env.random r.bookkeeping_backoff) e s

abbrev pub task_failed : Env → Run → Option AlarmResult → Scheduler → Scheduler
task_failed env r result s = task_failed_on (current r s) env r result s

unfoldable pub leave : ℕ → List (ℕ × ℕ) → List (ℕ × ℕ)
leave n [] = []
leave n ((k, t) ∷ active) = if nat_beq k n then active else (k, t) ∷ leave n active

-- The `finally`.
abbrev pub close : Run → Scheduler → Scheduler
close r s = project (record s { active = leave r.number s.active })

-- The start, behind `#checkTimestamp`: the run that goes on, if one does.
abbrev pub enter : Run → Scheduler → Scheduler
enter r s = project (record s { active = (r.number, r.scheduled_time) ∷ s.active })

abbrev pub run_of : String → Entry → Task → Run
run_of a e task = record {
  actor = a;
  number = e.number;
  scheduled_time = e.scheduled_time;
  bookkeeping_backoff = task.bookkeeping_backoff;
}

abbrev pub start_handler : Bool → Env → Run → Entry → Scheduler → Scheduler
start_handler true env r e s = close r (task_failed env r none s)
start_handler false env r e s = enter r (
    set_entry r.actor (record e { status = started; wake_time = none; task = none })
      (record s { rows = mark_running r.actor s.rows }))

abbrev pub begin_task : Option AlarmResult → Env → Run → Entry → Scheduler → Scheduler
begin_task (some result) env r e s = enter r (set_entry r.actor (record e { task = none }) s)
begin_task none env r e s = start_handler env.refused env r e s

abbrev pub begin_on : Option Entry → ℕ → Env → String → Scheduler → Scheduler
begin_on none n env a s = s
begin_on (some e) n env a s = elim e.task [
  | none ↦ s
  | some task ↦
      if nat_beq e.number n && leb e.scheduled_time env.now
      then begin_task task.completed env (run_of a e task) e s
      else s
]

-- A wake of entry `n`, which may be gone by then.
unfoldable pub begin_delivery : Env → String → ℕ → Scheduler → Scheduler
begin_delivery env a n s = begin_on (lookup a s.alarms) n env a s

-- The end of a delivery that has an alarm queued behind it.
abbrev pub run_queued : Bool → String → ℕ → Scheduler → Result AlarmError Scheduler
run_queued refused a q s =
    if refused
    then err write_refused
    else ok (schedule a q (record s { rows = clear_running a s.rows }))

abbrev pub backoff_before : Bool → Entry → ℕ
backoff_before counts e =
    min retry_backoff_max
      (if counts && not e.previous_retry_counted_against_limit then 0 else e.backoff)

abbrev pub counted_after : Bool → Entry → ℕ
counted_after counts e = e.counted_retry + (if counts then 1 else 0)

abbrev pub retried : Bool → ℕ → Entry → Entry
retried counts time e = record e {
  backoff = backoff_before counts e + 1;
  counted_retry = counted_after counts e;
  previous_retry_counted_against_limit = counts;
  wake_time = some time;
  task = some (record { due = time; completed = none; bookkeeping_backoff = 0 });
}

abbrev pub save_and_arm : Bool → ℕ → String → Bool → Entry → Scheduler → Result AlarmError Scheduler
save_and_arm true time a counts e s = err write_refused
save_and_arm false time a counts e s = ok (
    set_entry a (retried counts time e) (record s {
      rows = save_retry time (backoff_before counts e + 1) (counted_after counts e) counts a s.rows;
    }))

abbrev pub arm_retry : Env → String → Bool → Entry → Scheduler → Result AlarmError Scheduler
arm_retry env a counts e s = next_delay env.random (backoff_before counts e) >>= λ delay.
    save_and_arm env.refused (env.now + delay) a counts e s

abbrev pub ended : Result AlarmError Scheduler → Result AlarmError Flow
ended x = x >>= λ s. ok (done s)

abbrev pub settle_failed : Env → String → Bool → Entry → Scheduler → Result AlarmError Flow
settle_failed env a counts e s =
    if leb alarm_retry_max_tries e.counted_retry
    then ok (abandoning s)
    else ended (arm_retry env a counts e s)

abbrev pub settle_final : Env → String → EventOutcome → Scheduler → Result AlarmError Flow
settle_final env a aborted s = ok (abandoning s)
settle_final env a _ s = ended (delete_alarm env.refused a s)

abbrev pub settle_on :
    Option ℕ → Bool → Env → String → AlarmResult → Entry → Scheduler → Result AlarmError Flow
settle_on (some q) retry env a result e s = ended (run_queued env.refused a q s)
settle_on none true env a result e s =
    let e' = record e { status = finished } in
    settle_failed env a result.retry_counts_against_limit e' (set_entry a e' s)
settle_on none false env a result e s =
    settle_final env a result.outcome (set_entry a (record e { status = finished }) s)

-- Behind the handler, up to the first throw or the end.
abbrev pub settle : Env → String → AlarmResult → Entry → Scheduler → Result AlarmError Flow
settle env a result e s = settle_on e.queued_alarm result.retry env a result e s

abbrev pub flow_of : Env → Run → AlarmResult → Scheduler → Result AlarmError Flow → Flow
flow_of env r result s (ok (done s')) = done (close r s')
flow_of env r result s (ok (abandoning s')) = abandoning s'
flow_of env r result s (err _) = done (close r (task_failed env r (some result) s))

abbrev pub finish_on : Option Entry → Env → Run → AlarmResult → Scheduler → Flow
finish_on none env r result s = done (close r s)
finish_on (some e) env r result s = flow_of env r result s (settle env r.actor result e s)

unfoldable pub finish_delivery : Env → Run → AlarmResult → Scheduler → Flow
finish_delivery env r result s = finish_on (current r s) env r result s

-- `#abandon`, behind the actor's answer; `none` is an answer that is an exception.
abbrev pub close_or_fail :
    Env → Run → AlarmResult → Scheduler → Result AlarmError Scheduler → Scheduler
close_or_fail env r result s (ok s') = close r s'
close_or_fail env r result s (err _) = close r (task_failed env r (some result) s)

abbrev pub queued_of : Option Entry → Option ℕ
queued_of none = none
queued_of (some e) = e.queued_alarm

abbrev pub promote : Option ℕ → Env → Run → Scheduler → Result AlarmError Scheduler
promote none env r s = delete_alarm env.refused_again r.actor s
promote (some q) env r s = run_queued env.refused_again r.actor q s

abbrev pub promote_queued : Env → Run → AlarmResult → Scheduler → Scheduler
promote_queued env r result s =
    close_or_fail env r result s (promote (queued_of (current r s)) env r s)

abbrev pub promote_after :
    Env → Run → AlarmResult → Scheduler → Result AlarmError Scheduler → Scheduler
promote_after env r result s (ok s') = promote_queued env r result s'
promote_after env r result s (err _) = close r (task_failed env r (some result) s)

abbrev pub newer_of : Option ℕ → Option ℕ → Option ℕ
newer_of (some _) newer = none
newer_of none newer = newer

abbrev pub take_newer : Option ℕ → Env → Run → AlarmResult → Scheduler → Scheduler
take_newer none env r result s = promote_queued env r result s
take_newer (some t) env r result s =
    promote_after env r result s (set_alarm env.refused r.actor t s)

abbrev pub abandoned_on : Option Entry → Option ℕ → Env → Run → AlarmResult → Scheduler → Scheduler
abandoned_on none newer env r result s = close r s
abandoned_on (some e) newer env r result s =
    take_newer (newer_of e.queued_alarm newer) env r result s

unfoldable pub finish_abandon : Env → Run → AlarmResult → Option (Option ℕ) → Scheduler → Scheduler
finish_abandon env r result none s = close r (task_failed env r (some result) s)
finish_abandon env r result (some newer) s = abandoned_on (current r s) newer env r result s
