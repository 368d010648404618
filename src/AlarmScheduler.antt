-- ===== src/AlarmScheduler.antt =====
-- src/server/alarm-scheduler.ts: the rows of `_cf_ALARM`, the alarms in memory, and the retry
-- ladder. Times are natural numbers of milliseconds. `random()` is a fraction, and whether SQLite
-- refuses a write is an argument of the operation that writes.
pub mod Ladder
pub mod Delivery
pub mod Loading
pub mod Fits
pub mod Keeps
pub mod Begin
pub mod Deliver
pub mod Finish
pub mod Budget
pub mod Requests
pub mod Restart
pub mod Calls
use do_runtime.Common.{
  ℕ, zero, suc, ◌+◌, ◌-◌, ◌≤◌, max, Bool, true, false, Option, none, some, List, [], ◌∷◌, String,
  nat_beq, ltb, leb, if◌then◌else◌, Result, ok, err, ◌>>=◌, lookup, insert, erase, string_eq,
  length,
}

pub data AlarmError : Type 0 where
  backoff_out_of_range column_out_of_range write_refused : AlarmError

pub record Row : Type 0 where
  pub scheduled_time : ℕ
  pub retry_time : Option ℕ
  pub backoff : ℕ
  pub counted_retry : ℕ
  pub previous_retry_counted : ℕ
  pub running : ℕ

pub data EventOutcome : Type 0 where
  succeeded canceled script_not_found failed aborted exceeded_cpu unknown : EventOutcome

pub record AlarmResult : Type 0 where
  pub retry : Bool
  pub retry_counts_against_limit : Bool
  pub outcome : EventOutcome

pub data AlarmStatus : Type 0 where
  waiting started finished : AlarmStatus

-- A wake that is armed: when it is due, and, if only its bookkeeping is left, the result of the
-- handler and how often the bookkeeping has failed.
pub record Task : Type 0 where
  pub due : ℕ
  pub completed : Option AlarmResult
  pub bookkeeping_backoff : ℕ

-- `ScheduledAlarm`; `number` tells one entry from the next.
pub record Entry : Type 0 where
  pub number : ℕ
  pub scheduled_time : ℕ
  pub wake_time : Option ℕ
  pub task : Option Task
  pub queued_alarm : Option ℕ
  pub status : AlarmStatus
  pub previous_retry_counted_against_limit : Bool
  pub backoff : ℕ
  pub counted_retry : ℕ

pub record PersistedAlarm : Type 0 where
  pub retry_time : Option ℕ
  pub backoff : ℕ
  pub counted_retry : ℕ
  pub previous_retry_counted_against_limit : Bool
  pub running : Bool

-- `active` are the numbers and times of the entries in `#activeDeliveries`, `projected` is what
-- `projectWake` was last told.
pub record Scheduler : Type 0 where
  pub rows : List (String × Row)
  pub alarms : List (String × Entry)
  pub next_number : ℕ
  pub active : List (ℕ × ℕ)
  pub projected : Option ℕ × ℕ

abbrev pub or_else {ℓ} : {A : Type ℓ} → Option A → A → A
or_else none b = b
or_else (some a) b = a

abbrev pub earlier : Option ℕ → Option ℕ → Option ℕ
earlier none best = best
earlier (some t) none = some t
earlier (some t) (some b) = if ltb t b then some t else some b

abbrev pub wake_of : Entry → Option ℕ
wake_of e = elim e.status [
  | started ↦ e.queued_alarm
  | _ ↦ some (or_else e.wake_time e.scheduled_time)
]

unfoldable pub earliest_active : List (ℕ × ℕ) → Option ℕ → Option ℕ
earliest_active [] best = best
earliest_active ((_, t) ∷ active) best = earliest_active active (earlier (some t) best)

unfoldable pub earliest_alarm : List (String × Entry) → Option ℕ → Option ℕ
earliest_alarm [] best = best
earliest_alarm ((_, e) ∷ alarms) best = earliest_alarm alarms (earlier (wake_of e) best)

-- `#projectNextWake`.
abbrev pub next_wake : Scheduler → Option ℕ × ℕ
next_wake s = (earliest_alarm s.alarms (earliest_active s.active none), length s.active)

abbrev pub project : Scheduler → Scheduler
project s = record s { projected = next_wake s }

-- The statements.
abbrev pub running_of : Option Row → ℕ
running_of none = 0
running_of (some r) = r.running

abbrev pub new_row : ℕ → ℕ → Row
new_row t running = record {
  scheduled_time = t;
  retry_time = none;
  backoff = 0;
  counted_retry = 0;
  previous_retry_counted = 0;
  running = running;
}

abbrev pub store_alarm : String → ℕ → List (String × Row) → List (String × Row)
store_alarm a t rows = insert a (new_row t (running_of (lookup a rows))) rows

abbrev pub update_row :
    (Row → Row) → String → Option Row → List (String × Row) → List (String × Row)
update_row f a none rows = rows
update_row f a (some r) rows = insert a (f r) rows

abbrev pub set_running : ℕ → Row → Row
set_running b r = record r { running = b }

abbrev pub mark_running : String → List (String × Row) → List (String × Row)
mark_running a rows = update_row (set_running 1) a (lookup a rows) rows

abbrev pub clear_running : String → List (String × Row) → List (String × Row)
clear_running a rows = update_row (set_running 0) a (lookup a rows) rows

abbrev pub with_retry : ℕ → ℕ → ℕ → Bool → Row → Row
with_retry time backoff counted previous r = record r {
  retry_time = some time;
  backoff = backoff;
  counted_retry = counted;
  previous_retry_counted = if previous then 1 else 0;
  running = 0;
}

abbrev pub save_retry : ℕ → ℕ → ℕ → Bool → String → List (String × Row) → List (String × Row)
save_retry time backoff counted previous a rows =
    update_row (with_retry time backoff counted previous) a (lookup a rows) rows

-- `#scheduleAlarm`.
abbrev pub new_entry : ℕ → ℕ → Entry
new_entry number t = record {
  number = number;
  scheduled_time = t;
  wake_time = some t;
  task = some (record { due = t; completed = none; bookkeeping_backoff = 0 });
  queued_alarm = none;
  status = waiting;
  previous_retry_counted_against_limit = false;
  backoff = 0;
  counted_retry = 0;
}

abbrev pub resumed_entry : ℕ → ℕ → PersistedAlarm → Entry
resumed_entry number t p =
    let wake = max t (or_else p.retry_time t) in
    record {
      number = number;
      scheduled_time = t;
      wake_time = some wake;
      task = some (record { due = wake; completed = none; bookkeeping_backoff = 0 });
      queued_alarm = none;
      status = waiting;
      previous_retry_counted_against_limit = p.previous_retry_counted_against_limit;
      backoff = p.backoff;
      counted_retry = p.counted_retry;
    }

abbrev pub put_entry : String → Entry → Scheduler → Scheduler
put_entry a e s = record s { alarms = insert a e s.alarms; next_number = s.next_number + 1 }

abbrev pub schedule : String → ℕ → Scheduler → Scheduler
schedule a t s = put_entry a (new_entry s.next_number t) s

abbrev pub set_entry : String → Entry → Scheduler → Scheduler
set_entry a e s = record s { alarms = insert a e s.alarms }

abbrev pub set_alarm_at : AlarmStatus → Entry → String → ℕ → Scheduler → Scheduler
set_alarm_at waiting e a t s = schedule a t s
set_alarm_at _ e a t s = set_entry a (record e { queued_alarm = some t }) s

abbrev pub set_alarm_on : Option Entry → String → ℕ → Scheduler → Scheduler
set_alarm_on none a t s = schedule a t s
set_alarm_on (some e) a t s = set_alarm_at e.status e a t s

unfoldable pub set_alarm : Bool → String → ℕ → Scheduler → Result AlarmError Scheduler
set_alarm refused a t s =
    if refused
    then err write_refused
    else ok (
        project (set_alarm_on (lookup a s.alarms) a t (record s { rows = store_alarm a t s.rows })))

abbrev pub drop_alarm_on : Option Entry → String → Scheduler → Scheduler
drop_alarm_on none a s = s
drop_alarm_on (some e) a s = elim e.queued_alarm [
  | some q ↦ elim e.status [
    | started ↦ set_entry a (record e { queued_alarm = none }) s
    | _ ↦ schedule a q s
  ]
  | none ↦ elim e.status [ started ↦ s | _ ↦ record s { alarms = erase a s.alarms } ]
]

unfoldable pub delete_alarm : Bool → String → Scheduler → Result AlarmError Scheduler
delete_alarm refused a s =
    if refused
    then err write_refused
    else ok (project (drop_alarm_on (lookup a s.alarms) a (record s { rows = erase a s.rows })))

unfoldable pub delete_all : Bool → Scheduler → Result AlarmError Scheduler
delete_all refused s =
    if refused then err write_refused else ok (project (record s { rows = []; alarms = [] }))

abbrev pub shown : Option Entry → Option ℕ
shown none = none
shown (some e) = elim e.status [ started ↦ e.queued_alarm | _ ↦ some e.scheduled_time ]

abbrev pub get_alarm : String → Scheduler → Option ℕ
get_alarm a s = shown (lookup a s.alarms)

-- `hooks(actorId)`.
abbrev pub schedule_run : Bool → String → Option ℕ → Scheduler → Result AlarmError Scheduler
schedule_run refused a none s = delete_alarm refused a s
schedule_run refused a (some t) s = set_alarm refused a t s

abbrev pub is_due_by : Option Entry → ℕ → Bool
is_due_by none stored = false
is_due_by (some e) stored = leb (or_else e.queued_alarm e.scheduled_time) stored

unfoldable pub reconcile : Bool → String → ℕ → Scheduler → Result AlarmError Scheduler
unfolding set_alarm
reconcile refused a stored s =
    if is_due_by (lookup a s.alarms) stored then ok s else set_alarm refused a stored s
