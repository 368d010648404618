-- ===== src/AlarmScheduler/Loading.antt =====
-- src/server/alarm-scheduler.ts: the constructor, `#loadAlarmsFromDb` and what it reads.
use do_runtime.Common.{
  ℕ, ◌+◌, min, Bool, true, false, none, some, List, [], ◌∷◌, String, nat_beq, ltb, if◌then◌else◌,
  Result, ok, err, ◌>>=◌,
}
use do_runtime.AlarmScheduler.{
  AlarmError, column_out_of_range, write_refused, Row, PersistedAlarm, Scheduler, save_retry,
  put_entry, resumed_entry, project,
}
use do_runtime.AlarmScheduler.Ladder.{Draw, next_delay, alarm_retry_max_tries, retry_backoff_max}

abbrev pub require_range : ℕ → ℕ → Result AlarmError ℕ
require_range value most = if ltb most value then err column_out_of_range else ok value

unfoldable pub read_persisted_alarm : Row → Result AlarmError PersistedAlarm
read_persisted_alarm r = do
  backoff ← require_range r.backoff (retry_backoff_max + 1)
  counted ← require_range r.counted_retry alarm_retry_max_tries
  previous ← require_range r.previous_retry_counted 1
  running ← require_range r.running 1
  ok (record {
    retry_time = r.retry_time;
    backoff = backoff;
    counted_retry = counted;
    previous_retry_counted_against_limit = nat_beq previous 1;
    running = nat_beq running 1;
  })

abbrev pub recovered : ℕ → ℕ → PersistedAlarm → PersistedAlarm
recovered now delay p = record {
  retry_time = some (now + delay);
  backoff = min retry_backoff_max p.backoff + 1;
  counted_retry = p.counted_retry;
  previous_retry_counted_against_limit = false;
  running = false;
}

-- The write of a recovery, which may be refused.
abbrev pub save_recovered :
    Bool
    → ℕ
    → ℕ
    → String
    → PersistedAlarm
    → Scheduler
    → Result AlarmError (PersistedAlarm × Scheduler)
save_recovered true now delay a p s = err write_refused
save_recovered false now delay a p s = ok (
  recovered now delay p,
  record s {
    rows =
        save_retry (now + delay) (min retry_backoff_max p.backoff + 1) p.counted_retry false a
          s.rows;
  },
)

-- `#recoverInterruptedDelivery`.
abbrev pub recover :
    ℕ
    → Draw
    → Bool
    → String
    → PersistedAlarm
    → Scheduler
    → Result AlarmError (PersistedAlarm × Scheduler)
recover now d refused a p s =
    next_delay d p.backoff >>= λ delay. save_recovered refused now delay a p s

abbrev pub resume :
    Bool
    → ℕ
    → Draw
    → Bool
    → String
    → PersistedAlarm
    → Scheduler
    → Result AlarmError (PersistedAlarm × Scheduler)
resume true now d refused a p s = recover now d refused a p s
resume false now d refused a p s = ok (p, s)

-- The draws, and whether a write is refused, are those of the entry's number.
unfoldable pub load_row :
    ℕ → (ℕ → Draw) → (ℕ → Bool) → String → Row → Scheduler → Result AlarmError Scheduler
load_row now random refused a r s = do
  p ← read_persisted_alarm r
  (resumed, s') ← resume p.running now (random s.next_number) (refused s.next_number) a p s
  ok (put_entry a (resumed_entry s'.next_number r.scheduled_time resumed) s')

unfoldable pub load_rows :
    ℕ → (ℕ → Draw) → (ℕ → Bool) → List (String × Row) → Scheduler → Result AlarmError Scheduler
load_rows now random refused [] s = ok s
load_rows now random refused ((a, r) ∷ rows) s =
    load_row now random refused a r s >>= load_rows now random refused rows

-- A scheduler over the rows that an earlier one has left.
abbrev pub opened : List (String × Row) → Scheduler
opened rows = record {
  rows = rows;
  alarms = [];
  next_number = 0;
  active = [];
  projected = (none, 0);
}

unfoldable pub construct :
    ℕ → (ℕ → Draw) → (ℕ → Bool) → List (String × Row) → Result AlarmError Scheduler
construct now random refused rows =
    load_rows now random refused rows (opened rows) >>= λ s. ok (project s)
