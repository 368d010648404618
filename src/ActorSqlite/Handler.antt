-- ===== src/ActorSqlite/Handler.antt =====
-- src/io/actor-sqlite.ts: the alarm that an actor sees, and the run of its alarm handler, which looks
-- as if it had deleted the alarm at its start. `stored` is the alarm in the database.
pub mod Runs
use do_runtime.Common.{
  ℕ, suc, Bool, true, false, Option, none, some, List, [], ◌∷◌, ◌&&◌, not, nat_beq, if◌then◌else◌,
}
use do_runtime.ActorSqlite.Scheduling.{
  Alarms, Request, will_fire_earlier, request_scheduled_alarm, bump_version,
}

abbrev pub same_alarm : Option ℕ → Option ℕ → Bool
same_alarm none none = true
same_alarm (some a) (some b) = nat_beq a b
same_alarm _ _ = false

-- The alarm in the database, and the state of the class.
pub record Slot : Type 0 where
  pub stored : Option ℕ
  pub alarms : Alarms

-- `metadata.setAlarm` writes a value that changes.
abbrev pub write_alarm : Option ℕ → Slot → Slot
write_alarm t s =
    if same_alarm s.stored t then s else record { stored = t; alarms = bump_version s.alarms }

abbrev pub defer : Bool → Slot → Slot
defer b s = record s { alarms = record s.alarms { have_deferred_delete = b } }

-- `getAlarm`, with the flag of an explicit transaction that has set the alarm.
abbrev pub get_alarm : Bool → Slot → Option ℕ
get_alarm dirty s = if s.alarms.have_deferred_delete && not dirty then none else s.stored

-- `setAlarm` outside of an explicit transaction.
abbrev pub set_alarm : Option ℕ → Slot → Slot
set_alarm t s = defer false (write_alarm t s)

-- What `armAlarmHandler` answers: run the handler, or wait for a request and cancel it, with or
-- without a place in `#alarmLaterInFlight`.
pub data Armed : Type 0 where
  running already_running : Armed
  cancelling : Bool → Request → Armed

abbrev pub start_run : Bool → Slot → Armed × Slot
start_run deferred s = (
  running,
  record s {
    alarms = record s.alarms { have_deferred_delete = deferred; in_alarm_handler = true };
  },
)

abbrev cancelled : Bool → Slot → Request × Alarms → Armed × Slot
cancelled later s (r, al) = (cancelling later r, record s { alarms = al })

-- A clean alarm that differs from the one that is delivered.
abbrev pub arm_clean : ℕ → ℕ → Slot → Armed × Slot
arm_clean scheduled now s =
    if will_fire_earlier s.stored (some now)
    then start_run true s
    else (if will_fire_earlier (some scheduled) s.stored
        then cancelled true s (
            let (r, al) = request_scheduled_alarm s.stored s.alarms in
            (r, record al { pending_later = none }))
        else cancelled false s (request_scheduled_alarm s.stored s.alarms))

-- `armAlarmHandler`.
abbrev pub arm_on : Bool → ℕ → ℕ → Slot → Armed × Slot
arm_on true scheduled now s = (already_running, s)
arm_on false scheduled now s =
    if same_alarm s.stored (some scheduled)
    then start_run true s
    else (if same_alarm s.stored s.alarms.last_confirmed
        then arm_clean scheduled now s
        else start_run false s)

abbrev pub arm_alarm_handler : ℕ → ℕ → Slot → Armed × Slot
arm_alarm_handler scheduled now s = arm_on s.alarms.in_alarm_handler scheduled now s

-- `cancelDeferredAlarmDeletion`.
abbrev pub cancel_deferred_alarm_deletion : Slot → Slot
cancel_deferred_alarm_deletion s = defer false s

abbrev pub delete_deferred : Bool → Bool → Slot → Slot
delete_deferred false broken s = s
delete_deferred true true s = defer false s
delete_deferred true false s = defer false (write_alarm none s)

-- `#maybeDeleteDeferredAlarm`, when the deleter is dropped.
abbrev pub maybe_delete_deferred_alarm : Bool → Slot → Slot
maybe_delete_deferred_alarm broken s =
    delete_deferred s.alarms.have_deferred_delete broken
      (record s { alarms = record s.alarms { in_alarm_handler = false } })

abbrev abandon_stored : Option ℕ → ℕ → Slot → Option ℕ × Slot
abandon_stored none scheduled s = (none, s)
abandon_stored (some t) scheduled s =
    if nat_beq t scheduled then (none, set_alarm none s) else (some t, s)

-- `abandonAlarm`: the alarm that the scheduler should take instead.
abbrev pub abandon_alarm : ℕ → Slot → Option ℕ × Slot
abandon_alarm scheduled s =
    if s.alarms.in_alarm_handler then (none, s) else abandon_stored s.stored scheduled s

-- What happens in a run of the handler: the alarm is set, or the run has failed.
pub data HandlerCall : Type 0 where
  setting : Option ℕ → HandlerCall
  failing : HandlerCall

abbrev pub run_call : HandlerCall → Slot → Slot
run_call (setting t) s = set_alarm t s
run_call failing s = cancel_deferred_alarm_deletion s

abbrev pub run_calls : List HandlerCall → Slot → Slot
run_calls [] s = s
run_calls (c ∷ cs) s = run_calls cs (run_call c s)
