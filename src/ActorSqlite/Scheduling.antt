-- ===== src/ActorSqlite/Scheduling.antt =====
-- src/io/actor-sqlite.ts: how the alarm that the scheduler has follows the one in the database.
-- `stored` is the alarm in the local database, `metadata.getAlarm()`. A request is sent with
-- `scheduleRun`; whoever calls may find that this throws at once. The pieces of `commitImpl` between
-- its awaits are functions, and `no_later_than` is `#alarmScheduledNoLaterThan`.
use do_runtime.Common.{ℕ, suc, Bool, true, false, Option, none, some, ltb, nat_beq, if◌then◌else◌}

-- No alarm is one at infinity.
abbrev pub will_fire_earlier : Option ℕ → Option ℕ → Bool
will_fire_earlier none b = false
will_fire_earlier (some a) none = true
will_fire_earlier (some a) (some b) = ltb a b

pub record Alarms : Type 0 where
  pub have_deferred_delete : Bool
  pub in_alarm_handler : Bool
  pub last_confirmed : Option ℕ
  pub no_later_than : Option ℕ
  pub later_in_flight : Bool
  pub pending_later : Option (Option ℕ)
  pub version : ℕ

-- The constructor reads the database.
abbrev pub construct_alarms : Option ℕ → Alarms
construct_alarms stored = record {
  have_deferred_delete = false;
  in_alarm_handler = false;
  last_confirmed = stored;
  no_later_than = stored;
  later_in_flight = false;
  pending_later = none;
  version = 0;
}

pub record Request : Type 0 where
  pub time : Option ℕ
  pub moves_later : Bool

-- `#requestScheduledAlarm`, up to the answer of the scheduler, ...
abbrev pub request_scheduled_alarm : Option ℕ → Alarms → Request × Alarms
request_scheduled_alarm t al =
    let later = will_fire_earlier al.no_later_than t in
    (
      record { time = t; moves_later = later },
      record al { no_later_than = if later then t else al.no_later_than },
    )

-- ... and when it is confirmed.
abbrev pub confirm_request : Request → Alarms → Alarms
confirm_request r al = record al {
  no_later_than = if r.moves_later then al.no_later_than else r.time;
}

abbrev pub sending : Request × Alarms → Option Request × Alarms
sending (r, al) = (some r, al)

-- `#scheduleLaterAlarm`, up to the end of its request.
abbrev pub schedule_later_on : Bool → Option ℕ → Alarms → Option Request × Alarms
schedule_later_on true t al = (none, record al { pending_later = some t })
schedule_later_on false t al =
    sending (request_scheduled_alarm t (record al { later_in_flight = true }))

abbrev pub schedule_later_alarm : Option ℕ → Alarms → Option Request × Alarms
schedule_later_alarm t al = schedule_later_on al.later_in_flight t al

-- The request has ended, well or not: the time that was parked is next, unless the alarm in the
-- database is earlier.
abbrev pub take_pending : Option (Option ℕ) → Option ℕ → Alarms → Option Request × Alarms
take_pending none stored al = (none, al)
take_pending (some t) stored al =
    let al' = record al { pending_later = none } in
    if will_fire_earlier stored t then (none, al') else schedule_later_alarm t al'

abbrev pub later_ended : Option ℕ → Alarms → Option Request × Alarms
later_ended stored al = take_pending al.pending_later stored (record al { later_in_flight = false })

-- `startPrecommitAlarmScheduling`; `pending` tells that a commit has not yet called back.
abbrev pub start_precommit_alarm_scheduling : Bool → Option ℕ → Alarms → Option Request × Alarms
start_precommit_alarm_scheduling true stored al = (none, al)
start_precommit_alarm_scheduling false stored al =
    if will_fire_earlier stored al.no_later_than
    then sending (request_scheduled_alarm stored (record al { pending_later = none }))
    else (none, al)

-- One turn of the loop of `commitImpl`: another request, or the alarm and the version that the
-- commit goes on with, when it calls `commitCallback`.
pub data Round : Type 0 where
  scheduling : Request → Alarms → Round
  persisting : Option ℕ → ℕ → Round

abbrev pub scheduling_of : Request × Alarms → Round
scheduling_of (r, al) = scheduling r al

abbrev pub commit_round : Option ℕ → Alarms → Round
commit_round stored al =
    if will_fire_earlier stored al.no_later_than
    then scheduling_of (request_scheduled_alarm stored al)
    else persisting stored al.version

-- The end of `commitImpl`, when the database is persisted.
abbrev pub schedule_after : Bool → Option ℕ → Alarms → Option Request × Alarms
schedule_after true a al =
    if will_fire_earlier al.no_later_than a then schedule_later_alarm a al else (none, al)
schedule_after false a al = (none, al)

abbrev pub after_persist : Option ℕ → ℕ → Alarms → Option Request × Alarms
after_persist a v al = schedule_after (nat_beq al.version v) a (record al { last_confirmed = a })

-- A write of the alarm that changes it.
abbrev pub bump_version : Alarms → Alarms
bump_version al = record al { version = suc al.version }
