-- ===== src/ActorSqlite/Commits.antt =====
-- src/io/actor-sqlite.ts: the commits of one actor, its requests to the scheduler, and the changes
-- of its alarm, in any order. The pieces of `commitImpl`, of `#scheduleLaterAlarm` and of the
-- scheduler are steps. Databases are persisted in the order of the calls of `commitCallback`.
pub mod Steps
pub mod Order
pub mod Keeps
pub mod Answers
pub mod Moves
pub mod Later
pub mod Finish
pub mod Safety
pub mod Cycle
use do_runtime.Common.{
  ℕ, Bool, true, false, Option, none, some, List, [], ◌∷◌, ◌++◌, ◌&&◌, if◌then◌else◌,
}
use do_runtime.ActorSqlite.Scheduling.{
  Alarms, construct_alarms, Request, confirm_request, Round, scheduling, persisting, later_ended,
  start_precommit_alarm_scheduling, commit_round, after_persist, bump_version,
}

-- A request: it was sent, and may wait for the one that moves the alarm later; the scheduler has
-- done it; the answer is here; or it failed.
pub data Flight : Type 0 where
  quiet answered lost : Flight
  asked : Bool → Request → Flight
  applied : Request → Flight

abbrev pub is_busy : Flight → Bool
is_busy (asked waits r) = true
is_busy (applied r) = true
is_busy _ = false

-- A call of `commitCallback`: the alarm and its version.
pub record Commit : Type 0 where
  pub alarm : Option ℕ
  pub version : ℕ

-- `persisted` is what a crash leaves, and `held` what the scheduler has. `gathering` is the request
-- of the commit that has not called back, if there is one, and `moving` that of
-- `#alarmLaterInFlight`. Commits are in flight, and then landed until `commitImpl` goes on.
pub record World : Type 0 where
  pub stored : Option ℕ
  pub persisted : Commit
  pub held : Option ℕ
  pub alarms : Alarms
  pub gathering : Flight
  pub moving : Flight
  pub in_flight : List Commit
  pub landed : List Commit

abbrev pub open_world : Option ℕ → World
open_world t = record {
  stored = t;
  persisted = record { alarm = t; version = 0 };
  held = t;
  alarms = construct_alarms t;
  gathering = quiet;
  moving = quiet;
  in_flight = [];
  landed = [];
}

-- A write changes the alarm.
abbrev pub change_alarm : Option ℕ → World → World
change_alarm t w = record w { stored = t; alarms = bump_version w.alarms }

-- The loop of `commitImpl` waits for a request, or the commit calls back.
abbrev pub gather : Round → World → World
gather (scheduling r al) w = record w { alarms = al; gathering = asked false r }
gather (persisting a v) w = record w {
  gathering = quiet;
  in_flight = w.in_flight ++ record { alarm = a; version = v } ∷ [];
}

abbrev pub begun : Option Request × Alarms → World → World
begun (some r, al) w = record w { alarms = al; gathering = asked true r }
begun (none, al) w = gather (commit_round w.stored al) (record w { alarms = al })

-- The start of a commit; it joins the one that has not called back.
abbrev pub begin_commit_on : Flight → World → World
begin_commit_on quiet w = begun (start_precommit_alarm_scheduling false w.stored w.alarms) w
begin_commit_on _ w = w

abbrev pub begin_commit : World → World
begin_commit w = begin_commit_on w.gathering w

-- The scheduler does the request of a commit, behind the one that it waits for, ...
abbrev pub grant_on : Flight → World → World
grant_on (asked waits r) w =
    if waits && is_busy w.moving then w else record w { held = r.time; gathering = applied r }
grant_on _ w = w

abbrev pub grant : World → World
grant w = grant_on w.gathering w

-- ... its answer comes, ...
abbrev pub confirm_on : Flight → World → World
confirm_on (applied r) w = record w { alarms = confirm_request r w.alarms; gathering = answered }
confirm_on _ w = w

abbrev pub confirm : World → World
confirm w = confirm_on w.gathering w

-- ... or it fails, done or not, and so does the commit, which breaks the actor.
abbrev pub lose_on : Flight → World → World
lose_on (asked waits r) w = record w { gathering = lost }
lose_on (applied r) w = record w { gathering = lost }
lose_on _ w = w

abbrev pub lose : World → World
lose w = lose_on w.gathering w

-- `commitImpl` goes on.
abbrev pub resume_on : Flight → World → World
resume_on answered w = gather (commit_round w.stored w.alarms) w
resume_on _ w = w

abbrev pub resume_commit : World → World
resume_commit w = resume_on w.gathering w

-- The same for a request that moves the alarm later, whose failure is no one's.
abbrev pub grant_later_on : Flight → World → World
grant_later_on (asked waits r) w = record w { held = r.time; moving = applied r }
grant_later_on _ w = w

abbrev pub grant_later : World → World
grant_later w = grant_later_on w.moving w

abbrev pub confirm_later_on : Flight → World → World
confirm_later_on (applied r) w = record w { alarms = confirm_request r w.alarms; moving = answered }
confirm_later_on _ w = w

abbrev pub confirm_later : World → World
confirm_later w = confirm_later_on w.moving w

abbrev pub lose_later_on : Flight → World → World
lose_later_on (asked waits r) w = record w { moving = answered }
lose_later_on (applied r) w = record w { moving = answered }
lose_later_on _ w = w

abbrev pub lose_later : World → World
lose_later w = lose_later_on w.moving w

abbrev pub move : Option Request × Alarms → World → World
move (some r, al) w = record w { alarms = al; moving = asked false r }
move (none, al) w = record w { alarms = al }

-- The handler of its end takes the time that was parked.
abbrev pub end_later_on : Flight → World → World
end_later_on answered w = move (later_ended w.stored w.alarms) (record w { moving = quiet })
end_later_on _ w = w

abbrev pub end_later : World → World
end_later w = end_later_on w.moving w

-- The oldest commit in flight is persisted, ...
abbrev pub persist_on : List Commit → World → World
persist_on [] w = w
persist_on (c ∷ cs) w = record w { persisted = c; in_flight = cs; landed = w.landed ++ c ∷ [] }

abbrev pub persist : World → World
persist w = persist_on w.in_flight w

-- ... or fails, ...
abbrev pub fail_commit_on : List Commit → World → World
fail_commit_on [] w = w
fail_commit_on (c ∷ cs) w = record w { in_flight = cs }

abbrev pub fail_commit : World → World
fail_commit w = fail_commit_on w.in_flight w

-- ... and the oldest that has landed goes on.
abbrev pub finish_on : List Commit → World → World
finish_on [] w = w
finish_on (c ∷ cs) w = move (after_persist c.alarm c.version w.alarms) (record w { landed = cs })

abbrev pub finish_commit : World → World
finish_commit w = finish_on w.landed w
