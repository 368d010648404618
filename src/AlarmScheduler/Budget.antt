-- ===== src/AlarmScheduler/Budget.antt =====
-- src/server/alarm-scheduler.ts: what becomes of an alarm when its handler is done.
use do_runtime.Common.{
  ℕ, ◌+◌, ◌*◌, ◌^◌, ◌≤◌, min, ◌≡◌, refl, ap, ◌∙◌, Bool, true, false, leb, Option, none, some,
  String, Bool-cases, inl, inr, lookup, erase, string_eq, lookup-insert, lookup-erase, beq_refl,
  arith,
}
use do_runtime.AlarmScheduler.{
  Entry, AlarmResult, EventOutcome, succeeded, canceled, script_not_found, failed, aborted,
  exceeded_cpu, unknown, waiting, finished, Scheduler, delete_alarm, drop_alarm_on, set_entry,
}
use do_runtime.AlarmScheduler.Ladder.{
  Draw, next_delay_lem, alarm_retry_max_tries, retry_backoff_max,
}
use do_runtime.AlarmScheduler.Delivery.{
  Run, Env, Flow, done, abandoning, current, close, backoff_before, counted_after, retried, ended,
  settle_failed, settle_final, settle_on, flow_of, finish_on, finish_delivery,
}

-- The entry that `s` has for `a`.
abbrev pub Has : String → Entry → Scheduler → Type 0
Has a e s = lookup a s.alarms ≡ some e

abbrev pub is_aborted : EventOutcome → Bool
is_aborted aborted = true
is_aborted _ = false

-- The rung of the next attempt: the first one, if the attempt counts and the one before did not.
abbrev pub rung : Bool → Bool → ℕ → ℕ
rung true false backoff = 0
rung _ _ backoff = min retry_backoff_max backoff

abbrev pub spent_after : Bool → ℕ → ℕ
spent_after true counted = counted + 1
spent_after false counted = counted

-- The entry `e` waits for its next attempt, at least two seconds and at most 1280 seconds from now
-- and within a quarter above its rung, and one attempt of the budget is gone just if it counts.
pub record IsRetried (counts : Bool) (now : ℕ) (e e' : Entry) : Type 0 where
  pub time : ℕ
  pub wake : e'.wake_time ≡ some time
  pub armed : e'.task ≡ some (record { due = time; completed = none; bookkeeping_backoff = 0 })
  pub no_hot_loop : now + 2000 ≤ time
  pub no_stall : time ≤ now + 1280000
  pub not_early :
      now + 2000 * 2 ^ rung counts e.previous_retry_counted_against_limit e.backoff ≤ time
  pub not_late :
      4 * time
      ≤ 4 * now + 5 * (2000 * 2 ^ rung counts e.previous_retry_counted_against_limit e.backoff)
  pub backoff : e'.backoff ≡ rung counts e.previous_retry_counted_against_limit e.backoff + 1
  pub counted : e'.counted_retry ≡ spent_after counts e.counted_retry
  pub previous : e'.previous_retry_counted_against_limit ≡ counts
  pub scheduled : e'.scheduled_time ≡ e.scheduled_time
  pub number : e'.number ≡ e.number
  pub queued : e'.queued_alarm ≡ e.queued_alarm
  pub status : e'.status ≡ finished

-- The end of a delivery of entry `e` whose writes are stored, by what is queued, by whether the
-- attempt is to be retried, by whether the budget is spent, and by whether it was aborted.
abbrev pub IsEnd :
    Option ℕ → Bool → Bool → Bool → Env → Run → AlarmResult → Entry → Scheduler → Flow → Type 0
-- The queued alarm is next, with a budget of its own.
IsEnd (some q) retry spent abort env r result e s flow =
    (s' : Scheduler) × (flow ≡ done s')
    × Has r.actor
        (record {
          number = s.next_number;
          scheduled_time = q;
          wake_time = some q;
          task = some (record { due = q; completed = none; bookkeeping_backoff = 0 });
          queued_alarm = none;
          status = waiting;
          previous_retry_counted_against_limit = false;
          backoff = 0;
          counted_retry = 0;
        })
        s'
-- The alarm is given up ...
IsEnd none true true abort env r result e s flow =
    (s' : Scheduler) × (flow ≡ abandoning s') × Has r.actor (record e { status = finished }) s'
-- ... or tried again.
IsEnd none true false abort env r result e s flow =
    (s' : Scheduler) × (flow ≡ done s')
    × (e' : Entry) × Has r.actor e' s'
    × IsRetried result.retry_counts_against_limit env.now e e'
-- An aborted alarm is given up, any other one is over.
IsEnd none false spent true env r result e s flow =
    (s' : Scheduler) × (flow ≡ abandoning s') × Has r.actor (record e { status = finished }) s'
IsEnd none false spent false env r result e s flow =
    (s' : Scheduler) × (flow ≡ done s')
    × (lookup r.actor s'.alarms ≡ none)
    × (lookup r.actor s'.rows ≡ none)

backoff_before_lem :
    (counts previous : Bool) (e : Entry)
    → e.previous_retry_counted_against_limit ≡ previous
    → backoff_before counts e ≡ rung counts previous e.backoff
backoff_before_lem true true e is_p = rw is_p refl
backoff_before_lem true false e is_p = rw is_p refl
backoff_before_lem false true e is_p = refl
backoff_before_lem false false e is_p = refl

counted_after_lem :
    (counts : Bool) (e : Entry) → counted_after counts e ≡ spent_after counts e.counted_retry
counted_after_lem true e = refl
counted_after_lem false e = ground arith

rung_le :
    (counts previous : Bool) (backoff : ℕ)
    → min retry_backoff_max (rung counts previous backoff) ≡ rung counts previous backoff
rung_le true false backoff = refl
rung_le true true backoff = omega arith
rung_le false previous backoff = omega arith

-- The delay `x` of the attempt that `retried` waits for.
retried-IsRetried :
    (counts : Bool) (now x : ℕ) (e : Entry)
    → let b = backoff_before counts e in
      (2000 * 2 ^ min retry_backoff_max b ≤ x)
        × (4 * x ≤ 5 * (2000 * 2 ^ min retry_backoff_max b))
        × (2000 ≤ x)
        × (x ≤ 1280000)
      → IsRetried counts now e (retried counts (now + x) (record e { status = finished }))
retried-IsRetried counts now x e h =
    let p = e.previous_retry_counted_against_limit in
    let is_rung = backoff_before_lem counts p e refl in
    let same = rung_le counts p e.backoff in
    let (early, late, low, high) = rw (is_rung, same) at h in
    record {
      time = now + x;
      wake = refl;
      armed = refl;
      no_hot_loop = omega arith;
      no_stall = omega arith;
      not_early = omega arith;
      not_late = omega arith;
      backoff = ap (λ (n : ℕ). n + 1) is_rung;
      counted = counted_after_lem counts e;
      previous = refl;
      scheduled = refl;
      number = refl;
      queued = refl;
      status = refl;
    }

set_entry-Has : (a : String) (e : Entry) (s : Scheduler) → Has a e (set_entry a e s)
set_entry-Has a e s = lookup-insert a a e s.alarms ∙ rw (beq_refl a)

module _ (now : ℕ) (random : Draw) (again : Bool) (r : Run) (result : AlarmResult) (e : Entry)
    (s : Scheduler) where
  abbrev env : Env
  env = record { now = now; random = random; refused = false; refused_again = again }

  abbrev at_end : Entry
  at_end = record e { status = finished }

  abbrev s₁ : Scheduler
  s₁ = set_entry r.actor at_end s

  over_lem :
      (spent : Bool)
      → e.queued_alarm ≡ none
      → IsEnd none false spent false env r result e s
          (flow_of env r result s (ended (delete_alarm false r.actor s₁)))
  unfolding delete_alarm
  over_lem spent none_queued = (
    close r (drop_alarm_on (some at_end) r.actor (record s₁ { rows = erase r.actor s.rows })),
    rw (set_entry-Has r.actor at_end s),
    rw (none_queued, drop_alarm_on)
        (lookup-erase r.actor r.actor s₁.alarms ∙ rw (beq_refl r.actor)),
    rw (none_queued, drop_alarm_on) (lookup-erase r.actor r.actor s.rows ∙ rw (beq_refl r.actor)),
  )

  settle_final_lem :
      (outcome : EventOutcome) (spent : Bool)
      → e.queued_alarm ≡ none
      → IsEnd none false spent
          (is_aborted outcome)
          env
          r
          result
          e
          s
          (flow_of env r result s (settle_final env r.actor outcome s₁))
  settle_final_lem aborted spent none_queued = (s₁, refl, set_entry-Has r.actor at_end s)
  settle_final_lem succeeded spent none_queued = over_lem spent none_queued
  settle_final_lem canceled spent none_queued = over_lem spent none_queued
  settle_final_lem script_not_found spent none_queued = over_lem spent none_queued
  settle_final_lem failed spent none_queued = over_lem spent none_queued
  settle_final_lem exceeded_cpu spent none_queued = over_lem spent none_queued
  settle_final_lem unknown spent none_queued = over_lem spent none_queued

  settle_failed_lem :
      (abort : Bool)
      → IsEnd none true (leb alarm_retry_max_tries e.counted_retry) abort env r result e s (
          flow_of env r result s
            (settle_failed env r.actor result.retry_counts_against_limit at_end s₁))
  settle_failed_lem abort = elim (Bool-cases (leb alarm_retry_max_tries e.counted_retry)) [
    | inl spent ↦ rw (spent, settle_failed) (s₁, refl, set_entry-Has r.actor at_end s)
    | inr left ↦
        let counts : Bool = result.retry_counts_against_limit in
        let (x, is_x, early, late, low, high) =
          next_delay_lem random (backoff_before counts at_end) in
        rw (left, is_x, settle_failed)
          (
            _,
            refl,
            retried counts (now + x) at_end,
            set_entry-Has r.actor (retried counts (now + x) at_end) s₁,
            retried-IsRetried counts now x e (early, late, low, high),
          )
  ]

  settle_on_lem :
      (q : Option ℕ) (retry : Bool)
      → e.queued_alarm ≡ q
      → IsEnd q retry
          (leb alarm_retry_max_tries e.counted_retry)
          (is_aborted result.outcome)
          env
          r
          result
          e
          s
          (flow_of env r result s (settle_on q retry env r.actor result e s))
  settle_on_lem (some q) retry is_q =
      (_, refl, lookup-insert r.actor r.actor _ s.alarms ∙ rw (beq_refl r.actor))
  settle_on_lem none true is_q = settle_failed_lem (is_aborted result.outcome)
  settle_on_lem none false is_q =
      settle_final_lem result.outcome (leb alarm_retry_max_tries e.counted_retry) is_q

  -- When the handler is done and nothing refuses a write: a queued alarm is the next one, with a
  -- budget of its own; else a failed attempt is retried between 2 and 1280 seconds later, one rung up
  -- the ladder, or from its start if this attempt counts and the one before did not, and takes one
  -- attempt of the budget just if it says so; at the limit of six it is given up, as an aborted
  -- one is; any other alarm is over, in the table and in memory.
  pub finish_delivery_lem :
      current r s ≡ some e
      → IsEnd e.queued_alarm result.retry
          (leb alarm_retry_max_tries e.counted_retry)
          (is_aborted result.outcome)
          env
          r
          result
          e
          s
          (finish_delivery env r result s)
  unfolding finish_delivery
  finish_delivery_lem is_e = rw (is_e, finish_on) (settle_on_lem e.queued_alarm result.retry refl)
