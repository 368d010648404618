-- ===== src/AlarmScheduler/Finish.antt =====
-- src/server/alarm-scheduler.ts: the end of a delivery keeps what `IsSound` says.
use do_runtime.Common.{
  ℕ, ◌+◌, ◌≡◌, refl, sym, ap, ◌∙◌, Bool, true, false, leb, Option, none, some, String, Bool-cases,
  Option-cases, inl, inr, lookup, lookup-insert, beq_refl, string_eq, arith, Result, ok, err,
}
use do_runtime.AlarmScheduler.{
  AlarmError, Entry, AlarmResult, EventOutcome, succeeded, canceled, script_not_found, failed,
  aborted, exceeded_cpu, unknown, finished, Scheduler, set_alarm, delete_alarm, set_entry,
}
use do_runtime.AlarmScheduler.Ladder.{next_delay_lem, alarm_retry_max_tries}
use do_runtime.AlarmScheduler.Delivery.{
  Run, Env, Flow, done, abandoning, current, run_queued, backoff_before, save_and_arm,
  settle_failed, settle_final, settle_on, settle, flow_of, finish_on, finish_delivery,
  close_or_fail, queued_of, promote, promote_queued, promote_after, newer_of, take_newer,
  abandoned_on, finish_abandon,
}
use do_runtime.AlarmScheduler.Fits.{IsSound, put_entry_only}
use do_runtime.AlarmScheduler.Deliver.{
  IsKept, set_alarm-IsKept, delete_alarm-IsKept, run_queued-IsKept, IsFlowKept, ended-IsFlowKept,
  save_and_arm-IsKept,
}
use do_runtime.AlarmScheduler.Begin.{later-IsFit, current_lem, lookup-IsFit, known_failed-IsSound}

abbrev pub state_of : Flow → Scheduler
state_of (done s) = s
state_of (abandoning s) = s

settle_final-IsFlowKept :
    (outcome : EventOutcome) (env : Env) (a : String) (s : Scheduler)
    → IsSound s
    → IsFlowKept (settle_final env a outcome s)
settle_final-IsFlowKept aborted env a s w = w
settle_final-IsFlowKept succeeded env a s w =
    ended-IsFlowKept (delete_alarm env.refused a s) (delete_alarm-IsKept env.refused a s w)
settle_final-IsFlowKept canceled env a s w =
    ended-IsFlowKept (delete_alarm env.refused a s) (delete_alarm-IsKept env.refused a s w)
settle_final-IsFlowKept script_not_found env a s w =
    ended-IsFlowKept (delete_alarm env.refused a s) (delete_alarm-IsKept env.refused a s w)
settle_final-IsFlowKept failed env a s w =
    ended-IsFlowKept (delete_alarm env.refused a s) (delete_alarm-IsKept env.refused a s w)
settle_final-IsFlowKept exceeded_cpu env a s w =
    ended-IsFlowKept (delete_alarm env.refused a s) (delete_alarm-IsKept env.refused a s w)
settle_final-IsFlowKept unknown env a s w =
    ended-IsFlowKept (delete_alarm env.refused a s) (delete_alarm-IsKept env.refused a s w)

settle_failed-IsFlowKept :
    (env : Env) (a : String) (counts : Bool) (e : Entry) (s : Scheduler)
    → lookup a s.alarms ≡ some e
    → e.queued_alarm ≡ none
    → IsSound s
    → IsFlowKept (settle_failed env a counts e s)
settle_failed-IsFlowKept env a counts e s is_e is_q w =
    elim (Bool-cases (leb alarm_retry_max_tries e.counted_retry)) [
      | inl spent ↦ rw (spent, settle_failed) w
      | inr left ↦
          let (x, is_x, _, _, _, _) = next_delay_lem env.random (backoff_before counts e) in
          rw (left, is_x, settle_failed)
            (ended-IsFlowKept (save_and_arm env.refused (env.now + x) a counts e s)
              (save_and_arm-IsKept env.refused counts (env.now + x) a e s is_e is_q left w))
    ]

module _ (env : Env) (r : Run) (result : AlarmResult) (e : Entry) (s : Scheduler) where
  finished-IsSound :
      lookup r.actor s.alarms ≡ some e
      → IsSound s
      → IsSound (set_entry r.actor (record e { status = finished }) s)
  finished-IsSound is_e w = put_entry_only r.actor s.rows s.alarms w _ (
      later-IsFit (lookup r.actor s.rows) e finished e.task (λ x. absurd (cc)) (λ x. x)
        (lookup-IsFit env r s w e is_e))

  settle_on-IsFlowKept :
      (q : Option ℕ) (retry : Bool)
      → e.queued_alarm ≡ q
      → lookup r.actor s.alarms ≡ some e
      → IsSound s
      → IsFlowKept (settle_on q retry env r.actor result e s)
  settle_on-IsFlowKept (some q) retry is_q is_e w =
      ended-IsFlowKept (run_queued env.refused r.actor q s)
        (run_queued-IsKept env.refused r.actor q e s is_e is_q w)
  settle_on-IsFlowKept none true is_q is_e w =
      settle_failed-IsFlowKept env r.actor result.retry_counts_against_limit
        (record e { status = finished }) (set_entry r.actor (record e { status = finished }) s)
        (lookup-insert r.actor r.actor _ s.alarms ∙ rw (beq_refl r.actor)) is_q
        (finished-IsSound is_e w)
  settle_on-IsFlowKept none false is_q is_e w =
      settle_final-IsFlowKept result.outcome env r.actor
        (set_entry r.actor (record e { status = finished }) s) (finished-IsSound is_e w)

flow_of-IsSound :
    (env : Env) (r : Run) (result : AlarmResult) (s : Scheduler) (x : Result AlarmError Flow)
    → IsSound s
    → IsFlowKept x
    → IsSound (state_of (flow_of env r result s x))
flow_of-IsSound env r result s (ok (done s')) w kept = kept
flow_of-IsSound env r result s (ok (abandoning s')) w kept = kept
flow_of-IsSound env r result s (err e) w kept = known_failed-IsSound env r s w result

-- The end of a delivery keeps the table and the memory in step on every branch: a queued alarm, a
-- retry, an alarm that is given up or done, an entry that is gone, and a write that is refused.
pub finish_delivery-IsSound :
    (env : Env) (r : Run) (result : AlarmResult) (s : Scheduler)
    → IsSound s
    → IsSound (state_of (finish_delivery env r result s))
unfolding finish_delivery
finish_delivery-IsSound env r result s w = elim (Option-cases (current r s)) [
  | inl gone ↦ rw (gone, finish_on) w
  | inr (e, is_e) ↦
      rw (is_e, finish_on)
        (flow_of-IsSound env r result s (settle env r.actor result e s) w (
          settle_on-IsFlowKept env r result e s e.queued_alarm result.retry refl
            (current_lem (lookup r.actor s.alarms) r.number e is_e) w))
]

module _ (env : Env) (r : Run) (result : AlarmResult) where
  close_or_fail-IsSound :
      (s : Scheduler) (x : Result AlarmError Scheduler)
      → IsSound s
      → IsKept x
      → IsSound (close_or_fail env r result s x)
  close_or_fail-IsSound s (ok s') w kept = kept
  close_or_fail-IsSound s (err e) w kept = known_failed-IsSound env r s w result

  promote-IsKept :
      (q : Option ℕ) (s : Scheduler)
      → queued_of (current r s) ≡ q
      → IsSound s
      → IsKept (promote q env r s)
  promote-IsKept none s is_q w = delete_alarm-IsKept env.refused_again r.actor s w
  promote-IsKept (some q) s is_q w = elim (Option-cases (current r s)) [
    | inl gone ↦ absurd (ground (arith, gone))
    | inr (e, is_e) ↦
        run_queued-IsKept env.refused_again r.actor q e s
          (current_lem (lookup r.actor s.alarms) r.number e is_e) (sym (ap queued_of is_e) ∙ is_q) w
  ]

  promote_queued-IsSound : (s : Scheduler) → IsSound s → IsSound (promote_queued env r result s)
  promote_queued-IsSound s w =
      close_or_fail-IsSound s (promote (queued_of (current r s)) env r s) w
        (promote-IsKept (queued_of (current r s)) s refl w)

  promote_after-IsSound :
      (s : Scheduler) (x : Result AlarmError Scheduler)
      → IsSound s
      → IsKept x
      → IsSound (promote_after env r result s x)
  promote_after-IsSound s (ok s') w kept = promote_queued-IsSound s' kept
  promote_after-IsSound s (err e) w kept = known_failed-IsSound env r s w result

  take_newer-IsSound :
      (newer : Option ℕ) (s : Scheduler) → IsSound s → IsSound (take_newer newer env r result s)
  take_newer-IsSound none s w = promote_queued-IsSound s w
  take_newer-IsSound (some t) s w =
      promote_after-IsSound s (set_alarm env.refused r.actor t s) w
        (set_alarm-IsKept env.refused r.actor t s w)

  -- The end of an abandonment keeps them in step, whatever the actor answers and whichever write is
  -- refused.
  pub finish_abandon-IsSound :
      (reply : Option (Option ℕ)) (s : Scheduler)
      → IsSound s
      → IsSound (finish_abandon env r result reply s)
  unfolding finish_abandon
  finish_abandon-IsSound none s w = known_failed-IsSound env r s w result
  finish_abandon-IsSound (some newer) s w = elim (Option-cases (current r s)) [
    | inl gone ↦ rw (gone, abandoned_on) w
    | inr (e, is_e) ↦
        rw (is_e, abandoned_on) (take_newer-IsSound (newer_of e.queued_alarm newer) s w)
  ]
