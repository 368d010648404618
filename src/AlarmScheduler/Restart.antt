-- ===== src/AlarmScheduler/Restart.antt =====
-- src/server/alarm-scheduler.ts: a scheduler over the rows that an earlier one has left.
mod Table
pub mod Rows
use mathlib.Core.Path.{subst}
use do_runtime.Common.{
  ℕ, ◌+◌, ◌≤◌, max, min, ◌≡◌, refl, sym, ap, ◌∙◌, Bool, true, false, Option, none, some, List, [],
  ◌∷◌, String, ◌==◌, Bool-cases, Option-cases, inl, inr, lookup, insert, string_eq, lookup-insert,
  beq_refl, IsDistinct, insert-IsDistinct, arith, ok, nat_beq, All, ◌>>=◌, ◌⊎◌, err,
}
use do_runtime.AlarmScheduler.{
  Row, Entry, PersistedAlarm, waiting, Scheduler, or_else, with_retry, resumed_entry, save_retry,
  update_row, put_entry, project,
}
use do_runtime.AlarmScheduler.Ladder.{
  Draw, next_delay_lem, alarm_retry_max_tries, retry_backoff_max,
}
use do_runtime.AlarmScheduler.Loading.{
  require_range, read_persisted_alarm, recovered, recover, resume, load_row, load_rows, opened,
  construct,
}
use do_runtime.AlarmScheduler.Fits.{
  is_armed, as_column, IsEntryFit, IsTold, IsPairFit, IsFit, IsSound, IsAt,
}
use do_runtime.AlarmScheduler.Restart.Rows.{IsReadable, IsRevived, IsRefused, load_row_lem}
use do_runtime.AlarmScheduler.Restart.Table.{
  load_rows_lem, lookup-IsReadable, all-IsPending, found-IsFit,
}

-- A scheduler that is rebuilt from the rows of a sound one throws only if a row tells of an
-- interrupted delivery and the write of a recovery is refused. Otherwise it is sound, and has an entry for each row and no
-- other. The entry has the time of the row and its count of attempts; it waits for the wake of the
-- row, or, if a delivery was interrupted, at least two seconds, as after an attempt that does not
-- count.
pub construct_lem :
    (now : ℕ) (random : ℕ → Draw) (refused : ℕ → Bool) (s : Scheduler)
    → IsSound s
    → ((s' : Scheduler) × (construct now random refused s.rows ≡ ok s')
        × IsSound s'
        × ((a : String) (r : Row)
            → lookup a s.rows ≡ some r
            → (e : Entry) × (lookup a s'.alarms ≡ some e) × IsRevived now r e)
        × ((a : String) → lookup a s.rows ≡ none → lookup a s'.alarms ≡ none))
      ⊎ IsRefused refused s.rows (construct now random refused s.rows)
unfolding construct
construct_lem now random refused s w =
    elim (load_rows_lem now random refused s.rows (opened s.rows) w.distinct
      (all-IsPending s.rows w.distinct (lookup-IsReadable s w))) [
        | inr (which, n, no_write, throws) ↦ inr (which, n, no_write, rw throws)
        | inl (s', is_s', loaded) ↦ inl (
          project s',
          rw is_s',
          record { fits = found-IsFit now s s' loaded; distinct = loaded.distinct w.distinct },
          (λ a r is_r.
              let (r', e, is_r', is_e, fit, revived) = loaded.found a r is_r in (e, is_e, revived)),
          λ a gone. (loaded.other a gone).1,
        )
      ]

-- The entries of a scheduler that was built.
built_rows :
    (now : ℕ) (random : ℕ → Draw) (refused : ℕ → Bool) (s s' : Scheduler)
    → IsSound s
    → construct now random refused s.rows ≡ ok s'
    → (a : String) (r : Row) → lookup a s.rows ≡ some r
    → (e : Entry) × (lookup a s'.alarms ≡ some e) × IsRevived now r e
built_rows now random refused s s' w built a r is_r = elim (construct_lem now random refused s w) [
  | inr (_, _, _, throws) ↦ absurd (cc (sym throws ∙ built))
  | inl (s₁, is_s₁, _, all_rows, _) ↦
      let same : ok s₁ ≡ ok s' = sym is_s₁ ∙ built in
      let same_state : s₁ ≡ s' = cc in
      let (e, is_e, revived) = all_rows a r is_r in
      (e, ap (λ (x : Scheduler). lookup a x.alarms) (sym same_state) ∙ is_e, revived)
]

-- The ladder of an alarm, as it stands.
pub record IsSameLadder (e e' : Entry) : Type 0 where
  pub scheduled : e'.scheduled_time ≡ e.scheduled_time
  pub backoff : e'.backoff ≡ e.backoff
  pub counted : e'.counted_retry ≡ e.counted_retry
  pub previous : e'.previous_retry_counted_against_limit ≡ e.previous_retry_counted_against_limit
  pub wake : (w : ℕ) × (e.wake_time ≡ some w) × (e'.wake_time ≡ some (max e.scheduled_time w))
  pub waits : e'.status ≡ waiting

-- A restart does not reset the ladder: an alarm that waits for its time or for a retry, with no
-- alarm queued behind it, comes back with the same time, counters and wake.
pub construct_ladder :
    (now : ℕ) (random : ℕ → Draw) (refused : ℕ → Bool) (s s' : Scheduler) (a : String) (r : Row)
    (e : Entry)
    → IsSound s
    → lookup a s.rows ≡ some r
    → lookup a s.alarms ≡ some e
    → is_armed e.task ≡ true
    → e.queued_alarm ≡ none
    → construct now random refused s.rows ≡ ok s'
    → (e' : Entry) × (lookup a s'.alarms ≡ some e') × IsSameLadder e e'
construct_ladder now random refused s s' a r e w is_r is_e armed none_queued built =
    let (e', is_e', revived) = built_rows now random refused s s' w built a r is_r in
    let fit : IsPairFit r e = rw (is_r, is_e) at (w.fits a) in
    let told : IsTold none r e = subst (λ q. IsTold q r e) none_queued fit.told in
    let (wake, is_wake, agree) = fit.wake armed none_queued in
    let (wakes, backoff, previous) = revived.calm (fit.quiet armed) in
    (
      e',
      is_e',
      record {
        scheduled = revived.scheduled ∙ told.0;
        backoff = backoff ∙ told.1;
        counted = revived.counted ∙ told.2;
        previous = previous ∙ ground (arith, told.3);
        wake = (wake, is_wake, wakes ∙ ap (λ (x : ℕ). some x) (sym agree));
        waits = revived.waits;
      },
    )
