-- ===== src/Examples/AlarmSchedulerRuns.antt =====
-- src/server/alarm-scheduler.ts: one actor's alarm, set, started, failed, and loaded again.
use mathlib.Core.Path.{subst}
use do_runtime.Common.{
  ℕ, ◌*◌, ◌^◌, ◌≤◌, min, leb, ◌≡◌, refl, sym, ap, ◌∙◌, String, true, false, none, some, [], Result,
  ok, err, lookup, insert, string_eq, ◌⊎◌, inl, inr,
}
use do_runtime.AlarmScheduler.{
  AlarmError, write_refused, AlarmResult, failed, Scheduler, Entry, Row, new_entry, new_row,
  set_alarm,
}
use do_runtime.AlarmScheduler.Ladder.{
  Draw, next_delay, next_delay_lem, retry_backoff_max, alarm_retry_max_tries,
}
use do_runtime.AlarmScheduler.Delivery.{Run, Env, begin_delivery, finish_delivery}
use do_runtime.AlarmScheduler.Loading.{opened, construct, load_rows, load_row, read_persisted_alarm}
use do_runtime.AlarmScheduler.Fits.{IsSound}
use do_runtime.AlarmScheduler.Keeps.{set_alarm-IsSound}
use do_runtime.AlarmScheduler.Calls.{
  setting, waking, ending, call, Reach, empty, called, Reach-IsSound,
}
use do_runtime.AlarmScheduler.Begin.{begin_delivery-IsSound}
use do_runtime.AlarmScheduler.Budget.{IsEnd, is_aborted, finish_delivery_lem}
use do_runtime.AlarmScheduler.Restart.{IsSameLadder, construct_lem, construct_ladder}
use do_runtime.AlarmScheduler.Restart.Rows.{IsRevived, IsRefused}

abbrev nothing : Scheduler
nothing = opened []

nothing-IsSound : IsSound nothing
nothing-IsSound = record { fits = λ a. tt; distinct = tt }

nothing_set : (s' : Scheduler) × (set_alarm false "a" 5000 nothing ≡ ok s') × IsSound s'
nothing_set = set_alarm-IsSound "a" 5000 nothing nothing-IsSound

abbrev scheduler_of : Result AlarmError Scheduler → Scheduler
scheduler_of (ok s) = s
scheduler_of (err e) = nothing

-- One alarm is set.
abbrev one : Scheduler
one = scheduler_of (set_alarm false "a" 5000 nothing)

one-IsSound : IsSound one
one-IsSound =
    let (s', is_s', sound) = nothing_set in subst (λ x. IsSound (scheduler_of x)) (sym is_s') sound

one_row : lookup "a" one.rows ≡ some (new_row 5000 0)
unfolding set_alarm insert
one_row = refl

one_entry : lookup "a" one.alarms ≡ some (new_entry 0 5000)
unfolding set_alarm insert
one_entry = refl

abbrev half : Draw
half = record { part = 1; whole = 2 }

next_delay_example :
    (x : ℕ) × (next_delay half 12 ≡ ok x)
    × (2000 * 2 ^ min retry_backoff_max 12 ≤ x)
    × (4 * x ≤ 5 * (2000 * 2 ^ min retry_backoff_max 12))
    × (2000 ≤ x)
    × (x ≤ 1280000)
next_delay_example = next_delay_lem half 12

-- Its wake comes, and its handler fails.
abbrev env_at : ℕ → Env
env_at now = record { now = now; random = half; refused = false; refused_again = false }

abbrev begun : Scheduler
begun = begin_delivery (env_at 5001) "a" 0 one

begun-IsSound : IsSound begun
begun-IsSound = begin_delivery-IsSound (env_at 5001) "a" 0 one one-IsSound

abbrev failing : AlarmResult
failing = record { retry = true; retry_counts_against_limit = true; outcome = failed }

abbrev the_run : Run
the_run = record { actor = "a"; number = 0; scheduled_time = 5000; bookkeeping_backoff = 0 }

-- The alarm is set, its handler fails, and the worker dies before the next try.
abbrev failed_once : Scheduler
failed_once =
    call (ending (env_at 6000) the_run failing)
      (call (waking (env_at 5001) "a" 0) (call (setting false "a" 5000) nothing))

abbrev failed_once-Reach : Reach failed_once
failed_once-Reach =
    called (ending (env_at 6000) the_run failing) _
      (called (waking (env_at 5001) "a" 0) _ (called (setting false "a" 5000) nothing empty))

Reach-IsSound_example : IsSound failed_once
Reach-IsSound_example = Reach-IsSound failed_once failed_once-Reach

finish_delivery_example :
    IsEnd none true
      (leb alarm_retry_max_tries 0)
      (is_aborted failed)
      (env_at 6000)
      the_run
      failing
      (new_entry 0 5000)
      one
      (finish_delivery (env_at 6000) the_run failing one)
unfolding set_alarm insert
finish_delivery_example =
    finish_delivery_lem 6000 half false the_run failing (new_entry 0 5000) one refl

-- A worker that dies in between leaves its rows to the next.
construct_example :
    ((s' : Scheduler) × (construct 8000 (λ _. half) (λ _. false) begun.rows ≡ ok s')
      × IsSound s'
      × ((a : String) (r : Row)
          → lookup a begun.rows ≡ some r
          → (e : Entry) × (lookup a s'.alarms ≡ some e) × IsRevived 8000 r e)
      × ((a : String) → lookup a begun.rows ≡ none → lookup a s'.alarms ≡ none))
    ⊎ IsRefused (λ _. false) begun.rows (construct 8000 (λ _. half) (λ _. false) begun.rows)
construct_example = construct_lem 8000 (λ _. half) (λ _. false) begun begun-IsSound

-- The write of its recovery is refused.
refused_recovery : construct 8000 (λ _. half) (λ _. true) begun.rows ≡ err write_refused
unfolding set_alarm insert begin_delivery construct load_rows load_row read_persisted_alarm
    next_delay
refused_recovery = refl

abbrev rebuilt : Scheduler
rebuilt = scheduler_of (construct 3000 (λ _. half) (λ _. false) one.rows)

rebuilt_built : construct 3000 (λ _. half) (λ _. false) one.rows ≡ ok rebuilt
rebuilt_built = elim (construct_lem 3000 (λ _. half) (λ _. false) one one-IsSound) [
  | inr (_, _, never, _) ↦ absurd (cc)
  | inl (s', is_s', _, _, _) ↦
      is_s' ∙ ap (λ (x : Result AlarmError Scheduler). ok (scheduler_of x)) (sym is_s')
]

construct_ladder_example :
    (e' : Entry) × (lookup "a" rebuilt.alarms ≡ some e') × IsSameLadder (new_entry 0 5000) e'
construct_ladder_example =
    construct_ladder 3000 (λ _. half) (λ _. false) one rebuilt "a" (new_row 5000 0)
      (new_entry 0 5000) one-IsSound one_row one_entry refl refl rebuilt_built
