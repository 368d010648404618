-- ===== src/AlarmScheduler/Deliver.antt =====
-- src/server/alarm-scheduler.ts: the pieces of a delivery keep what `IsSound` says.
use mathlib.Core.Path.{subst}
use do_runtime.Common.{
  ℕ, ◌+◌, ◌≡◌, refl, sym, ap, Bool, true, false, leb, none, some, String, lookup, string_eq, arith,
  Result, ok, err,
}
use do_runtime.AlarmScheduler.{
  AlarmError, Entry, Scheduler, new_entry, set_alarm, delete_alarm, set_running, with_retry,
}
use do_runtime.AlarmScheduler.Ladder.{alarm_retry_max_tries}
use do_runtime.AlarmScheduler.Delivery.{
  Flow, done, abandoning, run_queued, backoff_before, counted_after, retried, save_and_arm, ended,
}
use do_runtime.AlarmScheduler.Fits.{IsEntryFit, IsTold, IsPairFit, IsFit, IsSound, put_updated}
use do_runtime.AlarmScheduler.Keeps.{
  new_entry-IsEntryFit, new_entry-IsPairFit, set_alarm-IsSound, delete_alarm-IsSound,
}

-- A piece that may throw leaves things in step if it does not.
abbrev pub IsKept : Result AlarmError Scheduler → Type 0
IsKept (ok s) = IsSound s
IsKept (err _) = Unit

pub set_alarm-IsKept :
    (refused : Bool) (a : String) (t : ℕ) (s : Scheduler)
    → IsSound s
    → IsKept (set_alarm refused a t s)
unfolding set_alarm
set_alarm-IsKept true a t s w = tt
set_alarm-IsKept false a t s w =
    let (s', is_s', sound) = set_alarm-IsSound a t s w in subst IsKept (sym is_s') sound

pub delete_alarm-IsKept :
    (refused : Bool) (a : String) (s : Scheduler) → IsSound s → IsKept (delete_alarm refused a s)
unfolding delete_alarm
delete_alarm-IsKept true a s w = tt
delete_alarm-IsKept false a s w =
    let (s', is_s', sound) = delete_alarm-IsSound a s w in subst IsKept (sym is_s') sound

pub run_queued-IsKept :
    (refused : Bool) (a : String) (q : ℕ) (e : Entry) (s : Scheduler)
    → lookup a s.alarms ≡ some e
    → e.queued_alarm ≡ some q
    → IsSound s
    → IsKept (run_queued refused a q s)
run_queued-IsKept true a q e s is_e is_q w = tt
run_queued-IsKept false a q e s is_e is_q w =
    put_updated a s.rows s.alarms w (set_running 0) (new_entry s.next_number q)
      (new_entry-IsEntryFit s.next_number q)
      (λ r is_r.
        let fit : IsPairFit r e =
          rw is_r at (subst (λ p. IsFit (lookup a s.rows) p) is_e (w.fits a)) in
        let told : IsTold (some q) r e = subst (λ x. IsTold x r e) is_q fit.told in
        new_entry-IsPairFit s.next_number q (set_running 0 r) (ap (set_running 0) told))

abbrev pub IsFlowKept : Result AlarmError Flow → Type 0
IsFlowKept (ok (done s)) = IsSound s
IsFlowKept (ok (abandoning s)) = IsSound s
IsFlowKept (err _) = Unit

pub ended-IsFlowKept : (x : Result AlarmError Scheduler) → IsKept x → IsFlowKept (ended x)
ended-IsFlowKept (ok s) h = h
ended-IsFlowKept (err e) h = tt

retried-IsEntryFit :
    (counts : Bool) (time : ℕ) (e : Entry)
    → leb alarm_retry_max_tries e.counted_retry ≡ false
    → IsEntryFit (retried counts time e)
retried-IsEntryFit counts time e left = record {
  backoff_within = omega arith;
  counted_within = ground arith;
  armed = λ x. refl;
}

pub save_and_arm-IsKept :
    (refused counts : Bool) (time : ℕ) (a : String) (e : Entry) (s : Scheduler)
    → lookup a s.alarms ≡ some e
    → e.queued_alarm ≡ none
    → leb alarm_retry_max_tries e.counted_retry ≡ false
    → IsSound s
    → IsKept (save_and_arm refused time a counts e s)
save_and_arm-IsKept true counts time a e s is_e is_q left w = tt
save_and_arm-IsKept false counts time a e s is_e is_q left w =
    put_updated a s.rows s.alarms w
      (with_retry time (backoff_before counts e + 1) (counted_after counts e) counts)
      (retried counts time e) (retried-IsEntryFit counts time e left)
      (λ r is_r.
        let fit : IsPairFit r e =
          rw is_r at (subst (λ p. IsFit (lookup a s.rows) p) is_e (w.fits a)) in
        let told : IsTold none r e = subst (λ x. IsTold x r e) is_q fit.told in
        record {
          entry = retried-IsEntryFit counts time e left;
          told =
              subst
                (λ x.
                  IsTold x
                    (with_retry time (backoff_before counts e + 1) (counted_after counts e) counts
                      r)
                    (retried counts time e))
                (sym is_q) (told.0, refl, refl, refl);
          flag = omega arith;
          quiet = λ x. refl;
          wake = λ x y. (time, refl, rw told.0);
        })
