-- ===== src/AlarmScheduler/Keeps.antt =====
-- src/server/alarm-scheduler.ts: the calls of the host keep what `IsSound` says.
use do_runtime.Common.{
  ℕ, ◌≡◌, refl, ap, false, Option, none, some, String, lookup, erase, string_eq, arith, ok,
}
use do_runtime.AlarmScheduler.{
  Row, Entry, AlarmStatus, waiting, started, finished, Scheduler, new_row, new_entry, set_alarm_at,
  set_alarm_on, set_alarm, drop_alarm_on, delete_alarm, store_alarm, running_of,
}
use do_runtime.AlarmScheduler.Fits.{
  IsEntryFit, IsPairFit, IsFit, IsSound, put_both, lose_row, lose_both, lose_row_only,
  IsFit-IsEntryFit,
}

pub new_entry-IsEntryFit : (n t : ℕ) → IsEntryFit (new_entry n t)
new_entry-IsEntryFit n t = record {
  backoff_within = omega arith;
  counted_within = omega arith;
  armed = λ e. refl;
}

pub new_entry-IsPairFit : (n t : ℕ) (r : Row) → r ≡ new_row t 0 → IsPairFit r (new_entry n t)
new_entry-IsPairFit n t r new = rw new (record {
  entry = new_entry-IsEntryFit n t;
  told = (refl, refl, refl, refl);
  flag = omega arith;
  quiet = λ e. refl;
  wake = λ e q. (t, refl, refl);
})

waiting_off :
    (o : Option Row) (e : Entry) → e.status ≡ waiting → IsFit o (some e) → running_of o ≡ 0
waiting_off none e waits fit = refl
waiting_off (some r) e waits fit = fit.quiet (fit.entry.armed waits)

queued-IsPairFit :
    (o : Option Row) (e : Entry) (t : ℕ)
    → IsFit o (some e)
    → IsPairFit (new_row t (running_of o)) (record e { queued_alarm = some t })
queued-IsPairFit none e t fit = record {
  entry = record {
    backoff_within = fit.backoff_within;
    counted_within = fit.counted_within;
    armed = fit.armed;
  };
  told = refl;
  flag = omega arith;
  quiet = λ x. refl;
  wake = λ x q. absurd (cc);
}
queued-IsPairFit (some r) e t fit = record {
  entry = record {
    backoff_within = fit.entry.backoff_within;
    counted_within = fit.entry.counted_within;
    armed = fit.entry.armed;
  };
  told = refl;
  flag = fit.flag;
  quiet = fit.quiet;
  wake = λ x q. absurd (cc);
}

no_row : (o : Option Row) → IsFit o none → o ≡ none
no_row none fit = refl
no_row (some r) fit = absurd fit

set_alarm_by :
    (st : AlarmStatus) (e : Entry) (a : String) (t : ℕ) (s : Scheduler)
    → e.status ≡ st
    → IsFit (lookup a s.rows) (some e)
    → IsSound s
    → IsSound (set_alarm_at st e a t (record s { rows = store_alarm a t s.rows }))
set_alarm_by waiting e a t s is_st fit w = put_both a s.rows s.alarms w _ _ (
    new_entry-IsPairFit s.next_number t _
      (ap (λ (x : ℕ). new_row t x) (waiting_off (lookup a s.rows) e is_st fit)))
set_alarm_by started e a t s is_st fit w =
    put_both a s.rows s.alarms w _ _ (queued-IsPairFit (lookup a s.rows) e t fit)
set_alarm_by finished e a t s is_st fit w =
    put_both a s.rows s.alarms w _ _ (queued-IsPairFit (lookup a s.rows) e t fit)

set_alarm_on-IsStored :
    (p : Option Entry) (a : String) (t : ℕ) (s : Scheduler)
    → lookup a s.alarms ≡ p
    → IsSound s
    → IsSound (set_alarm_on p a t (record s { rows = store_alarm a t s.rows }))
set_alarm_on-IsStored none a t s is_p w = put_both a s.rows s.alarms w _ _ (
    new_entry-IsPairFit s.next_number t _
      (rw (no_row (lookup a s.rows) (rw is_p at (w.fits a))) (refl)))
set_alarm_on-IsStored (some e) a t s is_p w =
    set_alarm_by e.status e a t s refl (rw is_p at (w.fits a)) w

-- `setAlarm`, if its write is stored, keeps the table and the memory in step: every row has an entry
-- that it describes, and every counter is one that a restart accepts.
pub set_alarm-IsSound :
    (a : String) (t : ℕ) (s : Scheduler)
    → IsSound s
    → (s' : Scheduler) × (set_alarm false a t s ≡ ok s') × IsSound s'
unfolding set_alarm
set_alarm-IsSound a t s w = (_, refl, set_alarm_on-IsStored (lookup a s.alarms) a t s refl w)

drop_by :
    (q : Option ℕ) (st : AlarmStatus) (e : Entry) (a : String) (s : Scheduler)
    → e.queued_alarm ≡ q
    → e.status ≡ st
    → lookup a s.alarms ≡ some e
    → IsEntryFit e
    → IsSound s
    → IsSound (drop_alarm_on (some e) a (record s { rows = erase a s.rows }))
drop_by (some q) started e a s is_q is_st is_e fit w =
    rw (is_q, is_st, drop_alarm_on)
      (lose_row a s.rows s.alarms w _ (record {
        backoff_within = fit.backoff_within;
        counted_within = fit.counted_within;
        armed = fit.armed;
      }))
drop_by (some q) waiting e a s is_q is_st is_e fit w =
    rw (is_q, is_st, drop_alarm_on)
      (lose_row a s.rows s.alarms w _ (new_entry-IsEntryFit s.next_number q))
drop_by (some q) finished e a s is_q is_st is_e fit w =
    rw (is_q, is_st, drop_alarm_on)
      (lose_row a s.rows s.alarms w _ (new_entry-IsEntryFit s.next_number q))
drop_by none started e a s is_q is_st is_e fit w =
    rw (is_q, is_st, drop_alarm_on) (lose_row_only a s.rows s.alarms w (some e) is_e fit)
drop_by none waiting e a s is_q is_st is_e fit w =
    rw (is_q, is_st, drop_alarm_on) (lose_both a s.rows s.alarms w)
drop_by none finished e a s is_q is_st is_e fit w =
    rw (is_q, is_st, drop_alarm_on) (lose_both a s.rows s.alarms w)

drop_alarm_on-IsStored :
    (p : Option Entry) (a : String) (s : Scheduler)
    → lookup a s.alarms ≡ p
    → IsSound s
    → IsSound (drop_alarm_on p a (record s { rows = erase a s.rows }))
drop_alarm_on-IsStored none a s is_p w = lose_row_only a s.rows s.alarms w none is_p tt
drop_alarm_on-IsStored (some e) a s is_p w =
    drop_by e.queued_alarm e.status e a s refl refl is_p
      (IsFit-IsEntryFit (lookup a s.rows) e (rw is_p at (w.fits a))) w

-- `deleteAlarm`, if its write is stored, keeps them in step, in every state of the alarm.
pub delete_alarm-IsSound :
    (a : String) (s : Scheduler)
    → IsSound s
    → (s' : Scheduler) × (delete_alarm false a s ≡ ok s') × IsSound s'
unfolding delete_alarm
delete_alarm-IsSound a s w = (_, refl, drop_alarm_on-IsStored (lookup a s.alarms) a s refl w)
