-- ===== src/AlarmScheduler/Begin.antt =====
-- src/server/alarm-scheduler.ts: a wake and the start of a delivery keep what `IsSound` says.
use mathlib.Core.Path.{subst}
use do_runtime.Common.{
  ℕ, ◌≡◌, ◌≢◌, refl, sym, ap, ◌∙◌, Bool, true, false, ◌&&◌, leb, Option, none, some, String,
  Bool-cases, Option-cases, inl, inr, lookup, string_eq, arith, nat_beq,
}
use do_runtime.AlarmScheduler.{
  Row, Entry, Task, AlarmStatus, AlarmResult, waiting, started, finished, Scheduler, set_running,
}
use do_runtime.AlarmScheduler.Ladder.{next_delay, next_delay_lem}
use do_runtime.AlarmScheduler.Delivery.{
  Run, Env, current, current_of, task_failed, task_failed_on, retry_later, run_of, start_handler,
  begin_task, begin_on, begin_delivery,
}
use do_runtime.AlarmScheduler.Fits.{
  is_armed, IsEntryFit, IsTold, IsPairFit, IsFit, IsSound, put_entry_only, put_updated,
  IsFit-IsEntryFit,
}

-- An entry that stops waiting for its wake, or goes back to its bookkeeping.
rest-IsFit :
    (o : Option Row) (e : Entry) (st : AlarmStatus) (wake : Option ℕ) (task : Option Task)
    → st ≢ waiting
    → is_armed task ≡ false
    → IsFit o (some e)
    → IsFit o (some (record e { status = st; wake_time = wake; task = task }))
rest-IsFit none e st wake task busy off fit = record {
  backoff_within = fit.backoff_within;
  counted_within = fit.counted_within;
  armed = λ x. absurd (busy x);
}
rest-IsFit (some r) e st wake task busy off fit = record {
  entry = record {
    backoff_within = fit.entry.backoff_within;
    counted_within = fit.entry.counted_within;
    armed = λ x. absurd (busy x);
  };
  told = told_as e.queued_alarm fit.told;
  flag = fit.flag;
  quiet = λ x. absurd (cc);
  wake = λ x y. absurd (cc);
}
  where
    told_as :
        (q : Option ℕ)
        → IsTold q r e
        → IsTold q r (record e { status = st; wake_time = wake; task = task })
    told_as none h = h
    told_as (some x) h = h

-- The result is known, or the wake still calls the handler: only the status and the task change.
pub later-IsFit :
    (o : Option Row) (e : Entry) (st : AlarmStatus) (task : Option Task)
    → (st ≡ waiting → is_armed task ≡ true)
    → (is_armed task ≡ true → is_armed e.task ≡ true)
    → IsFit o (some e)
    → IsFit o (some (record e { status = st; task = task }))
later-IsFit none e st task arms keeps fit = record {
  backoff_within = fit.backoff_within;
  counted_within = fit.counted_within;
  armed = arms;
}
later-IsFit (some r) e st task arms keeps fit = record {
  entry = record {
    backoff_within = fit.entry.backoff_within;
    counted_within = fit.entry.counted_within;
    armed = arms;
  };
  told = told_as e.queued_alarm fit.told;
  flag = fit.flag;
  quiet = λ x. fit.quiet (keeps x);
  wake = λ x y. fit.wake (keeps x) y;
}
  where
    told_as : (q : Option ℕ) → IsTold q r e → IsTold q r (record e { status = st; task = task })
    told_as none h = h
    told_as (some x) h = h

pub current_lem : (p : Option Entry) (n : ℕ) (e : Entry) → current_of p n ≡ some e → p ≡ some e
current_lem none n e h = cc
current_lem (some x) n e h = elim (Bool-cases (nat_beq x.number n)) [
  | inl same ↦ rw same at h
  | inr differ ↦ let gone : none ≡ some e = rw differ at h in absurd (cc)
]

module _ (env : Env) (r : Run) (s : Scheduler) (w : IsSound s) where
  pub lookup-IsFit :
      (e : Entry) → lookup r.actor s.alarms ≡ some e → IsFit (lookup r.actor s.rows) (some e)
  lookup-IsFit e is_e = subst (λ p. IsFit (lookup r.actor s.rows) p) is_e (w.fits r.actor)

  later-IsStored :
      (result : Option AlarmResult) (e : Entry)
      → lookup r.actor s.alarms ≡ some e
      → (result ≡ none → is_armed e.task ≡ true)
      → IsSound (retry_later env r result (next_delay env.random r.bookkeeping_backoff) e s)
  later-IsStored none e is_e arms =
      let (x, is_x, _, _, _, _) = next_delay_lem env.random r.bookkeeping_backoff in
      rw (is_x, retry_later)
        (put_entry_only r.actor s.rows s.alarms w _ (
          later-IsFit (lookup r.actor s.rows) e waiting _ (λ _. refl) (λ _. arms refl)
            (lookup-IsFit e is_e)))
  later-IsStored (some result) e is_e arms =
      let (x, is_x, _, _, _, _) = next_delay_lem env.random r.bookkeeping_backoff in
      rw (is_x, retry_later)
        (put_entry_only r.actor s.rows s.alarms w _ (
          later-IsFit (lookup r.actor s.rows) e finished _ (λ y. absurd (cc)) (λ y. absurd (cc))
            (lookup-IsFit e is_e)))

  task_failed-IsSound :
      (result : Option AlarmResult)
      → ((e : Entry) → lookup r.actor s.alarms ≡ some e → result ≡ none → is_armed e.task ≡ true)
      → IsSound (task_failed env r result s)
  task_failed-IsSound result arms = elim (Option-cases (current r s)) [
    | inl gone ↦ rw (gone, task_failed_on) w
    | inr (e, is_e) ↦
        let here = current_lem (lookup r.actor s.alarms) r.number e is_e in
        rw (is_e, task_failed_on) (later-IsStored result e here (arms e here))
  ]

  pub known_failed-IsSound : (result : AlarmResult) → IsSound (task_failed env r (some result) s)
  known_failed-IsSound result = task_failed-IsSound (some result) (λ e is_e h. absurd (cc))

start_handler-IsSound :
    (refused : Bool) (env : Env) (a : String) (e : Entry) (task : Task) (s : Scheduler)
    → is_armed e.task ≡ true
    → lookup a s.alarms ≡ some e
    → IsSound s
    → IsSound (start_handler refused env (run_of a e task) e s)
start_handler-IsSound true env a e task s armed is_e w =
    task_failed-IsSound env (run_of a e task) s w none (λ x is_x h.
      let same : some e ≡ some x = sym is_e ∙ is_x in
      let same_entry : e ≡ x = cc in subst (λ (y : Entry). is_armed y.task ≡ true) same_entry armed)
start_handler-IsSound false env a e task s armed is_e w =
    put_updated a s.rows s.alarms w (set_running 1) _
      (begun (IsFit-IsEntryFit (lookup a s.rows) e (lookup-IsFit env (run_of a e task) s w e is_e)))
      (λ r is_r.
        let fit : IsPairFit r e = rw is_r at (lookup-IsFit env (run_of a e task) s w e is_e) in
        record {
          entry = begun fit.entry;
          told = told_as e.queued_alarm r fit.told;
          flag = omega arith;
          quiet = λ x. absurd (cc);
          wake = λ x y. absurd (cc);
        })
  where
    begun : IsEntryFit e → IsEntryFit (record e { status = started; wake_time = none; task = none })
    begun fit = record {
      backoff_within = fit.backoff_within;
      counted_within = fit.counted_within;
      armed = λ x. absurd (cc);
    }

    told_as :
        (q : Option ℕ) (r : Row)
        → IsTold q r e
        → IsTold q (set_running 1 r) (record e { status = started; wake_time = none; task = none })
    told_as none r h = h
    told_as (some x) r h = ap (set_running 1) h

begin_task-IsSound :
    (completed : Option AlarmResult) (env : Env) (a : String) (e : Entry) (task : Task)
    (s : Scheduler)
    → task.completed ≡ completed
    → e.task ≡ some task
    → lookup a s.alarms ≡ some e
    → IsSound s
    → IsSound (begin_task completed env (run_of a e task) e s)
begin_task-IsSound (some result) env a e task s is_c is_t is_e w =
    put_entry_only a s.rows s.alarms w _ (
      later-IsFit (lookup a s.rows) e e.status none
        (λ waits.
          let armed =
            (IsFit-IsEntryFit (lookup a s.rows) e
                (lookup-IsFit env (run_of a e task) s w e is_e)).armed
              waits in
          absurd (ground (arith, is_t, is_c, armed)))
        (λ x. absurd (cc)) (lookup-IsFit env (run_of a e task) s w e is_e))
begin_task-IsSound none env a e task s is_c is_t is_e w =
    start_handler-IsSound env.refused env a e task s (rw (is_t, is_c)) is_e w

begin_on-IsSound :
    (p : Option Entry) (n : ℕ) (env : Env) (a : String) (s : Scheduler)
    → lookup a s.alarms ≡ p
    → IsSound s
    → IsSound (begin_on p n env a s)
begin_on-IsSound none n env a s is_p w = w
begin_on-IsSound (some e) n env a s is_p w = elim (Option-cases e.task) [
  | inl idle ↦ rw (idle, begin_on) w
  | inr (task, is_t) ↦ elim (Bool-cases (nat_beq e.number n && leb e.scheduled_time env.now)) [
    | inl due ↦
        rw (is_t, due, begin_on) (begin_task-IsSound task.completed env a e task s refl is_t is_p w)
    | inr early ↦ rw (is_t, early, begin_on) w
  ]
]

-- A wake keeps the table and the memory in step, whether its mark is written or refused.
pub begin_delivery-IsSound :
    (env : Env) (a : String) (n : ℕ) (s : Scheduler)
    → IsSound s
    → IsSound (begin_delivery env a n s)
unfolding begin_delivery
begin_delivery-IsSound env a n s w = begin_on-IsSound (lookup a s.alarms) n env a s refl w
