-- ===== src/ActorContainer/Delivery.antt =====
-- What a delivery tells the scheduler agrees with what it leaves in the database.
use mathlib.Core.Path.{subst}
use do_runtime.Common.{
  ℕ, ◌≡◌, refl, sym, ap, ◌∙◌, append-nil, arith, true, false, Option, none, some, List, [], ◌∷◌,
  ◌++◌, if◌then◌else◌,
}
use do_runtime.AlarmScheduler.{AlarmResult}
use do_runtime.AlarmScheduler.Delivery.{is_ok}
use do_runtime.ActorSqlite.Scheduling.{Alarms}
use do_runtime.ActorSqlite.Handler.{
  Slot, maybe_delete_deferred_alarm, HandlerCall, setting, failing, run_calls,
}
use do_runtime.ActorSqlite.Handler.Runs.{last_set, left_behind, run_calls-left_behind}
use do_runtime.ActorContainer.{
  constructed, Failure, Course, run_handler, deliver_armed, deliver_alarm,
}

-- The ends of a delivery as calls behind those of the handler.
abbrev ends : Option Failure → List HandlerCall
ends none = []
ends (some f) = failing ∷ []

run_calls-append :
    (cs ds : List HandlerCall) (s : Slot) → run_calls (cs ++ ds) s ≡ run_calls ds (run_calls cs s)
run_calls-append [] ds s = refl
run_calls-append (c ∷ cs) ds s = run_calls-append cs ds _

last_set-failed :
    (cs : List HandlerCall) (ds : List HandlerCall) (t : Option ℕ)
    → ((u : Option ℕ) → last_set ds u ≡ u)
    → last_set (cs ++ ds) t ≡ last_set cs t
last_set-failed [] ds t none_set = none_set t
last_set-failed (setting u ∷ cs) ds t none_set = last_set-failed cs ds u none_set
last_set-failed (failing ∷ cs) ds t none_set = last_set-failed cs ds t none_set

left_behind-failed :
    (cs : List HandlerCall) (ds : List HandlerCall) (t : Option ℕ)
    → ((u : Option ℕ) → last_set ds u ≡ u)
    → left_behind (cs ++ failing ∷ ds) t ≡ last_set cs t
left_behind-failed [] ds t none_set = none_set t
left_behind-failed (setting u ∷ cs) ds t none_set = last_set-failed cs (failing ∷ ds) u none_set
left_behind-failed (failing ∷ cs) ds t none_set = last_set-failed cs (failing ∷ ds) t none_set

abbrev course : List HandlerCall → Option Failure → Option Failure → Course
course cs run_end locks_end = record {
  calls = cs;
  run_end = run_end;
  locks_end = locks_end;
  storage_broken = false;
}

-- The handler's calls and the ends of the delivery, as one run of the storage.
as_run :
    (cs : List HandlerCall) (run_end locks_end : Option Failure) (s : Slot)
    → (run_handler (course cs run_end locks_end) s).1
      ≡ run_calls (cs ++ (ends run_end ++ ends locks_end)) s
as_run cs none none s = sym (run_calls-append cs [] s)
as_run cs none (some g) s = sym (run_calls-append cs (failing ∷ []) s)
as_run cs (some f) none s = sym (run_calls-append cs (failing ∷ []) s)
as_run cs (some f) (some g) s = sym (run_calls-append cs (failing ∷ failing ∷ []) s)

left_over :
    (cs : List HandlerCall) (run_end locks_end : Option Failure) (s : Slot) (t : Option ℕ)
    → left_behind (cs ++ (ends run_end ++ ends locks_end)) t ≡ (
        if is_ok (run_handler (course cs run_end locks_end) s).0.outcome
        then left_behind cs t
        else last_set cs t)
left_over cs none none s t = ap (λ (x : List HandlerCall). left_behind x t) (append-nil cs)
left_over cs none (some g) s t = ground (arith, left_behind-failed cs [] t (λ u. refl))
left_over cs (some f) none s t = ground (arith, left_behind-failed cs [] t (λ u. refl))
left_over cs (some f) (some g) s t =
    ground (arith, left_behind-failed cs (failing ∷ []) t (λ u. refl))

-- A result, and the alarm that is left.
pub record Agrees (cs : List HandlerCall) (a : ℕ) (x : Option AlarmResult × Slot) : Type 0 where
  pub result : AlarmResult
  pub reported : x.0 ≡ some result
  pub left :
      x.1.stored ≡ (if is_ok result.outcome then left_behind cs (some a) else last_set cs (some a))
  pub idle : x.1.alarms.in_alarm_handler ≡ false

-- The stored alarm is delivered to a class with a handler, whatever calls it makes, and the storage is
-- not broken at the end: there is a result, no handler is running, and if the result is ok the alarm
-- is gone but for one that was set; else, a failed output lock included, the alarm is still there
-- for the retry, or the one that was set.
pub deliver_alarm-Agrees :
    (cs : List HandlerCall) (run_end locks_end : Option Failure) (a now : ℕ) (al : Alarms)
    → al.in_alarm_handler ≡ false
    → Agrees cs a (
        deliver_alarm
          (constructed true)
          (record { calls = cs; run_end = run_end; locks_end = locks_end; storage_broken = false })
          a
          now
          (record { stored = some a; alarms = al }))
deliver_alarm-Agrees cs run_end locks_end a now al idle =
    let w = course cs run_end locks_end in
    let ds = cs ++ (ends run_end ++ ends locks_end) in
    let (s, (armed, (_, (_, (stored, off))))) = run_calls-left_behind ds a now al idle in
    let run = as_run cs run_end locks_end s in
    subst (λ x. Agrees cs a (deliver_armed (constructed true) w x)) (sym armed)
      (record {
        result = (run_handler w s).0;
        reported = refl;
        left =
            ap (λ (x : Slot). (maybe_delete_deferred_alarm false x).stored) run
            ∙ stored
            ∙ left_over cs run_end locks_end s (some a);
        idle =
            ap (λ (x : Slot). (maybe_delete_deferred_alarm false x).alarms.in_alarm_handler) run
            ∙ off;
      })
