-- ===== src/AlarmScheduler/Calls.antt =====
-- src/server/alarm-scheduler.ts: a scheduler through any history of calls and restarts.
use mathlib.Core.Path.{subst}
use do_runtime.Common.{
  ℕ, ◌≡◌, sym, ◌∙◌, Bool, true, false, Option, [], String, Result, ok, err, lookup, string_eq,
  Bool-cases, inl, inr,
}
use do_runtime.AlarmScheduler.{
  Scheduler, AlarmError, AlarmResult, set_alarm, reconcile, delete_alarm, delete_all, is_due_by,
}
use do_runtime.AlarmScheduler.Ladder.{Draw}
use do_runtime.AlarmScheduler.Delivery.{Env, Run, begin_delivery, finish_delivery, finish_abandon}
use do_runtime.AlarmScheduler.Loading.{opened, construct}
use do_runtime.AlarmScheduler.Fits.{IsSound}
use do_runtime.AlarmScheduler.Deliver.{IsKept, set_alarm-IsKept, delete_alarm-IsKept}
use do_runtime.AlarmScheduler.Begin.{begin_delivery-IsSound}
use do_runtime.AlarmScheduler.Finish.{state_of, finish_delivery-IsSound, finish_abandon-IsSound}
use do_runtime.AlarmScheduler.Restart.{construct_lem}

-- The requests of an actor, each with whether its write is refused, and the pieces of a delivery.
pub data Call : Type 0 where
  setting reconciling : Bool → String → ℕ → Call
  deleting : Bool → String → Call
  clearing : Bool → Call
  waking : Env → String → ℕ → Call
  ending : Env → Run → AlarmResult → Call
  abandoning : Env → Run → AlarmResult → Option (Option ℕ) → Call

-- A request that throws has changed nothing.
abbrev pub or_same : Result AlarmError Scheduler → Scheduler → Scheduler
or_same (ok s') s = s'
or_same (err e) s = s

abbrev pub call : Call → Scheduler → Scheduler
call (setting refused a t) s = or_same (set_alarm refused a t s) s
call (reconciling refused a t) s = or_same (reconcile refused a t s) s
call (deleting refused a) s = or_same (delete_alarm refused a s) s
call (clearing refused) s = or_same (delete_all refused s) s
call (waking env a n) s = begin_delivery env a n s
call (ending env r result) s = state_of (finish_delivery env r result s)
call (abandoning env r result reply) s = finish_abandon env r result reply s

-- A scheduler over an empty table, behind calls, and built again from the rows that are there.
pub data Reach : Scheduler → Type 0 where
  empty : Reach (opened [])
  called : (c : Call) (s : Scheduler) → Reach s → Reach (call c s)
  restarted :
      (now : ℕ) (draws : ℕ → Draw) (refused : ℕ → Bool) (s s' : Scheduler)
      → Reach s
      → construct now draws refused s.rows ≡ ok s'
      → Reach s'

or_same-IsSound :
    (x : Result AlarmError Scheduler) (s : Scheduler) → IsKept x → IsSound s → IsSound (or_same x s)
or_same-IsSound (ok s') s h w = h
or_same-IsSound (err e) s h w = w

reconcile-IsKept :
    (refused : Bool) (a : String) (t : ℕ) (s : Scheduler)
    → IsSound s
    → IsKept (reconcile refused a t s)
unfolding reconcile
reconcile-IsKept refused a t s w = elim (Bool-cases (is_due_by (lookup a s.alarms) t)) [
  | inl e ↦ rw (e) w
  | inr e ↦ rw (e) (set_alarm-IsKept refused a t s w)
]

delete_all-IsKept : (refused : Bool) (s : Scheduler) → IsKept (delete_all refused s)
unfolding delete_all
delete_all-IsKept true s = tt
delete_all-IsKept false s = record { fits = λ a. tt; distinct = tt }

call-IsSound : (c : Call) (s : Scheduler) → IsSound s → IsSound (call c s)
call-IsSound (setting refused a t) s w =
    or_same-IsSound (set_alarm refused a t s) s (set_alarm-IsKept refused a t s w) w
call-IsSound (reconciling refused a t) s w =
    or_same-IsSound (reconcile refused a t s) s (reconcile-IsKept refused a t s w) w
call-IsSound (deleting refused a) s w =
    or_same-IsSound (delete_alarm refused a s) s (delete_alarm-IsKept refused a s w) w
call-IsSound (clearing refused) s w =
    or_same-IsSound (delete_all refused s) s (delete_all-IsKept refused s) w
call-IsSound (waking env a n) s w = begin_delivery-IsSound env a n s w
call-IsSound (ending env r result) s w = finish_delivery-IsSound env r result s w
call-IsSound (abandoning env r result reply) s w = finish_abandon-IsSound env r result reply s w

-- Through any history of calls, refused writes and restarts, the table and the memory are in step:
-- every stored alarm has an entry that it describes, an entry that waits is armed, with the wake
-- that a restart would give it, and every counter is one that a restart accepts.
pub Reach-IsSound : (s : Scheduler) → Reach s → IsSound s
Reach-IsSound _ empty = record { fits = λ a. tt; distinct = tt }
Reach-IsSound _ (called c s r) = call-IsSound c s (Reach-IsSound s r)
Reach-IsSound _ (restarted now draws refused s s' r e) =
    elim (construct_lem now draws refused s (Reach-IsSound s r)) [
      | inr (_, _, _, throws) ↦ absurd (cc (sym throws ∙ e))
      | inl (s2, is_s2, sound, _, _) ↦ subst (λ x. IsSound (or_same x s')) (sym is_s2 ∙ e) sound
    ]
