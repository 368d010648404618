-- ===== src/ActorSqlite/Handler/Runs.antt =====
-- src/io/actor-sqlite.ts: what a run of the handler leaves.
use mathlib.Core.Path.{subst}
use do_runtime.Common.{
  ℕ, suc, ◌≡◌, ◌⊎◌, refl, sym, ap, ◌∙◌, Bool, true, false, Option, none, some, List, [], ◌∷◌,
  nat_beq_iff, Bool-cases, inl, inr, arith,
}
use do_runtime.ActorSqlite.Scheduling.{Alarms, will_fire_earlier}
use do_runtime.ActorSqlite.Handler.{
  same_alarm, Slot, get_alarm, set_alarm, Armed, running, already_running, cancelling, arm_clean,
  arm_on, arm_alarm_handler, maybe_delete_deferred_alarm, HandlerCall, setting, failing, run_calls,
}

-- The last alarm that was set, or the one there was.
abbrev pub last_set : List HandlerCall → Option ℕ → Option ℕ
last_set [] t = t
last_set (setting u ∷ cs) t = last_set cs u
last_set (failing ∷ cs) t = last_set cs t

-- A run that neither sets an alarm nor fails has no alarm behind it.
abbrev pub left_behind : List HandlerCall → Option ℕ → Option ℕ
left_behind [] t = none
left_behind (c ∷ cs) t = last_set (c ∷ cs) t

same_alarm_lem : (a b : Option ℕ) → same_alarm a b ≡ true → a ≡ b
same_alarm_lem none none e = refl
same_alarm_lem none (some b) e = absurd (ground arith)
same_alarm_lem (some a) none e = absurd (ground arith)
same_alarm_lem (some a) (some b) e = ap some ((nat_beq_iff a b).0 e)

-- A slot in a run.
abbrev in_run : Option ℕ → Bool → Alarms → Slot
in_run t deferred al = record {
  stored = t;
  alarms = record al { have_deferred_delete = deferred; in_alarm_handler = true };
}

set_in_run :
    (t u : Option ℕ) (deferred : Bool) (al : Alarms)
    → (al' : Alarms) × (set_alarm u (in_run t deferred al) ≡ in_run u false al')
set_in_run t u deferred al = elim (Bool-cases (same_alarm t u)) [
  | inl e ↦ (al, rw (e) (ap (λ x. in_run x false al) (same_alarm_lem t u e)))
  | inr e ↦ (record al { version = suc al.version }, rw (e))
]

calls_in_run :
    (cs : List HandlerCall) (t : Option ℕ) (al : Alarms)
    → (al' : Alarms) × (run_calls cs (in_run t false al) ≡ in_run (last_set cs t) false al')
calls_in_run [] t al = (al, refl)
calls_in_run (setting u ∷ cs) t al =
    let (al1, p) = set_in_run t u false al in
    let (al2, q) = calls_in_run cs u al1 in (al2, ap (run_calls cs) p ∙ q)
calls_in_run (failing ∷ cs) t al = calls_in_run cs t al

armed_lem :
    (a now : ℕ) (al : Alarms)
    → al.in_alarm_handler ≡ false
    → arm_alarm_handler a now (record { stored = some a; alarms = al })
      ≡ (running, in_run (some a) true al)
armed_lem a now al idle =
    let start = in_run (some a) true al in
    subst (λ b. arm_on b a now (record { stored = some a; alarms = al }) ≡ (running, start))
      (sym idle) (rw ((nat_beq_iff a a).1 refl))

calls_lem :
    (c : HandlerCall) (cs : List HandlerCall) (t : Option ℕ) (al : Alarms)
    → (al' : Alarms) × (run_calls (c ∷ cs) (in_run t true al)
        ≡ in_run (last_set (c ∷ cs) t) false al')
calls_lem (setting u) cs t al =
    let (al1, p) = set_in_run t u true al in
    let (al2, q) = calls_in_run cs u al1 in (al2, ap (run_calls cs) p ∙ q)
calls_lem failing cs t al = calls_in_run cs t al

ended_lem :
    (cs : List HandlerCall) (a : ℕ) (al : Alarms)
    → let s = maybe_delete_deferred_alarm false (run_calls cs (in_run (some a) true al)) in
      (s.stored ≡ left_behind cs (some a)) × (s.alarms.in_alarm_handler ≡ false)
ended_lem [] a al = (refl, refl)
ended_lem (c ∷ cs) a al =
    let (al', q) = calls_lem c cs (some a) al in
    (
      ap (λ x. (maybe_delete_deferred_alarm false x).stored) q,
      ap (λ x. (maybe_delete_deferred_alarm false x).alarms.in_alarm_handler) q,
    )

-- A run that was armed for the alarm in the database, the calls in it, and its end: no alarm is
-- left if it did well and set none; else the last one that it set; and if it failed without one,
-- the alarm itself, for the next try. While it runs, before a call, the actor sees no alarm, and
-- the one in the database is still there; and afterwards no handler is running.
pub run_calls-left_behind :
    (cs : List HandlerCall) (a now : ℕ) (al : Alarms)
    → al.in_alarm_handler ≡ false
    → (s : Slot) × ((arm_alarm_handler a now (record { stored = some a; alarms = al })
          ≡ (running, s))
        × ((get_alarm false s ≡ none)
            × ((s.stored ≡ some a)
                × (((maybe_delete_deferred_alarm false (run_calls cs s)).stored
                      ≡ left_behind cs (some a))
                    × ((maybe_delete_deferred_alarm false (run_calls cs s)).alarms.in_alarm_handler
                        ≡ false)))))
run_calls-left_behind cs a now al idle =
    (in_run (some a) true al, (armed_lem a now al idle, (refl, (refl, ended_lem cs a al))))

-- The alarm in the database is the one that is delivered, or in the past.
abbrev pub IsDue : ℕ → ℕ → Slot → Type 0
IsDue scheduled now s = (s.stored ≡ some scheduled) ⊎ (will_fire_earlier s.stored (some now) ≡ true)

-- An answer to the delivery of an alarm, for a slot and a clock.
abbrev pub IsFair : ℕ → ℕ → Slot → Armed × Slot → Type 0
IsFair scheduled now s (cancelling later r, s') =
    (same_alarm s.stored (some scheduled) ≡ false)
    × ((same_alarm s.stored s.alarms.last_confirmed ≡ true)
        × ((will_fire_earlier s.stored (some now) ≡ false)
            × ((r.time ≡ s.stored) × (s'.stored ≡ s.stored))))
IsFair scheduled now s (running, s') =
    (s.alarms.in_alarm_handler ≡ false)
    × ((s'.stored ≡ s.stored) × ((s'.alarms.have_deferred_delete ≡ false) ⊎ IsDue scheduled now s))
IsFair scheduled now s (already_running, s') = (s.alarms.in_alarm_handler ≡ true) × (s' ≡ s)

clean_lem :
    (scheduled now : ℕ) (s : Slot)
    → s.alarms.in_alarm_handler ≡ false
    → same_alarm s.stored (some scheduled) ≡ false
    → same_alarm s.stored s.alarms.last_confirmed ≡ true
    → IsFair scheduled now s (arm_clean scheduled now s)
clean_lem scheduled now s idle e f = elim (Bool-cases (will_fire_earlier s.stored (some now))) [
  | inl g ↦ rw (g) (idle, (refl, inr (inr g)))
  | inr g ↦ elim (Bool-cases (will_fire_earlier (some scheduled) s.stored)) [
    | inl h ↦ rw (g, h) (e, (f, (g, (refl, refl))))
    | inr h ↦ rw (g, h) (e, (f, (g, (refl, refl))))
  ]
]

idle_lem :
    (scheduled now : ℕ) (s : Slot)
    → s.alarms.in_alarm_handler ≡ false
    → IsFair scheduled now s (arm_on false scheduled now s)
idle_lem scheduled now s idle = elim (Bool-cases (same_alarm s.stored (some scheduled))) [
  | inl e ↦ rw (e) (idle, (refl, inr (inl (same_alarm_lem s.stored (some scheduled) e))))
  | inr e ↦ elim (Bool-cases (same_alarm s.stored s.alarms.last_confirmed)) [
    | inl f ↦ rw (e, f) (clean_lem scheduled now s idle e f)
    | inr f ↦ rw (e, f) (idle, (refl, inl refl))
  ]
]

arm_case :
    (b : Bool) (scheduled now : ℕ) (s : Slot)
    → s.alarms.in_alarm_handler ≡ b
    → IsFair scheduled now s (arm_on b scheduled now s)
arm_case true scheduled now s e = (e, refl)
arm_case false scheduled now s e = idle_lem scheduled now s e

-- The delivery of an alarm writes nothing. The handler is cancelled only for another alarm in the
-- database, which was confirmed and is not in the past, and then the scheduler is asked for exactly
-- that one. When it runs, the deletion is deferred at most for the alarm that was delivered, or for
-- one in the past. A handler that is running already is left alone.
pub arm_alarm_handler-IsFair :
    (scheduled now : ℕ) (s : Slot) → IsFair scheduled now s (arm_alarm_handler scheduled now s)
arm_alarm_handler-IsFair scheduled now s = arm_case s.alarms.in_alarm_handler scheduled now s refl
