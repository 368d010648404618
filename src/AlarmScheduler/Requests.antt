-- ===== src/AlarmScheduler/Requests.antt =====
-- src/server/alarm-scheduler.ts: what an actor's request leaves behind, and what the watchdog is
-- told.
use do_runtime.Common.{
  ℕ, ◌≤◌, ◌≡◌, refl, ap, ◌∙◌, true, false, leb, Option, none, some, List, [], ◌∷◌, String, ◌==◌,
  Bool-cases, Option-cases, inl, inr, lookup, string_eq, lookup-insert, beq_refl, arith, ok,
}
use do_runtime.AlarmScheduler.{
  Entry, AlarmStatus, waiting, started, finished, Scheduler, or_else, earlier, wake_of,
  earliest_active, earliest_alarm, next_wake, new_row, new_entry, running_of, set_alarm_at,
  set_alarm_on, set_alarm, is_due_by, reconcile, store_alarm,
}

-- The alarm that an actor is still to get, which is the queued one if there is one.
abbrev pub pending_of : Entry → ℕ
pending_of e = or_else e.queued_alarm e.scheduled_time

set_by :
    (st : AlarmStatus) (e : Entry) (a : String) (t : ℕ) (s : Scheduler)
    → (e' : Entry) × (lookup a (set_alarm_at st e a t s).alarms ≡ some e') × (pending_of e' ≡ t)
set_by waiting e a t s =
    (new_entry s.next_number t, lookup-insert a a _ s.alarms ∙ rw (beq_refl a), refl)
set_by started e a t s =
    (record e { queued_alarm = some t }, lookup-insert a a _ s.alarms ∙ rw (beq_refl a), refl)
set_by finished e a t s =
    (record e { queued_alarm = some t }, lookup-insert a a _ s.alarms ∙ rw (beq_refl a), refl)

set_on :
    (p : Option Entry) (a : String) (t : ℕ) (s : Scheduler)
    → (e : Entry) × (lookup a (set_alarm_on p a t s).alarms ≡ some e) × (pending_of e ≡ t)
set_on none a t s =
    (new_entry s.next_number t, lookup-insert a a _ s.alarms ∙ rw (beq_refl a), refl)
set_on (some e) a t s = set_by e.status e a t s

set_rows :
    (p : Option Entry) (a : String) (t : ℕ) (s : Scheduler) → (set_alarm_on p a t s).rows ≡ s.rows
set_rows none a t s = refl
set_rows (some e) a t s = rows_by e.status
  where
    rows_by : (st : AlarmStatus) → (set_alarm_at st e a t s).rows ≡ s.rows
    rows_by waiting = refl
    rows_by started = refl
    rows_by finished = refl

-- `setAlarm` makes the time the actor's next alarm, even while one is delivered, stores it as new
-- work without touching the mark of a delivery, and tells the watchdog.
pub set_alarm_lem :
    (a : String) (t : ℕ) (s : Scheduler)
    → (s' : Scheduler) × (set_alarm false a t s ≡ ok s')
      × ((e : Entry) × (lookup a s'.alarms ≡ some e) × (pending_of e ≡ t))
      × (lookup a s'.rows ≡ some (new_row t (running_of (lookup a s.rows))))
      × (s'.projected ≡ next_wake s')
unfolding set_alarm
set_alarm_lem a t s =
    let s₁ : Scheduler = record s { rows = store_alarm a t s.rows } in
    (
      _,
      refl,
      set_on (lookup a s.alarms) a t s₁,
      ap (λ m. lookup a m) (set_rows (lookup a s.alarms) a t s₁)
          ∙ lookup-insert a a _ s.rows
          ∙ rw (beq_refl a),
      refl,
    )

-- After `reconcile` the actor has an alarm no later than the stored one; one that is due by then
-- already is left alone.
pub reconcile_lem :
    (a : String) (stored : ℕ) (s : Scheduler)
    → (s' : Scheduler) × (reconcile false a stored s ≡ ok s')
      × ((e : Entry) × (lookup a s'.alarms ≡ some e) × (pending_of e ≤ stored))
      × (is_due_by (lookup a s.alarms) stored ≡ true → s' ≡ s)
unfolding reconcile
reconcile_lem a stored s = elim (Bool-cases (is_due_by (lookup a s.alarms) stored)) [
  | inl due ↦ elim (Option-cases (lookup a s.alarms)) [
    | inl gone ↦ absurd (ground (arith, gone, due))
    | inr (e, is_e) ↦
        let early : leb (pending_of e) stored ≡ true = rw is_e at due in
        (s, rw (due, reconcile), (e, is_e, ground (arith, early)), λ x. refl)
  ]
  | inr late ↦
      let (s', is_s', (e, is_e, pending), _, _) = set_alarm_lem a stored s in
      (s', rw (late, reconcile) is_s', (e, is_e, omega (arith, pending)), λ due. absurd (cc))
]

-- `t` is at or behind what is projected.
abbrev pub IsCovered : ℕ → Option ℕ → Type 0
IsCovered t none = ⊥
IsCovered t (some b) = b ≤ t

earlier-IsCovered : (w best : Option ℕ) (t : ℕ) → IsCovered t best → IsCovered t (earlier w best)
earlier-IsCovered none best t h = h
earlier-IsCovered (some x) none t h = absurd h
earlier-IsCovered (some x) (some b) t h = ground arith

earlier_own : (best : Option ℕ) (t : ℕ) → IsCovered t (earlier (some t) best)
earlier_own none t = omega arith
earlier_own (some b) t = ground arith

active_keeps :
    (active : List (ℕ × ℕ)) (best : Option ℕ) (t : ℕ)
    → IsCovered t best
    → IsCovered t (earliest_active active best)
unfolding earliest_active
active_keeps [] best t h = h
active_keeps ((n, x) ∷ active) best t h =
    active_keeps active (earlier (some x) best) t (earlier-IsCovered (some x) best t h)

alarm_keeps :
    (alarms : List (String × Entry)) (best : Option ℕ) (t : ℕ)
    → IsCovered t best
    → IsCovered t (earliest_alarm alarms best)
unfolding earliest_alarm
alarm_keeps [] best t h = h
alarm_keeps ((a, e) ∷ alarms) best t h =
    alarm_keeps alarms (earlier (wake_of e) best) t (earlier-IsCovered (wake_of e) best t h)

alarm_own :
    (alarms : List (String × Entry)) (best : Option ℕ) (a : String) (e : Entry) (t : ℕ)
    → lookup a alarms ≡ some e
    → wake_of e ≡ some t
    → IsCovered t (earliest_alarm alarms best)
unfolding earliest_alarm
alarm_own [] best a e t is_e wakes = absurd (cc)
alarm_own ((b, x) ∷ alarms) best a e t is_e wakes = elim (Bool-cases (b == a)) [
  | inl same ↦
      let is_x : some x ≡ some e = rw same at is_e in
      let same_entry : x ≡ e = cc in
      let own : IsCovered t (earlier (wake_of x) best) =
        rw (ap wake_of same_entry, wakes) (earlier_own best t) in
      alarm_keeps alarms (earlier (wake_of x) best) t own
  | inr differ ↦ alarm_own alarms (earlier (wake_of x) best) a e t (rw differ at is_e) wakes
]

-- The watchdog is never told a wake behind that of an alarm: not behind its retry, nor behind its
-- own time while its bookkeeping is due, nor, while it is delivered, behind the alarm that is
-- queued.
pub next_wake-IsCovered :
    (s : Scheduler) (a : String) (e : Entry) (t : ℕ)
    → lookup a s.alarms ≡ some e
    → wake_of e ≡ some t
    → IsCovered t (next_wake s).0
next_wake-IsCovered s a e t is_e wakes =
    alarm_own s.alarms (earliest_active s.active none) a e t is_e wakes
