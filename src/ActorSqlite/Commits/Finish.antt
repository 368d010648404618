-- ===== src/ActorSqlite/Commits/Finish.antt =====
-- src/io/actor-sqlite.ts: the end of a commit keeps the order of the alarms.
use mathlib.Core.Path.{subst}
use do_runtime.Common.{
  ℕ, ◌≤◌, ◌≡◌, refl, sym, ◌∙◌, Bool, true, false, Option, none, some, List, [], ◌∷◌, nat_beq,
  nat_beq_iff, if◌then◌else◌, Bool-cases, inl, inr, arith,
}
use do_runtime.ActorSqlite.Scheduling.{
  will_fire_earlier, Request, Alarms, schedule_after, schedule_later_on, after_persist,
}
use do_runtime.ActorSqlite.Commits.{asked, Commit, World, move, finish_on, finish_commit}
use do_runtime.ActorSqlite.Commits.Steps.{
  IsNoLater, IsCurrent, IsQueue, IsLanded, is_gathering, IsParked, IsOrdered,
}
use do_runtime.ActorSqlite.Commits.Order.{
  IsNoLater-refl, earlier_lem, IsQueue-from, IsQueue-raise, newest-from,
}
use do_runtime.ActorSqlite.Commits.Later.{sent_later}

-- A commit has landed and goes on.
landed_tail :
    (a : Option ℕ) (c : Commit) (cs : List Commit) (w : World)
    → w.landed ≡ c ∷ cs
    → IsOrdered w
    → IsOrdered (record w { alarms = record w.alarms { last_confirmed = a }; landed = cs })
landed_tail a c cs w e o =
    let (_, (_, rest)) =
      subst (IsLanded w.stored w.alarms.version w.persisted.version) e o.landings in
    record {
      held_first = o.held_first;
      limit_first = o.limit_first;
      current = o.current;
      queue = o.queue;
      landings = rest;
      gather_fit = o.gather_fit;
      gather_new = o.gather_new;
      move_fit = o.move_fit;
      flag = o.flag;
      parked = o.parked;
    }

parked_none :
    (limit : Option ℕ) (flying : Bool) (p : Option (Option ℕ))
    → flying ≡ false
    → IsParked limit flying p
    → p ≡ none
parked_none limit flying none e h = refl
parked_none limit flying (some t) e (h, _) = absurd (ground arith)

-- A time is scheduled that is the alarm of the database, and of every newer one.
scheduled :
    (b : Bool) (t : Option ℕ) (w : World)
    → w.alarms.later_in_flight ≡ b
    → IsNoLater w.alarms.no_later_than t
    → IsNoLater t w.persisted.alarm
    → IsQueue t w.stored w.alarms.version w.persisted.version w.in_flight
    → is_gathering w.gathering ≡ false
    → IsOrdered w
    → IsOrdered (move (schedule_later_on b t w.alarms) w)
scheduled true t w f l k q g o = record {
  held_first = o.held_first;
  limit_first = o.limit_first;
  current = o.current;
  queue = o.queue;
  landings = o.landings;
  gather_fit = o.gather_fit;
  gather_new = λ e. absurd (ground arith);
  move_fit = o.move_fit;
  flag = o.flag;
  parked = (f, l);
}
scheduled false t w f l k q g o =
    subst
      (λ p. IsOrdered (record w {
        alarms = record w.alarms {
          no_later_than =
              if will_fire_earlier w.alarms.no_later_than t then t else w.alarms.no_later_than;
          later_in_flight = true;
          pending_later = p;
        };
        moving =
            asked false
              (record { time = t; moves_later = will_fire_earlier w.alarms.no_later_than t });
      }))
      (sym (
        parked_none w.alarms.no_later_than w.alarms.later_in_flight w.alarms.pending_later f
          o.parked))
      (sent_later t w l k q g o)

-- A commit that gathers is of a newer version than any that was persisted.
idle :
    (w : World)
    → w.persisted.version ≡ w.alarms.version
    → IsOrdered w
    → is_gathering w.gathering ≡ false
idle w top o =
    let new =
      newest-from w.stored w.alarms.version w.alarms.no_later_than w.persisted.version w.in_flight
        o.queue in
    elim (Bool-cases (is_gathering w.gathering)) [
      | inl e ↦ let (h, _) = o.gather_new e in absurd (omega arith)
      | inr e ↦ e
    ]

scheduled_stored :
    (t : Option ℕ) (w : World)
    → t ≡ w.stored
    → w.persisted.version ≡ w.alarms.version
    → IsNoLater w.alarms.no_later_than t
    → IsOrdered w
    → IsOrdered (move (schedule_later_on w.alarms.later_in_flight t w.alarms) w)
scheduled_stored t w here top l o =
    scheduled w.alarms.later_in_flight t w refl l
      (subst (IsNoLater t) (here ∙ sym (o.current top)) (IsNoLater-refl t))
      (subst (λ s. IsQueue s w.stored w.alarms.version w.persisted.version w.in_flight) (sym here)
        (IsQueue-raise w.stored w.alarms.version w.alarms.no_later_than w.persisted.version
          w.in_flight top o.queue))
      (idle w top o) o

-- The alarm of the present version is the one in the database.
at_version :
    (same : Bool) (c : Commit) (w : World)
    → nat_beq w.alarms.version c.version ≡ same
    → c.version ≤ w.persisted.version
    → IsCurrent w.stored w.alarms.version c
    → IsOrdered w
    → IsOrdered (move (schedule_after same c.alarm w.alarms) w)
at_version false c w e l cur o = o
at_version true c w e l cur o =
    let same = (nat_beq_iff w.alarms.version c.version).0 e in
    let upper =
      IsQueue-from w.stored w.alarms.version w.alarms.no_later_than w.persisted.version w.in_flight
        o.queue in
    elim (Bool-cases (will_fire_earlier w.alarms.no_later_than c.alarm)) [
      | inr f ↦ rw (f) o
      | inl f ↦ rw (f) (
          scheduled_stored c.alarm w (cur (sym same)) (omega arith)
            (earlier_lem w.alarms.no_later_than c.alarm f) o)
    ]

move_over :
    (al : Alarms) (x : Option Request × Alarms) (w : World)
    → move x (record w { alarms = al }) ≡ move x w
move_over al (none, al') w = refl
move_over al (some r, al') w = refl

finish_case :
    (cs : List Commit) (w : World) → w.landed ≡ cs → IsOrdered w → IsOrdered (finish_on cs w)
finish_case [] w e o = o
finish_case (c ∷ cs) w e o =
    let (l, (cur, _)) =
      subst (IsLanded w.stored w.alarms.version w.persisted.version) e o.landings in
    let al = record w.alarms { last_confirmed = c.alarm } in
    subst IsOrdered
      (move_over al (after_persist c.alarm c.version w.alarms) (record w { landed = cs }))
      (at_version (nat_beq w.alarms.version c.version) c (record w { alarms = al; landed = cs })
        refl l cur (landed_tail c.alarm c cs w e o))

pub finish-IsOrdered : (w : World) → IsOrdered w → IsOrdered (finish_commit w)
finish-IsOrdered w o = finish_case w.landed w refl o
