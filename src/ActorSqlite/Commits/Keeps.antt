-- ===== src/ActorSqlite/Commits/Keeps.antt =====
-- src/io/actor-sqlite.ts: the steps of a commit keep the order of the alarms.
use mathlib.Core.Path.{subst}
use do_runtime.Common.{
  ℕ, ◌≤◌, ◌<◌, ◌≡◌, refl, sym, ap, ◌∙◌, Bool, true, false, Option, none, [], ◌∷◌, ◌++◌, ◌⊎◌,
  Bool-cases, inl, inr, arith,
}
use do_runtime.ActorSqlite.Scheduling.{will_fire_earlier}
use do_runtime.ActorSqlite.Commits.{
  Flight, quiet, answered, lost, asked, applied, is_busy, World, open_world, change_alarm,
  begin_commit_on, begin_commit, resume_on, resume_commit,
}
use do_runtime.ActorSqlite.Commits.Steps.{newest, IsGathering, is_gathering, IsParked, IsOrdered}
use do_runtime.ActorSqlite.Commits.Order.{
  IsNoLater-refl, earlier_lem, not_earlier_lem, earlier-not, earlier_asym, IsQueue-from,
  IsQueue-change, IsQueue-append, newest-bound, newest-limit, IsLanded-change,
}

pub open-IsOrdered : (t : Option ℕ) → IsOrdered (open_world t)
open-IsOrdered t = record {
  held_first = IsNoLater-refl t;
  limit_first = IsNoLater-refl t;
  current = λ _. refl;
  queue = omega arith;
  landings = tt;
  gather_fit = tt;
  gather_new = λ e. ground arith;
  move_fit = tt;
  flag = refl;
  parked = tt;
}

pub change-IsOrdered : (t : Option ℕ) (w : World) → IsOrdered w → IsOrdered (change_alarm t w)
change-IsOrdered t w o =
    let old =
      IsQueue-from w.stored w.alarms.version w.alarms.no_later_than w.persisted.version w.in_flight
        o.queue in
    let new =
      newest-bound w.stored w.alarms.version w.alarms.no_later_than w.persisted.version w.in_flight
        o.queue in
    record {
      held_first = o.held_first;
      limit_first = o.limit_first;
      current = λ same. absurd (omega arith);
      queue =
          IsQueue-change w.stored w.alarms.version w.alarms.no_later_than t w.persisted.version
            w.in_flight o.queue;
      landings =
          IsLanded-change w.stored w.alarms.version t w.persisted.version w.landed old o.landings;
      gather_fit = o.gather_fit;
      gather_new = λ g. (omega arith, (o.gather_new g).1);
      move_fit = o.move_fit;
      flag = o.flag;
      parked = o.parked;
    }

-- The commit calls back.
called_back :
    (w : World)
    → will_fire_earlier w.stored w.alarms.no_later_than ≡ false
    → IsOrdered w
    → IsOrdered (record w {
      gathering = quiet;
      in_flight = w.in_flight ++ record { alarm = w.stored; version = w.alarms.version } ∷ [];
    })
called_back w e o = record {
  held_first = o.held_first;
  limit_first = o.limit_first;
  current = o.current;
  queue =
      IsQueue-append w.stored w.alarms.version w.alarms.no_later_than w.persisted.version
        w.in_flight (not_earlier_lem w.stored w.alarms.no_later_than e) o.queue;
  landings = o.landings;
  gather_fit = tt;
  gather_new = λ e. ground arith;
  move_fit = o.move_fit;
  flag = o.flag;
  parked = o.parked;
}

lt_cases : (a b : ℕ) → a ≤ b → (a < b) ⊎ (a ≡ b)
lt_cases a b l = ground arith

below : (a b : ℕ) → a ≤ b → (a ≡ b → ⊥) → a < b
below a b l n = elim (lt_cases a b l) [ inl h ↦ h | inr e ↦ absurd (n e) ]

-- A commit sends a request when every other is of an older version.
sent :
    (waits : Bool) (p : Option (Option ℕ)) (w : World)
    → (e : will_fire_earlier w.stored w.alarms.no_later_than ≡ true) → (p ≡ none)
    → (waits ≡ false → is_busy w.moving ≡ false)
    → IsOrdered w
    → IsOrdered (record w {
      alarms = record w.alarms { pending_later = p };
      gathering = asked waits (record { time = w.stored; moves_later = false });
    })
sent waits p w e none_parked free o =
    let new =
      newest-bound w.stored w.alarms.version w.alarms.no_later_than w.persisted.version w.in_flight
        o.queue in
    record {
      held_first = o.held_first;
      limit_first = o.limit_first;
      current = o.current;
      queue = o.queue;
      landings = o.landings;
      gather_fit = (refl, (earlier_lem w.stored w.alarms.no_later_than e, free));
      gather_new = λ _. (
        below (newest w.persisted.version w.in_flight) w.alarms.version new λ same.
            earlier-not w.stored w.alarms.no_later_than e (
              newest-limit w.stored w.alarms.version w.alarms.no_later_than w.persisted w.in_flight
                o.limit_first o.current o.queue same),
        none_parked,
      );
      move_fit = o.move_fit;
      flag = o.flag;
      parked =
          subst (IsParked w.alarms.no_later_than w.alarms.later_in_flight) (sym none_parked) tt;
    }

begin_on :
    (f : Flight) (w : World) → w.gathering ≡ f → IsOrdered w → IsOrdered (begin_commit_on f w)
begin_on quiet w g o = elim (Bool-cases (will_fire_earlier w.stored w.alarms.no_later_than)) [
  | inl e ↦
      rw (e, earlier_asym w.stored w.alarms.no_later_than e)
        (sent true none w e refl (λ t. ground arith) o)
  | inr e ↦ rw (e, e) (called_back w e o)
]
begin_on answered w g o = o
begin_on lost w g o = o
begin_on (asked waits r) w g o = o
begin_on (applied r) w g o = o

pub begin-IsOrdered : (w : World) → IsOrdered w → IsOrdered (begin_commit w)
begin-IsOrdered w o = begin_on w.gathering w refl o

pub fit :
    (f : Flight) (w : World)
    → w.gathering ≡ f
    → IsOrdered w
    → IsGathering w.alarms.no_later_than w.held (is_busy w.moving) f
fit f w g o = subst (IsGathering w.alarms.no_later_than w.held (is_busy w.moving)) g o.gather_fit

pub fresh :
    (f : Flight) (w : World)
    → w.gathering ≡ f
    → IsOrdered w
    → is_gathering f ≡ true
    → (newest w.persisted.version w.in_flight < w.alarms.version) × (w.alarms.pending_later ≡ none)
fresh f w g o e = o.gather_new (ap is_gathering g ∙ e)

resumed : (f : Flight) (w : World) → w.gathering ≡ f → IsOrdered w → IsOrdered (resume_on f w)
resumed answered w g o = elim (Bool-cases (will_fire_earlier w.stored w.alarms.no_later_than)) [
  | inl e ↦
      rw (e, earlier_asym w.stored w.alarms.no_later_than e)
        (sent false w.alarms.pending_later w e (fresh answered w g o refl).1
          (λ _. fit answered w g o) o)
  | inr e ↦ rw (e) (called_back w e o)
]
resumed quiet w g o = o
resumed lost w g o = o
resumed (asked waits r) w g o = o
resumed (applied r) w g o = o

pub resume-IsOrdered : (w : World) → IsOrdered w → IsOrdered (resume_commit w)
resume-IsOrdered w o = resumed w.gathering w refl o
