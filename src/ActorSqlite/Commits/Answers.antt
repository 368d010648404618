-- ===== src/ActorSqlite/Commits/Answers.antt =====
-- src/io/actor-sqlite.ts: the answers of the scheduler and of the database keep the order of the
-- alarms.
use mathlib.Core.Path.{subst}
use do_runtime.Common.{
  ℕ, ◌<◌, ◌≡◌, refl, sym, Bool, true, false, Option, none, some, List, [], ◌∷◌, ◌&&◌, if◌then◌else◌,
  arith,
}
use do_runtime.ActorSqlite.Scheduling.{Request}
use do_runtime.ActorSqlite.Commits.{
  Flight, quiet, answered, lost, asked, applied, is_busy, Commit, World, grant_on, grant,
  confirm_on, confirm, lose_on, lose, persist_on, persist, fail_commit_on, fail_commit,
}
use do_runtime.ActorSqlite.Commits.Steps.{
  IsNoLater, IsQueue, newest, is_gathering, IsMoving, IsParked, IsOrdered,
}
use do_runtime.ActorSqlite.Commits.Order.{
  IsNoLater-refl, IsNoLater-trans, IsQueue-lower, IsQueue-weaken, newest-weaken, IsLanded-append,
}
use do_runtime.ActorSqlite.Commits.Keeps.{fit, fresh}

-- The scheduler has the earlier time.
taken :
    (waits : Bool) (r : Request) (w : World)
    → is_busy w.moving ≡ false
    → w.gathering ≡ asked waits r
    → IsOrdered w
    → IsOrdered (record w { held = r.time; gathering = applied r })
taken waits r w b g o =
    let (moves, (early, _)) = fit (asked waits r) w g o in
    record {
      held_first = early;
      limit_first = o.limit_first;
      current = o.current;
      queue = o.queue;
      landings = o.landings;
      gather_fit = (moves, (early, (refl, b)));
      gather_new = λ _. fresh (asked waits r) w g o refl;
      move_fit = o.move_fit;
      flag = o.flag;
      parked = o.parked;
    }

granted :
    (waits busy : Bool) (r : Request) (w : World)
    → is_busy w.moving ≡ busy
    → w.gathering ≡ asked waits r
    → IsOrdered w
    → IsOrdered (if waits && busy then w else record w { held = r.time; gathering = applied r })
granted true true r w b g o = o
granted false true r w b g o =
    let (_, (_, free)) = fit (asked false r) w g o in let idle = free refl in absurd (ground arith)
granted true false r w b g o = taken true r w b g o
granted false false r w b g o = taken false r w b g o

grant_case : (f : Flight) (w : World) → w.gathering ≡ f → IsOrdered w → IsOrdered (grant_on f w)
grant_case (asked waits r) w g o = granted waits (is_busy w.moving) r w refl g o
grant_case quiet w g o = o
grant_case answered w g o = o
grant_case lost w g o = o
grant_case (applied r) w g o = o

pub grant-IsOrdered : (w : World) → IsOrdered w → IsOrdered (grant w)
grant-IsOrdered w o = grant_case w.gathering w refl o

pub idle-IsMoving : (limit : Option ℕ) (f : Flight) → is_busy f ≡ false → IsMoving limit f
idle-IsMoving limit quiet e = tt
idle-IsMoving limit answered e = tt
idle-IsMoving limit lost e = tt
idle-IsMoving limit (asked waits r) e = ground arith
idle-IsMoving limit (applied r) e = ground arith

IsParked-lower :
    (limit limit' : Option ℕ) (flying : Bool) (p : Option (Option ℕ))
    → IsNoLater limit' limit
    → IsParked limit flying p
    → IsParked limit' flying p
IsParked-lower limit limit' flying none l h = tt
IsParked-lower limit limit' flying (some t) l (h, k) = (h, IsNoLater-trans limit' limit t l k)

confirmed :
    (b : Bool) (t : Option ℕ) (w : World)
    → w.gathering ≡ applied (record { time = t; moves_later = b })
    → IsOrdered w
    → IsOrdered (record w {
      alarms = record w.alarms { no_later_than = if b then w.alarms.no_later_than else t };
      gathering = answered;
    })
confirmed true t w g o =
    let (moves, _) = fit (applied (record { time = t; moves_later = true })) w g o in
    absurd (ground arith)
confirmed false t w g o =
    let r : Request = record { time = t; moves_later = false } in
    let (_, (early, (same, idle))) = fit (applied r) w g o in
    record {
      held_first = subst (λ h. IsNoLater h t) (sym same) (IsNoLater-refl t);
      limit_first = IsNoLater-trans t w.alarms.no_later_than w.persisted.alarm early o.limit_first;
      current = o.current;
      queue =
          IsQueue-lower w.stored w.alarms.version w.alarms.no_later_than t w.persisted.version
            w.in_flight early o.queue;
      landings = o.landings;
      gather_fit = idle;
      gather_new = λ _. fresh (applied r) w g o refl;
      move_fit = idle-IsMoving t w.moving idle;
      flag = o.flag;
      parked =
          IsParked-lower w.alarms.no_later_than t w.alarms.later_in_flight w.alarms.pending_later
            early o.parked;
    }

confirm_case : (f : Flight) (w : World) → w.gathering ≡ f → IsOrdered w → IsOrdered (confirm_on f w)
confirm_case (applied r) w g o = confirmed r.moves_later r.time w g o
confirm_case quiet w g o = o
confirm_case answered w g o = o
confirm_case lost w g o = o
confirm_case (asked waits r) w g o = o

pub confirm-IsOrdered : (w : World) → IsOrdered w → IsOrdered (confirm w)
confirm-IsOrdered w o = confirm_case w.gathering w refl o

given_up : (w : World) → IsOrdered w → IsOrdered (record w { gathering = lost })
given_up w o = record {
  held_first = o.held_first;
  limit_first = o.limit_first;
  current = o.current;
  queue = o.queue;
  landings = o.landings;
  gather_fit = tt;
  gather_new = λ e. ground arith;
  move_fit = o.move_fit;
  flag = o.flag;
  parked = o.parked;
}

lose_case : (f : Flight) (w : World) → IsOrdered w → IsOrdered (lose_on f w)
lose_case (asked waits r) w o = given_up w o
lose_case (applied r) w o = given_up w o
lose_case quiet w o = o
lose_case answered w o = o
lose_case lost w o = o

pub lose-IsOrdered : (w : World) → IsOrdered w → IsOrdered (lose w)
lose-IsOrdered w o = lose_case w.gathering w o

IsQueue-of :
    (cs : List Commit) (w : World)
    → w.in_flight ≡ cs
    → IsOrdered w
    → IsQueue w.alarms.no_later_than w.stored w.alarms.version w.persisted.version cs
IsQueue-of cs w e o =
    subst (IsQueue w.alarms.no_later_than w.stored w.alarms.version w.persisted.version) e o.queue

newest_of :
    (cs : List Commit) (w : World)
    → w.in_flight ≡ cs
    → IsOrdered w
    → is_gathering w.gathering ≡ true
    → (newest w.persisted.version cs < w.alarms.version) × (w.alarms.pending_later ≡ none)
newest_of cs w e o g =
    let (h, k) = o.gather_new g in
    (subst (λ l. newest w.persisted.version l < w.alarms.version) e h, k)

persist_case :
    (cs : List Commit) (w : World) → w.in_flight ≡ cs → IsOrdered w → IsOrdered (persist_on cs w)
persist_case [] w e o = o
persist_case (c ∷ cs) w e o =
    let (l, (early, (cur, rest))) = IsQueue-of (c ∷ cs) w e o in
    record {
      held_first = o.held_first;
      limit_first = early;
      current = cur;
      queue = rest;
      landings =
          IsLanded-append w.stored w.alarms.version w.persisted.version c w.landed l cur o.landings;
      gather_fit = o.gather_fit;
      gather_new = newest_of (c ∷ cs) w e o;
      move_fit = o.move_fit;
      flag = o.flag;
      parked = o.parked;
    }

pub persist-IsOrdered : (w : World) → IsOrdered w → IsOrdered (persist w)
persist-IsOrdered w o = persist_case w.in_flight w refl o

fail_case :
    (cs : List Commit) (w : World)
    → w.in_flight ≡ cs
    → IsOrdered w
    → IsOrdered (fail_commit_on cs w)
fail_case [] w e o = o
fail_case (c ∷ cs) w e o =
    let (l, (_, (_, rest))) = IsQueue-of (c ∷ cs) w e o in
    let older = newest-weaken w.persisted.version c.version cs l in
    record {
      held_first = o.held_first;
      limit_first = o.limit_first;
      current = o.current;
      queue =
          IsQueue-weaken w.alarms.no_later_than w.stored w.alarms.version w.persisted.version
            c.version cs l rest;
      landings = o.landings;
      gather_fit = o.gather_fit;
      gather_new = λ g. let (h, k) = newest_of (c ∷ cs) w e o g in (omega arith, k);
      move_fit = o.move_fit;
      flag = o.flag;
      parked = o.parked;
    }

pub fail-IsOrdered : (w : World) → IsOrdered w → IsOrdered (fail_commit w)
fail-IsOrdered w o = fail_case w.in_flight w refl o
