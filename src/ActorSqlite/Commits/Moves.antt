-- ===== src/ActorSqlite/Commits/Moves.antt =====
-- src/io/actor-sqlite.ts: the requests that move the alarm later keep the order of the alarms.
use mathlib.Core.Path.{subst}
use do_runtime.Common.{ℕ, ◌≡◌, refl, sym, ap, ◌∙◌, Bool, true, false, Option, if◌then◌else◌, arith}
use do_runtime.ActorSqlite.Scheduling.{Request}
use do_runtime.ActorSqlite.Commits.{
  Flight, quiet, answered, lost, asked, applied, is_busy, World, grant_later_on, grant_later,
  confirm_later_on, confirm_later, lose_later_on, lose_later,
}
use do_runtime.ActorSqlite.Commits.Steps.{IsNoLater, IsGathering, IsMoving, is_flying, IsOrdered}
use do_runtime.ActorSqlite.Commits.Order.{IsNoLater-refl}

module _ (limit held held' : Option ℕ) where
  -- While a later request is out, the scheduler has done none of a commit ...
  busy_any : (g : Flight) → IsGathering limit held true g → IsGathering limit held' true g
  busy_any quiet h = tt
  busy_any answered h = h
  busy_any lost h = tt
  busy_any (asked waits r) h = h
  busy_any (applied r) (_, (_, (_, e))) = absurd (ground arith)

  -- ... and may when the request has ended.
  free_any : (g : Flight) → IsGathering limit held true g → IsGathering limit held false g
  free_any quiet h = tt
  free_any answered h = refl
  free_any lost h = tt
  free_any (asked waits r) (m, (l, _)) = (m, (l, λ _. refl))
  free_any (applied r) (_, (_, (_, e))) = absurd (ground arith)

module _ (w : World) (o : IsOrdered w) where
  moving_is : (f : Flight) → w.moving ≡ f → IsMoving w.alarms.no_later_than f
  moving_is f g = subst (IsMoving w.alarms.no_later_than) g o.move_fit

  gathering_is :
      (b : Bool) → is_busy w.moving ≡ b → IsGathering w.alarms.no_later_than w.held b w.gathering
  gathering_is b e =
      subst (λ x. IsGathering w.alarms.no_later_than w.held x w.gathering) e o.gather_fit

  applied_later :
      (r : Request)
      → is_busy w.moving ≡ true
      → w.alarms.no_later_than ≡ r.time
      → w.alarms.later_in_flight ≡ true
      → IsOrdered (record w { held = r.time; moving = applied r })
  applied_later r b e l = record {
    held_first = subst (IsNoLater r.time) (sym e) (IsNoLater-refl r.time);
    limit_first = o.limit_first;
    current = o.current;
    queue = o.queue;
    landings = o.landings;
    gather_fit = busy_any w.alarms.no_later_than w.held r.time w.gathering (gathering_is true b);
    gather_new = o.gather_new;
    move_fit = e;
    flag = l;
    parked = o.parked;
  }

  ended :
      is_busy w.moving ≡ true
      → w.alarms.later_in_flight ≡ true
      → IsOrdered (record w { moving = answered })
  ended b l = record {
    held_first = o.held_first;
    limit_first = o.limit_first;
    current = o.current;
    queue = o.queue;
    landings = o.landings;
    gather_fit = free_any w.alarms.no_later_than w.held w.held w.gathering (gathering_is true b);
    gather_new = o.gather_new;
    move_fit = tt;
    flag = l;
    parked = o.parked;
  }

  grant_case : (f : Flight) → w.moving ≡ f → IsOrdered (grant_later_on f w)
  grant_case (asked waits r) g =
      applied_later r (ap is_busy g) (moving_is (asked waits r) g) (o.flag ∙ ap is_flying g)
  grant_case quiet g = o
  grant_case answered g = o
  grant_case lost g = o
  grant_case (applied r) g = o

  pub grant_later-IsOrdered : IsOrdered (grant_later w)
  grant_later-IsOrdered = grant_case w.moving refl

  confirmed :
      (b : Bool) (t : Option ℕ)
      → w.moving ≡ applied (record { time = t; moves_later = b })
      → IsOrdered (record w {
        alarms = record w.alarms { no_later_than = if b then w.alarms.no_later_than else t };
        moving = answered;
      })
  confirmed true t g = ended (ap is_busy g) (o.flag ∙ ap is_flying g)
  confirmed false t g =
      subst
        (λ l.
          IsOrdered
            (record w { alarms = record w.alarms { no_later_than = l }; moving = answered }))
        (moving_is (applied (record { time = t; moves_later = false })) g)
        (ended (ap is_busy g) (o.flag ∙ ap is_flying g))

  confirm_case : (f : Flight) → w.moving ≡ f → IsOrdered (confirm_later_on f w)
  confirm_case (applied r) g = confirmed r.moves_later r.time g
  confirm_case quiet g = o
  confirm_case answered g = o
  confirm_case lost g = o
  confirm_case (asked waits r) g = o

  pub confirm_later-IsOrdered : IsOrdered (confirm_later w)
  confirm_later-IsOrdered = confirm_case w.moving refl

  lose_case : (f : Flight) → w.moving ≡ f → IsOrdered (lose_later_on f w)
  lose_case (asked waits r) g = ended (ap is_busy g) (o.flag ∙ ap is_flying g)
  lose_case (applied r) g = ended (ap is_busy g) (o.flag ∙ ap is_flying g)
  lose_case quiet g = o
  lose_case answered g = o
  lose_case lost g = o

  pub lose_later-IsOrdered : IsOrdered (lose_later w)
  lose_later-IsOrdered = lose_case w.moving refl
