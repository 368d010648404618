-- ===== src/ActorSqlite/Commits/Later.antt =====
-- src/io/actor-sqlite.ts: a new request that moves the alarm later keeps the order of the alarms.
use mathlib.Core.Path.{subst}
use do_runtime.Common.{
  ℕ, ◌≡◌, refl, sym, ap, Bool, true, false, Option, none, some, if◌then◌else◌, Bool-cases, inl, inr,
  arith,
}
use do_runtime.ActorSqlite.Scheduling.{will_fire_earlier, take_pending}
use do_runtime.ActorSqlite.Commits.{
  Flight, quiet, answered, lost, asked, applied, is_busy, World, move, end_later_on, end_later,
}
use do_runtime.ActorSqlite.Commits.Steps.{
  IsNoLater, IsQueue, IsGathering, is_gathering, IsParked, IsOrdered, IsTimely,
}
use do_runtime.ActorSqlite.Commits.Order.{IsNoLater-trans, IsNoLater-antisym, not_earlier_lem}

-- The new bound of a request is its time.
bound_lem : (a t : Option ℕ) → IsNoLater a t → (if will_fire_earlier a t then t else a) ≡ t
bound_lem a t l = elim (Bool-cases (will_fire_earlier a t)) [
  | inl e ↦ rw (e)
  | inr e ↦ rw (e) (IsNoLater-antisym a t l (not_earlier_lem a t e))
]

idle_any :
    (limit limit' held : Option ℕ) (busy busy' : Bool) (g : Flight)
    → is_gathering g ≡ false
    → IsGathering limit held busy g
    → IsGathering limit' held busy' g
idle_any limit limit' held busy busy' quiet e h = tt
idle_any limit limit' held busy busy' lost e h = tt
idle_any limit limit' held busy busy' answered e h = absurd (ground arith)
idle_any limit limit' held busy busy' (asked waits r) e h = absurd (ground arith)
idle_any limit limit' held busy busy' (applied r) e h = absurd (ground arith)

-- A request for `t`, which no database in sight is before.
moved :
    (t : Option ℕ) (w : World)
    → IsNoLater w.alarms.no_later_than t
    → IsNoLater t w.persisted.alarm
    → IsQueue t w.stored w.alarms.version w.persisted.version w.in_flight
    → is_gathering w.gathering ≡ false
    → IsOrdered w
    → (later : Bool)
    → IsOrdered (record w {
      alarms = record w.alarms { no_later_than = t; later_in_flight = true; pending_later = none };
      moving = asked false (record { time = t; moves_later = later });
    })
moved t w l k q g o later = record {
  held_first = IsNoLater-trans w.held w.alarms.no_later_than t o.held_first l;
  limit_first = k;
  current = o.current;
  queue = q;
  landings = o.landings;
  gather_fit =
      idle_any w.alarms.no_later_than t w.held (is_busy w.moving) true w.gathering g o.gather_fit;
  gather_new = λ e. absurd (ground arith);
  move_fit = refl;
  flag = refl;
  parked = tt;
}

-- The request is sent, with the bound written out.
module _ (t : Option ℕ) (w : World) (l : IsNoLater w.alarms.no_later_than t)
    (k : IsNoLater t w.persisted.alarm)
    (q : IsQueue t w.stored w.alarms.version w.persisted.version w.in_flight)
    (g : is_gathering w.gathering ≡ false) (o : IsOrdered w) where
  pub sent_later : IsOrdered (record w {
    alarms = record w.alarms {
      no_later_than =
          if will_fire_earlier w.alarms.no_later_than t then t else w.alarms.no_later_than;
      later_in_flight = true;
      pending_later = none;
    };
    moving =
        asked false (record { time = t; moves_later = will_fire_earlier w.alarms.no_later_than t });
  })
  sent_later =
      subst
        (λ b. IsOrdered (record w {
          alarms = record w.alarms {
            no_later_than = b;
            later_in_flight = true;
            pending_later = none;
          };
          moving =
              asked false
                (record { time = t; moves_later = will_fire_earlier w.alarms.no_later_than t });
        }))
        (sym (bound_lem w.alarms.no_later_than t l))
        (moved t w l k q g o (will_fire_earlier w.alarms.no_later_than t))

-- Nothing is out, and nothing is parked.
settled :
    (w : World)
    → is_busy w.moving ≡ false
    → IsOrdered w
    → IsOrdered (record w {
      alarms = record w.alarms { later_in_flight = false; pending_later = none };
      moving = quiet;
    })
settled w b o = record {
  held_first = o.held_first;
  limit_first = o.limit_first;
  current = o.current;
  queue = o.queue;
  landings = o.landings;
  gather_fit = subst (λ x. IsGathering w.alarms.no_later_than w.held x w.gathering) b o.gather_fit;
  gather_new = λ e. let (h, _) = o.gather_new e in (h, refl);
  move_fit = tt;
  flag = refl;
  parked = tt;
}

not_gathering :
    (w : World) (t : Option ℕ)
    → w.alarms.pending_later ≡ some t
    → IsOrdered w
    → is_gathering w.gathering ≡ false
not_gathering w t p o = elim (Bool-cases (is_gathering w.gathering)) [
  | inl e ↦ let (_, k) = o.gather_new e in absurd (ground arith)
  | inr e ↦ e
]

drained :
    (p : Option (Option ℕ)) (w : World)
    → w.alarms.pending_later ≡ p
    → w.moving ≡ answered
    → IsTimely p w.persisted.version w
    → IsOrdered w
    → IsOrdered (
        move
          (take_pending p w.stored (record w.alarms { later_in_flight = false }))
          (record w { moving = quiet }))
drained none w p m h o =
    subst
      (λ x. IsOrdered (record w {
        alarms = record w.alarms { later_in_flight = false; pending_later = x };
        moving = quiet;
      }))
      (sym p) (settled w (ap is_busy m) o)
drained (some t) w p m h o = elim (Bool-cases (will_fire_earlier w.stored t)) [
  | inl e ↦ rw (e) (settled w (ap is_busy m) o)
  | inr e ↦
      let (k, q) = h e in
      rw (e) (
        sent_later t w
          (subst (IsParked w.alarms.no_later_than w.alarms.later_in_flight) p o.parked).1 k q
          (not_gathering w t p o) o)
]

end_case :
    (f : Flight) (w : World)
    → w.moving ≡ f
    → IsTimely w.alarms.pending_later w.persisted.version w
    → IsOrdered w
    → IsOrdered (end_later_on f w)
end_case answered w m h o = drained w.alarms.pending_later w refl m h o
end_case quiet w m h o = o
end_case lost w m h o = o
end_case (asked waits r) w m h o = o
end_case (applied r) w m h o = o

pub end_later-IsOrdered :
    (w : World)
    → IsTimely w.alarms.pending_later w.persisted.version w
    → IsOrdered w
    → IsOrdered (end_later w)
end_later-IsOrdered w h o = end_case w.moving w refl h o
