-- ===== src/ActorSqlite/Commits/Steps.antt =====
-- src/io/actor-sqlite.ts: what the alarms of a database, of its commits and of the scheduler owe
-- each other, and the steps that keep it.
use do_runtime.Common.{ℕ, ◌≤◌, ◌<◌, ◌≡◌, Bool, true, false, Option, none, some, List, [], ◌∷◌}
use do_runtime.ActorSqlite.Scheduling.{will_fire_earlier}
use do_runtime.ActorSqlite.Commits.{
  Flight, quiet, answered, lost, asked, applied, is_busy, Commit, World, open_world, change_alarm,
  begin_commit, grant, confirm, lose, resume_commit, grant_later, confirm_later, lose_later,
  end_later, persist, fail_commit, finish_commit,
}

-- No alarm is one at infinity.
abbrev pub IsNoLater : Option ℕ → Option ℕ → Type 0
IsNoLater a none = Unit
IsNoLater none (some b) = ⊥
IsNoLater (some a) (some b) = a ≤ b

-- A commit in flight, or what is persisted, has the alarm of its version.
abbrev pub IsCurrent : Option ℕ → ℕ → Commit → Type 0
IsCurrent stored version c = c.version ≡ version → c.alarm ≡ stored

-- The commits in flight, with versions from `from` on.
module _ (limit stored : Option ℕ) (version : ℕ) where
  abbrev pub IsQueue : ℕ → List Commit → Type 0
  IsQueue from [] = from ≤ version
  IsQueue from (c ∷ cs) =
      (from ≤ c.version)
      × (IsNoLater limit c.alarm × (IsCurrent stored version c × IsQueue c.version cs))

abbrev pub newest : ℕ → List Commit → ℕ
newest v [] = v
newest v (c ∷ cs) = newest c.version cs

module _ (stored : Option ℕ) (version bound : ℕ) where
  abbrev pub IsLanded : List Commit → Type 0
  IsLanded [] = Unit
  IsLanded (c ∷ cs) = (c.version ≤ bound) × (IsCurrent stored version c × IsLanded cs)

-- A request of a commit only moves the alarm earlier, and none that moves it later is behind it.
abbrev pub IsGathering : Option ℕ → Option ℕ → Bool → Flight → Type 0
IsGathering limit held busy (asked waits r) =
    (r.moves_later ≡ false) × (IsNoLater r.time limit × (waits ≡ false → busy ≡ false))
IsGathering limit held busy (applied r) =
    (r.moves_later ≡ false) × (IsNoLater r.time limit × ((held ≡ r.time) × (busy ≡ false)))
IsGathering limit held busy answered = busy ≡ false
IsGathering limit held busy _ = Unit

abbrev pub is_gathering : Flight → Bool
is_gathering quiet = false
is_gathering lost = false
is_gathering _ = true

abbrev pub IsMoving : Option ℕ → Flight → Type 0
IsMoving limit (asked waits r) = limit ≡ r.time
IsMoving limit (applied r) = limit ≡ r.time
IsMoving limit _ = Unit

abbrev pub is_flying : Flight → Bool
is_flying quiet = false
is_flying _ = true

-- A time is parked only behind a request that is out.
abbrev pub IsParked : Option ℕ → Bool → Option (Option ℕ) → Type 0
IsParked limit flying none = Unit
IsParked limit flying (some t) = (flying ≡ true) × IsNoLater limit t

pub record IsOrdered (w : World) : Type 0 where
  pub held_first : IsNoLater w.held w.alarms.no_later_than
  pub limit_first : IsNoLater w.alarms.no_later_than w.persisted.alarm
  pub current : IsCurrent w.stored w.alarms.version w.persisted
  pub queue :
      IsQueue w.alarms.no_later_than w.stored w.alarms.version w.persisted.version w.in_flight
  pub landings : IsLanded w.stored w.alarms.version w.persisted.version w.landed
  pub gather_fit : IsGathering w.alarms.no_later_than w.held (is_busy w.moving) w.gathering
  pub gather_new :
      is_gathering w.gathering ≡ true
      → (newest w.persisted.version w.in_flight < w.alarms.version)
        × (w.alarms.pending_later ≡ none)
  pub move_fit : IsMoving w.alarms.no_later_than w.moving
  pub flag : w.alarms.later_in_flight ≡ is_flying w.moving
  pub parked : IsParked w.alarms.no_later_than w.alarms.later_in_flight w.alarms.pending_later

-- If the time that is parked is not dropped for an earlier alarm of the local database, it is due no
-- later than any database that is persisted or about to be.
abbrev pub IsTimely : Option (Option ℕ) → ℕ → World → Type 0
IsTimely none v w = Unit
IsTimely (some t) v w =
    will_fire_earlier w.stored t ≡ false
    → IsNoLater t w.persisted.alarm × IsQueue t w.stored w.alarms.version v w.in_flight

-- Every step but the cancellation of a handler and the rollback of a write of the alarm. A time
-- that was parked is dropped, or taken when it is timely.
pub data Step : World → World → Type 0 where
  changing : (t : Option ℕ) (w : World) → Step w (change_alarm t w)
  beginning : (w : World) → Step w (begin_commit w)
  granting : (w : World) → Step w (grant w)
  confirming : (w : World) → Step w (confirm w)
  losing : (w : World) → Step w (lose w)
  resuming : (w : World) → Step w (resume_commit w)
  granting_later : (w : World) → Step w (grant_later w)
  confirming_later : (w : World) → Step w (confirm_later w)
  losing_later : (w : World) → Step w (lose_later w)
  ending_later :
      (w : World) → IsTimely w.alarms.pending_later w.persisted.version w → Step w (end_later w)
  landing : (w : World) → Step w (persist w)
  failing : (w : World) → Step w (fail_commit w)
  finishing : (w : World) → Step w (finish_commit w)

pub data Reach : World → Type 0 where
  opened : (t : Option ℕ) → Reach (open_world t)
  stepped : (w w' : World) → Reach w → Step w w' → Reach w'
