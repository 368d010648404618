-- ===== src/AlarmCoordinator.antt =====
-- src/browser/alarm-coordinator.ts: `BrowserAlarmCoordinator`, which keeps one physical alarm of
-- the browser in step with the wake of a scheduler. An operation loads the journal and then makes
-- effects one by one; the background worker may be stopped behind any of them. `#mutate` runs the
-- operations one after the other.
pub mod Fire
pub mod Crashes
pub mod Wakes
use do_runtime.Common.{
  ℕ, zero, suc, ◌+◌, max, min, Bool, true, false, Option, none, some, List, [], ◌∷◌, ◌&&◌, nat_beq,
  ltb, not, if◌then◌else◌, take,
}

pub record Projection : Type 0 where
  pub generation : ℕ
  pub when : Option ℕ

pub record Delivery : Type 0 where
  pub generation : ℕ
  pub retry_count : ℕ
  pub wake : ℕ

pub record Journal : Type 0 where
  pub delivery : Option Delivery
  pub projection : Projection

-- What outlives the worker: the journal of the store, and the browser's alarm.
pub record Disk : Type 0 where
  pub journal : Option Journal
  pub physical : Option ℕ

pub data Effect : Type 0 where
  save : Journal → Effect
  create : ℕ → Effect
  clear : Effect

abbrev pub run_effect : Effect → Disk → Disk
run_effect (save j) d = record d { journal = some j }
run_effect (create t) d = record d { physical = some t }
run_effect clear d = record d { physical = none }

abbrev pub run : List Effect → Disk → Disk
run [] d = d
run (e ∷ es) d = run es (run_effect e d)

abbrev pub same_when : Option ℕ → Option ℕ → Bool
same_when none none = true
same_when (some a) (some b) = nat_beq a b
same_when _ _ = false

-- `#apply`.
abbrev pub apply : Option ℕ → List Effect
apply none = clear ∷ []
apply (some t) = create t ∷ []

abbrev pub replace_with : Projection → List Effect
replace_with p = save (record { delivery = none; projection = p }) ∷ apply p.when

abbrev pub project_on : Option Delivery → Projection → Projection → List Effect
project_on none old p = replace_with p
project_on (some d) old p =
    if nat_beq p.generation old.generation && same_when p.when old.when
    then []
    else save (record { delivery = some d; projection = p }) ∷ []

-- `project`.
unfoldable pub project : Projection → Option Journal → List Effect
project p none = replace_with p
project p (some j) =
    if ltb p.generation j.projection.generation then [] else project_on j.delivery j.projection p

abbrev pub reconcile_on : Option Delivery → ℕ → Projection → List Effect
reconcile_on (some d) now p = create (max d.wake now) ∷ []
reconcile_on none now p = apply p.when

-- `reconcile`.
unfoldable pub reconcile : ℕ → Option Journal → List Effect
reconcile now none = []
reconcile now (some j) = reconcile_on j.delivery now j.projection

-- The end of `fire`, with the projection that the delivery has brought back.
unfoldable pub acknowledge : Projection → Option Journal → List Effect
acknowledge p none = replace_with p
acknowledge p (some j) = if ltb p.generation j.projection.generation then [] else replace_with p

abbrev pub wake_or : Option Delivery → Option ℕ → Option ℕ
wake_or (some d) when = some d.wake
wake_or none when = when

-- The wake that the journal asks for.
abbrev pub expected : Journal → Option ℕ
expected j = wake_or j.delivery j.projection.when
