-- ===== src/AlarmCoordinator/Fire.antt =====
-- src/browser/alarm-coordinator.ts: `fire`, up to the call of `deliver`.
use mathlib.Core.Path.{subst}
use do_runtime.Common.{
  ℕ, zero, suc, ◌+◌, ◌-◌, ◌*◌, ◌^◌, ◌≤◌, min, ◌≡◌, refl, ◌∙◌, Bool, true, false, Option, none, some,
  List, [], ◌∷◌, nat_beq, ltb, if◌then◌else◌, Result, ok, err, Bool-cases, inl, inr, arith,
}
use do_runtime.AlarmScheduler.{AlarmError}
use do_runtime.AlarmScheduler.Ladder.{
  alarm_retry_delay_ms, alarm_retry_delay_ms_lem, alarm_retry_max_tries, retry_backoff_max,
}
use do_runtime.AlarmCoordinator.{Delivery, Journal, Effect, save, create, expected}

-- What a call does: its effects, and the delivery that it goes on with.
pub record Plan : Type 0 where
  pub effects : List Effect
  pub attempt : Option Delivery

abbrev pub found_or_new : ℕ → Option Journal → Journal
found_or_new scheduled (some j) = j
found_or_new scheduled none = record {
  delivery = none;
  projection = record { generation = 0; when = some scheduled };
}

abbrev pub tries_of : Option Delivery → ℕ → ℕ
tries_of none generation = 0
tries_of (some d) generation = if nat_beq d.generation generation then d.retry_count else 0

abbrev pub has_generation : ℕ → List ℕ → Bool
has_generation g [] = false
has_generation g (x ∷ xs) = if nat_beq x g then true else has_generation g xs

abbrev pub next_delivery : Journal → ℕ → ℕ → Delivery
next_delivery j now delay = record {
  generation = j.projection.generation;
  retry_count = min (tries_of j.delivery j.projection.generation + 1) alarm_retry_max_tries;
  wake = now + delay;
}

-- Armed first, journaled second; a generation that is being delivered is not delivered again.
abbrev pub attempt_with : List ℕ → Journal → Delivery → Plan
attempt_with active j d = record {
  effects = create d.wake ∷ save (record j { delivery = some d }) ∷ [];
  attempt = if has_generation d.generation active then none else some d;
}

abbrev pub attempt_on : Result AlarmError ℕ → List ℕ → ℕ → Journal → Plan
attempt_on (ok delay) active now j = attempt_with active j (next_delivery j now delay)
attempt_on (err e) active now j = record { effects = []; attempt = none }

abbrev pub fire_at : Option ℕ → List ℕ → ℕ → ℕ → Journal → Plan
fire_at none active now scheduled j = record { effects = []; attempt = none }
fire_at (some wake) active now scheduled j =
    if ltb scheduled wake
    then record { effects = create wake ∷ []; attempt = none }
    else attempt_on
        (alarm_retry_delay_ms
          (min (tries_of j.delivery j.projection.generation) (alarm_retry_max_tries - 1)))
        active now j

abbrev pub fire_on : List ℕ → ℕ → ℕ → Journal → Plan
fire_on active now scheduled j = fire_at (expected j) active now scheduled j

-- `active` are the generations in `#activeDeliveries`, which end with the worker.
unfoldable pub fire : List ℕ → ℕ → ℕ → Option Journal → Plan
fire active now scheduled journal = fire_on active now scheduled (found_or_new scheduled journal)

-- The delay of an attempt always exists.
pub attempt_delay :
    (n : ℕ)
    → (delay : ℕ) × (alarm_retry_delay_ms (min n (alarm_retry_max_tries - 1)) ≡ ok delay)
      × (delay ≡ 2000 * 2 ^ min n 5)
attempt_delay n = (2000 * 2 ^ min n 5, alarm_retry_delay_ms_lem (min n 5) ∙ rw (low n), refl)
  where
    low : (n : ℕ) → ltb retry_backoff_max (min n 5) ≡ false
    low n = ground arith

power_within : (n : ℕ) → (1 ≤ 2 ^ min n 5) × (2 ^ min n 5 ≤ 32)
power_within zero = (omega arith, omega arith)
power_within (suc zero) = (omega arith, omega arith)
power_within (suc (suc zero)) = (omega arith, omega arith)
power_within (suc (suc (suc zero))) = (omega arith, omega arith)
power_within (suc (suc (suc (suc zero)))) = (omega arith, omega arith)
power_within (suc (suc (suc (suc (suc n))))) =
    let five : min (suc (suc (suc (suc (suc n))))) 5 ≡ 5 = omega arith in
    rw five (omega arith, omega arith)

-- What an attempt that goes on to deliver has done, and when it will be repeated.
pub record IsAttempt (active : List ℕ) (now : ℕ) (j : Journal) (d : Delivery) (es : List Effect)
    : Type 0 where
  pub alone : has_generation d.generation active ≡ false
  pub own : d.generation ≡ j.projection.generation
  pub armed_first : es ≡ create d.wake ∷ save (record j { delivery = some d }) ∷ []
  pub not_soon : now + 2000 ≤ d.wake
  pub not_late : d.wake ≤ now + 64000
  pub tries : d.retry_count ≤ alarm_retry_max_tries

attempt_with-IsAttempt :
    (active : List ℕ) (now : ℕ) (j : Journal) (delay : ℕ) (d : Delivery)
    → 2000 ≤ delay
    → delay ≤ 64000
    → (attempt_with active j (next_delivery j now delay)).attempt ≡ some d
    → IsAttempt active now j d (attempt_with active j (next_delivery j now delay)).effects
attempt_with-IsAttempt active now j delay d low high goes =
    elim (Bool-cases (has_generation j.projection.generation active)) [
      | inl taken ↦ let never : none ≡ some d = rw taken at goes in absurd (cc)
      | inr alone ↦
          let is_d : some (next_delivery j now delay) ≡ some d = rw alone at goes in
          let same : next_delivery j now delay ≡ d = cc in
          subst
            (λ x.
              IsAttempt active now j x (attempt_with active j (next_delivery j now delay)).effects)
            same
            (record {
              alone = alone;
              own = refl;
              armed_first = refl;
              not_soon = omega arith;
              not_late = omega arith;
              tries = omega arith;
            })
    ]

fire_at-IsAttempt :
    (w : Option ℕ) (active : List ℕ) (now scheduled : ℕ) (j : Journal) (d : Delivery)
    → (fire_at w active now scheduled j).attempt ≡ some d
    → IsAttempt active now j d (fire_at w active now scheduled j).effects
fire_at-IsAttempt none active now scheduled j d goes = absurd (cc)
fire_at-IsAttempt (some wake) active now scheduled j d goes =
    elim (Bool-cases (ltb scheduled wake)) [
      | inl early ↦ let never : none ≡ some d = rw (early, fire_at) at goes in absurd (cc)
      | inr due ↦
          let n : ℕ = tries_of j.delivery j.projection.generation in
          let (delay, is_delay, is_power) = attempt_delay n in
          let within = power_within n in
          rw (due, is_delay, fire_at)
            (attempt_with-IsAttempt active now j delay d (omega (arith, is_power, within))
              (omega (arith, is_power, within)) (rw (due, is_delay, fire_at) at goes))
    ]

-- A delivery starts only if its generation is not being delivered; before it starts, an alarm is
-- armed for its repetition and then journaled, at least 2 and at most 64 seconds from now.
pub fire-IsAttempt :
    (active : List ℕ) (now scheduled : ℕ) (journal : Option Journal) (d : Delivery)
    → (fire active now scheduled journal).attempt ≡ some d
    → IsAttempt active now
        (found_or_new scheduled journal)
        d
        (fire active now scheduled journal).effects
unfolding fire
fire-IsAttempt active now scheduled journal d goes =
    fire_at-IsAttempt (expected (found_or_new scheduled journal)) active now scheduled
      (found_or_new scheduled journal) d goes
