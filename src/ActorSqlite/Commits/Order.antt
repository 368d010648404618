-- ===== src/ActorSqlite/Commits/Order.antt =====
-- src/io/actor-sqlite.ts: the order of alarms, and of the commits in flight.
use mathlib.Core.Path.{subst}
use do_runtime.Common.{
  ℕ, suc, ◌≤◌, ◌≡◌, refl, sym, true, false, Option, none, some, List, [], ◌∷◌, ◌++◌, ltb→lt,
  Bool-cases, inl, inr, arith,
}
use do_runtime.ActorSqlite.Scheduling.{will_fire_earlier}
use do_runtime.ActorSqlite.Commits.{Commit}
use do_runtime.ActorSqlite.Commits.Steps.{IsNoLater, IsCurrent, IsQueue, newest, IsLanded}

pub IsNoLater-refl : (a : Option ℕ) → IsNoLater a a
IsNoLater-refl none = tt
IsNoLater-refl (some a) = omega arith

pub IsNoLater-trans : (a b c : Option ℕ) → IsNoLater a b → IsNoLater b c → IsNoLater a c
IsNoLater-trans a b none h k = tt
IsNoLater-trans a none (some c) h k = absurd k
IsNoLater-trans none (some b) (some c) h k = absurd h
IsNoLater-trans (some a) (some b) (some c) h k = omega arith

pub earlier_lem : (a b : Option ℕ) → will_fire_earlier a b ≡ true → IsNoLater a b
earlier_lem a none e = tt
earlier_lem none (some b) e = ground arith
earlier_lem (some a) (some b) e = let h = ltb→lt a b e in omega arith

pub not_earlier_lem : (a b : Option ℕ) → will_fire_earlier a b ≡ false → IsNoLater b a
not_earlier_lem none b e = tt
not_earlier_lem (some a) none e = ground arith
not_earlier_lem (some a) (some b) e = ground arith

pub IsNoLater-antisym : (a b : Option ℕ) → IsNoLater a b → IsNoLater b a → a ≡ b
IsNoLater-antisym none none h k = refl
IsNoLater-antisym none (some b) h k = absurd h
IsNoLater-antisym (some a) none h k = absurd k
IsNoLater-antisym (some a) (some b) h k = let same : a ≡ b = omega arith in cc

-- A time that is no later than one is not later than it.
pub earlier-not : (a b : Option ℕ) → will_fire_earlier a b ≡ true → IsNoLater b a → ⊥
earlier-not none b e h = ground arith
earlier-not (some a) none e h = h
earlier-not (some a) (some b) e h = let k = ltb→lt a b e in omega arith

pub earlier_asym : (a b : Option ℕ) → will_fire_earlier a b ≡ true → will_fire_earlier b a ≡ false
earlier_asym a b e = elim (Bool-cases (will_fire_earlier b a)) [
  | inl f ↦ absurd (earlier-not a b e (earlier_lem b a f))
  | inr f ↦ f
]

module _ (stored : Option ℕ) (version : ℕ) where
  pub IsQueue-from :
      (limit : Option ℕ) (from : ℕ) (cs : List Commit)
      → IsQueue limit stored version from cs
      → from ≤ version
  IsQueue-from limit from [] q = q
  IsQueue-from limit from (c ∷ cs) (h, (_, (_, q))) =
      let k = IsQueue-from limit c.version cs q in omega arith

  pub IsQueue-lower :
      (limit limit' : Option ℕ) (from : ℕ) (cs : List Commit)
      → IsNoLater limit' limit
      → IsQueue limit stored version from cs
      → IsQueue limit' stored version from cs
  IsQueue-lower limit limit' from [] l q = q
  IsQueue-lower limit limit' from (c ∷ cs) l (h, (a, (e, q))) = (
    h,
    (IsNoLater-trans limit' limit c.alarm l a, (e, IsQueue-lower limit limit' c.version cs l q)),
  )

  -- A change of the alarm leaves the older commits behind.
  pub IsQueue-change :
      (limit stored' : Option ℕ) (from : ℕ) (cs : List Commit)
      → IsQueue limit stored version from cs
      → IsQueue limit stored' (suc version) from cs
  IsQueue-change limit stored' from [] q = omega arith
  IsQueue-change limit stored' from (c ∷ cs) (h, (a, (e, q))) =
      let k = IsQueue-from limit c.version cs q in
      (h, (a, (λ same. absurd (omega arith), IsQueue-change limit stored' c.version cs q)))

  pub IsQueue-append :
      (limit : Option ℕ) (from : ℕ) (cs : List Commit)
      → IsNoLater limit stored
      → IsQueue limit stored version from cs
      → IsQueue limit stored version from (cs ++ record { alarm = stored; version = version } ∷ [])
  IsQueue-append limit from [] l q = (q, (l, (λ _. refl, omega arith)))
  IsQueue-append limit from (c ∷ cs) l (h, (a, (e, q))) =
      (h, (a, (e, IsQueue-append limit c.version cs l q)))

  -- The commits of the present version have the present alarm.
  pub IsQueue-raise :
      (limit : Option ℕ) (from : ℕ) (cs : List Commit)
      → from ≡ version
      → IsQueue limit stored version from cs
      → IsQueue stored stored version from cs
  IsQueue-raise limit from [] v q = q
  IsQueue-raise limit from (c ∷ cs) v (h, (a, (e, q))) =
      let k = IsQueue-from limit c.version cs q in
      let same : c.version ≡ version = omega arith in
      (
        h,
        (
          subst (IsNoLater stored) (sym (e same)) (IsNoLater-refl stored),
          (e, IsQueue-raise limit c.version cs same q),
        ),
      )

  pub newest-from :
      (limit : Option ℕ) (from : ℕ) (cs : List Commit)
      → IsQueue limit stored version from cs
      → from ≤ newest from cs
  newest-from limit from [] q = omega arith
  newest-from limit from (c ∷ cs) (h, (_, (_, q))) =
      let k = newest-from limit c.version cs q in omega arith

  pub newest-bound :
      (limit : Option ℕ) (from : ℕ) (cs : List Commit)
      → IsQueue limit stored version from cs
      → newest from cs ≤ version
  newest-bound limit from [] q = q
  newest-bound limit from (c ∷ cs) (h, (_, (_, q))) = newest-bound limit c.version cs q

  -- If the newest commit is of this version, then the limit is no later than the alarm.
  pub newest-limit :
      (limit : Option ℕ) (c : Commit) (cs : List Commit)
      → IsNoLater limit c.alarm
      → IsCurrent stored version c
      → IsQueue limit stored version c.version cs
      → newest c.version cs ≡ version
      → IsNoLater limit stored
  newest-limit limit c [] l e q v = subst (IsNoLater limit) (e v) l
  newest-limit limit c (d ∷ cs) l e (h, (l', (e', q))) v = newest-limit limit d cs l' e' q v

module _ (stored : Option ℕ) (version : ℕ) where
  pub IsLanded-change :
      (stored' : Option ℕ) (bound : ℕ) (cs : List Commit)
      → bound ≤ version
      → IsLanded stored version bound cs
      → IsLanded stored' (suc version) bound cs
  IsLanded-change stored' bound [] b w = tt
  IsLanded-change stored' bound (c ∷ cs) b (h, (_, w)) =
      (h, (λ same. absurd (omega arith), IsLanded-change stored' bound cs b w))

  pub IsLanded-append :
      (bound : ℕ) (c : Commit) (cs : List Commit)
      → bound ≤ c.version
      → IsCurrent stored version c
      → IsLanded stored version bound cs
      → IsLanded stored version c.version (cs ++ c ∷ [])
  IsLanded-append bound c [] b e w = (omega arith, (e, tt))
  IsLanded-append bound c (d ∷ cs) b e (h, (e', w)) =
      (omega arith, (e', IsLanded-append bound c cs b e w))

pub IsQueue-weaken :
    (limit stored : Option ℕ) (version from from' : ℕ) (cs : List Commit)
    → from ≤ from'
    → IsQueue limit stored version from' cs
    → IsQueue limit stored version from cs
IsQueue-weaken limit stored version from from' [] l q = omega arith
IsQueue-weaken limit stored version from from' (c ∷ cs) l (h, q) = (omega arith, q)

pub newest-weaken :
    (from from' : ℕ) (cs : List Commit) → from ≤ from' → newest from cs ≤ newest from' cs
newest-weaken from from' [] l = l
newest-weaken from from' (c ∷ cs) l = omega arith
