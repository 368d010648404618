-- ===== src/AlarmScheduler/Restart/Table.antt =====
-- src/server/alarm-scheduler.ts: what the loading of a table gives.
use mathlib.Core.Path.{subst}
use do_runtime.Common.{
  ℕ, ◌≤◌, ◌≡◌, refl, sym, ◌∙◌, Option, none, some, List, [], ◌∷◌, String, ◌==◌, Bool-cases, Bool,
  ◌⊎◌, Option-cases, inl, inr, lookup, string_eq, beq_refl, IsDistinct, arith, ok, All,
}
use do_runtime.AlarmScheduler.{Row, Entry, Scheduler}
use do_runtime.AlarmScheduler.Ladder.{Draw}
use do_runtime.AlarmScheduler.Loading.{load_rows, opened}
use do_runtime.AlarmScheduler.Fits.{IsEntryFit, IsTold, IsPairFit, IsFit, IsSound, IsAt}
use do_runtime.AlarmScheduler.Restart.Rows.{
  IsReadable, IsRevived, IsLoaded, IsRefused, load_row_lem,
}

-- The rows that are still to come are as they were.
abbrev pub IsPending : List (String × Row) → List (String × Row) → Type 0
IsPending pending rows = All (λ x. IsReadable x.1 × (lookup x.0 rows ≡ some x.1)) pending

abbrev pub IsFound : ℕ → String → Row → Scheduler → Type 0
IsFound now a r s' =
    (r' : Row) × (e : Entry) × (lookup a s'.rows ≡ some r')
    × (lookup a s'.alarms ≡ some e)
    × IsPairFit r' e
    × IsRevived now r e

-- What loading them all does.
pub record IsAllLoaded (now : ℕ) (pending : List (String × Row)) (s s' : Scheduler) : Type 0 where
  pub found : (a : String) (r : Row) → lookup a pending ≡ some r → IsFound now a r s'
  pub other :
      (a : String)
      → lookup a pending ≡ none
      → (lookup a s'.rows ≡ lookup a s.rows) × (lookup a s'.alarms ≡ lookup a s.alarms)
  pub distinct : IsDistinct s.rows → IsDistinct s'.rows

still-IsPending :
    (a : String) (o : Option Row) (rows rows' : List (String × Row)) (pending : List (String × Row))
    → lookup a pending ≡ none
    → IsAt a rows o rows'
    → IsPending pending rows
    → IsPending pending rows'
still-IsPending a o rows rows' [] new at h = tt
still-IsPending a o rows rows' ((b, r) ∷ pending) new at h = elim (Bool-cases (b == a)) [
  | inl same ↦ let taken : some r ≡ none = rw same at new in absurd (cc)
  | inr differ ↦ (
    (h.0.0, at b ∙ ground (arith, string_eq.same_iff a b, string_eq.same_iff b a, h.0.1)),
    still-IsPending a o rows rows' pending (rw differ at new) at h.1,
  )
]

then-IsAllLoaded :
    (now : ℕ) (a : String) (r : Row) (pending : List (String × Row)) (s s₁ s' : Scheduler)
    → lookup a pending ≡ none
    → IsLoaded now a r s s₁
    → IsAllLoaded now pending s₁ s'
    → IsAllLoaded now ((a, r) ∷ pending) s s'
then-IsAllLoaded now a r pending s s₁ s' gone_a one more = record {
  found = λ b x is_x. elim (Bool-cases (a == b)) [
    | inl same ↦
        let is_b : a ≡ b = (string_eq.same_iff a b).0 same in
        let others = more.other a gone_a in
        let is_r : some r ≡ some x = rw same at is_x in
        let same_row : r ≡ x = cc in
        subst (λ c. IsFound now c x s') is_b
          (subst (λ y. IsFound now a y s') same_row
            (
              one.row_after,
              one.entry_after,
              others.0 ∙ one.rows_at a ∙ rw (beq_refl a),
              others.1 ∙ one.alarms_at a ∙ rw (beq_refl a),
              one.fit,
              one.revived,
            ))
    | inr differ ↦ more.found b x (rw differ at is_x)
  ];
  other = λ b gone. elim (Bool-cases (a == b)) [
    | inl same ↦ let taken : some r ≡ none = rw same at gone in absurd (cc)
    | inr differ ↦
        let others = more.other b (rw differ at gone) in
        (others.0 ∙ one.rows_at b ∙ rw differ, others.1 ∙ one.alarms_at b ∙ rw differ)
  ];
  distinct = λ x. more.distinct (one.distinct x);
}

pub load_rows_lem :
    (now : ℕ) (random : ℕ → Draw) (refused : ℕ → Bool) (pending : List (String × Row))
    (s : Scheduler)
    → IsDistinct pending
    → IsPending pending s.rows
    → ((s' : Scheduler) × (load_rows now random refused pending s ≡ ok s')
        × IsAllLoaded now pending s s')
      ⊎ IsRefused refused pending (load_rows now random refused pending s)
unfolding load_rows
load_rows_lem now random refused [] s d h = inl (
  s,
  refl,
  record { found = λ a r x. absurd (cc); other = λ a x. (refl, refl); distinct = λ x. x },
)
load_rows_lem now random refused ((a, r) ∷ pending) s d h =
    elim (load_row_lem now random refused a r s h.0.0 h.0.1) [
      | inr (inl broken, n, no_write, throws) ↦ inr (inl broken, n, no_write, rw throws refl)
      | inr (inr never, _, _, _) ↦ absurd never
      | inl (s₁, is_s₁, one) ↦
          elim (load_rows_lem now random refused pending s₁ d.1
            (still-IsPending a (some one.row_after) s.rows s₁.rows pending d.0 one.rows_at h.1)) [
              | inr (which, n, no_write, throws) ↦ inr (inr which, n, no_write, rw is_s₁ throws)
              | inl (s', is_s', more) ↦
                  inl (s', rw is_s₁ is_s', then-IsAllLoaded now a r pending s s₁ s' d.0 one more)
            ]
    ]

told-IsReadable :
    (q : Option ℕ) (r : Row) (e : Entry)
    → IsTold q r e
    → IsEntryFit e
    → r.running ≤ 1
    → IsReadable r
told-IsReadable none r e told fit flag = record {
  backoff = omega (arith, told, fit);
  counted = omega (arith, told, fit);
  previous = ground (arith, told);
  flag = flag;
}
told-IsReadable (some q) r e told fit flag =
    subst IsReadable (sym told)
      (record { backoff = omega arith; counted = omega arith; previous = omega arith; flag = flag })

pub lookup-IsReadable :
    (s : Scheduler) → IsSound s → (a : String) (r : Row) → lookup a s.rows ≡ some r → IsReadable r
lookup-IsReadable s w a r is_r = elim (Option-cases (lookup a s.alarms)) [
  | inl gone ↦ absurd (rw (is_r, gone) at (w.fits a))
  | inr (e, is_e) ↦
      let fit : IsPairFit r e = rw (is_r, is_e) at (w.fits a) in
      told-IsReadable e.queued_alarm r e fit.told fit.entry fit.flag
]

pub all-IsPending :
    (rows : List (String × Row))
    → IsDistinct rows
    → ((a : String) (r : Row) → lookup a rows ≡ some r → IsReadable r)
    → IsPending rows rows
all-IsPending [] d readable = tt
all-IsPending ((a, r) ∷ rows) d readable =
    let here : lookup a ((a, r) ∷ rows) ≡ some r = rw (beq_refl a) in
    (
      (readable a r here, here),
      still-IsPending a (some r) rows ((a, r) ∷ rows) rows d.0 (λ b. refl)
          (all-IsPending rows d.1 (λ b x is_x. elim (Bool-cases (a == b)) [
            | inl same ↦
                let is_b : a ≡ b = (string_eq.same_iff a b).0 same in
                let taken : some x ≡ none = sym is_x ∙ subst (λ c. lookup c rows ≡ none) is_b d.0 in
                absurd (cc)
            | inr differ ↦ readable b x (rw differ is_x)
          ])),
    )

pub found-IsFit :
    (now : ℕ) (s s' : Scheduler)
    → IsAllLoaded now s.rows (opened s.rows) s'
    → (a : String) → IsFit (lookup a s'.rows) (lookup a s'.alarms)
found-IsFit now s s' loaded a = elim (Option-cases (lookup a s.rows)) [
  | inl gone ↦ let others = loaded.other a gone in rw (others.0, others.1, gone) (tt)
  | inr (r, is_r) ↦
      let (r', e, is_r', is_e, fit, revived) = loaded.found a r is_r in rw (is_r', is_e) fit
]
