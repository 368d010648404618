-- ===== src/StorageVersion/Migration/Loop.antt =====
-- src/util/sqlite-migrations.ts: what the chain of steps leaves in the transaction.
use mathlib.Core.Option.{some-injective}
use do_runtime.Common.{
  ℕ, zero, suc, ◌-◌, ◌≡◌, refl, ap, ◌∙◌, ◌⊎◌, inl, inr, Bool, true, false, Option, none, some, List,
  [], ◌∷◌, ◌&&◌, not, get_elem?, Result, ok, err, arith,
}
use do_runtime.ActorSqlite.Sqlite.{
  Statement, View, is_closed, sqlite_step, commit_transaction, write, Engine,
}
use do_runtime.ActorSqlite.Statements.{view_of}
use do_runtime.StorageVersion.{
  File, Action, rewrites, commits, throws, VersionError, missing_step, closed_transaction,
  step_failed, sql_failed, write_rows, T, chain, run_step, check_open, migrate_one, migrate,
}

-- The rows that the rewrites of a step make, ...
abbrev pub step_rows : {R : Type 0} → List (Action R) → R → R
step_rows [] x = x
step_rows (rewrites f ∷ xs) x = step_rows xs (f x)
step_rows (_ ∷ xs) x = step_rows xs x

abbrev pub rows_on : {R : Type 0} → Option (List (Action R)) → R → R
rows_on none x = x
rows_on (some step) x = step_rows step x

-- ... and those of the steps from a version on.
abbrev pub rows_after : {R : Type 0} → ℕ → List (List (Action R)) → ℕ → R → R
rows_after zero migrations from x = x
rows_after (suc left) migrations from x =
    rows_after left migrations (suc from) (rows_on (get_elem? migrations (from - 1)) x)

-- No step ends the transaction.
abbrev pub is_clean : {R : Type 0} → List (Action R) → Bool
is_clean [] = true
is_clean (commits ∷ xs) = false
is_clean (_ ∷ xs) = is_clean xs

abbrev pub are_clean : {R : Type 0} → List (List (Action R)) → Bool
are_clean [] = true
are_clean (x ∷ xs) = is_clean x && are_clean xs

and_false : (b : Bool) → (b && false) ≡ false
and_false true = refl
and_false false = refl

elem_clean :
    {R : Type 0} (ms : List (List (Action R))) (n : ℕ) (step : List (Action R))
    → get_elem? ms n ≡ some step
    → is_clean step ≡ false
    → are_clean ms ≡ false
elem_clean [] n step e h = absurd (ground arith)
elem_clean (m ∷ ms) zero step e h = rw (ap is_clean (some-injective m step e) ∙ h)
elem_clean (m ∷ ms) (suc n) step e h = rw (elem_clean ms n step e h) (and_false (is_clean m))

module _ {S R : Type 0} (e : Engine S (File R)) (in_transaction : S → Bool)
    (view : S → View (File R))
    (runs : (st : Statement (File R)) (s : S) (v : View (File R))
      → sqlite_step st (view s) ≡ some v
      → (s' : S) × ((e.run st s ≡ (true, s')) × (view s' ≡ v)))
    (refuses : (st : Statement (File R)) (s : S)
      → sqlite_step st (view s) ≡ none
      → (s' : S) × ((e.run st s ≡ (false, s')) × (view s' ≡ view s)))
    (tells : (s : S) → in_transaction s ≡ not (is_closed (view s).begun (view s).marks))
    (f : File R) where
  abbrev pub file_of : R → File R
  file_of x = record { rows = x; version = f.version }

  -- In the transaction, ...
  abbrev pub IsAt : R → S → Type 0
  IsAt x s = view s ≡ view_of (file_of x) f true []

  -- ... or behind a stray COMMIT.
  abbrev pub IsLoose : S → Type 0
  IsLoose s = (x : R) × (view s ≡ view_of (file_of x) (file_of x) false [])

  abbrev pub IsBehind : Result VersionError (Unit {0}) → R → Bool → S → Type 0
  IsBehind (ok _) y clean s = IsAt y s ⊎ (IsLoose s × (clean ≡ false))
  IsBehind (err _) y clean s = ((z : R) × IsAt z s) ⊎ (IsLoose s × (clean ≡ false))

  -- A computation has returned or thrown, in a state.
  abbrev pub Ended :
      Result VersionError (Unit {0}) × S → (Result VersionError (Unit {0}) → S → Type 0) → Type 0
  Ended t P = (r : Result VersionError (Unit {0})) × ((s' : S) × ((t ≡ (r, s')) × P r s'))

  IsLoose-run_step :
      (xs : List (Action R)) (s : S)
      → IsLoose s
      → Ended (run_step e in_transaction xs s) (λ r s'. IsLoose s')
  IsLoose-run_step [] s w = (ok tt, (s, (refl, w)))
  IsLoose-run_step (rewrites g ∷ xs) s (x, w) =
      let (s1, (ran, w1)) =
        runs (write (write_rows g)) s (view_of (file_of (g x)) (file_of (g x)) false [])
          (ap (sqlite_step (write (write_rows g))) w) in
      let (r, (s2, (goes, w2))) = IsLoose-run_step xs s1 (g x, w1) in (r, (s2, (rw (ran) goes, w2)))
  IsLoose-run_step (commits ∷ xs) s (x, w) =
      let (s1, (ran, w1)) = refuses commit_transaction s (ap (sqlite_step commit_transaction) w) in
      (err sql_failed, (s1, (rw (ran), (x, w1 ∙ w))))
  IsLoose-run_step (throws ∷ xs) s w = (err step_failed, (s, (refl, w)))

  loosened : (r : Result VersionError (Unit {0})) (y : R) (s : S) → IsLoose s → IsBehind r y false s
  loosened (ok _) y s w = inr (w, refl)
  loosened (err _) y s w = inr (w, refl)

  step_lem :
      (xs : List (Action R)) (x : R) (s : S)
      → IsAt x s
      → Ended
          (run_step e in_transaction xs s)
          (λ r s'. IsBehind r (step_rows xs x) (is_clean xs) s')
  step_lem [] x s w = (ok tt, (s, (refl, inl w)))
  step_lem (rewrites g ∷ xs) x s w =
      let (s1, (ran, w1)) =
        runs (write (write_rows g)) s (view_of (file_of (g x)) f true [])
          (ap (sqlite_step (write (write_rows g))) w) in
      let (r, (s2, (goes, w2))) = step_lem xs (g x) s1 w1 in (r, (s2, (rw (ran) goes, w2)))
  step_lem (commits ∷ xs) x s w =
      let (s1, (ran, w1)) =
        runs commit_transaction s (view_of (file_of x) (file_of x) false [])
          (ap (sqlite_step commit_transaction) w) in
      let (r, (s2, (goes, w2))) = IsLoose-run_step xs s1 (x, w1) in
      (r, (s2, (rw (ran) goes, loosened r (step_rows xs x) s2 w2)))
  step_lem (throws ∷ xs) x s w = (err step_failed, (s, (refl, inl (x, w))))

  pub open_tells : (x : R) (s : S) → IsAt x s → in_transaction s ≡ true
  open_tells x s w = tells s ∙ ap (λ v. not (is_closed v.begun v.marks)) w

  pub IsLoose-tells : (s : S) → IsLoose s → in_transaction s ≡ false
  IsLoose-tells s (x, w) = tells s ∙ ap (λ v. not (is_closed v.begun v.marks)) w

  -- What holds behind the loop: its rows, in the transaction, or an error.
  abbrev pub IsLooped : Result VersionError (Unit {0}) → R → Bool → S → Type 0
  IsLooped (ok _) y clean s = IsAt y s
  IsLooped (err _) y clean s = ((z : R) × IsAt z s) ⊎ (IsLoose s × (clean ≡ false))

  checked_lem :
      (t : Result VersionError (Unit {0}) × S) (r : Result VersionError (Unit {0})) (from : ℕ)
      (y : R) (clean : Bool) (s : S)
      → t ≡ (r, s)
      → IsBehind r y clean s
      → Ended (chain t (check_open e in_transaction from)) (λ q s'. IsLooped q y clean s')
  checked_lem t (ok _) from y clean s p (inl w) = (ok tt, (s, (rw (p, open_tells y s w), w)))
  checked_lem t (ok _) from y clean s p (inr (w, c)) =
      (err (closed_transaction from), (s, (rw (p, IsLoose-tells s w), inr (w, c))))
  checked_lem t (err x) from y clean s p w = (err x, (s, (rw (p), w)))

  weaken :
      (q : Result VersionError (Unit {0})) (y : R) (clean total : Bool) (s : S)
      → (clean ≡ false → total ≡ false)
      → IsLooped q y clean s
      → IsLooped q y total s
  weaken (ok _) y clean total s h w = w
  weaken (err _) y clean total s h (inl w) = inl w
  weaken (err _) y clean total s h (inr (w, c)) = inr (w, h c)

  one_lem :
      (o : Option (List (Action R))) (from : ℕ) (total : Bool) (x : R) (s : S)
      → ((step : List (Action R)) → o ≡ some step → is_clean step ≡ false → total ≡ false)
      → IsAt x s
      → Ended (migrate_one e in_transaction o from s) (λ q s'. IsLooped q (rows_on o x) total s')
  one_lem none from total x s h w = (err (missing_step from), (s, (refl, inl (x, w))))
  one_lem (some step) from total x s h w =
      let (r, (s1, (ran, w1))) = step_lem step x s w in
      let (q, (s2, (goes, w2))) =
        checked_lem (run_step e in_transaction step s) r from (step_rows step x) (is_clean step) s1
          ran w1 in
      (q, (s2, (goes, weaken q (step_rows step x) (is_clean step) total s2 (h step refl) w2)))

  then_lem :
      (t : Result VersionError (Unit {0}) × S) (q : Result VersionError (Unit {0})) (y z : R)
      (total : Bool) (s : S) (k : T S)
      → t ≡ (q, s)
      → IsLooped q y total s
      → ((s' : S) → IsAt y s' → Ended (k s') (λ q' s2. IsLooped q' z total s2))
      → Ended (chain t k) (λ q' s2. IsLooped q' z total s2)
  then_lem t (ok _) y z total s k p w h =
      let (q, (s2, (goes, w2))) = h s w in (q, (s2, (rw (p) goes, w2)))
  then_lem t (err x) y z total s k p w h = (err x, (s, (rw (p), w)))

  pub loop_lem :
      (left : ℕ) (migrations : List (List (Action R))) (from : ℕ) (x : R) (s : S)
      → IsAt x s
      → Ended
          (migrate e in_transaction left migrations from s)
          (λ q s'. IsLooped q (rows_after left migrations from x) (are_clean migrations) s')
  unfolding migrate
  loop_lem zero migrations from x s w = (ok tt, (s, (refl, w)))
  loop_lem (suc left) migrations from x s w =
      let o = get_elem? migrations (from - 1) in
      let (q, (s1, (ran, w1))) =
        one_lem o from (are_clean migrations) x s
          (λ step is_step c. elem_clean migrations (from - 1) step is_step c) w in
      then_lem (migrate_one e in_transaction o from s) q (rows_on o x)
        (rows_after left migrations (suc from) (rows_on o x)) (are_clean migrations) s1
        (migrate e in_transaction left migrations (suc from)) ran w1
        (λ s' w'. loop_lem left migrations (suc from) (rows_on o x) s' w')
