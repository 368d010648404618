-- ===== src/InputGate/Tally.antt =====
-- How many of the live locks count on a gate.
use do_runtime.Common.{
  ℕ, ◌+◌, ◌<◌, ◌≡◌, ◌≢◌, refl, Bool, some, List, [], ◌∷◌, nat_beq, if◌then◌else◌, arith, Bool-cases,
  inl, inr, lookup, nat_eq, All,
}
use mathlib.Core.Path.{subst}
use do_runtime.InputGate.{Held, drop_lock}
use do_runtime.InputGate.Sections.{hand_out}

abbrev pub one_if : Bool → ℕ
one_if b = if b then 1 else 0

unfoldable pub tally : (ℕ → ℕ) → ℕ → List (ℕ × Held) → ℕ
tally end t [] = 0
tally end t ((l, r) ∷ ls) = one_if (nat_beq (end r.gate) t) + tally end t ls

module _ (end : ℕ → ℕ) (t : ℕ) where
  pub tally-cons :
      (l : ℕ) (r : Held) (ls : List (ℕ × Held))
      → tally end t ((l, r) ∷ ls) ≡ one_if (nat_beq (end r.gate) t) + tally end t ls
  unfolding tally
  tally-cons l r ls = refl

  pub tally-drop_lock :
      (l : ℕ) (ls : List (ℕ × Held)) (r : Held)
      → lookup l ls ≡ some r
      → tally end t ls ≡ one_if (nat_beq (end r.gate) t) + tally end t (drop_lock l ls)
  unfolding tally drop_lock
  tally-drop_lock l [] r h = cc
  tally-drop_lock l ((k, q) ∷ ls) r h = elim (Bool-cases (nat_beq k l)) [
    | inl same ↦
        let is_r : some q ≡ some r = rw same at h in let q_is_r : q ≡ r = cc in rw (same, q_is_r)
    | inr differ ↦ let ih = tally-drop_lock l ls r (rw differ at h) in rw differ (omega arith)
  ]

  pub tally-hand_out : (l : ℕ) (ls : List (ℕ × Held)) → tally end t (hand_out l ls) ≡ tally end t ls
  unfolding tally hand_out
  tally-hand_out l [] = refl
  tally-hand_out l ((k, q) ∷ ls) = ground (arith, tally-hand_out l ls)

  pub tally_none : (ls : List (ℕ × Held)) → ((x : ℕ) → end x ≢ t) → tally end t ls ≡ 0
  unfolding tally
  tally_none [] h = refl
  tally_none ((k, q) ∷ ls) h = ground (arith, tally_none ls h, h q.gate)

  -- A gate that something counts on has a live lock.
  pub tally-some :
      (ls : List (ℕ × Held)) → 0 < tally end t ls → (l : ℕ) × (r : Held) × (lookup l ls ≡ some r)
  unfolding tally
  tally-some [] h = absurd (omega arith)
  tally-some ((k, q) ∷ ls) h = (k, q, ground arith)

pub tally_moved :
    (end end' : ℕ → ℕ) (g p : ℕ) (ls : List (ℕ × Held))
    → p ≢ g
    → ((x : ℕ) → end' x ≡ (if nat_beq (end x) g then p else end x))
    → (t : ℕ)
    → tally end' t ls ≡ (
        if nat_beq t p
        then tally end p ls + tally end g ls
        else if nat_beq t g
        then 0
        else tally end t ls)
unfolding tally
tally_moved end end' g p [] ne h t = ground arith
tally_moved end end' g p ((k, q) ∷ ls) ne h t =
    rw (h q.gate) (ground (arith, tally_moved end end' g p ls ne h t))

module _ (P : ℕ × Held → Type 0) where
  pub All-lookup :
      (l : ℕ) (ls : List (ℕ × Held)) (r : Held)
      → All P ls
      → lookup l ls ≡ some r
      → (k : ℕ) × P (k, r)
  All-lookup l [] r h e = cc
  All-lookup l ((k, q) ∷ ls) r h e = elim (Bool-cases (nat_beq k l)) [
    | inl same ↦ let is_r : some q ≡ some r = rw same at e in (k, subst (λ x. P (k, x)) (cc) h.0)
    | inr differ ↦ All-lookup l ls r h.1 (rw differ at e)
  ]

  pub All-drop_lock : (l : ℕ) (ls : List (ℕ × Held)) → All P ls → All P (drop_lock l ls)
  unfolding drop_lock
  All-drop_lock l [] h = tt
  All-drop_lock l ((k, q) ∷ ls) h = elim (Bool-cases (nat_beq k l)) [
    | inl same ↦ rw same h.1
    | inr differ ↦ rw differ (h.0, All-drop_lock l ls h.1)
  ]
