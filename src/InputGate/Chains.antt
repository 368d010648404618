-- ===== src/InputGate/Chains.antt =====
-- The walk of `parentAsInputGate` over the sections that are done.
use do_runtime.Common.{
  ℕ, zero, suc, ◌≤◌, ◌<◌, ◌≡◌, ◌≢◌, refl, sym, ◌∙◌, Option, none, some, nat_beq, if◌then◌else◌,
  arith, Bool-cases, Option-cases, inl, inr,
}
use do_runtime.InputGate.{resolve, update}

abbrev pub IsOlder : (ℕ → Option ℕ) → Type 0
IsOlder link = (g p : ℕ) → link g ≡ some p → p < g

module _ (link : ℕ → Option ℕ) (older : IsOlder link) where
  pub resolve_le : (f g : ℕ) → resolve f link g ≤ g
  unfolding resolve
  resolve_le zero g = omega arith
  resolve_le (suc f) g = elim (Option-cases (link g)) [
    | inl root ↦ rw (root, resolve) (omega arith)
    | inr (p, up) ↦ rw (up, resolve) (omega (arith, resolve_le f p, older g p up))
  ]

  -- With enough fuel the walk ends at a gate that passes nothing on.
  pub resolve-ends : (f g : ℕ) → g ≤ f → link (resolve f link g) ≡ none
  unfolding resolve
  resolve-ends zero g h = elim (Option-cases (link g)) [
    | inl root ↦ root
    | inr (p, up) ↦ absurd (omega (arith, older g p up))
  ]
  resolve-ends (suc f) g h = elim (Option-cases (link g)) [
    | inl root ↦ rw (root, resolve) root
    | inr (p, up) ↦ rw (up, resolve) (resolve-ends f p (omega (arith, older g p up)))
  ]

  -- A gate that passes nothing on is its own end.
  pub resolve_root : (f g : ℕ) → link g ≡ none → resolve f link g ≡ g
  unfolding resolve
  resolve_root zero g root = refl
  resolve_root (suc f) g root = rw (root, resolve)

  pub resolve_fuel : (f f' g : ℕ) → g ≤ f → g ≤ f' → resolve f link g ≡ resolve f' link g
  unfolding resolve
  resolve_fuel zero f' g h k = elim (Option-cases (link g)) [
    | inl root ↦ sym (resolve_root f' g root)
    | inr (p, up) ↦ absurd (omega (arith, older g p up))
  ]
  resolve_fuel (suc f) zero g h k = elim (Option-cases (link g)) [
    | inl root ↦ resolve_root (suc f) g root
    | inr (p, up) ↦ absurd (omega (arith, older g p up))
  ]
  resolve_fuel (suc f) (suc f') g h k = elim (Option-cases (link g)) [
    | inl root ↦ rw (root, resolve)
    | inr (p, up) ↦
        let less = older g p up in
        rw (up, resolve) (resolve_fuel f f' p (omega arith) (omega arith))
  ]

-- The links, once `g` passes its business on to `p`.
unfoldable pub relinked : (ℕ → Option ℕ) → ℕ → ℕ → ℕ → Option ℕ
relinked link g p = update link g (some p)

pub relinked_self : (link : ℕ → Option ℕ) (g p : ℕ) → relinked link g p g ≡ some p
unfolding relinked
relinked_self link g p = ground arith

pub relinked_ne : (link : ℕ → Option ℕ) (g p x : ℕ) → x ≢ g → relinked link g p x ≡ link x
unfolding relinked
relinked_ne link g p x h = ground arith

module _ (link : ℕ → Option ℕ) (older : IsOlder link) (g p : ℕ) (less : p < g) where
  relinked-IsOlder : IsOlder (relinked link g p)
  unfolding relinked
  relinked-IsOlder x q h = ground (arith, older x q)

  resolve_below : (f x : ℕ) → x < g → resolve f (relinked link g p) x ≡ resolve f link x
  unfolding resolve
  resolve_below zero x h = refl
  resolve_below (suc f) x h =
      let apart = relinked_ne link g p x (omega arith) in
      elim (Option-cases (link x)) [
        | inl root ↦ rw (apart, root, resolve)
        | inr (q, up) ↦
            let q_less = older x q up in rw (apart, up, resolve) (resolve_below f q (omega arith))
      ]

  -- All that ended at `g` ends where `p` does, and the rest stays.
  pub resolve-relinked :
      (f x : ℕ)
      → x ≤ f
      → link g ≡ none
      → resolve f (relinked link g p) x
        ≡ (if nat_beq (resolve f link x) g then resolve p link p else resolve f link x)
  unfolding resolve
  resolve-relinked zero x h root = ground (arith, resolve_le link older 0 x)
  resolve-relinked (suc f) x h root = elim (Bool-cases (nat_beq x g)) [
    | inl same ↦
        let is_g : x ≡ g = ground arith in
        let tail : resolve f (relinked link g p) p ≡ resolve p link p =
          resolve_below f p less ∙ resolve_fuel link older f p p (omega arith) (omega arith) in
        rw (is_g, relinked_self link g p, root, resolve) (rw tail (ground arith))
    | inr differ ↦ elim (Option-cases (link x)) [
      | inl end ↦ rw (relinked_ne link g p x (ground arith), end, resolve) (ground arith)
      | inr (q, up) ↦
          let q_less = older x q up in
          rw (relinked_ne link g p x (ground arith), up, resolve)
            (resolve-relinked f q (omega arith) root)
    ]
  ]
