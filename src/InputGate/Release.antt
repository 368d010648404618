-- ===== src/InputGate/Release.antt =====
-- `Lock.release`: the count of the gate, and who gets the gate next.
use mathlib.Core.Path.{subst}
use do_runtime.Common.{
  ℕ, ◌-◌, ◌<◌, ◌≡◌, ◌≢◌, sym, ◌∙◌, true, false, none, some, List, [], ◌∷◌, nat_beq, if◌then◌else◌,
  arith, Bool-cases, Option-cases, inl, inr, lookup, nat_eq, ok,
}
use do_runtime.InputGate.{
  got, Held, Heap, update, forward, target, new_lock, fulfill_child, fulfill, hand_over,
  release_here, release_lock, release, drop_lock, holds_nothing,
}
use do_runtime.InputGate.Tally.{tally-drop_lock, tally_none, All-lookup, All-drop_lock}
use do_runtime.InputGate.Rules.{
  IsTallied, IsIdle, IsSound, IsOn, IsRoot, target_root, target-IsRoot, target_le, target-forward,
}
use do_runtime.InputGate.Locks.{set_first-IsSound, set_gates-IsTallied, new_lock-IsTallied}

-- The heap from which `releaseLock` hands over: the lock is gone, and its gate counts one less.
abbrev pub counted_off : ℕ → ℕ → Heap → Heap
counted_off t l h = record h {
  gates = update h.gates t (record (h.gates t) { lock_count = (h.gates t).lock_count - 1 });
  locks = drop_lock l h.locks;
}

module _ (h : Heap) (l : ℕ) (r : Held) (live : lookup l h.locks ≡ some r) (w : IsSound h) where
  abbrev pub released_from : ℕ
  released_from = target h.sections r.gate

  pub counted_off-IsTallied : IsTallied (counted_off released_from l h)
  counted_off-IsTallied = record {
    counted = λ t. ground (
      arith,
      w.tallied.counted t,
      w.tallied.counted (target h.sections r.gate),
      tally-drop_lock (target h.sections) t l h.locks r live,
    );
    placed = w.tallied.placed;
    known = All-drop_lock (IsOn h.next_gate) l h.locks w.tallied.known;
  }

  -- A live lock is counted where it ends.
  pub counted_pos : 0 < (h.gates released_from).lock_count
  counted_pos = ground (
    arith,
    w.tallied.counted (target h.sections r.gate),
    tally-drop_lock (target h.sections) (target h.sections r.gate) l h.locks r live,
  )

-- Handing a gate over leaves nobody waiting at a gate that nobody holds.
hand_over-IsSound :
    (g : ℕ) (children waiters : List ℕ) (h : Heap)
    → (h.gates g).waiting_children ≡ children
    → (h.gates g).waiters ≡ waiters
    → IsRoot h g
    → g < h.next_gate
    → ((t : ℕ) → t ≢ g → IsIdle (h.gates t))
    → IsTallied h
    → IsSound (hand_over g children waiters h)
unfolding fulfill_child fulfill
hand_over-IsSound g (s ∷ children) waiters h c v root exists others w =
    let ends : target h.sections g ≡ g = target_root h w g root in
    let h' : Heap = record h {
      gates = update h.gates g (record (h.gates g) { waiting_children = children });
    } in
    let w' : IsTallied h' = set_gates-IsTallied h h'.gates (λ t. ground arith) w in
    set_first-IsSound s (got h.next_lock) (new_lock g (some s) h') (record {
      tallied = new_lock-IsTallied g (some s) h' exists w';
      idle = λ t. unfold new_lock in ground (arith, ends, others t);
    })
hand_over-IsSound g [] (x ∷ waiters) h c v root exists others w =
    let ends : target h.sections g ≡ g = target_root h w g root in
    let h' : Heap = record h {
      gates = update h.gates g (record (h.gates g) { waiters = waiters });
    } in
    let w' : IsTallied h' = set_gates-IsTallied h h'.gates (λ t. ground arith) w in
    let next = new_lock-IsTallied g none h' exists w' in
    record {
      tallied = record { counted = next.counted; placed = next.placed; known = next.known };
      idle = λ t. unfold new_lock in ground (arith, ends, others t);
    }
hand_over-IsSound g [] [] h c v root exists others w = record {
  tallied = w;
  idle = λ t. ground (arith, others t, c, v);
}

-- What releasing a lock leaves: the gate counts one less, or it is handed over.
abbrev pub released : ℕ → ℕ → Heap → Heap
released t l h =
    if nat_beq ((h.gates t).lock_count - 1) 0
    then hand_over t (h.gates t).waiting_children (h.gates t).waiters (counted_off t l h)
    else counted_off t l h

module _ (h : Heap) (l : ℕ) (r : Held) (live : lookup l h.locks ≡ some r) (w : IsSound h) where
  exists : target h.sections r.gate < h.next_gate
  exists = omega (
    arith,
    (All-lookup (IsOn h.next_gate) l h.locks r w.tallied.known live).1,
    target_le h w.tallied r.gate,
  )

  release_here_lem :
      release_here (target h.sections r.gate) (record h { locks = drop_lock l h.locks })
      ≡ ok (released (target h.sections r.gate) l h)
  unfolding release_here
  release_here_lem =
      let t : ℕ = target h.sections r.gate in
      let pos = counted_pos h l r live w in
      let first : nat_beq (h.gates t).lock_count 0 ≡ false = ground arith in
      elim (Bool-cases (nat_beq ((h.gates t).lock_count - 1) 0)) [
        | inl last ↦ rw (first, last)
        | inr more ↦ rw (first, more)
      ]

  pub released-IsSound : IsSound (released (target h.sections r.gate) l h)
  released-IsSound =
      let t : ℕ = target h.sections r.gate in
      let less = counted_off-IsTallied h l r live w in
      elim (Bool-cases (nat_beq ((h.gates t).lock_count - 1) 0)) [
        | inl last ↦ rw last (
            hand_over-IsSound t (h.gates t).waiting_children (h.gates t).waiters (counted_off t l h)
              (ground arith) (ground arith) (target-IsRoot h w.tallied r.gate) exists
              (λ x ne. ground (arith, w.idle x)) less)
        | inr more ↦ rw more (record { tallied = less; idle = λ x. ground (arith, w.idle x) })
      ]

clash : {q : ℕ} → none ≡ some q → ⊥
clash e = cc

abbrev IsFreed : Heap → ℕ → Heap → ℕ → Type 0
IsFreed h l h' t = release_here t (record h { locks = drop_lock l h.locks }) ≡ ok h'

-- Whatever became of the lock's gate in the meantime, none of the errors of `releaseLock` occurs.
pub release_lem :
    (h : Heap) (l : ℕ) (r : Held)
    → lookup l h.locks ≡ some r
    → IsSound h
    → release l h ≡ ok (released (target h.sections r.gate) l h)
unfolding release release_lock
release_lem h l r live w = elim (Option-cases (forward h.sections r.gate)) [
  | inl root ↦
      let ends = target_root h w.tallied r.gate root in
      rw (live, release, root, release_lock)
        (subst (IsFreed h l (released (target h.sections r.gate) l h)) ends
          (release_here_lem h l r live w))
  | inr (p, up) ↦
      let ends = target-forward h w.tallied r.gate p up in
      let unused : (h.gates r.gate).lock_count ≡ 0 =
        w.tallied.counted r.gate
        ∙ tally_none (target h.sections) r.gate h.locks (λ x e. clash (
            sym (target-IsRoot h w.tallied x)
            ∙ subst (λ y. forward h.sections y ≡ some p) (sym e) up)) in
      let empty : holds_nothing (h.gates r.gate) ≡ true =
        rw (unused, (w.idle r.gate unused).0, (w.idle r.gate unused).1) in
      rw (live, release, up, release_lock, empty)
        (subst (IsFreed h l (released (target h.sections r.gate) l h)) ends
          (release_here_lem h l r live w))
]

-- A live lock can always be released, with no error, and afterwards again every gate counts its
-- live locks and nobody waits at a gate that nobody holds.
pub release-IsSound :
    (h : Heap) (l : ℕ) (r : Held)
    → lookup l h.locks ≡ some r
    → IsSound h
    → (h' : Heap) × (release l h ≡ ok h') × IsSound h'
release-IsSound h l r live w = (
  released (target h.sections r.gate) l h,
  release_lem h l r live w,
  released-IsSound h l r live w,
)
