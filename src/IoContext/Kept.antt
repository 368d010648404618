-- ===== src/IoContext/Kept.antt =====
-- What the calls of a slice keep of its heap.
use mathlib.Core.Path.{subst}
use do_runtime.Common.{
  ℕ, ◌+◌, ◌<◌, ◌≡◌, refl, true, false, none, some, List, [], ◌∷◌, arith, lookup, nat_eq, ok,
}
use do_runtime.InputGate.{Held, Heap, target, start_critical_section, new_lock, update, new_section}
use do_runtime.InputGate.Rules.{IsSound}
use do_runtime.InputGate.Locks.{new_lock-IsSound, start_critical_section-IsSound}
use do_runtime.InputGate.Release.{released, released-IsSound}
use do_runtime.InputGate.Fresh.{
  IsFresh, is_live, is_live-lt, IsGrown, new_lock-IsGrown, released-IsGrown, released-IsSameTree,
  lookup-released,
}
use do_runtime.IoContext.{contains}
use do_runtime.IoContext.Checkpoints.{IsHeld, IsHeld-kept}

-- A heap whose gate `g` is the root of an actor, on which the locks of the stack are live.
pub record IsGood (g : ℕ) (locks : List ℕ) (h : Heap) : Type 0 where
  pub sound : IsSound h
  pub fresh : IsFresh h
  pub held : IsHeld h locks
  pub exists : g < h.next_gate
  pub plain : h.sections g ≡ none

IsHeld-all :
    (ls : List ℕ) (h h' : Heap)
    → ((k : ℕ) → is_live k h ≡ true → is_live k h' ≡ true)
    → IsHeld h ls
    → IsHeld h' ls
IsHeld-all [] h h' keeps w = tt
IsHeld-all (l ∷ ls) h h' keeps w = (keeps l w.0, w.1, IsHeld-all ls h h' keeps w.2)

module _ (g : ℕ) (locks : List ℕ) (h : Heap) (w : IsGood g locks h) where
  pub grown-IsGood : (h' : Heap) → IsSound h' → IsGrown h h' → IsGood g locks h'
  grown-IsGood h' sound grown = record {
    sound = sound;
    fresh = grown.fresh;
    held =
        IsHeld-all locks h h' (λ k is. ground (arith, grown.kept k, is_live-lt k h w.fresh is))
          w.held;
    exists = rw (grown.tree.gates) (w.exists);
    plain = grown.tree.plain g w.plain;
  }

  pub new_lock-IsGood : (t : ℕ) → t < h.next_gate → IsGood g locks (new_lock t none h)
  new_lock-IsGood t lt =
      grown-IsGood (new_lock t none h) (new_lock-IsSound t none h lt w.sound)
        (new_lock-IsGrown t none h w.fresh)

  pub released-IsGood :
      (l : ℕ) (r : Held)
      → lookup l h.locks ≡ some r
      → contains l locks ≡ false
      → IsGood g locks (released (target h.sections r.gate) l h)
  released-IsGood l r live off =
      let t : ℕ = target h.sections r.gate in
      let tree = released-IsSameTree t l h w.fresh in
      record {
        sound = released-IsSound h l r live w.sound;
        fresh = (released-IsGrown t l h w.fresh).fresh;
        held =
            IsHeld-kept l locks h (released t l h)
              (λ k ne is.
                ground (arith, lookup-released k t l h w.fresh, is_live-lt k h w.fresh is))
              off w.held;
        exists = rw (tree.gates) (w.exists);
        plain = tree.plain g w.plain;
      }

  pub start_critical_section-IsGood :
      (l : ℕ) (r : Held)
      → lookup l h.locks ≡ some r
      → (h' : Heap) × (start_critical_section l h ≡ ok h')
        × IsGood g locks h'
        × (h'.locks ≡ h.locks)
        × (h'.next_gate ≡ h.next_gate + 1)
  unfolding start_critical_section
  start_critical_section-IsGood l r live =
      let h' : Heap = record h {
        sections = update h.sections h.next_gate (some (new_section r.gate));
        next_gate = h.next_gate + 1;
      } in
      let (h'', done, sound) = start_critical_section-IsSound h l r live w.sound in
      let here : start_critical_section l h ≡ ok h' = rw (live, start_critical_section) refl in
      let same : h'' ≡ h' = cc in
      (
        h',
        here,
        record {
          sound = subst IsSound same sound;
          fresh = w.fresh;
          held = w.held;
          exists = omega (arith, w.exists);
          plain = ground (arith, w.exists, w.plain);
        },
        refl,
        refl,
      )
