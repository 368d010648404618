-- ===== src/InputGate/Order.antt =====
-- The order in which a gate that becomes free lets in who waits.
use do_runtime.Common.{ℕ, ◌≡◌, refl, some, List, [], ◌∷◌, arith, lookup, nat_eq, ok}
use do_runtime.InputGate.{
  got, Section, Held, Heap, granted, target, new_lock, fulfill_child, fulfill, release,
}
use do_runtime.InputGate.Rules.{IsSound, target-target}
use do_runtime.InputGate.Release.{released, release_lem}

-- What changes from `h` to `h'` when section `s` gets the gate `t` ...
pub record GoesToSection (h : Heap) (t s : ℕ) (children : List ℕ) (sec : Section) (h' : Heap)
    : Type 0 where
  pub got_it : h'.sections s ≡ some (record sec { first = got h.next_lock })
  pub behind : (h'.gates t).waiting_children ≡ children
  pub promises : (h'.gates t).waiters ≡ (h.gates t).waiters
  pub held : (h'.gates t).lock_count ≡ 1
  pub unsettled : h'.settled ≡ h.settled

-- ... and when the promise `p` gets it.
pub record GoesToPromise (h : Heap) (t p : ℕ) (waiters : List ℕ) (h' : Heap) : Type 0 where
  pub got_it : h'.settled ≡ (p, granted h.next_lock) ∷ h.settled
  pub behind : (h'.gates t).waiters ≡ waiters
  pub held : (h'.gates t).lock_count ≡ 1

module _ (h : Heap) (l t : ℕ) (ends : target h.sections t ≡ t)
    (one : (h.gates t).lock_count ≡ 1) where
  released_to_section :
      (s : ℕ) (children : List ℕ) (sec : Section)
      → (h.gates t).waiting_children ≡ s ∷ children
      → h.sections s ≡ some sec
      → GoesToSection h t s children sec (released t l h)
  unfolding fulfill_child new_lock
  released_to_section s children sec waits is_sec =
      rw (one, waits)
        (rw is_sec (record {
          got_it = ground (arith, is_sec);
          behind = ground (arith, ends);
          promises = ground (arith, ends);
          held = ground (arith, ends);
          unsettled = refl;
        }))

  released_to_promise :
      (p : ℕ) (waiters : List ℕ)
      → (h.gates t).waiting_children ≡ []
      → (h.gates t).waiters ≡ p ∷ waiters
      → GoesToPromise h t p waiters (released t l h)
  unfolding fulfill new_lock
  released_to_promise p waiters nobody waits =
      rw (one, nobody, waits)
        (record { got_it = refl; behind = ground (arith, ends); held = ground (arith, ends) })

module _ (h : Heap) (l : ℕ) (r : Held) (live : lookup l h.locks ≡ some r) (w : IsSound h) where
  -- The release of the last lock of a gate gives the gate to the section that has waited longest,
  -- if one waits, even where promises have waited longer: its first wait gets a new lock, and the
  -- promises keep their places.
  pub release_to_section :
      (s : ℕ) (children : List ℕ) (sec : Section)
      → (h.gates (target h.sections r.gate)).lock_count ≡ 1
      → (h.gates (target h.sections r.gate)).waiting_children ≡ s ∷ children
      → h.sections s ≡ some sec
      → (h' : Heap) × (release l h ≡ ok h')
        × GoesToSection h (target h.sections r.gate) s children sec h'
  release_to_section s children sec one waits is_sec = (
    released (target h.sections r.gate) l h,
    release_lem h l r live w,
    released_to_section h l (target h.sections r.gate) (target-target h w.tallied r.gate) one s
        children sec waits is_sec,
  )

  -- If no section waits, the promise that has waited longest is settled with a new lock.
  pub release_to_promise :
      (p : ℕ) (waiters : List ℕ)
      → (h.gates (target h.sections r.gate)).lock_count ≡ 1
      → (h.gates (target h.sections r.gate)).waiting_children ≡ []
      → (h.gates (target h.sections r.gate)).waiters ≡ p ∷ waiters
      → (h' : Heap) × (release l h ≡ ok h')
        × GoesToPromise h (target h.sections r.gate) p waiters h'
  release_to_promise p waiters one nobody waits = (
    released (target h.sections r.gate) l h,
    release_lem h l r live w,
    released_to_promise h l (target h.sections r.gate) (target-target h w.tallied r.gate) one p
        waiters nobody waits,
  )
