-- ===== src/InputGate/Fresh.antt =====
-- The numbers of the live locks: a call adds one lock at most, under the next number, and
-- `Lock.release` takes away the lock that it is called on.
use do_runtime.Common.{
  ℕ, ◌-◌, ◌<◌, ◌≤◌, ◌≡◌, refl, ◌∙◌, Bool, true, false, is_some, Option, none, some, List, [], ◌∷◌,
  nat_beq, if◌then◌else◌, arith, Bool-cases, Option-cases, inl, inr, lookup, nat_eq,
}
use do_runtime.InputGate.{
  FirstWait, got, Held, Heap, update, target, new_lock, set_first, fulfill_child, fulfill,
  hand_over, drop_lock,
}
use do_runtime.InputGate.Rules.{target_same}
use do_runtime.InputGate.Release.{released, counted_off}

-- The live locks, the newest first, are all older than `n`.
abbrev pub IsBelow : ℕ → List (ℕ × Held) → Type 0
IsBelow n [] = Unit
IsBelow n ((k, r) ∷ ls) = (k < n) × IsBelow k ls

abbrev pub IsFresh : Heap → Type 0
IsFresh h = IsBelow h.next_lock h.locks

abbrev pub is_live : ℕ → Heap → Bool
is_live l h = is_some (lookup l h.locks)

IsBelow-le : (n m : ℕ) (ls : List (ℕ × Held)) → n ≤ m → IsBelow n ls → IsBelow m ls
IsBelow-le n m [] le w = tt
IsBelow-le n m (x ∷ ls) le w = (omega arith, w.1)

-- A number that is not given out yet is not of a live lock.
lookup_above : (n l : ℕ) (ls : List (ℕ × Held)) → n ≤ l → IsBelow n ls → lookup l ls ≡ none
lookup_above n l [] le w = refl
lookup_above n l ((k, q) ∷ ls) le w = ground (arith, lookup_above k l ls (omega arith) w.1)

is_live-above :
    (k n : ℕ) (ls : List (ℕ × Held)) → IsBelow n ls → n ≤ k → is_some (lookup k ls) ≡ false
is_live-above k n ls w le = rw (lookup_above n k ls le w) refl

lookup-drop_lock :
    (k l n : ℕ) (ls : List (ℕ × Held))
    → IsBelow n ls
    → lookup k (drop_lock l ls) ≡ (if nat_beq l k then none else lookup k ls)
unfolding drop_lock
lookup-drop_lock k l n [] w = ground arith
lookup-drop_lock k l n ((j, q) ∷ ls) w =
    ground (arith, lookup-drop_lock k l j ls w.1, lookup_above j l ls)

drop_lock-IsBelow : (l n : ℕ) (ls : List (ℕ × Held)) → IsBelow n ls → IsBelow n (drop_lock l ls)
unfolding drop_lock
drop_lock-IsBelow l n [] w = tt
drop_lock-IsBelow l n ((j, q) ∷ ls) w = elim (Bool-cases (nat_beq j l)) [
  | inl same ↦ rw same (IsBelow-le j n ls (omega arith) w.1)
  | inr differ ↦ rw differ (w.0, drop_lock-IsBelow l j ls w.1)
]

-- The gates and where they end stay, and numbers are given out upwards.
pub record IsSameTree (h h' : Heap) : Type 0 where
  pub newer : h.next_lock ≤ h'.next_lock
  pub gates : h'.next_gate ≡ h.next_gate
  pub plain : (g : ℕ) → h.sections g ≡ none → h'.sections g ≡ none
  pub ends : target h'.sections ≡ target h.sections

pub IsSameTree-refl : (h : Heap) → IsSameTree h h
IsSameTree-refl h = record { newer = omega arith; gates = refl; plain = λ g e. e; ends = refl }

pub IsSameTree-trans : {h h' h'' : Heap} → IsSameTree h h' → IsSameTree h' h'' → IsSameTree h h''
IsSameTree-trans v w = record {
  newer = omega (arith, v.newer, w.newer);
  gates = w.gates ∙ v.gates;
  plain = λ g e. w.plain g (v.plain g e);
  ends = w.ends ∙ v.ends;
}

-- A call that adds a lock at most.
pub record IsGrown (h h' : Heap) : Type 0 where
  pub fresh : IsFresh h'
  pub kept : (k : ℕ) → k < h.next_lock → lookup k h'.locks ≡ lookup k h.locks
  pub tree : IsSameTree h h'

pub IsGrown-refl : (h : Heap) → IsFresh h → IsGrown h h
IsGrown-refl h w = record { fresh = w; kept = λ k lt. refl; tree = IsSameTree-refl h }

pub new_lock-IsGrown :
    (g : ℕ) (keeper : Option ℕ) (h : Heap) → IsFresh h → IsGrown h (new_lock g keeper h)
unfolding new_lock
new_lock-IsGrown g keeper h w = record {
  fresh = (omega arith, w);
  kept = λ k lt. ground arith;
  tree = record { newer = omega arith; gates = refl; plain = λ x e. e; ends = refl };
}

pub set_first-IsGrown :
    (s : ℕ) (f : FirstWait) (h h' : Heap) → IsGrown h h' → IsGrown h (set_first s f h')
set_first-IsGrown s f h h' w = elim (Option-cases (h'.sections s)) [
  | inl gone ↦ rw (gone, set_first) w
  | inr (sec, is_s) ↦
      rw (is_s, set_first)
        (record {
          fresh = w.fresh;
          kept = w.kept;
          tree = record {
            newer = w.tree.newer;
            gates = w.tree.gates;
            plain = λ g e. ground (arith, w.tree.plain g e);
            ends =
                target_same (update h'.sections s (some (record sec { first = f }))) h'.sections
                  (λ x. ground arith)
                ∙ w.tree.ends;
          };
        })
]

pub hand_over-IsGrown :
    (g : ℕ) (children waiters : List ℕ) (h : Heap)
    → IsFresh h
    → IsGrown h (hand_over g children waiters h)
unfolding fulfill_child fulfill
hand_over-IsGrown g (s ∷ children) waiters h w =
    let h' : Heap = record h {
      gates = update h.gates g (record (h.gates g) { waiting_children = children });
    } in
    let new = new_lock-IsGrown g (some s) h' w in
    set_first-IsGrown s (got h.next_lock) h (new_lock g (some s) h') (record {
      fresh = new.fresh;
      kept = new.kept;
      tree = record {
        newer = new.tree.newer;
        gates = new.tree.gates;
        plain = new.tree.plain;
        ends = new.tree.ends;
      };
    })
hand_over-IsGrown g [] (x ∷ waiters) h w =
    let h' : Heap = record h {
      gates = update h.gates g (record (h.gates g) { waiters = waiters });
    } in
    let new = new_lock-IsGrown g none h' w in
    record {
      fresh = new.fresh;
      kept = new.kept;
      tree = record {
        newer = new.tree.newer;
        gates = new.tree.gates;
        plain = new.tree.plain;
        ends = new.tree.ends;
      };
    }
hand_over-IsGrown g [] [] h w = IsGrown-refl h w

pub released-IsGrown :
    (t l : ℕ) (h : Heap) → IsFresh h → IsGrown (counted_off t l h) (released t l h)
released-IsGrown t l h w =
    let less : IsFresh (counted_off t l h) = drop_lock-IsBelow l h.next_lock h.locks w in
    elim (Bool-cases (nat_beq ((h.gates t).lock_count - 1) 0)) [
      | inl last ↦ rw last (hand_over-IsGrown t _ _ (counted_off t l h) less)
      | inr more ↦ rw more (IsGrown-refl (counted_off t l h) less)
    ]

pub released-IsSameTree : (t l : ℕ) (h : Heap) → IsFresh h → IsSameTree h (released t l h)
released-IsSameTree t l h w =
    let grown = released-IsGrown t l h w in
    record {
      newer = grown.tree.newer;
      gates = grown.tree.gates;
      plain = grown.tree.plain;
      ends = grown.tree.ends;
    }

-- A release ends the lock that it is called on, and no other.
pub lookup-released :
    (k t l : ℕ) (h : Heap)
    → IsFresh h
    → k < h.next_lock
    → lookup k (released t l h).locks ≡ (if nat_beq l k then none else lookup k h.locks)
lookup-released k t l h w lt =
    (released-IsGrown t l h w).kept k lt ∙ lookup-drop_lock k l h.next_lock h.locks w

pub is_live-lt : (k : ℕ) (h : Heap) → IsFresh h → is_live k h ≡ true → k < h.next_lock
is_live-lt k h w e = ground (arith, is_live-above k h.next_lock h.locks w)
