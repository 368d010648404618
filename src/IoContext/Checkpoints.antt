-- ===== src/IoContext/Checkpoints.antt =====
-- The end of a microtask checkpoint, `#exit` of every slice of a batch.
use do_runtime.Common.{
  ℕ, ◌<◌, ◌≡◌, ◌≢◌, refl, true, false, none, List, [], ◌∷◌, nat_beq, if◌then◌else◌, arith,
  Bool-cases, Option-cases, inl, inr, lookup, nat_eq, ok,
}
use do_runtime.InputGate.{Heap, target}
use do_runtime.InputGate.Rules.{IsSound}
use do_runtime.InputGate.Release.{release_lem, released, released-IsSound}
use do_runtime.InputGate.Fresh.{
  IsFresh, is_live, released-IsGrown, IsSameTree, IsSameTree-refl, IsSameTree-trans,
  lookup-released, is_live-lt, released-IsSameTree,
}
use do_runtime.IoContext.{Context, contains, remove, exit, then_drain, first_failure, drain}

-- Locks that are live, and all different.
abbrev pub IsHeld : Heap → List ℕ → Type 0
IsHeld h [] = Unit
IsHeld h (l ∷ ls) = (is_live l h ≡ true) × (contains l ls ≡ false) × IsHeld h ls

pub record IsRunning (c : Context) : Type 0 where
  pub sound : IsSound c.heap
  pub fresh : IsFresh c.heap
  pub held : IsHeld c.heap c.locks

-- The locks that a batch leaves on the stack, and a batch whose locks are all on it.
abbrev pub remove_all : List ℕ → List ℕ → List ℕ
remove_all [] locks = locks
remove_all (l ∷ ls) locks = remove_all ls (remove l locks)

abbrev pub IsBatch : List ℕ → List ℕ → Type 0
IsBatch locks [] = Unit
IsBatch locks (l ∷ ls) = (contains l locks ≡ true) × IsBatch (remove l locks) ls

-- The locks of a batch are released, and no other lock is.
abbrev pub Ends : List ℕ → Heap → Heap → Type 0
Ends ls h h' =
    (k : ℕ)
    → k < h.next_lock
    → lookup k h'.locks ≡ (if contains k ls then none else lookup k h.locks)

contains-IsHeld :
    (l : ℕ) (ls : List ℕ) (h : Heap) → IsHeld h ls → contains l ls ≡ true → is_live l h ≡ true
contains-IsHeld l [] h w e = cc
contains-IsHeld l (k ∷ ks) h w e = ground (arith, contains-IsHeld l ks h w.2)

pub contains-remove :
    (k l : ℕ) (ls : List ℕ) → contains k ls ≡ false → contains k (remove l ls) ≡ false
contains-remove k l [] e = refl
contains-remove k l (j ∷ js) e = ground (arith, contains-remove k l js)

abbrev pub KeepsOthers : ℕ → Heap → Heap → Type 0
KeepsOthers l h h' = (k : ℕ) → k ≢ l → is_live k h ≡ true → is_live k h' ≡ true

pub IsHeld-kept :
    (l : ℕ) (ls : List ℕ) (h h' : Heap)
    → KeepsOthers l h h'
    → contains l ls ≡ false
    → IsHeld h ls
    → IsHeld h' ls
IsHeld-kept l [] h h' keeps e w = tt
IsHeld-kept l (k ∷ ks) h h' keeps e w =
    (keeps k (ground arith) w.0, w.1, IsHeld-kept l ks h h' keeps (ground arith) w.2)

IsHeld-remove :
    (l : ℕ) (ls : List ℕ) (h h' : Heap) → KeepsOthers l h h' → IsHeld h ls → IsHeld h' (remove l ls)
IsHeld-remove l [] h h' keeps w = tt
IsHeld-remove l (k ∷ ks) h h' keeps w = elim (Bool-cases (nat_beq k l)) [
  | inl same ↦ rw same (IsHeld-kept l ks h h' keeps (ground arith) w.2)
  | inr differ ↦
      rw differ
        (keeps k (ground arith) w.0, contains-remove k l ks w.1, IsHeld-remove l ks h h' keeps w.2)
]

-- What `#exit` makes of a context.
pub record IsExited (l : ℕ) (c : Context) (h : Heap) : Type 0 where
  pub answer : exit l c ≡ (ok tt, record c { heap = h; locks = remove l c.locks })
  pub running : IsRunning (record c { heap = h; locks = remove l c.locks })
  pub tree : IsSameTree c.heap h
  pub ends : Ends (l ∷ []) c.heap h

pub exit-IsExited :
    (l : ℕ) (c : Context) → IsRunning c → contains l c.locks ≡ true → (h : Heap) × IsExited l c h
exit-IsExited l c w on =
    let e = contains-IsHeld l c.locks c.heap w.held on in
    elim (Option-cases (lookup l c.heap.locks)) [
      | inl gone ↦ cc (rw gone at e)
      | inr (r, live) ↦
          let t : ℕ = target c.heap.sections r.gate in
          let h' : Heap = released t l c.heap in
          let grown = released-IsGrown t l c.heap w.fresh in
          (
            h',
            record {
              answer = rw (on, exit, release_lem c.heap l r live w.sound) refl;
              running = record {
                sound = released-IsSound c.heap l r live w.sound;
                fresh = grown.fresh;
                held =
                    IsHeld-remove l c.locks c.heap h'
                      (λ k ne is.
                        ground (
                          arith,
                          lookup-released k t l c.heap w.fresh,
                          is_live-lt k c.heap w.fresh,
                        ))
                      w.held;
              };
              tree = released-IsSameTree t l c.heap w.fresh;
              ends = λ k lt. ground (arith, lookup-released k t l c.heap w.fresh lt);
            },
          )
    ]

-- What a batch makes of a context.
pub record IsDrained (ls : List ℕ) (c : Context) (h : Heap) : Type 0 where
  pub answer : drain ls c ≡ (ok tt, record c { heap = h; locks = remove_all ls c.locks })
  pub running : IsRunning (record c { heap = h; locks = remove_all ls c.locks })
  pub tree : IsSameTree c.heap h
  pub ends : Ends ls c.heap h

pub drain-IsDrained :
    (ls : List ℕ) (c : Context) → IsRunning c → IsBatch c.locks ls → (h : Heap) × IsDrained ls c h
unfolding drain
drain-IsDrained [] c w b = (
  c.heap,
  record { answer = refl; running = w; tree = IsSameTree-refl c.heap; ends = λ k lt. refl },
)
drain-IsDrained (l ∷ ls) c w b =
    let (h, first) = exit-IsExited l c w b.0 in
    let c' : Context = record c { heap = h; locks = remove l c.locks } in
    let (h', rest) = drain-IsDrained ls c' first.running b.1 in
    (
      h',
      record {
        answer = rw (first.answer, then_drain, first_failure) rest.answer;
        running = rest.running;
        tree = IsSameTree-trans first.tree rest.tree;
        ends = λ k lt. ground (arith, first.tree.newer, first.ends k lt, rest.ends k);
      },
    )
