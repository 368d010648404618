-- ===== src/IoContext/Batches.antt =====
-- A batch of exits that is all of the stack.
use do_runtime.Common.{
  ℕ, ◌≡◌, refl, ap, ◌∙◌, true, false, List, [], ◌∷◌, ◌++◌, nat_beq, arith, nat_eq,
}
use do_runtime.IoContext.{contains, remove}
use do_runtime.IoContext.Checkpoints.{IsBatch, remove_all, contains-remove}

-- The exits are the locks of the stack, each once.
pub record IsWhole (locks exits : List ℕ) : Type 0 where
  pub batch : IsBatch locks exits
  pub all : remove_all exits locks ≡ []

differ :
    (l e : ℕ) (locks : List ℕ)
    → contains l locks ≡ false
    → contains e locks ≡ true
    → nat_beq l e ≡ false
differ l e locks off on = ground arith

remove-cons :
    (l e : ℕ) (locks : List ℕ)
    → contains l locks ≡ false
    → contains e locks ≡ true
    → remove e (l ∷ locks) ≡ l ∷ remove e locks
remove-cons l e locks off on = rw (differ l e locks off on) refl

IsBatch-append :
    (l : ℕ) (es locks : List ℕ)
    → contains l locks ≡ false
    → IsBatch locks es
    → IsBatch (l ∷ locks) (es ++ l ∷ [])
IsBatch-append l [] locks off batch = (ground arith, tt)
IsBatch-append l (e ∷ es) locks off batch = (
  ground (arith, batch.0),
  rw (remove-cons l e locks off batch.0)
      (IsBatch-append l es (remove e locks) (contains-remove l e locks off) batch.1),
)

remove_all-append :
    (l : ℕ) (es locks : List ℕ)
    → contains l locks ≡ false
    → IsBatch locks es
    → remove_all (es ++ l ∷ []) (l ∷ locks) ≡ remove_all es locks
remove_all-append l [] locks off batch = ground arith
remove_all-append l (e ∷ es) locks off batch =
    ap (remove_all (es ++ l ∷ [])) (remove-cons l e locks off batch.0)
    ∙ (remove_all-append l es (remove e locks) (contains-remove l e locks off) batch.1)

-- A slice that runs and ends joins the stack and the batch.
pub IsWhole-cons :
    (l : ℕ) (locks exits : List ℕ)
    → contains l locks ≡ false
    → IsWhole locks exits
    → IsWhole (l ∷ locks) (exits ++ l ∷ [])
IsWhole-cons l locks exits off w = record {
  batch = IsBatch-append l exits locks off w.batch;
  all = rw (remove_all-append l exits locks off w.batch) (w.all);
}
