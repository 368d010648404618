-- ===== src/IoContext/Actions.antt =====
-- What the body of a slice does keeps the context's rules, and leaves the stack and the batch.
use mathlib.Core.Path.{subst}
use do_runtime.Common.{
  ℕ, ◌≡◌, refl, ◌∙◌, sym, true, false, some, none, List, [], ◌∷◌, String, arith, Option-cases, inl,
  inr, lookup, nat_eq, ok, err, Option,
}
use do_runtime.InputGate.{Held, Heap, new_lock, add_ref}
use do_runtime.InputGate.Tally.{All-lookup}
use do_runtime.InputGate.Rules.{IsOn}
use do_runtime.InputGate.Release.{release_lem}
use do_runtime.InputGate.Sections.{wait_unless}
use do_runtime.InputGate.Waits.{wait_unless-IsSound}
use do_runtime.InputGate.Growth.{wait_unless-IsGrown}
use do_runtime.InputGate.Fresh.{IsFresh, is_live, is_live-lt}
use do_runtime.IoContext.{Context, Outcome, abort_on, get_on, and_then, contains}
use do_runtime.IoContext.Turns.{Action, take_reference, block, stop, throw, act, act_all}
use do_runtime.IoContext.Checkpoints.{IsHeld}
use do_runtime.IoContext.Kept.{
  IsGood, grown-IsGood, new_lock-IsGood, released-IsGood, start_critical_section-IsGood,
}

pub record IsActed (c c' : Context) : Type 0 where
  pub good : IsGood c.gate c.locks c'.heap
  pub gate : c'.gate ≡ c.gate
  pub locks : c'.locks ≡ c.locks
  pub exits : c'.exits ≡ c.exits

abbrev IsKept : Context → Type 0
IsKept c = IsGood c.gate c.locks c.heap

IsActed-refl : (c : Context) → IsKept c → IsActed c c
IsActed-refl c w = record { good = w; gate = refl; locks = refl; exits = refl }

IsActed-IsKept : {c c' : Context} → IsActed c c' → IsKept c'
IsActed-IsKept {c} {c'} w = rw (w.gate, w.locks) (w.good)

IsActed-trans : {c c' c'' : Context} → IsActed c c' → IsActed c' c'' → IsActed c c''
IsActed-trans v w = record {
  good = rw (v.gate, v.locks) at (w.good);
  gate = w.gate ∙ v.gate;
  locks = w.locks ∙ v.locks;
  exits = w.exits ∙ v.exits;
}

-- The next number is of no lock on the stack.
next_lock-contains :
    (h : Heap) (ls : List ℕ) → IsFresh h → IsHeld h ls → contains h.next_lock ls ≡ false
next_lock-contains h [] f w = refl
next_lock-contains h (l ∷ ls) f w =
    ground (arith, is_live-lt l h f w.0, next_lock-contains h ls f w.2)

pub is_live-lookup :
    (l : ℕ) (h : Heap) → is_live l h ≡ true → (r : Held) × (lookup l h.locks ≡ some r)
is_live-lookup l h e = elim (Option-cases (lookup l h.locks)) [
  | inl gone ↦ cc (rw gone at e)
  | inr (r, live) ↦ (r, live)
]

-- `getInputLock` where a slice runs: a new lock beside the one that it runs under.
get_on_lem :
    (l : ℕ) (ls : List ℕ) (c : Context)
    → c.locks ≡ l ∷ ls
    → IsKept c
    → (g : ℕ) × (get_on c.locks c
        ≡ (ok c.heap.next_lock, record c { heap = new_lock g none c.heap }))
      × IsGood c.gate c.locks (new_lock g none c.heap)
unfolding add_ref
get_on_lem l ls c e w =
    let held : IsHeld c.heap (l ∷ ls) = subst (IsHeld c.heap) e w.held in
    let (r, live) = is_live-lookup l c.heap held.0 in
    let (k, on) = All-lookup (IsOn c.heap.next_gate) l c.heap.locks r w.sound.tallied.known live in
    (r.gate, rw (e, live, add_ref) refl, new_lock-IsGood c.gate c.locks c.heap w r.gate on)

act_reference :
    (ls : List ℕ) (c : Context) → c.locks ≡ ls → IsKept c → IsActed c (act take_reference c).1
act_reference [] c e w =
    let same : (act take_reference c).1 ≡ c = simp e in
    subst (IsActed c) (sym same) (IsActed-refl c w)
act_reference (l ∷ ls) c e w =
    let (g, done, good) = get_on_lem l ls c e w in
    rw done (record { good = good; gate = refl; locks = refl; exits = refl })

act_block : (ls : List ℕ) (c : Context) → c.locks ≡ ls → IsKept c → IsActed c (act block c).1
unfolding new_lock
act_block [] c e w =
    let same : (act block c).1 ≡ c = simp e in subst (IsActed c) (sym same) (IsActed-refl c w)
act_block (l ∷ ls) c e w =
    let (g, done, good) = get_on_lem l ls c e w in
    let k : ℕ = c.heap.next_lock in
    let r : Held = record { gate = g; keeper = none } in
    let h : Heap = new_lock g none c.heap in
    let live : lookup k h.locks ≡ some r = ground arith in
    let (h', started, good', same, more) =
      start_critical_section-IsGood c.gate c.locks h good k r live in
    let live' : lookup k h'.locks ≡ some r = rw same live in
    let h'' : Heap = (wait_unless false h.next_gate h').1 in
    let grown = wait_unless-IsGrown false h.next_gate h' good'.fresh in
    let sound = wait_unless-IsSound false h.next_gate h' (omega (arith, more)) good'.sound in
    let good'' = grown-IsGood c.gate c.locks h' good' h'' sound grown in
    let lt = is_live-lt k h' good'.fresh (rw live' refl) in
    let live'' : lookup k h''.locks ≡ some r = grown.kept k lt ∙ live' in
    let off = next_lock-contains c.heap c.locks w.fresh w.held in
    rw (done, started, release_lem h'' k r live'' sound)
      (record {
        good = released-IsGood c.gate c.locks h'' good'' k r live'' off;
        gate = refl;
        locks = refl;
        exits = refl;
      })

abort_on-IsActed :
    (o : Option String) (e : String) (c : Context) → IsKept c → IsActed c (abort_on o e c)
abort_on-IsActed none e c w = record { good = w; gate = refl; locks = refl; exits = refl }
abort_on-IsActed (some f) e c w = IsActed-refl c w

act-IsActed : (a : Action) (c : Context) → IsKept c → IsActed c (act a c).1
act-IsActed take_reference c w = act_reference c.locks c refl w
act-IsActed block c w = act_block c.locks c refl w
act-IsActed (stop e) c w = abort_on-IsActed c.aborted e c w
act-IsActed (throw x) c w = IsActed-refl c w

-- The rest of a body runs if nothing was thrown.
and_then-IsActed :
    (o : Outcome) (f : Context → Outcome) (c : Context)
    → IsActed c o.1
    → ((x : Context) → IsKept x → IsActed x (f x).1)
    → IsActed c (and_then o f).1
and_then-IsActed (ok v, x) f c w rest = IsActed-trans w (rest x (IsActed-IsKept w))
and_then-IsActed (err y, x) f c w rest = w

pub act_all-IsActed : (body : List Action) (c : Context) → IsKept c → IsActed c (act_all body c).1
unfolding act_all
act_all-IsActed [] c w = IsActed-refl c w
act_all-IsActed (a ∷ body) c w =
    and_then-IsActed (act a c) (λ x. act_all body x) c (act-IsActed a c w) (act_all-IsActed body)
