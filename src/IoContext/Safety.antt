-- ===== src/IoContext/Safety.antt =====
-- Every checkpoint of a context's life ends.
use mathlib.Core.Path.{subst}
use do_runtime.Common.{
  ℕ, suc, ◌<◌, ◌≡◌, ◌≢◌, refl, sym, ap, ◌∙◌, true, false, Option, none, some, List, [], ◌∷◌, String,
  arith, lookup, nat_eq, ok,
}
use do_runtime.InputGate.{Held, Heap, target, fresh_heap, granted}
use do_runtime.InputGate.Sections.{now, wait_unless}
use do_runtime.InputGate.Rules.{IsSound}
use do_runtime.InputGate.Release.{release_lem}
use do_runtime.InputGate.Locks.{fresh_heap-IsSound}
use do_runtime.InputGate.Waits.{wait_unless-IsSound, wait_blocked}
use do_runtime.InputGate.Growth.{wait_unless-IsGrown}
use do_runtime.InputGate.Fresh.{is_live, is_live-lt}
use do_runtime.IoContext.{
  Context, Outcome, open_context, run_event, abort_on, run_held_on, run_on, waited, wait_on,
  checkpoint, contains,
}
use do_runtime.IoContext.Turns.{
  Action, act_all, Turn, slice, event, settled, leased, returned, stopped, turn_end, Reach, opened,
  next,
}
use do_runtime.IoContext.Checkpoints.{Ends, drain-IsDrained}
use do_runtime.IoContext.Kept.{IsGood, grown-IsGood, released-IsGood}
use do_runtime.IoContext.Actions.{is_live-lookup, act_all-IsActed}
use do_runtime.IoContext.Batches.{IsWhole, IsWhole-cons}

pub record IsOpen (c : Context) : Type 0 where
  pub good : IsGood c.gate c.locks c.heap
  pub whole : IsWhole c.locks c.exits

-- What the end of a checkpoint makes of a context.
pub record IsCleared (c : Context) (h : Heap) : Type 0 where
  pub answer : checkpoint c ≡ (ok tt, record c { heap = h; locks = []; exits = [] })
  pub good : IsGood c.gate [] h
  pub ends : Ends c.exits c.heap h
  pub same : target h.sections ≡ target c.heap.sections

pub checkpoint-IsCleared : (c : Context) → IsOpen c → (h : Heap) × IsCleared c h
unfolding checkpoint
checkpoint-IsCleared c w =
    let c' : Context = record c { exits = [] } in
    let (h, d) =
      drain-IsDrained c.exits c'
        (record { sound = w.good.sound; fresh = w.good.fresh; held = w.good.held }) w.whole.batch in
    (
      h,
      record {
        answer = rw (d.answer, w.whole.all) refl;
        good = record {
          sound = d.running.sound;
          fresh = d.running.fresh;
          held = tt;
          exists = rw (d.tree.gates) (w.good.exists);
          plain = d.tree.plain c.gate w.good.plain;
        };
        ends = d.ends;
        same = d.tree.ends;
      },
    )

waited-IsOpen : (c : Context) → IsOpen c → IsOpen (waited (wait_unless false c.gate c.heap) c).1
waited-IsOpen c w =
    let sound = wait_unless-IsSound false c.gate c.heap w.good.exists w.good.sound in
    let grown = wait_unless-IsGrown false c.gate c.heap w.good.fresh in
    record {
      good =
          grown-IsGood c.gate c.locks c.heap w.good (wait_unless false c.gate c.heap).1 sound grown;
      whole = w.whole;
    }

wait_on-IsOpen : (o : Option String) (c : Context) → IsOpen c → IsOpen (wait_on o c).1
wait_on-IsOpen none c w = waited-IsOpen c w
wait_on-IsOpen (some e) c w = w

module _ (l : ℕ) (body : List Action) where
  -- A slice that an abort has stopped gives its lock back.
  refused-IsOpen :
      (e : String) (c : Context)
      → IsOpen c
      → is_live l c.heap ≡ true
      → contains l c.locks ≡ false
      → IsOpen (run_held_on (some e) l (act_all body) c).1
  refused-IsOpen e c w is off =
      let (r, live) = is_live-lookup l c.heap is in
      rw (release_lem c.heap l r live w.good.sound) (record {
        good = released-IsGood c.gate c.locks c.heap w.good l r live off;
        whole = w.whole;
      })

  run-IsOpen :
      (c : Context)
      → IsOpen c
      → is_live l c.heap ≡ true
      → contains l c.locks ≡ false
      → IsOpen (run_on none l (act_all body) c).1
  run-IsOpen c w is off =
      let c' : Context = record c { locks = l ∷ c.locks } in
      let good : IsGood c.gate (l ∷ c.locks) c.heap = record {
        sound = w.good.sound;
        fresh = w.good.fresh;
        held = (is, off, w.good.held);
        exists = w.good.exists;
        plain = w.good.plain;
      } in
      let acted = act_all-IsActed body c' good in
      record {
        good = rw (acted.gate, acted.locks) (acted.good);
        whole = rw (acted.locks, acted.exits) (IsWhole-cons l c.locks c.exits off w.whole);
      }

  run_held_on-IsOpen :
      (o : Option String) (c : Context)
      → c.aborted ≡ o
      → IsOpen c
      → is_live l c.heap ≡ true
      → contains l c.locks ≡ false
      → IsOpen (run_held_on o l (act_all body) c).1
  run_held_on-IsOpen (some e) c is_o w is off = refused-IsOpen e c w is off
  run_held_on-IsOpen none c is_o w is off =
      let c' : Context = record c { pending_events = suc c.pending_events } in
      subst (λ (o : Option String). IsOpen (run_on o l (act_all body) c').1) (sym is_o)
        (run-IsOpen c' (record { good = w.good; whole = w.whole }) is off)

abort_on-IsOpen :
    (o : Option String) (e : String) (c : Context) → IsOpen c → IsOpen (abort_on o e c)
abort_on-IsOpen none e c w = record { good = w.good; whole = w.whole }
abort_on-IsOpen (some f) e c w = w

cleared-IsOpen : (c : Context) (h : Heap) → IsCleared c h → IsOpen (checkpoint c).1
cleared-IsOpen c h w =
    subst (λ (o : Outcome). IsOpen o.1) (sym w.answer)
      (record { good = w.good; whole = record { batch = tt; all = refl } })

pub Turn-IsOpen : {c c' : Context} → Turn c c' → IsOpen c → IsOpen c'
Turn-IsOpen {c} (slice l body is off) w = run_held_on-IsOpen l body c.aborted c refl w is off
Turn-IsOpen {c} event w = wait_on-IsOpen c.aborted c w
Turn-IsOpen settled w = record { good = w.good; whole = w.whole }
Turn-IsOpen leased w = record { good = w.good; whole = w.whole }
Turn-IsOpen (returned false) w = w
Turn-IsOpen (returned true) w = record { good = w.good; whole = w.whole }
Turn-IsOpen {c} (stopped e) w = abort_on-IsOpen c.aborted e c w
Turn-IsOpen {c} turn_end w =
    let (h, cleared) = checkpoint-IsCleared c w in cleared-IsOpen c h cleared

opened-IsOpen : IsOpen (open_context fresh_heap 0)
opened-IsOpen = record {
  good = record {
    sound = fresh_heap-IsSound;
    fresh = tt;
    held = tt;
    exists = omega arith;
    plain = refl;
  };
  whole = record { batch = tt; all = refl };
}

pub Reach-IsOpen : {c : Context} → Reach c → IsOpen c
Reach-IsOpen opened = opened-IsOpen
Reach-IsOpen (next r t) = Turn-IsOpen t (Reach-IsOpen r)

-- In any order of slices, new events, checkpoints, aborts and leases on a new gate, where each slice
-- runs under a live lock that no slice of the batch has, and takes references, starts critical
-- sections, aborts or throws: the end of a checkpoint throws nothing, leaves no lock on the stack
-- and no exit behind, releases the locks of its batch and no other that was given out, and leaves a
-- sound heap.
pub Reach-checkpoint :
    {c : Context}
    → Reach c
    → (h : Heap) × (checkpoint c ≡ (ok tt, record c { heap = h; locks = []; exits = [] }))
      × IsSound h
      × Ends c.exits c.heap h
Reach-checkpoint {c} r =
    let (h, cleared) = checkpoint-IsCleared c (Reach-IsOpen r) in
    (h, cleared.answer, cleared.good.sound, cleared.ends)

wait_on_blocked :
    (o : Option String) (c : Context) (l : ℕ) (q : Held)
    → IsGood c.gate c.locks c.heap
    → lookup l c.heap.locks ≡ some q
    → target c.heap.sections q.gate ≡ c.gate
    → (k : ℕ) → (wait_on o c).0 ≢ ok (now (granted k))
wait_on_blocked none c l q w live end k e =
    wait_blocked false c.gate l q c.heap w.sound w.plain live end k (cc)
wait_on_blocked (some x) c l q w live end k e = cc

-- In the same orders, a live lock that ends at the gate of the context and is not among the exits,
-- such as the reference of an await, keeps the gate shut over the end of the checkpoint: a new event
-- is not let in then.
pub Reach-run_event :
    {c : Context}
    → Reach c
    → (l : ℕ) (q : Held) → lookup l c.heap.locks ≡ some q
    → contains l c.exits ≡ false
    → target c.heap.sections q.gate ≡ c.gate
    → (k : ℕ) → (run_event (checkpoint c).1).0 ≢ ok (now (granted k))
Reach-run_event {c} r l q live off end k =
    let (h, cleared) = checkpoint-IsCleared c (Reach-IsOpen r) in
    let lt : l < c.heap.next_lock =
      is_live-lt l c.heap (Reach-IsOpen r).good.fresh (rw live refl) in
    let live' : lookup l h.locks ≡ some q = cleared.ends l lt ∙ rw off live in
    subst (λ (o : Outcome). (run_event o.1).0 ≢ ok (now (granted k))) (sym cleared.answer)
      (wait_on_blocked c.aborted (record c { heap = h; locks = []; exits = [] }) l q cleared.good
        live' (ap (λ (f : ℕ → ℕ). f q.gate) cleared.same ∙ end) k)
