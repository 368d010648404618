-- ===== src/InputGate/Breaking.antt =====
-- What a broken gate does to those that wait at it, and to those that come later.
use do_runtime.Common.{
  ℕ, ◌≡◌, refl, ◌∙◌, false, nat_beq, nat_eq, Bool-cases, Option, none, some, List, [], ◌∷◌, arith,
  inl, inr, ◌⊎◌,
}
use do_runtime.InputGate.{
  Reason, Section, FirstWait, lost, Heap, Outcome, rejected, update, set_first, put_first,
}
use do_runtime.InputGate.Sections.{
  now, wait_here, wait_unless, lose_children, lose_waiters, set_broken,
}
use do_runtime.InputGate.Locks.{set_first-gates}
use do_runtime.InputGate.Waits.{wait_plain}

abbrev pub Occurs : {A : Type 0} → A → List A → Type 0
Occurs x [] = ⊥
Occurs x (y ∷ ys) = (x ≡ y) ⊎ Occurs x ys

put_first-settled :
    (o : Option Section) (s : ℕ) (f : FirstWait) (h : Heap)
    → (put_first o s f h).settled ≡ h.settled
put_first-settled none s f h = refl
put_first-settled (some sec) s f h = refl

lose_children-settled :
    (e : Reason) (ss : List ℕ) (h : Heap) → (lose_children e ss h).settled ≡ h.settled
unfolding lose_children
lose_children-settled e [] h = refl
lose_children-settled e (s ∷ ss) h =
    lose_children-settled e ss (set_first s (lost e) h)
    ∙ put_first-settled (h.sections s) s (lost e) h

lose_children-gates : (e : Reason) (ss : List ℕ) (h : Heap) → (lose_children e ss h).gates ≡ h.gates
unfolding lose_children
lose_children-gates e [] h = refl
lose_children-gates e (s ∷ ss) h =
    lose_children-gates e ss (set_first s (lost e) h) ∙ set_first-gates s (lost e) h

lose_waiters_keeps :
    (e : Reason) (ws : List ℕ) (x : ℕ × Outcome) (settled : List (ℕ × Outcome))
    → Occurs x settled
    → Occurs x (lose_waiters e ws settled)
unfolding lose_waiters
lose_waiters_keeps e [] x settled h = h
lose_waiters_keeps e (w ∷ ws) x settled h =
    lose_waiters_keeps e ws x ((w, rejected e) ∷ settled) (inr h)

lose_waiters_all :
    (e : Reason) (ws : List ℕ) (p : ℕ) (settled : List (ℕ × Outcome))
    → Occurs p ws
    → Occurs (p, rejected e) (lose_waiters e ws settled)
unfolding lose_waiters
lose_waiters_all e [] p settled h = absurd h
lose_waiters_all e (w ∷ ws) p settled (inl is_w) =
    lose_waiters_keeps e ws (p, rejected e) ((w, rejected e) ∷ settled) (inl (rw is_w))
lose_waiters_all e (w ∷ ws) p settled (inr rest) =
    lose_waiters_all e ws p ((w, rejected e) ∷ settled) rest

wait_here_broken :
    (g : ℕ) (e : Reason) (h : Heap)
    → (h.gates g).broken ≡ some e
    → wait_here g h ≡ (now (rejected e), h)
unfolding wait_here
wait_here_broken g e h b = rw (b, wait_here)

put_first-sections :
    (o : Option Section) (s x : ℕ) (f : FirstWait) (h : Heap)
    → h.sections s ≡ o
    → nat_beq s x ≡ false
    → (put_first o s f h).sections x ≡ h.sections x
put_first-sections none s x f h is_o differ = refl
put_first-sections (some sec) s x f h is_o differ = ground (arith, nat_eq.same_iff s x)

-- A section that is lost stays so.
lose_children_keeps :
    (e : Reason) (ss : List ℕ) (x : ℕ) (sec : Section) (h : Heap)
    → h.sections x ≡ some (record sec { first = lost e })
    → (lose_children e ss h).sections x ≡ some (record sec { first = lost e })
unfolding lose_children
lose_children_keeps e [] x sec h is_x = is_x
lose_children_keeps e (s ∷ ss) x sec h is_x =
    lose_children_keeps e ss x sec (set_first s (lost e) h) (elim (Bool-cases (nat_beq s x)) [
      | inl same ↦ let is_s : s ≡ x = ground arith in rw (is_s, is_x, set_first) (ground arith)
      | inr differ ↦ put_first-sections (h.sections s) s x (lost e) h refl differ ∙ is_x
    ])

lose_children_all :
    (e : Reason) (ss : List ℕ) (x : ℕ) (sec : Section) (h : Heap)
    → Occurs x ss
    → h.sections x ≡ some sec
    → (lose_children e ss h).sections x ≡ some (record sec { first = lost e })
unfolding lose_children
lose_children_all e [] x sec h there is_x = absurd there
lose_children_all e (s ∷ ss) x sec h there is_x = elim (Bool-cases (nat_beq s x)) [
  | inl same ↦
      let is_s : s ≡ x = ground arith in
      lose_children_keeps e ss x sec (set_first s (lost e) h)
        (rw (is_s, is_x, set_first) (ground arith))
  | inr differ ↦
      lose_children_all e ss x sec (set_first s (lost e) h)
        (elim there [ inl is_s ↦ absurd (ground arith) | inr rest ↦ rest ])
        (put_first-sections (h.sections s) s x (lost e) h refl differ ∙ is_x)
]

-- Breaking a gate that is no section empties its queues, settles the promise of every waiter there
-- with the exception, rejects with it the first wait of every section that waited there, and then a
-- `wait` at it is rejected with that exception and changes nothing.
pub set_broken_lem :
    (g : ℕ) (e : Reason) (h : Heap)
    → (set_broken g e h).sections g ≡ none
    → ((set_broken g e h).gates g ≡ record {
      lock_count = (h.gates g).lock_count;
      waiters = [];
      waiting_children = [];
      broken = some e;
    })
      × ((p : ℕ) → Occurs p (h.gates g).waiters → Occurs (p, rejected e) (set_broken g e h).settled)
      × ((x : ℕ) (sec : Section)
          → Occurs x (h.gates g).waiting_children
          → h.sections x ≡ some sec
          → (set_broken g e h).sections x ≡ some (record sec { first = lost e }))
      × (wait_unless false g (set_broken g e h) ≡ (now (rejected e), set_broken g e h))
unfolding set_broken wait_unless
set_broken_lem g e h plain =
    let h₁ : Heap = record h {
      gates =
          update h.gates g
            (record (h.gates g) { waiters = []; waiting_children = []; broken = some e });
      settled = lose_waiters e (h.gates g).waiters h.settled;
    } in
    let gates = lose_children-gates e (h.gates g).waiting_children h₁ in
    (
      rw gates (ground arith),
      λ p waits.
          rw (lose_children-settled e (h.gates g).waiting_children h₁)
            (lose_waiters_all e (h.gates g).waiters p h.settled waits),
      λ x sec waits is_x. lose_children_all e (h.gates g).waiting_children x sec h₁ waits is_x,
      wait_plain g g (set_broken g e h) plain
          ∙ wait_here_broken g e (set_broken g e h) (rw gates (ground arith)),
    )
