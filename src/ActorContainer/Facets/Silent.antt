-- ===== src/ActorContainer/Facets/Silent.antt =====
-- src/server/actor-container.ts: calls that may make an entry, and the entries that were there before.
use do_runtime.Common.{
  ℕ, ◌+◌, ◌≤◌, ◌<◌, ◌≡◌, refl, ◌∙◌, false, String, nat_beq, Bool-cases, inl, inr, arith, string_eq,
}
use do_runtime.InputGate.{update}
use do_runtime.FacetDeletion.Epochs.{capture, epoch_of, use_once_le, capturing}
use do_runtime.ActorContainer.Facets.{place, Manager, run_operation, new_facet}
use do_runtime.ActorContainer.Facets.Stale.Calm.{
  starts, IsStale, IsCalm, IsStale-kept, run_operation-IsCalm,
}

-- No entry has an epoch that is still to come.
abbrev pub AreCaptured : Manager → Type 0
AreCaptured m =
    (e : ℕ) → e < m.next_entry → (m.entries e).epoch ≤ epoch_of (m.entries e).id m.epochs

-- An entry of before that is stale stays so, and is not started.
pub record IsSilent (m m' : Manager) : Type 0 where
  pub next_entry : m.next_entry ≤ m'.next_entry
  pub stale : (e : ℕ) → e < m.next_entry → IsStale e m → IsStale e m'
  pub silent :
      (e k : ℕ) → e < m.next_entry → IsStale e m → starts e (m'.calls k) ≡ starts e (m.calls k)
  pub captured : AreCaptured m → AreCaptured m'

pub IsCalm-IsSilent : (m m' : Manager) → IsCalm m m' → IsSilent m m'
IsCalm-IsSilent m m' c = record {
  next_entry = rw (c.next_entry) (omega arith);
  stale = λ e old s. IsStale-kept m m' e c s;
  silent = λ e k old s. c.silent e k s;
  captured = λ w e old.
      let grown = c.epochs (m.entries e).id in
      let before = w e (rw (c.next_entry) at old) in rw (c.ids e, c.epoch e) (omega arith);
}

pub IsSilent-trans : (m m' m'' : Manager) → IsSilent m m' → IsSilent m' m'' → IsSilent m m''
IsSilent-trans m m' m'' a b = record {
  next_entry = let x = a.next_entry in let y = b.next_entry in omega arith;
  stale = λ e old s. let x = a.next_entry in b.stale e (omega arith) (a.stale e old s);
  silent = λ e k old s.
      let x = a.next_entry in b.silent e k (omega arith) (a.stale e old s) ∙ a.silent e k old s;
  captured = λ w. b.captured (a.captured w);
}

-- The entry is there, and its placement is still to be queued.
abbrev entered : ℕ → String → Manager → Manager
entered id name m = record m {
  entries = update m.entries m.next_entry (record {
    id = id;
    name = name;
    epoch = (capture id m.epochs).0;
    handle = false;
    rejected = false;
  });
  next_entry = m.next_entry + 1;
  epochs = (capture id m.epochs).1;
}

other_entry : (n e : ℕ) → e < n → nat_beq n e ≡ false
other_entry n e lt = ground arith

entered-IsSilent : (id : ℕ) (name : String) (m : Manager) → IsSilent m (entered id name m)
unfolding capture
entered-IsSilent id name m = record {
  next_entry = omega arith;
  stale = λ e old s.
      let grown = use_once_le (capturing id) (m.entries e).id m.epochs in
      rw (other_entry m.next_entry e old) (omega arith);
  silent = λ e k old s. refl;
  captured = λ w e old. elim (Bool-cases (nat_beq m.next_entry e)) [
    | inl same ↦ rw same (use_once_le (capturing id) id m.epochs)
    | inr differ ↦
        let grown = use_once_le (capturing id) (m.entries e).id m.epochs in
        let before = w e (ground arith) in rw differ (omega arith)
  ];
}

pub new_facet-IsSilent :
    (id_of : String → ℕ) (name : String) (m : Manager) → IsSilent m (new_facet id_of name m)
unfolding new_facet
new_facet-IsSilent id_of name m =
    let m' : Manager = entered (id_of name) name m in
    let c = run_operation-IsCalm (id_of name) (place m.next_entry) m' in
    let s =
      IsSilent-trans m m' (run_operation (id_of name) (place m.next_entry) m')
        (entered-IsSilent (id_of name) name m)
        (IsCalm-IsSilent m' (run_operation (id_of name) (place m.next_entry) m') c) in
    record { next_entry = s.next_entry; stale = s.stale; silent = s.silent; captured = s.captured }
