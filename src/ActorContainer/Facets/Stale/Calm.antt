-- ===== src/ActorContainer/Facets/Stale/Calm.antt =====
-- src/server/actor-container.ts: calls that make no entry, and what is stale.
use do_runtime.Common.{
  ℕ, ◌+◌, ◌≤◌, ◌<◌, ◌≡◌, refl, ◌∙◌, false, List, [], ◌∷◌, ◌++◌, String, nat_beq, if◌then◌else◌,
  Bool-cases, inl, inr, arith, string_eq,
}
use do_runtime.FacetDeletion.Epochs.{epoch_of}
use do_runtime.ActorContainer.Facets.{
  Operation, place, asked, stubbing, teardown, over, HostCall, start, abort, Manager, set_queue,
  call_host, begin, run_behind, run_operation, next_of,
}

-- How often the host was told to start an entry.
abbrev pub starts : ℕ → List HostCall → ℕ
starts e [] = 0
starts e (start x ∷ xs) = if nat_beq x e then 1 + starts e xs else starts e xs
starts e (abort reason ∷ xs) = starts e xs

starts-abort :
    (e : ℕ) (xs : List HostCall) (reason : String)
    → starts e (xs ++ abort reason ∷ []) ≡ starts e xs
starts-abort e [] reason = refl
starts-abort e (start x ∷ xs) reason = ground (arith, starts-abort e xs reason)
starts-abort e (abort r ∷ xs) reason = starts-abort e xs reason

pub starts-other :
    (e x : ℕ) (xs : List HostCall)
    → nat_beq x e ≡ false
    → starts e (xs ++ start x ∷ []) ≡ starts e xs
starts-other e x [] other = rw other refl
starts-other e x (start y ∷ xs) other = ground (arith, starts-other e x xs other)
starts-other e x (abort r ∷ xs) other = starts-other e x xs other

-- The epoch of the entry is over.
abbrev pub IsStale : ℕ → Manager → Type 0
IsStale e m = (m.entries e).epoch < epoch_of (m.entries e).id m.epochs

-- A call that makes no entry: epochs only grow, and an entry that is stale is not started.
pub record IsCalm (m m' : Manager) : Type 0 where
  pub next_entry : m'.next_entry ≡ m.next_entry
  pub epochs : (k : ℕ) → epoch_of k m.epochs ≤ epoch_of k m'.epochs
  pub ids : (e : ℕ) → (m'.entries e).id ≡ (m.entries e).id
  pub epoch : (e : ℕ) → (m'.entries e).epoch ≡ (m.entries e).epoch
  pub silent : (e k : ℕ) → IsStale e m → starts e (m'.calls k) ≡ starts e (m.calls k)

pub IsCalm-refl : (m : Manager) → IsCalm m m
IsCalm-refl m = record {
  next_entry = refl;
  epochs = λ k. omega arith;
  ids = λ e. refl;
  epoch = λ e. refl;
  silent = λ e k stale. refl;
}

pub IsStale-kept : (m m' : Manager) (e : ℕ) → IsCalm m m' → IsStale e m → IsStale e m'
IsStale-kept m m' e c stale =
    let grown = c.epochs (m.entries e).id in rw (c.ids e, c.epoch e) (omega arith)

pub IsCalm-trans : (m m' m'' : Manager) → IsCalm m m' → IsCalm m' m'' → IsCalm m m''
IsCalm-trans m m' m'' a b = record {
  next_entry = b.next_entry ∙ a.next_entry;
  epochs = λ k. let x = a.epochs k in let y = b.epochs k in omega arith;
  ids = λ e. b.ids e ∙ a.ids e;
  epoch = λ e. b.epoch e ∙ a.epoch e;
  silent = λ e k stale. b.silent e k (IsStale-kept m m' e a stale) ∙ a.silent e k stale;
}

pub call_host-IsCalm :
    (id : ℕ) (x : HostCall) (m : Manager)
    → ((e : ℕ) → IsStale e m → starts e (m.calls id ++ x ∷ []) ≡ starts e (m.calls id))
    → IsCalm m (call_host id x m)
call_host-IsCalm id x m quiet = record {
  next_entry = refl;
  epochs = λ k. omega arith;
  ids = λ e. refl;
  epoch = λ e. refl;
  silent = λ e k stale. elim (Bool-cases (nat_beq id k)) [
    | inl same ↦ let is_k : id ≡ k = ground arith in ground (arith, quiet e stale)
    | inr differ ↦ rw differ refl
  ];
}

-- The queues and the map are no matter.
pub set_queue-IsCalm :
    (id : ℕ) (q : List Operation) (m m' : Manager) → IsCalm m m' → IsCalm m (set_queue id q m')
set_queue-IsCalm id q m m' c = record {
  next_entry = c.next_entry;
  epochs = c.epochs;
  ids = c.ids;
  epoch = c.epoch;
  silent = c.silent;
}

begin-IsCalm :
    (id : ℕ) (op : Operation) (q : List Operation) (m : Manager) → IsCalm m (begin id op q m)
begin-IsCalm id (place e) q m = set_queue-IsCalm id (asked e ∷ q) m m (IsCalm-refl m)
begin-IsCalm id (asked e) q m = set_queue-IsCalm id (asked e ∷ q) m m (IsCalm-refl m)
begin-IsCalm id (stubbing e) q m = set_queue-IsCalm id (stubbing e ∷ q) m m (IsCalm-refl m)
begin-IsCalm id over q m = set_queue-IsCalm id (over ∷ q) m m (IsCalm-refl m)
begin-IsCalm id (teardown reason) q m =
    set_queue-IsCalm id (over ∷ q) m (call_host id (abort reason) m)
      (call_host-IsCalm id (abort reason) m (λ e stale. starts-abort e (m.calls id) reason))

pub run_behind-IsCalm :
    (q : List Operation) (id : ℕ) (op : Operation) (m : Manager) → IsCalm m (run_behind q id op m)
run_behind-IsCalm [] id op m = begin-IsCalm id op [] m
run_behind-IsCalm (x ∷ q) id op m = set_queue-IsCalm id (x ∷ q ++ op ∷ []) m m (IsCalm-refl m)

pub run_operation-IsCalm :
    (id : ℕ) (op : Operation) (m : Manager) → IsCalm m (run_operation id op m)
run_operation-IsCalm id op m = run_behind-IsCalm (m.operations id) id op m

pub next_of-IsCalm : (q : List Operation) (id : ℕ) (m : Manager) → IsCalm m (next_of q id m)
next_of-IsCalm (over ∷ []) id m = set_queue-IsCalm id [] m m (IsCalm-refl m)
next_of-IsCalm (over ∷ op ∷ q) id m = begin-IsCalm id op q m
next_of-IsCalm [] id m = IsCalm-refl m
next_of-IsCalm (place e ∷ q) id m = IsCalm-refl m
next_of-IsCalm (asked e ∷ q) id m = IsCalm-refl m
next_of-IsCalm (stubbing e ∷ q) id m = IsCalm-refl m
next_of-IsCalm (teardown r ∷ q) id m = IsCalm-refl m
