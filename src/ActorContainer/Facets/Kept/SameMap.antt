-- ===== src/ActorContainer/Facets/Kept/SameMap.antt =====
-- What leaves the map of the facets and the entries alone.
use mathlib.Core.Path.{subst}
use do_runtime.Common.{
  ℕ, ◌<◌, ◌≡◌, refl, sym, Bool, List, [], ◌∷◌, ◌++◌, nat_beq, if◌then◌else◌, nat_eq, string_eq,
  Bool-cases, inl, inr, All, All-append,
}
use do_runtime.ActorContainer.Facets.{
  Operation, place, asked, stubbing, teardown, over, abort, Manager, set_queue, call_host, begin,
  run_behind, run_operation, next_of,
}

-- An operation is of an entry that there is.
abbrev pub IsOld : ℕ → Operation → Type 0
IsOld n (place e) = e < n
IsOld n (asked e) = e < n
IsOld n (stubbing e) = e < n
IsOld n (teardown reason) = Unit
IsOld n over = Unit

abbrev pub AreOld : ℕ → (ℕ → List Operation) → Type 0
AreOld n operations = (id : ℕ) → All (IsOld n) (operations id)

-- A call that leaves the map and the entries alone.
pub record IsSameMap (m m' : Manager) : Type 0 where
  pub facets : m'.facets ≡ m.facets
  pub entries : m'.entries ≡ m.entries
  pub next_entry : m'.next_entry ≡ m.next_entry
  pub old : AreOld m.next_entry m.operations → AreOld m.next_entry m'.operations

pub set_queue-IsSameMap :
    (id : ℕ) (q : List Operation) (m : Manager)
    → (AreOld m.next_entry m.operations → All (IsOld m.next_entry) q)
    → IsSameMap m (set_queue id q m)
set_queue-IsSameMap id q m good = record {
  facets = refl;
  entries = refl;
  next_entry = refl;
  old = λ w k. elim (Bool-cases (nat_beq id k)) [
    | inl same ↦
        subst (λ (b : Bool). All (IsOld m.next_entry) (if b then q else m.operations k)) (sym same)
          (good w)
    | inr differ ↦
        subst (λ (b : Bool). All (IsOld m.next_entry) (if b then q else m.operations k))
          (sym differ) (w k)
  ];
}

begin-IsSameMap :
    (id : ℕ) (op : Operation) (q : List Operation) (m : Manager)
    → (AreOld m.next_entry m.operations → All (IsOld m.next_entry) (op ∷ q))
    → IsSameMap m (begin id op q m)
begin-IsSameMap id (place e) q m good = set_queue-IsSameMap id (asked e ∷ q) m good
begin-IsSameMap id (asked e) q m good = set_queue-IsSameMap id (asked e ∷ q) m good
begin-IsSameMap id (stubbing e) q m good = set_queue-IsSameMap id (stubbing e ∷ q) m good
begin-IsSameMap id over q m good = set_queue-IsSameMap id (over ∷ q) m good
begin-IsSameMap id (teardown reason) q m good =
    let s = set_queue-IsSameMap id (over ∷ q) (call_host id (abort reason) m) good in
    record { facets = refl; entries = refl; next_entry = refl; old = s.old }

run_behind-IsSameMap :
    (q : List Operation) (id : ℕ) (op : Operation) (m : Manager)
    → m.operations id ≡ q
    → IsOld m.next_entry op
    → IsSameMap m (run_behind q id op m)
run_behind-IsSameMap [] id op m is_q good = begin-IsSameMap id op [] m (λ w. (good, tt))
run_behind-IsSameMap (x ∷ q) id op m is_q good =
    set_queue-IsSameMap id (x ∷ q ++ op ∷ []) m
      (λ w. All-append (IsOld m.next_entry) (x ∷ q) (op ∷ []) (rw is_q at (w id)) (good, tt))

pub run_operation-IsSameMap :
    (id : ℕ) (op : Operation) (m : Manager)
    → IsOld m.next_entry op
    → IsSameMap m (run_operation id op m)
run_operation-IsSameMap id op m good = run_behind-IsSameMap (m.operations id) id op m refl good

IsSameMap-refl : (m : Manager) → IsSameMap m m
IsSameMap-refl m = record { facets = refl; entries = refl; next_entry = refl; old = λ w. w }

pub next_of-IsSameMap :
    (q : List Operation) (id : ℕ) (m : Manager) → m.operations id ≡ q → IsSameMap m (next_of q id m)
next_of-IsSameMap (over ∷ []) id m is_q = set_queue-IsSameMap id [] m (λ w. tt)
next_of-IsSameMap (over ∷ op ∷ q) id m is_q =
    begin-IsSameMap id op q m (λ w. let known = rw is_q at (w id) in known.1)
next_of-IsSameMap [] id m is_q = IsSameMap-refl m
next_of-IsSameMap (place e ∷ q) id m is_q = IsSameMap-refl m
next_of-IsSameMap (asked e ∷ q) id m is_q = IsSameMap-refl m
next_of-IsSameMap (stubbing e ∷ q) id m is_q = IsSameMap-refl m
next_of-IsSameMap (teardown r ∷ q) id m is_q = IsSameMap-refl m
