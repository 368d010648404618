-- ===== src/ActorContainer/Facets/Queues.antt =====
-- What the operations of an id leave behind: each keeps its place in the order of the calls.
use do_runtime.Common.{
  ℕ, ◌≡◌, refl, sym, ap, ◌∙◌, List, [], ◌∷◌, ◌++◌, String, nat_beq, if◌then◌else◌, arith,
  append-nil, append_assoc,
}
use do_runtime.ActorContainer.Facets.{
  Operation, place, asked, stubbing, teardown, over, HostCall, start, abort, Manager, set_queue,
  call_host, begin, run_behind, run_operation, next_of, go_on,
}
use do_runtime.ActorContainer.Facets.Marks.{Mark, held, freed}

abbrev pub mark_op : Operation → List Mark
mark_op (place e) = held e ∷ []
mark_op (asked e) = held e ∷ []
mark_op (stubbing e) = []
mark_op (teardown reason) = freed ∷ []
mark_op over = []

abbrev pub mark_call : HostCall → Mark
mark_call (start e) = held e
mark_call (abort reason) = freed

unfoldable pub marks_of : List Operation → List Mark
marks_of [] = []
marks_of (op ∷ q) = mark_op op ++ marks_of q

unfoldable pub marks_made : List HostCall → List Mark
marks_made [] = []
marks_made (x ∷ xs) = mark_call x ∷ marks_made xs

-- The calls that the host has had for an id, and then those that are due.
abbrev pub trail : ℕ → Manager → List Mark
trail id m = marks_made (m.calls id) ++ marks_of (m.operations id)

marks_of-append :
    (q : List Operation) (op : Operation) → marks_of (q ++ op ∷ []) ≡ marks_of q ++ mark_op op
unfolding marks_of
marks_of-append [] op = append-nil (mark_op op)
marks_of-append (x ∷ q) op =
    ap (λ (t : List Mark). mark_op x ++ t) (marks_of-append q op)
    ∙ sym (append_assoc (mark_op x) (marks_of q) (mark_op op))

pub marks_made-append :
    (xs : List HostCall) (x : HostCall)
    → marks_made (xs ++ x ∷ []) ≡ marks_made xs ++ mark_call x ∷ []
unfolding marks_made
marks_made-append [] x = refl
marks_made-append (y ∷ xs) x = ap (λ (t : List Mark). mark_call y ∷ t) (marks_made-append xs x)

-- The trail of one id is replaced.
abbrev pub Retraced : ℕ → List Mark → Manager → Manager → Type 0
Retraced id ms m m' = (k : ℕ) → trail k m' ≡ (if nat_beq k id then ms else trail k m)

set_queue-Retraced :
    (id : ℕ) (q : List Operation) (m : Manager)
    → Retraced id (marks_made (m.calls id) ++ marks_of q) m (set_queue id q m)
set_queue-Retraced id q m k = ground arith

freed-Retraced :
    (id : ℕ) (reason : String) (q : List Operation) (m : Manager)
    → Retraced id
        (marks_made (m.calls id) ++ freed ∷ marks_of q)
        m
        (set_queue id q (call_host id (abort reason) m))
freed-Retraced id reason q m k = ground (
  arith,
  marks_made-append (m.calls id) (abort reason),
  append_assoc (marks_made (m.calls id)) (freed ∷ []) (marks_of q),
)

begin-Retraced :
    (id : ℕ) (op : Operation) (q : List Operation) (m : Manager)
    → Retraced id (marks_made (m.calls id) ++ (mark_op op ++ marks_of q)) m (begin id op q m)
unfolding marks_of
begin-Retraced id (place e) q m = set_queue-Retraced id (asked e ∷ q) m
begin-Retraced id (teardown reason) q m = freed-Retraced id reason (over ∷ q) m
begin-Retraced id (asked e) q m = set_queue-Retraced id (asked e ∷ q) m
begin-Retraced id (stubbing e) q m = set_queue-Retraced id (stubbing e ∷ q) m
begin-Retraced id over q m = set_queue-Retraced id (over ∷ q) m

run_behind-Retraced :
    (q : List Operation) (id : ℕ) (op : Operation) (m : Manager)
    → m.operations id ≡ q
    → Retraced id (trail id m ++ mark_op op) m (run_behind q id op m)
unfolding marks_of
run_behind-Retraced [] id op m is_q k =
    begin-Retraced id op [] m k
    ∙ ap (λ (t : List Mark). if nat_beq k id then t else trail k m)
        (rw is_q (
          ap (λ (t : List Mark). marks_made (m.calls id) ++ t) (append-nil (mark_op op))
          ∙ ap (λ (t : List Mark). t ++ mark_op op) (sym (append-nil (marks_made (m.calls id))))))
run_behind-Retraced (x ∷ q) id op m is_q k =
    set_queue-Retraced id (x ∷ q ++ op ∷ []) m k
    ∙ ap (λ (t : List Mark). if nat_beq k id then t else trail k m)
        (rw is_q (
          ap (λ (t : List Mark). marks_made (m.calls id) ++ t) (marks_of-append (x ∷ q) op)
          ∙ sym (append_assoc (marks_made (m.calls id)) (marks_of (x ∷ q)) (mark_op op))))

-- `runOperation` puts an operation behind all that the id has had.
pub run_operation-Retraced :
    (id : ℕ) (op : Operation) (m : Manager)
    → Retraced id (trail id m ++ mark_op op) m (run_operation id op m)
run_operation-Retraced id op m = run_behind-Retraced (m.operations id) id op m refl

next_of-trail :
    (q : List Operation) (id : ℕ) (m : Manager)
    → m.operations id ≡ q
    → (k : ℕ) → trail k (next_of q id m) ≡ trail k m
unfolding marks_of
next_of-trail (over ∷ []) id m is_q k = ground (arith, set_queue-Retraced id [] m k)
next_of-trail (over ∷ op ∷ q) id m is_q k = ground (arith, begin-Retraced id op q m k)
next_of-trail [] id m is_q k = refl
next_of-trail (place e ∷ q) id m is_q k = refl
next_of-trail (asked e ∷ q) id m is_q k = refl
next_of-trail (stubbing e ∷ q) id m is_q k = refl
next_of-trail (teardown r ∷ q) id m is_q k = refl

-- An operation that ends lets the next one begin, in the same order.
pub go_on-trail : (id : ℕ) (m : Manager) (k : ℕ) → trail k (go_on id m) ≡ trail k m
go_on-trail id m k = next_of-trail (m.operations id) id m refl k
