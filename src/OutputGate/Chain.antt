-- ===== src/OutputGate/Chain.antt =====
-- src/io/io-gate.ts: what a `wait` at the output gate waits for.
use do_runtime.Common.{
  ℕ, zero, suc, ◌≤◌, ◌<◌, ◌≡◌, refl, sym, ap, some, List, [], ◌∷◌, ◌++◌, length, get_elem?, take,
  arith,
}
use do_runtime.OutputGate.{
  Link, Past, resolved, join, Standing, done, link_standing, all_settled, standing,
}

-- The chain of the first `n` locks.
abbrev pub chain_of : ℕ → Past
chain_of zero = resolved
chain_of (suc n) = join (chain_of n) n

-- What `wait` promises, independently of the chain: it is pending while one of the locks is, and
-- then it has the first exception in the order of the locks, if there is one.
unfoldable pub verdict : Standing → List Link → Standing
verdict so_far [] = so_far
verdict so_far (l ∷ links) = verdict (all_settled so_far (link_standing (some l))) links

verdict-snoc :
    (s : Standing) (links : List Link) (l : Link)
    → verdict s (links ++ l ∷ []) ≡ all_settled (verdict s links) (link_standing (some l))
unfolding verdict
verdict-snoc s [] l = refl
verdict-snoc s (x ∷ links) l = verdict-snoc (all_settled s (link_standing (some x))) links l

take-snoc :
    (n : ℕ) (links : List Link)
    → n < length links
    → (l : Link) × (get_elem? links n ≡ some l) × (take (suc n) links ≡ take n links ++ l ∷ [])
take-snoc n [] h = absurd (omega arith)
take-snoc zero (x ∷ links) h = (x, refl, refl)
take-snoc (suc n) (x ∷ links) h =
    let (l, is_l, more) = take-snoc n links (omega arith) in (l, is_l, ap (λ ys. x ∷ ys) more)

-- A `wait` stands as the locks that came before it say, and no later lock matters.
pub standing_lem :
    (n : ℕ) (links : List Link)
    → n ≤ length links
    → standing links (chain_of n) ≡ verdict done (take n links)
unfolding standing verdict
standing_lem zero links h = refl
standing_lem (suc n) links h =
    let (l, is_l, more) = take-snoc n links (omega arith) in
    let ih = standing_lem n links (omega arith) in
    rw (ih, is_l, more, standing) (sym (verdict-snoc done (take n links) l))
