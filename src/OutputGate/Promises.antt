-- ===== src/OutputGate/Promises.antt =====
-- src/io/io-gate.ts: what the output gate promises, whatever is done to it.
use do_runtime.Common.{
  ℕ, zero, suc, ◌≡◌, ◌≢◌, refl, sym, ap, ◌∙◌, true, false, Option, none, some, List, [], ◌∷◌, ◌++◌,
  String, length, get_elem?, take, if◌then◌else◌, arith,
}
use do_runtime.OutputGate.{
  Link, waiting, fulfilled, rejected, join, BrokenState, silent, listening, broken, OutputGate,
  open_gate, Standing, pending, done, threw, link_standing, all_settled, standing, lock_while, wait,
  set_link, succeed_on, succeed, fail_on, fail, unfulfilled, abort, listen, on_broken, is_broken,
}
use do_runtime.OutputGate.Chain.{chain_of, verdict, standing_lem}
use do_runtime.OutputGate.Uses.{
  Use, locking, watching, succeeding, aborting, failing, use_once, use_all, is_rejected,
  has_rejected, IsSound, use_all-IsLater, later-standing, length-set_link, length-snoc,
}

rejected-set_link :
    (n : ℕ) (e : String) (links : List Link)
    → get_elem? links n ≡ some waiting
    → has_rejected (set_link n (rejected e) links) ≡ true
unfolding set_link has_rejected
rejected-set_link n e [] waits = absurd (cc)
rejected-set_link zero e (x ∷ links) waits = refl
rejected-set_link (suc n) e (x ∷ links) waits = ground (arith, rejected-set_link n e links waits)

fulfilled-set_link :
    (n : ℕ) (links : List Link)
    → get_elem? links n ≡ some waiting
    → has_rejected (set_link n fulfilled links) ≡ has_rejected links
unfolding set_link has_rejected
fulfilled-set_link n [] waits = refl
fulfilled-set_link zero (x ∷ links) waits = let same : x ≡ waiting = cc in rw same
fulfilled-set_link (suc n) (x ∷ links) waits = ground (arith, fulfilled-set_link n links waits)

rejected-snoc : (links : List Link) → has_rejected (links ++ waiting ∷ []) ≡ has_rejected links
unfolding has_rejected
rejected-snoc [] = refl
rejected-snoc (x ∷ links) = ground (arith, rejected-snoc links)

module _ (n : ℕ) (e : String) (g : OutputGate) (w : IsSound g) where
  succeed_on-IsSound : (o : Option Link) → get_elem? g.links n ≡ o → IsSound (succeed_on o n g)
  succeed_on-IsSound none h = w
  succeed_on-IsSound (some waiting) h = record {
    chained = w.chained ∙ ap chain_of (sym (length-set_link n fulfilled g.links));
    told = w.told ∙ sym (fulfilled-set_link n g.links h);
  }
  succeed_on-IsSound (some fulfilled) h = w
  succeed_on-IsSound (some (rejected x)) h = w

  fail_on-IsSound : (o : Option Link) → get_elem? g.links n ≡ o → IsSound (fail_on o n e g)
  fail_on-IsSound none h = w
  fail_on-IsSound (some waiting) h = record {
    chained = w.chained ∙ ap chain_of (sym (length-set_link n (rejected e) g.links));
    told = sym (rejected-set_link n e g.links h);
  }
  fail_on-IsSound (some fulfilled) h = w
  fail_on-IsSound (some (rejected x)) h = w

listen-IsSound : (b : BrokenState) (g : OutputGate) → g.state ≡ b → IsSound g → IsSound (listen b g)
listen-IsSound silent g h w = record { chained = w.chained; told = sym (rw h at (sym w.told)) }
listen-IsSound listening g h w = w
listen-IsSound (broken e) g h w = w

use_once-IsSound : (u : Use) (g : OutputGate) → IsSound g → IsSound (use_once u g)
unfolding lock_while succeed fail abort
use_once-IsSound locking g w = record {
  chained = rw (length-snoc g.links waiting) (ap (λ p. join p (length g.links)) w.chained);
  told = w.told ∙ sym (rejected-snoc g.links);
}
use_once-IsSound watching g w = listen-IsSound g.state g refl w
use_once-IsSound (succeeding n) g w = succeed_on-IsSound n "" g w (get_elem? g.links n) refl
use_once-IsSound (aborting n) g w = fail_on-IsSound n unfulfilled g w (get_elem? g.links n) refl
use_once-IsSound (failing n e) g w = fail_on-IsSound n e g w (get_elem? g.links n) refl

-- A gate that is fresh or sound stays sound: the chain has a link for each lock, and the gate is
-- broken if and only if one of its locks was rejected or given up.
pub use_all-IsSound : (us : List Use) (g : OutputGate) → IsSound g → IsSound (use_all us g)
unfolding use_all
use_all-IsSound [] g w = w
use_all-IsSound (u ∷ us) g w = use_all-IsSound us (use_once u g) (use_once-IsSound u g w)

pub fresh-IsSound : IsSound open_gate
unfolding has_rejected
fresh-IsSound = record { chained = refl; told = refl }

-- After any uses that follow a `wait`, its promise stands as the locks say that were there before
-- it: pending while one of them is, then with the first exception among them in their order. No
-- later lock matters, and once the promise has settled it stays as it is.
pub wait_lem :
    (us : List Use) (g : OutputGate)
    → IsSound g
    → (standing (use_all us g).links (wait g)
        ≡ verdict done (take (length g.links) (use_all us g).links))
      × (standing g.links (wait g) ≢ pending
          → standing (use_all us g).links (wait g) ≡ standing g.links (wait g))
wait_lem us g w =
    let later = use_all-IsLater us g in
    (
      ap (standing (use_all us g).links) w.chained
          ∙ standing_lem (length g.links) (use_all us g).links later.longer,
      λ settled. later-standing (wait g) g.links (use_all us g).links later settled,
    )

rejected-verdict :
    (s : Standing) (links : List Link)
    → verdict s links ≡ done
    → (s ≡ done) × (has_rejected links ≡ false)
unfolding verdict has_rejected
rejected-verdict s [] h = (h, refl)
rejected-verdict s (l ∷ links) h =
    let (both, rest) = rejected-verdict (all_settled s (link_standing (some l))) links h in
    by_parts s l both rest
  where
    by_parts :
        (s : Standing) (l : Link)
        → all_settled s (link_standing (some l)) ≡ done
        → has_rejected links ≡ false
        → (s ≡ done) × ((if is_rejected l then true else has_rejected links) ≡ false)
    by_parts done fulfilled both rest = (refl, rest)
    by_parts done waiting both rest = absurd (cc)
    by_parts done (rejected e) both rest = absurd (cc)
    by_parts pending l both rest = absurd (cc)
    by_parts (threw e) waiting both rest = absurd (cc)
    by_parts (threw e) fulfilled both rest = absurd (cc)
    by_parts (threw e) (rejected x) both rest = absurd (cc)

take-all : (links : List Link) → take (length links) links ≡ links
take-all [] = refl
take-all (l ∷ links) = ap (λ xs. l ∷ xs) (take-all links)

broken_now : (g : OutputGate) → IsSound g → is_broken g ≡ true → standing g.links (wait g) ≢ done
broken_now g w is_b through =
    let says : verdict done g.links ≡ done =
      sym (
        ap (standing g.links) w.chained
        ∙ standing_lem (length g.links) g.links (omega arith)
        ∙ ap (verdict done) (take-all g.links))
      ∙ through in
    let none_rejected = (rejected-verdict done g.links says).1 in
    absurd (cc (w.told, is_b, none_rejected))

module _ (n : ℕ) (e : String) (g : OutputGate) (is_b : is_broken g ≡ true) where
  is_broken-succeed_on : (o : Option Link) → is_broken (succeed_on o n g) ≡ true
  is_broken-succeed_on none = is_b
  is_broken-succeed_on (some waiting) = is_b
  is_broken-succeed_on (some fulfilled) = is_b
  is_broken-succeed_on (some (rejected x)) = is_b

  is_broken-fail_on : (o : Option Link) → is_broken (fail_on o n e g) ≡ true
  is_broken-fail_on none = is_b
  is_broken-fail_on (some waiting) = refl
  is_broken-fail_on (some fulfilled) = is_b
  is_broken-fail_on (some (rejected x)) = is_b

is_broken-listen :
    (b : BrokenState) (g : OutputGate)
    → g.state ≡ b
    → is_broken g ≡ true
    → is_broken (listen b g) ≡ true
is_broken-listen silent g h is_b = absurd (ground (arith, h, is_b))
is_broken-listen listening g h is_b = is_b
is_broken-listen (broken e) g h is_b = is_b

is_broken-use_all :
    (us : List Use) (g : OutputGate) → is_broken g ≡ true → is_broken (use_all us g) ≡ true
unfolding use_all lock_while succeed fail abort
is_broken-use_all [] g is_b = is_b
is_broken-use_all (locking ∷ us) g is_b = is_broken-use_all us (use_once locking g) is_b
is_broken-use_all (watching ∷ us) g is_b =
    is_broken-use_all us (on_broken g) (is_broken-listen g.state g refl is_b)
is_broken-use_all (succeeding n ∷ us) g is_b =
    is_broken-use_all us (succeed n g) (is_broken-succeed_on n "" g is_b (get_elem? g.links n))
is_broken-use_all (aborting n ∷ us) g is_b =
    is_broken-use_all us (abort n g) (is_broken-fail_on n unfulfilled g is_b (get_elem? g.links n))
is_broken-use_all (failing n e ∷ us) g is_b =
    is_broken-use_all us (fail n e g) (is_broken-fail_on n e g is_b (get_elem? g.links n))

-- Behind a broken gate no `wait` is ever let through, whatever is done later.
pub wait_broken :
    (us : List Use) (g : OutputGate)
    → IsSound g
    → is_broken g ≡ true
    → standing (use_all us g).links (wait (use_all us g)) ≢ done
wait_broken us g w is_b =
    broken_now (use_all us g) (use_all-IsSound us g w) (is_broken-use_all us g is_b)
