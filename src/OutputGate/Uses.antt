-- ===== src/OutputGate/Uses.antt =====
-- src/io/io-gate.ts: the output gate in use.
use do_runtime.Common.{
  ℕ, zero, suc, ◌≤◌, ◌≡◌, ◌≢◌, refl, sym, ap, ◌∙◌, Bool, true, false, Option, none, some, List, [],
  ◌∷◌, ◌++◌, String, length, get_elem?, if◌then◌else◌, arith,
}
use do_runtime.OutputGate.{
  Link, waiting, fulfilled, rejected, Past, resolved, join, BrokenState, silent, listening, broken,
  OutputGate, Standing, pending, done, threw, link_standing, all_settled, standing, lock_while,
  set_link, succeed_on, succeed, fail_on, fail, unfulfilled, abort, listen, on_broken, is_broken,
}
use do_runtime.OutputGate.Chain.{chain_of}

pub data Use : Type 0 where
  locking watching : Use
  succeeding aborting : ℕ → Use
  failing : ℕ → String → Use

abbrev pub use_once : Use → OutputGate → OutputGate
use_once locking g = (lock_while g).1
use_once watching g = on_broken g
use_once (succeeding n) g = succeed n g
use_once (aborting n) g = abort n g
use_once (failing n e) g = fail n e g

unfoldable pub use_all : List Use → OutputGate → OutputGate
use_all [] g = g
use_all (u ∷ us) g = use_all us (use_once u g)

abbrev pub is_rejected : Link → Bool
is_rejected (rejected e) = true
is_rejected _ = false

unfoldable pub has_rejected : List Link → Bool
has_rejected [] = false
has_rejected (l ∷ links) = if is_rejected l then true else has_rejected links

-- The chain has a link for each lock, and the gate is broken as soon as one is rejected.
pub record IsSound (g : OutputGate) : Type 0 where
  pub chained : g.past ≡ chain_of (length g.links)
  pub told : is_broken g ≡ has_rejected g.links

-- What later uses may do to the locks: settle those that wait, and add new ones.
pub record IsLater (links links' : List Link) : Type 0 where
  pub longer : length links ≤ length links'
  pub settled :
      (n : ℕ) → link_standing (get_elem? links n) ≢ pending → get_elem? links' n ≡ get_elem? links n

pub length-set_link :
    (n : ℕ) (l : Link) (links : List Link) → length (set_link n l links) ≡ length links
unfolding set_link
length-set_link n l [] = refl
length-set_link zero l (x ∷ links) = refl
length-set_link (suc n) l (x ∷ links) = ap suc (length-set_link n l links)

set_link-settled :
    (n k : ℕ) (l : Link) (links : List Link)
    → get_elem? links n ≡ some waiting
    → link_standing (get_elem? links k) ≢ pending
    → get_elem? (set_link n l links) k ≡ get_elem? links k
unfolding set_link
set_link-settled n k l [] waits h = refl
set_link-settled zero zero l (x ∷ links) waits h = absurd (h (ap link_standing waits))
set_link-settled zero (suc k) l (x ∷ links) waits h = refl
set_link-settled (suc n) zero l (x ∷ links) waits h = refl
set_link-settled (suc n) (suc k) l (x ∷ links) waits h = set_link-settled n k l links waits h

set_link-IsLater :
    (n : ℕ) (l : Link) (links : List Link)
    → get_elem? links n ≡ some waiting
    → IsLater links (set_link n l links)
set_link-IsLater n l links waits = record {
  longer = omega (arith, length-set_link n l links);
  settled = λ k h. set_link-settled n k l links waits h;
}

same-IsLater : (links : List Link) → IsLater links links
same-IsLater links = record { longer = omega arith; settled = λ n h. refl }

snoc-settled :
    (links : List Link) (l : Link) (n : ℕ)
    → link_standing (get_elem? links n) ≢ pending
    → get_elem? (links ++ l ∷ []) n ≡ get_elem? links n
snoc-settled [] l n h = absurd (h refl)
snoc-settled (x ∷ links) l zero h = refl
snoc-settled (x ∷ links) l (suc n) h = snoc-settled links l n h

pub length-snoc : (links : List Link) (l : Link) → length (links ++ l ∷ []) ≡ suc (length links)
length-snoc [] l = refl
length-snoc (x ∷ links) l = ap suc (length-snoc links l)

module _ (n : ℕ) (e : String) (g : OutputGate) where
  succeed_on-IsLater :
      (o : Option Link) → get_elem? g.links n ≡ o → IsLater g.links (succeed_on o n g).links
  succeed_on-IsLater none h = same-IsLater g.links
  succeed_on-IsLater (some waiting) h = set_link-IsLater n fulfilled g.links h
  succeed_on-IsLater (some fulfilled) h = same-IsLater g.links
  succeed_on-IsLater (some (rejected x)) h = same-IsLater g.links

  fail_on-IsLater :
      (o : Option Link) → get_elem? g.links n ≡ o → IsLater g.links (fail_on o n e g).links
  fail_on-IsLater none h = same-IsLater g.links
  fail_on-IsLater (some waiting) h = set_link-IsLater n (rejected e) g.links h
  fail_on-IsLater (some fulfilled) h = same-IsLater g.links
  fail_on-IsLater (some (rejected x)) h = same-IsLater g.links

listen-links : (b : BrokenState) (g : OutputGate) → (listen b g).links ≡ g.links
listen-links silent g = refl
listen-links listening g = refl
listen-links (broken e) g = refl

use_once-IsLater : (u : Use) (g : OutputGate) → IsLater g.links (use_once u g).links
unfolding lock_while succeed fail abort
use_once-IsLater locking g = record {
  longer = omega (arith, length-snoc g.links waiting);
  settled = λ n h. snoc-settled g.links waiting n h;
}
use_once-IsLater watching g = rw (listen-links g.state g) (same-IsLater g.links)
use_once-IsLater (succeeding n) g = succeed_on-IsLater n "" g (get_elem? g.links n) refl
use_once-IsLater (aborting n) g = fail_on-IsLater n unfulfilled g (get_elem? g.links n) refl
use_once-IsLater (failing n e) g = fail_on-IsLater n e g (get_elem? g.links n) refl

then-IsLater : (a b c : List Link) → IsLater a b → IsLater b c → IsLater a c
then-IsLater a b c f s = record {
  longer = omega (arith, f.longer, s.longer);
  settled =
      λ n h. s.settled n (λ x. h (sym (ap link_standing (f.settled n h)) ∙ x)) ∙ f.settled n h;
}

pub use_all-IsLater : (us : List Use) (g : OutputGate) → IsLater g.links (use_all us g).links
unfolding use_all
use_all-IsLater [] g = same-IsLater g.links
use_all-IsLater (u ∷ us) g =
    then-IsLater g.links (use_once u g).links (use_all us (use_once u g)).links
      (use_once-IsLater u g) (use_all-IsLater us (use_once u g))

settled_first : (x y : Standing) → all_settled x y ≢ pending → x ≢ pending
settled_first pending y h e = h refl
settled_first done y h e = cc
settled_first (threw m) y h e = cc

settled_second : (x y : Standing) → all_settled x y ≢ pending → y ≢ pending
settled_second pending y h e = h refl
settled_second done y h e = h e
settled_second (threw m) pending h e = h refl
settled_second (threw m) done h e = cc
settled_second (threw m) (threw k) h e = cc

-- A promise of the chain that has settled stays as it is.
pub later-standing :
    (p : Past) (links links' : List Link)
    → IsLater links links'
    → standing links p ≢ pending
    → standing links' p ≡ standing links p
unfolding standing
later-standing resolved links links' later h = refl
later-standing (join p n) links links' later h =
    let x : Standing = standing links p in
    let y : Standing = link_standing (get_elem? links n) in
    rw (
      later-standing p links links' later (settled_first x y h),
      later.settled n (settled_second x y h),
      standing,
    )
