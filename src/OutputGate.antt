-- ===== src/OutputGate.antt =====
-- src/io/io-gate.ts, second half: `OutputGate`. A lock is its place in the order of the calls of
-- `lockWhile`; a promise of the chain of past locks is the chain itself, read against the state of
-- the locks. The hooks, which count and may give up on a lock in time, are not modelled.
pub mod Chain
pub mod Uses
pub mod Promises
use do_runtime.Common.{
  ℕ, zero, suc, ◌+◌, Bool, true, false, Option, none, some, List, [], ◌∷◌, ◌++◌, String, length,
  get_elem?,
}

-- The link that `lockWhile` holds: it waits, or it is fulfilled or rejected.
pub data Link : Type 0 where
  waiting fulfilled : Link
  rejected : String → Link

-- `#pastLocksPromise`: each lock joins the chain that is there.
pub data Past : Type 0 where
  resolved : Past
  join : Past → ℕ → Past

pub data BrokenState : Type 0 where
  silent listening : BrokenState
  broken : String → BrokenState

-- `heard` is what the promise of `onBroken` was rejected with.
pub record OutputGate : Type 0 where
  pub links : List Link
  pub past : Past
  pub state : BrokenState
  pub heard : Option String

abbrev pub open_gate : OutputGate
open_gate = record { links = []; past = resolved; state = silent; heard = none }

-- How a promise stands: pending, fulfilled, or rejected.
pub data Standing : Type 0 where
  pending done : Standing
  threw : String → Standing

abbrev pub link_standing : Option Link → Standing
link_standing none = pending
link_standing (some waiting) = pending
link_standing (some fulfilled) = done
link_standing (some (rejected e)) = threw e

-- `Promise.allSettled` of two, and the loop that throws the first reason.
abbrev pub all_settled : Standing → Standing → Standing
all_settled pending y = pending
all_settled done y = y
all_settled (threw e) pending = pending
all_settled (threw e) _ = threw e

unfoldable pub standing : List Link → Past → Standing
standing links resolved = done
standing links (join past n) = all_settled (standing links past) (link_standing (get_elem? links n))

-- `lockWhile`, up to its first await.
unfoldable pub lock_while : OutputGate → ℕ × OutputGate
lock_while g = (
  length g.links,
  record g { links = g.links ++ waiting ∷ []; past = join g.past (length g.links) },
)

abbrev pub wait : OutputGate → Past
wait g = g.past

abbrev pub tell : BrokenState → String → Option String → Option String
tell listening e heard = some e
tell _ e heard = heard

abbrev pub set_broken : String → OutputGate → OutputGate
set_broken e g = record g { state = broken e; heard = tell g.state e g.heard }

unfoldable pub set_link : ℕ → Link → List Link → List Link
set_link n l [] = []
set_link zero l (x ∷ links) = l ∷ links
set_link (suc n) l (x ∷ links) = x ∷ set_link n l links

abbrev pub succeed_on : Option Link → ℕ → OutputGate → OutputGate
succeed_on (some waiting) n g = record g { links = set_link n fulfilled g.links }
succeed_on _ n g = g

abbrev pub fail_on : Option Link → ℕ → String → OutputGate → OutputGate
fail_on (some waiting) n e g = set_broken e (record g { links = set_link n (rejected e) g.links })
fail_on _ n e g = g

-- The promise of lock `n` is fulfilled, ...
unfoldable pub succeed : ℕ → OutputGate → OutputGate
succeed n g = succeed_on (get_elem? g.links n) n g

-- ... or rejected, ...
unfoldable pub fail : ℕ → String → OutputGate → OutputGate
fail n e g = fail_on (get_elem? g.links n) n e g

abbrev pub unfulfilled : String
unfulfilled = "output lock was canceled before completion"

-- ... or its signal is aborted. A lock that has settled stays as it is.
unfoldable pub abort : ℕ → OutputGate → OutputGate
unfolding fail
abort n g = fail n unfulfilled g

abbrev pub listen : BrokenState → OutputGate → OutputGate
listen silent g = record g { state = listening }
listen _ g = g

-- `onBroken`, and whether the promise that it returns is rejected already.
abbrev pub on_broken : OutputGate → OutputGate
on_broken g = listen g.state g

abbrev pub is_broken : OutputGate → Bool
is_broken g = elim g.state [ broken e ↦ true | _ ↦ false ]
