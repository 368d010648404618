-- ===== src/ActorContainer/Facets/Places.antt =====
-- src/server/actor-container.ts: `place` behind its awaits, `#forgetIfNeverRuns` and `#monitorOnBroken`.
use do_runtime.Common.{
  ℕ, Bool, true, false, Option, none, some, List, ◌∷◌, String, nat_beq, if◌then◌else◌, lookup,
  erase, nat_eq, string_eq,
}
use do_runtime.InputGate.{update}
use do_runtime.FacetDeletion.Epochs.{is_current}
use do_runtime.ActorContainer.Facets.{
  Operation, Manager, asked, stubbing, over, start, set_queue, call_host, tear_down,
}

abbrev pub reject : ℕ → Manager → Manager
reject e m = record m { entries = update m.entries e (record (m.entries e) { rejected = true }) }

abbrev pub set_handle : ℕ → Manager → Manager
set_handle e m = record m { entries = update m.entries e (record (m.entries e) { handle = true }) }

-- `place` behind its awaits, in front of the operations `q`: the start info was rejected, or the
-- epoch is another one, or the host throws; else the host has started the facet.
abbrev pub lose : ℕ → ℕ → List Operation → Manager → Manager
lose e id q m = set_queue id (over ∷ q) (reject e m)

abbrev pub place_on : Bool → ℕ → ℕ → List Operation → Manager → Manager
place_on false e id q m = lose e id q m
place_on true e id q m = set_queue id (stubbing e ∷ q) (set_handle e (call_host id (start e) m))

-- The first argument tells that the start info was rejected, the second that the host throws.
abbrev pub placed_of : List Operation → Bool → Bool → ℕ → Manager → Manager
placed_of (asked e ∷ q) rejected throws id m =
    place_on
      (if rejected
        then false
        else if is_current (m.entries e).id (m.entries e).epoch m.epochs
        then (if throws then false else true)
        else false)
      e id q m
placed_of _ rejected throws id m = m

abbrev pub resume_place : Bool → Bool → ℕ → Manager → Manager
resume_place rejected throws id m = placed_of (m.operations id) rejected throws id m

-- The stub of a handle has settled.
abbrev pub stub_of : List Operation → Bool → ℕ → Manager → Manager
stub_of (stubbing e ∷ q) true id m = set_queue id (over ∷ q) m
stub_of (stubbing e ∷ q) false id m = set_queue id (over ∷ q) (reject e m)
stub_of _ resolved id m = m

abbrev pub settle_stub : Bool → ℕ → Manager → Manager
settle_stub resolved id m = stub_of (m.operations id) resolved id m

-- `this.#facets.get(name) === entry`.
abbrev pub is_entry : Option ℕ → ℕ → Bool
is_entry none e = false
is_entry (some e') e = nat_beq e' e

-- `#forgetIfNeverRuns`, the catch.
abbrev pub forget : ℕ → Manager → Manager
forget e m =
    let name = (m.entries e).name in
    if is_entry (lookup name m.facets) e then record m { facets = erase name m.facets } else m

-- `#monitorOnBroken`, the catch.
abbrev pub broken : ℕ → String → Manager → Manager
broken e reason m =
    let name = (m.entries e).name in
    if is_entry (lookup name m.facets) e
    then tear_down e reason (record m { facets = erase name m.facets })
    else m
