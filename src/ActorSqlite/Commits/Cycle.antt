-- ===== src/ActorSqlite/Commits/Cycle.antt =====
-- src/io/actor-sqlite.ts: a commit by itself, from the change of the alarm to the last request.
use do_runtime.Common.{
  ℕ, suc, ◌≡◌, refl, ap, ◌∙◌, Bool, true, false, Option, none, some, [], ◌∷◌, nat_beq, nat_beq_iff,
  Bool-cases, inl, inr, arith,
}
use do_runtime.ActorSqlite.Scheduling.{will_fire_earlier}
use do_runtime.ActorSqlite.Commits.{
  quiet, Commit, World, change_alarm, begin_commit, grant, confirm, resume_commit, persist,
  finish_commit, grant_later, confirm_later, end_later,
}
use do_runtime.ActorSqlite.Commits.Order.{IsNoLater-antisym, not_earlier_lem, earlier_asym}

-- Nothing is out, and the actor knows what the scheduler holds.
abbrev pub settled : Option ℕ → Commit → Option ℕ → Bool → Bool → Option ℕ → ℕ → World
settled stored c held deferred handling last v = record {
  stored = stored;
  persisted = c;
  held = held;
  alarms = record {
    have_deferred_delete = deferred;
    in_alarm_handler = handling;
    last_confirmed = last;
    no_later_than = held;
    later_in_flight = false;
    pending_later = none;
    version = v;
  };
  gathering = quiet;
  moving = quiet;
  in_flight = [];
  landed = [];
}

-- Every request and the commit do well.
abbrev pub gather_cycle : World → World
gather_cycle w = resume_commit (confirm (grant (begin_commit w)))

abbrev pub persist_cycle : World → World
persist_cycle w = end_later (confirm_later (grant_later (finish_commit (persist w))))

abbrev pub commit_cycle : World → World
commit_cycle w = persist_cycle (gather_cycle w)

earlier_irrefl : (a : Option ℕ) → will_fire_earlier a a ≡ false
earlier_irrefl none = refl
earlier_irrefl (some a) = ground arith

same_version : (v : ℕ) → nat_beq v v ≡ true
same_version v = (nat_beq_iff v v).1 refl

module _ (t stored : Option ℕ) (c : Commit) (held : Option ℕ) (deferred handling : Bool)
    (last : Option ℕ) (v : ℕ) where
  abbrev before : World
  before = change_alarm t (settled stored c held deferred handling last v)

  -- The commit has called back.
  abbrev called : Option ℕ → World
  called h = record (settled t c h deferred handling last (suc v)) {
    in_flight = record { alarm = t; version = suc v } ∷ [];
  }

  gather_earlier : will_fire_earlier t held ≡ true → gather_cycle before ≡ called t
  gather_earlier e = rw (e, earlier_asym t held e, earlier_irrefl t)

  gather_later : will_fire_earlier t held ≡ false → gather_cycle before ≡ called held
  gather_later e = rw (e, e)

  abbrev after : Option ℕ → World
  after h = settled t (record { alarm = t; version = suc v }) h deferred handling t (suc v)

  persist_same : (h : Option ℕ) → will_fire_earlier h t ≡ false → persist_cycle (called h) ≡ after h
  persist_same h f = rw (same_version (suc v), f)

  persist_later : (h : Option ℕ) → will_fire_earlier h t ≡ true → persist_cycle (called h) ≡ after t
  persist_later h f = rw (same_version (suc v), f)

-- An alarm that changes, in a database where nothing is out, is brought by its commit to the
-- database that a crash leaves and to the scheduler, and nothing is out again, whether the alarm
-- became earlier, later or none.
pub commit_cycle-change_alarm :
    (t stored : Option ℕ) (c : Commit) (held : Option ℕ) (deferred handling : Bool)
    (last : Option ℕ) (v : ℕ)
    → commit_cycle (change_alarm t (settled stored c held deferred handling last v))
      ≡ settled t (record { alarm = t; version = suc v }) t deferred handling t (suc v)
commit_cycle-change_alarm t stored c held deferred handling last v =
    elim (Bool-cases (will_fire_earlier t held)) [
      | inl e ↦
          ap persist_cycle (gather_earlier t stored c held deferred handling last v e)
          ∙ persist_same t stored c held deferred handling last v t (earlier_irrefl t)
      | inr e ↦
          ap persist_cycle (gather_later t stored c held deferred handling last v e)
          ∙ elim (Bool-cases (will_fire_earlier held t)) [
            | inl f ↦ persist_later t stored c held deferred handling last v held f
            | inr f ↦
                let same =
                  IsNoLater-antisym held t (not_earlier_lem t held e) (not_earlier_lem held t f) in
                persist_same t stored c held deferred handling last v held f
                ∙ ap (after t stored c held deferred handling last v) same
          ]
    ]
