-- ===== src/SqliteMetadata/Calls.antt =====
-- src/util/sqlite-metadata.ts: any order of calls, savepoints and rollbacks.
use mathlib.Core.Path.{subst}
use do_runtime.Common.{
  ℕ, ◌≡◌, refl, sym, ap, ◌∙◌, Bool, true, false, Option, none, some, List, [], ◌∷◌, is_some, ltb,
  nat_beq_iff, Bool-cases, inl, inr, Result, ok, err, arith,
}
use do_runtime.SqliteMetadata.{
  Rows, no_rows, restore_cache, forget_table, Savepoint, Metadata, MetadataError, construct,
  initialize, ensure_initialized, alarm_of, get_alarm_uncached, cached_or, get_alarm_time,
  same_time, is_cached, write_alarm_time, store_alarm_time, set_alarm_time, max_safe_integer,
  get_bookmark, write_bookmark, set_bookmark, reset_on, reset, begin_savepoint, release_savepoint,
  roll_back_savepoint,
}
use do_runtime.SqliteMetadata.Coherence.{
  IsCached, IsCoherent, filled, registered, IsStill-register_forget, IsStill-register_restore,
  IsStill-table, construct-IsCoherent, begin_savepoint-IsCoherent, roll_back_savepoint-IsCoherent,
  release_savepoint-IsCoherent,
}

-- The calls of the class, and the statements around them.
pub data Call : Type 0 where
  getting getting_bookmark beginning releasing rolling_back resetting : Call
  setting : Option ℕ → Call
  setting_bookmark : ℕ → Call

abbrev or_same : Result MetadataError Metadata → Metadata → Metadata
or_same (ok d') d = d'
or_same (err e) d = d

abbrev pub call : Call → Metadata → Metadata
call getting d = (get_alarm_time d).1
call getting_bookmark d = (get_bookmark d).1
call beginning d = begin_savepoint d
call releasing d = release_savepoint d
call rolling_back d = roll_back_savepoint d
call resetting d = or_same (reset d) d
call (setting t) d = (set_alarm_time t d).1
call (setting_bookmark b) d = or_same (set_bookmark b d) d

pub data Reach : Metadata → Type 0 where
  opened : (table : Option Rows) → Reach (construct table)
  called : (c : Call) (d : Metadata) → Reach d → Reach (call c d)

no_alarm : (table : Option Rows) → is_some table ≡ false → alarm_of table ≡ none
no_alarm none e = refl
no_alarm (some rows) e = absurd (ground arith)

IsCached-table :
    (c : Option (Option ℕ)) (table table' : Option Rows)
    → alarm_of table ≡ alarm_of table'
    → IsCached c table
    → IsCached c table'
IsCached-table none table table' e h = tt
IsCached-table (some a) table table' e h = h ∙ e

initialize-IsCoherent :
    (b : Bool) (d : Metadata)
    → d.memory.table_created ≡ b
    → IsCoherent d
    → IsCoherent (initialize b d)
initialize-IsCoherent true d e w = w
initialize-IsCoherent false d e w =
    let none_there = no_alarm d.table (sym w.now.created ∙ e) in
    record {
      now = record {
        created = refl;
        cached = IsCached-table d.memory.cache d.table (some no_rows) none_there w.now.cached;
      };
      undone =
          registered forget_table d.savepoints d.memory (record d.memory { table_created = true })
            (ap (λ b. record d.memory { table_created = b }) (sym e)) w.undone;
      still = IsStill-register_forget d.savepoints d.table (some no_rows) none_there w.still;
    }

ensure_initialized-IsCoherent : (d : Metadata) → IsCoherent d → IsCoherent (ensure_initialized d)
ensure_initialized-IsCoherent d w = initialize-IsCoherent d.memory.table_created d refl w

has_table :
    (b : Bool) (d : Metadata)
    → d.memory.table_created ≡ b
    → IsCoherent d
    → is_some (initialize b d).table ≡ true
has_table true d e w = sym w.now.created ∙ e
has_table false d e w = refl

same_cache : (b : Bool) (d : Metadata) → (initialize b d).memory.cache ≡ d.memory.cache
same_cache true d = refl
same_cache false d = refl

written :
    (t : Option ℕ) (table : Option Rows)
    → is_some table ≡ true
    → alarm_of (write_alarm_time t table) ≡ t
written t none e = absurd (ground arith)
written t (some rows) e = refl

still_there :
    (t : Option ℕ) (table : Option Rows) → is_some (write_alarm_time t table) ≡ is_some table
still_there t none = refl
still_there t (some rows) = refl

store-IsCoherent :
    (t : Option ℕ) (c : Option (Option ℕ)) (d : Metadata)
    → d.memory.cache ≡ c
    → is_some d.table ≡ true
    → IsCoherent d
    → IsCoherent (store_alarm_time t c d)
store-IsCoherent t c d e there w = record {
  now = record {
    created = w.now.created ∙ sym (still_there t d.table);
    cached = sym (written t d.table there);
  };
  undone =
      registered (restore_cache c) d.savepoints d.memory (record d.memory { cache = some t })
        (ap (λ x. record d.memory { cache = x }) (sym e)) w.undone;
  still = IsStill-register_restore d.savepoints c d.table (write_alarm_time t d.table) w.still;
}

uncached : (d : Metadata) → IsCoherent d → get_alarm_uncached d ≡ alarm_of d.table
uncached d w = elim (Bool-cases d.memory.table_created) [
  | inl e ↦ rw (e)
  | inr e ↦ rw (e) (sym (no_alarm d.table (sym w.now.created ∙ e)))
]

cached_or_lem :
    (c : Option (Option ℕ)) (d : Metadata)
    → d.memory.cache ≡ c
    → IsCoherent d
    → ((cached_or c d).0 ≡ alarm_of d.table) × IsCoherent (cached_or c d).1
cached_or_lem (some a) d e w = (subst (λ x. IsCached x d.table) e w.now.cached, w)
cached_or_lem none d e w = (
  uncached d w,
  subst (λ a. IsCoherent (record d { memory = record d.memory { cache = some a } }))
      (sym (uncached d w))
      (record {
        now = record { created = w.now.created; cached = refl };
        undone = filled d.savepoints d.table d.memory w.still w.undone;
        still = w.still;
      }),
)

same_time_lem : (a b : Option ℕ) → same_time a b ≡ true → a ≡ b
same_time_lem none none e = refl
same_time_lem none (some b) e = absurd (ground arith)
same_time_lem (some a) none e = absurd (ground arith)
same_time_lem (some a) (some b) e = ap some ((nat_beq_iff a b).0 e)

is_cached_lem :
    (c : Option (Option ℕ)) (t : Option ℕ) (table : Option Rows)
    → is_cached c t ≡ true
    → IsCached c table
    → alarm_of table ≡ t
is_cached_lem none t table e h = absurd (ground arith)
is_cached_lem (some a) t table e h = sym h ∙ same_time_lem a t e

set_lem :
    (t : Option ℕ) (d : Metadata)
    → IsCoherent d
    → (alarm_of (set_alarm_time t d).1.table ≡ t) × IsCoherent (set_alarm_time t d).1
set_lem t d w =
    let d' = ensure_initialized d in
    let there = has_table d.memory.table_created d refl w in
    elim (Bool-cases (is_cached d.memory.cache t)) [
      | inl e ↦ rw (e) (is_cached_lem d.memory.cache t d.table e w.now.cached, w)
      | inr e ↦ rw (e) (
        written t d'.table there,
        store-IsCoherent t d.memory.cache d' (same_cache d.memory.table_created d) there
            (ensure_initialized-IsCoherent d w),
      )
    ]

same_alarm : (b : ℕ) (table : Option Rows) → alarm_of table ≡ alarm_of (write_bookmark b table)
same_alarm b none = refl
same_alarm b (some rows) = refl

same_there : (b : ℕ) (table : Option Rows) → is_some table ≡ is_some (write_bookmark b table)
same_there b none = refl
same_there b (some rows) = refl

bookmarked :
    (b : ℕ) (d : Metadata)
    → IsCoherent d
    → IsCoherent (record d { table = write_bookmark b d.table })
bookmarked b d w =
    let same = same_alarm b d.table in
    record {
      now = record {
        created = w.now.created ∙ same_there b d.table;
        cached = IsCached-table d.memory.cache d.table (write_bookmark b d.table) same w.now.cached;
      };
      undone = w.undone;
      still = IsStill-table d.savepoints d.table (write_bookmark b d.table) same w.still;
    }

set_bookmark-IsCoherent :
    (b : ℕ) (d : Metadata) → IsCoherent d → IsCoherent (or_same (set_bookmark b d) d)
set_bookmark-IsCoherent b d w = elim (Bool-cases (ltb max_safe_integer b)) [
  | inl e ↦ rw (e) w
  | inr e ↦ rw (e) (bookmarked b (ensure_initialized d) (ensure_initialized-IsCoherent d w))
]

reset_case :
    (ss : List Savepoint) (d : Metadata) → IsCoherent d → IsCoherent (or_same (reset_on ss d) d)
reset_case [] d w = record { now = record { created = refl; cached = tt }; undone = tt; still = tt }
reset_case (s ∷ ss) d w = w

call-IsCoherent : (c : Call) (d : Metadata) → IsCoherent d → IsCoherent (call c d)
call-IsCoherent getting d w = (cached_or_lem d.memory.cache d refl w).1
call-IsCoherent getting_bookmark d w = ensure_initialized-IsCoherent d w
call-IsCoherent beginning d w = begin_savepoint-IsCoherent d w
call-IsCoherent releasing d w = release_savepoint-IsCoherent d w
call-IsCoherent rolling_back d w = roll_back_savepoint-IsCoherent d w
call-IsCoherent resetting d w = reset_case d.savepoints d w
call-IsCoherent (setting t) d w = (set_lem t d w).1
call-IsCoherent (setting_bookmark b) d w = set_bookmark-IsCoherent b d w

Reach-IsCoherent : (d : Metadata) → Reach d → IsCoherent d
Reach-IsCoherent _ (opened table) = construct-IsCoherent table
Reach-IsCoherent _ (called c d r) = call-IsCoherent c d (Reach-IsCoherent d r)

-- Behind any order of calls, savepoints, releases, rollbacks and resets, `getAlarm` answers the
-- alarm of the rows, from the cache or not, and `setAlarm` makes its argument that alarm, written or
-- not.
pub Reach-alarm_of :
    (d : Metadata)
    → Reach d
    → (t : Option ℕ)
    → ((get_alarm_time d).0 ≡ alarm_of d.table)
      × ((alarm_of (set_alarm_time t d).1.table ≡ t)
          × ((get_alarm_time (set_alarm_time t d).1).0 ≡ t))
Reach-alarm_of d r t =
    let w = Reach-IsCoherent d r in
    let (now, after) = set_lem t d w in
    let d' = (set_alarm_time t d).1 in
    (
      (cached_or_lem d.memory.cache d refl w).0,
      (now, (cached_or_lem d'.memory.cache d' refl after).0 ∙ now),
    )
