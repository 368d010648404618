-- ===== src/AlarmScheduler/Fits.antt =====
-- src/server/alarm-scheduler.ts: what the table and the memory of a scheduler owe each other.
use do_runtime.Common.{
  ℕ, ◌+◌, ◌≤◌, max, ◌≡◌, refl, Bool, true, false, not, Option, none, some, List, String,
  if◌then◌else◌, ◌==◌, Bool-cases, Option-cases, inl, inr, is_some, lookup, insert, erase,
  lookup-insert, lookup-erase, string_eq, IsDistinct, insert-IsDistinct, erase-IsDistinct, arith,
}
use do_runtime.AlarmScheduler.{Row, Entry, Task, waiting, Scheduler, or_else, new_row, update_row}
use do_runtime.AlarmScheduler.Ladder.{alarm_retry_max_tries, retry_backoff_max}

-- A wake that will call the handler is armed.
abbrev pub is_armed : Option Task → Bool
is_armed none = false
is_armed (some t) = not (is_some t.completed)

abbrev pub as_column : Bool → ℕ
as_column b = if b then 1 else 0

-- The counters of an entry are within the ladder, and one that waits is armed.
pub record IsEntryFit (e : Entry) : Type 0 where
  pub backoff_within : e.backoff ≤ retry_backoff_max + 1
  pub counted_within : e.counted_retry ≤ alarm_retry_max_tries
  pub armed : e.status ≡ waiting → is_armed e.task ≡ true

-- The row tells the alarm that is queued, as new work, if there is one ...
abbrev pub IsTold : Option ℕ → Row → Entry → Type 0
IsTold (some q) r e = r ≡ new_row q r.running
-- ... or else the alarm itself and how far its retries have come.
IsTold none r e =
    (r.scheduled_time ≡ e.scheduled_time)
    × (r.backoff ≡ e.backoff)
    × (r.counted_retry ≡ e.counted_retry)
    × (r.previous_retry_counted ≡ as_column e.previous_retry_counted_against_limit)

-- The wake that an armed entry and its row agree on.
abbrev pub IsSameWake : Row → Entry → Type 0
IsSameWake r e =
    (w : ℕ) × (e.wake_time ≡ some w)
    × (max e.scheduled_time w ≡ max r.scheduled_time (or_else r.retry_time r.scheduled_time))

pub record IsPairFit (r : Row) (e : Entry) : Type 0 where
  pub entry : IsEntryFit e
  pub told : IsTold e.queued_alarm r e
  pub flag : r.running ≤ 1
  pub quiet : is_armed e.task ≡ true → r.running ≡ 0
  pub wake : is_armed e.task ≡ true → e.queued_alarm ≡ none → IsSameWake r e

-- What is stored is never forgotten: a row has an entry.
abbrev pub IsFit : Option Row → Option Entry → Type 0
IsFit none none = Unit
IsFit none (some e) = IsEntryFit e
IsFit (some r) none = ⊥
IsFit (some r) (some e) = IsPairFit r e

pub record IsStored (rows : List (String × Row)) (alarms : List (String × Entry)) : Type 0 where
  pub fits : (a : String) → IsFit (lookup a rows) (lookup a alarms)
  pub distinct : IsDistinct rows

abbrev pub IsSound : Scheduler → Type 0
IsSound s = IsStored s.rows s.alarms

module _ {V : Type 0} (a : String) (m : List (String × V)) where
  -- `m'` binds `a` to `o`, and everything else as `m` does.
  abbrev pub IsAt : Option V → List (String × V) → Type 0
  IsAt o m' = (b : String) → lookup b m' ≡ (if a == b then o else lookup b m)

  self-IsAt : (o : Option V) → lookup a m ≡ o → IsAt o m
  self-IsAt o e b = ground (arith, string_eq.same_iff a b)

  insert-IsAt : (v : V) → IsAt (some v) (insert a v m)
  insert-IsAt v b = lookup-insert a b v m

  erase-IsAt : IsAt none (erase a m)
  erase-IsAt b = lookup-erase a b m

-- One actor's row and entry change, and nothing else.
module _ (a : String) (rows : List (String × Row)) (alarms : List (String × Entry))
    (w : IsStored rows alarms) where
  changed :
      (o : Option Row) (p : Option Entry) (rows' : List (String × Row))
      (alarms' : List (String × Entry))
      → IsAt a rows o rows'
      → IsAt a alarms p alarms'
      → IsDistinct rows'
      → IsFit o p
      → IsStored rows' alarms'
  changed o p rows' alarms' row entry distinct fit = record {
    fits = λ b. elim (Bool-cases (a == b)) [
      | inl same ↦ rw (row b, entry b, same) fit
      | inr differ ↦ rw (row b, entry b, differ) (w.fits b)
    ];
    distinct = distinct;
  }

  pub put_both :
      (r : Row) (e : Entry) → IsPairFit r e → IsStored (insert a r rows) (insert a e alarms)
  put_both r e fit =
      changed (some r) (some e) _ _ (insert-IsAt a rows r) (insert-IsAt a alarms e)
        (insert-IsDistinct a r rows w.distinct) fit

  pub put_entry_only :
      (e : Entry) → IsFit (lookup a rows) (some e) → IsStored rows (insert a e alarms)
  put_entry_only e fit =
      changed (lookup a rows) (some e) _ _ (self-IsAt a rows (lookup a rows) refl)
        (insert-IsAt a alarms e) w.distinct fit

  pub lose_row : (e : Entry) → IsEntryFit e → IsStored (erase a rows) (insert a e alarms)
  lose_row e fit =
      changed none (some e) _ _ (erase-IsAt a rows) (insert-IsAt a alarms e)
        (erase-IsDistinct a rows w.distinct) fit

  pub lose_both : IsStored (erase a rows) (erase a alarms)
  lose_both =
      changed none none _ _ (erase-IsAt a rows) (erase-IsAt a alarms)
        (erase-IsDistinct a rows w.distinct) tt

  pub lose_row_only :
      (p : Option Entry) → lookup a alarms ≡ p → IsFit none p → IsStored (erase a rows) alarms
  lose_row_only p is_p fit =
      changed none p _ _ (erase-IsAt a rows) (self-IsAt a alarms p is_p)
        (erase-IsDistinct a rows w.distinct) fit

  -- An `UPDATE` with a change of the entry.
  pub put_updated :
      (f : Row → Row) (e : Entry)
      → IsEntryFit e
      → ((r : Row) → lookup a rows ≡ some r → IsPairFit (f r) e)
      → IsStored (update_row f a (lookup a rows) rows) (insert a e alarms)
  put_updated f e entry pair = elim (Option-cases (lookup a rows)) [
    | inl gone ↦ rw (gone, update_row) (put_entry_only e (rw gone entry))
    | inr (r, is_r) ↦ rw (is_r, update_row) (put_both (f r) e (pair r is_r))
  ]

-- What an entry owes by itself.
pub IsFit-IsEntryFit : (o : Option Row) (e : Entry) → IsFit o (some e) → IsEntryFit e
IsFit-IsEntryFit none e fit = fit
IsFit-IsEntryFit (some r) e fit = fit.entry
