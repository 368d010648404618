-- ===== src/AlarmScheduler/Restart/Rows.antt =====
-- src/server/alarm-scheduler.ts: what the loading of one row gives.
use mathlib.Core.Path.{subst}
use do_runtime.Common.{
  [], ◌∷◌, ℕ, ◌+◌, ◌≤◌, max, min, ◌≡◌, refl, sym, ap, ◌∙◌, Bool, true, false, none, some, List,
  String, lookup, insert, string_eq, lookup-insert, IsDistinct, insert-IsDistinct, arith, Result,
  ok, err, nat_beq, ◌⊎◌, inl, inr, Bool-cases, ◌>>=◌,
}
use do_runtime.AlarmScheduler.{
  AlarmError, write_refused, Row, Entry, PersistedAlarm, waiting, Scheduler, or_else, with_retry,
  resumed_entry, save_retry, update_row, put_entry,
}
use do_runtime.AlarmScheduler.Ladder.{
  Draw, next_delay_lem, alarm_retry_max_tries, retry_backoff_max,
}
use do_runtime.AlarmScheduler.Loading.{
  require_range, read_persisted_alarm, recovered, save_recovered, recover, resume, load_row,
}
use do_runtime.AlarmScheduler.Fits.{as_column, IsPairFit, IsAt}

-- What `requireRange` accepts.
pub record IsReadable (r : Row) : Type 0 where
  pub backoff : r.backoff ≤ retry_backoff_max + 1
  pub counted : r.counted_retry ≤ alarm_retry_max_tries
  pub previous : r.previous_retry_counted ≤ 1
  pub flag : r.running ≤ 1

abbrev pub persisted_of : Row → PersistedAlarm
persisted_of r = record {
  retry_time = r.retry_time;
  backoff = r.backoff;
  counted_retry = r.counted_retry;
  previous_retry_counted_against_limit = nat_beq r.previous_retry_counted 1;
  running = nat_beq r.running 1;
}

within : (value most : ℕ) → value ≤ most → require_range value most ≡ ok value
within value most h = ground arith

read_persisted_alarm_lem : (r : Row) → IsReadable r → read_persisted_alarm r ≡ ok (persisted_of r)
unfolding read_persisted_alarm
read_persisted_alarm_lem r ok_row = rw (
  within r.backoff (retry_backoff_max + 1) ok_row.backoff,
  within r.counted_retry alarm_retry_max_tries ok_row.counted,
  within r.previous_retry_counted 1 ok_row.previous,
  within r.running 1 ok_row.flag,
  read_persisted_alarm,
)

-- The entry that a row comes back as at the time `now`. A delivery that was interrupted is an
-- attempt that does not count, and the next one is at least two seconds away.
pub record IsRevived (now : ℕ) (r : Row) (e : Entry) : Type 0 where
  pub scheduled : e.scheduled_time ≡ r.scheduled_time
  pub counted : e.counted_retry ≡ r.counted_retry
  pub nothing_queued : e.queued_alarm ≡ none
  pub waits : e.status ≡ waiting
  pub calm :
      r.running ≡ 0
      → (e.wake_time ≡ some (max r.scheduled_time (or_else r.retry_time r.scheduled_time)))
        × (e.backoff ≡ r.backoff)
        × (e.previous_retry_counted_against_limit ≡ nat_beq r.previous_retry_counted 1)
  pub interrupted :
      r.running ≡ 1
      → (w : ℕ) × (e.wake_time ≡ some w)
        × (now + 2000 ≤ w)
        × (e.backoff ≡ min retry_backoff_max r.backoff + 1)
        × (e.previous_retry_counted_against_limit ≡ false)

-- What loading one row does.
pub record IsLoaded (now : ℕ) (a : String) (r : Row) (s s' : Scheduler) : Type 0 where
  pub row_after : Row
  pub entry_after : Entry
  pub rows_at : IsAt a s.rows (some row_after) s'.rows
  pub alarms_at : IsAt a s.alarms (some entry_after) s'.alarms
  pub fit : IsPairFit row_after entry_after
  pub revived : IsRevived now r entry_after
  pub distinct : IsDistinct s.rows → IsDistinct s'.rows

same_key :
    (a : String) (rows : List (String × Row)) (r : Row)
    → lookup a rows ≡ some r
    → IsAt a rows (some r) rows
same_key a rows r h b = ground (arith, string_eq.same_iff a b)

column_lem : (n : ℕ) → n ≤ 1 → n ≡ as_column (nat_beq n 1)
column_lem n h = ground arith

-- A row tells of a delivery that was interrupted.
abbrev pub IsInterrupted : List (String × Row) → Type 0
IsInterrupted [] = ⊥
IsInterrupted ((a, r) ∷ rows) = (r.running ≡ 1) ⊎ IsInterrupted rows

-- The write of a recovery was refused, and that is thrown.
abbrev pub IsRefused : (ℕ → Bool) → List (String × Row) → Result AlarmError Scheduler → Type 0
IsRefused refused rows x =
    IsInterrupted rows × (n : ℕ) × (refused n ≡ true) × (x ≡ err write_refused)

abbrev load_on :
    Bool → ℕ → (ℕ → Draw) → (ℕ → Bool) → String → Row → Scheduler → Result AlarmError Scheduler
load_on running now random refused a r s =
    resume running now (random s.next_number) (refused s.next_number) a (persisted_of r) s
    >>= λ (resumed, s₁). ok (put_entry a (resumed_entry s₁.next_number r.scheduled_time resumed) s₁)

load_by :
    (running : Bool) (now : ℕ) (random : ℕ → Draw) (refused : ℕ → Bool) (a : String) (r : Row)
    (s : Scheduler)
    → nat_beq r.running 1 ≡ running
    → IsReadable r
    → lookup a s.rows ≡ some r
    → ((s' : Scheduler) × (load_on running now random refused a r s ≡ ok s')
        × IsLoaded now a r s s')
      ⊎ IsRefused refused ((a, r) ∷ []) (load_on running now random refused a r s)
load_by false now random refused a r s calm readable here = inl (
  _,
  refl,
  record {
    row_after = r;
    entry_after = resumed_entry s.next_number r.scheduled_time (persisted_of r);
    rows_at = same_key a s.rows r here;
    alarms_at = λ b. lookup-insert a b _ s.alarms;
    fit = record {
      entry = record {
        backoff_within = readable.backoff;
        counted_within = readable.counted;
        armed = λ x. refl;
      };
      told = (refl, refl, refl, column_lem r.previous_retry_counted readable.previous);
      flag = readable.flag;
      quiet = λ x. ground (arith, readable.flag);
      wake =
          λ x y. (max r.scheduled_time (or_else r.retry_time r.scheduled_time), refl, omega arith);
    };
    revived = record {
      scheduled = refl;
      counted = refl;
      nothing_queued = refl;
      waits = refl;
      calm = λ x. (refl, refl, refl);
      interrupted = λ x. absurd (ground arith);
    };
    distinct = λ d. d;
  },
)
load_by true now random refused a r s broken readable here =
    let (x, is_x, _, _, low, _) = next_delay_lem (random s.next_number) r.backoff in
    let p : PersistedAlarm = recovered now x (persisted_of r) in
    let r' : Row =
      with_retry (now + x) (min retry_backoff_max r.backoff + 1) r.counted_retry false r in
    let saved : save_retry (now + x) (min retry_backoff_max r.backoff + 1) r.counted_retry false a
          s.rows
        ≡ insert a r' s.rows =
      rw (here, update_row) in
    elim (Bool-cases (refused s.next_number)) [
      | inl no_write ↦ inr (
        inl (ground (arith, broken)),
        s.next_number,
        no_write,
        rw (is_x, no_write, recover, save_recovered),
      )
      | inr writes ↦ inl (
        put_entry a (resumed_entry s.next_number r.scheduled_time p) (record s {
          rows =
              save_retry (now + x) (min retry_backoff_max r.backoff + 1) r.counted_retry false a
                s.rows;
        }),
        rw (is_x, writes, recover, save_recovered),
        record {
          row_after = r';
          entry_after = resumed_entry s.next_number r.scheduled_time p;
          rows_at = λ b. ap (λ m. lookup b m) saved ∙ lookup-insert a b r' s.rows;
          alarms_at = λ b. lookup-insert a b _ s.alarms;
          fit = record {
            entry = record {
              backoff_within = omega arith;
              counted_within = readable.counted;
              armed = λ y. refl;
            };
            told = (refl, refl, refl, refl);
            flag = omega arith;
            quiet = λ y. refl;
            wake = λ y z. (max r.scheduled_time (now + x), refl, omega arith);
          };
          revived = record {
            scheduled = refl;
            counted = refl;
            nothing_queued = refl;
            waits = refl;
            calm = λ y. absurd (ground arith);
            interrupted =
                λ y. (max r.scheduled_time (now + x), refl, omega (arith, low), refl, refl);
          };
          distinct = λ d. subst IsDistinct (sym saved) (insert-IsDistinct a r' s.rows d);
        },
      )
    ]

pub load_row_lem :
    (now : ℕ) (random : ℕ → Draw) (refused : ℕ → Bool) (a : String) (r : Row) (s : Scheduler)
    → IsReadable r
    → lookup a s.rows ≡ some r
    → ((s' : Scheduler) × (load_row now random refused a r s ≡ ok s') × IsLoaded now a r s s')
      ⊎ IsRefused refused ((a, r) ∷ []) (load_row now random refused a r s)
unfolding load_row
load_row_lem now random refused a r s readable here =
    elim (load_by (nat_beq r.running 1) now random refused a r s refl readable here) [
      | inl (s', is_s', loaded) ↦ inl (s', rw (read_persisted_alarm_lem r readable) is_s', loaded)
      | inr (which, n, no_write, throws) ↦
          inr (which, n, no_write, rw (read_persisted_alarm_lem r readable) throws)
    ]
