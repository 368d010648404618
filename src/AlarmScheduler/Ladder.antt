-- ===== src/AlarmScheduler/Ladder.antt =====
-- src/server/alarm-scheduler.ts: the delays between the attempts.
use do_runtime.Common.{
  ℕ, zero, suc, ◌+◌, ◌*◌, ◌/◌, ◌%◌, ◌^◌, ◌≤◌, min, ◌≡◌, refl, ap, ◌∙◌, inl, inr, Bool-cases, false,
  ltb, if◌then◌else◌, Result, ok, err, arith,
}
use do_runtime.AlarmScheduler.{AlarmError, backoff_out_of_range}

abbrev pub alarm_retry_start_seconds : ℕ
alarm_retry_start_seconds = 2

abbrev pub alarm_retry_max_tries : ℕ
alarm_retry_max_tries = 6

abbrev pub retry_backoff_max : ℕ
retry_backoff_max = 9

-- `<<` of JavaScript, on results below `2 ^ 31`.
abbrev pub shift_left : ℕ → ℕ → ℕ
shift_left a b = (a * 2 ^ (b % 32)) % 2 ^ 32

unfoldable pub alarm_retry_delay_ms : ℕ → Result AlarmError ℕ
alarm_retry_delay_ms backoff =
    if ltb retry_backoff_max backoff
    then err backoff_out_of_range
    else ok (shift_left alarm_retry_start_seconds backoff * 1000)

-- `random()`, as `part / whole`.
pub record Draw : Type 0 where
  pub part : ℕ
  pub whole : ℕ

unfoldable pub jitter_ms_for_delay : Draw → ℕ → ℕ
jitter_ms_for_delay d delay = let most = delay / 4 in min most ((d.part * (most + 1)) / d.whole)

-- The delay before the attempt that follows, its clamp and its jitter included.
unfoldable pub next_delay : Draw → ℕ → Result AlarmError ℕ
unfolding alarm_retry_delay_ms jitter_ms_for_delay
next_delay d backoff = elim (alarm_retry_delay_ms (min retry_backoff_max backoff)) [
  | ok delay ↦ ok (delay + jitter_ms_for_delay d delay)
  | err e ↦ err e
]

below_ten : (b : ℕ) → b ≤ 9 → shift_left 2 b ≡ 2 * 2 ^ b
below_ten zero h = refl
below_ten (suc zero) h = refl
below_ten (suc (suc zero)) h = refl
below_ten (suc (suc (suc zero))) h = refl
below_ten (suc (suc (suc (suc zero)))) h = refl
below_ten (suc (suc (suc (suc (suc zero))))) h = refl
below_ten (suc (suc (suc (suc (suc (suc zero)))))) h = refl
below_ten (suc (suc (suc (suc (suc (suc (suc zero))))))) h = refl
below_ten (suc (suc (suc (suc (suc (suc (suc (suc zero)))))))) h = refl
below_ten (suc (suc (suc (suc (suc (suc (suc (suc (suc zero))))))))) h = refl
below_ten (suc (suc (suc (suc (suc (suc (suc (suc (suc (suc b)))))))))) h =
    absurd (omega (arith, h))

-- The ladder starts at two seconds, doubles, and ends at 1024 seconds; a counter beyond it is
-- refused, so that the 32 bits of the shift never wrap.
pub alarm_retry_delay_ms_lem :
    (b : ℕ)
    → alarm_retry_delay_ms b
      ≡ (if ltb retry_backoff_max b then err backoff_out_of_range else ok (2000 * 2 ^ b))
unfolding alarm_retry_delay_ms
alarm_retry_delay_ms_lem b = elim (Bool-cases (ltb retry_backoff_max b)) [
  | inl above ↦ rw above
  | inr within ↦
      let low : b ≤ 9 = ground arith in
      rw within (ap (λ (x : ℕ). ok x) (rw (below_ten b low) (omega arith)))
]

jitter_le : (d : Draw) (delay : ℕ) → jitter_ms_for_delay d delay ≤ delay / 4
unfolding jitter_ms_for_delay
jitter_le d delay = omega arith

min_le : (b : ℕ) → ltb retry_backoff_max (min retry_backoff_max b) ≡ false
min_le b = ground arith

power_low : (b : ℕ) → b ≤ 9 → (1 ≤ 2 ^ b) × (2 ^ b ≤ 512)
power_low zero h = (omega arith, omega arith)
power_low (suc zero) h = (omega arith, omega arith)
power_low (suc (suc zero)) h = (omega arith, omega arith)
power_low (suc (suc (suc zero))) h = (omega arith, omega arith)
power_low (suc (suc (suc (suc zero)))) h = (omega arith, omega arith)
power_low (suc (suc (suc (suc (suc zero))))) h = (omega arith, omega arith)
power_low (suc (suc (suc (suc (suc (suc zero)))))) h = (omega arith, omega arith)
power_low (suc (suc (suc (suc (suc (suc (suc zero))))))) h = (omega arith, omega arith)
power_low (suc (suc (suc (suc (suc (suc (suc (suc zero)))))))) h = (omega arith, omega arith)
power_low (suc (suc (suc (suc (suc (suc (suc (suc (suc zero))))))))) h = (omega arith, omega arith)
power_low (suc (suc (suc (suc (suc (suc (suc (suc (suc (suc b)))))))))) h =
    absurd (omega (arith, h))

-- The next attempt always has a delay, whatever the counter is: at least the two seconds that keep
-- a retry from being a hot loop, never more than a quarter above the rung, and at most 1280
-- seconds.
pub next_delay_lem :
    (d : Draw) (b : ℕ)
    → (x : ℕ) × (next_delay d b ≡ ok x)
      × (2000 * 2 ^ min retry_backoff_max b ≤ x)
      × (4 * x ≤ 5 * (2000 * 2 ^ min retry_backoff_max b))
      × (2000 ≤ x)
      × (x ≤ 1280000)
unfolding next_delay
next_delay_lem d b =
    let c : ℕ = min retry_backoff_max b in
    let low = power_low c (omega arith) in
    let rung : ℕ = 2000 * 2 ^ c in
    let is_rung : alarm_retry_delay_ms c ≡ ok rung = alarm_retry_delay_ms_lem c ∙ (rw (min_le b)) in
    let j = jitter_le d rung in
    (
      rung + jitter_ms_for_delay d rung,
      rw (is_rung, next_delay),
      omega (arith, j),
      omega (arith, j),
      omega (arith, low),
      omega (arith, low, j),
    )
