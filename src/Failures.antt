-- ===== src/Failures.antt =====
-- internal/controller/helper/controller_helper_failure_counter.go: how long to wait after a failure.
-- Counts and durations are 64-bit integers; a duration counts nanoseconds.
use keycloak_config_sync_ope.Base.{
  ℕ, zero, suc, ◌+◌, ◌-◌, ◌*◌, ◌%◌, ◌<◌, ◌≡◌, ap, ◌∙◌, Bool, arith, String, ltb, if◌then◌else◌,
}
use keycloak_config_sync_ope.Base.Int.{ℤ, pos, negsuc, eq_ℤ}

-- The low 64 bits in two's complement.
unfoldable pub low_bits : ℤ → ℕ
low_bits (pos n) = n % 18446744073709551616
low_bits (negsuc n) = 18446744073709551615 - n % 18446744073709551616

-- The value of a 64-bit integer, from its bits.
unfoldable pub int64 : ℤ → ℤ
unfolding low_bits
int64 x =
    let b = low_bits x in
    if ltb b 9223372036854775808 then pos b else negsuc (18446744073709551615 - b)

abbrev pub increment : ℤ → ℤ
increment (pos n) = pos (suc n)
increment (negsuc zero) = pos 0
increment (negsuc (suc n)) = negsuc n

-- `k * x`, for a count k that is not zero
abbrev pub times : ℕ → ℤ → ℤ
times k (pos n) = pos (k * n)
times k (negsuc n) = negsuc (k * n + (k - 1))

-- `10 * time.Second`
abbrev pub base_duration : ℕ
base_duration = 10000000000

-- `getTimeout`: `baseDuration * time.Duration(factor+1)`
unfoldable pub get_timeout : ℤ → ℕ → ℤ
unfolding int64
get_timeout factor base = int64 (times base (int64 (increment factor)))

-- The parts of a status that count failures.
pub record StatusValue : Type 0 where
  pub phase : String
  pub error : String
  pub failure_count : ℤ

-- `SetFailureCount`: the time to wait, and the status with the failure counted.
unfoldable pub set_failure_count : StatusValue → ℤ × StatusValue
unfolding get_timeout int64
set_failure_count status = (
  get_timeout status.failure_count base_duration,
  record status { failure_count = int64 (increment status.failure_count) },
)

-- `SetSuccessStatus`
unfoldable pub set_success_status : StatusValue → StatusValue
set_success_status status = record status { phase = "Completed"; error = ""; failure_count = pos 0 }

-- `IsFailuresUpdated`, for two objects that count failures: the event is handled if neither counted.
unfoldable pub is_failures_updated : StatusValue → StatusValue → Bool
is_failures_updated old new = eq_ℤ old.failure_count new.failure_count

small_low_bits : (n : ℕ) → n < 9223372036854775808 → int64 (pos n) ≡ pos n
unfolding int64 low_bits
small_low_bits n h = ground arith

-- The failures after a number of rounds that all fail.
abbrev pub rounds : ℕ → StatusValue → StatusValue
rounds zero status = status
rounds (suc n) status = (set_failure_count (rounds n status)).1

count-rounds :
    (n : ℕ) (status : StatusValue)
    → status.failure_count ≡ pos 0
    → n < 9223372036854775807
    → (rounds n status).failure_count ≡ pos n
unfolding set_failure_count
count-rounds zero status h small = h
count-rounds (suc n) status h small =
    let before = count-rounds n status h (omega arith) in
    rw (before) (small_low_bits (suc n) (omega arith))

int64_of :
    (p : ℕ)
    → p < 18446744073709551616
    → int64 (pos p)
      ≡ (if ltb p 9223372036854775808 then pos p else negsuc (18446744073709551615 - p))
unfolding int64 low_bits
int64_of p h = ground arith

timeout_of :
    (n : ℕ)
    → n < 1844674407
    → get_timeout (pos n) base_duration ≡ (
        if ltb n 922337203
        then pos (10000000000 * suc n)
        else negsuc (18446744073709551615 - 10000000000 * suc n))
unfolding get_timeout
timeout_of n h =
    ap (λ x. int64 (times base_duration x)) (small_low_bits (suc n) (omega arith))
    ∙ int64_of (10000000000 * suc n) (omega arith)
    ∙ ground arith

-- From a count of zero, the wait after n more failures is 10 seconds times n + 1 while n is less
-- than 922337203, and negative from there on while n is less than 1844674407.
pub wait_of_rounds :
    (n : ℕ) (status : StatusValue)
    → status.failure_count ≡ pos 0
    → n < 1844674407
    → (set_failure_count (rounds n status)).0 ≡ (
        if ltb n 922337203
        then pos (10000000000 * suc n)
        else negsuc (18446744073709551615 - 10000000000 * suc n))
unfolding set_failure_count
wait_of_rounds n status h small =
    ap (λ x. get_timeout x base_duration) (count-rounds n status h (omega arith))
    ∙ timeout_of n small
