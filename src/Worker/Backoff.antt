-- ===== src/Worker/Backoff.antt =====
-- How long the idle loop waits for a command, and how long after a failed reopening.

use chrondb.Base.{ℕ, zero, suc, ◌+◌, ◌*◌, ◌^◌, ◌≤◌, min, ◌≡◌, refl, ap, arith}
use chrondb.Worker.Idle.{
  from_secs, check_interval, backoff, recv_wait, for_command, for_backoff, IdleState,
}

pow_small : (k : ℕ) → k ≤ 5 → (1 ≤ 2 ^ k) × (2 ^ k ≤ 32)
pow_small zero h = omega arith
pow_small (suc zero) h = omega arith
pow_small (suc (suc zero)) h = omega arith
pow_small (suc (suc (suc zero))) h = omega arith
pow_small (suc (suc (suc (suc zero)))) h = omega arith
pow_small (suc (suc (suc (suc (suc zero))))) h = omega arith
pow_small (suc (suc (suc (suc (suc (suc k)))))) h = absurd (omega arith)

-- Every `recv_timeout` of the loop waits for at least one second, for at most 30 where it waits for
-- commands, and for at most 32 in any case.
pub recv_wait_bounds :
    (idle_timeout : ℕ) (i : IdleState)
    → (from_secs 1 ≤ recv_wait idle_timeout i)
      × (recv_wait idle_timeout i
          ≤ elim i.waiting [ for_command ↦ from_secs 30 | for_backoff ↦ from_secs 32 ])
unfolding recv_wait check_interval backoff
recv_wait_bounds idle_timeout i = ground (arith, pow_small (min i.reopen_failures 5) (omega arith))

min_five : (n : ℕ) → 5 ≤ n → min n 5 ≡ 5
min_five n h = omega arith

backoff_late : (n : ℕ) → 5 ≤ n → backoff n ≡ from_secs 32
unfolding backoff
backoff_late n h = ap (λ m. from_secs (2 ^ m)) (min_five n h)

backoff_stays : (n : ℕ) → 5 ≤ n → backoff (n + 1) ≡ min (2 * backoff n) (from_secs 32)
backoff_stays n h = rw (backoff_late (n + 1) (omega arith), backoff_late n h) refl

-- The backoff after the first failed reopening is two seconds, and each further one doubles it, up to 32
-- seconds.
pub backoff_schedule :
    (failures : ℕ)
    → (backoff 1 ≡ from_secs 2)
      × (backoff (failures + 1) ≡ min (2 * backoff failures) (from_secs 32))
unfolding backoff
backoff_schedule zero = (refl, omega arith)
backoff_schedule (suc zero) = (refl, omega arith)
backoff_schedule (suc (suc zero)) = (refl, omega arith)
backoff_schedule (suc (suc (suc zero))) = (refl, omega arith)
backoff_schedule (suc (suc (suc (suc zero)))) = (refl, omega arith)
backoff_schedule (suc (suc (suc (suc (suc k))))) = (refl, backoff_stays _ (omega arith))
