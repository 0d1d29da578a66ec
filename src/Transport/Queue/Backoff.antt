-- ===== src/Transport/Queue/Backoff.antt =====
-- The delay before the next attempt (retry_outbound_queue of kin-node/kin/transport/v11.py).
use kin_gateway.Prelude.{
  ℕ, zero, suc, ◌+◌, ◌-◌, ◌*◌, ◌≤◌, ◌≡◌, refl, inl, inr, arith, leb, if◌then◌else◌, Bool-cases,
}

-- 2 ** n
unfoldable pub two_to : ℕ → ℕ
two_to zero = 1
two_to (suc n) = 2 * two_to n

-- min(3600, 10 * (2 ** (new_attempts - 1))), in seconds; new_attempts is 1 at least.
unfoldable pub backoff_seconds : ℕ → ℕ
unfolding two_to
backoff_seconds attempts =
    let delay = 10 * two_to (attempts - 1) in if leb delay 3_600 then delay else 3_600

two_to_small : (d n : ℕ) → n + d ≡ 7 → two_to n ≤ 128
unfolding two_to
two_to_small zero n h = let e : n ≡ 7 = omega (arith, h) in rw e (omega arith)
two_to_small (suc d) n h = omega (arith, two_to_small d (suc n) (omega (arith, h)))

two_to_large : (n : ℕ) → 9 ≤ n → 512 ≤ two_to n
unfolding two_to
two_to_large zero h = absurd (omega arith)
two_to_large (suc m) h = elim (Bool-cases (leb 9 m)) [
  | inl large ↦ omega (arith, two_to_large m (ground (arith, large)))
  | inr small ↦ let e : m ≡ 8 = ground arith in rw e (omega arith)
]

-- The first delay is 10 seconds; up to the ninth attempt each delay is twice the one before; and
-- from the tenth attempt on the delay is an hour, which no delay exceeds.
pub backoff_bounds :
    (n : ℕ)
    → 1 ≤ n
    → (backoff_seconds 1 ≡ 10)
      × (n ≤ 8 → backoff_seconds (n + 1) ≡ 2 * backoff_seconds n)
      × (10 ≤ n → backoff_seconds n ≡ 3_600)
      × (backoff_seconds n ≤ 3_600)
unfolding backoff_seconds two_to
backoff_bounds zero positive = absurd (omega arith)
backoff_bounds (suc k) positive = (
  refl,
  λ h. ground (arith, two_to_small (7 - k) k (omega (arith, h))),
  λ h. ground (arith, two_to_large k (omega (arith, h))),
  ground arith,
)
