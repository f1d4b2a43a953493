-- ===== src/Kubevirt/Backoff.antt =====
-- How long the watcher of drivers/kubevirt/watcher.go waits after polls that failed.
use native.Mathlib.Nat.{zero-mul, suc-mul}
use openshell_drivers_contri.Prelude.{
  ℕ, zero, suc, ◌+◌, ◌*◌, ◌/◌, ◌%◌, ◌^◌, ◌<◌, ◌≤◌, ◌≡◌, refl, min, arith, leb, Bool-cases, inl, inr,
}
use openshell_drivers_contri.Prelude.Int.{pos}
use openshell_drivers_contri.Safeguards.Records.{second, minute, hour}
use openshell_drivers_contri.Kubevirt.Watcher.{
  signed64, times, backoff, jitter_bound, later_by, retry_delay,
}

-- rand.Int64N(n) is below n.
abbrev pub IsRandom : (ℕ → ℕ) → Type 0
IsRandom rand = (n : ℕ) → 0 < n → rand n < n

power_bounds : (k : ℕ) → 1 ≤ k → k ≤ 6 → (2 ≤ 2 ^ k) × (2 ^ k ≤ 64)
power_bounds zero h _ = absurd (omega arith)
power_bounds (suc zero) _ _ = (omega arith, omega arith)
power_bounds (suc (suc zero)) _ _ = (omega arith, omega arith)
power_bounds (suc (suc (suc zero))) _ _ = (omega arith, omega arith)
power_bounds (suc (suc (suc (suc zero)))) _ _ = (omega arith, omega arith)
power_bounds (suc (suc (suc (suc (suc zero))))) _ _ = (omega arith, omega arith)
power_bounds (suc (suc (suc (suc (suc (suc k)))))) _ h =
    power_of (suc (suc (suc (suc (suc (suc k)))))) (omega arith)
  where
    power_of : (j : ℕ) → j ≡ 6 → (2 ≤ 2 ^ j) × (2 ^ j ≤ 64)
    power_of j e = rw e (omega arith, omega arith)

signed64-small : (n : ℕ) → n < 2 ^ 63 → signed64 n ≡ pos n
unfolding signed64
signed64-small n h = rw (low) (ground (arith, h))
  where
    low : n % 2 ^ 64 ≡ n
    low = omega arith

product_bounds : (p k : ℕ) → 2 ≤ k → k ≤ 64 → (2 * p ≤ p * k) × (p * k ≤ 64 * p)
product_bounds zero k _ _ = (rw (zero-mul k) (omega arith), rw (zero-mul k) (omega arith))
product_bounds (suc p) k atleast atmost =
    let (twice, below) = product_bounds p k atleast atmost in
    (rw (suc-mul p k) (omega arith), rw (suc-mul p k) (omega arith))

-- The least delay after a failure: twice the poll interval, but no more than a minute.
abbrev pub least_delay : ℕ → ℕ
least_delay p = min (2 * p) minute

backoff_lem :
    (p f : ℕ)
    → p ≤ hour
    → 0 < f
    → (d : ℕ) × (backoff (pos p) f ≡ pos d) × (least_delay p ≤ d) × (d ≤ minute)
unfolding backoff times
backoff_lem p f h positive =
    let k = 2 ^ min f 6 in
    let (atleast, atmost) = power_bounds (min f 6) (omega arith) (omega arith) in
    let (twice, below) = product_bounds p k atleast atmost in
    elim (Bool-cases (leb (p * k) minute)) [
      | inl short ↦ (
        p * k,
        rw (signed64-small (p * k) (omega arith)) (ground (arith, short)),
        omega arith,
        ground arith,
      )
      | inr long ↦ (
        minute,
        rw (signed64-small (p * k) (omega arith)) (ground (arith, long)),
        omega arith,
        omega arith,
      )
    ]

jittered :
    (rand : ℕ → ℕ) (d : ℕ)
    → IsRandom rand
    → d ≤ minute
    → (e : ℕ) × (later_by (pos d) (rand (jitter_bound (pos d))) ≡ pos e)
      × (d ≤ e)
      × (e ≤ 75 * second)
unfolding later_by jitter_bound
jittered rand d random h = elim (Bool-cases (leb 1 (d / 4))) [
  | inl some_jitter ↦
      (let j = random (d / 4) (ground arith) in
        rw some_jitter (d + rand (d / 4), refl, omega arith, omega arith))
  | inr no_jitter ↦
      (let j = random 1 (omega arith) in rw no_jitter (d + rand 1, refl, omega arith, omega arith))
]

-- Where the poll interval is at most an hour, the next poll after one that failed comes within 75
-- seconds, and no sooner than twice the poll interval or a minute, whichever is less, with every
-- jitter that `rand.Int64N` may draw: the product of the interval, which wraps at 64 bits, never
-- makes the delay shorter or negative.
pub retry_delay-bounds :
    (rand : ℕ → ℕ) (p failures : ℕ)
    → IsRandom rand
    → p ≤ hour
    → 0 < failures
    → (d : ℕ) × (retry_delay rand (pos p) failures ≡ pos d)
      × (min (2 * p) minute ≤ d)
      × (d ≤ 75 * second)
unfolding retry_delay
retry_delay-bounds rand p failures random small failed =
    let (d, same, least, most) = backoff_lem p failures small failed in
    let (e, is, later, bounded) = jittered rand d random most in
    (e, rw same is, omega arith, bounded)
