-- ===== src/Executor/Backoff.antt =====
-- engine/executor/backoff.go: the delay before an attempt, with the wrap-around of `int64`. The
-- jitter, a floating-point fraction, is a parameter of the executor.
use partitionctl.Base.{
  ℕ, zero, suc, ◌+◌, ◌-◌, ◌*◌, ◌^◌, ◌%◌, ◌≤◌, ◌<◌, ◌≡◌, ◌∙◌, ap, Bool, true, false, not, ◌||◌,
  Option, if◌then◌else◌, ◌▷◌, refuse, ltb, leb, ℤ, pos, negsuc, is_negative, is_positive, wrap64,
  arith, Bool-cases, inl, inr,
}
use native.Mathlib.Nat.{pow-suc}
use partitionctl.Protocol.Errors.{GoError, foreign, opaque}
use partitionctl.Executor.Port.{RetryPolicy}

-- `a <= b`.
unfoldable pub le_ℤ : ℤ → ℤ → Bool
le_ℤ (pos a) (pos b) = leb a b
le_ℤ (pos a) (negsuc b) = false
le_ℤ (negsuc a) (pos b) = true
le_ℤ (negsuc a) (negsuc b) = leb b a

-- `Validate`, without the jitter.
unfoldable pub validate_retry : RetryPolicy → Option GoError
unfolding le_ℤ
validate_retry p =
    refuse (ltb p.max_attempts 1) (foreign opaque)
    ▷ refuse (is_negative p.base_delay) (foreign opaque)
    ▷ refuse (is_negative p.max_delay) (foreign opaque)
    ▷ refuse (not (le_ℤ p.base_delay p.max_delay)) (foreign opaque)

-- `d * 2` of an `int64`.
double : ℤ → ℤ
double (pos n) = wrap64 (n * 2)
double (negsuc n) = wrap64 (2 ^ 64 - (suc n * 2) % 2 ^ 64)

-- The loop with the rounds that are left, and the last test.
capped : ℕ → ℤ → ℤ → ℤ
unfolding le_ℤ double
capped zero max d = if le_ℤ d max then d else max
capped (suc n) max d = let rest = capped n max (double d) in if le_ℤ max d then max else rest

unfoldable pub delay : RetryPolicy → ℕ → ℤ
unfolding capped
delay p attempt =
    if leb attempt 1 || not (is_positive p.base_delay)
    then pos 0
    else capped (attempt - 2) p.max_delay p.base_delay

abbrev pub min : ℕ → ℕ → ℕ
min a b = if leb a b then a else b

double-pos : (d m : ℕ) → d < m → m ≤ 2 ^ 62 → double (pos d) ≡ pos (d * 2)
unfolding double wrap64
double-pos d m h k = ground arith

le-mul_pow : (d n : ℕ) → d ≤ d * 2 ^ n
le-mul_pow d zero = omega arith
le-mul_pow d (suc n) = grind (arith, le-mul_pow d n, pow-suc 2 n)

doubled : (d n : ℕ) → d * 2 * 2 ^ n ≡ d * 2 ^ suc n
doubled d n = grind (arith, pow-suc 2 n)

capped-min : (n m d : ℕ) → m ≤ 2 ^ 62 → capped n (pos m) (pos d) ≡ pos (min (d * 2 ^ n) m)
unfolding capped le_ℤ
capped-min zero m d h = ground arith
capped-min (suc n) m d h = elim (Bool-cases (leb m d)) [
  | inl over ↦ rw over (ground (arith, le-mul_pow d (suc n)))
  | inr under ↦ rw under (
      ap (capped n (pos m)) (double-pos d m (ground arith) h)
      ∙ capped-min n m (d * 2) h
      ∙ ap (λ k. pos (min k m)) (doubled d n))
]

-- For a policy with a positive base delay and a cap of at most 2^62 ns, the delay before attempt
-- n + 2 is the base delay times 2^n, or the cap if that is less: the 64-bit doubling does not wrap.
pub delay-min :
    (p : RetryPolicy) (n b m : ℕ)
    → p.base_delay ≡ pos b
    → p.max_delay ≡ pos m
    → 0 < b
    → m ≤ 2 ^ 62
    → delay p (n + 2) ≡ pos (min (b * 2 ^ n) m)
unfolding delay
delay-min p n b m hb hm h k = rw (hb, delay) (rw hm (ground (arith, capped-min n m b k)))
