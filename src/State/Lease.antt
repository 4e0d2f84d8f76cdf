-- ===== src/State/Lease.antt =====
-- engine/state/lease.go. Durations are numbers of nanoseconds.
use partitionctl.Base.{
  ℕ, suc, ◌+◌, ◌-◌, ◌*◌, ◌/◌, ◌%◌, ◌^◌, Bool, true, not, Str, if◌then◌else◌, ltb, ◌==◌, ℤ, pos,
  negsuc, is_positive, wrap64,
}
use partitionctl.Protocol.Errors.{Result, ok, err, err_failure}

abbrev pub second : ℕ
second = 1000000000

abbrev pub default_lease_ttl : ℕ
default_lease_ttl = 60000000000

pub record Lease : Type 0 where
  pub run_id : Str
  pub holder : Str
  pub acquired_at : ℕ
  pub heartbeat_at : ℕ
  pub ttl_seconds : ℤ

-- `time.Duration(n) * time.Second`, an `int64`.
unfoldable pub seconds_of : ℤ → ℤ
seconds_of (pos n) = wrap64 (n * second)
seconds_of (negsuc n) = wrap64 (2 ^ 64 - (suc n * second) % 2 ^ 64)

-- `t.Add(d)`, for an instant after the zero time.
unfoldable pub add_duration : ℕ → ℤ → ℕ
add_duration t (pos d) = t + d
add_duration t (negsuc d) = t - suc d

-- `!now.Before(since + ttl)`, where a time to live that is not positive has always passed. It is the
-- body of `Expired` and of the lock file's `expired`.
unfoldable pub has_passed : ℤ → ℕ → ℕ → Bool
unfolding seconds_of add_duration
has_passed ttl since now =
    if not (is_positive ttl) then true else not (ltb now (add_duration since (seconds_of ttl)))

unfoldable pub expires_at : Lease → ℕ
unfolding seconds_of add_duration
expires_at l = add_duration l.heartbeat_at (seconds_of l.ttl_seconds)

unfoldable pub is_expired : Lease → ℕ → Bool
unfolding has_passed
is_expired l now = has_passed l.ttl_seconds l.heartbeat_at now

-- `ttl / time.Second`, truncated, for a duration that is positive.
whole_seconds : ℤ → ℕ
whole_seconds (pos n) = n / second
whole_seconds (negsuc n) = 0

unfoldable pub normalize_ttl : ℤ → Result ℤ
unfolding whole_seconds
normalize_ttl ttl =
    let effective = if is_positive ttl then ttl else pos default_lease_ttl in
    if whole_seconds effective == 0 then err err_failure else ok (pos (whole_seconds effective))
