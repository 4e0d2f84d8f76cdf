-- ===== src/State/File/Leases.antt =====
-- The leases of engine/state/file.go.
use partitionctl.Base.{
  ℕ, Bool, false, not, ◌&&◌, [], Str, str_eq, is_empty, none, some, Option, if◌then◌else◌, ◌==◌,
  refuse, ℤ,
}
use partitionctl.Protocol.Errors.{err_lease_lost}
use partitionctl.State.Lease.{Lease, is_expired, normalize_ttl}
use partitionctl.State.Audit.{event_lease_acquired, event_lease_released}
use partitionctl.State.Disk.{
  Env, RunDir, Act, ◌>>=◌, ◌>>◌, done_with, check, lift, optional, read, write, now,
}
use partitionctl.State.File.Trail.{append_audit, event, here}
use partitionctl.State.File.Runs.{get_run}

abbrev pub put_lease : Option Lease → RunDir → RunDir
put_lease l x = record x { lease = l }

-- Another holder's lease that has not expired.
unfoldable pub is_taken : Option Lease → Str → ℕ → Bool
is_taken none holder now = false
is_taken (some l) holder now = not (str_eq l.holder holder) && not (is_expired l now)

-- The time of the first acquisition, where the lease is the holder's own.
first_acquired : Option Lease → Str → ℕ → ℕ
first_acquired none holder now = now
first_acquired (some l) holder now =
    if str_eq l.holder holder && not (l.acquired_at == 0) then l.acquired_at else now

unfoldable pub new_lease : Str → Option Lease → Str → ℕ → ℤ → Lease
unfolding first_acquired
new_lease run existing holder now secs = record {
  run_id = run;
  holder = holder;
  acquired_at = first_acquired existing holder now;
  heartbeat_at = now;
  ttl_seconds = secs;
}

module _ (env : Env) where
  abbrev pub holder_or_own : Str → Str
  holder_or_own holder = if is_empty holder then env.holder else holder

  -- `getLeaseLocked`.
  unfoldable pub get_lease : Str → Act Lease
  get_lease run = read env (λ d. (here env run d).lease)

  unfoldable pub acquire_lease : Str → Str → ℤ → Act Lease
  unfolding get_lease new_lease is_taken
  acquire_lease run holder ttl =
      let h = holder_or_own holder in
      lift (normalize_ttl ttl) >>= λ secs. get_run env run >>= λ r. now env 0 >>= λ t.
      optional (get_lease run) >>= λ existing.
      check (refuse (is_taken existing h t) err_lease_lost)
      >> (write env run (put_lease (some (new_lease run existing h t secs)))
          >> (append_audit env (event env run [] event_lease_acquired t) >>= λ e.
              done_with (new_lease run existing h t secs)))

  unfoldable pub heartbeat : Str → Str → Act Lease
  unfolding get_lease
  heartbeat run holder = get_lease run >>= λ l.
      check (refuse (not (str_eq l.holder (holder_or_own holder))) err_lease_lost)
      >> (now env 0 >>= λ t.
          write env run (put_lease (some (record l { heartbeat_at = t })))
          >> done_with (record l { heartbeat_at = t }))

  -- The rest of ReleaseLease, where there is a lease.
  unfoldable pub release_found : Str → Str → Option Lease → Act Unit
  release_found run holder none = done_with tt
  release_found run holder (some l) =
      check (refuse (not (str_eq l.holder (holder_or_own holder))) err_lease_lost)
      >> (write env run (put_lease none)
          >> (now env 0 >>= λ t.
              append_audit env (event env run [] event_lease_released t) >>= λ e. done_with tt))

  unfoldable pub release_lease : Str → Str → Act Unit
  unfolding get_lease release_found
  release_lease run holder = optional (get_lease run) >>= release_found run holder
