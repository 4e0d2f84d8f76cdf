-- ===== src/State/Refusals.antt =====
-- What the store refuses, with the files left as they were: here, another holder's calls on a lease;
-- in its children, a lock that is held and the adoption of a run that was cancelled.
pub mod Locks
pub mod Adoption
use partitionctl.Base.{
  ℕ, ◌≡◌, ◌≢◌, refl, sym, ◌∙◌, Bool, true, false, not, ◌&&◌, List, Str, none, some, Option, str_eq,
  str_eq_iff, str_eq_refl, is_empty, if◌then◌else◌, ℤ, refuse, find, arith, Bool-cases, inl, inr,
  ap,
}
use mathlib.Core.Path.{subst}
use partitionctl.Protocol.Errors.{GoError, Result, ok, err, err_lease_lost, err_conflict}
use partitionctl.State.Run.{Run, RunStatus, run_cancelled, is_terminal_status, status_eq}
use partitionctl.State.Lease.{Lease, is_expired}
use partitionctl.State.Lock.{LockKey, LockFile, is_stale}
use partitionctl.State.Disk.{
  Outcome, succeeds, fails_before, fails_after, Env, RunDir, Disk, dir_at, Act, optional, tick,
  segment, dir_or_empty,
}
use partitionctl.State.Disk.Hoare.{
  After, Runs, Keeps, IsTimeless, OrAbsent, Runs-weaken, Runs-if, Runs-then, Runs-next, Runs-given,
  check-Then, lift-Then, fail-Runs, done-Runs, optional-Runs, check-Keeps,
}
use partitionctl.State.Disk.Accesses.{
  now-Keeps, draw-Keeps, read-Runs, read_or_none-Runs, clock-Runs,
}
use partitionctl.State.File.Trail.{here}
use partitionctl.State.File.Leases.{
  acquire_lease, heartbeat, release_lease, release_found, is_taken, get_lease, holder_or_own,
}
use partitionctl.State.File.Locks.{
  FileLock, try_lock, contend, create_exclusive, exclusive, put_lock, lock_at, lock_path, read_lock,
  held, check_lock, has_token, new_lock_file,
}
use partitionctl.State.Orphan.{adopt_orphan, check_adoptable}
use partitionctl.State.Evolution.Accesses.{
  same_disk, get_run-Runs, get_run-Keeps, get_lease-Runs, optional-Keeps,
}
use partitionctl.State.Evolution.Opening.{StatWorks}
use partitionctl.State.Evolution.Calls.{Call, perform_all}
use partitionctl.State.Evolution.Lifetimes.{perform_all_terminal}

-- The files are those of `d`; time may have passed.
pub record Unchanged (d v : Disk) : Type 0 where
  pub runs : v.runs ≡ d.runs
  pub locks : v.locks ≡ d.locks

pub unchanged-IsTimeless : (d : Disk) → IsTimeless (Unchanged d)
unchanged-IsTimeless d = record { passes = λ v n p. record { runs = p.runs; locks = p.locks } }

-- The call fails and leaves the files as they were.
unfoldable pub IsRefused : {A : Type 0} → Act A → Disk → Type 0
IsRefused m d = (e : GoError) × (v : Disk) × (m d ≡ (err e, v)) × Unchanged d v

pub refused :
    {A : Type 0} (d : Disk) (r : Result A × Disk)
    → After (λ a v. ⊥) (Unchanged d) r
    → (e : GoError) × (v : Disk) × (r ≡ (err e, v)) × Unchanged d v
refused d (ok a, v) h = absurd h
refused d (err e, v) h = (e, v, refl, h)

-- An action that returns nothing is refused.
pub Runs-IsRefused :
    {A : Type 0} (m : Act A) (d : Disk)
    → Runs (Unchanged d) (λ a v. ⊥) (Unchanged d) m
    → IsRefused m d
unfolding IsRefused
Runs-IsRefused m d h = refused d (m d) (h.ends d (record { runs = refl; locks = refl }))

pub here-Unchanged :
    (env : Env) (id : Str) (d v : Disk) → Unchanged d v → here env id v ≡ here env id d
unfolding dir_at
here-Unchanged env id d v h = ap (λ l. dir_or_empty (find (segment env id) l)) h.runs

-- The lease of another holder has not expired at any time that the clock shows.
pub record IsLive (env : Env) (l : Lease) (holder : Str) : Type 0 where
  pub other_holder : l.holder ≢ holder_or_own env holder
  pub in_time : (n : ℕ) → is_expired l (env.clock n) ≡ false

module _ (env : Env) (d : Disk) (run holder : Str) (l : Lease)
    (leased : (here env run d).lease ≡ some l) where
  steady : IsTimeless (Unchanged d)
  steady = unchanged-IsTimeless d

  different :
      l.holder ≢ holder_or_own env holder → str_eq l.holder (holder_or_own env holder) ≡ false
  different h = elim (Bool-cases (str_eq l.holder (holder_or_own env holder))) [
    | inl same ↦ absurd (h ((str_eq_iff _ _).0 same))
    | inr diff ↦ diff
  ]

  -- The lease that is read is the one that is there.
  read-lease : (m : Lease) (v : Disk) → Unchanged d v → (here env run v).lease ≡ some m → m ≡ l
  read-lease m v same e = cc (here-Unchanged env run d v same, leased, e)

  lost-check :
      (m : Lease)
      → l.holder ≢ holder_or_own env holder
      → m ≡ l
      → refuse (not (str_eq m.holder (holder_or_own env holder))) err_lease_lost ≢ none
  lost-check m h e =
      subst (λ x. refuse (not (str_eq x.holder (holder_or_own env holder))) err_lease_lost ≢ none)
        (sym e) (rw (different h) (λ q. cc))

  heartbeat-IsRefused : l.holder ≢ holder_or_own env holder → IsRefused (heartbeat env run holder) d
  unfolding heartbeat
  heartbeat-IsRefused h = Runs-IsRefused _ d (
      Runs-next (same_disk _)
        (Runs-weaken (get_lease-Runs env steady run) (same_disk _)
          (λ m v p. (p.0, read-lease m v p.0 p.1)) (same_disk _))
        λ m. Runs-given λ e. check-Then (same_disk _) _ λ own. absurd (lost-check m h e own))

  taken :
      (t : ℕ)
      → IsLive env l holder
      → (n : ℕ) × (t ≡ env.clock n)
      → is_taken (some l) (holder_or_own env holder) t ≡ true
  unfolding is_taken
  taken t live (n, e) = rw e (rw (different live.other_holder) (rw (live.in_time n) refl))

  read-existing :
      Runs
        (Unchanged d)
        (λ x v. Unchanged d v × (x ≡ some l))
        (Unchanged d)
        (optional (get_lease env run))
  unfolding get_lease dir_at
  read-existing =
      Runs-weaken (read_or_none-Runs env steady (λ v. (here env run v).lease) (λ v n. refl))
        (same_disk _) (λ x v p. (p.0, cc (here-Unchanged env run d v p.0, leased, p.1)))
        (same_disk _)

  taken-check :
      (x : Option Lease) (t : ℕ)
      → IsLive env l holder
      → (n : ℕ) × (t ≡ env.clock n)
      → x ≡ some l
      → refuse (is_taken x (holder_or_own env holder) t) err_lease_lost ≢ none
  taken-check x t live at e =
      subst (λ y. refuse (is_taken y (holder_or_own env holder) t) err_lease_lost ≢ none) (sym e)
        (rw (taken t live at) (λ q. cc))

  acquire_lease-IsRefused :
      (ttl : ℤ) → IsLive env l holder → IsRefused (acquire_lease env run holder ttl) d
  unfolding acquire_lease
  acquire_lease-IsRefused ttl live = Runs-IsRefused _ d (
      lift-Then (same_disk _) _ λ secs h.
        Runs-next (same_disk _) (get_run-Keeps env steady run) λ r.
          Runs-next (same_disk _) (clock-Runs env steady) λ t. Runs-given λ at.
            Runs-next (same_disk _) read-existing λ x.
              Runs-given
                λ e. check-Then (same_disk _) _ λ free. absurd (taken-check x t live at e free))

  release_found-Runs :
      (x : Option Lease)
      → l.holder ≢ holder_or_own env holder
      → x ≡ some l
      → Runs (Unchanged d) (λ u v. ⊥) (Unchanged d) (release_found env run holder x)
  unfolding release_found
  release_found-Runs none h e = cc
  release_found-Runs (some m) h e =
      check-Then (same_disk _) _ λ own. absurd (lost-check m h (cc) own)

  release_lease-IsRefused :
      l.holder ≢ holder_or_own env holder → IsRefused (release_lease env run holder) d
  unfolding release_lease
  release_lease-IsRefused h =
      Runs-IsRefused _ d
        (Runs-next (same_disk _) read-existing λ x. Runs-given λ e. release_found-Runs x h e)

-- While a run has a lease of another holder that has not expired by the clock, AcquireLease,
-- Heartbeat and ReleaseLease by this holder fail and leave every file as it was.
pub leases-IsRefused :
    (env : Env) (d : Disk) (run holder : Str) (ttl : ℤ) (l : Lease)
    → (here env run d).lease ≡ some l
    → IsLive env l holder
    → IsRefused (acquire_lease env run holder ttl) d
      × IsRefused (heartbeat env run holder) d
      × IsRefused (release_lease env run holder) d
leases-IsRefused env d run holder ttl l leased live = (
  acquire_lease-IsRefused env d run holder l leased ttl live,
  heartbeat-IsRefused env d run holder l leased live.other_holder,
  release_lease-IsRefused env d run holder l leased live.other_holder,
)
