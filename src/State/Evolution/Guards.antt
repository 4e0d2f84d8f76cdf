-- ===== src/State/Evolution/Guards.antt =====
-- Authorizations and lock files evolve the disk.
use partitionctl.Base.{ℕ, List, Str, none, some, Option, put, str_eq}
use partitionctl.Protocol.Errors.{GoError, Result, ok, err}
use partitionctl.State.Lock.{LockKey, LockFile, is_stale}
use partitionctl.State.Authorization.{AuthorizationRecord}
use partitionctl.State.Disk.{
  Outcome, succeeds, fails_before, fails_after, Env, Disk, Act, tick, dir_at,
}
use partitionctl.State.Disk.Hoare.{
  After, Keeps, IsTimeless, Runs-if, Runs-then, Runs-next, check-Then, fail-Runs, done-Runs,
}
use partitionctl.State.Disk.Accesses.{now-Keeps, draw_token-Keeps, write-Runs, write_lock-Keeps}
use partitionctl.State.File.Authorizations.{
  commit_authorization, record_authorization, close_guarded, add_authorization, completed, next_seq,
  not_recorded, ignored, ignoring,
}
use partitionctl.State.File.Locks.{
  FileLock, try_lock, take_over, contend, create_exclusive, exclusive, put_lock, lock_at, refresh,
  unlock, has_token,
}
use partitionctl.State.Evolution.{Evolves}
use partitionctl.State.Evolution.Laws.{set_dir-Evolves-from, add_authorization-DirEvolves}
use partitionctl.State.Evolution.Accesses.{
  same_disk, get_run-Keeps, list-here-Keeps, optional-Keeps, append_audit-Keeps, read_lock-Keeps,
}
use partitionctl.State.Evolution.Operations.{timeless}

module _ (env : Env) (d0 : Disk) where
  still : IsTimeless (Evolves d0)
  still = timeless env d0

  next_seq-Keeps : (id : Str) → Keeps (Evolves d0) (next_seq env id)
  unfolding next_seq
  next_seq-Keeps id =
      Runs-next (same_disk _) (list-here-Keeps env still id (λ x. x.authorizations))
        λ l. done-Runs _ (same_disk _)

  commit_authorization-Keeps :
      (a : AuthorizationRecord) → Keeps (Evolves d0) (commit_authorization env a)
  unfolding commit_authorization
  commit_authorization-Keeps a = check-Then (same_disk _) _ λ valid.
      Runs-next (same_disk _) (get_run-Keeps env still a.run_id) λ r.
        Runs-next (same_disk _) (now-Keeps env still 0) λ t.
          Runs-next (same_disk _) (next_seq-Keeps a.run_id) λ seq.
            Runs-then
              (write-Runs env still a.run_id (add_authorization (completed a r t seq)) (same_disk _)
                λ d p.
                  set_dir-Evolves-from d0 _ (add_authorization (completed a r t seq)) d p
                    (add_authorization-DirEvolves _ _))
              λ u.
                Runs-next (same_disk _) (append_audit-Keeps env d0 _) λ e. done-Runs _ (same_disk _)

  not_recorded-After :
      {A : Type 0} (P : Disk → Type 0) (r : Result A × Disk)
      → After (λ a. P) P r
      → After (λ a. P) P (not_recorded r)
  not_recorded-After P (ok a, d) h = h
  not_recorded-After P (err e, d) h = h

  pub record_authorization-Keeps :
      (a : AuthorizationRecord) → Keeps (Evolves d0) (record_authorization env a)
  unfolding record_authorization
  record_authorization-Keeps a = record {
    ends = λ d p.
        not_recorded-After (Evolves d0) (commit_authorization env a d)
          ((commit_authorization-Keeps a).ends d p);
  }

  ignored-After :
      {A : Type 0} (P : Disk → Type 0) (r : Result A × Disk)
      → After (λ a. P) P r
      → After (λ u. P) P (ignored r)
  ignored-After P (ok a, d) h = h
  ignored-After P (err e, d) h = h

  ignoring-Keeps : {A : Type 0} {m : Act A} → Keeps (Evolves d0) m → Keeps (Evolves d0) (ignoring m)
  ignoring-Keeps {m = m} h = record { ends = λ d p. ignored-After (Evolves d0) (m d) (h.ends d p) }

  pub close_guarded-Keeps :
      (run node : Str) (e : Option GoError) → Keeps (Evolves d0) (close_guarded env run node e)
  unfolding close_guarded
  close_guarded-Keeps run node none =
      Runs-next (same_disk _) (now-Keeps env still 0)
        λ t. Runs-next (same_disk _) (append_audit-Keeps env d0 _) λ e. done-Runs _ (same_disk _)
  close_guarded-Keeps run node (some e) =
      Runs-then
        (ignoring-Keeps
          (Runs-next (same_disk _) (now-Keeps env still 0) λ t. append_audit-Keeps env d0 _))
        λ u. done-Runs _ (same_disk _)

  -- The lock files are no part of a run's directory.
  locks-Evolves :
      (d : Disk) (l : List (Str × LockFile)) → Evolves d0 d → Evolves d0 (record d { locks = l })
  unfolding dir_at
  locks-Evolves d l p = record { at = λ k. p.at k }

  exclusive-After :
      (o : Outcome) (l : Option LockFile) (seg : Str) (n : LockFile) (d : Disk)
      → Evolves d0 d
      → After (λ b. Evolves d0) (Evolves d0) (exclusive o l (put_lock seg n) d)
  exclusive-After succeeds none seg n d p = locks-Evolves d (put seg n d.locks) p
  exclusive-After succeeds (some l) seg n d p = p
  exclusive-After fails_before none seg n d p = p
  exclusive-After fails_before (some l) seg n d p = p
  exclusive-After fails_after none seg n d p = locks-Evolves d (put seg n d.locks) p
  exclusive-After fails_after (some l) seg n d p = p

  create_exclusive-Keeps :
      (k : LockKey) (l : LockFile) → Keeps (Evolves d0) (create_exclusive env k l)
  unfolding create_exclusive
  create_exclusive-Keeps k l = record {
    ends = λ d p.
        exclusive-After (env.medium d.step) (lock_at env k d) _ l (tick d) (still.passes d _ p);
  }

  take_over-Keeps : (k : LockKey) (l : LockFile) → Keeps (Evolves d0) (take_over env k l)
  unfolding take_over
  take_over-Keeps k l = Runs-then (write_lock-Keeps env still _ (λ d p. locks-Evolves d _ p)) λ u.
      Runs-next (same_disk _) (read_lock-Keeps env still k) λ after.
        Runs-if (str_eq after.token l.token) (λ own. done-Runs _ (same_disk _))
          (λ lost. fail-Runs (same_disk _) _)

  contend-Keeps :
      (k : LockKey) (l : LockFile) (t : ℕ) (cur : Option LockFile)
      → Keeps (Evolves d0) (contend env k l t cur)
  unfolding contend
  contend-Keeps k l t none = fail-Runs (same_disk _) _
  contend-Keeps k l t (some cur) =
      Runs-if (is_stale cur t) (λ stale. take_over-Keeps k l) (λ fresh. fail-Runs (same_disk _) _)

  pub try_lock-Keeps : (k : LockKey) → Keeps (Evolves d0) (try_lock env k)
  unfolding try_lock
  try_lock-Keeps k = check-Then (same_disk _) _ λ valid.
      Runs-next (same_disk _) (now-Keeps env still 0) λ t.
        Runs-next (same_disk _) (draw_token-Keeps env still) λ token.
          Runs-next (same_disk _) (create_exclusive-Keeps k _) λ created.
            Runs-if created (λ made. done-Runs _ (same_disk _))
              λ there.
                Runs-next (same_disk _) (optional-Keeps env still (read_lock-Keeps env still k))
                  (contend-Keeps k _ t)

  pub refresh-Keeps : (l : FileLock) → Keeps (Evolves d0) (refresh env l)
  unfolding refresh
  refresh-Keeps l =
      Runs-if l.released (λ over. fail-Runs (same_disk _) _)
        λ live. Runs-next (same_disk _) (read_lock-Keeps env still l.key) λ cur.
          check-Then (same_disk _) _ λ own.
            Runs-next (same_disk _) (now-Keeps env still 0)
              λ t. write_lock-Keeps env still _ (λ d p. locks-Evolves d _ p)

  pub unlock-Keeps : (l : FileLock) → Keeps (Evolves d0) (unlock env l)
  unfolding unlock
  unlock-Keeps l =
      Runs-if l.released (λ over. done-Runs _ (same_disk _))
        λ live.
          Runs-next (same_disk _) (optional-Keeps env still (read_lock-Keeps env still l.key))
            λ cur.
              Runs-if (has_token env l.token cur)
                (λ own.
                  Runs-then (write_lock-Keeps env still _ (λ d p. locks-Evolves d _ p))
                    λ u. done-Runs _ (same_disk _))
                (λ lost. done-Runs _ (same_disk _))
