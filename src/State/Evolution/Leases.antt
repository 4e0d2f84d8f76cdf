-- ===== src/State/Evolution/Leases.antt =====
-- The operations on leases and RequestCancel evolve the disk.
use partitionctl.Base.{ℕ, refl, Str, none, some, Option, ℤ}
use partitionctl.State.Run.{Run, run_running, status_eq, is_terminal_status}
use partitionctl.State.Run.Machine.{StatusPath}
use partitionctl.State.Lease.{Lease}
use partitionctl.State.Disk.{Env, Disk, write}
use partitionctl.State.Disk.Hoare.{
  Runs, Keeps, IsTimeless, Runs-if, Runs-then, Runs-next, Runs-given, check-Then, lift-Then,
  done-Runs,
}
use partitionctl.State.Disk.Accesses.{now-Keeps, write-Runs}
use partitionctl.State.File.Leases.{
  acquire_lease, heartbeat, release_lease, release_found, put_lease,
}
use partitionctl.State.File.Cancel.{with_cancel, is_live, flag_or_cancel, request_cancel}
use partitionctl.State.Evolution.{Evolves, RunKept}
use partitionctl.State.Evolution.Laws.{set_dir-Evolves-from, put_lease-DirEvolves}
use partitionctl.State.Evolution.Accesses.{
  same_disk, here-IsTimeless, get_run-Runs, get_run-Keeps, get_lease-Keeps, optional-Keeps,
  append_audit-Keeps,
}
use partitionctl.State.Evolution.Operations.{
  timeless, ReadRun, write_run-Runs, set_run_status-Keeps,
}

with_cancel-RunKept : (r : Run) (actor note : Str) (t : ℕ) → RunKept r (with_cancel r actor note t)
unfolding with_cancel
with_cancel-RunKept r actor note t = record { same = refl; path = StatusPath.stays }

module _ (env : Env) (d0 : Disk) where
  write_lease-Keeps :
      (id : Str) (l : Option Lease) → Keeps (Evolves d0) (write env id (put_lease l))
  write_lease-Keeps id l =
      write-Runs env (timeless env d0) id (put_lease l) (same_disk _)
        λ d p. set_dir-Evolves-from d0 _ (put_lease l) d p (put_lease-DirEvolves l _)

  pub acquire_lease-Keeps :
      (run holder : Str) (ttl : ℤ) → Keeps (Evolves d0) (acquire_lease env run holder ttl)
  unfolding acquire_lease
  acquire_lease-Keeps run holder ttl = lift-Then (same_disk _) _ λ secs h.
      Runs-next (same_disk _) (get_run-Keeps env (timeless env d0) run) λ r.
        Runs-next (same_disk _) (now-Keeps env (timeless env d0) 0) λ t.
          Runs-next (same_disk _)
            (optional-Keeps env (timeless env d0) (get_lease-Keeps env (timeless env d0) run))
            λ existing. check-Then (same_disk _) _ λ free. Runs-then (write_lease-Keeps run _) λ u.
              Runs-next (same_disk _) (append_audit-Keeps env d0 _) λ e. done-Runs _ (same_disk _)

  pub heartbeat-Keeps : (run holder : Str) → Keeps (Evolves d0) (heartbeat env run holder)
  unfolding heartbeat
  heartbeat-Keeps run holder =
      Runs-next (same_disk _) (get_lease-Keeps env (timeless env d0) run) λ l.
        check-Then (same_disk _) _ λ own.
          Runs-next (same_disk _) (now-Keeps env (timeless env d0) 0)
            λ t. Runs-then (write_lease-Keeps run _) λ u. done-Runs _ (same_disk _)

  release_found-Keeps :
      (run holder : Str) (l : Option Lease) → Keeps (Evolves d0) (release_found env run holder l)
  unfolding release_found
  release_found-Keeps run holder none = done-Runs _ (same_disk _)
  release_found-Keeps run holder (some l) = check-Then (same_disk _) _ λ own.
      Runs-then (write_lease-Keeps run none) λ u.
        Runs-next (same_disk _) (now-Keeps env (timeless env d0) 0)
          λ t. Runs-next (same_disk _) (append_audit-Keeps env d0 _) λ e. done-Runs _ (same_disk _)

  pub release_lease-Keeps : (run holder : Str) → Keeps (Evolves d0) (release_lease env run holder)
  unfolding release_lease
  release_lease-Keeps run holder =
      Runs-next (same_disk _)
        (optional-Keeps env (timeless env d0) (get_lease-Keeps env (timeless env d0) run))
        (release_found-Keeps run holder)

  -- What is read on the way does not change the run that was read.
  is_live-Keeps :
      {P : Disk → Type 0} (steady : IsTimeless P) (id : Str) (r : Run) (t : ℕ)
      → Keeps P (is_live env id r t)
  unfolding is_live
  is_live-Keeps steady id r t =
      Runs-if (status_eq r.status run_running)
        (λ running.
          Runs-next (same_disk _) (optional-Keeps env steady (get_lease-Keeps env steady id))
            λ l. done-Runs _ (same_disk _))
        (λ other. done-Runs _ (same_disk _))

  flag_or_cancel-Runs :
      (id actor note : Str) (r : Run) (t : ℕ)
      → Runs
          (ReadRun env d0 id r)
          (λ s. Evolves d0)
          (Evolves d0)
          (flag_or_cancel env id actor note r t)
  unfolding flag_or_cancel
  flag_or_cancel-Runs id actor note r t =
      Runs-next (λ d p. p.0)
        (is_live-Keeps (here-IsTimeless env (timeless env d0) id (λ x. x.run) (some r)) id r t)
        λ live. Runs-then (write_run-Runs env d0 id r _ (with_cancel-RunKept r actor note t)) λ u.
          Runs-next (same_disk _) (append_audit-Keeps env d0 _) λ e.
            Runs-if live (λ yes'. done-Runs _ (same_disk _)) (λ dead. set_run_status-Keeps env d0 _)

  pub request_cancel-Keeps :
      (id actor note : Str) → Keeps (Evolves d0) (request_cancel env id actor note)
  unfolding request_cancel
  request_cancel-Keeps id actor note =
      Runs-next (same_disk _) (get_run-Runs env (timeless env d0) id) λ r. Runs-given λ named.
        Runs-next (λ d p. p.0)
          (now-Keeps env (here-IsTimeless env (timeless env d0) id (λ x. x.run) (some r)) 0)
          λ t.
            Runs-if (is_terminal_status r.status) (λ over. done-Runs _ (λ d p. p.0))
              (λ open_run. flag_or_cancel-Runs id actor note r t)
