-- ===== src/State/Evolution/Calls.antt =====
-- The calls of the store as one type, and what any sequence of them, of any number of processes,
-- does to a run.
use partitionctl.Base.{ℕ, List, [], ◌∷◌, Str, Option, ℤ}
use partitionctl.Protocol.Errors.{GoError, Result, ok, err}
use partitionctl.State.Run.{NewRun, RunStatusUpdate}
use partitionctl.State.Node.{NodeTransition}
use partitionctl.State.Lock.{LockKey}
use partitionctl.State.Authorization.{AuthorizationRecord}
use partitionctl.State.Audit.{AuditEvent}
use partitionctl.State.Disk.{Env, Disk}
use partitionctl.State.Disk.Hoare.{Keeps, After}
use partitionctl.State.File.Trail.{append_audit}
use partitionctl.State.File.Runs.{create_run, set_run_status}
use partitionctl.State.File.Nodes.{transition_node}
use partitionctl.State.File.Authorizations.{record_authorization, close_guarded}
use partitionctl.State.File.Leases.{acquire_lease, heartbeat, release_lease}
use partitionctl.State.File.Cancel.{request_cancel}
use partitionctl.State.File.Locks.{FileLock, try_lock, refresh, unlock}
use partitionctl.State.Orphan.{mark_orphaned, adopt_orphan, recover_orphans}
use partitionctl.State.Evolution.{Evolves}
use partitionctl.State.Evolution.Laws.{Evolves-refl, Evolves-trans}
use partitionctl.State.Evolution.Accesses.{append_audit-Keeps}
use partitionctl.State.Evolution.Operations.{set_run_status-Keeps, transition_node-Keeps}
use partitionctl.State.Evolution.Opening.{StatWorks, create_run-Keeps}
use partitionctl.State.Evolution.Leases.{
  acquire_lease-Keeps, heartbeat-Keeps, release_lease-Keeps, request_cancel-Keeps,
}
use partitionctl.State.Evolution.Recovery.{
  mark_orphaned-Keeps, adopt_orphan-Keeps, recover_orphans-Keeps,
}
use partitionctl.State.Evolution.Guards.{
  record_authorization-Keeps, close_guarded-Keeps, try_lock-Keeps, refresh-Keeps, unlock-Keeps,
}

-- The calls that may change the disk.
pub data Call : Type 0 where
  creates : NewRun → Call
  sets_status : RunStatusUpdate → Call
  transitions : NodeTransition → Call
  authorizes : AuthorizationRecord → Call
  closes : Str → Str → Option GoError → Call
  acquires : Str → Str → ℤ → Call
  beats : Str → Str → Call
  releases : Str → Str → Call
  cancels : Str → Str → Str → Call
  audits : AuditEvent → Call
  locks : LockKey → Call
  refreshes : FileLock → Call
  unlocks : FileLock → Call
  orphans : Option FileLock → Str → ℕ → Call
  adopts : Option FileLock → Str → Str → ℤ → ℕ → Call
  recovers : Option FileLock → ℕ → Call

module _ (env : Env) where
  -- The disk after a call, whatever the call returned.
  unfoldable pub perform : Call → Disk → Disk
  perform (creates req) d = (create_run env req d).1
  perform (sets_status u) d = (set_run_status env u d).1
  perform (transitions t) d = (transition_node env t d).1
  perform (authorizes a) d = (record_authorization env a d).1
  perform (closes run node e) d = (close_guarded env run node e d).1
  perform (acquires run holder ttl) d = (acquire_lease env run holder ttl d).1
  perform (beats run holder) d = (heartbeat env run holder d).1
  perform (releases run holder) d = (release_lease env run holder d).1
  perform (cancels run actor note) d = (request_cancel env run actor note d).1
  perform (audits e) d = (append_audit env e d).1
  perform (locks k) d = (try_lock env k d).1
  perform (refreshes l) d = (refresh env l d).1
  perform (unlocks l) d = (unlock env l d).1
  perform (orphans lock id t) d = (mark_orphaned env lock id t d).1
  perform (adopts lock id holder ttl t) d = (adopt_orphan env lock id holder ttl t d).1
  perform (recovers lock t) d = (recover_orphans env lock t d).1

  unfoldable pub perform_all : List Call → Disk → Disk
  unfolding perform
  perform_all [] d = d
  perform_all (c ∷ cs) d = perform_all cs (perform c d)

kept :
    {A : Type 0} (d0 : Disk) (r : Result A × Disk)
    → After (λ a. Evolves d0) (Evolves d0) r
    → Evolves d0 r.1
kept d0 (ok a, d) h = h
kept d0 (err e, d) h = h

module _ (env : Env) (works : StatWorks env) where
  Keeps-Evolves :
      {A : Type 0} (m : Disk → Result A × Disk) (d : Disk) → Keeps (Evolves d) m → Evolves d (m d).1
  Keeps-Evolves m d h = kept d (m d) (h.ends d (Evolves-refl d))

  perform-Evolves : (c : Call) (d : Disk) → Evolves d (perform env c d)
  unfolding perform
  perform-Evolves (creates req) d = Keeps-Evolves _ d (create_run-Keeps env d works req)
  perform-Evolves (sets_status u) d = Keeps-Evolves _ d (set_run_status-Keeps env d u)
  perform-Evolves (transitions t) d = Keeps-Evolves _ d (transition_node-Keeps env d t)
  perform-Evolves (authorizes a) d = Keeps-Evolves _ d (record_authorization-Keeps env d a)
  perform-Evolves (closes run node e) d = Keeps-Evolves _ d (close_guarded-Keeps env d run node e)
  perform-Evolves (acquires run h ttl) d = Keeps-Evolves _ d (acquire_lease-Keeps env d run h ttl)
  perform-Evolves (beats run h) d = Keeps-Evolves _ d (heartbeat-Keeps env d run h)
  perform-Evolves (releases run h) d = Keeps-Evolves _ d (release_lease-Keeps env d run h)
  perform-Evolves (cancels run a n) d = Keeps-Evolves _ d (request_cancel-Keeps env d run a n)
  perform-Evolves (audits e) d = Keeps-Evolves _ d (append_audit-Keeps env d e)
  perform-Evolves (locks k) d = Keeps-Evolves _ d (try_lock-Keeps env d k)
  perform-Evolves (refreshes l) d = Keeps-Evolves _ d (refresh-Keeps env d l)
  perform-Evolves (unlocks l) d = Keeps-Evolves _ d (unlock-Keeps env d l)
  perform-Evolves (orphans lock id t) d = Keeps-Evolves _ d (mark_orphaned-Keeps env d lock id t)
  perform-Evolves (adopts lock id h ttl t) d =
      Keeps-Evolves _ d (adopt_orphan-Keeps env d lock id h ttl t)
  perform-Evolves (recovers lock t) d = Keeps-Evolves _ d (recover_orphans-Keeps env d lock t)

  -- The store refines the evolution of a run's records, if `os.Stat` does not fail: under any
  -- sequence of its calls, with any failures of reads and writes on the way, a run that is there keeps its id, plan, digest, operation,
  -- target, actor, node count and start, its status moves along the machine of runs, its nodes keep
  -- their object and kind and move along D7 with attempts that never fall, and the authorizations
  -- and the trail only grow at their end. A run that appears has a status that RUNNING leads to.
  pub perform_all-Evolves : (cs : List Call) (d : Disk) → Evolves d (perform_all env cs d)
  unfolding perform_all
  perform_all-Evolves [] d = Evolves-refl d
  perform_all-Evolves (c ∷ cs) d =
      Evolves-trans (perform-Evolves c d) (perform_all-Evolves cs (perform env c d))
