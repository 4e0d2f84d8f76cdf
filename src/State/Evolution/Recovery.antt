-- ===== src/State/Evolution/Recovery.antt =====
-- The recovery of abandoned runs evolves the disk.
use partitionctl.Base.{ℕ, ◌+◌, List, [], ◌∷◌, Str, none, some, Option, ℤ}
use partitionctl.Protocol.NodeState.{
  NodeState, TransitionReason, state_eq, running, failed, orphan_recovery, resume_retry,
}
use partitionctl.State.Run.{Run}
use partitionctl.State.Node.{NodeRecord}
use partitionctl.State.Disk.{Env, Disk}
use partitionctl.State.Disk.Hoare.{
  Keeps, IsTimeless, Runs-if, Runs-then, Runs-next, check-Then, fail-Runs, done-Runs,
}
use partitionctl.State.File.Locks.{FileLock}
use partitionctl.State.Orphan.{
  keep_abandoned, find_orphans, rewind_nodes, mark_orphaned, rewind_failed_nodes, adopt_orphan,
  mark_all, recover_orphans,
}
use partitionctl.State.Evolution.{Evolves}
use partitionctl.State.Evolution.Accesses.{
  same_disk, get_run-Keeps, get_lease-Keeps, list_nodes-Keeps, find_runs-Keeps, optional-Keeps,
  append_audit-Keeps, check_lock-Keeps,
}
use partitionctl.State.Evolution.Operations.{timeless, set_run_status-Keeps, transition_node-Keeps}
use partitionctl.State.Evolution.Leases.{acquire_lease-Keeps}

module _ (env : Env) (d0 : Disk) where
  still : IsTimeless (Evolves d0)
  still = timeless env d0

  keep_abandoned-Keeps : (t : ℕ) (l : List Run) → Keeps (Evolves d0) (keep_abandoned env t l)
  unfolding keep_abandoned
  keep_abandoned-Keeps t [] = done-Runs _ (same_disk _)
  keep_abandoned-Keeps t (r ∷ rest) =
      Runs-next (same_disk _) (optional-Keeps env still (get_lease-Keeps env still r.run_id)) λ l.
        Runs-next (same_disk _) (keep_abandoned-Keeps t rest) λ others. done-Runs _ (same_disk _)

  find_orphans-Keeps :
      (lock : Option FileLock) (t : ℕ) → Keeps (Evolves d0) (find_orphans env lock t)
  unfolding find_orphans
  find_orphans-Keeps none t = fail-Runs (same_disk _) _
  find_orphans-Keeps (some l) t = Runs-then (check_lock-Keeps env still (some l) l.key) λ u.
      Runs-next (same_disk _) (find_runs-Keeps env still _)
        λ rs. Runs-next (same_disk _) (keep_abandoned-Keeps t rs) λ os. done-Runs _ (same_disk _)

  rewind_nodes-Keeps :
      (run : Str) (from : NodeState) (reason : TransitionReason) (t n : ℕ) (l : List NodeRecord)
      → Keeps (Evolves d0) (rewind_nodes env run from reason t n l)
  unfolding rewind_nodes
  rewind_nodes-Keeps run from reason t n [] = done-Runs _ (same_disk _)
  rewind_nodes-Keeps run from reason t n (r ∷ rest) =
      Runs-if (state_eq r.state from)
        (λ hit.
          Runs-next (same_disk _) (transition_node-Keeps env d0 _)
            λ moved. rewind_nodes-Keeps run from reason t (n + 1) rest)
        (λ miss. rewind_nodes-Keeps run from reason t n rest)

  pub mark_orphaned-Keeps :
      (lock : Option FileLock) (id : Str) (t : ℕ) → Keeps (Evolves d0) (mark_orphaned env lock id t)
  unfolding mark_orphaned
  mark_orphaned-Keeps lock id t = Runs-next (same_disk _) (get_run-Keeps env still id) λ r.
      Runs-then (check_lock-Keeps env still lock _) λ u. check-Then (same_disk _) _ λ running_run.
        Runs-next (same_disk _) (optional-Keeps env still (get_lease-Keeps env still id)) λ l.
          check-Then (same_disk _) _ λ dead.
            Runs-next (same_disk _) (set_run_status-Keeps env d0 _) λ marked.
              Runs-next (same_disk _) (list_nodes-Keeps env still id) λ nodes.
                Runs-next (same_disk _) (rewind_nodes-Keeps id running orphan_recovery t 0 nodes)
                  λ n.
                    Runs-next (same_disk _) (append_audit-Keeps env d0 _)
                      λ e. done-Runs _ (same_disk _)

  rewind_failed_nodes-Keeps : (id : Str) (t : ℕ) → Keeps (Evolves d0) (rewind_failed_nodes env id t)
  unfolding rewind_failed_nodes
  rewind_failed_nodes-Keeps id t =
      Runs-next (same_disk _) (list_nodes-Keeps env still id)
        (rewind_nodes-Keeps id failed resume_retry t 0)

  pub adopt_orphan-Keeps :
      (lock : Option FileLock) (id holder : Str) (ttl : ℤ) (t : ℕ)
      → Keeps (Evolves d0) (adopt_orphan env lock id holder ttl t)
  unfolding adopt_orphan
  adopt_orphan-Keeps lock id holder ttl t =
      Runs-next (same_disk _) (get_run-Keeps env still id) λ r.
        Runs-then (check_lock-Keeps env still lock _) λ u. check-Then (same_disk _) _ λ adoptable.
          Runs-next (same_disk _) (set_run_status-Keeps env d0 _) λ adopted.
            Runs-next (same_disk _) (acquire_lease-Keeps env d0 id holder ttl) λ l.
              Runs-next (same_disk _) (rewind_failed_nodes-Keeps id t) λ n.
                Runs-next (same_disk _) (append_audit-Keeps env d0 _) λ e. done-Runs _ (same_disk _)

  mark_all-Keeps :
      (lock : Option FileLock) (t : ℕ) (l : List Run) → Keeps (Evolves d0) (mark_all env lock t l)
  unfolding mark_all
  mark_all-Keeps lock t [] = done-Runs _ (same_disk _)
  mark_all-Keeps lock t (r ∷ rest) =
      Runs-next (same_disk _) (mark_orphaned-Keeps lock r.run_id t) λ marked.
        Runs-next (same_disk _) (mark_all-Keeps lock t rest) λ others. done-Runs _ (same_disk _)

  pub recover_orphans-Keeps :
      (lock : Option FileLock) (t : ℕ) → Keeps (Evolves d0) (recover_orphans env lock t)
  unfolding recover_orphans
  recover_orphans-Keeps lock t =
      Runs-next (same_disk _) (find_orphans-Keeps lock t) (mark_all-Keeps lock t)
