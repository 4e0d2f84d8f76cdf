-- ===== src/State/Evolution/Accesses.antt =====
-- What the reads of the file store find, and that its appends and its lock files evolve the disk.
use partitionctl.Base.{
  ◌≡◌, refl, ap, ◌∙◌, inl, inr, Bool-cases, not, ◌&&◌, List, [], ◌∷◌, Str, none, some, Option, find,
  str_eq, str_eq_iff, is_empty, values,
}
use partitionctl.State.Run.Query.{RunQuery}
use partitionctl.State.Node.{NodeRecord}
use partitionctl.State.Audit.{AuditEvent}
use partitionctl.State.Disk.{Env, RunDir, Disk, dir_at, set_dir, Act, optional, segment, read, list}
use partitionctl.State.Disk.Hoare.{
  Runs, Keeps, IsTimeless, Runs-weaken, Runs-if, Runs-then, Runs-next, check-Then, fail-Runs,
  done-Runs, optional-Runs, holds-IsTimeless, OrAbsent, check-Keeps,
}
use partitionctl.State.Disk.Accesses.{read-Runs, list-Runs, now-Keeps, write-Runs, dir_at-set_dir}
use partitionctl.State.File.Trail.{append_audit, extend_audit, here}
use partitionctl.State.File.Runs.{get_run, find_runs}
use partitionctl.State.File.Nodes.{get_node, list_nodes, or_no_run}
use partitionctl.State.File.Leases.{get_lease}
use partitionctl.State.Lock.{LockKey}
use partitionctl.State.File.Locks.{FileLock, held, check_lock, read_lock, lock_at}
use partitionctl.State.Evolution.{Evolves}
use partitionctl.State.Evolution.Laws.{
  Evolves-IsTimeless, set_dir-Evolves-from, extend_audit-DirEvolves,
}

-- A failure with what held before.
pub same_disk : (P : Disk → Type 0) (d : Disk) → P d → P d
same_disk P d p = p

module _ (env : Env) {P : Disk → Type 0} (timeless : IsTimeless P) where
  pub here-IsTimeless :
      {A : Type 0} (id : Str) (file : RunDir → A) (a : A)
      → IsTimeless (λ d. P d × (file (here env id d) ≡ a))
  unfolding dir_at
  here-IsTimeless id file a = holds-IsTimeless (λ d. file (here env id d)) (λ d n. refl) timeless a

  read-here-Runs :
      {A : Type 0} (id : Str) (file : RunDir → Option A)
      → Runs P
          (λ a d. P d × (file (here env id d) ≡ some a))
          P
          (read env (λ d. file (here env id d)))
  unfolding dir_at
  read-here-Runs id file = read-Runs env timeless (λ d. file (here env id d)) (λ d n. refl)

  pub list-here-Keeps :
      {A : Type 0} (id : Str) (files : RunDir → A) → Keeps P (list env (λ d. files (here env id d)))
  unfolding dir_at
  list-here-Keeps id files =
      Runs-weaken (list-Runs env timeless (λ d. files (here env id d)) (λ d n. refl)) (same_disk _)
        (λ a d p. p.0) (same_disk _)

  -- The run that is read has the id that was asked for, and is the content of its file.
  pub get_run-Runs :
      (id : Str)
      → Runs P (λ r d. (P d × ((here env id d).run ≡ some r)) × (r.run_id ≡ id)) P (get_run env id)
  unfolding get_run
  get_run-Runs id = check-Then (same_disk _) _ λ e.
      Runs-next (same_disk _) (read-here-Runs id (λ x. x.run)) λ r.
        Runs-if (str_eq r.run_id id)
          (λ same. done-Runs r (λ d p. (p, (str_eq_iff r.run_id id).0 same)))
          (λ diff. fail-Runs (λ d p. p.0) _)

  pub get_run-Keeps : (id : Str) → Keeps P (get_run env id)
  get_run-Keeps id = Runs-weaken (get_run-Runs id) (same_disk _) (λ r d p. p.0.0) (same_disk _)

  pub get_lease-Runs :
      (id : Str) → Runs P (λ l d. P d × ((here env id d).lease ≡ some l)) P (get_lease env id)
  unfolding get_lease
  get_lease-Runs id = read-here-Runs id (λ x. x.lease)

  pub get_lease-Keeps : (id : Str) → Keeps P (get_lease env id)
  get_lease-Keeps id = Runs-weaken (get_lease-Runs id) (same_disk _) (λ r d p. p.0) (same_disk _)

  -- The record that is read is the content of its file.
  pub get_node-Runs :
      (run node : Str)
      → Runs P
          (λ r d. P d × (find (segment env node) (here env run d).nodes ≡ some r))
          P
          (get_node env run node)
  unfolding get_node
  get_node-Runs run node =
      Runs-next (same_disk _) (read-here-Runs run (λ x. find (segment env node) x.nodes)) λ r.
        Runs-if (str_eq r.node_id node && str_eq r.run_id run) (λ same. done-Runs r (λ d p. p))
          (λ diff. fail-Runs (λ d p. p.0) _)

  or_no_run-Keeps : (run : Str) (l : List NodeRecord) → Keeps P (or_no_run env run l)
  or_no_run-Keeps run [] = Runs-next (same_disk _) (get_run-Keeps run) λ r. done-Runs [] (λ d p. p)
  or_no_run-Keeps run (x ∷ l) = done-Runs _ (λ d p. p)

  pub list_nodes-Keeps : (run : Str) → Keeps P (list_nodes env run)
  unfolding list_nodes
  list_nodes-Keeps run =
      Runs-next (same_disk _) (list-here-Keeps run (λ x. values x.nodes)) (or_no_run-Keeps run)

  -- What is absent leaves what held before.
  OrAbsent-kept : {A : Type 0} (x : Option A) (d : Disk) → OrAbsent (λ (a : A). P) P x d → P d
  OrAbsent-kept none d p = p
  OrAbsent-kept (some a) d p = p

  pub optional-Keeps : {A : Type 0} {m : Act A} → Keeps P m → Keeps P (optional m)
  optional-Keeps h = Runs-weaken (optional-Runs h) (same_disk _) OrAbsent-kept (same_disk _)

  pub find_runs-Keeps : (q : RunQuery) → Keeps P (find_runs env q)
  unfolding find_runs
  find_runs-Keeps q =
      Runs-if (not (is_empty q.run_id))
        (λ one.
          Runs-next (same_disk _) (optional-Keeps (get_run-Keeps q.run_id))
            λ r. done-Runs _ (λ d p. p))
        (λ all.
          Runs-next (same_disk _)
            (Runs-weaken (list-Runs env timeless _ (λ d n. refl)) (same_disk _) (λ a d p. p.0)
              (same_disk _))
            λ rs. done-Runs _ (λ d p. p))

-- A file of a directory that an append to a trail does not touch.
pub extend_audit-file :
    {A : Type 0} (file : RunDir → A) (seg k : Str) (e : AuditEvent) (d : Disk)
    → ((x : RunDir) → file (extend_audit e x) ≡ file x)
    → file (dir_at k (set_dir seg (extend_audit e (dir_at seg d)) d)) ≡ file (dir_at k d)
extend_audit-file file seg k e d same = elim (Bool-cases (str_eq seg k)) [
  | inl hit ↦
      rw (dir_at-set_dir seg k (extend_audit e (dir_at seg d)) d)
        (rw hit (same (dir_at seg d) ∙ ap (λ j. file (dir_at j d)) ((str_eq_iff seg k).0 hit)))
  | inr miss ↦ rw (dir_at-set_dir seg k (extend_audit e (dir_at seg d)) d) (rw miss refl)
]

-- An append keeps what does not depend on the trail.
pub append_audit-Runs :
    (env : Env) {P : Disk → Type 0}
    → IsTimeless P
    → ((seg : Str) (e : AuditEvent) (d : Disk)
        → P d
        → P (set_dir seg (extend_audit e (dir_at seg d)) d))
    → (e : AuditEvent) → Keeps P (append_audit env e)
unfolding append_audit
append_audit-Runs env timeless appends e = check-Then (same_disk _) _ λ valid.
    Runs-next (same_disk _)
      (Runs-next (same_disk _) (list-here-Keeps env timeless e.run_id (λ x. x.audit))
        λ l. done-Runs _ (same_disk _))
      λ n. Runs-next (same_disk _) (now-Keeps env timeless e.at) λ t.
        Runs-then (write-Runs env timeless e.run_id _ (same_disk _) λ d p. appends _ _ d p)
          λ u. done-Runs _ (same_disk _)

-- An append evolves the disk, or leaves it as it was.
pub append_audit-Keeps :
    (env : Env) (d0 : Disk) (e : AuditEvent) → Keeps (Evolves d0) (append_audit env e)
append_audit-Keeps env d0 e =
    append_audit-Runs env (Evolves-IsTimeless d0)
      (λ seg a d p.
        set_dir-Evolves-from d0 seg (extend_audit a) d p (extend_audit-DirEvolves a (dir_at seg d)))
      e

-- The checks of a lock read its file and change nothing.
module _ (env : Env) {P : Disk → Type 0} (steady : IsTimeless P) where
  pub read_lock-Keeps : (k : LockKey) → Keeps P (read_lock env k)
  unfolding read_lock
  read_lock-Keeps k =
      Runs-weaken (read-Runs env steady (lock_at env k) (λ d n. refl)) (same_disk _) (λ a d p. p.0)
        (same_disk _)

  pub held-Keeps : (l : FileLock) → Keeps P (held env l)
  unfolding held
  held-Keeps l =
      Runs-if l.released (λ over. done-Runs _ (same_disk _))
        λ live.
          Runs-next (same_disk _) (optional-Keeps env steady (read_lock-Keeps l.key))
            λ cur. done-Runs _ (same_disk _)

  pub check_lock-Keeps : (lock : Option FileLock) (k : LockKey) → Keeps P (check_lock env lock k)
  unfolding check_lock
  check_lock-Keeps none k = fail-Runs (same_disk _) _
  check_lock-Keeps (some l) k =
      check-Then (same_disk _) _ λ same. Runs-next (same_disk _) (held-Keeps l) λ h. check-Keeps _
