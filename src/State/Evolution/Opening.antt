-- ===== src/State/Evolution/Opening.antt =====
-- CreateRun evolves the disk where `os.Stat` does not fail: it writes only where there is no run.
use partitionctl.Base.{
  ℕ, ◌≡◌, refl, false, List, [], ◌∷◌, Str, none, some, Option, is_empty, str_eq_refl,
}
use partitionctl.Protocol.Node.{Node}
use partitionctl.Protocol.Plan.{Plan}
use partitionctl.State.Run.{NewRun}
use partitionctl.State.Disk.{Env, Disk, dir_at, segment, is_there, stat_result, write}
use partitionctl.State.Disk.Hoare.{
  Runs, Keeps, IsTimeless, Runs-weaken, Runs-if, Runs-then, Runs-bind, Runs-next, lift-Then,
  fail-Runs, done-Runs,
}
use partitionctl.State.Disk.Accesses.{now-Keeps, draw-Keeps, write-Runs, dir_at-set_dir}
use partitionctl.State.File.Trail.{here}
use partitionctl.State.File.Runs.{
  put_run, put_node, open_run, create_run, write_nodes, new_run_record, new_record, id_or_drawn,
}
use partitionctl.State.Evolution.{Evolves}
use partitionctl.State.Evolution.Laws.{
  set_dir-Evolves-from, put_run-DirEvolves-open, put_node-DirEvolves-open,
}
use partitionctl.State.Evolution.Accesses.{same_disk, here-IsTimeless, append_audit-Keeps}
use partitionctl.State.Evolution.Operations.{timeless}

stat-absent : {A : Type 0} (o : Option A) → stat_result false o ≡ false → o ≡ none
stat-absent none h = refl
stat-absent (some a) h = cc

-- `os.Stat` of a state directory tells whether the file is there.
abbrev pub StatWorks : Env → Type 0
StatWorks env = (n : ℕ) → env.stat_fails n ≡ false

module _ (env : Env) (d0 : Disk) where
  -- No run is there yet.
  abbrev Unopened : Str → Disk → Type 0
  Unopened id d = Evolves d0 d × ((here env id d).run ≡ none)

  Unopened-IsTimeless : (id : Str) → IsTimeless (Unopened id)
  Unopened-IsTimeless id = here-IsTimeless env (timeless env d0) id (λ x. x.run) none

  id_or_drawn-Keeps : (id : Str) → Keeps (Evolves d0) (id_or_drawn env id)
  id_or_drawn-Keeps id =
      Runs-if (is_empty id) (λ e. draw-Keeps env (timeless env d0))
        (λ e. done-Runs id (same_disk _))

  write_node-Keeps :
      (id : Str) (t : ℕ) (n : Node)
      → Keeps (Unopened id) (write env id (put_node (segment env n.id) (new_record id n t)))
  write_node-Keeps id t n = write-Runs env (Unopened-IsTimeless id) id _ (same_disk _) λ d p. (
    set_dir-Evolves-from d0 _ (put_node (segment env n.id) (new_record id n t)) d p.0
        (put_node-DirEvolves-open _ _ _ p.1),
    rw
        (dir_at-set_dir (segment env id) (segment env id)
          (put_node (segment env n.id) (new_record id n t) (here env id d)) d)
        (rw (str_eq_refl (segment env id)) p.1),
  )

  write_nodes-Keeps :
      (id : Str) (t : ℕ) (l : List Node) → Keeps (Unopened id) (write_nodes env id t l)
  unfolding write_nodes
  write_nodes-Keeps id t [] = done-Runs _ (same_disk _)
  write_nodes-Keeps id t (n ∷ l) = Runs-then (write_node-Keeps id t n) λ u. write_nodes-Keeps id t l

  module _ (works : StatWorks env) where
    is_there-Runs :
        (id : Str)
        → Runs
            (Evolves d0)
            (λ b d. Evolves d0 d × (b ≡ false → (here env id d).run ≡ none))
            (Evolves d0)
            (is_there env (λ d. (here env id d).run))
    unfolding is_there dir_at
    is_there-Runs id = record {
      ends = λ d p. ((timeless env d0).passes d _ p, λ h. stat-absent _ (rw (works d.step) at h));
    }

    pub open_run-Keeps :
        (id : Str) (p : Plan) (actor : Str) (t : ℕ) → Keeps (Evolves d0) (open_run env id p actor t)
    unfolding open_run new_run_record
    open_run-Keeps id p actor t = Runs-bind (is_there-Runs id) λ there.
        Runs-if there (λ yes'. fail-Runs (λ d h. h.0) _)
          λ free.
            Runs-weaken
              (Runs-then
                (Runs-weaken (write_nodes-Keeps id t p.nodes) (same_disk _) (λ u d h. h)
                  (λ d h. h.0))
                λ u.
                  Runs-then
                    (write-Runs env (Unopened-IsTimeless id) id
                      (put_run (new_run_record id p actor t)) (λ d h. h.0)
                      (λ d h.
                        set_dir-Evolves-from d0 _ (put_run (new_run_record id p actor t)) d h.0
                          (put_run-DirEvolves-open _ _ h.1 refl)))
                    λ v.
                      Runs-next (same_disk _) (append_audit-Keeps env d0 _)
                        λ e. done-Runs _ (same_disk _))
              (λ d h. (h.0, h.1 free)) (λ r d h. h) (same_disk _)

    pub create_run-Keeps : (req : NewRun) → Keeps (Evolves d0) (create_run env req)
    unfolding create_run
    create_run-Keeps req = lift-Then (same_disk _) _ λ p h.
        Runs-next (same_disk _) (now-Keeps env (timeless env d0) req.started_at) λ t.
          Runs-next (same_disk _) (id_or_drawn-Keeps req.run_id)
            λ id. open_run-Keeps id p req.actor t
