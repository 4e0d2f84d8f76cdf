-- ===== src/State/Evolution/Laws.antt =====
-- Evolution is a preorder, and each way to write a directory is a step of it.
use partitionctl.Base.{
  ◌≡◌, ◌≢◌, refl, sym, ◌∙◌, ap, List, [], ◌∷◌, ◌++◌, Str, none, some, Option, find, put, find-put,
  str_eq, str_eq_iff, Bool-cases, inl, inr, arith,
}
use mathlib.Core.List.{append_assoc, append-nil}
use mathlib.Core.Path.{subst}
use partitionctl.State.Run.{Run, run_running}
use partitionctl.State.Run.Machine.{StatusPath, StatusPath-trans}
use partitionctl.Protocol.NodeState.{NodeState}
use partitionctl.State.Node.{NodeRecord}
use partitionctl.State.Lease.{Lease}
use partitionctl.State.Authorization.{AuthorizationRecord}
use partitionctl.State.Audit.{AuditEvent}
use partitionctl.State.Disk.{RunDir, Disk, dir_at, set_dir}
use partitionctl.State.Disk.Hoare.{IsTimeless}
use partitionctl.State.Disk.Accesses.{dir_at-set_dir}
use partitionctl.State.File.Trail.{extend_audit}
use partitionctl.State.File.Runs.{put_run, put_node}
use partitionctl.State.File.Leases.{put_lease}
use partitionctl.State.File.Authorizations.{add_authorization}
use partitionctl.State.Evolution.{
  NodePath, RunKept, RunEvolves, NodeKept, NodeEvolves, Extends, DirEvolves, Evolves,
}
use partitionctl.State.Evolution

pub NodePath-trans : {a b c : NodeState} → NodePath a b → NodePath b c → NodePath a c
NodePath-trans Evolution.stays q = q
NodePath-trans (Evolution.moves r h p) q = Evolution.moves r h (NodePath-trans p q)

Extends-refl {ℓ} : {A : Type ℓ} (xs : List A) → Extends xs xs
Extends-refl xs = ([], sym (append-nil xs))

Extends-trans {ℓ} : {A : Type ℓ} (xs ys zs : List A) → Extends xs ys → Extends ys zs → Extends xs zs
Extends-trans xs ys zs (s, p) (t, q) = (s ++ t, q ∙ ap (λ l. l ++ t) p ∙ append_assoc xs s t)

RunEvolves-refl : (r : Option Run) → RunEvolves r r
RunEvolves-refl none = tt
RunEvolves-refl (some r) = record { same = refl; path = StatusPath.stays }

RunEvolves-trans : (a b c : Option Run) → RunEvolves a b → RunEvolves b c → RunEvolves a c
RunEvolves-trans none none c p q = q
RunEvolves-trans none (some s) none p q = absurd q
RunEvolves-trans none (some s) (some t) p q = StatusPath-trans p q.path
RunEvolves-trans (some r) none c p q = absurd p
RunEvolves-trans (some r) (some s) none p q = q
RunEvolves-trans (some r) (some s) (some t) p q = record {
  same = p.same ∙ q.same;
  path = StatusPath-trans p.path q.path;
}

NodeEvolves-refl : (n : Option NodeRecord) → NodeEvolves n n
NodeEvolves-refl none = tt
NodeEvolves-refl (some a) = record {
  same_run = refl;
  same_node = refl;
  same_kind = refl;
  same_object = refl;
  path = NodePath.stays;
  attempts = omega arith;
}

NodeEvolves-trans :
    (a b c : Option NodeRecord) → NodeEvolves a b → NodeEvolves b c → NodeEvolves a c
NodeEvolves-trans none b c p q = tt
NodeEvolves-trans (some a) none c p q = absurd p
NodeEvolves-trans (some a) (some b) none p q = q
NodeEvolves-trans (some a) (some b) (some c) p q = record {
  same_run = p.same_run ∙ q.same_run;
  same_node = p.same_node ∙ q.same_node;
  same_kind = p.same_kind ∙ q.same_kind;
  same_object = p.same_object ∙ q.same_object;
  path = NodePath-trans p.path q.path;
  attempts = omega (arith, p.attempts, q.attempts);
}

-- A run that is there stays there.
RunEvolves-ne-none : (a b : Option Run) → RunEvolves a b → a ≢ none → b ≢ none
RunEvolves-ne-none none b p h = absurd (h refl)
RunEvolves-ne-none (some r) none p h = absurd p
RunEvolves-ne-none (some r) (some s) p h = λ e. cc

pub DirEvolves-refl : (x : RunDir) → DirEvolves x x
DirEvolves-refl x = record {
  run_evolves = RunEvolves-refl x.run;
  nodes_evolve = λ h k. NodeEvolves-refl (find k x.nodes);
  authorizations_grow = Extends-refl x.authorizations;
  trail_grows = Extends-refl x.audit;
}

DirEvolves-trans : {x y z : RunDir} → DirEvolves x y → DirEvolves y z → DirEvolves x z
DirEvolves-trans {x} {y} {z} p q = record {
  run_evolves = RunEvolves-trans x.run y.run z.run p.run_evolves q.run_evolves;
  nodes_evolve = λ h k.
      NodeEvolves-trans (find k x.nodes) (find k y.nodes) (find k z.nodes) (p.nodes_evolve h k)
        (q.nodes_evolve (RunEvolves-ne-none x.run y.run p.run_evolves h) k);
  authorizations_grow =
      Extends-trans x.authorizations _ _ p.authorizations_grow q.authorizations_grow;
  trail_grows = Extends-trans x.audit _ _ p.trail_grows q.trail_grows;
}

pub Evolves-refl : (d : Disk) → Evolves d d
Evolves-refl d = record { at = λ k. DirEvolves-refl (dir_at k d) }

pub Evolves-trans : {d e f : Disk} → Evolves d e → Evolves e f → Evolves d f
Evolves-trans p q = record { at = λ k. DirEvolves-trans (p.at k) (q.at k) }

pub Evolves-IsTimeless : (d0 : Disk) → IsTimeless (Evolves d0)
unfolding dir_at
Evolves-IsTimeless d0 = record { passes = λ d n p. record { at = λ k. p.at k } }

-- One directory evolves, and the others stay.
set_dir-Evolves :
    (seg : Str) (x : RunDir) (d : Disk) → DirEvolves (dir_at seg d) x → Evolves d (set_dir seg x d)
set_dir-Evolves seg x d h = record {
  at = λ k. elim (Bool-cases (str_eq seg k)) [
    | inl same ↦
        rw (dir_at-set_dir seg k x d)
          (rw same (subst (λ j. DirEvolves (dir_at j d) x) ((str_eq_iff seg k).0 same) h))
    | inr diff ↦ rw (dir_at-set_dir seg k x d) (rw diff (DirEvolves-refl (dir_at k d)))
  ];
}

-- A write that evolves its directory evolves the disk.
pub set_dir-Evolves-from :
    (d0 : Disk) (seg : Str) (f : RunDir → RunDir) (d : Disk)
    → Evolves d0 d
    → DirEvolves (dir_at seg d) (f (dir_at seg d))
    → Evolves d0 (set_dir seg (f (dir_at seg d)) d)
set_dir-Evolves-from d0 seg f d g h = Evolves-trans g (set_dir-Evolves seg _ d h)

pub extend_audit-DirEvolves : (e : AuditEvent) (x : RunDir) → DirEvolves x (extend_audit e x)
extend_audit-DirEvolves e x = record {
  run_evolves = RunEvolves-refl x.run;
  nodes_evolve = λ h k. NodeEvolves-refl (find k x.nodes);
  authorizations_grow = Extends-refl x.authorizations;
  trail_grows = (e ∷ [], refl);
}

pub add_authorization-DirEvolves :
    (a : AuthorizationRecord) (x : RunDir) → DirEvolves x (add_authorization a x)
add_authorization-DirEvolves a x = record {
  run_evolves = RunEvolves-refl x.run;
  nodes_evolve = λ h k. NodeEvolves-refl (find k x.nodes);
  authorizations_grow = (a ∷ [], refl);
  trail_grows = Extends-refl x.audit;
}

pub put_lease-DirEvolves : (l : Option Lease) (x : RunDir) → DirEvolves x (put_lease l x)
put_lease-DirEvolves l x = record {
  run_evolves = RunEvolves-refl x.run;
  nodes_evolve = λ h k. NodeEvolves-refl (find k x.nodes);
  authorizations_grow = Extends-refl x.authorizations;
  trail_grows = Extends-refl x.audit;
}

-- A record of a run over the one that was read.
pub put_run-DirEvolves :
    (o r : Run) (x : RunDir) → x.run ≡ some o → RunKept o r → DirEvolves x (put_run r x)
put_run-DirEvolves o r x e h = record {
  run_evolves = subst (λ t. RunEvolves t (some r)) (sym e) h;
  nodes_evolve = λ h k. NodeEvolves-refl (find k x.nodes);
  authorizations_grow = Extends-refl x.authorizations;
  trail_grows = Extends-refl x.audit;
}

-- The first record of a run, and the records of nodes while there is no run.
pub put_run-DirEvolves-open :
    (r : Run) (x : RunDir) → x.run ≡ none → r.status ≡ run_running → DirEvolves x (put_run r x)
put_run-DirEvolves-open r x e h = record {
  run_evolves =
      subst (λ t. RunEvolves t (some r)) (sym e)
        (subst (λ s. StatusPath run_running s) (sym h) StatusPath.stays);
  nodes_evolve = λ open_run. absurd (open_run e);
  authorizations_grow = Extends-refl x.authorizations;
  trail_grows = Extends-refl x.audit;
}

pub put_node-DirEvolves-open :
    (seg : Str) (r : NodeRecord) (x : RunDir) → x.run ≡ none → DirEvolves x (put_node seg r x)
put_node-DirEvolves-open seg r x e = record {
  run_evolves = RunEvolves-refl x.run;
  nodes_evolve = λ open_run. absurd (open_run e);
  authorizations_grow = Extends-refl x.authorizations;
  trail_grows = Extends-refl x.audit;
}

put-NodeEvolves :
    (seg k : Str) (o r : NodeRecord) (l : List (Str × NodeRecord))
    → find seg l ≡ some o
    → NodeKept o r
    → NodeEvolves (find k l) (find k (put seg r l))
put-NodeEvolves seg k o r l e h = elim (Bool-cases (str_eq seg k)) [
  | inl same ↦ rw (find-put seg k r l) (
      rw same (
        subst (λ t. NodeEvolves t (some r))
          (sym (subst (λ j. find j l ≡ some o) ((str_eq_iff seg k).0 same) e)) h))
  | inr diff ↦ rw (find-put seg k r l) (rw diff (NodeEvolves-refl (find k l)))
]

-- A record of a node over the one that was read.
pub put_node-DirEvolves :
    (seg : Str) (o r : NodeRecord) (x : RunDir)
    → find seg x.nodes ≡ some o
    → NodeKept o r
    → DirEvolves x (put_node seg r x)
put_node-DirEvolves seg o r x e h = record {
  run_evolves = RunEvolves-refl x.run;
  nodes_evolve = λ open_run k. put-NodeEvolves seg k o r x.nodes e h;
  authorizations_grow = Extends-refl x.authorizations;
  trail_grows = Extends-refl x.audit;
}
