-- ===== src/Executor/Safety/Dispatching.antt =====
-- A dispatch sends only statements of its node, and an authorization ends with a recorded grant.
use partitionctl.Base.{◌≡◌, refl, not, ◌&&◌, Str, none, some, Option, is_empty, length, ◌==◌}
use partitionctl.Protocol.Errors.{
  ok, err_missing_port, err_invalid_plan, err_unknown_node_kind, err_verification_failed,
  err_authorization_unsatisfied,
}
use partitionctl.Protocol.NodeKind.{NodeKind, index_verify, catalog_assert, wait}
use partitionctl.Protocol.NodeState.{NodeState}
use partitionctl.Protocol.ObjectName.{ObjectName}
use partitionctl.Protocol.Marker.{Marker, MarkerTarget, validate, next_marker, marker_role_leaf}
use partitionctl.Protocol.Params.{NodeParams, assert_params, verify_params, wait_params}
use partitionctl.Protocol.Node.{Node, marker_target_for}
use partitionctl.Protocol.Plan.{Plan, node_by_id}
use partitionctl.Executor.Port.{Config, Ports, authorization_denied, authorization_granted}
use partitionctl.Executor.Machine.{
  World, Reply, returned, halted, failed, done_with, fail, audit, best_effort, ◌>>◌,
}
use partitionctl.Executor.Hoare.{
  After, Runs, Keeps, Runs-bind, Runs-then, Runs-if, Runs-weaken, Runs-at, done_with-Keeps,
  halt-Runs, from_result-Keeps, from_error-Keeps, best_effort-Keeps,
}
use partitionctl.Executor.Authorize.{AuthorizationDecision, destructive_object, authorize}
use partitionctl.Executor.Dispatch.{
  dispatch, verify, authorize_node, record_verdict, wrap_failure, by_kind, exec_ddl, exec_rendered,
  mark_object, mark_target, write_marker, adopt_object, exec_marker, marker_base, run_assertions,
  run_checks, run_wait, verify_kind, first_failed_assertion, first_failed_check, statement_of,
}
use partitionctl.Executor.Safety.Actions.{
  query-Keeps, sleep-Keeps, audit-Keeps, Inv, Inv-Stable, Cleared, Cleared-Stable, Armed,
  Armed-Stable, exec-Keeps,
}
use partitionctl.Executor.Safety.Checkpoints.{record_authorization-Runs}
use partitionctl.Executor.Safety.Steps.{authorize-About}

module _ (cfg : Config) (ports : Ports) (run : Str) (plan : Plan) (before : Str → NodeState)
    (n : Node) (after : Str → NodeState) where
  abbrev I : World → Type 0
  I = Inv ports run plan before n after

  abbrev C : World → Type 0
  C = Cleared ports run plan before n after

  abbrev A : World → Type 0
  A = Armed ports run plan before n after

  checks-Keeps : (p : Option NodeParams) → Keeps I (run_checks cfg ports run plan p)
  unfolding run_checks
  checks-Keeps (some (verify_params l)) =
      Runs-bind (query-Keeps ports run (Inv-Stable ports run plan before n after) _) (λ r.
        Runs-if (not (length r == length l)) (λ e. halt-Runs (failed err_verification_failed))
          (λ e. from_error-Keeps I (first_failed_check r)))
  checks-Keeps _ = halt-Runs (failed err_invalid_plan)

  verify_kind-Keeps : (k : NodeKind) → Keeps I (verify_kind cfg ports run plan k n)
  unfolding verify_kind
  verify_kind-Keeps index_verify = checks-Keeps n.params
  verify_kind-Keeps _ = done_with-Keeps I tt

  -- Verification reads only.
  pub verify-Keeps : Keeps I (verify cfg ports run plan n)
  unfolding verify
  verify-Keeps = verify_kind-Keeps n.kind

  assertions-Keeps : (p : Option NodeParams) → Keeps A (run_assertions cfg ports run plan p)
  unfolding run_assertions
  assertions-Keeps (some (assert_params l)) =
      Runs-bind (query-Keeps ports run (Armed-Stable ports run plan before n after) _) (λ r.
        Runs-if (not (length r == length l)) (λ e. halt-Runs (failed err_verification_failed))
          (λ e. from_error-Keeps A (first_failed_assertion r l)))
  assertions-Keeps _ = halt-Runs (failed err_invalid_plan)

  wait-Keeps : (p : Option NodeParams) → Keeps A (run_wait cfg ports run plan p)
  unfolding run_wait
  wait-Keeps (some (wait_params s r)) =
      sleep-Keeps ports run (Armed-Stable ports run plan before n after) _
  wait-Keeps _ = halt-Runs (failed err_invalid_plan)

  verdict-Runs :
      (d : AuthorizationDecision)
      → Runs
          (λ w. I w × (destructive_object n.kind n.params ≡ ok d.object))
          (λ e. C)
          I
          (record_verdict cfg ports run plan n d)
  unfolding record_verdict
  verdict-Runs d =
      Runs-if (not d.is_granted) (λ e. denied)
        (λ e.
          Runs-if (d.adopt && not cfg.allow_adoption) (λ f. denied)
            (λ f.
              Runs-then
                (record {
                  ends = λ w p.
                      (record_authorization-Runs ports run plan before n after _ refl p.1).ends w
                        p.0;
                })
                (λ u. confirmed_grant)))
    where
      denied :
          Runs {A = AuthorizationDecision}
            (λ w. I w × (destructive_object n.kind n.params ≡ ok d.object))
            (λ e. C)
            I
            (best_effort (audit ports run n.id authorization_denied)
              >> fail err_authorization_unsatisfied)
      denied =
          Runs-then
            (Runs-weaken
              (best_effort-Keeps I (
                audit-Keeps ports run (Inv-Stable ports run plan before n after) n.id
                  authorization_denied))
              (λ w p. p.0) (λ u w p. p) (λ w p. p))
            (λ u. halt-Runs (failed err_authorization_unsatisfied))

      confirmed_grant :
          Runs C (λ e. C) I (audit ports run n.id authorization_granted >> done_with d)
      confirmed_grant =
          Runs-then
            (Runs-weaken
              (audit-Keeps ports run (Cleared-Stable ports run plan before n after) n.id
                authorization_granted)
              (λ w p. p) (λ u w p. p) (λ w p. p.inv))
            (λ u. record { ends = λ w p. p })

  wrapped-After :
      (r : Reply AuthorizationDecision × World)
      → After (λ d w. I w × (destructive_object n.kind n.params ≡ ok d.object)) I r
      → After
          (λ d w. I w × (destructive_object n.kind n.params ≡ ok d.object))
          I
          (wrap_failure cfg ports run plan r)
  wrapped-After (returned d, w) p = p
  wrapped-After (halted (failed e), w) p = p
  wrapped-After (halted h, w) p = p

  -- A node that is authorized has its grant on record.
  pub authorize_node-Runs : Runs I (λ d. C) I (authorize_node cfg ports run plan n)
  unfolding authorize_node
  authorize_node-Runs =
      Runs-bind
        (record { ends = λ w p. wrapped-After (authorize cfg ports run plan n w) (about.ends w p) })
        verdict-Runs
    where
      about :
          Runs I
            (λ d w. I w × (destructive_object n.kind n.params ≡ ok d.object))
            I
            (authorize cfg ports run plan n)
      about = authorize-About cfg ports run (Inv-Stable ports run plan before n after) plan n

  module _ (known : node_by_id plan n.id ≡ some n) where
    write_marker-Keeps :
        (o : ObjectName) (m : Option Marker) → Keeps A (write_marker cfg ports run plan n o m)
    unfolding write_marker exec_marker
    write_marker-Keeps o none = done_with-Keeps A tt
    write_marker-Keeps o (some m) =
        Runs-then (from_error-Keeps A (validate m))
          (λ u. exec-Keeps ports run plan before n after known _ refl)

    mark_target-Keeps : (t : Option MarkerTarget) → Keeps A (mark_target cfg ports run plan n t)
    unfolding mark_target
    mark_target-Keeps none = done_with-Keeps A tt
    mark_target-Keeps (some t) =
        Runs-if (not cfg.has_catalog) (λ e. halt-Runs (failed err_missing_port))
          (λ e.
            Runs-bind (query-Keeps ports run (Armed-Stable ports run plan before n after) _) (λ p.
              Runs-at (λ w.
                write_marker-Keeps t.index
                  (next_marker t (marker_base cfg ports run plan w.trace) p.0 p.1))))

    mark_object-Keeps : Keeps A (mark_object cfg ports run plan n)
    unfolding mark_object
    mark_object-Keeps = Runs-bind (from_result-Keeps A (marker_target_for n)) mark_target-Keeps

    adopt_object-Keeps : (o : ObjectName) → Keeps A (adopt_object cfg ports run plan n o)
    unfolding adopt_object
    adopt_object-Keeps o = Runs-at (λ w.
        write_marker-Keeps o
          (some (record (marker_base cfg ports run plan w.trace) { role = marker_role_leaf })))

    rendered-Keeps :
        (d : AuthorizationDecision) (sql : Str) → Keeps A (exec_rendered cfg ports run plan n d sql)
    unfolding exec_rendered
    rendered-Keeps d sql =
        Runs-if (is_empty sql) (λ e. halt-Runs (failed err_invalid_plan))
          (λ e.
            Runs-then
              (Runs-if d.adopt (λ f. adopt_object-Keeps d.object) (λ f. done_with-Keeps A tt))
              (λ u.
                Runs-then
                  (exec-Keeps ports run plan before n after known
                    (statement_of cfg ports run plan n sql) refl)
                  (λ v. mark_object-Keeps)))

    exec_ddl-Keeps : (d : AuthorizationDecision) → Keeps A (exec_ddl cfg ports run plan n d)
    unfolding exec_ddl
    exec_ddl-Keeps d = Runs-bind (from_result-Keeps A (ports.render n)) (rendered-Keeps d)

    by_kind-Keeps :
        (k : NodeKind) (d : AuthorizationDecision) → Keeps A (by_kind cfg ports run plan k n d)
    unfolding by_kind
    by_kind-Keeps catalog_assert d = assertions-Keeps n.params
    by_kind-Keeps wait d = wait-Keeps n.params
    by_kind-Keeps index_verify d = done_with-Keeps A tt
    by_kind-Keeps (NodeKind.other s) d = halt-Runs (failed err_unknown_node_kind)
    by_kind-Keeps _ d = exec_ddl-Keeps d

    -- The statements of a dispatch are sent while the node is armed, and leave it so.
    pub dispatch-Keeps : (d : AuthorizationDecision) → Keeps A (dispatch cfg ports run plan n d)
    unfolding dispatch
    dispatch-Keeps d = by_kind-Keeps n.kind d
