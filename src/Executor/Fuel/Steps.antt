-- ===== src/Executor/Fuel/Steps.antt =====
-- Authorization and dispatch leave the count of attempts alone.
use partitionctl.Base.{ℕ, not, ◌&&◌, Str, none, some, Option, is_empty, length, ◌==◌}
use partitionctl.Protocol.Errors.{err_authorization_unsatisfied}
use partitionctl.Protocol.NodeKind.{NodeKind, is_destructive, index_verify, catalog_assert, wait}
use partitionctl.Protocol.ObjectName.{ObjectName, object_eq}
use partitionctl.Protocol.Marker.{
  Marker, MarkerStatus, marker_absent, MarkerTarget, validate, next_marker, marker_role_leaf,
}
use partitionctl.Protocol.Leftover.{
  LeftoverResolution, leftover_resolved, resolve_leftover_base, is_none, classify_leftover,
}
use partitionctl.Protocol.Authorization.{
  Authorization, AuthorizationMode, auth_provenance, auth_leftover, auth_explicit,
}
use partitionctl.Protocol.Params.{NodeParams, assert_params, verify_params, wait_params}
use partitionctl.Protocol.Node.{Node, marker_target_for}
use partitionctl.Protocol.Plan.{Plan}
use partitionctl.Executor.Port.{Config, Ports, authorization_denied, authorization_granted}
use partitionctl.Executor.Machine.{
  World, Reply, returned, halted, failed, best_effort, audit, fail, ◌>>◌,
}
use partitionctl.Executor.Authorize.{
  AuthorizationDecision, destructive_object, authorize, authorize_provenance, authorize_leftover,
  decide, by_mode, on_relation, resolved_leftover, claim_for, undecided, is_malformed,
}
use partitionctl.Executor.Dispatch.{
  dispatch, verify, authorize_node, record_verdict, wrap_failure, by_kind, exec_ddl, exec_rendered,
  mark_object, mark_target, write_marker, adopt_object, exec_marker, marker_base, run_assertions,
  run_checks, run_wait, verify_kind, first_failed_assertion, first_failed_check,
}
use partitionctl.Executor.Fuel.{
  Bounded, Any, Within, Bounded-bind, Bounded-then, Bounded-if, Bounded-at, fail-Bounded,
  done_with-Bounded, from_result-Bounded, from_error-Bounded, best_effort-Bounded, query-Bounded,
  exec-Bounded, sleep-Bounded, audit-Bounded, record_authorization-Bounded,
}

module _ (cfg : Config) (ports : Ports) (run : Str) where
  claim_for-Bounded :
      (o : ObjectName) (m : MarkerStatus) → Bounded Any (claim_for cfg ports run o m)
  unfolding claim_for
  claim_for-Bounded o marker_absent = query-Bounded ports run _
  claim_for-Bounded o _ = done_with-Bounded none

  resolved-Bounded :
      (d : AuthorizationDecision) (auth : Authorization) (o : ObjectName)
      (r : ObjectName × LeftoverResolution)
      → Bounded Any (resolved_leftover cfg ports run d auth o r)
  unfolding resolved_leftover
  resolved-Bounded d auth o (base, leftover_resolved) =
      Bounded-bind (query-Bounded ports run _) (λ m k u. done_with-Bounded _)
  resolved-Bounded d auth o (base, _) = done_with-Bounded d

  relation-Bounded :
      (d : AuthorizationDecision) (auth : Authorization) (r : Option ObjectName)
      → Bounded Any (on_relation cfg ports run d auth r)
  unfolding on_relation
  relation-Bounded d auth none = fail-Bounded _
  relation-Bounded d auth (some o) =
      Bounded-bind (query-Bounded ports run _)
        (λ l k u. resolved-Bounded d auth o (resolve_leftover_base auth.object l))

  by_mode-Bounded :
      (d : AuthorizationDecision) (plan : Plan) (auth : Authorization) (m : AuthorizationMode)
      → Bounded Any (by_mode cfg ports run d plan auth m)
  unfolding by_mode authorize_provenance authorize_leftover
  by_mode-Bounded d plan auth auth_provenance = Bounded-if (not cfg.has_catalog) (fail-Bounded _) (
      Bounded-bind (query-Bounded ports run _)
        (λ m k u. Bounded-bind (claim_for-Bounded auth.object m.1) (λ c j v. done_with-Bounded _)))
  by_mode-Bounded d plan auth auth_leftover =
      Bounded-if (is_none (classify_leftover auth.object.name).0) (done_with-Bounded d)
        (Bounded-if (not cfg.has_catalog) (fail-Bounded _) (relation-Bounded d auth auth.relation))
  by_mode-Bounded d plan auth auth_explicit = done_with-Bounded _
  by_mode-Bounded d plan auth (AuthorizationMode.other s) = done_with-Bounded d

  decide-Bounded :
      (plan : Plan) (o : ObjectName) (auth : Option Authorization)
      → Bounded Any (decide cfg ports run plan o auth)
  unfolding decide
  decide-Bounded plan o none = done_with-Bounded _
  decide-Bounded plan o (some auth) =
      let d = undecided cfg ports run o auth.mode in
      Bounded-if (is_malformed cfg ports run auth) (done_with-Bounded d) (
        Bounded-if (not (object_eq auth.object o)) (done_with-Bounded d)
          (by_mode-Bounded d plan auth auth.mode))

  authorize-Bounded : (plan : Plan) (n : Node) → Bounded Any (authorize cfg ports run plan n)
  unfolding authorize
  authorize-Bounded plan n = Bounded-if (not (is_destructive n.kind)) (fail-Bounded _) (
      Bounded-bind (from_result-Bounded (destructive_object n.kind n.params))
        (λ o k u. decide-Bounded plan o n.authorization))

  module _ (plan : Plan) (n : Node) where
    denied-Bounded : Bounded {A = AuthorizationDecision} Any (
        best_effort (audit ports run n.id authorization_denied)
        >> fail err_authorization_unsatisfied)
    denied-Bounded =
        Bounded-then (best_effort-Bounded (audit-Bounded ports run n.id authorization_denied))
          (fail-Bounded err_authorization_unsatisfied)

    verdict-Bounded :
        (d : AuthorizationDecision) → Bounded Any (record_verdict cfg ports run plan n d)
    unfolding record_verdict
    verdict-Bounded d = Bounded-if (not d.is_granted) denied-Bounded (
        Bounded-if (d.adopt && not cfg.allow_adoption) denied-Bounded (
          Bounded-then (Bounded-at (λ w. record_authorization-Bounded ports run _)) (
            Bounded-then (audit-Bounded ports run n.id authorization_granted)
              (done_with-Bounded d))))

    wrapped-Within :
        (k : ℕ) (r : Reply AuthorizationDecision × World)
        → Within Any k r
        → Within Any k (wrap_failure cfg ports run plan r)
    wrapped-Within k (returned d, w) h = h
    wrapped-Within k (halted (failed e), w) h = (h.0, λ p. cc p)
    wrapped-Within k (halted x, w) h = h

    pub authorize_node-Bounded : Bounded Any (authorize_node cfg ports run plan n)
    unfolding authorize_node
    authorize_node-Bounded =
        Bounded-bind {R = Any}
          (record {
            ends = λ w.
                wrapped-Within _ (authorize cfg ports run plan n w)
                  ((authorize-Bounded plan n).ends w);
          })
          (λ d k u. verdict-Bounded d)

    write_marker-Bounded :
        (o : ObjectName) (m : Option Marker) → Bounded Any (write_marker cfg ports run plan n o m)
    unfolding write_marker exec_marker
    write_marker-Bounded o none = done_with-Bounded tt
    write_marker-Bounded o (some m) =
        Bounded-then (from_error-Bounded (validate m)) (exec-Bounded ports run _)

    mark_target-Bounded :
        (t : Option MarkerTarget) → Bounded Any (mark_target cfg ports run plan n t)
    unfolding mark_target
    mark_target-Bounded none = done_with-Bounded tt
    mark_target-Bounded (some t) = Bounded-if (not cfg.has_catalog) (fail-Bounded _) (
        Bounded-bind (query-Bounded ports run _) (λ p k u. Bounded-at (λ w.
          write_marker-Bounded t.index
            (next_marker t (marker_base cfg ports run plan w.trace) p.0 p.1))))

    mark_object-Bounded : Bounded Any (mark_object cfg ports run plan n)
    unfolding mark_object
    mark_object-Bounded =
        Bounded-bind (from_result-Bounded (marker_target_for n)) (λ t k u. mark_target-Bounded t)

    adopt_object-Bounded : (o : ObjectName) → Bounded Any (adopt_object cfg ports run plan n o)
    unfolding adopt_object
    adopt_object-Bounded o = Bounded-at (λ w.
        write_marker-Bounded o
          (some (record (marker_base cfg ports run plan w.trace) { role = marker_role_leaf })))

    rendered-Bounded :
        (d : AuthorizationDecision) (sql : Str)
        → Bounded Any (exec_rendered cfg ports run plan n d sql)
    unfolding exec_rendered
    rendered-Bounded d sql = Bounded-if (is_empty sql) (fail-Bounded _) (
        Bounded-then (Bounded-if d.adopt (adopt_object-Bounded d.object) (done_with-Bounded tt))
          (Bounded-then (exec-Bounded ports run _) mark_object-Bounded))

    exec_ddl-Bounded : (d : AuthorizationDecision) → Bounded Any (exec_ddl cfg ports run plan n d)
    unfolding exec_ddl
    exec_ddl-Bounded d =
        Bounded-bind (from_result-Bounded (ports.render n)) (λ s k u. rendered-Bounded d s)

    assertions-Bounded : (p : Option NodeParams) → Bounded Any (run_assertions cfg ports run plan p)
    unfolding run_assertions
    assertions-Bounded (some (assert_params l)) = Bounded-bind (query-Bounded ports run _) (λ r k u.
        Bounded-if (not (length r == length l)) (fail-Bounded _)
          (from_error-Bounded (first_failed_assertion r l)))
    assertions-Bounded _ = fail-Bounded _

    wait-Bounded : (p : Option NodeParams) → Bounded Any (run_wait cfg ports run plan p)
    unfolding run_wait
    wait-Bounded (some (wait_params s r)) = sleep-Bounded ports run _
    wait-Bounded _ = fail-Bounded _

    by_kind-Bounded :
        (k : NodeKind) (d : AuthorizationDecision) → Bounded Any (by_kind cfg ports run plan k n d)
    unfolding by_kind
    by_kind-Bounded catalog_assert d = assertions-Bounded n.params
    by_kind-Bounded wait d = wait-Bounded n.params
    by_kind-Bounded index_verify d = done_with-Bounded tt
    by_kind-Bounded (NodeKind.other s) d = fail-Bounded _
    by_kind-Bounded _ d = exec_ddl-Bounded d

    pub dispatch-Bounded :
        (d : AuthorizationDecision) → Bounded Any (dispatch cfg ports run plan n d)
    unfolding dispatch
    dispatch-Bounded d = by_kind-Bounded n.kind d

    checks-Bounded : (p : Option NodeParams) → Bounded Any (run_checks cfg ports run plan p)
    unfolding run_checks
    checks-Bounded (some (verify_params l)) = Bounded-bind (query-Bounded ports run _) (λ r k u.
        Bounded-if (not (length r == length l)) (fail-Bounded _)
          (from_error-Bounded (first_failed_check r)))
    checks-Bounded _ = fail-Bounded _

    verify_kind-Bounded : (k : NodeKind) → Bounded Any (verify_kind cfg ports run plan k n)
    unfolding verify_kind
    verify_kind-Bounded index_verify = checks-Bounded n.params
    verify_kind-Bounded _ = done_with-Bounded tt

    pub verify-Bounded : Bounded Any (verify cfg ports run plan n)
    unfolding verify
    verify-Bounded = verify_kind-Bounded n.kind
