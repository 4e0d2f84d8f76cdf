-- ===== src/Executor/Dispatch.antt =====
-- engine/executor/executor.go: what one node does, between its transitions.
use partitionctl.Base.{
  ◌*◌, suc, ◌-◌, ◌%◌, ◌^◌, wrap64, false, not, ◌&&◌, List, [], ◌∷◌, Str, codes, is_empty, length,
  ◌==◌, none, some, Option, if◌then◌else◌, ℤ, pos, negsuc,
}
use partitionctl.Protocol.Errors.{
  GoError, ExitCode, wrap, err_invalid_plan, err_missing_port, err_unknown_node_kind,
  err_verification_failed, err_authorization_unsatisfied, err_checkpoint_failed,
  error_for_exit_code,
}
use partitionctl.Protocol.NodeKind.{
  NodeKind, catalog_assert, index_verify, wait, waits_for_concurrent_transactions,
  allows_statement_timeout, must_run_outside_transaction,
}
use partitionctl.Protocol.ObjectName.{ObjectName}
use partitionctl.Protocol.Marker.{
  Marker, MarkerTarget, next_marker, no_marker, marker_role_leaf, validate,
}
use partitionctl.Protocol.Params.{NodeParams, assert_params, verify_params, wait_params}
use partitionctl.Protocol.Params.Assertions.{Assertion}
use partitionctl.Protocol.Node.{Node, marker_target_for}
use partitionctl.Protocol.Plan.{Plan, Operation, op_create_index, op_reindex_index, op_drop_index}
use partitionctl.Executor.Port.{
  Config, Ports, Trace, Statement, primary, comment_on_index, SessionSettings, CheckResult,
  authorization_denied, authorization_granted,
}
use partitionctl.Executor.Machine.{
  World, Act, Reply, halted, failed, ◌>>=◌, ◌>>◌, done_with, fail, from_result, from_error,
  best_effort, query, exec, sleep, audit, record_authorization,
}
use partitionctl.Executor.Authorize.{AuthorizationDecision, authorize}

-- The strings of the operations.
abbrev pub operation_name : Operation → Str
operation_name op_create_index = codes "create-index"
operation_name op_reindex_index = codes "reindex-index"
operation_name op_drop_index = codes "drop-index"
operation_name (Operation.other s) = s

-- `code := r.FailureCode; if code == 0 { code = a.FailureCode }`.
abbrev pub code_or : ExitCode → ExitCode → ExitCode
code_or c d = if c == 0 then d else c

-- The loop over the results of some assertions, of which there are as many.
unfoldable pub first_failed_assertion : List CheckResult → List Assertion → Option GoError
first_failed_assertion (r ∷ results) (a ∷ assertions) =
    let rest = first_failed_assertion results assertions in
    if r.passed then rest else some (error_for_exit_code (code_or r.failure_code a.failure_code))
first_failed_assertion _ _ = none

unfoldable pub first_failed_check : List CheckResult → Option GoError
first_failed_check [] = none
first_failed_check (r ∷ rs) =
    let rest = first_failed_check rs in
    if r.passed then rest else some (error_for_exit_code r.failure_code)

-- `time.Duration(p.Seconds) * time.Second`, in nanoseconds: an `int64` that wraps around.
abbrev pub seconds : ℤ → ℤ
seconds (pos n) = wrap64 (n * 1000000000)
seconds (negsuc n) = wrap64 (2 ^ 64 - suc n * 1000000000 % 2 ^ 64)

module _ (cfg : Config) (ports : Ports) (run : Str) (plan : Plan) where
  unfoldable pub settings_for : NodeKind → SessionSettings
  settings_for k = record {
    lock_timeout =
        if waits_for_concurrent_transactions k then cfg.build_lock_timeout else cfg.lock_timeout;
    statement_timeout = if allows_statement_timeout k then cfg.statement_timeout else 0;
  }

  unfoldable pub marker_base : Trace → Marker
  marker_base h = record no_marker {
    run = run;
    at = ports.now h;
    plan = plan.digest;
    op = operation_name plan.operation;
  }

  unfoldable pub exec_marker : Node → ObjectName → Marker → Act Unit
  exec_marker n o m = exec ports run (record {
    node = n.id;
    kind = n.kind;
    sql = comment_on_index o m;
    settings = record {
      lock_timeout = cfg.lock_timeout;
      statement_timeout = cfg.statement_timeout;
    };
    must_run_outside_transaction = false;
  })

  -- `FormatMarker` refuses a marker that is not valid; then `execMarker`.
  unfoldable pub write_marker : Node → ObjectName → Option Marker → Act Unit
  unfolding exec_marker
  write_marker n o none = done_with tt
  write_marker n o (some m) = from_error (validate m) >> exec_marker n o m

  unfoldable pub mark_target : Node → Option MarkerTarget → Act Unit
  unfolding write_marker marker_base
  mark_target n none = done_with tt
  mark_target n (some t) =
      if not cfg.has_catalog
      then fail err_missing_port
      else query ports run (λ h. ports.marker h t.index) >>= λ prior w.
          write_marker n t.index (next_marker t (marker_base w.trace) prior.0 prior.1) w

  unfoldable pub mark_object : Node → Act Unit
  unfolding mark_target
  mark_object n = from_result (marker_target_for n) >>= mark_target n

  unfoldable pub adopt_object : Node → ObjectName → Act Unit
  unfolding write_marker marker_base
  adopt_object n o w =
      write_marker n o (some (record (marker_base w.trace) { role = marker_role_leaf })) w

  -- The statement of a node.
  abbrev pub statement_of : Node → Str → Statement
  statement_of n sql = record {
    node = n.id;
    kind = n.kind;
    sql = primary sql;
    settings = settings_for n.kind;
    must_run_outside_transaction = must_run_outside_transaction n.kind;
  }

  unfoldable pub exec_rendered : Node → AuthorizationDecision → Str → Act Unit
  unfolding adopt_object mark_object
  exec_rendered n d sql =
      if is_empty sql
      then fail err_invalid_plan
      else (if d.adopt then adopt_object n d.object else done_with tt)
        >> (exec ports run (statement_of n sql) >> mark_object n)

  unfoldable pub exec_ddl : Node → AuthorizationDecision → Act Unit
  unfolding exec_rendered
  exec_ddl n d = from_result (ports.render n) >>= exec_rendered n d

  unfoldable pub run_assertions : Option NodeParams → Act Unit
  run_assertions (some (assert_params l)) = query ports run (λ h. ports.evaluate h l) >>= λ results.
      if not (length results == length l)
      then fail err_verification_failed
      else from_error (first_failed_assertion results l)
  run_assertions _ = fail err_invalid_plan

  unfoldable pub run_wait : Option NodeParams → Act Unit
  run_wait (some (wait_params n reason)) = sleep ports run (seconds n)
  run_wait _ = fail err_invalid_plan

  unfoldable pub by_kind : NodeKind → Node → AuthorizationDecision → Act Unit
  unfolding exec_ddl run_assertions run_wait
  by_kind catalog_assert n d = run_assertions n.params
  by_kind wait n d = run_wait n.params
  by_kind index_verify n d = done_with tt
  by_kind (NodeKind.other s) n d = fail err_unknown_node_kind
  by_kind _ n d = exec_ddl n d

  unfoldable pub dispatch : Node → AuthorizationDecision → Act Unit
  unfolding by_kind
  dispatch n d = by_kind n.kind n d

  unfoldable pub run_checks : Option NodeParams → Act Unit
  run_checks (some (verify_params l)) = query ports run (λ h. ports.verify h l) >>= λ results.
      if not (length results == length l)
      then fail err_verification_failed
      else from_error (first_failed_check results)
  run_checks _ = fail err_invalid_plan

  unfoldable pub verify_kind : NodeKind → Node → Act Unit
  unfolding run_checks
  verify_kind index_verify n = run_checks n.params
  verify_kind _ n = done_with tt

  unfoldable pub verify : Node → Act Unit
  unfolding verify_kind
  verify n = verify_kind n.kind n

  -- The verdict is recorded, and then its audit event, before the statement runs.
  unfoldable pub record_verdict : Node → AuthorizationDecision → Act AuthorizationDecision
  record_verdict n d =
      if not d.is_granted
      then best_effort (audit ports run n.id authorization_denied)
        >> fail err_authorization_unsatisfied
      else if d.adopt && not cfg.allow_adoption
      then best_effort (audit ports run n.id authorization_denied)
        >> fail err_authorization_unsatisfied
      else (λ w.
          record_authorization ports run
            (record {
              run = run;
              node = n.id;
              object = d.object;
              mode = d.mode;
              evidence = d.evidence;
              granted_at = ports.now w.trace;
            })
            w)
        >> (audit ports run n.id authorization_granted >> done_with d)

  abbrev pub wrap_failure :
      Reply AuthorizationDecision × World → Reply AuthorizationDecision × World
  wrap_failure (halted (failed e), w) = (halted (failed (wrap err_checkpoint_failed e)), w)
  wrap_failure r = r

  unfoldable pub authorize_node : Node → Act AuthorizationDecision
  unfolding record_verdict
  authorize_node n = (λ w. wrap_failure (authorize cfg ports run plan n w)) >>= record_verdict n
