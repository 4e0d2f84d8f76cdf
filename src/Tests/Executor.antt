-- ===== src/Tests/Executor.antt =====
-- A plan of one destructive node, ports that answer as a healthy system, and the theorems there.
use partitionctl.Executor.Safety.Runs.{Agrees}
use partitionctl.Executor.Safety.Completion.{run_nodes-All}
use partitionctl.Executor.Fuel.Rounds.{NotOut, run_node-NotOut}
use partitionctl.Protocol.Drop.{is_satisfied, decide_provenance_drop}
use partitionctl.Executor.Authorize.{authorize, destructive_object, with_verdict}
use partitionctl.Executor.Dispatch.{authorize_node, dispatch, verify}
use partitionctl.Protocol.Plan.Order.{
  add_edge, add_edges, build, drain, id_at, index_of, initial_ready, order_indices, push, release,
  topological_order,
}
use partitionctl.Protocol.Params.Definition.{validate_column, validate_definition}
use partitionctl.Protocol.Params.Assertions.{
  is_valid_assertion, is_valid_check, validate_assertion, validate_check,
}
use partitionctl.Base.Utf8.{valid_string, decode_rune, decode2, decode3, decode4, valid_from}
use partitionctl.Protocol.Quote.{
  validate_identifier, has_byte, validate_simple_identifier, validate_sql_fragment,
}
use partitionctl.Base.{
  All, arith, ◌≡◌, refl, true, false, [], ◌∷◌, Str, codes, none, some, pos, str_eq, has_str,
}
use partitionctl.Protocol.Errors.{ok}
use partitionctl.Protocol.NodeKind.{
  index_drop_concurrently, index_attach, is_valid, node_kind_eq, is_destructive,
}
use partitionctl.Protocol.NodeKind.Coherence.{IsCoherent, classifications-IsCoherent}
use partitionctl.Protocol.NodeState.{
  NodeState, pending, done, state_eq, is_complete, check_transition,
}
use partitionctl.Protocol.ObjectName.{
  ObjectName, new_object_name, validate_object, is_zero, validate, validate_optional_object,
  after_byte, before_byte, count_byte, parse_object_name, validate_maybe_qualified, object_eq,
}
use partitionctl.Protocol.Marker.{no_marker, marker_ours}
use partitionctl.Protocol.Authorization.{auth_provenance, is_valid_mode, validate_authorization}
use partitionctl.Protocol.Params.{drop_params, drop_invalid_build, params_kind, validate_params}
use partitionctl.Protocol.Node.{Node, validate_node, marker_target_for}
use partitionctl.Protocol.Plan.{
  Plan, op_create_index, validate_plan, node_by_id, check_format_version, is_valid_operation,
  validate_target, check_nodes, check_dependencies, check_destructive, confirmed,
  count_drop_partitioned, forbidden_beside, is_supported_format_version,
}
use partitionctl.Protocol.Plan.Soundness.{IsSound, validate_plan-IsSound}
use partitionctl.Executor.Port.{Config, Ports, queried}
use partitionctl.Executor.Machine.{
  audit, query, transition, commit, record_authorization, exec, World,
}
use partitionctl.Executor.Hoare.{Runs}
use partitionctl.Executor.Attempt.{
  States, run_node, find_status, dependencies_complete, enter, rounds, round, decision_for,
  after_dispatch, verify_phase,
}
use partitionctl.Executor.Run.{
  status_of, run_loaded, after_start, after_recovery, recover_orphans, recover_orphan, close_run,
  run_nodes, set_status, run_pending, ending_before, stop_requested, run_found, ending_of,
  completed,
}
use partitionctl.Executor.Safety.{Safe, state_in}
use partitionctl.Executor.Safety.Actions.{Inv}
use partitionctl.Executor.Safety.Nodes.{run_node-Runs}
use partitionctl.Executor.Safety.Recovery.{run_loaded-Safe}

abbrev broken_idx : ObjectName
broken_idx = new_object_name (codes "public") (codes "idx_p1")

abbrev drop_node : Node
drop_node = record {
  id = codes "drop";
  kind = index_drop_concurrently;
  params =
      some
        (drop_params (record { index = broken_idx; relation = none; reason = drop_invalid_build }));
  depends_on = [];
  estimated_seconds = pos 1;
  authorization = some (record {
    mode = auth_provenance;
    object = broken_idx;
    relation = none;
    required_confirmation = [];
    note = [];
  });
}

abbrev drop_plan : Plan
drop_plan = record {
  format_version = pos 2;
  plan_id = codes "plan-1";
  operation = op_create_index;
  target = record {
    database = codes "shop";
    table = new_object_name (codes "public") (codes "orders");
    index = none;
  };
  created_at = codes "2024-01-01T00:00:00Z";
  confirmations = [];
  nodes = drop_node ∷ [];
  topology_fingerprint = codes "sha256:00";
  digest = codes "sha256:11";
}

abbrev config : Config
config = record {
  retry = record { max_attempts = 5; base_delay = pos 1; max_delay = pos 60 };
  lock_timeout = 5;
  build_lock_timeout = 60;
  statement_timeout = 30;
  has_catalog = true;
  allow_adoption = false;
}

abbrev healthy : Ports
healthy = record {
  record_transition = λ h t. none;
  record_authorization = λ h r. none;
  append_audit = λ h a. none;
  node_states = λ h. ok [];
  cancel_requested = λ h. ok false;
  claims_object = λ h o. ok none;
  evaluate = λ h l. ok [];
  verify = λ h l. ok [];
  marker = λ h o. ok (no_marker, marker_ours);
  indexes_on = λ h o. ok [];
  exec = λ h s. none;
  sleep = λ h d. none;
  interrupted_sleep = λ h d. none;
  is_signalled = λ h. false;
  is_fenced = λ h. false;
  now = λ h. codes "2024-01-01T00:00:00Z";
  delay = λ h n. pos n;
  render = λ n. ok (codes "DROP INDEX CONCURRENTLY");
}

abbrev loaded : States
loaded = (codes "drop", record { state = pending; attempts = 0; attempts_this_run = 0 }) ∷ []

validate_plan-IsSound_example : IsSound drop_plan
unfolding validate_plan check_format_version is_valid_operation validate_target validate_object
    is_zero validate validate_identifier valid_string decode_rune has_byte validate_optional_object
    str_eq check_nodes validate_node is_valid node_kind_eq has_str decode2 decode3 decode4
    valid_from is_valid_mode validate_authorization is_destructive after_byte before_byte count_byte
    parse_object_name validate_maybe_qualified is_valid_assertion is_valid_check validate_assertion
    validate_check validate_column validate_definition params_kind validate_params add_edge
    add_edges build drain id_at index_of initial_ready order_indices push release topological_order
    check_dependencies check_destructive confirmed count_drop_partitioned forbidden_beside
    is_supported_format_version validate_simple_identifier validate_sql_fragment
validate_plan-IsSound_example = validate_plan-IsSound drop_plan refl

classifications-IsCoherent_example : IsCoherent index_attach
classifications-IsCoherent_example = classifications-IsCoherent index_attach

-- The run takes the node to DONE.
runs_to_done :
    (status_of
      (run_loaded config healthy
        (codes "run-1")
        drop_plan
        5
        (codes "drop" ∷ [])
        loaded
        (queried ∷ [])).states
      (codes "drop")).state
    ≡ done
unfolding status_of find_status run_loaded after_start audit after_recovery recover_orphans
    recover_orphan state_eq str_eq close_run run_nodes is_complete set_status run_pending
    ending_before stop_requested query node_by_id run_found ending_of run_node dependencies_complete
    enter transition check_transition commit rounds round decision_for is_destructive authorize_node
    authorize destructive_object validate_authorization validate validate_identifier valid_string
    decode_rune has_byte object_eq with_verdict is_satisfied decide_provenance_drop
    record_authorization dispatch exec marker_target_for after_dispatch verify_phase verify
runs_to_done = refl

run_loaded-Safe_example :
    Safe drop_plan
      (λ id. (status_of loaded id).state)
      (run_loaded config healthy
        (codes "run-1")
        drop_plan
        5
        (codes "drop" ∷ [])
        loaded
        (queried ∷ [])).trace
    × ((id : Str)
        → (status_of
            (run_loaded config healthy
              (codes "run-1")
              drop_plan
              5
              (codes "drop" ∷ [])
              loaded
              (queried ∷ [])).states
            id).state
          ≡ state_in
              (λ j. (status_of loaded j).state)
              id
              (run_loaded config healthy
                (codes "run-1")
                drop_plan
                5
                (codes "drop" ∷ [])
                loaded
                (queried ∷ [])).trace)
run_loaded-Safe_example =
    run_loaded-Safe config healthy (codes "run-1") drop_plan 5 (codes "drop" ∷ []) loaded

abbrev all_pending : Str → NodeState
all_pending id = pending

run_node-Runs_example :
    Runs
      (Inv healthy (codes "run-1") drop_plan all_pending drop_node all_pending)
      (λ u w.
        Inv healthy (codes "run-1") drop_plan all_pending drop_node all_pending w
        × (w.status.state ≡ done))
      (Inv healthy (codes "run-1") drop_plan all_pending drop_node all_pending)
      (run_node config healthy (codes "run-1") drop_plan drop_node 5 loaded)
unfolding node_by_id str_eq
run_node-Runs_example =
    run_node-Runs config healthy (codes "run-1") drop_plan all_pending drop_node all_pending refl 5
      loaded

abbrev first_world : World
first_world = record {
  trace = [];
  status = record { state = pending; attempts = 0; attempts_this_run = 0 };
}

run_node-NotOut_example :
    NotOut (run_node config healthy (codes "run-1") drop_plan drop_node 5 loaded first_world)
run_node-NotOut_example =
    run_node-NotOut config healthy (codes "run-1") drop_plan drop_node 5 loaded first_world refl
      (omega arith) (omega arith)

abbrev loaded_state : Str → NodeState
loaded_state id = (status_of loaded id).state

starts_agreed : Agrees config healthy (codes "run-1") drop_plan loaded_state loaded []
unfolding state_in
starts_agreed = record { safe = tt; views = λ j. refl }

loop_completes :
    (run_nodes config healthy (codes "run-1") drop_plan 5 (codes "drop" ∷ []) loaded []).ending
    ≡ completed
unfolding status_of find_status run_loaded after_start audit after_recovery recover_orphans
    recover_orphan state_eq str_eq close_run run_nodes is_complete set_status run_pending
    ending_before stop_requested query node_by_id run_found ending_of run_node dependencies_complete
    enter transition check_transition commit rounds round decision_for is_destructive authorize_node
    authorize destructive_object validate_authorization validate validate_identifier valid_string
    decode_rune has_byte object_eq with_verdict is_satisfied decide_provenance_drop
    record_authorization dispatch exec marker_target_for after_dispatch verify_phase verify
loop_completes = refl

run_nodes-All_example :
    All
      (λ id.
        is_complete
          (status_of
            (run_nodes config healthy
              (codes "run-1")
              drop_plan
              5
              (codes "drop" ∷ [])
              loaded
              []).states
            id).state
        ≡ true)
      (codes "drop" ∷ [])
run_nodes-All_example =
    run_nodes-All config healthy (codes "run-1") drop_plan loaded_state 5 (codes "drop" ∷ []) loaded
      [] starts_agreed loop_completes
