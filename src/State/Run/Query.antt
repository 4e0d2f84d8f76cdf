-- ===== src/State/Run/Query.antt =====
-- `RunQuery` of engine/state/run.go. A field of the zero value does not filter.
use partitionctl.Base.{
  ℕ, Bool, true, false, not, ◌&&◌, ◌||◌, List, [], ◌∷◌, Str, str_eq, is_empty, none, some, Option,
  if◌then◌else◌, ◌==◌, ltb, ℤ,
}
use partitionctl.Protocol.ObjectName.{ObjectName, object_eq}
use partitionctl.Protocol.Params.Definition.{no_elements}
use partitionctl.Protocol.Plan.{Operation, op_create_index, op_reindex_index, op_drop_index}
use partitionctl.State.Run.{RunStatus, Run, status_eq}

pub record RunQuery : Type 0 where
  pub run_id : Str
  pub plan_digest : Str
  pub database : Str
  pub table : Option ObjectName
  pub index : Option ObjectName
  pub operation : Operation
  pub statuses : List RunStatus
  pub finished_since : ℕ
  pub limit : ℤ

-- Go's `==` on operations.
operation_eq : Operation → Operation → Bool
operation_eq op_create_index op_create_index = true
operation_eq op_reindex_index op_reindex_index = true
operation_eq op_drop_index op_drop_index = true
operation_eq (Operation.other s) (Operation.other t) = str_eq s t
operation_eq _ _ = false

-- `op == ""`.
unfoldable pub no_operation : Operation → Bool
no_operation (Operation.other s) = is_empty s
no_operation _ = false

unfoldable pub has_status : List RunStatus → RunStatus → Bool
has_status [] s = false
has_status (t ∷ rest) s = status_eq s t || has_status rest s

-- The tests of the optional names.
abbrev pub differs_from : Option ObjectName → ObjectName → Bool
differs_from none o = false
differs_from (some t) o = not (object_eq o t)

abbrev pub index_differs : Option ObjectName → Option ObjectName → Bool
index_differs none o = false
index_differs (some i) none = true
index_differs (some i) (some o) = not (object_eq o i)

-- `FinishedSince` is set, and the run has not finished or did so before it.
abbrev pub finished_too_early : ℕ → Option ℕ → Bool
finished_too_early since none = not (since == 0)
finished_too_early since (some t) = not (since == 0) && ltb t since

unfoldable pub matches : RunQuery → Run → Bool
unfolding operation_eq no_operation has_status
matches q r =
    if not (is_empty q.run_id) && not (str_eq r.run_id q.run_id)
    then false
    else if not (is_empty q.plan_digest) && not (str_eq r.plan_digest q.plan_digest)
    then false
    else if not (is_empty q.database) && not (str_eq r.target.database q.database)
    then false
    else if differs_from q.table r.target.table
    then false
    else if index_differs q.index r.target.index
    then false
    else if not (no_operation q.operation) && not (operation_eq r.operation q.operation)
    then false
    else if not (no_elements q.statuses) && not (has_status q.statuses r.status)
    then false
    else not (finished_too_early q.finished_since r.finished_at)
