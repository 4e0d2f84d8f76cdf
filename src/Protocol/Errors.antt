-- ===== src/Protocol/Errors.antt =====
-- engine/protocol/errors.go, with the sentinels of engine/state/errors.go and
-- engine/executor/errors.go. An error is a chain: a `protocol.Error` with its kind, its exit code
-- and its cause, or an error of another package. The text of a message is left out.
use partitionctl.Base.{ℕ, Bool, false, ◌||◌, ◌==◌, Str, if◌then◌else◌}

-- `ExitCode` is an integer with named values; any other integer is one too.
abbrev pub ExitCode : Type 0
ExitCode = ℕ

abbrev pub exit_success : ExitCode
exit_success = 0

abbrev pub exit_failure : ExitCode
exit_failure = 1

abbrev pub exit_digest_mismatch : ExitCode
exit_digest_mismatch = 10

abbrev pub exit_topology_drift : ExitCode
exit_topology_drift = 11

abbrev pub exit_lock_held : ExitCode
exit_lock_held = 12

abbrev pub exit_authorization_unsatisfied : ExitCode
exit_authorization_unsatisfied = 13

abbrev pub exit_verification_failed : ExitCode
exit_verification_failed = 14

abbrev pub exit_unsupported_topology : ExitCode
exit_unsupported_topology = 15

abbrev pub exit_insufficient_privilege : ExitCode
exit_insufficient_privilege = 16

-- The kinds of the three packages' sentinels.
pub data ErrorKind : Type 0 where
  generic digest_mismatch topology_drift lock_held : ErrorKind
  authorization_unsatisfied verification_failed unsupported_topology : ErrorKind
  insufficient_privilege unsupported_format_version invalid_plan unknown_node_kind : ErrorKind
  invalid_transition invalid_identifier name_collision : ErrorKind
  state_not_found state_conflict state_immutable lease_lost state_io guard_not_recorded : ErrorKind
  unsupported_node_kind missing_port checkpoint_failed node_previously_failed : ErrorKind
  invalid_run dependency_not_complete : ErrorKind

-- The place of a kind in the list above, by which two kinds are compared.
rank : ErrorKind → ℕ
rank generic = 0
rank digest_mismatch = 1
rank topology_drift = 2
rank lock_held = 3
rank authorization_unsatisfied = 4
rank verification_failed = 5
rank unsupported_topology = 6
rank insufficient_privilege = 7
rank unsupported_format_version = 8
rank invalid_plan = 9
rank unknown_node_kind = 10
rank invalid_transition = 11
rank invalid_identifier = 12
rank name_collision = 13
rank state_not_found = 14
rank state_conflict = 15
rank state_immutable = 16
rank lease_lost = 17
rank state_io = 18
rank guard_not_recorded = 19
rank unsupported_node_kind = 20
rank missing_port = 21
rank checkpoint_failed = 22
rank node_previously_failed = 23
rank invalid_run = 24
rank dependency_not_complete = 25

-- Go's `==` on kinds.
unfoldable pub kind_eq : ErrorKind → ErrorKind → Bool
unfolding rank
kind_eq a b = rank a == rank b

-- What the classifier of engine/executor/classify.go can tell of an error of another package.
pub data Foreign : Type 0 where
  context_cancelled : Foreign  -- context.Canceled or context.DeadlineExceeded
  sql_state : Str → Foreign  -- an error with a method `SQLState`
  connection_lost : Foreign  -- driver.ErrBadConn, io.EOF and the system calls' errors
  network_timeout network_error opaque : Foreign

pub data GoError : Type 0 where
  typed : ErrorKind → ExitCode → GoError
  wrapped : ErrorKind → ExitCode → GoError → GoError
  foreign : Foreign → GoError

-- `errors.As(err, &e)`: the first `protocol.Error` of the chain, by its kind and its code.
unfoldable pub kind_of : GoError → ErrorKind
kind_of (typed k c) = k
kind_of (wrapped k c e) = k
kind_of (foreign f) = generic

-- `ExitCodeFor` of an error; `nil` is the case of no error.
unfoldable pub exit_code_for : GoError → ExitCode
exit_code_for (typed k c) = c
exit_code_for (wrapped k c e) = c
exit_code_for (foreign f) = exit_failure

-- `errors.Is(err, sentinel)`: some error of the chain has the sentinel's kind.
unfoldable pub is_kind : ErrorKind → GoError → Bool
is_kind k (typed j c) = kind_eq k j
is_kind k (wrapped j c e) = kind_eq k j || is_kind k e
is_kind k (foreign f) = false

-- The first `protocol.Error` of a chain keeps its kind and code under `Detailf`; `Wrap` gives the
-- sentinel a cause.
unfoldable pub wrap : GoError → GoError → GoError
wrap (typed k c) cause = wrapped k c cause
wrap (wrapped k c e) cause = wrapped k c cause
wrap (foreign f) cause = foreign f

-- The sentinels.
abbrev pub err_failure : GoError
err_failure = typed generic exit_failure

abbrev pub err_digest_mismatch : GoError
err_digest_mismatch = typed digest_mismatch exit_digest_mismatch

abbrev pub err_topology_drift : GoError
err_topology_drift = typed topology_drift exit_topology_drift

abbrev pub err_lock_held : GoError
err_lock_held = typed lock_held exit_lock_held

abbrev pub err_authorization_unsatisfied : GoError
err_authorization_unsatisfied = typed authorization_unsatisfied exit_authorization_unsatisfied

abbrev pub err_verification_failed : GoError
err_verification_failed = typed verification_failed exit_verification_failed

abbrev pub err_unsupported_topology : GoError
err_unsupported_topology = typed unsupported_topology exit_unsupported_topology

abbrev pub err_insufficient_privilege : GoError
err_insufficient_privilege = typed insufficient_privilege exit_insufficient_privilege

abbrev pub err_unsupported_format_version : GoError
err_unsupported_format_version = typed unsupported_format_version exit_failure

abbrev pub err_invalid_plan : GoError
err_invalid_plan = typed invalid_plan exit_failure

abbrev pub err_unknown_node_kind : GoError
err_unknown_node_kind = typed unknown_node_kind exit_failure

abbrev pub err_invalid_transition : GoError
err_invalid_transition = typed invalid_transition exit_failure

abbrev pub err_invalid_identifier : GoError
err_invalid_identifier = typed invalid_identifier exit_failure

abbrev pub err_name_collision : GoError
err_name_collision = typed name_collision exit_failure

abbrev pub err_not_found : GoError
err_not_found = typed state_not_found exit_failure

abbrev pub err_conflict : GoError
err_conflict = typed state_conflict exit_failure

abbrev pub err_lease_lost : GoError
err_lease_lost = typed lease_lost exit_failure

abbrev pub err_store_io : GoError
err_store_io = typed state_io exit_failure

abbrev pub err_authorization_not_recorded : GoError
err_authorization_not_recorded = typed guard_not_recorded exit_authorization_unsatisfied

abbrev pub err_missing_port : GoError
err_missing_port = typed missing_port exit_failure

abbrev pub err_checkpoint_failed : GoError
err_checkpoint_failed = typed checkpoint_failed exit_failure

abbrev pub err_node_previously_failed : GoError
err_node_previously_failed = typed node_previously_failed exit_failure

abbrev pub err_invalid_run : GoError
err_invalid_run = typed invalid_run exit_failure

abbrev pub err_dependency_not_complete : GoError
err_dependency_not_complete = typed dependency_not_complete exit_failure

abbrev pub err_unsupported_node_kind : GoError
err_unsupported_node_kind = typed unsupported_node_kind exit_failure

-- `errorForExitCode` of engine/executor/errors.go.
unfoldable pub error_for_exit_code : ExitCode → GoError
error_for_exit_code c =
    if c == exit_digest_mismatch
    then err_digest_mismatch
    else if c == exit_topology_drift
    then err_topology_drift
    else if c == exit_lock_held
    then err_lock_held
    else if c == exit_authorization_unsatisfied
    then err_authorization_unsatisfied
    else if c == exit_unsupported_topology
    then err_unsupported_topology
    else if c == exit_insufficient_privilege
    then err_insufficient_privilege
    else if c == exit_failure
    then err_failure
    else err_verification_failed

-- `(A, error)`: a value, or an error that is not `nil`.
pub data Result {ℓ} (A : Type ℓ) : Type ℓ where
  ok : A → Result A
  err : GoError → Result A

infixl 5 ◌>>=◌
abbrev pub ◌>>=◌ {ℓ κ} : {A : Type ℓ} {B : Type κ} → Result A → (A → Result B) → Result B
ok a >>= f = f a
err e >>= f = err e
