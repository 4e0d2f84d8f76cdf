-- ===== src/Protocol/NodeKind.antt =====
-- engine/protocol/nodekind.go: the vocabulary of nine kinds and what the engine decides by kind.
pub mod Coherence
use partitionctl.Base.{
  ◌↔◌, ◌≡◌, Bool, true, false, List, [], ◌∷◌, Str, str_eq, str_eq_iff, arith, if◌then◌else◌,
}
use partitionctl.Protocol.Errors.{GoError, err_unknown_node_kind}
use mathlib.Core.Option.{Option, none, some}

-- The nine kinds; `other` is a string outside the vocabulary.
pub data NodeKind : Type 0 where
  catalog_assert index_create_parent_invalid index_create_concurrently : NodeKind
  index_attach index_verify wait index_drop_concurrently : NodeKind
  index_reindex_concurrently index_drop_partitioned : NodeKind
  other : Str → NodeKind

-- Go's `==` on kinds.
unfoldable pub node_kind_eq : NodeKind → NodeKind → Bool
node_kind_eq catalog_assert catalog_assert = true
node_kind_eq index_create_parent_invalid index_create_parent_invalid = true
node_kind_eq index_create_concurrently index_create_concurrently = true
node_kind_eq index_attach index_attach = true
node_kind_eq index_verify index_verify = true
node_kind_eq wait wait = true
node_kind_eq index_drop_concurrently index_drop_concurrently = true
node_kind_eq index_reindex_concurrently index_reindex_concurrently = true
node_kind_eq index_drop_partitioned index_drop_partitioned = true
node_kind_eq (other s) (other t) = str_eq s t
node_kind_eq _ _ = false

pub node_kind_eq_iff : (a b : NodeKind) → (node_kind_eq a b ≡ true) ↔ (a ≡ b)
unfolding node_kind_eq
node_kind_eq_iff (other s) (other t) = ground (arith, str_eq_iff s t)
node_kind_eq_iff a b = ground arith

-- `LockLevel`, weakest first.
pub data LockLevel : Type 0 where
  lock_none lock_share_update_exclusive lock_share lock_access_exclusive : LockLevel

abbrev pub all_node_kinds : List NodeKind
all_node_kinds =
    catalog_assert ∷ index_create_parent_invalid ∷ index_create_concurrently ∷ index_attach
    ∷ index_verify ∷ wait ∷ index_drop_concurrently ∷ index_reindex_concurrently
    ∷ index_drop_partitioned ∷ []

unfoldable pub is_valid : NodeKind → Bool
is_valid (other s) = false
is_valid _ = true

unfoldable pub is_destructive : NodeKind → Bool
is_destructive index_drop_concurrently = true
is_destructive index_drop_partitioned = true
is_destructive _ = false

unfoldable pub issues_ddl : NodeKind → Bool
issues_ddl index_create_parent_invalid = true
issues_ddl index_create_concurrently = true
issues_ddl index_attach = true
issues_ddl index_drop_concurrently = true
issues_ddl index_reindex_concurrently = true
issues_ddl index_drop_partitioned = true
issues_ddl _ = false

unfoldable pub must_run_outside_transaction : NodeKind → Bool
must_run_outside_transaction index_create_concurrently = true
must_run_outside_transaction index_drop_concurrently = true
must_run_outside_transaction index_reindex_concurrently = true
must_run_outside_transaction _ = false

unfoldable pub allows_statement_timeout : NodeKind → Bool
allows_statement_timeout index_create_concurrently = false
allows_statement_timeout index_reindex_concurrently = false
allows_statement_timeout index_drop_concurrently = false
allows_statement_timeout _ = true

unfoldable pub waits_for_concurrent_transactions : NodeKind → Bool
waits_for_concurrent_transactions index_create_concurrently = true
waits_for_concurrent_transactions index_drop_concurrently = true
waits_for_concurrent_transactions index_reindex_concurrently = true
waits_for_concurrent_transactions _ = false

unfoldable pub claims_ownership : NodeKind → Bool
claims_ownership index_create_parent_invalid = true
claims_ownership index_create_concurrently = true
claims_ownership index_attach = true
claims_ownership index_reindex_concurrently = true
claims_ownership _ = false

unfoldable pub is_retryable : NodeKind → Bool
unfolding issues_ddl
is_retryable k = issues_ddl k

unfoldable pub is_retry_safe : NodeKind → Bool
is_retry_safe index_attach = true
is_retry_safe index_drop_partitioned = true
is_retry_safe _ = false

unfoldable pub lock_level : NodeKind → LockLevel
lock_level index_create_parent_invalid = lock_share
lock_level index_create_concurrently = lock_share_update_exclusive
lock_level index_attach = lock_share_update_exclusive
lock_level index_drop_concurrently = lock_share_update_exclusive
lock_level index_reindex_concurrently = lock_share_update_exclusive
lock_level index_drop_partitioned = lock_access_exclusive
lock_level _ = lock_none

-- `none` is `nil`.
unfoldable pub check_node_kind : NodeKind → Option GoError
unfolding is_valid
check_node_kind k = if is_valid k then none else some err_unknown_node_kind
