-- ===== src/Protocol/NodeKind/Coherence.antt =====
-- How the classifications of the node kinds relate.
use partitionctl.Base.{◌≡◌, ◌↔◌, true, false, not, arith}
use partitionctl.Protocol.NodeKind.{
  NodeKind, lock_none, lock_access_exclusive, is_valid, is_destructive, issues_ddl,
  must_run_outside_transaction, allows_statement_timeout, waits_for_concurrent_transactions,
  claims_ownership, is_retryable, is_retry_safe, lock_level, index_drop_partitioned,
}

-- What the executor relies on: the kinds that wait for the application's transactions are those that
-- run outside a transaction and those without a statement timeout; a kind takes a lock exactly where
-- it issues DDL; what is destructive or claims ownership issues DDL, and nothing does both; what may
-- be sent again is retried; and only index.drop_partitioned takes the exclusive lock.
pub record IsCoherent (k : NodeKind) : Type 0 where
  pub waits_outside : must_run_outside_transaction k ≡ waits_for_concurrent_transactions k
  pub waits_unbounded : allows_statement_timeout k ≡ not (waits_for_concurrent_transactions k)
  pub locks_for_ddl : (lock_level k ≡ lock_none) ↔ (issues_ddl k ≡ false)
  pub destroys_by_ddl : is_destructive k ≡ true → issues_ddl k ≡ true
  pub claims_by_ddl : claims_ownership k ≡ true → issues_ddl k ≡ true
  pub never_both : is_destructive k ≡ true → claims_ownership k ≡ false
  pub sent_again : is_retry_safe k ≡ true → is_retryable k ≡ true
  pub exclusive : (lock_level k ≡ lock_access_exclusive) ↔ (k ≡ index_drop_partitioned)
  pub in_vocabulary : issues_ddl k ≡ true → is_valid k ≡ true

-- For every kind: waiting for the application's transactions, running outside a transaction and
-- having no statement timeout coincide; a lock is taken exactly for DDL; destructive and claiming
-- kinds issue DDL, and no kind is both; a kind that may be sent again is retried; the exclusive lock
-- is index.drop_partitioned's alone; and no kind outside the vocabulary issues DDL.
pub classifications-IsCoherent : (k : NodeKind) → IsCoherent k
unfolding is_valid is_destructive issues_ddl must_run_outside_transaction allows_statement_timeout
    waits_for_concurrent_transactions claims_ownership is_retryable is_retry_safe lock_level
classifications-IsCoherent k = record {
  waits_outside = ground arith;
  waits_unbounded = ground arith;
  locks_for_ddl = ground arith;
  destroys_by_ddl = λ h. ground arith;
  claims_by_ddl = λ h. ground arith;
  never_both = λ h. ground arith;
  sent_again = λ h. ground arith;
  exclusive = ground arith;
  in_vocabulary = λ h. ground arith;
}
