-- ===== src/State/File/Authorizations.antt =====
-- The authorizations of engine/state/file.go. The guarded statement runs outside the store: its
-- outcome is a parameter, and other calls may come between the record and the event that closes it.
use partitionctl.Base.{
  ℕ, ◌+◌, List, [], ◌∷◌, ◌++◌, Str, is_empty, none, some, Option, if◌then◌else◌, ltb, ◌==◌,
}
use partitionctl.Protocol.Errors.{GoError, err_authorization_not_recorded, wrap, Result, ok, err}
use partitionctl.State.Authorization.{AuthorizationRecord, validate_record}
use partitionctl.State.Audit.{
  event_authorization_recorded, event_destructive_executed, event_destructive_failed,
}
use partitionctl.State.Disk.{
  Env, RunDir, Disk, Act, ◌>>=◌, ◌>>◌, done_with, check, list, write, now,
}
use partitionctl.State.Run.{Run}
use partitionctl.State.File.Trail.{append_audit, event, here}
use partitionctl.State.File.Runs.{get_run}

-- Every failure to record is `ErrAuthorizationNotRecorded` with its cause.
abbrev pub not_recorded : {A : Type 0} → Result A × Disk → Result A × Disk
not_recorded (ok a, d) = (ok a, d)
not_recorded (err e, d) = (err (wrap err_authorization_not_recorded e), d)

abbrev pub as_not_recorded : {A : Type 0} → Act A → Act A
as_not_recorded m d = not_recorded (m d)

-- `_, _ = action`.
abbrev pub ignored : {A : Type 0} → Result A × Disk → Result (Unit {0}) × Disk
ignored (r, d) = (ok tt, d)

abbrev pub ignoring : {A : Type 0} → Act A → Act Unit
ignoring m d = ignored (m d)

-- The loop of `nextSeqLocked`.
unfoldable pub highest : ℕ → List AuthorizationRecord → ℕ
highest max [] = max
highest max (a ∷ rest) = highest (if ltb max a.sequence then a.sequence else max) rest

abbrev pub add_authorization : AuthorizationRecord → RunDir → RunDir
add_authorization a x = record x { authorizations = x.authorizations ++ a ∷ [] }

-- The fields that the store sets.
unfoldable pub completed : AuthorizationRecord → Run → ℕ → ℕ → AuthorizationRecord
completed a r now seq = record a {
  granted_at = if a.granted_at == 0 then now else a.granted_at;
  database = if is_empty a.database then r.target.database else a.database;
  sequence = seq;
}

module _ (env : Env) where
  -- `nextSeqLocked`.
  unfoldable pub next_seq : Str → Act ℕ
  unfolding highest
  next_seq id = list env (λ d. (here env id d).authorizations) >>= λ l. done_with (highest 0 l + 1)

  -- The part of RecordAuthorization up to the commit.
  unfoldable pub commit_authorization : AuthorizationRecord → Act AuthorizationRecord
  unfolding next_seq completed
  commit_authorization a =
      check (validate_record a)
      >> (get_run env a.run_id >>= λ r. now env 0 >>= λ t. next_seq a.run_id >>= λ seq.
          write env a.run_id (add_authorization (completed a r t seq))
          >> (append_audit env (event env a.run_id a.node_id event_authorization_recorded t)
              >>= λ e. done_with (completed a r t seq)))

  -- RecordAuthorization with no guarded action, as the command line calls it.
  unfoldable pub record_authorization : AuthorizationRecord → Act AuthorizationRecord
  unfolding commit_authorization
  record_authorization a = as_not_recorded (commit_authorization a)

  -- The end of `runGuarded` for an action that returned: an event records the outcome, and its
  -- failure is reported only where the action succeeded.
  unfoldable pub close_guarded : Str → Str → Option GoError → Act (Option GoError)
  close_guarded run node none = now env 0 >>= λ t.
      append_audit env (event env run node event_destructive_executed t) >>= λ e. done_with none
  close_guarded run node (some e) =
      ignoring (now env 0 >>= λ t. append_audit env (event env run node event_destructive_failed t))
      >> done_with (some e)

  -- An empty list also needs the run to be there.
  abbrev pub or_no_run : Str → List AuthorizationRecord → Act (List AuthorizationRecord)
  or_no_run run [] = get_run env run >>= λ r. done_with []
  or_no_run run (x ∷ l) = done_with (x ∷ l)

  unfoldable pub list_authorizations : Str → Act (List AuthorizationRecord)
  list_authorizations run = list env (λ d. (here env run d).authorizations) >>= or_no_run run
