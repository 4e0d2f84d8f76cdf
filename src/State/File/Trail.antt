-- ===== src/State/File/Trail.antt =====
-- The audit trail of engine/state/file.go. A torn line is no event, so the trail is its complete
-- lines; the cached sequence number is left out, since it is used only while the trail is unchanged.
use partitionctl.Base.{ℕ, ◌+◌, List, [], ◌∷◌, ◌++◌, Str, if◌then◌else◌, ltb}
use partitionctl.State.Audit.{AuditEvent, validate_event, AuditEventType}
use partitionctl.State.Disk.{
  Env, RunDir, Disk, dir_at, Act, ◌>>=◌, ◌>>◌, done_with, check, segment, list, write, now,
}

-- The sequence number of the last event, or 0.
unfoldable pub last_seq : List AuditEvent → ℕ
last_seq [] = 0
last_seq (e ∷ []) = e.seq
last_seq (e ∷ (f ∷ rest)) = last_seq (f ∷ rest)

after_seq : List AuditEvent → ℕ → List AuditEvent
after_seq [] n = []
after_seq (e ∷ rest) n = let others = after_seq rest n in if ltb n e.seq then e ∷ others else others

abbrev pub extend_audit : AuditEvent → RunDir → RunDir
extend_audit e x = record x { audit = x.audit ++ e ∷ [] }

module _ (env : Env) where
  abbrev pub here : Str → Disk → RunDir
  here id d = dir_at (segment env id) d

  -- `readAuditLocked`.
  unfoldable pub read_audit : Str → Act (List AuditEvent)
  read_audit id = list env (λ d. (here id d).audit)

  -- `countAuditLocked`.
  unfoldable pub count_audit : Str → Act ℕ
  unfolding read_audit last_seq
  count_audit id = read_audit id >>= λ evs. done_with (last_seq evs)

  -- `appendAuditLocked`.
  unfoldable pub append_audit : AuditEvent → Act AuditEvent
  unfolding count_audit
  append_audit ev =
      check (validate_event ev)
      >> (count_audit ev.run_id >>= λ n. now env ev.at >>= λ t.
          let e : AuditEvent = record ev { seq = n + 1; occurred_at = t; at = 0 } in
          write env ev.run_id (extend_audit e) >> done_with e)

  unfoldable pub list_audit : Str → ℕ → Act (List AuditEvent)
  unfolding read_audit after_seq
  list_audit id n = read_audit id >>= λ evs. done_with (after_seq evs n)

  -- An event of the store's own, without its details.
  unfoldable pub event : Str → Str → AuditEventType → ℕ → AuditEvent
  event run node t at = record {
    seq = 0;
    run_id = run;
    node_id = node;
    type' = t;
    occurred_at = 0;
    at = at;
  }
