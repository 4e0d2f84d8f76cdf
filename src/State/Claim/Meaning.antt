-- ===== src/State/Claim/Meaning.antt =====
-- What a claim is: which nodes claim an object, and which runs are asked.
use partitionctl.Base.{
  ℕ, suc, ◌≡◌, ◌↔◌, refl, ap, true, List, [], ◌∷◌, ◌⊎◌, inl, inr, arith, ◌&&◌, Str, str_eq_iff,
  is_empty, Bool-cases,
}
use partitionctl.Protocol.NodeKind.{
  NodeKind, index_create_parent_invalid, index_create_concurrently, index_attach,
  index_reindex_concurrently, claims_ownership,
}
use partitionctl.Protocol.NodeState.{NodeState, pending, ready, running, retry_wait, verifying}
use partitionctl.Protocol.ObjectName.{ObjectName, object_eq, object_eq_iff}
use partitionctl.State.Run.{
  RunStatus, run_completed, run_cancelled, run_running, run_orphaned, run_failed, run_interrupted,
  Run, status_eq,
}
use partitionctl.State.Run.Query.{matches, has_status, no_operation}
use partitionctl.State.Node.{NodeRecord}
use partitionctl.State.Claim.{
  claiming_node, claiming_state, any_claims, claiming_query, claiming_run_statuses,
}

-- A kind that makes or rebuilds an index, or attaches one, makes the object PartitionCTL's.
pub data Owns : NodeKind → Type 0 where
  parent : Owns index_create_parent_invalid
  built : Owns index_create_concurrently
  attached : Owns index_attach
  rebuilt : Owns index_reindex_concurrently

-- The statement of the node may have run and is not known to be finished: it is under way, or it was
-- sent before and waits.
pub data IsOpen : NodeState → ℕ → Type 0 where
  sent : {a : ℕ} → IsOpen running a
  waits : {a : ℕ} → IsOpen retry_wait a
  returned : {a : ℕ} → IsOpen verifying a
  sent_before : {a : ℕ} → IsOpen ready (suc a)
  rewound : {a : ℕ} → IsOpen pending (suc a)

pub record Claims (o : ObjectName) (n : NodeRecord) : Type 0 where
  pub owns : Owns n.kind
  pub open_node : IsOpen n.state n.attempts
  pub named : n.object ≡ o

-- A run leaves work undone and is not cancelled.
pub data IsUnfinished : RunStatus → Type 0 where
  is_running : IsUnfinished run_running
  is_orphaned : IsUnfinished run_orphaned
  is_failed : IsUnfinished run_failed
  is_interrupted : IsUnfinished run_interrupted

-- Some element satisfies `P`.
abbrev pub Some {ℓ} : {A : Type ℓ} → (A → Type 0) → List A → Type 0
Some P [] = ⊥
Some P (x ∷ xs) = P x ⊎ Some P xs

Owns-iff : (k : NodeKind) → (claims_ownership k ≡ true) ↔ Owns k
unfolding claims_ownership
Owns-iff k = (to k, from)
  where
    to : (k : NodeKind) → claims_ownership k ≡ true → Owns k
    to index_create_parent_invalid h = parent
    to index_create_concurrently h = built
    to index_attach h = attached
    to index_reindex_concurrently h = rebuilt
    to _ h = absurd (cc h)

    from : {k : NodeKind} → Owns k → claims_ownership k ≡ true
    from parent = refl
    from built = refl
    from attached = refl
    from rebuilt = refl

IsOpen-iff : (s : NodeState) (a : ℕ) → (claiming_state s a ≡ true) ↔ IsOpen s a
unfolding claiming_state
IsOpen-iff s a = (to s a, from)
  where
    to : (s : NodeState) (a : ℕ) → claiming_state s a ≡ true → IsOpen s a
    to running a h = sent
    to retry_wait a h = waits
    to verifying a h = returned
    to ready (suc a) h = sent_before
    to pending (suc a) h = rewound
    to _ _ h = absurd (cc h)

    from : {s : NodeState} {a : ℕ} → IsOpen s a → claiming_state s a ≡ true
    from sent = refl
    from waits = refl
    from returned = refl
    from sent_before = ground arith
    from rewound = ground arith

claiming_node_iff :
    (o : ObjectName) (n : NodeRecord)
    → ((claiming_node n && object_eq n.object o) ≡ true) ↔ Claims o n
unfolding claiming_node
claiming_node_iff o n = (
  λ h. record {
    owns = (Owns-iff n.kind).0 (ground arith);
    open_node = (IsOpen-iff n.state n.attempts).0 (ground arith);
    named = (object_eq_iff n.object o).0 (ground arith);
  },
  λ c.
      let owns = (Owns-iff n.kind).1 c.owns in
      let opens = (IsOpen-iff n.state n.attempts).1 c.open_node in
      let named = (object_eq_iff n.object o).1 c.named in ground arith,
)

pub any_claims_iff :
    (o : ObjectName) (l : List NodeRecord) → (any_claims o l ≡ true) ↔ Some (Claims o) l
unfolding any_claims
any_claims_iff o [] = (λ h. absurd (cc h), λ h. absurd h)
any_claims_iff o (n ∷ l) =
    let rest = any_claims_iff o l in
    (
      λ h. elim (Bool-cases (claiming_node n && object_eq n.object o)) [
        | inl e ↦ inl ((claiming_node_iff o n).0 e)
        | inr e ↦ inr (rest.0 (ground arith))
      ],
      λ c. elim c [
        | inl x ↦ let e = (claiming_node_iff o n).1 x in ground arith
        | inr x ↦ let e = rest.1 x in ground arith
      ],
    )

-- The runs that are asked: unfinished, and of the database, where an empty one is any.
pub record IsAsked (database : Str) (r : Run) : Type 0 where
  pub unfinished : IsUnfinished r.status
  pub of_database : (database ≡ []) ⊎ (r.target.database ≡ database)

unfinished_iff : (s : RunStatus) → (has_status claiming_run_statuses s ≡ true) ↔ IsUnfinished s
unfolding has_status status_eq
unfinished_iff s = (to s, from)
  where
    to : (s : RunStatus) → has_status claiming_run_statuses s ≡ true → IsUnfinished s
    to run_running h = is_running
    to run_orphaned h = is_orphaned
    to run_failed h = is_failed
    to run_interrupted h = is_interrupted
    to run_completed h = absurd (cc h)
    to run_cancelled h = absurd (cc h)
    to (RunStatus.other t) h = absurd (cc h)

    from : {s : RunStatus} → IsUnfinished s → has_status claiming_run_statuses s ≡ true
    from is_running = refl
    from is_orphaned = refl
    from is_failed = refl
    from is_interrupted = refl

is_empty-nil : (s : Str) → is_empty s ≡ true → s ≡ []
is_empty-nil [] h = refl
is_empty-nil (c ∷ s) h = absurd (cc h)

pub IsAsked-sound :
    (database : Str) (r : Run) → matches (claiming_query database) r ≡ true → IsAsked database r
unfolding matches no_operation
IsAsked-sound database r h = record {
  unfinished = (unfinished_iff r.status).0 (ground arith);
  of_database = elim (Bool-cases (is_empty database)) [
    | inl e ↦ inl (is_empty-nil database e)
    | inr e ↦ inr ((str_eq_iff r.target.database database).0 (ground arith))
  ];
}

pub IsAsked-complete :
    (database : Str) (r : Run) → IsAsked database r → matches (claiming_query database) r ≡ true
unfolding matches no_operation
IsAsked-complete database r a =
    let status = (unfinished_iff r.status).1 a.unfinished in
    elim a.of_database [
      | inl e ↦ let nil : is_empty database ≡ true = ap is_empty e in ground arith
      | inr e ↦ let same = (str_eq_iff r.target.database database).1 e in ground arith
    ]
