-- ===== src/Executor/Safety/Steps.antt =====
-- What authorization and dispatch keep.
use partitionctl.Base.{◌≡◌, refl, sym, ap, ◌∙◌, not, Str, none, some, Option, Bool-cases, inl, inr}
use partitionctl.Protocol.Errors.{Result, ok, err, err_missing_port, err_invalid_plan}
use partitionctl.Protocol.NodeKind.{is_destructive}
use partitionctl.Protocol.ObjectName.{ObjectName, object_eq}
use partitionctl.Protocol.Marker.{MarkerStatus, marker_absent}
use partitionctl.Protocol.Leftover.{
  is_none, classify_leftover, LeftoverResolution, leftover_resolved, resolve_leftover_base,
}
use partitionctl.Protocol.Authorization.{
  Authorization, AuthorizationMode, auth_provenance, auth_leftover, auth_explicit,
}
use partitionctl.Protocol.Node.{Node}
use partitionctl.Protocol.Plan.{Plan, confirmed}
use partitionctl.Executor.Port.{Config, Ports}
use partitionctl.Executor.Machine.{World, failed, ◌>>=◌, done_with, from_result}
use partitionctl.Executor.Hoare.{
  After, Runs, Keeps, Runs-bind, Runs-if, Runs-weaken, done_with-Keeps, halt-Runs,
}
use partitionctl.Executor.Authorize.{
  AuthorizationDecision, destructive_object, authorize, authorize_provenance, authorize_leftover,
  authorize_explicit, with_verdict, with_leftover_verdict, decide, by_mode, on_relation,
  resolved_leftover, claim_for, undecided, is_malformed, names_target,
}
use partitionctl.Executor.Safety.Actions.{Stable, query-Keeps}

module _ (cfg : Config) (ports : Ports) (run : Str) {P : World → Type 0} (stable : Stable P) where
  -- The decision is about the object that it started with.
  abbrev pub About : ObjectName → AuthorizationDecision → World → Type 0
  About o d w = P w × (d.object ≡ o)

  decided :
      (o : ObjectName) (d : AuthorizationDecision) → d.object ≡ o → Runs P (About o) P (done_with d)
  decided o d e = record { ends = λ w p. (p, e) }

  explicit_object :
      (d : AuthorizationDecision) (plan : Plan) (auth : Authorization)
      → (authorize_explicit d plan auth).object ≡ d.object
  unfolding authorize_explicit
  explicit_object d plan auth = elim (Bool-cases (confirmed plan auth.required_confirmation)) [
    | inl yes_confirmed ↦ elim (Bool-cases (names_target plan.target.index auth.object)) [
      | inl yes_named ↦ rw (yes_confirmed, yes_named)
      | inr not_named ↦ rw (yes_confirmed, not_named)
    ]
    | inr not_confirmed ↦ rw not_confirmed
  ]

  claim_for-Keeps : (o : ObjectName) (m : MarkerStatus) → Keeps P (claim_for cfg ports run o m)
  unfolding claim_for
  claim_for-Keeps o marker_absent = query-Keeps ports run stable _
  claim_for-Keeps o _ = done_with-Keeps P none

  provenance-About :
      (d : AuthorizationDecision) (auth : Authorization)
      → Runs P (About d.object) P (authorize_provenance cfg ports run d auth)
  unfolding authorize_provenance with_verdict
  provenance-About d auth =
      Runs-if (not cfg.has_catalog) (λ e. halt-Runs (failed err_missing_port))
        (λ e.
          Runs-bind (query-Keeps ports run stable _)
            (λ m. Runs-bind (claim_for-Keeps auth.object m.1) (λ c. decided d.object _ refl)))

  resolved-About :
      (d : AuthorizationDecision) (auth : Authorization) (o : ObjectName)
      (r : ObjectName × LeftoverResolution)
      → Runs P (About d.object) P (resolved_leftover cfg ports run d auth o r)
  unfolding resolved_leftover with_leftover_verdict
  resolved-About d auth o (base, leftover_resolved) =
      Runs-bind (query-Keeps ports run stable _) (λ m. decided d.object _ refl)
  resolved-About d auth o (base, _) = decided d.object d refl

  relation-About :
      (d : AuthorizationDecision) (auth : Authorization) (r : Option ObjectName)
      → Runs P (About d.object) P (on_relation cfg ports run d auth r)
  unfolding on_relation
  relation-About d auth none = halt-Runs (failed err_missing_port)
  relation-About d auth (some o) =
      Runs-bind (query-Keeps ports run stable _)
        (λ l. resolved-About d auth o (resolve_leftover_base auth.object l))

  leftover-About :
      (d : AuthorizationDecision) (auth : Authorization)
      → Runs P (About d.object) P (authorize_leftover cfg ports run d auth)
  unfolding authorize_leftover
  leftover-About d auth =
      Runs-if (is_none (classify_leftover auth.object.name).0) (λ e. decided d.object d refl)
        (λ e.
          Runs-if (not cfg.has_catalog) (λ f. halt-Runs (failed err_missing_port))
            (λ f. relation-About d auth auth.relation))

  by_mode-About :
      (d : AuthorizationDecision) (plan : Plan) (auth : Authorization) (m : AuthorizationMode)
      → Runs P (About d.object) P (by_mode cfg ports run d plan auth m)
  unfolding by_mode
  by_mode-About d plan auth auth_provenance = provenance-About d auth
  by_mode-About d plan auth auth_leftover = leftover-About d auth
  by_mode-About d plan auth auth_explicit = decided d.object _ (explicit_object d plan auth)
  by_mode-About d plan auth (AuthorizationMode.other s) = decided d.object d refl

  decide-About :
      (plan : Plan) (o : ObjectName) (auth : Option Authorization)
      → Runs P (About o) P (decide cfg ports run plan o auth)
  unfolding decide
  decide-About plan o none = decided o _ refl
  decide-About plan o (some auth) =
      let d = undecided cfg ports run o auth.mode in
      Runs-if (is_malformed cfg ports run auth) (λ e. decided o d refl)
        (λ e.
          Runs-if (not (object_eq auth.object o)) (λ f. decided o d refl)
            (λ f. by_mode-About (undecided cfg ports run o auth.mode) plan auth auth.mode))

  -- A decision about a node is about what the node would destroy.
  pub authorize-About :
      (plan : Plan) (n : Node)
      → Runs P
          (λ d w. P w × (destructive_object n.kind n.params ≡ ok d.object))
          P
          (authorize cfg ports run plan n)
  unfolding authorize
  authorize-About plan n =
      Runs-if (not (is_destructive n.kind)) (λ e. halt-Runs (failed err_invalid_plan))
        (λ e. record { ends = λ w p. about (destructive_object n.kind n.params) refl w p })
    where
      about :
          (r : Result ObjectName)
          → destructive_object n.kind n.params ≡ r
          → (w : World) → P w
          → After
              (λ d w. P w × (destructive_object n.kind n.params ≡ ok d.object))
              P
              ((from_result r >>= λ o. decide cfg ports run plan o n.authorization) w)
      about (ok o) e w p =
          (Runs-weaken (decide-About plan o n.authorization) (λ v q. q)
              (λ d v q. (q.0, e ∙ ap ok (sym q.1))) (λ v q. q)).ends
            w p
      about (err x) e w p = p
