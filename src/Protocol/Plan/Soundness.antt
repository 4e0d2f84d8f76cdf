-- ===== src/Protocol/Plan/Soundness.antt =====
-- What a plan that `Validate` accepts is known to be.
use partitionctl.Base.{
  ℕ, ◌≤◌, ◌≡◌, refl, sym, Bool, true, false, not, List, [], ◌∷◌, Str, str_eq, str_eq_iff, is_empty,
  has_str, none, some, Option, ◌▷◌, refuse, arith, All, Bool-cases, Option-cases, inl, inr, Fresh,
  Distinct, has_str-Fresh, ◌==◌, ltb,
}
use partitionctl.Protocol.Errors.{GoError, err_invalid_plan, Result, ok, err}
use partitionctl.Protocol.NodeKind.{is_destructive}
use partitionctl.Protocol.Authorization.{
  Authorization, confirm_exclusive_lock, validate_authorization,
}
use partitionctl.Protocol.Params.Definition.{first_error, no_elements}
use partitionctl.Protocol.Node.{Node, validate_node, as_invalid_plan}
use partitionctl.Protocol.Plan.{
  Plan, validate_plan, check_nodes, count_drop_partitioned, forbidden_beside, check_destructive,
  node_ids, check_dependencies, confirmed, error_of, check_format_version, is_valid_operation,
  validate_target, has_prefix, fingerprint_prefix,
}
use partitionctl.Protocol.Plan.Order.{topological_order}

first {ℓ} : {E : Type ℓ} (a b : Option E) → (a ▷ b) ≡ none → (a ≡ none) × (b ≡ none)
first none b h = (refl, h)
first (some e) b h = cc h

passed {ℓ} : {E : Type ℓ} (t : Bool) (e : E) → refuse t e ≡ none → t ≡ false
passed true e h = cc h
passed false e h = refl

pub first_error-All {ℓ} :
    {A : Type ℓ} (check : A → Option GoError) (l : List A)
    → first_error check l ≡ none
    → All (λ x. check x ≡ none) l
first_error-All check [] h = tt
first_error-All check (x ∷ l) h =
    let (a, b) = first (check x) (first_error check l) h in (a, first_error-All check l b)

-- A destructive node carries a valid authorization, and no other node carries one.
pub record IsAuthorized (n : Node) : Type 0 where
  pub required :
      is_destructive n.kind ≡ true
      → (a : Authorization) × ((n.authorization ≡ some a) × (validate_authorization a ≡ none))
  pub forbidden : is_destructive n.kind ≡ false → n.authorization ≡ none

validate_node-IsAuthorized : (n : Node) → validate_node n ≡ none → IsAuthorized n
unfolding validate_node
validate_node-IsAuthorized n h = record { required = yes; forbidden = no }
  where
    yes :
        is_destructive n.kind ≡ true
        → (a : Authorization) × ((n.authorization ≡ some a) × (validate_authorization a ≡ none))
    yes d = elim (Option-cases n.authorization) [
      | inl e ↦ absurd (ground arith)
      | inr (a, e) ↦ (a, (e, ground arith))
    ]

    no : is_destructive n.kind ≡ false → n.authorization ≡ none
    no d = ground arith

-- The dependencies of a node are other nodes of the plan, and no two are the same.
pub record IsResolved (ids : List Str) (n : Node) : Type 0 where
  pub no_self : Fresh n.id n.depends_on
  pub no_repeat : Distinct n.depends_on
  pub known : All (λ d. has_str ids d ≡ true) n.depends_on

check_nodes-Distinct :
    (seen : List Str) (l : List Node)
    → check_nodes seen l ≡ none
    → All IsAuthorized l × (Distinct (node_ids l) × All (λ s. Fresh s seen) (node_ids l))
unfolding check_nodes
check_nodes-Distinct seen [] h = (tt, (tt, tt))
check_nodes-Distinct seen (n ∷ l) h =
    let (valid, h2) = first (validate_node n) _ h in
    let (new, h3) = first (refuse (has_str seen n.id) err_invalid_plan) _ h2 in
    let (auth, (distinct, unseen)) = check_nodes-Distinct (n.id ∷ seen) l h3 in
    (
      (validate_node-IsAuthorized n valid, auth),
      (
        (apart (node_ids l) unseen, distinct),
        (has_str-Fresh seen n.id (passed (has_str seen n.id) err_invalid_plan new), rest _ unseen),
      ),
    )
  where
    apart : (ids : List Str) → All (λ s. Fresh s (n.id ∷ seen)) ids → Fresh n.id ids
    apart [] u = tt
    apart (s ∷ ids) u = ((λ e. u.0.0 (sym e)), apart ids u.1)

    rest : (ids : List Str) → All (λ s. Fresh s (n.id ∷ seen)) ids → All (λ s. Fresh s seen) ids
    rest [] u = tt
    rest (s ∷ ids) u = (u.0.1, rest ids u.1)

check_dependencies-IsResolved :
    (ids : List Str) (id : Str) (seen deps : List Str)
    → check_dependencies ids id seen deps ≡ none
    → Fresh id deps
      × (Distinct deps × (All (λ d. Fresh d seen) deps × All (λ d. has_str ids d ≡ true) deps))
unfolding check_dependencies
check_dependencies-IsResolved ids id seen [] h = (tt, (tt, (tt, tt)))
check_dependencies-IsResolved ids id seen (d ∷ deps) h =
    let (not_self, h2) = first (refuse (str_eq d id) err_invalid_plan) _ h in
    let (new, h3) = first (refuse (has_str seen d) err_invalid_plan) _ h2 in
    let (there, h4) = first (refuse (not (has_str ids d)) err_invalid_plan) _ h3 in
    let (self, (distinct, (unseen, known))) =
      check_dependencies-IsResolved ids id (d ∷ seen) deps h4 in
    let differs = passed (str_eq d id) err_invalid_plan not_self in
    (
      ((λ e. cc ((str_eq_iff d id).1 (sym e), differs)), self),
      (
        (apart deps unseen, distinct),
        (
          (has_str-Fresh seen d (passed (has_str seen d) err_invalid_plan new), rest deps unseen),
          (ground (arith, passed (not (has_str ids d)) err_invalid_plan there), known),
        ),
      ),
    )
  where
    apart : (l : List Str) → All (λ s. Fresh s (d ∷ seen)) l → Fresh d l
    apart [] u = tt
    apart (s ∷ l) u = ((λ e. u.0.0 (sym e)), apart l u.1)

    rest : (l : List Str) → All (λ s. Fresh s (d ∷ seen)) l → All (λ s. Fresh s seen) l
    rest [] u = tt
    rest (s ∷ l) u = (u.0.1, rest l u.1)

check_destructive-Alone :
    (p : Plan) (n : ℕ)
    → check_destructive p n ≡ none
    → (n ≤ 1)
      × (n ≡ 1
          → All (λ m. forbidden_beside m ≡ false) p.nodes
            × (confirmed p confirm_exclusive_lock ≡ true))
unfolding check_destructive
check_destructive-Alone p n h = elim (Bool-cases (n == 1)) [
  | inl one ↦
      let (single, h2) = first (refuse (ltb 1 n) err_invalid_plan) _ (rw one at h) in
      let (alone, flag) = first _ (refuse (not (confirmed p confirm_exclusive_lock)) _) h2 in
      (
        ground (arith, passed (ltb 1 n) err_invalid_plan single),
        λ e. (
          each p.nodes (first_error-All _ p.nodes alone),
          ground (arith, passed (not (confirmed p confirm_exclusive_lock)) err_invalid_plan flag),
        ),
      )
  | inr more ↦
      let (single, h2) = first (refuse (ltb 1 n) err_invalid_plan) _ h in
      (ground (arith, passed (ltb 1 n) err_invalid_plan single), λ e. absurd (ground arith))
]
  where
    each :
        (l : List Node)
        → All (λ m. refuse (forbidden_beside m) err_invalid_plan ≡ none) l
        → All (λ m. forbidden_beside m ≡ false) l
    each [] u = tt
    each (m ∷ l) u = (passed (forbidden_beside m) err_invalid_plan u.0, each l u.1)

-- What the executor relies on of a plan.
pub record IsSound (p : Plan) : Type 0 where
  pub authorized : All IsAuthorized p.nodes
  pub distinct : Distinct (node_ids p.nodes)
  pub single : count_drop_partitioned p.nodes ≤ 1
  pub alone :
      count_drop_partitioned p.nodes ≡ 1
      → All (λ m. forbidden_beside m ≡ false) p.nodes × (confirmed p confirm_exclusive_lock ≡ true)
  pub resolved : All (IsResolved (node_ids p.nodes)) p.nodes
  pub ordered : (order : List Str) × (topological_order p.nodes ≡ ok order)

has_order : (r : Result (List Str)) → error_of r ≡ none → (order : List Str) × (r ≡ ok order)
has_order (ok order) h = (order, refl)
has_order (err e) h = cc h

All-IsResolved :
    (ids : List Str) (l : List Node)
    → All (λ n. check_dependencies ids n.id [] n.depends_on ≡ none) l
    → All (IsResolved ids) l
All-IsResolved ids [] u = tt
All-IsResolved ids (n ∷ l) u =
    let (self, (distinct, (unseen, known))) =
      check_dependencies-IsResolved ids n.id [] n.depends_on u.0 in
    (record { no_self = self; no_repeat = distinct; known = known }, All-IsResolved ids l u.1)

-- A plan that `Validate` accepts has distinct node ids; each destructive node carries a valid
-- authorization and no other node carries one; there is at most one index.drop_partitioned, which
-- stands beside no destructive kind but index.drop_concurrently and whose lock was confirmed; each
-- dependency is another node of the plan; and the nodes have a topological order.
pub validate_plan-IsSound : (p : Plan) → validate_plan p ≡ none → IsSound p
unfolding validate_plan
validate_plan-IsSound p h0 =
    let (a1, h1) = first (check_format_version p.format_version) _ h0 in
    let (a2, h2) = first (refuse (is_empty p.plan_id) err_invalid_plan) _ h1 in
    let (a3, h3) = first (refuse (not (is_valid_operation p.operation)) err_invalid_plan) _ h2 in
    let (a4, h4) = first (as_invalid_plan (validate_target p.target)) _ h3 in
    let (a5, h5) = first (refuse (is_empty p.topology_fingerprint) err_invalid_plan) _ h4 in
    let (a6, h6) =
      first (refuse (not (has_prefix p.topology_fingerprint fingerprint_prefix)) _) _ h5 in
    let (a7, h7) = first (refuse (no_elements p.nodes) err_invalid_plan) _ h6 in
    let (a8, h8) = first (first_error _ p.confirmations) _ h7 in
    let (nodes, h9) = first (check_nodes [] p.nodes) _ h8 in
    let (drops, h10) = first (check_destructive p (count_drop_partitioned p.nodes)) _ h9 in
    let (deps, order) = first (first_error _ p.nodes) (error_of (topological_order p.nodes)) h10 in
    let (auth, (distinct, unseen)) = check_nodes-Distinct [] p.nodes nodes in
    let (single, alone) = check_destructive-Alone p (count_drop_partitioned p.nodes) drops in
    record {
      authorized = auth;
      distinct = distinct;
      single = single;
      alone = alone;
      resolved = All-IsResolved (node_ids p.nodes) p.nodes (first_error-All _ p.nodes deps);
      ordered = has_order (topological_order p.nodes) order;
    }
