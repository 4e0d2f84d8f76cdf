-- ===== src/Protocol/Plan/Order/Drained.antt =====
-- The loops of `TopologicalOrder` keep an invariant, so that what they pop is ordered.
use partitionctl.Base.{
  ℕ, zero, suc, ◌+◌, ◌-◌, ◌<◌, ◌≡◌, ap, true, false, ◌||◌, List, [], ◌∷◌, ◌==◌, if◌then◌else◌,
  arith, Bool-cases, inl, inr,
}
use partitionctl.Protocol.Plan.Order.{set_at, push, release, drain}
use partitionctl.Protocol.Plan.Order.Unmet.{
  mem, count, unmet, IsOrdered, HasNoDuplicates, unmet-cons, mem-push, push-HasNoDuplicates,
}

first-mem : (i : ℕ) (l : List ℕ) → mem i (i ∷ l) ≡ true
unfolding mem
first-mem i l = ground arith

module _ (n : ℕ) (deps : ℕ → List ℕ) (dependents : ℕ → List ℕ) where
  -- The state of the loops: `popped` the last first, `left` the dependents of the last one that are
  -- still to be released.
  pub record Inv (popped : List ℕ) (degree : ℕ → ℕ) (ready left : List ℕ) : Type 0 where
    pub degrees : (j : ℕ) → degree j ≡ unmet popped (deps j) + count j left
    pub popped_free : (k : ℕ) → mem k popped ≡ true → degree k ≡ 0
    pub ready_free : (k : ℕ) → mem k ready ≡ true → degree k ≡ 0
    pub apart : (k : ℕ) → mem k ready ≡ true → mem k popped ≡ false
    pub distinct : HasNoDuplicates ready
    pub in_range : (k : ℕ) → mem k ready ≡ true → k < n
    pub left_range : (k : ℕ) → mem k left ≡ true → k < n
    pub found : (k : ℕ) → k < n → degree k ≡ 0 → (mem k popped || mem k ready) ≡ true

  -- The graph: each edge is found from both ends, and the indices are of nodes.
  pub record IsDual : Type 0 where
    pub dual : (i j : ℕ) → count i (dependents j) ≡ count j (deps i)
    pub range : (j i : ℕ) → mem i (dependents j) ≡ true → i < n

  counted : (j : ℕ) (rest : List ℕ) → count j (j ∷ rest) ≡ count j rest + 1
  unfolding count
  counted j rest = ground arith

  not-popped :
      {popped : List ℕ} {degree : ℕ → ℕ} {ready : List ℕ} (j : ℕ) (rest : List ℕ)
      → Inv popped degree ready (j ∷ rest)
      → (mem j popped ≡ false)
        × (mem j ready ≡ false)
        × (degree j ≡ unmet popped (deps j) + count j rest + 1)
  not-popped {popped} {degree} {ready} j rest v =
      ground (arith, v.degrees j, counted j rest, v.popped_free j, v.ready_free j)

  degrees-released :
      {popped : List ℕ} {degree : ℕ → ℕ} {ready : List ℕ} (j : ℕ) (rest : List ℕ)
      → Inv popped degree ready (j ∷ rest)
      → (k : ℕ) → set_at degree j (degree j - 1) k ≡ unmet popped (deps k) + count k rest
  unfolding count
  degrees-released {popped} {degree} {ready} j rest v k = elim (Bool-cases (j == k)) [
    | inl e ↦
        let same : j ≡ k = ground arith in
        ground
          (arith, v.degrees j, ap (λ y. unmet popped (deps y)) same, ap (λ y. count y rest) same)
    | inr e ↦ ground (arith, v.degrees k)
  ]

  -- What was free stays free.
  free-released : (degree : ℕ → ℕ) (j k : ℕ) → degree k ≡ 0 → set_at degree j (degree j - 1) k ≡ 0
  free-released degree j k h = elim (Bool-cases (j == k)) [
    | inl e ↦ let same : j ≡ k = ground arith in ground (arith, ap degree same)
    | inr e ↦ ground arith
  ]

  -- The ready indices after one release, by whether the last dependency was met.
  module _ {popped : List ℕ} {degree : ℕ → ℕ} {ready : List ℕ} (j : ℕ) (rest : List ℕ)
      (v : Inv popped degree ready (j ∷ rest)) where
    abbrev next : ℕ → ℕ
    next = set_at degree j (degree j - 1)

    last-met : degree j - 1 ≡ 0 → Inv popped next (push j ready) rest
    unfolding mem
    last-met zero' =
        let fresh = not-popped j rest v in
        record {
          degrees = degrees-released j rest v;
          popped_free = λ k h. free-released degree j k (v.popped_free k h);
          ready_free = λ k h. elim (Bool-cases (j == k)) [
            | inl e ↦ ground arith
            | inr e ↦ free-released degree j k (v.ready_free k (ground (arith, mem-push k j ready)))
          ];
          apart = λ k h. elim (Bool-cases (j == k)) [
            | inl e ↦ let same : j ≡ k = ground arith in ground (arith, ap (λ y. mem y popped) same)
            | inr e ↦ v.apart k (ground (arith, mem-push k j ready))
          ];
          distinct = push-HasNoDuplicates j ready fresh.1 v.distinct;
          in_range = λ k h. elim (Bool-cases (j == k)) [
            | inl e ↦ v.left_range k (ground arith)
            | inr e ↦ v.in_range k (ground (arith, mem-push k j ready))
          ];
          left_range = λ k h. v.left_range k (ground arith);
          found = λ k r h. elim (Bool-cases (j == k)) [
            | inl e ↦ ground (arith, mem-push k j ready)
            | inr e ↦ ground (arith, mem-push k j ready, v.found k r)
          ];
        }

    some-unmet : (degree j - 1 == 0) ≡ false → Inv popped next ready rest
    unfolding mem
    some-unmet more = record {
      degrees = degrees-released j rest v;
      popped_free = λ k h. free-released degree j k (v.popped_free k h);
      ready_free = λ k h. free-released degree j k (v.ready_free k h);
      apart = v.apart;
      distinct = v.distinct;
      in_range = v.in_range;
      left_range = λ k h. v.left_range k (ground arith);
      found = λ k r h. elim (Bool-cases (j == k)) [
        | inl e ↦ ground arith
        | inr e ↦ v.found k r (ground arith)
      ];
    }

    release-step : Inv popped next (if degree j - 1 == 0 then push j ready else ready) rest
    release-step = elim (Bool-cases (degree j - 1 == 0)) [
      | inl e ↦ rw e (last-met (ground arith))
      | inr e ↦ rw e (some-unmet e)
    ]

  pub release-Inv :
      {popped : List ℕ} (left : List ℕ) (degree : ℕ → ℕ) (ready : List ℕ)
      → Inv popped degree ready left
      → Inv popped (release left degree ready).0 (release left degree ready).1 []
  unfolding release
  release-Inv [] degree ready v = v
  release-Inv (j ∷ rest) degree ready v = release-Inv rest _ _ (release-step j rest v)

  module _ (graph : IsDual) where
    -- Popping the first ready index.
    pub pop-Inv :
        {popped : List ℕ} {degree : ℕ → ℕ} {ready : List ℕ} (i : ℕ)
        → Inv popped degree (i ∷ ready) []
        → Inv (i ∷ popped) degree ready (dependents i)
    unfolding mem count
    pop-Inv {popped} {degree} {ready} i v =
        let fresh : mem i popped ≡ false = v.apart i (ground arith) in
        record {
          degrees =
              λ k. omega (arith, v.degrees k, unmet-cons i popped (deps k) fresh, graph.dual k i);
          popped_free = λ k h. elim (Bool-cases (i == k)) [
            | inl e ↦ v.ready_free k (ground arith)
            | inr e ↦ v.popped_free k (ground arith)
          ];
          ready_free = λ k h. v.ready_free k (ground arith);
          apart = λ k h. elim (Bool-cases (i == k)) [
            | inl e ↦
                let same : i ≡ k = ground arith in
                absurd (ground (arith, v.distinct.0, ap (λ y. mem y ready) same))
            | inr e ↦ ground (arith, v.apart k)
          ];
          distinct = v.distinct.1;
          in_range = λ k h. v.in_range k (ground arith);
          left_range = graph.range i;
          found = λ k r h. ground (arith, v.found k r h);
        }

    ready-unmet :
        {popped : List ℕ} {degree : ℕ → ℕ} {ready : List ℕ} (i : ℕ)
        → Inv popped degree (i ∷ ready) []
        → unmet popped (deps i) ≡ 0
    unfolding mem count
    ready-unmet i v = ground (arith, v.degrees i, v.ready_free i)

    -- What the loop pops is ordered.
    pub drain-IsOrdered :
        {popped : List ℕ} (fuel : ℕ) (degree : ℕ → ℕ) (ready : List ℕ)
        → Inv popped degree ready []
        → IsOrdered deps popped (drain fuel dependents degree ready)
    unfolding drain
    drain-IsOrdered zero degree ready v = tt
    drain-IsOrdered (suc fuel) degree [] v = tt
    drain-IsOrdered {popped} (suc fuel) degree (i ∷ ready) v = (
      v.apart i (first-mem i ready),
      ready-unmet i v,
      drain-IsOrdered {popped = i ∷ popped} fuel _ _
          (release-Inv (dependents i) degree ready (pop-Inv i v)),
    )

    -- What the loop pops is an index of a node.
    pub drain-range :
        {popped : List ℕ} (fuel : ℕ) (degree : ℕ → ℕ) (ready : List ℕ)
        → Inv popped degree ready []
        → (k : ℕ) → mem k (drain fuel dependents degree ready) ≡ true
        → k < n
    unfolding drain mem
    drain-range zero degree ready v k h = absurd (cc h)
    drain-range (suc fuel) degree [] v k h = absurd (cc h)
    drain-range {popped} (suc fuel) degree (i ∷ ready) v k h = elim (Bool-cases (i == k)) [
      | inl e ↦ v.in_range k (ground arith)
      | inr e ↦
          drain-range {popped = i ∷ popped} fuel _ _
            (release-Inv (dependents i) degree ready (pop-Inv i v)) k (ground arith)
    ]
