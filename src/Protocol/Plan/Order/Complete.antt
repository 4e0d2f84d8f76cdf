-- ===== src/Protocol/Plan/Order/Complete.antt =====
-- The loop stops early only where no order of all the indices exists; counting below a bound.
use partitionctl.Base.{
  ℕ, zero, suc, ◌+◌, ◌≤◌, ◌<◌, ◌≡◌, refl, ap, true, false, not, ◌&&◌, List, [], ◌∷◌, ◌==◌,
  if◌then◌else◌, arith, length, Bool-cases, inl, inr, ◌⊎◌,
}
use partitionctl.Protocol.Plan.Order.{drain}
use partitionctl.Protocol.Plan.Order.Unmet.{mem, count, unmet, IsOrdered, HasNoDuplicates, unmet-le}
use partitionctl.Protocol.Plan.Order.Drained.{Inv, IsDual, release-Inv, pop-Inv}

without : ℕ → List ℕ → List ℕ
without k [] = []
without k (x ∷ l) = let rest = without k l in if x == k then rest else x ∷ rest

mem-without : (j k : ℕ) (l : List ℕ) → mem j (without k l) ≡ (mem j l && not (j == k))
unfolding mem without
mem-without j k [] = refl
mem-without j k (x ∷ l) = ground (arith, mem-without j k l)

length-without-le : (k : ℕ) (l : List ℕ) → length (without k l) ≤ length l
unfolding without
length-without-le k [] = omega arith
length-without-le k (x ∷ l) = ground (arith, length-without-le k l)

length-without-lt : (k : ℕ) (l : List ℕ) → mem k l ≡ true → length (without k l) < length l
unfolding without mem
length-without-lt k [] h = cc
length-without-lt k (x ∷ l) h = ground (arith, length-without-lt k l, length-without-le k l)

-- A list of all numbers below a bound is at least as long.
pub le-length : (n : ℕ) (l : List ℕ) → ((k : ℕ) → k < n → mem k l ≡ true) → n ≤ length l
le-length zero l h = omega arith
le-length (suc n) l h = omega (
  arith,
  length-without-lt n l (h n (omega arith)),
  le-length n (without n l) (λ k r. ground (arith, mem-without k n l, h k)),
)

without-HasNoDuplicates : (k : ℕ) (l : List ℕ) → HasNoDuplicates l → HasNoDuplicates (without k l)
unfolding without
without-HasNoDuplicates k [] h = tt
without-HasNoDuplicates k (x ∷ l) h = elim (Bool-cases (x == k)) [
  | inl e ↦ rw e (without-HasNoDuplicates k l h.1)
  | inr e ↦ rw e (ground (arith, mem-without x k l, h.0), without-HasNoDuplicates k l h.1)
]

without-fresh : (k : ℕ) (l : List ℕ) → mem k l ≡ false → length (without k l) ≡ length l
unfolding without mem
without-fresh k [] h = refl
without-fresh k (x ∷ l) h = ground (arith, without-fresh k l)

length-without-HasNoDuplicates :
    (k : ℕ) (l : List ℕ) → HasNoDuplicates l → length l ≤ length (without k l) + 1
unfolding without
length-without-HasNoDuplicates k [] h = omega arith
length-without-HasNoDuplicates k (x ∷ l) h = elim (Bool-cases (x == k)) [
  | inl e ↦
      let same : x ≡ k = ground arith in
      ground (arith, without-fresh k l, h.0, ap (λ y. mem y l) same)
  | inr e ↦ ground (arith, length-without-HasNoDuplicates k l h.1)
]

-- Distinct numbers below a bound are at most as many.
pub length-le :
    (n : ℕ) (l : List ℕ) → HasNoDuplicates l → ((k : ℕ) → mem k l ≡ true → k < n) → length l ≤ n
unfolding mem
length-le zero [] d h = omega arith
length-le zero (x ∷ l) d h = absurd (omega (arith, h x (ground arith)))
length-le (suc n) l d h = omega (
  arith,
  length-without-HasNoDuplicates n l d,
  length-le n (without n l) (without-HasNoDuplicates n l d)
      (λ k m. ground (arith, mem-without k n l, h k)),
)

-- As many distinct numbers below the bound are all of them.
pub mem_of_length :
    (n : ℕ) (l : List ℕ)
    → HasNoDuplicates l
    → ((k : ℕ) → mem k l ≡ true → k < n)
    → length l ≡ n
    → (k : ℕ) → k < n
    → mem k l ≡ true
unfolding mem
mem_of_length n l d h e k r = elim (Bool-cases (mem k l)) [
  | inl m ↦ m
  | inr m ↦ absurd (
      omega (
        arith,
        e,
        length-le n (k ∷ l) (m, d)
            (λ j q. elim (Bool-cases (k == j)) [
              | inl s ↦ ground arith
              | inr s ↦ h j (ground arith)
            ]),
      ))
]

-- What is in the order already does not come again.
IsOrdered-fresh :
    (deps : ℕ → List ℕ) (before l : List ℕ) (k : ℕ)
    → IsOrdered deps before l
    → mem k before ≡ true
    → mem k l ≡ false
unfolding mem
IsOrdered-fresh deps before [] k h m = refl
IsOrdered-fresh deps before (i ∷ l) k h m = elim (Bool-cases (i == k)) [
  | inl e ↦ let same : i ≡ k = ground arith in ground (arith, h.0, ap (λ y. mem y before) same)
  | inr e ↦ ground (arith, IsOrdered-fresh deps (i ∷ before) l k h.2)
]

pub IsOrdered-HasNoDuplicates :
    (deps : ℕ → List ℕ) (before l : List ℕ) → IsOrdered deps before l → HasNoDuplicates l
unfolding mem
IsOrdered-HasNoDuplicates deps before [] h = tt
IsOrdered-HasNoDuplicates deps before (i ∷ l) h = (
  IsOrdered-fresh deps (i ∷ before) l i h.2 (ground arith),
  IsOrdered-HasNoDuplicates deps (i ∷ before) l h.2,
)

module _ (n : ℕ) (deps : ℕ → List ℕ) (dependents : ℕ → List ℕ)
    (graph : IsDual n deps dependents) where
  -- Nothing else is free: each index below `n` without unmet dependencies is in the list.
  abbrev IsClosed : List ℕ → Type 0
  IsClosed l = (k : ℕ) → k < n → unmet l (deps k) ≡ 0 → mem k l ≡ true

  -- The loop pops as many as it has rounds, or what it popped is closed.
  drain-IsClosed :
      {popped : List ℕ} (fuel : ℕ) (degree : ℕ → ℕ) (ready : List ℕ)
      → Inv n deps dependents popped degree ready []
      → (length (drain fuel dependents degree ready) ≡ fuel)
        ⊎ ((l : List ℕ) × IsClosed l
            × (length l ≡ length popped + length (drain fuel dependents degree ready)))
  unfolding drain mem count
  drain-IsClosed zero degree ready v = inl refl
  drain-IsClosed {popped} (suc fuel) degree [] v =
      inr (popped, (λ k r u. ground (arith, v.found k r, v.degrees k)), omega arith)
  drain-IsClosed {popped} (suc fuel) degree (i ∷ ready) v =
      elim (drain-IsClosed {popped = i ∷ popped} fuel _ _ (
        release-Inv n deps dependents (dependents i) degree ready
          (pop-Inv n deps dependents graph i v))) [
            | inl e ↦ inl (omega (arith, e))
            | inr (l, c, e) ↦ inr (l, c, omega (arith, e))
          ]

  -- A closed list has all that an order lists.
  closed-covers :
      (l before order : List ℕ)
      → IsClosed l
      → ((k : ℕ) → mem k before ≡ true → mem k l ≡ true)
      → ((k : ℕ) → mem k order ≡ true → k < n)
      → IsOrdered deps before order
      → (k : ℕ) → mem k order ≡ true
      → mem k l ≡ true
  unfolding mem
  closed-covers l before [] c b r h k m = cc
  closed-covers l before (i ∷ order) c b r h k m =
      let here : mem i l ≡ true =
        c i (r i (ground arith)) (omega (arith, h.1, unmet-le before l (deps i) b)) in
      elim (Bool-cases (i == k)) [
        | inl e ↦ let same : i ≡ k = ground arith in ground (arith, here, ap (λ y. mem y l) same)
        | inr e ↦
            closed-covers l (i ∷ before) order c
              (λ j q. elim (Bool-cases (i == j)) [
                | inl s ↦
                    let same : i ≡ j = ground arith in ground (arith, here, ap (λ y. mem y l) same)
                | inr s ↦ b j (ground arith)
              ])
              (λ j q. r j (ground arith)) h.2 k (ground arith)
      ]

  -- Where there is an order of all indices, the loop pops them all.
  pub drain_complete :
      (degree : ℕ → ℕ) (ready order : List ℕ)
      → Inv n deps dependents [] degree ready []
      → IsOrdered deps [] order
      → ((k : ℕ) → mem k order ≡ true → k < n)
      → length order ≡ n
      → n ≤ length (drain n dependents degree ready)
  unfolding mem
  drain_complete degree ready order v h r e = elim (drain-IsClosed n degree ready v) [
    | inl full ↦ omega (arith, full)
    | inr (l, c, len) ↦
        let all = mem_of_length n order (IsOrdered-HasNoDuplicates deps [] order h) r e in
        omega (
          arith,
          len,
          le-length n l (λ k q. closed-covers l [] order c (λ j m. cc) r h k (all k q)),
        )
  ]
