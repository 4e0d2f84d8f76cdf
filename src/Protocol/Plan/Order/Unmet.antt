-- ===== src/Protocol/Plan/Order/Unmet.antt =====
-- Counting in lists of indices: the dependencies that are not yet in the order.
use partitionctl.Base.{
  ℕ, ◌+◌, ◌≤◌, ◌≡◌, refl, ap, Bool, true, false, ◌||◌, List, [], ◌∷◌, ◌++◌, ◌==◌, if◌then◌else◌,
  arith, length, leb, Bool-cases, inl, inr,
}
use partitionctl.Protocol.Plan.Order.{push}

unfoldable pub mem : ℕ → List ℕ → Bool
mem k [] = false
mem k (x ∷ xs) = x == k || mem k xs

unfoldable pub count : ℕ → List ℕ → ℕ
count k [] = 0
count k (x ∷ xs) = (if x == k then 1 else 0) + count k xs

-- How many of the indices are not among those in the order.
unfoldable pub unmet : List ℕ → List ℕ → ℕ
unmet order [] = 0
unmet order (x ∷ xs) = (if mem x order then 0 else 1) + unmet order xs

-- Each index is new, and all that it depends on comes before it; `before` is what is in the order,
-- the last first.
abbrev pub IsOrdered : (ℕ → List ℕ) → List ℕ → List ℕ → Type 0
IsOrdered deps before [] = Unit
IsOrdered deps before (i ∷ rest) =
    (mem i before ≡ false) × (unmet before (deps i) ≡ 0) × IsOrdered deps (i ∷ before) rest

-- No index stands twice.
abbrev pub HasNoDuplicates : List ℕ → Type 0
HasNoDuplicates [] = Unit
HasNoDuplicates (x ∷ xs) = (mem x xs ≡ false) × HasNoDuplicates xs

pub count-append : (k : ℕ) (xs ys : List ℕ) → count k (xs ++ ys) ≡ count k xs + count k ys
unfolding count
count-append k [] ys = omega arith
count-append k (x ∷ xs) ys = ground (arith, count-append k xs ys)

-- One more index in the order meets the dependencies on it.
pub unmet-cons :
    (i : ℕ) (order l : List ℕ)
    → mem i order ≡ false
    → unmet order l ≡ unmet (i ∷ order) l + count i l
unfolding unmet count mem
unmet-cons i order [] h = omega arith
unmet-cons i order (x ∷ l) h = elim (Bool-cases (x == i)) [
  | inl e ↦
      let same : x ≡ i = ground arith in
      ground (arith, unmet-cons i order l h, same, ap (λ y. mem y order) same)
  | inr e ↦ ground (arith, unmet-cons i order l h)
]

pub unmet-empty : (l : List ℕ) → unmet [] l ≡ length l
unfolding unmet mem
unmet-empty [] = refl
unmet-empty (x ∷ l) = ground (arith, unmet-empty l)

-- A larger order leaves no more unmet.
pub unmet-le :
    (p q l : List ℕ) → ((k : ℕ) → mem k p ≡ true → mem k q ≡ true) → unmet q l ≤ unmet p l
unfolding unmet
unmet-le p q [] h = omega arith
unmet-le p q (x ∷ l) h = ground (arith, unmet-le p q l h, h x)

pub mem-push : (k j : ℕ) (l : List ℕ) → mem k (push j l) ≡ (j == k || mem k l)
unfolding mem push
mem-push k j [] = refl
mem-push k j (x ∷ l) = ground (arith, mem-push k j l)

pub push-HasNoDuplicates :
    (j : ℕ) (l : List ℕ) → mem j l ≡ false → HasNoDuplicates l → HasNoDuplicates (push j l)
unfolding push mem
push-HasNoDuplicates j [] m h = (refl, tt)
push-HasNoDuplicates j (x ∷ l) m h = elim (Bool-cases (leb j x)) [
  | inl e ↦ rw e (m, h)
  | inr e ↦ rw e (ground (arith, mem-push x j l), push-HasNoDuplicates j l (ground arith) h.1)
]
