-- ===== src/State/Claim/Sorting.antt =====
-- Sorting and filtering the runs and the nodes: what holds of all elements, before and after.
use partitionctl.Base.{
  ◌≡◌, refl, Bool, true, List, [], ◌∷◌, arith, All, sort, insert_sorted, Bool-cases, inl, inr,
}
use partitionctl.Protocol.ObjectName.{ObjectName}
use partitionctl.State.Run.{Run}
use partitionctl.State.Run.Query.{RunQuery, matches}
use partitionctl.State.Node.{NodeRecord}
use partitionctl.State.File.Runs.{matching}
use partitionctl.State.Claim.{any_claims}
use partitionctl.State.Claim.Meaning.{Some}

-- A predicate of all elements, before and after sorting.
module _ {A : Type 0} (before : A → A → Bool) (P : A → Type 0) where
  All-insert_sorted : (x : A) (l : List A) → All P (insert_sorted before x l) → P x × All P l
  unfolding insert_sorted
  All-insert_sorted x [] h = h
  All-insert_sorted x (y ∷ l) h = elim (Bool-cases (before x y)) [
    | inl e ↦ let g = rw e at h in (g.0, g.1)
    | inr e ↦ let g = rw e at h in let rest = All-insert_sorted x l g.1 in (rest.0, (g.0, rest.1))
  ]

  insert_sorted-All : (x : A) (l : List A) → P x → All P l → All P (insert_sorted before x l)
  unfolding insert_sorted
  insert_sorted-All x [] p h = (p, h)
  insert_sorted-All x (y ∷ l) p h = elim (Bool-cases (before x y)) [
    | inl e ↦ rw e (p, h)
    | inr e ↦ rw e (h.0, insert_sorted-All x l p h.1)
  ]

  pub sort-All : (l : List A) → All P l → All P (sort before l)
  unfolding sort
  sort-All [] h = h
  sort-All (x ∷ l) h = insert_sorted-All x (sort before l) h.0 (sort-All l h.1)

  pub All-sort : (l : List A) → All P (sort before l) → All P l
  unfolding sort
  All-sort [] h = h
  All-sort (x ∷ l) h = let g = All-insert_sorted x (sort before l) h in (g.0, All-sort l g.1)

-- Whether some node claims the object does not depend on their order.
any_claims-insert_sorted :
    (o : ObjectName) (before : NodeRecord → NodeRecord → Bool) (n : NodeRecord)
    (l : List NodeRecord)
    → any_claims o (insert_sorted before n l) ≡ any_claims o (n ∷ l)
unfolding insert_sorted any_claims
any_claims-insert_sorted o before n [] = refl
any_claims-insert_sorted o before n (m ∷ l) = ground (arith, any_claims-insert_sorted o before n l)

pub any_claims-sort :
    (o : ObjectName) (before : NodeRecord → NodeRecord → Bool) (l : List NodeRecord)
    → any_claims o (sort before l) ≡ any_claims o l
unfolding sort any_claims
any_claims-sort o before [] = refl
any_claims-sort o before (n ∷ l) =
    ground (arith, any_claims-insert_sorted o before n (sort before l), any_claims-sort o before l)

-- What holds of all runs holds of those that match, beside the match.
pub matching-All :
    (q : RunQuery) (P : Run → Type 0) (l : List Run)
    → All P l
    → All (λ r. P r × (matches q r ≡ true)) (matching q l)
unfolding matching
matching-All q P [] h = tt
matching-All q P (r ∷ l) h = elim (Bool-cases (matches q r)) [
  | inl e ↦ rw e ((h.0, e), matching-All q P l h.1)
  | inr e ↦ rw e (matching-All q P l h.1)
]

pub All-map : (P Q : Run → Type 0) → ((r : Run) → P r → Q r) → (l : List Run) → All P l → All Q l
All-map P Q f [] h = tt
All-map P Q f (r ∷ l) h = (f r h.0, All-map P Q f l h.1)

-- Each element is one of them.
pub All-Some : (l : List Run) → All (λ r. Some (λ s. s ≡ r) l) l
All-Some [] = tt
All-Some (r ∷ l) = (inl refl, All-map _ _ (λ s h. inr h) l (All-Some l))

-- What holds of each run that matches.
pub All-matching :
    (q : RunQuery) (P : Run → Type 0) (l : List Run)
    → All P (matching q l)
    → All (λ r. matches q r ≡ true → P r) l
unfolding matching
All-matching q P [] h = tt
All-matching q P (r ∷ l) h = elim (Bool-cases (matches q r)) [
  | inl e ↦ let g = rw e at h in ((λ m. g.0), All-matching q P l g.1)
  | inr e ↦ let g = rw e at h in ((λ m. cc), All-matching q P l g)
]
