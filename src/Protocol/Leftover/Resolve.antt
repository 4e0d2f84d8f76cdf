-- ===== src/Protocol/Leftover/Resolve.antt =====
-- `ResolveLeftoverBase` names a base only where exactly one candidate can be the base.
use partitionctl.Base.{
  ℕ, ◌+◌, ◌≡◌, ◌≢◌, refl, true, List, [], ◌∷◌, length, arith, All, Bool-cases, inl, inr, ◌⊎◌,
  if◌then◌else◌, str_eq, str_eq_iff,
}
use partitionctl.Base.Utf8.{valid_string}
use partitionctl.Protocol.ObjectName.{ObjectName, new_object_name}
use partitionctl.Protocol.Leftover.{
  is_none, split_leftover, is_candidate, scan, by_count, resolve_leftover_base, leftover_resolved,
  leftover_ambiguous, leftover_unresolved, leftover_not_a_name, LeftoverResolution,
}
use partitionctl.Protocol.Leftover.Split.{IsLeftover, split_leftover_iff}
use partitionctl.Protocol.Leftover.Derive.{IsDerived, derives_leftover_iff}

-- `c` can be the index that `leftover` is a rebuild of: another index of its schema that is no
-- leftover, from whose name the leftover's is derived.
pub record IsBase (leftover c : ObjectName) : Type 0 where
  pub same_schema : c.schema ≡ leftover.schema
  pub other : c.name ≢ leftover.name
  pub original : ¬ IsLeftover c.name
  pub derived : IsDerived c.name leftover.name

-- The candidates that can be the base, in their order.
pub data Bases (leftover : ObjectName) : List ObjectName → List ObjectName → Type 0 where
  no_bases : Bases leftover [] []
  kept :
      {c : ObjectName} {cs bs : List ObjectName}
      → IsBase leftover c
      → Bases leftover cs bs
      → Bases leftover (c ∷ cs) (c ∷ bs)
  passed :
      {c : ObjectName} {cs bs : List ObjectName}
      → ¬ IsBase leftover c
      → Bases leftover cs bs
      → Bases leftover (c ∷ cs) bs

-- None is unresolved, a single one is the base, and several are ambiguous.
abbrev pub verdict : List ObjectName → ObjectName × LeftoverResolution
verdict [] = (new_object_name [] [], leftover_unresolved)
verdict (c ∷ []) = (c, leftover_resolved)
verdict (c ∷ d ∷ cs) = (new_object_name [] [], leftover_ambiguous)

module _ (leftover : ObjectName) where
  is_candidate-IsBase :
      (c : ObjectName)
      → valid_string c.name ≡ true
      → is_candidate leftover c ≡ true
      → IsBase leftover c
  unfolding is_candidate
  is_candidate-IsBase c v h = record {
    same_schema = ground (arith, str_eq_iff c.schema leftover.schema);
    other = λ e. ground (arith, str_eq_iff c.name leftover.name);
    original = λ l. ground (arith, (split_leftover_iff c.name).1 l);
    derived = (derives_leftover_iff c.name leftover.name v).0 (ground arith);
  }

  IsBase-is_candidate :
      (c : ObjectName)
      → valid_string c.name ≡ true
      → IsBase leftover c
      → is_candidate leftover c ≡ true
  unfolding is_candidate
  IsBase-is_candidate c v b =
      let derived = (derives_leftover_iff c.name leftover.name v).1 b.derived in
      let schema = (str_eq_iff c.schema leftover.schema).1 b.same_schema in
      elim (Bool-cases (is_none (split_leftover c.name).kind)) [
        | inl original ↦ elim (Bool-cases (str_eq c.name leftover.name)) [
          | inl same ↦ absurd (b.other ((str_eq_iff c.name leftover.name).0 same))
          | inr other ↦ ground arith
        ]
        | inr left ↦ absurd (b.original ((split_leftover_iff c.name).0 left))
      ]

  -- The candidates that the loop counts.
  abbrev possible : List ObjectName → List ObjectName
  possible [] = []
  possible (c ∷ cs) = if is_candidate leftover c then c ∷ possible cs else possible cs

  possible-Bases :
      (cs : List ObjectName)
      → All (λ c. valid_string c.name ≡ true) cs
      → Bases leftover cs (possible cs)
  possible-Bases [] v = no_bases
  possible-Bases (c ∷ cs) v = elim (Bool-cases (is_candidate leftover c)) [
    | inl can ↦ rw can (kept (is_candidate-IsBase c v.0 can) (possible-Bases cs v.1))
    | inr out ↦ rw out (passed (λ b. cc (IsBase-is_candidate c v.0 b, out)) (possible-Bases cs v.1))
  ]

  -- The last of some candidates, or the one before them.
  abbrev last : List ObjectName → ObjectName → ObjectName
  last [] found = found
  last (c ∷ cs) found = last cs c

  scan-possible :
      (cs : List ObjectName) (found : ObjectName) (n : ℕ)
      → scan leftover cs found n ≡ (last (possible cs) found, n + length (possible cs))
  unfolding scan
  scan-possible [] found n = ground arith
  scan-possible (c ∷ cs) found n = elim (Bool-cases (is_candidate leftover c)) [
    | inl e ↦ rw (e, scan-possible cs c (n + 1)) (ground arith)
    | inr e ↦ rw (e, scan-possible cs found n)
  ]

  by_count-verdict :
      (l : List ObjectName) → by_count (last l (new_object_name [] [])) (0 + length l) ≡ verdict l
  unfolding by_count
  by_count-verdict [] = refl
  by_count-verdict (c ∷ []) = ground arith
  by_count-verdict (c ∷ d ∷ l) = ground arith

  -- Of candidates with names in valid UTF-8: a name that is no leftover's is reported as such. For a
  -- leftover's name the outcome is decided by the candidates that can be the base: other indexes of
  -- its schema that are no leftovers, and from whose name it is derived. None is unresolved, a
  -- single one is the base, and several are ambiguous.
  pub resolve_leftover_base-Bases :
      (cs : List ObjectName)
      → All (λ c. valid_string c.name ≡ true) cs
      → ((¬ IsLeftover leftover.name)
          × (resolve_leftover_base leftover cs ≡ (new_object_name [] [], leftover_not_a_name)))
        ⊎ (IsLeftover leftover.name
            × (bs : List ObjectName) × Bases leftover cs bs
            × (resolve_leftover_base leftover cs ≡ verdict bs))
  unfolding resolve_leftover_base
  resolve_leftover_base-Bases cs v =
      elim (Bool-cases (is_none (split_leftover leftover.name).kind)) [
        | inl e ↦ inl (λ l. cc (e, (split_leftover_iff leftover.name).1 l), rw e refl)
        | inr e ↦ inr (
          (split_leftover_iff leftover.name).0 e,
          possible cs,
          possible-Bases cs v,
          rw (e, scan-possible cs (new_object_name [] []) 0) (by_count-verdict (possible cs)),
        )
      ]
