-- ===== src/Protocol/Naming/Collision.antt =====
-- Generated child index names: their length, and when two of them are equal.
use partitionctl.Base.{
  ℕ, ◌-◌, ◌≤◌, ◌≡◌, ◌≢◌, refl, ap, ◌∙◌, sym, Bool, true, false, not, ◌&&◌, List, [], ◌∷◌, ◌++◌, map,
  Str, length, leb, arith, length-append, Bool-cases, inl, inr, ◌⊎◌, drop, has_str, has_str-Fresh,
  has_str_not-Fresh, Fresh, Distinct, All,
}
use partitionctl.Base.Utf8.{valid_string}
use partitionctl.Protocol.Errors.{Result, ok, err, err_name_collision}
use partitionctl.Protocol.Quote.{max_identifier_bytes}
use partitionctl.Protocol.Naming.{
  looks_tagged, truncate_utf8, child_index_tag, child_index_name, names_from, child_index_names,
}
use partitionctl.Protocol.Naming.Tag.{
  length-child_index_tag, child_index_tag-base32, looks_tagged-append, drop-length,
}
use partitionctl.Protocol.Naming.Truncate.{length-truncate_utf8}

cancel_front : (s t u : Str) → s ++ t ≡ s ++ u → t ≡ u
cancel_front [] t u e = e
cancel_front (c ∷ s) t u e = cancel_front s t u (cc e)

same_end : (c : ℕ) (s s' t t' : Str) → length t ≡ length t' → s ++ c ∷ t ≡ s' ++ c ∷ t' → t ≡ t'
same_end c s s' t t' h e =
    let len : length s ≡ length s' =
      omega (arith, ap (λ l. length l) e, length-append s (c ∷ t), length-append s' (c ∷ t')) in
    let tails : c ∷ t ≡ c ∷ t' =
      sym (drop-length s (c ∷ t))
      ∙ ap (drop (length s)) e
      ∙ ap (λ n. drop n (s' ++ c ∷ t')) len
      ∙ drop-length s' (c ∷ t') in
    cc tails

same_front : (c : ℕ) (s s' t : Str) → s ++ c ∷ t ≡ s' ++ c ∷ t → s ≡ s'
same_front c [] [] t e = refl
same_front c [] (d ∷ s') t e =
    absurd (omega (arith, ap (λ l. length l) e, length-append s' (c ∷ t)))
same_front c (d ∷ s) [] t e = absurd (omega (arith, ap (λ l. length l) e, length-append s (c ∷ t)))
same_front c (d ∷ s) (d' ∷ s') t e =
    let h : d ≡ d' = cc in let rest = same_front c s s' t (cc e) in cc

-- The test that decides between the two forms of a name.
abbrev plain : Str → Bool
plain natural =
    leb (length natural) max_identifier_bytes
    && (valid_string natural && not (looks_tagged natural))

-- A natural name stands as it is: it fits, it is valid UTF-8, and it does not end in an underscore
-- and a tag.
abbrev pub IsNatural : Str → Str → Type 0
IsNatural parent partition =
    let natural = parent ++ b'_' ∷ partition in
    (length natural ≤ max_identifier_bytes)
    × (valid_string natural ≡ true)
    × (looks_tagged natural ≡ false)

plain-IsNatural : (parent x : Str) → plain (parent ++ b'_' ∷ x) ≡ true → IsNatural parent x
plain-IsNatural parent x h = ground arith

plain-not_IsNatural : (parent x : Str) → plain (parent ++ b'_' ∷ x) ≡ false → ¬ IsNatural parent x
plain-not_IsNatural parent x h (fits, valid, bare) = ground arith

plain-not_tagged : (s : Str) → plain s ≡ true → looks_tagged s ≡ false
plain-not_tagged s h = ground arith

module _ (sha256 : Str → Str) (size : (s : Str) → length (sha256 s) ≡ 32) where
  -- A generated name is an identifier that PostgreSQL does not truncate: at most 63 bytes.
  pub length-child_index_name :
      (parent partition : Str)
      → length (child_index_name sha256 parent partition) ≤ max_identifier_bytes
  unfolding child_index_name
  length-child_index_name parent partition =
      let natural = parent ++ b'_' ∷ partition in
      let tag = child_index_tag sha256 parent partition in
      let front = truncate_utf8 natural (max_identifier_bytes - 1 - length tag) in
      ground (
        arith,
        length-truncate_utf8 natural (max_identifier_bytes - 1 - length tag),
        length-append front (b'_' ∷ tag),
        length-child_index_tag sha256 size parent partition,
      )

  child_index_tag-equal :
      (parent x y a b : Str)
      → a ++ b'_' ∷ child_index_tag sha256 parent x ≡ b ++ b'_' ∷ child_index_tag sha256 parent y
      → child_index_tag sha256 parent x ≡ child_index_tag sha256 parent y
  child_index_tag-equal parent x y a b e =
      same_end b'_' a b _ _
        (length-child_index_tag sha256 size parent x
          ∙ sym (length-child_index_tag sha256 size parent y))
        e

  -- The text before the tag.
  abbrev pub tag_front : Str → Str → Str
  tag_front parent partition =
      truncate_utf8 (parent ++ b'_' ∷ partition)
        (max_identifier_bytes - 1 - length (child_index_tag sha256 parent partition))

  tagged_equal :
      (parent x y : Str)
      → tag_front parent x ++ b'_' ∷ child_index_tag sha256 parent x
        ≡ tag_front parent y ++ b'_' ∷ child_index_tag sha256 parent y
      → (tag_front parent x ≡ tag_front parent y)
        × (child_index_tag sha256 parent x ≡ child_index_tag sha256 parent y)
  tagged_equal parent x y e =
      let tags = child_index_tag-equal parent x y _ _ e in
      (same_front b'_' _ _ _ (e ∙ ap (λ t. tag_front parent y ++ b'_' ∷ t) (sym tags)), tags)

  tagged_form :
      (parent x a : Str) → looks_tagged (a ++ b'_' ∷ child_index_tag sha256 parent x) ≡ true
  tagged_form parent x a =
      looks_tagged-append a _ (length-child_index_tag sha256 size parent x)
        (child_index_tag-base32 sha256 size parent x)

  plain-not_form :
      (parent x natural a : Str)
      → plain natural ≡ true
      → natural ≢ a ++ b'_' ∷ child_index_tag sha256 parent x
  plain-not_form parent x natural a p e =
      cc (plain-not_tagged natural p, ap looks_tagged e, tagged_form parent x a)

  -- Two partitions get one name under one parent only if both names are natural or both are tagged;
  -- in the first case the partitions are the same, and in the second their 60-bit tags are equal,
  -- and the truncated texts before the tags. A name is natural if it has at most 63 bytes, is valid
  -- UTF-8 and does not end as a tagged name does.
  pub child_index_name-collision :
      (parent x y : Str)
      → child_index_name sha256 parent x ≡ child_index_name sha256 parent y
      → (IsNatural parent x × IsNatural parent y × (x ≡ y))
        ⊎ ((¬ IsNatural parent x)
            × (¬ IsNatural parent y)
            × (child_index_tag sha256 parent x ≡ child_index_tag sha256 parent y)
            × (tag_front parent x ≡ tag_front parent y))
  unfolding child_index_name
  child_index_name-collision parent x y e = elim (Bool-cases (plain (parent ++ b'_' ∷ x))) [
    | inl px ↦ elim (Bool-cases (plain (parent ++ b'_' ∷ y))) [
      | inl py ↦
          let tails = cancel_front parent (b'_' ∷ x) (b'_' ∷ y) (rw (px, py) at e) in
          inl (plain-IsNatural parent x px, plain-IsNatural parent y py, cc tails)
      | inr ty ↦ absurd (plain-not_form parent y _ _ px (rw (px, ty) at e))
    ]
    | inr tx ↦ elim (Bool-cases (plain (parent ++ b'_' ∷ y))) [
      | inl py ↦ absurd (plain-not_form parent x _ _ py (sym (rw (tx, py) at e)))
      | inr ty ↦
          let (fronts, tags) = tagged_equal parent x y (rw (tx, ty) at e) in
          inr (plain-not_IsNatural parent x tx, plain-not_IsNatural parent y ty, tags, fronts)
    ]
  ]

All-unseen : (l : List Str) → All (λ n. Fresh n []) l
All-unseen [] = tt
All-unseen (n ∷ l) = (tt, All-unseen l)

-- New names clash neither with one another nor with those that were seen.
record IsClear (seen names : List Str) : Type 0 where
  distinct : Distinct names
  unseen : All (λ n. Fresh n seen) names

IsClear-cons :
    (seen : List Str) (name : Str) (names : List Str)
    → Fresh name seen
    → IsClear (name ∷ seen) names
    → IsClear seen (name ∷ names)
IsClear-cons seen name names f c = record {
  distinct = (apart names c.unseen, c.distinct);
  unseen = (f, rest names c.unseen);
}
  where
    apart : (l : List Str) → All (λ n. Fresh n (name ∷ seen)) l → Fresh name l
    apart [] h = tt
    apart (n ∷ l) h = ((λ e. h.0.0 (sym e)), apart l h.1)

    rest : (l : List Str) → All (λ n. Fresh n (name ∷ seen)) l → All (λ n. Fresh n seen) l
    rest [] h = tt
    rest (n ∷ l) h = (h.0.1, rest l h.1)

IsClear-uncons :
    (seen : List Str) (name : Str) (names : List Str)
    → IsClear seen (name ∷ names)
    → IsClear (name ∷ seen) names
IsClear-uncons seen name names c = record {
  distinct = c.distinct.1;
  unseen = join names c.distinct.0 c.unseen.1;
}
  where
    join :
        (l : List Str)
        → Fresh name l
        → All (λ n. Fresh n seen) l
        → All (λ n. Fresh n (name ∷ seen)) l
    join [] f h = tt
    join (n ∷ l) f h = (((λ e. f.0 (sym e)), h.0), join l f.1 h.1)

module _ (sha256 : Str → Str) (parent : Str) where
  abbrev generated : List Str → List Str
  generated = map (child_index_name sha256 parent)

  abbrev Outcome : List Str → List Str → Result (List Str) → Type 0
  Outcome seen ps r =
      (IsClear seen (generated ps) × (r ≡ ok (generated ps)))
      ⊎ ((¬ IsClear seen (generated ps)) × (r ≡ err err_name_collision))

  names_from-Outcome : (seen ps : List Str) → Outcome seen ps (names_from sha256 parent seen ps)
  unfolding names_from
  names_from-Outcome seen [] = inl (record { distinct = tt; unseen = tt }, refl)
  names_from-Outcome seen (p ∷ ps) =
      let name = child_index_name sha256 parent p in
      elim (Bool-cases (has_str seen name)) [
        | inl dup ↦ inr ((λ c. has_str_not-Fresh seen name dup c.unseen.0), rw dup)
        | inr new ↦
            let f = has_str-Fresh seen name new in
            elim (names_from-Outcome (name ∷ seen) ps) [
              | inl (c, e) ↦ inl (IsClear-cons seen name (generated ps) f c, rw (new, e))
              | inr (n, e) ↦ inr ((λ c. n (IsClear-uncons seen name (generated ps) c)), rw (new, e))
            ]
      ]

  -- `ChildIndexNames` returns the generated name of every partition, in their order, exactly when
  -- no two of these names are equal; otherwise it returns the error of a name collision.
  pub child_index_names-outcome :
      (ps : List Str)
      → (Distinct (map (child_index_name sha256 parent) ps)
          × (child_index_names sha256 parent ps ≡ ok (map (child_index_name sha256 parent) ps)))
        ⊎ ((¬ Distinct (map (child_index_name sha256 parent) ps))
            × (child_index_names sha256 parent ps ≡ err err_name_collision))
  unfolding child_index_names
  child_index_names-outcome ps = elim (names_from-Outcome [] ps) [
    | inl (c, e) ↦ inl (c.distinct, e)
    | inr (n, e) ↦ inr ((λ d. n (record { distinct = d; unseen = All-unseen _ })), e)
  ]
