-- ===== src/Protocol/Leftover/Derive.antt =====
-- `DerivesLeftover` against the rule by which PostgreSQL names a rebuilt index: the base is
-- truncated to make room, and the suffix is appended.
use partitionctl.Base.{
  ◌+◌, ◌-◌, ◌≤◌, ◌≡◌, ◌↔◌, ap, ◌∙◌, sym, true, ◌++◌, Str, str_eq_iff, str_eq_refl, length, arith,
  Bool-cases, inl, inr,
}
use partitionctl.Base.Utf8.{valid_string}
use partitionctl.Protocol.Quote.{max_identifier_bytes}
use partitionctl.Protocol.Naming.{truncate_utf8}
use partitionctl.Protocol.Naming.Truncate.{truncate_utf8_whole}
use partitionctl.Protocol.Naming.Longest.{
  IsLongestPrefix, truncate_utf8-IsLongestPrefix, IsLongestPrefix-unique,
}
use partitionctl.Protocol.Leftover.{LeftoverKind, is_none, split_leftover, derives_leftover}
use partitionctl.Protocol.Leftover.Split.{
  IsSuffix, suffix_is_some, split_leftover-append, split_leftover-parts,
}

-- PostgreSQL's rule for the name of a rebuilt index, with the text that the code takes for its
-- number: the longest prefix of the base that splits no rune and leaves room for the suffix, and
-- behind it `_ccnew` or `_ccold` with any decimal digits.
pub record IsDerived (base leftover : Str) : Type 0 where
  pub kind : LeftoverKind
  pub suffix : Str
  pub is_suffix : IsSuffix kind suffix
  pub front : Str
  pub is_front : IsLongestPrefix base (max_identifier_bytes - length suffix) front
  pub made : leftover ≡ front ++ suffix

derives_made :
    (base : Str) {k : LeftoverKind} {suffix : Str}
    → IsSuffix k suffix
    → derives_leftover base (truncate_utf8 base (max_identifier_bytes - length suffix) ++ suffix)
      ≡ true
unfolding derives_leftover
derives_made base {suffix = s} h = rw (
  split_leftover-append (truncate_utf8 base (max_identifier_bytes - length s)) h,
  suffix_is_some h,
  str_eq_refl,
)

derives_sound :
    (base leftover : Str)
    → valid_string base ≡ true
    → derives_leftover base leftover ≡ true
    → IsDerived base leftover
unfolding derives_leftover
derives_sound base leftover v h = elim (Bool-cases (is_none (split_leftover leftover).kind)) [
  | inl n ↦ cc (rw n at h)
  | inr y ↦ record {
    kind = (split_leftover leftover).kind;
    suffix = (split_leftover leftover).suffix;
    is_suffix = (split_leftover-parts leftover y).0;
    front = _;
    is_front = truncate_utf8-IsLongestPrefix base _ v;
    made = sym ((str_eq_iff _ _).0 (rw y at h));
  }
]

-- Of a base in valid UTF-8, `DerivesLeftover` holds exactly of the names that begin with its longest
-- prefix that splits no rune and leaves room for the suffix within 63 bytes, the empty prefix where
-- the suffix fills them, and end with the suffix: `_ccnew` or `_ccold`, and any decimal digits.
pub derives_leftover_iff :
    (base leftover : Str)
    → valid_string base ≡ true
    → (derives_leftover base leftover ≡ true) ↔ IsDerived base leftover
derives_leftover_iff base leftover v = (
  derives_sound base leftover v,
  λ d.
      let room = max_identifier_bytes - length d.suffix in
      let front =
        IsLongestPrefix-unique base room d.front _ d.is_front
          (truncate_utf8-IsLongestPrefix base room v) in
      ap (derives_leftover base) (d.made ∙ ap (λ t. t ++ d.suffix) front)
      ∙ derives_made base d.is_suffix,
)

-- A base in valid UTF-8 that leaves room for the suffix is recovered by trimming the suffix off,
-- and it derives the name.
pub split_leftover-short :
    (base : Str) {k : LeftoverKind} {suffix : Str}
    → IsSuffix k suffix
    → valid_string base ≡ true
    → length base + length suffix ≤ max_identifier_bytes
    → (split_leftover (base ++ suffix) ≡ record { kind = k; stem = base; suffix = suffix })
      × (derives_leftover base (base ++ suffix) ≡ true)
split_leftover-short base {suffix = s} h v fits =
    let whole = truncate_utf8_whole base (max_identifier_bytes - length s) v (omega arith) in
    (
      split_leftover-append base h,
      ap (λ t. derives_leftover base (t ++ s)) (sym whole) ∙ derives_made base h,
    )
