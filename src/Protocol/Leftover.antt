-- ===== src/Protocol/Leftover.antt =====
-- engine/protocol/naming.go, second half: the transient names that REINDEX CONCURRENTLY leaves, and
-- the index such a name was derived from.
pub mod Split
pub mod Derive
pub mod Resolve
use partitionctl.Base.{
  ℕ, zero, suc, ◌+◌, ◌-◌, Bool, true, false, not, ◌&&◌, ◌||◌, List, [], ◌∷◌, ◌++◌, Str, str_eq,
  codes, length, take, drop, leb, ◌==◌, if◌then◌else◌,
}
use partitionctl.Protocol.Quote.{max_identifier_bytes}
use partitionctl.Protocol.ObjectName.{ObjectName, new_object_name}
use partitionctl.Protocol.Naming.{truncate_utf8}

abbrev pub leftover_new_prefix : Str
leftover_new_prefix = codes "_ccnew"

abbrev pub leftover_old_prefix : Str
leftover_old_prefix = codes "_ccold"

pub data LeftoverKind : Type 0 where
  leftover_none leftover_new leftover_old : LeftoverKind

-- `kind == LeftoverNone`.
abbrev pub is_none : LeftoverKind → Bool
is_none leftover_none = true
is_none _ = false

abbrev pub is_digit : ℕ → Bool
is_digit c = leb b'0' c && leb c b'9'

-- `strings.TrimRight(s, "0123456789")`: a digit goes where nothing is left behind it.
abbrev pub cons_unless_trimmed : ℕ → Str → Str
cons_unless_trimmed c [] = if is_digit c then [] else c ∷ []
cons_unless_trimmed c (d ∷ s) = c ∷ d ∷ s

unfoldable pub trim_digits : Str → Str
trim_digits [] = []
trim_digits (c ∷ s) = cons_unless_trimmed c (trim_digits s)

-- `strings.HasSuffix` and `strings.TrimSuffix`.
unfoldable pub has_suffix : Str → Str → Bool
has_suffix s p = leb (length p) (length s) && str_eq (drop (length s - length p) s) p

unfoldable pub trim_suffix : Str → Str → Str
trim_suffix s p = if has_suffix s p then take (length s - length p) s else s

pub record SplitName : Type 0 where
  pub kind : LeftoverKind
  pub stem : Str
  pub suffix : Str

unfoldable pub split_leftover : Str → SplitName
split_leftover index_name =
    let trimmed = trim_digits index_name in
    let digits = drop (length trimmed) index_name in
    if has_suffix trimmed leftover_new_prefix
    then record {
      kind = leftover_new;
      stem = trim_suffix trimmed leftover_new_prefix;
      suffix = leftover_new_prefix ++ digits;
    }
    else if has_suffix trimmed leftover_old_prefix
    then record {
      kind = leftover_old;
      stem = trim_suffix trimmed leftover_old_prefix;
      suffix = leftover_old_prefix ++ digits;
    }
    else record { kind = leftover_none; stem = index_name; suffix = [] }

unfoldable pub classify_leftover : Str → LeftoverKind × Str
classify_leftover index_name = let s = split_leftover index_name in (s.kind, s.stem)

-- Truncated subtraction is the test `budget < 0`.
unfoldable pub derives_leftover : Str → Str → Bool
derives_leftover base leftover =
    let s = split_leftover leftover in
    if is_none s.kind
    then false
    else str_eq (truncate_utf8 base (max_identifier_bytes - length s.suffix) ++ s.suffix) leftover

pub data LeftoverResolution : Type 0 where
  leftover_not_a_name leftover_resolved leftover_ambiguous leftover_unresolved : LeftoverResolution

-- The guards of the loop over the candidates.
unfoldable pub is_candidate : ObjectName → ObjectName → Bool
is_candidate leftover c =
    not (not (str_eq c.schema leftover.schema) || str_eq c.name leftover.name)
    && (is_none (split_leftover c.name).kind && derives_leftover c.name leftover.name)

-- The loop: the last candidate that derives the name, and how many do.
unfoldable pub scan : ObjectName → List ObjectName → ObjectName → ℕ → ObjectName × ℕ
scan leftover [] found n = (found, n)
scan leftover (c ∷ candidates) found n =
    scan leftover candidates (if is_candidate leftover c then c else found)
      (if is_candidate leftover c then n + 1 else n)

-- The `switch` on the count.
unfoldable pub by_count : ObjectName → ℕ → ObjectName × LeftoverResolution
by_count found n =
    if n == 0
    then (new_object_name [] [], leftover_unresolved)
    else if n == 1
    then (found, leftover_resolved)
    else (new_object_name [] [], leftover_ambiguous)

unfoldable pub resolve_leftover_base :
    ObjectName → List ObjectName → ObjectName × LeftoverResolution
resolve_leftover_base leftover candidates =
    let (found, n) = scan leftover candidates (new_object_name [] []) 0 in
    if is_none (split_leftover leftover.name).kind
    then (new_object_name [] [], leftover_not_a_name)
    else by_count found n
