-- ===== src/Protocol/Params/Definition.antt =====
-- `IndexDefinition` and `IndexColumn` of engine/protocol/params.go. An error of `fmt.Errorf` is
-- opaque where it has no cause, and its cause where it has one.
use partitionctl.Base.{
  Bool, not, ◌&&◌, List, [], ◌∷◌, Str, is_empty, none, some, Option, if◌then◌else◌, ◌▷◌, refuse,
}
use partitionctl.Protocol.Errors.{GoError, foreign, opaque}
use partitionctl.Protocol.Quote.{
  validate_identifier, validate_sql_fragment, validate_simple_identifier,
}
use partitionctl.Protocol.ObjectName.{validate_maybe_qualified}

pub record IndexColumn : Type 0 where
  pub name : Str
  pub expression : Str
  pub collation : Str
  pub op_class : Str
  pub descending : Bool
  pub nulls_first : Option Bool

-- `if s != "" { check(s) }`.
abbrev pub unless_empty : Str → (Str → Option GoError) → Option GoError
unless_empty [] check = none
unless_empty (c ∷ s) check = check (c ∷ s)

unfoldable pub validate_column : IndexColumn → Option GoError
validate_column c =
    (if is_empty c.name && is_empty c.expression
      then some (foreign opaque)
      else if not (is_empty c.name) && not (is_empty c.expression)
      then some (foreign opaque)
      else if not (is_empty c.name)
      then validate_identifier c.name
      else validate_sql_fragment c.expression)
    ▷ unless_empty c.collation validate_maybe_qualified
    ▷ unless_empty c.op_class validate_maybe_qualified

pub record IndexDefinition : Type 0 where
  pub method : Str
  pub columns : List IndexColumn
  pub unique : Bool
  pub include : List Str
  pub where' : Str
  pub tablespace : Str
  pub storage_params : List (Str × Str)

-- A loop that stops at the first error.
abbrev pub first_error {ℓ} : {A : Type ℓ} → (A → Option GoError) → List A → Option GoError
first_error check [] = none
first_error check (x ∷ xs) = check x ▷ first_error check xs

abbrev pub no_elements {ℓ} : {A : Type ℓ} → List A → Bool
no_elements [] = Bool.true
no_elements (x ∷ xs) = Bool.false

-- The storage parameters are in the order in which the map is walked; all errors are of one kind.
unfoldable pub validate_definition : IndexDefinition → Option GoError
unfolding validate_column
validate_definition d =
    unless_empty d.method validate_simple_identifier
    ▷ refuse (no_elements d.columns) (foreign opaque)
    ▷ first_error validate_column d.columns
    ▷ first_error validate_identifier d.include
    ▷ unless_empty d.where' validate_sql_fragment
    ▷ unless_empty d.tablespace validate_identifier
    ▷ first_error (λ p. validate_identifier p.0) d.storage_params
