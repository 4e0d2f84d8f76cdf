-- ===== src/Protocol/ObjectName/Quoting.antt =====
-- Quoting a name that may carry a schema, beside quoting the object that it is parsed to.
use partitionctl.Base.{◌≡◌, arith, false, is_empty, Str, none}
use partitionctl.Protocol.Quote.{
  validate_identifier, quote_qualified_name-pair, quote_qualified_name-bare,
}
use partitionctl.Protocol.ObjectName.{
  quoted, validate, before_byte, after_byte, parse_object_name, validate_maybe_qualified,
  quote_maybe_qualified,
}

validate_identifier-filled : (s : Str) → validate_identifier s ≡ none → is_empty s ≡ false
unfolding validate_identifier
validate_identifier-filled s h = ground arith

-- A name that `ValidateMaybeQualified` accepts is quoted as the object name is that
-- `ParseObjectName` makes of it: its schema, if it has one, and its name are quoted apart.
pub quote_maybe_qualified-quoted :
    (s : Str)
    → validate_maybe_qualified s ≡ none
    → quote_maybe_qualified s ≡ quoted (parse_object_name s).0
unfolding quote_maybe_qualified validate_maybe_qualified parse_object_name quoted validate
quote_maybe_qualified-quoted s v = ground (
  arith,
  validate_identifier-filled s,
  validate_identifier-filled (before_byte b'.' s),
  validate_identifier-filled (after_byte b'.' s),
  quote_qualified_name-bare s,
  quote_qualified_name-pair (before_byte b'.' s) (after_byte b'.' s),
)
