-- ===== src/Protocol/Quote.antt =====
-- engine/protocol/quote.go: quoting of identifiers and literals, and what an identifier may be.
pub mod Lexer
use partitionctl.Base.{
  ◌≡◌, arith, ℕ, Bool, true, false, not, ◌&&◌, ◌||◌, List, [], ◌∷◌, ◌++◌, Str, codes, is_empty,
  length, ◌==◌, ltb, none, some, Option, if◌then◌else◌, ◌-◌, ◌▷◌, refuse,
}
use partitionctl.Base.Utf8.{valid_string}
use partitionctl.Protocol.Errors.{GoError, err_invalid_identifier, err_invalid_plan}

abbrev pub max_identifier_bytes : ℕ
max_identifier_bytes = 63

-- `strings.ReplaceAll(s, q, qq)` for a single byte `q`.
unfoldable pub double_byte : ℕ → Str → Str
double_byte q [] = []
double_byte q (c ∷ s) = let rest = double_byte q s in if c == q then q ∷ q ∷ rest else c ∷ rest

unfoldable pub quote_identifier : Str → Str
quote_identifier s = b'"' ∷ double_byte b'"' s ++ b'"' ∷ []

-- 39 is the apostrophe.
unfoldable pub quote_literal : Str → Str
quote_literal s = 39 ∷ double_byte 39 s ++ 39 ∷ []

-- `strings.Join(quoted, ".")` over the quoted parts that are not empty.
join_dotted : List Str → Str
join_dotted [] = []
join_dotted (p ∷ []) = p
join_dotted (p ∷ q ∷ rest) = p ++ b'.' ∷ join_dotted (q ∷ rest)

quoted_parts : List Str → List Str
unfolding quote_identifier
quoted_parts [] = []
quoted_parts (p ∷ rest) =
    let others = quoted_parts rest in if is_empty p then others else quote_identifier p ∷ others

unfoldable pub quote_qualified_name : List Str → Str
unfolding join_dotted quoted_parts
quote_qualified_name parts = join_dotted (quoted_parts parts)

pub quote_qualified_name-pair :
    (schema name : Str)
    → is_empty schema ≡ false
    → is_empty name ≡ false
    → quote_qualified_name (schema ∷ name ∷ [])
      ≡ quote_identifier schema ++ b'.' ∷ quote_identifier name
unfolding quote_qualified_name quoted_parts join_dotted
quote_qualified_name-pair schema name h k = ground arith

pub quote_qualified_name-bare :
    (name : Str)
    → is_empty name ≡ false
    → quote_qualified_name ([] ∷ name ∷ []) ≡ quote_identifier name
unfolding quote_qualified_name quoted_parts join_dotted
quote_qualified_name-bare name h = ground arith

-- `strings.IndexByte(s, c) >= 0`.
unfoldable pub has_byte : ℕ → Str → Bool
has_byte c [] = false
has_byte c (d ∷ s) = d == c || has_byte c s

unfoldable pub validate_identifier : Str → Option GoError
validate_identifier s =
    refuse (is_empty s) err_invalid_identifier
    ▷ refuse (ltb max_identifier_bytes (length s)) err_invalid_identifier
    ▷ refuse (not (valid_string s)) err_invalid_identifier
    ▷ refuse (has_byte 0 s) err_invalid_identifier

unfoldable pub validate_sql_fragment : Str → Option GoError
validate_sql_fragment s =
    refuse (is_empty s) err_invalid_plan
    ▷ refuse (not (valid_string s)) err_invalid_plan
    ▷ refuse (has_byte 0 s) err_invalid_plan

-- `ValidateSimpleIdentifier`.
unfoldable pub validate_simple_identifier : Str → Option GoError
validate_simple_identifier s =
    validate_identifier s ▷ refuse (has_byte b'.' s) err_invalid_identifier
