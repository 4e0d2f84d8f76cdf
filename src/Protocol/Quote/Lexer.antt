-- ===== src/Protocol/Quote/Lexer.antt =====
-- How PostgreSQL reads a quoted token: up to the first quote that is not doubled; a doubled quote
-- stands for one. What the code quotes is read back whole, and ends exactly where it was closed.
use partitionctl.Base.{
  Bool, false, not, ◌&&◌, leb, length, is_empty, ℕ, ◌≡◌, ◌≢◌, [], ◌∷◌, Str, ◌==◌, none, some,
  Option, if◌then◌else◌,
}
use partitionctl.Protocol.Quote.{quote_identifier, quote_literal, has_byte, validate_identifier}

abbrev pub add : ℕ → Option (Str × Str) → Option (Str × Str)
add c none = none
add c (some (t, rest)) = some (c ∷ t, rest)

-- The body of a token after its opening quote `q`: the text it stands for, and what follows it.
unfoldable mutual
  pub read_body : ℕ → Str → Option (Str × Str)
  read_body q [] = none
  read_body q (c ∷ s) = if c == q then after_quote q s else add c (read_body q s)

  pub after_quote : ℕ → Str → Option (Str × Str)
  after_quote q [] = some ([], [])
  after_quote q (d ∷ s) = if d == q then add q (read_body q s) else some ([], d ∷ s)

-- The text does not go on with the byte `q`.
abbrev pub StopsBefore : ℕ → Str → Type 0
StopsBefore q [] = Unit
StopsBefore q (c ∷ s) = c ≢ q

-- A whole token: its opening quote, its body, and what follows.
unfoldable pub read_quoted : ℕ → Str → Option (Str × Str)
read_quoted q [] = none
read_quoted q (c ∷ s) = if c == q then read_body q s else none

pub data Quoting : Type 0 where
  identifier literal : Quoting

abbrev pub mark : Quoting → ℕ
mark identifier = b'"'
mark literal = 39

abbrev pub quote : Quoting → Str → Str
quote identifier = quote_identifier
quote literal = quote_literal

-- What PostgreSQL keeps as it stands: no text with a zero byte, and of the names those that are not
-- empty and have at most 63 bytes; it refuses an empty name, and truncates a longer one.
abbrev pub keeps : Quoting → Str → Bool
keeps identifier s = not (has_byte 0 s) && (not (is_empty s) && leb (length s) 63)
keeps literal s = not (has_byte 0 s)

abbrev pub kept : Quoting → Option (Str × Str) → Option (Str × Str)
kept k none = none
kept k (some (t, rest)) = if keeps k t then some (t, rest) else none

-- A token as PostgreSQL reads it, where it keeps the text; and what follows the token.
unfoldable pub read_token : Quoting → Str → Option (Str × Str)
unfolding read_quoted
read_token k s = kept k (read_quoted (mark k) s)

-- What may be quoted: a name that `ValidateIdentifier` accepts, and a text without a zero byte.
abbrev pub IsQuotable : Quoting → Str → Type 0
IsQuotable identifier s = validate_identifier s ≡ none
IsQuotable literal s = has_byte 0 s ≡ false
