-- ===== src/Protocol/ObjectName.antt =====
-- `ObjectName` of engine/protocol/types.go, and the two checks of engine/protocol/params.go that
-- every object name of a plan passes.
pub mod Parse
pub mod Quoting
use partitionctl.Base.{
  ℕ, ◌≡◌, ◌↔◌, ap, Bool, true, false, ◌&&◌, ◌||◌, not, ◌+◌, List, [], ◌∷◌, ◌++◌, Str, str_eq,
  str_eq_iff, is_empty, ◌==◌, none, some, Option, if◌then◌else◌, ◌▷◌, refuse, arith,
}
use partitionctl.Protocol.Errors.{GoError, err_invalid_identifier, foreign, opaque}
use partitionctl.Protocol.Quote.{validate_identifier, quote_qualified_name, quote_identifier}

pub record ObjectName : Type 0 where
  pub schema : Str
  pub name : Str

abbrev pub new_object_name : Str → Str → ObjectName
new_object_name s n = record { schema = s; name = n }

unfoldable pub string : ObjectName → Str
string o = if is_empty o.schema then o.name else o.schema ++ b'.' ∷ o.name

unfoldable pub quoted : ObjectName → Str
quoted o = quote_qualified_name (o.schema ∷ o.name ∷ [])

unfoldable pub is_zero : ObjectName → Bool
is_zero o = is_empty o.schema && is_empty o.name

-- Go's `==` on the struct.
unfoldable pub object_eq : ObjectName → ObjectName → Bool
object_eq a b = str_eq a.schema b.schema && str_eq a.name b.name

pub object_eq_iff : (a b : ObjectName) → (object_eq a b ≡ true) ↔ (a ≡ b)
unfolding object_eq
object_eq_iff a b = ground (arith, str_eq_iff a.schema b.schema, str_eq_iff a.name b.name)

unfoldable pub validate : ObjectName → Option GoError
validate o =
    (if is_empty o.schema then none else validate_identifier o.schema) ▷ validate_identifier o.name

-- `validateObject`: an error of `fmt.Errorf` without a cause is opaque, one with a cause is a chain
-- that has the kinds of its cause.
unfoldable pub validate_object : ObjectName → Option GoError
validate_object o = refuse (is_zero o) (foreign opaque) ▷ validate o

unfoldable pub validate_optional_object : Option ObjectName → Option GoError
validate_optional_object none = none
validate_optional_object (some o) = validate_object o

-- `strings.Count(s, c)` for a single byte.
unfoldable pub count_byte : ℕ → Str → ℕ
count_byte c [] = 0
count_byte c (d ∷ s) = count_byte c s + (if d == c then 1 else 0)

-- The text before and after the first `c`: `s[:i]` and `s[i+1:]` for `i = strings.IndexByte(s, c)`.
unfoldable pub before_byte : ℕ → Str → Str
before_byte c [] = []
before_byte c (d ∷ s) = let rest = before_byte c s in if d == c then [] else d ∷ rest

unfoldable pub after_byte : ℕ → Str → Str
after_byte c [] = []
after_byte c (d ∷ s) = let rest = after_byte c s in if d == c then s else rest

-- A result beside its error, where `none` is `nil`.
checked : ObjectName → Option GoError → ObjectName × Option GoError
checked o e = (o, e)

unfoldable pub parse_object_name : Str → ObjectName × Option GoError
unfolding checked
parse_object_name s =
    let bare = new_object_name [] s in
    let dotted = new_object_name (before_byte b'.' s) (after_byte b'.' s) in
    let zero_name = new_object_name [] [] in
    if count_byte b'.' s == 0
    then checked bare (validate bare)
    else if count_byte b'.' s == 1
    then (if is_empty dotted.schema
        then checked zero_name (some err_invalid_identifier)
        else checked dotted (validate dotted))
    else checked zero_name (some err_invalid_identifier)

-- `ValidateMaybeQualified` of engine/protocol/quote.go.
unfoldable pub validate_maybe_qualified : Str → Option GoError
unfolding parse_object_name
validate_maybe_qualified s =
    let (o, e) = parse_object_name s in
    if count_byte b'.' s == 0 then validate_identifier s else e ▷ validate o

-- `QuoteMaybeQualified` of engine/protocol/quote.go. Beside a single dot, the dot is the first byte
-- where nothing stands before it, and the last where nothing stands after it.
unfoldable pub quote_maybe_qualified : Str → Str
quote_maybe_qualified s =
    let schema = before_byte b'.' s in
    let name = after_byte b'.' s in
    if is_empty schema || (is_empty name || not (count_byte b'.' s == 1))
    then quote_identifier s
    else quote_identifier schema ++ b'.' ∷ quote_identifier name
