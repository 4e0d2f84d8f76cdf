-- ===== src/Protocol/ObjectName/Parse.antt =====
-- Printing and parsing an object name.
use partitionctl.Base.{ℕ, ◌≡◌, ◌+◌, [], ◌∷◌, ◌++◌, Str, none, arith}
use partitionctl.Protocol.ObjectName.{
  ObjectName, string, validate, count_byte, before_byte, after_byte, parse_object_name,
}

module _ (c : ℕ) where
  count-append : (s t : Str) → count_byte c (s ++ t) ≡ count_byte c s + count_byte c t
  unfolding count_byte
  count-append [] t = omega arith
  count-append (d ∷ s) t = omega (arith, count-append s t)

  before-append : (s t : Str) → count_byte c s ≡ 0 → before_byte c (s ++ c ∷ t) ≡ s
  unfolding before_byte count_byte
  before-append [] t h = ground arith
  before-append (d ∷ s) t h = ground (arith, before-append s t)

  after-append : (s t : Str) → count_byte c s ≡ 0 → after_byte c (s ++ c ∷ t) ≡ t
  unfolding after_byte count_byte
  after-append [] t h = ground arith
  after-append (d ∷ s) t h = ground (arith, after-append s t)

-- A valid object name, of whose parts none holds a dot, is parsed back from its printed form.
pub parse_object_name-string :
    (o : ObjectName)
    → validate o ≡ none
    → count_byte b'.' o.schema ≡ 0
    → count_byte b'.' o.name ≡ 0
    → parse_object_name (string o) ≡ (o, none)
unfolding parse_object_name string count_byte
parse_object_name-string o v hs hn = ground (
  arith,
  before-append b'.' o.schema o.name,
  after-append b'.' o.schema o.name,
  count-append b'.' o.schema (b'.' ∷ o.name),
)
