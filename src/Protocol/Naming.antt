-- ===== src/Protocol/Naming.antt =====
-- engine/protocol/naming.go, first half: the generated names of child indexes. SHA-256 is a
-- parameter of what uses it; base32, the framing of its input and UTF-8 are written out.
pub mod Tag
pub mod Collision
pub mod Truncate
pub mod Longest
use partitionctl.Base.{
  has_str, ℕ, zero, suc, ◌+◌, ◌-◌, ◌*◌, ◌/◌, ◌%◌, ◌^◌, Bool, true, false, not, ◌&&◌, ◌||◌, List, [],
  ◌∷◌, ◌++◌, map, Str, str_eq, codes, length, take, drop, ltb, leb, ◌==◌, none, some, Option,
  if◌then◌else◌,
}
use partitionctl.Base.Utf8.{rune_at, rune_len, encode_rune, valid_string}
use partitionctl.Protocol.Errors.{Result, ok, err, err_name_collision, ◌>>=◌}
use partitionctl.Protocol.Quote.{max_identifier_bytes}

abbrev pub child_name_domain : Str
child_name_domain = codes "partitionctl.childindex.v1"

abbrev pub child_name_tag_len : ℕ
child_name_tag_len = 12

-- `binary.BigEndian.PutUint64` of a length, then the bytes: `writeLengthPrefixed`.
unfoldable pub length_prefixed : Str → Str
length_prefixed b =
    let n = length b in
    (n / 2 ^ 56 % 256)
    ∷ (n / 2 ^ 48 % 256)
    ∷ (n / 2 ^ 40 % 256)
    ∷ (n / 2 ^ 32 % 256)
    ∷ (n / 2 ^ 24 % 256)
    ∷ (n / 2 ^ 16 % 256)
    ∷ (n / 2 ^ 8 % 256)
    ∷ (n % 256)
    ∷ b

-- The bits of some bytes, the highest first.
unfoldable pub bits : Str → List ℕ
bits [] = []
bits (b ∷ s) =
    (b / 128 % 2)
    ∷ (b / 64 % 2)
    ∷ (b / 32 % 2)
    ∷ (b / 16 % 2)
    ∷ (b / 8 % 2)
    ∷ (b / 4 % 2)
    ∷ (b / 2 % 2)
    ∷ (b % 2)
    ∷ bits s

-- RFC 4648's alphabet, `A` to `Z` and `2` to `7`, and `strings.ToLower` on a byte.
unfoldable pub base32_char : ℕ → ℕ
base32_char v = if ltb v 26 then v + b'A' else v - 26 + b'2'

unfoldable pub to_lower : ℕ → ℕ
to_lower c = if leb b'A' c && leb c b'Z' then c + 32 else c

-- One character for five bits; the last group is filled up with zeros, and there is no padding.
unfoldable pub base32_bits : List ℕ → Str
base32_bits [] = []
base32_bits (p ∷ []) = base32_char (p * 16) ∷ []
base32_bits (p ∷ q ∷ []) = base32_char (p * 16 + q * 8) ∷ []
base32_bits (p ∷ q ∷ r ∷ []) = base32_char (p * 16 + q * 8 + r * 4) ∷ []
base32_bits (p ∷ q ∷ r ∷ s ∷ []) = base32_char (p * 16 + q * 8 + r * 4 + s * 2) ∷ []
base32_bits (p ∷ q ∷ r ∷ s ∷ t ∷ rest) =
    base32_char (p * 16 + q * 8 + r * 4 + s * 2 + t) ∷ base32_bits rest

-- `truncateUTF8`: the runes of the text while their encodings fit; `skip` counts the bytes of the
-- current rune still to pass, `used` the bytes already written.
unfoldable pub truncate_from : ℕ → ℕ → ℕ → Str → Str
truncate_from skip used limit [] = []
truncate_from (suc skip) used limit (b ∷ s) = truncate_from skip used limit s
truncate_from zero used limit (b ∷ s) =
    let (r, k) = rune_at b s in
    let rest = truncate_from k (used + rune_len r) limit s in
    if ltb limit (used + rune_len r) then [] else encode_rune r ++ rest

unfoldable pub truncate_utf8 : Str → ℕ → Str
truncate_utf8 s max_bytes = truncate_from zero 0 max_bytes s

-- A lowercase base32 character.
abbrev pub is_base32 : ℕ → Bool
is_base32 c = (leb b'a' c && leb c b'z') || (leb b'2' c && leb c b'7')

unfoldable pub all_base32 : Str → Bool
all_base32 [] = true
all_base32 (c ∷ s) = is_base32 c && all_base32 s

unfoldable pub tagged_end : Str → Bool
tagged_end [] = false
tagged_end (c ∷ s) = c == b'_' && all_base32 s

-- The last 13 bytes are an underscore and a tag.
unfoldable pub looks_tagged : Str → Bool
looks_tagged s =
    if ltb (length s) (child_name_tag_len + 1)
    then false
    else tagged_end (drop (length s - (child_name_tag_len + 1)) s)

module _ (sha256 : Str → Str) where
  unfoldable pub child_index_tag : Str → Str → Str
  child_index_tag parent_index partition = map to_lower (
      take child_name_tag_len (
        base32_bits (
          bits (
            sha256 (
              length_prefixed child_name_domain
              ++ length_prefixed parent_index
              ++ length_prefixed partition)))))

  unfoldable pub child_index_name : Str → Str → Str
  child_index_name parent_index partition =
      let natural = parent_index ++ b'_' ∷ partition in
      let tag = child_index_tag parent_index partition in
      if leb (length natural) max_identifier_bytes
        && (valid_string natural && not (looks_tagged natural))
      then natural
      else truncate_utf8 natural (max_identifier_bytes - 1 - length tag) ++ b'_' ∷ tag

  -- The loop of `ChildIndexNames`; `seen` holds the names that were generated before.
  unfoldable pub names_from : Str → List Str → List Str → Result (List Str)
  names_from parent_index seen [] = ok []
  names_from parent_index seen (p ∷ partitions) =
      let name = child_index_name parent_index p in
      let others = names_from parent_index (name ∷ seen) partitions in
      if has_str seen name then err err_name_collision else others >>= λ names. ok (name ∷ names)

  unfoldable pub child_index_names : Str → List Str → Result (List Str)
  child_index_names parent_index partitions = names_from parent_index [] partitions
