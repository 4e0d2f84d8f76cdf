-- ===== src/Protocol/Naming/Tag.antt =====
-- The tag: twelve lowercase base32 characters, which `looksTagged` recognizes after any text.
use partitionctl.Base.{
  ℕ, zero, suc, ◌+◌, ◌-◌, ◌*◌, ◌%◌, ◌≤◌, ◌<◌, ◌≡◌, refl, ap, true, false, List, [], ◌∷◌, ◌++◌, map,
  Str, length, take, drop, ltb, arith, All, length-append,
}
use partitionctl.Protocol.Naming.{
  child_name_tag_len, bits, base32_char, to_lower, base32_bits, is_base32, all_base32, tagged_end,
  looks_tagged, child_index_tag,
}

length-bits : (s : Str) → length (bits s) ≡ 8 * length s
unfolding bits
length-bits [] = omega arith
length-bits (b ∷ s) = omega (arith, length-bits s)

abbrev IsBits : List ℕ → Type 0
IsBits = All (λ b. b ≤ 1)

bits-IsBits : (s : Str) → IsBits (bits s)
unfolding bits
bits-IsBits [] = tt
bits-IsBits (b ∷ s) =
    let rest = bits-IsBits s in
    (bit _, (bit _, (bit _, (bit _, (bit _, (bit _, (bit _, (bit _, rest))))))))
  where
    bit : (n : ℕ) → n % 2 ≤ 1
    bit n = omega arith

length-base32_bits : (l : List ℕ) → length l ≤ 5 * length (base32_bits l)
unfolding base32_bits
length-base32_bits [] = omega arith
length-base32_bits (p ∷ []) = omega arith
length-base32_bits (p ∷ q ∷ []) = omega arith
length-base32_bits (p ∷ q ∷ r ∷ []) = omega arith
length-base32_bits (p ∷ q ∷ r ∷ s ∷ []) = omega arith
length-base32_bits (p ∷ q ∷ r ∷ s ∷ t ∷ rest) = omega (arith, length-base32_bits rest)

-- The lowercase form of a character of the alphabet.
lower_char : (v : ℕ) → v < 32 → is_base32 (to_lower (base32_char v)) ≡ true
unfolding to_lower base32_char
lower_char v h = ground arith

all_base32-map : (l : List ℕ) → IsBits l → all_base32 (map to_lower (base32_bits l)) ≡ true
unfolding all_base32 base32_bits
all_base32-map [] h = refl
all_base32-map (p ∷ []) h = rw (lower_char (p * 16) (omega arith))
all_base32-map (p ∷ q ∷ []) h = rw (lower_char (p * 16 + q * 8) (omega arith))
all_base32-map (p ∷ q ∷ r ∷ []) h = rw (lower_char (p * 16 + q * 8 + r * 4) (omega arith))
all_base32-map (p ∷ q ∷ r ∷ s ∷ []) h =
    rw (lower_char (p * 16 + q * 8 + r * 4 + s * 2) (omega arith))
all_base32-map (p ∷ q ∷ r ∷ s ∷ t ∷ rest) h =
    rw (lower_char (p * 16 + q * 8 + r * 4 + s * 2 + t) (omega arith))
      (all_base32-map rest h.1.1.1.1.1)

all_base32-map-take :
    (n : ℕ) (s : Str)
    → all_base32 (map to_lower s) ≡ true
    → all_base32 (map to_lower (take n s)) ≡ true
unfolding all_base32
all_base32-map-take zero s h = refl
all_base32-map-take (suc n) [] h = refl
all_base32-map-take (suc n) (c ∷ s) h = ground (arith, all_base32-map-take n s)

length-map-take : (f : ℕ → ℕ) (n : ℕ) (s : Str) → n ≤ length s → length (map f (take n s)) ≡ n
length-map-take f zero s h = refl
length-map-take f (suc n) [] h = absurd (omega arith)
length-map-take f (suc n) (c ∷ s) h = ap suc (length-map-take f n s (omega arith))

pub drop-length : (s t : Str) → drop (length s) (s ++ t) ≡ t
drop-length [] t = refl
drop-length (c ∷ s) t = drop-length s t

-- A text that ends in an underscore and a tag looks tagged.
pub looks_tagged-append :
    (s t : Str)
    → length t ≡ child_name_tag_len
    → all_base32 t ≡ true
    → looks_tagged (s ++ b'_' ∷ t) ≡ true
unfolding looks_tagged tagged_end
looks_tagged-append s t hl ht =
    let long : length (s ++ b'_' ∷ t) ≡ length s + 13 = omega (arith, length-append s (b'_' ∷ t)) in
    let front : length (s ++ b'_' ∷ t) - 13 ≡ length s = omega arith in
    let short : ltb (length (s ++ b'_' ∷ t)) 13 ≡ false = ground arith in
    rw (short, front, drop-length s (b'_' ∷ t), ht)

enough_chars : (h : Str) → length h ≡ 32 → child_name_tag_len ≤ length (base32_bits (bits h))
enough_chars h e = omega (arith, length-base32_bits (bits h), length-bits h)

module _ (sha256 : Str → Str) (size : (s : Str) → length (sha256 s) ≡ 32) where
  pub length-child_index_tag :
      (parent partition : Str)
      → length (child_index_tag sha256 parent partition) ≡ child_name_tag_len
  unfolding child_index_tag
  length-child_index_tag parent partition =
      length-map-take to_lower child_name_tag_len _ (enough_chars (sha256 _) (size _))

  pub child_index_tag-base32 :
      (parent partition : Str) → all_base32 (child_index_tag sha256 parent partition) ≡ true
  unfolding child_index_tag
  child_index_tag-base32 parent partition =
      all_base32-map-take child_name_tag_len _ (all_base32-map (bits (sha256 _)) (bits-IsBits _))
