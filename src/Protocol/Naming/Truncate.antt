-- ===== src/Protocol/Naming/Truncate.antt =====
-- `truncateUTF8` keeps whole runes: at most so many bytes, and of valid UTF-8 a prefix.
use partitionctl.Base.{
  ℕ, zero, suc, ◌+◌, ◌≤◌, ◌≡◌, refl, ap, ◌∙◌, sym, true, false, [], ◌∷◌, ◌++◌, Str, length, take,
  drop, ltb, arith, length-append, Option-cases, Bool-cases, inl, inr,
}
use mathlib.Core.List.{append_assoc}
use partitionctl.Base.Utf8.{decode_rune, rune_len, encode_rune, rune_at, valid_from, valid_string}
use partitionctl.Base.Utf8.Laws.{length-encode_rune, encode-decode_rune}
use partitionctl.Protocol.Naming.{truncate_from, truncate_utf8}

length-truncate_from :
    (k used limit : ℕ) (s : Str)
    → used ≤ limit
    → used + length (truncate_from k used limit s) ≤ limit
unfolding truncate_from
length-truncate_from k used limit [] h = omega arith
length-truncate_from (suc k) used limit (b ∷ s) h = length-truncate_from k used limit s h
length-truncate_from zero used limit (b ∷ s) h =
    let (r, k) = rune_at b s in
    ground (
      arith,
      length-truncate_from k (used + rune_len r) limit s,
      length-append (encode_rune r) (truncate_from k (used + rune_len r) limit s),
      length-encode_rune r,
    )

-- The truncated text has at most `max_bytes` bytes.
pub length-truncate_utf8 : (s : Str) (n : ℕ) → length (truncate_utf8 s n) ≤ n
unfolding truncate_utf8
length-truncate_utf8 s n = omega (arith, length-truncate_from zero 0 n s)

-- In valid UTF-8 a rune is its bytes.
pub encode-rune_at :
    (b : ℕ) (s : Str)
    → valid_from zero (b ∷ s) ≡ true
    → (encode_rune (rune_at b s).0 ≡ b ∷ take (rune_at b s).1 s)
      × (valid_from (rune_at b s).1 s ≡ true)
unfolding rune_at valid_from
encode-rune_at b s h = elim (Option-cases (decode_rune b s)) [
  | inl bad ↦ cc (bad, h)
  | inr ((r, k), good) ↦ (
    rw (good, rune_at) (encode-decode_rune b s good),
    rw (good, rune_at) (rw (good, valid_from) at h),
  )
]

take-drop : (k : ℕ) (s : Str) → take k s ++ drop k s ≡ s
take-drop zero s = refl
take-drop (suc k) [] = refl
take-drop (suc k) (c ∷ s) = ap (λ t. c ∷ t) (take-drop k s)

truncate_from-prefix :
    (k used limit : ℕ) (s : Str)
    → valid_from k s ≡ true
    → (rest : Str) × (truncate_from k used limit s ++ rest ≡ drop k s)
unfolding truncate_from
truncate_from-prefix zero used limit [] h = ([], refl)
truncate_from-prefix (suc k) used limit [] h = ([], refl)
truncate_from-prefix (suc k) used limit (b ∷ s) h =
    truncate_from-prefix k used limit s (unfold valid_from in h)
truncate_from-prefix zero used limit (b ∷ s) h =
    let (r, k) = rune_at b s in
    let (bytes, valid) = encode-rune_at b s h in
    let (rest, e) = truncate_from-prefix k (used + rune_len r) limit s valid in
    elim (Bool-cases (ltb limit (used + rune_len r))) [
      | inl over ↦ (b ∷ s, rw over)
      | inr fits ↦ (rest, rw fits (rw (bytes, append_assoc, e, take-drop)))
    ]

pub truncate_utf8-prefix :
    (s : Str) (n : ℕ) → valid_string s ≡ true → (rest : Str) × (truncate_utf8 s n ++ rest ≡ s)
unfolding truncate_utf8 valid_string
truncate_utf8-prefix s n h = truncate_from-prefix zero 0 n s h

truncate_from_whole :
    (k used limit : ℕ) (s : Str)
    → valid_from k s ≡ true
    → used + length (drop k s) ≤ limit
    → truncate_from k used limit s ≡ drop k s
unfolding truncate_from
truncate_from_whole zero used limit [] h fits = refl
truncate_from_whole (suc k) used limit [] h fits = refl
truncate_from_whole (suc k) used limit (b ∷ s) h fits =
    truncate_from_whole k used limit s (unfold valid_from in h) fits
truncate_from_whole zero used limit (b ∷ s) h fits =
    let (r, k) = rune_at b s in
    let (bytes, valid) = encode-rune_at b s h in
    let parts : length s ≡ length (take k s) + length (drop k s) =
      ap length (sym (take-drop k s)) ∙ length-append (take k s) (drop k s) in
    let len : rune_len r ≡ suc (length (take k s)) = sym (length-encode_rune r) ∙ ap length bytes in
    let under : ltb limit (used + rune_len r) ≡ false = ground arith in
    rw under
      (rw (truncate_from_whole k (used + rune_len r) limit s valid (omega arith), bytes, take-drop))

-- Valid UTF-8 that fits is kept whole.
pub truncate_utf8_whole :
    (s : Str) (n : ℕ) → valid_string s ≡ true → length s ≤ n → truncate_utf8 s n ≡ s
unfolding truncate_utf8 valid_string
truncate_utf8_whole s n h fits = truncate_from_whole zero 0 n s h (omega arith)
